-- ===== src/Release/BackportReleases/Gate.antt =====
-- The calls that tools/private/release/backport_create_releases.py makes.
use rules_python.Base.{
  text_eq, ℕ, suc, Bool, true, false, Option, List, [], ◌∷◌, ◌++◌, Text, ◌==◌, codes, All, ok, ◌≡◌,
  ◌∙◌, refl, sym, ap, subst,
}
use mathlib.Core.List.{Memᴰ}
use rules_python.Base.Dict.{Dict}
use rules_python.Release.Action.{
  Call, Outside, Issue, get_issue_body, update_issue_body, create_issue, then_call, ◌>>=◌, ask,
}
use rules_python.Release.Action.Keeps.{
  Keeps, pure-Keeps, lift-Keeps, >>=-Keeps, if-Keeps, if_known-Keeps, ask-Keeps, tell-Keeps,
  ask_issues-Keeps, lift_then-Keeps,
}
use rules_python.Release.ProcessBackports.Local.{IsLocal}
use rules_python.Release.BackportIssue.{TasksState, parse_backport_tasks, is_release_eligible}
use rules_python.Release.BackportIssue.Eligible.{AllVerified, is_release_eligible-AllVerified}
use rules_python.Release.BackportReleases.{
  Progress, not_applied, minors_of, create_release, release_issue, process_checked, process_release,
  process_releases, put_progress, run_body, run,
}

-- A release of the backport issue that is not marked as done, and whose own and later minor
-- versions are all verified.
abbrev pub IsOpen : TasksState → Text → Type 0
IsOpen state version =
    (task : Text × Option Text) × Memᴰ (version, task) state.release
    × ((task.0 == codes "success") ≡ false)
    × AllVerified version (minors_of state) state.verify

-- A call that changes nothing on the remotes; and in a run that is not dry, one that edits an issue
-- or creates the issue of an open release.
pub data MayCall (dry_run : Bool) (state : TasksState) : Call → Type 0 where
  changes_nothing : (c : Call) → IsLocal c → MayCall dry_run state c
  edits :
      (issue : ℕ) (body : Text)
      → dry_run ≡ false
      → MayCall dry_run state (update_issue_body issue body)
  creates :
      (version body : Text)
      → dry_run ≡ false
      → IsOpen state version
      → MayCall dry_run state (create_issue (codes "Release " ++ version) body)

All-later :
    {A : Type 0} (a : A) (l k : List A) → All (λ x. Memᴰ x l) k → All (λ x. Memᴰ x (a ∷ l)) k
All-later a l [] h = tt
All-later a l (x ∷ k) h = (Memᴰ.tail h.0, All-later a l k h.1)

All-members : {A : Type 0} (l : List A) → All (λ x. Memᴰ x l) l
All-members [] = tt
All-members (x ∷ l) = (Memᴰ.head refl, All-later x l l (All-members l))

module _ (lt : Text → Text → Bool) (is_prerelease : Text → Bool) (repo : Text) (w : Outside)
    (state : TasksState) where
  create_release-Keeps :
      (dry_run : Bool) (pr : ℕ) (version template : Text)
      → IsOpen state version
      → Keeps
          (MayCall dry_run state)
          (create_release lt is_prerelease repo w dry_run pr version template)
  create_release-Keeps true pr version template v = pure-Keeps _
  create_release-Keeps false pr version template v =
      >>=-Keeps (>>=-Keeps (ask-Keeps w _ (creates version _ refl v)) (λ output. lift-Keeps _))
        (λ issue. >>=-Keeps (ask-Keeps w _ (changes_nothing _ refl)) (λ body.
          >>=-Keeps (lift-Keeps _)
            (λ updated. >>=-Keeps (tell-Keeps w _ (edits issue updated refl)) (λ a. pure-Keeps _))))

  release_issue-Keeps :
      (dry_run : Bool) (pr : ℕ) (version : Text) (issues : List Issue)
      → IsOpen state version
      → Keeps
          (MayCall dry_run state)
          (release_issue lt is_prerelease repo w dry_run pr version issues)
  release_issue-Keeps dry_run pr version [] v =
      >>=-Keeps (ask-Keeps w _ (changes_nothing _ refl))
        (λ template. create_release-Keeps dry_run pr version template v)
  release_issue-Keeps dry_run pr version (i ∷ issues) v = pure-Keeps _

  process_checked-Keeps :
      (eligible dry_run : Bool) (pr : ℕ) (version status : Text) (s : Progress)
      → (eligible ≡ true → IsOpen state version)
      → Keeps
          (MayCall dry_run state)
          (process_checked lt is_prerelease repo w eligible dry_run pr version status s)
  process_checked-Keeps true dry_run pr version status s h =
      >>=-Keeps (ask_issues-Keeps w version (changes_nothing _ refl)) (λ issues.
        >>=-Keeps (release_issue-Keeps dry_run pr version issues (h refl))
          (λ issue_num. >>=-Keeps (lift-Keeps _) (λ body. pure-Keeps _)))
  process_checked-Keeps false dry_run pr version status s h =
      if-Keeps (status == not_applied) (pure-Keeps s)
        (>>=-Keeps (lift-Keeps _) (λ body. pure-Keeps _))

  process_release-Keeps :
      (dry_run : Bool) (pr : ℕ) (version : Text) (task : Text × Option Text) (s : Progress)
      → Memᴰ (version, task) state.release
      → Keeps (MayCall dry_run state) (
          process_release lt is_prerelease repo w dry_run pr
            (minors_of state)
            state
            (version, task.0, task.1)
            s)
  process_release-Keeps dry_run pr version task s m =
      if_known-Keeps (task.0 == codes "success") (λ e. pure-Keeps s)
        (λ e.
          lift_then-Keeps (is_release_eligible version (minors_of state) state.verify)
            (λ eligible h. process_checked-Keeps eligible dry_run pr version task.0 s (λ t. (
              task,
              m,
              e,
              is_release_eligible-AllVerified version (minors_of state) state.verify (h ∙ ap ok t),
            ))))

  process_releases-Keeps :
      (dry_run : Bool) (pr : ℕ) (releases : Dict Text (Text × Option Text)) (s : Progress)
      → All (λ r. Memᴰ r state.release) releases
      → Keeps
          (MayCall dry_run state)
          (process_releases lt is_prerelease repo w dry_run pr (minors_of state) state releases s)
  process_releases-Keeps dry_run pr [] s m = pure-Keeps s
  process_releases-Keeps dry_run pr ((version, task) ∷ releases) s m =
      >>=-Keeps (process_release-Keeps dry_run pr version task s m.0)
        (λ t. process_releases-Keeps dry_run pr releases t m.1)

  put_progress-Keeps :
      (dry_run : Bool) (issue : ℕ) (s : Progress)
      → Keeps (MayCall dry_run state) (put_progress lt is_prerelease repo w dry_run issue s)
  put_progress-Keeps true issue s = if-Keeps s.changed (pure-Keeps 0) (pure-Keeps 0)
  put_progress-Keeps false issue s =
      if-Keeps s.changed (>>=-Keeps (tell-Keeps w _ (edits issue s.body refl)) (λ a. pure-Keeps 0))
        (pure-Keeps 0)

module _ (lt : Text → Text → Bool) (is_prerelease : Text → Bool) (repo : Text) (w : Outside) where
  run_body-Keeps :
      (issue : ℕ) (dry_run : Bool) (body : Text)
      → Keeps
          (MayCall dry_run (parse_backport_tasks body))
          (run_body lt is_prerelease repo w issue dry_run body)
  run_body-Keeps issue dry_run body = >>=-Keeps (lift-Keeps _) (λ metadata.
      >>=-Keeps (lift-Keeps _) (λ pr.
        >>=-Keeps (process_releases-Keeps lt is_prerelease repo w _ dry_run pr _ _ (All-members _))
          (λ s. put_progress-Keeps lt is_prerelease repo w _ dry_run issue s)))

  -- If the body of the backport issue can be read, the subcommand makes only calls that change
  -- nothing on the remotes; unless it is a dry run, it may also edit issues, and create the issue of
  -- a release that is a task of that body, is not marked as done, and for which every minor version
  -- of the backport, from the release's own on, was verified.
  pub run-MayCall :
      (n : ℕ) (dry_run : Bool) (body : Text)
      → w.text [] (get_issue_body (suc n)) ≡ ok body
      → All
          (MayCall dry_run (parse_backport_tasks body))
          (run lt is_prerelease repo w (suc n) dry_run []).1
  unfolding run ask ◌>>=◌
  run-MayCall n dry_run body h =
      subst
        (λ r.
          All (MayCall dry_run (parse_backport_tasks body))
            (then_call r (run_body lt is_prerelease repo w (suc n) dry_run)
              (get_issue_body (suc n) ∷ [])).1)
        (sym h)
        ((run_body-Keeps (suc n) dry_run body).keeps (get_issue_body (suc n) ∷ [])
          (changes_nothing _ refl, tt))
