-- ===== src/Release/Promote/Safe.antt =====
-- The calls that tools/private/release/promote.py makes.
use rules_python.Base.{
  ◌⊎◌, nat_eq, text_eq, ℕ, Bool, true, false, Option, none, some, List, [], ◌∷◌, ◌++◌, Text, ◌==◌,
  ==_sound, if◌then◌else◌, codes, Result, ok, err, ◌≡◌, refl, sym, subst, All, ℕ_discrete, text_dec,
  inl, inr,
}
use rules_python.Text.{ends_with}
use rules_python.Release.Versions.{release_branch}
use rules_python.Release.Action.{
  Call, git, Outside, Action, pure, update_issue_body, post_issue_comment,
}
use rules_python.Release.Action.Keeps.{
  Keeps, pure-Keeps, lift-Keeps, >>=-Keeps, attempt-Keeps, if-Keeps, ask-Keeps, tell-Keeps,
  try_ask-Keeps, ask_issues-Keeps, Leads, Keeps-Leads, >>=-Leads,
}
use rules_python.Release.Git
use rules_python.Release.ReleaseTitle.{given, branch_name}
use rules_python.Release.ProcessBackports.Local.{IsLocal}
use rules_python.Release.Promote.{
  Args, Candidate, promote_commit, promote_updated, report_mismatch, check_head, with_head,
  promote_issue, promote_rc, promote_found, find_issue, promote_version, next_from, read_version,
  run,
}

-- A call that publishes the version: the tag stands at a commit that git named as the head of the
-- release branch, and no other reference is pushed.
pub data Publishes (w : Outside) (remote version : Text) : Call → Type 0 where
  tags_head :
      (sha : Text) (log : List Call)
      → w.text log (git (codes "rev-parse" ∷ (remote ++ (b'/' ∷ branch_name version)) ∷ []))
        ≡ ok sha
      → Publishes w remote version (git (codes "tag" ∷ version ∷ sha ∷ []))
  pushes_tag : Publishes w remote version (git (codes "push" ∷ remote ∷ version ∷ []))
  edits_issue :
      (issue : ℕ) (body : Text) → Publishes w remote version (update_issue_body issue body)
  comments : (issue : ℕ) (body : Text) → Publishes w remote version (post_issue_comment issue body)

module _ (lt : Text → Text → Bool) (is_prerelease : Text → Bool) (quote : Text → Text) (w : Outside)
    (args : Args) (version : Text) {P : Call → Type 0} (local : (c : Call) → IsLocal c → P c)
    (publish : args.dry_run ≡ false → (c : Call) → Publishes w args.remote version c → P c) where
  abbrev IsHead : Text → Type 0
  IsHead sha =
      (log : List Call) × (w.text log
          (git (codes "rev-parse" ∷ (args.remote ++ (b'/' ∷ branch_name version)) ∷ []))
        ≡ ok sha)

  promote_commit-Keeps :
      (issue : ℕ) (sha updated : Text)
      → args.dry_run ≡ false
      → IsHead sha
      → Keeps P (promote_commit lt is_prerelease quote w args version issue sha updated)
  promote_commit-Keeps issue sha updated d (log, h) =
      >>=-Keeps (tell-Keeps w _ (publish d _ (tags_head sha log h))) (λ a.
        >>=-Keeps (tell-Keeps w _ (publish d _ pushes_tag)) (λ b.
          >>=-Keeps (tell-Keeps w _ (local _ refl)) (λ c.
            >>=-Keeps (tell-Keeps w _ (publish d _ (edits_issue issue updated))) (λ e.
              >>=-Keeps (ask-Keeps w _ (local _ refl)) (λ run.
                >>=-Keeps (tell-Keeps w _ (publish d _ (comments issue _))) (λ f. pure-Keeps 0))))))

  unless_dry-Keeps :
      (b : Bool) (code : ℕ) (m : Action ℕ)
      → args.dry_run ≡ b
      → (args.dry_run ≡ false → Keeps P m)
      → Keeps P (if b then pure code else m)
  unless_dry-Keeps true code m e f = pure-Keeps code
  unless_dry-Keeps false code m e f = f e

  promote_updated-Keeps :
      (issue : ℕ) (sha : Text) (r : Result Text)
      → IsHead sha
      → Keeps P (promote_updated lt is_prerelease quote w args version issue sha r)
  promote_updated-Keeps issue sha (err e) h = pure-Keeps 1
  promote_updated-Keeps issue sha (ok updated) h =
      unless_dry-Keeps args.dry_run 0 _ refl (λ d. promote_commit-Keeps issue sha updated d h)

  report_mismatch-Keeps :
      (issue : ℕ) (r : Result Text)
      → Keeps P (report_mismatch lt is_prerelease quote w args issue r)
  report_mismatch-Keeps issue (err e) = pure-Keeps 1
  report_mismatch-Keeps issue (ok updated) = unless_dry-Keeps args.dry_run 1 _ refl (λ d.
      >>=-Keeps (tell-Keeps w _ (publish d _ (edits_issue issue updated))) (λ a. pure-Keeps 1))

  same_commit-Keeps :
      (b : Bool) (sha head : Text) (m n : Action ℕ)
      → (sha == head) ≡ b
      → (sha ≡ head → Keeps P m)
      → Keeps P n
      → Keeps P (if b then m else n)
  same_commit-Keeps true sha head m n e f g = f (==_sound sha head e)
  same_commit-Keeps false sha head m n e f g = g

  check_head-Keeps :
      (issue : ℕ) (body head : Text) (rc : Candidate)
      → IsHead head
      → Keeps P (check_head lt is_prerelease quote w args version issue body head rc)
  check_head-Keeps issue body head none h = promote_updated-Keeps issue head _ h
  check_head-Keeps issue body head (some (rc, sha)) h =
      same_commit-Keeps (sha == head) sha head _ _ refl
        (λ e. promote_updated-Keeps issue sha _ (subst (IsHead) (sym e) h))
        (report_mismatch-Keeps issue _)

  promote_issue-Keeps :
      (issue : ℕ) (rc : Candidate)
      → Keeps P (promote_issue lt is_prerelease quote w args version issue rc)
  unfolding ℕ_discrete text_dec
  promote_issue-Keeps issue rc = >>=-Keeps (ask-Keeps w _ (local _ refl)) (λ body.
      >>=-Keeps (tell-Keeps w _ (local _ refl)) (λ a.
        try_ask-Keeps w (with_head lt is_prerelease quote w args version issue body rc)
          (local _ refl) (λ log sha h. check_head-Keeps issue body sha rc (log, h)) (pure-Keeps 1)))

  promote_rc-Keeps :
      (issue : ℕ) (rc : Option Text)
      → Keeps P (promote_rc lt is_prerelease quote w args version issue rc)
  unfolding ℕ_discrete text_dec
  promote_rc-Keeps issue none = pure-Keeps 1
  promote_rc-Keeps issue (some rc) =
      >>=-Keeps (ask-Keeps w _ (local _ refl)) (λ sha. promote_issue-Keeps issue (some (rc, sha)))

  promote_found-Keeps :
      (issue : Option ℕ) → Keeps P (promote_found lt is_prerelease quote w args version issue)
  unfolding ℕ_discrete text_dec
  promote_found-Keeps none = pure-Keeps 1
  promote_found-Keeps (some issue) =
      if-Keeps (ends_with version (codes ".0"))
        (>>=-Keeps (>>=-Keeps (ask-Keeps w _ (local _ refl)) (λ output. pure-Keeps _))
          (λ tags. promote_rc-Keeps issue _))
        (promote_issue-Keeps issue none)

  find_issue-Keeps :
      (issue : Option ℕ) → Keeps P (find_issue lt is_prerelease quote w version issue)
  find_issue-Keeps (some issue) = pure-Keeps _
  find_issue-Keeps none =
      attempt-Keeps
        (>>=-Keeps (ask_issues-Keeps w version (local _ refl))
          (λ issues. >>=-Keeps (lift-Keeps _) (λ n. pure-Keeps _)))
        (λ e. pure-Keeps none)

  promote_version-Keeps : Keeps P (promote_version lt is_prerelease quote w args (some version))
  unfolding ℕ_discrete text_dec
  promote_version-Keeps =
      >>=-Keeps
        (attempt-Keeps (>>=-Keeps (ask-Keeps w _ (local _ refl)) (λ a. pure-Keeps _))
          (λ e. if-Keeps (Git.is_process_error e) (pure-Keeps false) (lift-Keeps _)))
        (λ exists.
          if-Keeps exists (pure-Keeps 1)
            (>>=-Keeps (find_issue-Keeps (given args.issue)) (λ issue. promote_found-Keeps issue)))

module _ (lt : Text → Text → Bool) (is_prerelease : Text → Bool) (quote : Text → Text)
    (w : Outside) where
  next_from-Keeps :
      (current : Text) (tags : List Text) (branch : Option (ℕ × ℕ))
      → Keeps IsLocal (next_from lt is_prerelease quote w current tags branch)
  next_from-Keeps current tags (some branch) = >>=-Keeps (lift-Keeps _) (λ v. pure-Keeps _)
  next_from-Keeps current tags none =
      >>=-Keeps (ask-Keeps w _ refl) (λ a. >>=-Keeps (lift-Keeps _) (λ v. pure-Keeps _))

  read_version-Keeps :
      (version : Option Text) (issue : Option ℕ)
      → Keeps IsLocal (read_version lt is_prerelease quote w version issue)
  unfolding ℕ_discrete text_dec
  read_version-Keeps (some version) issue = pure-Keeps _
  read_version-Keeps none (some issue) = >>=-Keeps (ask-Keeps w _ refl) (λ title. pure-Keeps _)
  read_version-Keeps none none = >>=-Keeps (ask-Keeps w _ refl) (λ current.
      >>=-Keeps (>>=-Keeps (ask-Keeps w _ refl) (λ output. pure-Keeps _))
        (λ tags. next_from-Keeps current tags (release_branch current)))

  -- The version is the one that promote reads: the given one, that of the title, or the next one.
  abbrev pub IsRead : Args → Text → Type 0
  IsRead args version =
      (before : List Call) × ((read_version lt is_prerelease quote w args.version (given args.issue)
          before).0
        ≡ ok (some version))

  -- Nothing is changed on the remotes and no tag is made, but for the calls of one version.
  abbrev pub IsPromotion : Args → List Call → Type 0
  IsPromotion args log =
      All IsLocal log
      ⊎ ((args.dry_run ≡ false)
          × (version : Text) × IsRead args version
          × All (λ c. IsLocal c ⊎ Publishes w args.remote version c) log)

  in_version :
      (remote version : Text) (log : List Call)
      → All IsLocal log
      → All (λ c. IsLocal c ⊎ Publishes w remote version c) log
  in_version remote version [] h = tt
  in_version remote version (c ∷ log) h = (inl h.0, in_version remote version log h.1)

  version-Leads :
      (args : Args) (dry : Bool) (version : Text)
      → args.dry_run ≡ dry
      → IsRead args version
      → Leads IsLocal
          (IsPromotion args)
          (promote_version lt is_prerelease quote w args (some version))
  version-Leads args true version d r =
      Keeps-Leads (λ log h. inl h)
        (promote_version-Keeps lt is_prerelease quote w args version (λ c g. g) (λ e. absurd (cc)))
  version-Leads args false version d r = record {
    leads = λ log h. inr (
      d,
      version,
      r,
      (promote_version-Keeps lt is_prerelease quote w args version (λ c g. inl g)
            (λ e c g. inr g)).keeps
          log (in_version args.remote version log h),
    );
  }

  promote_version-Leads :
      (args : Args) (version : Option Text) (before : List Call)
      → (read_version lt is_prerelease quote w args.version (given args.issue) before).0
        ≡ ok version
      → Leads IsLocal (IsPromotion args) (promote_version lt is_prerelease quote w args version)
  promote_version-Leads args none before e = Keeps-Leads (λ log h. inl h) (pure-Keeps 1)
  promote_version-Leads args (some version) before e =
      version-Leads args args.dry_run version refl (before, e)

  run-Leads : (args : Args) → Leads IsLocal (IsPromotion args) (run lt is_prerelease quote w args)
  unfolding run ℕ_discrete text_dec
  run-Leads args =
      >>=-Leads (λ log h. inl h) (tell-Keeps w _ refl)
        (λ a b e.
          >>=-Leads (λ log h. inl h) (read_version-Keeps args.version (given args.issue))
            (λ version before f. promote_version-Leads args version before f))

-- Whatever git and GitHub answer, promote changes nothing on the remotes and makes no tag; or it is no
-- dry run, and there is one version, the one that promote reads from its arguments, the title of the
-- issue or the tags, such that each other call tags with that version a commit that git has named as
-- the head of that version's release branch on the remote, pushes the tag of that name to the remote,
-- edits an issue, or comments on one.
pub run-Publishes :
    (lt : Text → Text → Bool) (is_prerelease : Text → Bool) (quote : Text → Text) (w : Outside)
    (args : Args)
    → IsPromotion lt is_prerelease quote w args (run lt is_prerelease quote w args []).1
run-Publishes lt is_prerelease quote w args = (run-Leads lt is_prerelease quote w args).leads [] tt
