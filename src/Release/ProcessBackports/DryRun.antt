-- ===== src/Release/ProcessBackports/DryRun.antt =====
-- A dry run of tools/private/release/process_backports.py changes nothing on the remotes.
use rules_python.Base.{
  zero, suc, nat_eq, text_eq, ℕ, Bool, true, false, Option, none, some, List, [], ◌∷◌, Text, codes,
  is_empty, Result, ok, err, ◌≡◌, refl, All, ℕ_discrete, text_dec,
}
use rules_python.Release.Action.{Call, Outside, add_comment_reaction}
use rules_python.Release.Action.Keeps.{
  Keeps, pure-Keeps, lift-Keeps, >>=-Keeps, attempt-Keeps, finally-Keeps, if-Keeps, ask-Keeps,
  tell-Keeps,
}
use rules_python.Release.Issue.Backports.{BackportTask}
use rules_python.Release.ReleaseTitle.{title_version}
use rules_python.Release.ProcessBackports.Run.{
  reset_if, cherry_pick_on_branch, process_sorted, process_version, process_pending, update_unless,
  process_added, run_internal, react_if_failed, run, no_texts, is_value_error,
}
use rules_python.Release.ProcessBackports.{Args, Sorted, Target}
use rules_python.Release.ProcessBackports.Local.{
  IsLocal, Edits, checkout-Keeps, cherry_pick_and_update_prs-Keeps, process_pr_commit_infos-Keeps,
  resolve-Keeps,
}

module _ {P : Call → Type 0} (local : (c : Call) → IsLocal c → P c) (lt : Text → Text → Bool)
    (repo : Text) (w : Outside) where
  reset_if-Keeps : (b : Bool) (sha : Text) → Keeps P (reset_if lt repo w b sha)
  unfolding ℕ_discrete text_dec
  reset_if-Keeps true sha = tell-Keeps w _ (local _ refl)
  reset_if-Keeps false sha = pure-Keeps tt

  cherry_pick_on_branch-Keeps :
      (t : Target) (s : Sorted)
      → (t.dry_run ≡ false → Edits P)
      → Keeps P (cherry_pick_on_branch lt repo w t s)
  unfolding ℕ_discrete text_dec
  cherry_pick_on_branch-Keeps t s h =
      >>=-Keeps (>>=-Keeps (ask-Keeps w _ (local _ refl)) (λ output. pure-Keeps _)) (λ shas.
        >>=-Keeps (tell-Keeps w _ (local _ refl)) (λ a.
          >>=-Keeps (checkout-Keeps local w t.branch t.remote) (λ b.
            >>=-Keeps (ask-Keeps w _ (local _ refl)) (λ start_sha.
              >>=-Keeps
                (finally-Keeps (cherry_pick_and_update_prs-Keeps local w t s.items shas s.body h)
                  (reset_if-Keeps t.dry_run start_sha))
                (λ result. pure-Keeps _)))))

  process_sorted-Keeps :
      (t : Target) (s : Sorted)
      → (t.dry_run ≡ false → Edits P)
      → Keeps P (process_sorted lt repo w t s)
  unfolding ℕ_discrete text_dec
  process_sorted-Keeps t s h = if-Keeps (no_texts s.shas) (pure-Keeps _) (
      >>=-Keeps (ask-Keeps w _ (local _ refl))
        (λ changes. if-Keeps (is_empty changes) (cherry_pick_on_branch-Keeps t s h) (pure-Keeps 1)))

  process_version-Keeps :
      (args : Args) (body : Text) (pending : List BackportTask) (version : Option Text)
      → (args.dry_run ≡ false → Edits P)
      → Keeps P (process_version lt repo w args body pending version)
  unfolding ℕ_discrete text_dec
  process_version-Keeps args body pending none h = pure-Keeps 1
  process_version-Keeps args body pending (some version) h =
      >>=-Keeps (tell-Keeps w _ (local _ refl)) (λ a.
        >>=-Keeps (>>=-Keeps (ask-Keeps w _ (local _ refl)) (λ output. pure-Keeps _)) (λ tags.
          >>=-Keeps (lift-Keeps _) (λ rc_num. >>=-Keeps (resolve-Keeps local w pending) (λ infos.
            >>=-Keeps (process_pr_commit_infos-Keeps local w args.dry_run args.issue infos _ h)
              (λ sorted. process_sorted-Keeps _ sorted h)))))

  process_pending-Keeps :
      (args : Args) (body : Text) (pending : List BackportTask)
      → (args.dry_run ≡ false → Edits P)
      → Keeps P (process_pending lt repo w args body pending)
  process_pending-Keeps args body [] h = pure-Keeps 0
  process_pending-Keeps args body (item ∷ items) h =
      >>=-Keeps (ask-Keeps w _ (local _ refl))
        (λ title. process_version-Keeps args body (item ∷ items) (title_version title) h)

  update_unless-Keeps :
      (b : Bool) (issue : ℕ) (body : Text)
      → (b ≡ false → Edits P)
      → Keeps P (update_unless lt repo w b issue body)
  update_unless-Keeps true issue body h = pure-Keeps tt
  update_unless-Keeps false issue body h = tell-Keeps w _ (h refl _ refl)

  process_added-Keeps :
      (args : Args) (added : Result Text)
      → (args.dry_run ≡ false → Edits P)
      → Keeps P (process_added lt repo w args added)
  process_added-Keeps args (err e) h = if-Keeps (is_value_error e) (pure-Keeps 1) (lift-Keeps _)
  process_added-Keeps args (ok body) h =
      >>=-Keeps (update_unless-Keeps args.dry_run args.issue body h)
        (λ a. process_pending-Keeps args body _ h)

  pub run_internal-Keeps :
      (args : Args) → (args.dry_run ≡ false → Edits P) → Keeps P (run_internal lt repo w args)
  unfolding run_internal
  run_internal-Keeps args h = >>=-Keeps (ask-Keeps w _ (local _ refl)) (λ body.
      if-Keeps (no_texts args.add) (process_pending-Keeps args body _ h)
        (process_added-Keeps args _ h))

-- A call that a dry run may make: one that changes nothing on the remotes, or the thumbs-down on
-- the comment that started the run.
pub data MayCall (comment : Option ℕ) : Call → Type 0 where
  stays_local : (c : Call) → IsLocal c → MayCall comment c
  thumbs_down : (n : ℕ) → comment ≡ some n → MayCall comment (add_comment_reaction n (codes "-1"))

module _ (lt : Text → Text → Bool) (repo : Text) (w : Outside) where
  react-MayCall :
      (comment : Option ℕ) (code : ℕ)
      → Keeps (MayCall comment) (react_if_failed lt repo w comment code)
  react-MayCall comment zero = pure-Keeps zero
  react-MayCall none (suc code) = pure-Keeps (suc code)
  react-MayCall (some zero) (suc code) = pure-Keeps (suc code)
  react-MayCall (some (suc n)) (suc code) =
      attempt-Keeps
        (>>=-Keeps (tell-Keeps w _ (thumbs_down (suc n) refl)) (λ a. pure-Keeps (suc code)))
        (λ e. pure-Keeps (suc code))

-- A dry run of process-backports, whatever git and GitHub answer, makes no call that tags, pushes, edits an
-- issue or comments on one. The only change it makes on a remote is the thumbs-down on the comment
-- that started it.
pub run-dry :
    (lt : Text → Text → Bool) (repo : Text) (w : Outside) (args : Args)
    → args.dry_run ≡ true
    → All (MayCall args.triggering_comment) (run lt repo w args []).1
unfolding run
run-dry lt repo w args h =
    (>>=-Keeps
        (attempt-Keeps (run_internal-Keeps stays_local lt repo w args (λ e. absurd (cc)))
          (λ e. pure-Keeps 1))
        (λ code. react-MayCall lt repo w args.triggering_comment code)).keeps
      [] tt
