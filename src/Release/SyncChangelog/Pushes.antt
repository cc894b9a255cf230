-- ===== src/Release/SyncChangelog/Pushes.antt =====
-- The branches that tools/private/release/sync_changelog.py pushes.
use rules_python.Base.{
  nat_eq, text_eq, ℕ, Bool, true, false, Option, none, some, List, [], ◌∷◌, Text, codes,
  if◌then◌else◌, is_empty, Result, ok, err, All, ◌≡◌, refl, ℕ_discrete, text_dec,
}
use rules_python.Text.{starts_with, starts_with-append, decimal}
use rules_python.Release.Action.{Call, git, Outside, Issue}
use rules_python.Release.Action.Keeps.{
  Keeps, pure-Keeps, lift-Keeps, >>=-Keeps, attempt-Keeps, finally-Keeps, if-Keeps, ask-Keeps,
  tell-Keeps, ask_issues-Keeps,
}
use rules_python.Release.Git
use rules_python.Release.ReleaseTitle.{title_version, given}
use rules_python.Release.ProcessBackports.Local.{is_push}
use rules_python.Release.SyncChangelog.{
  Args, Environment, Sync, quietly, post_failure_comment, fail, update_sync_tasks, finish,
  push_and_create, enter_branch, sync_on_branch, sync_clean, sync_prs, sync_version, pending_prs,
  sync_or_comment, sync_found, sync_issue, run,
}

abbrev last_text : List Text → Text
last_text [] = []
last_text (a ∷ []) = a
last_text (a ∷ b ∷ l) = last_text (b ∷ l)

abbrev names_sync_branch : Text → Bool
names_sync_branch ref = starts_with ref (codes "sync-changelog-")

-- A push names a branch of a sync as the last argument.
abbrev pushes_to_sync : Call → Bool
pushes_to_sync (git args) = if is_push args then names_sync_branch (last_text args) else true
pushes_to_sync c = true

abbrev pub IsSyncPush : Call → Type 0
IsSyncPush c = pushes_to_sync c ≡ true

module _ (env : Environment) (sha256 : Text → Text) (w : Outside) where
  succeeds-Keeps :
      (args : List Text) → IsSyncPush (git args) → Keeps IsSyncPush (Git.succeeds w args)
  succeeds-Keeps args h =
      attempt-Keeps (>>=-Keeps (ask-Keeps w _ h) (λ a. pure-Keeps true))
        (λ e. if-Keeps (Git.is_process_error e) (pure-Keeps false) (lift-Keeps _))

  branch_exists-Keeps : (branch : Text) → Keeps IsSyncPush (Git.branch_exists w branch)
  unfolding ℕ_discrete text_dec
  branch_exists-Keeps branch = succeeds-Keeps _ refl

  checkout_tracking-Keeps :
      (ref remote : Text) → Keeps IsSyncPush (Git.checkout_tracking w ref false remote)
  unfolding ℕ_discrete text_dec
  checkout_tracking-Keeps ref remote = if-Keeps (is_empty remote) (tell-Keeps w _ refl) (
      >>=-Keeps (branch_exists-Keeps ref) (λ exists.
        >>=-Keeps (tell-Keeps w _ refl)
          (λ a. if-Keeps exists (tell-Keeps w _ refl) (pure-Keeps tt))))

  checkout_plain-Keeps :
      (ref : Text) (create : Bool) → Keeps IsSyncPush (Git.checkout_plain w ref create)
  unfolding ℕ_discrete text_dec
  checkout_plain-Keeps ref create = tell-Keeps w _ refl

  quietly-Keeps : {body : _} → Keeps IsSyncPush body → Keeps IsSyncPush (quietly env sha256 w body)
  quietly-Keeps f = attempt-Keeps f (λ e. pure-Keeps tt)

  post_failure_comment-Keeps :
      (issue : ℕ) → Keeps IsSyncPush (post_failure_comment env sha256 w issue)
  post_failure_comment-Keeps issue =
      quietly-Keeps (>>=-Keeps (ask-Keeps w _ refl) (λ run. tell-Keeps w _ refl))

  fail-Keeps : (issue : ℕ) → Keeps IsSyncPush (fail env sha256 w issue)
  fail-Keeps issue = >>=-Keeps (post_failure_comment-Keeps issue) (λ a. pure-Keeps 1)

  update_sync_tasks-Keeps :
      (s : Sync) (pr_num : Text) → Keeps IsSyncPush (update_sync_tasks env sha256 w s pr_num)
  update_sync_tasks-Keeps s pr_num =
      >>=-Keeps (ask-Keeps w _ refl)
        (λ body. >>=-Keeps (lift-Keeps _) (λ updated. tell-Keeps w _ refl))

  finish-Keeps :
      (s : Sync) (url : Text) (pr_num : ℕ) → Keeps IsSyncPush (finish env sha256 w s url pr_num)
  finish-Keeps s url pr_num = >>=-Keeps (quietly-Keeps (tell-Keeps w _ refl)) (λ a.
      >>=-Keeps (quietly-Keeps (update_sync_tasks-Keeps s (decimal pr_num)))
        (λ b. >>=-Keeps (quietly-Keeps (tell-Keeps w _ refl)) (λ c. pure-Keeps 0)))

  push_and_create-Keeps :
      (s : Sync)
      → names_sync_branch s.branch ≡ true
      → Keeps IsSyncPush (push_and_create env sha256 w s)
  unfolding ℕ_discrete text_dec
  push_and_create-Keeps s h = >>=-Keeps (tell-Keeps w _ refl) (λ a.
      >>=-Keeps (tell-Keeps w _ refl) (λ b. >>=-Keeps (tell-Keeps w _ h) (λ c.
        >>=-Keeps (ask-Keeps w _ refl) (λ url. >>=-Keeps (lift-Keeps _) (finish-Keeps s url)))))

  enter_branch-Keeps :
      (branch : Text) (exists : Bool) → Keeps IsSyncPush (enter_branch env sha256 w branch exists)
  unfolding ℕ_discrete text_dec
  enter_branch-Keeps branch true =
      >>=-Keeps (checkout_plain-Keeps branch false) (λ a. tell-Keeps w _ refl)
  enter_branch-Keeps branch false = checkout_plain-Keeps branch true

  sync_on_branch-Keeps :
      (s : Sync)
      → names_sync_branch s.branch ≡ true
      → Keeps IsSyncPush (sync_on_branch env sha256 w s)
  unfolding ℕ_discrete text_dec
  sync_on_branch-Keeps s h = >>=-Keeps (branch_exists-Keeps s.branch) (λ exists.
      >>=-Keeps (enter_branch-Keeps s.branch exists) (λ a. >>=-Keeps (ask-Keeps w _ refl) (λ failed.
        if-Keeps (is_empty failed)
          (>>=-Keeps (ask-Keeps w _ refl)
            (λ changes. if-Keeps (is_empty changes) (pure-Keeps 0) (push_and_create-Keeps s h)))
          (fail-Keeps s.issue))))

  sync_clean-Keeps :
      (s : Sync) → names_sync_branch s.branch ≡ true → Keeps IsSyncPush (sync_clean env sha256 w s)
  unfolding ℕ_discrete text_dec
  sync_clean-Keeps s h = >>=-Keeps (tell-Keeps w _ refl) (λ a.
      >>=-Keeps (checkout_tracking-Keeps (codes "main") s.remote)
        (λ b. finally-Keeps (sync_on_branch-Keeps s h) (checkout_plain-Keeps (codes "main") false)))

  sync_prs-Keeps :
      (args : Args) (issue : ℕ) (version : Text) (prs : Result (List ℕ))
      → Keeps IsSyncPush (sync_prs env sha256 w args issue version prs)
  unfolding ℕ_discrete text_dec
  sync_prs-Keeps args issue version (err e) = fail-Keeps issue
  sync_prs-Keeps args issue version (ok []) = pure-Keeps 0
  sync_prs-Keeps args issue version (ok (p ∷ ps)) = >>=-Keeps (ask-Keeps w _ refl) (λ changes.
      if-Keeps (is_empty changes)
        (sync_clean-Keeps _ (starts_with-append (codes "sync-changelog-") _)) (fail-Keeps issue))

  sync_version-Keeps :
      (args : Args) (issue : ℕ) (body : Text) (version : Option Text)
      → Keeps IsSyncPush (sync_version env sha256 w args issue body version)
  sync_version-Keeps args issue body none = fail-Keeps issue
  sync_version-Keeps args issue body (some version) =
      sync_prs-Keeps args issue version (pending_prs env.repo args.prs body)

  sync_or_comment-Keeps :
      (args : Args) (issue : ℕ) → Keeps IsSyncPush (sync_or_comment env sha256 w args issue)
  sync_or_comment-Keeps args issue =
      attempt-Keeps
        (>>=-Keeps (ask-Keeps w _ refl) (λ body.
          >>=-Keeps (ask-Keeps w _ refl)
            (λ title. sync_version-Keeps args issue body (title_version title))))
        (λ e. >>=-Keeps (post_failure_comment-Keeps issue) (λ a. lift-Keeps _))

  sync_found-Keeps :
      (args : Args) (issues : List Issue) → Keeps IsSyncPush (sync_found env sha256 w args issues)
  sync_found-Keeps args [] = pure-Keeps 1
  sync_found-Keeps args (i ∷ []) = sync_or_comment-Keeps args i.number
  sync_found-Keeps args (i ∷ j ∷ l) = pure-Keeps 1

  sync_issue-Keeps :
      (args : Args) (issue event : Option ℕ)
      → Keeps IsSyncPush (sync_issue env sha256 w args issue event)
  sync_issue-Keeps args (some issue) event = sync_or_comment-Keeps args issue
  sync_issue-Keeps args none (some issue) = sync_or_comment-Keeps args issue
  sync_issue-Keeps args none none = >>=-Keeps (ask_issues-Keeps w [] refl) (sync_found-Keeps args)

  run-Keeps : (args : Args) → Keeps IsSyncPush (run env sha256 w args)
  unfolding run
  run-Keeps args =
      attempt-Keeps (sync_issue-Keeps args (given args.issue) (given env.event_issue))
        (λ e. pure-Keeps 1)

-- A sync of the changelog pushes only branches whose name begins with `sync-changelog-`, whatever
-- git and GitHub answer.
pub run-PushesToSync :
    (env : Environment) (sha256 : Text → Text) (w : Outside) (args : Args)
    → All IsSyncPush (run env sha256 w args []).1
run-PushesToSync env sha256 w args = (run-Keeps env sha256 w args).keeps [] tt
