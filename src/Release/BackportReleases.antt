-- ===== src/Release/BackportReleases.antt =====
-- The subcommand that starts the releases of a backport, in
-- tools/private/release/backport_create_releases.py.
pub mod Gate
use rules_python.Base.{
  nat_eq, text_eq, ℕ, zero, suc, Bool, true, false, not, Option, none, some, List, [], ◌∷◌, ◌++◌,
  Text, ◌==◌, if◌then◌else◌, codes, Result, ok, err, value_error,
}
use rules_python.Base.Dict.{Dict, keys}
use rules_python.Base.Order.{text_lt, sort_by}
use rules_python.Text.{decimal}
use rules_python.Release.Action.{
  Call, Outside, Issue, Action, ask, tell, ask_issues, pure, lift, ◌>>=◌, ◌>>◌, get_issue_body,
  update_issue_body, read_template,
}
use rules_python.Release.Issue.{update_task_in_body}
use rules_python.Release.Issue.Tasks.{add_sync_changelog_task_to_body}
use rules_python.Release.Issue.Backports.{add_backports_to_body}
use rules_python.Release.PullRequests.{resolve_pr_number}
use rules_python.Release.AddBackports.{
  load_release_tracking_template, create_release_tracking_issue, pr_items,
}
use rules_python.Release.BackportIssue.{
  TasksState, numbers, parse_backport_metadata, parse_backport_tasks, is_release_eligible,
}

-- `updated_body` and `changes_made`.
pub record Progress : Type 0 where
  pub body : Text
  pub changed : Bool

abbrev pub not_applied : Text
not_applied = codes "error-later-release-did-not-apply"

abbrev pub task_name : Text → Text
task_name version = codes "Track Release " ++ version

abbrev pub initiated : Text → Dict Text Text
initiated issue_num =
    (codes "status", codes "success") ∷ (codes "release_issue", b'#' ∷ issue_num) ∷ []

-- The numbers of a minor version that was matched as such, so that none of the parts raises.
abbrev pub minor_key : Text → List ℕ
minor_key minor = elim (numbers minor) [ ok parsed ↦ parsed | err e ↦ [] ]

abbrev pub minors_of : TasksState → List Text
minors_of state = sort_by (λ a b. text_lt (minor_key a) (minor_key b)) (keys state.verify)

abbrev pub with_backport : Text → ℕ → Result Text
with_backport body pr = elim (add_backports_to_body body (pr_items (pr ∷ []))) [
  | err e ↦ err e
  | ok added ↦ add_sync_changelog_task_to_body added pr
]

module _ (lt : Text → Text → Bool) (is_prerelease : Text → Bool) (repo : Text) (w : Outside) where
  -- The issue of the release; in a dry run it is not made.
  abbrev pub create_release : Bool → ℕ → Text → Text → Action Text
  create_release true pr version template = pure (codes "<NEW_ISSUE_NUM>")
  create_release false pr version template = do
    issue ←
        create_release_tracking_issue lt is_prerelease repo w version
          (load_release_tracking_template (some version) template)
    body ← ask w (get_issue_body issue)
    updated ← lift (with_backport body pr)
    tell w (update_issue_body issue updated)
    pure (decimal issue)

  abbrev pub release_issue : Bool → ℕ → Text → List Issue → Action Text
  release_issue dry_run pr version [] = do
    template ← ask w read_template
    create_release dry_run pr version template
  release_issue dry_run pr version (i ∷ issues) = pure (decimal i.number)

  abbrev pub initiate : Bool → ℕ → Text → Progress → Action Progress
  initiate dry_run pr version s = do
    issues ← ask_issues w version
    issue_num ← release_issue dry_run pr version issues
    body ← lift (update_task_in_body s.body (task_name version) true (initiated issue_num))
    pure (record { body = body; changed = true })

  abbrev pub postpone : Text → Text → Progress → Action Progress
  postpone version status s = if status == not_applied then pure s else (do
    body ←
        lift (
          update_task_in_body s.body (task_name version) false ((codes "status", not_applied) ∷ []))
    pure (record { body = body; changed = true }))

  abbrev pub process_checked : Bool → Bool → ℕ → Text → Text → Progress → Action Progress
  process_checked true dry_run pr version status s = initiate dry_run pr version s
  process_checked false dry_run pr version status s = postpone version status s

  abbrev pub process_release :
      Bool → ℕ → List Text → TasksState → Text × Text × Option Text → Progress → Action Progress
  process_release dry_run pr minors state (version, status, issue) s =
      if status == codes "success" then pure s else (do
        eligible ← lift (is_release_eligible version minors state.verify)
        process_checked eligible dry_run pr version status s)

  -- The loop over the release tasks.
  abbrev pub process_releases :
      Bool
      → ℕ
      → List Text
      → TasksState
      → Dict Text (Text × Option Text)
      → Progress
      → Action Progress
  process_releases dry_run pr minors state [] s = pure s
  process_releases dry_run pr minors state ((version, status) ∷ releases) s =
      process_release dry_run pr minors state (version, status.0, status.1) s
      >>= process_releases dry_run pr minors state releases

  abbrev pub put_progress : Bool → ℕ → Progress → Action ℕ
  put_progress dry_run issue s =
      if s.changed
      then (if dry_run then pure 0 else (tell w (update_issue_body issue s.body) >> pure 0))
      else pure 0

  abbrev pub run_body : ℕ → Bool → Text → Action ℕ
  run_body issue dry_run body = do
    metadata ← lift (parse_backport_metadata body)
    pr ← lift (resolve_pr_number repo metadata.pr)
    let state = parse_backport_tasks body
    s ←
        process_releases dry_run pr (minors_of state) state state.release
          (record { body = body; changed = false })
    put_progress dry_run issue s

  unfoldable pub run : ℕ → Bool → Action ℕ
  run zero dry_run = lift (err value_error)
  run (suc n) dry_run = do body ← ask w (get_issue_body (suc n)); run_body (suc n) dry_run body
