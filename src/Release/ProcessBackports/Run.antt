-- ===== src/Release/ProcessBackports/Run.antt =====
-- `_run_internal` and `run` of tools/private/release/process_backports.py. A command returns its
-- exit code.
use rules_python.Base.{
  zero, suc, nat_eq, text_eq, ℕ, Bool, true, false, not, ◌&&◌, Option, none, some, List, [], ◌∷◌,
  ◌++◌, Text, if◌then◌else◌, codes, is_empty, select, Error, Result, ok, err, value_error,
}
use rules_python.Base.Dict.{get}
use rules_python.Text.{starts_with, decimal}
use rules_python.Release.Versions.{int_of, get_latest_rc_tag}
use rules_python.Release.Action.{
  Outside, Action, ask, tell, attempt, finally, pure, lift, ◌>>=◌, ◌>>◌, get_issue_body,
  get_issue_title, update_issue_body, add_comment_reaction,
}
use rules_python.Release.Git
use rules_python.Release.Issue.State.{ChecklistState, parse_checklist_state}
use rules_python.Release.Issue.Tasks.{add_rc_task_to_body, add_sync_changelog_task_to_body}
use rules_python.Release.Issue.Backports.{
  BackportTask, Item, parse_backports, add_backports_to_body,
}
use rules_python.Release.PullRequests.{
  resolve_pr_number, resolve_merge_commits_for_prs, lstrip_hash,
}
use rules_python.Release.ReleaseTitle.{
  title_version, branch_name, next_rc, is_text, has_pending_rc, next_rc_num,
}
use rules_python.Release.ProcessBackports.{
  Args, Sorted, Target, process_pr_commit_infos, cherry_pick_and_update_prs,
}

abbrev pub item_to_add : Text → Result ℕ → Item
item_to_add pr_ref (err e) = record {
  ref = pr_ref;
  metadata = (codes "status", codes "error-invalid-pr") ∷ [];
}
item_to_add pr_ref (ok n) = record { ref = b'#' ∷ decimal n; metadata = [] }

abbrev pub items_to_add : Text → List Text → List Item
items_to_add repo [] = []
items_to_add repo (r ∷ rs) = item_to_add r (resolve_pr_number repo r) ∷ items_to_add repo rs

abbrev pub is_invalid : Item → Bool
is_invalid item = is_text (codes "error-invalid-pr") (get (codes "status") item.metadata)

abbrev pub add_sync : Text → Result ℕ → Result Text
add_sync body (err e) = err e
add_sync body (ok n) = add_sync_changelog_task_to_body body n

abbrev pub add_syncs : List Item → Result Text → Result Text
add_syncs [] body = body
add_syncs (item ∷ items) (err e) = err e
add_syncs (item ∷ items) (ok body) =
    if is_invalid item
    then add_syncs items (ok body)
    else add_syncs items (add_sync body (int_of (lstrip_hash item.ref)))

abbrev pub add_pending_rc : Text → ChecklistState → Result Text
add_pending_rc body state =
    if has_pending_rc state.rc_tags
    then ok body
    else add_rc_task_to_body body (next_rc_num state.rc_tags)

-- The `try` that adds the backports to the body.
abbrev pub added_body : Text → List Item → Result Text
added_body body items = elim (add_syncs items (add_backports_to_body body items)) [
  | err e ↦ err e
  | ok synced ↦ add_pending_rc synced (parse_checklist_state synced)
]

abbrev pub is_value_error : Error → Bool
is_value_error value_error = true
is_value_error e = false

abbrev pub no_texts : List Text → Bool
no_texts [] = true
no_texts (s ∷ l) = false

abbrev pub is_waiting : BackportTask → Bool
is_waiting t = not t.checked && not (starts_with t.status (codes "error-"))

abbrev pub exit_code : List Text → ℕ
exit_code [] = 0
exit_code (pr ∷ prs) = 1

-- `lt` orders the tags by their versions, and `repo` is `GitHub.repo`.
module _ (lt : Text → Text → Bool) (repo : Text) (w : Outside) where
  abbrev pub reset_if : Bool → Text → Action (Unit {0})
  reset_if true start_sha = Git.reset_hard w start_sha
  reset_if false start_sha = pure tt

  -- The `try: ... finally: ...` on the checked out branch.
  abbrev pub cherry_pick_from : Target → Sorted → List Text → Text → Action ℕ
  cherry_pick_from t s shas start_sha = do
    result ←
        finally (cherry_pick_and_update_prs w t s.items shas s.body) (reset_if t.dry_run start_sha)
    pure (exit_code (s.failed ++ result.failed))

  abbrev pub cherry_pick_on_branch : Target → Sorted → Action ℕ
  cherry_pick_on_branch t s = do
    sorted_shas ← Git.sort_commits_chronologically w s.shas
    Git.fetch w t.remote none false false
    Git.checkout_tracking w t.branch false t.remote
    start_sha ← Git.get_commit_sha w (codes "HEAD") false
    cherry_pick_from t s sorted_shas start_sha

  abbrev pub cherry_pick_if_clean : Target → Sorted → Action ℕ
  cherry_pick_if_clean t s = do
    changes ← Git.status w
    if is_empty changes then cherry_pick_on_branch t s else pure 1

  abbrev pub process_sorted : Target → Sorted → Action ℕ
  process_sorted t s =
      if no_texts s.shas then pure (exit_code s.failed) else cherry_pick_if_clean t s

  abbrev pub process_version : Args → Text → List BackportTask → Option Text → Action ℕ
  process_version args body pending none = pure 1
  process_version args body pending (some version) = do
    Git.fetch w args.remote none true true
    tags ← Git.get_remote_tags w args.remote
    rc_num ← lift (next_rc (get_latest_rc_tag lt version tags))
    infos ← resolve_merge_commits_for_prs w pending
    sorted ←
        process_pr_commit_infos w args.dry_run args.issue infos
          (record { shas = []; items = []; failed = []; body = body })
    process_sorted
        (record {
          issue = args.issue;
          remote = args.remote;
          dry_run = args.dry_run;
          version = version;
          branch = branch_name version;
          rc_suffix = codes "rc" ++ decimal rc_num;
        })
        sorted

  abbrev pub process_pending : Args → Text → List BackportTask → Action ℕ
  process_pending args body [] = pure 0
  process_pending args body (item ∷ items) = do
    title ← ask w (get_issue_title args.issue)
    process_version args body (item ∷ items) (title_version title)

  abbrev pub process_body : Args → Text → Action ℕ
  process_body args body = process_pending args body (select is_waiting (parse_backports body))

  abbrev pub update_unless : Bool → ℕ → Text → Action (Unit {0})
  update_unless true issue body = pure tt
  update_unless false issue body = tell w (update_issue_body issue body)

  -- `except ValueError: return 1`
  abbrev pub process_added : Args → Result Text → Action ℕ
  process_added args (err e) = if is_value_error e then pure 1 else lift (err e)
  process_added args (ok body) = do
    update_unless args.dry_run args.issue body
    process_body args body

  abbrev pub run_from_body : Args → Text → Action ℕ
  run_from_body args body =
      if no_texts args.add
      then process_body args body
      else process_added args (added_body body (items_to_add repo args.add))

  -- `_run_internal`
  unfoldable pub run_internal : Args → Action ℕ
  run_internal args = do body ← ask w (get_issue_body args.issue); run_from_body args body

  abbrev pub react : ℕ → Option ℕ → Action ℕ
  react code none = pure code
  react code (some zero) = pure code
  react code (some (suc comment)) =
      attempt (tell w (add_comment_reaction (suc comment) (codes "-1")) >> pure code)
        (λ e. pure code)

  abbrev pub react_if_failed : Option ℕ → ℕ → Action ℕ
  react_if_failed comment zero = pure zero
  react_if_failed comment (suc code) = react (suc code) comment

  unfoldable pub run : Args → Action ℕ
  run args = attempt (run_internal args) (λ e. pure 1) >>= react_if_failed args.triggering_comment
