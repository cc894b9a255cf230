-- ===== src/Release/ProcessBackports.antt =====
-- The subcommand that cherry-picks pending backports, in
-- tools/private/release/process_backports.py.
pub mod Run
pub mod Local
pub mod DryRun
pub mod Outcome
pub mod Reset
use rules_python.Base.{
  nat_eq, text_eq, ℕ, ◌+◌, Bool, true, false, not, ◌&&◌, ◌||◌, Option, none, some, List, [], ◌∷◌,
  ◌++◌, Text, ◌==◌, if◌then◌else◌, codes, is_empty, length, drop, take, any, select, Error, Result,
  ok, err, value_error, key_error, max,
}
use rules_python.Base.Dict.{Dict, get, put}
use rules_python.Text.{lower, starts_with, lstrip_by, split, join, strip, decimal}
use rules_python.Release.Versions.{is_digit, number, int_of, get_latest_rc_tag}
use rules_python.Release.Action.{
  Call, Outside, Action, ask, tell, attempt, finally, pure, lift, ◌>>=◌, ◌>>◌, get_issue_body,
  get_issue_title, update_issue_body, add_comment_reaction, replace_version_next, update_changelog,
  today,
}
use rules_python.Release.Git
use rules_python.Release.Issue.{update_task_in_body}
use rules_python.Release.Issue.State.{ReleaseTask, parse_checklist_state}
use rules_python.Release.Issue.Tasks.{add_rc_task_to_body, add_sync_changelog_task_to_body}
use rules_python.Release.Issue.Backports.{
  BackportTask, Item, parse_backports, add_backports_to_body,
}
use rules_python.Release.PullRequests.{
  resolve_pr_number, resolve_merge_commits_for_prs, lstrip_hash,
}

pub record Args : Type 0 where
  pub issue : ℕ
  pub remote : Text
  pub add : List Text
  pub triggering_comment : Option ℕ
  pub dry_run : Bool

-- `shas`, `sha_to_item`, `failed_prs` and `body` of `_process_pr_commit_infos`, whose list of
-- ignored pull requests nothing reads.
pub record Sorted : Type 0 where
  pub shas : List Text
  pub items : Dict Text BackportTask
  pub failed : List Text
  pub body : Text

pub record CherryPicked : Type 0 where
  pub failed : List Text
  pub body : Text

-- What the loop over the commits is given, the issue and the branch among it.
pub record Target : Type 0 where
  pub issue : ℕ
  pub remote : Text
  pub dry_run : Bool
  pub version : Text
  pub branch : Text
  pub rc_suffix : Text

-- A text that is missing or empty counts as false.
abbrev pub truthy : Option Text → Option Text
truthy none = none
truthy (some []) = none
truthy (some (c ∷ s)) = some (c ∷ s)

abbrev pub item_of : Option BackportTask → Result BackportTask
item_of none = err key_error
item_of (some item) = ok item

abbrev pub amended : Text → ℕ → Text
amended message issue = strip message ++ (10 ∷ 10 ∷ (codes "Work towards #" ++ decimal issue))

abbrev pub done_in : Text → Text → Dict Text Text
done_in rc sha = (codes "status", codes "done") ∷ (codes "rc", rc) ∷ (codes "commit", sha) ∷ []

module _ (w : Outside) where
  abbrev pub put_issue_body : ℕ → Result Text → Text → Action Text
  put_issue_body issue (err e) body = pure body
  put_issue_body issue (ok updated) body =
      attempt (tell w (update_issue_body issue updated) >> pure updated) (λ e. pure updated)

  -- `try: body = update_task_in_body(...); update_issue_body(issue, body) except Exception: ...`,
  -- and what `body` is behind it.
  abbrev pub mark_task : ℕ → Text → Text → Bool → Dict Text Text → Action Text
  mark_task issue body pr_ref checked metadata =
      put_issue_body issue (update_task_in_body body pr_ref checked metadata) body

  abbrev pub mark_unless : Bool → ℕ → Text → Text → Bool → Dict Text Text → Action Text
  mark_unless true issue body pr_ref checked metadata = pure body
  mark_unless false issue body pr_ref checked metadata =
      mark_task issue body pr_ref checked metadata

  abbrev pub status_only : Text → Dict Text Text
  status_only status = (codes "status", status) ∷ []

  abbrev pub or_unmerged : Text → Text
  or_unmerged status = if is_empty status then codes "error-unmerged-pr" else status

  abbrev pub sort_info : Bool → ℕ → BackportTask → Option Text → Sorted → Action Sorted
  sort_info dry_run issue item (some sha) s =
      pure (record s { shas = s.shas ++ (sha ∷ []); items = put sha item s.items })
  sort_info dry_run issue item none s =
      if item.status == codes "open-pr" || item.status == codes "draft-pr" then pure s else (do
        body ←
            mark_unless dry_run issue s.body item.pr_ref false
              (status_only (or_unmerged item.status))
        pure (record s { failed = s.failed ++ (item.pr_ref ∷ []); body = body }))

  abbrev pub process_pr_commit_infos : Bool → ℕ → List BackportTask → Sorted → Action Sorted
  process_pr_commit_infos dry_run issue [] s = pure s
  process_pr_commit_infos dry_run issue (item ∷ items) s =
      sort_info dry_run issue item (truthy item.commit) s
      >>= process_pr_commit_infos dry_run issue items

  -- The commit is made on the local branch, and amended.
  abbrev pub pick_commit : Target → Text → Action (Unit {0})
  pick_commit t sha = do
    Git.cherry_pick w sha
    tell w (replace_version_next t.version)
    release_date ← ask w today
    tell w (update_changelog t.version release_date)
    Git.add_modified_and_deleted w
    message ← Git.get_commit_message w (codes "HEAD")
    Git.commit w (amended message t.issue) true false

  abbrev pub push_commit : Target → BackportTask → Text → Action Text
  push_commit t item body = do
    Git.push w t.remote t.branch false false
    new_sha ← Git.get_commit_sha w (codes "HEAD") true
    mark_task t.issue body item.pr_ref true (done_in t.rc_suffix new_sha)

  abbrev pub push_unless : Bool → Target → BackportTask → Text → Action Text
  push_unless true t item body = pure body
  push_unless false t item body = push_commit t item body

  -- The `try` of one commit: the body, and the references that failed.
  abbrev pub try_commit : Target → Text → BackportTask → Text → Action CherryPicked
  try_commit t sha item body = do
    pick_commit t sha
    updated ← push_unless t.dry_run t item body
    pure (record { failed = []; body = updated })

  abbrev pub abort_quietly : Action (Unit {0})
  abort_quietly = attempt (Git.cherry_pick_abort w) (λ e. pure tt)

  -- Its `except`.
  abbrev pub fail_commit : Target → BackportTask → Text → Error → Action CherryPicked
  fail_commit t item body e = do
    abort_quietly
    updated ←
        mark_unless t.dry_run t.issue body item.pr_ref false
          (status_only (codes "error-merge-conflict"))
    pure (record { failed = item.pr_ref ∷ []; body = updated })

  abbrev pub cherry_pick_item : Target → Text → BackportTask → Text → Action CherryPicked
  cherry_pick_item t sha item body = attempt (try_commit t sha item body) (fail_commit t item body)

  -- `_cherry_pick_and_update_prs`
  abbrev pub cherry_pick_and_update_prs :
      Target → Dict Text BackportTask → List Text → Text → Action CherryPicked
  cherry_pick_and_update_prs t items [] body = pure (record { failed = []; body = body })
  cherry_pick_and_update_prs t items (sha ∷ shas) body = do
    item ← lift (item_of (get sha items))
    first ← cherry_pick_item t sha item body
    rest ← cherry_pick_and_update_prs t items shas first.body
    pure (record { failed = first.failed ++ rest.failed; body = rest.body })
