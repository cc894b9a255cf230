-- ===== src/Release/SyncChangelog.antt =====
-- The subcommand that syncs the changelog of a release to main, in
-- tools/private/release/sync_changelog.py.
pub mod Pushes
use rules_python.Base.{
  nat_eq, text_eq, ℕ, Bool, true, false, not, ◌&&◌, Option, none, some, List, [], ◌∷◌, ◌++◌, Text,
  if◌then◌else◌, codes, is_empty, take, ltb, map, traverse, Result, ok, err,
}
use rules_python.Base.Dict.{Dict}
use rules_python.Base.Order.{sort_by}
use rules_python.Text.{starts_with, split, join, decimal}
use rules_python.Release.Versions.{last_of, int_of}
use rules_python.Release.Action.{
  Outside, Issue, Action, ask, tell, ask_issues, attempt, finally, pure, lift, ◌>>=◌, ◌>>◌,
  get_issue_body, get_issue_title, update_issue_body, post_issue_comment, run_id, process_news,
  create_labelled_pr, enable_auto_merge,
}
use rules_python.Release.Git
use rules_python.Release.Issue.{update_task_in_body}
use rules_python.Release.Issue.State.{ReleaseTask, parse_checklist_state}
use rules_python.Release.Issue.Tasks.{sync_name}
use rules_python.Release.PullRequests.{resolve_pr_number}
use rules_python.Release.ReleaseTitle.{title_version, given, is_text}
use rules_python.Release.Prepare.{pending_metadata, last_or_all}

pub record Args : Type 0 where
  pub issue : Option ℕ
  pub remote : Text
  pub prs : List Text

-- What the environment says; a repository that is not set is the empty text.
pub record Environment : Type 0 where
  pub repo : Text
  pub server_url : Option Text
  pub repository : Text
  pub event_issue : Option ℕ

abbrev pub has_error : Option Text → Bool
has_error none = false
has_error (some status) = starts_with status (codes "error-")

abbrev pub is_pending_sync : ReleaseTask → Bool
is_pending_sync t =
    not t.checked && not (is_text (codes "done") t.status) && not (has_error t.status)

abbrev pub pending_in : Dict ℕ ReleaseTask → List ℕ
pending_in [] = []
pending_in ((n, t) ∷ d) = let rest = pending_in d in if is_pending_sync t then n ∷ rest else rest

abbrev pub pending_prs : Text → List Text → Text → Result (List ℕ)
pending_prs repo [] body = ok (pending_in (parse_checklist_state body).sync_changelogs)
pending_prs repo (p ∷ ps) body = traverse (resolve_pr_number repo) (p ∷ ps)

abbrev pub commit_message : Text → Text
commit_message version =
    codes "chore(release): sync changelog for v" ++ (version ++ codes " backports")

abbrev pub pr_line : ℕ → Text
pr_line pr = codes "- #" ++ decimal pr

abbrev pub pr_body : List ℕ → ℕ → Text
pr_body prs issue = join (10 ∷ []) (
    codes "Updates CHANGELOG.md and removes news files for backports:"
    ∷ (map pr_line prs
        ++ ([]
            ∷ (codes "Work towards #" ++ decimal issue)
            ∷ (codes "Release-Tracking-Issue: #" ++ decimal issue)
            ∷ [])))

abbrev pub set_pending_all : Text → List ℕ → Result Text → Result Text
set_pending_all pr_num [] body = body
set_pending_all pr_num (pr ∷ prs) (err e) = err e
set_pending_all pr_num (pr ∷ prs) (ok body) =
    set_pending_all pr_num prs
      (update_task_in_body body (sync_name pr) false (pending_metadata pr_num))

abbrev pub or_default : Text → Text → Text
or_default a b = if is_empty a then b else a

-- What one sync is about.
pub record Sync : Type 0 where
  pub version : Text
  pub issue : ℕ
  pub remote : Text
  pub prs : List ℕ
  pub branch : Text

abbrev pub sync_branch : (Text → Text) → Text → List ℕ → Text
sync_branch sha256 version prs =
    codes "sync-changelog-"
    ++ (version ++ (b'-' ∷ take 7 (sha256 (join (codes ",") (map decimal prs)))))

-- `sha256` is the digest in hexadecimal. The arguments of `ProcessNews` are the version and the
-- targets, and the answer is the empty text where it returns 0.
module _ (env : Environment) (sha256 : Text → Text) (w : Outside) where
  abbrev pub quietly : Action (Unit {0}) → Action (Unit {0})
  quietly body = attempt body (λ e. pure tt)

  abbrev pub action_url_text : Text → Text
  action_url_text [] = codes "See workflow logs."
  action_url_text (c ∷ run) =
      codes "See [workflow run]("
      ++ ((elim env.server_url [ none ↦ codes "https://github.com" | some url ↦ url ])
          ++ (b'/'
              ∷ (or_default env.repository
                    (or_default env.repo (codes "bazel-contrib/rules_python"))
                  ++ (codes "/actions/runs/" ++ ((c ∷ run) ++ codes ") for logs.")))))

  -- `_post_failure_comment`
  abbrev pub post_failure_comment : ℕ → Action (Unit {0})
  post_failure_comment issue = quietly (do
    run ← ask w run_id
    tell w (
        post_issue_comment issue (
          codes "Warning: Failed to create sync PR to main for backports. "
          ++ action_url_text run)))

  abbrev pub fail : ℕ → Action ℕ
  fail issue = post_failure_comment issue >> pure 1

  abbrev pub update_sync_tasks : Sync → Text → Action (Unit {0})
  update_sync_tasks s pr_num = do
    body ← ask w (get_issue_body s.issue)
    updated ← lift (set_pending_all pr_num s.prs (ok body))
    tell w (update_issue_body s.issue updated)

  abbrev pub finish : Sync → Text → ℕ → Action ℕ
  finish s pr_url pr_num = do
    quietly (tell w (enable_auto_merge pr_num))
    quietly (update_sync_tasks s (decimal pr_num))
    quietly (tell w (post_issue_comment s.issue (codes "Sync changelog PR created: " ++ pr_url)))
    pure 0

  abbrev pub push_and_create : Sync → Action ℕ
  push_and_create s = do
    Git.add_modified_and_deleted w
    Git.commit w (commit_message s.version) false false
    Git.push w s.remote s.branch true true
    pr_url ← ask w (
        create_labelled_pr (commit_message s.version) (pr_body s.prs s.issue)
          (codes "type: sync-changelog"))
    pr_num ← lift (int_of (last_or_all pr_url (last_of (split b'/' pr_url))))
    finish s pr_url pr_num

  abbrev pub push_if_changed : Sync → Action ℕ
  push_if_changed s = do
    changes ← Git.status w
    if is_empty changes then pure 0 else push_and_create s

  abbrev pub enter_branch : Text → Bool → Action (Unit {0})
  enter_branch branch true = Git.checkout_plain w branch false >> Git.reset_hard w (codes "main")
  enter_branch branch false = Git.checkout_plain w branch true

  -- The `try` whose `finally` goes back to main.
  abbrev pub sync_on_branch : Sync → Action ℕ
  sync_on_branch s = do
    exists ← Git.branch_exists w s.branch
    enter_branch s.branch exists
    failed ← ask w (process_news s.version (map decimal s.prs))
    if is_empty failed then push_if_changed s else fail s.issue

  abbrev pub sync_clean : Sync → Action ℕ
  sync_clean s = do
    Git.fetch w s.remote (some (codes "main")) false false
    Git.checkout_tracking w (codes "main") false s.remote
    finally (sync_on_branch s) (Git.checkout_plain w (codes "main") false)

  abbrev pub sync_prs : Args → ℕ → Text → Result (List ℕ) → Action ℕ
  sync_prs args issue version (err e) = fail issue
  sync_prs args issue version (ok []) = pure 0
  sync_prs args issue version (ok (p ∷ ps)) = do
    changes ← Git.status w
    let prs = sort_by ltb (p ∷ ps)
    if is_empty changes
        then sync_clean (record {
          version = version;
          issue = issue;
          remote = args.remote;
          prs = prs;
          branch = sync_branch sha256 version prs;
        })
        else fail issue

  abbrev pub sync_version : Args → ℕ → Text → Option Text → Action ℕ
  sync_version args issue body none = fail issue
  sync_version args issue body (some version) =
      sync_prs args issue version (pending_prs env.repo args.prs body)

  -- `_sync_for_issue`
  abbrev pub sync_for_issue : Args → ℕ → Action ℕ
  sync_for_issue args issue = do
    body ← ask w (get_issue_body issue)
    title ← ask w (get_issue_title issue)
    sync_version args issue body (title_version title)

  -- Its exception is raised again, behind the comment.
  abbrev pub sync_or_comment : Args → ℕ → Action ℕ
  sync_or_comment args issue =
      attempt (sync_for_issue args issue) (λ e. post_failure_comment issue >> lift (err e))

  abbrev pub sync_found : Args → List Issue → Action ℕ
  sync_found args [] = pure 1
  sync_found args (i ∷ []) = sync_or_comment args i.number
  sync_found args (i ∷ j ∷ l) = pure 1

  abbrev pub sync_issue : Args → Option ℕ → Option ℕ → Action ℕ
  sync_issue args (some issue) event = sync_or_comment args issue
  sync_issue args none (some issue) = sync_or_comment args issue
  sync_issue args none none = ask_issues w [] >>= sync_found args

  unfoldable pub run : Args → Action ℕ
  run args = attempt (sync_issue args (given args.issue) (given env.event_issue)) (λ e. pure 1)
