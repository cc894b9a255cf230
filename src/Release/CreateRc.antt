-- ===== src/Release/CreateRc.antt =====
-- The subcommand that tags a release candidate, in tools/private/release/create_rc.py.
pub mod Gate
use rules_python.Base.{
  nat_eq, text_eq, ℕ, zero, suc, Bool, true, false, not, ◌&&◌, ◌||◌, Option, none, some, List, [],
  ◌∷◌, ◌++◌, Text, ◌==◌, if◌then◌else◌, codes, is_empty, take, any, Error, Result, ok, err,
}
use rules_python.Base.Dict.{Dict, get}
use rules_python.Text.{decimal}
use rules_python.Release.Versions.{get_latest_rc_tag}
use rules_python.Release.Action.{
  Call, Outside, Action, ask, tell, attempt, pure, lift, ◌>>=◌, ◌>>◌, get_issue_body,
  get_issue_title, update_issue_body, post_issue_comment, set_github_output, run_id,
}
use rules_python.Release.Git
use rules_python.Release.Issue.{update_task_in_body}
use rules_python.Release.Issue.State.{ReleaseTask, ChecklistState, parse_checklist_state}
use rules_python.Release.Issue.Tasks.{add_rc_task_to_body, rc_name}
use rules_python.Release.Issue.Backports.{BackportTask, parse_backports}
use rules_python.Release.ReleaseTitle.{title_version, branch_name, next_rc, is_text}
use rules_python.Release.ProcessBackports
use rules_python.Release.ProcessBackports.Run.{react_if_failed}

pub record Args : Type 0 where
  pub issue : ℕ
  pub remote : Text
  pub triggering_comment : Option ℕ

abbrev pub repo_url : Text
repo_url = codes "https://github.com/bazel-contrib/rules_python"

abbrev pub is_done : ReleaseTask → Bool
is_done t = is_text (codes "done") t.status

-- A backport that blocks the release candidate.
abbrev pub is_unfinished : BackportTask → Bool
is_unfinished b =
    (b.checked && not (b.status == codes "done"))
    || (not b.checked && not (b.status == codes "ignore"))

abbrev pub is_released : ChecklistState → Bool
is_released state = is_done state.prepare_release && is_done state.create_branch

abbrev pub rc_metadata : Text → Text → Dict Text Text
rc_metadata rc sha =
    (codes "status", codes "done") ∷ (codes "tag", rc) ∷ (codes "commit", take 8 sha) ∷ []

abbrev pub workflow_url : Text → Text → Text
workflow_url file run =
    if is_empty run
    then repo_url ++ (codes "/actions/workflows/" ++ file)
    else repo_url ++ (codes "/actions/runs/" ++ run)

abbrev pub rc_comment : Text → Text → Text → Text
rc_comment rc branch workflow =
    codes "**New Release Candidate Tagged!** 🐍🌿"
    ++ (10
        ∷ 10
        ∷ (codes "Release Candidate **"
            ++ (rc
                ++ (codes "** has been successfully generated and tagged on branch [`"
                    ++ (branch
                        ++ (codes "`]("
                            ++ (repo_url
                                ++ (codes "/tree/"
                                    ++ (branch
                                        ++ (codes ")."
                                            ++ (10
                                                ∷ 10
                                                ∷ (codes "- [Github Release "
                                                    ++ (rc
                                                        ++ (codes "]("
                                                            ++ (repo_url
                                                            ++ (codes "/releases/tag/"
                                                            ++ (rc
                                                            ++ (codes ")"
                                                            ++ (10
                                                            ∷ (codes "- [BCR Entry "
                                                            ++ (rc
                                                            ++ (codes
                                                            "](https://registry.bazel.build/modules/rules_python/"
                                                            ++ (rc
                                                            ++ (codes ")"
                                                            ++ (10
                                                            ∷ (codes
                                                            "- [BCR PRs](https://github.com/bazelbuild/bazel-central-registry/pulls?q=is%3Apr+rules_python+"
                                                            ++ (rc
                                                            ++ (codes ")"
                                                            ++ (10
                                                            ∷ (codes "- [Release workflow status]("
                                                            ++ (workflow
                                                            ++ codes
                                                            ")")))))))))))))))))))))))))))))))

-- The arguments with which the pending backports are processed first.
abbrev pub backport_args : Args → ProcessBackports.Args
backport_args args = record {
  issue = args.issue;
  remote = args.remote;
  add = [];
  triggering_comment = none;
  dry_run = false;
}

module _ (lt : Text → Text → Bool) (repo : Text) (w : Outside) where
  abbrev pub tag_rc : Args → Text → Text → ℕ → Action ℕ
  tag_rc args body version rc_num = do
    sha ← Git.get_commit_sha w (args.remote ++ (b'/' ∷ branch_name version)) false
    Git.tag w (version ++ (codes "-rc" ++ decimal rc_num))
        (args.remote ++ (b'/' ∷ branch_name version))
    Git.push w args.remote (version ++ (codes "-rc" ++ decimal rc_num)) false false
    tell w (set_github_output (codes "tag_name") (version ++ (codes "-rc" ++ decimal rc_num)))
    updated ← lift (
        update_task_in_body body (rc_name rc_num) true
          (rc_metadata (version ++ (codes "-rc" ++ decimal rc_num)) sha))
    tell w (update_issue_body args.issue updated)
    run ← ask w run_id
    tell w (
        post_issue_comment args.issue (
          rc_comment (version ++ (codes "-rc" ++ decimal rc_num)) (branch_name version)
            (workflow_url (codes "release_create_rc.yaml") run)))
    pure 0

  -- The task of the release candidate, which is added where it is missing.
  abbrev pub tag_task : Args → Text → Text → ℕ → Option ReleaseTask → Action ℕ
  tag_task args body version rc_num none = do
    added ← lift (add_rc_task_to_body body rc_num)
    tell w (update_issue_body args.issue added)
    tag_rc args added version rc_num
  tag_task args body version rc_num (some task) =
      if task.checked || is_done task then pure 1 else tag_rc args body version rc_num

  abbrev pub tag_version : Args → Text → ChecklistState → Option Text → Action ℕ
  tag_version args body state none = pure 1
  tag_version args body state (some version) = do
    Git.fetch w args.remote none false false
    Git.fetch w args.remote none true true
    tags ← Git.get_remote_tags w args.remote
    rc_num ← lift (next_rc (get_latest_rc_tag lt version tags))
    tag_task args body version rc_num (get rc_num state.rc_tags)

  -- What follows once the body of the issue is read.
  abbrev pub tag_if_ready : Args → Text → Action ℕ
  tag_if_ready args body =
      if is_released (parse_checklist_state body)
      then (if any is_unfinished (parse_backports body)
          then pure 1
          else ask w (get_issue_title args.issue) >>= λ title.
              tag_version args body (parse_checklist_state body) (title_version title))
      else pure 1

  abbrev pub run_if_processed : Args → ℕ → Action ℕ
  run_if_processed args zero = ask w (get_issue_body args.issue) >>= tag_if_ready args
  run_if_processed args (suc code) = pure (suc code)

  -- `_run_internal`
  unfoldable pub run_internal : Args → Action ℕ
  run_internal args = do
    code ← ProcessBackports.Run.run lt repo w (backport_args args)
    run_if_processed args code

  unfoldable pub run : Args → Action ℕ
  run args =
      attempt (run_internal args) (λ e. pure 1)
      >>= react_if_failed lt repo w args.triggering_comment
