-- ===== src/Release/Promote.antt =====
-- The subcommand that promotes a release candidate, in tools/private/release/promote.py.
pub mod Safe
use rules_python.Base.{
  nat_eq, text_eq, ℕ, zero, suc, Bool, true, false, not, ◌&&◌, ◌||◌, Option, none, some, List, [],
  ◌∷◌, ◌++◌, Text, ◌==◌, if◌then◌else◌, codes, is_empty, take, select, Error, Result, ok, err,
  value_error,
}
use rules_python.Base.Dict.{Dict}
use rules_python.Text.{ends_with}
use rules_python.Release.Versions.{get_latest_rc_tag, release_branch, determine_next_version}
use rules_python.Release.Action.{
  Call, Outside, Issue, Action, ask, tell, ask_issues, attempt, pure, lift, ◌>>=◌, ◌>>◌,
  get_issue_body, get_issue_title, update_issue_body, post_issue_comment, set_github_output, run_id,
  should_increment_minor,
}
use rules_python.Release.Git
use rules_python.Release.Issue.{update_task_in_body}
use rules_python.Release.ReleaseTitle.{given, title_version, branch_name}
use rules_python.Release.CreateRc.{repo_url, workflow_url}

pub record Args : Type 0 where
  pub version : Option Text
  pub issue : Option ℕ
  pub remote : Text
  pub dry_run : Bool

-- `get_release_tracking_issue`: the one open issue with the title of the version.
abbrev pub single_issue : List Issue → Result ℕ
single_issue [] = err value_error
single_issue (i ∷ []) = ok i.number
single_issue (i ∷ j ∷ l) = err value_error

abbrev pub matching : Text → List Issue → List Issue
matching version issues = select (λ i. i.title == codes "Release " ++ version) issues

abbrev pub final_metadata : Text → Text → Dict Text Text
final_metadata version sha =
    (codes "status", codes "done") ∷ (codes "tag", version) ∷ (codes "commit", take 8 sha) ∷ []

abbrev pub mismatch_metadata : Text → Text → Text → Dict Text Text
mismatch_metadata rc branch_sha rc_sha =
    (codes "status", codes "error-rc-tag-not-branch-head")
    ∷ (codes "rc", rc)
    ∷ (codes "branch_commit", take 8 branch_sha)
    ∷ (codes "tag_commit", take 8 rc_sha)
    ∷ []

-- `quote` is `urllib.parse.quote`.
abbrev pub final_comment : (Text → Text) → Text → Text → Text → Text
final_comment quote version branch workflow =
    codes "**New Release Tagged!** 🐍🌿"
    ++ (10
        ∷ 10
        ∷ (codes "Version **"
            ++ (version
                ++ (codes "** has been successfully generated and tagged on branch [`"
                    ++ (branch
                        ++ (codes "`]("
                            ++ (repo_url
                                ++ (codes "/tree/"
                                    ++ (branch
                                        ++ (codes ")."
                                            ++ (10
                                                ∷ 10
                                                ∷ (codes "- [Github Release "
                                                    ++ (version
                                                        ++ (codes "]("
                                                            ++ (repo_url
                                                            ++ (codes "/releases/tag/"
                                                            ++ (version
                                                            ++ (codes ")"
                                                            ++ (10
                                                            ∷ (codes "- [BCR Entry "
                                                            ++ (version
                                                            ++ (codes
                                                            "](https://registry.bazel.build/modules/rules_python/"
                                                            ++ (version
                                                            ++ (codes ")"
                                                            ++ (10
                                                            ∷ (codes
                                                            "- [BCR PRs](https://github.com/bazelbuild/bazel-central-registry/pulls?q="
                                                            ++ (quote (
                                                            codes
                                                            "is:pr (\"bazel-contrib/rules_python\" in:title) (\"@"
                                                            ++ (version ++ codes "\" in:title)"))
                                                            ++ (codes ")"
                                                            ++ (10
                                                            ∷ (codes "- [Release workflow status]("
                                                            ++ (workflow
                                                            ++ codes
                                                            ")")))))))))))))))))))))))))))))))

-- The latest release candidate and its commit, for a first release.
abbrev pub Candidate : Type 0
Candidate = Option (Text × Text)

-- `lt` and `is_prerelease` are those of the versions.
module _ (lt : Text → Text → Bool) (is_prerelease : Text → Bool) (quote : Text → Text)
    (w : Outside) where
  abbrev pub promote_commit : Args → Text → ℕ → Text → Text → Action ℕ
  promote_commit args version issue sha updated = do
    Git.tag w version sha
    Git.push w args.remote version false false
    tell w (set_github_output (codes "version") version)
    tell w (update_issue_body issue updated)
    run ← ask w run_id
    tell w (
        post_issue_comment issue (
          final_comment quote version (branch_name version)
            (workflow_url (codes "release_promote.yaml") run)))
    pure 0

  -- `except ValueError: return 1` round `update_task_in_body`.
  abbrev pub promote_updated : Args → Text → ℕ → Text → Result Text → Action ℕ
  promote_updated args version issue sha (err e) = pure 1
  promote_updated args version issue sha (ok updated) =
      if args.dry_run then pure 0 else promote_commit args version issue sha updated

  abbrev pub report_mismatch : Args → ℕ → Result Text → Action ℕ
  report_mismatch args issue (err e) = pure 1
  report_mismatch args issue (ok updated) =
      if args.dry_run then pure 1 else (tell w (update_issue_body issue updated) >> pure 1)

  abbrev pub check_head : Args → Text → ℕ → Text → Text → Candidate → Action ℕ
  check_head args version issue body branch_sha none =
      promote_updated args version issue branch_sha
        (update_task_in_body body (codes "Tag Final") true (final_metadata version branch_sha))
  check_head args version issue body branch_sha (some (rc, rc_sha)) =
      if rc_sha == branch_sha
      then promote_updated args version issue rc_sha
          (update_task_in_body body (codes "Tag Final") true (final_metadata version rc_sha))
      else report_mismatch args issue (
          update_task_in_body body (codes "Tag Final") false
            (mismatch_metadata rc branch_sha rc_sha))

  abbrev pub with_head : Args → Text → ℕ → Text → Candidate → Option Text → Action ℕ
  with_head args version issue body rc none = pure 1
  with_head args version issue body rc (some branch_sha) =
      check_head args version issue body branch_sha rc

  -- `try: ... except Exception: ...` round `get_commit_sha`: no commit stands for an exception.
  abbrev pub try_commit_sha : Text → Action (Option Text)
  try_commit_sha ref =
      attempt (Git.get_commit_sha w ref false >>= λ sha. pure (some sha)) (λ e. pure none)

  abbrev pub promote_issue : Args → Text → ℕ → Candidate → Action ℕ
  promote_issue args version issue rc = do
    body ← ask w (get_issue_body issue)
    Git.fetch w args.remote (some (branch_name version)) false false
    head ← try_commit_sha (args.remote ++ (b'/' ∷ branch_name version))
    with_head args version issue body rc head

  abbrev pub promote_rc : Args → Text → ℕ → Option Text → Action ℕ
  promote_rc args version issue none = pure 1
  promote_rc args version issue (some rc) = do
    sha ← Git.get_commit_sha w rc false
    promote_issue args version issue (some (rc, sha))

  abbrev pub promote_found : Args → Text → Option ℕ → Action ℕ
  promote_found args version none = pure 1
  promote_found args version (some issue) =
      if ends_with version (codes ".0")
      then (Git.get_remote_tags w args.remote >>= λ tags.
          promote_rc args version issue (get_latest_rc_tag lt version tags))
      else promote_issue args version issue none

  -- The issue, where it is given or found.
  abbrev pub find_issue : Text → Option ℕ → Action (Option ℕ)
  find_issue version (some issue) = pure (some issue)
  find_issue version none =
      attempt
        (ask_issues w version >>= λ issues.
          lift (single_issue (matching version issues)) >>= λ n. pure (some n))
        (λ e. pure none)

  abbrev pub promote_version : Args → Option Text → Action ℕ
  promote_version args none = pure 1
  promote_version args (some version) = do
    exists ← Git.tag_exists w version
    if exists
        then pure 1
        else (find_issue version (given args.issue) >>= promote_found args version)

  abbrev pub next_from : Text → List Text → Option (ℕ × ℕ) → Action (Option Text)
  next_from current tags (some branch) =
      lift (determine_next_version lt is_prerelease none current tags false false) >>= λ version.
      pure (some version)
  next_from current tags none = do
    increment ← ask w should_increment_minor
    version ←
        lift (
          determine_next_version lt is_prerelease none current tags false
            (not (is_empty increment)))
    pure (some version)

  -- The version that is given, that the title of the given issue has, or that follows the tags.
  abbrev pub read_version : Option Text → Option ℕ → Action (Option Text)
  read_version (some version) issue = pure (some version)
  read_version none (some issue) = do
    title ← ask w (get_issue_title issue)
    pure (title_version title)
  read_version none none = do
    current ← Git.get_current_branch w
    tags ← Git.get_tags w
    next_from current tags (release_branch current)

  unfoldable pub run : Args → Action ℕ
  run args = do
    Git.fetch w args.remote none true true
    version ← read_version args.version (given args.issue)
    promote_version args version
