-- ===== src/Release/Prepare.antt =====
-- The subcommand that prepares a release, in tools/private/release/prepare.py.
pub mod ReadOnly
use rules_python.Base.{
  nat_eq, text_eq, ℕ, zero, suc, Bool, true, false, not, Option, none, some, List, [], ◌∷◌, ◌++◌,
  Text, ◌==◌, if◌then◌else◌, codes, is_empty, Error, Result, ok, err,
}
use rules_python.Base.Dict.{Dict}
use rules_python.Text.{lstrip_by, split, decimal}
use rules_python.Release.Versions.{last_of, determine_next_version, release_branch}
use rules_python.Release.Action.{
  Call, Outside, Issue, Action, ask, tell, ask_issues, pure, lift, ◌>>=◌, ◌>>◌, get_issue_body,
  update_issue_body, replace_version_next, update_changelog, today, should_increment_minor,
  read_template, get_open_pr, create_pr,
}
use rules_python.Release.Git
use rules_python.Release.Issue.{update_task_in_body}
use rules_python.Release.Issue.State.{parse_checklist_state}
use rules_python.Release.ReleaseTitle.{given}
use rules_python.Release.Promote.{matching}
use rules_python.Release.AddBackports.{
  load_release_tracking_template, create_release_tracking_issue,
}
use rules_python.Release.ProcessBackports.{truthy}

pub record Args : Type 0 where
  pub version : Option Text
  pub issue : Option ℕ
  pub dry_run : Bool

abbrev pub prepare_branch : Text → Text
prepare_branch version = codes "prepare-" ++ version

abbrev pub pending_metadata : Text → Dict Text Text
pending_metadata pr_num = (codes "status", codes "pending") ∷ (codes "pr", b'#' ∷ pr_num) ∷ []

abbrev pub last_or_all : Text → Option Text → Text
last_or_all url none = url
last_or_all url (some part) = part

-- `f"#{issue_num}"`; an issue is missing only in a dry run.
abbrev pub issue_ref : Option ℕ → Text
issue_ref none = codes "#None"
issue_ref (some issue) = b'#' ∷ decimal issue

module _ (lt : Text → Text → Bool) (is_prerelease : Text → Bool) (repo : Text) (w : Outside) where
  -- `body = get_issue_body(...)` and what follows, in a run that is not dry.
  abbrev pub set_pending : ℕ → Text → Action ℕ
  set_pending issue pr_num = do
    body ← ask w (get_issue_body issue)
    updated ←
        lift (update_task_in_body body (codes "Prepare Release") false (pending_metadata pr_num))
    tell w (update_issue_body issue updated)
    pure 0

  abbrev pub update_checklist : Bool → Option ℕ → Text → Action ℕ
  update_checklist true issue pr_num = pure 0
  update_checklist false none pr_num = pure 0
  update_checklist false (some issue) pr_num = set_pending issue pr_num

  -- The number of a new pull request; in a dry run it is not made.
  abbrev pub new_pr : Bool → Text → Option ℕ → Action Text
  new_pr true version issue = pure (codes "<NEW_PR>")
  new_pr false version issue = do
    url ← ask w (
        create_pr (codes "Prepare release v" ++ version) (codes "Work towards " ++ issue_ref issue))
    pure (last_or_all url (last_of (split b'/' url)))

  abbrev pub associated_pr : Option ℕ → Action (Option Text)
  associated_pr none = pure none
  associated_pr (some issue) = do
    body ← ask w (get_issue_body issue)
    pure (truthy (parse_checklist_state body).prepare_release.pr)

  abbrev pub pr_or_new : Bool → Text → Option ℕ → Option Text → Action Text
  pr_or_new dry_run version issue (some pr) = pure (lstrip_by (λ c. c == b'#') pr)
  pr_or_new dry_run version issue none = new_pr dry_run version issue

  -- The number of the open pull request, of the one in the checklist, or of a new one.
  abbrev pub find_pr : Bool → Text → Option ℕ → Action Text
  find_pr dry_run version issue = do
    open_pr ← ask w (get_open_pr (prepare_branch version))
    if is_empty open_pr
        then (associated_pr issue >>= pr_or_new dry_run version issue)
        else pure open_pr

  abbrev pub commit_changes : Text → Text → Action (Unit {0})
  commit_changes version changes =
      if is_empty changes
      then pure tt
      else (Git.add_modified_and_deleted w
          >> Git.commit w (codes "Prepare release " ++ version) false false)

  -- The branch, the files, the commit and the push.
  abbrev pub update_branch : Bool → Text → Bool → Action (Unit {0})
  update_branch true version exists = pure tt
  update_branch false version exists = do
    Git.checkout_plain w (prepare_branch version) (not exists)
    release_date ← ask w today
    tell w (update_changelog version release_date)
    tell w (replace_version_next version)
    changes ← Git.status w
    commit_changes version changes
    Git.push w (codes "origin") (prepare_branch version) true true

  abbrev pub prepare_issue : Bool → Text → Option ℕ → Action ℕ
  prepare_issue dry_run version issue = do
    exists ← Git.branch_exists w (prepare_branch version)
    update_branch dry_run version exists
    pr_num ← find_pr dry_run version issue
    update_checklist dry_run issue pr_num

  -- No tracking issue is found; in a dry run none is made. The template is read in both.
  abbrev pub make_issue : Bool → Text → Text → Action (Option ℕ)
  make_issue true version template = pure none
  make_issue false version template = do
    issue ←
        create_release_tracking_issue lt is_prerelease repo w version
          (load_release_tracking_template (some version) template)
    pure (some issue)

  abbrev pub prepare_found : Bool → Text → List Issue → Action ℕ
  prepare_found dry_run version [] = do
    template ← ask w read_template
    issue ← make_issue dry_run version template
    prepare_issue dry_run version issue
  prepare_found dry_run version (i ∷ []) = prepare_issue dry_run version (some i.number)
  prepare_found dry_run version (i ∷ j ∷ l) = pure 1

  abbrev pub prepare_version : Bool → Text → Option ℕ → Action ℕ
  prepare_version dry_run version (some issue) = prepare_issue dry_run version (some issue)
  prepare_version dry_run version none = do
    issues ← ask_issues w version
    prepare_found dry_run version (matching version issues)

  abbrev pub increment_from : Text → List Text → Option (ℕ × ℕ) → Action Text
  increment_from current tags (some branch) =
      lift (determine_next_version lt is_prerelease none current tags false false)
  increment_from current tags none = do
    increment ← ask w should_increment_minor
    lift
        (determine_next_version lt is_prerelease none current tags false (not (is_empty increment)))

  abbrev pub version_to_prepare : Option Text → Action Text
  version_to_prepare (some version) = pure version
  version_to_prepare none = do
    current ← Git.get_current_branch w
    tags ← Git.get_tags w
    increment_from current tags (release_branch current)

  abbrev pub prepare_clean : Args → Action ℕ
  prepare_clean args = do
    version ← version_to_prepare args.version
    prepare_version args.dry_run version (given args.issue)

  unfoldable pub run : Args → Action ℕ
  run args = do
    Git.fetch w (codes "origin") none true true
    changes ← Git.status w
    if is_empty changes then prepare_clean args else pure 1
