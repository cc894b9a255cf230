-- ===== src/Release/BackportPrepare.antt =====
-- The subcommand that prepares a backport, in tools/private/release/backport_prepare.py: it tries the
-- commit on each release branch of a range, and writes the tasks of the backport issue.
pub mod Restored
pub mod Safe
use rules_python.Base.{
  nat_eq, text_eq, ℕ, zero, suc, Bool, true, false, not, ◌&&◌, Option, none, some, List, [], ◌∷◌,
  ◌++◌, map, Text, ◌==◌, if◌then◌else◌, codes, is_empty, take, select, Error, Result, ok, err,
  value_error, runtime_error, key_error, attribute_error,
}
use rules_python.Base.Dict.{Dict, get, put}
use rules_python.Base.Order.{text_lt, sort_by}
use rules_python.Text.{split, join, includes, decimal}
use rules_python.Release.Versions.{release_branch, last_of, determine_next_version}
use rules_python.Release.Action.{
  Outside, PullRequest, Action, ask, tell, ask_pull_request, attempt, finally, pure, lift, ◌>>=◌,
  ◌>>◌, get_issue_body, update_issue_body, create_labelled_issue, update_changelog, today,
}
use rules_python.Release.Git
use rules_python.Release.PullRequests.{resolve_pr_number}
use rules_python.Release.ProcessBackports.{truthy, abort_quietly}
use rules_python.Release.BackportIssue.{BackportMetadata, numbers, parse_backport_metadata}
use rules_python.Release.BackportTargets.{
  minor_of, target_branches, get_latest_release_branch, Verified, issue_text,
}

pub record Args : Type 0 where
  pub issue : Option ℕ
  pub pr : Option Text
  pub from_minor : Option Text
  pub to_minor : Option Text
  pub remote : Text
  pub dry_run : Bool

-- `if issue_num:`
abbrev pub truthy_number : Option ℕ → Option ℕ
truthy_number none = none
truthy_number (some zero) = none
truthy_number (some (suc n)) = some (suc n)

-- The merge commit of a merged pull request.
abbrev pub commit_of : Option Text → Result Text
commit_of none = err value_error
commit_of (some oid) = ok oid

abbrev pub merged_commit : Option PullRequest → Result Text
merged_commit none = err attribute_error
merged_commit (some pr) =
    if pr.state == codes "MERGED" then commit_of pr.merge_commit else err value_error

-- `str_of` is what `str` makes of an exception.
module _ (lt : Text → Text → Bool) (is_prerelease : Text → Bool) (repo : Text)
    (str_of : Error → Text) (w : Outside) where
  -- On a release branch, the tags alone tell the next version.
  abbrev pub next_version_on : Text → Action Text
  next_version_on branch = do
    tags ← Git.get_tags w
    lift (determine_next_version lt is_prerelease (some branch) branch tags false false)

  abbrev pub changelog_failed : Error → Action (Bool × Text)
  changelog_failed e = pure (false, codes "Changelog update failed: " ++ str_of e)

  abbrev pub pick_failed : Error → Action (Bool × Text)
  pick_failed e = pure (false, codes "Cherry-pick failed: " ++ str_of e)

  abbrev pub try_changelog : Text → Action (Bool × Text)
  try_changelog version =
      attempt
        (do
          release_date ← ask w today
          tell w (update_changelog version release_date)
          pure (true, codes "Success"))
        changelog_failed

  abbrev pub restore_branch : Text → Text → Action (Unit {0})
  restore_branch remote branch = abort_quietly w >> Git.reset_hard w (remote ++ (b'/' ∷ branch))

  abbrev pub verify_apply : Text → Text → Text → Text → Action (Bool × Text)
  verify_apply remote sha branch version =
      finally (attempt (Git.cherry_pick w sha >> try_changelog version) pick_failed)
        (restore_branch remote branch)

  abbrev pub verify_branch : Text → Text → Text → Action Verified
  verify_branch remote sha branch = do
    Git.checkout_tracking w branch false remote
    version ← next_version_on branch
    result ← verify_apply remote sha branch version
    pure (record { version = version; success = result.0; reason = result.1 })

  abbrev pub verify_branches :
      Text → Text → List Text → Dict Text Verified → Action (Dict Text Verified)
  verify_branches remote sha [] results = pure results
  verify_branches remote sha (branch ∷ branches) results = verify_branch remote sha branch >>= λ v.
      verify_branches remote sha branches (put branch v results)

  abbrev pub restore_original : Text → Action (Unit {0})
  restore_original current =
      if is_empty current then pure tt else Git.checkout_plain w current false

  -- The `try: ... finally: ...` round the loop over the branches.
  abbrev pub verify_all : Text → Text → List Text → Text → Action (Dict Text Verified)
  verify_all remote sha branches current =
      finally (verify_branches remote sha branches []) (restore_original current)

  abbrev pub put_issue_text : Bool → Option ℕ → ℕ → Text → Action ℕ
  put_issue_text true issue pr body = pure 0
  put_issue_text false (some issue) pr body = tell w (update_issue_body issue body) >> pure 0
  put_issue_text false none pr body =
      ask w
        (create_labelled_issue (codes "Backport: #" ++ decimal pr) body (codes "type: backport-pr"))
      >> pure 0

  -- `pr_ref`, `from_minor` and `to_minor`.
  abbrev pub to_or_latest : Text → Option Text → Action Text
  to_or_latest remote (some to) = pure to
  to_or_latest remote none = do
    branches ← Git.get_remote_branches w remote
    lift (elim (get_latest_release_branch branches) [
      | none ↦ err runtime_error
      | some branch ↦ ok (minor_of branch)
    ])

  abbrev pub given_metadata : Args → Option Text → Option Text → Action BackportMetadata
  given_metadata args (some pr) (some from) = do
    to ← to_or_latest args.remote (truthy args.to_minor)
    pure (record { pr = pr; from_minor = from; to_minor = to })
  given_metadata args _ _ = lift (err value_error)

  abbrev pub read_metadata : Args → Option ℕ → Action BackportMetadata
  read_metadata args (some issue) = do
    body ← ask w (get_issue_body issue)
    lift (parse_backport_metadata body)
  read_metadata args none = given_metadata args (truthy args.pr) (truthy args.from_minor)

  abbrev pub get_target_branches : Text → Text → Text → Action (List Text)
  get_target_branches remote from_minor to_minor = do
    branches ← Git.get_remote_branches w remote
    from ← lift (numbers from_minor)
    to ← lift (numbers to_minor)
    pure (target_branches (take 2 from) (take 2 to) branches)

  abbrev pub prepare_on_clean : Args → BackportMetadata → ℕ → Text → List Text → Action ℕ
  prepare_on_clean args m pr sha branches = do
    current ← Git.get_current_branch w
    results ← verify_all args.remote sha branches current
    body ← lift (issue_text pr m.from_minor m.to_minor results branches)
    put_issue_text args.dry_run (truthy_number args.issue) pr body

  abbrev pub prepare_targets : Args → BackportMetadata → ℕ → Text → List Text → Action ℕ
  prepare_targets args m pr sha [] = lift (err value_error)
  prepare_targets args m pr sha (branch ∷ branches) = do
    changes ← Git.status w
    if is_empty changes
        then prepare_on_clean args m pr sha (branch ∷ branches)
        else lift (err runtime_error)

  unfoldable pub run : Args → Action ℕ
  run args = do
    Git.fetch w args.remote none true true
    m ← read_metadata args (truthy_number args.issue)
    pr ← lift (resolve_pr_number repo m.pr)
    info ← ask_pull_request w pr
    sha ← lift (merged_commit info)
    branches ← get_target_branches args.remote m.from_minor m.to_minor
    prepare_targets args m pr sha branches
