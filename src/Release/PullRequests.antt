-- ===== src/Release/PullRequests.antt =====
-- Pull requests in tools/private/release/gh.py: `resolve_pr_number` and
-- `resolve_merge_commits_for_prs`.
use rules_python.Base.{
  nat_eq, text_eq, ℕ, Bool, ◌&&◌, ◌||◌, Option, none, some, List, [], ◌∷◌, ◌++◌, Text, ◌==◌,
  if◌then◌else◌, codes, is_empty, length, drop, Result, ok, err, value_error,
}
use rules_python.Text.{lower, starts_with, lstrip_by}
use rules_python.Release.Versions.{is_digit, number, int_of}
use rules_python.Release.Action.{
  PullRequest, Outside, Action, ask_pull_request, attempt, pure, lift, ◌>>=◌,
}
use rules_python.Release.Issue.Backports.{BackportTask, all_digits}

abbrev pub lstrip_hash : Text → Text
lstrip_hash s = lstrip_by (λ c. c == b'#') s

-- `(/|\?|\Z)` behind the digits.
abbrev pub ends_number : Text → Bool
ends_number s = is_empty s || starts_with s (codes "/") || starts_with s (codes "?")

abbrev pub number_in_url : Text → Option ℕ
number_in_url [] = none
number_in_url (c ∷ s) =
    if is_digit c && ends_number (lstrip_by is_digit s) then some (number 0 (c ∷ s)) else none

-- `re.search(rf"github\.com/{re.escape(repo)}/pull/(\d+)(/|\?|\Z)", s, re.IGNORECASE)`, where
-- `path` is the text in front of the number, in lower case.
unfoldable pub search_url : Text → Text → Option ℕ
unfolding starts_with
search_url path [] = none
search_url path (c ∷ s) =
    let rest = search_url path s in
    if starts_with (lower (c ∷ s)) path
    then elim (number_in_url (drop (length path) (c ∷ s))) [ none ↦ rest | some n ↦ some n ]
    else rest

abbrev pub pull_path : Text → Text
pull_path repo = lower (codes "github.com/" ++ (repo ++ codes "/pull/"))

abbrev pub or_unresolved : Option ℕ → Result ℕ
or_unresolved none = err value_error
or_unresolved (some n) = ok n

unfoldable pub resolve_pr_number : Text → Text → Result ℕ
resolve_pr_number repo pr_ref =
    if all_digits (lstrip_hash pr_ref)
    then ok (number 0 (lstrip_hash pr_ref))
    else if starts_with pr_ref (codes "http")
    then or_unresolved (search_url (pull_path repo) pr_ref)
    else err value_error

abbrev pub with_status : Text → BackportTask → BackportTask
with_status status item = record item { status = status }

abbrev pub merged : Option Text → BackportTask → BackportTask
merged none item = with_status (codes "error-no-merge-commit") item
merged (some oid) item = record item { status = codes "resolved"; commit = some oid }

-- What is set of an item, given the answer on its pull request.
unfoldable pub resolved : Option PullRequest → BackportTask → BackportTask
resolved none item = with_status (codes "error-not-found") item
resolved (some pr) item =
    if pr.is_draft
    then with_status (codes "draft-pr") item
    else if pr.state == codes "OPEN"
    then with_status (codes "open-pr") item
    else if pr.state == codes "CLOSED"
    then with_status (codes "error-closed-pr") item
    else if pr.state == codes "MERGED"
    then merged pr.merge_commit item
    else with_status (codes "error-unknown") item

module _ (w : Outside) where
  abbrev pub resolve_item : ℕ → BackportTask → Action BackportTask
  resolve_item pr_num item =
      attempt (ask_pull_request w pr_num >>= λ pr. pure (resolved pr item))
        (λ e. pure (with_status (codes "error-resolution-failed") item))

  abbrev pub resolve_merge_commits_for_prs : List BackportTask → Action (List BackportTask)
  resolve_merge_commits_for_prs [] = pure []
  resolve_merge_commits_for_prs (item ∷ items) = do
    pr_num ← lift (int_of (lstrip_hash item.pr_ref))
    first ← resolve_item pr_num item
    rest ← resolve_merge_commits_for_prs items
    pure (first ∷ rest)
