-- ===== src/Release/Action.antt =====
-- What the commands of tools/private/release do outside of Python: the calls that are made of git,
-- of GitHub and of the release tool's functions on files, in their order, and exceptions.
pub mod Keeps
use rules_python.Base.{
  ℕ, Bool, true, false, Option, none, some, List, [], ◌∷◌, Text, codes, Error, Result, ok, err,
  process_error, if◌then◌else◌,
}

-- `git argv` is a run of git; the next are methods of `GitHubInterface`, then functions of
-- changelog_news.py and utils.py that read or change files, the clock
-- and the variable `GITHUB_RUN_ID`. `create_issue` and `create_pr` answer with
-- the output of gh, and `get_open_pr` with the number of the pull request, or the empty text.
pub data Call : Type 0 where
  git : List Text → Call
  get_issue_body get_issue_title get_pr_info : ℕ → Call
  get_open_tracking_issues get_open_pr : Text → Call
  update_issue_body post_issue_comment add_comment_reaction : ℕ → Text → Call
  replace_version_next : Text → Call
  update_changelog set_github_output create_issue create_pr : Text → Text → Call
  create_labelled_pr create_labelled_issue : Text → Text → Text → Call
  process_news : Text → List Text → Call
  enable_auto_merge : ℕ → Call
  today run_id should_increment_minor read_template : Call

-- A pull request; a missing state is the empty text, and the merge commit is its `oid`.
pub record PullRequest : Type 0 where
  pub state : Text
  pub is_draft : Bool
  pub merge_commit : Option Text

pub record Issue : Type 0 where
  pub number : ℕ
  pub title : Text

-- What answers the calls. An answer may depend on all the calls before it.
pub record Outside : Type 0 where
  pub text : List Call → Call → Result Text
  pub pull_request : List Call → ℕ → Result (Option PullRequest)
  pub issues : List Call → Text → Result (List Issue)

-- The calls so far stand with the last one first.
abbrev pub Action : Type 0 → Type 0
Action A = List Call → Result A × List Call

module _ {A : Type 0} where
  unfoldable pub pure : A → Action A
  pure a log = (ok a, log)

  unfoldable pub lift : Result A → Action A
  lift r log = (r, log)

  -- `try: ... except Exception: ...`
  unfoldable pub attempt : Action A → (Error → Action A) → Action A
  attempt body handler log =
      let (r, log2) = body log in elim r [ ok a ↦ (ok a, log2) | err e ↦ handler e log2 ]

abbrev pub then_call : {A B : Type 0} → Result A → (A → Action B) → Action B
then_call (ok a) rest log = rest a log
then_call (err e) rest log = (err e, log)

infixl 5 ◌>>=◌ ◌>>◌
unfoldable pub ◌>>=◌ : {A B : Type 0} → Action A → (A → Action B) → Action B
◌>>=◌ first rest log = let (r, log2) = first log in then_call r rest log2

abbrev pub ◌>>◌ : {A B : Type 0} → Action A → Action B → Action B
first >> rest = first >>= λ _. rest

-- `try: body finally: last`: an exception of `last` takes the place of the body's.
unfoldable pub finally : {A : Type 0} → Action A → Action (Unit {0}) → Action A
finally body last log =
    let (r, log2) = body log in
    let (s, log3) = last log2 in elim s [ ok u ↦ (r, log3) | err e ↦ (err e, log3) ]

module _ (w : Outside) where
  -- A call that returns a text, and one whose answer is not used.
  unfoldable pub ask : Call → Action Text
  ask c log = (w.text log c, c ∷ log)

  unfoldable pub tell : Call → Action (Unit {0})
  tell c = ask c >> pure tt

  unfoldable pub ask_pull_request : ℕ → Action (Option PullRequest)
  ask_pull_request n log = (w.pull_request log n, get_pr_info n ∷ log)

  unfoldable pub ask_issues : Text → Action (List Issue)
  ask_issues version log = (w.issues log version, get_open_tracking_issues version ∷ log)
