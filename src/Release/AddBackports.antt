-- ===== src/Release/AddBackports.antt =====
-- The subcommand that adds pull requests to the tracking issue, in
-- tools/private/release/add_backports.py, and the new issue and its template that it falls back to.
pub mod Edits
use rules_python.Base.{
  nat_eq, text_eq, ℕ, zero, suc, Bool, true, false, not, ◌&&◌, ◌||◌, Option, none, some, List, [],
  ◌∷◌, ◌++◌, Text, ◌==◌, if◌then◌else◌, codes, is_empty, drop, length, select, Error, Result, ok,
  err, runtime_error,
}
use rules_python.Text.{
  lower, strip, ends_with, starts_with, includes, split_lines, join, decimal, rstrip_by, split,
}
use rules_python.Release.Versions.{int_of, last_of, determine_next_version, release_branch}
use rules_python.Release.Checklist.{Parsed, parse_metadata_line}
use rules_python.Release.Action.{
  Call, Outside, Issue, Action, ask, tell, ask_issues, attempt, pure, lift, ◌>>=◌, ◌>>◌,
  get_issue_body, get_issue_title, update_issue_body, create_issue, read_template,
}
use rules_python.Release.Git
use rules_python.Release.Issue.State.{ChecklistState, parse_checklist_state, rc_number}
use rules_python.Release.Issue.Tasks.{
  line_feed, is_some, add_rc_task_to_body, add_sync_changelog_task_to_body,
}
use rules_python.Release.Issue.Backports.{Item, add_backports_to_body}
use rules_python.Release.PullRequests.{resolve_pr_number}
use rules_python.Release.ReleaseTitle.{given, title_version, has_pending_rc, next_rc_num}

-- A task of first releases only.
abbrev pub is_first_only : Option Parsed → Bool
is_first_only none = false
is_first_only (some p) =
    includes (lower p.name) (codes "prepare release")
    || includes (lower p.name) (codes "create release branch")
    || is_some (rc_number (lower p.name))

abbrev pub end_line : Text → Text
end_line s = if ends_with s line_feed then s else s ++ line_feed

-- `load_release_tracking_template`, given the text of the template.
unfoldable pub load_release_tracking_template : Option Text → Text → Text
load_release_tracking_template none template = template
load_release_tracking_template (some version) template =
    if ends_with version (codes ".0")
    then template
    else end_line (
        join line_feed
          (select (λ line. not (is_first_only (parse_metadata_line line))) (split_lines template)))

abbrev pub patch_release : Option Text → Bool
patch_release none = false
patch_release (some version) = not (ends_with version (codes ".0"))

-- `f"#{pr}"` of each pull request.
abbrev pub pr_items : List ℕ → List Item
pr_items [] = []
pr_items (n ∷ ns) = record { ref = b'#' ∷ decimal n; metadata = [] } ∷ pr_items ns

abbrev pub sync_all : List ℕ → Result Text → Result Text
sync_all [] body = body
sync_all (n ∷ ns) (err e) = err e
sync_all (n ∷ ns) (ok body) = sync_all ns (add_sync_changelog_task_to_body body n)

abbrev pub no_tags : ChecklistState → Bool
no_tags state = elim state.rc_tags [ [] ↦ true | t ∷ ts ↦ false ]

-- A patch release gets a task for a candidate only where it has had one.
abbrev pub add_candidate : Text → ChecklistState → Option Text → Result Text
add_candidate body state version =
    if not (has_pending_rc state.rc_tags) && (not (no_tags state) || not (patch_release version))
    then add_rc_task_to_body body (next_rc_num state.rc_tags)
    else ok body

abbrev pub resolve_all : Text → List Text → Result (List ℕ)
resolve_all repo [] = ok []
resolve_all repo (r ∷ rs) = elim (resolve_pr_number repo r) [
  | err e ↦ err e
  | ok n ↦ elim (resolve_all repo rs) [ err e ↦ err e | ok ns ↦ ok (n ∷ ns) ]
]

-- The text behind the first `---`.
unfoldable pub behind_dashes : Text → Option Text
unfolding starts_with
behind_dashes [] = none
behind_dashes (c ∷ s) =
    let rest = behind_dashes s in
    if starts_with (c ∷ s) (codes "---") then some (drop 3 (c ∷ s)) else rest

abbrev pub body_behind : Text → Option Text → Text
body_behind template none = template
body_behind template (some body) = strip body

-- The template without its front matter.
abbrev pub without_front_matter : Text → Text
without_front_matter template =
    if starts_with template (codes "---")
    then body_behind template (behind_dashes (drop 3 template))
    else template

abbrev pub number_of_url : Text → Result ℕ
number_of_url [] = err runtime_error
number_of_url (c ∷ s) = elim (last_of (split b'/' (rstrip_by (λ d. d == b'/') (c ∷ s)))) [
  | none ↦ err runtime_error
  | some part ↦ int_of part
]

-- `lt` and `is_prerelease` are those of the versions.
module _ (lt : Text → Text → Bool) (is_prerelease : Text → Bool) (repo : Text) (w : Outside) where
  -- `create_release_tracking_issue`
  abbrev pub create_release_tracking_issue : Text → Text → Action ℕ
  create_release_tracking_issue version template = do
    output ← ask w (create_issue (codes "Release " ++ version) (without_front_matter template))
    lift (number_of_url output)

  -- The issue of the next patch release.
  abbrev pub create_patch_issue : Action ℕ
  create_patch_issue = do
    current ← Git.get_current_branch w
    tags ← Git.get_tags w
    version ← lift (determine_next_version lt is_prerelease none current tags true false)
    template ← ask w read_template
    create_release_tracking_issue version (load_release_tracking_template (some version) template)

  -- The last `try`: `except Exception: return 1`.
  abbrev pub put_body : ℕ → Text → Action ℕ
  put_body issue body = attempt (tell w (update_issue_body issue body) >> pure 0) (λ e. pure 1)

  -- The body with the new tasks, or no body where anything raises.
  abbrev pub new_body : ℕ → List ℕ → Action (Option Text)
  new_body issue prs =
      attempt
        (do
          body ← ask w (get_issue_body issue)
          synced ← lift (sync_all prs (add_backports_to_body body (pr_items prs)))
          title ← ask w (get_issue_title issue)
          added ← lift (add_candidate synced (parse_checklist_state synced) (title_version title))
          pure (some added))
        (λ e. pure none)

  abbrev pub put_new_body : ℕ → Option Text → Action ℕ
  put_new_body issue none = pure 1
  put_new_body issue (some body) = put_body issue body

  abbrev pub add_resolved : ℕ → Result (List ℕ) → Action ℕ
  add_resolved issue (err e) = pure 1
  add_resolved issue (ok prs) = new_body issue prs >>= put_new_body issue

  -- The one open tracking issue, or a new one.
  abbrev pub only_issue : List Issue → Action (Option ℕ)
  only_issue [] = create_patch_issue >>= λ n. pure (some n)
  only_issue (i ∷ []) = pure (some i.number)
  only_issue (i ∷ j ∷ l) = pure none

  abbrev pub discover_issue : Option ℕ → Action (Option ℕ)
  discover_issue (some issue) = pure (some issue)
  discover_issue none = attempt (ask_issues w [] >>= only_issue) (λ e. pure none)

  abbrev pub add_to_issue : List Text → Option ℕ → Action ℕ
  add_to_issue prs none = pure 1
  add_to_issue prs (some issue) = add_resolved issue (resolve_all repo prs)

  unfoldable pub run : Option ℕ → List Text → Action ℕ
  run issue prs = discover_issue (given issue) >>= add_to_issue prs
