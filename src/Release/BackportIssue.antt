-- ===== src/Release/BackportIssue.antt =====
-- The body of a backport issue: `parse_backport_metadata` of
-- tools/private/release/backport_prepare.py, and `parse_backport_tasks` and `is_release_eligible` of
-- backport_create_releases.py.
pub mod Eligible
use rules_python.Base.{
  nat_eq, text_eq, ℕ, Bool, true, false, not, ◌&&◌, Option, none, some, List, [], ◌∷◌, Text, ◌==◌,
  if◌then◌else◌, codes, is_empty, length, drop, take, traverse, Result, ok, err, value_error,
}
use rules_python.Base.Dict.{Dict, get, get_or, put}
use rules_python.Base.Order.{text_lt}
use rules_python.Text.{lower, starts_with, lstrip_by, is_space, split, split_lines, join}
use rules_python.Release.Versions.{int_of}
use rules_python.Release.Checklist.{Parsed, parse_metadata_line, take_while}
use rules_python.Release.ReleaseTitle.{digits_part, dot_part, number_part, version_part}

pub record BackportMetadata : Type 0 where
  pub pr : Text
  pub from_minor : Text
  pub to_minor : Text

abbrev pub lstrip_space : Text → Text
lstrip_space s = lstrip_by is_space s

-- `(\S+)`
abbrev pub first_word : Text → Option Text
first_word s =
    let word = take_while (λ c. not (is_space c)) s in if is_empty word then none else some word

abbrev pub behind_label : Text → Text → Option Text
behind_label label s =
    if starts_with (lower s) label then first_word (lstrip_space (drop (length label) s)) else none

abbrev pub behind_star : Text → Text → Option Text
behind_star label [] = none
behind_star label (c ∷ s) = if c == b'*' then behind_label label (lstrip_space s) else none

-- `re.search` of `^\s*\*\s*` and the label, which is in lower case, and then `\s*(\S+)`.
unfoldable pub search_field : Text → Bool → Text → Option Text
search_field label at_start [] = none
search_field label at_start (c ∷ s) =
    let rest = search_field label (c == 10) s in
    elim (if at_start then behind_star label (lstrip_space (c ∷ s)) else none) [
      | none ↦ rest
      | some word ↦ some word
    ]

abbrev pub backport_metadata_of : Option Text → Option Text → Option Text → Result BackportMetadata
backport_metadata_of (some pr) (some from) (some to) =
    ok (record { pr = pr; from_minor = from; to_minor = to })
backport_metadata_of (some pr) (some from) none = err value_error
backport_metadata_of (some pr) none to = err value_error
backport_metadata_of none from to = err value_error

unfoldable pub parse_backport_metadata : Text → Result BackportMetadata
parse_backport_metadata body =
    backport_metadata_of (search_field (codes "pr:") true body)
      (search_field (codes "from version:") true body)
      (search_field (codes "to version:") true body)

-- `verify` has the status of each minor version, `release` the status and the issue of each version.
pub record TasksState : Type 0 where
  pub verify : Dict Text Text
  pub release : Dict Text (Text × Option Text)

-- `\d+\.\d+` in front of a text.
abbrev pub minor_part : Text → Option Text
minor_part s = elim (number_part (dot_part (digits_part s))) [
  | none ↦ none
  | some (minor, rest) ↦ some minor
]

abbrev pub named_version : Text → (Text → Option Text) → Text → Option Text
named_version label part name =
    if starts_with (lower name) label then part (drop (length label) name) else none

abbrev pub put_release : Option Text → Parsed → TasksState → TasksState
put_release none p s = s
put_release (some version) p s = record s {
  release =
      put version
        (
          get_or (codes "status") p.metadata (codes "pending"),
          get (codes "release_issue") p.metadata,
        )
        s.release;
}

abbrev pub put_backport_task : Option Text → Parsed → TasksState → TasksState
put_backport_task none p s =
    put_release (named_version (codes "track release ") version_part p.name) p s
put_backport_task (some minor) p s = record s {
  verify = put minor (get_or (codes "status") p.metadata (codes "pending")) s.verify;
}

abbrev pub put_line : Option Parsed → TasksState → TasksState
put_line none s = s
put_line (some p) s =
    put_backport_task (named_version (codes "verify apply ") minor_part p.name) p s

abbrev pub tasks_of : List Text → TasksState → TasksState
tasks_of [] s = s
tasks_of (line ∷ lines) s = tasks_of lines (put_line (parse_metadata_line line) s)

unfoldable pub parse_backport_tasks : Text → TasksState
parse_backport_tasks body = tasks_of (split_lines body) (record { verify = []; release = [] })

-- `[int(x) for x in version.split(".")]`
abbrev pub numbers : Text → Result (List ℕ)
numbers version = traverse int_of (split b'.' version)

abbrev pub is_success : Option Text → Bool
is_success none = false
is_success (some status) = status == codes "success"

abbrev pub check_minors : List ℕ → Dict Text Text → List Text → Result Bool
check_minors version verify [] = ok true
check_minors version verify (minor ∷ minors) =
    let rest = check_minors version verify minors in
    elim (numbers minor) [
      | err e ↦ err e
      | ok parsed ↦
          if not (text_lt parsed version) && not (is_success (get minor verify))
          then ok false
          else rest
    ]

unfoldable pub is_release_eligible : Text → List Text → Dict Text Text → Result Bool
is_release_eligible version minors verify =
    elim (numbers (join (codes ".") (take 2 (split b'.' version)))) [
      | err e ↦ err e
      | ok parsed ↦ check_minors parsed verify minors
    ]
