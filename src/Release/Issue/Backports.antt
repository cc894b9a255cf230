-- ===== src/Release/Issue/Backports.antt =====
-- The backports of a tracking issue: `parse_backports` and `add_backports_to_body` of
-- tools/private/release/release_issue.py.
use rules_python.Base.{
  nat_eq, text_eq, Bool, true, false, not, ◌&&◌, ◌||◌, Option, none, some, List, [], ◌∷◌, ◌++◌,
  Text, ◌==◌, if◌then◌else◌, codes, all, contains, is_empty, length, take, drop, select, Result, ok,
  err, value_error,
}
use rules_python.Base.Dict.{Dict, get, get_or}
use rules_python.Text.{lower, strip, starts_with, split_lines, join, rstrip_by}
use rules_python.Release.Versions.{is_digit}
use rules_python.Release.Checklist.{Parsed, parse_metadata_line, format_metadata_line}
use rules_python.Release.Issue.Tasks.{unix, line_feed}

pub record BackportTask : Type 0 where
  pub pr_ref : Text
  pub checked : Bool
  pub status : Text
  pub rc : Option Text
  pub commit : Option Text
  pub metadata : Dict Text Text

abbrev pub header : Text
header = codes "## backports" ++ line_feed

-- The body up to the end of the header, and what stands behind it.
unfoldable pub find_section : Text → Option (Text × Text)
unfolding starts_with
find_section [] = none
find_section (c ∷ s) = elim (starts_with (lower (c ∷ s)) header) [
  | true ↦ some (take (length header) (c ∷ s), drop (length header) (c ∷ s))
  | false ↦ elim (find_section s) [ none ↦ none | some (a, b) ↦ some (c ∷ a, b) ]
]

abbrev pub ends_section : Text → Bool
ends_section s = is_empty s || starts_with s (10 ∷ codes "##") || starts_with s (10 ∷ codes "---")

-- `(.*?)(?=\n##|\n---|\Z)`: the section and what stands behind it.
unfoldable pub cut_section : Text → Text × Text
unfolding starts_with
cut_section [] = ([], [])
cut_section (c ∷ s) =
    let rest = cut_section s in if ends_section (c ∷ s) then ([], c ∷ s) else (c ∷ rest.0, rest.1)

abbrev pub all_digits : Text → Bool
all_digits s = not (is_empty s) && all is_digit s

abbrev pub without_hash : Text → Text
without_hash [] = []
without_hash (c ∷ s) = if c == b'#' then s else c ∷ s

-- `re.match(r"^#?\d+$", name)`
abbrev pub is_ref : Text → Bool
is_ref name = all_digits (without_hash name)

abbrev pub task_of : Text → Parsed → BackportTask
task_of name p = record {
  pr_ref = name;
  checked = p.checked;
  status = get_or (codes "status") p.metadata (codes "pending");
  rc = get (codes "rc") p.metadata;
  commit = get (codes "commit") p.metadata;
  metadata = p.metadata;
}

abbrev pub backport_of : Option Parsed → List BackportTask
backport_of none = []
backport_of (some p) = if is_ref (strip p.name) then task_of (strip p.name) p ∷ [] else []

abbrev pub backports_of : List Text → List BackportTask
backports_of [] = []
backports_of (line ∷ lines) = backport_of (parse_metadata_line line) ++ backports_of lines

abbrev pub section_backports : Option (Text × Text) → List BackportTask
section_backports none = []
section_backports (some p) = backports_of (split_lines (cut_section p.1).0)

unfoldable pub parse_backports : Text → List BackportTask
parse_backports body = section_backports (find_section (unix body))

-- A backport to add; no metadata is the empty dict.
pub record Item : Type 0 where
  pub ref : Text
  pub metadata : Dict Text Text

-- A line that is kept: one that is no entry, or an entry of a pull request.
abbrev pub is_kept : Option Parsed → Bool
is_kept none = true
is_kept (some p) = is_ref (strip p.name)

abbrev pub refs : List BackportTask → List Text
refs [] = []
refs (t ∷ ts) = t.pr_ref ∷ refs ts

abbrev pub full_ref : Text → Text
full_ref ref = if not (starts_with ref (codes "#")) && all_digits ref then b'#' ∷ ref else ref

-- The lines of the items whose references are not among the ones before.
unfoldable pub new_lines : List Text → List Item → List Text
new_lines seen [] = []
new_lines seen (item ∷ items) = elim (contains seen (full_ref item.ref)) [
  | true ↦ new_lines seen items
  | false ↦
      format_metadata_line false (full_ref item.ref) item.metadata
      ∷ new_lines (full_ref item.ref ∷ seen) items
]

abbrev pub updated_section : Text → List Text → Text
updated_section content [] = content ++ (10 ∷ 10 ∷ [])
updated_section content (l ∷ ls) =
    content
    ++ ((if is_empty content then [] else line_feed) ++ (join line_feed (l ∷ ls) ++ (10 ∷ 10 ∷ [])))

-- The section without the placeholder entries and the line feeds at its end.
abbrev pub clean_section : Text → Text
clean_section section =
    rstrip_by (λ c. c == 10)
      (join line_feed (select (λ line. is_kept (parse_metadata_line line)) (split_lines section)))

abbrev pub add_to_section : List Item → List BackportTask → Option (Text × Text) → Result Text
add_to_section items existing none = err value_error
add_to_section items existing (some p) =
    let cut = cut_section p.1 in
    ok (p.0 ++ (updated_section (clean_section cut.0) (new_lines (refs existing) items) ++ cut.1))

unfoldable pub add_backports_to_body : Text → List Item → Result Text
add_backports_to_body body items =
    add_to_section items (parse_backports (unix body)) (find_section (unix body))
