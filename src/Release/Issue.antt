-- ===== src/Release/Issue.antt =====
-- The tracking issue of a release, in tools/private/release/release_issue.py.
pub mod State
pub mod Tasks
pub mod Numbered
pub mod Backports
pub mod Insertion
pub mod Update
use rules_python.Base.{
  nat_eq, text_eq, ℕ, Bool, true, false, not, ◌&&◌, ◌||◌, Option, none, some, List, [], ◌∷◌, ◌++◌,
  Text, ◌==◌, if◌then◌else◌, codes, any, map, Result, ok, err, value_error, raise_if, ◌>>◌, ◌>>=◌,
}
use rules_python.Base.Dict.{Dict}
use rules_python.Text.{lower, split_lines, join}
use rules_python.Release.Checklist.{Parsed, parse_metadata_line, format_metadata_line}

abbrev pub newline : Text
newline = 10 ∷ []

-- `parsed and parsed["name"].lower() == task_name.lower()`
abbrev pub is_task : Text → Option Parsed → Bool
is_task task none = false
is_task task (some p) = lower p.name == lower task

-- The loop of `update_task_in_body`: `found` and `updated_lines`.
abbrev pub found_in : Text → List Text → Bool
found_in task lines = any (λ line. is_task task (parse_metadata_line line)) lines

abbrev pub update_line : Text → Bool → Dict Text Text → Text → Text
update_line task checked metadata line =
    if is_task task (parse_metadata_line line)
    then format_metadata_line checked task metadata
    else line

unfoldable pub update_task_in_body : Text → Text → Bool → Dict Text Text → Result Text
update_task_in_body body task checked metadata = do
  raise_if (not (found_in task (split_lines body))) value_error
  ok (join newline (map (update_line task checked metadata) (split_lines body)))
