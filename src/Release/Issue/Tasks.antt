-- ===== src/Release/Issue/Tasks.antt =====
-- New tasks in the body of a tracking issue: `add_rc_task_to_body` and
-- `add_sync_changelog_task_to_body` of tools/private/release/release_issue.py.
use rules_python.Base.{
  nat_eq, text_eq, ℕ, zero, suc, Bool, true, false, ◌||◌, Option, none, some, List, [], ◌∷◌, ◌++◌,
  Text, ◌==◌, if◌then◌else◌, codes, take, drop, Result, ok, err, value_error,
}
use rules_python.Text.{lower, split_lines, join, replace, decimal}
use rules_python.Release.Checklist.{Parsed, parse_metadata_line}
use rules_python.Release.Issue.State.{rc_number, sync_number}

abbrev pub line_feed : Text
line_feed = 10 ∷ []

-- `body.replace("\r\n", "\n")`
abbrev pub unix : Text → Text
unix body = replace body (13 ∷ 10 ∷ []) line_feed

abbrev pub is_some : Option ℕ → Bool
is_some none = false
is_some (some n) = true

abbrev pub has_name : Text → Parsed → Bool
has_name name p = lower p.name == name

abbrev pub is_rc : Parsed → Bool
is_rc p = is_some (rc_number p.name)

abbrev pub is_sync : Parsed → Bool
is_sync p = is_some (sync_number p.name)

-- `parsed and test(parsed)`
abbrev pub holds : (Parsed → Bool) → Option Parsed → Bool
holds test none = false
holds test (some p) = test p

abbrev pub line_holds : (Parsed → Bool) → Text → Bool
line_holds test line = holds test (parse_metadata_line line)

-- The index of the last line that meets the test, plus one; 0 stands for the -1 of no such line.
unfoldable pub after_last : (Parsed → Bool) → List Text → ℕ
after_last test [] = 0
after_last test (line ∷ lines) =
    let rest = after_last test lines in
    if rest == 0 then (if line_holds test line then 1 else 0) else suc rest

-- The index of the first line that meets the test.
unfoldable pub first_index : (Parsed → Bool) → List Text → Option ℕ
first_index test [] = none
first_index test (line ∷ lines) =
    let rest = first_index test lines in
    if line_holds test line then some 0 else elim rest [ none ↦ none | some i ↦ some (suc i) ]

-- `i - 1`, plus one: the first line is taken for a missing one.
abbrev pub before_first : Option ℕ → ℕ
before_first none = 0
before_first (some i) = i

abbrev pub after_first : Option ℕ → ℕ
after_first none = 0
after_first (some i) = suc i

abbrev pub or_else : ℕ → ℕ → ℕ
or_else zero b = b
or_else (suc a) b = suc a

-- `last_rc_idx + 1` and `last_sync_idx + 1`.
abbrev pub rc_place : List Text → ℕ
rc_place lines =
    or_else (after_last is_rc lines)
      (before_first (first_index (has_name (codes "tag final")) lines))

abbrev pub sync_place : List Text → ℕ
sync_place lines = or_else (after_last is_sync lines) (
    or_else (before_first (first_index (has_name (codes "tag final")) lines))
      (after_first (first_index (has_name (codes "create release branch")) lines)))

-- `"\n".join(lines)` after `lines.insert(place, line)`, where a place is found.
abbrev pub insert_line : ℕ → Text → List Text → Result Text
insert_line zero line lines = err value_error
insert_line (suc i) line lines =
    ok (join line_feed (take (suc i) lines ++ (line ∷ drop (suc i) lines)))

abbrev pub rc_name : ℕ → Text
rc_name n = codes "Tag RC" ++ decimal n

abbrev pub sync_name : ℕ → Text
sync_name n = codes "Sync Changelog #" ++ decimal n

abbrev pub open_box : Text
open_box = codes "- [ ] "

unfoldable pub add_rc_task_to_body : Text → ℕ → Result Text
add_rc_task_to_body body rc_num =
    insert_line (rc_place (split_lines (unix body))) (open_box ++ rc_name rc_num)
      (split_lines (unix body))

abbrev pub any_line : (Parsed → Bool) → List Text → Bool
any_line test [] = false
any_line test (line ∷ lines) = line_holds test line || any_line test lines

unfoldable pub add_sync_changelog_task_to_body : Text → ℕ → Result Text
add_sync_changelog_task_to_body body pr_num =
    if any_line (has_name (lower (sync_name pr_num))) (split_lines (unix body))
    then ok (unix body)
    else insert_line (sync_place (split_lines (unix body))) (open_box ++ sync_name pr_num)
        (split_lines (unix body))
