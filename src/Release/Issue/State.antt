-- ===== src/Release/Issue/State.antt =====
-- The tasks of a tracking issue: `parse_checklist_state` of
-- tools/private/release/release_issue.py.
use rules_python.Base.{
  nat_eq, text_eq, ℕ, Bool, false, Option, none, some, List, [], ◌∷◌, Text, if◌then◌else◌, codes,
  length, drop,
}
use rules_python.Base.Dict.{Dict, get, put}
use rules_python.Text.{lower, strip, includes, starts_with, split_lines}
use rules_python.Release.Checklist.{Parsed, parse_metadata_line}
use rules_python.Release.Versions.{is_digit, number}

-- `metadata` and `meta.get(...)`; an argument that is not given is `none`.
pub record ReleaseTask : Type 0 where
  pub name : Text
  pub checked : Bool
  pub status : Option Text
  pub pr : Option Text
  pub commit : Option Text
  pub branch : Option Text
  pub tag : Option Text
  pub metadata : Dict Text Text

pub record ChecklistState : Type 0 where
  pub prepare_release : ReleaseTask
  pub create_branch : ReleaseTask
  pub tag_final : ReleaseTask
  pub rc_tags : Dict ℕ ReleaseTask
  pub sync_changelogs : Dict ℕ ReleaseTask

abbrev pub unset : Text → ReleaseTask
unset name = record {
  name = name;
  checked = false;
  status = none;
  pr = none;
  commit = none;
  branch = none;
  tag = none;
  metadata = [];
}

abbrev pub no_tasks : ChecklistState
no_tasks = record {
  prepare_release = unset (codes "Prepare Release");
  create_branch = unset (codes "Create Release branch");
  tag_final = unset (codes "Tag Final");
  rc_tags = [];
  sync_changelogs = [];
}

-- `int` of the digits in front of a text, where it begins with one.
abbrev pub digits_number : Text → Option ℕ
digits_number [] = none
digits_number (c ∷ s) = if is_digit c then some (number 0 (c ∷ s)) else none

-- `re.match(prefix + r"(\d+)", s, re.IGNORECASE)`, where `prefix` is in lower case.
unfoldable pub number_after : Text → Text → Option ℕ
number_after prefix s =
    if starts_with (lower s) prefix then digits_number (drop (length prefix) s) else none

abbrev pub rc_number : Text → Option ℕ
rc_number = number_after (codes "tag rc")

abbrev pub sync_number : Text → Option ℕ
sync_number = number_after (codes "sync changelog #")

abbrev pub with_pr : Text → Parsed → ReleaseTask
with_pr name p = record {
  name = name;
  checked = p.checked;
  status = get (codes "status") p.metadata;
  pr = get (codes "pr") p.metadata;
  commit = get (codes "commit") p.metadata;
  branch = none;
  tag = none;
  metadata = p.metadata;
}

abbrev pub with_branch : Text → Parsed → ReleaseTask
with_branch name p = record {
  name = name;
  checked = p.checked;
  status = get (codes "status") p.metadata;
  pr = none;
  commit = get (codes "commit") p.metadata;
  branch = get (codes "branch") p.metadata;
  tag = none;
  metadata = p.metadata;
}

abbrev pub with_tag : Text → Parsed → ReleaseTask
with_tag name p = record {
  name = name;
  checked = p.checked;
  status = get (codes "status") p.metadata;
  pr = none;
  commit = get (codes "commit") p.metadata;
  branch = none;
  tag = get (codes "tag") p.metadata;
  metadata = p.metadata;
}

abbrev pub put_sync : Option ℕ → Text → Parsed → ChecklistState → ChecklistState
put_sync none name p s = s
put_sync (some n) name p s = record s { sync_changelogs = put n (with_pr name p) s.sync_changelogs }

abbrev pub put_rc : Option ℕ → Text → Parsed → ChecklistState → ChecklistState
put_rc none name p s = put_sync (sync_number name) name p s
put_rc (some n) name p s = record s { rc_tags = put n (with_tag name p) s.rc_tags }

abbrev pub put_task : Text → Parsed → ChecklistState → ChecklistState
put_task name p s =
    if includes (lower name) (codes "prepare release")
    then record s { prepare_release = with_pr name p }
    else if includes (lower name) (codes "create release branch")
    then record s { create_branch = with_branch name p }
    else if includes (lower name) (codes "tag final")
    then record s { tag_final = with_tag name p }
    else put_rc (rc_number name) name p s

abbrev pub put_parsed : Option Parsed → ChecklistState → ChecklistState
put_parsed none s = s
put_parsed (some p) s = put_task (strip p.name) p s

abbrev pub read_tasks : List Text → ChecklistState → ChecklistState
read_tasks [] s = s
read_tasks (line ∷ lines) s = read_tasks lines (put_parsed (parse_metadata_line line) s)

unfoldable pub parse_checklist_state : Text → ChecklistState
parse_checklist_state body = read_tasks (split_lines body) no_tasks
