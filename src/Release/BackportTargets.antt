-- ===== src/Release/BackportTargets.antt =====
-- The branches that a backport is tried on, and the text of its issue, in
-- tools/private/release/backport_prepare.py.
pub mod Dotted
pub mod ReadBack
pub mod ReadMetadata
pub mod ReadTasks
use rules_python.Base.{
  nat_eq, text_eq, ℕ, Bool, true, false, not, ◌&&◌, Option, none, some, List, [], ◌∷◌, ◌++◌, Text,
  if◌then◌else◌, codes, select, Result, ok, err, key_error,
}
use rules_python.Base.Dict.{Dict, get}
use rules_python.Base.Order.{text_lt, sort_by}
use rules_python.Text.{split, join, includes, decimal}
use rules_python.Release.Versions.{release_branch, last_of}
use rules_python.Release.BackportReleases.{minor_key}

-- `parts[1]`; a release branch has a slash.
abbrev pub second_part : List Text → Text
second_part (a ∷ b ∷ parts) = b
second_part _ = []

abbrev pub minor_of : Text → Text
minor_of branch = second_part (split b'/' branch)

abbrev pub is_release_branch : Text → Bool
is_release_branch branch = elim (release_branch branch) [ none ↦ false | some v ↦ true ]

-- `v >= from_v and v <= to_v`
abbrev pub in_range : List ℕ → List ℕ → ℕ × ℕ → Bool
in_range from to (major, minor) =
    not (text_lt (major ∷ minor ∷ []) from) && not (text_lt to (major ∷ minor ∷ []))

abbrev pub is_target : List ℕ → List ℕ → Text → Bool
is_target from to branch = elim (release_branch branch) [
  | none ↦ false
  | some v ↦ in_range from to v
]

abbrev pub branch_lt : Text → Text → Bool
branch_lt a b = text_lt (minor_key (minor_of a)) (minor_key (minor_of b))

unfoldable pub target_branches : List ℕ → List ℕ → List Text → List Text
target_branches from to branches = sort_by branch_lt (select (is_target from to) branches)

abbrev pub get_latest_release_branch : List Text → Option Text
get_latest_release_branch branches = last_of (sort_by branch_lt (select is_release_branch branches))

-- `version_map[branch]` and `verify_results[branch]`, which are set in the same round.
pub record Verified : Type 0 where
  pub version : Text
  pub success : Bool
  pub reason : Text

abbrev pub verified_of : Text → Dict Text Verified → Result Verified
verified_of branch results = elim (get branch results) [ none ↦ err key_error | some v ↦ ok v ]

abbrev pub verify_line : Text → Verified → Text
verify_line minor v =
    if v.success
    then codes "- [x] Verify apply " ++ (minor ++ codes " | status=success")
    else codes "- [ ] Verify apply "
      ++ (minor
          ++ (codes " | status="
              ++ (if includes v.reason (codes "Changelog")
                  then codes "failed-changelog"
                  else codes "failed-conflict")))

abbrev pub verify_lines : Dict Text Verified → List Text → Result (List Text)
verify_lines results [] = ok []
verify_lines results (branch ∷ branches) =
    let rest = verify_lines results branches in
    elim (verified_of branch results) [
      | err e ↦ err e
      | ok v ↦ elim rest [ err e ↦ err e | ok lines ↦ ok (verify_line (minor_of branch) v ∷ lines) ]
    ]

abbrev pub release_lines : Dict Text Verified → List Text → Result (List Text)
release_lines results [] = ok []
release_lines results (branch ∷ branches) =
    let rest = release_lines results branches in
    elim (verified_of branch results) [
      | err e ↦ err e
      | ok v ↦ elim rest [
        | err e ↦ err e
        | ok lines ↦ ok ((codes "- [ ] Track Release " ++ v.version) ∷ lines)
      ]
    ]

abbrev pub head_lines : ℕ → Text → Text → List Text
head_lines pr from to =
    (codes "* PR: #" ++ decimal pr)
    ∷ (codes "* From version: " ++ from)
    ∷ (codes "* To version: " ++ to)
    ∷ []
    ∷ codes "## Tasks"
    ∷ []
    ∷ []

abbrev pub issue_text : ℕ → Text → Text → Dict Text Verified → List Text → Result Text
issue_text pr from to results branches = elim (verify_lines results branches) [
  | err e ↦ err e
  | ok verify ↦ elim (release_lines results branches) [
    | err e ↦ err e
    | ok release ↦ ok (join (10 ∷ []) (head_lines pr from to ++ (verify ++ release)))
  ]
]
