-- ===== src/Release/ReleaseTitle.antt =====
-- The version in the title of a tracking issue, its branch and its next release candidate, as the
-- commands of tools/private/release read them.
use rules_python.Base.{
  zero, nat_eq, text_eq, ℕ, suc, Bool, false, not, ◌&&◌, Option, none, some, [], ◌∷◌, ◌++◌, Text,
  ◌==◌, if◌then◌else◌, codes, drop, take, any, Result, ok, err, max,
}
use rules_python.Base.Dict.{Dict}
use rules_python.Text.{lower, starts_with, lstrip_by, split, join}
use rules_python.Release.Versions.{is_digit, int_of}
use rules_python.Release.Checklist.{take_while}
use rules_python.Release.Issue.State.{ReleaseTask}

-- `\d+`: the digits and what stands behind them.
abbrev pub digits_part : Text → Option (Text × Text)
digits_part [] = none
digits_part (c ∷ s) =
    if is_digit c then some (take_while is_digit (c ∷ s), lstrip_by is_digit (c ∷ s)) else none

abbrev pub dot_part : Option (Text × Text) → Option (Text × Text)
dot_part none = none
dot_part (some (a, [])) = none
dot_part (some (a, c ∷ s)) = if c == b'.' then some (a, s) else none

abbrev pub number_part : Option (Text × Text) → Option (Text × Text)
number_part none = none
number_part (some (a, s)) = elim (digits_part s) [
  | none ↦ none
  | some (b, rest) ↦ some (a ++ (b'.' ∷ b), rest)
]

-- `\d+\.\d+\.\d+` in front of a text.
abbrev pub version_part : Text → Option Text
version_part s = elim (number_part (dot_part (number_part (dot_part (digits_part s))))) [
  | none ↦ none
  | some (version, rest) ↦ some version
]

-- `RELEASE_TITLE_RE.search(title).group(1)`
unfoldable pub title_version : Text → Option Text
unfolding starts_with
title_version [] = none
title_version (c ∷ s) =
    let rest = title_version s in
    if starts_with (lower (c ∷ s)) (codes "release ")
    then elim (version_part (drop 8 (c ∷ s))) [ none ↦ rest | some v ↦ some v ]
    else rest

-- `f"release/{'.'.join(version.split('.')[:2])}"`
abbrev pub branch_name : Text → Text
branch_name version = codes "release/" ++ join (codes ".") (take 2 (split b'.' version))

-- `tag.split("-rc")[-1]`, where `tag` holds "-rc".
unfoldable pub behind_rc : Text → Text → Text
behind_rc last [] = last
behind_rc last (c ∷ s) =
    if starts_with (c ∷ s) (codes "-rc") then behind_rc (drop 3 (c ∷ s)) s else behind_rc last s

-- The number behind the latest release candidate's.
abbrev pub next_rc : Option Text → Result ℕ
next_rc none = ok 0
next_rc (some tag) = elim (int_of (behind_rc tag tag)) [ err e ↦ err e | ok n ↦ ok (suc n) ]

abbrev pub is_text : Text → Option Text → Bool
is_text s none = false
is_text s (some t) = t == s

abbrev pub is_pending : ReleaseTask → Bool
is_pending t = not t.checked && not (is_text (codes "done") t.status)

abbrev pub has_pending_rc : Dict ℕ ReleaseTask → Bool
has_pending_rc rc_tags = any (λ p. is_pending p.1) rc_tags

abbrev pub greatest : Dict ℕ ReleaseTask → ℕ
greatest [] = 0
greatest ((n, t) ∷ d) = max n (greatest d)

-- `max(rc_tags.keys()) + 1 if rc_tags else 0`
abbrev pub next_rc_num : Dict ℕ ReleaseTask → ℕ
next_rc_num [] = 0
next_rc_num (p ∷ d) = suc (greatest (p ∷ d))

-- An issue that is missing or 0 counts as false.
abbrev pub given : Option ℕ → Option ℕ
given none = none
given (some zero) = none
given (some (suc n)) = some (suc n)
