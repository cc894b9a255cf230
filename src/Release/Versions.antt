-- ===== src/Release/Versions.antt =====
-- The versions of tools/private/release/utils.py: tags, release branches and the next version.
pub mod Fresh
pub mod Latest
use rules_python.Base.{
  nat_eq, text_eq, ℕ, zero, suc, ◌+◌, ◌-◌, ◌*◌, Bool, true, false, not, ◌&&◌, ◌||◌, Option, none,
  some, List, [], ◌∷◌, ◌++◌, map, Text, ◌==◌, codes, is_empty, if◌then◌else◌, ltb, leb, Result, ok,
  err, value_error, runtime_error, argument_type_error, ◌>>=◌, length, drop, select,
}
use rules_python.Base.Order.{sort_by}
use rules_python.Text.{starts_with, strip, lstrip_by, split, decimal}

-- `\d` on ASCII digits.
abbrev pub is_digit : ℕ → Bool
is_digit c = leb 48 c && leb c 57

-- `$`: the end, or the line end that is the end.
abbrev pub at_end : Text → Bool
at_end s = is_empty s || s == 10 ∷ []

-- `\d+` and what follows. What follows begins with no digit, so the match takes all digits.
abbrev pub digits_then : (Text → Bool) → Text → Bool
digits_then follows [] = false
digits_then follows (c ∷ s) = is_digit c && follows (lstrip_by is_digit s)

abbrev pub literal_then : Text → (Text → Bool) → Text → Bool
literal_then literal follows s = starts_with s literal && follows (drop (length literal) s)

abbrev pub rc_or_end : Text → Bool
rc_or_end s = at_end s || literal_then (codes "rc") (digits_then at_end) s

-- `^\d+\.\d+\.\d+(rc\d+)?$`
unfoldable pub is_semver : Text → Bool
is_semver s =
    digits_then
      (literal_then (codes ".") (digits_then (literal_then (codes ".") (digits_then rc_or_end)))) s

unfoldable pub semver_type : Text → Result Text
semver_type value = if is_semver value then ok value else err argument_type_error

-- The number of the digits in front of a text, behind the number `n`.
unfoldable pub number : ℕ → Text → ℕ
number n [] = n
number n (c ∷ s) = let rest = number (n * 10 + (c - 48)) s in if is_digit c then rest else n

-- `int(s)` on a text of digits and the white space round it.
unfoldable pub int_of : Text → Result ℕ
int_of s = if digits_then is_empty (strip s) then ok (number 0 (strip s)) else err value_error

abbrev pub last_of : List Text → Option Text
last_of [] = none
last_of (x ∷ []) = some x
last_of (x ∷ y ∷ l) = last_of (y ∷ l)

abbrev pub max_of : List ℕ → ℕ
max_of [] = 0
max_of (x ∷ l) = let m = max_of l in if ltb m x then x else m

-- `m.group(1)` of `^{prefix}(\d+)$`, as a number.
unfoldable pub patch_of : Text → Text → Option ℕ
patch_of prefix tag =
    if literal_then prefix (digits_then at_end) tag
    then some (number 0 (drop (length prefix) tag))
    else none

abbrev pub add_some : Option ℕ → List ℕ → List ℕ
add_some none l = l
add_some (some n) l = n ∷ l

unfoldable pub matching_patches : Text → List Text → List ℕ
matching_patches prefix [] = []
matching_patches prefix (tag ∷ tags) =
    add_some (patch_of prefix (strip tag)) (matching_patches prefix tags)

abbrev pub version_prefix : ℕ × ℕ → Text
version_prefix (major, minor) = decimal major ++ (b'.' ∷ (decimal minor ++ codes "."))

abbrev pub next_patch : List ℕ → ℕ
next_patch [] = 0
next_patch (p ∷ ps) = max_of (p ∷ ps) + 1

unfoldable pub next_on_branch : ℕ × ℕ → List Text → Text
next_on_branch branch tags =
    version_prefix branch ++ decimal (next_patch (matching_patches (version_prefix branch) tags))

-- `^release/(\d+)\.(\d+)$`
unfoldable pub release_branch : Text → Option (ℕ × ℕ)
release_branch name =
    if literal_then (codes "release/") (digits_then (literal_then (codes ".") (digits_then at_end)))
      name
    then some (number 0 (drop 8 name), number 0 (drop 1 (lstrip_by is_digit (drop 8 name))))
    else none

-- `lt` is the order of the versions of two tags.
unfoldable pub get_latest_rc_tag : (Text → Text → Bool) → Text → List Text → Option Text
get_latest_rc_tag lt version tags = last_of (
    sort_by lt
      (select (literal_then (version ++ codes "-rc") (digits_then at_end)) (map strip tags)))

-- `lt` is the order of the versions that `packaging.version.parse` makes of two texts, and
-- `is_prerelease` that property of such a version.
module _ (lt : Text → Text → Bool) (is_prerelease : Text → Bool) where
  abbrev pub last_stable : Option Text → Result Text
  last_stable none = err value_error
  last_stable (some tag) = ok tag

  abbrev pub latest_of : List Text → Option Text → Result Text
  latest_of versions none = err runtime_error
  latest_of versions (some latest) =
      if is_prerelease latest
      then err value_error
      else last_stable (last_of (select (λ v. not (is_prerelease v)) versions))

  unfoldable pub get_latest_version : List Text → Result Text
  get_latest_version tags =
      let versions = sort_by lt (select (λ tag. is_semver (strip tag)) tags) in
      latest_of versions (last_of versions)

  -- `major, minor, patch = [int(n) for n in latest_version.split(".")]`
  abbrev pub bump : Bool → List Text → Result Text
  bump minor_too (a ∷ b ∷ c ∷ []) = do
    major ← int_of a
    minor ← int_of b
    patch ← int_of c
    ok (
        if minor_too
        then version_prefix (major, minor + 1) ++ codes "0"
        else version_prefix (major, minor) ++ decimal (patch + 1))
  bump minor_too (a ∷ b ∷ c ∷ d ∷ l) = err value_error
  bump minor_too _ = err value_error

  -- `should_increment` is the result of `should_increment_minor`.
  abbrev pub next_of_latest : List Text → Bool → Bool → Result Text
  next_of_latest tags is_patch should_increment = do
    latest ← get_latest_version tags
    bump (not is_patch && should_increment) (split b'.' latest)

  abbrev pub next_for : Option (ℕ × ℕ) → List Text → Bool → Bool → Result Text
  next_for none tags is_patch should_increment = next_of_latest tags is_patch should_increment
  next_for (some branch) tags is_patch should_increment = ok (next_on_branch branch tags)

  abbrev pub given_or : Option Text → Text → Text
  given_or none current = current
  given_or (some branch) current = branch

  -- `current` is the branch that git is on.
  unfoldable pub determine_next_version : Option Text → Text → List Text → Bool → Bool → Result Text
  determine_next_version branch_name current tags is_patch should_increment =
      next_for (release_branch (given_or branch_name current)) tags is_patch should_increment
