-- ===== src/Release/Tests.antt =====
-- Runs of tools/private/release/utils.py on concrete inputs.
mod Backports
mod Checklist
mod Commands
mod News
use rules_python.Base.{
  ◌⊎◌, nat_eq, text_eq, Bool, true, false, none, some, List, [], ◌∷◌, Text, codes, contains, All,
  ok, ◌≡◌, refl, map, ℕ_discrete, text_dec, arith,
}
use rules_python.Base.Order.{text_lt, text_lt_trans, text_lt_irrefl, text_le_trans, sort_by}
use rules_python.Text.{starts_with, strip, strip_by, lstrip_by, rstrip_by, decimal, decimal_from}
use rules_python.Release.Versions.{
  get_latest_version, is_semver, determine_next_version, release_branch, number, next_on_branch,
  matching_patches, patch_of,
}
use rules_python.Release.Versions.Latest.{get_latest_version-greatest}
use rules_python.Release.Versions.Fresh.{determine_next_version-Fresh}
use rules_python.Release.Placeholders.{File, feature, patch, replace_version_next_in_files}
use rules_python.Release.Placeholders.Replaced.{
  Avoids, IsReplaced, replace_version_next_in_files-IsReplaced,
}

abbrev never : Text → Bool
never v = false

abbrev in_order : Text → Text → Bool
in_order v w = false

abbrev tags : List Text
tags = codes "1.2.0" ∷ codes "1.2.9 " ∷ codes "1.3.0" ∷ []

branch_read : release_branch (codes "release/1.2") ≡ some (1, 2)
unfolding release_branch starts_with lstrip_by number ℕ_discrete text_dec
branch_read = refl

next_made :
    determine_next_version in_order never none (codes "release/1.2") tags false true
    ≡ ok (codes "1.2.10")
unfolding determine_next_version release_branch starts_with lstrip_by number ℕ_discrete text_dec
    next_on_branch matching_patches patch_of strip strip_by rstrip_by decimal decimal_from
next_made = refl

determine_next_version-Fresh_example : contains (map strip tags) (codes "1.2.10") ≡ false
determine_next_version-Fresh_example =
    determine_next_version-Fresh in_order never none (codes "release/1.2") tags false true (1, 2)
      (codes "1.2.10") branch_read next_made

feature-Avoids : Avoids (codes "1.2.0") feature
unfolding ℕ_discrete
feature-Avoids = ground arith

patch-Avoids : Avoids (codes "1.2.0") patch
unfolding ℕ_discrete
patch-Avoids = ground arith

abbrev documents : List File
documents =
    record { path = codes "docs/a.md"; content = some (codes "since VERSION_NEXT_FEATURE") }
    ∷ record { path = codes "b"; content = none }
    ∷ []

replace_version_next_in_files-IsReplaced_example :
    All IsReplaced (replace_version_next_in_files documents (codes "1.2.0")).files
replace_version_next_in_files-IsReplaced_example =
    replace_version_next_in_files-IsReplaced documents b'1' (codes ".2.0") feature-Avoids
      patch-Avoids

-- The order of the texts stands for that of the versions.
text_lt-asym : (a b : Text) → text_lt a b ≡ true → text_lt b a ≡ false
text_lt-asym a b h = ground (arith, text_lt_trans a b a, text_lt_irrefl a)

latest_made :
    get_latest_version text_lt never (codes "1.3.0" ∷ codes "v1" ∷ codes "1.2.0" ∷ [])
    ≡ ok (codes "1.3.0")
unfolding get_latest_version is_semver strip strip_by lstrip_by rstrip_by starts_with sort_by
    text_lt ℕ_discrete text_dec
latest_made = refl

get_latest_version-greatest_example :
    (contains (codes "1.3.0" ∷ codes "v1" ∷ codes "1.2.0" ∷ []) (codes "1.3.0") ≡ true)
    × (is_semver (strip (codes "1.3.0")) ≡ true)
    × (false ≡ false)
    × All
        (λ y.
          (is_semver (strip y) ≡ false) ⊎ ((false ≡ true) ⊎ (text_lt (codes "1.3.0") y ≡ false)))
        (codes "1.3.0" ∷ codes "v1" ∷ codes "1.2.0" ∷ [])
get_latest_version-greatest_example =
    get_latest_version-greatest text_lt never (codes "1.3.0" ∷ codes "v1" ∷ codes "1.2.0" ∷ [])
      (codes "1.3.0") text_lt-asym text_le_trans latest_made
