-- ===== src/Release/Tests/News.antt =====
-- Runs of tools/private/release/changelog_news.py on concrete inputs.
use rules_python.Base.{
  nat_eq, text_eq, ℕ, List, [], ◌∷◌, ◌++◌, Text, codes, drop, ok, err, value_error, ◌≡◌, refl, ◌⊎◌,
  ℕ_discrete, text_dec,
}
use rules_python.Base.Order.{text_lt, sort_by}
use rules_python.Base.Dict.{get, put}
use rules_python.Text.{
  replace, replace_from, starts_with, ends_with, split, split_lines, strip, strip_by, lstrip_by,
  rstrip_by, lower, join, cut,
}
use rules_python.Release.Versions.{int_of, number}
use rules_python.Release.Checklist.{take_while}
use rules_python.Release.News.{
  NewsFile, get_sub_category, format_entry, parse_new_files, generate_release_block, anchor_version,
  parse_simple_version, first_smaller, find_insertion_point,
}
use rules_python.Release.News.Merge.{
  find_anchor, split_block, sections, entries_from, existing_entries, merge_entries, merged_block,
  insert_release, add_news_to_changelog,
}
use rules_python.Release.News.Insertion.{IsFirst, BeginsSmaller, find_insertion_point-IsFirst}

abbrev changelog : Text
changelog = codes "# Changelog" ++ (10 ∷ (codes "{#v1-3-0}" ++ (10 ∷ codes "{#v1-1-0}")))

new_version : parse_simple_version (codes "1.2.0") ≡ ok (1 ∷ 2 ∷ 0 ∷ [])
unfolding parse_simple_version replace replace_from starts_with split int_of number strip strip_by
    lstrip_by rstrip_by ℕ_discrete text_dec
new_version = refl

find_insertion_point-IsFirst_example :
    ((j : ℕ) × (find_insertion_point changelog (codes "1.2.0") ≡ ok j)
      × IsFirst (1 ∷ 2 ∷ 0 ∷ []) changelog j)
    ⊎ ((find_insertion_point changelog (codes "1.2.0") ≡ err value_error)
        × ((m : ℕ) → BeginsSmaller (1 ∷ 2 ∷ 0 ∷ []) (drop m changelog) → ⊥))
find_insertion_point-IsFirst_example =
    find_insertion_point-IsFirst changelog (codes "1.2.0") (1 ∷ 2 ∷ 0 ∷ []) new_version

inserted_before_second : find_insertion_point changelog (codes "1.2.0") ≡ ok 22
unfolding find_insertion_point first_smaller anchor_version take_while text_lt parse_simple_version
    replace replace_from starts_with split int_of number strip strip_by lstrip_by rstrip_by
    ℕ_discrete text_dec
inserted_before_second = refl

abbrev news : List NewsFile
news =
    record { name = codes "12.fixed.md"; content = codes "(pypi) Two" ++ (10 ∷ codes "lines") }
    ∷ record { name = codes "7.fixed.md"; content = codes "* (gazelle) One" }
    ∷ record { name = codes "README.md"; content = codes "No news" }
    ∷ []

news_grouped :
    parse_new_files news []
    ≡ (
      codes "fixed",
      (codes "* (pypi) Two" ++ (10 ∷ codes "  lines")) ∷ codes "* (gazelle) One" ∷ [],
    )
      ∷ []
unfolding parse_new_files format_entry split_lines strip strip_by lstrip_by rstrip_by starts_with
    ends_with split lower join get put ℕ_discrete text_dec
news_grouped = refl

news_sorted :
    generate_release_block
      (codes "1.2.0")
      (codes "2025-01-01")
      ((codes "fixed", codes "* (pypi) B" ∷ codes "* (gazelle) A" ∷ []) ∷ [])
    ≡ codes "{#v1-2-0}"
      ++ (10
          ∷ (codes "## [1.2.0] - 2025-01-01"
              ++ (10
                  ∷ 10
                  ∷ (codes
                        "[1.2.0]: https://github.com/bazel-contrib/rules_python/releases/tag/1.2.0"
                      ++ (10
                          ∷ 10
                          ∷ (codes "{#v1-2-0-fixed}"
                              ++ (10
                                  ∷ (codes "### Fixed"
                                      ++ (10
                                          ∷ (codes "* (gazelle) A"
                                              ++ (10 ∷ (codes "* (pypi) B" ++ (10 ∷ [])))))))))))))
unfolding generate_release_block get_sub_category sort_by text_lt replace replace_from starts_with
    lstrip_by lower cut join get ℕ_discrete text_dec
news_sorted = refl

abbrev lines_of : List Text → Text
lines_of lines = join (10 ∷ []) lines

abbrev two_releases : Text
two_releases = lines_of (
    codes "{#v1-2-0}"
    ∷ codes "## [1.2.0]"
    ∷ codes "{#v1-2-0-fixed}"
    ∷ codes "### Fixed"
    ∷ codes "* B"
    ∷ codes "  more"
    ∷ codes "{#v1-1-0}"
    ∷ [])

-- The news of a release that the changelog has already.
merged_news :
    add_news_to_changelog
      (λ t. t)
      (λ anchor content t. ok t)
      two_releases
      (codes "1.2.0")
      []
      ((codes "fixed", codes "* A" ∷ []) ∷ [])
    ≡ ok (
        lines_of (
          codes "{#v1-2-0}"
          ∷ codes "## [1.2.0]"
          ∷ []
          ∷ codes "{#v1-2-0-fixed}"
          ∷ codes "### Fixed"
          ∷ codes "* A"
          ∷ codes "* B"
          ∷ codes "  more"
          ∷ []
          ∷ codes "{#v1-1-0}"
          ∷ []))
unfolding add_news_to_changelog find_anchor split_block sections entries_from existing_entries
    merge_entries merged_block insert_release anchor_version take_while get_sub_category sort_by
    text_lt replace replace_from starts_with strip strip_by lstrip_by rstrip_by split split_lines
    lower cut join get put ℕ_discrete text_dec
merged_news = refl
