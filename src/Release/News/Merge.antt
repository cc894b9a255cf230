-- ===== src/Release/News/Merge.antt =====
-- The merge of news into the changelog, in tools/private/release/changelog_news.py. A category's
-- anchor has one `{`, so that no two of them overlap.
use rules_python.Base.{
  nat_eq, text_eq, ℕ, ◌+◌, Bool, true, false, not, ◌&&◌, ◌||◌, Option, none, some, List, [], ◌∷◌,
  ◌++◌, Text, ◌==◌, if◌then◌else◌, codes, is_empty, length, take, drop, leb, Result, ok, err,
}
use rules_python.Base.Dict.{Dict, keys, get_or, put}
use rules_python.Base.Order.{sort_by}
use rules_python.Text.{strip, starts_with, lstrip_by, rstrip_by, is_space, split_lines, join}
use rules_python.Release.Checklist.{take_while}
use rules_python.Release.News.{
  NewsFile, parse_new_files, is_bullet, entry_before, standard_categories, add_categories,
  capitalize, header_version, generate_release_block, anchor_version, find_insertion_point,
}

abbrev pub is_unreleased : Text → Bool
is_unreleased version = version == codes "unreleased"

-- The anchors of a version and of its categories, without what closes them.
abbrev pub anchor_of : Text → Text
anchor_of version =
    if is_unreleased version then codes "{#unreleased" else codes "{#v" ++ header_version version

abbrev pub version_anchor : Text → Text
version_anchor version = anchor_of version ++ codes "}"

abbrev pub category_prefix : Text → Text
category_prefix version = anchor_of version ++ codes "-"

-- The text before the first anchor, and the text behind it.
unfoldable pub find_anchor : Text → Text → Option (Text × Text)
find_anchor anchor [] = none
find_anchor anchor (c ∷ s) =
    let rest = find_anchor anchor s in
    if starts_with (c ∷ s) anchor
    then some ([], drop (length anchor) (c ∷ s))
    else elim rest [ none ↦ none | some (before, after) ↦ some (c ∷ before, after) ]

-- `\n\s*\{#v\d+-\d+-\d+\}` in front of a text.
abbrev pub is_next_version : Text → Bool
is_next_version [] = false
is_next_version (c ∷ s) =
    c == 10 && elim (anchor_version (lstrip_by is_space s)) [ none ↦ false | some v ↦ true ]

-- The block of the version, and the text from the next version on.
unfoldable pub split_block : Text → Text × Text
split_block [] = ([], [])
split_block (c ∷ s) =
    let rest = split_block s in
    if is_next_version (c ∷ s) then ([], c ∷ s) else (c ∷ rest.0, rest.1)

abbrev pub is_category_char : ℕ → Bool
is_category_char c = leb 97 c && leb c 122

-- The category's name, where a text begins with the anchor of a category.
abbrev pub category_at : Text → Text → Option Text
category_at prefix s =
    let cat = take_while is_category_char (drop (length prefix) s) in
    if starts_with s prefix
      && not (is_empty cat)
      && starts_with (drop (length prefix + length cat) s) (codes "}")
    then some cat
    else none

-- The header of a block, and the categories with their contents.
unfoldable pub sections : Text → Text → Text × List (Text × Text)
sections prefix [] = ([], [])
sections prefix (c ∷ s) =
    let rest = sections prefix s in
    elim (category_at prefix (c ∷ s)) [
      | none ↦ (c ∷ rest.0, rest.1)
      | some cat ↦ ([], (cat, drop (length prefix + length cat) rest.0) ∷ rest.1)
    ]

abbrev pub is_skipped : Text → Bool
is_skipped line = is_empty (strip line) || starts_with (strip line) (codes "### ")

abbrev pub flush : List Text → List Text
flush [] = []
flush (l ∷ ls) = join (10 ∷ []) (l ∷ ls) ∷ []

abbrev pub flushed : List Text → Text → List Text
flushed current line = if is_skipped line || not (is_bullet line) then [] else flush current

abbrev pub continued : List Text → Text → List Text
continued [] line = []
continued (l ∷ ls) line = l ∷ (ls ++ (line ∷ []))

abbrev pub next_current : List Text → Text → List Text
next_current current line =
    if is_skipped line
    then current
    else if is_bullet line
    then line ∷ []
    else continued current line

unfoldable pub entries_from : List Text → List Text → List Text
entries_from current [] = flush current
entries_from current (line ∷ lines) =
    flushed current line ++ entries_from (next_current current line) lines

unfoldable pub existing_entries : List (Text × Text) → Dict Text (List Text) → Dict Text (List Text)
existing_entries [] entries = entries
existing_entries ((cat, content) ∷ rest) entries =
    existing_entries rest (put cat (entries_from [] (split_lines (strip content))) entries)

unfoldable pub merge_entries : Dict Text (List Text) → Dict Text (List Text) → Dict Text (List Text)
merge_entries merged [] = merged
merge_entries merged ((cat, new) ∷ rest) =
    merge_entries (put cat (get_or cat merged [] ++ new) merged) rest

abbrev pub merged_category : Text → Text → List Text → List Text
merged_category prefix cat [] = []
merged_category prefix cat (e ∷ es) =
    (prefix ++ (cat ++ codes "}"))
    ∷ (codes "### " ++ capitalize cat)
    ∷ (sort_by entry_before (e ∷ es) ++ ([] ∷ []))

abbrev pub reconstructed_lines : Text → Dict Text (List Text) → List Text → List Text
reconstructed_lines prefix merged [] = []
reconstructed_lines prefix merged (cat ∷ cats) =
    merged_category prefix cat (get_or cat merged []) ++ reconstructed_lines prefix merged cats

abbrev pub new_categories : Text → Dict Text (List Text) → Text
new_categories prefix merged =
    join (10 ∷ [])
      (reconstructed_lines prefix merged (add_categories standard_categories (keys merged)))

abbrev pub new_release_block : Text → Text → Text → Text
new_release_block version header categories =
    if is_unreleased version && is_empty (strip categories)
    then rstrip_by is_space header
      ++ (10 ∷ 10 ∷ (codes "No notable unreleased changes." ++ (10 ∷ [])))
    else rstrip_by is_space header ++ (10 ∷ 10 ∷ (strip categories ++ (10 ∷ [])))

-- A block with the new entries in it.
unfoldable pub merged_block : Text → Text → Dict Text (List Text) → Text
merged_block version block entries =
    let parts = sections (category_prefix version) block in
    new_release_block version parts.0 (
      new_categories (category_prefix version)
        (merge_entries (existing_entries parts.1 []) entries))

unfoldable pub insert_release : Text → Text → Text → Dict Text (List Text) → Result Text
insert_release content version date entries = elim (find_insertion_point content version) [
  | err e ↦ err e
  | ok i ↦ ok (
      take i content ++ (generate_release_block version date entries ++ (10 ∷ 10 ∷ drop i content)))
]

-- `re.sub` removes the sentence on unreleased changes, and expands a template with the anchor and
-- the content that it replaces.
module _ (drop_sentence : Text → Text) (expand : Text → Text → Text → Result Text) where
  abbrev pub merge_into : Text → Text → Dict Text (List Text) → Text × Text → Result Text
  merge_into content version entries (before, after) =
      let block = split_block after in
      let kept = if is_unreleased version then drop_sentence block.0 else block.0 in
      elim (expand (version_anchor version) block.0
        (strip (merged_block version kept entries) ++ (10 ∷ []))) [
          | err e ↦ err e
          | ok text ↦ ok (before ++ (version_anchor version ++ (10 ∷ (text ++ block.1))))
        ]

  unfoldable pub add_news_to_changelog : Text → Text → Text → Dict Text (List Text) → Result Text
  add_news_to_changelog content version date entries =
      elim (find_anchor (version_anchor version) content) [
        | none ↦ insert_release content version date entries
        | some found ↦
            if length entries == 0 && not (is_unreleased version)
            then ok content
            else merge_into content version entries found
      ]

  -- The new text of the changelog, and the news files that are removed.
  abbrev pub merge_new_into_changelog :
      List NewsFile → Text → Text → Text → Bool → Result (Text × List NewsFile)
  merge_new_into_changelog news_files content version date delete_news =
      elim (add_news_to_changelog content version date (parse_new_files news_files [])) [
        | err e ↦ err e
        | ok text ↦ ok (text, if delete_news then news_files else [])
      ]
