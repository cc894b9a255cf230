-- ===== src/Release/News.antt =====
-- News entries and the block of a release in the changelog, in
-- tools/private/release/changelog_news.py.
pub mod Anchors
pub mod Dashed
pub mod Insertion
pub mod Merge
pub mod Merged
use rules_python.Base.{
  nat_eq, text_eq, ℕ, zero, suc, ◌-◌, ◌+◌, Bool, true, false, not, ◌&&◌, ◌||◌, Option, none, some,
  List, [], ◌∷◌, ◌++◌, Text, ◌==◌, if◌then◌else◌, codes, is_empty, contains, length, drop, leb, map,
  traverse, Result, ok, err, value_error,
}
use rules_python.Base.Dict.{Dict, keys, get, get_or, put}
use rules_python.Base.Order.{text_lt, sort_by}
use rules_python.Text.{
  lower, strip, starts_with, ends_with, lstrip_by, is_space, split, split_lines, join, cut, replace,
}
use rules_python.Release.Versions.{int_of}
use rules_python.Release.ReleaseTitle.{digits_part}

abbrev pub is_bullet : Text → Bool
is_bullet line = starts_with line (codes "* ") || starts_with line (codes "- ")

-- `\s*\(([^)]+)\)` behind the bullet.
abbrev pub in_parentheses : Text → Text
in_parentheses [] = []
in_parentheses (c ∷ s) =
    if c == b'(' then elim (cut b')' s) [ none ↦ [] | some p ↦ lower p.0 ] else []

unfoldable pub get_sub_category : Text → Text
get_sub_category [] = []
get_sub_category (c ∷ s) =
    if c == b'*' || c == b'-' then in_parentheses (lstrip_by is_space s) else []

abbrev pub format_first : Text → Text
format_first line = if is_bullet line then line else codes "* " ++ line

abbrev pub format_line : Text → Text
format_line line =
    if is_empty line || is_bullet line || starts_with line (codes "  ")
    then line
    else codes "  " ++ line

abbrev pub format_lines : List Text → Text
format_lines [] = []
format_lines (first ∷ lines) = join (10 ∷ []) (format_first first ∷ map format_line lines)

unfoldable pub format_entry : Text → Text
format_entry content = format_lines (split_lines (strip content))

-- A news file that is there, and its text.
pub record NewsFile : Type 0 where
  pub name : Text
  pub content : Text

abbrev pub name_parts : Text → List Text
name_parts name = split b'.' name

abbrev pub is_news_file : Text → Bool
is_news_file name = ends_with name (codes ".md") && leb 3 (length (name_parts name))

abbrev pub second : List Text → Text
second [] = []
second (a ∷ []) = []
second (a ∷ b ∷ l) = b

abbrev pub add_news : NewsFile → Dict Text (List Text) → Dict Text (List Text)
add_news f entries =
    let category = lower (second (name_parts f.name)) in
    let formatted = format_entry (strip f.content) in
    if not (is_news_file f.name) || is_empty (strip f.content) || is_empty formatted
    then entries
    else put category (get_or category entries [] ++ (formatted ∷ [])) entries

unfoldable pub parse_new_files : List NewsFile → Dict Text (List Text) → Dict Text (List Text)
parse_new_files [] entries = entries
parse_new_files (f ∷ fs) entries = parse_new_files fs (add_news f entries)

-- The order of the entries: the sub-category, then the entry.
abbrev pub entry_before : Text → Text → Bool
entry_before a b =
    text_lt (get_sub_category a) (get_sub_category b)
    || (get_sub_category a == get_sub_category b && text_lt a b)

abbrev pub standard_categories : List Text
standard_categories = codes "removed" ∷ codes "changed" ∷ codes "fixed" ∷ codes "added" ∷ []

abbrev pub add_categories : List Text → List Text → List Text
add_categories order [] = order
add_categories order (c ∷ cs) =
    if contains order c then add_categories order cs else add_categories (order ++ (c ∷ [])) cs

abbrev pub upper_char : ℕ → ℕ
upper_char c = if leb 97 c && leb c 122 then c - 32 else c

abbrev pub capitalize : Text → Text
capitalize [] = []
capitalize (c ∷ s) = upper_char c ∷ lower s

abbrev pub category_lines : Text → Text → List Text → List Text
category_lines header cat [] = []
category_lines header cat (e ∷ es) =
    (codes "{#v" ++ (header ++ (b'-' ∷ (cat ++ codes "}"))))
    ∷ (codes "### " ++ capitalize cat)
    ∷ (sort_by entry_before (e ∷ es) ++ ([] ∷ []))

abbrev pub categories_lines : Text → Dict Text (List Text) → List Text → List Text
categories_lines header entries [] = []
categories_lines header entries (cat ∷ cats) =
    category_lines header cat (get_or cat entries []) ++ categories_lines header entries cats

abbrev pub or_nothing : List Text → List Text
or_nothing [] = codes "No notable changes." ∷ [] ∷ []
or_nothing (l ∷ ls) = l ∷ ls

abbrev pub header_version : Text → Text
header_version version = replace version (codes ".") (codes "-")

abbrev pub header_lines : Text → Text → List Text
header_lines version date =
    (codes "{#v" ++ (header_version version ++ codes "}"))
    ∷ (codes "## [" ++ (version ++ (codes "] - " ++ date)))
    ∷ []
    ∷ (b'['
        ∷ (version
            ++ (codes "]: https://github.com/bazel-contrib/rules_python/releases/tag/" ++ version)))
    ∷ []
    ∷ []

unfoldable pub generate_release_block : Text → Text → Dict Text (List Text) → Text
generate_release_block version date entries = join (10 ∷ []) (
    header_lines version date
    ++ or_nothing (
        categories_lines (header_version version) entries
          (add_categories standard_categories (keys entries))))

unfoldable pub parse_simple_version : Text → Result (List ℕ)
parse_simple_version version =
    traverse int_of (split b'.' (replace version (codes "-") (codes ".")))

-- `-\d+` behind what is read so far.
abbrev pub dash_digits : Option (Text × Text) → Option (Text × Text)
dash_digits none = none
dash_digits (some (a, [])) = none
dash_digits (some (a, c ∷ s)) =
    if c == b'-'
    then elim (digits_part s) [ none ↦ none | some (b, rest) ↦ some (a ++ (b'-' ∷ b), rest) ]
    else none

abbrev pub closed : Option (Text × Text) → Option Text
closed none = none
closed (some (version, s)) = if starts_with s (codes "}") then some version else none

-- `\{#v(?P<ver>\d+-\d+-\d+)\}` in front of a text.
unfoldable pub anchor_version : Text → Option Text
anchor_version s =
    if starts_with s (codes "{#v")
    then closed (dash_digits (dash_digits (digits_part (drop 3 s))))
    else none

-- The first anchor, from the index `i` on, whose version is smaller.
unfoldable pub first_smaller : List ℕ → ℕ → Text → Result ℕ
first_smaller new i [] = err value_error
first_smaller new i (c ∷ s) = elim (anchor_version (c ∷ s)) [
  | none ↦ first_smaller new (suc i) s
  | some version ↦ elim (parse_simple_version version) [
    | err e ↦ err e
    | ok old ↦ elim (text_lt old new) [ true ↦ ok i | false ↦ first_smaller new (suc i) s ]
  ]
]

unfoldable pub find_insertion_point : Text → Text → Result ℕ
find_insertion_point content new_version = elim (parse_simple_version new_version) [
  | err e ↦ err e
  | ok new ↦ first_smaller new 0 content
]
