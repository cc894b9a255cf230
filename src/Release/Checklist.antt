-- ===== src/Release/Checklist.antt =====
-- The lines of the checklist in a release's tracking issue, in
-- tools/private/release/release_issue.py: `parse_metadata_line` and `format_metadata_line`.
pub mod Pairs
pub mod OneLine
pub mod ReadBack
use rules_python.Base.{
  nat_eq, text_eq, ℕ, zero, suc, ◌-◌, Bool, true, false, not, ◌&&◌, ◌||◌, Option, none, some, List,
  [], ◌∷◌, ◌++◌, Text, ◌==◌, codes, is_empty, if◌then◌else◌, leb, length,
}
use rules_python.Base.Dict.{Dict, put}
use rules_python.Text.{is_space, lstrip_by, strip, join, ends_with, cut}

-- `\w`, on ASCII characters.
abbrev pub is_word_char : ℕ → Bool
is_word_char c =
    (leb 48 c && leb c 57) || (leb 65 c && leb c 90) || (leb 97 c && leb c 122) || c == b'_'

abbrev pub is_dark : ℕ → Bool
is_dark c = not (is_space c)

-- The longest beginning of a text whose characters meet `p`.
unfoldable pub take_while : (ℕ → Bool) → Text → Text
take_while p [] = []
take_while p (c ∷ s) = let rest = take_while p s in if p c then c ∷ rest else []

-- A match of `(\w+)\s*=\s*(\S+)`: the key, the value, and how many characters it takes.
pub record Match : Type 0 where
  pub key : Text
  pub value : Text
  pub size : ℕ

abbrev pub value_match : Text → Text → Text → Option Match
value_match s key after =
    let value = take_while is_dark after in
    if is_empty key || is_empty value
    then none
    else some
        (record { key = key; value = value; size = length s - length (lstrip_by is_dark after) })

abbrev pub equals_match : Text → Text → Text → Option Match
equals_match s key [] = none
equals_match s key (c ∷ after) =
    if c == b'=' then value_match s key (lstrip_by is_space after) else none

unfoldable pub match_pair : Text → Option Match
match_pair s =
    equals_match s (take_while is_word_char s) (lstrip_by is_space (lstrip_by is_word_char s))

-- `re.findall(r"(\w+)\s*=\s*(\S+)", s)`. `skip` counts what is left of the last match.
unfoldable pub find_pairs : ℕ → Text → List (Text × Text)
find_pairs skip [] = []
find_pairs (suc skip) (c ∷ s) = find_pairs skip s
find_pairs zero (c ∷ s) = elim (match_pair (c ∷ s)) [
  | none ↦ find_pairs zero s
  | some m ↦ (m.key, m.value) ∷ find_pairs (m.size - 1) s
]

-- `for k, v in ...: metadata[k] = v`
unfoldable pub put_pairs : List (Text × Text) → Dict Text Text → Dict Text Text
put_pairs [] d = d
put_pairs ((k, v) ∷ pairs) d = put_pairs pairs (put k v d)

-- What `parse_metadata_line` returns, without the line itself, which nothing reads.
pub record Parsed : Type 0 where
  pub checked : Bool
  pub name : Text
  pub metadata : Dict Text Text

-- `\s+([^|]+)`: a white space and one more character at least.
abbrev pub begins_name : Text → Bool
begins_name [] = false
begins_name (c ∷ []) = false
begins_name (c ∷ d ∷ s) = is_space c

-- The text up to the first bar, and what stands behind it.
abbrev pub metadata_of : Option (Text × Text) → Dict Text Text
metadata_of none = []
metadata_of (some p) = put_pairs (find_pairs 0 p.1) []

abbrev pub name_part : Text → Option (Text × Text) → Text
name_part s none = s
name_part s (some p) = p.0

abbrev pub parse_name : Bool → Text → Option Parsed
parse_name checked s =
    if begins_name (name_part s (cut b'|' s))
    then some (record {
      checked = checked;
      name = strip (name_part s (cut b'|' s));
      metadata = metadata_of (cut b'|' s);
    })
    else none

-- Behind the opening bracket: the mark and the closing bracket.
abbrev pub parse_box : Text → Option Parsed
parse_box [] = none
parse_box (c ∷ []) = none
parse_box (c ∷ d ∷ s) =
    if (c == b' ' || c == b'x' || c == b'X') && d == b']'
    then parse_name (c == b'x' || c == b'X') s
    else none

-- The rest of the text, where it begins with `c` behind white space.
abbrev pub expect : ℕ → Text → Option Text
expect c [] = none
expect c (d ∷ s) = if d == c then some s else none

abbrev pub then_box : Option Text → Option Parsed
then_box none = none
then_box (some s) = parse_box s

abbrev pub then_bracket : Option Text → Option Parsed
then_bracket none = none
then_bracket (some s) = then_box (expect b'[' (lstrip_by is_space s))

-- `^\s*-\s*\[([ xX])\]\s+([^|]+)(?:\s*\|\s*(.*))?$`, on a line, which holds no line break. White
-- space round the name and before the metadata makes no difference to what is read of them.
unfoldable pub parse_metadata_line : Text → Option Parsed
parse_metadata_line line = then_bracket (expect b'-' (lstrip_by is_space line))

abbrev pub is_commit : Text → Bool
is_commit k = k == codes "commit" || ends_with k (codes "_commit")

abbrev pub format_pair : Text × Text → Text
format_pair (k, v) = if is_commit k then k ++ (codes "= " ++ v) else k ++ (b'=' ∷ v)

abbrev pub format_pairs : Dict Text Text → List Text
format_pairs [] = []
format_pairs (p ∷ d) = format_pair p ∷ format_pairs d

abbrev pub box : Bool → Text
box checked = codes "- [" ++ ((if checked then codes "x" else codes " ") ++ codes "] ")

abbrev pub format_metadata : Dict Text Text → Text
format_metadata [] = []
format_metadata (p ∷ d) = codes " | " ++ join (codes " ") (format_pairs (p ∷ d))

unfoldable pub format_metadata_line : Bool → Text → Dict Text Text → Text
format_metadata_line checked name metadata = box checked ++ (name ++ format_metadata metadata)
