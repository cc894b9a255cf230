-- ===== src/Runfiles/Manifest/Escapes.antt =====
-- The escapes of a runfiles manifest, and whole manifests, written and read back.
use rules_python.Base.{
  nat_eq, text_eq, pair_eq, ℕ, ◌≡◌, refl, Option, some, List, [], ◌∷◌, ◌++◌, Text, ◌==◌, codes,
  if◌then◌else◌, ok, Lacks, All, All-append, arith,
}
use rules_python.Base.Dict.{Dict}
use rules_python.Text.{
  starts_with, cut-append, file_lines, file_lines-append, replace, replace_from,
}
use rules_python.Runfiles.Manifest.{
  unescape_link, unescape_target, parse_line, add_link, load_lines, load_runfiles,
}

-- The escape of one character, by the comment in `_LoadRunfiles`.
abbrev escape_char : ℕ → Text
escape_char c =
    if c == b' '
    then codes "\\s"
    else if c == 10
    then codes "\\n"
    else if c == b'\\'
    then codes "\\b"
    else c ∷ []

abbrev escape_target_char : ℕ → Text
escape_target_char c = if c == 10 then codes "\\n" else if c == b'\\' then codes "\\b" else c ∷ []

abbrev escape_backslash : ℕ → Text
escape_backslash c = if c == b'\\' then codes "\\b" else c ∷ []

abbrev each : (ℕ → Text) → Text → Text
each f [] = []
each f (c ∷ s) = f c ++ each f s

pub escape_link : Text → Text
escape_link = each escape_char

pub escape_target : Text → Text
escape_target = each escape_target_char

replace-escape_char :
    (s : Text)
    → replace_from 0 (codes "\\s") (codes " ") (each escape_char s) ≡ each escape_target_char s
unfolding replace_from
replace-escape_char [] = refl
replace-escape_char (c ∷ s) = ground (arith, replace-escape_char s)

replace-escape_target :
    (s : Text)
    → replace_from 0 (codes "\\n") (10 ∷ []) (each escape_target_char s) ≡ each escape_backslash s
unfolding replace_from
replace-escape_target [] = refl
replace-escape_target (c ∷ s) = ground (arith, replace-escape_target s)

replace-escape_backslash :
    (s : Text) → replace_from 0 (codes "\\b") (codes "\\") (each escape_backslash s) ≡ s
unfolding replace_from
replace-escape_backslash [] = refl
replace-escape_backslash (c ∷ s) = ground (arith, replace-escape_backslash s)

pub unescape_target-escape_target : (s : Text) → unescape_target (escape_target s) ≡ s
unfolding unescape_target escape_target replace
unescape_target-escape_target s = rw (replace-escape_target s) (replace-escape_backslash s)

pub unescape_link-escape_link : (s : Text) → unescape_link (escape_link s) ≡ s
unfolding unescape_link escape_link replace
unescape_link-escape_link s =
    rw (replace-escape_char s, replace-escape_target s) (replace-escape_backslash s)

-- An entry of a manifest. An escaped line holds any link and target.
pub data Entry : Type 0 where
  plain escaped : Text → Text → Entry

abbrev pub IsEntry : Entry → Type 0
IsEntry (escaped link target) = Unit
IsEntry (plain [] target) = ⊥
IsEntry (plain (c ∷ link) target) = Lacks b' ' (c ∷ link) × Lacks 10 (c ∷ link) × Lacks 10 target

abbrev pub print_entry : Entry → Text
print_entry (plain link target) = link ++ (b' ' ∷ target)
print_entry (escaped link target) = b' ' ∷ (escape_link link ++ (b' ' ∷ escape_target target))

abbrev pub print_entries : List Entry → Text
print_entries [] = []
print_entries (e ∷ es) = print_entry e ++ (10 ∷ print_entries es)

abbrev pub parts_of : Entry → Text × Text
parts_of (plain link target) = (link, target)
parts_of (escaped link target) = (link, target)

abbrev pub dict_of : List Entry → Dict Text Text → Dict Text Text
dict_of [] d = d
dict_of (e ∷ es) d = dict_of es (add_link (parts_of e) d)

escape_link-Lacks : (s : Text) → Lacks b' ' (escape_link s) × Lacks 10 (escape_link s)
unfolding escape_link
escape_link-Lacks [] = (tt, tt)
escape_link-Lacks (c ∷ s) = ground (arith, escape_link-Lacks s)

escape_target-Lacks : (s : Text) → Lacks 10 (escape_target s)
unfolding escape_target
escape_target-Lacks [] = tt
escape_target-Lacks (c ∷ s) = ground (arith, escape_target-Lacks s)

-- A line of either form is read back as its link and its target, an empty target included.
pub parse_line-print_entry : (e : Entry) → IsEntry e → parse_line (print_entry e) ≡ ok (parts_of e)
unfolding parse_line starts_with
parse_line-print_entry (plain [] target) h = absurd h
parse_line-print_entry (plain (c ∷ link) target) h =
    rw (cut-append b' ' (c ∷ link) target h.0) (ground (arith, h.0.0))
parse_line-print_entry (escaped link target) h =
    rw (cut-append b' ' (escape_link link) (escape_target target) (escape_link-Lacks link).0)
      (ground (arith, unescape_link-escape_link link, unescape_target-escape_target target))

print_entry-Lacks : (e : Entry) → IsEntry e → Lacks 10 (print_entry e)
print_entry-Lacks (plain [] target) h = absurd h
print_entry-Lacks (plain (c ∷ link) target) h =
    All-append _ (c ∷ link) (b' ' ∷ target) h.1 (omega arith, h.2)
print_entry-Lacks (escaped link target) h = (
  omega arith,
  All-append _ (escape_link link) _ (escape_link-Lacks link).1
      (omega arith, escape_target-Lacks target),
)

load_lines-print :
    (es : List Entry) (d : Dict Text Text)
    → All IsEntry es
    → load_lines (file_lines (print_entries es)) d ≡ ok (dict_of es d)
unfolding load_lines
load_lines-print [] d h = unfold file_lines in refl
load_lines-print (e ∷ es) d h =
    rw (file_lines-append (print_entry e) _ (print_entry-Lacks e h.0), parse_line-print_entry e h.0)
      (load_lines-print es _ h.1)

-- A manifest of plain lines, with no space in a link and no newline, and of escaped lines, with
-- any link and target, is read back: each link leads to its target, or to itself where the target
-- is empty, and a later line of the same link wins.
pub load_runfiles-print :
    (read : Text → Option Text) (path : Text) (es : List Entry)
    → read path ≡ some (print_entries es)
    → All IsEntry es
    → load_runfiles read path ≡ ok (dict_of es [])
unfolding load_runfiles
load_runfiles-print read path es r h = rw r (load_lines-print es [] h)
