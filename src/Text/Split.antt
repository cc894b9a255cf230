-- ===== src/Text/Split.antt =====
-- `split`, `partition`, `rpartition`, `splitlines`, `join` and the lines of a file.
use rules_python.Base.{
  nat_eq, text_eq, pair_eq, ℕ, ◌≡◌, refl, Bool, true, false, not, ◌&&◌, ◌||◌, Option, none, some,
  List, [], ◌∷◌, ◌++◌, arith, Text, ◌==◌, if◌then◌else◌, leb, Lacks,
}

-- The texts before and after the first `c`: `s.split(c, maxsplit=1)` where it has two parts.
unfoldable pub cut : ℕ → Text → Option (Text × Text)
cut c [] = none
cut c (x ∷ s) = elim (x == c) [
  | true ↦ some ([], s)
  | false ↦ elim (cut c s) [ none ↦ none | some (a, b) ↦ some (x ∷ a, b) ]
]

-- `s.partition(c)`, without its middle.
abbrev pub partition_by : Text → Option (Text × Text) → Text × Text
partition_by s none = (s, [])
partition_by s (some (a, b)) = (a, b)

unfoldable pub partition : ℕ → Text → Text × Text
unfolding cut
partition c s = partition_by s (cut c s)

-- The texts before and after the last `c`.
unfoldable pub cut_last : ℕ → Text → Option (Text × Text)
cut_last c [] = none
cut_last c (x ∷ s) = elim (cut_last c s) [
  | some (a, b) ↦ some (x ∷ a, b)
  | none ↦ if x == c then some ([], s) else none
]

-- `s.rpartition(c)`, without its middle: with no `c` the text is the last part.
abbrev pub rpartition_by : Text → Option (Text × Text) → Text × Text
rpartition_by s none = ([], s)
rpartition_by s (some (a, b)) = (a, b)

unfoldable pub rpartition : ℕ → Text → Text × Text
unfolding cut_last
rpartition c s = rpartition_by s (cut_last c s)

-- Puts a character in front of the first text.
abbrev pub push : ℕ → List Text → List Text
push c [] = (c ∷ []) ∷ []
push c (l ∷ ls) = (c ∷ l) ∷ ls

-- `s.split(c)`
unfoldable pub split : ℕ → Text → List Text
split c [] = [] ∷ []
split c (x ∷ s) = let rest = split c s in if x == c then [] ∷ rest else push x rest

-- The lines of a file that is read with `newline="\n"`, without their newlines.
unfoldable pub file_lines : Text → List Text
file_lines [] = []
file_lines (c ∷ s) = let rest = file_lines s in if c == 10 then [] ∷ rest else push c rest

-- The code points at which `splitlines` breaks.
abbrev pub is_break : ℕ → Bool
is_break c = (leb 10 c && leb c 13) || (leb 28 c && leb c 30) || c == 133 || c == 8232 || c == 8233

abbrev pub opens_with : ℕ → Text → Bool
opens_with c [] = false
opens_with c (x ∷ s) = x == c

-- `s.splitlines()`: a carriage return before a newline is part of that break.
unfoldable pub split_lines : Text → List Text
split_lines [] = []
split_lines (c ∷ s) =
    let rest = split_lines s in
    if c == 13 && opens_with 10 s then rest else if is_break c then [] ∷ rest else push c rest

-- `s.splitlines(keepends=True)`
unfoldable pub split_lines_keep : Text → List Text
split_lines_keep [] = []
split_lines_keep (c ∷ s) =
    let rest = split_lines_keep s in
    if is_break c && not (c == 13 && opens_with 10 s) then (c ∷ []) ∷ rest else push c rest

-- `sep.join(parts)`
unfoldable pub join : Text → List Text → Text
join sep [] = []
join sep (p ∷ []) = p
join sep (p ∷ q ∷ ps) = p ++ (sep ++ join sep (q ∷ ps))

pub cut-append : (c : ℕ) (a b : Text) → Lacks c a → cut c (a ++ c ∷ b) ≡ some (a, b)
unfolding cut
cut-append c [] b h = ground arith
cut-append c (x ∷ a) b h = ground (arith, cut-append c a b h.1)

pub cut-eq_none : (c : ℕ) (a : Text) → Lacks c a → cut c a ≡ none
unfolding cut
cut-eq_none c [] h = refl
cut-eq_none c (x ∷ a) h = ground (arith, cut-eq_none c a h.1)

-- The parts of a cut spell the text, and the first has no `c`.
pub cut-eq_some :
    (c : ℕ) (s : Text) {a b : Text} → cut c s ≡ some (a, b) → (s ≡ a ++ c ∷ b) × Lacks c a
unfolding cut
cut-eq_some c [] h = absurd (cc)
cut-eq_some c (x ∷ s) {a = []} h = ground (arith, cut-eq_some c s)
cut-eq_some c (x ∷ s) {a = y ∷ a} {b = b} h = ground (arith, cut-eq_some c s {a = a} {b = b})

pub split-append : (c : ℕ) (a b : Text) → Lacks c a → split c (a ++ c ∷ b) ≡ a ∷ split c b
unfolding split
split-append c [] b h = ground arith
split-append c (x ∷ a) b h = ground (arith, split-append c a b h.1)

pub split-eq_singleton : (c : ℕ) (a : Text) → Lacks c a → split c a ≡ a ∷ []
unfolding split
split-eq_singleton c [] h = refl
split-eq_singleton c (x ∷ a) h = ground (arith, split-eq_singleton c a h.1)

pub file_lines-append : (a b : Text) → Lacks 10 a → file_lines (a ++ 10 ∷ b) ≡ a ∷ file_lines b
unfolding file_lines
file_lines-append [] b h = ground arith
file_lines-append (x ∷ a) b h = ground (arith, file_lines-append a b h.1)

-- The lines of a file in text mode, where `\r` and `\r\n` end a line too, without their ends.
unfoldable pub text_lines : Text → List Text
text_lines [] = []
text_lines (c ∷ s) =
    let rest = text_lines s in
    if c == 13 && opens_with 10 s
    then rest
    else if c == 10 || c == 13
    then [] ∷ rest
    else push c rest
