-- ===== src/Text/Search.antt =====
-- `startswith`, `endswith`, `in`, `find`, `rfind` and `replace`.
use rules_python.Base.{
  nat_eq, text_eq, pair_eq, ℕ, zero, suc, ◌-◌, ◌<◌, ◌≡◌, refl, Bool, true, false, ◌&&◌, ◌||◌,
  Option, none, some, [], ◌∷◌, ◌++◌, arith, Text, ◌==◌, if◌then◌else◌, length, drop, is_empty,
}

unfoldable pub starts_with : Text → Text → Bool
starts_with s [] = true
starts_with [] (p ∷ ps) = false
starts_with (c ∷ s) (p ∷ ps) = c == p && starts_with s ps

unfoldable pub ends_with : Text → Text → Bool
ends_with [] p = [] == p
ends_with (c ∷ s) p = (c ∷ s) == p || ends_with s p

-- `p in s`
unfoldable pub includes : Text → Text → Bool
unfolding starts_with
includes [] p = is_empty p
includes (c ∷ s) p = starts_with (c ∷ s) p || includes s p

-- The index of the first `c`.
unfoldable pub find_char : ℕ → Text → Option ℕ
find_char c [] = none
find_char c (x ∷ s) = elim (x == c) [
  | true ↦ some 0
  | false ↦ elim (find_char c s) [ none ↦ none | some i ↦ some (suc i) ]
]

abbrev pub char_at? : Text → ℕ → Option ℕ
char_at? [] i = none
char_at? (x ∷ s) zero = some x
char_at? (x ∷ s) (suc i) = char_at? s i

abbrev pub is_char : ℕ → Option ℕ → Bool
is_char c none = false
is_char c (some x) = x == c

-- `s.rfind(c, 0, end)`: the greatest index below `end` at which `c` stands.
unfoldable pub rfind_char : ℕ → Text → ℕ → Option ℕ
rfind_char c s zero = none
rfind_char c s (suc end) =
    let rest = rfind_char c s end in if is_char c (char_at? s end) then some end else rest

-- Non-overlapping matches from the left; `skip` counts what is left of the last match.
unfoldable pub replace_from : ℕ → Text → Text → Text → Text
unfolding starts_with
replace_from skip p r [] = []
replace_from (suc skip) p r (c ∷ s) = replace_from skip p r s
replace_from zero p r (c ∷ s) = elim (starts_with (c ∷ s) p) [
  | true ↦ r ++ replace_from (length p - 1) p r s
  | false ↦ c ∷ replace_from zero p r s
]

-- An empty pattern matches before each character and at the end.
abbrev interleave : Text → Text → Text
interleave r [] = r
interleave r (c ∷ s) = r ++ c ∷ interleave r s

unfoldable pub replace : Text → Text → Text → Text
unfolding replace_from
replace s [] r = interleave r s
replace s (p ∷ ps) r = replace_from zero (p ∷ ps) r s

pub starts_with-append : (p s : Text) → starts_with (p ++ s) p ≡ true
unfolding starts_with
starts_with-append [] s = refl
starts_with-append (p ∷ ps) s = ground (arith, starts_with-append ps s)

-- A prefix and what `drop` leaves spell the text.
pub append-drop_of_starts_with : (s p : Text) → starts_with s p ≡ true → p ++ drop (length p) s ≡ s
unfolding starts_with
append-drop_of_starts_with s [] h = refl
append-drop_of_starts_with [] (p ∷ ps) h = cc
append-drop_of_starts_with (c ∷ s) (p ∷ ps) h = ground (arith, append-drop_of_starts_with s ps)

pub ends_with-append : (s p : Text) → ends_with (s ++ p) p ≡ true
unfolding ends_with
ends_with-append [] [] = ground arith
ends_with-append [] (c ∷ p) = ground arith
ends_with-append (c ∷ s) p = ground (arith, ends_with-append s p)

pub rfind_char-lt : (c : ℕ) (s : Text) (e : ℕ) {i : ℕ} → rfind_char c s e ≡ some i → i < e
unfolding rfind_char
rfind_char-lt c s zero h = cc
rfind_char-lt c s (suc e) {i = i} h = ground (arith, rfind_char-lt c s e {i = i})
