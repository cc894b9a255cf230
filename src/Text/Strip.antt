-- ===== src/Text/Strip.antt =====
-- `strip` and its two halves, and `lower`.
use rules_python.Base.{
  nat_eq, text_eq, pair_eq, ℕ, ◌+◌, Bool, ◌&&◌, ◌||◌, [], ◌∷◌, map, Text, ◌==◌, if◌then◌else◌, leb,
  is_empty,
}

-- The code points that `strip` and `\s` take for white space.
abbrev pub is_space : ℕ → Bool
is_space c =
    (leb 9 c && leb c 13)
    || (leb 28 c && leb c 32)
    || c == 133
    || c == 160
    || c == 5760
    || (leb 8192 c && leb c 8202)
    || c == 8232
    || c == 8233
    || c == 8239
    || c == 8287
    || c == 12288

module _ (p : ℕ → Bool) where
  unfoldable pub lstrip_by : Text → Text
  lstrip_by [] = []
  lstrip_by (c ∷ s) = let rest = lstrip_by s in if p c then rest else c ∷ s

  unfoldable pub rstrip_by : Text → Text
  rstrip_by [] = []
  rstrip_by (c ∷ s) = let rest = rstrip_by s in if p c && is_empty rest then [] else c ∷ rest

  unfoldable pub strip_by : Text → Text
  unfolding lstrip_by rstrip_by
  strip_by s = rstrip_by (lstrip_by s)

-- `s.strip()`
unfoldable pub strip : Text → Text
unfolding strip_by
strip s = strip_by is_space s

-- `s.lower()` on ASCII letters; other code points stay.
abbrev pub lower_char : ℕ → ℕ
lower_char c = if leb 65 c && leb c 90 then c + 32 else c

unfoldable pub lower : Text → Text
lower s = map lower_char s
