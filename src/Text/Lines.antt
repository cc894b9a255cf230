-- ===== src/Text/Lines.antt =====
-- `splitlines` of a text, and lines joined by newlines.
use rules_python.Base.{
  if◌then◌else◌, nat_eq, text_eq, ℕ, Bool, true, false, ◌&&◌, List, [], ◌∷◌, ◌++◌, ◌≡◌, ◌≢◌, refl,
  Text, arith, All, ◌==◌,
}
use rules_python.Text.Split.{is_break, split_lines, push, opens_with}

abbrev pub IsOneLine : Text → Type 0
IsOneLine = All (λ c. is_break c ≡ false)

pub split_lines-append :
    (a b : Text) → IsOneLine a → split_lines (a ++ (10 ∷ b)) ≡ a ∷ split_lines b
unfolding split_lines
split_lines-append [] b h = ground arith
split_lines-append (x ∷ a) b h = ground (arith, split_lines-append a b h.1)

pub split_lines-singleton : (a : Text) → IsOneLine a → a ≢ [] → split_lines a ≡ a ∷ []
unfolding split_lines
split_lines-singleton [] h n = absurd (n refl)
split_lines-singleton (x ∷ []) h n = ground arith
split_lines-singleton (x ∷ y ∷ a) h n =
    ground (arith, split_lines-singleton (y ∷ a) h.1 (λ e. (cc)))

push-IsOneLine :
    (c : ℕ) (ls : List Text) → is_break c ≡ false → All IsOneLine ls → All IsOneLine (push c ls)
push-IsOneLine c [] h g = ((h, tt), tt)
push-IsOneLine c (l ∷ ls) h g = ((h, g.0), g.1)

one_lines :
    (joins breaks : Bool) (c : ℕ) (ls : List Text)
    → is_break c ≡ breaks
    → All IsOneLine ls
    → All IsOneLine (if joins then ls else if breaks then [] ∷ ls else push c ls)
one_lines true breaks c ls h g = g
one_lines false true c ls h g = (tt, g)
one_lines false false c ls h g = push-IsOneLine c ls h g

pub split_lines-IsOneLine : (s : Text) → All IsOneLine (split_lines s)
unfolding split_lines
split_lines-IsOneLine [] = tt
split_lines-IsOneLine (c ∷ s) =
    one_lines (c == 13 && opens_with 10 s) (is_break c) c (split_lines s) refl
      (split_lines-IsOneLine s)
