-- ===== src/Text/Trimmed.antt =====
-- Texts that begin and end in no white space, and `strip` on them.
use rules_python.Base.{
  is_empty, ◌≢◌, ◌&&◌, if◌then◌else◌, nat_eq, text_eq, ℕ, Bool, true, false, [], ◌∷◌, ◌++◌, ◌≡◌,
  refl, Text, arith, All,
}
use rules_python.Text.Strip.{is_space, lstrip_by, rstrip_by, strip, strip_by}

abbrev pub begins_with_space : Text → Bool
begins_with_space [] = false
begins_with_space (c ∷ s) = is_space c

-- The text begins and ends in no white space.
pub record IsTrimmed (s : Text) : Type 0 where
  pub first : begins_with_space s ≡ false
  pub last : rstrip_by is_space s ≡ s

abbrev pub IsSpaces : Text → Type 0
IsSpaces = All (λ c. is_space c ≡ true)

pub rstrip_by-append :
    (p : ℕ → Bool) (s t : Text) → rstrip_by p s ≡ s → rstrip_by p t ≡ [] → rstrip_by p (s ++ t) ≡ s
unfolding rstrip_by
rstrip_by-append p [] t h g = g
rstrip_by-append p (c ∷ s) t h g = ground (arith, rstrip_by-append p s t)

lstrip_spaces : (a s : Text) → IsSpaces a → lstrip_by is_space (a ++ s) ≡ lstrip_by is_space s
unfolding lstrip_by
lstrip_spaces [] s h = refl
lstrip_spaces (c ∷ a) s h = ground (arith, lstrip_spaces a s h.1)

rstrip_spaces : (b : Text) → IsSpaces b → rstrip_by is_space b ≡ []
unfolding rstrip_by
rstrip_spaces [] h = refl
rstrip_spaces (c ∷ b) h = ground (arith, rstrip_spaces b h.1)

lstrip_all : (b : Text) → IsSpaces b → lstrip_by is_space b ≡ []
unfolding lstrip_by
lstrip_all [] h = refl
lstrip_all (c ∷ b) h = ground (arith, lstrip_all b h.1)

lstrip_kept :
    (s b : Text)
    → begins_with_space s ≡ false
    → IsSpaces b
    → rstrip_by is_space (lstrip_by is_space (s ++ b)) ≡ rstrip_by is_space (s ++ b)
lstrip_kept [] b h g = rw (lstrip_all b g, rstrip_spaces b g) (unfold rstrip_by in refl)
lstrip_kept (c ∷ s) b h g = unfold lstrip_by in rw h

-- White space round a trimmed text is stripped, and no more.
pub strip_padded :
    (a s b : Text) → IsSpaces a → IsTrimmed s → IsSpaces b → strip (a ++ (s ++ b)) ≡ s
unfolding strip strip_by
strip_padded a s b h t g =
    rw (lstrip_spaces a (s ++ b) h, lstrip_kept s b t.first g)
      (rstrip_by-append is_space s b t.last (rstrip_spaces b g))

rstrip_by-none : (p : ℕ → Bool) (s : Text) → All (λ c. p c ≡ false) s → rstrip_by p s ≡ s
unfolding rstrip_by
rstrip_by-none p [] h = refl
rstrip_by-none p (c ∷ s) h = ground (arith, rstrip_by-none p s h.1)

not_empty : (a s : Text) → s ≢ [] → is_empty (a ++ s) ≡ false
not_empty [] [] n = absurd (n refl)
not_empty [] (c ∷ s) n = refl
not_empty (c ∷ a) s n = refl

kept :
    (b : Bool) (c : ℕ) (s : Text)
    → is_empty s ≡ false
    → (if b && is_empty s then [] else c ∷ s) ≡ c ∷ s
kept true c s h = rw h refl
kept false c s h = refl

rstrip_by-dark_end :
    (p : ℕ → Bool) (a s : Text) → s ≢ [] → rstrip_by p s ≡ s → rstrip_by p (a ++ s) ≡ a ++ s
unfolding rstrip_by
rstrip_by-dark_end p [] s n h = h
rstrip_by-dark_end p (c ∷ a) s n h =
    rw (rstrip_by-dark_end p a s n h) (kept (p c) c (a ++ s) (not_empty a s n))

-- A text that begins in no white space and ends in one character at least that is none is trimmed.
pub IsTrimmed-append :
    (a s : Text)
    → begins_with_space (a ++ s) ≡ false
    → s ≢ []
    → All (λ c. is_space c ≡ false) s
    → IsTrimmed (a ++ s)
IsTrimmed-append a s h n g = record {
  first = h;
  last = rstrip_by-dark_end is_space a s n (rstrip_by-none is_space s g);
}
