-- ===== src/Base/Order.antt =====
-- Python's `<` on texts, and `sorted` by a key: a stable insertion sort.
use mathlib.Core.Path.{◌≡◌, refl}
use mathlib.Core.Logic.{inl, inr}
use mathlib.Core.Bool.{Bool, true, false, ◌&&◌, ◌||◌}
use mathlib.Core.List.{List, [], ◌∷◌, Perm}
use mathlib.Core.List.Perm
use native.Mathlib.Omega.{arith}
use rules_python.Base.Equality.{nat_eq, Text, ◌==◌, ltb, if◌then◌else◌, Bool-cases}
use rules_python.Base.Lists.{All}

-- `a < b`, by code points.
unfoldable pub text_lt : Text → Text → Bool
text_lt [] [] = false
text_lt [] (y ∷ ys) = true
text_lt (x ∷ xs) [] = false
text_lt (x ∷ xs) (y ∷ ys) = ltb x y || (x == y && text_lt xs ys)

pub text_lt_irrefl : (a : Text) → text_lt a a ≡ false
unfolding text_lt
text_lt_irrefl [] = refl
text_lt_irrefl (x ∷ xs) = ground (arith, text_lt_irrefl xs)

-- If neither is less, the texts are equal.
pub text_lt_connected : (a b : Text) → text_lt a b ≡ false → text_lt b a ≡ false → a ≡ b
unfolding text_lt
text_lt_connected [] [] g h = refl
text_lt_connected [] (y ∷ ys) g h = cc
text_lt_connected (x ∷ xs) [] g h = cc
text_lt_connected (x ∷ xs) (y ∷ ys) g h = ground (arith, text_lt_connected xs ys)

pub text_lt_trans : (a b c : Text) → text_lt a b ≡ true → text_lt b c ≡ true → text_lt a c ≡ true
unfolding text_lt
text_lt_trans [] [] c g h = cc
text_lt_trans [] (y ∷ ys) [] g h = cc
text_lt_trans [] (y ∷ ys) (z ∷ zs) g h = refl
text_lt_trans (x ∷ xs) [] c g h = cc
text_lt_trans (x ∷ xs) (y ∷ ys) [] g h = cc
text_lt_trans (x ∷ xs) (y ∷ ys) (z ∷ zs) g h = ground (arith, text_lt_trans xs ys zs)

-- `not (b < a)` is transitive.
pub text_le_trans : (a b c : Text) → text_lt b a ≡ false → text_lt c b ≡ false → text_lt c a ≡ false
unfolding text_lt
text_le_trans [] [] [] g h = refl
text_le_trans [] (y ∷ ys) [] g h = cc
text_le_trans [] b (z ∷ zs) g h = refl
text_le_trans (x ∷ xs) [] c g h = cc
text_le_trans (x ∷ xs) (y ∷ ys) [] g h = cc
text_le_trans (x ∷ xs) (y ∷ ys) (z ∷ zs) g h = ground (arith, text_le_trans xs ys zs)

module _ {ℓ} {A : Type ℓ} (lt : A → A → Bool) where
  insert_by : A → List A → List A
  insert_by x [] = x ∷ []
  insert_by x (y ∷ ys) = if lt y x then y ∷ insert_by x ys else x ∷ y ∷ ys

  -- `sorted(xs, key=...)`: `lt` compares the keys. Equal elements keep their order.
  unfoldable pub sort_by : List A → List A
  unfolding insert_by
  sort_by [] = []
  sort_by (x ∷ xs) = insert_by x (sort_by xs)

  -- Each element is no greater than any after it.
  abbrev pub SortedBy : List A → Type ℓ
  SortedBy [] = Unit
  SortedBy (x ∷ xs) = All (λ y. lt y x ≡ false) xs × SortedBy xs

  insert_by-perm : (x : A) (ys : List A) → Perm (insert_by x ys) (x ∷ ys)
  unfolding insert_by
  insert_by-perm x [] = Perm.refl _
  insert_by-perm x (y ∷ ys) = elim (Bool-cases (lt y x)) [
    | inl e ↦ rw e (Perm.trans (Perm.cons y (insert_by-perm x ys)) (Perm.swap x y ys))
    | inr e ↦ rw e (Perm.refl _)
  ]

  pub sort_by-perm : (xs : List A) → Perm (sort_by xs) xs
  unfolding sort_by
  sort_by-perm [] = Perm.refl _
  sort_by-perm (x ∷ xs) = Perm.trans (insert_by-perm x (sort_by xs)) (Perm.cons x (sort_by-perm xs))

module _ {ℓ} {A : Type ℓ} (lt : A → A → Bool) (asym : (a b : A) → lt a b ≡ true → lt b a ≡ false)
    (le_trans : (a b c : A) → lt b a ≡ false → lt c b ≡ false → lt c a ≡ false) where
  All-insert_by :
      (z x : A) (ys : List A)
      → lt x z ≡ false
      → All (λ y. lt y z ≡ false) ys
      → All (λ y. lt y z ≡ false) (insert_by lt x ys)
  unfolding insert_by
  All-insert_by z x [] g h = (g, tt)
  All-insert_by z x (y ∷ ys) g h = elim (Bool-cases (lt y x)) [
    | inl e ↦ rw e (h.0, All-insert_by z x ys g h.1)
    | inr e ↦ rw e (g, h)
  ]

  All-le :
      (x y : A) (ys : List A)
      → lt y x ≡ false
      → All (λ z. lt z y ≡ false) ys
      → All (λ z. lt z x ≡ false) ys
  All-le x y [] g h = tt
  All-le x y (z ∷ ys) g h = (le_trans x y z g h.0, All-le x y ys g h.1)

  insert_by-SortedBy : (x : A) (ys : List A) → SortedBy lt ys → SortedBy lt (insert_by lt x ys)
  unfolding insert_by
  insert_by-SortedBy x [] h = (tt, tt)
  insert_by-SortedBy x (y ∷ ys) h = elim (Bool-cases (lt y x)) [
    | inl e ↦ rw e (All-insert_by y x ys (asym y x e) h.0, insert_by-SortedBy x ys h.1)
    | inr e ↦ rw e ((e, All-le x y ys e h.0), h)
  ]

  pub sort_by-SortedBy : (xs : List A) → SortedBy lt (sort_by lt xs)
  unfolding sort_by
  sort_by-SortedBy [] = tt
  sort_by-SortedBy (x ∷ xs) = insert_by-SortedBy x (sort_by lt xs) (sort_by-SortedBy xs)

module _ {ℓ κ} {A : Type ℓ} (lt : A → A → Bool) (P : A → Type κ) where
  insert_by-All : (x : A) (ys : List A) → P x → All P ys → All P (insert_by lt x ys)
  unfolding insert_by
  insert_by-All x [] p h = (p, tt)
  insert_by-All x (y ∷ ys) p h = elim (Bool-cases (lt y x)) [
    | inl e ↦ rw e (h.0, insert_by-All x ys p h.1)
    | inr e ↦ rw e (p, h)
  ]

  All-of_insert_by : (x : A) (ys : List A) → All P (insert_by lt x ys) → P x × All P ys
  unfolding insert_by
  All-of_insert_by x [] h = h
  All-of_insert_by x (y ∷ ys) h = elim (Bool-cases (lt y x)) [
    | inl e ↦ let g = rw e at h in let rest = All-of_insert_by x ys g.1 in (rest.0, (g.0, rest.1))
    | inr e ↦ rw e at h
  ]

  -- What holds of all elements holds of them sorted, and the other way round.
  pub sort_by-All : (xs : List A) → All P xs → All P (sort_by lt xs)
  unfolding sort_by
  sort_by-All [] h = tt
  sort_by-All (x ∷ xs) h = insert_by-All x (sort_by lt xs) h.0 (sort_by-All xs h.1)

  pub All-of_sort_by : (xs : List A) → All P (sort_by lt xs) → All P xs
  unfolding sort_by
  All-of_sort_by [] h = tt
  All-of_sort_by (x ∷ xs) h =
      let g = All-of_insert_by x (sort_by lt xs) h in (g.0, All-of_sort_by xs g.1)
