-- ===== src/Base/Equality.antt =====
-- Python's `==`, `in` and conditional, and texts: a `str` is the list of its code points.
use Prim.Native.Nat.{ℕ, compare, Ordering}
use Prim.Native.Char.{code}
use Prim.Native.String.{String}
use mathlib.Core.Path.{◌≡◌, refl, ap}
use mathlib.Core.Logic.{◌⊎◌, inl, inr, ite}
use mathlib.Core.Bool.{Bool, true, false, ◌||◌, ◌&&◌}
use mathlib.Core.Option.{Option, none, some}
use mathlib.Core.List.{List, [], ◌∷◌}
use native.Mathlib.Omega.{arith}
use native.Mathlib.Decide.{ℕ_discrete}

infix 1 if◌then◌else◌
abbrev pub if◌then◌else◌ {ℓ} : {A : Type ℓ} → Bool → A → A → A
if true then x else y = x
if false then x else y = y

abbrev pub ltb : ℕ → ℕ → Bool
ltb a b = elim (compare a b) [ Ordering.lt ↦ true | _ ↦ false ]

abbrev pub leb : ℕ → ℕ → Bool
leb a b = elim (compare a b) [ Ordering.gt ↦ false | _ ↦ true ]

pub Bool-cases : (b : Bool) → (b ≡ true) ⊎ (b ≡ false)
Bool-cases true = inl refl
Bool-cases false = inr refl

module _ {ℓ} {A : Type ℓ} where
  pub Option-cases : (o : Option A) → (o ≡ none) ⊎ ((a : A) × (o ≡ some a))
  Option-cases none = inl refl
  Option-cases (some a) = inr (a, refl)

-- Types whose values Python compares by `==`.
pub record Eq {ℓ} (A : Type ℓ) : Type ℓ where
  pub dec : Discrete A

module _ {ℓ} {A : Type ℓ} ⦃e : Eq A⦄ where
  infix 50 ◌==◌
  abbrev pub ◌==◌ : A → A → Bool
  a == b = ite (e.dec a b) true false

  pub ==_refl : (a : A) → (a == a) ≡ true
  ==_refl a = ground arith

  pub ==_sound : (a b : A) → (a == b) ≡ true → a ≡ b
  ==_sound a b h = ground arith

  -- `x in xs`
  abbrev pub contains : List A → A → Bool
  contains [] a = false
  contains (x ∷ xs) a = a == x || contains xs a

instance abbrev pub nat_eq : Eq ℕ
nat_eq = record { dec = ℕ_discrete }

abbrev pub Text : Type 0
Text = List ℕ

abbrev pub text_beq : Text → Text → Bool
text_beq [] [] = true
text_beq (x ∷ xs) (y ∷ ys) = x == y && text_beq xs ys
text_beq _ _ = false

pub text_beq_sound : (a b : Text) → text_beq a b ≡ true → a ≡ b
text_beq_sound [] [] h = refl
text_beq_sound [] (y ∷ ys) h = cc
text_beq_sound (x ∷ xs) [] h = cc
text_beq_sound (x ∷ xs) (y ∷ ys) h = ground (arith, text_beq_sound xs ys)

pub text_beq_refl : (a : Text) → text_beq a a ≡ true
text_beq_refl [] = refl
text_beq_refl (x ∷ xs) = ground (arith, text_beq_refl xs)

text_dec_by : (a b : Text) (t : Bool) → text_beq a b ≡ t → Dec (a ≡ b)
text_dec_by a b true h = yes (text_beq_sound a b h)
text_dec_by a b false h = no (λ p. ground (arith, text_beq_refl a))

unfoldable pub text_dec : Discrete Text
unfolding text_dec_by ℕ_discrete
text_dec a b = text_dec_by a b (text_beq a b) refl

instance abbrev pub text_eq : Eq Text
text_eq = record { dec = text_dec }

module _ {ℓ κ} {A : Type ℓ} {B : Type κ} ⦃e : Eq A⦄ ⦃f : Eq B⦄ where
  unfoldable pub pair_dec : Discrete (A × B)
  pair_dec (a, b) (c, d) = elim (e.dec a c) [
    | yes p ↦ elim (f.dec b d) [
      | yes q ↦ yes (λ i. (p i, q i))
      | no n ↦ no (λ r. n (ap (λ (t : A × B). t.1) r))
    ]
    | no n ↦ no (λ r. n (ap (λ (t : A × B). t.0) r))
  ]

  instance abbrev pub pair_eq : Eq (A × B)
  pair_eq = record { dec = pair_dec }

-- The code points of a literal.
abbrev pub codes : String → Text
codes String.[] = []
codes (String.◌∷◌ c s) = code c ∷ codes s

-- `x or y` on texts, and the truth value of a text.
abbrev pub is_empty : Text → Bool
is_empty [] = true
is_empty (c ∷ s) = false
