-- ===== src/Base/Results.antt =====
-- Python's exceptions as values.
use mathlib.Core.Path.{◌≡◌, refl}
use mathlib.Core.Logic.{◌⊎◌, inl, inr}
use mathlib.Core.Bool.{Bool, true, false}
use mathlib.Core.List.{List, [], ◌∷◌}

-- `diverged` is no exception: the loop ran out of the fuel that the model gives it.
pub data Error : Type 0 where
  value_error type_error key_error index_error os_error runtime_error assertion_error
        attribute_error argument_type_error process_error :
      Error
  diverged : Error

pub data Result {ℓ} (A : Type ℓ) : Type ℓ where
  ok : A → Result A
  err : Error → Result A

-- `if b: raise e`
abbrev pub raise_if : Bool → Error → Result (Unit {0})
raise_if b e = elim b [ true ↦ err e | false ↦ ok tt ]

-- The rest of a block runs where nothing was raised.
infixl 5 ◌>>=◌
abbrev pub ◌>>=◌ {ℓ κ} : {A : Type ℓ} {B : Type κ} → Result A → (A → Result B) → Result B
err raised >>= rest = err raised
ok returned >>= rest = rest returned

infixl 5 ◌>>◌
abbrev pub ◌>>◌ {κ} : {B : Type κ} → Result (Unit {0}) → Result B → Result B
checked >> rest = checked >>= λ _. rest

module _ {ℓ} {A : Type ℓ} where
  pub Result-cases : (r : Result A) → ((a : A) × (r ≡ ok a)) ⊎ ((e : Error) × (r ≡ err e))
  Result-cases (ok a) = inl (a, refl)
  Result-cases (err e) = inr (e, refl)

  pub ok-injective : {a b : A} → ok a ≡ ok b → a ≡ b
  ok-injective h = cc

  pub err-ne-ok : {e : Error} {a : A} → err e ≡ ok a → ⊥
  err-ne-ok h = cc

module _ {ℓ κ} {A : Type ℓ} {B : Type κ} where
  -- `[f(x) for x in xs]` where `f` may raise.
  abbrev pub traverse : (A → Result B) → List A → Result (List B)
  traverse f [] = ok []
  traverse f (x ∷ xs) = do y ← f x; ys ← traverse f xs; ok (y ∷ ys)

  -- What a block returned, its first call returned something for.
  pub >>=-eq-ok :
      (first : Result A) (rest : A → Result B) {last : B}
      → (first >>= rest) ≡ ok last
      → (middle : A) × (first ≡ ok middle) × (rest middle ≡ ok last)
  >>=-eq-ok (err raised) rest equal = absurd (err-ne-ok equal)
  >>=-eq-ok (ok middle) rest equal = (middle, refl, equal)
