-- ===== src/Base/Dict.antt =====
-- Python's dicts, in insertion order.
use mathlib.Core.Path.{◌≡◌, refl}
use mathlib.Core.Option.{Option, none, some}
use mathlib.Core.List.{List, [], ◌∷◌}
use native.Mathlib.Omega.{arith}
use rules_python.Base.Equality.{Eq, ◌==◌, if◌then◌else◌}

abbrev pub Dict {ℓ κ} : Type ℓ → Type κ → Type (ℓ ⊔ κ)
Dict K V = List (K × V)

module _ {ℓ κ} {K : Type ℓ} {V : Type κ} where
  abbrev pub keys : Dict K V → List K
  keys [] = []
  keys ((k, v) ∷ d) = k ∷ keys d

module _ {ℓ κ} {K : Type ℓ} {V : Type κ} ⦃e : Eq K⦄ where
  -- `d.get(k)`
  unfoldable pub get : K → Dict K V → Option V
  get k [] = none
  get k ((j, v) ∷ d) = if k == j then some v else get k d

  -- `d[k] = v`: a known key keeps its place.
  unfoldable pub put : K → V → Dict K V → Dict K V
  put k v [] = (k, v) ∷ []
  put k v ((j, w) ∷ d) = if k == j then (j, v) ∷ d else (j, w) ∷ put k v d

  -- `d.get(k, default)`
  abbrev pub get_or : K → Dict K V → V → V
  get_or k d v = elim (get k d) [ none ↦ v | some w ↦ w ]

  pub get-put :
      (j k : K) (v : V) (d : Dict K V) → get j (put k v d) ≡ (if j == k then some v else get j d)
  unfolding get put
  get-put j k v [] = refl
  get-put j k v ((i, w) ∷ d) = ground (arith, get-put j k v d)

  -- `d.pop(k, None)`
  unfoldable pub pop : K → Dict K V → Dict K V
  pop k [] = []
  pop k ((j, v) ∷ d) = let rest = pop k d in if k == j then rest else (j, v) ∷ rest

  pub get-pop : (j k : K) (d : Dict K V) → get j (pop k d) ≡ (if j == k then none else get j d)
  unfolding get pop
  get-pop j k [] = ground arith
  get-pop j k ((i, w) ∷ d) = ground (arith, get-pop j k d)
