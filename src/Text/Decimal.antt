-- ===== src/Text/Decimal.antt =====
-- `str(n)` of a number.
use rules_python.Base.{
  Bool, true, false, ◌≢◌, Bool, ℕ, zero, suc, ◌+◌, ◌/◌, ◌%◌, ◌≤◌, [], ◌∷◌, Text, arith, All, ltb,
  if◌then◌else◌,
}

-- A digit for each round; a number has fewer digits than its value plus one.
unfoldable pub decimal_from : ℕ → ℕ → Text → Text
decimal_from zero n s = s
decimal_from (suc fuel) n s =
    let rest = decimal_from fuel (n / 10) ((n % 10 + 48) ∷ s) in
    if ltb n 10 then (n + 48) ∷ s else rest

unfoldable pub decimal : ℕ → Text
decimal n = decimal_from (suc n) n []

abbrev pub IsDigits : Text → Type 0
IsDigits = All (λ c. (48 ≤ c) × (c ≤ 57))

decimal_from-IsDigits : (fuel n : ℕ) (s : Text) → IsDigits s → IsDigits (decimal_from fuel n s)
unfolding decimal_from
decimal_from-IsDigits zero n s h = h
decimal_from-IsDigits (suc fuel) n s h =
    ground (
      arith,
      decimal_from-IsDigits fuel (n / 10) ((n % 10 + 48) ∷ s) ((omega arith, omega arith), h),
    )

pub decimal-IsDigits : (n : ℕ) → IsDigits (decimal n)
unfolding decimal
decimal-IsDigits n = decimal_from-IsDigits (suc n) n [] tt

either-some : (b : Bool) (s t : Text) → s ≢ [] → t ≢ [] → (if b then s else t) ≢ []
either-some true s t h g = h
either-some false s t h g = g

decimal_from-some : (fuel n : ℕ) (s : Text) → s ≢ [] → decimal_from fuel n s ≢ []
unfolding decimal_from
decimal_from-some zero n s h = h
decimal_from-some (suc fuel) n s h =
    either-some (ltb n 10) ((n + 48) ∷ s) (decimal_from fuel (n / 10) ((n % 10 + 48) ∷ s))
      (λ e. (cc)) (decimal_from-some fuel (n / 10) ((n % 10 + 48) ∷ s) (λ e. (cc)))

pub decimal-some : (n : ℕ) → decimal n ≢ []
unfolding decimal decimal_from
decimal-some n =
    either-some (ltb n 10) ((n + 48) ∷ []) (decimal_from n (n / 10) ((n % 10 + 48) ∷ []))
      (λ e. (cc)) (decimal_from-some n (n / 10) ((n % 10 + 48) ∷ []) (λ e. (cc)))
