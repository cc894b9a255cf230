-- ===== src/Base/Concrete.antt =====
-- Conditions on concrete texts, from tests that compute.
use mathlib.Core.Path.{◌≡◌}
use mathlib.Core.Bool.{false}
use mathlib.Core.List.{[], ◌∷◌}
use native.Mathlib.Omega.{arith}
use Prim.Native.Nat.{ℕ}
use rules_python.Base.Equality.{nat_eq, Text, contains}
use rules_python.Base.Lists.{Lacks}

pub Lacks-contains : (c : ℕ) (s : Text) → contains s c ≡ false → Lacks c s
Lacks-contains c [] h = tt
Lacks-contains c (d ∷ s) h = (ground arith, Lacks-contains c s (ground arith))
