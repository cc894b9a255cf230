-- ===== src/Wheel/Tests/Metadata.antt =====
-- Runs of the stamps and requirements of tools/wheelmaker.py on concrete inputs.
use rules_python.Base.{nat_eq, text_eq, ◌≡◌, refl, [], ◌∷◌, codes, err, value_error, ℕ_discrete}
use rules_python.Text.{cut}
use rules_python.Wheel.Metadata.{resolve_lines}

malformed_status :
    resolve_lines (codes "A b" ∷ codes "KEY" ∷ codes "C d" ∷ []) (codes "{A}") ≡ err value_error
unfolding resolve_lines cut ℕ_discrete
malformed_status = refl
