-- ===== src/Wheel/Archive/Copy.antt =====
-- The loop of `_WhlFile.add_file` over the blocks of a file, in tools/wheelmaker.py.
use rules_python.Base.{
  nat_eq, text_eq, pair_eq, ℕ, zero, suc, ◌+◌, ◌<◌, ◌≤◌, ◌≡◌, refl, sym, ◌∙◌, ap, [], ◌∷◌, ◌++◌,
  append_assoc, append-nil, ok, arith, length, take, drop, length-append,
}
use rules_python.Wheel.Archive.{Bytes, Copied, copy_loop, nothing}

take-append-drop : (n : ℕ) (s : Bytes) → take n s ++ drop n s ≡ s
take-append-drop zero s = refl
take-append-drop (suc n) [] = refl
take-append-drop (suc n) (x ∷ s) = ap (λ (t : Bytes). x ∷ t) (take-append-drop n s)

length-drop : (n : ℕ) (s : Bytes) → length (drop n s) ≤ length s
length-drop zero s = omega arith
length-drop (suc n) [] = omega arith
length-drop (suc n) (x ∷ s) = omega (arith, length-drop n s)

abbrev pub and_rest : Copied → Bytes → Copied
and_rest c rest = record {
  written = c.written ++ rest;
  hashed = c.hashed ++ rest;
  size = c.size + length rest;
}

and_rest_assoc : (c : Copied) (a b : Bytes) → and_rest (and_rest c a) b ≡ and_rest c (a ++ b)
and_rest_assoc c a b = λ i. record {
  written = append_assoc c.written a b i;
  hashed = append_assoc c.hashed a b i;
  size = total i;
}
  where
    total : c.size + length a + length b ≡ c.size + length (a ++ b)
    total = omega (arith, length-append a b)

and_rest-nil : (c : Copied) → and_rest c [] ≡ c
and_rest-nil c =
    λ i. record { written = append-nil c.written i; hashed = append-nil c.hashed i; size = total i }
  where
    total : c.size + length {A = ℕ} [] ≡ c.size
    total = omega arith

-- With blocks of any positive size and a round for each byte and one more, the loop ends, having
-- written, hashed and counted all bytes of the file in their order.
pub copy_loop-all :
    (fuel n : ℕ) (rest : Bytes) (c : Copied)
    → length rest ≤ fuel
    → 0 < n
    → copy_loop (suc fuel) n rest c ≡ ok (and_rest c rest)
unfolding copy_loop
copy_loop-all fuel zero rest c h pos = absurd (omega arith)
copy_loop-all fuel (suc k) [] c h pos = ap ok (sym (and_rest-nil c))
copy_loop-all zero (suc k) (x ∷ xs) c h pos = absurd (omega arith)
copy_loop-all (suc fuel) (suc k) (x ∷ xs) c h pos =
    copy_loop-all fuel (suc k) (drop k xs) _ (omega (arith, length-drop k xs)) pos
    ∙ ap ok (
        and_rest_assoc c (x ∷ take k xs) (drop k xs)
        ∙ ap (λ (t : Bytes). and_rest c (x ∷ t)) (take-append-drop k xs))

-- The bytes of a file, copied.
abbrev pub copied : Bytes → Copied
copied contents = record { written = contents; hashed = contents; size = length contents }

pub copy_loop-copied :
    (n : ℕ) (contents : Bytes)
    → 0 < n
    → copy_loop (suc (length contents)) n contents nothing ≡ ok (copied contents)
copy_loop-copied n contents pos =
    copy_loop-all (length contents) n contents nothing (omega arith) pos
    ∙ ap (λ (k : ℕ). ok (record { written = contents; hashed = contents; size = k })) total
  where
    total : 0 + length contents ≡ length contents
    total = omega arith
