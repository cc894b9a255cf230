-- ===== src/Release/Placeholders/Replaced.antt =====
-- No placeholder of tools/private/release/utils.py is left in a file that is searched.
use rules_python.Base.{
  nat_eq, text_eq, ℕ, zero, suc, ◌-◌, ◌≡◌, refl, ◌∙◌, true, false, ◌||◌, ◌⊎◌, inl, inr, Option,
  none, some, List, [], ◌∷◌, ◌++◌, Text, codes, contains, All, arith, Bool-cases, Option-cases,
  length,
}
use rules_python.Text.{starts_with, includes, replace, replace_from}
use rules_python.Release.Placeholders.{
  File, feature, patch, is_excluded, replaced_content, new_content, write_file, Written,
  replace_version_next_in_files,
}

-- No character of `q` is one of `v`.
abbrev pub Avoids : Text → Text → Type 0
Avoids v q = All (λ d. contains v d ≡ false) q

-- An occurrence of `q` does not begin in `v`.
includes-append_avoided :
    (v t : Text) (d : ℕ) (q : Text)
    → contains v d ≡ false
    → includes (v ++ t) (d ∷ q) ≡ includes t (d ∷ q)
unfolding includes starts_with
includes-append_avoided [] t d q h = refl
includes-append_avoided (x ∷ v) t d q h = ground (arith, includes-append_avoided v t d q)

module _ (p : Text) (a : ℕ) (v : Text) where
  abbrev new : Text
  new = a ∷ v

  -- What the replaced text begins with, the text began with.
  starts_with-replace_from :
      (s q : Text)
      → Avoids new q
      → starts_with (replace_from 0 p new s) q ≡ true
      → starts_with s q ≡ true
  unfolding replace_from starts_with
  starts_with-replace_from s [] h e = refl
  starts_with-replace_from [] (d ∷ q) h e = e
  starts_with-replace_from (c ∷ s) (d ∷ q) h e = elim (Bool-cases (starts_with (c ∷ s) p)) [
    | inl hit ↦ absurd (ground (arith, h.0))
    | inr miss ↦ ground (arith, starts_with-replace_from s q h.1)
  ]

  not_first :
      (c : ℕ) (s : Text) (d : ℕ) (q : Text)
      → Avoids new q
      → starts_with (c ∷ s) (d ∷ q) ≡ false
      → starts_with (c ∷ replace_from 0 p new s) (d ∷ q) ≡ false
  unfolding starts_with
  not_first c s d q h e = ground (arith, starts_with-replace_from s q h)

  -- A text that does not include `q` does not come to include it.
  replace_from-keeps :
      (skip : ℕ) (s : Text) (d : ℕ) (q : Text)
      → Avoids new (d ∷ q)
      → includes s (d ∷ q) ≡ false
      → includes (replace_from skip p new s) (d ∷ q) ≡ false
  unfolding replace_from includes
  replace_from-keeps skip [] d q h e = refl
  replace_from-keeps (suc skip) (c ∷ s) d q h e = replace_from-keeps skip s d q h (ground arith)
  replace_from-keeps zero (c ∷ s) d q h e = elim (Bool-cases (starts_with (c ∷ s) p)) [
    | inl hit ↦
        rw (hit, replace_from)
          (includes-append_avoided new _ d q h.0
            ∙ replace_from-keeps (length p - 1) s d q h (ground arith))
    | inr miss ↦
        rw (miss, replace_from)
          (ground (arith, not_first c s d q h.1, replace_from-keeps zero s d q h))
  ]

module _ (d : ℕ) (q : Text) (a : ℕ) (v : Text) (h : Avoids (a ∷ v) (d ∷ q)) where
  -- The text that is replaced is not included any more.
  replace_from-gone :
      (skip : ℕ) (s : Text) → includes (replace_from skip (d ∷ q) (a ∷ v) s) (d ∷ q) ≡ false
  unfolding replace_from includes
  replace_from-gone skip [] = refl
  replace_from-gone (suc skip) (c ∷ s) = replace_from-gone skip s
  replace_from-gone zero (c ∷ s) = elim (Bool-cases (starts_with (c ∷ s) (d ∷ q))) [
    | inl hit ↦
        rw (hit, replace_from)
          (includes-append_avoided (a ∷ v) _ d q h.0 ∙ replace_from-gone (length (d ∷ q) - 1) s)
    | inr miss ↦
        rw (miss, replace_from)
          (ground (arith, not_first (d ∷ q) a v c s d q h.1, replace_from-gone zero s))
  ]

-- A text with neither placeholder.
abbrev pub IsClean : Option Text → Type 0
IsClean none = Unit
IsClean (some content) = (includes content feature ≡ false) × (includes content patch ≡ false)

-- A file that is not excluded has neither placeholder.
abbrev pub IsReplaced : File → Type 0
IsReplaced f = (is_excluded f.path ≡ true) ⊎ IsClean f.content

module _ (a : ℕ) (v : Text) (h : Avoids (a ∷ v) feature) (g : Avoids (a ∷ v) patch) where
  replaced-IsClean :
      (content : Text) → IsClean (some (replace (replace content feature (a ∷ v)) patch (a ∷ v)))
  unfolding replace
  replaced-IsClean content = (
    replace_from-keeps patch a v 0 _ b'V' (codes "ERSION_NEXT_FEATURE") h
        (replace_from-gone b'V' (codes "ERSION_NEXT_FEATURE") a v h 0 content),
    replace_from-gone b'V' (codes "ERSION_NEXT_PATCH") a v g 0 _,
  )

  new_text-IsClean :
      (content : Text)
      → ((t : Text) × (replaced_content (a ∷ v) content ≡ some t) × IsClean (some t))
        ⊎ ((replaced_content (a ∷ v) content ≡ none) × IsClean (some content))
  unfolding replaced_content
  new_text-IsClean content =
      elim (Bool-cases (includes content feature || includes content patch)) [
        | inl e ↦ inl (_, rw e, replaced-IsClean content)
        | inr e ↦ inr (rw e, (ground arith, ground arith))
      ]

  write_file-IsReplaced :
      (f : File) (w : Written)
      → All IsReplaced w.files
      → All IsReplaced (write_file f (new_content (a ∷ v) f) w).files
  write_file-IsReplaced f w r = elim (Bool-cases (is_excluded f.path)) [
    | inl out ↦ rw out (inl out, r)
    | inr searched ↦ elim (Option-cases f.content) [
      | inl e ↦ rw (searched, e) (inr tt, r)
      | inr (content, e) ↦ elim (new_text-IsClean content) [
        | inl (t, made, clean) ↦ rw (searched, e, made) (inr clean, r)
        | inr (made, clean) ↦ rw (searched, e, made) (inr clean, r)
      ]
    ]
  ]

-- With a version that is not empty and shares no character with the placeholders, every file that
-- is not excluded and can be read has neither placeholder after the call.
pub replace_version_next_in_files-IsReplaced :
    (files : List File) (a : ℕ) (v : Text)
    → Avoids (a ∷ v) feature
    → Avoids (a ∷ v) patch
    → All IsReplaced (replace_version_next_in_files files (a ∷ v)).files
unfolding replace_version_next_in_files
replace_version_next_in_files-IsReplaced [] a v h g = tt
replace_version_next_in_files-IsReplaced (f ∷ files) a v h g =
    write_file-IsReplaced a v h g f (replace_version_next_in_files files (a ∷ v))
      (replace_version_next_in_files-IsReplaced files a v h g)
