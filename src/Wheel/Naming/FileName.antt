-- ===== src/Wheel/Naming/FileName.antt =====
-- The file name of a wheel in tools/wheelmaker.py, and its parts.
use rules_python.Base.{
  nat_eq, text_eq, pair_eq, ℕ, ◌-◌, ◌≡◌, subst, inl, inr, true, List, [], ◌∷◌, ◌++◌, Text, codes,
  is_empty, arith, Lacks, All, length, take, Bool-cases, take-append, length-append,
}
use rules_python.Text.{
  split, split-append, split-eq_singleton, join, replace, replace_from, starts_with, ends_with,
  ends_with-append,
}
use rules_python.Wheel.Naming.{
  escape_filename_distribution_name, normalize_package_name, Tags, wheel_components, wheelname,
  distribution_prefix,
}

replace-Lacks : (s : Text) → Lacks b'-' (replace s (codes "-") (codes "_"))
unfolding replace replace_from starts_with
replace-Lacks [] = tt
replace-Lacks (c ∷ s) = ground (arith, replace-Lacks s)

-- The distribution's name has no dash.
distribution_name-Lacks : (name : Text) → Lacks b'-' (escape_filename_distribution_name name)
unfolding escape_filename_distribution_name
distribution_name-Lacks name = replace-Lacks (normalize_package_name name)

split-join :
    (c : ℕ) (p : Text) (ps : List Text)
    → All (Lacks c) (p ∷ ps)
    → split c (join (c ∷ []) (p ∷ ps)) ≡ p ∷ ps
unfolding join
split-join c p [] h = split-eq_singleton c p h.0
split-join c p (q ∷ ps) h = rw (split-append c p _ h.0, split-join c q ps h.1)

-- The version and the tags have no dash, as canonical versions and compatibility tags never do.
pub record HasPlainTags (t : Tags) : Type 0 where
  pub version : Lacks b'-' t.version
  pub build_tag : Lacks b'-' t.build_tag
  pub python_tag : Lacks b'-' t.python_tag
  pub abi : Lacks b'-' t.abi
  pub platform : Lacks b'-' t.platform

components-Lacks : (t : Tags) → HasPlainTags t → All (Lacks b'-') (wheel_components t)
components-Lacks t h = elim (Bool-cases (is_empty t.build_tag)) [
  | inl e ↦
      (distribution_name-Lacks t.name, (h.version, rw e (h.python_tag, (h.abi, (h.platform, tt)))))
  | inr e ↦ (
    distribution_name-Lacks t.name,
    (h.version, rw e (h.build_tag, (h.python_tag, (h.abi, (h.platform, tt))))),
  )
]

-- Whatever the name of the package, the file name of its wheel ends in `.whl`, and what stands
-- before that splits at the dashes into the name, the version, the build tag if there is one, and
-- the three tags; the distribution prefix is the first two of these parts.
pub wheelname-split :
    (t : Tags)
    → HasPlainTags t
    → (ends_with (wheelname t) (codes ".whl") ≡ true)
      × (split b'-' (take (length (wheelname t) - 4) (wheelname t)) ≡ wheel_components t)
      × (split b'-' (distribution_prefix t)
          ≡ escape_filename_distribution_name t.name ∷ t.version ∷ [])
unfolding wheelname distribution_prefix
wheelname-split t h = (
  ends_with-append _ (codes ".whl"),
  rw stem (split-join b'-' _ _ (components-Lacks t h)),
  rw (
    split-append b'-' _ t.version (distribution_name-Lacks t.name),
    split-eq_singleton b'-' t.version h.version,
  ),
)
  where
    stem :
        take
          (length (join (codes "-") (wheel_components t) ++ codes ".whl") - 4)
          (join (codes "-") (wheel_components t) ++ codes ".whl")
        ≡ join (codes "-") (wheel_components t)
    stem =
        let name = join (codes "-") (wheel_components t) in
        subst (λ n. take n (name ++ codes ".whl") ≡ name)
          (omega (arith, length-append name (codes ".whl"))) (take-append name (codes ".whl"))
