-- ===== src/Bootstrap/Envvar/Current.antt =====
-- The environment of the main file, in python/private/stage2_bootstrap_template.py.
use rules_python.Base.{
  ◌∷◌, sym, ==_sound, ◌==◌, Bool-cases, text_eq, Bool, true, false, ◌&&◌, Option, none, some, [],
  ◌++◌, Text, codes, if◌then◌else◌, is_empty, ◌≡◌, refl, ◌∙◌, ap, ◌⊎◌, inl, inr, ℕ_discrete,
  text_dec,
}
use rules_python.Base.Dict.{get, pop, get-pop, put, get-put}
use rules_python.Text.{ends_with}
use rules_python.Posix.{posix_join}
use rules_python.Bootstrap.{Files, Environ, variable}
use rules_python.Bootstrap.Root.{cleared, manifest_dir, named_dir}
use rules_python.Bootstrap.Envvar.{
  manifest_file, runfiles_dir, beside, runfiles_envvar, with_envvar, set_envvar,
}

cleared-manifest : (environ : Environ) → get manifest_file (cleared environ) ≡ none
unfolding ℕ_discrete text_dec
cleared-manifest environ = get-pop manifest_file manifest_file (pop runfiles_dir environ)

cleared-dir : (environ : Environ) → get runfiles_dir (cleared environ) ≡ none
unfolding ℕ_discrete text_dec
cleared-dir environ =
    get-pop runfiles_dir manifest_file (pop runfiles_dir environ)
    ∙ get-pop runfiles_dir runfiles_dir environ

-- The manifests of a runfiles directory.
abbrev pub IsManifestOf : Files → Text → Text → Type 0
IsManifestOf fs root manifest =
    (fs.exists manifest ≡ true)
    × ((manifest ≡ root ++ codes "_manifest") ⊎ (manifest ≡ posix_join root (codes "MANIFEST")))

-- What the variables name, if they are set, are the runfiles directory and a manifest of it.
pub record IsCurrent (fs : Files) (root : Text) (environ : Environ) : Type 0 where
  pub dir :
      (get runfiles_dir environ ≡ none)
      ⊎ ((get runfiles_dir environ ≡ some root) × (fs.is_dir root ≡ true))
  pub manifest :
      (get manifest_file environ ≡ none)
      ⊎ ((m : Text) × (get manifest_file environ ≡ some m) × IsManifestOf fs root m)

module _ (fs : Files) (root : Text) (environ : Environ) where
  with_manifest :
      (m : Text)
      → IsManifestOf fs root m
      → IsCurrent fs root (put manifest_file m (cleared environ))
  unfolding ℕ_discrete text_dec
  with_manifest m h = record {
    dir = inl (get-put runfiles_dir manifest_file m (cleared environ) ∙ cleared-dir environ);
    manifest = inr (m, get-put manifest_file manifest_file m (cleared environ), h);
  }

  with_dir : fs.is_dir root ≡ true → IsCurrent fs root (put runfiles_dir root (cleared environ))
  unfolding ℕ_discrete text_dec
  with_dir h = record {
    dir = inr (get-put runfiles_dir runfiles_dir root (cleared environ), h);
    manifest =
        inl (get-put manifest_file runfiles_dir root (cleared environ) ∙ cleared-manifest environ);
  }

  chosen :
      (a b c d : Bool)
      → fs.exists (root ++ codes "_manifest") ≡ a
      → fs.exists (posix_join root (codes "MANIFEST")) ≡ b
      → fs.is_dir root ≡ d
      → IsCurrent fs root (
          with_envvar
            (if a
              then some (manifest_file, root ++ codes "_manifest")
              else if b
              then some (manifest_file, posix_join root (codes "MANIFEST"))
              else if c && d
              then some (runfiles_dir, root)
              else none)
            (cleared environ))
  chosen true b c d e f g = with_manifest (root ++ codes "_manifest") (e, inl refl)
  chosen false true c d e f g = with_manifest (posix_join root (codes "MANIFEST")) (f, inr refl)
  chosen false false true true e f g = with_dir g
  chosen false false true false e f g = record {
    dir = inl (cleared-dir environ);
    manifest = inl (cleared-manifest environ);
  }
  chosen false false false d e f g = record {
    dir = inl (cleared-dir environ);
    manifest = inl (cleared-manifest environ);
  }

  by_values : Option Text → Option Text → Option (Text × Text)
  by_values manifest dir =
      if is_empty (elim manifest [ none ↦ [] | some t ↦ t ])
      then (if is_empty (elim dir [ none ↦ [] | some t ↦ t ])
          then beside fs root
          else some (runfiles_dir, elim dir [ none ↦ [] | some t ↦ t ]))
      else some (manifest_file, elim manifest [ none ↦ [] | some t ↦ t ])

  runfiles_envvar-cleared : runfiles_envvar fs (cleared environ) root ≡ beside fs root
  unfolding runfiles_envvar by_values
  runfiles_envvar-cleared =
      ap (λ m. by_values m (get runfiles_dir (cleared environ))) (cleared-manifest environ)
      ∙ ap (λ d. by_values none d) (cleared-dir environ)

  -- Where the variables were removed, they are set to the runfiles of this program, or not at all:
  -- the ones that another program left are gone.
  pub set_envvar-IsCurrent : IsCurrent fs root (set_envvar fs root (cleared environ))
  unfolding set_envvar
  set_envvar-IsCurrent = rw runfiles_envvar-cleared (
      chosen (fs.exists (root ++ codes "_manifest"))
        (fs.exists (posix_join root (codes "MANIFEST"))) (ends_with root (codes ".runfiles"))
        (fs.is_dir root) refl refl refl)

-- A variable that is set and not empty is set to the value that is read.
read_variable :
    (o : Option Text)
    → is_empty (elim o [ none ↦ [] | some t ↦ t ]) ≡ false
    → o ≡ some (elim o [ none ↦ [] | some t ↦ t ])
read_variable none h = absurd (cc)
read_variable (some t) h = refl

is_empty-eq : (s : Text) → is_empty s ≡ true → s ≡ []
is_empty-eq [] h = refl
is_empty-eq (c ∷ s) h = absurd (cc)

module _ (environ : Environ) where
  -- Every variable is as it was.
  abbrev pub IsKept : Environ → Type 0
  IsKept new_environ = (key : Text) → get key new_environ ≡ get key environ

  put-IsKept : (key value : Text) → get key environ ≡ some value → IsKept (put key value environ)
  put-IsKept key value h k = elim (Bool-cases (k == key)) [
    | inl same ↦
        let e : k ≡ key = ==_sound k key same in
        get-put k key value environ
        ∙ (ap (λ b. if b then some value else get k environ) same
            ∙ (sym h ∙ ap (λ j. get j environ) (sym e)))
    | inr other ↦
        get-put k key value environ ∙ ap (λ b. if b then some value else get k environ) other
  ]

  either_variable :
      (fs : Files) (root : Text) (a b : Bool)
      → is_empty (variable manifest_file environ) ≡ a
      → is_empty (variable runfiles_dir environ) ≡ b
      → is_empty (
          if b
          then manifest_dir (variable manifest_file environ)
          else variable runfiles_dir environ)
        ≡ false
      → IsKept (
          with_envvar
            (if a
              then (if b
                  then beside fs root
                  else some (runfiles_dir, variable runfiles_dir environ))
              else some (manifest_file, variable manifest_file environ))
            environ)
  unfolding ends_with text_dec
  either_variable fs root false b e f h =
      put-IsKept manifest_file (variable manifest_file environ) (read_variable _ e)
  either_variable fs root true false e f h =
      put-IsKept runfiles_dir (variable runfiles_dir environ) (read_variable _ f)
  either_variable fs root true true e f h =
      let none_named : is_empty (manifest_dir (variable manifest_file environ)) ≡ true =
        ap (λ m. is_empty (manifest_dir m)) (is_empty-eq _ e) in
      absurd (cc)

  -- Where the variables name a directory, the program gets them as they are.
  pub set_envvar-IsKept :
      (fs : Files) (root : Text)
      → is_empty (named_dir environ) ≡ false
      → IsKept (set_envvar fs root environ)
  unfolding set_envvar runfiles_envvar named_dir
  set_envvar-IsKept fs root h = either_variable fs root _ _ refl refl h
