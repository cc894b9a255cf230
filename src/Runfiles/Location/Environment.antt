-- ===== src/Runfiles/Location/Environment.antt =====
-- The environment that `EnvVars` describes, and what `Create` makes of it in a subprocess.
use rules_python.Base.{
  nat_eq, text_eq, pair_eq, ℕ, ◌≡◌, refl, ◌∙◌, ◌≢◌, true, false, Option, none, some, [], ◌∷◌, ◌++◌,
  Text, codes, Result, ok, arith, length, take, take-append, length-append, subst, Bool-cases,
  Result-cases, inl, inr, append_assoc, ◌⊎◌,
}
use rules_python.Base.Dict.{Dict, get}
use rules_python.Text.{ends_with, ends_with-append}
use rules_python.Runfiles.Manifest.{
  ManifestBased, manifest_init, manifest_runfiles_dir, manifest_env_vars, load_runfiles,
  without_end,
}
use rules_python.Runfiles.Strategy.{
  Strategy, manifest_based, directory_based, manifest_strategy, directory_strategy, env_vars,
}
use rules_python.Runfiles.Location.{Runfiles, runfiles_init, create, start}

last? : Text → Option ℕ
last? [] = none
last? (c ∷ []) = some c
last? (c ∷ d ∷ s) = last? (d ∷ s)

ends_with-last : (s p : Text) → ends_with s p ≡ true → p ≢ [] → last? s ≡ last? p
unfolding ends_with last?
ends_with-last [] p h n = absurd (n (ground arith))
ends_with-last (c ∷ []) p h n = ground (arith, n)
ends_with-last (c ∷ d ∷ s) p h n = ground (arith, ends_with-last (d ∷ s) p)

last?-append : (s : Text) (c : ℕ) (p : Text) → last? (s ++ (c ∷ p)) ≡ last? (c ∷ p)
unfolding last?
last?-append [] c p = refl
last?-append (x ∷ []) c p = refl
last?-append (x ∷ y ∷ s) c p = last?-append (y ∷ s) c p

without_end-append : (s p : Text) → without_end (length p) (s ++ p) ≡ s
without_end-append s p =
    subst (λ n. take n (s ++ p) ≡ s) (omega (arith, length-append s p)) (take-append s p)

ends_with-ne_last : (s p : Text) → p ≢ [] → last? s ≢ last? p → ends_with s p ≡ false
ends_with-ne_last s p n h = elim (Bool-cases (ends_with s p)) [
  | inl e ↦ absurd (h (ends_with-last s p e n))
  | inr e ↦ e
]

runfiles_manifest-ends :
    (stem : Text) (p : Text)
    → p ≢ []
    → last? p ≡ some b'T'
    → ends_with (stem ++ codes ".runfiles_manifest") p ≡ false
unfolding last?
runfiles_manifest-ends stem p n h =
    ends_with-ne_last _ p n λ e. ground (arith, last?-append stem b'.' (codes "runfiles_manifest"))

-- The runfiles directory beside a manifest: of `dir/MANIFEST`, also with a backslash, it is `dir`,
-- and of `stem.runfiles_manifest` it is `stem.runfiles`.
pub manifest_runfiles_dir-append :
    (m : ManifestBased) (s : Text)
    → (manifest_runfiles_dir (record m { path = s ++ codes "/MANIFEST" }) ≡ s)
      × (manifest_runfiles_dir (record m { path = s ++ codes "\\MANIFEST" }) ≡ s)
      × (manifest_runfiles_dir (record m { path = s ++ codes ".runfiles_manifest" })
          ≡ s ++ codes ".runfiles")
unfolding manifest_runfiles_dir last?
manifest_runfiles_dir-append m s = (
  rw ends_with-append (without_end-append s (codes "/MANIFEST")),
  ground
      (arith, ends_with-append s (codes "\\MANIFEST"), without_end-append s (codes "\\MANIFEST")),
  rw
      (
        runfiles_manifest-ends s (codes "/MANIFEST") (cc) refl,
        runfiles_manifest-ends s (codes "\\MANIFEST") (cc) refl,
        ends_with-append s (codes ".runfiles_manifest"),
      )
      (rw (← append_assoc s (codes ".runfiles") (codes "_manifest"))
        (without_end-append (s ++ codes ".runfiles") (codes "_manifest"))),
)

get_first {ℓ} : {V : Type ℓ} (k : Text) (v : V) (d : Dict Text V) → get k ((k, v) ∷ d) ≡ some v
unfolding get
get_first k v d = ground arith

manifest_variables :
    (m : ManifestBased)
    → get (codes "RUNFILES_MANIFEST_FILE") (env_vars (manifest_based m)) ≡ some m.path
unfolding env_vars manifest_env_vars
manifest_variables m = get_first _ m.path _

manifest_made :
    (read : Text → Option Text) (c : ℕ) (path : Text) (s : Strategy)
    → manifest_strategy read (c ∷ path) ≡ ok s
    → get (codes "RUNFILES_MANIFEST_FILE") (env_vars s) ≡ some (c ∷ path)
unfolding manifest_strategy manifest_init
manifest_made read c path s h = elim (Result-cases (load_runfiles read (c ∷ path))) [
  | inl (d, e) ↦
      let m : ManifestBased = record { path = c ∷ path; runfiles = d } in
      let same : s ≡ manifest_based m = ground arith in rw (same, manifest_variables m)
  | inr (x, e) ↦ absurd (ground arith)
]

directory_variables :
    (c : ℕ) (root : Text)
    → (get (codes "RUNFILES_MANIFEST_FILE") (env_vars (directory_based (c ∷ root))) ≡ none)
      × (get (codes "RUNFILES_DIR") (env_vars (directory_based (c ∷ root))) ≡ some (c ∷ root))
unfolding get env_vars
directory_variables c root = (ground arith, ground arith)

module _ (read : Text → Option Text) (env : Dict Text Text) (c : ℕ) (path : Text) where
  -- The manifest comes first.
  create_of_manifest :
      get (codes "RUNFILES_MANIFEST_FILE") env ≡ some (c ∷ path)
      → create read env ≡ start read (manifest_strategy read (c ∷ path))
  unfolding create
  create_of_manifest h = ground arith

  create_of_directory :
      get (codes "RUNFILES_MANIFEST_FILE") env ≡ none
      → get (codes "RUNFILES_DIR") env ≡ some (c ∷ path)
      → create read env ≡ start read (directory_strategy (c ∷ path))
  unfolding create
  create_of_directory h g = ground arith

start_of_made :
    (read : Text → Option Text) (made : Result Strategy) (s : Strategy) (r : Runfiles)
    → made ≡ ok s
    → runfiles_init read s ≡ ok r
    → start read made ≡ ok (some r)
start_of_made read made s r h e = rw (h, e)

-- A process that is started with the variables of `EnvVars` of a `Runfiles` object, in which the
-- files are the same, makes the same object of them, with either strategy.
pub create-env_vars :
    (read : Text → Option Text) (path : Text) (s : Strategy) (r : Runfiles)
    → (manifest_strategy read path ≡ ok s) ⊎ (directory_strategy path ≡ ok s)
    → runfiles_init read s ≡ ok r
    → create read (env_vars s) ≡ ok (some r)
create-env_vars read [] s r (inl h) e = unfold manifest_strategy manifest_init in cc h
create-env_vars read (c ∷ path) s r (inl h) e =
    create_of_manifest read (env_vars s) c path (manifest_made read c path s h)
    ∙ start_of_made read (manifest_strategy read (c ∷ path)) s r h e
create-env_vars read [] s r (inr h) e = unfold directory_strategy in cc h
create-env_vars read (c ∷ path) s r (inr h) e =
    let same : s ≡ directory_based (c ∷ path) = unfold directory_strategy in cc h in
    create_of_directory read (env_vars s) c path (rw same (directory_variables c path).0)
      (rw same (directory_variables c path).1)
    ∙ start_of_made read (directory_strategy (c ∷ path)) s r h e
