-- ===== src/Runfiles/Location/Resolve.antt =====
-- What `Rlocation` resolves a path to, and that it always comes to an end.
use rules_python.Base.{
  nat_eq, text_eq, pair_eq, ℕ, ◌≡◌, refl, ◌≢◌, ◌⊎◌, inl, inr, false, Option, none, some, [], ◌∷◌,
  ◌++◌, Text, codes, Result, ok, err, value_error, arith, Lacks, ◌>>=◌, Option-cases, Bool-cases,
  Result-cases,
}
use rules_python.Text.{
  starts_with, ends_with, includes, partition, cut, cut-append, cut-eq_none, cut-eq_some,
}
use rules_python.Runfiles.Mapping.{lookup, mapping_is_empty}
use rules_python.Runfiles.Manifest.Search.{manifest_rlocation-longest}
use rules_python.Runfiles.Strategy.{Strategy, manifest_based, directory_based, rlocation_checked}
use rules_python.Runfiles.Caller.{Interpreter, current_repository, repository_at}
use rules_python.Posix.{relpath}
use rules_python.Runfiles.Location.{
  Runfiles, is_unnormalized, source_of, mapped, rlocation_relative, rlocation,
}

-- A path that `Rlocation` looks up: relative and normalized.
pub record IsLookedUp (path : Text) : Type 0 where
  pub normalized : is_unnormalized path ≡ false
  pub no_backslash : starts_with path (codes "\\") ≡ false
  pub relative : starts_with path (codes "/") ≡ false
  pub not_empty : path ≢ []

rlocation_of_looked_up :
    (py : Interpreter) (r : Runfiles) (path source : Text)
    → IsLookedUp path
    → rlocation py r path (some source) ≡ rlocation_relative r (some source) path
unfolding rlocation source_of
rlocation_of_looked_up py r [] source h = absurd (h.not_empty refl)
rlocation_of_looked_up py r (c ∷ path) source h = ground arith

-- A relative, normalized path `repo/remainder` is looked up with the mapping of its first part in
-- front of the remainder, and as it is where that part has no mapping for the source.
pub rlocation-mapping :
    (py : Interpreter) (r : Runfiles) (source repo : Text) (c : ℕ) (remainder : Text)
    → Lacks b'/' repo
    → IsLookedUp (repo ++ (b'/' ∷ c ∷ remainder))
    → rlocation py r (repo ++ (b'/' ∷ c ∷ remainder)) (some source)
      ≡ rlocation_checked r.strategy (elim (lookup r.mapping (some source) repo) [
        | some canonical ↦ canonical ++ (b'/' ∷ c ∷ remainder)
        | none ↦ repo ++ (b'/' ∷ c ∷ remainder)
      ])
unfolding rlocation_relative partition
rlocation-mapping py r source repo c remainder h q =
    rw (rlocation_of_looked_up py r _ source q, cut-append b'/' repo (c ∷ remainder) h)
      (ground arith)

-- A path with no slash is looked up as it is, also where a repository of that name is mapped.
pub rlocation_of_root_symlink :
    (py : Interpreter) (r : Runfiles) (source name : Text)
    → Lacks b'/' name
    → IsLookedUp name
    → rlocation py r name (some source) ≡ rlocation_checked r.strategy name
unfolding rlocation_relative partition
rlocation_of_root_symlink py r source name h q =
    rw (rlocation_of_looked_up py r _ source q, cut-eq_none b'/' name h) (ground arith)

-- A canonical name that is safe to put in front of a path.
pub record IsCanonical (t : Text) : Type 0 where
  pub not_empty : t ≢ []
  pub no_double : includes t (codes "//") ≡ false
  pub no_slash_first : starts_with t (codes "/") ≡ false
  pub no_slash_last : ends_with t (codes "/") ≡ false

includes-append : (a b p : Text) → includes (a ++ b) p ≡ false → includes b p ≡ false
unfolding includes
includes-append [] b p h = h
includes-append (c ∷ a) b p h = includes-append a b p (ground arith)

includes-join :
    (t s : Text)
    → includes t (codes "//") ≡ false
    → ends_with t (codes "/") ≡ false
    → includes (b'/' ∷ s) (codes "//") ≡ false
    → includes (t ++ (b'/' ∷ s)) (codes "//") ≡ false
unfolding includes starts_with ends_with
includes-join [] s h e g = g
includes-join (c ∷ []) s h e g = ground (arith, includes-join [] s)
includes-join (c ∷ d ∷ t) s h e g = ground (arith, includes-join (d ∷ t) s)

starts_with-append_slash :
    (t s : Text)
    → t ≢ []
    → starts_with t (codes "/") ≡ false
    → starts_with (t ++ s) (codes "/") ≡ false
unfolding starts_with
starts_with-append_slash [] s n h = absurd (n refl)
starts_with-append_slash (c ∷ t) s n h = h

no_double_slash : (path : Text) → is_unnormalized path ≡ false → includes path (codes "//") ≡ false
unfolding is_unnormalized
no_double_slash path h = ground arith

-- What a call returns when it neither diverges nor raises anything but a `ValueError`.
abbrev pub Settles {ℓ} : {A : Type ℓ} → Result A → Type ℓ
Settles {A} r = (r ≡ err value_error) ⊎ ((a : A) × (r ≡ ok a))

Settles-bind {ℓ κ} :
    {A : Type ℓ} {B : Type κ} (m : Result A) (f : A → Result B)
    → Settles m
    → ((a : A) → Settles (f a))
    → Settles (m >>= f)
Settles-bind m f (inl e) h = inl (rw e)
Settles-bind m f (inr (a, e)) h = rw e (h a)

relpath-Settles : (cwd path start : Text) → Settles (relpath cwd path start)
unfolding relpath
relpath-Settles cwd [] start = inl refl
relpath-Settles cwd (c ∷ path) start = inr (_, refl)

repository_at-Settles : (py : Interpreter) (root rel : Text) → Settles (repository_at py root rel)
repository_at-Settles py root rel = elim (Result-cases (repository_at py root rel)) [
  | inl (a, e) ↦ inr (a, e)
  | inr (e, q) ↦ inl (ground arith)
]

-- Finding the caller gives a name or a `ValueError`.
pub current_repository-Settles :
    (py : Interpreter) (root : Text) → Settles (current_repository py root)
unfolding current_repository
current_repository-Settles py root = elim (Option-cases py.caller) [
  | inl e ↦ inl (rw e)
  | inr (caller, e) ↦ rw e (
      Settles-bind _ _ (relpath-Settles py.cwd caller root)
        (λ rel. repository_at-Settles py root rel))
]

source_of-Settles : (py : Interpreter) (r : Runfiles) (s : Option Text) → Settles (source_of py r s)
unfolding source_of
source_of-Settles py r (some repo) = inr (_, refl)
source_of-Settles py r none = elim (Bool-cases (mapping_is_empty r.mapping)) [
  | inl e ↦ rw e (inr (_, refl))
  | inr e ↦ rw e (Settles-bind _ _ (current_repository-Settles py r.root) (λ repo. inr (_, refl)))
]

-- Paths that both strategies settle.
checked-Settles :
    (strategy : Strategy) (path : Text)
    → includes path (codes "//") ≡ false
    → starts_with path (codes "/") ≡ false
    → Settles (rlocation_checked strategy path)
unfolding rlocation_checked
checked-Settles (manifest_based m) path n f = inr (_, manifest_rlocation-longest m path n f)
checked-Settles (directory_based root) path n f = inr (_, refl)

-- Every target of the mapping is safe to put in front of a path.
abbrev pub SafeTargets : Runfiles → Type 0
SafeTargets r =
    (source : Option Text) (app target : Text)
    → lookup r.mapping source app ≡ some target
    → IsCanonical target

mapped-Settles :
    (r : Runfiles) (path rest : Text) (target : Option Text)
    → is_unnormalized path ≡ false
    → starts_with path (codes "/") ≡ false
    → includes (b'/' ∷ rest) (codes "//") ≡ false
    → ((t : Text) → target ≡ some t → IsCanonical t)
    → Settles (rlocation_checked r.strategy (mapped path rest target))
mapped-Settles r path rest none n f g h = checked-Settles r.strategy path (no_double_slash path n) f
mapped-Settles r path [] (some t) n f g h =
    checked-Settles r.strategy path (no_double_slash path n) f
mapped-Settles r path (c ∷ rest) (some t) n f g h =
    let safe = h t refl in
    checked-Settles r.strategy (t ++ (b'/' ∷ c ∷ rest))
      (includes-join t (c ∷ rest) safe.no_double safe.no_slash_last g)
      (starts_with-append_slash t (b'/' ∷ c ∷ rest) safe.not_empty safe.no_slash_first)

-- What stands behind the first slash of a path has no slash in front.
no_double_after_cut :
    (path a b : Text)
    → includes path (codes "//") ≡ false
    → cut b'/' path ≡ some (a, b)
    → includes (b'/' ∷ b) (codes "//") ≡ false
no_double_after_cut path a b h e =
    includes-append a (b'/' ∷ b) (codes "//") (rw (cut-eq_some b'/' path e).0 at h)

rlocation_relative-Settles :
    (r : Runfiles) (source : Option Text) (path : Text)
    → SafeTargets r
    → is_unnormalized path ≡ false
    → starts_with path (codes "/") ≡ false
    → Settles (rlocation_relative r source path)
unfolding rlocation_relative partition
rlocation_relative-Settles r source path safe n f = elim (Option-cases (cut b'/' path)) [
  | inl e ↦ rw e (
      mapped-Settles r path [] _ n f (unfold includes starts_with in ground arith)
        (safe source path))
  | inr ((a, b), e) ↦ rw e (
      mapped-Settles r path b _ n f (no_double_after_cut path a b (no_double_slash path n) e)
        (safe source a))
]

-- Where every canonical name in the mapping is non-empty, has no two slashes side by side and no
-- slash at either end, `Rlocation` returns or raises a `ValueError`, for any path, source and
-- interpreter, and with either strategy: the search through a manifest comes to an end.
pub rlocation-Settles :
    (py : Interpreter) (r : Runfiles) (path : Text) (source : Option Text)
    → SafeTargets r
    → Settles (rlocation py r path source)
unfolding rlocation
rlocation-Settles py r [] source safe = inl refl
rlocation-Settles py r (c ∷ path) source safe = elim (Bool-cases (is_unnormalized (c ∷ path))) [
  | inl n ↦ inl (rw n)
  | inr n ↦ elim (Bool-cases (starts_with (c ∷ path) (codes "\\"))) [
    | inl b ↦ inl (rw (n, b))
    | inr b ↦ elim (Bool-cases (starts_with (c ∷ path) (codes "/"))) [
      | inl f ↦ inr (some (c ∷ path), rw (n, b, f))
      | inr f ↦
          rw (n, b, f)
            (Settles-bind _ _ (source_of-Settles py r source)
              (λ s. rlocation_relative-Settles r s (c ∷ path) safe n f))
    ]
  ]
]
