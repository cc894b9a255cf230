-- ===== src/Bootstrap/ZipMain/Environment.antt =====
-- The environment that python/private/zipapp/zip_main_template.py gives to the program, and what
-- python/private/stage2_bootstrap_template.py makes of it.
use rules_python.Base.{
  nat_eq, text_eq, ℕ, Bool, true, false, Option, none, some, [], ◌∷◌, Text, ◌==◌, ==_sound, codes,
  contains, if◌then◌else◌, is_empty, ok, ◌≡◌, ◌≢◌, refl, ◌∙◌, ap, sym, subst, arith, ℕ_discrete,
  text_dec,
}
use rules_python.Base.Dict.{keys, get, put, pop, get-put, get-pop}
use rules_python.Posix.{posix_join}
use rules_python.Bootstrap.{Files, Environ, variable}
use rules_python.Bootstrap.Root.{named_dir, find_runfiles_root}
use rules_python.Bootstrap.ZipMain.{new_env, add_inherited, launcher}

abbrev first_of : Option Text → Option Text → Option Text
first_of none o = o
first_of (some v) o = some v

abbrev is_some : Option Text → Bool
is_some none = false
is_some (some v) = true

contains-keys : (k : Text) (env : Environ) → contains (keys env) k ≡ is_some (get k env)
unfolding get
contains-keys k [] = refl
contains-keys k ((j, v) ∷ env) = ground (arith, contains-keys k env)

inherit_if :
    (b c : Bool) (k key value : Text) (env : Environ) (g o : Option Text)
    → get k env ≡ g
    → (k == key) ≡ c
    → (c ≡ true → b ≡ is_some g)
    → first_of (get k (if b then env else put key value env)) o
      ≡ first_of g (if c then some value else o)
inherit_if true true k key value env none o e f h = absurd (ground (arith, h refl))
inherit_if true true k key value env (some v) o e f h = ground arith
inherit_if true false k key value env g o e f h = ground arith
inherit_if false true k key value env none o e f h = ground (arith, get-put k key value env)
inherit_if false true k key value env (some v) o e f h = absurd (ground (arith, h refl))
inherit_if false false k key value env g o e f h = ground (arith, get-put k key value env)

inherit-step :
    (k key value : Text) (env : Environ) (o : Option Text)
    → first_of (get k (if contains (keys env) key then env else put key value env)) o
      ≡ first_of (get k env) (if k == key then some value else o)
inherit-step k key value env o =
    inherit_if (contains (keys env) key) (k == key) k key value env (get k env) o refl refl (λ e.
      subst (λ j. contains (keys env) key ≡ is_some (get j env)) (sym (==_sound k key e))
        (contains-keys key env))

get-add_inherited :
    (k : Text) (rest env : Environ)
    → get k (add_inherited rest env) ≡ first_of (get k env) (get k rest)
unfolding get
get-add_inherited k [] env = ground arith
get-add_inherited k ((key, value) ∷ rest) env =
    get-add_inherited k rest _ ∙ inherit-step k key value env (get k rest)

abbrev pub passed : Text → Text → Environ → Option Text
passed runfiles_root key environ =
    if key == codes "RUNFILES_DIR"
    then some runfiles_root
    else if key == codes "PYTHONSAFEPATH"
    then some (codes "1")
    else if key == launcher
    then none
    else get key environ

get-new_env :
    (root key : Text) (environ : Environ) → get key (new_env root environ) ≡ passed root key environ
unfolding new_env get
get-new_env root key environ = ground (
  arith,
  get-add_inherited key (pop launcher environ)
      ((codes "RUNFILES_DIR", root) ∷ (codes "PYTHONSAFEPATH", codes "1") ∷ []),
  get-pop key launcher environ,
)

nonempty : (root : Text) → root ≢ [] → is_empty root ≡ false
nonempty [] h = absurd (h refl)
nonempty (c ∷ root) h = refl

dir-new_env :
    (root : Text) (environ : Environ)
    → variable (codes "RUNFILES_DIR") (new_env root environ) ≡ root
unfolding ℕ_discrete text_dec
dir-new_env root environ =
    ap (λ (o : Option Text). elim o [ none ↦ [] | some v ↦ v ])
      (get-new_env root (codes "RUNFILES_DIR") environ)

dir_or :
    (dir other root : Text) → root ≢ [] → dir ≡ root → (if is_empty dir then other else dir) ≡ root
dir_or [] other root h e = absurd (h (sym e))
dir_or (c ∷ dir) other root h e = e

named-new_env :
    (root : Text) (environ : Environ) → root ≢ [] → named_dir (new_env root environ) ≡ root
unfolding named_dir
named-new_env root environ h = dir_or _ _ root h (dir-new_env root environ)

-- Of the variables of the zip's process the program is given all but the launcher's, and
-- RUNFILES_DIR and PYTHONSAFEPATH are those of the zip. With it the second stage finds the runfiles
-- that were extracted, if the main file is among them, and leaves the environment as it is: an
-- inherited RUNFILES_MANIFEST_FILE stays in it.
pub find_runfiles_root-new_env :
    (fs : Files) (fuel : ℕ) (cwd argv0 main root : Text) (environ : Environ)
    → root ≢ []
    → fs.exists (posix_join root main) ≡ true
    → ((key : Text) → get key (new_env root environ) ≡ passed root key environ)
      × (find_runfiles_root fs fuel cwd argv0 main (new_env root environ)
          ≡ (ok root, new_env root environ))
unfolding find_runfiles_root
find_runfiles_root-new_env fs fuel cwd argv0 main root environ h e = (
  λ key. get-new_env root key environ,
  rw (named-new_env root environ h, nonempty root h, e) refl,
)
