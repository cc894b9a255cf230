-- ===== src/Bootstrap/SiteInit/Extended.antt =====
-- What python/private/site_init_template.py does to `sys.path`.
use rules_python.Base.{
  text_eq, Bool, true, false, List, [], ◌∷◌, ◌++◌, Text, ==_refl, contains, if◌then◌else◌, All, ◌≡◌,
  refl, ◌∙◌, sym, subst, append-nil, append_assoc, arith,
}
use rules_python.Bootstrap.{Files, Environ}
use rules_python.Bootstrap.SiteInit.{
  Template, add_paths, setup_sys_path, root_paths, import_paths, repo_paths, coverage_dirs,
  coverage_tool,
}

-- None of the entries is in the list or stands among the entries before it.
abbrev pub IsFresh : List Text → List Text → Type 0
IsFresh old [] = Unit
IsFresh old (p ∷ ps) = (contains old p ≡ false) × IsFresh (old ++ (p ∷ [])) ps

-- The list with new entries behind it, and the paths that were to be added among them all.
pub record IsExtended (old paths new : List Text) : Type 0 where
  pub added : List Text
  pub new_eq : new ≡ old ++ added
  pub fresh : IsFresh old added
  pub present : All (λ p. contains new p ≡ true) paths

contains-append_left :
    (l r : List Text) (p : Text) → contains l p ≡ true → contains (l ++ r) p ≡ true
contains-append_left [] r p h = absurd (cc)
contains-append_left (x ∷ l) r p h = ground (arith, contains-append_left l r p)

contains-snoc : (l : List Text) (p : Text) → contains (l ++ (p ∷ [])) p ≡ true
contains-snoc [] p = ground (arith, ==_refl p)
contains-snoc (x ∷ l) p = ground (arith, contains-snoc l p)

module _ (old : List Text) (p : Text) (paths : List Text) where
  step :
      (b : Bool)
      → contains old p ≡ b
      → ((l : List Text) → IsExtended l paths (add_paths l paths))
      → IsExtended old (p ∷ paths) (add_paths (if b then old else old ++ (p ∷ [])) paths)
  step true h f =
      let e = f old in
      record {
        added = e.added;
        new_eq = e.new_eq;
        fresh = e.fresh;
        present = (
          subst (λ l. contains l p ≡ true) (sym e.new_eq) (contains-append_left old e.added p h),
          e.present,
        );
      }
  step false h f =
      let e = f (old ++ (p ∷ [])) in
      record {
        added = p ∷ e.added;
        new_eq = e.new_eq ∙ append_assoc old (p ∷ []) e.added;
        fresh = (h, e.fresh);
        present = (
          subst (λ l. contains l p ≡ true) (sym e.new_eq)
              (contains-append_left (old ++ (p ∷ [])) e.added p (contains-snoc old p)),
          e.present,
        );
      }

add_paths-IsExtended : (paths old : List Text) → IsExtended old paths (add_paths old paths)
unfolding add_paths
add_paths-IsExtended [] old = record {
  added = [];
  new_eq = sym (append-nil old);
  fresh = tt;
  present = tt;
}
add_paths-IsExtended (p ∷ paths) old =
    step old p paths (contains old p) refl (add_paths-IsExtended paths)

-- The entries of `sys.path` stay first and in their order. Behind them come new ones, none of which
-- was there or comes twice; and every path that is to be imported from is there: the root, if it
-- was asked for, each of the imports, the repositories or the workspace, and the coverage tool's.
pub setup_sys_path-IsExtended :
    (fs : Files) (t : Template) (path_var : Text) (environ : Environ) (root : Text)
    (sys_path : List Text)
    → IsExtended sys_path
        (root_paths fs t path_var environ root
          ++ (import_paths fs t path_var environ root
              ++ (repo_paths fs t path_var environ root
                  ++ coverage_dirs (coverage_tool fs t path_var environ root))))
        (setup_sys_path fs t path_var environ root sys_path).0
unfolding setup_sys_path
setup_sys_path-IsExtended fs t path_var environ root sys_path = add_paths-IsExtended _ sys_path
