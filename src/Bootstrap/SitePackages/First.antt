-- ===== src/Bootstrap/SitePackages/First.antt =====
-- Where python/private/stage2_bootstrap_template.py puts the site-packages of the binary.
use rules_python.Base.{
  ℕ, suc, ◌≤◌, Bool, true, false, ◌&&◌, Option, none, some, List, [], ◌∷◌, ◌++◌, Text, not,
  if◌then◌else◌, codes, take, drop, length, any, ◌≡◌, refl, ◌∙◌, ap, sym, subst, append-nil,
  append_assoc, arith,
}
use rules_python.Text.{ends_with}
use rules_python.Bootstrap.SitePackages.{
  is_venv_path, sees_site_packages, is_after_site_packages, first_global_offset, venv_root_of,
  is_none, add_site_packages,
}

-- A site-packages directory of the venv.
abbrev pub is_venv_site : Text → Text → Bool
is_venv_site venv_root p = is_venv_path venv_root p && ends_with p (codes "site-packages")

-- The entry `p` behind `before` is a directory of packages of the runtime: in a venv, one outside
-- of it, behind a site-packages directory of the venv.
abbrev pub is_global : Option Text → List Text → Text → Bool
is_global none before p = ends_with p (codes "-packages")
is_global (some venv_root) before p =
    ends_with p (codes "-packages")
    && (not (is_venv_path venv_root p) && any (is_venv_site venv_root) before)

-- No entry is one, behind those before it.
abbrev pub NoneGlobal : Option Text → List Text → List Text → Type 0
NoneGlobal venv before [] = Unit
NoneGlobal venv before (p ∷ ps) =
    (is_global venv before p ≡ false) × NoneGlobal venv (before ++ (p ∷ [])) ps

abbrev pub BeginsGlobal : Option Text → List Text → List Text → Type 0
BeginsGlobal venv before [] = Unit
BeginsGlobal venv before (p ∷ ps) = is_global venv before p ≡ true

-- What the loop has seen.
abbrev seen_in : Option Text → List Text → Bool
seen_in none before = true
seen_in (some venv_root) before = any (is_venv_site venv_root) before

any-append :
    (f : Text → Bool) (before : List Text) (p : Text)
    → any f (before ++ (p ∷ [])) ≡ (if f p then true else any f before)
any-append f [] p = ground arith
any-append f (q ∷ before) p = ground (arith, any-append f before p)

seen-step :
    (venv : Option Text) (before : List Text) (p : Text)
    → sees_site_packages venv (seen_in venv before) p ≡ seen_in venv (before ++ (p ∷ []))
seen-step none before p = refl
seen-step (some v) before p = ground (arith, any-append (is_venv_site v) before p)

test_global :
    (venv : Option Text) (before : List Text) (p : Text)
    → (ends_with p (codes "-packages") && is_after_site_packages venv (seen_in venv before) p)
      ≡ is_global venv before p
test_global none before p = ground arith
test_global (some v) before p = ground arith

pub record IsSplit (venv : Option Text) (before ps : List Text) (offset : ℕ) : Type 0 where
  pub within : offset ≤ length ps
  pub none_before : NoneGlobal venv before (take offset ps)
  pub begins : BeginsGlobal venv (before ++ take offset ps) (drop offset ps)

module _ (venv : Option Text) (before ps : List Text) (p : Text) where
  IsSplit-if :
      (b : Bool) (n : ℕ)
      → is_global venv before p ≡ b
      → IsSplit venv (before ++ (p ∷ [])) ps n
      → IsSplit venv before (p ∷ ps) (if b then 0 else suc n)
  IsSplit-if true n e h = record {
    within = omega arith;
    none_before = tt;
    begins = ap (λ l. is_global venv l p) (append-nil before) ∙ e;
  }
  IsSplit-if false n e h = record {
    within = omega (arith, h.within);
    none_before = (e, h.none_before);
    begins =
        subst (λ l. BeginsGlobal venv l (drop n ps)) (append_assoc before (p ∷ []) (take n ps))
          h.begins;
  }

first_global_offset-IsSplit :
    (venv : Option Text) (before ps : List Text)
    → IsSplit venv before ps (first_global_offset venv (seen_in venv before) ps)
unfolding first_global_offset
first_global_offset-IsSplit venv before [] = record {
  within = omega arith;
  none_before = tt;
  begins = tt;
}
first_global_offset-IsSplit venv before (p ∷ ps) =
    subst
      (λ b. IsSplit venv before (p ∷ ps) (
        if b
        then 0
        else suc (first_global_offset venv (sees_site_packages venv (seen_in venv before) p) ps)))
      (sym (test_global venv before p))
      (IsSplit-if venv before ps p (is_global venv before p)
        (first_global_offset venv (sees_site_packages venv (seen_in venv before) p) ps) refl
        (subst (λ saw. IsSplit venv (before ++ (p ∷ [])) ps (first_global_offset venv saw ps))
          (sym (seen-step venv before p))
          (first_global_offset-IsSplit venv (before ++ (p ∷ [])) ps)))

from_start :
    (venv : Option Text) (ps : List Text)
    → IsSplit venv [] ps (first_global_offset venv (is_none venv) ps)
from_start none ps = first_global_offset-IsSplit none [] ps
from_start (some v) ps = first_global_offset-IsSplit (some v) [] ps

-- What `site` adds is put in one piece before the first directory of packages of the runtime, or at
-- the end where there is none, and the other entries of `sys.path` keep their order. In a venv
-- the directories of the venv do not count, nor those before its own site-packages.
pub add_site_packages-IsSplit :
    (prefix base_prefix : Text) (sys_path added : List Text)
    → (offset : ℕ) × (add_site_packages prefix base_prefix sys_path added
        ≡ take offset sys_path ++ (added ++ drop offset sys_path))
      × IsSplit (venv_root_of prefix base_prefix) [] sys_path offset
unfolding add_site_packages
add_site_packages-IsSplit prefix base_prefix sys_path added = (
  first_global_offset (venv_root_of prefix base_prefix) (is_none (venv_root_of prefix base_prefix))
      sys_path,
  refl,
  from_start (venv_root_of prefix base_prefix) sys_path,
)
