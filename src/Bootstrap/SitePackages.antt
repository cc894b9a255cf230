-- ===== src/Bootstrap/SitePackages.antt =====
-- `_add_site_packages` of python/private/stage2_bootstrap_template.py.
pub mod First
use rules_python.Base.{
  ℕ, zero, suc, Bool, true, false, ◌&&◌, ◌||◌, Option, none, some, List, [], ◌∷◌, ◌++◌, Text, not,
  if◌then◌else◌, codes, take, drop, ◌==◌, text_eq,
}
use rules_python.Text.{starts_with, ends_with}

-- `is_venv_path`
abbrev pub is_venv_path : Text → Text → Bool
is_venv_path venv_root p = starts_with (p ++ (b'/' ∷ [])) venv_root

abbrev pub sees_site_packages : Option Text → Bool → Text → Bool
sees_site_packages none saw p = saw
sees_site_packages (some venv_root) saw p =
    if is_venv_path venv_root p && ends_with p (codes "site-packages") then true else saw

abbrev pub is_after_site_packages : Option Text → Bool → Text → Bool
is_after_site_packages none saw p = true
is_after_site_packages (some venv_root) saw p = if is_venv_path venv_root p then false else saw

-- The loop over `sys.path`, and the index that it leaves.
unfoldable pub first_global_offset : Option Text → Bool → List Text → ℕ
first_global_offset venv_root saw [] = 0
first_global_offset venv_root saw (p ∷ ps) =
    let next = first_global_offset venv_root (sees_site_packages venv_root saw p) ps in
    if ends_with p (codes "-packages") && is_after_site_packages venv_root saw p
    then 0
    else suc next

-- `sys.prefix + os.sep` in a venv.
abbrev pub venv_root_of : Text → Text → Option Text
venv_root_of prefix base_prefix =
    if prefix == base_prefix then none else some (prefix ++ (b'/' ∷ []))

abbrev pub is_none : Option Text → Bool
is_none none = true
is_none (some root) = false

-- `added` is what `site.addsitedir` appends to `sys.path`.
unfoldable pub add_site_packages : Text → Text → List Text → List Text → List Text
add_site_packages prefix base_prefix sys_path added =
    let venv_root = venv_root_of prefix base_prefix in
    let offset = first_global_offset venv_root (is_none venv_root) sys_path in
    take offset sys_path ++ (added ++ drop offset sys_path)
