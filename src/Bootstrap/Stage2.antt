-- ===== src/Bootstrap/Stage2.antt =====
-- `main` of python/private/stage2_bootstrap_template.py, up to the start of the program.
pub mod Started
use rules_python.Base.{
  text_eq, ℕ, Bool, true, false, not, ◌&&◌, ◌||◌, List, [], ◌∷◌, ◌++◌, Text, codes, contains,
  if◌then◌else◌, is_empty, raise_if, Result, ok, err, assertion_error, ◌>>=◌, ◌>>◌,
}
use rules_python.Text.{strip}
use rules_python.Posix.{posix_join, dirname}
use rules_python.Bootstrap.{Files, Environ, variable}
use rules_python.Bootstrap.Root.{find_runfiles_root}
use rules_python.Bootstrap.Envvar.{set_envvar}
use rules_python.Bootstrap.SitePackages.{add_site_packages}

-- The texts that the rules put into the script.
pub record Template : Type 0 where
  pub main_path : Text
  pub main_module : Text
  pub venv_root : Text
  pub venv_site_packages : Text

-- What the interpreter says of itself; `safe_path` is that or `isolated` of `sys.flags`, and
-- `addsitedir` is what `site.addsitedir` appends to `sys.path`.
pub record Interpreter : Type 0 where
  pub prefix : Text
  pub base_prefix : Text
  pub cwd : Text
  pub safe_path : Bool
  pub addsitedir : Text → List Text → List Text

pub record Process : Type 0 where
  pub argv : List Text
  pub environ : Environ
  pub sys_path : List Text

-- What `runpy` runs: a file or, with the empty text, the main module.
pub record Launch : Type 0 where
  pub main_filename : Text
  pub process : Process
  pub runfiles_root : Text

abbrev pub tail : List Text → List Text
tail [] = []
tail (a ∷ l) = l

abbrev pub script_name : List Text → Text
script_name [] = []
script_name (a ∷ l) = a

-- The directory of this script is removed from `sys.path`.
abbrev pub without_script_dir : Bool → List Text → List Text
without_script_dir safe_path sys_path = if safe_path then sys_path else tail sys_path

abbrev pub with_site_packages : Files → Interpreter → Text → List Text → List Text
with_site_packages fs i site_packages sys_path =
    if not (contains sys_path site_packages) && fs.exists site_packages
    then add_site_packages i.prefix i.base_prefix sys_path (i.addsitedir site_packages sys_path)
    else sys_path

abbrev pub prepend_path_entries : Bool → Text → Text → List Text
prepend_path_entries safe_path runfiles_root main_rel_path =
    if safe_path then [] else posix_join runfiles_root (dirname main_rel_path) ∷ []

module _ (fs : Files) (t : Template) (i : Interpreter) where
  abbrev pub site_packages_of : Text → Text
  site_packages_of runfiles_root =
      posix_join (posix_join runfiles_root t.venv_root) t.venv_site_packages

  -- `main_filename` is stripped by `get_windows_path_with_unc_prefix`.
  abbrev pub main_file : Text → Text
  main_file runfiles_root = strip (posix_join runfiles_root t.main_path)

  abbrev pub launch_path : Text → Process → Result Launch
  launch_path runfiles_root p = do
    raise_if (not (fs.exists (main_file runfiles_root))) assertion_error
    raise_if (not (fs.can_read (main_file runfiles_root))) assertion_error
    ok (record {
      main_filename = main_file runfiles_root;
      process = record p {
        argv = main_file runfiles_root ∷ tail p.argv;
        sys_path = prepend_path_entries i.safe_path runfiles_root t.main_path ++ p.sys_path;
      };
      runfiles_root = runfiles_root;
    })

  abbrev pub launch : Text → Process → Result Launch
  launch runfiles_root p =
      if is_empty t.main_path
      then ok (record { main_filename = []; process = p; runfiles_root = runfiles_root })
      else launch_path runfiles_root p

  -- What follows the search for the runfiles.
  abbrev pub launch_from : Process → Environ → Text → Result Launch
  launch_from p environ runfiles_root = launch runfiles_root (record {
    argv = p.argv;
    environ = set_envvar fs runfiles_root environ;
    sys_path =
        with_site_packages fs i (site_packages_of runfiles_root)
          (without_script_dir i.safe_path p.sys_path);
  })

  abbrev pub launch_found : Process → Result Text × Environ → Result Launch
  launch_found p (root, environ) = root >>= launch_from p environ

  unfoldable pub main : ℕ → Process → Result Launch
  main fuel p =
      launch_found p (find_runfiles_root fs fuel i.cwd (script_name p.argv) t.main_path p.environ)
