-- ===== src/Bootstrap/SiteInit.antt =====
-- `sys.path` and the coverage tool in python/private/site_init_template.py.
pub mod Extended
use rules_python.Base.{
  nat_eq, text_eq, ℕ, zero, suc, ◌+◌, Bool, true, false, not, ◌&&◌, Option, none, some, List, [],
  ◌∷◌, ◌++◌, Text, ◌==◌, codes, contains, if◌then◌else◌, is_empty, select, map, length,
}
use rules_python.Base.Order.{text_lt, sort_by}
use rules_python.Text.{starts_with, split, includes}
use rules_python.Posix.{posix_join, dirname, normpath}
use rules_python.Bootstrap.{Files, Environ, variable}
use rules_python.Bootstrap.Root.{named_dir}

-- The texts that the rules put into the script; the flags are compared already.
pub record Template : Type 0 where
  pub imports_str : Text
  pub import_all : Bool
  pub workspace_name : Text
  pub self_runfiles_relative_path : Text
  pub coverage_tool : Text
  pub add_runfiles_root : Bool

abbrev pub count_slashes : Text → ℕ
count_slashes s = length (select (λ c. c == b'/') s)

abbrev pub dirname_times : ℕ → Text → Text
dirname_times zero path = path
dirname_times (suc n) path = dirname_times n (dirname path)

-- `_find_runfiles_root`; `file` is `__file__`.
unfoldable pub find_site_root : Files → Template → Text → Environ → Text
find_site_root fs t file environ =
    let dir = named_dir environ in
    if not (is_empty dir) && fs.exists (posix_join dir t.self_runfiles_relative_path)
    then dir
    else dirname_times (count_slashes t.self_runfiles_relative_path + 1) (dirname file)

-- `_maybe_add_path`: `seen` is the set of the entries of `sys.path`.
abbrev pub maybe_add_path : List Text → Text → List Text
maybe_add_path sys_path path = if contains sys_path path then sys_path else sys_path ++ (path ∷ [])

unfoldable pub add_paths : List Text → List Text → List Text
add_paths sys_path [] = sys_path
add_paths sys_path (path ∷ paths) = add_paths (maybe_add_path sys_path path) paths

-- `_search_path`; `path_var` is the variable PATH, or `os.defpath`.
abbrev pub first_executable : Files → Text → List Text → Option Text
first_executable fs name [] = none
first_executable fs name (directory ∷ directories) =
    let rest = first_executable fs name directories in
    let path = posix_join directory name in
    if not (is_empty directory) && (fs.is_file path && fs.can_execute path) then some path else rest

unfoldable pub search_path : Files → Text → Text → Option Text
search_path fs path_var name = first_executable fs name (split b':' path_var)

abbrev pub tool_name : Template → Environ → Text
tool_name t environ =
    if is_empty t.coverage_tool then variable (codes "PYTHON_COVERAGE") environ else t.coverage_tool

abbrev pub find_tool : Files → Text → Text → Text → Option Text
find_tool fs path_var root tool =
    if is_empty tool
    then none
    else if starts_with tool (codes "/")
    then some tool
    else if includes (normpath tool) (codes "/")
    then some (posix_join root tool)
    else search_path fs path_var tool

abbrev pub coverage_dirs : Option Text → List Text
coverage_dirs none = []
coverage_dirs (some tool) = dirname (dirname tool) ∷ []

abbrev pub is_found : Option Text → Bool
is_found none = false
is_found (some tool) = true

module _ (fs : Files) (t : Template) (path_var : Text) (environ : Environ) (root : Text) where
  abbrev pub root_paths : List Text
  root_paths = if t.add_runfiles_root then root ∷ [] else []

  abbrev pub import_paths : List Text
  import_paths = map (posix_join root) (split b':' t.imports_str)

  abbrev pub repo_paths : List Text
  repo_paths =
      if t.import_all
      then select fs.is_dir (sort_by text_lt (map (posix_join root) (fs.listdir root)))
      else posix_join root t.workspace_name ∷ []

  abbrev pub coverage_tool : Option Text
  coverage_tool =
      if is_empty (variable (codes "COVERAGE_DIR") environ)
      then none
      else find_tool fs path_var root (tool_name t environ)

  -- The new `sys.path`, and `COVERAGE_SETUP`.
  unfoldable pub setup_sys_path : List Text → List Text × Bool
  setup_sys_path sys_path = (
    add_paths sys_path
        (root_paths ++ (import_paths ++ (repo_paths ++ coverage_dirs coverage_tool))),
    is_found coverage_tool,
  )
