-- ===== src/Bootstrap/ZipMain.antt =====
-- `main` of python/private/zipapp/zip_main_template.py, behind the extraction.
pub mod Environment
use rules_python.Base.{
  nat_eq, text_eq, Bool, true, false, not, Option, none, some, List, [], ◌∷◌, ◌++◌, Text, ◌==◌,
  codes, contains, if◌then◌else◌, is_empty, raise_if, Result, ok, err, assertion_error, type_error,
  Error, ◌>>=◌, ◌>>◌,
}
use rules_python.Base.Dict.{Dict, keys, get_or, put, pop}
use rules_python.Text.{starts_with, includes, strip}
use rules_python.Posix.{posix_join, dirname, normpath}
use rules_python.Bootstrap.{Files, Environ, variable}
use rules_python.Bootstrap.SiteInit.{search_path}

-- The texts that the rules put into the script.
pub record Template : Type 0 where
  pub stage2_bootstrap : Text
  pub python_binary_venv : Text
  pub python_binary_actual : Text
  pub workspace_name : Text
  pub extract_dir : Text
  pub app_hash : Text

-- What is done before the program runs: a link to the interpreter, a `pyvenv.cfg`.
pub record Setup : Type 0 where
  pub python_program : Text
  pub symlink : Option (Text × Text)
  pub pyvenv_cfg : Option (Text × Text)

-- The call of the interpreter, and the directory that is removed when it ends.
pub record Call : Type 0 where
  pub setup : Setup
  pub argv : List Text
  pub env : Environ
  pub cwd : Option Text
  pub removed : Option Text

abbrev pub found_or : Error → Option Text → Result Text
found_or e none = err e
found_or e (some path) = ok path

abbrev pub add_inherited : Environ → Environ → Environ
add_inherited [] env = env
add_inherited ((key, value) ∷ rest) env =
    add_inherited rest (if contains (keys env) key then env else put key value env)

abbrev pub launcher : Text
launcher = codes "__PYVENV_LAUNCHER__"

-- The environment of the program.
unfoldable pub new_env : Text → Environ → Environ
new_env runfiles_root environ =
    add_inherited (pop launcher environ)
      ((codes "RUNFILES_DIR", runfiles_root) ∷ (codes "PYTHONSAFEPATH", codes "1") ∷ [])

module _ (fs : Files) (t : Template) (path_var extract_root_var : Text) where
  -- `extract_root` of `create_runfiles_root`; `temp` is what `mkdtemp` makes.
  abbrev pub extract_root : Text → Text
  extract_root temp =
      if is_empty extract_root_var
      then temp
      else strip (posix_join (posix_join extract_root_var t.extract_dir) t.app_hash)

  -- The empty text is None.
  unfoldable pub find_binary : Text → Text → Result (Option Text)
  find_binary runfiles_root bin_name =
      if is_empty bin_name
      then ok none
      else if starts_with bin_name (codes "//")
      then err assertion_error
      else if starts_with bin_name (codes "/")
      then ok (some bin_name)
      else if includes (normpath bin_name) (codes "/")
      then ok (some (posix_join runfiles_root bin_name))
      else ok (search_path fs path_var bin_name)

  abbrev pub make_symlink : Text → Text → Result (Option (Text × Text))
  make_symlink runfiles_root python_program = if fs.exists python_program then ok none else (do
    raise_if (not (starts_with python_program runfiles_root)) assertion_error
    found ← find_binary runfiles_root t.python_binary_actual
    target ← found_or type_error found
    ok (some (target, python_program)))

  -- The second text is what is written to the first.
  abbrev pub make_pyvenv_cfg : Text → Text → Option (Text × Text)
  make_pyvenv_cfg runfiles_root python_program =
      let pyvenv_cfg = posix_join (dirname (dirname python_program)) (codes "pyvenv.cfg") in
      if fs.exists pyvenv_cfg
      then none
      else some (
        pyvenv_cfg,
        codes "home = " ++ (posix_join runfiles_root (dirname t.python_binary_actual) ++ (10 ∷ [])),
      )

  abbrev pub finish_venv_setup : Text → Result Setup
  finish_venv_setup runfiles_root = do
    let python_program = posix_join runfiles_root t.python_binary_venv
    symlink ← make_symlink runfiles_root python_program
    ok (record {
      python_program = python_program;
      symlink = symlink;
      pyvenv_cfg = make_pyvenv_cfg runfiles_root python_program;
    })

  abbrev pub find_program : Text → Result Setup
  find_program runfiles_root =
      if is_empty t.python_binary_venv
      then (do
        found ← find_binary runfiles_root t.python_binary_actual
        python_program ← found_or assertion_error found
        ok (record { python_program = python_program; symlink = none; pyvenv_cfg = none }))
      else finish_venv_setup runfiles_root

  -- `main_filename`, stripped by `get_windows_path_with_unc_prefix`.
  abbrev pub stage2_file : Text → Text
  stage2_file runfiles_root = strip (posix_join runfiles_root t.stage2_bootstrap)

  abbrev pub zip_dir_option : Text → List Text
  zip_dir_option runfiles_root =
      if is_empty extract_root_var
      then (codes "-XRULES_PYTHON_ZIP_DIR=" ++ dirname runfiles_root) ∷ []
      else []

  abbrev pub workspace_of : Text → Environ → Option Text
  workspace_of runfiles_root environ =
      if variable (codes "RUN_UNDER_RUNFILES") environ == codes "1"
      then some (posix_join runfiles_root t.workspace_name)
      else none

  -- `execute_file`
  abbrev pub execute_file : Setup → Text → List Text → Environ → Call
  execute_file setup runfiles_root args environ = record {
    setup = setup;
    argv =
        setup.python_program ∷ (zip_dir_option runfiles_root ++ (stage2_file runfiles_root ∷ args));
    env = new_env runfiles_root environ;
    cwd = workspace_of runfiles_root environ;
    removed = if is_empty extract_root_var then some (dirname runfiles_root) else none;
  }

  -- `main` behind `create_runfiles_root`.
  unfoldable pub run_main : Text → List Text → Environ → Result Call
  run_main runfiles_root args environ = do
    raise_if (not (fs.exists (stage2_file runfiles_root))) assertion_error
    raise_if (not (fs.can_read (stage2_file runfiles_root))) assertion_error
    setup ← find_program runfiles_root
    ok (execute_file setup runfiles_root args environ)

  unfoldable pub main : Text → List Text → Environ → Result Call
  main temp args environ = run_main (posix_join (extract_root temp) (codes "runfiles")) args environ
