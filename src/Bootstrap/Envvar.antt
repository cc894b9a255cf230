-- ===== src/Bootstrap/Envvar.antt =====
-- `runfiles_envvar` of python/private/stage2_bootstrap_template.py, and what `main` does with it.
pub mod Current
use rules_python.Base.{
  text_eq, Bool, ◌&&◌, Option, none, some, List, [], ◌∷◌, ◌++◌, Text, if◌then◌else◌, codes,
  is_empty,
}
use rules_python.Base.Dict.{Dict, put}
use rules_python.Text.{ends_with}
use rules_python.Posix.{posix_join}
use rules_python.Bootstrap.{Files, Environ, variable}

abbrev pub manifest_file : Text
manifest_file = codes "RUNFILES_MANIFEST_FILE"

abbrev pub runfiles_dir : Text
runfiles_dir = codes "RUNFILES_DIR"

-- What is beside the runfiles directory, where the environment names nothing.
abbrev pub beside : Files → Text → Option (Text × Text)
beside fs module_space =
    if fs.exists (module_space ++ codes "_manifest")
    then some (manifest_file, module_space ++ codes "_manifest")
    else if fs.exists (posix_join module_space (codes "MANIFEST"))
    then some (manifest_file, posix_join module_space (codes "MANIFEST"))
    else if ends_with module_space (codes ".runfiles") && fs.is_dir module_space
    then some (runfiles_dir, module_space)
    else none

-- `(None, None)` is `none`.
unfoldable pub runfiles_envvar : Files → Environ → Text → Option (Text × Text)
runfiles_envvar fs environ module_space =
    let manifest = variable manifest_file environ in
    let dir = variable runfiles_dir environ in
    if is_empty manifest
    then (if is_empty dir then beside fs module_space else some (runfiles_dir, dir))
    else some (manifest_file, manifest)

abbrev pub with_envvar : Option (Text × Text) → Environ → Environ
with_envvar none environ = environ
with_envvar (some (key, value)) environ = put key value environ

-- The environment in which the main file runs.
unfoldable pub set_envvar : Files → Text → Environ → Environ
set_envvar fs runfiles_root environ = with_envvar (runfiles_envvar fs environ runfiles_root) environ
