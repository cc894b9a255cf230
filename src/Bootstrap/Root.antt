-- ===== src/Bootstrap/Root.antt =====
-- `find_runfiles_root` of python/private/stage2_bootstrap_template.py.
pub mod Found
use rules_python.Base.{
  nat_eq, text_eq, ℕ, zero, suc, Bool, true, false, not, ◌&&◌, ◌||◌, Option, none, some, List, [],
  ◌∷◌, ◌++◌, Text, ◌==◌, if◌then◌else◌, codes, is_empty, Result, ok, err, assertion_error, diverged,
}
use rules_python.Base.Dict.{Dict, pop}
use rules_python.Text.{starts_with, ends_with}
use rules_python.Posix.{posix_join, dirname}
use rules_python.Bootstrap.{Files, Environ, variable, drop_end}

-- The directory of a manifest's name; the empty text stands for None.
abbrev pub manifest_dir : Text → Text
manifest_dir manifest =
    if ends_with manifest (codes ".runfiles_manifest")
      || ends_with manifest (codes ".runfiles/MANIFEST")
    then drop_end 9 manifest
    else []

-- The runfiles directory that the environment names.
unfoldable pub named_dir : Environ → Text
named_dir environ =
    let dir = variable (codes "RUNFILES_DIR") environ in
    if is_empty dir then manifest_dir (variable (codes "RUNFILES_MANIFEST_FILE") environ) else dir

-- The first group of a match of `(.*\.runfiles)/.*`; `.` is no line feed.
unfoldable pub runfiles_part : Text → Option Text
runfiles_part [] = none
runfiles_part (c ∷ s) =
    let rest = runfiles_part s in
    let here =
      if starts_with (c ∷ s) (codes ".runfiles/") then some (codes ".runfiles") else none in
    elim (if c == 10 then none else rest) [ none ↦ here | some part ↦ some (c ∷ part) ]

abbrev pub link_target : Files → Text → Text
link_target fs stub =
    let target = fs.readlink stub in
    if starts_with target (codes "/") then target else posix_join (dirname stub) target

-- The `while` loop. A round follows one link, and the fuel counts the rounds.
unfoldable pub search_root : Files → ℕ → Text → Result Text
search_root fs zero stub = err diverged
search_root fs (suc fuel) stub =
    let rest = search_root fs fuel (link_target fs stub) in
    if fs.is_dir (stub ++ codes ".runfiles")
    then ok (stub ++ codes ".runfiles")
    else elim (runfiles_part stub) [
      | some root ↦ ok root
      | none ↦ if fs.is_link stub then rest else err assertion_error
    ]

abbrev pub cleared : Environ → Environ
cleared environ = pop (codes "RUNFILES_MANIFEST_FILE") (pop (codes "RUNFILES_DIR") environ)

-- `cwd` is `os.getcwd()`, and `argv0` is `sys.argv[0]`. The environment is changed.
unfoldable pub find_runfiles_root : Files → ℕ → Text → Text → Text → Environ → Result Text × Environ
find_runfiles_root fs fuel cwd argv0 main_rel_path environ =
    let dir = named_dir environ in
    if not (is_empty dir) && fs.exists (posix_join dir main_rel_path) then (ok dir, environ) else (
      search_root fs fuel (if starts_with argv0 (codes "/") then argv0 else posix_join cwd argv0),
      cleared environ,
    )
