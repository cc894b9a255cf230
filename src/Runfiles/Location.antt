-- ===== src/Runfiles/Location.antt =====
-- The class `Runfiles` of python/runfiles/runfiles.py: `Rlocation`, `Create` and the environment,
-- and the string of a runfiles `Path`.
pub mod Resolve
pub mod Environment
use rules_python.Base.{
  nat_eq, text_eq, pair_eq, Bool, ◌||◌, Option, none, some, [], ◌∷◌, ◌++◌, Text, ◌==◌, codes,
  is_empty, if◌then◌else◌, Result, ok, err, value_error, runtime_error, assertion_error, ◌>>=◌,
  ◌>>◌, raise_if,
}
use rules_python.Base.Dict.{Dict, get}
use rules_python.Text.{starts_with, ends_with, includes, partition, replace}
use rules_python.Runfiles.Mapping.{RepoMapping, create_from_file, lookup, mapping_is_empty}
use rules_python.Posix.{posix_join}
use rules_python.Runfiles.Strategy.{
  Strategy, manifest_strategy, directory_strategy, rlocation_checked, runfiles_dir,
}
use rules_python.Runfiles.Caller.{Interpreter, current_repository}
use rules_python.Runfiles.Manifest.{non_empty}

-- `_strategy`, `_python_runfiles_root` and `_repo_mapping`
pub record Runfiles : Type 0 where
  pub strategy : Strategy
  pub root : Text
  pub mapping : RepoMapping

unfoldable pub runfiles_init : (Text → Option Text) → Strategy → Result Runfiles
runfiles_init read strategy = do
  mapping_path ← rlocation_checked strategy (codes "_repo_mapping")
  m ← create_from_file read mapping_path
  ok (record { strategy = strategy; root = runfiles_dir strategy; mapping = m })

-- The test for a path that is not normalized.
unfoldable pub is_unnormalized : Text → Bool
is_unnormalized path =
    starts_with path (codes "../")
    || includes path (codes "/..")
    || starts_with path (codes "./")
    || includes path (codes "/./")
    || ends_with path (codes "/.")
    || includes path (codes "//")

-- The repository whose mapping is used: `source_repo`, or the caller's where a mapping exists.
unfoldable pub source_of : Interpreter → Runfiles → Option Text → Result (Option Text)
source_of py r (some repo) = ok (some repo)
source_of py r none =
    if mapping_is_empty r.mapping
    then ok none
    else do repo ← current_repository py r.root; ok (some repo)

-- The path whose first part is mapped, if it has a second part and a mapping.
abbrev pub mapped : Text → Text → Option Text → Text
mapped path remainder none = path
mapped path remainder (some target_canonical) =
    if is_empty remainder then path else target_canonical ++ (b'/' ∷ remainder)

-- The last part of `Rlocation`, for a path that is relative and normalized.
unfoldable pub rlocation_relative : Runfiles → Option Text → Text → Result (Option Text)
rlocation_relative r source path =
    let (target_repo, remainder) = partition b'/' path in
    rlocation_checked r.strategy (mapped path remainder (lookup r.mapping source target_repo))

abbrev pub resolve : Interpreter → Runfiles → Text → Option Text → Result (Option Text)
resolve py r path source_repo =
    if starts_with path (codes "/")
    then ok (some path)
    else do source ← source_of py r source_repo; rlocation_relative r source path

unfoldable pub rlocation : Interpreter → Runfiles → Text → Option Text → Result (Option Text)
rlocation py r path source_repo = do
  raise_if (is_empty path) value_error
  raise_if (is_unnormalized path) value_error
  raise_if (starts_with path (codes "\\")) value_error
  resolve py r path source_repo

-- `Create`: the manifest comes first, and empty variables count as unset.
abbrev pub start : (Text → Option Text) → Result Strategy → Result (Option Runfiles)
start read made = do strategy ← made; r ← runfiles_init read strategy; ok (some r)

unfoldable pub create : (Text → Option Text) → Dict Text Text → Result (Option Runfiles)
create read env = elim (non_empty (get (codes "RUNFILES_MANIFEST_FILE") env)) [
  | some manifest ↦ start read (manifest_strategy read manifest)
  | none ↦ elim (non_empty (get (codes "RUNFILES_DIR") env)) [
    | some directory ↦ start read (directory_strategy directory)
    | none ↦ ok none
  ]
]

abbrev pub or_raise : Option Runfiles → Result Runfiles
or_raise none = err runtime_error
or_raise (some r) = ok r

unfoldable pub create_or_raise : (Text → Option Text) → Dict Text Text → Result Runfiles
create_or_raise read env = do made ← create read env; or_raise made

-- A runfiles `Path`: the text that `pathlib` prints for it, and the two fields of the class.
pub record RunfilesPath : Type 0 where
  pub text : Text
  pub runfiles : Option Runfiles
  pub source_repo : Option Text

-- `root`
unfoldable pub root_path : Interpreter → Runfiles → Option Text → Result RunfilesPath
root_path py r source_repo = do
  source ← source_of py r source_repo
  ok (record { text = codes "."; runfiles = some r; source_repo = source })

-- `with_name`, `with_suffix`, `with_segments`, `parent`: `f` is the operation of `pathlib`.
unfoldable pub derive : (Text → Text) → RunfilesPath → RunfilesPath
derive f p = record p { text = f p.text }

unfoldable pub runfile_path : RunfilesPath → Text
runfile_path p =
    let path_posix = replace p.text (codes "\\") (codes "/") in
    if path_posix == codes "." then [] else path_posix

abbrev pub resolved_or_join : Text → Text → Option Text → Text
resolved_or_join root path_posix none = posix_join root path_posix
resolved_or_join root path_posix (some resolved) = resolved

abbrev pub string_in : Interpreter → Text → Option Text → Option Runfiles → Result Text
string_in py path_posix source none = err assertion_error
string_in py path_posix source (some r) =
    if is_empty path_posix || path_posix == codes "." then ok r.root else do
      resolved ← rlocation py r path_posix source
      ok (resolved_or_join r.root path_posix resolved)

-- `__str__`
unfoldable pub path_string : Interpreter → RunfilesPath → Result Text
path_string py p = string_in py (replace p.text (codes "\\") (codes "/")) p.source_repo p.runfiles
