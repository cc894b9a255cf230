-- ===== src/Runfiles/Strategy.antt =====
-- The two strategies of python/runfiles/runfiles.py.
use rules_python.Base.{
  nat_eq, text_eq, pair_eq, Option, some, [], ◌∷◌, Text, codes, is_empty, if◌then◌else◌, Result, ok,
  err, value_error, ◌>>=◌,
}
use rules_python.Base.Dict.{Dict}
use rules_python.Posix.{posix_join}
use rules_python.Runfiles.Manifest.{
  ManifestBased, manifest_init, manifest_rlocation, manifest_runfiles_dir, manifest_env_vars,
}

-- `_DirectoryBased` keeps its `_runfiles_root` alone.
pub data Strategy : Type 0 where
  manifest_based : ManifestBased → Strategy
  directory_based : Text → Strategy

-- The constructors of the two classes.
unfoldable pub manifest_strategy : (Text → Option Text) → Text → Result Strategy
manifest_strategy read path = do m ← manifest_init read path; ok (manifest_based m)

unfoldable pub directory_strategy : Text → Result Strategy
directory_strategy path = if is_empty path then err value_error else ok (directory_based path)

unfoldable pub rlocation_checked : Strategy → Text → Result (Option Text)
rlocation_checked (manifest_based m) path = manifest_rlocation m path
rlocation_checked (directory_based root) path = ok (some (posix_join root path))

unfoldable pub runfiles_dir : Strategy → Text
runfiles_dir (manifest_based m) = manifest_runfiles_dir m
runfiles_dir (directory_based root) = root

unfoldable pub env_vars : Strategy → Dict Text Text
env_vars (manifest_based m) = manifest_env_vars m
env_vars (directory_based root) = (codes "RUNFILES_DIR", root) ∷ (codes "JAVA_RUNFILES", root) ∷ []
