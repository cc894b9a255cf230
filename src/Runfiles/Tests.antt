-- ===== src/Runfiles/Tests.antt =====
-- Runs of the code of python/runfiles/runfiles.py on concrete inputs.
mod Files
use rules_python.Base.{
  length, take, true, diverged, nat_eq, text_eq, pair_eq, ℕ, ◌≡◌, refl, ◌≢◌, inr, false, Option,
  none, some, List, [], ◌∷◌, ◌++◌, Text, codes, ok, err, value_error, arith, Lacks, if◌then◌else◌,
  ◌==◌, text_dec, pair_dec, ℕ_discrete, Lacks-contains,
}
use rules_python.Base.Dict.{get}
use rules_python.Text.{IsOneLine, split, starts_with, ends_with, includes}
use rules_python.Runfiles.Mapping.{
  group, first_prefix, init, lookup, create_from_file, add_lines, no_tables, from_tables,
}
use rules_python.Runfiles.Mapping.Scan.{lookup-init, scan}
use rules_python.Runfiles.Mapping.Lines.{
  Mapping, IsMapping, IsField, print_mappings, tables_of, create_from_file-print,
  add_lines-malformed,
}
use rules_python.Runfiles.Strategy.{
  runfiles_dir, directory_based, rlocation_checked, directory_strategy, env_vars,
}
use rules_python.Posix.{posix_join}
use rules_python.Posix.Absolute.{IsName}
use rules_python.Runfiles.Caller.{Interpreter}
use rules_python.Runfiles.Caller.{current_repository}
use rules_python.Runfiles.Caller.Repository.{current_repository-absolute}
use rules_python.Runfiles.Location.{Runfiles, rlocation, is_unnormalized, runfiles_init, create}
use rules_python.Runfiles.Location.Environment.{create-env_vars, manifest_runfiles_dir-append}
use rules_python.Runfiles.Manifest.{
  ManifestBased, manifest_rlocation, prefix_loop, load_runfiles, entry, manifest_runfiles_dir,
}
use rules_python.Runfiles.Manifest.Search.{
  manifest_rlocation-longest, prefix_loop-diverges, longest,
}
use rules_python.Runfiles.Manifest.Escapes.{
  Entry, plain, escaped, print_entries, dict_of, load_runfiles-print,
}
use rules_python.Runfiles.Location.Resolve.{
  IsLookedUp, IsCanonical, SafeTargets, Settles, rlocation-mapping, rlocation_of_root_symlink,
  rlocation-Settles, current_repository-Settles,
}

abbrev python : Interpreter
python = record {
  minor = 12;
  is_win32 = false;
  sys_path0 = codes "/out/app.runfiles/_main";
  cwd = codes "/out";
  caller = some (codes "/out/app.runfiles/rules_cc+/tools/cc.py");
}

abbrev runfiles : Runfiles
runfiles = record {
  strategy = directory_based (codes "/out/app.runfiles");
  root = codes "/out/app.runfiles";
  mapping = init (((codes "rules_cc+", codes "data"), codes "data+1") ∷ []) [];
}

path-IsLookedUp : IsLookedUp (codes "data/x")
unfolding is_unnormalized starts_with ends_with includes text_dec ℕ_discrete
path-IsLookedUp = record {
  normalized = refl;
  no_backslash = refl;
  relative = refl;
  not_empty = λ e. cc e;
}

data-Lacks : Lacks b'/' (codes "data")
unfolding ℕ_discrete
data-Lacks = Lacks-contains b'/' (codes "data") refl

rlocation-mapping_example :
    rlocation python runfiles (codes "data/x") (some (codes "rules_cc+"))
    ≡ ok (some (codes "/out/app.runfiles/data+1/x"))
unfolding rlocation lookup rlocation_checked posix_join starts_with get init pair_dec text_dec
    ends_with ℕ_discrete
rlocation-mapping_example =
    rlocation-mapping python runfiles (codes "rules_cc+") (codes "data") b'x' [] data-Lacks
      path-IsLookedUp

name-IsLookedUp : IsLookedUp (codes "data")
unfolding is_unnormalized starts_with ends_with includes text_dec ℕ_discrete
name-IsLookedUp = record {
  normalized = refl;
  no_backslash = refl;
  relative = refl;
  not_empty = λ e. cc e;
}

data-IsCanonical : IsCanonical (codes "data+1")
unfolding starts_with ends_with includes text_dec ℕ_discrete
data-IsCanonical = record {
  not_empty = λ e. cc e;
  no_double = refl;
  no_slash_first = refl;
  no_slash_last = refl;
}

runfiles-SafeTargets : SafeTargets runfiles
unfolding lookup init get first_prefix group
runfiles-SafeTargets none app target h = absurd (ground arith)
runfiles-SafeTargets (some source) app target h =
    let same : target ≡ codes "data+1" = ground arith in rw same data-IsCanonical

rlocation-Settles_example : Settles (rlocation python runfiles (codes "data/x") none)
rlocation-Settles_example =
    rlocation-Settles python runfiles (codes "data/x") none runfiles-SafeTargets

current_repository-Settles_example : Settles (current_repository python (codes "/out/app.runfiles"))
current_repository-Settles_example = current_repository-Settles python (codes "/out/app.runfiles")

abbrev name : (s : Text) → Lacks b'/' s → s ≢ [] → s ≢ codes "." → s ≢ codes ".." → IsName s
name s h e d dd = record { no_slash = h; not_empty = e; not_dot = d; not_dots = dd }

runfiles-IsName : IsName (codes "r")
runfiles-IsName =
    name _ (ground arith) (λ e. cc e) (λ e. ground (arith, e)) (λ e. ground (arith, e))

repo-IsName : IsName (codes "m+")
repo-IsName = name _ (ground arith) (λ e. cc e) (λ e. ground (arith, e)) (λ e. ground (arith, e))

file-IsName : IsName (codes "t.py")
file-IsName = name _ (ground arith) (λ e. cc e) (λ e. ground (arith, e)) (λ e. ground (arith, e))

abbrev no_file : Text → Option Text
no_file path = none

directory_made : directory_strategy (codes "/r") ≡ ok (directory_based (codes "/r"))
unfolding directory_strategy
directory_made = refl

directory_runfiles :
    runfiles_init no_file (directory_based (codes "/r"))
    ≡ ok (record {
      strategy = directory_based (codes "/r");
      root = codes "/r";
      mapping = init [] [];
    })
unfolding runfiles_init rlocation_checked create_from_file runfiles_dir posix_join starts_with
    ends_with text_dec
directory_runfiles = refl

create-env_vars_example :
    create no_file (env_vars (directory_based (codes "/r")))
    ≡ ok (
        some (record {
          strategy = directory_based (codes "/r");
          root = codes "/r";
          mapping = init [] [];
        }))
create-env_vars_example =
    create-env_vars no_file (codes "/r") (directory_based (codes "/r")) _ (inr directory_made)
      directory_runfiles
