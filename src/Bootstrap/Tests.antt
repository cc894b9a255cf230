-- ===== src/Bootstrap/Tests.antt =====
-- Runs of the scripts that start a Python binary on concrete inputs.
use rules_python.Base.{
  nat_eq, text_eq, ℕ, true, false, List, [], ◌∷◌, ◌++◌, Text, codes, ok, ◌≡◌, ◌≢◌, refl, take, drop,
  ℕ_discrete, text_dec,
}
use rules_python.Base.Dict.{get, put, pop}
use rules_python.Text.{
  cut_last, ends_with, starts_with, split, join, strip, strip_by, lstrip_by, rstrip_by, includes,
}
use rules_python.Posix.{posix_join, normpath, norm_parts, leading, dirname}
use rules_python.Bootstrap.{Files, Environ}
use rules_python.Bootstrap.Root.{find_runfiles_root, search_root, runfiles_part, named_dir}
use rules_python.Bootstrap.Envvar.{runfiles_envvar, set_envvar}
use rules_python.Bootstrap.SitePackages.{add_site_packages, first_global_offset, venv_root_of}
use rules_python.Bootstrap.SitePackages.First.{IsSplit, add_site_packages-IsSplit}
use rules_python.Bootstrap.Stage2.{Template, Interpreter, Process, Launch, main}
use rules_python.Bootstrap.Stage2.Started.{RunfilesAt, HasMain, main-HasMain}
use rules_python.Bootstrap.SiteInit
use rules_python.Bootstrap.SiteInit.Extended.{IsExtended, setup_sys_path-IsExtended}
use rules_python.Bootstrap.ZipMain.{new_env}
use rules_python.Bootstrap.ZipMain.Environment.{passed, find_runfiles_root-new_env}

abbrev files : Files
files = record {
  exists = λ p. true;
  is_dir = λ p. true;
  is_file = λ p. true;
  is_link = λ p. false;
  can_read = λ p. true;
  can_execute = λ p. true;
  readlink = λ p. p;
  listdir = λ p. [];
}

abbrev template : Template
template = record {
  main_path = codes "_main/app.py";
  main_module = [];
  venv_root = codes "_main/_app.venv";
  venv_site_packages = codes "lib/site-packages";
}

abbrev interpreter : Interpreter
interpreter = record {
  prefix = codes "/usr";
  base_prefix = codes "/usr";
  cwd = codes "/w";
  safe_path = false;
  addsitedir = λ dir sys_path. dir ∷ [];
}

abbrev process : Process
process = record {
  argv = codes "app" ∷ codes "-v" ∷ [];
  environ = (codes "HOME", codes "/h") ∷ [];
  sys_path = codes "/w" ∷ codes "/usr/lib" ∷ codes "/usr/lib/dist-packages" ∷ [];
}

abbrev launch : Launch
launch = record {
  main_filename = codes "/w/app.runfiles/_main/app.py";
  process = record {
    argv = codes "/w/app.runfiles/_main/app.py" ∷ codes "-v" ∷ [];
    environ =
        (codes "HOME", codes "/h")
        ∷ (codes "RUNFILES_MANIFEST_FILE", codes "/w/app.runfiles_manifest")
        ∷ [];
    sys_path =
        codes "/w/app.runfiles/_main"
        ∷ codes "/usr/lib"
        ∷ codes "/w/app.runfiles/_main/_app.venv/lib/site-packages"
        ∷ codes "/usr/lib/dist-packages"
        ∷ [];
  };
  runfiles_root = codes "/w/app.runfiles";
}

launched : main files template interpreter 1 process ≡ ok launch
unfolding main find_runfiles_root search_root runfiles_part named_dir runfiles_envvar set_envvar
    add_site_packages first_global_offset posix_join dirname cut_last starts_with ends_with strip
    strip_by lstrip_by rstrip_by get put pop ℕ_discrete text_dec
launched = refl

main-HasMain_example :
    RunfilesAt files template interpreter process.environ launch.runfiles_root
      launch.process.environ
    × HasMain files template interpreter launch
main-HasMain_example = main-HasMain files template interpreter 0 process launch refl launched

abbrev venv_path : List Text
venv_path =
    codes "/usr/lib"
    ∷ codes "/usr/site-packages"
    ∷ codes "/v/lib/site-packages"
    ∷ codes "/usr/lib/dist-packages"
    ∷ []

add_site_packages-IsSplit_example :
    (offset : ℕ) × (add_site_packages
        (codes "/v")
        (codes "/usr")
        venv_path
        (codes "/r/site-packages" ∷ [])
      ≡ take offset venv_path ++ ((codes "/r/site-packages" ∷ []) ++ drop offset venv_path))
    × IsSplit (venv_root_of (codes "/v") (codes "/usr")) [] venv_path offset
add_site_packages-IsSplit_example =
    add_site_packages-IsSplit (codes "/v") (codes "/usr") venv_path (codes "/r/site-packages" ∷ [])

behind_venv :
    add_site_packages (codes "/v") (codes "/usr") venv_path (codes "/r/site-packages" ∷ [])
    ≡ codes "/usr/lib"
      ∷ codes "/usr/site-packages"
      ∷ codes "/v/lib/site-packages"
      ∷ codes "/r/site-packages"
      ∷ codes "/usr/lib/dist-packages"
      ∷ []
unfolding add_site_packages first_global_offset starts_with ends_with ℕ_discrete text_dec
behind_venv = refl

abbrev site_template : SiteInit.Template
site_template = record {
  imports_str = codes "a:b";
  import_all = false;
  workspace_name = codes "_main";
  self_runfiles_relative_path = codes "_main/site_init.py";
  coverage_tool = codes "cov/coverage/coverage_main.py";
  add_runfiles_root = true;
}

abbrev covered : Environ
covered = (codes "COVERAGE_DIR", codes "/c") ∷ []

setup_sys_path-IsExtended_example :
    IsExtended
      (codes "/usr/lib" ∷ codes "/r/b" ∷ [])
      (SiteInit.root_paths files site_template (codes "/bin") covered (codes "/r")
        ++ (SiteInit.import_paths files site_template (codes "/bin") covered (codes "/r")
            ++ (SiteInit.repo_paths files site_template (codes "/bin") covered (codes "/r")
                ++ SiteInit.coverage_dirs (
                    SiteInit.coverage_tool files site_template
                      (codes "/bin")
                      covered
                      (codes "/r")))))
      (SiteInit.setup_sys_path files site_template
        (codes "/bin")
        covered
        (codes "/r")
        (codes "/usr/lib" ∷ codes "/r/b" ∷ [])).0
setup_sys_path-IsExtended_example =
    setup_sys_path-IsExtended files site_template (codes "/bin") covered (codes "/r")
      (codes "/usr/lib" ∷ codes "/r/b" ∷ [])

sys_path_set :
    SiteInit.setup_sys_path files site_template
      (codes "/bin")
      covered
      (codes "/r")
      (codes "/usr/lib" ∷ codes "/r/b" ∷ [])
    ≡ (
      codes "/usr/lib"
          ∷ codes "/r/b"
          ∷ codes "/r"
          ∷ codes "/r/a"
          ∷ codes "/r/_main"
          ∷ codes "/r/cov"
          ∷ [],
      true,
    )
unfolding SiteInit.setup_sys_path SiteInit.add_paths SiteInit.search_path posix_join normpath
    norm_parts leading split join includes dirname cut_last starts_with ends_with rstrip_by get
    ℕ_discrete text_dec
sys_path_set = refl

extracted-ne-nil : codes "/t/runfiles" ≢ []
extracted-ne-nil h = cc

find_runfiles_root-new_env_example :
    ((key : Text)
      → get key (new_env (codes "/t/runfiles") covered) ≡ passed (codes "/t/runfiles") key covered)
    × (find_runfiles_root files 1
          (codes "/w")
          (codes "x")
          (codes "_main/app.py")
          (new_env (codes "/t/runfiles") covered)
        ≡ (ok (codes "/t/runfiles"), new_env (codes "/t/runfiles") covered))
find_runfiles_root-new_env_example =
    find_runfiles_root-new_env files 1 (codes "/w") (codes "x") (codes "_main/app.py")
      (codes "/t/runfiles") covered extracted-ne-nil refl
