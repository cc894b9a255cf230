-- ===== src/Bootstrap.antt =====
-- The scripts that start a Python binary: what they share. The scripts are
-- python/private/stage2_bootstrap_template.py, site_init_template.py and
-- zipapp/zip_main_template.py; the texts that the rules put into them are arguments.
pub mod Root
pub mod Envvar
pub mod SitePackages
pub mod Stage2
pub mod Extract
pub mod SiteInit
pub mod ZipMain
mod Tests
use rules_python.Base.{text_eq, ℕ, ◌-◌, Bool, List, [], ◌∷◌, Text, codes, length, take}
use rules_python.Base.Dict.{Dict, get_or}

-- What `os` and `os.path` say of the files. `can_execute` is `os.access(path, os.X_OK)`.
pub record Files : Type 0 where
  pub exists : Text → Bool
  pub is_dir : Text → Bool
  pub is_file : Text → Bool
  pub is_link : Text → Bool
  pub can_read : Text → Bool
  pub can_execute : Text → Bool
  pub readlink : Text → Text
  pub listdir : Text → List Text

abbrev pub Environ : Type 0
Environ = Dict Text Text

-- `os.environ.get(key)`, where a variable that is not set and an empty one are the same.
abbrev pub variable : Text → Environ → Text
variable key environ = get_or key environ []

-- `t[:-n]`
abbrev pub drop_end : ℕ → Text → Text
drop_end n t = take (length t - n) t

-- `sys.flags`: the first entry of `sys.path` is not the script's directory.
abbrev pub no_entries : List Text → Bool
no_entries [] = Bool.true
no_entries (p ∷ ps) = Bool.false
