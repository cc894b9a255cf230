-- ===== src/Runfiles/Caller.antt =====
-- `CurrentRepository` of python/runfiles/runfiles.py, and the functions of `posixpath` under it.
pub mod Repository
use rules_python.Base.{
  nat_eq, text_eq, pair_eq, ℕ, Bool, true, false, not, ◌&&◌, ◌||◌, Option, none, some, List, [],
  ◌∷◌, ◌++◌, Text, ◌==◌, codes, is_empty, if◌then◌else◌, leb, Result, ok, err, value_error, ◌>>=◌,
  take, select,
}
use rules_python.Text.{starts_with, find_char, split, join}
use rules_python.Runfiles.Mapping.{drop_last}
use rules_python.Posix.{relpath}

-- What the method reads of the interpreter. `caller` is `inspect.getfile(sys._getframe(frame))`,
-- and `none` where that raises a `TypeError` or a `ValueError`.
pub record Interpreter : Type 0 where
  pub minor : ℕ
  pub is_win32 : Bool
  pub sys_path0 : Text
  pub cwd : Text
  pub caller : Option Text

-- `caller_runfiles_path[: caller_runfiles_path.find(os.path.sep)]`, where a missing separator is -1.
abbrev pub first_directory : Text → Option ℕ → Text
first_directory rel none = drop_last rel
first_directory rel (some i) = take i rel

abbrev pub repository_of : Text → Text
repository_of directory = if directory == codes "_main" then [] else directory

abbrev pub repository_at : Interpreter → Text → Text → Result Text
repository_at py root rel =
    if starts_with rel (codes "../")
    then (if (leb py.minor 10 || py.is_win32) && not (py.sys_path0 == root)
        then ok []
        else err value_error)
    else ok (repository_of (first_directory rel (find_char b'/' rel)))

unfoldable pub current_repository : Interpreter → Text → Result Text
current_repository py root = elim (py.caller) [
  | none ↦ err value_error
  | some caller_path ↦ do rel ← relpath py.cwd caller_path root; repository_at py root rel
]
