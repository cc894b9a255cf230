-- ===== src/Posix.antt =====
-- The functions of `posixpath` that the program calls. Platforms with other separators are left out.
pub mod Absolute
use rules_python.Base.{
  nat_eq, text_eq, Bool, true, false, not, ◌&&◌, ◌||◌, Option, none, some, List, [], ◌∷◌, ◌++◌,
  Text, ◌==◌, codes, is_empty, if◌then◌else◌, Result, ok, err, value_error, select, ℕ, take, length,
}
use rules_python.Text.{starts_with, ends_with, find_char, split, join, cut_last, rstrip_by}

-- `posixpath.join(a, b)`
unfoldable pub posix_join : Text → Text → Text
posix_join a b =
    if starts_with b (codes "/")
    then b
    else if is_empty a || ends_with a (codes "/")
    then a ++ b
    else a ++ (b'/' ∷ b)

abbrev pub last_is : Text → List Text → Bool
last_is t [] = false
last_is t (c ∷ []) = c == t
last_is t (c ∷ d ∷ l) = last_is t (d ∷ l)

abbrev pub drop_last_part : List Text → List Text
drop_last_part [] = []
drop_last_part (c ∷ []) = []
drop_last_part (c ∷ d ∷ l) = c ∷ drop_last_part (d ∷ l)

abbrev no_parts : List Text → Bool
no_parts [] = true
no_parts (c ∷ l) = false

-- One round of the loop of `posixpath.normpath`; `absolute` is `initial_slashes`.
abbrev pub norm_part : Bool → List Text → Text → List Text
norm_part absolute parts comp =
    if is_empty comp || comp == codes "."
    then parts
    else if not (comp == codes "..")
        || (not absolute && no_parts parts)
        || (not (no_parts parts) && last_is (codes "..") parts)
    then parts ++ (comp ∷ [])
    else drop_last_part parts

unfoldable pub norm_parts : Bool → List Text → List Text → List Text
norm_parts absolute parts [] = parts
norm_parts absolute parts (comp ∷ comps) = norm_parts absolute (norm_part absolute parts comp) comps

-- Two leading slashes stay, three or more are one.
unfoldable pub leading : Text → Text
leading path =
    if starts_with path (codes "//") && not (starts_with path (codes "///"))
    then codes "//"
    else if starts_with path (codes "/")
    then codes "/"
    else []

abbrev pub or_dot : Text → Text
or_dot s = if is_empty s then codes "." else s

-- `posixpath.normpath`
unfoldable pub normpath : Text → Text
normpath path =
    if is_empty path
    then codes "."
    else let parts = norm_parts (starts_with path (codes "/")) [] (split b'/' path) in
      or_dot (leading path ++ join (codes "/") parts)

-- `posixpath.abspath`; joining an absolute path to the working directory gives that path.
unfoldable pub abspath : Text → Text → Text
abspath cwd path = normpath (posix_join cwd path)

-- `[x for x in abspath(path).split("/") if x]`
unfoldable pub abs_parts : Text → Text → List Text
abs_parts cwd path = select (λ x. not (is_empty x)) (split b'/' (abspath cwd path))

abbrev pub climb : List Text → List Text → List Text
climb [] path = path
climb (s ∷ start) path = codes ".." ∷ climb start path

-- A `..` for each part of `start` after those that the two paths share, and the rest of `path`.
unfoldable pub relative : List Text → List Text → List Text
relative [] path = path
relative (s ∷ start) [] = climb (s ∷ start) []
relative (s ∷ start) (p ∷ path) =
    let rest = relative start path in if s == p then rest else climb (s ∷ start) (p ∷ path)

-- `posixpath.relpath`
unfoldable pub relpath : Text → Text → Text → Result Text
relpath cwd path start =
    if is_empty path
    then err value_error
    else ok (or_dot (join (codes "/") (relative (abs_parts cwd start) (abs_parts cwd path))))

abbrev pub is_slash : ℕ → Bool
is_slash c = c == b'/'

abbrev pub strip_slashes : Text → Text
strip_slashes head =
    let stripped = rstrip_by is_slash head in if is_empty stripped then head else stripped

abbrev pub head_of : Option (Text × Text) → Text
head_of none = []
head_of (some (a, b)) = strip_slashes (a ++ (b'/' ∷ []))

-- `posixpath.dirname`: what stands before the last slash; slashes alone are kept.
unfoldable pub dirname : Text → Text
dirname path = head_of (cut_last b'/' path)
