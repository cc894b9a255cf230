-- ===== src/Runfiles/Caller/Repository.antt =====
-- The repository of a file in the runfiles tree, by `CurrentRepository`.
use rules_python.Base.{
  nat_eq, text_eq, pair_eq, ℕ, ◌≡◌, refl, false, some, List, [], ◌∷◌, ◌++◌, Text, ◌==◌, codes,
  if◌then◌else◌, ok, arith, Lacks, All, length, take-append,
}
use rules_python.Text.{join, starts_with, find_char}
use rules_python.Posix.Absolute.{IsName, absolute, relpath-absolute}
use rules_python.Runfiles.Caller.{Interpreter, current_repository}

find_char-append : (c : ℕ) (a b : Text) → Lacks c a → find_char c (a ++ (c ∷ b)) ≡ some (length a)
unfolding find_char
find_char-append c [] b h = ground arith
find_char-append c (x ∷ a) b h = ground (arith, find_char-append c a b h.1)

join-cons :
    (p q : Text) (ps : List Text)
    → join (codes "/") (p ∷ q ∷ ps) ≡ p ++ (b'/' ∷ join (codes "/") (q ∷ ps))
unfolding join
join-cons p q ps = refl

not_up : (p s : Text) → IsName p → starts_with (p ++ (b'/' ∷ s)) (codes "../") ≡ false
unfolding starts_with
not_up [] s h = absurd (h.not_empty refl)
not_up (a ∷ []) s h = ground arith
not_up (a ∷ b ∷ []) s h = ground (arith, h.not_dots)
not_up (a ∷ b ∷ c ∷ p) s h = ground (arith, h.no_slash)

-- A source file under the runfiles root, at least one directory deep: whatever the interpreter,
-- its repository is the name of the first directory, and the empty text for `_main`.
pub current_repository-absolute :
    (py : Interpreter) (r : Text) (root : List Text) (repo file : Text) (rest : List Text)
    → All IsName (r ∷ root)
    → All IsName (repo ∷ file ∷ rest)
    → py.caller ≡ some (absolute (r ∷ root ++ repo ∷ file ∷ rest))
    → current_repository py (absolute (r ∷ root)) ≡ ok (if repo == codes "_main" then [] else repo)
unfolding current_repository
current_repository-absolute py r root repo file rest g h e = rw (
  e,
  relpath-absolute py.cwd r root repo (file ∷ rest) g h,
  join-cons,
  not_up repo (join (codes "/") (file ∷ rest)) h.0,
  find_char-append b'/' repo (join (codes "/") (file ∷ rest)) h.0.no_slash,
  take-append repo (b'/' ∷ join (codes "/") (file ∷ rest)),
)
