-- ===== src/Wheel/Naming.antt =====
-- The names of packages and wheels in tools/wheelmaker.py.
pub mod Escaped
pub mod Package
pub mod FileName
use rules_python.Base.{
  nat_eq, text_eq, pair_eq, ℕ, zero, suc, ◌+◌, ◌-◌, ◌*◌, ◌%◌, ◌<◌, ◌≤◌, ◌≡◌, refl, sym, ◌∙◌, ◌≢◌,
  ap, subst, ◌⊎◌, inl, inr, ◌↔◌, Bool, true, false, not, ◌&&◌, ◌||◌, Option, none, some, List, [],
  ◌∷◌, ◌++◌, map, append_assoc, append-nil, Text, ◌==◌, codes, is_empty, if◌then◌else◌, ltb, leb,
  contains, ==_refl, Result, ok, err, value_error, type_error, key_error, index_error, os_error,
  runtime_error, ◌>>=◌, ◌>>◌, raise_if, traverse, arith, Lacks, All, All-append, length, take, drop,
  select, any, all, Bool-cases, Option-cases, Result-cases, take-append, drop-append, length-append,
  String,
}
use rules_python.Text.{starts_with, includes, split, join, lower, replace, strip_by}

-- The texts that `re.sub` finds for a class of characters with `+`: each run is replaced by `rep`.
-- `left` is how many replacements are still made, and `in_run` says that a run was just replaced.
unfoldable pub sub_runs : (ℕ → Bool) → Text → Bool → ℕ → Text → Text
sub_runs p rep in_run left [] = []
sub_runs p rep true left (c ∷ s) = elim (p c) [
  | true ↦ sub_runs p rep true left s
  | false ↦ c ∷ sub_runs p rep false left s
]
sub_runs p rep false zero (c ∷ s) = c ∷ s
sub_runs p rep false (suc left) (c ∷ s) = elim (p c) [
  | true ↦ rep ++ sub_runs p rep true left s
  | false ↦ c ∷ sub_runs p rep false (suc left) s
]

-- With no count every run is replaced; a text has at most as many runs as characters.
unfoldable pub sub_all : (ℕ → Bool) → Text → Text → Text
sub_all p rep s = sub_runs p rep false (length s) s

-- `commonpath`
abbrev pub common_parts : List Text → List Text → List Text
common_parts [] bs = []
common_parts (a ∷ as_) [] = []
common_parts (a ∷ as_) (b ∷ bs) = let rest = common_parts as_ bs in if a == b then a ∷ rest else []

unfoldable pub commonpath : Text → Text → Text
commonpath path1 path2 = join (codes "/") (common_parts (split b'/' path1) (split b'/' path2))

abbrev pub is_digit : ℕ → Bool
is_digit c = leb 48 c && leb c 57

abbrev pub is_lower : ℕ → Bool
is_lower c = leb 97 c && leb c 122

abbrev pub is_upper : ℕ → Bool
is_upper c = leb 65 c && leb c 90

-- `\w` on ASCII characters; other characters are decided by `beyond`.
abbrev pub is_word : (ℕ → Bool) → ℕ → Bool
is_word beyond c = is_digit c || is_lower c || is_upper c || c == b'_' || (leb 128 c && beyond c)

-- The fourth argument of `re.sub` is `count`, and the code passes `re.UNICODE`, which is 32, there.
unfoldable pub escape_filename_segment : (ℕ → Bool) → Text → Text
escape_filename_segment beyond segment =
    sub_runs (λ c. not (is_word beyond c || c == b'.')) (codes "_") false 32 segment

abbrev pub is_separator : ℕ → Bool
is_separator c = c == b'-' || c == b'_' || c == b'.'

unfoldable pub normalize_package_name : Text → Text
normalize_package_name name = lower (sub_all is_separator (codes "-") name)

unfoldable pub escape_filename_distribution_name : Text → Text
escape_filename_distribution_name name =
    replace (normalize_package_name name) (codes "-") (codes "_")

abbrev pub strip_first : Text → List Text → Text → Text
strip_first name [] add_path_prefix = add_path_prefix ++ name
strip_first name (prefix ∷ prefixes) add_path_prefix =
    let rest = strip_first name prefixes add_path_prefix in
    if starts_with name prefix then add_path_prefix ++ drop (length prefix) name else rest

-- `arcname_from`; `os.path.sep` is a slash.
unfoldable pub arcname_from : Text → Text → List Text → Text → Text
arcname_from name distribution_prefix strip_path_prefixes add_path_prefix =
    let normalized_arcname = replace name (codes "/") (codes "/") in
    if not (is_empty distribution_prefix) && starts_with normalized_arcname distribution_prefix
    then normalized_arcname
    else strip_first normalized_arcname strip_path_prefixes add_path_prefix

-- The part of `re.sub(r"\{\w+\}", "0", version)` behind a brace: the length of `\w+\}` there.
abbrev pub placeholder_end : (ℕ → Bool) → Bool → Text → Option ℕ
placeholder_end beyond seen [] = none
placeholder_end beyond seen (c ∷ s) =
    let rest = placeholder_end beyond true s in
    if is_word beyond c
    then (elim rest [ none ↦ none | some n ↦ some (suc n) ])
    else if seen && c == b'}'
    then some 1
    else none

unfoldable pub substitute : (ℕ → Bool) → ℕ → Text → Text
substitute beyond skip [] = []
substitute beyond (suc skip) (c ∷ s) = substitute beyond skip s
substitute beyond zero (c ∷ s) = elim (c == b'{') [
  | false ↦ c ∷ substitute beyond zero s
  | true ↦ elim (placeholder_end beyond false s) [
    | none ↦ c ∷ substitute beyond zero s
    | some n ↦ b'0' ∷ substitute beyond n s
  ]
]

-- The version sanitized to dot-separated alphanumerics.
unfoldable pub sanitize : Text → Text
sanitize version =
    strip_by (λ c. c == b'.')
      (sub_all (λ c. not (is_lower c || is_digit c)) (codes ".") (lower version))

-- `canonical` is `str(packaging.version.Version(v))`, and `none` for an `InvalidVersion`, which is a
-- `ValueError`.
module _ (beyond : ℕ → Bool) (canonical : Text → Option Text) where
  abbrev pub or_invalid : Option Text → Result Text
  or_invalid none = err value_error
  or_invalid (some v) = ok v

  abbrev pub delimiter : Text → Text
  delimiter substituted = if includes substituted (codes "+") then codes "." else codes "+"

  unfoldable pub normalize_pep440 : Text → Result Text
  normalize_pep440 version =
      let sanitized = sanitize version in
      let substituted = substitute beyond zero version in
      elim (canonical version) [
        | some v ↦ ok v
        | none ↦ elim (canonical (substituted ++ (delimiter substituted ++ sanitized))) [
          | some v ↦ ok v
          | none ↦ or_invalid (canonical (codes "0+" ++ sanitized))
        ]
      ]

-- The fields of a `WheelMaker` that its names are made of.
pub record Tags : Type 0 where
  pub name : Text
  pub version : Text
  pub build_tag : Text
  pub python_tag : Text
  pub abi : Text
  pub platform : Text
  pub outfile : Option Text

-- `_distribution_prefix`
unfoldable pub distribution_prefix : Tags → Text
distribution_prefix t = escape_filename_distribution_name t.name ++ (b'-' ∷ t.version)

abbrev pub wheel_components : Tags → List Text
wheel_components t =
    escape_filename_distribution_name t.name
    ∷ t.version
    ∷ (if is_empty t.build_tag
        then t.python_tag ∷ t.abi ∷ t.platform ∷ []
        else t.build_tag ∷ t.python_tag ∷ t.abi ∷ t.platform ∷ [])

unfoldable pub wheelname : Tags → Text
wheelname t = join (codes "-") (wheel_components t) ++ codes ".whl"

abbrev pub or_wheelname : Tags → Option Text → Text
or_wheelname t none = wheelname t
or_wheelname t (some outfile) = if is_empty outfile then wheelname t else outfile

unfoldable pub filename : Tags → Text
filename t = or_wheelname t t.outfile

unfoldable pub disttags : Tags → List Text
disttags t = join (codes "-") (t.python_tag ∷ t.abi ∷ t.platform ∷ []) ∷ []
