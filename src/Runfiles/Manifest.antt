-- ===== src/Runfiles/Manifest.antt =====
-- The class `_ManifestBased` of python/runfiles/runfiles.py.
pub mod Escapes
pub mod Search
use rules_python.Base.{
  nat_eq, text_eq, pair_eq, ℕ, zero, suc, ◌+◌, ◌-◌, ◌||◌, Option, none, some, List, [], ◌∷◌, ◌++◌,
  Text, codes, is_empty, if◌then◌else◌, Result, ok, err, value_error, os_error, diverged, ◌>>=◌,
  take, drop, length,
}
use rules_python.Base.Dict.{Dict, get, put}
use rules_python.Text.{starts_with, ends_with, cut, file_lines, replace, rfind_char}

-- Spaces, newlines and backslashes are escaped in a link.
unfoldable pub unescape_link : Text → Text
unescape_link escaped_link =
    replace (replace (replace escaped_link (codes "\\s") (codes " ")) (codes "\\n") (10 ∷ []))
      (codes "\\b") (codes "\\")

-- Newlines and backslashes are escaped in a target.
unfoldable pub unescape_target : Text → Text
unescape_target escaped_target =
    replace (replace escaped_target (codes "\\n") (10 ∷ [])) (codes "\\b") (codes "\\")

-- The unpacking of the two parts of `split(" ", maxsplit=1)`
abbrev pub two_parts : Option (Text × Text) → Result (Text × Text)
two_parts none = err value_error
two_parts (some parts) = ok parts

unfoldable pub parse_line : Text → Result (Text × Text)
parse_line line =
    if starts_with line (codes " ")
    then (do
      parts ← two_parts (cut b' ' (drop 1 line))
      ok (unescape_link parts.0, unescape_target parts.1))
    else two_parts (cut b' ' line)

-- `result[link] = target` or, without a target, `result[link] = link`
abbrev pub add_link : Text × Text → Dict Text Text → Dict Text Text
add_link (link, target) result = put link (if is_empty target then link else target) result

unfoldable pub load_lines : List Text → Dict Text Text → Result (Dict Text Text)
load_lines [] result = ok result
load_lines (line ∷ lines) result = do
  parts ← parse_line line
  load_lines lines (add_link parts result)

-- `none` is a file that cannot be opened.
abbrev load_content : Option Text → Result (Dict Text Text)
load_content none = err os_error
load_content (some content) = load_lines (file_lines content) []

unfoldable pub load_runfiles : (Text → Option Text) → Text → Result (Dict Text Text)
load_runfiles read path = load_content (read path)

-- `_path` and `_runfiles`
pub record ManifestBased : Type 0 where
  pub path : Text
  pub runfiles : Dict Text Text

unfoldable pub manifest_init : (Text → Option Text) → Text → Result ManifestBased
manifest_init read path =
    if is_empty path
    then err value_error
    else do d ← load_runfiles read path; ok (record { path = path; runfiles = d })

-- `self._runfiles.get(path)`, where an empty text counts as missing.
abbrev pub non_empty : Option Text → Option Text
non_empty none = none
non_empty (some v) = if is_empty v then none else some v

unfoldable pub entry : Dict Text Text → Text → Option Text
entry d path = non_empty (get path d)

-- `end` of the call `path.rfind("/", 0, prefix_end - 1)`. Python counts an end of -1 from the end
-- of the text.
abbrev pub search_end : Text → ℕ → ℕ
search_end path zero = length path - 1
search_end path (suc e) = e

-- The `while True` loop.
unfoldable pub prefix_loop : ℕ → Dict Text Text → Text → ℕ → Result (Option Text)
prefix_loop zero d path prefix_end = err diverged
prefix_loop (suc fuel) d path prefix_end =
    elim (rfind_char b'/' path (search_end path prefix_end)) [
      | none ↦ ok none
      | some e ↦ elim (entry d (take e path)) [
        | some prefix_match ↦ ok (some (prefix_match ++ (b'/' ∷ drop (e + 1) path)))
        | none ↦ prefix_loop fuel d path e
      ]
    ]

-- A round for each character, and one more to see the end.
unfoldable pub manifest_rlocation : ManifestBased → Text → Result (Option Text)
manifest_rlocation m path = elim (entry m.runfiles path) [
  | some exact_match ↦ ok (some exact_match)
  | none ↦ prefix_loop (suc (length path)) m.runfiles path (length path)
]

-- `self._path[: -len(suffix)]`
abbrev pub without_end : ℕ → Text → Text
without_end n s = take (length s - n) s

unfoldable pub manifest_runfiles_dir : ManifestBased → Text
manifest_runfiles_dir m =
    if ends_with m.path (codes "/MANIFEST") || ends_with m.path (codes "\\MANIFEST")
    then without_end 9 m.path
    else if ends_with m.path (codes ".runfiles_manifest")
    then without_end 9 m.path
    else []

unfoldable pub manifest_env_vars : ManifestBased → Dict Text Text
manifest_env_vars m =
    (codes "RUNFILES_MANIFEST_FILE", m.path)
    ∷ (codes "RUNFILES_DIR", manifest_runfiles_dir m)
    ∷ (codes "JAVA_RUNFILES", manifest_runfiles_dir m)
    ∷ []
