-- ===== src/Wheel/Metadata.antt =====
-- The metadata of a wheel in tools/wheelmaker.py: stamps, requirements, and the text of its files.
pub mod Unchanged
use rules_python.Base.{
  ◌&&◌, length, drop, nat_eq, text_eq, pair_eq, Bool, not, ◌||◌, Option, none, some, List, [], ◌∷◌,
  ◌++◌, map, Text, ◌==◌, codes, is_empty, if◌then◌else◌, Result, ok, err, value_error, ◌>>=◌,
}
use rules_python.Base.Dict.{Dict, put}
use rules_python.Text.{
  partition, rpartition, starts_with, split, split_lines, join, cut, replace, strip,
}
use rules_python.Wheel.Naming.{Tags, disttags}

-- `packaging.requirements.Requirement`
pub record Requirement : Type 0 where
  pub name : Text
  pub extras : List Text
  pub url : Option Text
  pub specifier : Text
  pub marker : Option Text

abbrev pub extras_text : List Text → Text
extras_text [] = []
extras_text (e ∷ es) = b'[' ∷ (join (codes ",") (e ∷ es) ++ codes "]")

abbrev pub spec_text : Text → Option Text → Text
spec_text specifier none = specifier
spec_text specifier (some url) = if is_empty url then specifier else codes " @ " ++ url

abbrev pub with_marker : Text → Option Text → Text → Text
with_marker base none extra = if is_empty extra then base else base ++ (codes "; " ++ extra)
with_marker base (some marker) extra =
    if is_empty extra
    then base ++ (codes "; " ++ marker)
    else base ++ (codes "; (" ++ (marker ++ (codes ") and " ++ extra)))

-- `parse` is the constructor of `Requirement`, which may raise an `InvalidRequirement`.
unfoldable pub new_requirement_line : (Text → Result Requirement) → Text → Text → Result Text
new_requirement_line parse reqs_text extra = do
  req ← parse (strip reqs_text)
  ok (
      with_marker
        (codes "Requires-Dist: "
          ++ (req.name ++ (extras_text req.extras ++ spec_text req.specifier req.url)))
        req.marker extra)

abbrev pub two_fields : Option (Text × Text) → Result (Text × Text)
two_fields none = err value_error
two_fields (some p) = ok p

-- The loop of `resolve_argument_stamp` over the lines of the two status files.
unfoldable pub resolve_lines : List Text → Text → Result Text
resolve_lines [] argument = ok argument
resolve_lines ([] ∷ lines) argument = resolve_lines lines argument
resolve_lines ((c ∷ line) ∷ lines) argument = do
  parts ← two_fields (cut b' ' (c ∷ line))
  resolve_lines lines (replace argument (b'{' ∷ (parts.0 ++ codes "}")) parts.1)

unfoldable pub resolve_argument_stamp : Text → Text → Text → Result Text
resolve_argument_stamp argument volatile_status stable_status =
    resolve_lines (split_lines volatile_status ++ split_lines stable_status) argument

-- `i.split(";", maxsplit=1)`
abbrev pub split_once : Text → Option (Text × Text) → List Text
split_once s none = s ∷ []
split_once s (some (a, b)) = a ∷ b ∷ []

unfoldable pub parse_file_pairs : List Text → List (List Text)
parse_file_pairs content = map (λ i. split_once i (cut b';' i)) content

-- `for package_path, real_path in input_files`
unfoldable pub files_to_package : List (List Text) → Dict Text Text → Result (Dict Text Text)
files_to_package [] files = ok files
files_to_package ((package_path ∷ real_path ∷ []) ∷ rest) files =
    files_to_package rest (put package_path real_path files)
files_to_package (other ∷ rest) files = err value_error

-- The contents of the WHEEL file.
unfoldable pub wheel_text : Tags → Text
wheel_text t =
    codes "Wheel-Version: 1.0\nGenerator: bazel-wheelmaker 1.0\nRoot-Is-Purelib: "
    ++ ((if t.platform == codes "any" then codes "true" else codes "false")
        ++ (10 ∷ join [] (map (λ tag. codes "Tag: " ++ (tag ++ (10 ∷ []))) (disttags t))))

abbrev pub named_line : Text → Text → Text
named_line name line = if starts_with line (codes "Name: ") then codes "Name: " ++ name else line

abbrev pub or_unknown : Option Text → Text
or_unknown none = codes "UNKNOWN"
or_unknown (some description) = if is_empty description then codes "UNKNOWN" else description

-- The contents of the METADATA file. In a name with no backslash, the template of `re.sub` is the
-- replacement itself.
unfoldable pub metadata_text : Text → Text → Text → Option Text → Text
metadata_text version metadata name description =
    join (10 ∷ []) (map (named_line name) (split 10 metadata))
    ++ (codes "Version: " ++ (version ++ (10 ∷ 10 ∷ (or_unknown description ++ (10 ∷ [])))))

abbrev pub is_requirement : Text → Bool
is_requirement line =
    not (is_empty line || starts_with line (codes "#") || starts_with line (codes "-"))

abbrev pub before_comment : Text → Option (Text × Text) → Text
before_comment text none = text
before_comment text (some p) = p.0

-- The requirements of a file: the lines that are not blank, a comment or an option.
unfoldable pub file_requirements :
    (Text → Result Requirement) → Text → List Text → Result (List Text)
file_requirements parse extra [] = ok []
file_requirements parse extra (line ∷ lines) =
    let rest = file_requirements parse extra lines in
    let reqs_text = strip line in
    if is_requirement reqs_text
    then (new_requirement_line parse (before_comment reqs_text (cut b'#' reqs_text)) extra >>= λ r.
        rest >>= λ reqs. ok (r ∷ reqs))
    else rest

abbrev pub after_newline : Text → Text
after_newline [] = []
after_newline (c ∷ []) = if c == 10 then [] else c ∷ []
after_newline (c ∷ d ∷ s) = if c == 10 then d ∷ s else if c == 13 && d == 10 then s else c ∷ d ∷ s

-- The first `line` of the text is removed, and the line end behind it.
unfoldable pub remove_line : Text → Text → Text
remove_line line [] = []
remove_line line (c ∷ s) =
    let rest = remove_line line s in
    if starts_with (c ∷ s) line then after_newline (drop (length line) (c ∷ s)) else c ∷ rest

abbrev pub requires : Text
requires = codes "Requires-Dist: "

-- A requirement with markers is written anew.
abbrev pub expand_markers : (Text → Result Requirement) → Text → Text → Text → Text → Result Text
expand_markers parse meta_line dist extra metadata = if is_empty dist then ok metadata else do
  line ← new_requirement_line parse dist (strip extra)
  ok (replace metadata meta_line line)

abbrev pub replace_requirements : Text → List Text → Text → Text
replace_requirements meta_line [] metadata = remove_line meta_line metadata
replace_requirements meta_line (r ∷ reqs) metadata =
    replace metadata meta_line (join (10 ∷ []) (r ∷ reqs))

-- A requirement that refers to a file is replaced by the requirements in it.
abbrev pub expand_file :
    (Text → Result Text) → (Text → Result Requirement) → Text → Text → Text → Text → Result Text
expand_file read parse meta_line file extra metadata = do
  content ← read file
  reqs ← file_requirements parse (strip extra) (split_lines content)
  ok (replace_requirements meta_line reqs metadata)

unfoldable pub expand_line :
    (Text → Result Text) → (Text → Result Requirement) → Text → Text → Result Text
expand_line read parse meta_line metadata =
    let rest = drop (length requires) meta_line in
    let (dist, markers) = rpartition b';' rest in
    let (file, extra) = partition b';' (drop 1 rest) in
    if not (starts_with meta_line requires)
    then ok metadata
    else if starts_with rest (codes "@")
    then expand_file read parse meta_line file extra metadata
    else expand_markers parse meta_line dist markers metadata

-- `for meta_line in metadata.splitlines()`: the lines are those of the text before the loop.
unfoldable pub expand_lines :
    (Text → Result Text) → (Text → Result Requirement) → List Text → Text → Result Text
expand_lines read parse [] metadata = ok metadata
expand_lines read parse (line ∷ lines) metadata = do
  metadata' ← expand_line read parse line metadata
  expand_lines read parse lines metadata'
