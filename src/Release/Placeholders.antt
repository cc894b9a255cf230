-- ===== src/Release/Placeholders.antt =====
-- The placeholders of tools/private/release/utils.py: the files that are searched, and the
-- replacement of `VERSION_NEXT_*` in them.
pub mod Replaced
use rules_python.Base.{
  nat_eq, text_eq, ℕ, Bool, true, false, not, ◌&&◌, ◌||◌, Option, none, some, List, [], ◌∷◌, ◌++◌,
  map, Text, ◌==◌, codes, is_empty, if◌then◌else◌, any, select,
}
use rules_python.Text.{starts_with, includes, replace, strip, is_space}

-- `*` of a pattern: what follows matches some end of the text.
abbrev pub star : (Text → Bool) → Text → Bool
star follows [] = follows []
star follows (c ∷ s) = follows (c ∷ s) || star follows s

abbrev pub one : ℕ → (Text → Bool) → Text → Bool
one p follows [] = false
one p follows (c ∷ s) = p == c && follows s

-- `fnmatch.fnmatch`, on patterns whose one special character is the star.
unfoldable pub fnmatch : Text → Text → Bool
fnmatch [] s = is_empty s
fnmatch (p ∷ pattern) s =
    let follows = fnmatch pattern in if p == b'*' then star follows s else one p follows s

abbrev pub exclude_patterns : List Text
exclude_patterns =
    codes "./.agents/*"
    ∷ codes "./.git/*"
    ∷ codes "./.github/*"
    ∷ codes "./.bazelci/*"
    ∷ codes "./.bcr/*"
    ∷ codes "./bazel-*/*"
    ∷ codes "./CONTRIBUTING.md"
    ∷ codes "./RELEASING.md"
    ∷ codes "./tools/private/release/*"
    ∷ codes "./tests/tools/private/release/*"
    ∷ []

-- `is_excluded_version_placeholder_path`
unfoldable pub is_excluded : Text → Bool
is_excluded path =
    let path_str =
      if not (starts_with path (codes "./")) && not (starts_with path (codes "/"))
      then codes "./" ++ path
      else path in
    any (λ pattern. fnmatch pattern path_str) exclude_patterns

-- A file and its text, which is `none` where it cannot be read or decoded.
pub record File : Type 0 where
  pub path : Text
  pub content : Option Text

abbrev pub feature : Text
feature = codes "VERSION_NEXT_FEATURE"

abbrev pub patch : Text
patch = codes "VERSION_NEXT_PATCH"

abbrev pub has_feature : Option Text → Bool
has_feature none = false
has_feature (some content) = includes content feature

-- `should_increment_minor`, on the files that the walk yields.
unfoldable pub should_increment_minor : List File → Bool
should_increment_minor files = any (λ f. has_feature f.content) files

-- The new text of a file, where it is written.
unfoldable pub replaced_content : Text → Text → Option Text
replaced_content version content =
    if includes content feature || includes content patch
    then some (replace (replace content feature version) patch version)
    else none

abbrev pub new_text : Text → Option Text → Option Text
new_text version none = none
new_text version (some content) = replaced_content version content

abbrev pub new_content : Text → File → Option Text
new_content version f = if is_excluded f.path then none else new_text version f.content

-- The files after the call, and the paths of those that were written.
pub record Written : Type 0 where
  pub files : List File
  pub modified : List Text

abbrev pub write_file : File → Option Text → Written → Written
write_file f none w = record { files = f ∷ w.files; modified = w.modified }
write_file f (some content) w = record {
  files = record f { content = some content } ∷ w.files;
  modified = f.path ∷ w.modified;
}

unfoldable pub replace_version_next_in_files : List File → Text → Written
replace_version_next_in_files [] version = record { files = []; modified = [] }
replace_version_next_in_files (f ∷ fs) version =
    write_file f (new_content version f) (replace_version_next_in_files fs version)

-- `re.split(r"[\s,]+", value.strip())`, without the empty parts. The flag says that a part has begun.
abbrev pub separates : ℕ → Bool
separates c = is_space c || c == b','

abbrev pub begin_or_push : Bool → ℕ → List Text → List Text
begin_or_push true c (part ∷ parts) = (c ∷ part) ∷ parts
begin_or_push _ c parts = (c ∷ []) ∷ parts

abbrev pub next_is_part : Text → Bool
next_is_part [] = false
next_is_part (c ∷ s) = not (separates c)

unfoldable pub split_parts : Text → List Text
split_parts [] = []
split_parts (c ∷ s) =
    let rest = split_parts s in if separates c then rest else begin_or_push (next_is_part s) c rest

unfoldable pub parse_pr_list : Text → List Text
parse_pr_list value = if is_empty value then [] else split_parts (strip value)
