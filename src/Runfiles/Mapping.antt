-- ===== src/Runfiles/Mapping.antt =====
-- The class `_RepositoryMapping` of python/runfiles/runfiles.py.
pub mod Scan
pub mod Lines
use rules_python.Base.{
  nat_eq, text_eq, pair_eq, Bool, true, false, ◌&&◌, Option, none, some, List, [], ◌∷◌, ◌++◌, Text,
  codes, is_empty, if◌then◌else◌, Result, ok, err, value_error, ◌>>=◌,
}
use rules_python.Base.Dict.{Dict, get, get_or, put}
use rules_python.Text.{starts_with, ends_with, split, split_lines}

-- `_exact_mappings` and `_grouped_prefixed_mappings`
pub record RepoMapping : Type 0 where
  pub exact : Dict (Text × Text) Text
  pub grouped : Dict Text (List (Text × Text))

-- The loop of `__init__`: `self._grouped_prefixed_mappings[target_app].append(...)`
unfoldable pub group :
    Dict (Text × Text) Text → Dict Text (List (Text × Text)) → Dict Text (List (Text × Text))
group [] g = g
group (((prefix_source, target_app), target_canonical) ∷ d) g =
    group d (put target_app (get_or target_app g [] ++ (prefix_source, target_canonical) ∷ []) g)

unfoldable pub init : Dict (Text × Text) Text → Dict (Text × Text) Text → RepoMapping
init exact prefixed = record { exact = exact; grouped = group prefixed [] }

-- The two dicts that `create_from_file` fills.
pub record Tables : Type 0 where
  pub exact : Dict (Text × Text) Text
  pub prefixed : Dict (Text × Text) Text

abbrev pub no_tables : Tables
no_tables = record { exact = []; prefixed = [] }

-- `text[:-1]`
abbrev pub drop_last : Text → Text
drop_last [] = []
drop_last (c ∷ []) = []
drop_last (c ∷ d ∷ s) = c ∷ drop_last (d ∷ s)

abbrev pub add_mapping : Text → Text → Text → Tables → Tables
add_mapping source_canonical target_apparent target_canonical t =
    if ends_with source_canonical (codes "*")
    then record t {
      prefixed = put (drop_last source_canonical, target_apparent) target_canonical t.prefixed;
    }
    else record t { exact = put (source_canonical, target_apparent) target_canonical t.exact }

-- `source_canonical, target_apparent, target_canonical = line.split(",")`
abbrev pub add_fields : List Text → Tables → Result Tables
add_fields (source ∷ apparent ∷ canonical ∷ []) t = ok (add_mapping source apparent canonical t)
add_fields _ t = err value_error

unfoldable pub add_lines : List Text → Tables → Result Tables
add_lines [] t = ok t
add_lines (line ∷ lines) t = do t' ← add_fields (split b',' line) t; add_lines lines t'

abbrev pub from_tables : Tables → RepoMapping
from_tables t = init t.exact t.prefixed

-- `open(...).read()` is a function of the path; `none` is a `FileNotFoundError`.
abbrev pub read_mapping : Option Text → Result RepoMapping
read_mapping none = ok (init [] [])
read_mapping (some content) = do t ← add_lines (split_lines content) no_tables; ok (from_tables t)

unfoldable pub create_from_file : (Text → Option Text) → Option Text → Result RepoMapping
create_from_file read none = ok (init [] [])
create_from_file read (some path) =
    if is_empty path then ok (init [] []) else read_mapping (read path)

unfoldable pub first_prefix : Text → List (Text × Text) → Option Text
first_prefix source [] = none
first_prefix source ((prefix_source, target_canonical) ∷ l) =
    if starts_with source prefix_source then some target_canonical else first_prefix source l

abbrev or_prefix : Option Text → Option Text → Option Text
or_prefix (some target) rest = some target
or_prefix none rest = rest

unfoldable pub lookup : RepoMapping → Option Text → Text → Option Text
lookup m none target_apparent = none
lookup m (some source_repo) target_apparent =
    or_prefix (get (source_repo, target_apparent) m.exact)
      (first_prefix source_repo (get_or target_apparent m.grouped []))

abbrev no_entries {ℓ} : {A : Type ℓ} → List A → Bool
no_entries [] = true
no_entries (x ∷ l) = false

unfoldable pub mapping_is_empty : RepoMapping → Bool
mapping_is_empty m = no_entries m.exact && no_entries m.grouped
