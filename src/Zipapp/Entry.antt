-- ===== src/Zipapp/Entry.antt =====
-- The manifest lines of tools/private/zipapp/zipper.py.
use rules_python.Base.{
  nat_eq, text_eq, pair_eq, Bool, true, false, not, ◌&&◌, ◌||◌, Option, none, some, List, [], ◌∷◌,
  Text, ◌==◌, codes, is_empty, if◌then◌else◌, Result, ok, err, value_error, os_error, ◌>>=◌, drop,
}
use rules_python.Base.Order.{sort_by, text_lt}
use rules_python.Text.{starts_with, split, join, strip, text_lines}
use rules_python.Posix.{relpath, dirname}

pub data Kind : Type 0 where
  regular rf_empty rf_file rf_symlink rf_root_symlink symlink : Kind

-- `(type_, is_symlink_str, zip_path, content_path)`
pub record Entry : Type 0 where
  pub kind : Kind
  pub is_symlink_str : Text
  pub zip_path : Text
  pub content_path : Option Text

-- The arguments of `create_zip` that the paths depend on, and the working directory.
pub record Layout : Type 0 where
  pub workspace_name : Text
  pub legacy_external_runfiles : Bool
  pub runfiles_dir : Text
  pub cwd : Text

unfoldable pub unix_join : List Text → Text
unix_join parts = join (codes "/") parts

unfoldable pub zip_runfiles_path : Layout → Text → Text
unfolding unix_join
zip_runfiles_path o path = unix_join (
    o.runfiles_dir
    ∷ (if o.legacy_external_runfiles && starts_with path (codes "external/")
        then drop 9 path
        else if starts_with path (codes "../")
        then drop 3 path
        else unix_join (o.workspace_name ∷ path ∷ []))
    ∷ [])

unfoldable pub kind_of : Text → Option Kind
kind_of s =
    if s == codes "regular"
    then some regular
    else if s == codes "rf-empty"
    then some rf_empty
    else if s == codes "rf-file"
    then some rf_file
    else if s == codes "rf-symlink"
    then some rf_symlink
    else if s == codes "rf-root-symlink"
    then some rf_root_symlink
    else if s == codes "symlink"
    then some symlink
    else none

abbrev pub relative_link : Layout → Text → Text → Result Entry
relative_link o zip_path link = do
  content_path ← relpath o.cwd link (dirname zip_path)
  ok (record {
    kind = symlink;
    is_symlink_str = codes "2";
    zip_path = zip_path;
    content_path = some content_path;
  })

-- The unpacking of the parts behind the type, and the paths, for each type.
unfoldable pub entry_of : Layout → Kind → List Text → Result Entry
entry_of o regular (is_symlink ∷ zip_path ∷ content ∷ []) = ok (record {
  kind = regular;
  is_symlink_str = is_symlink;
  zip_path = zip_path;
  content_path = some content;
})
entry_of o rf_empty (runfile ∷ []) = ok (record {
  kind = rf_empty;
  is_symlink_str = codes "0";
  zip_path = zip_runfiles_path o runfile;
  content_path = none;
})
entry_of o rf_file (is_symlink ∷ runfile ∷ content ∷ []) = ok (record {
  kind = rf_file;
  is_symlink_str = is_symlink;
  zip_path = zip_runfiles_path o runfile;
  content_path = some content;
})
entry_of o rf_symlink (is_symlink ∷ runfile ∷ content ∷ []) = ok (record {
  kind = rf_symlink;
  is_symlink_str = is_symlink;
  zip_path = unix_join (o.runfiles_dir ∷ o.workspace_name ∷ runfile ∷ []);
  content_path = some content;
})
entry_of o rf_root_symlink (is_symlink ∷ runfile ∷ content ∷ []) = ok (record {
  kind = rf_root_symlink;
  is_symlink_str = is_symlink;
  zip_path = unix_join (o.runfiles_dir ∷ runfile ∷ []);
  content_path = some content;
})
entry_of o symlink (runfile ∷ link ∷ []) =
    relative_link o (unix_join (o.runfiles_dir ∷ runfile ∷ []))
      (unix_join (o.runfiles_dir ∷ link ∷ []))
entry_of o _ _ = err value_error

abbrev pub typed_entry : Layout → Option Kind → List Text → Result Entry
typed_entry o none parts = err value_error
typed_entry o (some kind) parts = entry_of o kind parts

abbrev pub entry_of_parts : Layout → List Text → Result Entry
entry_of_parts o [] = err value_error
entry_of_parts o (type_ ∷ parts) = typed_entry o (kind_of type_) parts

-- `none` is a blank line.
unfoldable pub parse_entry : Layout → Text → Result (Option Entry)
parse_entry o line =
    let stripped = strip line in
    if is_empty stripped
    then ok none
    else do entry ← entry_of_parts o (split b'|' stripped); ok (some entry)

abbrev pub add_entry : Option Entry → List Entry → List Entry
add_entry none entries = entries
add_entry (some entry) entries = entry ∷ entries

unfoldable pub parse_lines : Layout → List Text → Result (List Entry)
parse_lines o [] = ok []
parse_lines o (line ∷ lines) = do
  entry ← parse_entry o line
  entries ← parse_lines o lines
  ok (add_entry entry entries)

abbrev pub is_link : Kind → Bool
is_link symlink = true
is_link _ = false

-- The order of the keys `(zip_path, 0 if symlink else 1)`.
unfoldable pub entry_lt : Entry → Entry → Bool
entry_lt a b =
    text_lt a.zip_path b.zip_path
    || (a.zip_path == b.zip_path && is_link a.kind && not (is_link b.kind))

-- `content` is the text of the manifest; `none` is a file that cannot be opened.
unfoldable pub read_manifest : Layout → Option Text → Result (List Entry)
read_manifest o none = err os_error
read_manifest o (some content) = do
  entries ← parse_lines o (text_lines content)
  ok (sort_by entry_lt entries)
