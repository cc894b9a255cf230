-- ===== src/Zipapp/Write.antt =====
-- The zip file that tools/private/zipapp/zipper.py writes.
use rules_python.Base.{
  nat_eq, text_eq, pair_eq, ℕ, ◌*◌, ◌%◌, Bool, not, Option, none, some, List, [], ◌∷◌, ◌++◌, Text,
  ◌==◌, codes, if◌then◌else◌, contains, Result, ok, err, type_error, ◌>>=◌,
}
use rules_python.Text.{replace}
use rules_python.Zipapp.Entry.{Kind, rf_empty, symlink, Entry, Layout, read_manifest}

-- Converts the target of a link to the separators of the target platform.
unfoldable pub convert_symlink_target : Text → Text → Text
convert_symlink_target path platform_pathsep =
    if platform_pathsep == codes "/"
    then replace path (codes "\\") platform_pathsep
    else replace path (codes "/") (codes "\\")

unfoldable pub normalize_zip_path : Text → Text
normalize_zip_path path = replace path (codes "\\") (codes "/")

-- What a member holds: text that is written, or the bytes of a file.
pub data Content : Type 0 where
  empty_content : Content
  link_to : Text → Content
  bytes_of : Text → Content

pub record Member : Type 0 where
  pub name : Text
  pub external_attr : ℕ
  pub content : Content

-- What `os` says of the files: `os.path.exists`, `os.readlink` and the `st_mode` of `os.stat`.
pub record Files : Type 0 where
  pub exists : Text → Bool
  pub readlink : Text → Result Text
  pub st_mode : Text → Result ℕ

-- `seen`, and the members in the order in which they are written.
pub record Zip : Type 0 where
  pub seen : List Text
  pub members : List Member

-- `(0o644 & 0xFFFF) << 16` and `(S_IFLNK | 0o777) << 16`
abbrev pub empty_attr : ℕ
empty_attr = 0o644 * 65536

abbrev pub link_attr : ℕ
link_attr = 0o120777 * 65536

abbrev pub is_stored_link : Files → Text → Text → Bool
is_stored_link fs is_symlink_str content =
    if is_symlink_str == codes "-1" then not (fs.exists content) else is_symlink_str == codes "1"

abbrev pub file_member : Files → Text → Text → Text → Text → Result Member
file_member fs pathsep name is_symlink_str content =
    if is_stored_link fs is_symlink_str content
    then (do
      target ← fs.readlink content
      ok (record {
        name = name;
        external_attr = link_attr;
        content = link_to (convert_symlink_target target pathsep);
      }))
    else (do
      mode ← fs.st_mode content
      ok (record { name = name; external_attr = mode % 65536 * 65536; content = bytes_of content }))

-- `content_path` is `None` for `rf-empty` alone; elsewhere it is a `TypeError` to use it.
abbrev pub content_member : Files → Text → Kind → Text → Text → Option Text → Result Member
content_member fs pathsep rf_empty name is_symlink_str content =
    ok (record { name = name; external_attr = empty_attr; content = empty_content })
content_member fs pathsep symlink name is_symlink_str none = err type_error
content_member fs pathsep symlink name is_symlink_str (some target) = ok (record {
  name = name;
  external_attr = link_attr;
  content = link_to (convert_symlink_target target pathsep);
})
content_member fs pathsep _ name is_symlink_str none = err type_error
content_member fs pathsep _ name is_symlink_str (some content) =
    file_member fs pathsep name is_symlink_str content

-- The member that an entry makes.
unfoldable pub member_of : Files → Text → Entry → Result Member
member_of fs pathsep e =
    content_member fs pathsep e.kind (normalize_zip_path e.zip_path) e.is_symlink_str e.content_path

unfoldable pub write_entry : Files → Text → Entry → Zip → Result Zip
write_entry fs pathsep e z =
    let zip_path = normalize_zip_path e.zip_path in
    if contains z.seen zip_path then ok z else do
      member ← member_of fs pathsep e
      ok (record { seen = zip_path ∷ z.seen; members = z.members ++ (member ∷ []) })

unfoldable pub write_entries : Files → Text → List Entry → Zip → Result Zip
write_entries fs pathsep [] z = ok z
write_entries fs pathsep (e ∷ es) z = do
  z' ← write_entry fs pathsep e z
  write_entries fs pathsep es z'

abbrev pub empty_zip : Zip
empty_zip = record { seen = []; members = [] }

-- The members of the zip. Whether they are stored or deflated does not change them.
unfoldable pub create_zip : Files → Text → Layout → Option Text → Result (List Member)
create_zip fs pathsep o content = do
  entries ← read_manifest o content
  z ← write_entries fs pathsep entries empty_zip
  ok z.members
