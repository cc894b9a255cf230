-- ===== src/Bootstrap/Extract.antt =====
-- `extract_zip` of python/private/zipapp/zip_main_template.py. A zip has no members for
-- directories. The tree has the files and links by their paths, and a directory stands above them.
pub mod Restored
mod Tests
use rules_python.Base.{
  true, false, ◌&&◌, ◌||◌, ◌++◌, codes, nat_eq, text_eq, ℕ, ◌*◌, ◌/◌, ◌%◌, Bool, Option, none, some,
  List, [], ◌∷◌, Text, ◌==◌, if◌then◌else◌, Result, ok, err, os_error, ◌>>=◌,
}
use rules_python.Base.Dict.{Dict, get, put, pop}
use rules_python.Text.{starts_with}
use rules_python.Posix.{posix_join, abspath}
use rules_python.Zipapp.Write.{Content, empty_content, link_to, bytes_of, Member}

pub data Node : Type 0 where
  file : Content → ℕ → Node
  link : Text → Node

abbrev pub Tree : Type 0
Tree = Dict Text Node

-- `zipfile` extracts a member to `extract_path`, with `new_mode`, the mode of a new file; `read` is
-- the text of the file that a member was made from, and `through_link` is what is done with a member
-- whose path goes through a link, which the system follows.
pub record Extraction : Type 0 where
  pub cwd : Text
  pub dest_dir : Text
  pub new_mode : ℕ
  pub extract_path : Text → Text
  pub read : Text → Text
  pub through_link : Tree → Member → Result Tree

abbrev pub text_of : (Text → Text) → Content → Text
text_of read empty_content = []
text_of read (link_to target) = target
text_of read (bytes_of path) = read path

-- The first path is that of a directory in which the second one lies.
abbrev pub is_above : Text → Text → Bool
is_above a b = starts_with b (a ++ codes "/")

abbrev pub any_node : (Text → Node → Bool) → Tree → Bool
any_node f [] = false
any_node f ((path, node) ∷ tree) = f path node || any_node f tree

abbrev pub is_link_node : Node → Bool
is_link_node (file content mode) = false
is_link_node (link target) = true

abbrev pub link_above : Text → Tree → Bool
link_above path tree = any_node (λ q node. is_link_node node && is_above q path) tree

-- A file stands where a directory is needed, or a directory where the file is to be.
abbrev pub is_blocked : Text → Tree → Bool
is_blocked path tree = any_node (λ q node. is_above q path || is_above path q) tree

-- `attrs & 0o170000 == 0o120000`
abbrev pub is_link_mode : ℕ → Bool
is_link_mode attrs = attrs / 4096 % 16 * 4096 == 0o120000

-- The file at the path is replaced by a link to the path that it holds.
abbrev pub make_link : (Text → Text) → Text → Option Node → Tree → Result Tree
make_link read path none tree = err os_error
make_link read path (some (file content mode)) tree =
    ok (put path (link (text_of read content)) (pop path tree))
make_link read path (some (link target)) tree = err os_error

-- The path was unlinked before, so that there is no link at it.
abbrev pub chmod : Text → ℕ → Option Node → Tree → Result Tree
chmod path mode none tree = err os_error
chmod path mode (some (file content old)) tree = ok (put path (file content mode) tree)
chmod path mode (some (link target)) tree = err os_error

module _ (x : Extraction) where
  abbrev pub file_path : Text → Text
  file_path filename = abspath x.cwd (posix_join x.dest_dir filename)

  abbrev pub set_attributes : Text → ℕ → Tree → Result Tree
  set_attributes path attrs tree =
      if is_link_mode attrs
      then make_link x.read path (get path tree) tree
      else if attrs == 0
      then ok tree
      else chmod path (attrs % 4096) (get path tree) tree

  -- The file at the path is unlinked, and the member is extracted.
  unfoldable pub extract_member : Member → Tree → Result Tree
  extract_member info tree =
      if link_above (file_path info.name) tree || link_above (x.extract_path info.name) tree
      then x.through_link tree info
      else if is_blocked (x.extract_path info.name) (pop (file_path info.name) tree)
      then err os_error
      else set_attributes (file_path info.name) (info.external_attr / 65536) (
          put (x.extract_path info.name) (file info.content x.new_mode)
            (pop (file_path info.name) tree))

  unfoldable pub extract_zip : List Member → Tree → Result Tree
  extract_zip [] tree = ok tree
  extract_zip (info ∷ infos) tree = extract_member info tree >>= extract_zip infos
