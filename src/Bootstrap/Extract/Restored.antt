-- ===== src/Bootstrap/Extract/Restored.antt =====
-- What tools/private/zipapp/zipper.py writes, python/private/zipapp/zip_main_template.py restores.
use rules_python.Base.{
  nat_eq, text_eq, ℕ, ◌/◌, ◌%◌, false, some, List, [], ◌∷◌, Text, ◌==◌, contains, Result, ok, err,
  map, All, ◌≡◌,
}
use rules_python.Base.Dict.{get, put, pop}
use rules_python.Zipapp.Write.{Content, empty_content, link_to, bytes_of, Member, Files}
use rules_python.Bootstrap.Extract.{
  Node, file, link, Tree, Extraction, file_path, is_above, is_blocked,
}

abbrev mode_node : Content → Result ℕ → Node
mode_node c (ok mode) = file c (mode % 4096)
mode_node c (err e) = file c 0

-- What a member is to be restored to: a link is a link, a file has the permissions of its source.
abbrev pub restored : Files → Content → Node
restored fs empty_content = file empty_content 0o644
restored fs (link_to target) = link target
restored fs (bytes_of path) = mode_node (bytes_of path) (fs.st_mode path)

-- `os.stat` follows links, and the files that are copied are regular files: `S_ISREG`.
abbrev pub AllRegular : Files → Type 0
AllRegular fs = (path : Text) (mode : ℕ) → fs.st_mode path ≡ ok mode → mode / 4096 % 16 ≡ 8

-- No path of the tree is above or below the given one.
IsClear : Text → Tree → Type 0
IsClear q t = is_blocked q t ≡ false

-- Neither of the paths is that of a directory above the other.
abbrev pub AreApart : Text → Text → Type 0
AreApart p q = (is_above p q ≡ false) × (is_above q p ≡ false)

abbrev pub Apart : List Text → Type 0
Apart [] = Unit
Apart (p ∷ ps) = All (AreApart p) ps × Apart ps

-- One path of the tree was set, and nothing else was changed.
record IsWritten (p : Text) (n : Node) (t : Tree) (r : Result Tree) : Type 0 where
  new : Tree
  returned : r ≡ ok new
  here : get p new ≡ some n
  elsewhere : (j : Text) → (j == p) ≡ false → get j new ≡ get j t
  clear : (q : Text) → AreApart p q → IsClear q t → IsClear q new

module _ (x : Extraction) (p : Text) (c : Content) (t : Tree) where
  abbrev extracted : Tree
  extracted = put p (file c x.new_mode) (pop p t)

module _ (fs : Files) (x : Extraction) where
  -- `zipfile` extracts the member where this script looks for it.
  abbrev pub IsPlain : Member → Type 0
  IsPlain m = x.extract_path m.name ≡ file_path x m.name

  abbrev pub path_of : Member → Text
  path_of m = file_path x m.name

  -- The member is in the tree.
  abbrev pub IsRestored : Tree → Member → Type 0
  IsRestored t m = get (path_of m) t ≡ some (restored fs m.content)

  -- All members are in the tree, and what stands elsewhere was not changed.
  record Extracts (ms : List Member) (t : Tree) (r : Result Tree) : Type 0 where
    tree : Tree
    extracted_all : r ≡ ok tree
    members : All (IsRestored tree) ms
    others : (j : Text) → contains (map path_of ms) j ≡ false → get j tree ≡ get j t
