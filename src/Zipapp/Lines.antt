-- ===== src/Zipapp/Lines.antt =====
-- Manifest lines of tools/private/zipapp/zipper.py, written and read back.
use rules_python.Base.{
  false, drop, length, ◌==◌, if◌then◌else◌, ap, text_dec, nat_eq, text_eq, pair_eq, ℕ, ◌≡◌, refl,
  true, false, Option, none, some, List, [], ◌∷◌, ◌++◌, map, Text, codes, is_empty, ok, arith,
  Lacks, All,
}
use rules_python.Text.{starts_with, split, split-append, split-eq_singleton, join, strip}
use rules_python.Posix.{relpath, dirname, or_dot, relative, abs_parts}
use rules_python.Zipapp.Entry.{
  Kind, regular, rf_empty, rf_file, rf_symlink, rf_root_symlink, symlink, Entry, Layout, unix_join,
  zip_runfiles_path, kind_of, entry_of, entry_of_parts, parse_entry, parse_lines, relative_link,
}

-- The zip path of a runfile: one of another repository goes straight under the runfiles directory,
-- also one under `external/` in the legacy layout; any other goes under the workspace's directory.
pub zip_runfiles_path-cases :
    (o : Layout) (p : Text)
    → (zip_runfiles_path o (codes "../" ++ p) ≡ o.runfiles_dir ++ (b'/' ∷ p))
      × (zip_runfiles_path (record o { legacy_external_runfiles = true }) (codes "external/" ++ p)
          ≡ o.runfiles_dir ++ (b'/' ∷ p))
      × (zip_runfiles_path (record o { legacy_external_runfiles = false }) (codes "external/" ++ p)
          ≡ o.runfiles_dir ++ (b'/' ∷ (o.workspace_name ++ (b'/' ∷ (codes "external/" ++ p)))))
unfolding zip_runfiles_path starts_with join
zip_runfiles_path-cases o p = (ground arith, ground arith, ground arith)

split-join :
    (c : ℕ) (p : Text) (ps : List Text)
    → All (Lacks c) (p ∷ ps)
    → split c (join (c ∷ []) (p ∷ ps)) ≡ p ∷ ps
unfolding join
split-join c p [] h = split-eq_singleton c p h.0
split-join c p (q ∷ ps) h = rw (split-append c p _ h.0, split-join c q ps h.1)

-- What follows a prefix.
abbrev pub behind : Text → Text → Option Text
behind [] s = some s
behind (c ∷ p) [] = none
behind (c ∷ p) (d ∷ s) = let rest = behind p s in if d == c then rest else none

-- Where the help text puts a runfile: that of another repository straight under the runfiles
-- directory, any other in the directory of the workspace there.
abbrev pub runfile_place : Layout → Text → Text
runfile_place o path =
    o.runfiles_dir
    ++ (b'/' ∷ elim (if o.legacy_external_runfiles then behind (codes "external/") path else none) [
      | some p ↦ p
      | none ↦ elim (behind (codes "../") path) [
        | some p ↦ p
        | none ↦ o.workspace_name ++ (b'/' ∷ path)
      ]
    ])

behind-eq : (p s : Text) → behind p s ≡ (if starts_with s p then some (drop (length p) s) else none)
unfolding starts_with
behind-eq [] s = refl
behind-eq (c ∷ p) [] = refl
behind-eq (c ∷ p) (d ∷ s) = ground (arith, behind-eq p s)

zip_runfiles_path-place :
    (o : Layout) (path : Text) → zip_runfiles_path o path ≡ runfile_place o path
unfolding zip_runfiles_path join unix_join
zip_runfiles_path-place o path =
    ground (arith, behind-eq (codes "external/") path, behind-eq (codes "../") path)

-- A line of the manifest. A field is a text with no bar.
pub data Line : Type 0 where
  regular_line rf_file_line rf_symlink_line rf_root_symlink_line : Text → Text → Text → Line
  rf_empty_line : Text → Line
  symlink_line : Text → Text → Line

abbrev pub fields : Line → List Text
fields (regular_line flag path content) = codes "regular" ∷ flag ∷ path ∷ content ∷ []
fields (rf_file_line flag path content) = codes "rf-file" ∷ flag ∷ path ∷ content ∷ []
fields (rf_symlink_line flag path content) = codes "rf-symlink" ∷ flag ∷ path ∷ content ∷ []
fields (rf_root_symlink_line flag path content) =
    codes "rf-root-symlink" ∷ flag ∷ path ∷ content ∷ []
fields (rf_empty_line path) = codes "rf-empty" ∷ path ∷ []
fields (symlink_line path link) = codes "symlink" ∷ path ∷ link ∷ []

abbrev pub print_line : Line → Text
print_line l = join (codes "|") (fields l)

-- The path of a link's target from the directory of the link.
abbrev link_text : Layout → Text → Text → Text
link_text o path link = or_dot (
    join (codes "/") (
      relative (abs_parts o.cwd (dirname (o.runfiles_dir ++ (b'/' ∷ path))))
        (abs_parts o.cwd (o.runfiles_dir ++ (b'/' ∷ link)))))

abbrev make : Kind → Text → Text → Option Text → Entry
make k flag path content = record {
  kind = k;
  is_symlink_str = flag;
  zip_path = path;
  content_path = content;
}

-- The entry of a line, by the help text of the command.
abbrev pub line_entry : Layout → Line → Entry
line_entry o (regular_line flag path content) = make regular flag path (some content)
line_entry o (rf_file_line flag path content) =
    make rf_file flag (runfile_place o path) (some content)
line_entry o (rf_symlink_line flag path content) =
    make rf_symlink flag (o.runfiles_dir ++ (b'/' ∷ (o.workspace_name ++ (b'/' ∷ path))))
      (some content)
line_entry o (rf_root_symlink_line flag path content) =
    make rf_root_symlink flag (o.runfiles_dir ++ (b'/' ∷ path)) (some content)
line_entry o (rf_empty_line path) = make rf_empty (codes "0") (runfile_place o path) none
line_entry o (symlink_line path link) =
    make symlink (codes "2") (o.runfiles_dir ++ (b'/' ∷ path)) (some (link_text o path link))

append_slash-ne-nil : (a b : Text) → is_empty (a ++ (b'/' ∷ b)) ≡ false
append_slash-ne-nil [] b = refl
append_slash-ne-nil (c ∷ a) b = refl

relative_link-ok :
    (o : Layout) (path link : Text)
    → relative_link o (o.runfiles_dir ++ (b'/' ∷ path)) (o.runfiles_dir ++ (b'/' ∷ link))
      ≡ ok (line_entry o (symlink_line path link))
unfolding relpath
relative_link-ok o path link = rw (append_slash-ne-nil o.runfiles_dir link)

entry_of_parts-fields : (o : Layout) (l : Line) → entry_of_parts o (fields l) ≡ ok (line_entry o l)
unfolding entry_of kind_of text_dec unix_join join
entry_of_parts-fields o (regular_line flag path content) = refl
entry_of_parts-fields o (rf_file_line flag path content) =
    ap (λ q. ok (make rf_file flag q (some content))) (zip_runfiles_path-place o path)
entry_of_parts-fields o (rf_symlink_line flag path content) = refl
entry_of_parts-fields o (rf_root_symlink_line flag path content) = refl
entry_of_parts-fields o (rf_empty_line path) =
    ap (λ q. ok (make rf_empty (codes "0") q none)) (zip_runfiles_path-place o path)
entry_of_parts-fields o (symlink_line path link) = relative_link-ok o path link

print_line-ne-nil : (l : Line) → is_empty (print_line l) ≡ false
unfolding join
print_line-ne-nil (rf_empty_line path) = refl
print_line-ne-nil _ = refl

split-print_line : (l : Line) → All (Lacks b'|') (fields l) → split b'|' (print_line l) ≡ fields l
split-print_line (rf_empty_line path) h = split-join b'|' _ _ h
split-print_line (symlink_line path link) h = split-join b'|' _ _ h
split-print_line (regular_line flag path content) h = split-join b'|' _ _ h
split-print_line (rf_file_line flag path content) h = split-join b'|' _ _ h
split-print_line (rf_symlink_line flag path content) h = split-join b'|' _ _ h
split-print_line (rf_root_symlink_line flag path content) h = split-join b'|' _ _ h

parse_entry-print :
    (o : Layout) (l : Line) (line : Text)
    → All (Lacks b'|') (fields l)
    → strip line ≡ print_line l
    → parse_entry o line ≡ ok (some (line_entry o l))
unfolding parse_entry
parse_entry-print o l line h s =
    rw (s, print_line-ne-nil l, split-print_line l h, entry_of_parts-fields o l)

-- Lines that, without the white space round them, have one of the six forms, with no bar in a
-- field, are read into the entries that the command's help describes, in their order.
pub parse_lines-print :
    (o : Layout) (ls : List Line) (lines : List Text)
    → All (λ l. All (Lacks b'|') (fields l)) ls
    → map strip lines ≡ map print_line ls
    → parse_lines o lines ≡ ok (map (line_entry o) ls)
unfolding parse_lines
parse_lines-print o [] [] h e = refl
parse_lines-print o [] (x ∷ lines) h e = absurd (ground arith)
parse_lines-print o (l ∷ ls) [] h e = absurd (ground arith)
parse_lines-print o (l ∷ ls) (x ∷ lines) h e =
    rw (parse_entry-print o l x h.0 (ground arith), parse_lines-print o ls lines h.1 (ground arith))
