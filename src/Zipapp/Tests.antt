-- ===== src/Zipapp/Tests.antt =====
-- Runs of tools/private/zipapp/zipper.py on concrete inputs.
use mathlib.Core.List.{Memᴰ}
use rules_python.Base.{
  nat_eq, text_eq, pair_eq, ◌≡◌, refl, true, false, some, List, [], ◌∷◌, map, Text, codes, ok,
  arith,
}
use rules_python.Base.{ℕ_discrete, text_dec}
use rules_python.Base.Order.{sort_by, text_lt}
use rules_python.Text.{
  cut_last, ends_with, starts_with, split, join, replace, replace_from, strip, strip_by, lstrip_by,
  rstrip_by, text_lines,
}
use rules_python.Posix.{
  posix_join, normpath, norm_parts, leading, abspath, relpath, dirname, abs_parts, relative,
}
use rules_python.Zipapp.Entry.{
  regular, symlink, Entry, Layout, read_manifest, parse_lines, parse_entry, kind_of, entry_of,
  unix_join, entry_lt,
}
use rules_python.Zipapp.Write.{
  Member, Files, link_to, normalize_zip_path, member_of, write_entry, write_entries, create_zip,
  convert_symlink_target, link_attr,
}
use rules_python.Zipapp.Names.{find_member, first_entry}
use rules_python.Zipapp.Precedence.{create_zip-precedence, has_link}
use rules_python.Zipapp.Lines.{
  Line, print_line, line_entry, regular_line, rf_empty_line, parse_lines-print,
}

abbrev layout : Layout
layout = record {
  workspace_name = codes "_main";
  legacy_external_runfiles = false;
  runfiles_dir = codes "r";
  cwd = codes "/";
}

abbrev files : Files
files = record { exists = λ p. true; readlink = λ p. ok (codes "t"); st_mode = λ p. ok 0o100755 }

-- A file and a link at the same path.
abbrev content : Text
content = codes "regular|0|r/a|/a\nsymlink|a|b\n"

abbrev link_entry : Entry
link_entry = record {
  kind = symlink;
  is_symlink_str = codes "2";
  zip_path = codes "r/a";
  content_path = some (codes "b");
}

abbrev file_entry : Entry
file_entry = record {
  kind = regular;
  is_symlink_str = codes "0";
  zip_path = codes "r/a";
  content_path = some (codes "/a");
}

abbrev member : Member
member = record { name = codes "r/a"; external_attr = link_attr; content = link_to (codes "b") }

link_read : parse_entry layout (codes "symlink|a|b") ≡ ok (some link_entry)
unfolding parse_entry strip strip_by lstrip_by rstrip_by split kind_of text_dec ℕ_discrete entry_of
    relpath unix_join join relative abs_parts abspath dirname leading norm_parts normpath posix_join
    ends_with starts_with cut_last
link_read = refl

file_read : parse_entry layout (codes "regular|0|r/a|/a") ≡ ok (some file_entry)
unfolding parse_entry strip strip_by lstrip_by rstrip_by split kind_of text_dec ℕ_discrete entry_of
file_read = refl

content_lines : text_lines content ≡ codes "regular|0|r/a|/a" ∷ codes "symlink|a|b" ∷ []
unfolding text_lines ℕ_discrete
content_lines = refl

content_read : read_manifest layout (some content) ≡ ok (link_entry ∷ file_entry ∷ [])
unfolding read_manifest parse_lines sort_by entry_lt text_lt text_dec
content_read = rw (content_lines, file_read, link_read) refl

content_zipped : create_zip files (codes "/") layout (some content) ≡ ok (member ∷ [])
unfolding create_zip write_entries write_entry member_of normalize_zip_path convert_symlink_target
    replace replace_from starts_with text_dec
content_zipped = rw content_read refl

link_is_first : first_entry (codes "r/a") (link_entry ∷ file_entry ∷ []) ≡ some link_entry
unfolding normalize_zip_path replace replace_from starts_with text_dec
link_is_first = refl

has_link_at : has_link (codes "r/a") (link_entry ∷ file_entry ∷ []) ≡ true
unfolding text_dec
has_link_at = refl

create_zip-precedence_example :
    (e : Entry) × Memᴰ e (link_entry ∷ file_entry ∷ [])
    × (e.kind ≡ symlink)
    × (e.zip_path ≡ codes "r/a")
    × (target : Text) × (e.content_path ≡ some target)
    × (find_member (codes "r/a") (member ∷ [])
        ≡ some (record {
          name = codes "r/a";
          external_attr = link_attr;
          content = link_to (convert_symlink_target target (codes "/"));
        }))
create_zip-precedence_example =
    create_zip-precedence files (codes "/") layout (some content) (link_entry ∷ file_entry ∷ [])
      (member ∷ []) (codes "r/a") content_read content_zipped (ground arith, (ground arith, tt))
      has_link_at

abbrev lines : List Line
lines = regular_line (codes "0") (codes "x") (codes "y") ∷ rf_empty_line (codes "../z") ∷ []

lines_stripped :
    map strip (codes " regular|0|x|y " ∷ codes "rf-empty|../z" ∷ []) ≡ map print_line lines
unfolding strip strip_by lstrip_by rstrip_by join ℕ_discrete
lines_stripped = refl

parse_lines-print_example :
    parse_lines layout (codes " regular|0|x|y " ∷ codes "rf-empty|../z" ∷ [])
    ≡ ok (map (line_entry layout) lines)
parse_lines-print_example =
    parse_lines-print layout lines (codes " regular|0|x|y " ∷ codes "rf-empty|../z" ∷ [])
      (ground arith, (ground arith, tt)) lines_stripped
