-- ===== src/Bootstrap/Extract/Tests.antt =====
-- Runs of python/private/zipapp/zip_main_template.py on a zip that the zipper wrote.
use rules_python.Base.{
  nat_eq, text_eq, pair_eq, ◌*◌, true, false, List, [], ◌∷◌, ◌++◌, Text, codes, ok, err, os_error,
  ◌≡◌, refl, ℕ_discrete, text_dec,
}
use rules_python.Base.Dict.{get, put, pop}
use rules_python.Text.{ends_with, starts_with, split, join}
use rules_python.Posix.{posix_join, normpath, norm_parts, leading, abspath}
use rules_python.Zipapp.Entry.{Layout}
use rules_python.Zipapp.Write.{Member, Files, link_to, bytes_of, link_attr}
use rules_python.Bootstrap.Extract.{file, link, Extraction, extract_member, extract_zip}

abbrev layout : Layout
layout = record {
  workspace_name = codes "_main";
  legacy_external_runfiles = false;
  runfiles_dir = codes "r";
  cwd = codes "/";
}

abbrev files : Files
files = record { exists = λ p. true; readlink = λ p. ok (codes "t"); st_mode = λ p. ok 0o100755 }

abbrev content : Text
content = codes "regular|0|r/c|/a\nsymlink|a|b\n"

abbrev members : List Member
members =
    record { name = codes "r/a"; external_attr = link_attr; content = link_to (codes "b") }
    ∷ record {
      name = codes "r/c";
      external_attr = 0o100755 * 65536;
      content = bytes_of (codes "/a");
    }
    ∷ []

abbrev extraction : Extraction
extraction = record {
  cwd = codes "/";
  dest_dir = codes "/x";
  new_mode = 0o644;
  extract_path = λ name. codes "/x/" ++ name;
  read = λ p. [];
  through_link = λ tree m. err os_error;
}

link_and_file :
    extract_zip extraction members []
    ≡ ok (
        (codes "/x/r/a", link (codes "b"))
        ∷ (codes "/x/r/c", file (bytes_of (codes "/a")) 0o755)
        ∷ [])
unfolding extract_zip extract_member abspath normpath norm_parts leading posix_join split join
    starts_with ends_with get put pop ℕ_discrete text_dec
link_and_file = refl
