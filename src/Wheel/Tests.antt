-- ===== src/Wheel/Tests.antt =====
-- Runs of tools/wheelmaker.py on concrete inputs.
mod Metadata
use rules_python.Base.{
  not, ◌||◌, value_error, err, some, nat_eq, text_eq, pair_eq, ℕ, ◌-◌, ◌%◌, ◌≡◌, refl, Bool, true,
  false, none, [], ◌∷◌, ◌++◌, ◌==◌, codes, ok, arith, length, take, any,
}
use rules_python.Base.{ℕ_discrete, text_dec}
use rules_python.Base.Order.{sort_by}
use rules_python.Text.{IsTrimmed, starts_with, ends_with, split, lstrip_by, rstrip_by}
use rules_python.Wheel.Naming.{
  normalize_pep440, normalize_package_name, escape_filename_segment,
  escape_filename_distribution_name, arcname_from, Tags, wheelname, wheel_components,
  distribution_prefix,
}
use rules_python.Wheel.Naming.{is_word}
use rules_python.Wheel.Naming.Escaped.{IsEscaped, escape_filename_segment-IsEscaped}
use rules_python.Wheel.Naming.Package.{
  normalize_package_name-IsNormal, IsNormal, escape_filename_segment-dashed, dashed, underscored,
  arcname_from-strip,
}
use rules_python.Wheel.Naming.FileName.{HasPlainTags, wheelname-split}
use rules_python.Wheel.Archive.{
  record_contents, distinfo_path, Bytes, FileSystem, WhlFile, member_name, copy_loop, nothing,
  add_file, add_one_file, add_string, quote_filename,
}
use rules_python.Wheel.Command.{
  Host, Arguments, Output, main, sorted_files, listed_files, stamped, wheel_maker, fill, add_files,
  add_metadata, metadata_contents, add_distinfo, add_listed,
}
use rules_python.Wheel.Metadata.{files_to_package, expand_lines, expand_line, parse_file_pairs}
use rules_python.Base.Dict.{put}
use rules_python.Text.{cut, split_lines}
use rules_python.Wheel.Command.Recorded.{main-IsRecorded}
use rules_python.Wheel.Archive.Copy.{copy_loop-all, and_rest}
use rules_python.Wheel.Archive.Record.{add_file-IsRecorded, add_string-IsRecorded, IsRecorded}
use rules_python.Wheel.Archive.Quoting.{read_field, read_field-quote_filename}

abbrev ascii : ℕ → Bool
ascii c = false

escape_filename_segment-IsEscaped_example :
    IsEscaped
      (λ c. not (is_word ascii c || c == b'.'))
      (codes "_")
      32
      (codes "my pkg (1)")
      (escape_filename_segment ascii (codes "my pkg (1)"))
escape_filename_segment-IsEscaped_example =
    escape_filename_segment-IsEscaped ascii (codes "my pkg (1)")

no_prefix : starts_with (codes "src/a") (codes "pkg-1") ≡ false
unfolding starts_with ℕ_discrete text_dec
no_prefix = refl

no_earlier : any (starts_with (codes "src/a")) (codes "lib" ∷ []) ≡ false
unfolding starts_with ℕ_discrete text_dec
no_earlier = refl

abbrev tags : Tags
tags = record {
  name = codes "a-b";
  version = codes "1.0";
  build_tag = [];
  python_tag = codes "py3";
  abi = codes "none";
  platform = codes "any";
  outfile = none;
}

tags-HasPlainTags : HasPlainTags tags
tags-HasPlainTags = record {
  version = ground arith;
  build_tag = tt;
  python_tag = ground arith;
  abi = ground arith;
  platform = ground arith;
}

copy_loop-all_example :
    copy_loop 4 2 (1 ∷ 2 ∷ 3 ∷ []) nothing ≡ ok (and_rest nothing (1 ∷ 2 ∷ 3 ∷ []))
copy_loop-all_example = copy_loop-all 3 2 (1 ∷ 2 ∷ 3 ∷ []) nothing (omega arith) (omega arith)

-- A digest of a fixed length.
abbrev checksum : Bytes → Bytes
checksum contents = length contents % 256 ∷ []

-- A directory of one file.
abbrev tree : FileSystem
tree = record {
  is_dir = λ p. p == codes "d";
  listdir = λ p. codes "f" ∷ [];
  bytes = λ p. ok (1 ∷ 2 ∷ 3 ∷ []);
}

abbrev empty_wheel : WhlFile
empty_wheel = record {
  distribution_prefix = codes "pkg-1";
  strip_path_prefixes = [];
  add_path_prefix = [];
  quote_all_filenames = false;
  entries = [];
  members = [];
}

added : (w : WhlFile) × (add_file checksum tree 2 2 (codes "pkg") (codes "d") empty_wheel ≡ ok w)
unfolding add_file add_one_file sort_by text_dec copy_loop
added = (_, refl)

add_string-IsRecorded_example :
    IsRecorded checksum (add_string checksum (codes "pkg-1.dist-info/WHEEL") (1 ∷ []) empty_wheel)
add_string-IsRecorded_example =
    add_string-IsRecorded checksum (codes "pkg-1.dist-info/WHEEL") (1 ∷ []) empty_wheel tt

trimmed : IsTrimmed (member_name (codes "/a,b"))
unfolding member_name lstrip_by rstrip_by ℕ_discrete
trimmed = record { first = refl; last = refl }

read_field-quote_filename_example :
    read_field (quote_filename false (codes "/a,b") ++ (b',' ∷ codes "sha256=x,3"))
    ≡ (codes "a,b", codes "sha256=x,3")
unfolding member_name lstrip_by ℕ_discrete
read_field-quote_filename_example =
    read_field-quote_filename false (codes "/a,b") (codes "sha256=x,3") trimmed

abbrev host : Host
host = record {
  fs = tree;
  depth = 2;
  read = λ p. ok (codes "Name: x\n");
  sha256 = checksum;
  utf8 = λ t. t;
  beyond = ascii;
  canonical = λ v. some v;
  parse = λ t. err value_error;
}

abbrev arguments : Arguments
arguments = record {
  name = codes "x";
  version = codes "1";
  build_tag = [];
  python_tag = codes "py3";
  abi = codes "none";
  platform = codes "any";
  out = none;
  name_file = some (codes "n");
  strip_path_prefix = [];
  path_prefix = [];
  metadata_file = some (codes "m");
  description_file = none;
  entry_points_file = none;
  input_file = some (codes "p;d" ∷ []);
  input_file_list = some [];
  extra_distinfo_file = none;
  data_files = none;
  volatile_status_file = none;
  stable_status_file = none;
}

made_wheel : (o : Output) × (main host arguments ≡ ok o)
unfolding main sorted_files listed_files files_to_package sort_by stamped wheel_maker
    normalize_pep440 fill add_files add_file add_one_file copy_loop add_metadata metadata_contents
    expand_lines expand_line add_distinfo add_listed parse_file_pairs put text_dec cut ℕ_discrete
    starts_with split_lines
made_wheel = (_, refl)

main-IsRecorded_example :
    (w : WhlFile) × IsRecorded checksum w
    × (made_wheel.0.archive.members
        ≡ w.members
          ++ (record {
            name = member_name (distinfo_path w (codes "RECORD"));
            contents = record_contents w;
          }
              ∷ []))
main-IsRecorded_example = main-IsRecorded host arguments made_wheel.0 made_wheel.1
