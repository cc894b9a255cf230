-- ===== src/Runfiles/Tests/Files.antt =====
-- Runs of the readers of manifests and repository mappings on concrete files.
use rules_python.Base.{
  length, take, true, diverged, nat_eq, text_eq, pair_eq, ℕ, ◌≡◌, refl, ◌≢◌, false, Option, none,
  some, List, [], ◌∷◌, Text, codes, ok, err, value_error, arith, Lacks, if◌then◌else◌, ◌==◌,
  text_dec, ℕ_discrete, Lacks-contains,
}
use rules_python.Base.Dict.{get}
use rules_python.Text.{IsOneLine, split, starts_with, includes}
use rules_python.Runfiles.Mapping.{
  init, lookup, create_from_file, add_lines, no_tables, from_tables,
}
use rules_python.Runfiles.Mapping.Scan.{lookup-init, scan}
use rules_python.Runfiles.Mapping.Lines.{
  Mapping, IsMapping, IsField, print_mappings, tables_of, create_from_file-print,
  add_lines-malformed,
}
use rules_python.Runfiles.Manifest.{
  ManifestBased, manifest_rlocation, prefix_loop, load_runfiles, entry,
}
use rules_python.Runfiles.Manifest.Search.{
  manifest_rlocation-longest, prefix_loop-diverges, longest,
}
use rules_python.Runfiles.Manifest.Escapes.{
  Entry, plain, escaped, print_entries, dict_of, load_runfiles-print,
}

abbrev manifest : ManifestBased
manifest = record {
  path = codes "/out/app.runfiles/MANIFEST";
  runfiles = (codes "data+1/dir", codes "/cache/dir") ∷ [];
}

no_double_x : includes (codes "data+1/dir/x") (codes "//") ≡ false
unfolding includes starts_with text_dec ℕ_discrete
no_double_x = refl

relative_x : starts_with (codes "data+1/dir/x") (codes "/") ≡ false
unfolding starts_with text_dec ℕ_discrete
relative_x = refl

manifest_rlocation-longest_example :
    manifest_rlocation manifest (codes "data+1/dir/x") ≡ ok (some (codes "/cache/dir/x"))
unfolding entry get longest text_dec ℕ_discrete
manifest_rlocation-longest_example =
    manifest_rlocation-longest manifest (codes "data+1/dir/x") no_double_x relative_x

no_double_slash_x : includes (codes "/x") (codes "//") ≡ false
unfolding includes starts_with text_dec ℕ_discrete
no_double_slash_x = refl

slash_x : starts_with (codes "/x") (codes "/") ≡ true
unfolding starts_with text_dec ℕ_discrete
slash_x = refl

no_entry : (e : ℕ) → entry [] (take e (codes "/x")) ≡ none
unfolding entry get
no_entry e = refl

prefix_loop-diverges_example : prefix_loop 1000 [] (codes "/x") 2 ≡ err diverged
prefix_loop-diverges_example =
    prefix_loop-diverges [] (codes "/x") 1000 slash_x no_double_slash_x (omega arith) no_entry

abbrev manifest_entries : List Entry
manifest_entries =
    escaped (codes "data/a b") (codes "/cache/a b") ∷ plain (codes "data/c") (codes "/cache/c") ∷ []

abbrev file_at : Text → Text → Text → Option Text
file_at name content path = if path == name then some content else none

manifest_read :
    file_at (codes "/m") (print_entries manifest_entries) (codes "/m")
    ≡ some (print_entries manifest_entries)
unfolding text_dec
manifest_read = refl

load_runfiles-print_example :
    load_runfiles (file_at (codes "/m") (print_entries manifest_entries)) (codes "/m")
    ≡ ok (dict_of manifest_entries [])
load_runfiles-print_example =
    load_runfiles-print (file_at (codes "/m") (print_entries manifest_entries)) (codes "/m")
      manifest_entries manifest_read
      (
        tt,
        (
          (
            Lacks-contains b' ' (codes "data/c") (unfold ℕ_discrete in refl),
            Lacks-contains 10 (codes "data/c") (unfold ℕ_discrete in refl),
            Lacks-contains 10 (codes "/cache/c") (unfold ℕ_discrete in refl),
          ),
          tt,
        ),
      )

lookup-init_example :
    (lookup (init [] (((codes "a+", codes "x"), codes "y") ∷ [])) none (codes "x") ≡ none)
    × (lookup (init [] (((codes "a+", codes "x"), codes "y") ∷ [])) (some (codes "a+b")) (codes "x")
        ≡ some (codes "y"))
unfolding scan get starts_with text_dec ℕ_discrete
lookup-init_example =
    lookup-init [] (((codes "a+", codes "x"), codes "y") ∷ []) (codes "a+b") (codes "x")

abbrev mappings : List Mapping
mappings = record { source = []; apparent = codes "x"; canonical = codes "x+" } ∷ []

abbrev field : (s : Text) → Lacks b',' s → IsOneLine s → IsField s
field s h g = record { one_line = g; no_comma = h }

x-IsField : IsField (codes "x")
x-IsField = record { one_line = ground arith; no_comma = ground arith }

x_plus-IsField : IsField (codes "x+")
x_plus-IsField = record { one_line = ground arith; no_comma = ground arith }

x-IsMapping : IsMapping (record { source = []; apparent = codes "x"; canonical = codes "x+" })
x-IsMapping = record {
  source = record { one_line = tt; no_comma = tt };
  apparent = x-IsField;
  canonical = x_plus-IsField;
}

mappings_read :
    file_at (codes "/r") (print_mappings mappings) (codes "/r") ≡ some (print_mappings mappings)
unfolding text_dec
mappings_read = refl

create_from_file-print_example :
    create_from_file (file_at (codes "/r") (print_mappings mappings)) (some (codes "/r"))
    ≡ ok (from_tables (tables_of mappings no_tables))
create_from_file-print_example =
    create_from_file-print (file_at (codes "/r") (print_mappings mappings)) (codes "/r") mappings
      (λ e. cc e) mappings_read (x-IsMapping, tt)

two_fields : length (split b',' (codes "a,b")) ≢ 3
unfolding split ℕ_discrete
two_fields = omega arith

add_lines-malformed_example :
    add_lines (codes "a,b,c" ∷ codes "a,b" ∷ codes "d,e,f" ∷ []) no_tables ≡ err value_error
add_lines-malformed_example =
    add_lines-malformed (codes "a,b,c" ∷ []) (codes "a,b") (codes "d,e,f" ∷ []) no_tables two_fields
