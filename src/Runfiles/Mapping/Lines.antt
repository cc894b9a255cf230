-- ===== src/Runfiles/Mapping/Lines.antt =====
-- The lines of a repository mapping file, as `_RepositoryMapping.create_from_file` reads them.
use rules_python.Base.{
  nat_eq, text_eq, pair_eq, ◌≡◌, refl, Option, some, List, [], ◌∷◌, ◌++◌, Text, Lacks, All, ok,
  arith, err, length, ◌≢◌, value_error, ◌⊎◌, inl, inr,
}
use rules_python.Text.{
  split, split_lines, split-append, split-eq_singleton, IsOneLine, split_lines-append,
}
use rules_python.Runfiles.Mapping.{
  Tables, no_tables, add_mapping, add_fields, add_lines, from_tables, create_from_file,
}

-- A line `source,apparent,canonical`
pub record Mapping : Type 0 where
  pub source : Text
  pub apparent : Text
  pub canonical : Text

pub record IsField (s : Text) : Type 0 where
  pub one_line : IsOneLine s
  pub no_comma : Lacks b',' s

pub record IsMapping (m : Mapping) : Type 0 where
  pub source : IsField m.source
  pub apparent : IsField m.apparent
  pub canonical : IsField m.canonical

abbrev pub print_mapping : Mapping → Text
print_mapping m = m.source ++ (b',' ∷ (m.apparent ++ (b',' ∷ m.canonical)))

abbrev pub print_mappings : List Mapping → Text
print_mappings [] = []
print_mappings (m ∷ ms) = print_mapping m ++ (10 ∷ print_mappings ms)

-- The two dicts after the mappings, in their order.
abbrev pub tables_of : List Mapping → Tables → Tables
tables_of [] t = t
tables_of (m ∷ ms) t = tables_of ms (add_mapping m.source m.apparent m.canonical t)

IsOneLine-append : (a b : Text) → IsOneLine a → IsOneLine b → IsOneLine (a ++ (b',' ∷ b))
IsOneLine-append [] b g h = (ground arith, h)
IsOneLine-append (x ∷ a) b g h = (g.0, IsOneLine-append a b g.1 h)

print_mapping-IsOneLine : (m : Mapping) → IsMapping m → IsOneLine (print_mapping m)
print_mapping-IsOneLine m h =
    IsOneLine-append m.source _ h.source.one_line
      (IsOneLine-append m.apparent _ h.apparent.one_line h.canonical.one_line)

split-print_mapping :
    (m : Mapping)
    → IsMapping m
    → split b',' (print_mapping m) ≡ m.source ∷ m.apparent ∷ m.canonical ∷ []
split-print_mapping m h = rw (
  split-append b',' m.source _ h.source.no_comma,
  split-append b',' m.apparent _ h.apparent.no_comma,
  split-eq_singleton b',' m.canonical h.canonical.no_comma,
)

add_lines-print :
    (ms : List Mapping) (t : Tables)
    → All IsMapping ms
    → add_lines (split_lines (print_mappings ms)) t ≡ ok (tables_of ms t)
unfolding add_lines
add_lines-print [] t h = unfold split_lines in refl
add_lines-print (m ∷ ms) t h =
    rw
      (
        split_lines-append (print_mapping m) _ (print_mapping-IsOneLine m h.0),
        split-print_mapping m h.0,
      )
      (add_lines-print ms _ h.1)

-- A file of mappings at a path that is not empty, one to a line, whose fields have no comma and no
-- line break, is read into the mappings of those lines, the last line for a pair winning.
pub create_from_file-print :
    (read : Text → Option Text) (path : Text) (ms : List Mapping)
    → path ≢ []
    → read path ≡ some (print_mappings ms)
    → All IsMapping ms
    → create_from_file read (some path) ≡ ok (from_tables (tables_of ms no_tables))
unfolding create_from_file
create_from_file-print read [] ms n r h = absurd (n refl)
create_from_file-print read (c ∷ path) ms n r h = rw (r, add_lines-print ms no_tables h)

add_fields_malformed :
    (l : List Text) (t : Tables) → length l ≢ 3 → add_fields l t ≡ err value_error
add_fields_malformed [] t h = refl
add_fields_malformed (a ∷ []) t h = refl
add_fields_malformed (a ∷ b ∷ []) t h = refl
add_fields_malformed (a ∷ b ∷ c ∷ []) t h = absurd (h refl)
add_fields_malformed (a ∷ b ∷ c ∷ d ∷ l) t h = refl

add_fields-cases :
    (l : List Text) (t : Tables)
    → ((t' : Tables) × (add_fields l t ≡ ok t')) ⊎ (add_fields l t ≡ err value_error)
add_fields-cases (a ∷ b ∷ c ∷ []) t = inl (_, refl)
add_fields-cases [] t = inr refl
add_fields-cases (a ∷ []) t = inr refl
add_fields-cases (a ∷ b ∷ []) t = inr refl
add_fields-cases (a ∷ b ∷ c ∷ d ∷ l) t = inr refl

-- A line without exactly three fields is a `ValueError`, whatever stands before and after it.
pub add_lines-malformed :
    (before : List Text) (line : Text) (after : List Text) (t : Tables)
    → length (split b',' line) ≢ 3
    → add_lines (before ++ (line ∷ after)) t ≡ err value_error
unfolding add_lines
add_lines-malformed [] line after t h = rw (add_fields_malformed (split b',' line) t h)
add_lines-malformed (l ∷ before) line after t h = elim (add_fields-cases (split b',' l) t) [
  | inl (t', e) ↦ rw e (add_lines-malformed before line after t' h)
  | inr e ↦ rw e
]
