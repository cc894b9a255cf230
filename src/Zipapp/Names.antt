-- ===== src/Zipapp/Names.antt =====
-- The names of the zip of tools/private/zipapp/zipper.py, and the entry that each comes from.
use rules_python.Base.{
  >>=-eq-ok, nat_eq, text_eq, pair_eq, ◌≡◌, refl, ◌∙◌, ◌⊎◌, inl, inr, true, false, ◌||◌, Option,
  none, some, List, [], ◌∷◌, ◌++◌, Text, ◌==◌, if◌then◌else◌, contains, ok, arith, Bool-cases,
  Result-cases,
}
use rules_python.Zipapp.Entry.{Kind, regular, rf_empty, symlink, Entry, Layout, read_manifest}
use rules_python.Zipapp.Write.{
  Member, Files, Zip, normalize_zip_path, member_of, content_member, file_member, write_entry,
  write_entries, empty_zip, create_zip,
}

abbrev pub names : List Member → List Text
names [] = []
names (m ∷ ms) = m.name ∷ names ms

abbrev pub paths : List Entry → List Text
paths [] = []
paths (e ∷ es) = normalize_zip_path e.zip_path ∷ paths es

-- No text stands in the list twice.
abbrev pub Distinct : List Text → Type 0
Distinct [] = Unit
Distinct (x ∷ xs) = (contains xs x ≡ false) × Distinct xs

abbrev pub find_member : Text → List Member → Option Member
find_member p [] = none
find_member p (m ∷ ms) = if m.name == p then some m else find_member p ms

-- The first entry whose path has the name.
abbrev pub first_entry : Text → List Entry → Option Entry
first_entry p [] = none
first_entry p (e ∷ es) = if normalize_zip_path e.zip_path == p then some e else first_entry p es

contains-names_snoc :
    (ms : List Member) (m : Member) (p : Text)
    → contains (names (ms ++ (m ∷ []))) p ≡ (p == m.name || contains (names ms) p)
contains-names_snoc [] m p = refl
contains-names_snoc (x ∷ ms) m p = ground (arith, contains-names_snoc ms m p)

Distinct-snoc :
    (ms : List Member) (m : Member)
    → Distinct (names ms)
    → contains (names ms) m.name ≡ false
    → Distinct (names (ms ++ (m ∷ [])))
Distinct-snoc [] m d h = (refl, tt)
Distinct-snoc (x ∷ ms) m d h =
    (ground (arith, contains-names_snoc ms m x.name), Distinct-snoc ms m d.1 (ground arith))

find_member-snoc :
    (ms : List Member) (m : Member) (p : Text)
    → find_member p (ms ++ (m ∷ []))
      ≡ (if contains (names ms) p then find_member p ms else if m.name == p then some m else none)
find_member-snoc [] m p = refl
find_member-snoc (x ∷ ms) m p = ground (arith, find_member-snoc ms m p)

file_member-name :
    (fs : Files) (sep name flag content : Text) (m : Member)
    → file_member fs sep name flag content ≡ ok m
    → m.name ≡ name
file_member-name fs sep name flag content m h = ground arith

content_member-name :
    (fs : Files) (sep : Text) (kind : Kind) (name flag : Text) (content : Option Text) (m : Member)
    → content_member fs sep kind name flag content ≡ ok m
    → m.name ≡ name
content_member-name fs sep rf_empty name flag content m h = ground arith
content_member-name fs sep symlink name flag none m h = ground arith
content_member-name fs sep symlink name flag (some t) m h = ground arith
content_member-name fs sep regular name flag none m h = ground arith
content_member-name fs sep _ name flag none m h = ground arith
content_member-name fs sep _ name flag (some t) m h = file_member-name fs sep name flag t m h

member_of-name :
    (fs : Files) (sep : Text) (e : Entry) (m : Member)
    → member_of fs sep e ≡ ok m
    → m.name ≡ normalize_zip_path e.zip_path
unfolding member_of
member_of-name fs sep e m h =
    content_member-name fs sep e.kind _ e.is_symlink_str e.content_path m h

-- The invariant of the loop: `seen` lists the names, and no name stands twice.
record IsZip (z : Zip) : Type 0 where
  same : (p : Text) → contains z.seen p ≡ contains (names z.members) p
  distinct : Distinct (names z.members)

empty_zip-IsZip : IsZip empty_zip
empty_zip-IsZip = record { same = λ p. refl; distinct = tt }

add_member-IsZip :
    (z : Zip) (m : Member)
    → IsZip z
    → contains z.seen m.name ≡ false
    → IsZip (record { seen = m.name ∷ z.seen; members = z.members ++ (m ∷ []) })
add_member-IsZip z m v h = record {
  same = λ p. ground (arith, contains-names_snoc z.members m p, v.same p);
  distinct = Distinct-snoc z.members m v.distinct (ground (arith, v.same m.name));
}

-- The two ways in which an entry is written.
write_entry-cases :
    (fs : Files) (sep : Text) (e : Entry) (z z' : Zip)
    → write_entry fs sep e z ≡ ok z'
    → ((contains z.seen (normalize_zip_path e.zip_path) ≡ true) × (z' ≡ z))
      ⊎ ((m : Member) × (contains z.seen m.name ≡ false)
          × (m.name ≡ normalize_zip_path e.zip_path)
          × (member_of fs sep e ≡ ok m)
          × (z' ≡ record { seen = m.name ∷ z.seen; members = z.members ++ (m ∷ []) }))
unfolding write_entry
write_entry-cases fs sep e z z' h =
    elim (Bool-cases (contains z.seen (normalize_zip_path e.zip_path))) [
      | inl old ↦ inl (old, ground arith)
      | inr new ↦ elim (Result-cases (member_of fs sep e)) [
        | inl (m, q) ↦
            let n = member_of-name fs sep e m q in inr (m, rw n new, n, q, ground (arith, n))
        | inr (x, q) ↦ absurd (ground arith)
      ]
    ]

-- What the loop leaves of the name `p`: the member that it had, or that of the first entry.
Written : Files → Text → Text → List Entry → Zip → Zip → Type 0
Written fs sep p es z z' =
    (contains (names z'.members) p ≡ (contains (names z.members) p || contains (paths es) p))
    × (contains (names z.members) p ≡ true → find_member p z'.members ≡ find_member p z.members)
    × (contains (names z.members) p ≡ false
        → (e : Entry) → first_entry p es ≡ some e
        → (m : Member) × (find_member p z'.members ≡ some m) × (member_of fs sep e ≡ ok m))

module _ (fs : Files) (sep : Text) (p : Text) where
  abbrev name_of : Entry → Text
  name_of e = normalize_zip_path e.zip_path

  -- An entry whose name is taken changes nothing.
  Written-old :
      (e : Entry) (es : List Entry) (z z' : Zip)
      → IsZip z
      → contains z.seen (name_of e) ≡ true
      → Written fs sep p es z z'
      → Written fs sep p (e ∷ es) z z'
  unfolding Written
  Written-old e es z z' v old w = (
    ground (arith, w.0, v.same (name_of e)),
    w.1,
    λ new e' first. w.2 new e' (ground (arith, v.same (name_of e))),
  )

  Written-new :
      (e : Entry) (es : List Entry) (m : Member) (z z' : Zip)
      → m.name ≡ name_of e
      → member_of fs sep e ≡ ok m
      → contains (names z.members) m.name ≡ false
      → Written fs sep p es (record { seen = m.name ∷ z.seen; members = z.members ++ (m ∷ []) }) z'
      → Written fs sep p (e ∷ es) z z'
  unfolding Written
  Written-new e es m z z' n made new w = (
    ground (arith, w.0, contains-names_snoc z.members m p),
    λ old.
        w.1 (ground (arith, contains-names_snoc z.members m p))
        ∙ ground (arith, find_member-snoc z.members m p),
    λ fresh e' first. elim (Bool-cases (name_of e == p)) [
      | inl same ↦ (
        m,
        w.1 (ground (arith, contains-names_snoc z.members m p))
            ∙ ground (arith, find_member-snoc z.members m p),
        ground arith,
      )
      | inr other ↦ w.2 (ground (arith, contains-names_snoc z.members m p)) e' (ground arith)
    ],
  )

  write_entries-Written :
      (es : List Entry) (z z' : Zip)
      → IsZip z
      → write_entries fs sep es z ≡ ok z'
      → IsZip z' × Written fs sep p es z z'
  unfolding write_entries
  write_entries-Written [] z z' v h =
      let same : z' ≡ z = ground arith in
      rw same (v, unfold Written in (ground arith, λ _. refl, λ _ e first. absurd (ground arith)))
  write_entries-Written (e ∷ es) z z' v h =
      let (z1, one, rest) = >>=-eq-ok (write_entry fs sep e z) (write_entries fs sep es) h in
      elim (write_entry-cases fs sep e z z1 one) [
        | inl (old, same) ↦
            let (v', w) = write_entries-Written es z z' v (rw same at rest) in
            (v', Written-old e es z z' v old w)
        | inr (m, new, n, made, same) ↦
            let (v', w) =
              write_entries-Written es _ z' (add_member-IsZip z m v new) (rw same at rest) in
            (v', Written-new e es m z z' n made (ground (arith, v.same m.name)) w)
      ]

create_zip-parts :
    (fs : Files) (sep : Text) (o : Layout) (content : Option Text) (es : List Entry)
    (ms : List Member)
    → read_manifest o content ≡ ok es
    → create_zip fs sep o content ≡ ok ms
    → (z : Zip) × (write_entries fs sep es empty_zip ≡ ok z) × (z.members ≡ ms)
unfolding create_zip
create_zip-parts fs sep o content es ms r h =
    elim (Result-cases (write_entries fs sep es empty_zip)) [
      | inl (z, q) ↦ (z, q, ground arith)
      | inr (x, q) ↦ absurd (ground arith)
    ]

-- No name stands twice in the zip, and its names are those of the entries, with backslashes turned
-- into slashes.
pub create_zip-names :
    (fs : Files) (sep : Text) (o : Layout) (content : Option Text) (es : List Entry)
    (ms : List Member)
    → read_manifest o content ≡ ok es
    → create_zip fs sep o content ≡ ok ms
    → Distinct (names ms) × ((p : Text) → contains (names ms) p ≡ contains (paths es) p)
create_zip-names fs sep o content es ms r h =
    let (z, w, same) = create_zip-parts fs sep o content es ms r h in
    let fact = λ (p : Text). write_entries-Written fs sep p es empty_zip z empty_zip-IsZip w in
    rw (← same) ((fact []).0.distinct, λ p. unfold Written in (fact p).1.0)

-- The member of a name is made from the first entry, in the order of the manifest's keys, that
-- has the name.
pub create_zip-first :
    (fs : Files) (sep : Text) (o : Layout) (content : Option Text) (es : List Entry)
    (ms : List Member) (p : Text) (e : Entry)
    → read_manifest o content ≡ ok es
    → create_zip fs sep o content ≡ ok ms
    → first_entry p es ≡ some e
    → (m : Member) × (find_member p ms ≡ some m) × (member_of fs sep e ≡ ok m)
create_zip-first fs sep o content es ms p e r h first =
    let (z, w, same) = create_zip-parts fs sep o content es ms r h in
    let fact = (write_entries-Written fs sep p es empty_zip z empty_zip-IsZip w).1 in
    rw (← same) (unfold Written in fact.2 refl e first)
