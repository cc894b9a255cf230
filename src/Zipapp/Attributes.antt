-- ===== src/Zipapp/Attributes.antt =====
-- The attributes that tools/private/zipapp/zipper.py gives a member, by its content.
use rules_python.Base.{
  nat_eq, text_eq, ℕ, ◌*◌, ◌%◌, Bool, true, false, Option, none, some, List, [], ◌∷◌, ◌++◌, Text,
  if◌then◌else◌, contains, Result, ok, err, ◌>>=◌, All, All-append, >>=-eq-ok, ok-injective,
  err-ne-ok, ◌≡◌, refl, subst,
}
use rules_python.Zipapp.Entry.{Kind, rf_empty, symlink, Entry, Layout, read_manifest}
use rules_python.Zipapp.Write.{
  Content, empty_content, link_to, bytes_of, Member, Files, Zip, empty_attr, link_attr, member_of,
  write_entry, write_entries, create_zip, is_stored_link, content_member, convert_symlink_target,
  normalize_zip_path, empty_zip,
}

-- The attributes that a member has by its content.
abbrev pub Attributed : Files → Content → ℕ → Type 0
Attributed fs empty_content attr = attr ≡ empty_attr
Attributed fs (link_to target) attr = attr ≡ link_attr
Attributed fs (bytes_of path) attr =
    (mode : ℕ) × (fs.st_mode path ≡ ok mode) × (attr ≡ mode % 65536 * 65536)

abbrev pub IsMade : Files → Member → Type 0
IsMade fs m = Attributed fs m.content m.external_attr

linked-IsMade :
    (fs : Files) (name : Text) (target : Text → Text) (r : Result Text) (m : Member)
    → (r >>= λ t.
        ok (record { name = name; external_attr = link_attr; content = link_to (target t) }))
      ≡ ok m
    → IsMade fs m
linked-IsMade fs name target (ok t) m h = subst (IsMade fs) (ok-injective h) refl
linked-IsMade fs name target (err e) m h = absurd (err-ne-ok h)

copied-IsMade :
    (fs : Files) (name content : Text) (r : Result ℕ) (m : Member)
    → fs.st_mode content ≡ r
    → (r >>= λ mode.
        ok (record {
          name = name;
          external_attr = mode % 65536 * 65536;
          content = bytes_of content;
        }))
      ≡ ok m
    → IsMade fs m
copied-IsMade fs name content (ok mode) m e h = subst (IsMade fs) (ok-injective h) (mode, e, refl)
copied-IsMade fs name content (err x) m e h = absurd (err-ne-ok h)

stored-IsMade :
    (fs : Files) (sep name content : Text) (b : Bool) (m : Member)
    → (if b
        then (fs.readlink content >>= λ t. ok (record {
          name = name;
          external_attr = link_attr;
          content = link_to (convert_symlink_target t sep);
        }))
        else (fs.st_mode content >>= λ mode. ok (record {
          name = name;
          external_attr = mode % 65536 * 65536;
          content = bytes_of content;
        })))
      ≡ ok m
    → IsMade fs m
stored-IsMade fs sep name content true m h =
    linked-IsMade fs name (λ t. convert_symlink_target t sep) (fs.readlink content) m h
stored-IsMade fs sep name content false m h =
    copied-IsMade fs name content (fs.st_mode content) m refl h

content_member-IsMade :
    (fs : Files) (sep : Text) (k : Kind) (name s : Text) (content : Option Text) (m : Member)
    → content_member fs sep k name s content ≡ ok m
    → IsMade fs m
content_member-IsMade fs sep rf_empty name s content m h = subst (IsMade fs) (ok-injective h) refl
content_member-IsMade fs sep symlink name s none m h = absurd (err-ne-ok h)
content_member-IsMade fs sep symlink name s (some t) m h = subst (IsMade fs) (ok-injective h) refl
content_member-IsMade fs sep _ name s none m h = absurd (err-ne-ok h)
content_member-IsMade fs sep _ name s (some c) m h =
    stored-IsMade fs sep name c (is_stored_link fs s c) m h

member_of-IsMade :
    (fs : Files) (sep : Text) (e : Entry) (m : Member) → member_of fs sep e ≡ ok m → IsMade fs m
unfolding member_of
member_of-IsMade fs sep e m h =
    content_member-IsMade fs sep e.kind (normalize_zip_path e.zip_path) e.is_symlink_str
      e.content_path m h

added-IsMade :
    (fs : Files) (name : Text) (z z' : Zip) (r : Result Member)
    → ((m : Member) → r ≡ ok m → IsMade fs m)
    → All (IsMade fs) z.members
    → (r >>= λ m. ok (record { seen = name ∷ z.seen; members = z.members ++ (m ∷ []) })) ≡ ok z'
    → All (IsMade fs) z'.members
added-IsMade fs name z z' (err e) f g h = absurd (err-ne-ok h)
added-IsMade fs name z z' (ok m) f g h =
    subst (λ (y : Zip). All (IsMade fs) y.members) (ok-injective h)
      (All-append (IsMade fs) z.members (m ∷ []) g (f m refl, tt))

unless_seen-IsMade :
    (fs : Files) (b : Bool) (name : Text) (z z' : Zip) (r : Result Member)
    → ((m : Member) → r ≡ ok m → IsMade fs m)
    → All (IsMade fs) z.members
    → (if b
        then ok z
        else (r >>= λ m. ok (record { seen = name ∷ z.seen; members = z.members ++ (m ∷ []) })))
      ≡ ok z'
    → All (IsMade fs) z'.members
unless_seen-IsMade fs true name z z' r f g h =
    subst (λ (y : Zip). All (IsMade fs) y.members) (ok-injective h) g
unless_seen-IsMade fs false name z z' r f g h = added-IsMade fs name z z' r f g h

write_entry-IsMade :
    (fs : Files) (sep : Text) (e : Entry) (z z' : Zip)
    → All (IsMade fs) z.members
    → write_entry fs sep e z ≡ ok z'
    → All (IsMade fs) z'.members
unfolding write_entry
write_entry-IsMade fs sep e z z' g h =
    unless_seen-IsMade fs (contains z.seen (normalize_zip_path e.zip_path))
      (normalize_zip_path e.zip_path) z z' (member_of fs sep e) (member_of-IsMade fs sep e) g h

write_entries-IsMade :
    (fs : Files) (sep : Text) (es : List Entry) (z z' : Zip)
    → All (IsMade fs) z.members
    → write_entries fs sep es z ≡ ok z'
    → All (IsMade fs) z'.members
unfolding write_entries
write_entries-IsMade fs sep [] z z' g h =
    subst (λ (y : Zip). All (IsMade fs) y.members) (ok-injective h) g
write_entries-IsMade fs sep (e ∷ es) z z' g h =
    let (next, first, rest) = >>=-eq-ok (write_entry fs sep e z) (write_entries fs sep es) h in
    write_entries-IsMade fs sep es next z' (write_entry-IsMade fs sep e z next g first) rest

pub create_zip-IsMade :
    (fs : Files) (sep : Text) (o : Layout) (content : Option Text) (ms : List Member)
    → create_zip fs sep o content ≡ ok ms
    → All (IsMade fs) ms
unfolding create_zip
create_zip-IsMade fs sep o content ms h =
    let (entries, read, rest) = >>=-eq-ok (read_manifest o content) _ h in
    let (z, written, last) = >>=-eq-ok (write_entries fs sep entries empty_zip) _ rest in
    subst (All (IsMade fs)) (ok-injective last)
      (write_entries-IsMade fs sep entries empty_zip z tt written)
