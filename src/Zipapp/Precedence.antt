-- ===== src/Zipapp/Precedence.antt =====
-- Symbolic links take precedence in tools/private/zipapp/zipper.py.
use mathlib.Core.List.{Memᴰ}
use rules_python.Base.{
  ap, sym, ◌∙◌, err-ne-ok, ok-injective, nat_eq, text_eq, pair_eq, ◌≡◌, refl, inl, inr, Bool, true,
  false, ◌&&◌, ◌||◌, Option, none, some, List, [], ◌∷◌, Text, ◌==◌, codes, ok, arith, Lacks, All,
  Bool-cases, Result-cases,
}
use rules_python.Base.Order.{
  sort_by, text_lt, text_lt_irrefl, text_lt_connected, text_lt_trans, text_le_trans, SortedBy,
  sort_by-SortedBy,
}
use rules_python.Base.{==_sound}
use rules_python.Text.{replace, replace_from, starts_with, text_lines}
use rules_python.Zipapp.Names.{find_member, first_entry, create_zip-first}
use rules_python.Zipapp.Write.{
  Member, Files, link_to, link_attr, convert_symlink_target, content_member, normalize_zip_path,
  member_of, create_zip,
}
use rules_python.Zipapp.Entry.{
  Kind, symlink, Entry, Layout, read_manifest, entry_lt, is_link, parse_lines,
}

text_lt_asym : (a b : Text) → text_lt a b ≡ true → text_lt b a ≡ false
text_lt_asym a b h = ground (arith, text_lt_trans a b a, text_lt_irrefl a)

entry_lt_asym : (a b : Entry) → entry_lt a b ≡ true → entry_lt b a ≡ false
unfolding entry_lt
entry_lt_asym a b h = ground (arith, text_lt_asym a.zip_path b.zip_path, text_lt_irrefl a.zip_path)

entry_le_trans :
    (a b c : Entry) → entry_lt b a ≡ false → entry_lt c b ≡ false → entry_lt c a ≡ false
unfolding entry_lt
entry_le_trans a b c g h =
    ground (
      arith,
      text_le_trans a.zip_path b.zip_path c.zip_path,
      text_lt_connected a.zip_path b.zip_path,
    )

-- The entries come in the order of their keys.
read_manifest-SortedBy :
    (o : Layout) (content : Option Text) (es : List Entry)
    → read_manifest o content ≡ ok es
    → SortedBy entry_lt es
unfolding read_manifest
read_manifest-SortedBy o none es h = absurd (ground arith)
read_manifest-SortedBy o (some content) es h =
    elim (Result-cases (parse_lines o (text_lines content))) [
      | inl (raw, q) ↦
          let sorted : sort_by entry_lt raw ≡ es = ground arith in
          rw (← sorted) (sort_by-SortedBy entry_lt entry_lt_asym entry_le_trans raw)
      | inr (x, q) ↦ absurd (ground arith)
    ]

replace-Lacks : (s : Text) → Lacks b'\\' s → replace s (codes "\\") (codes "/") ≡ s
unfolding replace replace_from starts_with
replace-Lacks [] h = refl
replace-Lacks (c ∷ s) h = ground (arith, replace-Lacks s h.1)

normalize_zip_path-Lacks : (s : Text) → Lacks b'\\' s → normalize_zip_path s ≡ s
unfolding normalize_zip_path
normalize_zip_path-Lacks s h = replace-Lacks s h

-- Some symbolic link stands at the path.
abbrev pub has_link : Text → List Entry → Bool
has_link p [] = false
has_link p (e ∷ es) = (e.zip_path == p && is_link e.kind) || has_link p es

-- An entry that no later link precedes is a link, if a link at its path follows.
link_first :
    (x : Entry) (es : List Entry)
    → All (λ y. entry_lt y x ≡ false) es
    → has_link x.zip_path es ≡ true
    → is_link x.kind ≡ true
unfolding entry_lt
link_first x [] h g = absurd (cc)
link_first x (e ∷ es) h g = ground (arith, link_first x es h.1, text_lt_irrefl x.zip_path)

first_link :
    (p : Text) (es : List Entry)
    → SortedBy entry_lt es
    → All (λ e. Lacks b'\\' e.zip_path) es
    → has_link p es ≡ true
    → (e : Entry) × Memᴰ e es
      × (first_entry p es ≡ some e)
      × (is_link e.kind ≡ true)
      × (e.zip_path ≡ p)
      × (normalize_zip_path e.zip_path ≡ p)
first_link p [] s l h = absurd (cc)
first_link p (x ∷ es) s l h = elim (Bool-cases (x.zip_path == p)) [
  | inl same ↦
      let n = normalize_zip_path-Lacks x.zip_path l.0 in
      let at : x.zip_path ≡ p = ==_sound x.zip_path p same in
      (x, Memᴰ.head refl, ground (arith, n), link_of at, at, n ∙ at)
  | inr other ↦
      let n = normalize_zip_path-Lacks x.zip_path l.0 in
      let (e, in_rest, first, link, at, name) = first_link p es s.1 l.1 (ground arith) in
      (e, Memᴰ.tail in_rest, ground (arith, n), link, at, name)
]
  where
    link_of : x.zip_path ≡ p → is_link x.kind ≡ true
    link_of at = elim (Bool-cases (is_link x.kind)) [
      | inl yes_link ↦ yes_link
      | inr no_link ↦ link_first x es s.0 (ground arith)
    ]

is_link-symlink : (k : Kind) → is_link k ≡ true → k ≡ symlink
is_link-symlink symlink h = refl
is_link-symlink _ h = ground arith

-- The member that a link makes holds the link's target.
link_member :
    (fs : Files) (sep p : Text) (e : Entry) (m : Member)
    → e.kind ≡ symlink
    → normalize_zip_path e.zip_path ≡ p
    → member_of fs sep e ≡ ok m
    → (target : Text) × (e.content_path ≡ some target)
      × (m ≡ record {
        name = p;
        external_attr = link_attr;
        content = link_to (convert_symlink_target target sep);
      })
unfolding member_of
link_member fs sep p e m k n h = made e.content_path refl (
    ap (λ q. content_member fs sep q p e.is_symlink_str e.content_path) (sym k)
    ∙ (ap (λ q. content_member fs sep e.kind q e.is_symlink_str e.content_path) (sym n) ∙ h))
  where
    made :
        (content : Option Text)
        → e.content_path ≡ content
        → content_member fs sep symlink p e.is_symlink_str content ≡ ok m
        → (target : Text) × (e.content_path ≡ some target)
          × (m ≡ record {
            name = p;
            external_attr = link_attr;
            content = link_to (convert_symlink_target target sep);
          })
    made none c g = absurd (err-ne-ok g)
    made (some target) c g = (target, c, sym (ok-injective g))

-- Where a manifest has a symbolic link at a path, and no path of it has a backslash, the member at
-- that path is a link to the target of such a link of the manifest, whatever other entries the path
-- has.
pub create_zip-precedence :
    (fs : Files) (sep : Text) (o : Layout) (content : Option Text) (es : List Entry)
    (ms : List Member) (p : Text)
    → read_manifest o content ≡ ok es
    → create_zip fs sep o content ≡ ok ms
    → All (λ e. Lacks b'\\' e.zip_path) es
    → has_link p es ≡ true
    → (e : Entry) × Memᴰ e es
      × (e.kind ≡ symlink)
      × (e.zip_path ≡ p)
      × (target : Text) × (e.content_path ≡ some target)
      × (find_member p ms
          ≡ some (record {
            name = p;
            external_attr = link_attr;
            content = link_to (convert_symlink_target target sep);
          }))
create_zip-precedence fs sep o content es ms p r h l link =
    let (e, member, first, is, at, name) =
      first_link p es (read_manifest-SortedBy o content es r) l link in
    let (m, found, made) = create_zip-first fs sep o content es ms p e r h first in
    let kind = is_link-symlink e.kind is in
    let (target, held, same) = link_member fs sep p e m kind name made in
    (e, member, kind, at, target, held, found ∙ ap some same)
