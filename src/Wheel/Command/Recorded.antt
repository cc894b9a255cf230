-- ===== src/Wheel/Command/Recorded.antt =====
-- The RECORD that the command of tools/wheelmaker.py leaves.
use rules_python.Base.{
  nat_eq, text_eq, ◌≡◌, refl, Option, none, some, List, [], ◌∷◌, ◌++◌, Text, codes, ok, err, Result,
  subst, ok-injective, err-ne-ok, >>=-eq-ok, ◌>>=◌, arith, sym, ap,
}
use rules_python.Wheel.Naming.{Tags}
use rules_python.Wheel.Archive.{
  data_path, WhlFile, add_recordfile, record_contents, member_name, distinfo_path, add_copied,
  add_string,
}
use rules_python.Wheel.Archive.Record.{IsRecorded, add_file-IsRecorded, add_string-IsRecorded}
use rules_python.Wheel.Command.{
  required, wheel_maker, stamped, sorted_files, or_empty, parse_file_pairs, texts_lt,
  add_metadata_text, sort_by, add_distinfo, metadata_contents, Arguments, Host, Output, add,
  add_files, add_wheelfile, add_metadata, add_entry_points, add_listed, open_wheel, fill, main,
  block_size,
}

-- Whatever the call returns has the property.
abbrev Holds : (WhlFile → Type 0) → Result WhlFile → Type 0
Holds P (ok w) = P w
Holds P (err x) = Unit

Holds-eq : (P : WhlFile → Type 0) (r : Result WhlFile) {w : WhlFile} → Holds P r → r ≡ ok w → P w
Holds-eq P (ok v) h e = subst P (ok-injective e) h
Holds-eq P (err x) h e = absurd (err-ne-ok e)

Holds-of_eq :
    (P : WhlFile → Type 0) (r : Result WhlFile) → ((w : WhlFile) → r ≡ ok w → P w) → Holds P r
Holds-of_eq P (ok w) h = h w refl
Holds-of_eq P (err x) h = tt

Holds-bind :
    (P Q : WhlFile → Type 0) (m : Result WhlFile) (f : WhlFile → Result WhlFile)
    → Holds P m
    → ((w : WhlFile) → P w → Holds Q (f w))
    → Holds Q (m >>= f)
Holds-bind P Q (ok w) f h g = g w h
Holds-bind P Q (err x) f h g = tt

-- A value of another type does not matter.
Holds-any {ℓ} :
    {A : Type ℓ} (Q : WhlFile → Type 0) (m : Result A) (f : A → Result WhlFile)
    → ((a : A) → Holds Q (f a))
    → Holds Q (m >>= f)
Holds-any Q (ok a) f g = g a
Holds-any Q (err x) f g = tt

abbrev data_listed : Arguments → List (List Text)
data_listed a = sort_by texts_lt (parse_file_pairs (or_empty a.data_files))

abbrev distinfo_listed : Arguments → List (List Text)
distinfo_listed a = sort_by texts_lt (parse_file_pairs (or_empty a.extra_distinfo_file))

module _ (h : Host) where
  abbrev Recorded : WhlFile → Type 0
  Recorded w = IsRecorded h.sha256 w

  add-Recorded : (dist real : Text) (w : WhlFile) → Recorded w → Holds Recorded (add h dist real w)
  add-Recorded dist real w r = Holds-of_eq Recorded (add h dist real w) (λ w' e.
      add_file-IsRecorded h.sha256 h.fs block_size (omega arith) h.depth dist real w w' r e)

  add_files-Recorded :
      (files : List (Text × Text)) (w : WhlFile) → Recorded w → Holds Recorded (add_files h files w)
  unfolding add_files
  add_files-Recorded [] w r = r
  add_files-Recorded ((dist, real) ∷ files) w r =
      Holds-bind Recorded Recorded (add h dist real w) (add_files h files)
        (add-Recorded dist real w r) (λ w' r'. add_files-Recorded files w' r')

  add_listed-Recorded :
      (path : WhlFile → Text → Text) (files : List (List Text)) (w : WhlFile)
      → Recorded w
      → Holds Recorded (add_listed h path files w)
  unfolding add_listed
  add_listed-Recorded path [] w r = r
  add_listed-Recorded path ([] ∷ files) w r = tt
  add_listed-Recorded path ((a ∷ []) ∷ files) w r = tt
  add_listed-Recorded path ((a ∷ b ∷ []) ∷ files) w r =
      Holds-bind Recorded Recorded (add h (path w a) b w) (add_listed h path files)
        (add-Recorded (path w a) b w r) (λ w' r'. add_listed-Recorded path files w' r')
  add_listed-Recorded path ((a ∷ b ∷ c ∷ l) ∷ files) w r = tt

  add_wheelfile-Recorded : (t : Tags) (w : WhlFile) → Recorded w → Recorded (add_wheelfile h t w)
  unfolding add_wheelfile
  add_wheelfile-Recorded t w r = add_string-IsRecorded h.sha256 _ _ w r

  add_metadata-Recorded :
      (a : Arguments) (name : Text) (t : Tags) (w : WhlFile)
      → Recorded w
      → Holds Recorded (add_metadata h a name t w)
  unfolding add_metadata
  add_metadata-Recorded a name t w r =
      Holds-any Recorded (metadata_contents h a name t.version) (add_metadata_text h w) λ contents.
        add_string-IsRecorded h.sha256 (distinfo_path w (codes "METADATA")) (h.utf8 contents) w r

  add_entry_points-Recorded :
      (file : Option Text) (w : WhlFile) → Recorded w → Holds Recorded (add_entry_points h file w)
  add_entry_points-Recorded none w r = r
  add_entry_points-Recorded (some []) w r = r
  add_entry_points-Recorded (some (c ∷ file)) w r = add-Recorded _ (c ∷ file) w r

  add_distinfo-Recorded :
      (a : Arguments) (w : WhlFile) → Recorded w → Holds Recorded (add_distinfo h a w)
  unfolding add_distinfo
  add_distinfo-Recorded a w r =
      Holds-bind Recorded Recorded (add_listed h data_path (data_listed a) w)
        (add_listed h distinfo_path (distinfo_listed a))
        (add_listed-Recorded data_path (data_listed a) w r)
        (add_listed-Recorded distinfo_path (distinfo_listed a))

  fill-Recorded :
      (a : Arguments) (files : List (Text × Text)) (name : Text) (t : Tags)
      → Holds Recorded (fill h a files name t)
  unfolding fill open_wheel
  fill-Recorded a files name t =
      Holds-bind Recorded Recorded (add_files h files (open_wheel h a t)) _
        (add_files-Recorded files (open_wheel h a t) tt)
        λ w1 r1.
          Holds-bind Recorded Recorded (add_metadata h a name t (add_wheelfile h t w1)) _
            (add_metadata-Recorded a name t _ (add_wheelfile-Recorded t w1 r1))
            λ w2 r2.
              Holds-bind Recorded Recorded (add_entry_points h a.entry_points_file w2)
                (add_distinfo h a) (add_entry_points-Recorded a.entry_points_file w2 r2)
                (add_distinfo-Recorded a)

  -- The wheel before its RECORD is written.
  filled_of :
      (a : Arguments) (o : Output)
      → main h a ≡ ok o
      → (w : WhlFile) × Recorded w × (o.archive ≡ add_recordfile h.sha256 h.utf8 w)
  unfolding main
  filled_of a o e =
      let (files, _, e1) = >>=-eq-ok (sorted_files h a) _ e in
      let (name, _, e2) = >>=-eq-ok (stamped h a a.name) _ e1 in
      let (version, _, e3) = >>=-eq-ok (stamped h a a.version) _ e2 in
      let (t, _, e4) = >>=-eq-ok (wheel_maker h a name version) _ e3 in
      let (w, made, e5) = >>=-eq-ok (fill h a files name t) _ e4 in
      let (name_file, _, e6) = >>=-eq-ok (required a.name_file) _ e5 in
      (
        w,
        Holds-eq Recorded _ (fill-Recorded a files name t) made,
        sym (ap (λ (p : Output). p.archive) (ok-injective e6)),
      )

-- When the command returns, the last member of the archive is the RECORD, the text of the entries
-- of all members before it; each of those entries has its member's name, but for leading slashes,
-- the digest of its bytes and their number, and there are as many entries as members.
pub main-IsRecorded :
    (h : Host) (a : Arguments) (o : Output)
    → main h a ≡ ok o
    → (w : WhlFile) × IsRecorded h.sha256 w
      × (o.archive.members
          ≡ w.members
            ++ (record {
              name = member_name (distinfo_path w (codes "RECORD"));
              contents = h.utf8 (record_contents w);
            }
                ∷ []))
unfolding add_recordfile add_string add_copied
main-IsRecorded h a o e =
    let (w, r, same) = filled_of h a o e in (w, r, ap (λ (v : WhlFile). v.members) same)
