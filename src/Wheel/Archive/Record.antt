-- ===== src/Wheel/Archive/Record.antt =====
-- The entries that `_WhlFile` records of its members, in tools/wheelmaker.py.
use rules_python.Base.{
  >>=-eq-ok, ok-injective, err-ne-ok, Error, nat_eq, text_eq, pair_eq, ℕ, zero, suc, ◌<◌, ◌≡◌, refl,
  sym, ◌∙◌, subst, inl, inr, List, [], ◌∷◌, ◌++◌, Text, Result, ok, err, length, Bool-cases,
  Result-cases,
}
use rules_python.Base.Order.{sort_by, text_lt}
use rules_python.Text.{decimal}
use rules_python.Wheel.Naming.{arcname_from}
use rules_python.Wheel.Archive.{
  Bytes, FileSystem, Member, RecordEntry, WhlFile, member_name, serialize_digest, add_copied,
  add_string, add_one_file, add_each, add_file,
}
use rules_python.Wheel.Archive.Copy.{copy_loop-copied, copied}

module _ (sha256 : Bytes → Bytes) where
  -- An entry describes a member.
  pub record Describes (e : RecordEntry) (m : Member) : Type 0 where
    pub name : m.name ≡ member_name e.filename
    pub digest : e.digest ≡ serialize_digest sha256 m.contents
    pub size : e.size ≡ decimal (length m.contents)

  -- Entries and members correspond one to one, in their order.
  abbrev pub DescribeAll : List RecordEntry → List Member → Type 0
  DescribeAll [] [] = Unit
  DescribeAll [] (m ∷ ms) = ⊥
  DescribeAll (e ∷ es) [] = ⊥
  DescribeAll (e ∷ es) (m ∷ ms) = Describes e m × DescribeAll es ms

  abbrev pub IsRecorded : WhlFile → Type 0
  IsRecorded w = DescribeAll w.entries w.members

  DescribeAll-snoc :
      (es : List RecordEntry) (ms : List Member) (e : RecordEntry) (m : Member)
      → DescribeAll es ms
      → Describes e m
      → DescribeAll (es ++ (e ∷ [])) (ms ++ (m ∷ []))
  DescribeAll-snoc [] [] e m h d = (d, tt)
  DescribeAll-snoc [] (n ∷ ms) e m h d = absurd h
  DescribeAll-snoc (f ∷ es) [] e m h d = absurd h
  DescribeAll-snoc (f ∷ es) (n ∷ ms) e m h d = (h.0, DescribeAll-snoc es ms e m h.1 d)

  add_copied-IsRecorded :
      (arcname : Text) (contents : Bytes) (w : WhlFile)
      → IsRecorded w
      → IsRecorded (add_copied sha256 arcname (copied contents) w)
  unfolding add_copied
  add_copied-IsRecorded arcname contents w h =
      DescribeAll-snoc w.entries w.members _ _ h
        (record { name = refl; digest = refl; size = refl })

  -- A string that is added is recorded with its digest and length.
  pub add_string-IsRecorded :
      (filename : Text) (contents : Bytes) (w : WhlFile)
      → IsRecorded w
      → IsRecorded (add_string sha256 filename contents w)
  unfolding add_string
  add_string-IsRecorded filename contents w h = add_copied-IsRecorded filename contents w h

  module _ (fs : FileSystem) (block : ℕ) (pos : 0 < block) where
    add_one_file-ok :
        (package_filename real : Text) (w : WhlFile) (contents : Bytes)
        → fs.bytes real ≡ ok contents
        → add_one_file sha256 fs block package_filename real w
          ≡ ok (
              add_copied sha256
                (arcname_from package_filename w.distribution_prefix w.strip_path_prefixes
                  w.add_path_prefix)
                (copied contents)
                w)
    unfolding add_one_file
    add_one_file-ok package_filename real w contents e = rw (e, copy_loop-copied block contents pos)

    add_one_file_error :
        (package_filename real : Text) (w : WhlFile) (x : Error)
        → fs.bytes real ≡ err x
        → add_one_file sha256 fs block package_filename real w ≡ err x
    unfolding add_one_file
    add_one_file_error package_filename real w x e = rw e

    add_one_file-IsRecorded :
        (package_filename real : Text) (w w' : WhlFile)
        → IsRecorded w
        → add_one_file sha256 fs block package_filename real w ≡ ok w'
        → IsRecorded w'
    add_one_file-IsRecorded package_filename real w w' h q = elim (Result-cases (fs.bytes real)) [
      | inl (contents, e) ↦
          let made = add_one_file-ok package_filename real w contents e in
          subst IsRecorded (ok-injective (sym made ∙ q)) (add_copied-IsRecorded _ contents w h)
      | inr (x, e) ↦ absurd (err-ne-ok (sym (add_one_file_error package_filename real w x e) ∙ q))
    ]

    module _ (add : Text → Text → WhlFile → Result WhlFile)
        (keep : (f r : Text) (w w' : WhlFile)
          → IsRecorded w
          → add f r w ≡ ok w'
          → IsRecorded w') where
      add_each-IsRecorded :
          (folder real : Text) (names : List Text) (w w' : WhlFile)
          → IsRecorded w
          → add_each sha256 fs block add folder real names w ≡ ok w'
          → IsRecorded w'
      add_each-IsRecorded folder real [] w w' h q = subst IsRecorded (ok-injective q) h
      add_each-IsRecorded folder real (name ∷ names) w w' h q =
          let (w1, one, rest) =
            >>=-eq-ok (add (folder ++ (b'/' ∷ name)) (real ++ (b'/' ∷ name)) w)
              (add_each sha256 fs block add folder real names) q in
          add_each-IsRecorded folder real names w1 w' (keep _ _ w w1 h one) rest

    -- Adding a file, or a directory with all that lies below it, keeps the entries of the RECORD
    -- and the members in step: each entry has its member's name, but for leading slashes, the
    -- digest of its bytes and their number.
    pub add_file-IsRecorded :
        (fuel : ℕ) (package_filename real : Text) (w w' : WhlFile)
        → IsRecorded w
        → add_file sha256 fs block fuel package_filename real w ≡ ok w'
        → IsRecorded w'
    unfolding add_file
    add_file-IsRecorded zero package_filename real w w' h q = absurd (err-ne-ok q)
    add_file-IsRecorded (suc fuel) package_filename real w w' h q =
        elim (Bool-cases (fs.is_dir real)) [
          | inl e ↦
              add_each-IsRecorded (add_file sha256 fs block fuel) (add_file-IsRecorded fuel)
                package_filename real (sort_by text_lt (fs.listdir real)) w w' h
                (rw (e, add_file) at q)
          | inr e ↦ add_one_file-IsRecorded package_filename real w w' h (rw (e, add_file) at q)
        ]
