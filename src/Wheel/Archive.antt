-- ===== src/Wheel/Archive.antt =====
-- The archive and its RECORD file in tools/wheelmaker.py: the class `_WhlFile`.
pub mod Copy
pub mod Record
pub mod Quoting
use rules_python.Base.{
  ◌/◌, nat_eq, text_eq, pair_eq, ℕ, zero, suc, ◌+◌, ◌-◌, ◌*◌, ◌%◌, ◌<◌, ◌≤◌, ◌≡◌, refl, sym, ◌∙◌,
  ◌≢◌, ap, subst, ◌⊎◌, inl, inr, ◌↔◌, Bool, true, false, not, ◌&&◌, ◌||◌, Option, none, some, List,
  [], ◌∷◌, ◌++◌, map, append_assoc, append-nil, Text, ◌==◌, codes, is_empty, if◌then◌else◌, ltb,
  leb, contains, ==_refl, Result, ok, err, value_error, type_error, key_error, index_error,
  os_error, runtime_error, ◌>>=◌, ◌>>◌, raise_if, traverse, arith, Lacks, All, All-append, length,
  take, drop, select, any, all, Bool-cases, Option-cases, Result-cases, take-append, drop-append,
  length-append, String,
}
use rules_python.Base.{diverged}
use rules_python.Base.Order.{sort_by, text_lt}
use rules_python.Text.{join, strip, lstrip_by, decimal}
use rules_python.Wheel.Naming.{arcname_from}

abbrev pub Bytes : Type 0
Bytes = List ℕ

-- What the command sees of the files: a directory's names, or a file's bytes.
pub record FileSystem : Type 0 where
  pub is_dir : Text → Bool
  pub listdir : Text → List Text
  pub bytes : Text → Result Bytes

-- The digit of six bits in the alphabet of `base64.urlsafe_b64encode`.
abbrev pub digit : ℕ → ℕ
digit n =
    if ltb n 26
    then n + 65
    else if ltb n 52
    then n + 71
    else if ltb n 62
    then n - 4
    else if n == 62
    then b'-'
    else b'_'

-- `base64.urlsafe_b64encode(b).rstrip(b"=")`
unfoldable pub urlsafe_digits : Bytes → Text
urlsafe_digits [] = []
urlsafe_digits (a ∷ []) = digit (a / 4) ∷ digit (a % 4 * 16) ∷ []
urlsafe_digits (a ∷ b ∷ []) = digit (a / 4) ∷ digit (a % 4 * 16 + b / 16) ∷ digit (b % 16 * 4) ∷ []
urlsafe_digits (a ∷ b ∷ c ∷ rest) =
    digit (a / 4)
    ∷ digit (a % 4 * 16 + b / 16)
    ∷ digit (b % 16 * 4 + c / 64)
    ∷ digit (c % 64)
    ∷ urlsafe_digits rest

-- A member of the archive. Its other `ZipInfo` fields are the same for all members.
pub record Member : Type 0 where
  pub name : Text
  pub contents : Bytes

-- An entry `(filename, digest, size)` of `_record`.
pub record RecordEntry : Type 0 where
  pub filename : Text
  pub digest : Text
  pub size : Text

pub record WhlFile : Type 0 where
  pub distribution_prefix : Text
  pub strip_path_prefixes : List Text
  pub add_path_prefix : Text
  pub quote_all_filenames : Bool
  pub entries : List RecordEntry
  pub members : List Member

unfoldable pub distinfo_path : WhlFile → Text → Text
distinfo_path w basename = w.distribution_prefix ++ (codes ".dist-info/" ++ basename)

unfoldable pub data_path : WhlFile → Text → Text
data_path w basename = w.distribution_prefix ++ (codes ".data/" ++ basename)

abbrev pub is_slash : ℕ → Bool
is_slash c = c == b'/'

-- `_zipinfo`: the member's name has no leading slash.
unfoldable pub member_name : Text → Text
member_name filename = lstrip_by is_slash filename

-- What the loop over the blocks of a file has written, hashed and counted.
pub record Copied : Type 0 where
  pub written : Bytes
  pub hashed : Bytes
  pub size : ℕ

-- `while True: block = fsrc.read(n) ...`
unfoldable pub copy_loop : ℕ → ℕ → Bytes → Copied → Result Copied
copy_loop zero n rest c = err diverged
copy_loop (suc fuel) n rest c = elim (take n rest) [
  | [] ↦ ok c
  | x ∷ xs ↦ copy_loop fuel n (drop n rest) (record {
    written = c.written ++ (x ∷ xs);
    hashed = c.hashed ++ (x ∷ xs);
    size = c.size + length (x ∷ xs);
  })
]

abbrev pub nothing : Copied
nothing = record { written = []; hashed = []; size = 0 }

-- `sha256` is the digest of `hashlib.sha256`.
module _ (sha256 : Bytes → Bytes) where
  unfoldable pub serialize_digest : Bytes → Text
  serialize_digest hashed = codes "sha256=" ++ urlsafe_digits (sha256 hashed)

  -- The member, and its entry in `_record`.
  unfoldable pub add_copied : Text → Copied → WhlFile → WhlFile
  add_copied arcname c w = record w {
    members = w.members ++ (record { name = member_name arcname; contents = c.written } ∷ []);
    entries =
        w.entries
        ++ (record { filename = arcname; digest = serialize_digest c.hashed; size = decimal c.size }
            ∷ []);
  }

  unfoldable pub add_string : Text → Bytes → WhlFile → WhlFile
  add_string filename contents w =
      add_copied filename (record { written = contents; hashed = contents; size = length contents })
        w

  module _ (fs : FileSystem) (block : ℕ) where
    -- The branch of `add_file` for a file.
    unfoldable pub add_one_file : Text → Text → WhlFile → Result WhlFile
    add_one_file package_filename real_filename w = do
      contents ← fs.bytes real_filename
      c ← copy_loop (suc (length contents)) block contents nothing
      ok (
          add_copied
            (arcname_from package_filename w.distribution_prefix w.strip_path_prefixes
              w.add_path_prefix)
            c w)

    -- The calls for the names of a directory, where `add` is the call itself.
    abbrev pub add_each :
        (Text → Text → WhlFile → Result WhlFile)
        → Text
        → Text
        → List Text
        → WhlFile
        → Result WhlFile
    add_each add folder real [] w = ok w
    add_each add folder real (name ∷ rest) w = do
      w' ← add (folder ++ (b'/' ∷ name)) (real ++ (b'/' ∷ name)) w
      add_each add folder real rest w'

    -- `add_file`; the fuel bounds the depth of the directories.
    unfoldable pub add_file : ℕ → Text → Text → WhlFile → Result WhlFile
    add_file zero package_filename real_filename w = err diverged
    add_file (suc fuel) package_filename real_filename w = elim (fs.is_dir real_filename) [
      | true ↦
          add_each (add_file fuel) package_filename real_filename
            (sort_by text_lt (fs.listdir real_filename)) w
      | false ↦ add_one_file package_filename real_filename w
    ]

-- `csv.QUOTE_MINIMAL` quotes a lone field that is empty or has a comma, a quote or a line end.
abbrev pub needs_quotes : Text → Bool
needs_quotes s = is_empty s || any (λ c. c == b',' || c == b'"' || c == 10 || c == 13) s

abbrev pub double_quotes : Text → Text
double_quotes [] = []
double_quotes (c ∷ s) =
    let rest = double_quotes s in if c == b'"' then b'"' ∷ b'"' ∷ rest else c ∷ rest

-- `_quote_filename`: the row that `csv` writes ends in `\r\n`, which `strip` removes.
unfoldable pub quote_filename : Bool → Text → Text
quote_filename quote_all filename =
    let name = lstrip_by is_slash filename in
    strip (
      (if quote_all || needs_quotes name then b'"' ∷ (double_quotes name ++ codes "\"") else name)
      ++ (13 ∷ 10 ∷ []))

abbrev pub record_line : Bool → RecordEntry → Text
record_line quote_all e =
    join (codes ",") (quote_filename quote_all e.filename ∷ e.digest ∷ e.size ∷ [])

-- The contents of the RECORD file, in which it lists itself without a digest.
unfoldable pub record_contents : WhlFile → Text
record_contents w =
    join (10 ∷ []) (
      map (record_line w.quote_all_filenames) (
        w.entries
        ++ (record { filename = distinfo_path w (codes "RECORD"); digest = []; size = [] } ∷ [])))
    ++ (10 ∷ [])

-- `utf8` encodes a text.
unfoldable pub add_recordfile : (Bytes → Bytes) → (Text → Bytes) → WhlFile → WhlFile
add_recordfile sha256 utf8 w =
    add_string sha256 (distinfo_path w (codes "RECORD")) (utf8 (record_contents w)) w
