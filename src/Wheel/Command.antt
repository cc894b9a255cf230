-- ===== src/Wheel/Command.antt =====
-- The command of tools/wheelmaker.py: the arguments, and `main`.
pub mod Recorded
use rules_python.Base.{
  nat_eq, text_eq, ℕ, Bool, true, false, ◌&&◌, ◌||◌, Option, none, some, List, [], ◌∷◌, ◌++◌, Text,
  ◌==◌, codes, is_empty, if◌then◌else◌, Result, ok, err, value_error, type_error, attribute_error,
  ◌>>=◌,
}
use rules_python.Base.Order.{sort_by, text_lt}
use rules_python.Text.{split, split_lines}
use rules_python.Wheel.Naming.{normalize_pep440, Tags, distribution_prefix, wheelname, filename}
use rules_python.Wheel.Archive.{
  Bytes, FileSystem, WhlFile, distinfo_path, data_path, add_string, add_file, add_recordfile,
}
use rules_python.Wheel.Metadata.{
  Requirement, resolve_argument_stamp, parse_file_pairs, files_to_package, wheel_text,
  metadata_text, expand_lines,
}

-- What `parse_args` returns, as `argparse` describes it: an option that is not given is `none`,
-- unless it has a default. `--no_compress` and `--description_content_type` are left out: they change
-- none of the contents.
pub record Arguments : Type 0 where
  pub name : Text
  pub version : Text
  pub build_tag : Text
  pub python_tag : Text
  pub abi : Text
  pub platform : Text
  pub out : Option Text
  pub name_file : Option Text
  pub strip_path_prefix : List Text
  pub path_prefix : Text
  pub metadata_file : Option Text
  pub description_file : Option Text
  pub entry_points_file : Option Text
  pub input_file : Option (List Text)
  pub input_file_list : Option (List Text)
  pub extra_distinfo_file : Option (List Text)
  pub data_files : Option (List Text)
  pub volatile_status_file : Option Text
  pub stable_status_file : Option Text

-- The files, and the libraries that the command calls: `hashlib.sha256`, the encoding, the
-- characters of `\w` beyond ASCII, `packaging.version` and `packaging.requirements`. `depth` bounds
-- the depth of the directories.
pub record Host : Type 0 where
  pub fs : FileSystem
  pub depth : ℕ
  pub read : Text → Result Text
  pub sha256 : Bytes → Bytes
  pub utf8 : Text → Bytes
  pub beyond : ℕ → Bool
  pub canonical : Text → Option Text
  pub parse : Text → Result Requirement

-- What the command leaves: the archive at its path, and what it writes to the name file.
pub record Output : Type 0 where
  pub archive : WhlFile
  pub outfile : Text
  pub name_file : Text
  pub canonical_name : Text

abbrev pub or_empty : Option (List Text) → List Text
or_empty none = []
or_empty (some l) = l

abbrev pub pair_lt : Text × Text → Text × Text → Bool
pair_lt p q = text_lt p.0 q.0 || (p.0 == q.0 && text_lt p.1 q.1)

-- The order of lists of texts.
abbrev pub texts_lt : List Text → List Text → Bool
texts_lt [] [] = false
texts_lt [] (y ∷ ys) = true
texts_lt (x ∷ xs) [] = false
texts_lt (x ∷ xs) (y ∷ ys) = text_lt x y || (x == y && texts_lt xs ys)

abbrev pub required : {A : Type 0} → Option A → Result A
required none = err attribute_error
required (some a) = ok a

-- The block size of `add_file`.
abbrev pub block_size : ℕ
block_size = 1048576

module _ (h : Host) where
  abbrev pub split_listed : List Text → List (List Text)
  split_listed [] = []
  split_listed (line ∷ lines) = split b';' line ∷ split_listed lines

  -- `for input_file in arguments.input_file_list`; it is a `TypeError` where none is given.
  unfoldable pub listed_files : List Text → Result (List (List Text))
  listed_files [] = ok []
  listed_files (input_file ∷ rest) = do
    content ← h.read input_file
    more ← listed_files rest
    ok (split_listed (split_lines content) ++ more)

  abbrev pub iterated : Option (List Text) → Result (List Text)
  iterated none = err type_error
  iterated (some l) = ok l

  unfoldable pub sorted_files : Arguments → Result (List (Text × Text))
  sorted_files a = do
    lists ← iterated a.input_file_list
    more ← listed_files lists
    files ← files_to_package (parse_file_pairs (or_empty a.input_file) ++ more) []
    ok (sort_by pair_lt files)

  -- A name or a version with its stamps, where both status files are given.
  abbrev pub resolve_with : Text → Option Text → Option Text → Result Text
  resolve_with argument none stable = ok argument
  resolve_with argument (some volatile) none = ok argument
  resolve_with argument (some volatile) (some stable) = do
    volatile_status ← h.read volatile
    stable_status ← h.read stable
    resolve_argument_stamp argument volatile_status stable_status

  unfoldable pub stamped : Arguments → Text → Result Text
  stamped a argument = resolve_with argument a.volatile_status_file a.stable_status_file

  -- The constructor of `WheelMaker`.
  unfoldable pub wheel_maker : Arguments → Text → Text → Result Tags
  wheel_maker a name version = do
    normalized ← normalize_pep440 h.beyond h.canonical version
    ok (record {
      name = name;
      version = normalized;
      build_tag = a.build_tag;
      python_tag = a.python_tag;
      abi = a.abi;
      platform = a.platform;
      outfile = a.out;
    })

  -- `__enter__`
  unfoldable pub open_wheel : Arguments → Tags → WhlFile
  open_wheel a t = record {
    distribution_prefix = distribution_prefix t;
    strip_path_prefixes = a.strip_path_prefix;
    add_path_prefix = a.path_prefix;
    quote_all_filenames = false;
    entries = [];
    members = [];
  }

  abbrev pub add : Text → Text → WhlFile → Result WhlFile
  add package_filename real_filename w =
      add_file h.sha256 h.fs block_size h.depth package_filename real_filename w

  unfoldable pub add_files : List (Text × Text) → WhlFile → Result WhlFile
  add_files [] w = ok w
  add_files ((package_filename, real_filename) ∷ rest) w = do
    w' ← add package_filename real_filename w
    add_files rest w'

  unfoldable pub add_wheelfile : Tags → WhlFile → WhlFile
  add_wheelfile t w =
      add_string h.sha256 (distinfo_path w (codes "WHEEL")) (h.utf8 (wheel_text t)) w

  -- A file that is named by an option that is not empty.
  abbrev pub read_optional : Option Text → Result (Option Text)
  read_optional none = ok none
  read_optional (some file) =
      if is_empty file then ok none else do content ← h.read file; ok (some content)

  unfoldable pub metadata_contents : Arguments → Text → Text → Result Text
  metadata_contents a name version = do
    description ← read_optional a.description_file
    metadata_file ← required a.metadata_file
    metadata ← h.read metadata_file
    expanded ← expand_lines h.read h.parse (split_lines metadata) metadata
    ok (metadata_text version expanded name description)

  abbrev pub add_metadata_text : WhlFile → Text → Result WhlFile
  add_metadata_text w contents =
      ok (add_string h.sha256 (distinfo_path w (codes "METADATA")) (h.utf8 contents) w)

  unfoldable pub add_metadata : Arguments → Text → Tags → WhlFile → Result WhlFile
  add_metadata a name t w = metadata_contents a name t.version >>= add_metadata_text w

  abbrev pub add_entry_points : Option Text → WhlFile → Result WhlFile
  add_entry_points none w = ok w
  add_entry_points (some file) w =
      if is_empty file then ok w else add (distinfo_path w (codes "entry_points.txt")) file w

  -- `for filename, real_path in sorted(...)`
  unfoldable pub add_listed : (WhlFile → Text → Text) → List (List Text) → WhlFile → Result WhlFile
  add_listed path [] w = ok w
  add_listed path ((filename ∷ real_path ∷ []) ∷ rest) w = do
    w' ← add (path w filename) real_path w
    add_listed path rest w'
  add_listed path (other ∷ rest) w = err value_error

  -- The calls between `__enter__` and the RECORD.
  unfoldable pub add_distinfo : Arguments → WhlFile → Result WhlFile
  add_distinfo a w =
      add_listed data_path (sort_by texts_lt (parse_file_pairs (or_empty a.data_files))) w
      >>= add_listed distinfo_path
          (sort_by texts_lt (parse_file_pairs (or_empty a.extra_distinfo_file)))

  unfoldable pub fill : Arguments → List (Text × Text) → Text → Tags → Result WhlFile
  fill a files name t = do
    with_files ← add_files files (open_wheel a t)
    with_metadata ← add_metadata a name t (add_wheelfile t with_files)
    with_entry_points ← add_entry_points a.entry_points_file with_metadata
    add_distinfo a with_entry_points

  unfoldable pub main : Arguments → Result Output
  main a = do
    files ← sorted_files a
    name ← stamped a a.name
    version ← stamped a a.version
    t ← wheel_maker a name version
    filled ← fill a files name t
    name_file ← required a.name_file
    ok (record {
      archive = add_recordfile h.sha256 h.utf8 filled;
      outfile = filename t;
      name_file = name_file;
      canonical_name = wheelname t;
    })
