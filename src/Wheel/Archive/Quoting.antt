-- ===== src/Wheel/Archive/Quoting.antt =====
-- The quoted file names of the RECORD file in tools/wheelmaker.py, and a reader of them.
use rules_python.Base.{
  nat_eq, text_eq, pair_eq, ℕ, ◌≡◌, refl, inl, inr, Bool, true, false, ◌||◌, [], ◌∷◌, ◌++◌,
  append_assoc, Text, ◌==◌, codes, is_empty, if◌then◌else◌, arith, Lacks, drop, any, Bool-cases,
}
use rules_python.Text.{
  rstrip_by-append, IsTrimmed, strip, strip_by, lstrip_by, rstrip_by, is_space, cut-append,
  partition,
}
use rules_python.Wheel.Archive.{is_slash, member_name, needs_quotes, double_quotes, quote_filename}

-- A field in quotes, read up to the quote that no other follows. The flag says that a quote was
-- just read.
read_quoted : Bool → Text → Text × Text
read_quoted after_quote [] = ([], [])
read_quoted false (c ∷ s) = elim (c == b'"') [
  | true ↦ read_quoted true s
  | false ↦ let rest = read_quoted false s in (c ∷ rest.0, rest.1)
]
read_quoted true (c ∷ s) = elim (c == b'"') [
  | true ↦ let rest = read_quoted false s in (b'"' ∷ rest.0, rest.1)
  | false ↦ ([], c ∷ s)
]

-- The first field of a CSV row, and what stands behind its comma.
pub read_field : Text → Text × Text
read_field [] = ([], [])
read_field (c ∷ s) = elim (c == b'"') [
  | true ↦ ((read_quoted false s).0, drop 1 (read_quoted false s).1)
  | false ↦ partition b',' (c ∷ s)
]

is_empty-snoc : (s : Text) (c : ℕ) → is_empty (s ++ (c ∷ [])) ≡ false
is_empty-snoc [] c = refl
is_empty-snoc (x ∷ s) c = refl

rstrip_by-snoc :
    (p : ℕ → Bool) (s : Text) (c : ℕ) → p c ≡ false → rstrip_by p (s ++ (c ∷ [])) ≡ s ++ (c ∷ [])
unfolding rstrip_by
rstrip_by-snoc p [] c h = ground arith
rstrip_by-snoc p (x ∷ s) c h = ground (arith, rstrip_by-snoc p s c h, is_empty-snoc s c)

line_end : rstrip_by is_space (13 ∷ 10 ∷ []) ≡ []
unfolding rstrip_by
line_end = refl

lstrip_by-append :
    (p : ℕ → Bool) (c : ℕ) (s t : Text)
    → lstrip_by p (c ∷ s) ≡ c ∷ s
    → p c ≡ false
    → lstrip_by p ((c ∷ s) ++ t) ≡ (c ∷ s) ++ t
unfolding lstrip_by
lstrip_by-append p c s t h g = ground arith

-- The reader on a quoted text with a comma behind it.
read_quoted-double :
    (s rest : Text) → read_quoted false (double_quotes s ++ (b'"' ∷ b',' ∷ rest)) ≡ (s, b',' ∷ rest)
unfolding read_quoted
read_quoted-double [] rest = ground arith
read_quoted-double (c ∷ s) rest = ground (arith, read_quoted-double s rest)

-- Stripping takes off the row's end and no more, from a text that begins and ends in no space.
strip-row :
    (c : ℕ) (s : Text)
    → is_space c ≡ false
    → rstrip_by is_space (c ∷ s) ≡ c ∷ s
    → strip ((c ∷ s) ++ (13 ∷ 10 ∷ [])) ≡ c ∷ s
unfolding strip strip_by lstrip_by
strip-row c s h g = rw h (rstrip_by-append is_space (c ∷ s) (13 ∷ 10 ∷ []) g line_end)

quoted-row :
    (name : Text)
    → strip ((b'"' ∷ (double_quotes name ++ codes "\"")) ++ (13 ∷ 10 ∷ []))
      ≡ b'"' ∷ (double_quotes name ++ codes "\"")
quoted-row name =
    strip-row b'"' (double_quotes name ++ codes "\"") (ground arith)
      (rstrip_by-snoc is_space (b'"' ∷ double_quotes name) b'"' (ground arith))

-- A name that `csv` leaves without quotes.
plain-Lacks :
    (s : Text)
    → any (λ c. c == b',' || c == b'"' || c == 10 || c == 13) s ≡ false
    → Lacks b',' s × Lacks b'"' s
plain-Lacks [] h = (tt, tt)
plain-Lacks (c ∷ s) h = ground (arith, plain-Lacks s)

abbrev row : Bool → Text → Text
row quoted name =
    strip ((if quoted then b'"' ∷ (double_quotes name ++ codes "\"") else name) ++ (13 ∷ 10 ∷ []))

read_field-quoted_row :
    (name rest : Text) → read_field (row true name ++ (b',' ∷ rest)) ≡ (name, rest)
unfolding read_field
read_field-quoted_row name rest =
    rw (quoted-row name, append_assoc (double_quotes name) (codes "\"") (b',' ∷ rest))
      (ground (arith, read_quoted-double name rest))

read_field-plain_row :
    (name rest : Text)
    → IsTrimmed name
    → needs_quotes name ≡ false
    → read_field (row false name ++ (b',' ∷ rest)) ≡ (name, rest)
unfolding read_field partition
read_field-plain_row [] rest t h = absurd (ground arith)
read_field-plain_row (c ∷ s) rest t h =
    let plain = plain-Lacks (c ∷ s) (ground arith) in
    rw (strip-row c s t.first t.last)
      (ground (arith, plain.1.0, cut-append b',' (c ∷ s) rest plain.0))

-- A file name in the RECORD is read back, also one with commas, quotes or line ends, whether all
-- names are quoted or those that need it: the reader gives the name without its leading slashes,
-- and what stands behind the comma. The name may begin and end in no white space.
pub read_field-quote_filename :
    (quote_all : Bool) (filename rest : Text)
    → IsTrimmed (member_name filename)
    → read_field (quote_filename quote_all filename ++ (b',' ∷ rest)) ≡ (member_name filename, rest)
unfolding quote_filename member_name
read_field-quote_filename quote_all filename rest h =
    elim (Bool-cases (quote_all || needs_quotes (lstrip_by is_slash filename))) [
      | inl e ↦ rw e (read_field-quoted_row (lstrip_by is_slash filename) rest)
      | inr e ↦ rw e (read_field-plain_row (lstrip_by is_slash filename) rest h (ground arith))
    ]
