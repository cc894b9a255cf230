-- ===== src/Release/BackportTargets/Dotted.antt =====
-- Versions of two and three numbers, as tools/private/release/backport_create_releases.py finds them
-- in the name of a task.
use rules_python.Base.{
  nat_eq, text_eq, ℕ, ◌≤◌, true, some, [], ◌∷◌, ◌++◌, Text, ◌≡◌, ◌≢◌, refl, ap, ◌∙◌, sym, arith,
  All, All-append, append_assoc, append-nil, ℕ_discrete,
}
use rules_python.Release.Versions.{is_digit}
use rules_python.Release.Checklist.Pairs.{IsAll, stops, take_while-append, lstrip_by-append}
use rules_python.Release.ReleaseTitle.{digits_part, number_part, version_part}
use rules_python.Release.BackportIssue.{minor_part}

pub record IsNumber (s : Text) : Type 0 where
  pub digits : IsAll is_digit s
  pub some_digit : s ≢ []

-- `\d+\.\d+` and `\d+\.\d+\.\d+` match the whole text.
pub data IsMinor : Text → Type 0 where
  two : {a b : Text} → IsNumber a → IsNumber b → IsMinor (a ++ (b'.' ∷ b))

pub data IsVersion : Text → Type 0 where
  three :
      {a b c : Text}
      → IsNumber a
      → IsNumber b
      → IsNumber c
      → IsVersion (a ++ (b'.' ∷ (b ++ (b'.' ∷ c))))

digits_part-append :
    (a rest : Text)
    → IsNumber a
    → stops is_digit rest ≡ true
    → digits_part (a ++ rest) ≡ some (a, rest)
digits_part-append [] rest h s = absurd (h.some_digit refl)
digits_part-append (c ∷ a) rest h s =
    rw
      (
        h.digits.0,
        take_while-append is_digit (c ∷ a) rest h.digits s,
        lstrip_by-append is_digit (c ∷ a) rest h.digits s,
      )
      refl

digits_part-all : (a : Text) → IsNumber a → digits_part a ≡ some (a, [])
digits_part-all a h = ap digits_part (sym (append-nil a)) ∙ digits_part-append a [] h refl

number_part-append :
    (a b rest : Text)
    → IsNumber b
    → stops is_digit rest ≡ true
    → number_part (some (a, b ++ rest)) ≡ some (a ++ (b'.' ∷ b), rest)
number_part-append a b rest h s = rw (number_part, digits_part-append b rest h s) refl

number_part-all : (a b : Text) → IsNumber b → number_part (some (a, b)) ≡ some (a ++ (b'.' ∷ b), [])
number_part-all a b h = rw (number_part, digits_part-all b h) refl

pub minor_part-eq : {m : Text} → IsMinor m → minor_part m ≡ some m
unfolding ℕ_discrete
minor_part-eq (two {a} {b} f g) =
    rw (minor_part, digits_part-append a (b'.' ∷ b) f refl, number_part-all a b g) refl

pub version_part-eq : {v : Text} → IsVersion v → version_part v ≡ some v
unfolding ℕ_discrete
version_part-eq (three {a} {b} {c} f g h) =
    rw
      (
        version_part,
        digits_part-append a (b'.' ∷ (b ++ (b'.' ∷ c))) f refl,
        number_part-append a b (b'.' ∷ c) g refl,
        number_part-all (a ++ (b'.' ∷ b)) c h,
      )
      (ap some (append_assoc a (b'.' ∷ b) (b'.' ∷ c)))

-- A digit or a dot.
abbrev pub IsDotted : ℕ → Type 0
IsDotted c = (46 ≤ c) × (c ≤ 57)

digits-IsDotted : (a : Text) → IsAll is_digit a → All IsDotted a
digits-IsDotted [] h = tt
digits-IsDotted (c ∷ a) h = ((ground arith, ground arith), digits-IsDotted a h.1)

dotted : (a b : Text) → IsNumber a → All IsDotted b → All IsDotted (a ++ (b'.' ∷ b))
dotted a b f g =
    All-append IsDotted a (b'.' ∷ b) (digits-IsDotted a f.digits) ((omega arith, omega arith), g)

pub minor-IsDotted : {m : Text} → IsMinor m → All IsDotted m
minor-IsDotted (two {a} {b} f g) = dotted a b f (digits-IsDotted b g.digits)

pub version-IsDotted : {v : Text} → IsVersion v → All IsDotted v
version-IsDotted (three {a} {b} {c} f g h) =
    dotted a (b ++ (b'.' ∷ c)) f (dotted b c g (digits-IsDotted c h.digits))

number_some : (a b : Text) → IsNumber a → a ++ b ≢ []
number_some [] b h = absurd (h.some_digit refl)
number_some (c ∷ a) b h = λ e. (cc)

pub minor_some : {m : Text} → IsMinor m → m ≢ []
minor_some (two {a} {b} f g) = number_some a (b'.' ∷ b) f

pub version_some : {v : Text} → IsVersion v → v ≢ []
version_some (three {a} {b} {c} f g h) = number_some a (b'.' ∷ (b ++ (b'.' ∷ c))) f
