-- ===== src/Wheel/Naming/Package.antt =====
-- Package names and archive names in tools/wheelmaker.py.
use rules_python.Base.{
  nat_eq, text_eq, pair_eq, ℕ, zero, suc, ◌≤◌, ◌≡◌, refl, ◌∙◌, ◌≢◌, ap, inl, inr, Bool, true, false,
  not, ◌||◌, List, [], ◌∷◌, ◌++◌, map, Text, ◌==◌, codes, ==_refl, arith, length, any, Bool-cases,
  drop-append,
}
use rules_python.Text.{starts_with, starts_with-append, lower, lower_char, replace, replace_from}
use rules_python.Wheel.Naming.{
  sub_runs, sub_all, is_upper, is_separator, is_word, normalize_package_name,
  escape_filename_segment, strip_first, arcname_from,
}

-- `sub_runs` with no count.
sub_free : (ℕ → Bool) → Text → Bool → Text → Text
sub_free p rep in_run [] = []
sub_free p rep true (c ∷ s) = elim (p c) [
  | true ↦ sub_free p rep true s
  | false ↦ c ∷ sub_free p rep false s
]
sub_free p rep false (c ∷ s) = elim (p c) [
  | true ↦ rep ++ sub_free p rep true s
  | false ↦ c ∷ sub_free p rep false s
]

sub_runs-free :
    (p : ℕ → Bool) (rep : Text) (in_run : Bool) (left : ℕ) (s : Text)
    → length s ≤ left
    → sub_runs p rep in_run left s ≡ sub_free p rep in_run s
unfolding sub_runs sub_free
sub_runs-free p rep in_run left [] h = refl
sub_runs-free p rep true left (c ∷ s) h =
    ground (arith, sub_runs-free p rep true left s, sub_runs-free p rep false left s)
sub_runs-free p rep false zero (c ∷ s) h = absurd (omega arith)
sub_runs-free p rep false (suc left) (c ∷ s) h =
    ground (arith, sub_runs-free p rep true left s, sub_runs-free p rep false (suc left) s)

-- A normalized name, by the packaging guide: no capital, no dot or underscore, and no dash beside
-- another. `after_dash` says that a dash stands in front.
abbrev pub IsNormal : Bool → Text → Type 0
IsNormal after_dash [] = Unit
IsNormal after_dash (c ∷ s) =
    (is_upper c ≡ false)
    × (c ≢ b'.')
    × (c ≢ b'_')
    × (after_dash ≡ true → c ≢ b'-')
    × IsNormal (c == b'-') s

lower_char-IsNormal :
    (b : Bool) (c : ℕ) (s : Text)
    → is_separator c ≡ false
    → IsNormal false (map lower_char s)
    → IsNormal b (map lower_char (c ∷ s))
lower_char-IsNormal b c s h n =
    let kept : (lower_char c == b'-') ≡ false = ground arith in
    (ground arith, ground arith, ground arith, ground arith, rw kept n)

dash-IsNormal : (s : Text) → IsNormal true s → IsNormal false (b'-' ∷ s)
dash-IsNormal s n = (ground arith, ground arith, ground arith, ground arith, rw ==_refl n)

module _ (p : ℕ → Bool) (rep : Text) (c : ℕ) (s : Text) where
  sub_free_keep : (b : Bool) → p c ≡ false → sub_free p rep b (c ∷ s) ≡ c ∷ sub_free p rep false s
  unfolding sub_free
  sub_free_keep true h = ground arith
  sub_free_keep false h = ground arith

  sub_free_first : p c ≡ true → sub_free p rep false (c ∷ s) ≡ rep ++ sub_free p rep true s
  unfolding sub_free
  sub_free_first h = ground arith

  sub_free_skip : p c ≡ true → sub_free p rep true (c ∷ s) ≡ sub_free p rep true s
  unfolding sub_free
  sub_free_skip h = ground arith

lower-sub_free-IsNormal :
    (b : Bool) (s : Text) → IsNormal b (map lower_char (sub_free is_separator (codes "-") b s))
lower-sub_free-IsNormal b [] = unfold sub_free in tt
lower-sub_free-IsNormal true (c ∷ s) = elim (Bool-cases (is_separator c)) [
  | inl e ↦ rw (sub_free_skip is_separator (codes "-") c s e) (lower-sub_free-IsNormal true s)
  | inr e ↦
      rw (sub_free_keep is_separator (codes "-") c s true e)
        (lower_char-IsNormal true c _ e (lower-sub_free-IsNormal false s))
]
lower-sub_free-IsNormal false (c ∷ s) = elim (Bool-cases (is_separator c)) [
  | inl e ↦
      rw (sub_free_first is_separator (codes "-") c s e)
        (dash-IsNormal _ (lower-sub_free-IsNormal true s))
  | inr e ↦
      rw (sub_free_keep is_separator (codes "-") c s false e)
        (lower_char-IsNormal false c _ e (lower-sub_free-IsNormal false s))
]

normalize_package_name-free :
    (s : Text)
    → normalize_package_name s ≡ map lower_char (sub_free is_separator (codes "-") false s)
unfolding normalize_package_name lower sub_all
normalize_package_name-free s =
    rw (sub_runs-free is_separator (codes "-") false (length s) s (omega arith))

sub_free-IsNormal : (b : Bool) (s : Text) → IsNormal b s → sub_free is_separator (codes "-") b s ≡ s
unfolding sub_free
sub_free-IsNormal b [] n = refl
sub_free-IsNormal true (c ∷ s) n =
    ground (arith, n.0, n.1, n.2, n.3, n.4, sub_free-IsNormal true s, sub_free-IsNormal false s)
sub_free-IsNormal false (c ∷ s) n = elim (Bool-cases (c == b'-')) [
  | inl e ↦ let rest = sub_free-IsNormal true s (rw e at n.4) in ground (arith, rest)
  | inr e ↦ let rest = sub_free-IsNormal false s (rw e at n.4) in ground (arith, n.1, n.2, rest)
]

lower-IsNormal : (b : Bool) (s : Text) → IsNormal b s → map lower_char s ≡ s
lower-IsNormal b [] n = refl
lower-IsNormal b (c ∷ s) n = ground (arith, n.0, lower-IsNormal (c == b'-') s n.4)

-- A normalized name has no capital, dot or underscore and no two dashes in a row, and normalizing
-- it again changes nothing.
pub normalize_package_name-IsNormal :
    (name : Text)
    → IsNormal false (normalize_package_name name)
      × (normalize_package_name (normalize_package_name name) ≡ normalize_package_name name)
normalize_package_name-IsNormal name =
    let normal = rw (← normalize_package_name-free name) at (lower-sub_free-IsNormal false name) in
    (
      normal,
      normalize_package_name-free (normalize_package_name name)
          ∙ ap (map lower_char) (sub_free-IsNormal false _ normal)
          ∙ lower-IsNormal false _ normal,
    )

-- `k` copies of `a-`
pub dashed : ℕ → Text → Text
dashed zero s = s
dashed (suc k) s = b'a' ∷ b'-' ∷ dashed k s

pub underscored : ℕ → Text → Text
underscored zero s = s
underscored (suc k) s = b'a' ∷ b'_' ∷ underscored k s

sub_runs_done : (p : ℕ → Bool) (rep s : Text) → sub_runs p rep false zero s ≡ s
unfolding sub_runs
sub_runs_done p rep [] = refl
sub_runs_done p rep (c ∷ s) = refl

sub_runs-dashed :
    (p : ℕ → Bool) (k : ℕ) (c : ℕ) (s : Text)
    → p b'a' ≡ false
    → p b'-' ≡ true
    → p c ≡ false
    → sub_runs p (codes "_") false k (dashed k (c ∷ s)) ≡ underscored k (c ∷ s)
unfolding sub_runs dashed underscored
sub_runs-dashed p zero c s a d h = refl
sub_runs-dashed p (suc zero) c s a d h = ground (arith, sub_runs_done p (codes "_") s)
sub_runs-dashed p (suc (suc k)) c s a d h = ground (arith, sub_runs-dashed p (suc k) c s a d h)

-- The legacy escape makes at most 32 replacements: behind 32 dashes the text is left as it is,
-- whatever characters stand in it, if the first of them is a digit.
pub escape_filename_segment-dashed :
    (beyond : ℕ → Bool) (c : ℕ) (s : Text)
    → 48 ≤ c
    → c ≤ 57
    → escape_filename_segment beyond (dashed 32 (c ∷ s)) ≡ underscored 32 (c ∷ s)
unfolding escape_filename_segment
escape_filename_segment-dashed beyond c s g h =
    sub_runs-dashed (λ d. not (is_word beyond d || d == b'.')) 32 c s (ground arith) (ground arith)
      (ground arith)

replace-slash : (s : Text) → replace s (codes "/") (codes "/") ≡ s
unfolding replace replace_from starts_with
replace-slash [] = refl
replace-slash (c ∷ s) = ground (arith, replace-slash s)

strip_first-hit :
    (earlier later : List Text) (p rest add : Text)
    → any (starts_with (p ++ rest)) earlier ≡ false
    → strip_first (p ++ rest) (earlier ++ (p ∷ later)) add ≡ add ++ rest
strip_first-hit [] later p rest add h = rw (starts_with-append p rest, drop-append p rest)
strip_first-hit (q ∷ earlier) later p rest add h =
    ground (arith, strip_first-hit earlier later p rest add)

-- The first prefix in the list that the path begins with is stripped, and no other, before the new
-- prefix is put in front, unless the path lies in the directories of the distribution's metadata.
pub arcname_from-strip :
    (distribution_prefix : Text) (earlier later : List Text) (p rest add : Text)
    → distribution_prefix ≢ []
    → starts_with (p ++ rest) distribution_prefix ≡ false
    → any (starts_with (p ++ rest)) earlier ≡ false
    → arcname_from (p ++ rest) distribution_prefix (earlier ++ (p ∷ later)) add ≡ add ++ rest
unfolding arcname_from
arcname_from-strip d earlier later p rest add n f h =
    rw (replace-slash (p ++ rest), f, strip_first-hit earlier later p rest add h) (ground arith)
