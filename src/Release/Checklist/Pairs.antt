-- ===== src/Release/Checklist/Pairs.antt =====
-- The `key=value` pairs of a checklist line of tools/private/release/release_issue.py, read back.
use rules_python.Base.{
  ℕ_discrete, nat_eq, text_eq, ℕ, zero, ◌-◌, Bool, true, false, not, none, some, [], ◌∷◌, ◌++◌,
  Text, ◌≡◌, ◌≢◌, refl, ◌∙◌, ap, sym, codes, is_empty, if◌then◌else◌, length, All, arith,
  append_assoc, append-nil, length-append,
}
use rules_python.Base.Dict.{Dict}
use rules_python.Text.{is_space, lstrip_by, join}
use rules_python.Release.Checklist.{
  is_word_char, is_dark, take_while, Match, value_match, equals_match, match_pair, find_pairs,
  is_commit, format_pair, format_pairs,
}

-- The text ends, or begins with no character of `p`.
abbrev pub stops : (ℕ → Bool) → Text → Bool
stops p [] = true
stops p (c ∷ s) = not (p c)

abbrev pub IsAll : (ℕ → Bool) → Text → Type 0
IsAll p = All (λ c. p c ≡ true)

pub take_while-append :
    (p : ℕ → Bool) (a b : Text) → IsAll p a → stops p b ≡ true → take_while p (a ++ b) ≡ a
unfolding take_while
take_while-append p [] [] h g = refl
take_while-append p [] (c ∷ b) h g = ground arith
take_while-append p (x ∷ a) b h g = ground (arith, take_while-append p a b h.1)

pub lstrip_by-append :
    (p : ℕ → Bool) (a b : Text) → IsAll p a → stops p b ≡ true → lstrip_by p (a ++ b) ≡ b
unfolding lstrip_by
lstrip_by-append p [] [] h g = refl
lstrip_by-append p [] (c ∷ b) h g = ground arith
lstrip_by-append p (x ∷ a) b h g = ground (arith, lstrip_by-append p a b h.1)

-- A key is a word; a value has no white space.
pub record IsPair (p : Text × Text) : Type 0 where
  pub key : IsAll is_word_char p.0
  pub some_key : p.0 ≢ []
  pub value : IsAll is_dark p.1
  pub some_value : p.1 ≢ []

is_empty-ne : (s : Text) → s ≢ [] → is_empty s ≡ false
is_empty-ne [] h = absurd (h refl)
is_empty-ne (c ∷ s) h = refl

dark_first : (v rest : Text) → IsAll is_dark v → v ≢ [] → stops is_space (v ++ rest) ≡ true
dark_first [] rest h n = absurd (n refl)
dark_first (c ∷ v) rest h n = h.0

-- How much of `k = v` in front of the rest is taken.
taken : (a rest : Text) → length (a ++ rest) - length rest ≡ length a
taken a rest = rw (length-append a rest) (omega arith)

regroup :
    (k spaces v rest : Text)
    → k ++ (b'=' ∷ (spaces ++ (v ++ rest))) ≡ (k ++ (b'=' ∷ (spaces ++ v))) ++ rest
regroup k spaces v rest =
    rw (append_assoc k (b'=' ∷ (spaces ++ v)) rest, append_assoc spaces v rest) refl

value_match-append :
    (s k v rest : Text)
    → IsPair (k, v)
    → stops is_dark rest ≡ true
    → value_match s k (v ++ rest)
      ≡ some (record { key = k; value = v; size = length s - length rest })
value_match-append s k v rest h e =
    rw
      (
        take_while-append is_dark v rest h.value e,
        lstrip_by-append is_dark v rest h.value e,
        is_empty-ne k h.some_key,
        is_empty-ne v h.some_value,
      )
      refl

-- A text that is matched, in front of the rest, with spaces between the equals sign and the value.
match_pair-append :
    (k v spaces rest : Text)
    → IsPair (k, v)
    → IsAll is_space spaces
    → stops is_dark rest ≡ true
    → match_pair (k ++ (b'=' ∷ (spaces ++ (v ++ rest))))
      ≡ some (record { key = k; value = v; size = length (k ++ (b'=' ∷ (spaces ++ v))) })
unfolding match_pair ℕ_discrete
match_pair-append k v spaces rest h g e =
    rw
      (
        take_while-append is_word_char k (b'=' ∷ (spaces ++ (v ++ rest))) h.key refl,
        lstrip_by-append is_word_char k (b'=' ∷ (spaces ++ (v ++ rest))) h.key refl,
        lstrip_by-append is_space [] (b'=' ∷ (spaces ++ (v ++ rest))) tt refl,
        lstrip_by-append is_space spaces (v ++ rest) g (dark_first v rest h.value h.some_value),
        value_match-append (k ++ (b'=' ∷ (spaces ++ (v ++ rest)))) k v rest h e,
      )
      (rw (regroup k spaces v rest, taken (k ++ (b'=' ∷ (spaces ++ v))) rest) refl)

find_pairs_skip : (a b : Text) → find_pairs (length a) (a ++ b) ≡ find_pairs 0 b
unfolding find_pairs
find_pairs_skip [] b = refl
find_pairs_skip (c ∷ a) b = find_pairs_skip a b

append-ne : (a b : Text) → a ≢ [] → a ++ b ≢ []
append-ne [] b h = absurd (h refl)
append-ne (c ∷ a) b h = λ e. (cc)

find_pairs-match :
    (c : ℕ) (s : Text) (m : Match)
    → match_pair (c ∷ s) ≡ some m
    → find_pairs 0 (c ∷ s) ≡ (m.key, m.value) ∷ find_pairs (m.size - 1) s
unfolding find_pairs
find_pairs-match c s m h =
    ap
      (λ o. elim o [
        | none ↦ find_pairs zero s
        | some n ↦ (n.key, n.value) ∷ find_pairs (n.size - 1) s
      ])
      h

find_pairs-step :
    (s rest : Text) (m : Match)
    → s ≢ []
    → match_pair (s ++ rest) ≡ some m
    → m.size ≡ length s
    → find_pairs 0 (s ++ rest) ≡ (m.key, m.value) ∷ find_pairs 0 rest
find_pairs-step [] rest m n h g = absurd (n refl)
find_pairs-step (c ∷ s) rest m n h g =
    find_pairs-match c (s ++ rest) m h
    ∙ ap (λ t. (m.key, m.value) ∷ t)
        (ap (λ n. find_pairs n (s ++ rest)) (omega arith) ∙ find_pairs_skip s rest)

equals_match-no_key : (s after : Text) → equals_match s [] after ≡ none
equals_match-no_key s [] = refl
equals_match-no_key s (c ∷ after) = ground arith

-- No pair begins at a space.
pub find_pairs-space : (s : Text) → find_pairs 0 (b' ' ∷ s) ≡ find_pairs 0 s
unfolding find_pairs match_pair take_while ℕ_discrete
find_pairs-space s =
    ap
      (λ o. elim o [
        | none ↦ find_pairs zero s
        | some n ↦ (n.key, n.value) ∷ find_pairs (n.size - 1) s
      ])
      (equals_match-no_key (b' ' ∷ s) (lstrip_by is_space (lstrip_by is_word_char (b' ' ∷ s))))

-- What stands between a key and its value.
abbrev gap : Bool → Text
gap commit = if commit then codes " " else []

gap-IsSpaces : (commit : Bool) → IsAll is_space (gap commit)
unfolding ℕ_discrete
gap-IsSpaces true = (refl, tt)
gap-IsSpaces false = tt

gap-eq :
    (commit : Bool) (k v : Text)
    → (if commit then k ++ (codes "= " ++ v) else k ++ (b'=' ∷ v)) ≡ k ++ (b'=' ∷ (gap commit ++ v))
gap-eq true k v = refl
gap-eq false k v = refl

find_pairs-pair :
    (k v spaces rest : Text)
    → IsPair (k, v)
    → IsAll is_space spaces
    → stops is_dark rest ≡ true
    → find_pairs 0 ((k ++ (b'=' ∷ (spaces ++ v))) ++ rest) ≡ (k, v) ∷ find_pairs 0 rest
find_pairs-pair k v spaces rest h g e =
    find_pairs-step (k ++ (b'=' ∷ (spaces ++ v))) rest
      (record { key = k; value = v; size = length (k ++ (b'=' ∷ (spaces ++ v))) })
      (append-ne k (b'=' ∷ (spaces ++ v)) h.some_key)
      (ap match_pair (sym (regroup k spaces v rest)) ∙ match_pair-append k v spaces rest h g e) refl

find_pairs-format_pair :
    (k v rest : Text)
    → IsPair (k, v)
    → stops is_dark rest ≡ true
    → find_pairs 0 (format_pair (k, v) ++ rest) ≡ (k, v) ∷ find_pairs 0 rest
find_pairs-format_pair k v rest h e =
    ap (λ t. find_pairs 0 (t ++ rest)) (gap-eq (is_commit k) k v)
    ∙ find_pairs-pair k v (gap (is_commit k)) rest h (gap-IsSpaces (is_commit k)) e

pub find_pairs-format_pairs :
    (d : Dict Text Text) → All IsPair d → find_pairs 0 (join (codes " ") (format_pairs d)) ≡ d
unfolding join find_pairs
find_pairs-format_pairs [] h = refl
find_pairs-format_pairs ((k, v) ∷ []) h =
    ap (find_pairs 0) (sym (append-nil (format_pair (k, v))))
    ∙ find_pairs-format_pair k v [] h.0 refl
find_pairs-format_pairs ((k, v) ∷ p ∷ d) h =
    find_pairs-format_pair k v (b' ' ∷ join (codes " ") (format_pairs (p ∷ d))) h.0 refl
    ∙ ap (λ t. (k, v) ∷ t)
        (find_pairs-space (join (codes " ") (format_pairs (p ∷ d)))
          ∙ find_pairs-format_pairs (p ∷ d) h.1)
