-- ===== src/Release/BackportTargets/ReadMetadata.antt =====
-- The head of a backport issue, as tools/private/release/backport_prepare.py writes it, read back by
-- `parse_backport_metadata`.
use rules_python.Base.{
  nat_eq, text_eq, ℕ, true, false, not, some, [], ◌∷◌, ◌++◌, Text, ◌==◌, codes, ok, ◌≡◌, ◌≢◌, refl,
  ap, ◌∙◌, arith, All-append, all, Lacks, ℕ_discrete, text_dec,
}
use rules_python.Text.{lstrip_by, is_space, lower, starts_with, decimal, decimal-IsDigits, IsDigits}
use rules_python.Release.Checklist.{take_while, is_dark}
use rules_python.Release.Checklist.Pairs.{IsAll, take_while-append, lstrip_by-append}
use rules_python.Release.BackportIssue.{
  first_word, lstrip_space, search_field, parse_backport_metadata,
}

-- A text without white space that is not empty.
pub record IsWord (s : Text) : Type 0 where
  pub dark : IsAll is_dark s
  pub some_word : s ≢ []

word_then : (w t : Text) → IsWord w → first_word (w ++ (10 ∷ t)) ≡ some w
word_then [] t h = absurd (h.some_word refl)
word_then (c ∷ w) t h = rw (first_word, take_while-append is_dark (c ∷ w) (10 ∷ t) h.dark refl) refl

-- White space in front of a word is left out.
word_behind_space :
    (w t : Text) → IsWord w → first_word (lstrip_space (b' ' ∷ (w ++ (10 ∷ t)))) ≡ some w
word_behind_space [] t h = absurd (h.some_word refl)
word_behind_space (c ∷ w) t h =
    ap first_word (lstrip_by-append is_space (codes " ") (c ∷ (w ++ (10 ∷ t))) (refl, tt) h.dark.0)
    ∙ word_then (c ∷ w) t h

-- The search goes on behind the line.
search_field-inside :
    (label line t : Text)
    → Lacks 10 line
    → search_field label false (line ++ (10 ∷ t)) ≡ search_field label true t
unfolding search_field ℕ_discrete
search_field-inside label [] t h = refl
search_field-inside label (c ∷ line) t h =
    let inside : (c == 10) ≡ false = ground arith in
    ap (λ b. search_field label b (line ++ (10 ∷ t))) inside ∙ search_field-inside label line t h.1

dark-no_break : (w : Text) → IsAll is_dark w → Lacks 10 w
dark-no_break [] h = tt
dark-no_break (c ∷ w) h = (ground arith, dark-no_break w h.1)

no_break : (s : Text) → all (λ c. not (c == 10)) s ≡ true → Lacks 10 s
no_break [] h = tt
no_break (c ∷ s) h = (ground arith, no_break s (ground arith))

inside_line : (s w : Text) → all (λ c. not (c == 10)) s ≡ true → IsWord w → Lacks 10 (s ++ w)
inside_line s w e h = All-append (λ c. c ≢ 10) s w (no_break s e) (dark-no_break w h.dark)

abbrev pub reference_line : Text → Text
reference_line pr = codes "* PR: " ++ pr

abbrev pub first_line : Text → Text
first_line from = codes "* From version: " ++ from

abbrev pub last_line : Text → Text
last_line to = codes "* To version: " ++ to

search_pr :
    (pr t : Text)
    → IsWord pr
    → search_field (codes "pr:") true (reference_line pr ++ (10 ∷ t)) ≡ some pr
unfolding search_field starts_with lower lstrip_by take_while ℕ_discrete text_dec
search_pr pr t h = rw (word_behind_space pr t h) refl

search_from :
    (from t : Text)
    → IsWord from
    → search_field (codes "from version:") true (first_line from ++ (10 ∷ t)) ≡ some from
unfolding search_field starts_with lower lstrip_by take_while ℕ_discrete text_dec
search_from from t h = rw (word_behind_space from t h) refl

search_to :
    (to t : Text)
    → IsWord to
    → search_field (codes "to version:") true (last_line to ++ (10 ∷ t)) ≡ some to
unfolding search_field starts_with lower lstrip_by take_while ℕ_discrete text_dec
search_to to t h = rw (word_behind_space to t h) refl

-- The line of the pull request has neither version, and that of the first not the second.
from_skips_pr :
    (pr t : Text)
    → IsWord pr
    → search_field (codes "from version:") true (reference_line pr ++ (10 ∷ t))
      ≡ search_field (codes "from version:") true t
unfolding search_field starts_with lower lstrip_by ℕ_discrete text_dec
from_skips_pr pr t h =
    search_field-inside (codes "from version:") (codes " PR: " ++ pr) t
      (inside_line (codes " PR: ") pr refl h)

to_skips_pr :
    (pr t : Text)
    → IsWord pr
    → search_field (codes "to version:") true (reference_line pr ++ (10 ∷ t))
      ≡ search_field (codes "to version:") true t
unfolding search_field starts_with lower lstrip_by ℕ_discrete text_dec
to_skips_pr pr t h =
    search_field-inside (codes "to version:") (codes " PR: " ++ pr) t
      (inside_line (codes " PR: ") pr refl h)

to_skips_from :
    (from t : Text)
    → IsWord from
    → search_field (codes "to version:") true (first_line from ++ (10 ∷ t))
      ≡ search_field (codes "to version:") true t
unfolding search_field starts_with lower lstrip_by ℕ_discrete text_dec
to_skips_from from t h =
    search_field-inside (codes "to version:") (codes " From version: " ++ from) t
      (inside_line (codes " From version: ") from refl h)

digits_dark : (s : Text) → IsDigits s → IsAll is_dark s
digits_dark [] h = tt
digits_dark (c ∷ s) h = (ground arith, digits_dark s h.1)

number-IsWord : (n : ℕ) → IsWord (b'#' ∷ decimal n)
unfolding ℕ_discrete
number-IsWord n = record {
  dark = (refl, digits_dark (decimal n) (decimal-IsDigits n));
  some_word = λ e. (cc);
}

-- The lines of the metadata in front of any text are read back.
pub parse_backport_metadata-lines :
    (n : ℕ) (from to t : Text)
    → IsWord from
    → IsWord to
    → parse_backport_metadata (
        reference_line (b'#' ∷ decimal n)
        ++ (10 ∷ (first_line from ++ (10 ∷ (last_line to ++ (10 ∷ t))))))
      ≡ ok (record { pr = b'#' ∷ decimal n; from_minor = from; to_minor = to })
unfolding parse_backport_metadata
parse_backport_metadata-lines n from to t f g =
    let pr = b'#' ∷ decimal n in
    let h = number-IsWord n in
    let behind = last_line to ++ (10 ∷ t) in
    rw
      (
        search_pr pr (first_line from ++ (10 ∷ behind)) h,
        from_skips_pr pr (first_line from ++ (10 ∷ behind)) h,
        search_from from behind f,
        to_skips_pr pr (first_line from ++ (10 ∷ behind)) h,
        to_skips_from from behind f,
        search_to to t g,
      )
      refl
