-- ===== src/Release/Issue/Numbered.antt =====
-- The checklist lines that tools/private/release/release_issue.py adds, which end in a number.
use rules_python.Base.{
  subst, nat_eq, text_eq, ℕ, ◌≤◌, false, [], ◌∷◌, ◌++◌, Text, codes, ◌≡◌, ◌≢◌, refl, ◌∙◌, ap, sym,
  arith, All, All-append, Lacks, append-nil, some, ℕ_discrete,
}
use rules_python.Text.{
  is_space, is_break, decimal, decimal-IsDigits, decimal-some, IsTrimmed-append, IsOneLine,
}
use rules_python.Release.Checklist.{parse_metadata_line, format_metadata_line}
use rules_python.Release.Checklist.ReadBack.{IsEntry, parse_metadata_line-format}
use rules_python.Release.Checklist.OneLine.{format_metadata_line-IsOneLine}
use rules_python.Release.Issue.Tasks.{open_box}

abbrev IsSafe : ℕ → Type 0
IsSafe c = (c ≢ b'|') × (is_break c ≡ false)

-- What stands in front of the number.
pub record IsPrefix (c : ℕ) (s : Text) : Type 0 where
  pub dark : is_space c ≡ false
  pub no_bar : Lacks b'|' (c ∷ s)
  pub one_line : IsOneLine (c ∷ s)

All-map : {P Q : ℕ → Type 0} → ((c : ℕ) → P c → Q c) → (s : Text) → All P s → All Q s
All-map f [] h = tt
All-map f (c ∷ s) h = (f c h.0, All-map f s h.1)

digit-dark : (c : ℕ) → (48 ≤ c) × (c ≤ 57) → is_space c ≡ false
digit-dark c h = ground arith

digit-is_break : (c : ℕ) → (48 ≤ c) × (c ≤ 57) → is_break c ≡ false
digit-is_break c h = ground arith

digit-no_bar : (c : ℕ) → (48 ≤ c) × (c ≤ 57) → c ≢ b'|'
digit-no_bar c h = omega arith

numbered-IsEntry : (c : ℕ) (s : Text) (n : ℕ) → IsPrefix c s → IsEntry (c ∷ (s ++ decimal n)) []
numbered-IsEntry c s n h = record {
  trimmed =
      IsTrimmed-append (c ∷ s) (decimal n) h.dark (decimal-some n)
        (All-map digit-dark (decimal n) (decimal-IsDigits n));
  some_name = λ e. (cc);
  no_bar =
      All-append (λ d. d ≢ b'|') (c ∷ s) (decimal n) h.no_bar
        (All-map digit-no_bar (decimal n) (decimal-IsDigits n));
  pairs = tt;
  keys = tt;
}

numbered-IsOneLine : (c : ℕ) (s : Text) (n : ℕ) → IsPrefix c s → IsOneLine (c ∷ (s ++ decimal n))
numbered-IsOneLine c s n h =
    All-append (λ d. is_break d ≡ false) (c ∷ s) (decimal n) h.one_line
      (All-map digit-is_break (decimal n) (decimal-IsDigits n))

task_line-eq : (s : Text) → format_metadata_line false s [] ≡ open_box ++ s
unfolding format_metadata_line
task_line-eq s = ap (λ t. open_box ++ t) (append-nil s)

pub task_line-IsOneLine :
    (c : ℕ) (s : Text) (n : ℕ) → IsPrefix c s → IsOneLine (open_box ++ (c ∷ (s ++ decimal n)))
task_line-IsOneLine c s n h = subst IsOneLine (task_line-eq (c ∷ (s ++ decimal n))) (
    format_metadata_line-IsOneLine false (c ∷ (s ++ decimal n)) [] (numbered-IsEntry c s n h)
      (numbered-IsOneLine c s n h))

pub parse_metadata_line-task :
    (c : ℕ) (s : Text) (n : ℕ)
    → IsPrefix c s
    → parse_metadata_line (open_box ++ (c ∷ (s ++ decimal n)))
      ≡ some (record { checked = false; name = c ∷ (s ++ decimal n); metadata = [] })
parse_metadata_line-task c s n h =
    ap parse_metadata_line (sym (task_line-eq (c ∷ (s ++ decimal n))))
    ∙ parse_metadata_line-format false (c ∷ (s ++ decimal n)) [] (numbered-IsEntry c s n h)

pub rc_prefix : IsPrefix b'T' (codes "ag RC")
unfolding ℕ_discrete
rc_prefix = record {
  dark = refl;
  no_bar =
      (omega arith, (omega arith, (omega arith, (omega arith, (omega arith, (omega arith, tt))))));
  one_line = (refl, (refl, (refl, (refl, (refl, (refl, tt))))));
}
