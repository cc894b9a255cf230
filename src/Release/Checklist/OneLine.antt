-- ===== src/Release/Checklist/OneLine.antt =====
-- A checklist line of tools/private/release/release_issue.py holds no line break.
use rules_python.Base.{
  nat_eq, text_eq, ℕ, Bool, true, false, [], ◌∷◌, ◌++◌, Text, ◌≡◌, refl, codes, arith, All,
  All-append, ℕ_discrete, if◌then◌else◌,
}
use rules_python.Base.Dict.{Dict}
use rules_python.Text.{is_break, IsOneLine, join}
use rules_python.Release.Checklist.{
  is_dark, is_word_char, is_commit, format_pair, format_pairs, format_metadata,
  format_metadata_line, box,
}
use rules_python.Release.Checklist.Pairs.{IsAll, IsPair}
use rules_python.Release.Checklist.ReadBack.{IsEntry}

dark-is_break : (c : ℕ) → is_dark c ≡ true → is_break c ≡ false
dark-is_break c h = ground arith

word-is_break : (c : ℕ) → is_word_char c ≡ true → is_break c ≡ false
word-is_break c h = ground arith

pub darks-IsOneLine : (s : Text) → IsAll is_dark s → IsOneLine s
darks-IsOneLine [] h = tt
darks-IsOneLine (c ∷ s) h = (dark-is_break c h.0, darks-IsOneLine s h.1)

words-IsOneLine : (s : Text) → IsAll is_word_char s → IsOneLine s
words-IsOneLine [] h = tt
words-IsOneLine (c ∷ s) h = (word-is_break c h.0, words-IsOneLine s h.1)

both : (a b : Text) → IsOneLine a → IsOneLine b → IsOneLine (a ++ b)
both = All-append (λ c. is_break c ≡ false)

pair-IsOneLine :
    (commit : Bool) (k v : Text)
    → IsOneLine k
    → IsOneLine v
    → IsOneLine (if commit then k ++ (codes "= " ++ v) else k ++ (b'=' ∷ v))
unfolding ℕ_discrete
pair-IsOneLine true k v h g = both k (codes "= " ++ v) h (refl, (refl, g))
pair-IsOneLine false k v h g = both k (b'=' ∷ v) h (refl, g)

format_pair-IsOneLine : (k v : Text) → IsPair (k, v) → IsOneLine (format_pair (k, v))
format_pair-IsOneLine k v h =
    pair-IsOneLine (is_commit k) k v (words-IsOneLine k h.key) (darks-IsOneLine v h.value)

join-IsOneLine : (d : Dict Text Text) → All IsPair d → IsOneLine (join (codes " ") (format_pairs d))
unfolding join ℕ_discrete
join-IsOneLine [] h = tt
join-IsOneLine ((k, v) ∷ []) h = format_pair-IsOneLine k v h.0
join-IsOneLine ((k, v) ∷ p ∷ d) h =
    both (format_pair (k, v)) (b' ' ∷ join (codes " ") (format_pairs (p ∷ d)))
      (format_pair-IsOneLine k v h.0) (refl, join-IsOneLine (p ∷ d) h.1)

metadata-IsOneLine : (d : Dict Text Text) → All IsPair d → IsOneLine (format_metadata d)
unfolding ℕ_discrete
metadata-IsOneLine [] h = tt
metadata-IsOneLine (p ∷ d) h = (refl, (refl, (refl, join-IsOneLine (p ∷ d) h)))

box-IsOneLine : (checked : Bool) → IsOneLine (box checked)
unfolding ℕ_discrete
box-IsOneLine true = (refl, (refl, (refl, (refl, (refl, (refl, tt))))))
box-IsOneLine false = (refl, (refl, (refl, (refl, (refl, (refl, tt))))))

pub format_metadata_line-IsOneLine :
    (checked : Bool) (name : Text) (metadata : Dict Text Text)
    → IsEntry name metadata
    → IsOneLine name
    → IsOneLine (format_metadata_line checked name metadata)
unfolding format_metadata_line
format_metadata_line-IsOneLine checked name metadata h g =
    both (box checked) (name ++ format_metadata metadata) (box-IsOneLine checked)
      (both name (format_metadata metadata) g (metadata-IsOneLine metadata h.pairs))
