-- ===== src/Release/News/Dashed.antt =====
-- Versions with dashes, as the anchors of the changelog have them, are read by
-- `_parse_simple_version` of tools/private/release/changelog_news.py.
use rules_python.Base.{
  nat_eq, text_eq, ℕ, Bool, true, false, List, [], ◌∷◌, ◌++◌, Text, codes, if◌then◌else◌, traverse,
  ok, ◌≡◌, ◌≢◌, refl, ◌∙◌, append-nil, ap, sym, arith, All, ℕ_discrete,
}
use rules_python.Text.{
  strip, lstrip_by, is_space, replace, replace_from, starts_with, split, split-append,
  split-eq_singleton, IsTrimmed-append, strip_padded,
}
use rules_python.Release.Versions.{is_digit, int_of, number}
use rules_python.Release.Checklist.{take_while}
use rules_python.Release.News.{parse_simple_version}

abbrev pub IsNumeral : Text → Type 0
IsNumeral = All (λ c. is_digit c ≡ true)

kept_digits :
    (b : Bool) (c : ℕ) (s : Text)
    → is_digit c ≡ b
    → IsNumeral s
    → IsNumeral (if b then c ∷ s else [])
kept_digits true c s e h = (e, h)
kept_digits false c s e h = tt

pub take_while-IsNumeral : (s : Text) → IsNumeral (take_while is_digit s)
unfolding take_while
take_while-IsNumeral [] = tt
take_while-IsNumeral (c ∷ s) =
    kept_digits (is_digit c) c (take_while is_digit s) refl (take_while-IsNumeral s)

digit-dark : (c : ℕ) → is_digit c ≡ true → is_space c ≡ false
digit-dark c h = ground arith

digit-no_dash : (c : ℕ) → is_digit c ≡ true → c ≢ b'-'
digit-no_dash c h = ground arith

digit-no_dot : (c : ℕ) → is_digit c ≡ true → c ≢ b'.'
digit-no_dot c h = ground arith

lstrip_by-IsNumeral : (s : Text) → IsNumeral s → lstrip_by is_digit s ≡ []
unfolding lstrip_by
lstrip_by-IsNumeral [] h = refl
lstrip_by-IsNumeral (c ∷ s) h = ground (arith, lstrip_by-IsNumeral s h.1)

All-map : {P Q : ℕ → Type 0} → ((c : ℕ) → P c → Q c) → (s : Text) → All P s → All Q s
All-map f [] h = tt
All-map f (c ∷ s) h = (f c h.0, All-map f s h.1)

strip-IsNumeral : (s : Text) → s ≢ [] → IsNumeral s → strip s ≡ s
strip-IsNumeral [] n h = absurd (n refl)
strip-IsNumeral (c ∷ s) n h =
    ap strip (sym (append-nil (c ∷ s)))
    ∙ strip_padded [] (c ∷ s) [] tt
        (IsTrimmed-append [] (c ∷ s) (digit-dark c h.0) n (All-map digit-dark (c ∷ s) h)) tt

int_of-IsNumeral : (s : Text) → s ≢ [] → IsNumeral s → int_of s ≡ ok (number 0 s)
unfolding int_of
int_of-IsNumeral [] n h = absurd (n refl)
int_of-IsNumeral (c ∷ s) n h = rw (strip-IsNumeral (c ∷ s) n h, h.0, lstrip_by-IsNumeral s h.1) refl

replace_from-digits :
    (a t : Text)
    → IsNumeral a
    → replace_from 0 (codes "-") (codes ".") (a ++ t)
      ≡ a ++ replace_from 0 (codes "-") (codes ".") t
unfolding replace_from starts_with
replace_from-digits [] t h = refl
replace_from-digits (c ∷ a) t h = ground (arith, replace_from-digits a t h.1)

replace-digits : (a : Text) → IsNumeral a → replace_from 0 (codes "-") (codes ".") a ≡ a
unfolding replace_from starts_with
replace-digits [] h = refl
replace-digits (c ∷ a) h = ground (arith, replace-digits a h.1)

-- Three numbers between dashes.
pub record IsDashed (v : Text) : Type 0 where
  pub a : Text
  pub b : Text
  pub c : Text
  pub spelled : v ≡ a ++ (b'-' ∷ (b ++ (b'-' ∷ c)))
  pub some_a : a ≢ []
  pub some_b : b ≢ []
  pub some_c : c ≢ []
  pub digits_a : IsNumeral a
  pub digits_b : IsNumeral b
  pub digits_c : IsNumeral c

replace_dash :
    (t : Text)
    → replace_from 0 (codes "-") (codes ".") (b'-' ∷ t)
      ≡ b'.' ∷ replace_from 0 (codes "-") (codes ".") t
unfolding replace_from starts_with ℕ_discrete
replace_dash t = refl

replace-IsDashed :
    (a b c : Text)
    → IsNumeral a
    → IsNumeral b
    → IsNumeral c
    → replace (a ++ (b'-' ∷ (b ++ (b'-' ∷ c)))) (codes "-") (codes ".")
      ≡ a ++ (b'.' ∷ (b ++ (b'.' ∷ c)))
unfolding replace
replace-IsDashed a b c ha hb hc =
    replace_from-digits a (b'-' ∷ (b ++ (b'-' ∷ c))) ha
    ∙ ap (λ t. a ++ t)
        (replace_dash (b ++ (b'-' ∷ c))
          ∙ ap (λ t. b'.' ∷ t)
              (replace_from-digits b (b'-' ∷ c) hb
                ∙ ap (λ t. b ++ t) (replace_dash c ∙ ap (λ t. b'.' ∷ t) (replace-digits c hc))))

split-IsDashed :
    (a b c : Text)
    → IsNumeral a
    → IsNumeral b
    → IsNumeral c
    → split b'.' (a ++ (b'.' ∷ (b ++ (b'.' ∷ c)))) ≡ a ∷ b ∷ c ∷ []
split-IsDashed a b c ha hb hc =
    split-append b'.' a (b ++ (b'.' ∷ c)) (All-map digit-no_dot a ha)
    ∙ ap (λ l. a ∷ l)
        (split-append b'.' b c (All-map digit-no_dot b hb)
          ∙ ap (λ l. b ∷ l) (split-eq_singleton b'.' c (All-map digit-no_dot c hc)))

pub parse_simple_version-IsDashed :
    (v : Text) → IsDashed v → (numbers : List ℕ) × (parse_simple_version v ≡ ok numbers)
unfolding parse_simple_version
parse_simple_version-IsDashed v h = (
  number 0 h.a ∷ number 0 h.b ∷ number 0 h.c ∷ [],
  ap (λ t. traverse int_of (split b'.' (replace t (codes "-") (codes ".")))) h.spelled
      ∙ (ap (λ t. traverse int_of (split b'.' t))
            (replace-IsDashed h.a h.b h.c h.digits_a h.digits_b h.digits_c)
          ∙ (ap (traverse int_of) (split-IsDashed h.a h.b h.c h.digits_a h.digits_b h.digits_c)
              ∙ rw
                  (
                    int_of-IsNumeral h.a h.some_a h.digits_a,
                    int_of-IsNumeral h.b h.some_b h.digits_b,
                    int_of-IsNumeral h.c h.some_c h.digits_c,
                  )
                  refl)),
)
