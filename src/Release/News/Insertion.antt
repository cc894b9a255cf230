-- ===== src/Release/News/Insertion.antt =====
-- Where tools/private/release/changelog_news.py inserts a release.
use rules_python.Base.{
  nat_eq, text_eq, ℕ, zero, suc, ◌+◌, ◌<◌, Bool, true, false, Option, none, some, List, [], ◌∷◌,
  Text, drop, Result, ok, err, value_error, ◌≡◌, refl, ◌∙◌, sym, ap, arith, inl, inr, ◌⊎◌,
  ok-injective,
}
use rules_python.Base.Order.{text_lt}
use rules_python.Text.{starts_with}
use rules_python.Release.News.{
  anchor_version, parse_simple_version, first_smaller, find_insertion_point,
}
use rules_python.Release.News.Anchors.{parse_simple_version-anchor}

-- The text begins with the anchor of a version that is smaller.
pub record BeginsSmaller (new : List ℕ) (s : Text) : Type 0 where
  pub version : Text
  pub old : List ℕ
  pub anchor : anchor_version s ≡ some version
  pub parsed : parse_simple_version version ≡ ok old
  pub smaller : text_lt old new ≡ true

-- The place of the first anchor of a smaller version.
pub record IsFirst (new : List ℕ) (s : Text) (j : ℕ) : Type 0 where
  pub begins : BeginsSmaller new (drop j s)
  pub none_before : (m : ℕ) → m < j → BeginsSmaller new (drop m s) → ⊥

abbrev Found : List ℕ → ℕ → Text → Result ℕ → Type 0
Found new i s r =
    ((j : ℕ) × (r ≡ ok (i + j)) × IsFirst new s j)
    ⊎ ((r ≡ err value_error) × ((m : ℕ) → BeginsSmaller new (drop m s) → ⊥))

err-anchor : {v : Text} → none ≡ some v → ⊥
err-anchor h = cc

no_anchor : (new : List ℕ) (m : ℕ) → BeginsSmaller new (drop m []) → ⊥
unfolding anchor_version starts_with
no_anchor new zero b = err-anchor b.anchor
no_anchor new (suc m) b = err-anchor b.anchor

before-shift :
    (new : List ℕ) (c : ℕ) (s : Text) (j : ℕ)
    → (BeginsSmaller new (c ∷ s) → ⊥)
    → ((m : ℕ) → m < j → BeginsSmaller new (drop m s) → ⊥)
    → (m : ℕ) → m < suc j
    → BeginsSmaller new (drop m (c ∷ s))
    → ⊥
before-shift new c s j n f zero h b = n b
before-shift new c s j n f (suc m) h b = f m (omega (arith, h)) b

nowhere-shift :
    (new : List ℕ) (c : ℕ) (s : Text)
    → (BeginsSmaller new (c ∷ s) → ⊥)
    → ((m : ℕ) → BeginsSmaller new (drop m s) → ⊥)
    → (m : ℕ) → BeginsSmaller new (drop m (c ∷ s))
    → ⊥
nowhere-shift new c s n f zero b = n b
nowhere-shift new c s n f (suc m) b = f m b

-- A character in front, where no smaller version begins.
Found-shift :
    (new : List ℕ) (i c : ℕ) (s : Text) (r : Result ℕ)
    → (BeginsSmaller new (c ∷ s) → ⊥)
    → Found new (suc i) s r
    → Found new i (c ∷ s) r
Found-shift new i c s r n (inl (j, e, f)) = inl (
  suc j,
  e ∙ ap ok (omega arith),
  record { begins = f.begins; none_before = before-shift new c s j n f.none_before },
)
Found-shift new i c s r n (inr (e, f)) = inr (e, nowhere-shift new c s n f)

larger-Begins :
    (new : List ℕ) (s v : Text) (old : List ℕ)
    → anchor_version s ≡ some v
    → parse_simple_version v ≡ ok old
    → text_lt old new ≡ false
    → BeginsSmaller new s
    → ⊥
larger-Begins new s v old h g e b =
    let va : b.version ≡ v = cc in
    let same : ok b.old ≡ ok old = sym b.parsed ∙ (ap parse_simple_version va ∙ g) in
    let os : b.old ≡ old = ok-injective same in
    let bs : text_lt b.old new ≡ true = b.smaller in
    let fs : text_lt b.old new ≡ false = ap (λ o. text_lt o new) os ∙ e in cc

at_version :
    (new : List ℕ) (i c : ℕ) (s v : Text) (old : List ℕ) (b : Bool) (rest : Result ℕ)
    → anchor_version (c ∷ s) ≡ some v
    → parse_simple_version v ≡ ok old
    → text_lt old new ≡ b
    → Found new (suc i) s rest
    → Found new i (c ∷ s) (elim b [ true ↦ ok i | false ↦ rest ])
at_version new i c s v old true rest h g e f = inl (
  0,
  ap ok (omega arith),
  record {
    begins = record { version = v; old = old; anchor = h; parsed = g; smaller = e };
    none_before = λ m l b. omega (arith, l);
  },
)
at_version new i c s v old false rest h g e f =
    Found-shift new i c s rest (larger-Begins new (c ∷ s) v old h g e) f

parsed_version :
    (new : List ℕ) (i c : ℕ) (s v : Text) (rest : Result ℕ) (p : Result (List ℕ))
    → anchor_version (c ∷ s) ≡ some v
    → parse_simple_version v ≡ p
    → Found new (suc i) s rest
    → Found new i
        (c ∷ s)
        (elim p [ err e ↦ err e | ok old ↦ elim (text_lt old new) [ true ↦ ok i | false ↦ rest ] ])
parsed_version new i c s v rest (ok old) h g f =
    at_version new i c s v old (text_lt old new) rest h g refl f
parsed_version new i c s v rest (err e) h g f =
    let (old, o) = parse_simple_version-anchor (c ∷ s) v h in absurd (cc)

at_character :
    (new : List ℕ) (i c : ℕ) (s : Text) (rest : Result ℕ) (o : Option Text)
    → anchor_version (c ∷ s) ≡ o
    → Found new (suc i) s rest
    → Found new i (c ∷ s) (elim o [
      | none ↦ rest
      | some v ↦ elim (parse_simple_version v) [
        | err e ↦ err e
        | ok old ↦ elim (text_lt old new) [ true ↦ ok i | false ↦ rest ]
      ]
    ])
at_character new i c s rest none h f =
    Found-shift new i c s rest (λ b. err-anchor (sym h ∙ b.anchor)) f
at_character new i c s rest (some v) h f =
    parsed_version new i c s v rest (parse_simple_version v) h refl f

first_smaller-Found : (new : List ℕ) (i : ℕ) (s : Text) → Found new i s (first_smaller new i s)
unfolding first_smaller
first_smaller-Found new i [] = inr (refl, no_anchor new)
first_smaller-Found new i (c ∷ s) =
    at_character new i c s (first_smaller new (suc i) s) (anchor_version (c ∷ s)) refl
      (first_smaller-Found new (suc i) s)

from_start :
    (new : List ℕ) (s : Text) (r : Result ℕ)
    → Found new 0 s r
    → ((j : ℕ) × (r ≡ ok j) × IsFirst new s j)
      ⊎ ((r ≡ err value_error) × ((m : ℕ) → BeginsSmaller new (drop m s) → ⊥))
from_start new s r (inl (j, e, f)) = inl (j, e ∙ ap ok (omega arith), f)
from_start new s r (inr f) = inr f

find_insertion_point-eq :
    (content version : Text) (new : List ℕ)
    → parse_simple_version version ≡ ok new
    → find_insertion_point content version ≡ first_smaller new 0 content
unfolding find_insertion_point
find_insertion_point-eq content version new h =
    ap (λ p. elim p [ err e ↦ err e | ok numbers ↦ first_smaller numbers 0 content ]) h

-- For a new version that is read as numbers, the place at which its block is inserted is that of the
-- first anchor in the changelog whose version is smaller: such an anchor stands there, and at no
-- place before. Where no anchor has a smaller version, a ValueError is raised.
pub find_insertion_point-IsFirst :
    (content version : Text) (new : List ℕ)
    → parse_simple_version version ≡ ok new
    → ((j : ℕ) × (find_insertion_point content version ≡ ok j) × IsFirst new content j)
      ⊎ ((find_insertion_point content version ≡ err value_error)
          × ((m : ℕ) → BeginsSmaller new (drop m content) → ⊥))
find_insertion_point-IsFirst content version new h =
    rw (find_insertion_point-eq content version new h)
      (from_start new content (first_smaller new 0 content) (first_smaller-Found new 0 content))
