-- ===== src/Release/Versions/Fresh.antt =====
-- The next version of a release branch is none of the tags.
use rules_python.Base.{
  nat_eq, text_eq, ℕ, zero, suc, ◌+◌, ◌-◌, ◌*◌, ◌/◌, ◌%◌, ap, ◌≢◌, ◌<◌, ◌≤◌, ◌≡◌, refl, ◌∙◌, Bool,
  true, false, Option, some, List, [], ◌∷◌, ◌++◌, map, Text, ◌==◌, ltb, ok, arith, contains,
  Bool-cases, Option-cases, inl, inr, drop-append, ==_sound,
}
use rules_python.Text.{
  starts_with-append, strip, lstrip_by, decimal, decimal_from, IsDigits, decimal-IsDigits,
}
use rules_python.Release.Versions.{
  is_digit, number, patch_of, at_end, digits_then, matching_patches, max_of, next_patch,
  version_prefix, next_on_branch, release_branch, determine_next_version, given_or,
}

number-digit :
    (n d : ℕ) (rest : Text) → d < 10 → number n ((d + 48) ∷ rest) ≡ number (n * 10 + d) rest
unfolding number
number-digit n d rest h =
    let same : d + 48 - 48 ≡ d = omega arith in
    let is : is_digit (d + 48) ≡ true = ground arith in rw (is, same)

-- Reading the digits of a number gives the number.
number-decimal_from :
    (fuel n : ℕ) (rest : Text) → n < fuel → number 0 (decimal_from fuel n rest) ≡ number n rest
unfolding decimal_from
number-decimal_from zero n rest h = absurd (omega arith)
number-decimal_from (suc fuel) n rest h = elim (Bool-cases (ltb n 10)) [
  | inl small ↦
      let same : 0 * 10 + n ≡ n = omega arith in
      rw small (number-digit 0 n rest (ground arith) ∙ ap (λ k. number k rest) same)
  | inr large ↦
      let less : n / 10 < fuel = ground arith in
      let whole : n / 10 * 10 + n % 10 ≡ n = omega arith in
      rw large (
        number-decimal_from fuel (n / 10) ((n % 10 + 48) ∷ rest) less
        ∙ number-digit (n / 10) (n % 10) rest (omega arith)
        ∙ ap (λ k. number k rest) whole)
]

pub number-decimal : (n : ℕ) → number 0 (decimal n) ≡ n
unfolding decimal number
number-decimal n = number-decimal_from (suc n) n [] (omega arith)

lstrip_digits : (s : Text) → IsDigits s → lstrip_by is_digit s ≡ []
unfolding lstrip_by
lstrip_digits [] h = refl
lstrip_digits (c ∷ s) h = ground (arith, lstrip_digits s h.1, h.0.0, h.0.1)

digits_then-IsDigits : (s : Text) → IsDigits s → s ≢ [] → digits_then at_end s ≡ true
digits_then-IsDigits [] h n = absurd (n refl)
digits_then-IsDigits (c ∷ s) h n =
    let rest = lstrip_digits s h.1 in rw rest (ground (arith, h.0.0, h.0.1))

decimal_from-ne-nil : (fuel n : ℕ) (c : ℕ) (s : Text) → decimal_from fuel n (c ∷ s) ≢ []
unfolding decimal_from
decimal_from-ne-nil zero n c s h = cc
decimal_from-ne-nil (suc fuel) n c s h =
    ground (arith, decimal_from-ne-nil fuel (n / 10) (n % 10 + 48) (c ∷ s))

decimal-ne-nil : (n : ℕ) → decimal n ≢ []
unfolding decimal decimal_from
decimal-ne-nil n h = ground (arith, decimal_from-ne-nil n (n / 10) (n % 10 + 48) [])

-- A version that is made for a branch is read as its patch.
patch_of-decimal : (prefix : Text) (n : ℕ) → patch_of prefix (prefix ++ decimal n) ≡ some n
unfolding patch_of
patch_of-decimal prefix n =
    let read = digits_then-IsDigits (decimal n) (decimal-IsDigits n) (decimal-ne-nil n) in
    rw (starts_with-append prefix (decimal n), drop-append prefix (decimal n), read)
      (ap some (number-decimal n))

le_max : (l : List ℕ) (p : ℕ) → contains l p ≡ true → p ≤ max_of l
le_max [] p h = absurd (ground arith)
le_max (x ∷ l) p h = ground (arith, le_max l p)

lt_next : (l : List ℕ) (p : ℕ) → contains l p ≡ true → p < next_patch l
lt_next [] p h = absurd (ground arith)
lt_next (x ∷ l) p h = omega (arith, le_max (x ∷ l) p h)

-- The patch of each tag of the branch is found.
matching_patches-contains :
    (prefix : Text) (tags : List Text) (tag : Text) (p : ℕ)
    → contains (map strip tags) tag ≡ true
    → patch_of prefix tag ≡ some p
    → contains (matching_patches prefix tags) p ≡ true
unfolding matching_patches
matching_patches-contains prefix [] tag p h e = absurd (ground arith)
matching_patches-contains prefix (t ∷ tags) tag p h e = elim (Bool-cases (tag == strip t)) [
  | inl same ↦
      let at : tag ≡ strip t = ==_sound tag (strip t) same in
      let found : patch_of prefix (strip t) ≡ some p = rw at at e in rw found (ground arith)
  | inr other ↦
      let rest = matching_patches-contains prefix tags tag p (ground arith) e in
      elim (Option-cases (patch_of prefix (strip t))) [
        | inl none_here ↦ rw none_here rest
        | inr (q, here) ↦ rw here (ground arith)
      ]
]

next_on_branch-Fresh :
    (branch : ℕ × ℕ) (tags : List Text)
    → contains (map strip tags) (next_on_branch branch tags) ≡ false
unfolding next_on_branch
next_on_branch-Fresh branch tags =
    let prefix = version_prefix branch in
    let next = next_patch (matching_patches prefix tags) in
    elim (Bool-cases (contains (map strip tags) (prefix ++ decimal next))) [
      | inl old ↦
          let known =
            matching_patches-contains prefix tags _ next old (patch_of-decimal prefix next) in
          absurd (omega (arith, lt_next (matching_patches prefix tags) next known))
      | inr new ↦ new
    ]

-- The next version of a release branch, with git's current branch or a given one, is none of the
-- tags without the white space round them.
pub determine_next_version-Fresh :
    (lt : Text → Text → Bool) (is_prerelease : Text → Bool) (branch_name : Option Text)
    (current : Text) (tags : List Text) (is_patch should_increment : Bool) (branch : ℕ × ℕ)
    (version : Text)
    → release_branch (given_or lt is_prerelease branch_name current) ≡ some branch
    → determine_next_version lt is_prerelease branch_name current tags is_patch should_increment
      ≡ ok version
    → contains (map strip tags) version ≡ false
unfolding determine_next_version
determine_next_version-Fresh lt is_prerelease branch_name current tags is_patch should_increment
      branch version b e =
    let same : next_on_branch branch tags ≡ version = ground (arith, b) in
    rw (← same) (next_on_branch-Fresh branch tags)
