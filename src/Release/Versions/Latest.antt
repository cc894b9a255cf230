-- ===== src/Release/Versions/Latest.antt =====
-- The latest version of `get_latest_version` is the greatest stable tag.
use rules_python.Base.{
  nat_eq, text_eq, ◌≡◌, Bool, true, false, not, ◌⊎◌, inl, inr, some, List, [], ◌∷◌, Text, ==_refl,
  ok, select, contains, All, arith, Bool-cases, Option-cases,
}
use rules_python.Base.Order.{sort_by, SortedBy, sort_by-SortedBy, sort_by-All, All-of_sort_by}
use rules_python.Text.{strip}
use rules_python.Release.Versions.{is_semver, last_of, latest_of, get_latest_version}

select-true : (p : Text → Bool) (l : List Text) → All (λ x. p x ≡ true) (select p l)
select-true p [] = tt
select-true p (x ∷ l) = elim (Bool-cases (p x)) [
  | inl e ↦ rw e (e, select-true p l)
  | inr e ↦ rw e (select-true p l)
]

module _ {P Q : Text → Type 0} (f : (x : Text) → P x → Q x) where
  All-weaken : (l : List Text) → All P l → All Q l
  All-weaken [] h = tt
  All-weaken (x ∷ l) h = (f x h.0, All-weaken l h.1)

All-contains : (l : List Text) → All (λ x. contains l x ≡ true) l
All-contains [] = tt
All-contains (x ∷ l) =
    (ground (arith, ==_refl x), All-weaken (λ y h. ground (arith, h)) l (All-contains l))

module _ (P : Text → Type 0) where
  last_of-All : (l : List Text) (t : Text) → All P l → last_of l ≡ some t → P t
  last_of-All [] t h e = absurd (ground arith)
  last_of-All (x ∷ []) t h e = let same : x ≡ t = ground arith in rw (← same) h.0
  last_of-All (x ∷ y ∷ l) t h e = last_of-All (y ∷ l) t h.1 e

  select-All : (p : Text → Bool) (l : List Text) → All P l → All P (select p l)
  select-All p [] h = tt
  select-All p (x ∷ l) h = elim (Bool-cases (p x)) [
    | inl e ↦ rw e (h.0, select-All p l h.1)
    | inr e ↦ rw e (select-All p l h.1)
  ]

  -- What holds of the selected texts holds of each text that is selected.
  All-select :
      (p : Text → Bool) (l : List Text) → All P (select p l) → All (λ x. (p x ≡ false) ⊎ P x) l
  All-select p [] h = tt
  All-select p (x ∷ l) h = elim (Bool-cases (p x)) [
    | inl e ↦ let g = rw e at h in (inr g.0, All-select p l g.1)
    | inr e ↦ (inl e, All-select p l (rw e at h))
  ]

module _ (lt : Text → Text → Bool) where
  select-SortedBy : (p : Text → Bool) (l : List Text) → SortedBy lt l → SortedBy lt (select p l)
  select-SortedBy p [] h = tt
  select-SortedBy p (x ∷ l) h = elim (Bool-cases (p x)) [
    | inl e ↦ rw e (select-All (λ y. lt y x ≡ false) p l h.0, select-SortedBy p l h.1)
    | inr e ↦ rw e (select-SortedBy p l h.1)
  ]

  -- The last of a sorted list is less than none of it.
  last_of-SortedBy :
      ((x : Text) → lt x x ≡ false)
      → (l : List Text) (t : Text) → SortedBy lt l
      → last_of l ≡ some t
      → All (λ y. lt t y ≡ false) l
  last_of-SortedBy irrefl [] t h e = tt
  last_of-SortedBy irrefl (x ∷ []) t h e = let same : x ≡ t = ground arith in rw same (irrefl t, tt)
  last_of-SortedBy irrefl (x ∷ y ∷ l) t h e =
      (last_of-All (λ z. lt z x ≡ false) (y ∷ l) t h.0 e, last_of-SortedBy irrefl (y ∷ l) t h.1 e)

module _ (lt : Text → Text → Bool) (is_prerelease : Text → Bool) where
  -- What the call returns is the last stable one of the sorted versions.
  latest_of_ok :
      (versions : List Text) (t : Text)
      → latest_of lt is_prerelease versions (last_of versions) ≡ ok t
      → last_of (select (λ v. not (is_prerelease v)) versions) ≡ some t
  latest_of_ok versions t e = elim (Option-cases (last_of versions)) [
    | inl n ↦ absurd (ground (arith, n))
    | inr (latest, s) ↦ elim (Bool-cases (is_prerelease latest)) [
      | inl pre ↦ absurd (ground (arith, s))
      | inr final ↦ elim (Option-cases (last_of (select (λ v. not (is_prerelease v)) versions))) [
        | inl n ↦ absurd (ground (arith, s, n))
        | inr (stable, q) ↦ ground (arith, s, q)
      ]
    ]
  ]

abbrev has_form : Text → Bool
has_form tag = is_semver (strip tag)

module _ (lt : Text → Text → Bool) (is_prerelease : Text → Bool) (tags : List Text) (t : Text)
    (last : last_of (select (λ v. not (is_prerelease v)) (sort_by lt (select has_form tags)))
      ≡ some t) where
  -- What holds of the tags of the form holds of the result.
  of_result : (P : Text → Type 0) → All P (select has_form tags) → P t
  of_result P h =
      last_of-All P _ t
        (select-All P (λ v. not (is_prerelease v)) (sort_by lt (select has_form tags))
          (sort_by-All lt P (select has_form tags) h))
        last

  result_is_final : is_prerelease t ≡ false
  result_is_final =
      let h =
        last_of-All (λ v. not (is_prerelease v) ≡ true) _ t
          (select-true (λ v. not (is_prerelease v)) (sort_by lt (select has_form tags))) last in
      ground (arith, h)

  none_greater :
      ((a b : Text) → lt a b ≡ true → lt b a ≡ false)
      → ((a b c : Text) → lt b a ≡ false → lt c b ≡ false → lt c a ≡ false)
      → All (λ y. (has_form y ≡ false) ⊎ ((is_prerelease y ≡ true) ⊎ (lt t y ≡ false))) tags
  none_greater asym le_trans =
      let versions = sort_by lt (select has_form tags) in
      let stable = λ (v : Text). not (is_prerelease v) in
      let sorted =
        select-SortedBy lt stable versions
          (sort_by-SortedBy lt asym le_trans (select has_form tags)) in
      let top =
        last_of-SortedBy lt (λ x. ground (arith, asym x x)) (select stable versions) t sorted
          last in
      All-select (λ y. (is_prerelease y ≡ true) ⊎ (lt t y ≡ false)) has_form tags
        (All-of_sort_by lt (λ y. (is_prerelease y ≡ true) ⊎ (lt t y ≡ false)) (select has_form tags)
          (All-weaken {P = λ y. (not (is_prerelease y) ≡ false) ⊎ (lt t y ≡ false)}
            {Q = λ y. (is_prerelease y ≡ true) ⊎ (lt t y ≡ false)}
            (λ y c. elim c [ inl e ↦ inl (ground (arith, e)) | inr g ↦ inr g ]) versions
            (All-select (λ y. lt t y ≡ false) stable versions top)))

-- For an order of versions, a result of `get_latest_version` is one of the tags, with the form of a
-- version and no pre-release, and no tag that has the form and is no pre-release is greater.
pub get_latest_version-greatest :
    (lt : Text → Text → Bool) (is_prerelease : Text → Bool) (tags : List Text) (t : Text)
    → ((a b : Text) → lt a b ≡ true → lt b a ≡ false)
    → ((a b c : Text) → lt b a ≡ false → lt c b ≡ false → lt c a ≡ false)
    → get_latest_version lt is_prerelease tags ≡ ok t
    → (contains tags t ≡ true)
      × (is_semver (strip t) ≡ true)
      × (is_prerelease t ≡ false)
      × All
          (λ y. (is_semver (strip y) ≡ false) ⊎ ((is_prerelease y ≡ true) ⊎ (lt t y ≡ false)))
          tags
unfolding get_latest_version
get_latest_version-greatest lt is_prerelease tags t asym le_trans e =
    let last = latest_of_ok lt is_prerelease (sort_by lt (select has_form tags)) t e in
    (
      of_result lt is_prerelease tags t last (λ y. contains tags y ≡ true)
          (select-All (λ y. contains tags y ≡ true) has_form tags (All-contains tags)),
      of_result lt is_prerelease tags t last (λ y. has_form y ≡ true) (select-true has_form tags),
      result_is_final lt is_prerelease tags t last,
      none_greater lt is_prerelease tags t last asym le_trans,
    )
