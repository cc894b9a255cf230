-- ===== src/Runfiles/Manifest/Search.antt =====
-- The search of `_ManifestBased.RlocationChecked` through the directories above a path.
use rules_python.Base.{
  nat_eq, text_eq, pair_eq, ℕ, zero, suc, ◌+◌, ◌-◌, ◌<◌, ◌≤◌, ◌≡◌, ◌≢◌, refl, true, false, Option,
  none, some, [], ◌∷◌, ◌++◌, Text, codes, if◌then◌else◌, ok, err, diverged, arith, take, drop,
  length, Bool-cases, inl, inr, subst,
}
use rules_python.Base.Dict.{Dict}
use rules_python.Text.{starts_with, includes, rfind_char, char_at?, is_char, rfind_char-lt}
use rules_python.Runfiles.Manifest.{
  ManifestBased, entry, search_end, prefix_loop, manifest_rlocation,
}

-- What the directory `path[:e]` gives for the path below it.
abbrev below : Text → ℕ → Text → Text
below path e prefix_match = prefix_match ++ (b'/' ∷ drop (e + 1) path)

-- The reference: the longest directory `path[:e]`, with a slash at `e < bound`, that has an entry.
unfoldable pub longest : Dict Text Text → Text → ℕ → Option Text
longest d path zero = none
longest d path (suc e) =
    let rest = longest d path e in
    if is_char b'/' (char_at? path e)
    then (elim (entry d (take e path)) [ some m ↦ some (below path e m) | none ↦ rest ])
    else rest

longest_step : Dict Text Text → Text → Option ℕ → Option Text
longest_step d path none = none
longest_step d path (some e) = elim (entry d (take e path)) [
  | some m ↦ some (below path e m)
  | none ↦ longest d path e
]

longest-rfind :
    (d : Dict Text Text) (path : Text) (n : ℕ)
    → longest d path n ≡ longest_step d path (rfind_char b'/' path n)
unfolding longest longest_step rfind_char
longest-rfind d path zero = refl
longest-rfind d path (suc e) = ground (arith, longest-rfind d path e)

-- Two slashes never stand side by side.
abbrev NoDouble : Text → Type 0
NoDouble path =
    (i : ℕ) → is_char b'/' (char_at? path i) ≡ true → is_char b'/' (char_at? path (suc i)) ≡ false

rfind-is_char :
    (c : ℕ) (s : Text) (n : ℕ) (i : ℕ) → rfind_char c s n ≡ some i → is_char c (char_at? s i) ≡ true
unfolding rfind_char
rfind-is_char c s zero i h = cc
rfind-is_char c s (suc n) i h = ground (arith, rfind-is_char c s n i)

starts_with-slash : (s : Text) → starts_with s (codes "/") ≡ is_char b'/' (char_at? s 0)
unfolding starts_with
starts_with-slash [] = refl
starts_with-slash (c ∷ s) = ground arith

includes-NoDouble : (path : Text) → includes path (codes "//") ≡ false → NoDouble path
unfolding includes
includes-NoDouble [] h i q = refl
includes-NoDouble (c ∷ path) h zero q = ground (arith, starts_with-slash path)
includes-NoDouble (c ∷ path) h (suc i) q = includes-NoDouble path (ground arith) i q

-- Before a slash stands no slash, so a search may start one place lower.
longest-skip :
    (d : Dict Text Text) (path : Text) (i : ℕ)
    → NoDouble path
    → is_char b'/' (char_at? path (suc i)) ≡ true
    → longest d path (suc i) ≡ longest d path i
unfolding longest
longest-skip d path i n h = ground (arith, n i)

module _ (d : Dict Text Text) (path : Text) (n : NoDouble path) where
  -- The next round of the loop, below a slash at `i`.
  next_round :
      (fuel i : ℕ)
      → is_char b'/' (char_at? path 0) ≡ false
      → is_char b'/' (char_at? path i) ≡ true
      → ((k : ℕ) → k < fuel → prefix_loop fuel d path (suc k) ≡ ok (longest d path k))
      → i ≤ fuel
      → prefix_loop fuel d path i ≡ ok (longest d path i)
  next_round fuel zero f slash ih h = cc
  next_round fuel (suc k) f slash ih h = rw (longest-skip d path k n slash) (ih k h)

  one_round :
      (fuel e : ℕ) (o : Option ℕ)
      → is_char b'/' (char_at? path 0) ≡ false
      → rfind_char b'/' path e ≡ o
      → e ≤ fuel
      → ((k : ℕ) → k < fuel → prefix_loop fuel d path (suc k) ≡ ok (longest d path k))
      → prefix_loop (suc fuel) d path (suc e) ≡ ok (longest_step d path o)
  unfolding prefix_loop longest_step
  one_round fuel e none f q h ih = ground arith
  one_round fuel e (some i) f q h ih = ground (
    arith,
    next_round fuel i f (rfind-is_char b'/' path e i q) ih
        (omega (arith, rfind_char-lt b'/' path e q)),
  )

  -- The loop finds what the reference finds below its first search, given a round for each place.
  prefix_loop-longest :
      is_char b'/' (char_at? path 0) ≡ false
      → (fuel e : ℕ) → e < fuel
      → prefix_loop fuel d path (suc e) ≡ ok (longest d path e)
  prefix_loop-longest f zero e h = absurd (omega arith)
  prefix_loop-longest f (suc fuel) e h =
      rw (longest-rfind d path e) (
        one_round fuel e (rfind_char b'/' path e) f refl (omega arith) (prefix_loop-longest f fuel))

-- The lookup of a path with no two slashes side by side and no slash in front: the search ends,
-- and gives the entry of the path or, without one, that of the longest directory above it that
-- has an entry, followed by the path below that directory. An empty entry counts as missing.
pub manifest_rlocation-longest :
    (m : ManifestBased) (path : Text)
    → includes path (codes "//") ≡ false
    → starts_with path (codes "/") ≡ false
    → manifest_rlocation m path
      ≡ ok (elim (entry m.runfiles path) [
        | some exact ↦ some exact
        | none ↦ longest m.runfiles path (length path - 1)
      ])
unfolding manifest_rlocation
manifest_rlocation-longest m [] n f = unfold prefix_loop rfind_char longest in ground arith
manifest_rlocation-longest m (c ∷ path) n f = ground (
  arith,
  prefix_loop-longest m.runfiles (c ∷ path) (includes-NoDouble (c ∷ path) n)
      (ground (arith, starts_with-slash (c ∷ path))) (suc (suc (length path))) (length path)
      (omega arith),
)

rfind_some :
    (s : Text) (n : ℕ)
    → is_char b'/' (char_at? s 0) ≡ true
    → (i : ℕ) × (rfind_char b'/' s (suc n) ≡ some i)
unfolding rfind_char
rfind_some s zero h = (0, ground arith)
rfind_some s (suc n) h = elim (Bool-cases (is_char b'/' (char_at? s (suc n)))) [
  | inl e ↦ (suc n, rw e)
  | inr e ↦ let (i, q) = rfind_some s n h in (i, rw e q)
]

module _ (d : Dict Text Text) (path : Text) (n : NoDouble path)
    (f : is_char b'/' (char_at? path 0) ≡ true) (long : 2 ≤ length path)
    (missing : (e : ℕ) → entry d (take e path) ≡ none) where
  search_end_pos : (e : ℕ) → e ≢ 1 → (k : ℕ) × (search_end path e ≡ suc k)
  search_end_pos zero h = (length path - 2, omega arith)
  search_end_pos (suc zero) h = absurd (h refl)
  search_end_pos (suc (suc e)) h = (e, refl)

  prefix_loop_diverges : (fuel e : ℕ) → e ≢ 1 → prefix_loop fuel d path e ≡ err diverged
  unfolding prefix_loop
  prefix_loop_diverges zero e h = refl
  prefix_loop_diverges (suc fuel) e h =
      let (k, p) = search_end_pos e h in
      let (i, q) = rfind_some path k f in
      let slash = rfind-is_char b'/' path (suc k) i q in
      let next : i ≢ 1 =
        λ one. cc (n 0 f, subst (λ j. is_char b'/' (char_at? path j) ≡ true) one slash) in
      rw (p, prefix_loop) (ground (arith, q, missing i, prefix_loop_diverges fuel i next))

-- With a slash in front of a path of at least two characters, no two slashes side by side, and no
-- entry of the path or of a directory above it, the search ends in no number of rounds.
pub prefix_loop-diverges :
    (d : Dict Text Text) (path : Text) (fuel : ℕ)
    → starts_with path (codes "/") ≡ true
    → includes path (codes "//") ≡ false
    → 2 ≤ length path
    → ((e : ℕ) → entry d (take e path) ≡ none)
    → prefix_loop fuel d path (length path) ≡ err diverged
prefix_loop-diverges d path fuel f n long missing =
    prefix_loop_diverges d path (includes-NoDouble path n) (rw (← starts_with-slash path) f) long
      missing fuel (length path) (omega arith)
