-- ===== src/Release/BackportIssue/Eligible.antt =====
-- When tools/private/release/backport_create_releases.py takes a release for eligible.
use rules_python.Base.{
  nat_eq, text_eq, ℕ, Bool, true, false, not, ◌&&◌, Option, none, some, List, [], ◌∷◌, Text,
  ==_sound, codes, if◌then◌else◌, All, Result, ok, err, ok-injective, err-ne-ok, ◌≡◌, refl, ap, ◌⊎◌,
  inl, inr, take,
}
use rules_python.Base.Dict.{Dict, get}
use rules_python.Base.Order.{text_lt}
use rules_python.Text.{split, join}
use rules_python.Release.BackportIssue.{numbers, is_success, check_minors, is_release_eligible}

-- The minor version is smaller than the version's, or the backport was verified on it.
abbrev pub IsVerified : List ℕ → Dict Text Text → Text → Type 0
IsVerified version verify minor =
    (parsed : List ℕ) × (numbers minor ≡ ok parsed)
    × ((text_lt parsed version ≡ true) ⊎ (get minor verify ≡ some (codes "success")))

-- The first two numbers of the version, and that no minor version from there on failed.
abbrev pub AllVerified : Text → List Text → Dict Text Text → Type 0
AllVerified version minors verify =
    (parsed : List ℕ) × (numbers (join (codes ".") (take 2 (split b'.' version))) ≡ ok parsed)
    × All (IsVerified parsed verify) minors

is_success-eq : (o : Option Text) → is_success o ≡ true → o ≡ some (codes "success")
is_success-eq none h = absurd (cc)
is_success-eq (some status) h = ap some (==_sound status (codes "success") h)

module _ (version : List ℕ) (verify : Dict Text Text) where
  verified_if :
      (smaller success : Bool) (minor : Text) (parsed : List ℕ) (rest : Result Bool)
      → numbers minor ≡ ok parsed
      → text_lt parsed version ≡ smaller
      → is_success (get minor verify) ≡ success
      → (if not smaller && not success then ok false else rest) ≡ ok true
      → IsVerified version verify minor × (rest ≡ ok true)
  verified_if true success minor parsed rest e f g h = ((parsed, e, inl f), h)
  verified_if false true minor parsed rest e f g h =
      ((parsed, e, inr (is_success-eq (get minor verify) g)), h)
  verified_if false false minor parsed rest e f g h =
      let never : false ≡ true = ok-injective h in absurd (cc)

  verified :
      (minor : Text) (r : Result (List ℕ)) (rest : Result Bool)
      → numbers minor ≡ r
      → (elim r [
        | err e ↦ err e
        | ok parsed ↦
            if not (text_lt parsed version) && not (is_success (get minor verify))
            then ok false
            else rest
      ])
        ≡ ok true
      → IsVerified version verify minor × (rest ≡ ok true)
  verified minor (err x) rest e h = absurd (err-ne-ok h)
  verified minor (ok parsed) rest e h =
      verified_if (text_lt parsed version) (is_success (get minor verify)) minor parsed rest e refl
        refl h

  check_minors-All :
      (minors : List Text)
      → check_minors version verify minors ≡ ok true
      → All (IsVerified version verify) minors
  check_minors-All [] h = tt
  check_minors-All (minor ∷ minors) h =
      let first = verified minor (numbers minor) (check_minors version verify minors) refl h in
      (first.0, check_minors-All minors first.1)

checked :
    (r : Result (List ℕ)) (verify : Dict Text Text) (minors : List Text)
    → (elim r [ err e ↦ err e | ok parsed ↦ check_minors parsed verify minors ]) ≡ ok true
    → (parsed : List ℕ) × (r ≡ ok parsed) × All (IsVerified parsed verify) minors
checked (err e) verify minors h = absurd (err-ne-ok h)
checked (ok parsed) verify minors h = (parsed, refl, check_minors-All parsed verify minors h)

-- An eligible release is one whose own and later minor versions are all verified.
pub is_release_eligible-AllVerified :
    (version : Text) (minors : List Text) (verify : Dict Text Text)
    → is_release_eligible version minors verify ≡ ok true
    → AllVerified version minors verify
unfolding is_release_eligible
is_release_eligible-AllVerified version minors verify h =
    checked (numbers (join (codes ".") (take 2 (split b'.' version)))) verify minors h
