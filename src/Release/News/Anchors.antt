-- ===== src/Release/News/Anchors.antt =====
-- The anchors of tools/private/release/changelog_news.py have versions that are read.
use rules_python.Base.{
  append_assoc, drop, subst, nat_eq, text_eq, ℕ, Bool, true, false, Option, none, some, List, [],
  ◌∷◌, ◌++◌, Text, codes, ◌==◌, if◌then◌else◌, ok, ◌≡◌, ◌≢◌, refl, ◌∙◌, ap, sym,
}
use rules_python.Text.{lstrip_by, starts_with}
use rules_python.Release.Versions.{is_digit}
use rules_python.Release.Checklist.{take_while}
use rules_python.Release.ReleaseTitle.{digits_part}
use rules_python.Release.News.{dash_digits, closed, anchor_version, parse_simple_version}
use rules_python.Release.News.Dashed.{
  IsNumeral, take_while-IsNumeral, IsDashed, parse_simple_version-IsDashed,
}

-- A numeral that is read, with at least one digit.
record IsSome (a : Text) : Type 0 where
  some_digit : a ≢ []
  digits : IsNumeral a

nonempty : (c : ℕ) (s : Text) → is_digit c ≡ true → take_while is_digit (c ∷ s) ≢ []
unfolding take_while
nonempty c s e = rw e (λ h. (cc))

abbrev part : Text → Text → Option (Text × Text)
part a rest = some (a, rest)

digits_if :
    (b : Bool) (c : ℕ) (s a rest : Text)
    → is_digit c ≡ b
    → (if b then part (take_while is_digit (c ∷ s)) (lstrip_by is_digit (c ∷ s)) else none)
      ≡ part a rest
    → IsSome a
digits_if false c s a rest e h = absurd (cc)
digits_if true c s a rest e h =
    subst IsSome (cc)
      (record { some_digit = nonempty c s e; digits = take_while-IsNumeral (c ∷ s) })

digits_part-IsSome : (s a rest : Text) → digits_part s ≡ some (a, rest) → IsSome a
digits_part-IsSome [] a rest h = absurd (cc)
digits_part-IsSome (c ∷ s) a rest h = digits_if (is_digit c) c s a rest refl h

-- What `dash_digits` adds.
record Adds (x y : Text) : Type 0 where
  added : Text
  added_eq : y ≡ x ++ (b'-' ∷ added)
  numeral : IsSome added

dashed_if :
    (dash : Bool) (x s y rest : Text) (o : Option (Text × Text))
    → digits_part s ≡ o
    → (if dash then elim o [ none ↦ none | some (b, r) ↦ part (x ++ (b'-' ∷ b)) r ] else none)
      ≡ part y rest
    → Adds x y
dashed_if false x s y rest o e h = absurd (cc)
dashed_if true x s y rest none e h = absurd (cc)
dashed_if true x s y rest (some (b, r)) e h = record {
  added = b;
  added_eq = cc;
  numeral = digits_part-IsSome s b r e;
}

dash_digits-Adds : (x s y rest : Text) → dash_digits (some (x, s)) ≡ some (y, rest) → Adds x y
dash_digits-Adds x [] y rest h = absurd (cc)
dash_digits-Adds x (c ∷ s) y rest h = dashed_if (c == b'-') x s y rest (digits_part s) refl h

closed_if : (b : Bool) (v w : Text) → (if b then some v else none) ≡ some w → v ≡ w
closed_if true v w h = cc
closed_if false v w h = absurd (cc)

third_dash :
    (a y r v : Text) (o : Option (Text × Text))
    → IsSome a
    → Adds a y
    → dash_digits (some (y, r)) ≡ o
    → closed o ≡ some v
    → IsDashed v
third_dash a y r v none f g e h = absurd (cc)
third_dash a y r v (some (z, q)) f g e h =
    let last = dash_digits-Adds y r z q e in
    record {
      a = a;
      b = g.added;
      c = last.added;
      spelled =
          sym (closed_if (starts_with q (codes "}")) z v h)
          ∙ (last.added_eq
              ∙ (ap (λ t. t ++ (b'-' ∷ last.added)) g.added_eq
                  ∙ append_assoc a (b'-' ∷ g.added) (b'-' ∷ last.added)));
      some_a = f.some_digit;
      some_b = g.numeral.some_digit;
      some_c = last.numeral.some_digit;
      digits_a = f.digits;
      digits_b = g.numeral.digits;
      digits_c = last.numeral.digits;
    }

second_dash :
    (a r v : Text) (o : Option (Text × Text))
    → IsSome a
    → dash_digits (some (a, r)) ≡ o
    → closed (dash_digits o) ≡ some v
    → IsDashed v
second_dash a r v none f e h = absurd (cc)
second_dash a r v (some (y, q)) f e h =
    third_dash a y q v (dash_digits (some (y, q))) f (dash_digits-Adds a r y q e) refl h

first_part :
    (s v : Text) (o : Option (Text × Text))
    → digits_part s ≡ o
    → closed (dash_digits (dash_digits o)) ≡ some v
    → IsDashed v
first_part s v none e h = absurd (cc)
first_part s v (some (a, r)) e h =
    second_dash a r v (dash_digits (some (a, r))) (digits_part-IsSome s a r e) refl h

anchor_if :
    (b : Bool) (s v : Text)
    → (if b then closed (dash_digits (dash_digits (digits_part s))) else none) ≡ some v
    → IsDashed v
anchor_if true s v h = first_part s v (digits_part s) refl h
anchor_if false s v h = absurd (cc)

-- The version of an anchor is read.
pub parse_simple_version-anchor :
    (s v : Text)
    → anchor_version s ≡ some v
    → (numbers : List ℕ) × (parse_simple_version v ≡ ok numbers)
unfolding anchor_version
parse_simple_version-anchor s v h =
    parse_simple_version-IsDashed v (anchor_if (starts_with s (codes "{#v")) (drop 3 s) v h)
