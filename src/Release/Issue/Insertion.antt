-- ===== src/Release/Issue/Insertion.antt =====
-- What `add_rc_task_to_body` of tools/private/release/release_issue.py does to the entries of a body.
use rules_python.Base.{
  nat_eq, text_eq, ℕ, zero, suc, Bool, false, ◌||◌, Option, none, some, List, [], ◌∷◌, ◌++◌, Text,
  codes, take, drop, any, ok, err, value_error, ◌≡◌, refl, ◌∙◌, ap, sym, arith, All, All-append,
  ◌⊎◌, inl, inr,
}
use rules_python.Text.{split_lines, join, IsOneLine, split_lines-IsOneLine}
use rules_python.Release.Checklist.{Parsed, parse_metadata_line}
use rules_python.Release.Issue.Tasks.{
  unix, line_feed, holds, line_holds, any_line, after_last, is_rc, rc_place, or_else, insert_line,
  rc_name, open_box, add_rc_task_to_body, first_index, before_first, has_name,
}
use rules_python.Release.Issue.Numbered.{task_line-IsOneLine, parse_metadata_line-task, rc_prefix}
use rules_python.Release.Issue.Update.{read_entry, read_entries, entries, entries-join}

-- The entry is put where no entry behind it meets the test; the others stay.
pub record Inserted (test : Parsed → Bool) (new : Parsed) (old result : List Parsed) : Type 0 where
  pub before : List Parsed
  pub after : List Parsed
  pub old_eq : old ≡ before ++ after
  pub result_eq : result ≡ before ++ (new ∷ after)
  pub last : any test after ≡ false

take-drop : (n : ℕ) (ls : List Text) → take n ls ++ drop n ls ≡ ls
take-drop zero ls = refl
take-drop (suc n) [] = refl
take-drop (suc n) (l ∷ ls) = ap (λ t. l ∷ t) (take-drop n ls)

read_entry-append :
    (o : Option Parsed) (a b : List Parsed) → read_entry o ++ (a ++ b) ≡ (read_entry o ++ a) ++ b
read_entry-append none a b = refl
read_entry-append (some p) a b = refl

read_entries-append : (a b : List Text) → read_entries (a ++ b) ≡ read_entries a ++ read_entries b
read_entries-append [] b = refl
read_entries-append (l ∷ a) b =
    ap (λ t. read_entry (parse_metadata_line l) ++ t) (read_entries-append a b)
    ∙ read_entry-append (parse_metadata_line l) (read_entries a) (read_entries b)

any-holds :
    (test : Parsed → Bool) (o : Option Parsed) (ps : List Parsed)
    → (holds test o || any test ps) ≡ any test (read_entry o ++ ps)
any-holds test none ps = refl
any-holds test (some p) ps = refl

any_line-entries :
    (test : Parsed → Bool) (ls : List Text) → any_line test ls ≡ any test (read_entries ls)
any_line-entries test [] = refl
any_line-entries test (l ∷ ls) =
    ap (λ b. line_holds test l || b) (any_line-entries test ls)
    ∙ any-holds test (parse_metadata_line l) (read_entries ls)

any_line-drop :
    (test : Parsed → Bool) (n : ℕ) (ls : List Text)
    → any_line test ls ≡ false
    → any_line test (drop n ls) ≡ false
any_line-drop test zero ls h = h
any_line-drop test (suc n) [] h = refl
any_line-drop test (suc n) (l ∷ ls) h = any_line-drop test n ls (ground arith)

after_last-none :
    (test : Parsed → Bool) (ls : List Text) → after_last test ls ≡ 0 → any_line test ls ≡ false
unfolding after_last
after_last-none test [] h = refl
after_last-none test (l ∷ ls) h = ground (arith, after_last-none test ls)

after_last-last :
    (test : Parsed → Bool) (ls : List Text) → any_line test (drop (after_last test ls) ls) ≡ false
unfolding after_last
after_last-last test [] = refl
after_last-last test (l ∷ ls) = ground (arith, after_last-none test ls, after_last-last test ls)

last-or_else :
    (test : Parsed → Bool) (m n : ℕ) (ls : List Text)
    → after_last test ls ≡ m
    → any_line test (drop (or_else m n) ls) ≡ false
last-or_else test zero n ls h = any_line-drop test n ls (after_last-none test ls h)
last-or_else test (suc m) n ls h =
    ap (λ k. any_line test (drop k ls)) (sym h) ∙ after_last-last test ls

-- No line behind the place meets the test.
place-last :
    (test : Parsed → Bool) (n : ℕ) (ls : List Text)
    → any_line test (drop (or_else (after_last test ls) n) ls) ≡ false
place-last test n ls = last-or_else test (after_last test ls) n ls refl

All-take : (P : Text → Type 0) (n : ℕ) (ls : List Text) → All P ls → All P (take n ls)
All-take P zero ls h = tt
All-take P (suc n) [] h = tt
All-take P (suc n) (l ∷ ls) h = (h.0, All-take P n ls h.1)

All-drop : (P : Text → Type 0) (n : ℕ) (ls : List Text) → All P ls → All P (drop n ls)
All-drop P zero ls h = h
All-drop P (suc n) [] h = tt
All-drop P (suc n) (l ∷ ls) h = All-drop P n ls h.1

-- The entries of a body with one more line.
entries-inserted :
    (n : ℕ) (line : Text) (ls : List Text) (new : Parsed)
    → IsOneLine line
    → parse_metadata_line line ≡ some new
    → All IsOneLine ls
    → entries (join line_feed (take n ls ++ (line ∷ drop n ls)))
      ≡ read_entries (take n ls) ++ (new ∷ read_entries (drop n ls))
entries-inserted n line ls new h e g =
    entries-join (take n ls ++ (line ∷ drop n ls)) (
      All-append IsOneLine (take n ls) (line ∷ drop n ls) (All-take IsOneLine n ls g)
        (h, All-drop IsOneLine n ls g))
    ∙ (read_entries-append (take n ls) (line ∷ drop n ls)
        ∙ ap (λ o. read_entries (take n ls) ++ (read_entry o ++ read_entries (drop n ls))) e)

inserted :
    (test : Parsed → Bool) (n : ℕ) (line : Text) (ls : List Text) (new : Parsed)
    → IsOneLine line
    → parse_metadata_line line ≡ some new
    → All IsOneLine ls
    → any_line test (drop n ls) ≡ false
    → Inserted test new
        (read_entries ls)
        (entries (join line_feed (take n ls ++ (line ∷ drop n ls))))
inserted test n line ls new h e g f = record {
  before = read_entries (take n ls);
  after = read_entries (drop n ls);
  old_eq = ap read_entries (sym (take-drop n ls)) ∙ read_entries-append (take n ls) (drop n ls);
  result_eq = entries-inserted n line ls new h e g;
  last = sym (any_line-entries test (drop n ls)) ∙ f;
}

or_else-zero : (a b : ℕ) → or_else a b ≡ 0 → a ≡ 0
or_else-zero zero b h = refl
or_else-zero (suc a) b h = h

-- Nothing is found, and then no entry meets the test; or the entry is put in.
insert_line-cases :
    (test : Parsed → Bool) (n place : ℕ) (line : Text) (ls : List Text) (new : Parsed)
    → IsOneLine line
    → parse_metadata_line line ≡ some new
    → All IsOneLine ls
    → or_else (after_last test ls) n ≡ place
    → ((insert_line place line ls ≡ err value_error) × (any test (read_entries ls) ≡ false))
      ⊎ ((t : Text) × (insert_line place line ls ≡ ok t)
          × Inserted test new (read_entries ls) (entries t))
insert_line-cases test n zero line ls new h e g p = inl (
  refl,
  sym (any_line-entries test ls) ∙ after_last-none test ls (or_else-zero (after_last test ls) n p),
)
insert_line-cases test n (suc m) line ls new h e g p = inr (
  join line_feed (take (suc m) ls ++ (line ∷ drop (suc m) ls)),
  refl,
  inserted test (suc m) line ls new h e g
      (ap (λ k. any_line test (drop k ls)) (sym p) ∙ place-last test n ls),
)

-- Adding the task of a release candidate to the body of an issue raises ValueError, and then no
-- entry of the body is an RC task, or returns a body whose entries are those of the old one with
-- the new one, unchecked and without metadata, put where no RC task stands behind it.
pub add_rc_task_to_body-Inserted :
    (body : Text) (n : ℕ)
    → ((add_rc_task_to_body body n ≡ err value_error) × (any is_rc (entries (unix body)) ≡ false))
      ⊎ ((t : Text) × (add_rc_task_to_body body n ≡ ok t)
          × Inserted is_rc
              (record { checked = false; name = rc_name n; metadata = [] })
              (entries (unix body))
              (entries t))
unfolding add_rc_task_to_body
add_rc_task_to_body-Inserted body n =
    insert_line-cases is_rc
      (before_first (first_index (has_name (codes "tag final")) (split_lines (unix body))))
      (rc_place (split_lines (unix body))) (open_box ++ rc_name n) (split_lines (unix body))
      (record { checked = false; name = rc_name n; metadata = [] })
      (task_line-IsOneLine b'T' (codes "ag RC") n rc_prefix)
      (parse_metadata_line-task b'T' (codes "ag RC") n rc_prefix)
      (split_lines-IsOneLine (unix body)) refl
