-- ===== src/Wheel/Metadata/Unchanged.antt =====
-- What stamps and requirements leave as it is, in tools/wheelmaker.py.
use rules_python.Base.{
  ℕ, nat_eq, text_eq, ◌≡◌, refl, false, ◌⊎◌, inl, inr, none, List, [], ◌∷◌, ◌++◌, Text, codes,
  Result, ok, err, value_error, arith, Lacks, All, Option-cases,
}
use rules_python.Text.{starts_with, cut, replace, replace_from, split_lines}
use rules_python.Wheel.Metadata.{
  Requirement, requires, expand_line, expand_lines, resolve_lines, resolve_argument_stamp,
}

replace_from-Lacks : (c : ℕ) (p r s : Text) → Lacks c s → replace_from 0 (c ∷ p) r s ≡ s
unfolding replace_from starts_with
replace_from-Lacks c p r [] h = refl
replace_from-Lacks c p r (x ∷ s) h = ground (arith, replace_from-Lacks c p r s h.1)

replace-Lacks : (c : ℕ) (p r s : Text) → Lacks c s → replace s (c ∷ p) r ≡ s
unfolding replace
replace-Lacks c p r s h = replace_from-Lacks c p r s h

-- The loop over the lines of the status files either fails at a line or leaves the argument.
resolve_lines-Lacks :
    (lines : List Text) (argument : Text)
    → Lacks b'{' argument
    → (resolve_lines lines argument ≡ ok argument)
      ⊎ (resolve_lines lines argument ≡ err value_error)
unfolding resolve_lines
resolve_lines-Lacks [] argument h = inl refl
resolve_lines-Lacks ([] ∷ lines) argument h = resolve_lines-Lacks lines argument h
resolve_lines-Lacks ((c ∷ line) ∷ lines) argument h = elim (Option-cases (cut b' ' (c ∷ line))) [
  | inl e ↦ inr (rw e)
  | inr ((key, value), e) ↦
      rw (e, replace-Lacks b'{' (key ++ codes "}") value argument h)
        (resolve_lines-Lacks lines argument h)
]

-- A line of a status file that is not empty and has no space is a `ValueError`, wherever it stands.
resolve_lines-malformed :
    (before : List Text) (c : ℕ) (line : Text) (after : List Text) (argument : Text)
    → cut b' ' (c ∷ line) ≡ none
    → resolve_lines (before ++ ((c ∷ line) ∷ after)) argument ≡ err value_error
unfolding resolve_lines
resolve_lines-malformed [] c line after argument e = rw e
resolve_lines-malformed ([] ∷ before) c line after argument e =
    resolve_lines-malformed before c line after argument e
resolve_lines-malformed ((x ∷ other) ∷ before) c line after argument e =
    elim (Option-cases (cut b' ' (x ∷ other))) [
      | inl n ↦ rw n
      | inr ((key, value), s) ↦ rw s (resolve_lines-malformed before c line after _ e)
    ]

-- A name or a version with no opening brace is the same with its stamps resolved, or a line of a
-- status file is a `ValueError`.
pub resolve_argument_stamp-Lacks :
    (argument volatile_status stable_status : Text)
    → Lacks b'{' argument
    → (resolve_argument_stamp argument volatile_status stable_status ≡ ok argument)
      ⊎ (resolve_argument_stamp argument volatile_status stable_status ≡ err value_error)
unfolding resolve_argument_stamp
resolve_argument_stamp-Lacks argument volatile_status stable_status h =
    resolve_lines-Lacks (split_lines volatile_status ++ split_lines stable_status) argument h

-- Where no line of the metadata is a requirement, it is left as it is, and no file and no
-- requirement is read: the result is the same for any reader and parser.
pub expand_lines_of_none :
    (read : Text → Result Text) (parse : Text → Result Requirement) (lines : List Text)
    (metadata : Text)
    → All (λ line. starts_with line requires ≡ false) lines
    → expand_lines read parse lines metadata ≡ ok metadata
unfolding expand_lines expand_line
expand_lines_of_none read parse [] metadata h = refl
expand_lines_of_none read parse (line ∷ lines) metadata h =
    rw h.0 (expand_lines_of_none read parse lines metadata h.1)
