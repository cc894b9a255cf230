-- ===== src/Release/Checklist/ReadBack.antt =====
-- A checklist line of tools/private/release/release_issue.py, written and read back.
use rules_python.Base.{
  ℕ_discrete, nat_eq, text_eq, Bool, true, false, Option, none, some, [], ◌∷◌, ◌++◌, Text, ◌≡◌, ◌≢◌,
  refl, ◌∙◌, ap, sym, ◌==◌, codes, All, Lacks, arith, append_assoc, append-nil, All-append,
}
use rules_python.Base.Dict.{get, Dict, put}
use rules_python.Text.{
  is_space, lstrip_by, join, cut, cut-append, cut-eq_none, IsTrimmed, strip_padded,
}
use rules_python.Release.Checklist.{
  put_pairs, parse_name, name_part, begins_name, metadata_of, parse_metadata_line, format_pairs,
  format_metadata, format_metadata_line,
}
use rules_python.Release.Checklist.Pairs.{IsAll, IsPair, find_pairs-space, find_pairs-format_pairs}

-- No key stands twice.
abbrev pub DistinctKeys : Dict Text Text → Type 0
DistinctKeys [] = Unit
DistinctKeys ((k, v) ∷ d) = (get k d ≡ none) × DistinctKeys d

put-new : (k v : Text) (d : Dict Text Text) → get k d ≡ none → put k v d ≡ d ++ ((k, v) ∷ [])
unfolding put get
put-new k v [] h = refl
put-new k v ((j, w) ∷ d) h = ground (arith, put-new k v d)

get-last :
    (i k v : Text) (d : Dict Text Text)
    → get i d ≡ none
    → (i == k) ≡ false
    → get i (d ++ ((k, v) ∷ [])) ≡ none
unfolding get
get-last i k v [] h g = rw g refl
get-last i k v ((j, w) ∷ d) h g = ground (arith, get-last i k v d)

-- A new key at the end of `seen` is none of the keys of `d`.
still-new :
    (k v : Text) (d seen : Dict Text Text)
    → get k d ≡ none
    → All (λ p. get p.0 seen ≡ none) d
    → All (λ p. get p.0 (seen ++ ((k, v) ∷ [])) ≡ none) d
unfolding get
still-new k v [] seen h g = tt
still-new k v ((i, w) ∷ d) seen h g =
    (get-last i k v seen g.0 (ground arith), still-new k v d seen (ground arith) g.1)

put_pairs-append :
    (d seen : Dict Text Text)
    → DistinctKeys d
    → All (λ p. get p.0 seen ≡ none) d
    → put_pairs d seen ≡ seen ++ d
unfolding put_pairs
put_pairs-append [] seen h g = sym (append-nil seen)
put_pairs-append ((k, v) ∷ d) seen h g =
    ap (put_pairs d) (put-new k v seen g.0)
    ∙ (put_pairs-append d (seen ++ ((k, v) ∷ [])) h.1 (still-new k v d seen h.0 g.1)
        ∙ append_assoc seen ((k, v) ∷ []) d)

abbrev no_text : Dict Text Text
no_text = []

each_new : (d : Dict Text Text) → All (λ p. get p.0 no_text ≡ none) d
unfolding get
each_new [] = tt
each_new (p ∷ d) = (refl, each_new d)

put_pairs-eq : (d : Dict Text Text) → DistinctKeys d → put_pairs d [] ≡ d
put_pairs-eq d h = put_pairs-append d [] h (each_new d)

-- A checklist entry that can be written: a trimmed name without bars, and pairs with distinct keys.
pub record IsEntry (name : Text) (metadata : Dict Text Text) : Type 0 where
  pub trimmed : IsTrimmed name
  pub some_name : name ≢ []
  pub no_bar : Lacks b'|' name
  pub pairs : All IsPair metadata
  pub keys : DistinctKeys metadata

begins_name-append : (name gap : Text) → name ≢ [] → begins_name (b' ' ∷ (name ++ gap)) ≡ true
unfolding ℕ_discrete
begins_name-append [] gap h = absurd (h refl)
begins_name-append (c ∷ name) gap h = refl

-- What is read of a name between white space, whatever is found behind it.
parse_name-cut :
    (checked : Bool) (s name gap : Text) (o : Option (Text × Text))
    → IsTrimmed name
    → name ≢ []
    → IsAll is_space gap
    → cut b'|' s ≡ o
    → name_part s o ≡ b' ' ∷ (name ++ gap)
    → parse_name checked s
      ≡ some (record { checked = checked; name = name; metadata = metadata_of o })
parse_name-cut checked s name gap o t n g h e =
    rw (h, e, begins_name-append name gap n, strip_padded (codes " ") name gap (refl, tt) t g) refl

cut_bar :
    (name rest : Text)
    → Lacks b'|' name
    → cut b'|' (b' ' ∷ (name ++ (b' ' ∷ b'|' ∷ rest))) ≡ some (b' ' ∷ (name ++ codes " "), rest)
cut_bar name rest h =
    ap (λ t. cut b'|' (b' ' ∷ t)) (sym (append_assoc name (codes " ") (b'|' ∷ rest)))
    ∙ cut-append b'|' (b' ' ∷ (name ++ codes " ")) rest
        (omega arith, All-append (λ c. c ≢ b'|') name (codes " ") h (omega arith, tt))

parse_name-format :
    (checked : Bool) (name : Text) (metadata : Dict Text Text)
    → IsEntry name metadata
    → parse_name checked (b' ' ∷ (name ++ format_metadata metadata))
      ≡ some (record { checked = checked; name = name; metadata = metadata })
unfolding ℕ_discrete
parse_name-format checked name [] h =
    parse_name-cut checked (b' ' ∷ (name ++ [])) name [] none h.trimmed h.some_name tt
      (cut-eq_none b'|' (b' ' ∷ (name ++ []))
        (omega arith, All-append (λ c. c ≢ b'|') name [] h.no_bar tt))
      refl
parse_name-format checked name (p ∷ d) h =
    parse_name-cut checked (b' ' ∷ (name ++ format_metadata (p ∷ d))) name (codes " ")
      (some (b' ' ∷ (name ++ codes " "), b' ' ∷ join (codes " ") (format_pairs (p ∷ d)))) h.trimmed
      h.some_name (refl, tt)
      (cut_bar name (b' ' ∷ join (codes " ") (format_pairs (p ∷ d))) h.no_bar) refl
    ∙ ap (λ m. some (record { checked = checked; name = name; metadata = m }))
        (ap (λ m. put_pairs m [])
            (find_pairs-space (join (codes " ") (format_pairs (p ∷ d)))
              ∙ find_pairs-format_pairs (p ∷ d) h.pairs)
          ∙ put_pairs-eq (p ∷ d) h.keys)

-- A checklist line that is written for a trimmed, non-empty name with no bar in it and for metadata
-- with distinct keys, of word characters, and values that hold no white space, neither of them
-- empty, is read back as it was: the mark, the name and the metadata in their order.
pub parse_metadata_line-format :
    (checked : Bool) (name : Text) (metadata : Dict Text Text)
    → IsEntry name metadata
    → parse_metadata_line (format_metadata_line checked name metadata)
      ≡ some (record { checked = checked; name = name; metadata = metadata })
unfolding parse_metadata_line format_metadata_line lstrip_by ℕ_discrete
parse_metadata_line-format true name metadata h = parse_name-format true name metadata h
parse_metadata_line-format false name metadata h = parse_name-format false name metadata h
