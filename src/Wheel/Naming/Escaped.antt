-- ===== src/Wheel/Naming/Escaped.antt =====
-- The legacy escape of tools/wheelmaker.py, and its limit.
use rules_python.Base.{
  nat_eq, text_eq, pair_eq, ℕ, zero, suc, ◌≤◌, ◌≡◌, refl, ◌∙◌, ap, sym, ◌⊎◌, inl, inr, Bool, true,
  false, not, ◌||◌, [], ◌∷◌, ◌++◌, Text, ◌==◌, codes, arith, All, append_assoc,
}
use rules_python.Wheel.Naming.{sub_runs, is_word, escape_filename_segment}

-- The text does not begin in the middle of a run.
abbrev pub begins_no_run : (ℕ → Bool) → Text → Bool
begins_no_run p [] = true
begins_no_run p (c ∷ s) = not (p c)

-- In front of `rest`, the second text is the first one with each of its `k` runs replaced. A run is as
-- long as it can be.
pub data Replaced (p : ℕ → Bool) (rep rest : Text) : ℕ → Text → Text → Type 0 where
  done : Replaced p rep rest zero [] []
  kept :
      {k : ℕ} {a b : Text} (c : ℕ)
      → p c ≡ false
      → Replaced p rep rest k a b
      → Replaced p rep rest k (c ∷ a) (c ∷ b)
  run :
      {k : ℕ} {a b : Text} (c : ℕ) (r : Text)
      → p c ≡ true
      → All (λ d. p d ≡ true) r
      → begins_no_run p (a ++ rest) ≡ true
      → Replaced p rep rest k a b
      → Replaced p rep rest (suc k) (c ∷ (r ++ a)) (rep ++ b)

-- The runs in the front of the text are replaced, at most `limit` of them, and what follows is left as
-- it is; where anything follows, there are `limit` of them.
pub record IsEscaped (p : ℕ → Bool) (rep : Text) (limit : ℕ) (s out : Text) : Type 0 where
  pub runs : ℕ
  pub front : Text
  pub new_front : Text
  pub rest : Text
  pub text : s ≡ front ++ rest
  pub result : out ≡ new_front ++ rest
  pub replaced : Replaced p rep rest runs front new_front
  pub bound : runs ≤ limit
  pub all_done : (rest ≡ []) ⊎ (runs ≡ limit)

-- The same behind the first character of a run, where the run ends behind `more`.
record IsInRun (p : ℕ → Bool) (rep : Text) (limit : ℕ) (s out : Text) : Type 0 where
  more : Text
  behind : Text
  split : s ≡ more ++ behind
  in_run : All (λ d. p d ≡ true) more
  escaped : IsEscaped p rep limit behind out
  ended : begins_no_run p (escaped.front ++ escaped.rest) ≡ true

module _ (p : ℕ → Bool) (rep : Text) where
  kept-IsEscaped :
      (limit c : ℕ) (s out : Text)
      → p c ≡ false
      → IsEscaped p rep limit s out
      → IsEscaped p rep limit (c ∷ s) (c ∷ out)
  kept-IsEscaped limit c s out h e = record {
    runs = e.runs;
    front = c ∷ e.front;
    new_front = c ∷ e.new_front;
    rest = e.rest;
    text = ap (λ t. c ∷ t) e.text;
    result = ap (λ t. c ∷ t) e.result;
    replaced = kept c h e.replaced;
    bound = e.bound;
    all_done = e.all_done;
  }

  run-IsEscaped :
      (limit c : ℕ) (s out : Text)
      → p c ≡ true
      → IsInRun p rep limit s out
      → IsEscaped p rep (suc limit) (c ∷ s) (rep ++ out)
  run-IsEscaped limit c s out h i =
      let e = i.escaped in
      record {
        runs = suc e.runs;
        front = c ∷ (i.more ++ e.front);
        new_front = rep ++ e.new_front;
        rest = e.rest;
        text =
            ap (λ t. c ∷ t)
              (i.split ∙ (ap (λ t. i.more ++ t) e.text ∙ sym (append_assoc i.more e.front e.rest)));
        result = ap (λ t. rep ++ t) e.result ∙ sym (append_assoc rep e.new_front e.rest);
        replaced = run c i.more h i.in_run i.ended e.replaced;
        bound = omega (arith, e.bound);
        all_done = elim e.all_done [ inl none ↦ inl none | inr full ↦ inr (ap suc full) ];
      }

  longer-IsInRun :
      (limit c : ℕ) (s out : Text)
      → p c ≡ true
      → IsInRun p rep limit s out
      → IsInRun p rep limit (c ∷ s) out
  longer-IsInRun limit c s out h i = record {
    more = c ∷ i.more;
    behind = i.behind;
    split = ap (λ t. c ∷ t) i.split;
    in_run = (h, i.in_run);
    escaped = i.escaped;
    ended = i.ended;
  }

  ended-IsInRun :
      (limit c : ℕ) (s out : Text)
      → p c ≡ false
      → IsEscaped p rep limit s out
      → IsInRun p rep limit (c ∷ s) (c ∷ out)
  ended-IsInRun limit c s out h e = record {
    more = [];
    behind = c ∷ s;
    split = refl;
    in_run = tt;
    escaped = record {
      runs = e.runs;
      front = c ∷ e.front;
      new_front = c ∷ e.new_front;
      rest = e.rest;
      text = ap (λ t. c ∷ t) e.text;
      result = ap (λ t. c ∷ t) e.result;
      replaced = kept c h e.replaced;
      bound = e.bound;
      all_done = e.all_done;
    };
    ended = ap not h;
  }

  nothing_left : (limit : ℕ) → IsEscaped p rep limit [] []
  nothing_left limit = record {
    runs = 0;
    front = [];
    new_front = [];
    rest = [];
    text = refl;
    result = refl;
    replaced = done;
    bound = omega arith;
    all_done = inl refl;
  }

  at_limit : (s : Text) → IsEscaped p rep zero s s
  at_limit s = record {
    runs = 0;
    front = [];
    new_front = [];
    rest = s;
    text = refl;
    result = refl;
    replaced = done;
    bound = omega arith;
    all_done = inr refl;
  }

  outside :
      (limit c : ℕ) (s : Text) (b : Bool)
      → IsEscaped p rep (suc limit) s (sub_runs p rep false (suc limit) s)
      → IsInRun p rep limit s (sub_runs p rep true limit s)
      → p c ≡ b
      → IsEscaped p rep (suc limit) (c ∷ s) (elim b [
        | true ↦ rep ++ sub_runs p rep true limit s
        | false ↦ c ∷ sub_runs p rep false (suc limit) s
      ])
  outside limit c s true e i h = run-IsEscaped limit c s _ h i
  outside limit c s false e i h = kept-IsEscaped (suc limit) c s _ h e

  inside :
      (limit c : ℕ) (s : Text) (b : Bool)
      → IsEscaped p rep limit s (sub_runs p rep false limit s)
      → IsInRun p rep limit s (sub_runs p rep true limit s)
      → p c ≡ b
      → IsInRun p rep limit
          (c ∷ s)
          (elim b [ true ↦ sub_runs p rep true limit s | false ↦ c ∷ sub_runs p rep false limit s ])
  inside limit c s true e i h = longer-IsInRun limit c s _ h i
  inside limit c s false e i h = ended-IsInRun limit c s _ h e

  no_run : (limit : ℕ) → IsInRun p rep limit [] []
  no_run limit = record {
    more = [];
    behind = [];
    split = refl;
    in_run = tt;
    escaped = record {
      runs = 0;
      front = [];
      new_front = [];
      rest = [];
      text = refl;
      result = refl;
      replaced = done;
      bound = omega arith;
      all_done = inl refl;
    };
    ended = refl;
  }

  -- From a text that begins outside a run, and from one that goes on in a run.
  sub_runs-IsEscaped :
      (limit : ℕ) (s : Text)
      → IsEscaped p rep limit s (sub_runs p rep false limit s)
        × IsInRun p rep limit s (sub_runs p rep true limit s)
  unfolding sub_runs
  sub_runs-IsEscaped limit [] = (nothing_left limit, no_run limit)
  sub_runs-IsEscaped zero (c ∷ s) =
      let (e, i) = sub_runs-IsEscaped zero s in (at_limit (c ∷ s), inside zero c s (p c) e i refl)
  sub_runs-IsEscaped (suc limit) (c ∷ s) =
      let (e, i) = sub_runs-IsEscaped (suc limit) s in
      (
        outside limit c s (p c) e (sub_runs-IsEscaped limit s).1 refl,
        inside (suc limit) c s (p c) e i refl,
      )

-- For every segment and every class of letters beyond ASCII, the legacy escape replaces by an underscore
-- each run, as long as it can be, of characters other than letters, digits, underscores and dots, in
-- the order of the text, and at most 32 of them; what stands behind is left as it is, and where
-- anything does, 32 runs were replaced.
pub escape_filename_segment-IsEscaped :
    (beyond : ℕ → Bool) (segment : Text)
    → IsEscaped
        (λ c. not (is_word beyond c || c == b'.'))
        (codes "_")
        32
        segment
        (escape_filename_segment beyond segment)
unfolding escape_filename_segment
escape_filename_segment-IsEscaped beyond segment =
    (sub_runs-IsEscaped (λ c. not (is_word beyond c || c == b'.')) (codes "_") 32 segment).0
