-- ===== src/Release/Action/Keeps.antt =====
-- Commands all of whose calls meet a predicate.
use rules_python.Base.{
  Option, none, some, ◌≡◌, refl, if◌then◌else◌, Bool, true, false, List, ◌∷◌, All, Error, Result,
  ok, err, ℕ, Text,
}
use rules_python.Release.Action.{
  Call, get_pr_info, get_open_tracking_issues, ask_issues, Outside, Action, ask, tell,
  ask_pull_request, attempt, finally, pure, lift, then_call, ◌>>=◌,
}

pub record Keeps {A : Type 0} (P : Call → Type 0) (m : Action A) : Type 0 where
  pub keeps : (log : List Call) → All P log → All P (m log).1

module _ {P : Call → Type 0} {A : Type 0} where
  pub pure-Keeps : (a : A) → Keeps P (pure a)
  unfolding pure
  pure-Keeps a = record { keeps = λ log h. h }

  pub lift-Keeps : (r : Result A) → Keeps P (lift r)
  unfolding lift
  lift-Keeps r = record { keeps = λ log h. h }

  pub if-Keeps : (b : Bool) {m n : Action A} → Keeps P m → Keeps P n → Keeps P (if b then m else n)
  if-Keeps true f g = f
  if-Keeps false f g = g

  -- A branch may use the condition under which it is taken.
  pub if_known-Keeps :
      (b : Bool) {m n : Action A}
      → (b ≡ true → Keeps P m)
      → (b ≡ false → Keeps P n)
      → Keeps P (if b then m else n)
  if_known-Keeps true f g = f refl
  if_known-Keeps false f g = g refl

module _ {P : Call → Type 0} {A B : Type 0} where
  then_call-Keeps :
      (r : Result A) (rest : A → Action B)
      → ((a : A) → Keeps P (rest a))
      → (log : List Call) → All P log
      → All P (then_call r rest log).1
  then_call-Keeps (ok a) rest g log h = (g a).keeps log h
  then_call-Keeps (err e) rest g log h = h

  pub >>=-Keeps :
      {first : Action A} {rest : A → Action B}
      → Keeps P first
      → ((a : A) → Keeps P (rest a))
      → Keeps P (first >>= rest)
  unfolding ◌>>=◌
  >>=-Keeps {first} {rest} f g = record {
    keeps = λ log h. then_call-Keeps (first log).0 rest g (first log).1 (f.keeps log h);
  }

  lifted-Keeps :
      (r s : Result A) (rest : A → Action B)
      → r ≡ s
      → ((a : A) → r ≡ ok a → Keeps P (rest a))
      → (log : List Call) → All P log
      → All P (then_call s rest log).1
  lifted-Keeps r (ok a) rest e g log h = (g a e).keeps log h
  lifted-Keeps r (err x) rest e g log h = h

  -- What follows a computation may use what it returned.
  pub lift_then-Keeps :
      (r : Result A) {rest : A → Action B}
      → ((a : A) → r ≡ ok a → Keeps P (rest a))
      → Keeps P (lift r >>= rest)
  unfolding lift ◌>>=◌
  lift_then-Keeps r {rest} g = record { keeps = lifted-Keeps r r rest refl g }

ended-Keeps :
    {A : Type 0} (P : Call → Type 0) (r : Result A) (s : Result (Unit {0})) (log : List Call)
    → All P log
    → All P (elim s as (λ t. Result A × List Call) [ ok u ↦ (r, log) | err e ↦ (err e, log) ]).1
ended-Keeps P r (ok u) log h = h
ended-Keeps P r (err e) log h = h

module _ {P : Call → Type 0} {A : Type 0} where
  handled-Keeps :
      (r : Result A) (handler : Error → Action A)
      → ((e : Error) → Keeps P (handler e))
      → (log : List Call) → All P log
      → All P
          (elim r as (λ s. Result A × List Call) [ ok a ↦ (ok a, log) | err e ↦ handler e log ]).1
  handled-Keeps (ok a) handler g log h = h
  handled-Keeps (err e) handler g log h = (g e).keeps log h

  pub attempt-Keeps :
      {body : Action A} {handler : Error → Action A}
      → Keeps P body
      → ((e : Error) → Keeps P (handler e))
      → Keeps P (attempt body handler)
  unfolding attempt
  attempt-Keeps {body} {handler} f g = record {
    keeps = λ log h. handled-Keeps (body log).0 handler g (body log).1 (f.keeps log h);
  }

  pub finally-Keeps :
      {body : Action A} {last : Action (Unit {0})}
      → Keeps P body
      → Keeps P last
      → Keeps P (finally body last)
  unfolding finally
  finally-Keeps {body} {last} f g = record {
    keeps = λ log h.
        ended-Keeps P (body log).0 (last (body log).1).0 (last (body log).1).1
          (g.keeps (body log).1 (f.keeps log h));
  }

module _ {P : Call → Type 0} (w : Outside) where
  pub ask-Keeps : (c : Call) → P c → Keeps P (ask w c)
  unfolding ask
  ask-Keeps c p = record { keeps = λ log h. (p, h) }

  pub tell-Keeps : (c : Call) → P c → Keeps P (tell w c)
  unfolding tell
  tell-Keeps c p = >>=-Keeps (ask-Keeps c p) (λ t. pure-Keeps tt)

  pub ask_pull_request-Keeps : (n : ℕ) → P (get_pr_info n) → Keeps P (ask_pull_request w n)
  unfolding ask_pull_request
  ask_pull_request-Keeps n p = record { keeps = λ log h. (p, h) }

  -- What follows an answer may use what the answer was; no answer stands for an exception.
  answered-Keeps :
      {B : Type 0} (rest : Option Text → Action B) (log : List Call) (c : Call) (r : Result Text)
      → w.text log c ≡ r
      → P c
      → ((a : Text) → w.text log c ≡ ok a → Keeps P (rest (some a)))
      → Keeps P (rest none)
      → All P log
      → All P ((attempt (lift r >>= λ a. pure (some a)) (λ e. pure none) >>= rest) (c ∷ log)).1
  unfolding attempt lift pure ◌>>=◌
  answered-Keeps rest log c (ok a) e p f g h = (f a e).keeps (c ∷ log) (p, h)
  answered-Keeps rest log c (err x) e p f g h = g.keeps (c ∷ log) (p, h)

  pub try_ask-Keeps :
      {B : Type 0} (rest : Option Text → Action B) {c : Call}
      → P c
      → ((log : List Call) (a : Text) → w.text log c ≡ ok a → Keeps P (rest (some a)))
      → Keeps P (rest none)
      → Keeps P (attempt (ask w c >>= λ a. pure (some a)) (λ e. pure none) >>= rest)
  unfolding attempt ask lift pure ◌>>=◌
  try_ask-Keeps rest {c} p f g = record {
    keeps = λ log h. answered-Keeps rest log c (w.text log c) refl p (f log) g h;
  }

  pub ask_issues-Keeps :
      (version : Text) → P (get_open_tracking_issues version) → Keeps P (ask_issues w version)
  unfolding ask_issues
  ask_issues-Keeps version p = record { keeps = λ log h. (p, h) }

  told-Keeps :
      {B : Type 0} (rest : Text → Action B) (log : List Call) (c : Call) (r : Result Text)
      → w.text log c ≡ r
      → P c
      → ((a : Text) → w.text log c ≡ ok a → Keeps P (rest a))
      → All P log
      → All P (then_call r rest (c ∷ log)).1
  told-Keeps rest log c (ok a) e p f h = (f a e).keeps (c ∷ log) (p, h)
  told-Keeps rest log c (err x) e p f h = (p, h)

  pub ask_then-Keeps :
      {B : Type 0} (rest : Text → Action B) {c : Call}
      → P c
      → ((log : List Call) (a : Text) → w.text log c ≡ ok a → Keeps P (rest a))
      → Keeps P (ask w c >>= rest)
  unfolding ask ◌>>=◌
  ask_then-Keeps rest {c} p f = record {
    keeps = λ log h. told-Keeps rest log c (w.text log c) refl p (f log) h;
  }

-- Behind calls that all meet `P`, the calls of the action are such that `Q`.
pub record Leads {A : Type 0} (P : Call → Type 0) (Q : List Call → Type 0) (m : Action A)
    : Type 0 where
  pub leads : (log : List Call) → All P log → Q (m log).1

module _ {P : Call → Type 0} {Q : List Call → Type 0}
    (stop : (log : List Call) → All P log → Q log) where
  pub Keeps-Leads : {A : Type 0} {m : Action A} → Keeps P m → Leads P Q m
  Keeps-Leads {A} {m} k = record { leads = λ log h. stop (m log).1 (k.keeps log h) }

  known-Leads :
      {A B : Type 0} (r s : Result A) (rest : A → Action B) (log : List Call)
      → r ≡ s
      → ((a : A) → r ≡ ok a → Leads P Q (rest a))
      → All P log
      → Q (then_call s rest log).1
  known-Leads r (ok a) rest log e g h = (g a e).leads log h
  known-Leads r (err x) rest log e g h = stop log h

  -- What follows may use what was returned, behind some calls.
  pub >>=-Leads :
      {A B : Type 0} {first : Action A} {rest : A → Action B}
      → Keeps P first
      → ((a : A) (before : List Call) → (first before).0 ≡ ok a → Leads P Q (rest a))
      → Leads P Q (first >>= rest)
  unfolding ◌>>=◌
  >>=-Leads {A} {B} {first} {rest} f g = record {
    leads = λ log h.
        known-Leads (first log).0 (first log).0 rest (first log).1 refl (λ a e. g a log e)
          (f.keeps log h);
  }

pub if-Leads :
    {A : Type 0} {P : Call → Type 0} {Q : List Call → Type 0} (b : Bool) {m n : Action A}
    → Leads P Q m
    → Leads P Q n
    → Leads P Q (if b then m else n)
if-Leads true f g = f
if-Leads false f g = g
