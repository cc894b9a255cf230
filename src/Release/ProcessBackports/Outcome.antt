-- ===== src/Release/ProcessBackports/Outcome.antt =====
-- How runs of tools/private/release/process_backports.py end.
use rules_python.Base.{
  ◌++◌, nat_eq, text_eq, ℕ, zero, suc, ◌≤◌, Bool, true, false, Option, none, some, List, [], ◌∷◌,
  Text, codes, is_empty, Error, Result, ok, err, ok-injective, err-ne-ok, ◌≡◌, refl, ◌∙◌, sym, ap,
  subst, arith, if◌then◌else◌,
}
use rules_python.Release.Action.{
  Call, git, Outside, Action, pure, lift, attempt, finally, then_call, ◌>>=◌, ◌>>◌, ask, tell,
  add_comment_reaction,
}
use rules_python.Release.Issue.Backports.{BackportTask}
use rules_python.Release.ReleaseTitle.{title_version}
use rules_python.Release.ProcessBackports.{cherry_pick_and_update_prs, Args, Sorted, Target}
use rules_python.Release.ProcessBackports.Run.{
  reset_if, exit_code, cherry_pick_from, cherry_pick_on_branch, process_sorted, process_version,
  process_pending, process_added, run_internal, react_if_failed, run, no_texts, is_value_error,
}

-- What the action returns, where it returns, is an exit code of success or failure.
record Exits (m : Action ℕ) : Type 0 where
  exits : (log : List Call) (n : ℕ) → (m log).0 ≡ ok n → n ≤ 1

pure-Exits : (n : ℕ) → n ≤ 1 → Exits (pure n)
unfolding pure
pure-Exits n h = record { exits = λ log m e. subst (λ k. k ≤ 1) (ok-injective e) h }

lift_err-Exits : (e : Error) → Exits (lift (err e))
unfolding lift
lift_err-Exits e = record { exits = λ log n h. absurd (err-ne-ok h) }

module _ {A : Type 0} where
  then_call-Exits :
      (r : Result A) (rest : A → Action ℕ)
      → ((a : A) → Exits (rest a))
      → (log : List Call) (n : ℕ) → (then_call r rest log).0 ≡ ok n
      → n ≤ 1
  then_call-Exits (ok a) rest f log n h = (f a).exits log n h
  then_call-Exits (err e) rest f log n h = absurd (err-ne-ok h)

  >>=-Exits :
      (first : Action A) (rest : A → Action ℕ) → ((a : A) → Exits (rest a)) → Exits (first >>= rest)
  unfolding ◌>>=◌
  >>=-Exits first rest f = record {
    exits = λ log n h. then_call-Exits (first log).0 rest f (first log).1 n h;
  }

if-Exits : (b : Bool) {m n : Action ℕ} → Exits m → Exits n → Exits (if b then m else n)
if-Exits true f g = f
if-Exits false f g = g

exit_code-bound : (prs : List Text) → exit_code prs ≤ 1
exit_code-bound [] = omega arith
exit_code-bound (pr ∷ prs) = omega arith

module _ (lt : Text → Text → Bool) (repo : Text) (w : Outside) where
  cherry_pick_on_branch-Exits :
      (t : Target) (s : Sorted) → Exits (cherry_pick_on_branch lt repo w t s)
  cherry_pick_on_branch-Exits t s = >>=-Exits _ _ (λ shas. >>=-Exits _ _ (λ a.
      >>=-Exits _ _
        (λ b. >>=-Exits _ _ (λ sha. >>=-Exits _ _ (λ result. pure-Exits _ (exit_code-bound _))))))

  process_sorted-Exits : (t : Target) (s : Sorted) → Exits (process_sorted lt repo w t s)
  process_sorted-Exits t s = if-Exits (no_texts s.shas) (pure-Exits _ (exit_code-bound s.failed)) (
      >>=-Exits _ _ (λ changes.
        if-Exits (is_empty changes) (cherry_pick_on_branch-Exits t s) (pure-Exits 1 (omega arith))))

  process_version-Exits :
      (args : Args) (body : Text) (pending : List BackportTask) (version : Option Text)
      → Exits (process_version lt repo w args body pending version)
  process_version-Exits args body pending none = pure-Exits 1 (omega arith)
  process_version-Exits args body pending (some version) = >>=-Exits _ _ (λ a.
      >>=-Exits _ _ (λ tags.
        >>=-Exits _ _
          (λ n. >>=-Exits _ _ (λ infos. >>=-Exits _ _ (λ sorted. process_sorted-Exits _ sorted)))))

  process_pending-Exits :
      (args : Args) (body : Text) (pending : List BackportTask)
      → Exits (process_pending lt repo w args body pending)
  process_pending-Exits args body [] = pure-Exits 0 (omega arith)
  process_pending-Exits args body (item ∷ items) =
      >>=-Exits _ _ (λ title. process_version-Exits args body (item ∷ items) (title_version title))

  process_added-Exits :
      (args : Args) (added : Result Text) → Exits (process_added lt repo w args added)
  process_added-Exits args (err e) =
      if-Exits (is_value_error e) (pure-Exits 1 (omega arith)) (lift_err-Exits e)
  process_added-Exits args (ok body) = >>=-Exits _ _ (λ a. process_pending-Exits args body _)

  run_internal-Exits : (args : Args) → Exits (run_internal lt repo w args)
  unfolding run_internal
  run_internal-Exits args = >>=-Exits _ _ (λ body.
      if-Exits (no_texts args.add) (process_pending-Exits args body _) (process_added-Exits args _))

-- An attempt whose handler returns returns.
module _ (Q : ℕ → Type 0) where
  handled-total :
      (r : Result ℕ) (code : ℕ) (log : List Call)
      → ((n : ℕ) → r ≡ ok n → Q n)
      → Q code
      → (n : ℕ) × ((elim r as (λ s. Result ℕ × List Call) [
        | ok a ↦ (ok a, log)
        | err e ↦ (ok code, log)
      ]).0
          ≡ ok n)
        × Q n
  handled-total (ok a) code log f q = (a, refl, f a refl)
  handled-total (err e) code log f q = (code, refl, q)

  attempt-total :
      (m : Action ℕ) (code : ℕ)
      → ((log : List Call) (n : ℕ) → (m log).0 ≡ ok n → Q n)
      → Q code
      → (log : List Call) → (n : ℕ) × ((attempt m (λ e. pure code) log).0 ≡ ok n) × Q n
  unfolding attempt pure
  attempt-total m code f q log = handled-total (m log).0 code (m log).1 (f log) q

then_call-pure-ok :
    {A : Type 0} (r : Result A) (code : ℕ) (log : List Call) (n : ℕ)
    → (then_call r (λ a. pure code) log).0 ≡ ok n
    → n ≡ code
unfolding pure
then_call-pure-ok (ok a) code log n h = sym (ok-injective h)
then_call-pure-ok (err e) code log n h = absurd (err-ne-ok h)

>>=-pure-ok :
    {A : Type 0} (first : Action A) (code : ℕ) (log : List Call) (n : ℕ)
    → ((first >>= λ a. pure code) log).0 ≡ ok n
    → n ≡ code
unfolding ◌>>=◌
>>=-pure-ok first code log n h = then_call-pure-ok (first log).0 code (first log).1 n h

module _ (lt : Text → Text → Bool) (repo : Text) (w : Outside) where
  react_if_failed-returns :
      (comment : Option ℕ) (code : ℕ) (log : List Call)
      → (react_if_failed lt repo w comment code log).0 ≡ ok code
  unfolding pure
  react_if_failed-returns comment zero log = refl
  react_if_failed-returns none (suc code) log = refl
  react_if_failed-returns (some zero) (suc code) log = refl
  react_if_failed-returns (some (suc n)) (suc code) log =
      let (m, e, q) =
        attempt-total (λ k. k ≡ suc code)
          (tell w (add_comment_reaction (suc n) (codes "-1")) >> pure (suc code)) (suc code)
          (>>=-pure-ok (tell w (add_comment_reaction (suc n) (codes "-1"))) (suc code)) refl log in
      e ∙ ap ok q

then_call-eq :
    {A B : Type 0} (first : Action A) (rest : A → Action B) (log : List Call) (a : A)
    → (first log).0 ≡ ok a
    → (first >>= rest) log ≡ rest a (first log).1
unfolding ◌>>=◌
then_call-eq first rest log a h = ap (λ r. then_call r rest (first log).1) h

-- process-backports returns, with the exit code 0 or 1, whatever git and GitHub answer, exceptions
-- included.
pub run-returns :
    (lt : Text → Text → Bool) (repo : Text) (w : Outside) (args : Args) (log : List Call)
    → (n : ℕ) × ((run lt repo w args log).0 ≡ ok n) × (n ≤ 1)
unfolding run
run-returns lt repo w args log =
    let (n, e, q) =
      attempt-total (λ k. k ≤ 1) (run_internal lt repo w args) 1
        (run_internal-Exits lt repo w args).exits (omega arith) log in
    (
      n,
      ap (λ p. p.0)
            (then_call-eq (attempt (run_internal lt repo w args) (λ k. pure 1))
              (react_if_failed lt repo w args.triggering_comment) log n e)
          ∙ react_if_failed-returns lt repo w args.triggering_comment n
              (attempt (run_internal lt repo w args) (λ k. pure 1) log).1,
      q,
    )

ended-log :
    {A : Type 0} (r : Result A) (s : Result (Unit {0})) (log : List Call)
    → (elim s as (λ t. Result A × List Call) [ ok u ↦ (r, log) | err e ↦ (err e, log) ]).1 ≡ log
ended-log r (ok u) log = refl
ended-log r (err e) log = refl

-- The calls of a `finally`, and those of a call behind which nothing is called.
pub finally-log :
    {A : Type 0} (body : Action A) (last : Action (Unit {0})) (log : List Call)
    → (finally body last log).1 ≡ (last (body log).1).1
unfolding finally
finally-log body last log = ended-log (body log).0 (last (body log).1).0 (last (body log).1).1

then_call-pure-log :
    {A B : Type 0} (r : Result A) (f : A → B) (log : List Call)
    → (then_call r (λ a. pure (f a)) log).1 ≡ log
unfolding pure
then_call-pure-log (ok a) f log = refl
then_call-pure-log (err e) f log = refl

pub >>=-pure-log :
    {A B : Type 0} (first : Action A) (f : A → B) (log : List Call)
    → ((first >>= λ a. pure (f a)) log).1 ≡ (first log).1
unfolding ◌>>=◌
>>=-pure-log first f log = then_call-pure-log (first log).0 f (first log).1

pub ask-log : (w : Outside) (c : Call) (log : List Call) → (ask w c log).1 ≡ c ∷ log
unfolding ask
ask-log w c log = refl

pub tell-log : (w : Outside) (c : Call) (log : List Call) → (tell w c log).1 ≡ c ∷ log
unfolding tell ask
tell-log w c log = >>=-pure-log (ask w c) (λ a. tt) log

-- In a dry run, whatever happens while the commits are cherry-picked, exceptions included, the last
-- call is the hard reset to the commit that the branch was at.
pub cherry_pick_from-reset :
    (lt : Text → Text → Bool) (repo : Text) (w : Outside) (t : Target) (s : Sorted)
    (shas : List Text) (start_sha : Text) (log : List Call)
    → t.dry_run ≡ true
    → (before : List Call) × ((cherry_pick_from lt repo w t s shas start_sha log).1
        ≡ git (codes "reset" ∷ codes "--hard" ∷ start_sha ∷ []) ∷ before)
cherry_pick_from-reset lt repo w t s shas start_sha log h = (
  (cherry_pick_and_update_prs w t s.items shas s.body log).1,
  >>=-pure-log
        (finally (cherry_pick_and_update_prs w t s.items shas s.body)
          (reset_if lt repo w t.dry_run start_sha))
        (λ result. exit_code (s.failed ++ result.failed)) log
      ∙ (finally-log (cherry_pick_and_update_prs w t s.items shas s.body)
            (reset_if lt repo w t.dry_run start_sha) log
          ∙ (ap
                (λ b.
                  (reset_if lt repo w b start_sha
                    (cherry_pick_and_update_prs w t s.items shas s.body log).1).1)
                h
              ∙ tell-log w (git (codes "reset" ∷ codes "--hard" ∷ start_sha ∷ []))
                  (cherry_pick_and_update_prs w t s.items shas s.body log).1)),
)
