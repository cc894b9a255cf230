-- ===== src/Release/BackportPrepare/Restored.antt =====
-- The branches after the trial of a backport, in tools/private/release/backport_prepare.py.
use rules_python.Base.{
  nat_eq, text_eq, Bool, true, false, not, ◌&&◌, List, [], ◌∷◌, ◌++◌, Text, ◌==◌, codes, is_empty,
  if◌then◌else◌, Error, Result, ok, err, ◌≡◌, refl, ap, ◌∙◌, ℕ_discrete, text_dec, arith,
}
use rules_python.Base.Dict.{Dict, put}
use rules_python.Release.Action.{
  Call, git, Outside, Action, ask, tell, attempt, pure, lift, then_call, ◌>>=◌,
}
use rules_python.Release.Git
use rules_python.Release.ProcessBackports.Outcome.{finally-log, tell-log}
use rules_python.Release.ProcessBackports.Reset.{is_pick, checkout_args-pick}
use rules_python.Release.BackportTargets.{Verified}
use rules_python.Release.BackportPrepare.{
  restore_branch, verify_apply, verify_branch, verify_branches, restore_original, verify_all,
}

-- The call resets the branch that is checked out.
abbrev pub is_reset : Call → Bool
is_reset (git (command ∷ option ∷ args)) = command == codes "reset" && option == codes "--hard"
is_reset c = false

-- No commit was put on a branch since the last reset. The last call stands first.
abbrev pub is_undone : List Call → Bool
is_undone [] = true
is_undone (c ∷ log) =
    let rest = is_undone log in if is_reset c then true else not (is_pick c) && rest

record Undoes {A : Type 0} (m : Action A) : Type 0 where
  undoes : (log : List Call) → is_undone log ≡ true → is_undone (m log).1 ≡ true

module _ {A : Type 0} where
  pure-Undoes : (a : A) → Undoes (pure a)
  unfolding pure
  pure-Undoes a = record { undoes = λ log h. h }

  if-Undoes : (b : Bool) {m n : Action A} → Undoes m → Undoes n → Undoes (if b then m else n)
  if-Undoes true f g = f
  if-Undoes false f g = g

  lift-Undoes : (r : Result A) → Undoes (lift r)
  unfolding lift
  lift-Undoes r = record { undoes = λ log h. h }

module _ {A B : Type 0} where
  then_call-Undoes :
      (r : Result A) (rest : A → Action B)
      → ((a : A) → Undoes (rest a))
      → (log : List Call) → is_undone log ≡ true
      → is_undone (then_call r rest log).1 ≡ true
  then_call-Undoes (ok a) rest g log h = (g a).undoes log h
  then_call-Undoes (err e) rest g log h = h

  >>=-Undoes :
      {first : Action A} {rest : A → Action B}
      → Undoes first
      → ((a : A) → Undoes (rest a))
      → Undoes (first >>= rest)
  unfolding ◌>>=◌
  >>=-Undoes {first} {rest} f g = record {
    undoes = λ log h. then_call-Undoes (first log).0 rest g (first log).1 (f.undoes log h);
  }

is_undone-other :
    (c : Call) (log : List Call)
    → is_pick c ≡ false
    → is_undone log ≡ true
    → is_undone (c ∷ log) ≡ true
is_undone-other c log p h = ground arith

handled-Undoes :
    {A : Type 0} (r : Result A) (handler : Error → Action A) (log : List Call)
    → ((e : Error) → Undoes (handler e))
    → is_undone log ≡ true
    → is_undone
        (elim r as (λ s. Result A × List Call) [ ok a ↦ (ok a, log) | err e ↦ handler e log ]).1
      ≡ true
handled-Undoes (ok a) handler log g h = h
handled-Undoes (err e) handler log g h = (g e).undoes log h

module _ (w : Outside) where
  ask-Undoes : (c : Call) → is_pick c ≡ false → Undoes (ask w c)
  unfolding ask
  ask-Undoes c p = record { undoes = λ log h. is_undone-other c log p h }

  tell-Undoes : (c : Call) → is_pick c ≡ false → Undoes (tell w c)
  unfolding tell
  tell-Undoes c p = >>=-Undoes (ask-Undoes c p) (λ t. pure-Undoes tt)

  -- An exception of the abort is caught, so that the reset always follows.
  quiet_then :
      {B : Type 0} (r : Result Text) (rest : Action B) (log : List Call)
      → ((attempt (lift r >>= λ t. pure tt) (λ e. pure tt) >>= λ u. rest) log).1 ≡ (rest log).1
  unfolding attempt lift pure ◌>>=◌
  quiet_then (ok a) rest log = refl
  quiet_then (err e) rest log = refl

  quietly-log :
      {B : Type 0} (c : Call) (rest : Action B) (log : List Call)
      → ((attempt (tell w c) (λ e. pure tt) >>= λ u. rest) log).1 ≡ (rest (c ∷ log)).1
  unfolding attempt ask tell lift pure ◌>>=◌
  quietly-log c rest log = quiet_then (w.text log c) rest (c ∷ log)

  attempt-Undoes :
      {A : Type 0} {body : Action A} {handler : Error → Action A}
      → Undoes body
      → ((e : Error) → Undoes (handler e))
      → Undoes (attempt body handler)
  unfolding attempt
  attempt-Undoes {A} {body} {handler} f g = record {
    undoes = λ log h. handled-Undoes (body log).0 handler (body log).1 g (f.undoes log h);
  }

  checkout-Undoes : (ref remote : Text) → Undoes (Git.checkout_tracking w ref false remote)
  unfolding ℕ_discrete text_dec
  checkout-Undoes ref remote = if-Undoes (is_empty remote) (tell-Undoes _ refl) (
      >>=-Undoes
        (attempt-Undoes (>>=-Undoes (ask-Undoes _ refl) (λ a. pure-Undoes true))
          (λ e. if-Undoes (Git.is_process_error e) (pure-Undoes false) (lift-Undoes _)))
        (λ exists.
          >>=-Undoes (tell-Undoes _ (checkout_args-pick exists ref remote))
            (λ a. if-Undoes exists (tell-Undoes _ refl) (pure-Undoes tt))))

module _ (lt : Text → Text → Bool) (is_prerelease : Text → Bool) (repo : Text)
    (str_of : Error → Text) (w : Outside) where
  restore_branch-log :
      (remote branch : Text) (log : List Call)
      → (restore_branch lt is_prerelease repo str_of w remote branch log).1
        ≡ git (codes "reset" ∷ codes "--hard" ∷ (remote ++ (b'/' ∷ branch)) ∷ [])
          ∷ git (codes "cherry-pick" ∷ codes "--abort" ∷ [])
          ∷ log
  restore_branch-log remote branch log =
      quietly-log w (git (codes "cherry-pick" ∷ codes "--abort" ∷ []))
        (Git.reset_hard w (remote ++ (b'/' ∷ branch))) log
      ∙ tell-log w _ _

  verify_apply-Undoes :
      (remote sha branch version : Text)
      → Undoes (verify_apply lt is_prerelease repo str_of w remote sha branch version)
  unfolding ℕ_discrete text_dec
  verify_apply-Undoes remote sha branch version = record {
    undoes = λ log h. ap is_undone (finally-log _ _ log ∙ restore_branch-log remote branch _);
  }

  restore_original-log :
      (current : Text) (log : List Call)
      → is_empty current ≡ false
      → (restore_original lt is_prerelease repo str_of w current log).1
        ≡ git (codes "checkout" ∷ current ∷ []) ∷ log
  restore_original-log [] log h = absurd (cc)
  restore_original-log (c ∷ current) log h = tell-log w _ log

  verify_branch-Undoes :
      (remote sha branch : Text)
      → Undoes (verify_branch lt is_prerelease repo str_of w remote sha branch)
  unfolding ℕ_discrete text_dec
  verify_branch-Undoes remote sha branch = >>=-Undoes (checkout-Undoes w branch remote) (λ a.
      >>=-Undoes
        (>>=-Undoes (>>=-Undoes (ask-Undoes w _ refl) (λ output. pure-Undoes _))
          (λ tags. lift-Undoes _))
        (λ version.
          >>=-Undoes (verify_apply-Undoes remote sha branch version) (λ result. pure-Undoes _)))

  verify_branches-Undoes :
      (remote sha : Text) (branches : List Text) (results : Dict Text Verified)
      → Undoes (verify_branches lt is_prerelease repo str_of w remote sha branches results)
  verify_branches-Undoes remote sha [] results = pure-Undoes results
  verify_branches-Undoes remote sha (branch ∷ branches) results =
      >>=-Undoes (verify_branch-Undoes remote sha branch)
        (λ v. verify_branches-Undoes remote sha branches (put branch v results))

  -- If git named the original branch, and no commit waits for a reset, then whatever happens during
  -- the trial, exceptions included, the last call checks out the original branch, and before it every
  -- commit that was put on a branch was followed by a hard reset.
  pub verify_all-restores :
      (remote sha current : Text) (branches : List Text) (log : List Call)
      → is_empty current ≡ false
      → is_undone log ≡ true
      → (before : List Call) × ((verify_all lt is_prerelease repo str_of w remote sha branches
            current log).1
          ≡ git (codes "checkout" ∷ current ∷ []) ∷ before)
        × (is_undone before ≡ true)
  verify_all-restores remote sha current branches log h u = (
    (verify_branches lt is_prerelease repo str_of w remote sha branches [] log).1,
    finally-log _ _ log ∙ restore_original-log current _ h,
    (verify_branches-Undoes remote sha branches []).undoes log u,
  )
