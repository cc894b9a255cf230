-- ===== src/Release/ProcessBackports/Reset.antt =====
-- The release branch after a dry run of tools/private/release/process_backports.py.
use rules_python.Base.{
  is_empty, nat_eq, text_eq, Bool, true, false, ◌&&◌, none, some, List, [], ◌∷◌, Text, ◌==◌, codes,
  Result, ok, err, All, ◌≡◌, refl, ◌⊎◌, inl, inr, ℕ_discrete, text_dec,
}
use rules_python.Release.Action.{Call, git, Outside, then_call, ask, ◌>>=◌}
use rules_python.Release.Action.Keeps.{
  Keeps, pure-Keeps, lift-Keeps, >>=-Keeps, attempt-Keeps, if-Keeps, ask-Keeps, tell-Keeps,
}
use rules_python.Release.Git
use rules_python.Release.ProcessBackports.{Target, Sorted}
use rules_python.Release.ProcessBackports.Run.{cherry_pick_from, cherry_pick_on_branch}
use rules_python.Release.ProcessBackports.Outcome.{cherry_pick_from-reset}

-- The call puts a commit on the branch that is checked out.
abbrev pub is_pick : Call → Bool
is_pick (git (command ∷ option ∷ args)) = command == codes "cherry-pick" && option == codes "-x"
is_pick c = false

abbrev pub NoPick : Call → Type 0
NoPick c = is_pick c ≡ false

pub checkout_args-pick :
    (exists : Bool) (ref remote : Text)
    → NoPick (git (Git.checkout_args false (some remote) exists ref))
unfolding ℕ_discrete text_dec
checkout_args-pick true ref remote = refl
checkout_args-pick false ref remote = refl

module _ (lt : Text → Text → Bool) (repo : Text) (w : Outside) (t : Target) where
  -- The question for the commit that is checked out.
  abbrev pub head_query : Call
  head_query = git (codes "rev-parse" ∷ codes "HEAD" ∷ [])

  -- The calls until the release branch is checked out, that checkout included.
  abbrev pub checked_out_log : List Text → List Call → List Call
  checked_out_log shas log =
      (Git.checkout_tracking w t.branch false t.remote
        (Git.fetch w t.remote none false false (Git.sort_commits_chronologically w shas log).1).1).1

  -- No commit was put on a branch; or none was before the calls `start`, and the last call is the hard
  -- reset to the commit that git, right after them, named as the one checked out.
  abbrev pub IsReset : List Call → List Call → Type 0
  IsReset start log =
      All NoPick log
      ⊎ ((sha : Text) × (before : List Call) × All NoPick start
          × (w.text start head_query ≡ ok sha)
          × (log ≡ git (codes "reset" ∷ codes "--hard" ∷ sha ∷ []) ∷ before))

  checkout-Keeps : Keeps NoPick (Git.checkout_tracking w t.branch false t.remote)
  unfolding ℕ_discrete text_dec
  checkout-Keeps = if-Keeps (is_empty t.remote) (tell-Keeps w _ refl) (
      >>=-Keeps
        (attempt-Keeps (>>=-Keeps (ask-Keeps w _ refl) (λ a. pure-Keeps true))
          (λ e. if-Keeps (Git.is_process_error e) (pure-Keeps false) (lift-Keeps _)))
        (λ exists.
          >>=-Keeps (tell-Keeps w _ (checkout_args-pick exists t.branch t.remote))
            (λ a. if-Keeps exists (tell-Keeps w _ refl) (pure-Keeps tt))))

  fetch-Keeps : Keeps NoPick (Git.fetch w t.remote none false false)
  unfolding ℕ_discrete text_dec
  fetch-Keeps = tell-Keeps w _ refl

  sort-Keeps : (shas : List Text) → Keeps NoPick (Git.sort_commits_chronologically w shas)
  unfolding ℕ_discrete text_dec
  sort-Keeps shas = >>=-Keeps (ask-Keeps w _ refl) (λ output. pure-Keeps _)

  -- From the commit that is checked out, and what git answers for it, on.
  named :
      (s : Sorted) (shas : List Text) (start : List Call) (r : Result Text)
      → t.dry_run ≡ true
      → All NoPick start
      → w.text start head_query ≡ r
      → IsReset start (then_call r (cherry_pick_from lt repo w t s shas) (head_query ∷ start)).1
  unfolding ℕ_discrete text_dec
  named s shas start (err e) d h q = inl (refl, h)
  named s shas start (ok sha) d h q =
      let (before, last) = cherry_pick_from-reset lt repo w t s shas sha _ d in
      inr (sha, before, h, q, last)

  -- From the checkout on.
  checked_out :
      (s : Sorted) (shas : List Text) (start : List Call) (r : Result (Unit {0}))
      → t.dry_run ≡ true
      → All NoPick start
      → IsReset start
          (then_call r
            (λ u. Git.get_commit_sha w (codes "HEAD") false >>= cherry_pick_from lt repo w t s shas)
            start).1
  unfolding ask ◌>>=◌
  checked_out s shas start (err e) d h = inl h
  checked_out s shas start (ok u) d h = named s shas start _ d h refl

  -- From the fetch on.
  fetched :
      (s : Sorted) (shas : List Text) (log : List Call) (r : Result (Unit {0}))
      → t.dry_run ≡ true
      → All NoPick log
      → IsReset
          (Git.checkout_tracking w t.branch false t.remote log).1
          (then_call r
            (λ u. Git.checkout_tracking w t.branch false t.remote >>= λ v.
              Git.get_commit_sha w (codes "HEAD") false >>= cherry_pick_from lt repo w t s shas)
            log).1
  unfolding ◌>>=◌
  fetched s shas log (err e) d h = inl h
  fetched s shas log (ok u) d h =
      checked_out s shas (Git.checkout_tracking w t.branch false t.remote log).1
        (Git.checkout_tracking w t.branch false t.remote log).0 d (checkout-Keeps.keeps log h)

  -- From the sorting of the commits on.
  in_order :
      (s : Sorted) (log : List Call) (r : Result (List Text))
      → t.dry_run ≡ true
      → All NoPick log
      → IsReset
          (Git.checkout_tracking w t.branch false t.remote
            (Git.fetch w t.remote none false false log).1).1
          (then_call r
            (λ shas. Git.fetch w t.remote none false false >>= λ u.
              Git.checkout_tracking w t.branch false t.remote >>= λ v.
              Git.get_commit_sha w (codes "HEAD") false >>= cherry_pick_from lt repo w t s shas)
            log).1
  unfolding ◌>>=◌
  in_order s log (err e) d h = inl h
  in_order s log (ok shas) d h =
      fetched s shas (Git.fetch w t.remote none false false log).1
        (Git.fetch w t.remote none false false log).0 d (fetch-Keeps.keeps log h)

  -- In a dry run, and where no commit was put on a branch before, whatever happens, exceptions included:
  -- no commit is put on a branch; or the last call is the hard reset to the commit that git named as
  -- HEAD right after the release branch was checked out, before any commit was put on it.
  pub cherry_pick_on_branch-IsReset :
      (s : Sorted) (log : List Call)
      → t.dry_run ≡ true
      → All NoPick log
      → IsReset (checked_out_log s.shas log) (cherry_pick_on_branch lt repo w t s log).1
  unfolding ◌>>=◌
  cherry_pick_on_branch-IsReset s log d h =
      in_order s (Git.sort_commits_chronologically w s.shas log).1
        (Git.sort_commits_chronologically w s.shas log).0 d ((sort-Keeps s.shas).keeps log h)
