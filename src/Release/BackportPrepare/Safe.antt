-- ===== src/Release/BackportPrepare/Safe.antt =====
-- The calls that tools/private/release/backport_prepare.py makes.
use rules_python.Base.{
  ◌⊎◌, inl, inr, Result, ok, err, ok-injective, err-ne-ok, ◌∙◌, ap, nat_eq, text_eq, ℕ, Bool, true,
  false, Option, none, some, List, [], ◌∷◌, ◌++◌, Text, codes, is_empty, All, Error, ◌≡◌, refl,
  ℕ_discrete, text_dec,
}
use rules_python.Base.Dict.{Dict, put}
use rules_python.Text.{decimal}
use rules_python.Release.Action.{
  Call, Outside, Action, then_call, ask, tell, lift, pure, ◌>>=◌, update_issue_body,
  create_labelled_issue,
}
use rules_python.Release.Action.Keeps.{
  Keeps, pure-Keeps, lift-Keeps, >>=-Keeps, attempt-Keeps, finally-Keeps, if-Keeps, ask-Keeps,
  Leads, Keeps-Leads, >>=-Leads, if-Leads, tell-Keeps, ask_pull_request-Keeps,
}
use rules_python.Release.Git
use rules_python.Release.PullRequests.{resolve_pr_number}
use rules_python.Release.ProcessBackports.Outcome.{>>=-pure-log, tell-log, ask-log}
use rules_python.Release.ProcessBackports.{truthy}
use rules_python.Release.ProcessBackports.Local.{IsLocal, abort_quietly-Keeps, checkout-Keeps}
use rules_python.Release.BackportIssue.{BackportMetadata}
use rules_python.Release.BackportTargets.{Verified}
use rules_python.Release.BackportPrepare.{
  Args, truthy_number, verify_apply, verify_branch, verify_branches, restore_original,
  put_issue_text, to_or_latest, given_metadata, read_metadata, prepare_on_clean, prepare_targets,
  run,
}

-- A call that puts the text of the given issue; or, where none was given, makes an issue for the given
-- pull request.
pub data Puts (repo : Text) (args : Args) : Call → Type 0 where
  edits :
      (issue : ℕ) (body : Text)
      → truthy_number args.issue ≡ some issue
      → Puts repo args (update_issue_body issue body)
  creates :
      (ref : Text) (pr : ℕ) (body : Text)
      → truthy_number args.issue ≡ none
      → truthy args.pr ≡ some ref
      → resolve_pr_number repo ref ≡ ok pr
      → Puts repo args (
          create_labelled_issue
            (codes "Backport: #" ++ decimal pr)
            body
            (codes "type: backport-pr"))

-- Nothing is changed on the remotes, but for one such call, the last one, in a run that is not dry.
abbrev pub PutsOnce : Text → Args → List Call → Type 0
PutsOnce repo args log =
    All IsLocal log
    ⊎ ((args.dry_run ≡ false)
        × (c : Call) × (before : List Call) × (log ≡ c ∷ before)
        × Puts repo args c
        × All IsLocal before)

module _ (lt : Text → Text → Bool) (is_prerelease : Text → Bool) (repo : Text)
    (str_of : Error → Text) (w : Outside) (args : Args) where
  verify_apply-Keeps :
      (remote sha branch version : Text)
      → Keeps IsLocal (verify_apply lt is_prerelease repo str_of w remote sha branch version)
  unfolding ℕ_discrete text_dec
  verify_apply-Keeps remote sha branch version =
      finally-Keeps
        (attempt-Keeps
          (>>=-Keeps (tell-Keeps w _ refl) (λ a.
            attempt-Keeps
              (>>=-Keeps (ask-Keeps w _ refl)
                (λ date. >>=-Keeps (tell-Keeps w _ refl) (λ b. pure-Keeps _)))
              (λ e. pure-Keeps _)))
          (λ e. pure-Keeps _))
        (>>=-Keeps (abort_quietly-Keeps (λ c g. g) w) (λ a. tell-Keeps w _ refl))

  verify_branch-Keeps :
      (remote sha branch : Text)
      → Keeps IsLocal (verify_branch lt is_prerelease repo str_of w remote sha branch)
  unfolding ℕ_discrete text_dec
  verify_branch-Keeps remote sha branch =
      >>=-Keeps (checkout-Keeps (λ c g. g) w branch remote) (λ a.
        >>=-Keeps
          (>>=-Keeps (>>=-Keeps (ask-Keeps w _ refl) (λ output. pure-Keeps _))
            (λ tags. lift-Keeps _))
          (λ version.
            >>=-Keeps (verify_apply-Keeps remote sha branch version) (λ result. pure-Keeps _)))

  verify_branches-Keeps :
      (remote sha : Text) (branches : List Text) (results : Dict Text Verified)
      → Keeps IsLocal (verify_branches lt is_prerelease repo str_of w remote sha branches results)
  verify_branches-Keeps remote sha [] results = pure-Keeps results
  verify_branches-Keeps remote sha (branch ∷ branches) results =
      >>=-Keeps (verify_branch-Keeps remote sha branch)
        (λ v. verify_branches-Keeps remote sha branches (put branch v results))

  restore_original-Keeps :
      (current : Text) → Keeps IsLocal (restore_original lt is_prerelease repo str_of w current)
  unfolding ℕ_discrete text_dec
  restore_original-Keeps current = if-Keeps (is_empty current) (pure-Keeps tt) (tell-Keeps w _ refl)

  branches-Keeps : (remote : Text) → Keeps IsLocal (Git.get_remote_branches w remote)
  unfolding ℕ_discrete text_dec
  branches-Keeps remote = >>=-Keeps (ask-Keeps w _ refl) (λ output. pure-Keeps _)

  to_or_latest-Keeps :
      (remote : Text) (to : Option Text)
      → Keeps IsLocal (to_or_latest lt is_prerelease repo str_of w remote to)
  to_or_latest-Keeps remote (some to) = pure-Keeps to
  to_or_latest-Keeps remote none = >>=-Keeps (branches-Keeps remote) (λ branches. lift-Keeps _)

  given_metadata-Keeps :
      (pr from : Option Text)
      → Keeps IsLocal (given_metadata lt is_prerelease repo str_of w args pr from)
  given_metadata-Keeps (some pr) (some from) =
      >>=-Keeps (to_or_latest-Keeps args.remote (truthy args.to_minor)) (λ to. pure-Keeps _)
  given_metadata-Keeps (some pr) none = lift-Keeps _
  given_metadata-Keeps none from = lift-Keeps _

  read_metadata-Keeps :
      (issue : Option ℕ) → Keeps IsLocal (read_metadata lt is_prerelease repo str_of w args issue)
  read_metadata-Keeps (some issue) = >>=-Keeps (ask-Keeps w _ refl) (λ body. lift-Keeps _)
  read_metadata-Keeps none = given_metadata-Keeps (truthy args.pr) (truthy args.from_minor)

  -- Where no issue was given, the number is that of the given pull request.
  abbrev IsGiven : ℕ → Type 0
  IsGiven pr =
      truthy_number args.issue ≡ none
      → (ref : Text) × (truthy args.pr ≡ some ref) × (resolve_pr_number repo ref ≡ ok pr)

  one_call-Leads :
      {m : Action ℕ} (c : Call)
      → ((log : List Call) → (m log).1 ≡ c ∷ log)
      → args.dry_run ≡ false
      → Puts repo args c
      → Leads IsLocal (PutsOnce repo args) m
  one_call-Leads {m} c called d p = record { leads = λ log h. inr (d, c, log, called log, p, h) }

  put_issue_text-Leads :
      (dry_run : Bool) (issue : Option ℕ) (pr : ℕ) (body : Text)
      → args.dry_run ≡ dry_run
      → truthy_number args.issue ≡ issue
      → IsGiven pr
      → Leads IsLocal
          (PutsOnce repo args)
          (put_issue_text lt is_prerelease repo str_of w dry_run issue pr body)
  put_issue_text-Leads true issue pr body d e g = Keeps-Leads (λ log h. inl h) (pure-Keeps 0)
  put_issue_text-Leads false (some issue) pr body d e g =
      one_call-Leads (update_issue_body issue body)
        (λ log.
          >>=-pure-log (tell w (update_issue_body issue body)) (λ a. 0) log ∙ tell-log w _ log)
        d (edits issue body e)
  put_issue_text-Leads false none pr body d e g =
      let (ref, given, resolved) = g e in
      one_call-Leads _ (λ log. >>=-pure-log (ask w _) (λ a. 0) log ∙ ask-log w _ log) d
        (creates ref pr body e given resolved)

  stopped : (log : List Call) → All IsLocal log → PutsOnce repo args log
  stopped log h = inl h

  prepare_on_clean-Leads :
      (m : BackportMetadata) (pr : ℕ) (sha : Text) (branches : List Text)
      → IsGiven pr
      → Leads IsLocal
          (PutsOnce repo args)
          (prepare_on_clean lt is_prerelease repo str_of w args m pr sha branches)
  unfolding ℕ_discrete text_dec
  prepare_on_clean-Leads m pr sha branches g =
      >>=-Leads stopped (ask-Keeps w _ refl) (λ current a e.
        >>=-Leads stopped
          (finally-Keeps (verify_branches-Keeps args.remote sha branches [])
            (restore_original-Keeps current))
          (λ results b f. >>=-Leads stopped (lift-Keeps _) (λ body c h.
            put_issue_text-Leads args.dry_run (truthy_number args.issue) pr body refl refl g)))

  prepare_targets-Leads :
      (m : BackportMetadata) (pr : ℕ) (sha : Text) (branches : List Text)
      → IsGiven pr
      → Leads IsLocal
          (PutsOnce repo args)
          (prepare_targets lt is_prerelease repo str_of w args m pr sha branches)
  unfolding ℕ_discrete text_dec
  prepare_targets-Leads m pr sha [] g = Keeps-Leads stopped (lift-Keeps _)
  prepare_targets-Leads m pr sha (branch ∷ branches) g =
      >>=-Leads stopped (ask-Keeps w _ refl) (λ changes a e.
        if-Leads (is_empty changes) (prepare_on_clean-Leads m pr sha (branch ∷ branches) g)
          (Keeps-Leads stopped (lift-Keeps _)))

  built :
      (r : Result Text) (pr from : Text) (m : BackportMetadata) (log : List Call)
      → (then_call r (λ to. pure (record { pr = pr; from_minor = from; to_minor = to })) log).0
        ≡ ok m
      → some pr ≡ some m.pr
  unfolding pure
  built (ok to) pr from m log h = ap (λ k. some k.pr) (ok-injective h)
  built (err e) pr from m log h = absurd (err-ne-ok h)

  -- The reference of the metadata that no issue was read for is the given one.
  given_reference :
      (pr from : Option Text) (m : BackportMetadata) (log : List Call)
      → (given_metadata lt is_prerelease repo str_of w args pr from log).0 ≡ ok m
      → pr ≡ some m.pr
  unfolding lift ◌>>=◌
  given_reference (some pr) (some from) m log h =
      built (to_or_latest lt is_prerelease repo str_of w args.remote (truthy args.to_minor) log).0
        pr from m _ h
  given_reference (some pr) none m log h = absurd (err-ne-ok h)
  given_reference none from m log h = absurd (err-ne-ok h)

  reference :
      (issue : Option ℕ) (m : BackportMetadata) (log : List Call)
      → (read_metadata lt is_prerelease repo str_of w args issue log).0 ≡ ok m
      → issue ≡ none
      → truthy args.pr ≡ some m.pr
  reference none m log h e = given_reference (truthy args.pr) (truthy args.from_minor) m log h
  reference (some issue) m log h e = absurd (cc)

  lifted : {A : Type 0} (r : Result A) (log : List Call) (a : A) → (lift r log).0 ≡ ok a → r ≡ ok a
  unfolding lift
  lifted r log a h = h

  -- Whatever git and GitHub answer, the subcommand changes nothing on the remotes; or it is no dry run,
  -- and its last call, and no other, changes something there: it puts the text of the issue that was
  -- given or, if none was given, creates one issue, which is named after the given pull request.
  pub run-PutsIssue : PutsOnce repo args (run lt is_prerelease repo str_of w args []).1
  unfolding run ℕ_discrete text_dec
  run-PutsIssue =
      (>>=-Leads stopped (tell-Keeps w _ refl) (λ a _ _.
          >>=-Leads stopped (read_metadata-Keeps (truthy_number args.issue)) (λ m log e.
            >>=-Leads stopped (lift-Keeps (resolve_pr_number repo m.pr)) (λ pr log2 f.
              >>=-Leads stopped (ask_pull_request-Keeps w pr refl) (λ info _ _.
                >>=-Leads stopped (lift-Keeps _) (λ sha _ _.
                  >>=-Leads stopped
                    (>>=-Keeps (branches-Keeps args.remote) (λ branches.
                      >>=-Keeps (lift-Keeps _)
                        (λ from. >>=-Keeps (lift-Keeps _) (λ to. pure-Keeps _))))
                    (λ branches _ _. prepare_targets-Leads m pr sha branches (λ none_given. (
                      m.pr,
                      reference (truthy_number args.issue) m log e none_given,
                      lifted _ log2 pr f,
                    ))))))))).leads
        [] tt
