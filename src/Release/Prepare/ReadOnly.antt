-- ===== src/Release/Prepare/ReadOnly.antt =====
-- The calls of a dry run of tools/private/release/prepare.py.
use rules_python.Base.{
  ◌⊎◌, inl, inr, nat_eq, text_eq, ℕ, Bool, true, false, not, ◌&&◌, Option, none, some, List, [],
  ◌∷◌, Text, codes, contains, is_empty, ◌≡◌, refl, All, ℕ_discrete, text_dec,
}
use rules_python.Release.Versions.{release_branch}
use rules_python.Release.Action.{
  Call, git, Outside, Issue, update_issue_body, post_issue_comment, add_comment_reaction,
  create_issue, create_pr, create_labelled_pr, create_labelled_issue, enable_auto_merge,
  process_news, replace_version_next, update_changelog, set_github_output,
}
use rules_python.Release.Action.Keeps.{
  Keeps, pure-Keeps, lift-Keeps, >>=-Keeps, attempt-Keeps, if-Keeps, ask-Keeps, tell-Keeps,
  ask_issues-Keeps,
}
use rules_python.Release.Git
use rules_python.Release.ReleaseTitle.{given}
use rules_python.Release.ProcessBackports.Local.{is_tagging}
use rules_python.Release.Promote.{matching}
use rules_python.Release.Prepare.{
  Args, associated_pr, pr_or_new, find_pr, prepare_issue, prepare_found, prepare_version,
  increment_from, version_to_prepare, run,
}

-- The commands of git that change neither the working tree nor a branch nor a remote repository.
abbrev reading_commands : List Text
reading_commands = codes "status" ∷ codes "rev-parse" ∷ codes "show-ref" ∷ codes "tag" ∷ []

abbrev pub is_reading : List Text → Bool
is_reading [] = false
is_reading (command ∷ args) = contains reading_commands command && not (is_tagging (command ∷ args))

-- The call changes no file, no branch, no tag, and nothing on GitHub.
abbrev pub only_reads : Call → Bool
only_reads (git args) = is_reading args
only_reads (update_issue_body issue body) = false
only_reads (post_issue_comment issue body) = false
only_reads (add_comment_reaction comment reaction) = false
only_reads (create_issue title body) = false
only_reads (create_pr title body) = false
only_reads (create_labelled_pr title body label) = false
only_reads (create_labelled_issue title body label) = false
only_reads (enable_auto_merge pr) = false
only_reads (process_news version targets) = false
only_reads (replace_version_next version) = false
only_reads (update_changelog version date) = false
only_reads (set_github_output name value) = false
only_reads c = true

abbrev pub IsReading : Call → Type 0
IsReading c = only_reads c ≡ true

-- The fetch at the start also takes over the remote's tags, and replaces local tags of those names.
abbrev pub tag_fetch : Call
tag_fetch = git (Git.fetch_args (codes "origin") none true true)

abbrev pub ReadsOrFetches : Call → Type 0
ReadsOrFetches c = IsReading c ⊎ (c ≡ tag_fetch)

module _ (lt : Text → Text → Bool) (is_prerelease : Text → Bool) (repo : Text) (w : Outside) where
  associated_pr-Keeps :
      (issue : Option ℕ) → Keeps ReadsOrFetches (associated_pr lt is_prerelease repo w issue)
  associated_pr-Keeps none = pure-Keeps none
  associated_pr-Keeps (some issue) = >>=-Keeps (ask-Keeps w _ (inl refl)) (λ body. pure-Keeps _)

  pr_or_new-Keeps :
      (version : Text) (issue : Option ℕ) (pr : Option Text)
      → Keeps ReadsOrFetches (pr_or_new lt is_prerelease repo w true version issue pr)
  pr_or_new-Keeps version issue none = pure-Keeps _
  pr_or_new-Keeps version issue (some pr) = pure-Keeps _

  find_pr-Keeps :
      (version : Text) (issue : Option ℕ)
      → Keeps ReadsOrFetches (find_pr lt is_prerelease repo w true version issue)
  find_pr-Keeps version issue = >>=-Keeps (ask-Keeps w _ (inl refl)) (λ open_pr.
      if-Keeps (is_empty open_pr)
        (>>=-Keeps (associated_pr-Keeps issue) (pr_or_new-Keeps version issue))
        (pure-Keeps open_pr))

  prepare_issue-Keeps :
      (version : Text) (issue : Option ℕ)
      → Keeps ReadsOrFetches (prepare_issue lt is_prerelease repo w true version issue)
  unfolding ℕ_discrete text_dec
  prepare_issue-Keeps version issue =
      >>=-Keeps
        (attempt-Keeps (>>=-Keeps (ask-Keeps w _ (inl refl)) (λ a. pure-Keeps true))
          (λ e. if-Keeps (Git.is_process_error e) (pure-Keeps false) (lift-Keeps _)))
        (λ exists.
          >>=-Keeps (pure-Keeps tt)
            (λ a. >>=-Keeps (find_pr-Keeps version issue) (λ pr_num. pure-Keeps 0)))

  prepare_found-Keeps :
      (version : Text) (issues : List Issue)
      → Keeps ReadsOrFetches (prepare_found lt is_prerelease repo w true version issues)
  prepare_found-Keeps version [] =
      >>=-Keeps (ask-Keeps w _ (inl refl))
        (λ template. >>=-Keeps (pure-Keeps none) (λ issue. prepare_issue-Keeps version issue))
  prepare_found-Keeps version (i ∷ []) = prepare_issue-Keeps version (some i.number)
  prepare_found-Keeps version (i ∷ j ∷ l) = pure-Keeps 1

  prepare_version-Keeps :
      (version : Text) (issue : Option ℕ)
      → Keeps ReadsOrFetches (prepare_version lt is_prerelease repo w true version issue)
  prepare_version-Keeps version (some issue) = prepare_issue-Keeps version (some issue)
  prepare_version-Keeps version none =
      >>=-Keeps (ask_issues-Keeps w version (inl refl))
        (λ issues. prepare_found-Keeps version (matching version issues))

  increment_from-Keeps :
      (current : Text) (tags : List Text) (branch : Option (ℕ × ℕ))
      → Keeps ReadsOrFetches (increment_from lt is_prerelease repo w current tags branch)
  increment_from-Keeps current tags (some branch) = lift-Keeps _
  increment_from-Keeps current tags none = >>=-Keeps (ask-Keeps w _ (inl refl)) (λ i. lift-Keeps _)

  version_to_prepare-Keeps :
      (version : Option Text)
      → Keeps ReadsOrFetches (version_to_prepare lt is_prerelease repo w version)
  unfolding ℕ_discrete text_dec
  version_to_prepare-Keeps (some version) = pure-Keeps version
  version_to_prepare-Keeps none = >>=-Keeps (ask-Keeps w _ (inl refl)) (λ current.
      >>=-Keeps (>>=-Keeps (ask-Keeps w _ (inl refl)) (λ output. pure-Keeps _))
        (λ tags. increment_from-Keeps current tags (release_branch current)))

  dry-Keeps :
      (args : Args) (b : Bool)
      → b ≡ true
      → (version : Text)
      → Keeps ReadsOrFetches (prepare_version lt is_prerelease repo w b version (given args.issue))
  dry-Keeps args true h version = prepare_version-Keeps version (given args.issue)
  dry-Keeps args false h version = absurd (cc)

  run-Keeps :
      (args : Args) → args.dry_run ≡ true → Keeps ReadsOrFetches (run lt is_prerelease repo w args)
  unfolding run ℕ_discrete text_dec
  run-Keeps args h = >>=-Keeps (tell-Keeps w _ (inr refl)) (λ a.
      >>=-Keeps (ask-Keeps w _ (inl refl)) (λ changes.
        if-Keeps (is_empty changes)
          (>>=-Keeps (version_to_prepare-Keeps args.version) (dry-Keeps args args.dry_run h))
          (pure-Keeps 1)))

-- A dry run of prepare, whatever git and GitHub answer, fetches from the remote origin with all of its
-- tags, which may replace local tags; each other call changes no file, branch or tag, pushes nothing,
-- and changes nothing on GitHub.
pub run-IsReading :
    (lt : Text → Text → Bool) (is_prerelease : Text → Bool) (repo : Text) (w : Outside)
    (args : Args)
    → args.dry_run ≡ true
    → All ReadsOrFetches (run lt is_prerelease repo w args []).1
run-IsReading lt is_prerelease repo w args h =
    (run-Keeps lt is_prerelease repo w args h).keeps [] tt
