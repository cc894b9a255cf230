-- ===== src/Release/ProcessBackports/Local.antt =====
-- The calls that the loops of tools/private/release/process_backports.py make.
use rules_python.Base.{
  is_empty, nat_eq, text_eq, ℕ, Bool, true, false, ◌||◌, Option, none, some, List, [], ◌∷◌, Text,
  ◌==◌, codes, Result, ok, err, ◌≡◌, refl, ℕ_discrete, text_dec,
}
use rules_python.Base.Dict.{Dict}
use rules_python.Release.Action.{
  Call, git, Outside, update_issue_body, add_comment_reaction, post_issue_comment, create_issue,
  create_pr, create_labelled_pr, create_labelled_issue, enable_auto_merge,
}
use rules_python.Release.Action.Keeps.{
  Keeps, pure-Keeps, lift-Keeps, >>=-Keeps, attempt-Keeps, if-Keeps, ask-Keeps, tell-Keeps,
  ask_pull_request-Keeps,
}
use rules_python.Release.Git
use rules_python.Release.Issue.Backports.{BackportTask}
use rules_python.Release.Issue.{update_task_in_body}
use rules_python.Release.ProcessBackports.{
  put_issue_body, done_in, resolve_merge_commits_for_prs, Sorted, Target, process_pr_commit_infos,
  cherry_pick_and_update_prs, mark_unless, sort_info, pick_commit, push_unless, cherry_pick_item,
  abort_quietly, truthy,
}

abbrev pub is_push : List Text → Bool
is_push [] = false
is_push (command ∷ args) = command == codes "push"

-- The run of git makes a tag.
abbrev pub is_tagging : List Text → Bool
is_tagging [] = false
is_tagging (command ∷ []) = false
is_tagging (command ∷ name ∷ args) = command == codes "tag"

-- The call makes a tag, or changes the remote repository or GitHub.
abbrev pub changes_remote : Call → Bool
changes_remote (git args) = is_push args || is_tagging args
changes_remote (update_issue_body issue body) = true
changes_remote (create_issue title body) = true
changes_remote (create_pr title body) = true
changes_remote (create_labelled_pr title body label) = true
changes_remote (create_labelled_issue title body label) = true
changes_remote (enable_auto_merge pr) = true
changes_remote (post_issue_comment issue body) = true
changes_remote (add_comment_reaction comment reaction) = true
changes_remote c = false

-- The call pushes, or edits the body of an issue.
abbrev pub is_edit : Call → Bool
is_edit (git args) = is_push args
is_edit (update_issue_body issue body) = true
is_edit c = false

abbrev pub Edits : (Call → Type 0) → Type 0
Edits P = (c : Call) → is_edit c ≡ true → P c

abbrev pub IsLocal : Call → Type 0
IsLocal c = changes_remote c ≡ false

checkout_args-IsLocal :
    (exists : Bool) (ref remote : Text)
    → IsLocal (git (Git.checkout_args false (some remote) exists ref))
unfolding ℕ_discrete text_dec
checkout_args-IsLocal true ref remote = refl
checkout_args-IsLocal false ref remote = refl

-- `P` holds of the calls that change nothing there.
module _ {P : Call → Type 0} (local : (c : Call) → IsLocal c → P c) (w : Outside) where
  pub put_issue_body-Keeps :
      (issue : ℕ) (r : Result Text) (body : Text)
      → Edits P
      → Keeps P (put_issue_body w issue r body)
  put_issue_body-Keeps issue (err e) body h = pure-Keeps body
  put_issue_body-Keeps issue (ok updated) body h =
      attempt-Keeps (>>=-Keeps (tell-Keeps w _ (h _ refl)) (λ a. pure-Keeps updated))
        (λ e. pure-Keeps updated)

  pub mark_unless-Keeps :
      (b : Bool) (issue : ℕ) (body ref : Text) (checked : Bool) (m : Dict Text Text)
      → (b ≡ false → Edits P)
      → Keeps P (mark_unless w b issue body ref checked m)
  mark_unless-Keeps true issue body ref checked m h = pure-Keeps body
  mark_unless-Keeps false issue body ref checked m h =
      put_issue_body-Keeps issue (update_task_in_body body ref checked m) body (h refl)

  pub pick_commit-Keeps : (t : Target) (sha : Text) → Keeps P (pick_commit w t sha)
  unfolding ℕ_discrete text_dec
  pick_commit-Keeps t sha = >>=-Keeps (tell-Keeps w _ (local _ refl)) (λ a.
      >>=-Keeps (tell-Keeps w _ (local _ refl)) (λ b.
        >>=-Keeps (ask-Keeps w _ (local _ refl)) (λ date.
          >>=-Keeps (tell-Keeps w _ (local _ refl)) (λ c.
            >>=-Keeps (tell-Keeps w _ (local _ refl)) (λ d.
              >>=-Keeps (ask-Keeps w _ (local _ refl))
                (λ message. tell-Keeps w _ (local _ refl)))))))

  pub push_unless-Keeps :
      (b : Bool) (t : Target) (item : BackportTask) (body : Text)
      → (b ≡ false → Edits P)
      → Keeps P (push_unless w b t item body)
  unfolding ℕ_discrete text_dec
  push_unless-Keeps true t item body h = pure-Keeps body
  push_unless-Keeps false t item body h = >>=-Keeps (tell-Keeps w _ (h refl _ refl)) (λ a.
      >>=-Keeps (ask-Keeps w _ (local _ refl)) (λ sha.
        put_issue_body-Keeps t.issue
          (update_task_in_body body item.pr_ref true (done_in t.rc_suffix sha)) body (h refl)))

  pub abort_quietly-Keeps : Keeps P (abort_quietly w)
  unfolding ℕ_discrete text_dec
  abort_quietly-Keeps = attempt-Keeps (tell-Keeps w _ (local _ refl)) (λ e. pure-Keeps tt)

  pub cherry_pick_item-Keeps :
      (t : Target) (sha : Text) (item : BackportTask) (body : Text)
      → (t.dry_run ≡ false → Edits P)
      → Keeps P (cherry_pick_item w t sha item body)
  cherry_pick_item-Keeps t sha item body h =
      attempt-Keeps
        (>>=-Keeps (pick_commit-Keeps t sha)
          (λ a. >>=-Keeps (push_unless-Keeps t.dry_run t item body h) (λ updated. pure-Keeps _)))
        (λ e. >>=-Keeps abort_quietly-Keeps (λ a.
          >>=-Keeps (mark_unless-Keeps t.dry_run t.issue body item.pr_ref false _ h)
            (λ updated. pure-Keeps _)))

  pub cherry_pick_and_update_prs-Keeps :
      (t : Target) (items : Dict Text BackportTask) (shas : List Text) (body : Text)
      → (t.dry_run ≡ false → Edits P)
      → Keeps P (cherry_pick_and_update_prs w t items shas body)
  cherry_pick_and_update_prs-Keeps t items [] body h = pure-Keeps _
  cherry_pick_and_update_prs-Keeps t items (sha ∷ shas) body h = >>=-Keeps (lift-Keeps _) (λ item.
      >>=-Keeps (cherry_pick_item-Keeps t sha item body h) (λ first.
        >>=-Keeps (cherry_pick_and_update_prs-Keeps t items shas first.body h)
          (λ rest. pure-Keeps _)))

  pub sort_info-Keeps :
      (b : Bool) (issue : ℕ) (item : BackportTask) (commit : Option Text) (s : Sorted)
      → (b ≡ false → Edits P)
      → Keeps P (sort_info w b issue item commit s)
  sort_info-Keeps b issue item (some sha) s h = pure-Keeps _
  sort_info-Keeps b issue item none s h =
      if-Keeps (item.status == codes "open-pr" || item.status == codes "draft-pr") (pure-Keeps s)
        (>>=-Keeps (mark_unless-Keeps b issue s.body item.pr_ref false _ h) (λ body. pure-Keeps _))

  pub process_pr_commit_infos-Keeps :
      (b : Bool) (issue : ℕ) (items : List BackportTask) (s : Sorted)
      → (b ≡ false → Edits P)
      → Keeps P (process_pr_commit_infos w b issue items s)
  process_pr_commit_infos-Keeps b issue [] s h = pure-Keeps s
  process_pr_commit_infos-Keeps b issue (item ∷ items) s h =
      >>=-Keeps (sort_info-Keeps b issue item (truthy item.commit) s h)
        (λ t. process_pr_commit_infos-Keeps b issue items t h)

  pub resolve-Keeps : (items : List BackportTask) → Keeps P (resolve_merge_commits_for_prs w items)
  resolve-Keeps [] = pure-Keeps _
  resolve-Keeps (item ∷ items) = >>=-Keeps (lift-Keeps _) (λ n.
      >>=-Keeps
        (attempt-Keeps (>>=-Keeps (ask_pull_request-Keeps w n (local _ refl)) (λ pr. pure-Keeps _))
          (λ e. pure-Keeps _))
        (λ first. >>=-Keeps (resolve-Keeps items) (λ rest. pure-Keeps _)))

  pub checkout-Keeps : (ref remote : Text) → Keeps P (Git.checkout_tracking w ref false remote)
  unfolding ℕ_discrete text_dec
  checkout-Keeps ref remote = if-Keeps (is_empty remote) (tell-Keeps w _ (local _ refl)) (
      >>=-Keeps
        (attempt-Keeps (>>=-Keeps (ask-Keeps w _ (local _ refl)) (λ a. pure-Keeps _))
          (λ e. if-Keeps (Git.is_process_error e) (pure-Keeps false) (lift-Keeps _)))
        (λ exists.
          >>=-Keeps (tell-Keeps w _ (local _ (checkout_args-IsLocal exists ref remote)))
            (λ a. if-Keeps exists (tell-Keeps w _ (local _ refl)) (pure-Keeps tt))))
