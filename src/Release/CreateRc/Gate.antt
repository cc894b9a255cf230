-- ===== src/Release/CreateRc/Gate.antt =====
-- When tools/private/release/create_rc.py tags.
use rules_python.Base.{
  nat_eq, text_eq, ℕ, zero, suc, Bool, true, false, ◌||◌, Option, none, some, List, [], ◌∷◌, Text,
  ◌==◌, ==_sound, subst, sym, codes, any, ok, ◌≡◌, refl, ◌⊎◌, inl, inr, All, ℕ_discrete, text_dec,
}
use rules_python.Base.Dict.{get}
use rules_python.Release.Action.{Call, git, Outside, get_issue_body}
use rules_python.Release.Action.Keeps.{
  Keeps, pure-Keeps, lift-Keeps, >>=-Keeps, attempt-Keeps, if-Keeps, if_known-Keeps, ask-Keeps,
  tell-Keeps, ask_then-Keeps,
}
use rules_python.Release.Issue.State.{ChecklistState, ReleaseTask, parse_checklist_state}
use rules_python.Release.Issue.Backports.{parse_backports}
use rules_python.Release.ReleaseTitle.{title_version}
use rules_python.Release.ProcessBackports
use rules_python.Release.ProcessBackports.Local.{IsLocal, is_edit, is_push, is_tagging}
use rules_python.Release.ProcessBackports.DryRun.{run_internal-Keeps}
use rules_python.Release.ProcessBackports.Run.{react_if_failed}
use rules_python.Release.CreateRc.{
  Args, is_done, is_unfinished, is_released, backport_args, tag_rc, tag_task, tag_version,
  tag_if_ready, run_if_processed, run_internal, run,
}

-- The call makes a tag.
abbrev pub makes_tag : Call → Bool
makes_tag (git args) = is_tagging args
makes_tag c = false

-- GitHub has answered with a body of the issue in which the release is prepared, its branch is
-- created, and no backport is unfinished.
pub record WasReady (w : Outside) (issue : ℕ) : Type 0 where
  pub log : List Call
  pub body : Text
  pub answered : w.text log (get_issue_body issue) ≡ ok body
  pub released : is_released (parse_checklist_state body) ≡ true
  pub finished : any is_unfinished (parse_backports body) ≡ false

abbrev pub IsTimely : Outside → ℕ → Call → Type 0
IsTimely w issue c = (makes_tag c ≡ false) ⊎ WasReady w issue

either_false : (a b : Bool) → (a || b) ≡ false → b ≡ false
either_false true b h = absurd (cc)
either_false false b h = h

local-IsTimely : (w : Outside) (issue : ℕ) (c : Call) → IsLocal c → IsTimely w issue c
local-IsTimely w issue (git args) h = inl (either_false (is_push args) (is_tagging args) h)
local-IsTimely w issue c h = inl refl

push-makes_no_tag : (args : List Text) → is_push args ≡ true → is_tagging args ≡ false
unfolding ℕ_discrete text_dec
push-makes_no_tag [] h = refl
push-makes_no_tag (command ∷ []) h = refl
push-makes_no_tag (command ∷ name ∷ args) h =
    subst (λ c. (c == codes "tag") ≡ false) (sym (==_sound command (codes "push") h)) refl

edit-IsTimely : (w : Outside) (issue : ℕ) (c : Call) → is_edit c ≡ true → IsTimely w issue c
edit-IsTimely w issue (git args) h = inl (push-makes_no_tag args h)
edit-IsTimely w issue c h = inl refl

module _ (lt : Text → Text → Bool) (repo : Text) (w : Outside) (args : Args) where
  -- Once the body was ready, any call is allowed.
  tag_rc-Keeps :
      (body version : Text) (n : ℕ)
      → WasReady w args.issue
      → Keeps (IsTimely w args.issue) (tag_rc lt repo w args body version n)
  tag_rc-Keeps body version n r = >>=-Keeps (ask-Keeps w _ (inr r)) (λ sha.
      >>=-Keeps (tell-Keeps w _ (inr r)) (λ a. >>=-Keeps (tell-Keeps w _ (inr r)) (λ b.
        >>=-Keeps (tell-Keeps w _ (inr r)) (λ c. >>=-Keeps (lift-Keeps _) (λ updated.
          >>=-Keeps (tell-Keeps w _ (inr r)) (λ d.
            >>=-Keeps (ask-Keeps w _ (inr r))
              (λ run. >>=-Keeps (tell-Keeps w _ (inr r)) (λ e. pure-Keeps 0))))))))

  tag_task-Keeps :
      (body version : Text) (n : ℕ) (task : Option ReleaseTask)
      → WasReady w args.issue
      → Keeps (IsTimely w args.issue) (tag_task lt repo w args body version n task)
  tag_task-Keeps body version n none r =
      >>=-Keeps (lift-Keeps _)
        (λ added. >>=-Keeps (tell-Keeps w _ (inr r)) (λ a. tag_rc-Keeps added version n r))
  tag_task-Keeps body version n (some task) r =
      if-Keeps (task.checked || is_done task) (pure-Keeps 1) (tag_rc-Keeps body version n r)

  tag_version-Keeps :
      (body : Text) (state : ChecklistState) (version : Option Text)
      → WasReady w args.issue
      → Keeps (IsTimely w args.issue) (tag_version lt repo w args body state version)
  tag_version-Keeps body state none r = pure-Keeps 1
  tag_version-Keeps body state (some version) r = >>=-Keeps (tell-Keeps w _ (inr r)) (λ a.
      >>=-Keeps (tell-Keeps w _ (inr r)) (λ b.
        >>=-Keeps (>>=-Keeps (ask-Keeps w _ (inr r)) (λ output. pure-Keeps _)) (λ tags.
          >>=-Keeps (lift-Keeps _) (λ n. tag_task-Keeps body version n (get n state.rc_tags) r))))

  tag_if_ready-Keeps :
      (log : List Call) (body : Text)
      → w.text log (get_issue_body args.issue) ≡ ok body
      → Keeps (IsTimely w args.issue) (tag_if_ready lt repo w args body)
  tag_if_ready-Keeps log body e =
      if_known-Keeps (is_released (parse_checklist_state body))
        (λ r.
          if_known-Keeps (any is_unfinished (parse_backports body)) (λ u. pure-Keeps 1)
            (λ u. >>=-Keeps (ask-Keeps w _ (inl refl)) (λ title.
              tag_version-Keeps body (parse_checklist_state body) (title_version title)
                (record { log = log; body = body; answered = e; released = r; finished = u }))))
        (λ r. pure-Keeps 1)

  run_if_processed-Keeps :
      (code : ℕ) → Keeps (IsTimely w args.issue) (run_if_processed lt repo w args code)
  run_if_processed-Keeps zero =
      ask_then-Keeps w (tag_if_ready lt repo w args) (inl refl) tag_if_ready-Keeps
  run_if_processed-Keeps (suc code) = pure-Keeps (suc code)

  react-Keeps :
      (comment : Option ℕ) (code : ℕ)
      → Keeps (IsTimely w args.issue) (react_if_failed lt repo w comment code)
  react-Keeps comment zero = pure-Keeps zero
  react-Keeps none (suc code) = pure-Keeps (suc code)
  react-Keeps (some zero) (suc code) = pure-Keeps (suc code)
  react-Keeps (some (suc n)) (suc code) =
      attempt-Keeps (>>=-Keeps (tell-Keeps w _ (inl refl)) (λ a. pure-Keeps (suc code)))
        (λ e. pure-Keeps (suc code))

  backports-Keeps :
      Keeps (IsTimely w args.issue) (ProcessBackports.Run.run lt repo w (backport_args args))
  unfolding ProcessBackports.Run.run
  backports-Keeps =
      >>=-Keeps
        (attempt-Keeps
          (run_internal-Keeps (local-IsTimely w args.issue) lt repo w (backport_args args)
            (λ d. edit-IsTimely w args.issue))
          (λ e. pure-Keeps 1))
        (react-Keeps none)

  calls_of_run : Keeps (IsTimely w args.issue) (run lt repo w args)
  unfolding run run_internal
  calls_of_run =
      >>=-Keeps
        (attempt-Keeps (>>=-Keeps backports-Keeps run_if_processed-Keeps) (λ e. pure-Keeps 1))
        (react-Keeps args.triggering_comment)

-- create-rc, with the processing of the backports before it, makes a tag only where GitHub has
-- answered with a body of the issue in which the release is prepared, its branch is created and no
-- backport is unfinished: each is checked and done, or unchecked and ignored.
pub run-IsTimely :
    (lt : Text → Text → Bool) (repo : Text) (w : Outside) (args : Args)
    → All (IsTimely w args.issue) (run lt repo w args []).1
run-IsTimely lt repo w args = (calls_of_run lt repo w args).keeps [] tt
