-- ===== src/Release/AddBackports/Edits.antt =====
-- The calls that tools/private/release/add_backports.py makes for a given issue.
use rules_python.Base.{ℕ, suc, Bool, Option, none, some, List, [], Text, Result, ok, err, refl, All}
use rules_python.Release.Action.{Call, Outside, update_issue_body, pure, ◌>>=◌}
use rules_python.Release.Action.Keeps.{
  Keeps, pure-Keeps, lift-Keeps, >>=-Keeps, attempt-Keeps, ask-Keeps, tell-Keeps,
}
use rules_python.Release.ProcessBackports.Local.{IsLocal}
use rules_python.Release.AddBackports.{new_body, put_new_body, add_resolved, resolve_all, run}

-- A call that makes no tag and changes nothing on the remotes, but for the body of the issue.
pub data EditsOnly (issue : ℕ) : Call → Type 0 where
  keeps_all : (c : Call) → IsLocal c → EditsOnly issue c
  edits_body : (body : Text) → EditsOnly issue (update_issue_body issue body)

module _ (lt : Text → Text → Bool) (is_prerelease : Text → Bool) (repo : Text) (w : Outside) where
  new_body-Keeps :
      (issue : ℕ) (prs : List ℕ)
      → Keeps (EditsOnly issue) (new_body lt is_prerelease repo w issue prs)
  new_body-Keeps issue prs =
      attempt-Keeps
        (>>=-Keeps (ask-Keeps w _ (keeps_all _ refl)) (λ body. >>=-Keeps (lift-Keeps _) (λ synced.
          >>=-Keeps (ask-Keeps w _ (keeps_all _ refl))
            (λ title. >>=-Keeps (lift-Keeps _) (λ added. pure-Keeps _)))))
        (λ e. pure-Keeps none)

  put_new_body-Keeps :
      (issue : ℕ) (body : Option Text)
      → Keeps (EditsOnly issue) (put_new_body lt is_prerelease repo w issue body)
  put_new_body-Keeps issue none = pure-Keeps 1
  put_new_body-Keeps issue (some body) =
      attempt-Keeps (>>=-Keeps (tell-Keeps w _ (edits_body body)) (λ a. pure-Keeps 0))
        (λ e. pure-Keeps 1)

  add_resolved-Keeps :
      (issue : ℕ) (prs : Result (List ℕ))
      → Keeps (EditsOnly issue) (add_resolved lt is_prerelease repo w issue prs)
  add_resolved-Keeps issue (err e) = pure-Keeps 1
  add_resolved-Keeps issue (ok prs) =
      >>=-Keeps (new_body-Keeps issue prs) (put_new_body-Keeps issue)

-- add-backports for a given issue, whose number is not 0, makes no call that tags, pushes, creates
-- an issue, comments on one, or edits any issue but the given one.
pub run-EditsOnly :
    (lt : Text → Text → Bool) (is_prerelease : Text → Bool) (repo : Text) (w : Outside) (n : ℕ)
    (prs : List Text)
    → All (EditsOnly (suc n)) (run lt is_prerelease repo w (some (suc n)) prs []).1
unfolding run ◌>>=◌ pure
run-EditsOnly lt is_prerelease repo w n prs =
    (add_resolved-Keeps lt is_prerelease repo w (suc n) (resolve_all repo prs)).keeps [] tt
