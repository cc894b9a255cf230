-- ===== src/Release/Tests/Backports.antt =====
-- Runs of tools/private/release/backport_create_releases.py and backport_prepare.py.
use rules_python.Base.{
  text_dec, ℕ, Error, process_error, err, List, some, true, ◌≡◌, text_eq, nat_eq, ℕ_discrete, ◌==◌,
  if◌then◌else◌, Bool, false, none, [], ◌∷◌, ◌++◌, Text, codes, Result, ok, refl, All,
}
use rules_python.Release.Action.{Call, git, get_issue_body, create_issue, Outside}
use rules_python.Release.BackportIssue.{parse_backport_tasks}
use rules_python.Base.Dict.{Dict, get}
use rules_python.Text.{decimal, split}
use rules_python.Release.Versions.{is_digit}
use rules_python.Release.Checklist.{is_dark}
use rules_python.Release.BackportIssue.{parse_backport_metadata}
use rules_python.Release.BackportTargets.{Verified, issue_text}
use rules_python.Release.BackportTargets.Dotted.{IsNumber, two, three}
use rules_python.Release.BackportTargets.ReadMetadata.{IsWord}
use rules_python.Release.BackportTargets.ReadBack.{
  verified_minors, tracked_releases, issue_text-read,
}
use rules_python.Release.BackportPrepare
use rules_python.Release.BackportPrepare.Safe.{run-PutsIssue}
use rules_python.Release.BackportPrepare.Restored.{verify_all-restores}
use rules_python.Release.BackportReleases.{run}
use rules_python.Release.BackportReleases.Gate.{MayCall, run-MayCall}

-- The backport was verified on 1.2 and not on 1.1.
abbrev issue_body : Text
issue_body =
    codes "* PR: #12"
    ++ (10
        ∷ (codes "* From version: 1.1"
            ++ (10
                ∷ (codes "* To version: 1.2"
                    ++ (10
                        ∷ (codes "- [ ] Verify apply 1.1 | status=failed-conflict"
                            ++ (10
                                ∷ (codes "- [x] Verify apply 1.2 | status=success"
                                    ++ (10
                                        ∷ (codes "- [ ] Track Release 1.1.3"
                                            ++ (10 ∷ codes "- [ ] Track Release 1.2.1")))))))))))

abbrev answer : Call → Result Text
answer (get_issue_body issue) =
    if issue == 5 then ok issue_body else ok (codes "## Backports" ++ (10 ∷ codes "- [ ] #11"))
answer (create_issue title body) =
    ok (codes "https://github.com/bazel-contrib/rules_python/issues/9")
answer c = ok []

abbrev answers : Outside
answers = record {
  text = λ log c. answer c;
  pull_request = λ log n. ok none;
  issues = λ log version. ok [];
}

abbrev no_order : Text → Text → Bool
no_order v w = false

abbrev released : Text → Bool
released v = false

abbrev repo : Text
repo = codes "bazel-contrib/rules_python"

-- There are two release branches, and the commit conflicts.
abbrev git_answer : List Text → Result Text
git_answer [] = ok []
git_answer (command ∷ args) =
    if command == codes "branch"
    then ok (codes "  origin/release/1.2" ++ (10 ∷ codes "  origin/release/1.1"))
    else if command == codes "rev-parse"
    then ok (codes "main")
    else if command == codes "cherry-pick"
    then err process_error
    else ok []

abbrev prepare_answer : List Call → Call → Result Text
prepare_answer log (git args) = git_answer args
prepare_answer log c = ok []

abbrev prepared : Outside
prepared = record {
  text = prepare_answer;
  pull_request = λ log n. ok (
      some (record {
        state = codes "MERGED";
        is_draft = false;
        merge_commit = some (codes "c0ffee");
      }));
  issues = λ log version. ok [];
}

run-MayCall_example :
    All
      (MayCall false (parse_backport_tasks issue_body))
      (run no_order released repo answers 5 false []).1
unfolding ℕ_discrete
run-MayCall_example = run-MayCall no_order released repo answers 4 false issue_body refl

abbrev error_text : Error → Text
error_text e = codes "Command failed"

abbrev prepare_args : BackportPrepare.Args
prepare_args = record {
  issue = none;
  pr = some (codes "#12");
  from_minor = some (codes "1.1");
  to_minor = some (codes "1.2");
  remote = codes "origin";
  dry_run = false;
}

run-PutsIssue_example :
    BackportPrepare.Safe.PutsOnce repo prepare_args
      (BackportPrepare.run no_order released repo error_text prepared prepare_args []).1
run-PutsIssue_example = run-PutsIssue no_order released repo error_text prepared prepare_args

verify_all-restores_example :
    (before : List Call) × ((BackportPrepare.verify_all no_order released repo error_text prepared
        (codes "origin")
        (codes "c0ffee")
        (codes "release/1.1" ∷ codes "release/1.2" ∷ [])
        (codes "main")
        []).1
      ≡ git (codes "checkout" ∷ codes "main" ∷ []) ∷ before)
    × (BackportPrepare.Restored.is_undone before ≡ true)
verify_all-restores_example =
    verify_all-restores no_order released repo error_text prepared (codes "origin") (codes "c0ffee")
      (codes "main") (codes "release/1.1" ∷ codes "release/1.2" ∷ []) [] refl refl

-- The commit applied on 1.2, and the changelog could not be updated on 1.1.
abbrev trial : Dict Text Verified
trial =
    (
      codes "release/1.1",
      record {
        version = codes "1.1.3";
        success = false;
        reason = codes "Changelog update failed: Command failed";
      },
    )
    ∷ (
      codes "release/1.2",
      record { version = codes "1.2.1"; success = true; reason = codes "Success" },
    )
    ∷ []

digit-IsNumber : (d : ℕ) → is_digit d ≡ true → IsNumber (d ∷ [])
digit-IsNumber d h = record { digits = (h, tt); some_digit = λ e. (cc) }

minor-IsWord : (d : ℕ) → is_dark d ≡ true → IsWord (b'1' ∷ b'.' ∷ d ∷ [])
unfolding ℕ_discrete
minor-IsWord d h = record { dark = (refl, (refl, (h, tt))); some_word = λ e. (cc) }

issue_text-read_example :
    (body : Text) × (issue_text 12
        (codes "1.1")
        (codes "1.2")
        trial
        (codes "release/1.1" ∷ codes "release/1.2" ∷ [])
      ≡ ok body)
    × (parse_backport_metadata body
        ≡ ok (record { pr = b'#' ∷ decimal 12; from_minor = codes "1.1"; to_minor = codes "1.2" }))
    × (parse_backport_tasks body ≡ record {
      verify = verified_minors trial (codes "release/1.1" ∷ codes "release/1.2" ∷ []) [];
      release = tracked_releases trial (codes "release/1.1" ∷ codes "release/1.2" ∷ []) [];
    })
unfolding get split ℕ_discrete text_dec
issue_text-read_example =
    issue_text-read 12 (codes "1.1") (codes "1.2") trial
      (codes "release/1.1" ∷ codes "release/1.2" ∷ []) (minor-IsWord b'1' refl)
      (minor-IsWord b'2' refl)
      (
        (
          record {
            version = codes "1.1.3";
            success = false;
            reason = codes "Changelog update failed: Command failed";
          },
          refl,
          two (digit-IsNumber b'1' refl) (digit-IsNumber b'1' refl),
          three (digit-IsNumber b'1' refl) (digit-IsNumber b'1' refl) (digit-IsNumber b'3' refl),
        ),
        (
          (
            record { version = codes "1.2.1"; success = true; reason = codes "Success" },
            refl,
            two (digit-IsNumber b'1' refl) (digit-IsNumber b'2' refl),
            three (digit-IsNumber b'1' refl) (digit-IsNumber b'2' refl) (digit-IsNumber b'1' refl),
          ),
          tt,
        ),
      )
