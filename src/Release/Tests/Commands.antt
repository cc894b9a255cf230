-- ===== src/Release/Tests/Commands.antt =====
-- Runs of the commands of tools/private/release with concrete answers of git and GitHub.
use rules_python.Base.{
  nat_eq, text_eq, ℕ_discrete, text_dec, ℕ, ◌≤◌, Bool, true, false, none, some, List, [], ◌∷◌, ◌++◌,
  Text, codes, ◌==◌, if◌then◌else◌, Result, ok, err, process_error, ◌≡◌, refl, All,
}
use rules_python.Release.Action.{
  Call, git, get_issue_body, get_issue_title, Outside, pure, lift, attempt, ask, tell, ◌>>=◌,
}
use rules_python.Base.Order.{sort_by}
use rules_python.Base.Dict.{put}
use rules_python.Text.{
  starts_with, ends_with, lower, strip, strip_by, lstrip_by, rstrip_by, split, split_lines, cut,
  join,
}
use rules_python.Release.Versions.{get_latest_rc_tag, number}
use rules_python.Release.Checklist.{
  parse_metadata_line, format_metadata_line, match_pair, find_pairs, put_pairs, take_while,
}
use rules_python.Release.Issue.{update_task_in_body}
use rules_python.Release.ReleaseTitle.{title_version}
use rules_python.Release.Issue.Backports.{BackportTask}
use rules_python.Release.ProcessBackports
use rules_python.Release.ProcessBackports.{Target, Sorted}
use rules_python.Release.ProcessBackports.DryRun.{MayCall, run-dry}
use rules_python.Release.ProcessBackports.Outcome.{run-returns}
use rules_python.Release.ProcessBackports.Reset.{
  checked_out_log, IsReset, cherry_pick_on_branch-IsReset,
}
use rules_python.Release.CreateRc
use rules_python.Release.CreateRc.Gate.{IsTimely, run-IsTimely}
use rules_python.Release.Promote
use rules_python.Release.Promote.Safe.{IsPromotion, run-Publishes}
use rules_python.Release.Prepare
use rules_python.Release.Prepare.ReadOnly.{ReadsOrFetches, run-IsReading}
use rules_python.Release.SyncChangelog
use rules_python.Release.SyncChangelog.Pushes.{IsSyncPush, run-PushesToSync}
use rules_python.Release.AddBackports
use rules_python.Release.AddBackports.Edits.{EditsOnly, run-EditsOnly}

-- One tag exists, its commit is that of all references, and no reference is found by `show-ref`.
abbrev git_answer : List Text → Result Text
git_answer [] = ok []
git_answer (command ∷ args) =
    if command == codes "show-ref"
    then err process_error
    else if command == codes "ls-remote"
    then ok (codes "c0ffee" ++ (9 ∷ codes "refs/tags/1.2.0-rc0"))
    else if command == codes "status"
    then ok []
    else ok (codes "c0ffee")

abbrev issue_body : Text
issue_body =
    codes "- [x] Prepare Release | status=done"
    ++ (10
        ∷ (codes "- [x] Create Release branch | status=done"
            ++ (10
                ∷ (codes "- [x] Tag RC0 | status=done"
                    ++ (10
                        ∷ (codes "- [ ] Tag Final"
                            ++ (10 ∷ (codes "## Backports" ++ (10 ∷ codes "- [ ] #12")))))))))

abbrev answer : Call → Result Text
answer (git args) = git_answer args
answer (get_issue_body issue) = ok issue_body
answer (get_issue_title issue) = ok (codes "Release 1.2.0")
answer c = ok []

abbrev answers : Outside
answers = record {
  text = λ log c. answer c;
  pull_request = λ log n. ok (
      some (record {
        state = codes "MERGED";
        is_draft = false;
        merge_commit = some (codes "c0ffee");
      }));
  issues = λ log version. ok (record { number = 7; title = codes "Release 1.2.0" } ∷ []);
}

abbrev no_order : Text → Text → Bool
no_order v w = false

abbrev released : Text → Bool
released v = false

abbrev unquoted : Text → Text
unquoted s = s

abbrev repo : Text
repo = codes "bazel-contrib/rules_python"

abbrev backport_args : ProcessBackports.Args
backport_args = record {
  issue = 7;
  remote = codes "origin";
  add = codes "#13" ∷ [];
  triggering_comment = some 5;
  dry_run = true;
}

run-dry_example :
    All (MayCall (some 5)) (ProcessBackports.Run.run no_order repo answers backport_args []).1
run-dry_example = run-dry no_order repo answers backport_args refl

run-returns_example :
    (n : ℕ) × ((ProcessBackports.Run.run no_order repo answers backport_args []).0 ≡ ok n) × (n ≤ 1)
run-returns_example = run-returns no_order repo answers backport_args []

abbrev target : Target
target = record {
  issue = 7;
  remote = codes "origin";
  dry_run = true;
  version = codes "1.2.0";
  branch = codes "release/1.2";
  rc_suffix = codes "rc1";
}

abbrev item : BackportTask
item = record {
  pr_ref = codes "#12";
  checked = false;
  status = codes "resolved";
  rc = none;
  commit = some (codes "c0ffee");
  metadata = [];
}

abbrev sorted : Sorted
sorted = record {
  shas = codes "c0ffee" ∷ [];
  items = (codes "c0ffee", item) ∷ [];
  failed = [];
  body = issue_body;
}

cherry_pick_on_branch-IsReset_example :
    IsReset no_order repo answers target
      (checked_out_log no_order repo answers target sorted.shas [])
      (ProcessBackports.Run.cherry_pick_on_branch no_order repo answers target sorted []).1
cherry_pick_on_branch-IsReset_example =
    cherry_pick_on_branch-IsReset no_order repo answers target sorted [] refl tt

abbrev rc_args : CreateRc.Args
rc_args = record { issue = 7; remote = codes "origin"; triggering_comment = none }

run-IsTimely_example : All (IsTimely answers 7) (CreateRc.run no_order repo answers rc_args []).1
run-IsTimely_example = run-IsTimely no_order repo answers rc_args

abbrev promote_args : Bool → Promote.Args
promote_args dry_run = record {
  version = none;
  issue = some 7;
  remote = codes "origin";
  dry_run = dry_run;
}

run-Publishes_example :
    IsPromotion no_order released unquoted answers
      (promote_args false)
      (Promote.run no_order released unquoted answers (promote_args false) []).1
run-Publishes_example = run-Publishes no_order released unquoted answers (promote_args false)

run-EditsOnly_example :
    All
      (EditsOnly 7)
      (AddBackports.run no_order released repo answers
        (some 7)
        (codes "#12" ∷ codes "13" ∷ [])
        []).1
run-EditsOnly_example =
    run-EditsOnly no_order released repo answers 6 (codes "#12" ∷ codes "13" ∷ [])

promoted : (Promote.run no_order released unquoted answers (promote_args false) []).0 ≡ ok 0
unfolding Promote.run pure lift attempt ask tell ◌>>=◌ title_version starts_with ends_with lower
    strip strip_by lstrip_by rstrip_by split split_lines take_while get_latest_rc_tag sort_by
    update_task_in_body parse_metadata_line cut find_pairs match_pair put_pairs put number join
    format_metadata_line ℕ_discrete text_dec
promoted = refl

abbrev prepare_args : Prepare.Args
prepare_args = record { version = some (codes "1.2.0"); issue = none; dry_run = true }

run-IsReading_example :
    All ReadsOrFetches (Prepare.run no_order released repo answers prepare_args []).1
run-IsReading_example = run-IsReading no_order released repo answers prepare_args refl

abbrev environment : SyncChangelog.Environment
environment = record { repo = repo; server_url = none; repository = []; event_issue = none }

abbrev sync_args : SyncChangelog.Args
sync_args = record { issue = some 7; remote = codes "origin"; prs = codes "#12" ∷ [] }

abbrev no_digest : Text → Text
no_digest t = codes "0123456789"

run-PushesToSync_example :
    All IsSyncPush (SyncChangelog.run environment no_digest answers sync_args []).1
run-PushesToSync_example = run-PushesToSync environment no_digest answers sync_args
