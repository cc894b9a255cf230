-- ===== src/Release/BackportTargets/ReadBack.antt =====
-- A backport issue, as tools/private/release/backport_prepare.py writes it, read back by
-- backport_create_releases.py.
use rules_python.Base.{
  nat_eq, text_eq, ℕ, true, false, not, Option, none, some, List, [], ◌∷◌, ◌++◌, Text, codes,
  Result, ok, ◌≡◌, refl, ap, ◌∙◌, sym, arith, All, All-append, all, append-nil, ℕ_discrete,
}
use rules_python.Base.Dict.{Dict, get, put}
use rules_python.Text.{is_break, lstrip_by, decimal, decimal-IsDigits, IsDigits, join, IsOneLine}
use rules_python.Release.Checklist.{parse_metadata_line}
use rules_python.Release.Checklist.OneLine.{darks-IsOneLine}
use rules_python.Release.BackportIssue.{
  TasksState, tasks_of, parse_backport_tasks, parse_backport_metadata,
}
use rules_python.Release.BackportTargets.{
  Verified, verify_line, minor_of, verified_of, verify_lines, release_lines, head_lines, issue_text,
}
use rules_python.Release.BackportTargets.Dotted.{IsMinor, IsVersion}
use rules_python.Release.BackportTargets.ReadMetadata.{IsWord, parse_backport_metadata-lines}
use rules_python.Release.BackportTargets.ReadTasks.{
  status_of, put_verify, put_track, one_line, verify_line-IsOneLine, release_line-IsOneLine,
  tasks_of-join,
}

-- The branch was tried, its name has a minor version, and the version to come has three numbers.
abbrev pub IsReady : Dict Text Verified → Text → Type 0
IsReady results branch =
    (v : Verified) × (get branch results ≡ some v) × IsMinor (minor_of branch) × IsVersion v.version

abbrev put_status : Text → Option Verified → Dict Text Text → Dict Text Text
put_status minor none d = d
put_status minor (some v) d = put minor (status_of v) d

abbrev put_pending :
    Option Verified → Dict Text (Text × Option Text) → Dict Text (Text × Option Text)
put_pending none d = d
put_pending (some v) d = put v.version (codes "pending", none) d

-- The status of each minor version, and the releases to track, in the order of the branches.
abbrev pub verified_minors : Dict Text Verified → List Text → Dict Text Text → Dict Text Text
verified_minors results [] d = d
verified_minors results (branch ∷ branches) d =
    verified_minors results branches (put_status (minor_of branch) (get branch results) d)

abbrev pub tracked_releases :
    Dict Text Verified → List Text → Dict Text (Text × Option Text) → Dict Text (Text × Option Text)
tracked_releases results [] d = d
tracked_releases results (branch ∷ branches) d =
    tracked_releases results branches (put_pending (get branch results) d)

-- Lines that are written, and what reading them does to the tasks.
record Written (r : Result (List Text)) (f : TasksState → TasksState) : Type 0 where
  lines : List Text
  written : r ≡ ok lines
  one_lines : All IsOneLine lines
  reads : (more : List Text) (s : TasksState) → tasks_of (lines ++ more) s ≡ tasks_of more (f s)

module _ (results : Dict Text Verified) where
  verify_lines-Written :
      (branches : List Text)
      → All (IsReady results) branches
      → Written
          (verify_lines results branches)
          (λ s. record s { verify = verified_minors results branches s.verify })
  verify_lines-Written [] h = record {
    lines = [];
    written = refl;
    one_lines = tt;
    reads = λ more s. refl;
  }
  verify_lines-Written (branch ∷ branches) ((v, e, m, n), h) =
      let rest = verify_lines-Written branches h in
      record {
        lines = verify_line (minor_of branch) v ∷ rest.lines;
        written = rw (verify_lines, verified_of, e, rest.written) refl;
        one_lines = (verify_line-IsOneLine (minor_of branch) v m, rest.one_lines);
        reads = λ more s.
            ap (tasks_of (rest.lines ++ more)) (put_verify (minor_of branch) v s m)
            ∙ (rest.reads more (record s { verify = put (minor_of branch) (status_of v) s.verify })
                ∙ ap
                    (λ o. tasks_of more (record s {
                      verify =
                          verified_minors results branches
                            (put_status (minor_of branch) o s.verify);
                    }))
                    (sym e));
      }

  release_lines-Written :
      (branches : List Text)
      → All (IsReady results) branches
      → Written
          (release_lines results branches)
          (λ s. record s { release = tracked_releases results branches s.release })
  release_lines-Written [] h = record {
    lines = [];
    written = refl;
    one_lines = tt;
    reads = λ more s. refl;
  }
  release_lines-Written (branch ∷ branches) ((v, e, m, n), h) =
      let rest = release_lines-Written branches h in
      record {
        lines = (codes "- [ ] Track Release " ++ v.version) ∷ rest.lines;
        written = rw (release_lines, verified_of, e, rest.written) refl;
        one_lines = (release_line-IsOneLine v.version n, rest.one_lines);
        reads = λ more s.
            ap (tasks_of (rest.lines ++ more)) (put_track v.version s n)
            ∙ (rest.reads more
                  (record s { release = put v.version (codes "pending", none) s.release })
                ∙ ap
                    (λ o. tasks_of more (record s {
                      release = tracked_releases results branches (put_pending o s.release);
                    }))
                    (sym e));
      }

abbrev nothing_read : TasksState
nothing_read = record { verify = []; release = [] }

digits-IsOneLine : (s : Text) → IsDigits s → IsOneLine s
digits-IsOneLine [] h = tt
digits-IsOneLine (c ∷ s) h = (ground arith, digits-IsOneLine s h.1)

labelled :
    (label s : Text)
    → all (λ c. not (is_break c)) label ≡ true
    → IsOneLine s
    → IsOneLine (label ++ s)
labelled label s h g = All-append (λ c. is_break c ≡ false) label s (one_line label h) g

head_lines-IsOneLine :
    (pr : ℕ) (from to : Text) → IsWord from → IsWord to → All IsOneLine (head_lines pr from to)
unfolding ℕ_discrete
head_lines-IsOneLine pr from to f g = (
  labelled (codes "* PR: #") (decimal pr) refl
      (digits-IsOneLine (decimal pr) (decimal-IsDigits pr)),
  (
    labelled (codes "* From version: ") from refl (darks-IsOneLine from f.dark),
    (
      labelled (codes "* To version: ") to refl (darks-IsOneLine to g.dark),
      (tt, (one_line (codes "## Tasks") refl, (tt, tt))),
    ),
  ),
)

-- None of the lines in front of the tasks is a task.
tasks_of-head :
    (pr : ℕ) (from to : Text) (lines : List Text)
    → tasks_of (head_lines pr from to ++ lines) nothing_read ≡ tasks_of lines nothing_read
unfolding parse_metadata_line lstrip_by ℕ_discrete
tasks_of-head pr from to lines = refl

-- For a range of two texts without white space, and branches that were tried and have a minor version
-- in their name and a next version of three numbers, the text of the backport issue is written, and
-- is read back: the metadata are the pull request and the range, and the tasks are the status of each
-- minor version, and each next version as a pending release without an issue.
pub issue_text-read :
    (pr : ℕ) (from to : Text) (results : Dict Text Verified) (branches : List Text)
    → IsWord from
    → IsWord to
    → All (IsReady results) branches
    → (body : Text) × (issue_text pr from to results branches ≡ ok body)
      × (parse_backport_metadata body
          ≡ ok (record { pr = b'#' ∷ decimal pr; from_minor = from; to_minor = to }))
      × (parse_backport_tasks body ≡ record {
        verify = verified_minors results branches [];
        release = tracked_releases results branches [];
      })
unfolding join parse_backport_tasks
issue_text-read pr from to results branches f g h =
    let v = verify_lines-Written results branches h in
    let r = release_lines-Written results branches h in
    let lines = v.lines ++ r.lines in
    (
      join (10 ∷ []) (head_lines pr from to ++ lines),
      rw (issue_text, v.written, r.written) refl,
      parse_backport_metadata-lines pr from to (join (10 ∷ []) ([] ∷ codes "## Tasks" ∷ [] ∷ lines))
          f g,
      tasks_of-join (head_lines pr from to ++ lines) nothing_read (
            All-append IsOneLine (head_lines pr from to) lines (head_lines-IsOneLine pr from to f g)
              (All-append IsOneLine v.lines r.lines v.one_lines r.one_lines))
          ∙ (tasks_of-head pr from to lines
              ∙ (v.reads r.lines nothing_read
                  ∙ (ap
                        (λ l.
                          tasks_of l
                            (record { verify = verified_minors results branches []; release = [] }))
                        (sym (append-nil r.lines))
                      ∙ r.reads [] (record {
                        verify = verified_minors results branches [];
                        release = [];
                      })))),
    )
