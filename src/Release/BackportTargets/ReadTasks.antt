-- ===== src/Release/BackportTargets/ReadTasks.antt =====
-- The tasks of a backport issue, as tools/private/release/backport_prepare.py writes them, read back
-- by `parse_backport_tasks` of backport_create_releases.py.
use rules_python.Base.{
  nat_eq, text_eq, ℕ, Bool, true, false, not, none, List, [], ◌∷◌, ◌++◌, Text, ◌==◌, codes,
  if◌then◌else◌, ◌≡◌, ◌≢◌, refl, ap, ◌∙◌, sym, subst, arith, All, All-append, all, append-nil,
  Lacks, ℕ_discrete, text_dec,
}
use rules_python.Base.Dict.{get, put}
use rules_python.Text.{
  is_space, is_break, lower, lstrip_by, starts_with, includes, ends_with, split_lines, join,
  IsOneLine, IsTrimmed-append, split_lines-append, split_lines-singleton,
}
use rules_python.Release.Checklist.{parse_metadata_line, format_metadata_line, is_dark}
use rules_python.Release.Checklist.Pairs.{IsPair, IsAll}
use rules_python.Release.Checklist.ReadBack.{IsEntry, parse_metadata_line-format}
use rules_python.Release.Checklist.OneLine.{format_metadata_line-IsOneLine}
use rules_python.Release.BackportIssue.{
  TasksState, put_line, put_backport_task, put_release, tasks_of,
}
use rules_python.Release.BackportTargets.{Verified, verify_line}
use rules_python.Release.BackportTargets.Dotted.{
  IsMinor, IsVersion, IsDotted, minor_part-eq, version_part-eq, minor-IsDotted, version-IsDotted,
  minor_some, version_some,
}

-- `line.splitlines()` of joined lines, where an empty last line makes no difference to the tasks.
pub tasks_of-join :
    (lines : List Text) (s : TasksState)
    → All IsOneLine lines
    → tasks_of (split_lines (join (10 ∷ []) lines)) s ≡ tasks_of lines s
unfolding join split_lines parse_metadata_line lstrip_by
tasks_of-join [] s h = refl
tasks_of-join ([] ∷ []) s h = refl
tasks_of-join ((c ∷ a) ∷ []) s h =
    ap (λ l. tasks_of l s) (split_lines-singleton (c ∷ a) h.0 (λ e. (cc)))
tasks_of-join (a ∷ b ∷ lines) s h =
    ap (λ l. tasks_of l s) (split_lines-append a (join (10 ∷ []) (b ∷ lines)) h.0)
    ∙ tasks_of-join (b ∷ lines) (put_line (parse_metadata_line a) s) h.1

-- The status that is noted of a branch.
abbrev pub status_of : Verified → Text
status_of v =
    if v.success
    then codes "success"
    else if includes v.reason (codes "Changelog")
    then codes "failed-changelog"
    else codes "failed-conflict"

dotted-dark : (s : Text) → All IsDotted s → All (λ c. is_space c ≡ false) s
dotted-dark [] h = tt
dotted-dark (c ∷ s) h = (ground arith, dotted-dark s h.1)

dotted-no_bar : (s : Text) → All IsDotted s → Lacks b'|' s
dotted-no_bar [] h = tt
dotted-no_bar (c ∷ s) h = (omega arith, dotted-no_bar s h.1)

dotted-IsOneLine : (s : Text) → All IsDotted s → IsOneLine s
dotted-IsOneLine [] h = tt
dotted-IsOneLine (c ∷ s) h = (ground arith, dotted-IsOneLine s h.1)

no_bar : (s : Text) → all (λ c. not (c == b'|')) s ≡ true → Lacks b'|' s
no_bar [] h = tt
no_bar (c ∷ s) h = (ground arith, no_bar s (ground arith))

pub one_line : (s : Text) → all (λ c. not (is_break c)) s ≡ true → IsOneLine s
one_line [] h = tt
one_line (c ∷ s) h = (ground arith, one_line s (ground arith))

-- The status, for a branch that took the commit or not, and a reason with that word or not.
abbrev status_if : Bool → Bool → Text
status_if success changelog =
    if success
    then codes "success"
    else if changelog
    then codes "failed-changelog"
    else codes "failed-conflict"

all-IsAll : (p : ℕ → Bool) (s : Text) → all p s ≡ true → IsAll p s
all-IsAll p [] h = tt
all-IsAll p (c ∷ s) h = (ground arith, all-IsAll p s (ground arith))

status_if-dark : (a b : Bool) → all is_dark (status_if a b) ≡ true
unfolding ℕ_discrete
status_if-dark true b = refl
status_if-dark false true = refl
status_if-dark false false = refl

status_if-some : (a b : Bool) → status_if a b ≢ []
status_if-some true b e = absurd (cc)
status_if-some false true e = absurd (cc)
status_if-some false false e = absurd (cc)

status-IsPair : (v : Verified) → IsPair (codes "status", status_of v)
unfolding ℕ_discrete
status-IsPair v = record {
  key = (refl, (refl, (refl, (refl, (refl, (refl, tt))))));
  some_key = λ e. (cc);
  value =
      all-IsAll is_dark (status_of v)
        (status_if-dark v.success (includes v.reason (codes "Changelog")));
  some_value = status_if-some v.success (includes v.reason (codes "Changelog"));
}

module _ {m : Text} (h : All IsDotted m) (n : m ≢ []) where
  verify-IsEntry :
      (v : Verified) → IsEntry (codes "Verify apply " ++ m) ((codes "status", status_of v) ∷ [])
  unfolding ℕ_discrete get
  verify-IsEntry v = record {
    trimmed = IsTrimmed-append (codes "Verify apply ") m refl n (dotted-dark m h);
    some_name = λ e. (cc);
    no_bar =
        All-append (λ c. c ≢ b'|') (codes "Verify apply ") m (no_bar (codes "Verify apply ") refl)
          (dotted-no_bar m h);
    pairs = (status-IsPair v, tt);
    keys = (refl, tt);
  }

  release-IsEntry : IsEntry (codes "Track Release " ++ m) []
  unfolding ℕ_discrete
  release-IsEntry = record {
    trimmed = IsTrimmed-append (codes "Track Release ") m refl n (dotted-dark m h);
    some_name = λ e. (cc);
    no_bar =
        All-append (λ c. c ≢ b'|') (codes "Track Release ") m (no_bar (codes "Track Release ") refl)
          (dotted-no_bar m h);
    pairs = tt;
    keys = tt;
  }

verify_line_if-eq :
    (a b : Bool) (m : Text)
    → (if a
        then codes "- [x] Verify apply " ++ (m ++ codes " | status=success")
        else codes "- [ ] Verify apply "
          ++ (m
              ++ (codes " | status="
                  ++ (if b then codes "failed-changelog" else codes "failed-conflict"))))
      ≡ format_metadata_line a (codes "Verify apply " ++ m) ((codes "status", status_if a b) ∷ [])
unfolding format_metadata_line join ends_with ℕ_discrete text_dec
verify_line_if-eq true b m = refl
verify_line_if-eq false true m = refl
verify_line_if-eq false false m = refl

release_line-eq :
    (version : Text)
    → codes "- [ ] Track Release " ++ version
      ≡ format_metadata_line false (codes "Track Release " ++ version) []
unfolding format_metadata_line
release_line-eq version = ap (λ t. codes "- [ ] Track Release " ++ t) (sym (append-nil version))

verify_line-eq :
    (m : Text) (v : Verified)
    → verify_line m v
      ≡ format_metadata_line v.success
          (codes "Verify apply " ++ m)
          ((codes "status", status_of v) ∷ [])
verify_line-eq m v = verify_line_if-eq v.success (includes v.reason (codes "Changelog")) m

-- What a line of either kind does to the tasks that were read.
pub put_verify :
    (m : Text) (v : Verified) (s : TasksState)
    → IsMinor m
    → put_line (parse_metadata_line (verify_line m v)) s
      ≡ record s { verify = put m (status_of v) s.verify }
unfolding starts_with lower get ℕ_discrete text_dec
put_verify m v s h =
    ap (λ p. put_line p s)
      (ap parse_metadata_line (verify_line-eq m v)
        ∙ parse_metadata_line-format v.success (codes "Verify apply " ++ m)
            ((codes "status", status_of v) ∷ [])
            (verify-IsEntry (minor-IsDotted h) (minor_some h) v))
    ∙ ap
        (λ o.
          put_backport_task o
            (record {
              checked = v.success;
              name = codes "Verify apply " ++ m;
              metadata = (codes "status", status_of v) ∷ [];
            })
            s)
        (minor_part-eq h)

pub put_track :
    (version : Text) (s : TasksState)
    → IsVersion version
    → put_line (parse_metadata_line (codes "- [ ] Track Release " ++ version)) s
      ≡ record s { release = put version (codes "pending", none) s.release }
unfolding starts_with lower get ℕ_discrete text_dec
put_track version s h =
    ap (λ p. put_line p s)
      (ap parse_metadata_line (release_line-eq version)
        ∙ parse_metadata_line-format false (codes "Track Release " ++ version) []
            (release-IsEntry (version-IsDotted h) (version_some h)))
    ∙ ap
        (λ o.
          put_release o
            (record { checked = false; name = codes "Track Release " ++ version; metadata = [] }) s)
        (version_part-eq h)

pub verify_line-IsOneLine : (m : Text) (v : Verified) → IsMinor m → IsOneLine (verify_line m v)
unfolding ℕ_discrete
verify_line-IsOneLine m v h = subst IsOneLine (sym (verify_line-eq m v)) (
    format_metadata_line-IsOneLine v.success (codes "Verify apply " ++ m)
      ((codes "status", status_of v) ∷ []) (verify-IsEntry (minor-IsDotted h) (minor_some h) v)
      (All-append (λ c. is_break c ≡ false) (codes "Verify apply ") m
        (one_line (codes "Verify apply ") refl) (dotted-IsOneLine m (minor-IsDotted h))))

pub release_line-IsOneLine :
    (version : Text) → IsVersion version → IsOneLine (codes "- [ ] Track Release " ++ version)
unfolding ℕ_discrete
release_line-IsOneLine version h =
    All-append (λ c. is_break c ≡ false) (codes "- [ ] Track Release ") version
      (one_line (codes "- [ ] Track Release ") refl) (dotted-IsOneLine version (version-IsDotted h))
