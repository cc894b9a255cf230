-- ===== src/Release/Tests/Checklist.antt =====
-- Runs of tools/private/release/release_issue.py on concrete inputs.
use rules_python.Base.{
  nat_eq, text_eq, true, false, some, [], ◌∷◌, ◌++◌, Text, codes, any, ok, err, value_error, ◌≡◌,
  refl, ◌⊎◌, ℕ_discrete, text_dec, arith,
}
use rules_python.Base.Dict.{Dict, get, put}
use rules_python.Text.{
  IsOneLine, lower, strip, strip_by, lstrip_by, rstrip_by, join, cut, split_lines, starts_with,
  replace, replace_from, decimal, decimal_from,
}
use rules_python.Release.Versions.{number}
use rules_python.Release.Checklist.{
  parse_metadata_line, format_metadata_line, match_pair, find_pairs, put_pairs, take_while,
}
use rules_python.Release.Checklist.ReadBack.{IsEntry, parse_metadata_line-format}
use rules_python.Release.Issue.{update_task_in_body}
use rules_python.Release.Issue.State.{number_after}
use rules_python.Release.Issue.Tasks.{
  unix, is_rc, rc_name, add_rc_task_to_body, after_last, first_index,
}
use rules_python.Release.Issue.Update.{
  entries, entries_of_result, update_entries, update_task_in_body-entries,
}
use rules_python.Release.Issue.Insertion.{Inserted, add_rc_task_to_body-Inserted}

abbrev metadata : Dict Text Text
metadata = (codes "status", codes "done") ∷ (codes "commit", codes "c0ffee") ∷ []

tag_final-IsEntry : IsEntry (codes "Tag Final") metadata
unfolding ℕ_discrete text_dec rstrip_by get
tag_final-IsEntry = record {
  trimmed = record { first = refl; last = refl };
  some_name = λ e. (cc);
  no_bar = (
    omega arith,
    (
      omega arith,
      (
        omega arith,
        (
          omega arith,
          (omega arith, (omega arith, (omega arith, (omega arith, (omega arith, tt))))),
        ),
      ),
    ),
  );
  pairs = (
    record {
      key = (refl, (refl, (refl, (refl, (refl, (refl, tt))))));
      some_key = λ e. (cc);
      value = (refl, (refl, (refl, (refl, tt))));
      some_value = λ e. (cc);
    },
    (
      record {
        key = (refl, (refl, (refl, (refl, (refl, (refl, tt))))));
        some_key = λ e. (cc);
        value = (refl, (refl, (refl, (refl, (refl, (refl, tt))))));
        some_value = λ e. (cc);
      },
      tt,
    ),
  );
  keys = (refl, (refl, tt));
}

parse_metadata_line-format_example :
    parse_metadata_line (format_metadata_line true (codes "Tag Final") metadata)
    ≡ some (record { checked = true; name = codes "Tag Final"; metadata = metadata })
parse_metadata_line-format_example =
    parse_metadata_line-format true (codes "Tag Final") metadata tag_final-IsEntry

abbrev body : Text
body =
    codes "# Release"
    ++ (10
        ∷ (codes "- [x] Tag RC0 | status=done commit= c0ffee"
            ++ (10 ∷ (codes "- [ ] tag final" ++ (10 ∷ [])))))

tag_final-IsOneLine : IsOneLine (codes "Tag Final")
unfolding ℕ_discrete
tag_final-IsOneLine = (refl, (refl, (refl, (refl, (refl, (refl, (refl, (refl, (refl, tt)))))))))

update_task_in_body-entries_example :
    entries_of_result (update_task_in_body body (codes "Tag Final") true metadata)
    ≡ update_entries
        (codes "Tag Final")
        (record { checked = true; name = codes "Tag Final"; metadata = metadata })
        (entries body)
update_task_in_body-entries_example =
    update_task_in_body-entries body (codes "Tag Final") true metadata tag_final-IsEntry
      tag_final-IsOneLine

add_rc_task_to_body-Inserted_example :
    ((add_rc_task_to_body body 1 ≡ err value_error) × (any is_rc (entries (unix body)) ≡ false))
    ⊎ ((t : Text) × (add_rc_task_to_body body 1 ≡ ok t)
        × Inserted is_rc
            (record { checked = false; name = rc_name 1; metadata = [] })
            (entries (unix body))
            (entries t))
add_rc_task_to_body-Inserted_example = add_rc_task_to_body-Inserted body 1

-- Runs.
rc_added :
    add_rc_task_to_body body 1
    ≡ ok (
        codes "# Release"
        ++ (10
            ∷ (codes "- [x] Tag RC0 | status=done commit= c0ffee"
                ++ (10 ∷ (codes "- [ ] Tag RC1" ++ (10 ∷ codes "- [ ] tag final"))))))
unfolding add_rc_task_to_body parse_metadata_line number_after after_last first_index split_lines
    join replace replace_from lower strip strip_by lstrip_by rstrip_by cut find_pairs match_pair
    put_pairs take_while starts_with put number decimal decimal_from ℕ_discrete text_dec
rc_added = refl

-- Where "Tag Final" is in the first line, its index is taken for the one of a missing line.
final_in_first_line : add_rc_task_to_body (codes "- [ ] Tag Final") 0 ≡ err value_error
unfolding add_rc_task_to_body parse_metadata_line number_after after_last first_index split_lines
    join replace replace_from lower strip strip_by lstrip_by rstrip_by cut find_pairs match_pair
    put_pairs take_while starts_with put number decimal decimal_from ℕ_discrete text_dec
final_in_first_line = refl
