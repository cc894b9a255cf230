-- ===== src/Release/Issue/Update.antt =====
-- `update_task_in_body` of tools/private/release/release_issue.py, against the entries of a body.
use rules_python.Base.{
  nat_eq, text_eq, Bool, true, false, not, ◌||◌, Option, none, some, List, [], ◌∷◌, ◌++◌, Text,
  ◌==◌, if◌then◌else◌, any, map, Result, ok, err, value_error, raise_if, ◌>>◌, ◌≡◌, refl, ◌∙◌, ap,
  sym, All,
}
use rules_python.Base.Dict.{Dict}
use rules_python.Text.{
  lower, lstrip_by, split_lines, join, IsOneLine, split_lines-append, split_lines-singleton,
  split_lines-IsOneLine,
}
use rules_python.Release.Checklist.{Parsed, parse_metadata_line, format_metadata_line}
use rules_python.Release.Checklist.ReadBack.{IsEntry, parse_metadata_line-format}
use rules_python.Release.Checklist.OneLine.{format_metadata_line-IsOneLine}
use rules_python.Release.Issue.{newline, is_task, found_in, update_line, update_task_in_body}

-- The checklist entries of lines.
abbrev pub read_entry : Option Parsed → List Parsed
read_entry none = []
read_entry (some p) = p ∷ []

abbrev pub read_entries : List Text → List Parsed
read_entries [] = []
read_entries (l ∷ ls) = read_entry (parse_metadata_line l) ++ read_entries ls

-- The checklist entries of an issue's body.
abbrev pub entries : Text → List Parsed
entries body = read_entries (split_lines body)

-- What an update is to do: each entry of the task is replaced, and there must be one.
abbrev pub names_task : Text → Parsed → Bool
names_task task p = lower p.name == lower task

abbrev pub replace_entry : Text → Parsed → Parsed → Parsed
replace_entry task new p = if names_task task p then new else p

abbrev pub update_entries : Text → Parsed → List Parsed → Result (List Parsed)
update_entries task new ps = do
  raise_if (not (any (names_task task) ps)) value_error
  ok (map (replace_entry task new) ps)

abbrev pub entries_of_result : Result Text → Result (List Parsed)
entries_of_result (err e) = err e
entries_of_result (ok body) = ok (entries body)

parse-nothing : parse_metadata_line [] ≡ none
unfolding parse_metadata_line lstrip_by
parse-nothing = refl

read_entries-split : (l : Text) → IsOneLine l → read_entries (split_lines l) ≡ read_entries (l ∷ [])
unfolding split_lines
read_entries-split [] h = ap (λ o. read_entry o ++ []) (sym parse-nothing)
read_entries-split (c ∷ l) h = ap read_entries (split_lines-singleton (c ∷ l) h (λ e. (cc)))

-- Lines that are joined by newlines have the entries of the lines.
pub entries-join : (ls : List Text) → All IsOneLine ls → entries (join newline ls) ≡ read_entries ls
unfolding join split_lines
entries-join [] h = refl
entries-join (l ∷ []) h = read_entries-split l h.0
entries-join (l ∷ m ∷ ls) h =
    ap read_entries (split_lines-append l (join newline (m ∷ ls)) h.0)
    ∙ ap (λ t. read_entry (parse_metadata_line l) ++ t) (entries-join (m ∷ ls) h.1)

any-read_entry :
    (task : Text) (o : Option Parsed) (ps : List Parsed)
    → (is_task task o || any (names_task task) ps) ≡ any (names_task task) (read_entry o ++ ps)
any-read_entry task none ps = refl
any-read_entry task (some p) ps = refl

map-read_entry :
    (f : Parsed → Parsed) (o : Option Parsed) (ps : List Parsed)
    → map f (read_entry o) ++ map f ps ≡ map f (read_entry o ++ ps)
map-read_entry f none ps = refl
map-read_entry f (some p) ps = refl

found_in-entries :
    (task : Text) (ls : List Text) → found_in task ls ≡ any (names_task task) (read_entries ls)
found_in-entries task [] = refl
found_in-entries task (l ∷ ls) =
    ap (λ b. is_task task (parse_metadata_line l) || b) (found_in-entries task ls)
    ∙ any-read_entry task (parse_metadata_line l) (read_entries ls)

read_entry-choice :
    (task : Text) (checked : Bool) (metadata : Dict Text Text) (l : Text) (p : Parsed) (b : Bool)
    → IsEntry task metadata
    → parse_metadata_line l ≡ some p
    → read_entry (parse_metadata_line (if b then format_metadata_line checked task metadata else l))
      ≡ (if b then record { checked = checked; name = task; metadata = metadata } else p) ∷ []
read_entry-choice task checked metadata l p true h e =
    ap read_entry (parse_metadata_line-format checked task metadata h)
read_entry-choice task checked metadata l p false h e = ap read_entry e

read_entry-update :
    (task : Text) (checked : Bool) (metadata : Dict Text Text) (l : Text)
    → IsEntry task metadata
    → (o : Option Parsed) → parse_metadata_line l ≡ o
    → read_entry (parse_metadata_line (update_line task checked metadata l))
      ≡ map
          (replace_entry task (record { checked = checked; name = task; metadata = metadata }))
          (read_entry (parse_metadata_line l))
read_entry-update task checked metadata l h none e = rw e (ap read_entry e)
read_entry-update task checked metadata l h (some p) e =
    rw e (read_entry-choice task checked metadata l p (names_task task p) h e)

read_entries-update :
    (task : Text) (checked : Bool) (metadata : Dict Text Text) (ls : List Text)
    → IsEntry task metadata
    → read_entries (map (update_line task checked metadata) ls)
      ≡ map
          (replace_entry task (record { checked = checked; name = task; metadata = metadata }))
          (read_entries ls)
read_entries-update task checked metadata [] h = refl
read_entries-update task checked metadata (l ∷ ls) h =
    ap (λ t. t ++ read_entries (map (update_line task checked metadata) ls))
      (read_entry-update task checked metadata l h (parse_metadata_line l) refl)
    ∙ (ap
          (λ t.
            map
              (replace_entry task (record { checked = checked; name = task; metadata = metadata }))
              (read_entry (parse_metadata_line l))
            ++ t)
          (read_entries-update task checked metadata ls h)
        ∙ map-read_entry
            (replace_entry task (record { checked = checked; name = task; metadata = metadata }))
            (parse_metadata_line l) (read_entries ls))

if_either : (P : Text → Type 0) (b : Bool) (s t : Text) → P s → P t → P (if b then s else t)
if_either P true s t h g = h
if_either P false s t h g = g

updated-entries :
    (found : Bool) (update : Text → Text) (ls : List Text) (task : Text) (new : Parsed)
    → found ≡ any (names_task task) (read_entries ls)
    → entries (join newline (map update ls)) ≡ map (replace_entry task new) (read_entries ls)
    → entries_of_result (raise_if (not found) value_error >> ok (join newline (map update ls)))
      ≡ update_entries task new (read_entries ls)
updated-entries true update ls task new h g = rw (sym h) (ap ok g)
updated-entries false update ls task new h g = rw (sym h) refl

update_lines-IsOneLine :
    (task : Text) (checked : Bool) (metadata : Dict Text Text) (ls : List Text)
    → IsOneLine (format_metadata_line checked task metadata)
    → All IsOneLine ls
    → All IsOneLine (map (update_line task checked metadata) ls)
update_lines-IsOneLine task checked metadata [] h g = tt
update_lines-IsOneLine task checked metadata (l ∷ ls) h g = (
  if_either IsOneLine (is_task task (parse_metadata_line l))
      (format_metadata_line checked task metadata) l h g.0,
  update_lines-IsOneLine task checked metadata ls h g.1,
)

-- Updating a task in the body of an issue, with a name and metadata that can be written on a line,
-- does to the checklist entries of the body what the update is to do: each entry of that name,
-- whatever its case, becomes the new entry, and the others stay as they are and where they are.
-- Where no entry has the name, it raises ValueError.
pub update_task_in_body-entries :
    (body task : Text) (checked : Bool) (metadata : Dict Text Text)
    → IsEntry task metadata
    → IsOneLine task
    → entries_of_result (update_task_in_body body task checked metadata)
      ≡ update_entries task
          (record { checked = checked; name = task; metadata = metadata })
          (entries body)
unfolding update_task_in_body
update_task_in_body-entries body task checked metadata h g =
    updated-entries (found_in task (split_lines body)) (update_line task checked metadata)
      (split_lines body) task (record { checked = checked; name = task; metadata = metadata })
      (found_in-entries task (split_lines body))
      (entries-join (map (update_line task checked metadata) (split_lines body)) (
          update_lines-IsOneLine task checked metadata (split_lines body)
            (format_metadata_line-IsOneLine checked task metadata h g) (split_lines-IsOneLine body))
        ∙ read_entries-update task checked metadata (split_lines body) h)
