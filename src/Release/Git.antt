-- ===== src/Release/Git.antt =====
-- The git client of the release tool, in tools/private/release/git.py. The output of a run is
-- already stripped by `run_cmd`; `diff`, `apply` and the queries of files have no caller here.
use rules_python.Base.{
  nat_eq, text_eq, Bool, true, false, not, Option, none, some, List, [], ◌∷◌, ◌++◌, Text, codes,
  Error, err, process_error, if◌then◌else◌, ◌==◌, is_empty, drop, select,
}
use rules_python.Text.{
  push as extend, is_space, split_lines, starts_with, ends_with, split, join, strip, includes,
}
use rules_python.Release.Action.{git, Outside, Action, ask, tell, attempt, pure, lift, ◌>>=◌, ◌>>◌}

abbrev pub flag : Bool → Text → List Text
flag b name = if b then name ∷ [] else []

abbrev pub checkout_args : Bool → Option Text → Bool → Text → List Text
checkout_args create_branch none exists ref =
    (codes "checkout" ∷ flag create_branch (codes "-b")) ++ (ref ∷ [])
checkout_args create_branch (some remote) exists ref =
    (codes "checkout" ∷ flag create_branch (codes "-b"))
    ++ (if exists then ref ∷ [] else codes "--track" ∷ (remote ++ (b'/' ∷ ref)) ∷ [])

abbrev pub push_args : Text → Text → Bool → Bool → List Text
push_args remote ref set_upstream force =
    (codes "push" ∷ flag set_upstream (codes "--set-upstream"))
    ++ (flag force (codes "--force") ++ (remote ∷ ref ∷ []))

abbrev pub refspec_args : Option Text → List Text
refspec_args none = []
refspec_args (some refspec) = refspec ∷ []

abbrev pub fetch_args : Text → Option Text → Bool → Bool → List Text
fetch_args remote refspec tags force =
    (codes "fetch" ∷ remote ∷ refspec_args refspec)
    ++ (flag tags (codes "--tags") ++ flag force (codes "--force"))

abbrev pub commit_args : Text → Bool → Bool → List Text
commit_args message amend no_edit =
    (codes "commit" ∷ flag amend (codes "--amend"))
    ++ (flag no_edit (codes "--no-edit")
        ++ (if is_empty message then [] else codes "-m" ∷ message ∷ []))

-- The name of a tag in a line of `ls-remote --tags` whose second part is `ref`.
abbrev pub tag_of_ref : Text → List Text
tag_of_ref ref =
    if starts_with ref (codes "refs/tags/")
    then (if ends_with (drop 10 ref) (codes "^{}") then [] else drop 10 ref ∷ [])
    else []

abbrev pub pieces : Text → List Text
pieces [] = [] ∷ []
pieces (c ∷ s) = let rest = pieces s in if is_space c then [] ∷ rest else extend c rest

-- `s.split()`: the parts between white space.
abbrev pub words : Text → List Text
words s = select (λ part. not (is_empty part)) (pieces s)

abbrev pub tag_of_parts : List Text → List Text
tag_of_parts [] = []
tag_of_parts (p ∷ []) = []
tag_of_parts (p ∷ ref ∷ ps) = tag_of_ref ref

abbrev pub tags_of_lines : List Text → List Text
tags_of_lines [] = []
tags_of_lines (line ∷ lines) = tag_of_parts (words line) ++ tags_of_lines lines

-- The branch in a line of `branch -r`, without the remote.
abbrev pub branch_of_parts : Text → List Text → List Text
branch_of_parts remote [] = []
branch_of_parts remote (p ∷ []) = []
branch_of_parts remote (p ∷ q ∷ ps) = if p == remote then join (codes "/") (q ∷ ps) ∷ [] else []

abbrev pub branch_of_line : Text → Text → List Text
branch_of_line remote line =
    if includes line (codes "->") then [] else branch_of_parts remote (split b'/' line)

abbrev pub branches_of_lines : Text → List Text → List Text
branches_of_lines remote [] = []
branches_of_lines remote (line ∷ lines) =
    branch_of_line remote (strip line) ++ branches_of_lines remote lines

abbrev pub is_process_error : Error → Bool
is_process_error process_error = true
is_process_error e = false

module _ (w : Outside) where
  abbrev pub run_git : List Text → Action Text
  run_git args = ask w (git args)

  abbrev pub run_quiet : List Text → Action (Unit {0})
  run_quiet args = tell w (git args)

  -- `try: ...; return True except subprocess.CalledProcessError: return False`
  abbrev pub process_failed : Error → Action Bool
  process_failed e = if is_process_error e then pure false else lift (err e)

  abbrev pub succeeds : List Text → Action Bool
  succeeds args = attempt (run_git args >> pure true) process_failed

  abbrev pub branch_exists : Text → Action Bool
  branch_exists branch =
      succeeds (codes "show-ref" ∷ codes "--verify" ∷ (codes "refs/heads/" ++ branch) ∷ [])

  abbrev pub tag_exists : Text → Action Bool
  tag_exists tag = succeeds (codes "show-ref" ∷ codes "--verify" ∷ (codes "refs/tags/" ++ tag) ∷ [])

  abbrev pub remote_branch_exists : Text → Text → Action Bool
  remote_branch_exists remote branch = succeeds (
      codes "show-ref"
      ∷ codes "--verify"
      ∷ (codes "refs/remotes/" ++ (remote ++ (b'/' ∷ branch)))
      ∷ [])

  abbrev pub is_ancestor : Text → Text → Action Bool
  is_ancestor ancestor descendant =
      succeeds (codes "merge-base" ∷ codes "--is-ancestor" ∷ ancestor ∷ descendant ∷ [])

  abbrev pub reset_hard : Text → Action (Unit {0})
  reset_hard reset_to = run_quiet (codes "reset" ∷ codes "--hard" ∷ reset_to ∷ [])

  abbrev pub checkout_plain : Text → Bool → Action (Unit {0})
  checkout_plain ref create_branch = run_quiet (checkout_args create_branch none false ref)

  -- `checkout(ref, create_branch, track_remote=remote)`
  abbrev pub checkout_tracking : Text → Bool → Text → Action (Unit {0})
  checkout_tracking ref create_branch remote =
      if is_empty remote then checkout_plain ref create_branch else (do
        exists ← branch_exists ref
        run_quiet (checkout_args create_branch (some remote) exists ref)
        if exists then reset_hard (remote ++ (b'/' ∷ ref)) else pure tt)

  abbrev pub add_modified_and_deleted : Action (Unit {0})
  add_modified_and_deleted = run_quiet (codes "add" ∷ codes "--update" ∷ [])

  abbrev pub commit : Text → Bool → Bool → Action (Unit {0})
  commit message amend no_edit = run_quiet (commit_args message amend no_edit)

  abbrev pub push : Text → Text → Bool → Bool → Action (Unit {0})
  push remote ref set_upstream force = run_quiet (push_args remote ref set_upstream force)

  abbrev pub fetch : Text → Option Text → Bool → Bool → Action (Unit {0})
  fetch remote refspec tags force = run_quiet (fetch_args remote refspec tags force)

  abbrev pub tag : Text → Text → Action (Unit {0})
  tag name ref = run_quiet (codes "tag" ∷ name ∷ ref ∷ [])

  abbrev pub cherry_pick : Text → Action (Unit {0})
  cherry_pick sha = run_quiet (codes "cherry-pick" ∷ codes "-x" ∷ sha ∷ [])

  abbrev pub cherry_pick_abort : Action (Unit {0})
  cherry_pick_abort = run_quiet (codes "cherry-pick" ∷ codes "--abort" ∷ [])

  abbrev pub status : Action Text
  status = run_git (codes "status" ∷ codes "--porcelain" ∷ [])

  abbrev pub get_commit_sha : Text → Bool → Action Text
  get_commit_sha ref short =
      run_git ((codes "rev-parse" ∷ flag short (codes "--short")) ++ (ref ∷ []))

  abbrev pub get_commit_message : Text → Action Text
  get_commit_message ref = run_git (codes "log" ∷ codes "-1" ∷ codes "--format=%B" ∷ ref ∷ [])

  abbrev pub sort_commits_chronologically : List Text → Action (List Text)
  sort_commits_chronologically shas = do
    output ←
        run_git (codes "log" ∷ codes "--no-walk" ∷ codes "--reverse" ∷ codes "--format=%H" ∷ shas)
    pure (split_lines output)

  abbrev pub get_tags : Action (List Text)
  get_tags = do output ← run_git (codes "tag" ∷ []); pure (split_lines output)

  abbrev pub get_remote_tags : Text → Action (List Text)
  get_remote_tags remote = do
    output ← run_git (codes "ls-remote" ∷ codes "--tags" ∷ remote ∷ [])
    pure (tags_of_lines (split_lines output))

  abbrev pub get_remote_branches : Text → Action (List Text)
  get_remote_branches remote = do
    output ← run_git (codes "branch" ∷ codes "-r" ∷ [])
    pure (branches_of_lines remote (split_lines output))

  abbrev pub get_current_branch : Action Text
  get_current_branch = run_git (codes "rev-parse" ∷ codes "--abbrev-ref" ∷ codes "HEAD" ∷ [])
