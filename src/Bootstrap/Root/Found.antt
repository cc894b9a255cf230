-- ===== src/Bootstrap/Root/Found.antt =====
-- What `find_runfiles_root` of python/private/stage2_bootstrap_template.py finds.
use rules_python.Base.{
  nat_eq, text_eq, ℕ, zero, suc, Bool, true, false, not, ◌&&◌, Option, none, some, [], ◌∷◌, ◌++◌,
  Text, ◌==◌, if◌then◌else◌, codes, is_empty, Result, ok, err, assertion_error, subst, diverged,
  ℕ_discrete, text_dec, ◌≡◌, refl, ◌⊎◌, inl, inr, arith,
}
use rules_python.Text.{starts_with, ends_with, ends_with-append}
use rules_python.Posix.{posix_join}
use rules_python.Bootstrap.{Files, Environ}
use rules_python.Bootstrap.Root.{
  named_dir, runfiles_part, link_target, search_root, cleared, find_runfiles_root,
}

-- The name of a runfiles directory.
abbrev pub IsRunfiles : Text → Type 0
IsRunfiles root = ends_with root (codes ".runfiles") ≡ true

ends_with-cons : (c : ℕ) (s t : Text) → ends_with s t ≡ true → ends_with (c ∷ s) t ≡ true
unfolding ends_with
ends_with-cons c s t h = ground arith

Named : Option Text → Type 0
Named o = (part : Text) → o ≡ some part → IsRunfiles part

none-Named : Named none
unfolding Named
none-Named part h = absurd (cc)

here-Named : (b : Bool) → Named (if b then some (codes ".runfiles") else none)
unfolding Named ends_with ℕ_discrete text_dec
here-Named true part h = let e : codes ".runfiles" ≡ part = cc in subst IsRunfiles e refl
here-Named false part h = absurd (cc)

unless-Named : (b : Bool) (o : Option Text) → Named o → Named (if b then none else o)
unless-Named true o f = none-Named
unless-Named false o f = f

longer-Named :
    (c : ℕ) (rest here : Option Text)
    → Named rest
    → Named here
    → Named (elim rest [ none ↦ here | some part ↦ some (c ∷ part) ])
unfolding Named
longer-Named c none here f g whole h = g whole h
longer-Named c (some part) here f g whole h =
    let e : c ∷ part ≡ whole = cc in
    subst IsRunfiles e (ends_with-cons c part (codes ".runfiles") (f part refl))

runfiles_part-Named : (s : Text) → Named (runfiles_part s)
unfolding runfiles_part
runfiles_part-Named [] = none-Named
runfiles_part-Named (c ∷ s) =
    longer-Named c (if c == 10 then none else runfiles_part s)
      (if starts_with (c ∷ s) (codes ".runfiles/") then some (codes ".runfiles") else none)
      (unless-Named (c == 10) (runfiles_part s) (runfiles_part-Named s))
      (here-Named (starts_with (c ∷ s) (codes ".runfiles/")))

-- The name of the script behind so many links.
abbrev pub behind_links : Files → ℕ → Text → Text
behind_links fs zero stub = stub
behind_links fs (suc n) stub = behind_links fs n (link_target fs stub)

-- A directory of runfiles by its name, or the AssertionError.
abbrev pub Searched : Result Text → Type 0
Searched r = ((root : Text) × (r ≡ ok root) × IsRunfiles root) ⊎ (r ≡ err assertion_error)

round-Searched :
    (is_dir is_link : Bool) (stub : Text) (part : Option Text) (rest : Result Text)
    → Named part
    → (is_link ≡ true → Searched rest)
    → Searched (
        if is_dir then ok (stub ++ codes ".runfiles") else elim part [
          | some root ↦ ok root
          | none ↦ if is_link then rest else err assertion_error
        ])
unfolding Named
round-Searched true l stub part rest f g =
    inl (stub ++ codes ".runfiles", refl, ends_with-append stub (codes ".runfiles"))
round-Searched false l stub (some root) rest f g = inl (root, refl, f root refl)
round-Searched false true stub none rest f g = g refl
round-Searched false false stub none rest f g = inr refl

search_root-Searched :
    (fs : Files) (n : ℕ) (stub : Text)
    → fs.is_link (behind_links fs n stub) ≡ false
    → Searched (search_root fs (suc n) stub)
unfolding search_root
search_root-Searched fs zero stub h =
    round-Searched (fs.is_dir (stub ++ codes ".runfiles")) (fs.is_link stub) stub
      (runfiles_part stub) (err diverged) (runfiles_part-Named stub) (λ e. absurd (cc))
search_root-Searched fs (suc n) stub h =
    round-Searched (fs.is_dir (stub ++ codes ".runfiles")) (fs.is_link stub) stub
      (runfiles_part stub) (search_root fs (suc n) (link_target fs stub)) (runfiles_part-Named stub)
      (λ e. search_root-Searched fs n (link_target fs stub) h)

abbrev pub absolute : Text → Text → Text
absolute cwd argv0 = if starts_with argv0 (codes "/") then argv0 else posix_join cwd argv0

-- The directory that the environment names has the main file in it, and the environment is as
-- before; or it is cleared, and the directory is that of the script.
abbrev pub Located : Files → Text → Environ → Result Text × Environ → Type 0
Located fs main_rel_path environ found =
    ((found ≡ (ok (named_dir environ), environ))
      × (fs.exists (posix_join (named_dir environ) main_rel_path) ≡ true)
      × (is_empty (named_dir environ) ≡ false))
    ⊎ ((found.1 ≡ cleared environ) × Searched found.0)

located :
    (b c : Bool) (fs : Files) (main : Text) (environ : Environ) (searched : Result Text)
    → is_empty (named_dir environ) ≡ b
    → fs.exists (posix_join (named_dir environ) main) ≡ c
    → Searched searched
    → Located fs main environ
        (if not b && c then (ok (named_dir environ), environ) else (searched, cleared environ))
located false true fs main environ searched f e h = inl (refl, e, f)
located false false fs main environ searched f e h = inr (refl, h)
located true c fs main environ searched f e h = inr (refl, h)

-- Where the script is a chain of at most `n` symbolic links, the search ends in n + 1 rounds. The
-- result is the directory that the environment names, with the main file in it and the environment
-- as before; or both variables are removed from the environment, and the result is a directory
-- whose name ends in `.runfiles`, or the AssertionError.
pub find_runfiles_root-Located :
    (fs : Files) (n : ℕ) (cwd argv0 main_rel_path : Text) (environ : Environ)
    → fs.is_link (behind_links fs n (absolute cwd argv0)) ≡ false
    → Located fs main_rel_path environ
        (find_runfiles_root fs (suc n) cwd argv0 main_rel_path environ)
unfolding find_runfiles_root
find_runfiles_root-Located fs n cwd argv0 main environ h =
    located (is_empty (named_dir environ)) (fs.exists (posix_join (named_dir environ) main)) fs main
      environ (search_root fs (suc n) (absolute cwd argv0)) refl refl
      (search_root-Searched fs n (absolute cwd argv0) h)
