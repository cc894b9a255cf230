-- ===== src/Bootstrap/Stage2/Started.antt =====
-- What holds when python/private/stage2_bootstrap_template.py starts the program.
use rules_python.Base.{
  text_eq, ℕ, suc, Bool, true, false, not, [], ◌∷◌, ◌++◌, Text, if◌then◌else◌, is_empty, Result, ok,
  err, ok-injective, err-ne-ok, ◌≡◌, refl, ◌∙◌, sym, ap, subst, ◌⊎◌, inl, inr, assertion_error,
  raise_if, ◌>>◌, ◌>>=◌,
}
use rules_python.Posix.{posix_join}
use rules_python.Bootstrap.{Files, Environ}
use rules_python.Bootstrap.Root.{named_dir}
use rules_python.Bootstrap.Root.Found.{
  behind_links, absolute, IsRunfiles, Located, find_runfiles_root-Located,
}
use rules_python.Bootstrap.Envvar.{set_envvar}
use rules_python.Bootstrap.Envvar.Current.{
  IsCurrent, set_envvar-IsCurrent, IsKept, set_envvar-IsKept,
}
use rules_python.Bootstrap.Stage2.{
  Template, Interpreter, Process, Launch, script_name, main_file, launch_path, launch_from, main,
  tail, prepend_path_entries,
}

is_empty-eq : (s : Text) → is_empty s ≡ true → s ≡ []
is_empty-eq [] h = refl
is_empty-eq (c ∷ s) h = absurd (cc)

module _ (fs : Files) (t : Template) (i : Interpreter) where
  -- The runfiles are those that the environment named, with the main file in them, and each variable
  -- is as it was; or they are found by the script's name, and the variables of runfiles name them or
  -- nothing.
  abbrev pub RunfilesAt : Environ → Text → Environ → Type 0
  RunfilesAt environ root new_environ =
      ((root ≡ named_dir environ)
        × (fs.exists (posix_join root t.main_path) ≡ true)
        × IsKept environ new_environ)
      ⊎ (IsRunfiles root × IsCurrent fs root new_environ)

  -- What is run is a module, or a file that is there.
  abbrev pub HasMain : Launch → Type 0
  HasMain l =
      ((t.main_path ≡ []) × (l.main_filename ≡ []))
      ⊎ ((l.main_filename ≡ main_file fs t i l.runfiles_root)
          × (fs.exists l.main_filename ≡ true)
          × (fs.can_read l.main_filename ≡ true))

  -- A launch of a process from its runfiles.
  IsLaunch : Text → Process → Launch → Type 0
  IsLaunch root p l = (l.runfiles_root ≡ root) × (l.process.environ ≡ p.environ) × HasMain l

  launch_file : Text → Process → Launch
  launch_file root p = record {
    main_filename = main_file fs t i root;
    process = record p {
      argv = main_file fs t i root ∷ tail p.argv;
      sys_path = prepend_path_entries i.safe_path root t.main_path ++ p.sys_path;
    };
    runfiles_root = root;
  }

  checked :
      (a b : Bool) (root : Text) (p : Process) (l : Launch)
      → fs.exists (main_file fs t i root) ≡ a
      → fs.can_read (main_file fs t i root) ≡ b
      → (raise_if (not a) assertion_error
          >> (raise_if (not b) assertion_error >> ok (launch_file root p)))
        ≡ ok l
      → IsLaunch root p l
  unfolding IsLaunch launch_file
  checked true true root p l e f h =
      subst (IsLaunch root p) (ok-injective h) (refl, refl, inr (refl, e, f))
  checked true false root p l e f h = absurd (err-ne-ok h)
  checked false b root p l e f h = absurd (err-ne-ok h)

  launched :
      (empty : Bool) (root : Text) (p : Process) (l : Launch)
      → is_empty t.main_path ≡ empty
      → (if empty
          then ok (record { main_filename = []; process = p; runfiles_root = root })
          else launch_path fs t i root p)
        ≡ ok l
      → IsLaunch root p l
  unfolding IsLaunch launch_file
  launched true root p l e h =
      subst (IsLaunch root p) (ok-injective h) (refl, refl, inl (is_empty-eq t.main_path e, refl))
  launched false root p l e h =
      checked (fs.exists (main_file fs t i root)) (fs.can_read (main_file fs t i root)) root p l
        refl refl h

  started :
      (environ : Environ) (p : Process) (root : Text) (new_environ : Environ) (l : Launch)
      → RunfilesAt environ root (set_envvar fs root new_environ)
      → launch_from fs t i p new_environ root ≡ ok l
      → RunfilesAt environ l.runfiles_root l.process.environ × HasMain l
  unfolding IsLaunch
  started environ p root new_environ l h g =
      let found = launched (is_empty t.main_path) root _ l refl g in
      (
        subst (λ e. RunfilesAt environ l.runfiles_root e) (sym found.1)
            (subst (λ r. RunfilesAt environ r (set_envvar fs root new_environ)) (sym found.0) h),
        found.2,
      )

  located :
      (p : Process) (l : Launch) (r : Result Text) (e : Environ)
      → Located fs t.main_path p.environ (r, e)
      → (r >>= launch_from fs t i p e) ≡ ok l
      → RunfilesAt p.environ l.runfiles_root l.process.environ × HasMain l
  located p l (err x) e h g = absurd (err-ne-ok g)
  located p l (ok root) e (inl (same, here, some_name)) g =
      let named : root ≡ named_dir p.environ = ok-injective (ap (λ f. f.0) same) in
      let old : e ≡ p.environ = ap (λ f. f.1) same in
      started p.environ p root e l
        (inl (
          named,
          ap (λ r. fs.exists (posix_join r t.main_path)) named ∙ here,
          subst (λ x. IsKept p.environ (set_envvar fs root x)) (sym old)
              (set_envvar-IsKept p.environ fs root some_name),
        ))
        g
  located p l (ok root) e (inr (clear, inl (r, same, name))) g =
      started p.environ p root e l
        (inr (
          subst IsRunfiles (sym (ok-injective same)) name,
          subst (λ x. IsCurrent fs root (set_envvar fs root x)) (sym clear)
              (set_envvar-IsCurrent fs root p.environ),
        ))
        g
  located p l (ok root) e (inr (clear, inr failed)) g = absurd (err-ne-ok (sym failed))

  main-located :
      (n : ℕ) (p : Process) (l : Launch)
      → fs.is_link (behind_links fs n (absolute i.cwd (script_name p.argv))) ≡ false
      → main fs t i (suc n) p ≡ ok l
      → RunfilesAt p.environ l.runfiles_root l.process.environ × HasMain l
  unfolding main
  main-located n p l h g =
      let found =
        find_runfiles_root-Located fs n i.cwd (script_name p.argv) t.main_path p.environ h in
      located p l _ _ found g

-- Where the script is a chain of at most `n` symbolic links, what is started is the main module, where
-- there is no main path, or a main file that is there and can be read. Its runfiles are those that
-- the environment named, with the main file in them, and then it gets every variable as it was; or
-- ones whose directory ends in `.runfiles`, and then the variables of runfiles that it is given name
-- that directory or a manifest of it that exists, or are not set: what another program left in them
-- is gone.
pub main-HasMain :
    (fs : Files) (t : Template) (i : Interpreter) (n : ℕ) (p : Process) (l : Launch)
    → fs.is_link (behind_links fs n (absolute i.cwd (script_name p.argv))) ≡ false
    → main fs t i (suc n) p ≡ ok l
    → RunfilesAt fs t i p.environ l.runfiles_root l.process.environ × HasMain fs t i l
main-HasMain fs t i n p l h g = main-located fs t i n p l h g
