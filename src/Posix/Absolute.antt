-- ===== src/Posix/Absolute.antt =====
-- Absolute paths of plain names under `posixpath`.
use rules_python.Base.{
  ℕ, nat_eq, text_eq, ◌≡◌, refl, ◌≢◌, ap, true, not, List, [], ◌∷◌, ◌++◌, append_assoc, append-nil,
  Text, codes, is_empty, ok, arith, Lacks, All, select, All-append,
}
use rules_python.Text.{split, split-append, split-eq_singleton, join, starts_with}
use rules_python.Posix.{
  norm_part, norm_parts, normpath, leading, or_dot, abspath, abs_parts, relative, relpath,
  posix_join,
}

-- A name of a file or directory: no slash, and neither `.`, `..` nor empty.
pub record IsName (s : Text) : Type 0 where
  pub no_slash : Lacks b'/' s
  pub not_empty : s ≢ []
  pub not_dot : s ≢ codes "."
  pub not_dots : s ≢ codes ".."

-- An absolute path of names.
abbrev pub absolute : List Text → Text
absolute [] = []
absolute (p ∷ ps) = b'/' ∷ (p ++ absolute ps)

split-absolute :
    (p : Text) (ps : List Text)
    → Lacks b'/' p
    → All IsName ps
    → split b'/' (p ++ absolute ps) ≡ p ∷ ps
split-absolute p [] h _ = rw append-nil (split-eq_singleton b'/' p h)
split-absolute p (q ∷ ps) h hs =
    rw (split-append b'/' p (q ++ absolute ps) h, split-absolute q ps hs.0.no_slash hs.1)

norm_part-name :
    (parts : List Text) (p : Text) → IsName p → norm_part true parts p ≡ parts ++ (p ∷ [])
norm_part-name parts [] h = absurd (h.not_empty refl)
norm_part-name parts (c ∷ p) h = ground (arith, h.not_dot, h.not_dots)

norm_parts-names : (parts ps : List Text) → All IsName ps → norm_parts true parts ps ≡ parts ++ ps
unfolding norm_parts
norm_parts-names parts [] h = rw append-nil
norm_parts-names parts (p ∷ ps) h =
    rw (norm_part-name parts p h.0, norm_parts-names (parts ++ (p ∷ [])) ps h.1, append_assoc)

join-absolute : (p : Text) (ps : List Text) → b'/' ∷ join (codes "/") (p ∷ ps) ≡ absolute (p ∷ ps)
unfolding join
join-absolute p [] = rw append-nil
join-absolute p (q ∷ ps) = ap (λ (t : Text). b'/' ∷ (p ++ t)) (join-absolute q ps)

leading-absolute : (c : ℕ) (s : Text) → c ≢ b'/' → leading (b'/' ∷ c ∷ s) ≡ codes "/"
unfolding leading starts_with
leading-absolute c s h = ground arith

starts_with-slash : (s : Text) → starts_with (b'/' ∷ s) (codes "/") ≡ true
unfolding starts_with
starts_with-slash s = ground arith

split-slash : (s : Text) → split b'/' (b'/' ∷ s) ≡ [] ∷ split b'/' s
split-slash s = split-append b'/' [] s tt

norm_parts-absolute :
    (p : Text) (ps : List Text)
    → All IsName (p ∷ ps)
    → norm_parts true [] (split b'/' (absolute (p ∷ ps))) ≡ p ∷ ps
unfolding norm_parts
norm_parts-absolute p ps h =
    rw (split-slash, split-absolute p ps h.0.no_slash h.1) (norm_parts-names [] (p ∷ ps) h)

-- A path of names is its own normal form.
normpath-absolute :
    (p : Text) (ps : List Text)
    → All IsName (p ∷ ps)
    → normpath (absolute (p ∷ ps)) ≡ absolute (p ∷ ps)
unfolding normpath
normpath-absolute [] ps h = absurd (h.0.not_empty refl)
normpath-absolute (c ∷ p) ps h =
    rw (starts_with-slash, leading-absolute c _ h.0.no_slash.0, norm_parts-absolute (c ∷ p) ps h)
      (ap or_dot (join-absolute (c ∷ p) ps))

select-names : (ps : List Text) → All IsName ps → select (λ x. not (is_empty x)) ps ≡ ps
select-names [] h = refl
select-names ([] ∷ ps) h = absurd (h.0.not_empty refl)
select-names ((c ∷ p) ∷ ps) h = rw (select-names ps h.1)

posix_join-absolute : (cwd s : Text) → posix_join cwd (b'/' ∷ s) ≡ b'/' ∷ s
unfolding posix_join starts_with
posix_join-absolute cwd s = ground arith

abs_parts-absolute :
    (cwd p : Text) (ps : List Text)
    → All IsName (p ∷ ps)
    → abs_parts cwd (absolute (p ∷ ps)) ≡ p ∷ ps
unfolding abs_parts abspath
abs_parts-absolute cwd p ps h =
    rw
      (
        posix_join-absolute,
        normpath-absolute p ps h,
        split-slash,
        split-absolute p ps h.0.no_slash h.1,
      )
      (select-names (p ∷ ps) h)

relative-append : (xs ys : List Text) → relative xs (xs ++ ys) ≡ ys
unfolding relative
relative-append [] ys = refl
relative-append (x ∷ xs) ys = ground (arith, relative-append xs ys)

join-not_empty :
    (c : ℕ) (p : Text) (ps : List Text)
    → ok (or_dot (join (codes "/") ((c ∷ p) ∷ ps))) ≡ ok (join (codes "/") ((c ∷ p) ∷ ps))
unfolding join
join-not_empty c p [] = refl
join-not_empty c p (q ∷ ps) = refl

pub relpath-absolute :
    (cwd r : Text) (root : List Text) (p : Text) (ps : List Text)
    → All IsName (r ∷ root)
    → All IsName (p ∷ ps)
    → relpath cwd (absolute (r ∷ root ++ p ∷ ps)) (absolute (r ∷ root))
      ≡ ok (join (codes "/") (p ∷ ps))
unfolding relpath
relpath-absolute cwd r root [] ps g h = absurd (h.0.not_empty refl)
relpath-absolute cwd r root (c ∷ p) ps g h =
    rw
      (
        abs_parts-absolute cwd r root g,
        abs_parts-absolute cwd r (root ++ ((c ∷ p) ∷ ps))
            (All-append IsName (r ∷ root) ((c ∷ p) ∷ ps) g h),
        relative-append (r ∷ root) ((c ∷ p) ∷ ps),
      )
      (join-not_empty c p ps)
