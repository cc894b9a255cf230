-- ===== src/Runfiles/Mapping/Scan.antt =====
-- The lookup by groups of `_RepositoryMapping` against a scan of the prefixed mappings in order.
use rules_python.Base.{
  nat_eq, text_eq, pair_eq, ◌≡◌, refl, ◌∙◌, ◌&&◌, Option, none, some, List, [], ◌∷◌, ◌++◌,
  append_assoc, append-nil, Text, ◌==◌, if◌then◌else◌, arith,
}
use rules_python.Base.Dict.{Dict, get, get_or, get-put}
use rules_python.Text.{starts_with}
use rules_python.Runfiles.Mapping.{init, group, first_prefix, lookup}

-- The prefixed mappings of one apparent name, in order.
targets_of : Text → Dict (Text × Text) Text → List (Text × Text)
targets_of app [] = []
targets_of app (((prefix, a), target) ∷ d) =
    let rest = targets_of app d in if app == a then (prefix, target) ∷ rest else rest

get_or-group :
    (app : Text) (d : Dict (Text × Text) Text) (g : Dict Text (List (Text × Text)))
    → get_or app (group d g) [] ≡ get_or app g [] ++ targets_of app d
unfolding group targets_of
get_or-group app [] g = rw append-nil
get_or-group app (((prefix, a), target) ∷ d) g =
    get_or-group app d _
    ∙ ground (
      arith,
      get-put app a (get_or a g [] ++ (prefix, target) ∷ []) g,
      append_assoc (get_or app g []) ((prefix, target) ∷ []) (targets_of app d),
    )

-- The reference: the first prefixed mapping, in the order of the file, with the apparent name
-- and a prefix of the source.
unfoldable pub scan : Text → Text → Dict (Text × Text) Text → Option Text
scan source app [] = none
scan source app (((prefix, a), target) ∷ d) =
    if app == a && starts_with source prefix then some target else scan source app d

first_prefix-targets_of :
    (source app : Text) (d : Dict (Text × Text) Text)
    → first_prefix source (targets_of app d) ≡ scan source app d
unfolding first_prefix targets_of scan
first_prefix-targets_of source app [] = refl
first_prefix-targets_of source app (((prefix, a), target) ∷ d) =
    ground (arith, first_prefix-targets_of source app d)

-- The lookup by groups: an exact mapping of the pair wins; without one the result is that of a
-- scan of the prefixed mappings in order. With no source repository there is no result.
pub lookup-init :
    (exact prefixed : Dict (Text × Text) Text) (source app : Text)
    → (lookup (init exact prefixed) none app ≡ none)
      × (lookup (init exact prefixed) (some source) app
          ≡ elim (get (source, app) exact) [ some t ↦ some t | none ↦ scan source app prefixed ])
unfolding lookup init get
lookup-init exact prefixed source app = (
  refl,
  ground (arith, get_or-group app prefixed [], first_prefix-targets_of source app prefixed),
)
