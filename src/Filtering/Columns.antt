-- ===== src/Filtering/Columns.antt =====
-- The path of a filter, and the filters with several values.
use social_listening_backend.Text.Laws.{join-split}
use mathlib.Core.List.{reverse-append, reverse}
use social_listening_backend.Filtering.{nest, leaf, build_query, Query, nest_all}
use social_listening_backend.Text.{join, split, text_eq, Text}
use social_listening_backend.Base.{
  ◌∙◌, if◌then◌else◌, ap, refl, arith, none, [], true, ◌∷◌, ◌≡◌, some, ◌++◌, Option, List,
}

-- What stands in a query at the end of a path of properties.
unfoldable pub at_path : List Text → Query → Option Query
at_path [] q = some q
at_path (p ∷ ps) (leaf c m) = none
at_path (p ∷ ps) (nest name q) = let rest = at_path ps q in if text_eq p name then rest else none

text_eq_refl : (t : Text) → text_eq t t ≡ true
text_eq_refl [] = refl
text_eq_refl (c ∷ cs) = ground (arith, text_eq_refl cs)

nest_all-append :
    (q : Query) (ps qs : List Text) → nest_all q (ps ++ qs) ≡ nest_all (nest_all q ps) qs
unfolding nest_all
nest_all-append q [] qs = refl
nest_all-append q (p ∷ ps) qs = nest_all-append (nest p q) ps qs

-- The loop over the reversed path nests from the outside in.
pub nest_all-reverse :
    (q : Query) (p : Text) (ps : List Text)
    → nest_all q (reverse (p ∷ ps)) ≡ nest p (nest_all q (reverse ps))
nest_all-reverse q p ps =
    ap (nest_all q) (reverse-append (p ∷ []) ps)
    ∙ nest_all-append q (reverse ps) (p ∷ [])
    ∙ unfold nest_all in refl

at_path-nest_all : (q : Query) (ps : List Text) → at_path ps (nest_all q (reverse ps)) ≡ some q
unfolding at_path
at_path-nest_all q [] = unfold nest_all in refl
at_path-nest_all q (p ∷ ps) = rw (nest_all-reverse q p ps, text_eq_refl p) (at_path-nest_all q ps)

-- A condition built for a dotted path stands in the query exactly under the properties of the path,
-- and the properties joined by dots are the path again.
pub build_query-at_path :
    (props : Text) (q : Query)
    → (at_path (split b'.' props) (build_query props q) ≡ some q)
      × (join b'.' (split b'.' props) ≡ props)
unfolding build_query
build_query-at_path props q = (at_path-nest_all q (split b'.' props), join-split b'.' props)
