-- ===== src/Store/Read/Sets.antt =====
-- The sets of ids that a query intersects, as tests.
use stonr.Base.{String, Bool, true, List, [], ◌∷◌, ◌++◌, ◌&&◌, keep, ◌≡◌, refl, eq_iff, arith}
use stonr.Query.{has_text}
use stonr.Store.Read.{to_set, intersection, intersect_all}

-- Whether every set has the id.
unfoldable pub in_all : List (List String) → String → Bool
in_all [] id = true
in_all (set ∷ sets) id = has_text set id && in_all sets id

pub in_all-append :
    (a b : List (List String)) (id : String) → in_all (a ++ b) id ≡ (in_all a id && in_all b id)
unfolding in_all
in_all-append [] b id = refl
in_all-append (set ∷ a) b id = ground (arith, in_all-append a b id)

pub has_text-to_set : (ids : List String) (id : String) → has_text (to_set ids) id ≡ has_text ids id
unfolding to_set has_text
has_text-to_set [] id = refl
has_text-to_set (i ∷ ids) id =
    ground (arith, has_text-to_set ids i, has_text-to_set ids id, eq_iff i id)

has_text-keep :
    (p : String → Bool) (ids : List String) (id : String)
    → has_text (keep p ids) id ≡ (has_text ids id && p id)
unfolding keep has_text
has_text-keep p [] id = refl
has_text-keep p (i ∷ ids) id = ground (arith, has_text-keep p ids id, eq_iff i id)

pub has_text-intersect_all :
    (ids : List String) (sets : List (List String)) (id : String)
    → has_text (intersect_all ids sets) id ≡ in_all (ids ∷ sets) id
unfolding intersect_all in_all intersection
has_text-intersect_all ids [] id = ground arith
has_text-intersect_all ids (set ∷ sets) id = ground (
  arith,
  has_text-intersect_all (intersection ids set) sets id,
  has_text-keep (has_text set) ids id,
)
