-- ===== src/Store/Read.antt =====
-- stonr/src/storage.rs: the query engine over the index files.
pub mod Sets
pub mod Loading
pub mod Matching
pub mod Candidates
pub mod Answers
pub mod Complete
pub mod Exact
pub mod Shape
pub mod ByIds
use mathlib.Core.Option
use text.Mathlib.Text.{◌==◌}
use stonr.Base.{
  ℕ, String, Bool, false, Option, none, some, List, [], ◌∷◌, ◌++◌, ◌&&◌, ◌||◌, not, map, keep, take,
  nat_eq, ltb, if◌then◌else◌, is_some_and, Result, ok, ◌>>=◌,
}
use stonr.Base.Sort.{sort_by}
use stonr.Base.TextOrder.{str_leb}
use stonr.Event.{Event, event_address}
use stonr.External.{External}
use stonr.Query.{Query, has_text, content_matches}
use stonr.Store.{Store, Disk, EventFile, IndexKey, by_author, by_kind, by_tag}
use stonr.Store.Index.{event_path}
use stonr.Store.Visibility.{event_visible}

-- A file of `events/`, by its id.
unfoldable pub lookup : String → List (String × EventFile) → Option EventFile
lookup id [] = none
lookup id ((name, file) ∷ files) = if name == id then some file else lookup id files

-- A set of ids is a list without repetitions.
unfoldable pub to_set : List String → List String
unfolding has_text
to_set [] = []
to_set (id ∷ ids) = let set = to_set ids in if has_text set id then set else id ∷ set

-- `load_ids` and the union over the values of a tag: every id of the files.
unfoldable pub load_ids : Disk → List IndexKey → List String
load_ids disk [] = []
load_ids disk (key ∷ keys) = disk.index key ++ load_ids disk keys

-- `a.intersection(&b)`
unfoldable pub intersection : List String → List String → List String
unfolding has_text keep
intersection a b = keep (has_text b) a

unfoldable pub intersect_all : List String → List (List String) → List String
unfolding intersection
intersect_all ids [] = ids
intersect_all ids (set ∷ sets) = intersect_all (intersection ids set) sets

-- What a filter that may be absent adds to the sets.
abbrev pub optional {ℓ} : {A : Type ℓ} → Option A → (A → List String) → List (List String)
optional none f = []
optional (some a) f = f a ∷ []

-- The body of the closure that reads the event of an id.
unfoldable pub load_event : Disk → String → Result (Option Event)
unfolding lookup
load_event disk id = do
  _ ← event_path id
  ok (Option.bind (lookup id disk.events) (λ file. file.body))

pub add_event : Option Event → List Event → List Event
add_event none events = events
add_event (some event) events = event ∷ events

unfoldable pub load_events : Disk → List String → Result (List Event)
unfolding load_event add_event
load_events disk [] = ok []
load_events disk (id ∷ ids) = do
  event ← load_event disk id
  events ← load_events disk ids
  ok (add_event event events)

-- `load_all_events`: every file that parses, in the order of the walk.
unfoldable pub load_all_events : List (String × EventFile) → List Event
unfolding add_event
load_all_events [] = []
load_all_events ((_, file) ∷ files) = add_event file.body (load_all_events files)

module _ ⦃x : External⦄ where
  -- The keys of the index files of one tag filter.
  unfoldable pub tag_keys : String → List String → List IndexKey
  tag_keys tag values = map (λ value. by_tag tag (x.sha1_hex value)) values

  -- The sets that `query_candidates` collects, in its order.
  unfoldable pub id_sets : Disk → Query → List (List String)
  unfolding tag_keys load_ids
  id_sets disk q =
      optional q.ids (λ ids. ids)
      ++ (optional q.authors (λ authors. load_ids disk (map by_author authors))
          ++ (optional q.kinds (λ kinds. load_ids disk (map by_kind kinds))
              ++ (optional q.d (λ d. load_ids disk (tag_keys "d" (d ∷ [])))
                  ++ (optional q.t (λ t. load_ids disk (tag_keys "t" (t ∷ [])))
                      ++ map (λ wanted. load_ids disk (tag_keys wanted.0 wanted.1)) q.tags))))

  candidates_of : Disk → List (List String) → Result (List Event)
  candidates_of disk [] = ok (load_all_events disk.events)
  candidates_of disk (ids ∷ sets) = load_events disk (to_set (intersect_all ids sets))

  unfoldable pub query_candidates : Disk → Query → Result (List Event)
  unfolding candidates_of
  query_candidates disk q = candidates_of disk (id_sets disk q)

  -- The tests of the loop of `filter_sort_and_limit`, an early `continue` each.
  unfoldable pub passes : Store → Disk → ℕ → Bool → Bool → Query → Event → Bool
  unfolding content_matches
  passes store disk now delete_enabled expiration_enabled q event =
      if is_some_and q.since (λ since. ltb event.created_at since)
      then false
      else if is_some_and q.until (λ until. ltb until event.created_at)
      then false
      else if is_some_and q.search (λ term. not (content_matches term event))
      then false
      else event_visible store disk now delete_enabled expiration_enabled event

-- The order of the answer, "not after": newest first, and the larger id first at one time.
unfoldable pub newest_first : Event → Event → Bool
newest_first left right =
    ltb right.created_at left.created_at
    || nat_eq right.created_at left.created_at && str_leb right.id left.id

-- `retain` with the addresses seen so far: only the first event of an address stays.
unfoldable pub first_of_address : List String → List Event → List Event
unfolding has_text
first_of_address seen [] = []
first_of_address seen (event ∷ events) = elim (event_address event) [
  | none ↦ event ∷ first_of_address seen events
  | some address ↦
      let fresh = event ∷ first_of_address (address ∷ seen) events in
      let old = first_of_address seen events in if has_text seen address then old else fresh
]

abbrev pub truncate : Option ℕ → List Event → List Event
truncate none events = events
truncate (some limit) events = take limit events

module _ ⦃x : External⦄ where
  unfoldable pub filter_sort_and_limit :
      Store → Disk → ℕ → Bool → Bool → Query → List Event → List Event
  unfolding passes keep take newest_first first_of_address sort_by
  filter_sort_and_limit store disk now delete_enabled expiration_enabled q events =
      let filtered = keep (passes store disk now delete_enabled expiration_enabled q) events in
      truncate q.limit (first_of_address [] (sort_by newest_first filtered))

  -- `query_with_policy`; `query` is this with both switches off.
  unfoldable pub query_with_policy : Store → Disk → ℕ → Query → Bool → Bool → Result (List Event)
  unfolding query_candidates filter_sort_and_limit
  query_with_policy store disk now q delete_enabled expiration_enabled = do
    events ← query_candidates disk q
    ok (filter_sort_and_limit store disk now delete_enabled expiration_enabled q events)
