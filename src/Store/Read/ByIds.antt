-- ===== src/Store/Read/ByIds.antt =====
-- Queries by `ids` of stonr/src/storage.rs: what they read, and when they panic.
use mathlib.Core.Path.{subst}
use stonr.Base.{
  ℕ, ◌<◌, String, Bool, true, false, Option, none, some, List, [], ◌∷◌, In, Result, ok, panic, sym,
  ◌∙◌, ◌&&◌, ◌>>=◌, >>=-eq-ok, ok-injective, ◌≡◌, refl, arith, inl, inr, ◌⊎◌,
}
use text.Mathlib.Text.{get?}
use Prim.Native.String.{◌++◌ as str_append}
use Prim.Native.String.{len, slice}
use text.Mathlib.Text.{is_char_boundary, when}
use stonr.Base.Text.Positions.{is_char_boundary-past}
use stonr.Event.{Event}
use stonr.External.{External}
use stonr.Query.{Query, has_text, event_matches_query}
use stonr.Store.{Store, Disk}
use stonr.Store.Consistent.{has_text_iff}
use stonr.Store.Index.{event_path, or_panic, slice_or_panic}
use stonr.Store.Read.{
  filter_sort_and_limit, query_candidates, candidates_of, id_sets, query_with_policy, load_events,
  load_event, to_set, intersect_all,
}
use stonr.Store.Read.Loading.{IsSliced}
use stonr.Store.Read.Sets.{has_text-to_set}
use stonr.Store.Consistent.{IsFiled, stored}
use stonr.Store.Read.Exact.{In-answer_of, In-truncate}
use stonr.Store.Read.Loading.{In-add_event}
use stonr.Store.Read.Sets.{in_all, has_text-intersect_all}

or_panic_cases :
    {A : Type 0} (o : Option A) → ((a : A) × (or_panic o ≡ ok a)) ⊎ (or_panic o ≡ panic)
unfolding or_panic
or_panic_cases none = inr refl
or_panic_cases (some a) = inl (a, refl)

event_path_parts :
    (id : String) (a b : Result String)
    → (((s : String) × (a ≡ ok s)) ⊎ (a ≡ panic))
    → (((s : String) × (b ≡ ok s)) ⊎ (b ≡ panic))
    → (let path : Result (String × String × String) = (do
      sub1 ← a
      sub2 ← b
      ok (sub1, sub2, str_append id ".json")) in
        ((p : String × String × String) × (path ≡ ok p)) ⊎ (path ≡ panic))
event_path_parts id a b (inl (s, e)) (inl (t, f)) = inl ((s, t, str_append id ".json"), rw (e, f))
event_path_parts id a b (inl (s, e)) (inr f) = inr (rw (e, f))
event_path_parts id a b (inr e) _ = inr (rw e)

-- The path of an id is made or the slice panics.
event_path_cases : (id : String) → IsSliced id ⊎ (event_path id ≡ panic)
unfolding event_path slice_or_panic
event_path_cases id =
    event_path_parts id _ _ (or_panic_cases (get? id 0 2)) (or_panic_cases (get? id 2 4))

-- A text of fewer than four bytes, or whose second or fourth byte is inside a character.
unfoldable pub IsCut : String → Type 0
IsCut id = (len id < 4) ⊎ ((is_char_boundary id 2 ≡ false) ⊎ (is_char_boundary id 4 ≡ false))

cut_parts :
    (id s t : String) (start middle end : Bool)
    → (middle ≡ false) ⊎ (end ≡ false)
    → (let path : Result (String × String × String) = (do
      sub1 ← or_panic (when (start && middle) s)
      sub2 ← or_panic (when (middle && end) t)
      ok (sub1, sub2, str_append id ".json")) in
        path ≡ panic)
unfolding or_panic
cut_parts id s t false middle end cut = refl
cut_parts id s t true false end cut = refl
cut_parts id s t true true false cut = refl
cut_parts id s t true true true (inl cut) = absurd (cc)
cut_parts id s t true true true (inr cut) = absurd (cc)

-- The path of such an id is a panic.
event_path-IsCut : (id : String) → IsCut id → event_path id ≡ panic
unfolding event_path slice_or_panic IsCut
event_path-IsCut id cut =
    cut_parts id (slice id 0 2) (slice id 2 4) (is_char_boundary id 0) (is_char_boundary id 2)
      (is_char_boundary id 4)
      (elim cut [ inl short ↦ inr (is_char_boundary-past id 4 short) | inr at ↦ at ])

-- A file that is loaded holds the event of one of the ids.
load_events-stored :
    (disk : Disk) (ids : List String) (events : List Event) (event : Event)
    → load_events disk ids ≡ ok events
    → In event events
    → (id : String) × In id ids × (stored disk id ≡ some event)
unfolding load_events load_event stored
load_events-stored disk [] events event h m =
    absurd (subst (λ l. In event l) (sym (ok-injective h)) m)
load_events-stored disk (id ∷ ids) events event h m =
    let (found, read, h1) = >>=-eq-ok (load_event disk id) _ h in
    let (more, loads, h2) = >>=-eq-ok (load_events disk ids) _ h1 in
    let (_, _, at) = >>=-eq-ok (event_path id) _ read in
    elim (In-add_event event found more (subst (λ l. In event l) (sym (ok-injective h2)) m)) [
      | inl here ↦ (id, inl refl, ok-injective at ∙ here)
      | inr later ↦
          let (other, listed, s) = load_events-stored disk ids more event loads later in
          (other, inr listed, s)
    ]

-- What is in all sets is in the first.
asked-first :
    (ids : List String) (sets : List (List String)) (id : String)
    → In id (to_set (intersect_all ids sets))
    → has_text ids id ≡ true
unfolding in_all
asked-first ids sets id m = ground (
  arith,
  (has_text_iff (to_set (intersect_all ids sets)) id).1 m,
  has_text-to_set (intersect_all ids sets) id,
  has_text-intersect_all ids sets id,
)

module _ ⦃x : External⦄ where
  by_ids-asked :
      (disk : Disk) (q : Query) (ids : List String) (event : Event) (candidates : List Event)
      → IsFiled disk
      → query_candidates disk (record q { ids = some ids }) ≡ ok candidates
      → In event candidates
      → has_text ids event.id ≡ true
  unfolding query_candidates id_sets candidates_of
  by_ids-asked disk q ids event candidates filed search m =
      let (id, listed, s) = load_events-stored disk _ candidates event search m in
      subst (λ i. has_text ids i ≡ true) (sym (filed.named id event s))
        (asked-first ids _ id listed)

  -- A stored answer to a filter of `ids`, from a store whose files are named by their events, has
  -- no event with another id, while the live test does not read the `ids`: it lets such an event
  -- through whenever the filter without `ids` does.
  pub event_matches_query-ids :
      (store : Store) (disk : Disk) (now : ℕ) (q : Query) (deletes expires : Bool)
      (ids : List String) (event : Event) {answer : List Event}
      → IsFiled disk
      → query_with_policy store disk now (record q { ids = some ids }) deletes expires ≡ ok answer
      → has_text ids event.id ≡ false
      → ¬ In event answer
        × (event_matches_query event (record q { ids = some ids })
            ≡ event_matches_query event (record q { ids = none }))
  unfolding event_matches_query query_with_policy filter_sort_and_limit
  event_matches_query-ids store disk now q deletes expires ids event filed h other = (
    λ m.
        let (candidates, search, same) =
          >>=-eq-ok (query_candidates disk (record q { ids = some ids })) _ h in
        let (listed, _) =
          In-answer_of store disk now deletes expires (record q { ids = some ids }) candidates event
            (In-truncate q.limit event _ (subst (λ l. In event l) (sym (ok-injective same)) m)) in
        let asked = by_ids-asked disk q ids event candidates filed search listed in
        absurd (ground arith),
    refl,
  )

  load_events-panic :
      (disk : Disk) (id : String) (ids : List String)
      → In id ids
      → event_path id ≡ panic
      → load_events disk ids ≡ panic
  unfolding load_events load_event
  load_events-panic disk id [] m h = absurd m
  load_events-panic disk id (i ∷ ids) (inl e) h =
      let h' : event_path i ≡ panic = subst (λ t. event_path t ≡ panic) e h in rw h'
  load_events-panic disk id (i ∷ ids) (inr m) h = elim (event_path_cases i) [
    | inl (path, fine) ↦ rw (fine, load_events-panic disk id ids m h)
    | inr bad ↦ rw bad
  ]

  -- A query by `ids` alone that names an id shorter than four bytes, or one whose second or fourth
  -- byte is inside a character, panics whatever the disk holds.
  pub query_with_policy-panic :
      (store : Store) (disk : Disk) (now : ℕ) (deletes expires : Bool) (q : Query)
      (ids : List String) (id : String)
      → In id ids
      → IsCut id
      → query_with_policy store disk now
          (record q { ids = some ids; authors = none; kinds = none; d = none; t = none; tags = [] })
          deletes
          expires
        ≡ panic
  unfolding query_with_policy query_candidates id_sets candidates_of intersect_all
  query_with_policy-panic store disk now deletes expires q ids id m h = rw (
      load_events-panic disk id (to_set ids)
        ((has_text_iff (to_set ids) id).0 (has_text-to_set ids id ∙ (has_text_iff ids id).1 m))
        (event_path-IsCut id h))
