-- ===== src/Store/Read/Exact.antt =====
-- `query_with_policy` of stonr/src/storage.rs, and the live test of stonr/src/ws.rs as its specification.
use stonr.Base.{
  ℕ, Bool, true, Option, none, some, List, [], ◌&&◌, In, In-keep, In-of_keep, In-take, keep, ok,
  ◌≡◌, arith,
}
use stonr.Base.Sort.{sort_by, sort_by-IsSorted, In-sort_by, In-of_sort_by}
use stonr.Event.{Event}
use stonr.External.{External}
use stonr.Query.{Query, event_matches_query}
use stonr.Store.{Store, Disk}
use stonr.Store.Consistent.{stored, IsConsistent}
use stonr.Store.Read.{
  passes, newest_first, first_of_address, truncate, filter_sort_and_limit, query_with_policy,
}
use stonr.Store.Read.Answers.{newest_first_total, newest_first_trans, In-first_of_address}
use stonr.Store.Read.Candidates.{HasSlicedIds, query_candidates-exact}
use stonr.Store.Read.Complete.{HasStandIn, first_of_address-complete}
use stonr.Store.Read.Matching.{id_wanted, selects, HashesApart}
use stonr.Store.Visibility.{event_visible}

module _ ⦃x : External⦄ where
  -- What a filter asks of an event: its `ids`, and the test that a live event has to pass.
  unfoldable pub wanted : Query → Event → Bool
  wanted q event = id_wanted q event && event_matches_query event q

  -- The test by the index files and the tests of the loop are together what the filter asks, and
  -- visibility.
  pub selects-passes :
      (store : Store) (disk : Disk) (now : ℕ) (deletes expires : Bool) (q : Query) (event : Event)
      → (selects q event && passes store disk now deletes expires q event)
        ≡ (wanted q event && event_visible store disk now deletes expires event)
  unfolding selects passes wanted event_matches_query
  selects-passes store disk now deletes expires q event = ground arith

  abbrev answer_of : Store → Disk → ℕ → Bool → Bool → Query → List Event → List Event
  answer_of store disk now deletes expires q events =
      first_of_address []
        (sort_by newest_first (keep (passes store disk now deletes expires q) events))

  pub In-answer_of :
      (store : Store) (disk : Disk) (now : ℕ) (deletes expires : Bool) (q : Query)
      (events : List Event) (event : Event)
      → In event (answer_of store disk now deletes expires q events)
      → In event events × (passes store disk now deletes expires q event ≡ true)
  In-answer_of store disk now deletes expires q events event m =
      In-of_keep event (passes store disk now deletes expires q) events
        (In-of_sort_by newest_first event _ (In-first_of_address event [] _ m))

  answer_of_complete :
      (store : Store) (disk : Disk) (now : ℕ) (deletes expires : Bool) (q : Query)
      (events : List Event) (event : Event)
      → In event events
      → passes store disk now deletes expires q event ≡ true
      → HasStandIn event (answer_of store disk now deletes expires q events)
  answer_of_complete store disk now deletes expires q events event m p =
      let filtered = keep (passes store disk now deletes expires q) events in
      first_of_address-complete event (sort_by newest_first filtered)
        (sort_by-IsSorted newest_first newest_first_total newest_first_trans filtered)
        (In-sort_by newest_first event filtered
          (In-keep event (passes store disk now deletes expires q) events m p))

  pub In-truncate :
      (limit : Option ℕ) (event : Event) (events : List Event)
      → In event (truncate limit events)
      → In event events
  In-truncate none event events m = m
  In-truncate (some limit) event events m = In-take event limit events m

  truncate-HasStandIn :
      (limit : Option ℕ) (event : Event) (events : List Event)
      → limit ≡ none
      → HasStandIn event events
      → HasStandIn event (truncate limit events)
  truncate-HasStandIn none event events e h = h
  truncate-HasStandIn (some limit) event events e h = absurd (cc)

  -- On a disk whose index files agree with its events a query with usable ids returns, if no value
  -- that it asks a tag for has the SHA-1 of another tag value of a stored event. Every event of the answer is stored under its id, is what the filter asks for by
  -- the test of the live subscriptions and its `ids`, and is visible. Where the query has no limit,
  -- each such event is in the answer, or an event of the same address that is not older stands
  -- for it.
  pub query_with_policy-exact :
      (store : Store) (disk : Disk) (now : ℕ) (q : Query) (deletes expires : Bool)
      → HashesApart disk q
      → IsConsistent disk
      → HasSlicedIds q.ids
      → (events : List Event) × (query_with_policy store disk now q deletes expires ≡ ok events)
        × ((event : Event)
            → In event events
            → (stored disk event.id ≡ some event)
              × (wanted q event ≡ true)
              × (event_visible store disk now deletes expires event ≡ true))
        × ((event : Event)
            → q.limit ≡ none
            → stored disk event.id ≡ some event
            → wanted q event ≡ true
            → event_visible store disk now deletes expires event ≡ true
            → HasStandIn event events)
  unfolding query_with_policy filter_sort_and_limit
  query_with_policy-exact store disk now q deletes expires apart c h =
      let (candidates, search, sound, complete) = query_candidates-exact disk c q apart h in
      let answer = answer_of store disk now deletes expires q candidates in
      (
        truncate q.limit answer,
        rw search,
        λ event m.
            let (listed, p) =
              In-answer_of store disk now deletes expires q candidates event
                (In-truncate q.limit event answer m) in
            let (s, selected) = sound event listed in
            (
              s,
              ground (arith, selects-passes store disk now deletes expires q event),
              ground (arith, selects-passes store disk now deletes expires q event),
            ),
        λ event unlimited s w v.
            let both = selects-passes store disk now deletes expires q event in
            truncate-HasStandIn q.limit event answer unlimited (
              answer_of_complete store disk now deletes expires q candidates event
                (complete event s (ground (arith, both))) (ground (arith, both))),
      )
