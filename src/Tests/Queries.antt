-- ===== src/Tests/Queries.antt =====
-- The theorems on queries at a store with a note and a reply.
use mathlib.Core.Option
use stonr.Base.{
  true, none, some, List, [], ◌∷◌, find_map, In, arith, inl, ok, panic, ◌>>=◌, ◌≡◌, refl,
}
use stonr.Crypto.{verify_event, event_hash}
use stonr.Event.{Event, event_is_expired, named_value, event_address}
use stonr.Query.{Query, has_text, event_matches_query}
use stonr.Store.Consistent.{stored}
use stonr.Store.Ingest.{ingest_with_policy}
use stonr.Store.Read.{
  query_with_policy, truncate, id_sets, load_all_events, load_events, to_set, intersect_all,
}
use stonr.Store.Read.Complete.{HasStandIn}
use stonr.Store.Read.Exact.{wanted, query_with_policy-exact}
use stonr.Store.Read.Shape.{HasShape, query_with_policy-HasShape, query_with_policy-limit}
use stonr.Store.Read.ByIds.{IsCut, query_with_policy-panic, event_matches_query-ids}
use stonr.Store.Visibility.{event_visible}
use stonr.Tests.Sample.{sample, note, reply, small_store, any_event}
use stonr.Tests.Stores.{with_both, both-IsConsistent}

abbrev by_alice : Query
by_alice = record any_event { authors = some ("alice" ∷ []) }

query_with_policy-exact_example :
    (events : List Event) × (query_with_policy small_store with_both 10 by_alice true true
      ≡ ok events)
    × ((event : Event)
        → In event events
        → (stored with_both event.id ≡ some event)
          × (wanted by_alice event ≡ true)
          × (event_visible small_store with_both 10 true true event ≡ true))
    × ((event : Event)
        → by_alice.limit ≡ none
        → stored with_both event.id ≡ some event
        → wanted by_alice event ≡ true
        → event_visible small_store with_both 10 true true event ≡ true
        → HasStandIn event events)
query_with_policy-exact_example =
    query_with_policy-exact small_store with_both 10 by_alice true true
      (λ v _ id event _ name w rest _ same. same) both-IsConsistent tt

both-answered :
    query_with_policy small_store with_both 10 any_event true true ≡ ok (reply ∷ note ∷ [])
unfolding ingest_with_policy query_with_policy event_is_expired find_map Option.bind named_value
    verify_event event_hash id_sets load_all_events event_visible event_address
both-answered = refl

query_with_policy-HasShape_example : HasShape none (reply ∷ note ∷ [])
query_with_policy-HasShape_example =
    query_with_policy-HasShape small_store with_both 10 any_event true true both-answered

query_with_policy-limit_example :
    query_with_policy small_store with_both 10 (record any_event { limit = some 1 }) true true ≡ (
      query_with_policy small_store with_both 10 any_event true true >>= λ events.
      ok (truncate (some 1) events))
query_with_policy-limit_example =
    query_with_policy-limit small_store with_both 10 (record any_event { limit = some 1 }) true true

query_with_policy-panic_example :
    query_with_policy small_store with_both 10
      (record any_event {
        ids = some ("ab" ∷ []);
        authors = none;
        kinds = none;
        d = none;
        t = none;
        tags = [];
      })
      true
      true
    ≡ panic
unfolding IsCut
query_with_policy-panic_example =
    query_with_policy-panic small_store with_both 10 true true any_event ("ab" ∷ []) "ab" (inl refl)
      (inl (omega arith))

abbrev the_reply : Query
the_reply = record any_event { ids = some ("ccdd02" ∷ []) }

reply-answered : query_with_policy small_store with_both 10 the_reply true true ≡ ok (reply ∷ [])
unfolding ingest_with_policy query_with_policy event_is_expired find_map Option.bind named_value
    verify_event event_hash id_sets load_all_events event_visible event_address load_events to_set
    intersect_all
reply-answered = refl

event_matches_query-ids_example :
    ¬ In note (reply ∷ [])
    × (event_matches_query note the_reply
        ≡ event_matches_query note (record any_event { ids = none }))
unfolding has_text
event_matches_query-ids_example =
    event_matches_query-ids small_store with_both 10 any_event true true ("ccdd02" ∷ []) note
      both-IsConsistent.filed reply-answered refl
