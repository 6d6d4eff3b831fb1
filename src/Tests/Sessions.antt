-- ===== src/Tests/Sessions.antt =====
-- The theorems on sessions at a store with a note and a reply.
use mathlib.Core.Option
use stonr.Base.{
  String, true, false, none, some, List, [], ◌∷◌, map, In, inl, inr, find_map, ok, ◌≡◌, refl,
}
use stonr.Base.Sort.{IsSorted}
use stonr.Crypto.{verify_event, event_hash}
use stonr.Event.{Event, event_is_expired, named_value, event_address}
use stonr.Policy.{Settings, Counters, apply_query_policy, max_per_window, enforce_rate_limit}
use stonr.Session.{
  Access, Service, Session, event_sent, eose_sent, later_first, remove_sub, query_auth_required,
  snapshot_events,
}
use stonr.Session.Handlers.{Outcome, handle_req}
use stonr.Session.Reads.{MayRead, handle_req-events}
use stonr.Session.Snapshot.{HasDistinctIds, HasId, Answers, snapshot_events-distinct}
use stonr.Store.Ingest.{ingest_with_policy}
use stonr.Store.Read.{query_with_policy, id_sets, load_all_events}
use stonr.Store.Visibility.{event_visible}
use stonr.Tests.Sample.{sample, note, reply, small_store, any_event}
use stonr.Tests.Stores.{with_both}

abbrev access : Access
access = record {
  bind_ws = "r";
  enable_query = true;
  enable_publish = true;
  enable_live_subscriptions = true;
  enable_count = true;
  enable_tag_queries = false;
  enable_search = false;
  enable_nip42 = true;
  require_auth_for_query = true;
  require_auth_for_publish = true;
  auth_must_match_event_pubkey = true;
  require_auth_for_count = true;
  auth_max_age_secs = 60;
  support_nip09 = true;
  support_nip12 = true;
  support_nip40 = true;
  support_nip42 = true;
  support_nip45 = true;
  support_nip50 = true;
}

abbrev settings : Settings
settings = record {
  owner_pubkeys = none;
  filter_private_messages = false;
  blocked_pubkeys = none;
  allowed_pubkeys = none;
  blocked_kinds = none;
  allowed_kinds = none;
  max_event_bytes = none;
  max_event_age_secs = none;
  max_event_future_secs = none;
  max_limit = some 10;
  rate_limit_window_secs = none;
  max_queries_per_window = none;
  max_counts_per_window = none;
  max_publishes_per_window = none;
}

abbrev pub service : Service
service = record { store = small_store; settings = settings; access = access; peer_ip = some "a" }

abbrev pub reader : Session
reader = record { auth = record { challenge = "c1"; pubkeys = "bob" ∷ [] }; subs = [] }

abbrev pub counters : Counters
counters = λ key. none

snapshot-both :
    snapshot_events service with_both 10 (any_event ∷ any_event ∷ []) ≡ ok (reply ∷ note ∷ [])
unfolding snapshot_events ingest_with_policy event_is_expired find_map Option.bind named_value
    verify_event event_hash id_sets load_all_events event_visible event_address query_with_policy
snapshot-both = refl

snapshot_events-distinct_example :
    HasDistinctIds (reply ∷ note ∷ [])
    × IsSorted later_first (reply ∷ note ∷ [])
    × ((e : Event)
        → In e (reply ∷ note ∷ [])
        → Answers service with_both 10 (any_event ∷ any_event ∷ []) e)
    × ((e : Event)
        → Answers service with_both 10 (any_event ∷ any_event ∷ []) e
        → HasId e.id (reply ∷ note ∷ []))
snapshot_events-distinct_example =
    snapshot_events-distinct service with_both 10 (any_event ∷ any_event ∷ []) snapshot-both

abbrev after_req : Outcome
after_req = (
  record reader { subs = ("s", record any_event { limit = some 10 } ∷ []) ∷ [] },
  counters,
  event_sent "s" reply ∷ event_sent "s" note ∷ eose_sent "s" ∷ [],
)

both-sent : handle_req service with_both 10 "s" (any_event ∷ []) reader counters ≡ ok after_req
unfolding handle_req apply_query_policy max_per_window ingest_with_policy event_is_expired find_map
    Option.bind named_value verify_event event_hash id_sets load_all_events event_visible
    event_address enforce_rate_limit query_with_policy remove_sub
both-sent = refl

handle_req-events_example :
    MayRead access reader.auth true
      (query_auth_required access)
      (map (apply_query_policy settings) (any_event ∷ []))
    × (◌≡◌ {A = String} "s" "s")
    × ((events : List Event) × (snapshot_events service with_both 10
            (map (apply_query_policy settings) (any_event ∷ []))
          ≡ ok events)
        × In note events)
handle_req-events_example =
    handle_req-events service with_both 10 "s" (any_event ∷ []) reader counters after_req "s" note
      both-sent (inr (inl refl))
