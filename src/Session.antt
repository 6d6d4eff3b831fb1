-- ===== src/Session.antt =====
-- stonr/src/ws.rs: one client's session, its reads and its authentication. `Access` has the
-- switches of stonr/src/config.rs that this code reads.
pub mod Snapshot
pub mod Handlers
pub mod Reads
pub mod Publish
use Prim.Native.String.{◌++◌ as str_append}
use stonr.Base.{
  ℕ, String, Bool, true, false, Option, none, some, List, [], ◌∷◌, ◌++◌, ◌==◌, ◌&&◌, ◌||◌, not, any,
  map, length, leb, if◌then◌else◌, is_some, Result, ok, err, panic, ◌>>=◌, keep,
}
use stonr.Base.Sort.{sort_by}
use stonr.Event.{Event}
use stonr.External.{External, AuthCrates}
use stonr.Nip42.{SessionAuth, authenticate, is_authenticated, actor_pubkey, verify_auth_event}
use stonr.Policy.{Settings, RateLimitAction, Counters, apply_query_policy, enforce_rate_limit}
use stonr.Query.{Query, has_tag_filters, event_matches_query}
use stonr.Store.{Store, Disk}
use stonr.Store.Read.{query_with_policy}
use stonr.Store.Visibility.{event_visible}

pub record Access : Type 0 where
  pub bind_ws : String
  pub enable_query : Bool
  pub enable_publish : Bool
  pub enable_live_subscriptions : Bool
  pub enable_count : Bool
  pub enable_tag_queries : Bool
  pub enable_search : Bool
  pub enable_nip42 : Bool
  pub require_auth_for_query : Bool
  pub require_auth_for_count : Bool
  pub require_auth_for_publish : Bool
  pub auth_must_match_event_pubkey : Bool
  pub auth_max_age_secs : ℕ
  pub support_nip09 : Bool
  pub support_nip12 : Bool
  pub support_nip40 : Bool
  pub support_nip42 : Bool
  pub support_nip45 : Bool
  pub support_nip50 : Bool

abbrev pub nip42_enabled : Access → Bool
nip42_enabled a = a.enable_nip42 && a.support_nip42

abbrev pub count_enabled : Access → Bool
count_enabled a = a.enable_count && a.support_nip45

abbrev pub tag_queries_enabled : Access → Bool
tag_queries_enabled a = a.enable_tag_queries && a.support_nip12

abbrev pub search_enabled : Access → Bool
search_enabled a = a.enable_search && a.support_nip50

abbrev pub query_auth_required : Access → Bool
query_auth_required a = nip42_enabled a && a.require_auth_for_query

abbrev pub count_auth_required : Access → Bool
count_auth_required a = nip42_enabled a && a.require_auth_for_count

abbrev pub publish_auth_required : Access → Bool
publish_auth_required a =
    nip42_enabled a && (a.require_auth_for_publish || a.auth_must_match_event_pubkey)

-- The messages of the relay.
pub data Sent : Type 0 where
  challenge_sent : String → Sent
  event_sent : String → Event → Sent
  eose_sent : String → Sent
  count_sent : String → ℕ → Sent
  closed_sent : String → String → Sent
  ok_sent : String → Bool → String → Sent
  notice_sent : String → Sent

pub record Session : Type 0 where
  pub auth : SessionAuth
  pub subs : List (String × List Query)

-- What a session sees of the service: the store, the settings, and the client's address if known.
pub record Service : Type 0 where
  pub store : Store
  pub settings : Settings
  pub access : Access
  pub peer_ip : Option String

-- `client_actor_label`
unfoldable pub client_actor_label : Option String → Option String → String
client_actor_label peer_ip (some actor) = str_append "pubkey:" actor
client_actor_label none none = "local"
client_actor_label (some ip) none = str_append "ip:" ip

-- The events of one answer that are not there yet, each id once.
unfoldable pub push_unseen : List Event → List Event → List Event
push_unseen events [] = events
push_unseen events (event ∷ more) =
    let old = push_unseen events more in
    let fresh = push_unseen (events ++ event ∷ []) more in
    if any (λ seen. seen.id == event.id) events then old else fresh

-- The order of `sort_by_key(Reverse(created_at))`, which is stable.
unfoldable pub later_first : Event → Event → Bool
later_first left right = leb right.created_at left.created_at

unfoldable pub remove_sub : String → List (String × List Query) → List (String × List Query)
unfolding keep
remove_sub sub subs = keep (λ entry. not (entry.0 == sub)) subs

module _ ⦃x : External⦄ where
  unfoldable pub collect : Service → Disk → ℕ → List Event → List Query → Result (List Event)
  unfolding push_unseen
  collect service disk now events [] = ok events
  collect service disk now events (filter ∷ filters) = do
    answer ←
        query_with_policy service.store disk now filter service.access.support_nip09
          service.access.support_nip40
    collect service disk now (push_unseen events answer) filters

  unfoldable pub snapshot_events : Service → Disk → ℕ → List Query → Result (List Event)
  unfolding collect later_first sort_by
  snapshot_events service disk now filters = do
    events ← collect service disk now [] filters
    ok (sort_by later_first events)

  -- `fan_out_live_event`, for the subscriptions in the order of the map.
  unfoldable pub fan_out_live_event :
      Service → Disk → ℕ → Event → List (String × List Query) → List Sent
  unfolding event_matches_query
  fan_out_live_event service disk now event [] = []
  fan_out_live_event service disk now event ((sub, filters) ∷ subs) =
      let rest = fan_out_live_event service disk now event subs in
      if event_visible service.store disk now service.access.support_nip09
          service.access.support_nip40 event
        && any (event_matches_query event) filters
      then event_sent sub event ∷ rest
      else rest

-- What refuses a read before the rate limit: the reason, and whether the challenge is sent first.
unfoldable pub read_refusal :
    Access → SessionAuth → Bool → Bool → String → List Query → Option (Bool × String)
unfolding has_tag_filters is_authenticated
read_refusal access auth enabled auth_required off filters =
    if not enabled
    then some (false, off)
    else if auth_required && not (is_authenticated auth)
    then some (nip42_enabled access, "auth-required: relay login required")
    else if any has_tag_filters filters && not (tag_queries_enabled access)
    then some (false, "tag queries disabled")
    else if any (λ query. is_some query.search) filters && not (search_enabled access)
    then some (false, "text search disabled")
    else none

unfoldable pub refuse : SessionAuth → String → Bool × String → List Sent
refuse auth sub (asks, reason) =
    if asks
    then challenge_sent auth.challenge ∷ closed_sent sub reason ∷ []
    else closed_sent sub reason ∷ []

unfoldable pub rate_limited : String → String → List Sent
rate_limited sub error = closed_sent sub (str_append "rate-limited: " error) ∷ []
