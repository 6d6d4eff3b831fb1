-- ===== src/Session/Handlers.antt =====
-- stonr/src/ws.rs: what the session does with the frames REQ, COUNT, CLOSE and AUTH. The filters are
-- those after `Query::from_value`.
use Prim.Native.String.{◌++◌ as str_append}
use stonr.Base.{
  ℕ, String, Bool, true, false, Option, none, some, List, [], ◌∷◌, ◌++◌, ◌&&◌, map, length,
  if◌then◌else◌, Result, ok, err, panic, ◌>>=◌,
}
use stonr.Event.{Event}
use stonr.External.{External, AuthCrates}
use stonr.Nip42.{authenticate, actor_pubkey, verify_auth_event}
use stonr.Policy.{Counters, query, count, apply_query_policy, enforce_rate_limit}
use stonr.Query.{Query}
use stonr.Store.{Disk}
use stonr.Session.{
  Service, Session, Sent, event_sent, eose_sent, count_sent, closed_sent, ok_sent, nip42_enabled,
  count_enabled, query_auth_required, count_auth_required, client_actor_label, snapshot_events,
  read_refusal, refuse, rate_limited, remove_sub,
}

-- The session and the counters after a frame, and what is sent.
abbrev pub Outcome : Type 0
Outcome = Session × Counters × List Sent

-- `unwrap_or_default`
unfoldable pub or_default : Result (List Event) → Result (List Event)
or_default (ok events) = ok events
or_default (err message) = ok []
or_default panic = panic

-- The subscription is kept for live events, in place of one of the same name.
subscribe : Service → String → List Query → Session → Session
subscribe service sub filters session =
    if service.access.enable_live_subscriptions
    then record session { subs = (sub, filters) ∷ remove_sub sub session.subs }
    else session

unfoldable pub answer_req :
    Service → String → List Query → Session → Counters → List Event → Outcome
unfolding subscribe
answer_req service sub filters session counters events = (
  subscribe service sub filters session,
  counters,
  map (event_sent sub) events ++ eose_sent sub ∷ [],
)

unfoldable pub answer_count : String → Session → Counters → List Event → Outcome
answer_count sub session counters events = (session, counters, count_sent sub (length events) ∷ [])

-- The rate limit, and then the answer to the snapshot.
unfoldable pub limited_read :
    Result Counters
    → String
    → Session
    → Counters
    → Result (List Event)
    → (Counters → List Event → Outcome)
    → Result Outcome
unfolding or_default rate_limited
limited_read (ok after) sub session counters snapshot answer = do
  events ← or_default snapshot
  ok (answer after events)
limited_read (err error) sub session counters snapshot answer =
    ok (session, counters, rate_limited sub error)
limited_read panic sub session counters snapshot answer = panic

-- The refusal, if there is one, in place of the read.
unfoldable pub unless_refused :
    Option (Bool × String) → String → Session → Counters → Result Outcome → Result Outcome
unfolding refuse
unless_refused none sub session counters read = read
unless_refused (some refusal) sub session counters read =
    ok (session, counters, refuse session.auth sub refusal)

module _ ⦃x : External⦄ where
  -- The frame REQ.
  unfoldable pub handle_req :
      Service → Disk → ℕ → String → List Query → Session → Counters → Result Outcome
  unfolding read_refusal unless_refused limited_read answer_req snapshot_events client_actor_label
  handle_req service disk now sub queries session counters =
      let filters = map (apply_query_policy service.settings) queries in
      let actor = client_actor_label service.peer_ip (actor_pubkey session.auth) in
      unless_refused
        (read_refusal service.access session.auth service.access.enable_query
          (query_auth_required service.access) "read access disabled" filters)
        sub session counters
        (limited_read (enforce_rate_limit service.settings query actor now counters) sub session
          counters (snapshot_events service disk now filters)
          (λ after events. answer_req service sub filters session after events))

  -- The frame COUNT.
  unfoldable pub handle_count :
      Service → Disk → ℕ → String → List Query → Session → Counters → Result Outcome
  unfolding read_refusal unless_refused limited_read answer_count snapshot_events client_actor_label
  handle_count service disk now sub queries session counters =
      let filters = map (apply_query_policy service.settings) queries in
      let actor = client_actor_label service.peer_ip (actor_pubkey session.auth) in
      unless_refused
        (read_refusal service.access session.auth
          (service.access.enable_query && count_enabled service.access)
          (count_auth_required service.access) "count queries disabled" filters)
        sub session counters
        (limited_read (enforce_rate_limit service.settings count actor now counters) sub session
          counters (snapshot_events service disk now filters)
          (λ after events. answer_count sub session after events))

  -- The frame CLOSE.
  unfoldable pub handle_close : String → Session → Session × List Sent
  unfolding remove_sub
  handle_close sub session =
      (record session { subs = remove_sub sub session.subs }, closed_sent sub "closed" ∷ [])

  -- The frame AUTH with an event that parses.
  unfoldable pub handle_auth :
      ⦃w : AuthCrates⦄ → Service → ℕ → Event → Session → Result (Session × List Sent)
  unfolding authenticate verify_auth_event
  handle_auth service now event session =
      let checked =
        verify_auth_event event session.auth.challenge service.access.bind_ws
          service.access.auth_max_age_secs now in
      if nip42_enabled service.access
      then elim checked [
        | ok _ ↦ ok (
          record session { auth = authenticate session.auth event.pubkey },
          ok_sent event.id true "authenticated" ∷ [],
        )
        | err error ↦ ok (session, ok_sent event.id false (str_append "invalid: " error) ∷ [])
        | panic ↦ panic
      ]
      else ok (session, ok_sent event.id false "restricted: relay authentication disabled" ∷ [])
