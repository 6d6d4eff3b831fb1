-- ===== src/Session/Reads.antt =====
-- The frame REQ of stonr/src/ws.rs: who is sent stored events, and which.
use mathlib.Core.Path.{subst}
use stonr.Base.{
  ℕ, String, Bool, true, false, Option, none, some, List, [], ◌∷◌, ◌++◌, map, any, is_some, In,
  Result, ok, err, panic, ok-injective, ◌≡◌, refl, sym, arith, inl, inr,
}
use stonr.Event.{Event}
use stonr.External.{External}
use stonr.Nip42.{SessionAuth, is_authenticated, actor_pubkey}
use stonr.Policy.{Counters, query, apply_query_policy, enforce_rate_limit}
use stonr.Query.{Query, has_tag_filters}
use stonr.Store.{Disk}
use stonr.Session.{
  Access, Service, Session, event_sent, eose_sent, query_auth_required, tag_queries_enabled,
  search_enabled, client_actor_label, snapshot_events, read_refusal, refuse, rate_limited,
}
use stonr.Session.Handlers.{
  Outcome, or_default, limited_read, answer_req, unless_refused, handle_req,
}

-- What a read needs that is not refused.
pub record MayRead (access : Access) (auth : SessionAuth) (enabled auth_required : Bool)
    (filters : List Query) : Type 0 where
  pub enabled_then : enabled ≡ true
  pub logged_in : auth_required ≡ true → is_authenticated auth ≡ true
  pub tags_then : any has_tag_filters filters ≡ true → tag_queries_enabled access ≡ true
  pub search_then : any (λ q. is_some q.search) filters ≡ true → search_enabled access ≡ true

read_refusal-none :
    (access : Access) (auth : SessionAuth) (enabled auth_required : Bool) (off : String)
    (filters : List Query)
    → read_refusal access auth enabled auth_required off filters ≡ none
    → MayRead access auth enabled auth_required filters
unfolding read_refusal
read_refusal-none access auth enabled auth_required off filters h = record {
  enabled_then = ground arith;
  logged_in = λ on. ground arith;
  tags_then = λ on. ground arith;
  search_then = λ on. ground arith;
}

refuse-no_event :
    (auth : SessionAuth) (sub : String) (refusal : Bool × String) (name : String) (e : Event)
    → In (event_sent name e) (refuse auth sub refusal)
    → ⊥
unfolding refuse
refuse-no_event auth sub (true, reason) name e (inl same) = cc same
refuse-no_event auth sub (true, reason) name e (inr (inl same)) = cc same
refuse-no_event auth sub (true, reason) name e (inr (inr m)) = m
refuse-no_event auth sub (false, reason) name e (inl same) = cc same
refuse-no_event auth sub (false, reason) name e (inr m) = m

unless_refused-events :
    (refusal : Option (Bool × String)) (sub : String) (session : Session) (counters : Counters)
    (read : Result Outcome) (out : Outcome) (name : String) (e : Event)
    → unless_refused refusal sub session counters read ≡ ok out
    → In (event_sent name e) out.2
    → (refusal ≡ none) × (read ≡ ok out)
unfolding unless_refused
unless_refused-events none sub session counters read out name e h m = (refl, h)
unless_refused-events (some refusal) sub session counters read out name e h m = absurd (
    refuse-no_event session.auth sub refusal name e
      (subst (λ o. In (event_sent name e) o.2) (sym (ok-injective h)) m))

In-answer :
    (sub name : String) (e : Event) (events : List Event)
    → In (event_sent name e) (map (event_sent sub) events ++ eose_sent sub ∷ [])
    → (name ≡ sub) × In e events
In-answer sub name e [] (inl same) = absurd (cc same)
In-answer sub name e [] (inr m) = absurd m
In-answer sub name e (a ∷ events) (inl same) = (cc same, inl (cc same))
In-answer sub name e (a ∷ events) (inr m) =
    let (named, listed) = In-answer sub name e events m in (named, inr listed)

limited_read-events :
    (service : Service) (filters : List Query) (limit : Result Counters) (sub : String)
    (session : Session) (counters : Counters) (snapshot : Result (List Event)) (out : Outcome)
    (name : String) (e : Event)
    → limited_read limit sub session counters snapshot
        (λ after events. answer_req service sub filters session after events)
      ≡ ok out
    → In (event_sent name e) out.2
    → (name ≡ sub) × (events : List Event) × (snapshot ≡ ok events) × In e events
unfolding limited_read or_default answer_req rate_limited
limited_read-events service filters (ok after) sub session counters (ok events) out name e h m =
    let (named, listed) =
      In-answer sub name e events
        (subst (λ o. In (event_sent name e) o.2) (sym (ok-injective h)) m) in
    (named, events, refl, listed)
limited_read-events service filters (ok after) sub session counters (err message) out name e h m =
    absurd
      (In-answer sub name e [] (subst (λ o. In (event_sent name e) o.2) (sym (ok-injective h)) m)).1
limited_read-events service filters (ok after) sub session counters panic out name e h m =
    absurd (cc)
limited_read-events service filters (err error) sub session counters snapshot out name e h m =
    elim (let m' : In (event_sent name e) (rate_limited sub error) =
        subst (λ o. In (event_sent name e) o.2) (sym (ok-injective h)) m in
      m') [ inl same ↦ absurd (cc same) | inr none_yet ↦ absurd none_yet ]
limited_read-events service filters panic sub session counters snapshot out name e h m = absurd (cc)

module _ ⦃x : External⦄ where
  -- A stored event that a REQ is answered with comes under the name of its subscription and from
  -- the snapshot of its filters, capped by the query policy; and reading is then enabled, the
  -- session is authenticated if the relay asks that of readers, and tag filters and searches among
  -- the filters are enabled.
  pub handle_req-events :
      (service : Service) (disk : Disk) (now : ℕ) (sub : String) (queries : List Query)
      (session : Session) (counters : Counters) (out : Outcome) (name : String) (e : Event)
      → handle_req service disk now sub queries session counters ≡ ok out
      → In (event_sent name e) out.2
      → let filters = map (apply_query_policy service.settings) queries in
        MayRead service.access session.auth service.access.enable_query
          (query_auth_required service.access)
          filters
        × (name ≡ sub)
        × ((events : List Event) × (snapshot_events service disk now filters ≡ ok events)
            × In e events)
  unfolding handle_req
  handle_req-events service disk now sub queries session counters out name e h m =
      let filters = map (apply_query_policy service.settings) queries in
      let access = service.access in
      let required = query_auth_required access in
      let (open_to, run) =
        unless_refused-events
          (read_refusal access session.auth access.enable_query required "read access disabled"
            filters)
          sub session counters _ out name e h m in
      let (named, from, found, listed) =
        limited_read-events service filters
          (enforce_rate_limit service.settings query
            (client_actor_label service.peer_ip (actor_pubkey session.auth)) now counters)
          sub session counters (snapshot_events service disk now filters) out name e run m in
      (
        read_refusal-none access session.auth access.enable_query required "read access disabled"
            filters open_to,
        named,
        (from, found, listed),
      )
