-- ===== src/Session/Publish.antt =====
-- stonr/src/ws.rs: what the session does with the frame EVENT, and `publish_event`.
pub mod Guards
use Prim.Native.String.{◌++◌ as str_append}
use stonr.Base.{
  ℕ, String, Bool, true, false, Option, none, some, List, [], ◌∷◌, ◌==◌, ◌&&◌, not, if◌then◌else◌,
  Result, ok, err, panic, fail_if, ◌>>=◌, ◌>>◌,
}
use stonr.Crypto.{event_hash}
use stonr.Event.{Event}
use stonr.External.{External}
use stonr.Nip42.{SessionAuth, is_authenticated, contains_pubkey, actor_pubkey}
use stonr.Policy.{Counters, publish, is_owner_pubkey, enforce_rate_limit}
use stonr.Policy.Described.{validate_event_with_files}
use stonr.Files.{FileSettings, FileDisk}
use stonr.Files.References.{add_event_references}
use stonr.Session.{
  Access, Service, Session, Sent, challenge_sent, ok_sent, notice_sent, nip42_enabled,
  publish_auth_required, client_actor_label,
}
use stonr.Store.{Disk}
use stonr.Store.Ingest.{ingest_with_policy}

-- The two parts of the store root that a publish writes.
pub record Root : Type 0 where
  pub disk : Disk
  pub files : FileDisk

-- After a frame: the store root, the counters, whether the event goes to the live subscriptions,
-- and what is sent.
pub record Published : Type 0 where
  pub root : Root
  pub counters : Counters
  pub announced : Bool
  pub sent : List Sent

-- Why an event is refused before the rate limit, and whether the challenge is sent first.
unfoldable pub publish_refusal : Access → SessionAuth → Event → Option (Bool × String)
unfolding is_authenticated contains_pubkey
publish_refusal access auth event =
    if publish_auth_required access && not (is_authenticated auth)
    then some (nip42_enabled access, "auth-required: relay login required")
    else if nip42_enabled access
        && (access.auth_must_match_event_pubkey && not (contains_pubkey auth event.pubkey))
    then some (
      not (is_authenticated auth),
      if is_authenticated auth
          then "restricted: authenticated pubkey does not match event pubkey"
          else "auth-required: relay login required",
    )
    else none

-- A reply that changes nothing but the counters.
abbrev pub replied : Root → Counters → List Sent → Published
replied root counters sent = record {
  root = root;
  counters = counters;
  announced = false;
  sent = sent;
}

refuse_publish : SessionAuth → Event → Bool × String → List Sent
refuse_publish auth event (asks, reason) =
    let reply = ok_sent event.id false reason ∷ [] in
    if asks then challenge_sent auth.challenge ∷ reply else reply

module _ ⦃x : External⦄ where
  -- An event that was stored has its references added and is sent to the live subscriptions.
  unfoldable pub stored_root : Event → FileDisk → Disk × Bool → Root × Bool
  unfolding add_event_references
  stored_root event files (disk, true) =
      (record { disk = disk; files = add_event_references event files }, true)
  stored_root event files (disk, false) = (record { disk = disk; files = files }, false)

  -- `publish_event`; what it gives is whether the event is sent to the live subscriptions.
  unfoldable pub publish_event : Service → FileSettings → ℕ → Event → Root → Result (Root × Bool)
  unfolding event_hash validate_event_with_files ingest_with_policy stored_root
  publish_event service file_settings now event root = do
    fail_if (not (event_hash event == event.id)) "id mismatch"
    validate_event_with_files service.settings file_settings root.files event now
    ingested ←
        ingest_with_policy service.store now event service.access.support_nip09
          service.access.support_nip40 root.disk
    ok (stored_root event root.files ingested)

  -- The reply to a publish. `publish_event` fails before it writes.
  unfoldable pub publish_reply : Event → Root → Counters → Result (Root × Bool) → Result Published
  publish_reply event root counters (ok (after, announced)) = ok (record {
    root = after;
    counters = counters;
    announced = announced;
    sent = ok_sent event.id true "stored" ∷ [];
  })
  publish_reply event root counters (err error) =
      ok (replied root counters (ok_sent event.id false (str_append "error: " error) ∷ []))
  publish_reply event root counters panic = panic

  -- The publish with its rate limit, which an owner is not held to.
  unfoldable pub limited_publish :
      Event → Root → Counters → Result Counters → Result (Root × Bool) → Result Published
  unfolding publish_reply
  limited_publish event root counters (ok after) published =
      publish_reply event root after published
  limited_publish event root counters (err error) published =
      ok (replied root counters (ok_sent event.id false (str_append "rate-limited: " error) ∷ []))
  limited_publish event root counters panic published = panic

  unfoldable pub unless_refused_publish :
      Option (Bool × String)
      → SessionAuth
      → Event
      → Root
      → Counters
      → Result Published
      → Result Published
  unfolding refuse_publish
  unless_refused_publish none auth event root counters published = published
  unless_refused_publish (some refusal) auth event root counters published =
      ok (replied root counters (refuse_publish auth event refusal))

  unfoldable pub handle_parsed :
      Service → FileSettings → ℕ → Event → Session → Root → Counters → Result Published
  unfolding publish_refusal unless_refused_publish limited_publish publish_event publish_reply
      client_actor_label is_owner_pubkey
  handle_parsed service file_settings now event session root counters =
      let actor = client_actor_label service.peer_ip (actor_pubkey session.auth) in
      let published = publish_event service file_settings now event root in
      if is_owner_pubkey service.settings event.pubkey
      then publish_reply event root counters published
      else unless_refused_publish (publish_refusal service.access session.auth event) session.auth
          event root counters
          (limited_publish event root counters
            (enforce_rate_limit service.settings publish actor now counters) published)

  -- The frame EVENT: the text under `id`, or an empty one, and the event that the payload parses to.
  unfoldable pub handle_event :
      Service
      → FileSettings
      → ℕ
      → String
      → Result Event
      → Session
      → Root
      → Counters
      → Result Published
  unfolding handle_parsed
  handle_event service file_settings now raw_id (ok event) session root counters =
      if service.access.enable_publish
      then handle_parsed service file_settings now event session root counters
      else ok (replied root counters (ok_sent raw_id false "publish disabled" ∷ []))
  handle_event service file_settings now raw_id (err error) session root counters =
      if service.access.enable_publish
      then ok
          (replied root counters (notice_sent (str_append "invalid EVENT payload: " error) ∷ []))
      else ok (replied root counters (ok_sent raw_id false "publish disabled" ∷ []))
  handle_event service file_settings now raw_id panic session root counters = panic
