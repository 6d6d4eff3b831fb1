-- ===== src/Session/Publish/Guards.antt =====
-- stonr/src/ws.rs: what holds of an event that a frame EVENT stores.
use stonr.Base.{
  ℕ, String, ◌≡◌, refl, Bool, true, false, Option, none, some, [], ◌∷◌, ◌==◌, ◌&&◌, ◌||◌, not, ◌⊎◌,
  inl, inr, Result, ok, err, panic, fail_if, >>=-eq-ok, ok-injective, test_passed, ap, sym, ◌∙◌,
  subst, Bool-cases, if-cases, eq_iff, arith,
}
use stonr.Crypto.{event_hash, verify_event}
use stonr.Event.{Event}
use stonr.External.{External}
use stonr.Nip42.{SessionAuth, is_authenticated, contains_pubkey, actor_pubkey}
use stonr.Policy.{Counters, publish, is_owner_pubkey, check_event, enforce_rate_limit}
use stonr.Policy.Described.{validate_event_with_files, validate_event_with_files-passed}
use stonr.Files.{FileSettings, FileDisk}
use stonr.Files.Metadata.{validate_metadata_event}
use stonr.Session.{
  Access, Service, Session, ok_sent, nip42_enabled, publish_auth_required, client_actor_label,
}
use stonr.Session.Publish.{
  Root, Published, replied, publish_refusal, stored_root, publish_event, publish_reply,
  limited_publish, unless_refused_publish, handle_parsed, handle_event,
}
use stonr.Store.{Disk}
use stonr.Store.Consistent.{IsConsistent, stored}
use stonr.Store.Ingest.{ingest_with_policy}
use stonr.Store.IngestResult.{ingest_with_policy-effect}

module _ ⦃x : External⦄ where
  -- What a stored event has passed, whoever its author is.
  abbrev pub IsStored : Service → Event → Root → Root → Type 0
  IsStored service event before after =
      (event_hash event ≡ event.id)
      × (stored before.disk event.id ≡ none)
      × (stored after.disk event.id ≡ some event)
      × (service.store.verify_sig ≡ true → verify_event event ≡ ok tt)

  -- What it has passed on top, unless its author is an owner.
  abbrev pub IsAllowed :
      Service → FileSettings → ℕ → Event → Session → Root → Counters → Counters → Type 0
  IsAllowed service file_settings now event session before counters spent =
      ((not (publish_auth_required service.access) || is_authenticated session.auth) ≡ true)
      × ((not (nip42_enabled service.access && service.access.auth_must_match_event_pubkey)
            || contains_pubkey session.auth event.pubkey)
          ≡ true)
      × (check_event service.settings event now ≡ ok tt)
      × (validate_metadata_event event file_settings before.files ≡ ok tt)
      × (enforce_rate_limit service.settings publish
            (client_actor_label service.peer_ip (actor_pubkey session.auth)) now counters
          ≡ ok spent)

  stored_root-true :
      (event : Event) (files : FileDisk) (ingested : Disk × Bool) (after : Root)
      → ok (stored_root event files ingested) ≡ ok (after, true)
      → (disk : Disk) × (ingested ≡ (disk, true)) × (after.disk ≡ disk)
  unfolding stored_root
  stored_root-true event files (disk, true) after h =
      (disk, refl, sym (ap (λ (p : Root × Bool). p.0.disk) (ok-injective h)))
  stored_root-true event files (disk, false) after h =
      absurd (cc (ap (λ (p : Root × Bool). p.1) (ok-injective h)))

  publish_event-IsStored :
      (service : Service) (file_settings : FileSettings) (now : ℕ) (event : Event)
      (before after : Root)
      → IsConsistent before.disk
      → publish_event service file_settings now event before ≡ ok (after, true)
      → IsStored service event before after
        × (validate_event_with_files service.settings file_settings before.files event now ≡ ok tt)
  unfolding publish_event
  publish_event-IsStored service file_settings now event before after good h =
      let (_, hashed, h1) =
        >>=-eq-ok (fail_if (not (event_hash event == event.id)) "id mismatch") _ h in
      let (_, valid, h2) =
        >>=-eq-ok (validate_event_with_files service.settings file_settings before.files event now)
          _ h1 in
      let (ingested, run, h3) =
        >>=-eq-ok
          (ingest_with_policy service.store now event service.access.support_nip09
            service.access.support_nip40 before.disk)
          _ h2 in
      let (disk, is_new, e) = stored_root-true event before.files ingested after h3 in
      let (_, files, new) =
        ingest_with_policy-effect service.store now event service.access.support_nip09
          service.access.support_nip40 before.disk disk true good (run ∙ ap ok is_new) in
      let (fresh, signed) = new refl in
      (
        (
          (eq_iff (event_hash event) event.id).0 (test_passed _ _ hashed),
          fresh,
          subst (λ d. stored d event.id ≡ some event) (sym e)
              (files event.id ∙ ground (arith, eq_iff event.id event.id)),
          signed,
        ),
        valid,
      )

  publish_reply-announced :
      (event : Event) (root : Root) (counters : Counters) (published : Result (Root × Bool))
      (result : Published)
      → publish_reply event root counters published ≡ ok result
      → result.announced ≡ true
      → (published ≡ ok (result.root, true)) × (counters ≡ result.counters)
  unfolding publish_reply
  publish_reply-announced event root counters (ok (after, announced)) result h a = ground arith
  publish_reply-announced event root counters (err error) result h a = ground arith
  publish_reply-announced event root counters panic result h a = cc

  limited_publish-announced :
      (event : Event) (root : Root) (counters : Counters) (spent : Result Counters)
      (published : Result (Root × Bool)) (result : Published)
      → limited_publish event root counters spent published ≡ ok result
      → result.announced ≡ true
      → (published ≡ ok (result.root, true)) × (spent ≡ ok result.counters)
  unfolding limited_publish
  limited_publish-announced event root counters (ok after) published result h a =
      let (p, c) = publish_reply-announced event root after published result h a in (p, ap ok c)
  limited_publish-announced event root counters (err error) published result h a = ground arith
  limited_publish-announced event root counters panic published result h a = cc

  unless_refused-announced :
      (refusal : Option (Bool × String)) (auth : SessionAuth) (event : Event) (root : Root)
      (counters : Counters) (published : Result Published) (result : Published)
      → unless_refused_publish refusal auth event root counters published ≡ ok result
      → result.announced ≡ true
      → (refusal ≡ none) × (published ≡ ok result)
  unfolding unless_refused_publish
  unless_refused-announced none auth event root counters published result h a = (refl, h)
  unless_refused-announced (some refusal) auth event root counters published result h a =
      ground arith

  publish_refusal-none :
      (access : Access) (auth : SessionAuth) (event : Event)
      → publish_refusal access auth event ≡ none
      → ((not (publish_auth_required access) || is_authenticated auth) ≡ true)
        × ((not (nip42_enabled access && access.auth_must_match_event_pubkey)
              || contains_pubkey auth event.pubkey)
            ≡ true)
  unfolding publish_refusal
  publish_refusal-none access auth event h = ground arith

  handle_parsed-announced :
      (service : Service) (file_settings : FileSettings) (now : ℕ) (event : Event)
      (session : Session) (before : Root) (counters : Counters) (result : Published)
      → IsConsistent before.disk
      → handle_parsed service file_settings now event session before counters ≡ ok result
      → result.announced ≡ true
      → IsStored service event before result.root
        × ((is_owner_pubkey service.settings event.pubkey ≡ true)
            ⊎ IsAllowed service file_settings now event session before counters result.counters)
  unfolding handle_parsed
  handle_parsed-announced service file_settings now event session before counters result good h a =
      let actor = client_actor_label service.peer_ip (actor_pubkey session.auth) in
      let published = publish_event service file_settings now event before in
      let spent = enforce_rate_limit service.settings publish actor now counters in
      let refusal = publish_refusal service.access session.auth event in
      let guarded =
        unless_refused_publish refusal session.auth event before counters
          (limited_publish event before counters spent published) in
      elim (if-cases (is_owner_pubkey service.settings event.pubkey)
        (publish_reply event before counters published) guarded (ok result) h) [
          | inl (owner, h') ↦
              let (run, _) = publish_reply-announced event before counters published result h' a in
              (
                (publish_event-IsStored service file_settings now event before result.root good
                    run).0,
                inl owner,
              )
          | inr (stranger, h') ↦
              let (free, limited) =
                unless_refused-announced refusal session.auth event before counters
                  (limited_publish event before counters spent published) result h' a in
              let (run, paid) =
                limited_publish-announced event before counters spent published result limited a in
              let (is_stored, valid) =
                publish_event-IsStored service file_settings now event before result.root good
                  run in
              let (logged_in, matches) =
                publish_refusal-none service.access session.auth event free in
              (
                is_stored,
                elim (validate_event_with_files-passed service.settings file_settings before.files
                    event now valid) [
                      | inl owner ↦ inl owner
                      | inr (checked, described) ↦
                          inr (logged_in, matches, checked, described, paid)
                    ],
              )
        ]

  -- Where a frame EVENT over a consistent store returns and sends its event to the live
  -- subscriptions, publishing is enabled and the payload parsed; the event's id is its hash, no
  -- event had the id before and it is stored under it now, after `verify_event` in a store that
  -- verifies. And its author is an owner, or the session is authenticated as far as publishing
  -- demands it and as the author where that is demanded, the event passes the policy and the check
  -- of blob metadata, and the counters are those after its rate limit.
  pub handle_event-guards :
      (service : Service) (file_settings : FileSettings) (now : ℕ) (raw_id : String)
      (parsed : Result Event) (session : Session) (before : Root) (counters : Counters)
      (result : Published)
      → IsConsistent before.disk
      → handle_event service file_settings now raw_id parsed session before counters ≡ ok result
      → result.announced ≡ true
      → (service.access.enable_publish ≡ true)
        × ((event : Event) × (parsed ≡ ok event)
            × IsStored service event before result.root
            × ((is_owner_pubkey service.settings event.pubkey ≡ true)
                ⊎ IsAllowed service file_settings now event session before counters
                    result.counters))
  unfolding handle_event
  handle_event-guards service file_settings now raw_id (ok event) session before counters result
        good h a =
      elim (Bool-cases service.access.enable_publish) [
        | inl enabled ↦
            let (is_stored, allowed) =
              handle_parsed-announced service file_settings now event session before counters result
                good (rw enabled at h) a in
            (enabled, (event, refl, is_stored, allowed))
        | inr off ↦ absurd (refused_quietly (rw off at h) a)
      ]
    where
      refused_quietly :
          ok (replied before counters (ok_sent raw_id false "publish disabled" ∷ [])) ≡ ok result
          → result.announced ≡ true
          → ⊥
      refused_quietly e b = ground arith
  handle_event-guards service file_settings now raw_id (err error) session before counters result
        good h a =
      absurd (ground arith)
  handle_event-guards service file_settings now raw_id panic session before counters result good h
        a =
      absurd (cc h)
