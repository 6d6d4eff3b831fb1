-- ===== src/Crypto.antt =====
-- shared/nostr-shared/src/crypto.rs: the id of an event, its signature, and the check of both.
pub mod Laws
use stonr.Base.{String, Result, ok, ◌>>=◌, ◌>>◌, fail_if, not, ◌==◌}
use stonr.Event.{Event}
use stonr.External.{External, Payload}

unfoldable pub payload : Event → Payload
payload event = record {
  pubkey = event.pubkey;
  created_at = event.created_at;
  kind = event.kind;
  tags = event.tags;
  content = event.content;
}

module _ ⦃x : External⦄ where
  -- `hex::encode(event_hash(event)?)`; the JSON encoder does not fail on an event's fields.
  unfoldable pub event_hash : Event → String
  unfolding payload
  event_hash event = x.sha256_hex (payload event)

  unfoldable pub verify_event : Event → Result (Unit {0})
  verify_event event = do
    fail_if (not (event_hash event == event.id)) "id mismatch"
    x.check_signature event.sig event.pubkey (event_hash event)

  -- The mutable borrow is the event that comes back.
  unfoldable pub sign_event : Event → String → Result Event
  sign_event event secret_key_hex = do
    pubkey ← x.public_key secret_key_hex
    let owned = record event { pubkey = pubkey }
    let hash = event_hash owned
    ok (record owned { id = hash; sig = x.sign secret_key_hex hash })
