-- ===== src/Crypto/Laws.antt =====
-- `verify_event` and `sign_event` of shared/nostr-shared/src/crypto.rs.
use text.Mathlib.TextPositions.{eq_refl}
use stonr.Base.{String, ◌≡◌, ◌↔◌, ok, arith, eq_iff, >>=-eq-ok}
use stonr.Event.{Event}
use stonr.External.{External}
use stonr.Crypto.{event_hash, verify_event, sign_event}

-- A signature made with a secret key verifies under that key's public key.
abbrev pub SignsSoundly : External → Type 0
SignsSoundly x =
    (secret pubkey digest : String)
    → x.public_key secret ≡ ok pubkey
    → x.check_signature (x.sign secret digest) pubkey digest ≡ ok tt

module _ ⦃x : External⦄ where
  -- An event is accepted exactly when its id is the hash of its other fields and its signature
  -- checks over that hash under its public key.
  pub verify_event_iff :
      (event : Event)
      → (verify_event event ≡ ok tt) ↔ (
          (event_hash event ≡ event.id)
          × (x.check_signature event.sig event.pubkey event.id ≡ ok tt))
  unfolding verify_event
  verify_event_iff event = (
    λ h. ground (arith, eq_iff (event_hash event) event.id),
    λ h. ground (arith, eq_iff (event_hash event) event.id, h.0, h.1),
  )

  -- Signing an event with a usable secret key gives an event that `verify_event` accepts, with
  -- that key's public key, and the kind, time, tags and content of the event that was signed.
  pub verify_event-sign_event :
      (event : Event) (secret : String) {signed : Event}
      → SignsSoundly x
      → sign_event event secret ≡ ok signed
      → (verify_event signed ≡ ok tt)
        × (x.public_key secret ≡ ok signed.pubkey)
        × (signed.kind ≡ event.kind)
        × (signed.created_at ≡ event.created_at)
        × (signed.tags ≡ event.tags)
        × (signed.content ≡ event.content)
  unfolding verify_event sign_event event_hash
  verify_event-sign_event event secret {signed} sound h =
      let (pubkey, known, made) = >>=-eq-ok (x.public_key secret) _ h in
      let digest = event_hash (record event { pubkey = pubkey }) in
      ground (arith, made, known, eq_refl digest, sound secret pubkey digest known)
