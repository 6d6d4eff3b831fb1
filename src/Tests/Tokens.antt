-- ===== src/Tests/Tokens.antt =====
-- The authorization of a request to the blob API at a concrete event.
use stonr.Base.{String, true, some, [], ◌∷◌, ◌&&◌, map, keep, ok, err, ◌≡◌, refl, ◌↔◌}
use stonr.Base.TextParts.{to_ascii_lowercase}
use stonr.Blossom.{
  VerifiedAuth, upload, delete, tag_values, is_blob_hash, read_blossom_event, require_hash,
  verify_auth,
}
use stonr.Blossom.Laws.{Permits, verify_auth-Permits}
use stonr.Crypto.{verify_event, event_hash}
use stonr.Event.{Event, named_value}
use stonr.External.{BlossomCrates}
use stonr.Query.{has_text}
use stonr.Tests.Sample.{sample, note}

abbrev upper_hash : String
upper_hash = "0123456789ABCDEF0123456789ABCDEF0123456789ABCDEF0123456789ABCDEF"

abbrev lower_hash : String
lower_hash = "0123456789abcdef0123456789abcdef0123456789abcdef0123456789abcdef"

abbrev token : Event
token = record note {
  id = "";
  pubkey = "carol";
  kind = 24242;
  created_at = 100;
  tags =
      ("t" ∷ "Upload" ∷ [])
      ∷ ("expiration" ∷ "5" ∷ [])
      ∷ ("x" ∷ upper_hash ∷ [])
      ∷ ("x" ∷ "ab" ∷ [])
      ∷ ("server" ∷ "Host" ∷ [])
      ∷ ("expiration" ∷ "130" ∷ [])
      ∷ [];
  content = "";
}

-- Crates that know this one event.
instance abbrev crates : BlossomCrates
crates = record { decode_url_safe = λ text. ok token }

abbrev token_auth : VerifiedAuth
token_auth = record { pubkey = "carol"; hashes = lower_hash ∷ [] }

token-accepted : verify_auth (some (ok "Nostr e")) upload "host" 120 ≡ ok token_auth
unfolding verify_auth verify_event event_hash named_value tag_values keep
token-accepted = refl

token-refused :
    (verify_auth (some (ok "Nostr e")) upload "host" 130 ≡ err "blocked: auth token expired")
    × (verify_auth (some (ok "Nostr e")) delete "host" 120
        ≡ err "blocked: auth action not permitted")
    × (verify_auth (some (ok "Nostr e")) upload "r" 120 ≡ err "blocked: auth server scope mismatch")
    × (require_hash token_auth "ab" ≡ err "blocked: auth x tag mismatch")
unfolding verify_auth verify_event event_hash named_value tag_values keep require_hash
token-refused = (refl, refl, refl, refl)

verify_auth-Permits_example :
    (event : Event) × (read_blossom_event (some (ok "Nostr e")) ≡ ok event)
    × Permits event upload "host" 120
    × (event.pubkey ≡ token_auth.pubkey)
    × ((hash : String)
        → (require_hash token_auth hash ≡ ok tt) ↔ (
            (is_blob_hash (to_ascii_lowercase hash)
              && has_text (map to_ascii_lowercase (tag_values event "x")) (to_ascii_lowercase hash))
            ≡ true))
verify_auth-Permits_example =
    verify_auth-Permits (some (ok "Nostr e")) upload "host" 120 token_auth token-accepted
