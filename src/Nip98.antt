-- ===== src/Nip98.antt =====
-- shared/nostr-shared/src/nip98.rs: authentication of an HTTP request by a signed event in its
-- Authorization header.
pub mod Laws
use Prim.Native.String.{◌++◌ as str_append}
use stonr.Base.{
  ℕ, ◌+◌, ◌-◌, ◌%◌, ◌^◌, String, Bool, true, false, Option, none, some, List, [], ◌∷◌, ◌++◌, ◌==◌,
  ◌||◌, not, ltb, nat_eq, if◌then◌else◌, unwrap_or, Result, ok, err, fail_if, ok_or, ◌>>=◌, ◌>>◌,
}
use stonr.Base.Text.{strip_prefix, eq_ignore_ascii_case}
use stonr.Crypto.{verify_event, sign_event}
use stonr.Event.{Event, Tag, tag_value}
use stonr.External.{External, AuthCrates}

abbrev pub auth_kind : ℕ
auth_kind = 27235

abbrev pub max_skew_secs : ℕ
max_skew_secs = 300

module _ ⦃w : AuthCrates⦄ where
  unfoldable pub payload_tag_matches : String → String → Result Bool
  unfolding eq_ignore_ascii_case
  payload_tag_matches value payload_hash_hex =
      if eq_ignore_ascii_case value payload_hash_hex
      then ok true
      else do encoded ← w.hex_to_base64 payload_hash_hex; ok (encoded == value)

  -- The test of the payload tag, where the request has a body.
  unfoldable pub check_payload : Event → Option String → Result (Unit {0})
  unfolding payload_tag_matches ok_or tag_value
  check_payload event none = ok tt
  check_payload event (some payload_hash_hex) = do
    tag ← ok_or (tag_value event "payload") "blocked: auth missing payload tag"
    matches ← payload_tag_matches tag payload_hash_hex
    fail_if (not matches) "blocked: auth payload hash mismatch"

  -- The tests on the event, once it is decoded.
  unfoldable pub check_auth_event :
      ⦃x : External⦄ → Event → String → String → Option String → ℕ → Result String
  unfolding check_payload ok_or tag_value eq_ignore_ascii_case
  check_auth_event event method url payload_hash_hex now = do
    verify_event event
    fail_if (not (nat_eq event.kind auth_kind)) "blocked: invalid auth event kind"
    fail_if
        (ltb ((now + max_skew_secs) % 2 ^ 64) event.created_at
          || ltb max_skew_secs (now - event.created_at))
        "blocked: stale auth event"
    auth_url ← ok_or (tag_value event "u") "blocked: auth missing url tag"
    fail_if (not (auth_url == url)) "blocked: auth url mismatch"
    auth_method ← ok_or (tag_value event "method") "blocked: auth missing method tag"
    fail_if (not (eq_ignore_ascii_case auth_method method)) "blocked: auth method mismatch"
    check_payload event payload_hash_hex
    ok event.pubkey

  -- The event of a header's text.
  unfoldable pub read_auth_event : Option (Result String) → Result Event
  unfolding ok_or strip_prefix
  read_auth_event authorization = do
    value ← ok_or authorization "blocked: missing Authorization header"
    header ← value
    encoded ← ok_or (strip_prefix header "Nostr ") "blocked: unsupported Authorization scheme"
    w.decode_event encoded

  -- `verify_http_auth` on the header's value, if there is one; reading it as text may fail.
  unfoldable pub verify_http_auth :
      ⦃x : External⦄ → Option (Result String) → String → String → Option String → ℕ → Result String
  unfolding check_auth_event read_auth_event
  verify_http_auth authorization method url payload_hash_hex now = do
    event ← read_auth_event authorization
    check_auth_event event method url payload_hash_hex now

  payload_tags : Option String → List Tag
  payload_tags none = []
  payload_tags (some hash) = ("payload" ∷ hash ∷ []) ∷ []

  -- The event before it is signed.
  unfoldable pub auth_event : String → String → Option String → ℕ → Event
  unfolding payload_tags
  auth_event method url payload_hash_hex created_at = record {
    id = "";
    pubkey = "";
    kind = auth_kind;
    created_at = created_at;
    tags = ("u" ∷ url ∷ []) ∷ ("method" ∷ w.uppercase method ∷ []) ∷ payload_tags payload_hash_hex;
    content = "";
    sig = "";
  }

  -- `build_http_auth_header`, where the clock reads `now`.
  unfoldable pub build_http_auth_header :
      ⦃x : External⦄ → String → String → String → Option String → Option ℕ → ℕ → Result String
  unfolding auth_event
  build_http_auth_header secret_key_hex method url payload_hash_hex created_at now = do
    event ←
        sign_event (auth_event method url payload_hash_hex (unwrap_or created_at now))
          secret_key_hex
    ok (str_append "Nostr " (w.encode_event event))
