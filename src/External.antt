-- ===== src/External.antt =====
-- What the relay calls and does not implement: the hash and signature crates, the JSON encoder
-- and the Unicode case tables. Every module that needs one takes this record as an instance.
use stonr.Base.{ℕ, String, Option, List, Result}
use stonr.Event.{Event, Tag}

-- The JSON array `[0, pubkey, created_at, kind, tags, content]` that an event's id is the hash of.
pub record Payload : Type 0 where
  pub pubkey : String
  pub created_at : ℕ
  pub kind : ℕ
  pub tags : List Tag
  pub content : String

pub record External : Type 0 where
  -- lower-case hex of the SHA-256 of the payload's JSON
  pub sha256_hex : Payload → String
  -- decoding of signature and public key, and `verify_schnorr` over the digest
  pub check_signature : String → String → String → Result (Unit {0})
  -- the x-only public key of a secret key, in hex; an error if the secret is no key
  pub public_key : String → Result String
  -- `sign_schnorr_no_aux_rand` with a secret key over a digest, in hex
  pub sign : String → String → String
  -- `serde_json::to_vec(event).len()`
  pub json_len : Event → ℕ
  -- lower-case hex of the SHA-1 of a text
  pub sha1_hex : String → String
  -- `str::to_lowercase`
  pub lowercase : String → String

-- The parts of a URL that the relay compares; the port is the scheme's own where none is written.
pub record Url : Type 0 where
  pub host : Option String
  pub port : Option ℕ
  pub path : String

-- The crates behind the two kinds of authentication: `url`, `base64`, `serde_json`, `hex`.
pub record AuthCrates : Type 0 where
  -- `Url::parse`, with `host_str`, `port_or_known_default` and `path`
  pub parse_url : String → Option Url
  -- base64 of an event's JSON, and back
  pub encode_event : Event → String
  pub decode_event : String → Result Event
  -- base64 of the bytes that a hex text stands for
  pub hex_to_base64 : String → Result String
  -- `str::to_uppercase`
  pub uppercase : String → String

-- `base64` in the alphabet that is safe in a URL, and `serde_json`, behind the blob API.
pub record BlossomCrates : Type 0 where
  pub decode_url_safe : String → Result Event
