-- ===== src/Blossom.antt =====
-- stonr/src/blossom.rs: the authorization of a request to the blob API by a signed event, and the
-- blobs that it is good for.
pub mod Laws
use mathlib.Core.Option
use stonr.Base.{
  ℕ, zero, suc, String, Bool, true, false, Option, none, some, List, [], ◌∷◌, ◌==◌, ◌&&◌, ◌||◌, not,
  any, map, keep, ltb, leb, nat_eq, if◌then◌else◌, Result, ok, err, ok_or, fail_if, ◌>>=◌, ◌>>◌,
}
use Prim.Native.Char.{Char, code}
use Prim.Native.String.{[], ◌∷◌}
use stonr.Base.Sort.{sort_by}
use stonr.Base.Text.{strip_prefix, eq_ignore_ascii_case, parse_u64}
use stonr.Base.TextOrder.{str_leb, dedup}
use stonr.Base.TextParts.{to_ascii_lowercase}
use stonr.Crypto.{verify_event}
use stonr.Event.{Event, Tag, named_value}
use stonr.External.{External, BlossomCrates}
use stonr.Query.{has_text}

abbrev pub blossom_auth_kind : ℕ
blossom_auth_kind = 24242

pub data Action : Type 0 where
  get : Action
  upload : Action
  list_blobs : Action
  delete : Action

unfoldable pub as_tag : Action → String
as_tag get = "get"
as_tag upload = "upload"
as_tag list_blobs = "list"
as_tag delete = "delete"

pub record VerifiedAuth : Type 0 where
  pub pubkey : String
  pub hashes : List String

unauthorized : List String → Result (Unit {0})
unauthorized [] = err "blocked: auth missing x tag"
unauthorized (hash ∷ hashes) = err "blocked: auth x tag mismatch"

unfoldable pub require_hash : VerifiedAuth → String → Result (Unit {0})
unfolding to_ascii_lowercase has_text unauthorized
require_hash auth hash =
    if has_text auth.hashes (to_ascii_lowercase hash) then ok tt else unauthorized auth.hashes

add_value : Option String → List String → List String
add_value none values = values
add_value (some value) values = value ∷ values

values_named : String → List Tag → List String
unfolding add_value named_value
values_named name [] = []
values_named name (fields ∷ tags) = add_value (named_value name fields) (values_named name tags)

-- The values of all tags with the name.
unfoldable pub tag_values : Event → String → List String
unfolding values_named
tag_values event name = values_named name event.tags

-- `Iterator::last`
unfoldable pub last_text : List String → Option String
last_text [] = none
last_text (text ∷ []) = some text
last_text (text ∷ next ∷ texts) = last_text (next ∷ texts)

-- Whether a text is hexadecimal and has this many digits.
hex_digits : ℕ → String → Bool
hex_digits zero [] = true
hex_digits zero (c ∷ s) = false
hex_digits (suc n) [] = false
hex_digits (suc n) (c ∷ s) =
    (leb b'0' (code c) && leb (code c) b'9'
      || leb b'a' (code c) && leb (code c) b'f'
      || leb b'A' (code c) && leb (code c) b'F')
    && hex_digits n s

unfoldable pub is_blob_hash : String → Bool
unfolding hex_digits
is_blob_hash text = hex_digits 64 text

-- The hashes of the `x` tags in ascending order, each once.
unfoldable pub auth_hashes : Event → List String
unfolding tag_values to_ascii_lowercase is_blob_hash dedup sort_by
auth_hashes event =
    dedup (sort_by str_leb (keep is_blob_hash (map to_ascii_lowercase (tag_values event "x"))))

-- Servers are named, and the host is not one of them.
out_of_scope : List String → String → Bool
unfolding has_text
out_of_scope [] host_domain = false
out_of_scope (server ∷ servers) host_domain = not (has_text (server ∷ servers) host_domain)

-- The tests on the event, once it is decoded.
unfoldable pub check_blossom_event :
    ⦃x : External⦄ → Event → Action → String → ℕ → Result VerifiedAuth
unfolding tag_values last_text as_tag auth_hashes out_of_scope ok_or eq_ignore_ascii_case
    to_ascii_lowercase has_text parse_u64
check_blossom_event event action host_domain now = do
  verify_event event
  fail_if (not (nat_eq event.kind blossom_auth_kind)) "blocked: invalid Blossom auth event kind"
  fail_if (ltb now event.created_at) "blocked: auth created_at must be in the past"
  text ← ok_or (last_text (tag_values event "expiration")) "blocked: auth missing expiration tag"
  expiration ← ok_or (parse_u64 text) "blocked: invalid expiration tag"
  fail_if (leb expiration now) "blocked: auth token expired"
  fail_if (not (any (λ value. eq_ignore_ascii_case value (as_tag action)) (tag_values event "t")))
      "blocked: auth action not permitted"
  fail_if
      (out_of_scope (map to_ascii_lowercase (tag_values event "server"))
        (to_ascii_lowercase host_domain))
      "blocked: auth server scope mismatch"
  ok (record { pubkey = event.pubkey; hashes = auth_hashes event })

-- The event of a header's text.
unfoldable pub read_blossom_event : ⦃w : BlossomCrates⦄ → Option (Result String) → Result Event
unfolding ok_or strip_prefix
read_blossom_event ⦃w⦄ authorization = do
  value ← ok_or authorization "blocked: missing Authorization header"
  header ← value
  encoded ← ok_or (strip_prefix header "Nostr ") "blocked: unsupported Authorization scheme"
  w.decode_url_safe encoded

-- `verify_auth` on the header's value, if there is one; reading it as text may fail.
unfoldable pub verify_auth :
    ⦃x : External⦄
    → ⦃w : BlossomCrates⦄ → Option (Result String)
    → Action
    → String
    → ℕ
    → Result VerifiedAuth
unfolding check_blossom_event read_blossom_event
verify_auth authorization action host_domain now = do
  event ← read_blossom_event authorization
  check_blossom_event event action host_domain now
