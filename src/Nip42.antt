-- ===== src/Nip42.antt =====
-- shared/nostr-shared/src/nip42.rs: authentication of a websocket session by a signed event.
pub mod Laws
use Prim.Native.String.{◌++◌ as str_append}
use stonr.Base.{
  ℕ, ◌+◌, ◌-◌, String, Bool, true, false, Option, none, some, List, [], ◌∷◌, ◌==◌, ◌&&◌, ◌||◌, not,
  any, ltb, nat_eq, if◌then◌else◌, Result, ok, err, fail_if, ok_or, ◌>>=◌, ◌>>◌,
}
use stonr.Base.Text.{trim_end_slashes}
use stonr.Base.TextOrder.{str_leb}
use stonr.Crypto.{verify_event}
use stonr.Event.{Event, tag_value}
use stonr.External.{External, AuthCrates, Url}
use stonr.Query.{has_text}

-- The challenge is drawn at random when the session starts; the set of keys is a list.
pub record SessionAuth : Type 0 where
  pub challenge : String
  pub pubkeys : List String

unfoldable pub new_session : String → SessionAuth
new_session challenge = record { challenge = challenge; pubkeys = [] }

unfoldable pub authenticate : SessionAuth → String → SessionAuth
unfolding has_text
authenticate session pubkey =
    if has_text session.pubkeys pubkey
    then session
    else record session { pubkeys = pubkey ∷ session.pubkeys }

unfoldable pub is_authenticated : SessionAuth → Bool
is_authenticated session = elim session.pubkeys [ [] ↦ false | _ ∷ _ ↦ true ]

unfoldable pub contains_pubkey : SessionAuth → String → Bool
unfolding has_text
contains_pubkey session pubkey = has_text session.pubkeys pubkey

-- `Iterator::min`
unfoldable pub min_text : List String → Option String
min_text [] = none
min_text (key ∷ keys) = elim (min_text keys) [
  | none ↦ some key
  | some least ↦ if str_leb key least then some key else some least
]

unfoldable pub actor_pubkey : SessionAuth → Option String
unfolding min_text
actor_pubkey session = min_text session.pubkeys

unfoldable pub normalize_path : String → String
normalize_path path = if path == "" then "/" else path

same_text : Option String → Option String → Bool
same_text none none = true
same_text (some a) (some b) = a == b
same_text _ _ = false

same_port : Option ℕ → Option ℕ → Bool
same_port none none = true
same_port (some a) (some b) = nat_eq a b
same_port _ _ = false

same_parsed : Option Url → Option Url → Bool
unfolding same_text same_port normalize_path
same_parsed (some left) (some right) =
    same_text left.host right.host
    && (same_port left.port right.port && normalize_path left.path == normalize_path right.path)
same_parsed _ _ = false

-- `u64::abs_diff`
unfoldable pub abs_diff : ℕ → ℕ → ℕ
abs_diff a b = (a - b) + (b - a)

module _ ⦃w : AuthCrates⦄ where
  unfoldable pub same_relay_url : String → String → Bool
  unfolding same_parsed trim_end_slashes
  same_relay_url left right =
      trim_end_slashes left == trim_end_slashes right
      || same_parsed (w.parse_url left) (w.parse_url right)

  unfoldable pub relay_tag_matches : String → String → Bool
  unfolding same_relay_url
  relay_tag_matches relay_tag bind_ws = any (same_relay_url relay_tag) (
      str_append "ws://" bind_ws
      ∷ str_append "ws://" (str_append bind_ws "/")
      ∷ str_append "wss://" bind_ws
      ∷ str_append "wss://" (str_append bind_ws "/")
      ∷ [])

  unfoldable pub verify_auth_event :
      ⦃x : External⦄ → Event → String → String → ℕ → ℕ → Result (Unit {0})
  unfolding ok_or tag_value relay_tag_matches abs_diff
  verify_auth_event event challenge bind_ws max_age_secs now = do
    fail_if (not (nat_eq event.kind 22242)) "AUTH event must use kind 22242"
    verify_event event
    challenge_tag ← ok_or (tag_value event "challenge") "AUTH event missing challenge tag"
    fail_if (not (challenge_tag == challenge)) "AUTH event challenge mismatch"
    relay_tag ← ok_or (tag_value event "relay") "AUTH event missing relay tag"
    fail_if (not (relay_tag_matches relay_tag bind_ws))
        "AUTH event relay tag does not match this relay"
    fail_if (ltb max_age_secs (abs_diff event.created_at now))
        "AUTH event is outside the accepted age window"
