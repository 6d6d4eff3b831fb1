-- ===== src/Event.antt =====
-- The event type of shared/nostr-shared/src/event.rs, and what stonr/src/storage.rs reads of an
-- event's tags.
use mathlib.Core.Option
use Prim.Native.String.{◌++◌ as str_append}
use stonr.Base.{
  ℕ, String, Bool, Option, none, some, List, [], ◌∷◌, ◌==◌, if◌then◌else◌, leb, find_map,
  is_some_and,
}
use stonr.Base.Text.{parse_u64, to_decimal}

-- A tag is its list of fields.
abbrev pub Tag : Type 0
Tag = List String

pub record Event : Type 0 where
  pub id : String
  pub pubkey : String
  pub kind : ℕ
  pub created_at : ℕ
  pub tags : List Tag
  pub content : String
  pub sig : String

-- The second field of a tag whose first is `name`: `[tag, value, ..] if tag == name`.
unfoldable pub named_value : String → Tag → Option String
named_value name [] = none
named_value name (t ∷ []) = none
named_value name (t ∷ value ∷ _) = if t == name then some value else none

-- `tag_value` of the modules that look a tag up: the first tag with the name.
unfoldable pub tag_value : Event → String → Option String
tag_value event name = find_map (named_value name) event.tags

-- `format!("{}:{}:{}", kind, pubkey, value)`
unfoldable pub address_of : ℕ → String → String → String
unfolding to_decimal
address_of kind pubkey value =
    str_append (to_decimal kind) (str_append ":" (str_append pubkey (str_append ":" value)))

unfoldable pub event_address : Event → Option String
event_address event =
    find_map (λ fields. Option.map (address_of event.kind event.pubkey) (named_value "d" fields))
      event.tags

-- A tag whose value is no number is passed over.
unfoldable pub event_expiration : Event → Option ℕ
event_expiration event =
    find_map (λ fields. Option.bind (named_value "expiration" fields) parse_u64) event.tags

unfoldable pub event_is_expired : Event → ℕ → Bool
unfolding event_expiration
event_is_expired event now = is_some_and (event_expiration event) (λ expiration. leb expiration now)
