-- ===== src/Filter/Tags.antt =====
-- The tag filters and kinds of `Filter::from_value` in shared/nostr-shared/src/filter.rs.
use mathlib.Core.Option
use stonr.Base.{ℕ, ◌%◌, ◌^◌, nat_eq, String, some, [], ◌∷◌, ◌≡◌, ◌⊎◌, arith}
use stonr.Base.Text.{strip_prefix}
use stonr.Event.{Event}
use stonr.External.{External}
use stonr.Query.{has_tag, has_tags, has_number, event_matches_query}
use stonr.Filter.{
  Value, text, array, object, Values, no_values, value, Members, no_members, member, strings,
  tag_filters, from_value, number,
}

-- A member of an object, in the order of its iteration.
abbrev pub InMembers : String → Value → Members → Type 0
InMembers key v no_members = ⊥
InMembers key v (member k w members) = ((key ≡ k) × (v ≡ w)) ⊎ InMembers key v members

module _ ⦃x : External⦄ where
  -- Of several topics in a `#t` filter only the first counts, while a `#p` filter takes every one of
  -- its texts; and a kind is taken modulo 2 ^ 32.
  pub event_matches_query-from_value :
      (event : Event) (first : String) (more : Values) (n : ℕ)
      → (event_matches_query event
            (from_value (object (member "#t" (array (value (text first) more)) no_members)))
          ≡ has_tag "t" (first ∷ []) event.tags)
        × (event_matches_query event
              (from_value (object (member "#p" (array (value (text first) more)) no_members)))
            ≡ has_tag "p" (first ∷ strings more) event.tags)
        × (event_matches_query event (
              from_value
                (object (member "kinds" (array (value (number (some n)) no_values)) no_members)))
            ≡ nat_eq (n % 2 ^ 32) event.kind)
  unfolding event_matches_query from_value strings tag_filters strip_prefix has_tags has_number
      Option.bind
  event_matches_query-from_value event first more n = (ground arith, ground arith, ground arith)
