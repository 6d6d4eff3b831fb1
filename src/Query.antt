-- ===== src/Query.antt =====
-- The filters of stonr/src/storage.rs (`Query`) and stonr/src/ws.rs, and the test that decides
-- whether a live event matches one.
pub mod Sorted
use stonr.Base.{
  ℕ, String, Bool, true, false, Option, List, [], ◌∷◌, ◌==◌, ◌&&◌, ◌||◌, not, any, nat_eq, ltb,
  if◌then◌else◌, is_some, is_some_and,
}
use stonr.Base.Text.{str_contains}
use stonr.Event.{Event, Tag, named_value}
use stonr.External.{External}

pub record Query : Type 0 where
  pub ids : Option (List String)
  pub authors : Option (List String)
  pub kinds : Option (List ℕ)
  pub d : Option String
  pub t : Option String
  pub tags : List (String × List String)
  pub search : Option String
  pub since : Option ℕ
  pub until : Option ℕ
  pub limit : Option ℕ

is_empty {ℓ} : {A : Type ℓ} → List A → Bool
is_empty [] = true
is_empty (a ∷ l) = false

unfoldable pub has_tag_filters : Query → Bool
unfolding is_empty
has_tag_filters q = is_some q.d || (is_some q.t || not (is_empty q.tags))

-- Whether a list of texts, or of numbers, has the value.
unfoldable pub has_text : List String → String → Bool
has_text texts value = any (λ text. text == value) texts

unfoldable pub has_number : List ℕ → ℕ → Bool
has_number numbers value = any (λ number. nat_eq number value) numbers

-- Whether some tag has the name and one of the values.
unfoldable pub has_tag : String → List String → List Tag → Bool
unfolding has_text
has_tag name values tags =
    any (λ fields. is_some_and (named_value name fields) (λ value. has_text values value)) tags

unfoldable pub has_tags : List (String × List String) → List Tag → Bool
unfolding has_tag
has_tags [] tags = true
has_tags ((name, values) ∷ wanted) tags = has_tag name values tags && has_tags wanted tags

module _ ⦃x : External⦄ where
  -- `event.content.to_lowercase().contains(&search.to_lowercase())`
  unfoldable pub content_matches : String → Event → Bool
  content_matches search event = str_contains (x.lowercase event.content) (x.lowercase search)

  -- `event_matches_query` of ws.rs.
  unfoldable pub event_matches_query : Event → Query → Bool
  unfolding has_tags has_number content_matches
  event_matches_query event query =
      if is_some_and query.authors (λ authors. not (has_text authors event.pubkey))
      then false
      else if is_some_and query.kinds (λ kinds. not (has_number kinds event.kind))
      then false
      else if is_some_and query.since (λ since. ltb event.created_at since)
      then false
      else if is_some_and query.until (λ until. ltb until event.created_at)
      then false
      else if is_some_and query.search (λ search. not (content_matches search event))
      then false
      else if is_some_and query.d (λ d. not (has_tag "d" (d ∷ []) event.tags))
      then false
      else if is_some_and query.t (λ t. not (has_tag "t" (t ∷ []) event.tags))
      then false
      else has_tags query.tags event.tags
