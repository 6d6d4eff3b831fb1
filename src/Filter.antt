-- ===== src/Filter.antt =====
-- shared/nostr-shared/src/filter.rs: a filter read from a JSON value, which `Query::from_value` of
-- stonr/src/storage.rs copies field by field.
pub mod Tags
use mathlib.Core.Option
use stonr.Base.{
  ℕ, ◌%◌, ◌^◌, String, Bool, true, false, Option, none, some, List, [], ◌∷◌, ◌==◌, ◌||◌,
  if◌then◌else◌,
}
use stonr.Base.Text.{strip_prefix}
use stonr.Query.{Query}

-- `serde_json::Value`. A number holds what `as_u64` gives: nothing if it is negative, no integer,
-- or too large. An object's members stand in the order of its iteration, each key once.
mutual
  pub data Value : Type 0 where
    null : Value
    boolean : Bool → Value
    number : Option ℕ → Value
    text : String → Value
    array : Values → Value
    object : Members → Value

  pub data Values : Type 0 where
    no_values : Values
    value : Value → Values → Values

  pub data Members : Type 0 where
    no_members : Members
    member : String → Value → Members → Members

unfoldable pub as_str : Value → Option String
as_str (text s) = some s
as_str _ = none

unfoldable pub as_u64 : Value → Option ℕ
as_u64 (number n) = n
as_u64 _ = none

unfoldable pub as_array : Value → Option Values
as_array (array items) = some items
as_array _ = none

find_member : String → Members → Option Value
find_member key no_members = none
find_member key (member name v members) = if name == key then some v else find_member key members

-- `Value::get`, and `Value::as_object`
unfoldable pub get : String → Value → Option Value
unfolding find_member
get key (object members) = find_member key members
get key _ = none

add_some {ℓ} : {A : Type ℓ} → Option A → List A → List A
add_some none l = l
add_some (some a) l = a ∷ l

-- `arr.iter().filter_map(|v| v.as_str())`
unfoldable pub strings : Values → List String
unfolding as_str add_some
strings no_values = []
strings (value v rest) = add_some (as_str v) (strings rest)

-- `arr.iter().filter_map(|v| v.as_u64().map(|u| u as u32))`
unfoldable pub kind_numbers : Values → List ℕ
unfolding as_u64 add_some
kind_numbers no_values = []
kind_numbers (value v rest) = add_some (Option.map (λ n. n % 2 ^ 32) (as_u64 v)) (kind_numbers rest)

-- `arr.first().and_then(|v| v.as_str())`
unfoldable pub first_string : Values → Option String
unfolding as_str
first_string no_values = none
first_string (value v rest) = as_str v

non_empty {ℓ} : {A : Type ℓ} → String → List A → Option (String × List A)
non_empty name [] = none
non_empty name (a ∷ l) = some (name, a ∷ l)

strings_of : Option Values → List String
unfolding strings
strings_of none = []
strings_of (some items) = strings items

-- The closure over the members of the object.
unfoldable pub tag_filter : String → Value → Option (String × List String)
unfolding strip_prefix as_array strings_of non_empty
tag_filter key v = elim (strip_prefix key "#") [
  | none ↦ none
  | some name ↦
      if name == "d" || name == "t" then none else non_empty name (strings_of (as_array v))
]

unfoldable pub tag_filters : Members → List (String × List String)
unfolding tag_filter add_some
tag_filters no_members = []
tag_filters (member key v members) = add_some (tag_filter key v) (tag_filters members)

tags_of : Value → List (String × List String)
unfolding tag_filters
tags_of (object members) = tag_filters members
tags_of _ = []

array_of : Value → String → Option Values
unfolding get as_array
array_of v key = Option.bind (get key v) as_array

filled : String → Option String
filled s = if s == "" then none else some s

-- `Filter::from_value`
unfoldable pub from_value : Value → Query
unfolding array_of strings kind_numbers first_string tags_of as_str as_u64 get filled
from_value v = record {
  ids = Option.map strings (array_of v "ids");
  authors = Option.map strings (array_of v "authors");
  kinds = Option.map kind_numbers (array_of v "kinds");
  d = Option.bind (array_of v "#d") first_string;
  t = Option.bind (array_of v "#t") first_string;
  tags = tags_of v;
  search = Option.bind (Option.bind (get "search" v) as_str) filled;
  since = Option.bind (get "since" v) as_u64;
  until = Option.bind (get "until" v) as_u64;
  limit = Option.bind (get "limit" v) as_u64;
}
