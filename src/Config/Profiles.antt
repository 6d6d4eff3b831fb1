-- ===== src/Config/Profiles.antt =====
-- stonr/src/autoconfig.rs: the settings that a support profile asks for, normalized by their keys.
pub mod Numbers
pub mod Merge
use mathlib.Core.Option
use Prim.Native.String.{◌++◌ as str_append}
use stonr.Base.{
  ℕ, ◌%◌, ◌^◌, String, Bool, true, false, Option, none, some, List, [], ◌∷◌, ◌++◌, ◌==◌, ◌||◌, not,
  map, leb, nat_eq, if◌then◌else◌, is_some, Result, ok, err, panic, ok_or, ◌>>=◌, ◌>>◌, fail_if,
  ◌≡◌, refl,
}
use stonr.Base.Dict.{Dict, put}
use stonr.Base.Sort.{sort_by}
use stonr.Base.Text.{parse_u64, strip_prefix, to_decimal}
use stonr.Base.TextOrder.{str_leb, dedup}
use stonr.Base.TextParts.{trim, split, to_ascii_lowercase, is_empty_text}
use stonr.Config.Lists.{join}
use stonr.Config.Parse.{csv_strings, parse_u32}
use stonr.Filter.{
  Value, null, boolean, number, text, array, object, Values, no_values, value, Members, no_members,
  member, as_str, as_u64, get,
}
use stonr.Query.{has_text}

pub data MergeKind : Type 0 where
  bool_or csv_text csv_number exact : MergeKind

pub record NormalizedSetting : Type 0 where
  pub env_key : String
  pub merge_kind : MergeKind
  pub value : String

unfoldable pub is_bool_key : String → Bool
unfolding has_text
is_bool_key key =
    has_text
      ("VERIFY_SIG" ∷ "ENABLE_NIP11" ∷ "ENABLE_QUERY" ∷ "ENABLE_PUBLISH"
        ∷ "ENABLE_LIVE_SUBSCRIPTIONS" ∷ "ENABLE_COUNT" ∷ "ENABLE_TAG_QUERIES" ∷ "ENABLE_SEARCH"
        ∷ "ENABLE_MIRRORING" ∷ "PIN_PROTECT_FROM_DELETES" ∷ "ENABLE_NIP42"
        ∷ "REQUIRE_AUTH_FOR_QUERY" ∷ "REQUIRE_AUTH_FOR_COUNT" ∷ "REQUIRE_AUTH_FOR_PUBLISH"
        ∷ "AUTH_MUST_MATCH_EVENT_PUBKEY" ∷ "SUPPORT_NIP11" ∷ "SUPPORT_NIP09" ∷ "SUPPORT_NIP12"
        ∷ "SUPPORT_NIP42" ∷ "SUPPORT_NIP40" ∷ "SUPPORT_NIP45" ∷ "SUPPORT_NIP50" ∷ "SUPPORT_NIP94"
        ∷ "SUPPORT_NIP96" ∷ "SUPPORT_NIP98" ∷ "SUPPORT_NIP_B7" ∷ "FILTER_PRIVATE_MESSAGES"
        ∷ "ENABLE_FILE_METADATA" ∷ "ENABLE_FILE_API" ∷ "ENABLE_BLOSSOM" ∷ "ENABLE_BLOSSOM_LIST"
        ∷ "ENABLE_BLOSSOM_MIRROR" ∷ "REQUIRE_NIP98_AUTH" ∷ "REQUIRE_BLOSSOM_AUTH"
        ∷ "REQUIRE_BLOSSOM_GET_AUTH" ∷ "MIRROR_SITE_INCLUDE_COMMENTS" ∷ [])
      key

unfoldable pub is_csv_string_key : String → Bool
unfolding has_text
is_csv_string_key key =
    has_text
      ("ALLOW_PUBKEYS" ∷ "DENY_PUBKEYS" ∷ "OWNER_PUBKEYS" ∷ "FOLLOW_PUBKEYS" ∷ "PIN_EVENT_IDS"
        ∷ "RELAYS_UPSTREAM" ∷ "FILTER_AUTHORS" ∷ "FILTER_TAG_T" ∷ "FILTER_TAG_A" ∷ "FILE_ALLOW_MIME"
        ∷ "FILE_DENY_MIME" ∷ [])
      key

unfoldable pub is_csv_u32_key : String → Bool
unfolding has_text
is_csv_u32_key key = has_text ("ALLOW_KINDS" ∷ "DENY_KINDS" ∷ "FILTER_KINDS" ∷ []) key

unfoldable pub is_string_key : String → Bool
unfolding has_text
is_string_key key =
    has_text
      ("RELAY_NAME" ∷ "RELAY_DESCRIPTION" ∷ "PUBLIC_RELAY_URL" ∷ "TOR_SOCKS" ∷ "MIRROR_SITE_AUTHOR"
        ∷ "FILE_API_URL" ∷ "BLOSSOM_PUBLIC_URL" ∷ [])
      key

unfoldable pub is_usize_key : String → Bool
unfolding has_text
is_usize_key key =
    has_text
      ("MAX_STORED_EVENTS" ∷ "MAX_LIMIT" ∷ "MAX_EVENT_BYTES" ∷ "MAX_QUERIES_PER_WINDOW"
        ∷ "MAX_COUNTS_PER_WINDOW" ∷ "MAX_PUBLISHES_PER_WINDOW" ∷ "FILE_MAX_BYTES" ∷ [])
      key

unfoldable pub is_u64_key : String → Bool
unfolding has_text
is_u64_key key =
    has_text
      ("AUTH_MAX_AGE_SECS" ∷ "MAX_STORED_EVENT_BYTES" ∷ "MAX_EVENT_AGE_SECS"
        ∷ "MAX_EVENT_FUTURE_SECS" ∷ "RATE_LIMIT_WINDOW_SECS" ∷ "MAX_BLOB_BYTES_PER_PUBKEY" ∷ [])
      key

unfoldable pub parse_bool_string : String → Option Bool
unfolding has_text to_ascii_lowercase trim
parse_bool_string written =
    let lower = to_ascii_lowercase (trim written) in
    if has_text ("1" ∷ "true" ∷ "yes" ∷ "on" ∷ []) lower
    then some true
    else if has_text ("0" ∷ "false" ∷ "no" ∷ "off" ∷ []) lower
    then some false
    else none

parse_bool_value : Value → Result Bool
unfolding parse_bool_string ok_or
parse_bool_value (boolean b) = ok b
parse_bool_value (number (some n)) = ok (not (nat_eq n 0))
parse_bool_value (text s) = ok_or (parse_bool_string s) "expected a boolean value"
parse_bool_value _ = err "expected a boolean value"

parse_u64_value : Value → Result ℕ
unfolding parse_u64 trim ok_or
parse_u64_value (number (some n)) = ok n
parse_u64_value (text s) = ok_or (parse_u64 (trim s)) "expected an unsigned integer"
parse_u64_value _ = err "expected an unsigned integer"

parse_string_value : Value → Result String
unfolding trim
parse_string_value (text s) = ok (trim s)
parse_string_value _ = err "expected a string value"

parse_enum_string : Value → List String → Result String
unfolding parse_string_value to_ascii_lowercase has_text
parse_enum_string v allowed = do
  written ← parse_string_value v
  let lower = to_ascii_lowercase written
  if has_text allowed lower then ok lower else err (str_append "unsupported value: " lower)

since_fixed : String → Option String → Result String
unfolding parse_u64
since_fixed normalized none = err "FILTER_SINCE_MODE must be \"cursor\" or \"fixed:<unix-seconds>\""
since_fixed normalized (some rest) =
    if is_some (parse_u64 rest)
    then ok normalized
    else err "fixed FILTER_SINCE_MODE values must be numeric"

parse_since_mode : Value → Result String
unfolding parse_string_value since_fixed strip_prefix to_ascii_lowercase trim
parse_since_mode v = do
  written ← parse_string_value v
  let normalized = to_ascii_lowercase (trim written)
  if normalized == "cursor"
      then ok normalized
      else since_fixed normalized (strip_prefix normalized "fixed:")

unfoldable pub dedup_strings : List String → List String
unfolding dedup sort_by
dedup_strings values = dedup (sort_by str_leb values)

string_items : Values → Result (List String)
unfolding parse_string_value
string_items no_values = ok []
string_items (value item items) = do
  written ← parse_string_value item
  rest ← string_items items
  ok (if is_empty_text written then rest else written ∷ rest)

unfoldable pub parse_string_list_value : Value → Result (List String)
unfolding string_items dedup_strings csv_strings
parse_string_list_value (array items) = do values ← string_items items; ok (dedup_strings values)
parse_string_list_value (text s) = ok (dedup_strings (csv_strings s))
parse_string_list_value _ = err "expected a string or string array"

-- `number as u32` keeps the low 32 bits.
number_item : Value → Result ℕ
unfolding parse_u32 trim ok_or
number_item (number (some n)) = ok (n % 2 ^ 32)
number_item (text s) = ok_or (parse_u32 (trim s)) "expected u32 list item"
number_item _ = err "expected a u32 or string u32 in array"

number_items : Values → Result (List ℕ)
unfolding number_item
number_items no_values = ok []
number_items (value item items) = do n ← number_item item; rest ← number_items items; ok (n ∷ rest)

number_parts : List String → Result (List ℕ)
unfolding parse_u32 trim ok_or
number_parts [] = ok []
number_parts (part ∷ parts) =
    let rest = number_parts parts in
    if is_empty_text (trim part) then rest else do
      n ← ok_or (parse_u32 (trim part)) "expected u32 list item"
      numbers ← rest
      ok (n ∷ numbers)

dedup_sorted : List ℕ → List ℕ
dedup_sorted [] = []
dedup_sorted (a ∷ []) = a ∷ []
dedup_sorted (a ∷ b ∷ l) = let rest = dedup_sorted (b ∷ l) in if nat_eq a b then rest else a ∷ rest

unfoldable pub dedup_numbers : List ℕ → List ℕ
unfolding dedup_sorted sort_by
dedup_numbers values = dedup_sorted (sort_by leb values)

unfoldable pub parse_u32_list_value : Value → Result (List ℕ)
unfolding number_items number_parts dedup_numbers split
parse_u32_list_value (array items) = do values ← number_items items; ok (dedup_numbers values)
parse_u32_list_value (text s) = do values ← number_parts (split b',' s); ok (dedup_numbers values)
parse_u32_list_value _ = err "expected a string or numeric array"

-- Numbers that are joined with commas.
unfoldable pub join_numbers : List ℕ → String
unfolding join to_decimal
join_numbers values = join (map to_decimal values)

normalize_value : String → Value → Result (MergeKind × String)
unfolding is_bool_key is_csv_string_key is_csv_u32_key is_usize_key is_u64_key is_string_key
    parse_bool_value parse_string_list_value parse_u32_list_value parse_u64_value parse_enum_string
    parse_since_mode parse_string_value join join_numbers to_decimal
normalize_value key v =
    if is_bool_key key
    then (do b ← parse_bool_value v; ok (bool_or, if b then "1" else "0"))
    else if is_csv_string_key key
    then (do values ← parse_string_list_value v; ok (csv_text, join values))
    else if is_csv_u32_key key
    then (do values ← parse_u32_list_value v; ok (csv_number, join_numbers values))
    else if is_usize_key key || is_u64_key key
    then (do n ← parse_u64_value v; ok (exact, to_decimal n))
    else if key == "MIRROR_MODE"
    then (do mode ← parse_enum_string v ("broad" ∷ "site" ∷ []); ok (exact, mode))
    else if key == "FILE_KEEP_MODE"
    then (do mode ← parse_enum_string v ("referenced" ∷ "all" ∷ []); ok (exact, mode))
    else if key == "FILTER_SINCE_MODE"
    then (do mode ← parse_since_mode v; ok (exact, mode))
    else if is_string_key key
    then (do written ← parse_string_value v; ok (exact, written))
    else err (str_append "unsupported app support setting: " key)

unfoldable pub normalize_setting : String → Value → Result NormalizedSetting
unfolding normalize_value trim
normalize_setting env_key v = do
  let key = trim env_key
  fail_if (is_empty_text key) "app support setting keys must not be empty"
  (kind, normalized) ← normalize_value key v
  ok (record { env_key = key; merge_kind = kind; value = normalized })
