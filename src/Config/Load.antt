-- ===== src/Config/Load.antt =====
-- stonr/src/config.rs: `from_env`, with the overrides of stonr/src/autoconfig.rs. The files are functions
-- from their paths.
use mathlib.Core.Option
use stonr.Base.{
  ◌*◌, String, Option, none, some, List, [], ◌∷◌, ◌==◌, map, unwrap_or, if◌then◌else◌, Result, ok,
  ◌>>=◌,
}
use stonr.Base.Dict.{put}
use stonr.Base.Text.{parse_u64, is_blank, strip_prefix}
use stonr.Base.TextParts.{to_ascii_lowercase, is_empty_text}
use stonr.Config.{
  AllSettings, RelaySettings, MirrorSettings, ApiSettings, SinceMode, cursor, fixed, broad, site,
}
use stonr.Config.Parse.{
  Env, parse_env_file, env_value, required_env, flag, csv_strings, env_strings, env_numbers,
  env_positive, env_text, parse_file_keep_mode, load_hash_denylist,
}
use stonr.Config.Profiles.Merge.{AppSupportLock, load_app_support_status}
use stonr.Filter.{Value}
use stonr.Files.{FileSettings}
use stonr.Policy.{Settings}
use stonr.Session.{Access}

-- `rest.parse().unwrap_or(0)` behind `fixed:`.
since_mode : Option String → SinceMode
unfolding parse_u64
since_mode none = cursor
since_mode (some rest) = fixed (unwrap_or (parse_u64 rest) 0)

unfoldable pub load_relay : Env → String → String → RelaySettings
unfolding env_value flag env_strings env_positive
load_relay env store_root bind_http = record {
  store_root = store_root;
  bind_http = bind_http;
  verify_sig = flag env "VERIFY_SIG" "0";
  relay_name = unwrap_or (env_value env "RELAY_NAME") "stonr";
  relay_description = unwrap_or (env_value env "RELAY_DESCRIPTION") "File-backed Nostr relay";
  enable_nip11 = flag env "ENABLE_NIP11" "1";
  enable_mirroring = flag env "ENABLE_MIRRORING" "1";
  pinned_event_ids = env_strings env "PIN_EVENT_IDS";
  protect_pinned_from_deletes = flag env "PIN_PROTECT_FROM_DELETES" "1";
  support_nip11 = flag env "SUPPORT_NIP11" "1";
  max_stored_events = env_positive env "MAX_STORED_EVENTS";
  max_stored_event_bytes = env_positive env "MAX_STORED_EVENT_BYTES";
}

unfoldable pub load_access : Env → String → Access
unfolding env_value flag parse_u64
load_access env bind_ws = record {
  bind_ws = bind_ws;
  enable_query = flag env "ENABLE_QUERY" "1";
  enable_publish = flag env "ENABLE_PUBLISH" "1";
  enable_live_subscriptions = flag env "ENABLE_LIVE_SUBSCRIPTIONS" "1";
  enable_count = flag env "ENABLE_COUNT" "1";
  enable_tag_queries = flag env "ENABLE_TAG_QUERIES" "1";
  enable_search = flag env "ENABLE_SEARCH" "1";
  enable_nip42 = flag env "ENABLE_NIP42" "0";
  require_auth_for_query = flag env "REQUIRE_AUTH_FOR_QUERY" "0";
  require_auth_for_count = flag env "REQUIRE_AUTH_FOR_COUNT" "0";
  require_auth_for_publish = flag env "REQUIRE_AUTH_FOR_PUBLISH" "0";
  auth_must_match_event_pubkey = flag env "AUTH_MUST_MATCH_EVENT_PUBKEY" "0";
  auth_max_age_secs = unwrap_or (Option.bind (env_value env "AUTH_MAX_AGE_SECS") parse_u64) 600;
  support_nip09 = flag env "SUPPORT_NIP09" "1";
  support_nip12 = flag env "SUPPORT_NIP12" "1";
  support_nip40 = flag env "SUPPORT_NIP40" "1";
  support_nip42 = flag env "SUPPORT_NIP42" "1";
  support_nip45 = flag env "SUPPORT_NIP45" "1";
  support_nip50 = flag env "SUPPORT_NIP50" "1";
}

unfoldable pub load_policy : Env → Settings
unfolding flag env_strings env_numbers env_positive
load_policy env = record {
  owner_pubkeys = env_strings env "OWNER_PUBKEYS";
  filter_private_messages = flag env "FILTER_PRIVATE_MESSAGES" "1";
  blocked_pubkeys = env_strings env "DENY_PUBKEYS";
  allowed_pubkeys = env_strings env "ALLOW_PUBKEYS";
  blocked_kinds = env_numbers env "DENY_KINDS";
  allowed_kinds = env_numbers env "ALLOW_KINDS";
  max_event_bytes = env_positive env "MAX_EVENT_BYTES";
  max_event_age_secs = env_positive env "MAX_EVENT_AGE_SECS";
  max_event_future_secs = env_positive env "MAX_EVENT_FUTURE_SECS";
  max_limit = env_positive env "MAX_LIMIT";
  rate_limit_window_secs = env_positive env "RATE_LIMIT_WINDOW_SECS";
  max_queries_per_window = env_positive env "MAX_QUERIES_PER_WINDOW";
  max_counts_per_window = env_positive env "MAX_COUNTS_PER_WINDOW";
  max_publishes_per_window = env_positive env "MAX_PUBLISHES_PER_WINDOW";
}

unfoldable pub load_mirror : Env → MirrorSettings
unfolding env_value flag csv_strings env_strings env_numbers env_text since_mode strip_prefix
load_mirror env = record {
  follow_pubkeys = env_strings env "FOLLOW_PUBKEYS";
  relays_upstream = csv_strings (unwrap_or (env_value env "RELAYS_UPSTREAM") "");
  tor_socks = env_text env "TOR_SOCKS" is_empty_text;
  filter_authors = env_strings env "FILTER_AUTHORS";
  filter_kinds = env_numbers env "FILTER_KINDS";
  filter_tag_t = env_strings env "FILTER_TAG_T";
  filter_tag_a = env_strings env "FILTER_TAG_A";
  filter_since_mode =
      since_mode (strip_prefix (unwrap_or (env_value env "FILTER_SINCE_MODE") "cursor") "fixed:");
  mirror_mode = if unwrap_or (env_value env "MIRROR_MODE") "broad" == "site" then site else broad;
  mirror_site_author = env_text env "MIRROR_SITE_AUTHOR" is_empty_text;
  mirror_site_include_comments = flag env "MIRROR_SITE_INCLUDE_COMMENTS" "1";
}

lowercase_all : Option (List String) → Option (List String)
unfolding to_ascii_lowercase
lowercase_all values = Option.map (map to_ascii_lowercase) values

unfoldable pub load_files : (String → Option String) → Env → FileSettings
unfolding env_value flag env_strings env_positive lowercase_all load_hash_denylist
    parse_file_keep_mode
load_files read_file env = record {
  enable_file_metadata = flag env "ENABLE_FILE_METADATA" "1";
  support_nip94 = flag env "SUPPORT_NIP94" "1";
  file_max_bytes = unwrap_or (env_positive env "FILE_MAX_BYTES") (32 * 1024 * 1024);
  file_allowed_mime = lowercase_all (env_strings env "FILE_ALLOW_MIME");
  file_blocked_mime = lowercase_all (env_strings env "FILE_DENY_MIME");
  file_hash_denylist = load_hash_denylist read_file env;
  file_keep_mode = parse_file_keep_mode (env_value env "FILE_KEEP_MODE");
  max_blob_bytes_per_pubkey = env_positive env "MAX_BLOB_BYTES_PER_PUBKEY";
}

unfoldable pub load_api : Env → ApiSettings
unfolding flag env_text is_blank
load_api env = record {
  support_nip96 = flag env "SUPPORT_NIP96" "1";
  support_nip98 = flag env "SUPPORT_NIP98" "1";
  support_nip_b7 = flag env "SUPPORT_NIP_B7" "1";
  enable_file_api = flag env "ENABLE_FILE_API" "1";
  enable_blossom = flag env "ENABLE_BLOSSOM" "1";
  enable_blossom_list = flag env "ENABLE_BLOSSOM_LIST" "1";
  enable_blossom_mirror = flag env "ENABLE_BLOSSOM_MIRROR" "0";
  require_nip98_auth = flag env "REQUIRE_NIP98_AUTH" "0";
  require_blossom_auth = flag env "REQUIRE_BLOSSOM_AUTH" "0";
  require_blossom_get_auth = flag env "REQUIRE_BLOSSOM_GET_AUTH" "0";
  file_api_url = env_text env "FILE_API_URL" is_blank;
  blossom_public_url = env_text env "BLOSSOM_PUBLIC_URL" is_blank;
}

unfoldable pub settings_of : (String → Option String) → Env → Result AllSettings
unfolding required_env load_relay load_access load_policy load_mirror load_files load_api
settings_of read_file env = do
  store_root ← required_env env "STORE_ROOT"
  bind_http ← required_env env "BIND_HTTP"
  bind_ws ← required_env env "BIND_WS"
  ok (record {
    relay = load_relay env store_root bind_http;
    access = load_access env bind_ws;
    policy = load_policy env;
    mirror = load_mirror env;
    files = load_files read_file env;
    api = load_api env;
  })

apply_locks : List AppSupportLock → Env → Env
unfolding put
apply_locks [] env = env
apply_locks (lock ∷ locks) env = apply_locks locks (put lock.env_key lock.value env)

-- `apply_env_overrides`, for the paths that the list file holds.
unfoldable pub apply_env_overrides :
    (String → Result Value) → Result (List String) → Env → Result Env
unfolding load_app_support_status apply_locks
apply_env_overrides read_profile list env = do
  paths ← list
  status ← load_app_support_status read_profile paths
  ok (apply_locks status.locks env)

-- `from_env`, on the text of the environment file.
unfoldable pub from_env :
    (String → Option String)
    → (String → Result Value)
    → Result (List String)
    → String
    → Result AllSettings
unfolding parse_env_file apply_env_overrides settings_of
from_env read_file read_profile list text = do
  env ← apply_env_overrides read_profile list (parse_env_file text)
  settings_of read_file env
