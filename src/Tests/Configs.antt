-- ===== src/Tests/Configs.antt =====
-- The theorems on settings at small environment files.
use mathlib.Core.Option
use stonr.Base.{
  String, ◌≡◌, ◌≢◌, refl, true, none, some, [], ◌∷◌, Result, ok, err, panic, All, In, inl, inr,
  ◌==◌, if◌then◌else◌,
}
use stonr.Base.TextParts.{trim}
use stonr.Config.{AllSettings, MirrorSettings, cursor, broad, mirror_authors}
use stonr.Config.Bounds.{enforce_rate_limit-ne-panic}
use stonr.Config.Lists.{join, has_char, IsItem, csv_strings-join}
use stonr.Config.Load.{
  from_env, load_mirror, load_relay, load_access, load_policy, load_files, load_api,
}
use stonr.Config.Parse.{Env, csv_strings, parse_env_file}
use stonr.Config.Profiles.{NormalizedSetting, csv_text}
use stonr.Config.Profiles.Merge.{
  AppSupportLock, AppSupportStatus, load_app_support_status, parse_settings_map,
}
use stonr.Config.Profiles.Merge.Agrees.{Agrees}
use stonr.Config.Profiles.Merge.Locks.{load_app_support_status-Agrees}
use stonr.Filter.{Value, text, boolean, array, object, value, no_values, member, no_members}
use stonr.Policy.{query, enforce_rate_limit}
use stonr.Tests.Sample.{sample}

abbrev env_text : String
env_text =
    "STORE_ROOT=/s\nBIND_HTTP = h\nBIND_WS=w\nRATE_LIMIT_WINDOW_SECS=0\nMAX_QUERIES_PER_WINDOW=1"

abbrev env : Env
env = parse_env_file env_text

abbrev loaded : AllSettings
loaded = record {
  relay = load_relay env "/s" "h";
  access = load_access env "w";
  policy = load_policy env;
  mirror = load_mirror env;
  files = load_files (λ _. none) env;
  api = load_api env;
}

settings-loaded : from_env (λ _. none) (λ _. err "") (ok []) env_text ≡ ok loaded
unfolding from_env
settings-loaded = refl

enforce_rate_limit-ne-panic_example :
    enforce_rate_limit loaded.policy query "local" 7 (λ key. none) ≢ panic
enforce_rate_limit-ne-panic_example =
    enforce_rate_limit-ne-panic (λ _. none) (λ _. err "") (ok []) env_text loaded query "local" 7
      (λ key. none) settings-loaded

two_items : All IsItem ("wss://a" ∷ "b c" ∷ [])
unfolding has_char trim
two_items = ((refl, refl, refl), ((refl, refl, refl), tt))

items-read_back : csv_strings (join ("wss://a" ∷ "b c" ∷ [])) ≡ "wss://a" ∷ "b c" ∷ []
items-read_back = csv_strings-join ("wss://a" ∷ "b c" ∷ []) two_items

abbrev mirrored : MirrorSettings
mirrored = record {
  follow_pubkeys = some ("b" ∷ "a" ∷ []);
  relays_upstream = [];
  tor_socks = none;
  filter_authors = some ("c" ∷ "b" ∷ []);
  filter_kinds = none;
  filter_tag_t = none;
  filter_tag_a = none;
  filter_since_mode = cursor;
  mirror_mode = broad;
  mirror_site_author = none;
  mirror_site_include_comments = true;
}

mirrored-authors : mirror_authors mirrored ≡ some ("a" ∷ "b" ∷ "c" ∷ [])
unfolding mirror_authors
mirrored-authors = refl

-- Two profiles that follow authors, of which the second also asks for signature checks.
abbrev profile : String → Value → Value
profile name settings = object (member "name" (text name) (member "settings" settings no_members))

abbrev profile_file : String → Result Value
profile_file path =
    if path == "a"
    then ok (profile "One" (object (member "FOLLOW_PUBKEYS" (text "x,y") no_members)))
    else ok (
        profile "Two" (
          object (
            member "FOLLOW_PUBKEYS" (array (value (text "z") no_values))
              (member "VERIFY_SIG" (boolean true) no_members))))

abbrev status_of : Result AppSupportStatus → AppSupportStatus
status_of (ok status) = status
status_of _ = record { profiles = []; locks = [] }

abbrev status : AppSupportStatus
status = status_of (load_app_support_status profile_file ("b" ∷ "a" ∷ []))

profiles-loaded : load_app_support_status profile_file ("b" ∷ "a" ∷ []) ≡ ok status
unfolding load_app_support_status Option.bind
profiles-loaded = refl

abbrev follows : NormalizedSetting
follows = record { env_key = "FOLLOW_PUBKEYS"; merge_kind = csv_text; value = "x,y" }

follows-parsed :
    parse_settings_map (profile "One" (object (member "FOLLOW_PUBKEYS" (text "x,y") no_members)))
    ≡ ok (follows ∷ [])
unfolding parse_settings_map
follows-parsed = refl

load_app_support_status-Agrees_example :
    (lock : AppSupportLock) × In lock status.locks
    × (◌≡◌ {A = String} lock.env_key "FOLLOW_PUBKEYS")
    × Agrees csv_text "x,y" lock.value
load_app_support_status-Agrees_example =
    load_app_support_status-Agrees profile_file ("b" ∷ "a" ∷ []) status "a"
      (profile "One" (object (member "FOLLOW_PUBKEYS" (text "x,y") no_members))) (follows ∷ [])
      follows profiles-loaded (inr (inl refl)) refl follows-parsed (inl refl)
