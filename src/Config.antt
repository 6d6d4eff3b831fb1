-- ===== src/Config.antt =====
-- stonr/src/config.rs: the settings, in the groups that the parts of the relay read, and the
-- switches that combine several of them.
pub mod Parse
pub mod Load
pub mod Bounds
pub mod Lists
pub mod Items
pub mod Mirrored
pub mod Profiles
use stonr.Base.{ℕ, String, Bool, Option, none, some, List, [], ◌∷◌, ◌++◌, ◌&&◌, unwrap_or}
use stonr.Base.Sort.{sort_by}
use stonr.Base.TextOrder.{str_leb, dedup}
use stonr.Files.{FileSettings}
use stonr.Policy.{Settings}
use stonr.Session.{Access}

pub data SinceMode : Type 0 where
  cursor : SinceMode
  fixed : ℕ → SinceMode

pub data MirrorMode : Type 0 where
  broad site : MirrorMode

pub record MirrorSettings : Type 0 where
  pub follow_pubkeys : Option (List String)
  pub relays_upstream : List String
  pub tor_socks : Option String
  pub filter_authors : Option (List String)
  pub filter_kinds : Option (List ℕ)
  pub filter_tag_t : Option (List String)
  pub filter_tag_a : Option (List String)
  pub filter_since_mode : SinceMode
  pub mirror_mode : MirrorMode
  pub mirror_site_author : Option String
  pub mirror_site_include_comments : Bool

pub record ApiSettings : Type 0 where
  pub support_nip96 : Bool
  pub support_nip98 : Bool
  pub support_nip_b7 : Bool
  pub enable_file_api : Bool
  pub enable_blossom : Bool
  pub enable_blossom_list : Bool
  pub enable_blossom_mirror : Bool
  pub require_nip98_auth : Bool
  pub require_blossom_auth : Bool
  pub require_blossom_get_auth : Bool
  pub file_api_url : Option String
  pub blossom_public_url : Option String

-- The fields of no other group.
pub record RelaySettings : Type 0 where
  pub store_root : String
  pub bind_http : String
  pub verify_sig : Bool
  pub relay_name : String
  pub relay_description : String
  pub enable_nip11 : Bool
  pub enable_mirroring : Bool
  pub pinned_event_ids : Option (List String)
  pub protect_pinned_from_deletes : Bool
  pub support_nip11 : Bool
  pub max_stored_events : Option ℕ
  pub max_stored_event_bytes : Option ℕ

pub record AllSettings : Type 0 where
  pub relay : RelaySettings
  pub access : Access
  pub policy : Settings
  pub mirror : MirrorSettings
  pub files : FileSettings
  pub api : ApiSettings

abbrev pub relay_info_enabled : RelaySettings → Bool
relay_info_enabled s = s.enable_nip11 && s.support_nip11

abbrev pub file_api_enabled : ApiSettings → Bool
file_api_enabled s = s.enable_file_api && s.support_nip96

abbrev pub blossom_enabled : ApiSettings → Bool
blossom_enabled s = s.enable_blossom && s.support_nip_b7

abbrev pub blossom_list_enabled : ApiSettings → Bool
blossom_list_enabled s = blossom_enabled s && s.enable_blossom_list

abbrev pub blossom_mirror_enabled : ApiSettings → Bool
blossom_mirror_enabled s = blossom_enabled s && s.enable_blossom_mirror

abbrev pub nip98_auth_required : ApiSettings → Bool
nip98_auth_required s = file_api_enabled s && (s.support_nip98 && s.require_nip98_auth)

abbrev pub blossom_write_auth_required : ApiSettings → Bool
blossom_write_auth_required s = blossom_enabled s && s.require_blossom_auth

abbrev pub blossom_get_auth_required : ApiSettings → Bool
blossom_get_auth_required s = blossom_enabled s && s.require_blossom_get_auth

-- `merged.is_empty()`, and the sorted list without repetitions otherwise.
unfoldable pub sorted_or_none : List String → Option (List String)
unfolding sort_by dedup
sorted_or_none [] = none
sorted_or_none (a ∷ l) = some (dedup (sort_by str_leb (a ∷ l)))

unfoldable pub mirror_authors : MirrorSettings → Option (List String)
unfolding sorted_or_none
mirror_authors s = sorted_or_none (unwrap_or s.filter_authors [] ++ unwrap_or s.follow_pubkeys [])
