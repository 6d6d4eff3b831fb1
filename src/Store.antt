-- ===== src/Store.antt =====
-- stonr/src/storage.rs: the settings of the store and what it keeps on disk.
-- A directory whose files are only read and written by name is a function from the name to the
-- content; `events/`, which is also walked, is a list in the order of the walk. The name of a file
-- is the typed key that the code's path is made from.
pub mod Index
pub mod Tombstones
pub mod Visibility
pub mod Read
pub mod Consistent
pub mod Frame
pub mod Status
pub mod Ingest
pub mod IngestLaws
pub mod IngestResult
pub mod Retention
pub mod System
pub mod Lock
use stonr.Base.{ℕ, String, Bool, Option, none, List, [], keep, not}
use stonr.Base.Text.{is_blank}
use stonr.Event.{Event}

-- `Store`, less its root directory; the sets of pinned keys are lists.
pub record Store : Type 0 where
  pub verify_sig : Bool
  pub max_stored_events : Option ℕ
  pub max_stored_event_bytes : Option ℕ
  pub pinned_pubkeys : List String
  pub pinned_event_ids : List String
  pub protect_pinned_from_deletes : Bool

unfoldable pub with_limits_and_pins :
    Bool → Option ℕ → Option ℕ → List String → List String → Bool → Store
unfolding is_blank keep
with_limits_and_pins verify_sig max_events max_bytes pubkeys event_ids protect = record {
  verify_sig = verify_sig;
  max_stored_events = max_events;
  max_stored_event_bytes = max_bytes;
  pinned_pubkeys = keep (λ value. not (is_blank value)) pubkeys;
  pinned_event_ids = keep (λ value. not (is_blank value)) event_ids;
  protect_pinned_from_deletes = protect;
}

-- A file under `events/`: its size, and the event that it parses to. `none` is a file that cannot
-- be read or parsed.
pub record EventFile : Type 0 where
  pub size_bytes : ℕ
  pub body : Option Event

pub record StoredEventRecord : Type 0 where
  pub id : String
  pub created_at : ℕ
  pub size_bytes : ℕ
  pub path : String
  pub event : Event

pub record DeleteTombstone : Type 0 where
  pub pubkey : String
  pub created_at : ℕ
  pub delete_event_id : String

pub record RetentionStatus : Type 0 where
  pub state : String
  pub current_events : ℕ
  pub current_bytes : ℕ
  pub max_events : Option ℕ
  pub max_bytes : Option ℕ
  pub over_event_limit : Bool
  pub over_byte_limit : Bool
  pub warning : Option String
  pub last_checked_at : ℕ
  pub last_prune_at : Option ℕ
  pub last_prune_removed : Option ℕ
  pub last_error_at : Option ℕ
  pub last_error : Option String

-- `index/by-author/<pubkey>.txt`, `index/by-kind/<kind>.txt` and `index/by-tag/<tag>/<hash>.txt`
pub data IndexKey : Type 0 where
  by_author : String → IndexKey
  by_kind : ℕ → IndexKey
  by_tag : String → String → IndexKey

-- `mirror/authors/<pubkey>/<time>-<id>.json` and `mirror/kinds/<kind>/<time>-<id>.json`
pub data MirrorKey : Type 0 where
  of_author : String → ℕ → String → MirrorKey
  of_kind : ℕ → ℕ → String → MirrorKey

pub record Disk : Type 0 where
  -- `events/`, by the id that names the file
  pub events : List (String × EventFile)
  -- the lines of `log/events.ndjson`
  pub log : List Event
  -- the lines of each index file; a file that is not there has none
  pub index : IndexKey → List String
  -- `latest/<pubkey>.<kind>.<d>`
  pub latest : String → Option String
  pub mirror : MirrorKey → Option String
  -- `tombstones/by-id/<id>.json` and `tombstones/by-address/<hash>.json`; `none` is a file that is
  -- missing, unreadable or malformed
  pub id_tombstones : String → Option DeleteTombstone
  pub address_tombstones : String → Option DeleteTombstone
  -- `runtime/events-count.cache` and `runtime/events-bytes.cache`, where both hold a number
  pub stats : Option (ℕ × ℕ)
  -- `runtime/retention-status.json`
  pub status : Option RetentionStatus

-- A store root with no file in it.
abbrev pub empty : Disk
empty = record {
  events = [];
  log = [];
  index = λ _. [];
  latest = λ _. none;
  mirror = λ _. none;
  id_tombstones = λ _. none;
  address_tombstones = λ _. none;
  stats = none;
  status = none;
}
