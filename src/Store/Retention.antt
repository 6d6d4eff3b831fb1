-- ===== src/Store/Retention.antt =====
-- stonr/src/storage.rs: the rebuild of all that is derived from `events/`, and the retention limits.
pub mod Records
pub mod Rebuild
pub mod Prune
pub mod Removal
pub mod Enforce
pub mod Background
use stonr.Base.{
  ℕ, ◌+◌, ◌-◌, ◌%◌, ◌^◌, String, Bool, Option, none, some, List, [], ◌∷◌, ◌==◌, ◌&&◌, ◌||◌, not,
  keep, length, nat_eq, ltb, if◌then◌else◌, Result, ok, ◌>>=◌, unwrap_or,
}
use stonr.Base.Sort.{sort_by}
use stonr.Base.TextOrder.{str_leb}
use stonr.Event.{Event}
use stonr.External.{External}
use stonr.Store.{Store, Disk, EventFile, StoredEventRecord, empty}
use stonr.Store.Index.{index_event, write_mirror_links}
use stonr.Store.Ingest.{append_log}
use stonr.Store.Status.{
  retention_limits_exceeded, has_no_limits, write_retention_status, write_stats_cache,
}
use stonr.Store.Tombstones.{apply_delete_event}
use stonr.Store.Visibility.{event_is_retention_protected}

add_record : String → EventFile → Option Event → List StoredEventRecord → List StoredEventRecord
add_record path file none records = records
add_record path file (some event) records =
    record {
      id = event.id;
      created_at = event.created_at;
      size_bytes = file.size_bytes;
      path = path;
      event = event;
    }
    ∷ records

-- `load_event_records`: a file that cannot be read or parsed is passed over.
unfoldable pub load_event_records : List (String × EventFile) → List StoredEventRecord
unfolding add_record
load_event_records [] = []
load_event_records ((path, file) ∷ files) =
    add_record path file file.body (load_event_records files)

-- The order of `sorted_event_records`, "not after": oldest first, the smaller id first at one time.
unfoldable pub oldest_first : StoredEventRecord → StoredEventRecord → Bool
oldest_first left right =
    ltb left.created_at right.created_at
    || nat_eq left.created_at right.created_at && str_leb left.id right.id

unfoldable pub sorted_event_records : Disk → List StoredEventRecord
unfolding load_event_records oldest_first sort_by
sorted_event_records disk = sort_by oldest_first (load_event_records disk.events)

-- The sum of the sizes in `u64` arithmetic.
unfoldable pub total_size : List StoredEventRecord → ℕ
total_size [] = 0
total_size (r ∷ records) = (r.size_bytes + total_size records) % 2 ^ 64

-- `fs::remove_file(&record.path)`
unfoldable pub remove_file : String → List (String × EventFile) → List (String × EventFile)
unfolding keep
remove_file path files = keep (λ file. not (file.0 == path)) files

-- What the loop of `enforce_retention_from_records` keeps: the records that stay, those that go,
-- and the totals at its end.
pub record Pruned : Type 0 where
  pub kept : List StoredEventRecord
  pub removed : List StoredEventRecord
  pub total_events : ℕ
  pub total_bytes : ℕ

unfoldable pub prune : Store → ℕ → ℕ → List StoredEventRecord → Pruned
prune store events bytes [] = record {
  kept = [];
  removed = [];
  total_events = events;
  total_bytes = bytes;
}
prune store events bytes (r ∷ records) =
    let without = prune store (events - 1) (bytes - r.size_bytes) records in
    let with_it = prune store events bytes records in
    if retention_limits_exceeded store events bytes
      && not (event_is_retention_protected store r.event)
    then record without { removed = r ∷ without.removed }
    else record with_it { kept = r ∷ with_it.kept }

unfoldable pub remove_files : List StoredEventRecord → Disk → Disk
unfolding remove_file
remove_files [] disk = disk
remove_files (r ∷ records) disk =
    remove_files records (record disk { events = remove_file r.path disk.events })

-- The directories that are removed and made anew; `events/` and `runtime/` stay.
unfoldable pub clear_metadata : Disk → Disk
clear_metadata disk = record empty {
  events = disk.events;
  stats = disk.stats;
  status = disk.status;
}

-- The status that is written where no limit is configured.
unfoldable pub report_disabled : Store → ℕ → Disk → Disk
unfolding write_retention_status
report_disabled store now disk =
    let counts = unwrap_or disk.stats (0, 0) in
    write_retention_status store now counts.0 counts.1 none none disk

module _ ⦃x : External⦄ where
  -- The body of the loop of `rebuild_metadata_from_records`.
  unfoldable pub rebuild_record : Event → Disk → Result Disk
  unfolding index_event write_mirror_links apply_delete_event append_log
  rebuild_record event disk = do
    linked ← write_mirror_links event (index_event event disk)
    ok (append_log event (if nat_eq event.kind 5 then apply_delete_event event linked else linked))

  unfoldable pub rebuild_records : List StoredEventRecord → Disk → Result Disk
  unfolding rebuild_record
  rebuild_records [] disk = ok disk
  rebuild_records (r ∷ records) disk = do
    rebuilt ← rebuild_record r.event disk
    rebuild_records records rebuilt

  unfoldable pub rebuild_metadata_from_records :
      Store → ℕ → List StoredEventRecord → Disk → Result Disk
  unfolding rebuild_records clear_metadata write_stats_cache total_size
  rebuild_metadata_from_records store now records disk = do
    rebuilt ← rebuild_records records (clear_metadata disk)
    ok (write_stats_cache store now (length records) (total_size records) rebuilt)

  -- `rebuild_metadata`, which is `reindex` under the lock.
  unfoldable pub rebuild_metadata : Store → ℕ → Disk → Result Disk
  unfolding rebuild_metadata_from_records sorted_event_records
  rebuild_metadata store now disk =
      rebuild_metadata_from_records store now (sorted_event_records disk) disk

  -- The metadata after the loop: rebuilt if a file went, else only the counts are written.
  settle : Store → ℕ → Pruned → Disk → Result Disk
  settle store now pruned disk = elim pruned.removed [
    | [] ↦ ok (write_stats_cache store now pruned.total_events pruned.total_bytes disk)
    | _ ∷ _ ↦ rebuild_metadata_from_records store now pruned.kept (remove_files pruned.removed disk)
  ]

  unfoldable pub enforce_retention_from_records :
      Store → ℕ → List StoredEventRecord → Disk → Result (Disk × ℕ)
  unfolding prune settle rebuild_metadata_from_records remove_files write_retention_status
      total_size
  enforce_retention_from_records store now records disk = do
    let pruned = prune store (length records) (total_size records) records
    settled ← settle store now pruned disk
    let removed = length pruned.removed
    ok (
      write_retention_status store now pruned.total_events pruned.total_bytes (some now)
          (some removed) settled,
      removed,
    )

  -- `enforce_retention_locked`
  unfoldable pub enforce_retention : Store → ℕ → Disk → Result (Disk × ℕ)
  unfolding enforce_retention_from_records report_disabled has_no_limits sorted_event_records
  enforce_retention store now disk =
      if has_no_limits store
      then ok (report_disabled store now disk, 0)
      else enforce_retention_from_records store now (sorted_event_records disk) disk
