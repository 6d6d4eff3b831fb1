-- ===== src/Store/Retention/Background.antt =====
-- stonr/src/storage.rs: the retention pass that does not wait for the lock, and the recount of the
-- cached statistics.
pub mod Unchanged
use stonr.Base.{
  ℕ, suc, ◌+◌, ◌%◌, ◌^◌, ◌≤◌, ◌<◌, String, Bool, true, false, Option, none, List, [], ◌∷◌, ◌||◌,
  not, length, nat_eq, if◌then◌else◌, is_some_and, In, Result, ok, ◌>>=◌, ◌≡◌, refl, arith, inl,
  inr,
}
use mathlib.Core.Path.{subst}
use stonr.Base.Sort.{insert_by, sort_by}
use stonr.External.{External}
use stonr.Store.{Store, Disk, EventFile, StoredEventRecord}
use stonr.Store.Retention.{
  add_record, load_event_records, oldest_first, sorted_event_records, total_size, report_disabled,
  enforce_retention_from_records, enforce_retention,
}
use stonr.Store.Status.{
  has_no_limits, retention_limits_exceeded, write_retention_status, write_stats_cache,
}

pub data RetentionPassOutcome : Type 0 where
  disabled within_limits busy changed : RetentionPassOutcome
  applied : ℕ → RetentionPassOutcome

-- The sizes of all files, parsed or not, in `u64` arithmetic.
file_bytes : List (String × EventFile) → ℕ
file_bytes [] = 0
file_bytes ((path, file) ∷ files) = (file.size_bytes + file_bytes files) % 2 ^ 64

unfoldable pub refresh_stats_cache : Store → ℕ → Disk → Disk
unfolding write_stats_cache file_bytes
refresh_stats_cache store now disk =
    write_stats_cache store now (length disk.events) (file_bytes disk.events) disk

-- Whether the cached counts, if there are any, are others than those of the walk.
unfoldable pub counts_differ : Option (ℕ × ℕ) → ℕ → ℕ → Bool
counts_differ stats events bytes =
    is_some_and stats (λ counts. not (nat_eq counts.0 events) || not (nat_eq counts.1 bytes))

module _ ⦃x : External⦄ where
  -- `enforce_retention_background`: the records come from a walk without the lock, of the root
  -- directory `walked`; `disk` is the directory when the lock is tried, and `free` whether it is had.
  unfoldable pub enforce_retention_background :
      Store → ℕ → Disk → Bool → Disk → Result (Disk × RetentionPassOutcome)
  unfolding counts_differ report_disabled write_retention_status
  enforce_retention_background store now walked free disk =
      let records = sorted_event_records walked in
      let events = length records in
      let bytes = total_size records in
      if has_no_limits store
      then ok (report_disabled store now disk, disabled)
      else if not (retention_limits_exceeded store events bytes)
      then ok (write_retention_status store now events bytes none none disk, within_limits)
      else if not free
      then ok (disk, busy)
      else if counts_differ disk.stats events bytes
      then ok (disk, changed)
      else do
        (after, removed) ← enforce_retention_from_records store now records disk
        ok (after, applied removed)

length-insert_by :
    (r : StoredEventRecord) (records : List StoredEventRecord)
    → length (insert_by oldest_first r records) ≡ suc (length records)
unfolding insert_by
length-insert_by r [] = refl
length-insert_by r (q ∷ records) = ground (arith, length-insert_by r records)

length-sort_by :
    (records : List StoredEventRecord) → length (sort_by oldest_first records) ≡ length records
unfolding sort_by
length-sort_by [] = refl
length-sort_by (r ∷ records) =
    omega (arith, length-insert_by r (sort_by oldest_first records), length-sort_by records)

length-load_event_records-le :
    (files : List (String × EventFile)) → length (load_event_records files) ≤ length files
unfolding load_event_records add_record
length-load_event_records-le [] = omega arith
length-load_event_records-le ((path, file) ∷ files) =
    ground (arith, length-load_event_records-le files)

-- A file that does not parse has no record.
length-load_event_records-lt :
    (path : String) (file : EventFile) (files : List (String × EventFile))
    → In (path, file) files
    → file.body ≡ none
    → length (load_event_records files) < length files
unfolding load_event_records add_record
length-load_event_records-lt path file [] m h = absurd m
length-load_event_records-lt path file ((name, f) ∷ files) (inl e) h =
    let h' : f.body ≡ none = subst (λ g. g.body ≡ none) (λ i. (e i).1) h in
    ground (arith, length-load_event_records-le files, h')
length-load_event_records-lt path file ((name, f) ∷ files) (inr m) h =
    ground (arith, length-load_event_records-lt path file files m h)

module _ ⦃x : External⦄ where
  records-refresh_stats_cache :
      (store : Store) (now : ℕ) (disk : Disk)
      → sorted_event_records (refresh_stats_cache store now disk) ≡ sorted_event_records disk
  unfolding refresh_stats_cache write_stats_cache write_retention_status sorted_event_records
  records-refresh_stats_cache store now disk = refl

  counts-refresh_stats_cache :
      (store : Store) (now : ℕ) (path : String) (file : EventFile) (disk : Disk)
      → In (path, file) disk.events
      → file.body ≡ none
      → let counted = refresh_stats_cache store now disk in
        counts_differ counted.stats
          (length (sorted_event_records counted))
          (total_size (sorted_event_records counted))
        ≡ true
  unfolding refresh_stats_cache write_stats_cache write_retention_status sorted_event_records
      counts_differ
  counts-refresh_stats_cache store now path file disk m h = ground (
    arith,
    length-sort_by (load_event_records disk.events),
    length-load_event_records-lt path file disk.events m h,
  )

  -- While some file under `events/` does not parse, a background pass after a recount removes
  -- nothing, however far the limits are exceeded and though nobody else writes: the recount counts
  -- that file and the pass does not, and it takes the difference for a change.
  pub enforce_retention_background-refresh_stats_cache :
      (store : Store) (earlier now : ℕ) (path : String) (file : EventFile) (disk : Disk)
      → In (path, file) disk.events
      → file.body ≡ none
      → has_no_limits store ≡ false
      → retention_limits_exceeded store
          (length (sorted_event_records disk))
          (total_size (sorted_event_records disk))
        ≡ true
      → let counted = refresh_stats_cache store earlier disk in
        enforce_retention_background store now counted true counted ≡ ok (counted, changed)
  unfolding enforce_retention_background
  enforce_retention_background-refresh_stats_cache store earlier now path file disk m h limited
        over =
      let counted = refresh_stats_cache store earlier disk in
      let same = records-refresh_stats_cache store earlier disk in
      let still : retention_limits_exceeded store (length (sorted_event_records counted))
            (total_size (sorted_event_records counted))
          ≡ true =
        rw (same, total_size, retention_limits_exceeded) over in
      let differ = counts-refresh_stats_cache store earlier path file disk m h in
      rw (limited, still, differ) refl

  -- With the lock, limits that are exceeded, and cached counts that agree or are missing, a
  -- background pass over a directory that nobody changed does what `enforce_retention` does, and
  -- reports how many events it removed.
  pub enforce_retention_background-enforce_retention :
      (store : Store) (now : ℕ) (disk : Disk)
      → let records = sorted_event_records disk in
        has_no_limits store ≡ false
        → retention_limits_exceeded store (length records) (total_size records) ≡ true
        → counts_differ disk.stats (length records) (total_size records) ≡ false
        → enforce_retention_background store now disk true disk
          ≡ (enforce_retention store now disk >>= λ run. ok (run.0, applied run.1))
  unfolding enforce_retention_background enforce_retention
  enforce_retention_background-enforce_retention store now disk limited over agree =
      rw (limited, over, agree) refl
