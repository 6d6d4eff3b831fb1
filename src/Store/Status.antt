-- ===== src/Store/Status.antt =====
-- stonr/src/storage.rs: the cached counts and the retention status file.
use Prim.Native.String.{◌++◌ as str_append}
use stonr.Base.{
  ℕ, String, Bool, true, false, Option, none, some, ◌&&◌, ◌||◌, not, ltb, if◌then◌else◌, is_some,
  is_some_and, or_else, unwrap_or, saturating_add,
}
use stonr.Base.Text.{to_decimal}
use stonr.Store.{Store, Disk, RetentionStatus}

-- The limits that `current_events` and `current_bytes` may be over: `.map(|l| n > l).unwrap_or(false)`
unfoldable pub over_limit : Option ℕ → ℕ → Bool
over_limit limit current = is_some_and limit (λ limit. ltb limit current)

unfoldable pub retention_limits_exceeded : Store → ℕ → ℕ → Bool
unfolding over_limit
retention_limits_exceeded store total_events total_bytes =
    over_limit store.max_stored_events total_events
    || over_limit store.max_stored_event_bytes total_bytes

excess : ℕ → Option ℕ → String
excess current limit =
    str_append (to_decimal current) (str_append " > " (to_decimal (unwrap_or limit 0)))

-- `retention_warning`
unfoldable pub retention_warning : Bool → Bool → Option ℕ → Option ℕ → ℕ → ℕ → Option String
unfolding excess
retention_warning true true max_events max_bytes events bytes = some (
    str_append "Retention is over both caps (events: " (
      str_append (excess events max_events)
        (str_append ", bytes: " (str_append (excess bytes max_bytes) ")."))))
retention_warning true false max_events max_bytes events bytes =
    some
      (str_append "Retention is over the event cap (" (str_append (excess events max_events) ")."))
retention_warning false true max_events max_bytes events bytes =
    some (str_append "Retention is over the byte cap (" (str_append (excess bytes max_bytes) ")."))
retention_warning false false max_events max_bytes events bytes = none

-- Neither limit is configured.
unfoldable pub has_no_limits : Store → Bool
has_no_limits store =
    not (is_some store.max_stored_events) && not (is_some store.max_stored_event_bytes)

unfoldable pub build_retention_status : Store → ℕ → ℕ → ℕ → RetentionStatus
unfolding retention_warning over_limit has_no_limits
build_retention_status store now current_events current_bytes =
    let over_events = over_limit store.max_stored_events current_events in
    let over_bytes = over_limit store.max_stored_event_bytes current_bytes in
    let warning =
      retention_warning over_events over_bytes store.max_stored_events store.max_stored_event_bytes
        current_events current_bytes in
    record {
      state =
          if has_no_limits store then "disabled" else if is_some warning then "warning" else "ok";
      current_events = current_events;
      current_bytes = current_bytes;
      max_events = store.max_stored_events;
      max_bytes = store.max_stored_event_bytes;
      over_event_limit = over_events;
      over_byte_limit = over_bytes;
      warning = warning;
      last_checked_at = now;
      last_prune_at = none;
      last_prune_removed = none;
      last_error_at = none;
      last_error = none;
    }

-- `write_retention_status_from_counts`: the last prune of the old status is kept where none is given.
with_prune : Option RetentionStatus → Option ℕ → Option ℕ → RetentionStatus → RetentionStatus
with_prune none prune_at removed status = record status {
  last_prune_at = prune_at;
  last_prune_removed = removed;
}
with_prune (some existing) prune_at removed status = record status {
  last_prune_at = or_else prune_at existing.last_prune_at;
  last_prune_removed = or_else removed existing.last_prune_removed;
}

unfoldable pub write_retention_status : Store → ℕ → ℕ → ℕ → Option ℕ → Option ℕ → Disk → Disk
unfolding build_retention_status with_prune
write_retention_status store now events bytes prune_at removed disk =
    let status = build_retention_status store now events bytes in
    record disk { status = some (with_prune disk.status prune_at removed status) }

unfoldable pub write_stats_cache : Store → ℕ → ℕ → ℕ → Disk → Disk
unfolding write_retention_status
write_stats_cache store now total_events total_bytes disk =
    write_retention_status store now total_events total_bytes none none
      (record disk { stats = some (total_events, total_bytes) })

-- `bump_stats_cache`: a cache that is not there is left alone.
unfoldable pub bump_stats_cache : Store → ℕ → ℕ → Disk → Disk
unfolding write_stats_cache
bump_stats_cache store now added_bytes disk = elim disk.stats [
  | none ↦ disk
  | some (count, bytes) ↦
      write_stats_cache store now (saturating_add count 1) (saturating_add bytes added_bytes) disk
]

-- `report_retention_error`
unfoldable pub report_retention_error : Store → ℕ → String → Disk → RetentionStatus × Disk
unfolding build_retention_status
report_retention_error store now error disk =
    let counts = unwrap_or disk.stats (0, 0) in
    let status = record (build_retention_status store now counts.0 counts.1) {
      state = "error";
      last_error_at = some now;
      last_error = some error;
    } in
    (status, record disk { status = some status })

-- `retention_status`: the status file, or one made from the cached counts.
unfoldable pub retention_status : Store → ℕ → Disk → Option RetentionStatus × Disk
unfolding write_retention_status
retention_status store now disk = elim disk.status [
  | some status ↦ (some status, disk)
  | none ↦
      let counts = unwrap_or disk.stats (0, 0) in
      let written = write_retention_status store now counts.0 counts.1 none none disk in
      (written.status, written)
]
