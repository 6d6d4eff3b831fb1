-- ===== src/Store/Ingest.antt =====
-- stonr/src/storage.rs: `init`, and the ingestion of one event. The code holds the mutation lock
-- all the while.
use stonr.Base.{
  ℕ, Bool, true, false, none, some, [], ◌∷◌, ◌++◌, ◌&&◌, not, nat_eq, is_some, if◌then◌else◌,
  Result, ok, ◌>>=◌, ◌>>◌,
}
use stonr.Crypto.{verify_event}
use stonr.Event.{Event, event_is_expired}
use stonr.External.{External}
use stonr.Store.{Store, Disk}
use stonr.Store.Index.{event_path, index_event, write_mirror_links}
use stonr.Store.Read.{lookup}
use stonr.Store.Status.{write_retention_status, bump_stats_cache}
use stonr.Store.Tombstones.{apply_delete_event}

-- `init`: the directories need no step of their own; a status file is written where there is none.
unfoldable pub init : Store → ℕ → Disk → Disk
unfolding write_retention_status
init store now disk = elim disk.status [
  | some _ ↦ disk
  | none ↦ write_retention_status store now 0 0 none none disk
]

module _ ⦃x : External⦄ where
  -- The event's file, as `to_writer` and `persist` leave it.
  unfoldable pub write_event : Event → Disk → Disk
  write_event event disk = record disk {
    events =
        disk.events ++ (event.id, record { size_bytes = x.json_len event; body = some event }) ∷ [];
  }

  -- One more line in `log/events.ndjson`.
  unfoldable pub append_log : Event → Disk → Disk
  append_log event disk = record disk { log = disk.log ++ event ∷ [] }

  -- The writes of `ingest_locked` for an event that is not stored yet.
  unfoldable pub store_event : Store → ℕ → Event → Disk → Result (Disk × Bool)
  unfolding write_event append_log index_event write_mirror_links bump_stats_cache
  store_event store now event disk = do
    let indexed = index_event event (append_log event (write_event event disk))
    linked ← write_mirror_links event indexed
    ok (bump_stats_cache store now (x.json_len event) linked, true)

  -- `ingest_locked`
  unfoldable pub ingest_locked : Store → ℕ → Event → Disk → Result (Disk × Bool)
  unfolding store_event lookup
  ingest_locked store now event disk = do
    if store.verify_sig then verify_event event else ok tt
    _ ← event_path event.id
    if is_some (lookup event.id disk.events)
        then ok (disk, false)
        else store_event store now event disk

  -- `ingest_with_policy`
  unfoldable pub ingest_with_policy : Store → ℕ → Event → Bool → Bool → Disk → Result (Disk × Bool)
  unfolding ingest_locked apply_delete_event
  ingest_with_policy store now event delete_enabled expiration_enabled disk =
      if expiration_enabled && (not (nat_eq event.kind 5) && event_is_expired event now)
      then ok (disk, false)
      else do
        (written, stored) ← ingest_locked store now event disk
        ok (
          if delete_enabled && nat_eq event.kind 5
              then apply_delete_event event written
              else written,
          stored,
        )
