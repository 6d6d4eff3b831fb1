-- ===== src/Tests/Stores.antt =====
-- The theorems on the store at a store with a note and a reply.
use mathlib.Core.Option
use stonr.Base.{
  find_map, ℕ, ◌<◌, ◌^◌, String, Bool, true, false, none, some, List, [], ◌∷◌, ◌++◌, ◌-◌, ◌==◌,
  ◌&&◌, not, keep, length, if◌then◌else◌, All, is_some, Result, ok, ◌≡◌, ◌⊎◌, refl, arith,
}
use stonr.Crypto.{verify_event, event_hash}
use stonr.Event.{Event, event_is_expired, named_value}
use stonr.Store.{Disk, StoredEventRecord, empty}
use stonr.Store.Consistent.{stored, IsConsistent}
use stonr.Store.Frame.{IsFiled-of_events}
use stonr.Store.Index.{event_path}
use stonr.Store.Ingest.{ingest_with_policy}
use stonr.Store.IngestResult.{is_skipped, ingest_with_policy-effect, ingest_with_policy-total}
use stonr.Store.Read.{lookup}
use stonr.Store.Retention.{enforce_retention, rebuild_metadata, sorted_event_records}
use stonr.Store.Retention.Enforce.{enforce_retention-effect, enforce_retention-protects}
use stonr.Store.Retention.Prune.{bytes_of, is_protected}
use stonr.Store.Retention.Rebuild.{rebuild_metadata-IsConsistent}
use stonr.Store.Retention.Records.{Covers}
use stonr.Store.Status.{has_no_limits, retention_limits_exceeded}
use stonr.Store.Visibility.{event_is_retention_protected}
use stonr.Store.System.{
  Reach, fresh, next, ingests, AllVerified, Reach-IsConsistent, Reach-AllVerified,
}
use stonr.Tests.Sample.{sample, note, reply, small_store}

abbrev disk_of : Result (Disk × Bool) → Disk
disk_of (ok (disk, b)) = disk
disk_of _ = empty

abbrev pub with_note : Disk
with_note = disk_of (ingest_with_policy small_store 10 note true true empty)

abbrev pub with_both : Disk
with_both = disk_of (ingest_with_policy small_store 10 reply true true with_note)

note-stored : ingest_with_policy small_store 10 note true true empty ≡ ok (with_note, true)
unfolding ingest_with_policy event_is_expired find_map Option.bind named_value verify_event
    event_hash
note-stored = refl

reply-stored : ingest_with_policy small_store 10 reply true true with_note ≡ ok (with_both, true)
unfolding ingest_with_policy event_is_expired find_map Option.bind named_value verify_event
    event_hash
reply-stored = refl

Reach-with_both : Reach small_store with_both
Reach-with_both =
    next (next fresh (ingests 10 note true true note-stored))
      (ingests 10 reply true true reply-stored)

pub both-IsConsistent : IsConsistent with_both
both-IsConsistent = Reach-IsConsistent small_store with_both Reach-with_both

Reach-IsConsistent_example : IsConsistent with_both
Reach-IsConsistent_example = Reach-IsConsistent small_store with_both Reach-with_both

Reach-AllVerified_example : AllVerified with_both
Reach-AllVerified_example = Reach-AllVerified small_store with_both refl Reach-with_both

empty_store-IsConsistent : IsConsistent empty
empty_store-IsConsistent = Reach-IsConsistent small_store empty fresh

ingest_with_policy-effect_example :
    IsConsistent with_note
    × ((id : String)
        → stored with_note id ≡ (if true && note.id == id then some note else stored empty id))
    × (true ≡ true
        → (stored empty note.id ≡ none)
          × (small_store.verify_sig ≡ true → verify_event note ≡ ok tt))
ingest_with_policy-effect_example =
    ingest_with_policy-effect small_store 10 note true true empty with_note true
      empty_store-IsConsistent note-stored

ingest_with_policy-total_example :
    (after : Disk) × (ingest_with_policy small_store 10 note true true empty
      ≡ ok (after, not (is_skipped note 10 true) && not (is_some (lookup note.id empty.events))))
unfolding verify_event event_path event_hash
ingest_with_policy-total_example =
    ingest_with_policy-total small_store 10 note true true empty (λ on. refl)
      (("aa", "bb", "aabb01.json"), refl)

both-fit : bytes_of (sorted_event_records with_both) < 2 ^ 64
unfolding ingest_with_policy sorted_event_records event_is_expired find_map Option.bind named_value
    verify_event event_hash
both-fit = omega arith

enforce_retention-effect_example :
    (after : Disk) × (kept removed oldest newest : List StoredEventRecord) × (enforce_retention
        small_store 20 with_both
      ≡ ok (after, length removed))
    × IsConsistent after
    × Covers kept after
    × (sorted_event_records with_both ≡ oldest ++ newest)
    × (removed ≡ keep (λ r. not (is_protected small_store r)) oldest)
    × (kept ≡ keep (is_protected small_store) oldest ++ newest)
    × ((retention_limits_exceeded small_store (length kept) (bytes_of kept) ≡ false)
        ⊎ All (λ r. is_protected small_store r ≡ true) kept)
    × ((before later : List StoredEventRecord) (r : StoredEventRecord)
        → removed ≡ before ++ r ∷ later
        → retention_limits_exceeded small_store
            (length (sorted_event_records with_both) - length before)
            (bytes_of (sorted_event_records with_both) - bytes_of before)
          ≡ true)
unfolding has_no_limits
enforce_retention-effect_example =
    enforce_retention-effect small_store 20 with_both refl both-IsConsistent both-fit

abbrev run_of : Result (Disk × ℕ) → Disk × ℕ
run_of (ok run) = run
run_of _ = (empty, 0)

abbrev enforced : Disk × ℕ
enforced = run_of (enforce_retention small_store 20 with_both)

note-removed : enforce_retention small_store 20 with_both ≡ ok (enforced.0, 1)
unfolding ingest_with_policy enforce_retention event_is_expired find_map Option.bind named_value
    verify_event event_hash retention_limits_exceeded event_is_retention_protected
note-removed = refl

enforce_retention-protects_example :
    IsConsistent enforced.0
    × ((id : String) (event : Event)
        → (stored enforced.0 id ≡ some event → stored with_both id ≡ some event)
          × (stored with_both id ≡ some event
              → event_is_retention_protected small_store event ≡ true
              → stored enforced.0 id ≡ some event))
enforce_retention-protects_example =
    enforce_retention-protects small_store 20 with_both enforced.0 1 both-IsConsistent note-removed

-- The index files of the two events are lost.
abbrev unindexed : Disk
unindexed = record with_both { index = λ key. [] }

rebuild_metadata-IsConsistent_example :
    (after : Disk) × (rebuild_metadata small_store 20 unindexed ≡ ok after)
    × IsConsistent after
    × (after.events ≡ unindexed.events)
rebuild_metadata-IsConsistent_example =
    rebuild_metadata-IsConsistent small_store 20 unindexed
      (IsFiled-of_events {a = unindexed} {b = with_both} refl both-IsConsistent.filed)
