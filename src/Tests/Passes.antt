-- ===== src/Tests/Passes.antt =====
-- The theorems on background retention passes and on filters read from JSON.
use mathlib.Core.Option
use stonr.Base.{
  ◌%◌, ◌^◌, true, none, some, [], ◌∷◌, inl, length, nat_eq, find_map, Result, ok, ◌≡◌, refl,
}
use stonr.Crypto.{verify_event, event_hash}
use stonr.Event.{event_is_expired, named_value}
use stonr.Filter.{
  text, number, array, object, no_values, value, no_members, member, strings, from_value,
}
use stonr.Filter.Tags.{event_matches_query-from_value}
use stonr.Query.{has_tag, event_matches_query}
use stonr.Store.{Store, by_author, Disk, EventFile, empty}
use stonr.Store.Consistent.{stored, IsConsistent}
use stonr.Store.Ingest.{ingest_with_policy}
use stonr.Store.Retention.{enforce_retention_from_records, sorted_event_records, total_size}
use stonr.Store.Retention.Background.{
  changed, applied, refresh_stats_cache, enforce_retention_background,
  enforce_retention_background-refresh_stats_cache, RetentionPassOutcome,
}
use stonr.Store.Retention.Background.Unchanged.{
  Protects, Reports, enforce_retention_background-Protects,
}
use stonr.Store.Status.{has_no_limits, retention_limits_exceeded}
use stonr.Store.Visibility.{event_is_retention_protected}
use stonr.Tests.Sample.{sample, note, reply, small_store}
use stonr.Tests.Stores.{with_note, with_both, both-IsConsistent}

event_matches_query-from_value_example :
    (event_matches_query note
        (from_value (object (member "#t" (array (value (text "news") no_values)) no_members)))
      ≡ has_tag "t" ("news" ∷ []) note.tags)
    × (event_matches_query note
          (from_value (object (member "#p" (array (value (text "news") no_values)) no_members)))
        ≡ has_tag "p" ("news" ∷ strings no_values) note.tags)
    × (event_matches_query note (
          from_value (
            object
              (member "kinds" (array (value (number (some 4294967297)) no_values)) no_members)))
        ≡ nat_eq (4294967297 % 2 ^ 32) note.kind)
event_matches_query-from_value_example =
    event_matches_query-from_value note "news" no_values 4294967297

over_limits :
    retention_limits_exceeded small_store
      (length (sorted_event_records with_both))
      (total_size (sorted_event_records with_both))
    ≡ true
unfolding ingest_with_policy sorted_event_records event_is_expired find_map Option.bind named_value
    verify_event event_hash retention_limits_exceeded total_size
over_limits = refl

abbrev pass_of : Result (Disk × RetentionPassOutcome) → Disk
pass_of (ok (disk, outcome)) = disk
pass_of _ = empty

abbrev passed : Disk
passed = pass_of (enforce_retention_background small_store 20 with_both true with_both)

pass-ran :
    enforce_retention_background small_store 20 with_both true with_both ≡ ok (passed, applied 1)
unfolding ingest_with_policy sorted_event_records event_is_expired find_map Option.bind named_value
    verify_event event_hash enforce_retention_background retention_limits_exceeded
    enforce_retention_from_records event_is_retention_protected
pass-ran = refl

enforce_retention_background-Protects_example :
    IsConsistent passed
    × Protects small_store with_both passed
    × Reports small_store 20 with_both passed (applied 1)
enforce_retention_background-Protects_example =
    enforce_retention_background-Protects small_store 20 true with_both passed (applied 1)
      both-IsConsistent pass-ran

abbrev strict_store : Store
strict_store = record small_store { max_stored_events = some 0 }

-- The walk of a pass saw the note alone; the reply came before the pass had the lock.
abbrev stale : Disk
stale = pass_of (enforce_retention_background strict_store 20 with_note true with_both)

-- The reply is stored, and no longer in the index of its author.
stale-unindexed : (stored stale "ccdd02" ≡ some reply) × (stale.index (by_author "bob") ≡ [])
unfolding ingest_with_policy sorted_event_records event_is_expired find_map Option.bind named_value
    verify_event event_hash enforce_retention_background retention_limits_exceeded
    enforce_retention_from_records event_is_retention_protected stored
stale-unindexed = (refl, refl)

abbrev torn : EventFile
torn = record { size_bytes = 0; body = none }

-- The note, the reply, and a file that does not parse.
abbrev with_torn : Disk
with_torn = record with_both { events = ("torn", torn) ∷ with_both.events }

over_limits_torn :
    retention_limits_exceeded small_store
      (length (sorted_event_records with_torn))
      (total_size (sorted_event_records with_torn))
    ≡ true
unfolding ingest_with_policy sorted_event_records event_is_expired find_map Option.bind named_value
    verify_event event_hash retention_limits_exceeded total_size
over_limits_torn = refl

enforce_retention_background-refresh_stats_cache_example :
    enforce_retention_background small_store 20
      (refresh_stats_cache small_store 15 with_torn)
      true
      (refresh_stats_cache small_store 15 with_torn)
    ≡ ok (refresh_stats_cache small_store 15 with_torn, changed)
unfolding has_no_limits
enforce_retention_background-refresh_stats_cache_example =
    enforce_retention_background-refresh_stats_cache small_store 15 20 "torn" torn with_torn
      (inl refl) refl refl over_limits_torn
