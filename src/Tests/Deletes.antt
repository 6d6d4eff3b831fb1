-- ===== src/Tests/Deletes.antt =====
-- The theorems on delete events at a store with a note and a reply.
use mathlib.Core.Option
use stonr.Base.{true, false, some, [], find_map, inl, ◌≡◌, refl, arith}
use stonr.Event.{named_value, event_address, event_is_expired}
use stonr.Store.{Disk, empty}
use stonr.Store.Tombstones.{apply_delete_event, tombstone_of}
use stonr.Store.Tombstones.Order.{apply_delete_event_comm}
use stonr.Store.Visibility.{event_visible, event_is_retention_protected}
use stonr.Store.Visibility.Deletion.{
  apply_delete_event-spares, apply_delete_event-hides, apply_delete_event-restores,
}
use stonr.Tests.Sample.{sample, note, withdrawal, intrusion, small_store}

apply_delete_event_comm_example :
    apply_delete_event withdrawal (apply_delete_event intrusion empty)
    ≡ apply_delete_event intrusion (apply_delete_event withdrawal empty)
apply_delete_event_comm_example =
    apply_delete_event_comm withdrawal intrusion empty (λ same. cc same)

apply_delete_event-hides_example :
    event_visible small_store (apply_delete_event withdrawal empty) 10 true true note ≡ false
unfolding event_is_retention_protected
apply_delete_event-hides_example =
    apply_delete_event-hides small_store withdrawal note [] empty 10 true refl (inl refl) refl
      (omega arith) (omega arith) refl refl

abbrev withdrawn : Disk
withdrawn = record empty { id_tombstones = λ id. some (tombstone_of withdrawal) }

apply_delete_event-restores_example :
    event_visible small_store (apply_delete_event intrusion withdrawn) 10 true false note ≡ true
unfolding event_address tombstone_of find_map Option.map named_value
apply_delete_event-restores_example =
    apply_delete_event-restores small_store intrusion note (tombstone_of withdrawal) withdrawn 10
      refl (omega arith) refl refl (λ same. cc same) refl

note-visible : event_visible small_store empty 10 true true note ≡ true
unfolding event_visible event_address find_map Option.map named_value event_is_expired Option.bind
note-visible = refl

apply_delete_event-spares_example :
    event_visible small_store (apply_delete_event intrusion empty) 10 true true note ≡ true
apply_delete_event-spares_example =
    apply_delete_event-spares small_store intrusion note empty 10 true true (inl (λ same. cc same))
      note-visible
