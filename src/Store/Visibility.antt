-- ===== src/Store/Visibility.antt =====
-- stonr/src/storage.rs: which stored events a reader may see.
pub mod Deletion
use stonr.Base.{
  ℕ, Bool, true, false, ◌==◌, ◌&&◌, ◌||◌, not, any, leb, nat_eq, if◌then◌else◌, is_some_and,
}
use stonr.Event.{Event, event_address, event_is_expired}
use stonr.External.{External}
use stonr.Store.{Store, Disk, DeleteTombstone}

unfoldable pub event_is_retention_protected : Store → Event → Bool
event_is_retention_protected store event =
    any (λ pubkey. pubkey == event.pubkey) store.pinned_pubkeys
    || any (λ id. id == event.id) store.pinned_event_ids

-- `tombstone.pubkey == event.pubkey && event.created_at <= tombstone.created_at`
unfoldable pub hides : DeleteTombstone → Event → Bool
hides tombstone event =
    tombstone.pubkey == event.pubkey && leb event.created_at tombstone.created_at

module _ ⦃x : External⦄ where
  -- The two tombstone tests at the end of `event_visible`.
  unfoldable pub is_deleted : Disk → Event → Bool
  unfolding hides
  is_deleted disk event =
      is_some_and (disk.id_tombstones event.id) (λ tombstone. hides tombstone event)
      || is_some_and (event_address event) (λ address.
        is_some_and (disk.address_tombstones (x.sha1_hex address))
          (λ tombstone. hides tombstone event))

  -- `event_visible`, at the time `now`.
  unfoldable pub event_visible : Store → Disk → ℕ → Bool → Bool → Event → Bool
  unfolding is_deleted event_is_retention_protected
  event_visible store disk now delete_enabled expiration_enabled event =
      let protected = event_is_retention_protected store event in
      if protected && store.protect_pinned_from_deletes
      then true
      else if expiration_enabled && (event_is_expired event now && not protected)
      then false
      else if not delete_enabled || nat_eq event.kind 5
      then true
      else not (is_deleted disk event)
