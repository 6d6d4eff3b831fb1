-- ===== src/Store/Tombstones.antt =====
-- stonr/src/storage.rs: delete events and the tombstones that they leave.
pub mod Order
use stonr.Base.{
  String, Bool, Option, none, some, List, [], ◌∷◌, ◌==◌, ◌&&◌, ◌||◌, nat_eq, ltb, if◌then◌else◌,
}
use stonr.Base.TextOrder.{str_leb}
use stonr.Event.{Event, Tag}
use stonr.External.{External}
use stonr.Store.{Disk, DeleteTombstone}
use stonr.Store.Index.{write}

-- `write_tombstone` on one file: an existing tombstone stays if it is later, or as late with a
-- delete event whose id is not smaller.
unfoldable pub keeps_existing : Option DeleteTombstone → DeleteTombstone → Bool
keeps_existing none tombstone = Bool.false
keeps_existing (some existing) tombstone =
    ltb tombstone.created_at existing.created_at
    || nat_eq existing.created_at tombstone.created_at
      && str_leb tombstone.delete_event_id existing.delete_event_id

unfoldable pub write_tombstone :
    String → DeleteTombstone → (String → Option DeleteTombstone) → String → Option DeleteTombstone
unfolding keeps_existing
write_tombstone path tombstone files other =
    if keeps_existing (files path) tombstone then files other else write path tombstone files other

unfoldable pub tombstone_of : Event → DeleteTombstone
tombstone_of event = record {
  pubkey = event.pubkey;
  created_at = event.created_at;
  delete_event_id = event.id;
}

module _ ⦃x : External⦄ where
  -- The body of the loop over the tags of a delete event.
  unfoldable pub delete_tag : DeleteTombstone → Tag → Disk → Disk
  unfolding write_tombstone
  delete_tag tombstone [] disk = disk
  delete_tag tombstone (tag ∷ []) disk = disk
  delete_tag tombstone (tag ∷ value ∷ _) disk =
      if tag == "e"
      then record disk { id_tombstones = write_tombstone value tombstone disk.id_tombstones }
      else if tag == "a"
      then record disk {
        address_tombstones = write_tombstone (x.sha1_hex value) tombstone disk.address_tombstones;
      }
      else disk

  unfoldable pub delete_tags : DeleteTombstone → List Tag → Disk → Disk
  unfolding delete_tag
  delete_tags tombstone [] disk = disk
  delete_tags tombstone (fields ∷ tags) disk =
      delete_tags tombstone tags (delete_tag tombstone fields disk)

  -- `apply_delete_event_locked`
  unfoldable pub apply_delete_event : Event → Disk → Disk
  unfolding delete_tags tombstone_of
  apply_delete_event event disk =
      if nat_eq event.kind 5 then delete_tags (tombstone_of event) event.tags disk else disk
