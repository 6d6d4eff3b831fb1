-- ===== src/Store/Tombstones/Order.antt =====
-- `write_tombstone` of stonr/src/storage.rs, and the order in which delete events come.
use stonr.Base.{
  String, Bool, true, Option, none, some, List, [], ◌∷◌, ◌==◌, ◌&&◌, ◌||◌, nat_eq, ltb,
  if◌then◌else◌, ◌≡◌, ◌≢◌, refl, ◌∙◌, ap, arith, eq_iff,
}
use stonr.Base.TextOrder.{str_leb, str_leb_total, str_leb_trans, str_leb_antisymm}
use stonr.Event.{Event, Tag}
use stonr.External.{External}
use stonr.Store.{Disk, DeleteTombstone}
use stonr.Store.Tombstones.{
  keeps_existing, write_tombstone, delete_tag, delete_tags, apply_delete_event, tombstone_of,
}

-- The order of tombstones: by the time, and at one time by the delete event's id.
unfoldable pub not_after : DeleteTombstone → DeleteTombstone → Bool
not_after a b =
    ltb a.created_at b.created_at
    || nat_eq b.created_at a.created_at && str_leb a.delete_event_id b.delete_event_id

-- The tombstone of a file once another is written.
unfoldable pub later : Option DeleteTombstone → DeleteTombstone → DeleteTombstone
unfolding not_after
later none t = t
later (some e) t = if not_after t e then e else t

at_file :
    (file : Option DeleteTombstone) (same : Bool) (t : DeleteTombstone)
    → (if keeps_existing file t then file else if same then some t else file)
      ≡ (if same then some (later file t) else file)
unfolding keeps_existing later not_after
at_file none same t = refl
at_file (some e) same t = ground arith

-- Writing a tombstone leaves the later of the two under the path, and every other file.
pub write_tombstone-later :
    (path : String) (t : DeleteTombstone) (files : String → Option DeleteTombstone) (other : String)
    → write_tombstone path t files other
      ≡ (if path == other then some (later (files other) t) else files other)
unfolding write_tombstone
write_tombstone-later path t files other =
    ground (arith, eq_iff path other, at_file (files other) true t)

module _ (t u : DeleteTombstone) (distinct : t.delete_event_id ≢ u.delete_event_id) where
  later_comm :
      (file : Option DeleteTombstone)
      → later (some (later file u)) t ≡ later (some (later file t)) u
  unfolding later not_after
  later_comm none = ground (
    arith,
    str_leb_total t.delete_event_id u.delete_event_id,
    str_leb_antisymm t.delete_event_id u.delete_event_id,
  )
  later_comm (some e) = ground (
    arith,
    str_leb_total t.delete_event_id u.delete_event_id,
    str_leb_antisymm t.delete_event_id u.delete_event_id,
    str_leb_total t.delete_event_id e.delete_event_id,
    str_leb_total u.delete_event_id e.delete_event_id,
    str_leb_trans t.delete_event_id e.delete_event_id u.delete_event_id,
    str_leb_trans u.delete_event_id e.delete_event_id t.delete_event_id,
    str_leb_trans t.delete_event_id u.delete_event_id e.delete_event_id,
    str_leb_trans u.delete_event_id t.delete_event_id e.delete_event_id,
  )

  write_tombstone_comm :
      (p q : String) (files : String → Option DeleteTombstone) (other : String)
      → write_tombstone p t (write_tombstone q u files) other
        ≡ write_tombstone q u (write_tombstone p t files) other
  write_tombstone_comm p q files other = ground (
    arith,
    write_tombstone-later p t (write_tombstone q u files) other,
    write_tombstone-later q u (write_tombstone p t files) other,
    write_tombstone-later q u files other,
    write_tombstone-later p t files other,
    later_comm (files other),
  )

module _ ⦃x : External⦄ where
  module _ (t u : DeleteTombstone) (distinct : t.delete_event_id ≢ u.delete_event_id) where
    delete_tag_comm :
        (f g : Tag) (disk : Disk)
        → delete_tag t f (delete_tag u g disk) ≡ delete_tag u g (delete_tag t f disk)
    unfolding delete_tag
    delete_tag_comm [] g disk = refl
    delete_tag_comm (a ∷ []) g disk = refl
    delete_tag_comm (a ∷ v ∷ r) [] disk = refl
    delete_tag_comm (a ∷ v ∷ r) (b ∷ []) disk = refl
    delete_tag_comm (a ∷ v ∷ r) (b ∷ w ∷ s) disk =
        let ids : write_tombstone v t (write_tombstone w u disk.id_tombstones)
            ≡ write_tombstone w u (write_tombstone v t disk.id_tombstones) =
          λ i other. write_tombstone_comm t u distinct v w disk.id_tombstones other i in
        let addresses : write_tombstone (x.sha1_hex v) t
              (write_tombstone (x.sha1_hex w) u disk.address_tombstones)
            ≡ write_tombstone (x.sha1_hex w) u
                (write_tombstone (x.sha1_hex v) t disk.address_tombstones) =
          λ i other.
            write_tombstone_comm t u distinct (x.sha1_hex v) (x.sha1_hex w) disk.address_tombstones
              other i in
        ground (arith, ids, addresses)

    delete_tag-delete_tags :
        (f : Tag) (gs : List Tag) (disk : Disk)
        → delete_tag t f (delete_tags u gs disk) ≡ delete_tags u gs (delete_tag t f disk)
    unfolding delete_tags
    delete_tag-delete_tags f [] disk = refl
    delete_tag-delete_tags f (g ∷ gs) disk =
        delete_tag-delete_tags f gs (delete_tag u g disk)
        ∙ ap (delete_tags u gs) (delete_tag_comm f g disk)

    delete_tags_comm :
        (fs gs : List Tag) (disk : Disk)
        → delete_tags t fs (delete_tags u gs disk) ≡ delete_tags u gs (delete_tags t fs disk)
    unfolding delete_tags
    delete_tags_comm [] gs disk = refl
    delete_tags_comm (f ∷ fs) gs disk =
        ap (delete_tags t fs) (delete_tag-delete_tags f gs disk)
        ∙ delete_tags_comm fs gs (delete_tag t f disk)

  -- Two delete events with distinct ids leave the same store in either order.
  pub apply_delete_event_comm :
      (a b : Event) (disk : Disk)
      → a.id ≢ b.id
      → apply_delete_event a (apply_delete_event b disk)
        ≡ apply_delete_event b (apply_delete_event a disk)
  unfolding apply_delete_event tombstone_of
  apply_delete_event_comm a b disk distinct =
      let both = delete_tags_comm (tombstone_of a) (tombstone_of b) distinct a.tags b.tags disk in
      ground (arith, both)
