-- ===== src/Store/Visibility/Deletion.antt =====
-- `apply_delete_event_locked` and `event_visible` of stonr/src/storage.rs: whose deletes hide what.
use stonr.Base.{
  ℕ, not, ◌⊎◌, String, Bool, true, false, Option, none, some, List, [], ◌∷◌, ◌==◌, ◌&&◌, ◌||◌, ◌≤◌,
  ◌<◌, is_some_and, In, Option-cases, inl, inr, ◌≡◌, ◌≢◌, arith, eq_iff,
}
use mathlib.Core.Path.{subst}
use stonr.Event.{Event, Tag, event_address}
use stonr.External.{External}
use stonr.Store.{Store, Disk, DeleteTombstone}
use stonr.Store.Tombstones.{
  delete_tag, delete_tags, apply_delete_event, tombstone_of, write_tombstone,
}
use stonr.Store.Tombstones.Order.{later, not_after, write_tombstone-later}
use stonr.Store.Visibility.{event_is_retention_protected, hides, is_deleted, event_visible}

-- The event is not hidden by the tombstone of a file.
shows : Event → Option DeleteTombstone → Bool
unfolding hides
shows event file = not (is_some_and file (λ t. hides t event))

shows-later :
    (event : Event) (t : DeleteTombstone) (file : Option DeleteTombstone)
    → shows event file ≡ true
    → hides t event ≡ false
    → shows event (some (later file t)) ≡ true
unfolding shows later
shows-later event t none h k = ground arith
shows-later event t (some e) h k = ground arith

shows-write_tombstone :
    (event : Event) (t : DeleteTombstone) (path : String) (files : String → Option DeleteTombstone)
    (other : String)
    → shows event (files other) ≡ true
    → hides t event ≡ false
    → shows event (write_tombstone path t files other) ≡ true
shows-write_tombstone event t path files other h k =
    ground (arith, write_tombstone-later path t files other, shows-later event t (files other) h k)

module _ ⦃x : External⦄ where
  is_deleted-shows :
      (disk : Disk) (event : Event)
      → is_deleted disk event ≡ (
          not (shows event (disk.id_tombstones event.id))
          || is_some_and
              (event_address event)
              (λ address. not (shows event (disk.address_tombstones (x.sha1_hex address)))))
  unfolding is_deleted shows
  is_deleted-shows disk event = ground arith

  delete_tag-shows :
      (t : DeleteTombstone) (fields : Tag) (disk : Disk) (event : Event)
      → hides t event ≡ false
      → is_deleted disk event ≡ false
      → is_deleted (delete_tag t fields disk) event ≡ false
  unfolding delete_tag
  delete_tag-shows t [] disk event k h = h
  delete_tag-shows t (a ∷ []) disk event k h = h
  delete_tag-shows t (a ∷ v ∷ r) disk event k h = elim (Option-cases (event_address event)) [
    | inl none_there ↦ ground (
      arith,
      is_deleted-shows disk event,
      is_deleted-shows (delete_tag t (a ∷ v ∷ r) disk) event,
      shows-write_tombstone event t v disk.id_tombstones event.id,
    )
    | inr (address, there) ↦ ground (
      arith,
      is_deleted-shows disk event,
      is_deleted-shows (delete_tag t (a ∷ v ∷ r) disk) event,
      shows-write_tombstone event t v disk.id_tombstones event.id,
      shows-write_tombstone event t (x.sha1_hex v) disk.address_tombstones (x.sha1_hex address),
    )
  ]

  delete_tags-shows :
      (t : DeleteTombstone) (tags : List Tag) (disk : Disk) (event : Event)
      → hides t event ≡ false
      → is_deleted disk event ≡ false
      → is_deleted (delete_tags t tags disk) event ≡ false
  unfolding delete_tags
  delete_tags-shows t [] disk event k h = h
  delete_tags-shows t (fields ∷ tags) disk event k h =
      delete_tags-shows t tags (delete_tag t fields disk) event k
        (delete_tag-shows t fields disk event k h)

  -- A delete event hides no event of another author, nor one later than itself: what a reader saw
  -- before stays visible.
  pub apply_delete_event-spares :
      (store : Store) (delete event : Event) (disk : Disk) (now : ℕ) (deletes expires : Bool)
      → (delete.pubkey ≢ event.pubkey) ⊎ (delete.created_at < event.created_at)
      → event_visible store disk now deletes expires event ≡ true
      → event_visible store (apply_delete_event delete disk) now deletes expires event ≡ true
  unfolding apply_delete_event tombstone_of hides event_visible
  apply_delete_event-spares store delete event disk now deletes expires other h =
      let spared : hides (tombstone_of delete) event ≡ false = elim other [
        | inl stranger ↦ ground (arith, eq_iff delete.pubkey event.pubkey)
        | inr newer ↦ ground arith
      ] in
      let still = delete_tags-shows (tombstone_of delete) delete.tags disk event spared in
      ground (arith, still)

-- The tombstone of a file, if any, is by the event's author.
abbrev pub is_own : Event → Option DeleteTombstone → Bool
is_own event none = true
is_own event (some t) = t.pubkey == event.pubkey

own-later :
    (event : Event) (t : DeleteTombstone) (file : Option DeleteTombstone)
    → is_own event file ≡ true
    → hides t event ≡ true
    → (is_own event (some (later file t)) ≡ true) × (shows event (some (later file t)) ≡ false)
unfolding shows later hides not_after
own-later event t none h k = ground arith
own-later event t (some e) h k = ground arith

module _ ⦃x : External⦄ where
  module _ (event : Event) (t : DeleteTombstone) (own : hides t event ≡ true) where
    delete_tag-own :
        (fields : Tag) (disk : Disk)
        → is_own event (disk.id_tombstones event.id) ≡ true
        → (is_own event ((delete_tag t fields disk).id_tombstones event.id) ≡ true)
          × (shows event (disk.id_tombstones event.id) ≡ false
              → shows event ((delete_tag t fields disk).id_tombstones event.id) ≡ false)
    unfolding delete_tag
    delete_tag-own [] disk h = (h, λ k. k)
    delete_tag-own (a ∷ []) disk h = (h, λ k. k)
    delete_tag-own (a ∷ v ∷ r) disk h =
        let at_id = write_tombstone-later v t disk.id_tombstones event.id in
        let both = own-later event t (disk.id_tombstones event.id) h own in
        (ground (arith, at_id, both), λ k. ground (arith, at_id, both))

    delete_tags-own :
        (tags : List Tag) (disk : Disk)
        → is_own event (disk.id_tombstones event.id) ≡ true
        → shows event (disk.id_tombstones event.id) ≡ false
        → shows event ((delete_tags t tags disk).id_tombstones event.id) ≡ false
    unfolding delete_tags
    delete_tags-own [] disk h k = k
    delete_tags-own (fields ∷ tags) disk h k =
        let (h', k') = delete_tag-own fields disk h in
        delete_tags-own tags (delete_tag t fields disk) h' (k' k)

    delete_tags-hides :
        (tags : List Tag) (more : Tag) (disk : Disk)
        → is_own event (disk.id_tombstones event.id) ≡ true
        → In ("e" ∷ event.id ∷ more) tags
        → shows event ((delete_tags t tags disk).id_tombstones event.id) ≡ false
    unfolding delete_tags delete_tag
    delete_tags-hides [] more disk h m = absurd m
    delete_tags-hides (fields ∷ tags) more disk h (inl e) =
        let (own', _) = delete_tag-own fields disk h in
        let written : shows event
              ((delete_tag t ("e" ∷ event.id ∷ more) disk).id_tombstones event.id)
            ≡ false =
          ground (
            arith,
            write_tombstone-later event.id t disk.id_tombstones event.id,
            own-later event t (disk.id_tombstones event.id) h own,
            eq_iff event.id event.id,
          ) in
        delete_tags-own tags (delete_tag t fields disk) own' (
          subst (λ f. shows event ((delete_tag t f disk).id_tombstones event.id) ≡ false) e written)
    delete_tags-hides (fields ∷ tags) more disk h (inr m) =
        delete_tags-hides tags more (delete_tag t fields disk) (delete_tag-own fields disk h).0 m

  -- A delete event by the author that names an event's id, and is not older than it, hides it from
  -- readers with deletions enabled: if the event is no delete event, it is not pinned against
  -- deletes, and the tombstone that its id had, if any, was the author's too.
  pub apply_delete_event-hides :
      (store : Store) (delete event : Event) (more : Tag) (disk : Disk) (now : ℕ) (expires : Bool)
      → delete.kind ≡ 5
      → In ("e" ∷ event.id ∷ more) delete.tags
      → delete.pubkey ≡ event.pubkey
      → event.created_at ≤ delete.created_at
      → event.kind ≢ 5
      → (event_is_retention_protected store event && store.protect_pinned_from_deletes) ≡ false
      → is_own event (disk.id_tombstones event.id) ≡ true
      → event_visible store (apply_delete_event delete disk) now true expires event ≡ false
  unfolding apply_delete_event tombstone_of hides event_visible
  apply_delete_event-hides store delete event more disk now expires five tag author late plain free
        own =
      let t = tombstone_of delete in
      let hidden : hides t event ≡ true = ground (arith, eq_iff delete.pubkey event.pubkey) in
      let gone = delete_tags-hides event t hidden delete.tags more disk own tag in
      ground (arith, gone, is_deleted-shows (delete_tags t delete.tags disk) event)

  -- Where the id of an event without an address has a tombstone, a delete event that is later than
  -- the tombstone, by anyone but the event's author, and whose only tag is a bare `e` tag of the id,
  -- makes the event visible to readers that do not ask for expiration: the tombstone of an id is the
  -- latest one, whoever wrote it.
  pub apply_delete_event-restores :
      (store : Store) (delete event : Event) (t : DeleteTombstone) (disk : Disk) (now : ℕ)
      → disk.id_tombstones event.id ≡ some t
      → t.created_at < delete.created_at
      → delete.kind ≡ 5
      → delete.tags ≡ ("e" ∷ event.id ∷ []) ∷ []
      → delete.pubkey ≢ event.pubkey
      → event_address event ≡ none
      → event_visible store (apply_delete_event delete disk) now true false event ≡ true
  unfolding apply_delete_event tombstone_of hides event_visible is_deleted delete_tags delete_tag
      later not_after
  apply_delete_event-restores store delete event t disk now there older five tags stranger plain =
      ground (
        arith,
        write_tombstone-later event.id (tombstone_of delete) disk.id_tombstones event.id,
        eq_iff event.id event.id,
        eq_iff delete.pubkey event.pubkey,
      )
