-- ===== src/Store/Frame.antt =====
-- The operations that leave `events/` and `index/` as they are, and what `index_event` adds.
use stonr.Base.{
  true, if◌then◌else◌, >>=-eq-ok, >>=-total, Bool-cases, inl, inr, ℕ, String, Bool, false, List, [],
  ◌∷◌, ◌==◌, ◌&&◌, ◌||◌, any, nat_eq, ok, ◌≡◌, refl, arith, ◌∙◌, ap,
}
use stonr.Event.{Event, Tag}
use stonr.External.{External}
use stonr.Query.{has_text}
use stonr.Store.{Store, Disk, IndexKey, by_author, by_kind, by_tag, DeleteTombstone}
use stonr.Store.Consistent.{stored, tag_under, has_key, IsConsistent, IsFiled, has_text-append_one}
use stonr.Store.Index.{
  event_path, same_index, append_index, index_tag, index_tags, index_event, write_mirror_links,
}
use stonr.Store.Read.Loading.{IsSliced}
use stonr.Store.Status.{bump_stats_cache}
use stonr.Store.Tombstones.{delete_tag, delete_tags, apply_delete_event, tombstone_of}

-- The events and the index files of two disks are the same.
pub record SameFiles (a b : Disk) : Type 0 where
  pub events : a.events ≡ b.events
  pub index : a.index ≡ b.index

pub SameFiles-refl : (a : Disk) → SameFiles a a
SameFiles-refl a = record { events = refl; index = refl }

pub SameFiles-trans : {a b c : Disk} → SameFiles a b → SameFiles b c → SameFiles a c
SameFiles-trans h k = record { events = h.events ∙ k.events; index = h.index ∙ k.index }

pub SameFiles-write_mirror_links :
    (event : Event) (disk linked : Disk)
    → write_mirror_links event disk ≡ ok linked
    → SameFiles linked disk
unfolding write_mirror_links
SameFiles-write_mirror_links event disk linked h =
    let (path, sliced, made) = >>=-eq-ok (event_path event.id) _ h in ground (arith, made)

pub write_mirror_links-total :
    (event : Event) (disk : Disk)
    → IsSliced event.id
    → (linked : Disk) × (write_mirror_links event disk ≡ ok linked)
unfolding write_mirror_links
write_mirror_links-total event disk sliced =
    >>=-total (λ d. d) (event_path event.id) _ sliced (λ path. (_, refl))

pub SameFiles-bump_stats_cache :
    (store : Store) (now bytes : ℕ) (disk : Disk)
    → SameFiles (bump_stats_cache store now bytes disk) disk
unfolding bump_stats_cache
SameFiles-bump_stats_cache store now bytes disk = ground arith

pub IsFiled-of_events : {a b : Disk} → a.events ≡ b.events → IsFiled b → IsFiled a
unfolding stored
IsFiled-of_events h f = record {
  named = λ id event e. f.named id event (rw (h, stored) at e);
  sliced = λ id event e. f.sliced id event (rw (h, stored) at e);
  distinct = rw h f.distinct;
}

module _ ⦃x : External⦄ where
  SameFiles-delete_tag :
      (tombstone : DeleteTombstone) (fields : Tag) (disk : Disk)
      → SameFiles (delete_tag tombstone fields disk) disk
  unfolding delete_tag
  SameFiles-delete_tag tombstone [] disk = SameFiles-refl disk
  SameFiles-delete_tag tombstone (t ∷ []) disk = SameFiles-refl disk
  SameFiles-delete_tag tombstone (t ∷ v ∷ _) disk = ground arith

  SameFiles-delete_tags :
      (tombstone : DeleteTombstone) (tags : List Tag) (disk : Disk)
      → SameFiles (delete_tags tombstone tags disk) disk
  unfolding delete_tags
  SameFiles-delete_tags tombstone [] disk = SameFiles-refl disk
  SameFiles-delete_tags tombstone (fields ∷ tags) disk =
      SameFiles-trans (SameFiles-delete_tags tombstone tags _)
        (SameFiles-delete_tag tombstone fields disk)

  pub SameFiles-apply_delete_event :
      (event : Event) (disk : Disk) → SameFiles (apply_delete_event event disk) disk
  unfolding apply_delete_event
  SameFiles-apply_delete_event event disk = elim (Bool-cases (nat_eq event.kind 5)) [
    | inl deletes ↦ rw deletes (SameFiles-delete_tags (tombstone_of event) event.tags disk)
    | inr other ↦ rw other (SameFiles-refl disk)
  ]

  pub SameFiles-delete_if :
      (applies : Bool) (event : Event) (disk : Disk)
      → SameFiles (if applies then apply_delete_event event disk else disk) disk
  SameFiles-delete_if true event disk = SameFiles-apply_delete_event event disk
  SameFiles-delete_if false event disk = SameFiles-refl disk

  -- A consistent disk stays so where neither its events nor its index files change.
  pub IsConsistent-of_SameFiles : {a b : Disk} → SameFiles a b → IsConsistent b → IsConsistent a
  unfolding stored
  IsConsistent-of_SameFiles h c = record {
    filed = IsFiled-of_events h.events c.filed;
    indexed = λ key id. rw (h.index, h.events, stored) (c.indexed key id);
  }

  -- Whether a tag puts its event in an index file.
  unfoldable pub under : IndexKey → Tag → Bool
  under (by_author pubkey) fields = false
  under (by_kind kind) fields = false
  under (by_tag name hash) fields = tag_under name hash fields

  has_text-append_index :
      (key other : IndexKey) (id text : String) (index : IndexKey → List String)
      → has_text (append_index key id index other) text
        ≡ (has_text (index other) text || (same_index key other && id == text))
  unfolding append_index
  has_text-append_index key other id text index =
      ground (arith, has_text-append_one (index other) id text)

  has_text-index_tag :
      (event : Event) (fields : Tag) (disk : Disk) (key : IndexKey) (id : String)
      → has_text ((index_tag event fields disk).index key) id
        ≡ (has_text (disk.index key) id || (under key fields && event.id == id))
  unfolding index_tag under tag_under same_index
  has_text-index_tag event [] disk (by_author a) id = ground arith
  has_text-index_tag event [] disk (by_kind k) id = ground arith
  has_text-index_tag event [] disk (by_tag n h) id = ground arith
  has_text-index_tag event (t ∷ []) disk (by_author a) id = ground arith
  has_text-index_tag event (t ∷ []) disk (by_kind k) id = ground arith
  has_text-index_tag event (t ∷ []) disk (by_tag n h) id = ground arith
  has_text-index_tag event (t ∷ v ∷ r) disk (by_author a) id =
      ground (
        arith,
        has_text-append_index (by_tag t (x.sha1_hex v)) (by_author a) event.id id disk.index,
      )
  has_text-index_tag event (t ∷ v ∷ r) disk (by_kind k) id =
      ground
        (arith, has_text-append_index (by_tag t (x.sha1_hex v)) (by_kind k) event.id id disk.index)
  has_text-index_tag event (t ∷ v ∷ r) disk (by_tag n h) id =
      ground
        (arith, has_text-append_index (by_tag t (x.sha1_hex v)) (by_tag n h) event.id id disk.index)

  has_text-index_tags :
      (event : Event) (tags : List Tag) (disk : Disk) (key : IndexKey) (id : String)
      → has_text ((index_tags event tags disk).index key) id
        ≡ (has_text (disk.index key) id || (any (under key) tags && event.id == id))
  unfolding index_tags
  has_text-index_tags event [] disk key id = ground arith
  has_text-index_tags event (fields ∷ tags) disk key id = ground (
    arith,
    has_text-index_tag event fields disk key id,
    has_text-index_tags event tags (index_tag event fields disk) key id,
  )

  not-under : (tags : List Tag) → any (λ fields. false) tags ≡ false
  not-under [] = refl
  not-under (fields ∷ tags) = not-under tags

  events-index_tags :
      (event : Event) (tags : List Tag) (disk : Disk)
      → (index_tags event tags disk).events ≡ disk.events
  unfolding index_tags
  events-index_tags event [] disk = refl
  events-index_tags event ([] ∷ tags) disk = events-index_tags event tags disk
  events-index_tags event ((t ∷ []) ∷ tags) disk = events-index_tags event tags disk
  events-index_tags event ((t ∷ v ∷ r) ∷ tags) disk =
      ground (arith, events-index_tags event tags (index_tag event (t ∷ v ∷ r) disk))

  -- The three appends of `index_event` in one test.
  index_event_parts :
      (event : Event) (disk : Disk) (key : IndexKey) (id : String) (after : IndexKey → List String)
      → has_text (after key) id ≡ (
          (has_text (disk.index key) id
            || (same_index (by_author event.pubkey) key && event.id == id))
          || (same_index (by_kind event.kind) key && event.id == id))
      → (has_text (after key) id || (any (under key) event.tags && event.id == id))
        ≡ (has_text (disk.index key) id || (has_key event key && event.id == id))
  unfolding has_key same_index under
  index_event_parts event disk (by_author a) id after h = ground (arith, not-under event.tags)
  index_event_parts event disk (by_kind k) id after h = ground (arith, not-under event.tags)
  index_event_parts event disk (by_tag n t) id after h = ground arith

  pub events-index_event :
      (event : Event) (disk : Disk) → (index_event event disk).events ≡ disk.events
  unfolding index_event
  events-index_event event disk = events-index_tags event event.tags _

  -- Indexing an event adds its id to exactly the index files that the event belongs in.
  pub has_text-index_event :
      (event : Event) (disk : Disk) (key : IndexKey) (id : String)
      → has_text ((index_event event disk).index key) id
        ≡ (has_text (disk.index key) id || (has_key event key && event.id == id))
  unfolding index_event
  has_text-index_event event disk key id =
      let author = by_author event.pubkey in
      let kind = by_kind event.kind in
      let authors = append_index author event.id disk.index in
      let start = record disk { index = append_index kind event.id authors } in
      has_text-index_tags event event.tags start key id
      ∙ index_event_parts event disk key id start.index (
          has_text-append_index kind key event.id id authors
          ∙ ap (λ b. b || (same_index kind key && event.id == id))
              (has_text-append_index author key event.id id disk.index))
