-- ===== src/Store/IngestLaws.antt =====
-- The writes of `ingest_locked` of stonr/src/storage.rs, against the index files and the events.
use mathlib.Core.Option
use stonr.Base.{
  ℕ, String, Bool, true, false, none, some, [], ◌∷◌, ◌++◌, ◌==◌, ◌&&◌, not, nat_eq, if◌then◌else◌,
  is_some, ok, >>=-eq-ok, ok-pair, ◌≡◌, refl, sym, eq_iff, arith, inl, inr, Bool-cases,
  Option-cases, ◌⊎◌,
}
use stonr.Crypto.{verify_event}
use stonr.Event.{Event, event_is_expired}
use stonr.External.{External}
use stonr.Store.{Store, Disk, EventFile}
use stonr.Store.Consistent.{stored, IsConsistent, lookup-append, new-distinct}
use stonr.Store.Frame.{
  SameFiles, SameFiles-refl, SameFiles-trans, SameFiles-write_mirror_links,
  SameFiles-bump_stats_cache, SameFiles-delete_if, IsConsistent-of_SameFiles, has_text-index_event,
  events-index_event,
}
use stonr.Store.Index.{event_path, index_event, write_mirror_links}
use stonr.Store.Ingest.{write_event, append_log, store_event, ingest_locked, ingest_with_policy}
use stonr.Store.Read.{lookup}

module _ ⦃x : External⦄ where
  abbrev pub new_file : Event → EventFile
  new_file event = record { size_bytes = x.json_len event; body = some event }

  -- The events and the index files once they are written.
  abbrev pub written : Event → Disk → Disk
  written event disk = index_event event (append_log event (write_event event disk))

  events-written :
      (event : Event) (disk : Disk)
      → (written event disk).events ≡ disk.events ++ (event.id, new_file event) ∷ []
  unfolding append_log write_event
  events-written event disk = events-index_event event _

  module _ (event : Event) (disk : Disk) (new : lookup event.id disk.events ≡ none) where
    lookup-written :
        (id : String)
        → lookup id (written event disk).events
          ≡ (if event.id == id then some (new_file event) else lookup id disk.events)
    unfolding lookup Option.or_else
    lookup-written id =
        rw (events-written event disk, lookup-append id event.id (new_file event) disk.events)
          (ground (arith, eq_iff event.id id))

    stored-written :
        (id : String)
        → stored (written event disk) id ≡ (if event.id == id then some event else stored disk id)
    unfolding stored Option.bind
    stored-written id = ground (arith, lookup-written id)

    written-IsConsistent :
        {path : String × String × String}
        → event_path event.id ≡ ok path
        → IsConsistent disk
        → IsConsistent (written event disk)
    unfolding stored Option.bind append_log write_event Option.or_else
    written-IsConsistent {path} sliced c = record {
      filed = record {
        named = λ id e h. ground (arith, stored-written id, eq_iff event.id id, c.named id e);
        sliced = λ id e h. elim (Bool-cases (event.id == id)) [
          | inl same ↦ (path, rw (← (eq_iff event.id id).0 same) sliced)
          | inr other ↦ c.sliced id e (ground (arith, stored-written id))
        ];
        distinct =
            rw (events-written event disk)
              (new-distinct event.id (new_file event) disk.events c.distinct new);
      };
      indexed = λ key id. ground (
        arith,
        has_text-index_event event (append_log event (write_event event disk)) key id,
        c.indexed key id,
        lookup-written id,
        eq_iff event.id id,
      );
    }

  -- What a successful `ingest_locked` did: nothing, for an event whose file was there, or the writes
  -- for a new event.
  abbrev pub Ingested : Event → Disk → Disk → Bool → Type 0
  Ingested event disk after stored_new =
      ((stored_new ≡ false) × (after ≡ disk))
      ⊎ ((stored_new ≡ true)
          × (lookup event.id disk.events ≡ none)
          × ((path : String × String × String) × (event_path event.id ≡ ok path))
          × SameFiles after (written event disk))

  store_event-SameFiles :
      (store : Store) (now : ℕ) (event : Event) (disk after : Disk) (b : Bool)
      → store_event store now event disk ≡ ok (after, b)
      → (b ≡ true) × SameFiles after (written event disk)
  unfolding store_event
  store_event-SameFiles store now event disk after b h =
      let (linked, made, done) = >>=-eq-ok (write_mirror_links event (written event disk)) _ h in
      let bumped = SameFiles-bump_stats_cache store now (x.json_len event) linked in
      let links = SameFiles-write_mirror_links event (written event disk) linked made in
      let (same, flag) = ok-pair done in (sym flag, rw (← same) (SameFiles-trans bumped links))

  store_or_skip-Ingested :
      (store : Store) (now : ℕ) (event : Event) (disk after : Disk) (b : Bool)
      → ((path : String × String × String) × (event_path event.id ≡ ok path))
      → (if is_some (lookup event.id disk.events)
          then ok (disk, false)
          else store_event store now event disk)
        ≡ ok (after, b)
      → Ingested event disk after b
  store_or_skip-Ingested store now event disk after b sliced h =
      elim (Option-cases (lookup event.id disk.events)) [
        | inl new ↦
            let (flag, same) = store_event-SameFiles store now event disk after b (rw new at h) in
            inr (flag, new, sliced, same)
        | inr (file, old) ↦ let (same, flag) = ok-pair (rw old at h) in inl (sym flag, sym same)
      ]

  verified :
      (store : Store) (event : Event)
      → (if store.verify_sig then verify_event event else ok tt) ≡ ok tt
      → store.verify_sig ≡ true
      → verify_event event ≡ ok tt
  verified store event h on = ground arith

  ingest_locked-Ingested :
      (store : Store) (now : ℕ) (event : Event) (disk after : Disk) (b : Bool)
      → ingest_locked store now event disk ≡ ok (after, b)
      → (store.verify_sig ≡ true → verify_event event ≡ ok tt) × Ingested event disk after b
  unfolding ingest_locked
  ingest_locked-Ingested store now event disk after b h =
      let (done, checked, rest) =
        >>=-eq-ok (if store.verify_sig then verify_event event else ok tt) _ h in
      let (path, sliced, stores) = >>=-eq-ok (event_path event.id) _ rest in
      (
        λ on. verified store event checked on,
        store_or_skip-Ingested store now event disk after b (path, sliced) stores,
      )

  pub Ingested-IsConsistent :
      (event : Event) (disk after : Disk) (b : Bool)
      → IsConsistent disk
      → Ingested event disk after b
      → IsConsistent after
  Ingested-IsConsistent event disk after b c (inl (_, same)) = rw same c
  Ingested-IsConsistent event disk after b c (inr (_, new, (path, sliced), same)) =
      IsConsistent-of_SameFiles same (written-IsConsistent event disk new sliced c)

  pub Ingested-stored :
      (event : Event) (disk after : Disk) (b : Bool) (id : String)
      → Ingested event disk after b
      → stored after id ≡ (if b && event.id == id then some event else stored disk id)
  unfolding stored
  Ingested-stored event disk after b id (inl (flag, same)) = rw (flag, same)
  Ingested-stored event disk after b id (inr (flag, new, _, same)) =
      rw (flag, same.events, stored) (stored-written event disk new id)

  -- What a successful `ingest_with_policy` did: an expired event is skipped, and any other goes
  -- through `ingest_locked`, after which a delete event may leave its tombstones.
  pub ingest_with_policy-Ingested :
      (store : Store) (now : ℕ) (event : Event) (deletes expires : Bool) (disk after : Disk)
      (b : Bool)
      → ingest_with_policy store now event deletes expires disk ≡ ok (after, b)
      → (middle : Disk) × Ingested event disk middle b
        × SameFiles after middle
        × (b ≡ true → store.verify_sig ≡ true → verify_event event ≡ ok tt)
  unfolding ingest_with_policy
  ingest_with_policy-Ingested store now event deletes expires disk after b h =
      elim (Bool-cases (expires && (not (nat_eq event.kind 5) && event_is_expired event now))) [
        | inl skip ↦
            let (same, flag) = ok-pair (rw skip at h) in
            (disk, inl (sym flag, refl), rw same (SameFiles-refl _), λ on. cc)
        | inr go ↦
            let ((middle, stored_new), run, rest) =
              >>=-eq-ok (ingest_locked store now event disk) _ (rw go at h) in
            let (done, flag) = ok-pair rest in
            let (signed, ingested) =
              ingest_locked-Ingested store now event disk middle stored_new run in
            (
              middle,
              rw (← flag) ingested,
              rw (← done) (SameFiles-delete_if (deletes && nat_eq event.kind 5) event middle),
              λ _. signed,
            )
      ]
