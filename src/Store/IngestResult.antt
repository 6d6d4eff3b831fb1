-- ===== src/Store/IngestResult.antt =====
-- `ingest_with_policy` of stonr/src/storage.rs as a whole.
use mathlib.Core.Option
use stonr.Base.{
  ℕ, String, Bool, true, false, none, some, ◌==◌, ◌&&◌, not, nat_eq, is_some, if◌then◌else◌, ok,
  >>=-total, ◌≡◌, refl, arith, inl, inr, Bool-cases,
}
use stonr.Crypto.{verify_event}
use stonr.Event.{Event, event_is_expired}
use stonr.External.{External}
use stonr.Store.{Store, Disk}
use stonr.Store.Consistent.{stored, IsConsistent}
use stonr.Store.Tombstones.{apply_delete_event}
use stonr.Store.Frame.{write_mirror_links-total, IsConsistent-of_SameFiles}
use stonr.Store.Index.{event_path, write_mirror_links}
use stonr.Store.Ingest.{store_event, ingest_locked, ingest_with_policy}
use stonr.Store.IngestLaws.{
  Ingested, Ingested-IsConsistent, Ingested-stored, ingest_with_policy-Ingested, written,
}
use stonr.Store.Read.{lookup}
use stonr.Store.Read.Loading.{IsSliced}

module _ ⦃x : External⦄ where
  -- Whether the event is passed over as expired.
  unfoldable pub is_skipped : Event → ℕ → Bool → Bool
  is_skipped event now expires =
      expires && (not (nat_eq event.kind 5) && event_is_expired event now)

  Ingested-new :
      (event : Event) (disk after : Disk) (b : Bool)
      → Ingested event disk after b
      → b ≡ true
      → stored disk event.id ≡ none
  unfolding stored Option.bind
  Ingested-new event disk after b (inl (flag, _)) h = absurd (cc)
  Ingested-new event disk after b (inr (_, new, _, _)) h = rw new

  -- Where an ingestion into a consistent store returns, the store is consistent after it; the
  -- stored events are those of before and, if it reports that the event was stored, the event
  -- under its id; and it reports that only for an id with no event before, and, in a store that
  -- verifies, only for an event that `verify_event` accepts.
  pub ingest_with_policy-effect :
      (store : Store) (now : ℕ) (event : Event) (deletes expires : Bool) (disk after : Disk)
      (b : Bool)
      → IsConsistent disk
      → ingest_with_policy store now event deletes expires disk ≡ ok (after, b)
      → IsConsistent after
        × ((id : String)
            → stored after id ≡ (if b && event.id == id then some event else stored disk id))
        × (b ≡ true
            → (stored disk event.id ≡ none)
              × (store.verify_sig ≡ true → verify_event event ≡ ok tt))
  unfolding stored
  ingest_with_policy-effect store now event deletes expires disk after b c h =
      let (middle, ingested, same, signed) =
        ingest_with_policy-Ingested store now event deletes expires disk after b h in
      (
        IsConsistent-of_SameFiles same (Ingested-IsConsistent event disk middle b c ingested),
        λ id. rw (same.events, stored) (Ingested-stored event disk middle b id ingested),
        λ new. (Ingested-new event disk middle b ingested new, signed new),
      )

  store_event-total :
      (store : Store) (now : ℕ) (event : Event) (disk : Disk)
      → IsSliced event.id
      → (after : Disk) × (store_event store now event disk ≡ ok (after, true))
  unfolding store_event
  store_event-total store now event disk sliced =
      >>=-total (λ d. (d, true)) (write_mirror_links event (written event disk)) _
        (write_mirror_links-total event (written event disk) sliced) (λ linked. (_, refl))

  store_or_skip-total :
      (store : Store) (now : ℕ) (event : Event) (disk : Disk) (exists : Bool)
      → IsSliced event.id
      → (after : Disk) × ((if exists then ok (disk, false) else store_event store now event disk)
          ≡ ok (after, not exists))
  store_or_skip-total store now event disk true sliced = (disk, refl)
  store_or_skip-total store now event disk false sliced =
      store_event-total store now event disk sliced

  ingest_locked-total :
      (store : Store) (now : ℕ) (event : Event) (disk : Disk)
      → (store.verify_sig ≡ true → verify_event event ≡ ok tt)
      → IsSliced event.id
      → (after : Disk) × (ingest_locked store now event disk
          ≡ ok (after, not (is_some (lookup event.id disk.events))))
  unfolding ingest_locked
  ingest_locked-total store now event disk signed sliced =
      let exists = is_some (lookup event.id disk.events) in
      let (after, run) = store_or_skip-total store now event disk exists sliced in
      let checked : (if store.verify_sig then verify_event event else ok tt) ≡ ok tt =
        ground (arith, signed) in
      let result : Disk → Disk × Bool = λ d. (d, not exists) in
      >>=-total result (if store.verify_sig then verify_event event else ok tt) _ (tt, checked)
        (λ _. >>=-total result (event_path event.id) _ sliced (λ _. (after, run)))

  -- An ingestion returns for every event that the store need not verify or `verify_event`
  -- accepts, if the id has the slices of its path; and it stores the event exactly where it is not
  -- passed over as expired and no file has its id.
  pub ingest_with_policy-total :
      (store : Store) (now : ℕ) (event : Event) (deletes expires : Bool) (disk : Disk)
      → (store.verify_sig ≡ true → verify_event event ≡ ok tt)
      → IsSliced event.id
      → (after : Disk) × (ingest_with_policy store now event deletes expires disk
          ≡ ok (
            after,
            not (is_skipped event now expires) && not (is_some (lookup event.id disk.events)),
          ))
  unfolding ingest_with_policy is_skipped
  ingest_with_policy-total store now event deletes expires disk signed sliced =
      elim (Bool-cases (is_skipped event now expires)) [
        | inl skip ↦ (disk, ground arith)
        | inr go ↦
            let (after, run) = ingest_locked-total store now event disk signed sliced in
            (
              if deletes && nat_eq event.kind 5 then apply_delete_event event after else after,
              ground (arith, run),
            )
      ]
