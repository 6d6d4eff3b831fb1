-- ===== src/Store/Retention/Rebuild.antt =====
-- `rebuild_metadata_from_records` of stonr/src/storage.rs: the index files and the events after it.
use mathlib.Core.Path.{subst}
use stonr.Base.{
  ℕ, String, Bool, true, false, some, List, [], ◌∷◌, ◌==◌, ◌&&◌, ◌||◌, any, nat_eq, In, ok,
  >>=-eq-ok, >>=-total, ok-injective, ◌≡◌, refl, sym, ◌∙◌, ap, eq_iff, arith, inl, inr, Bool-cases,
  Option-cases, is_some_and, length,
}
use stonr.Event.{Event}
use stonr.External.{External}
use stonr.Query.{has_text}
use stonr.Store.{Store, Disk, IndexKey, StoredEventRecord}
use stonr.Store.Consistent.{stored, has_key, IsConsistent, IsFiled}
use stonr.Store.Frame.{
  SameFiles, SameFiles-write_mirror_links, write_mirror_links-total, SameFiles-delete_if,
  has_text-index_event, events-index_event, IsFiled-of_events,
}
use stonr.Store.Index.{index_event, write_mirror_links}
use stonr.Store.Ingest.{append_log}
use stonr.Store.Read.Loading.{IsSliced}
use stonr.Store.Retention.{
  rebuild_record, rebuild_records, rebuild_metadata_from_records, rebuild_metadata, clear_metadata,
  sorted_event_records, total_size,
}
use stonr.Store.Retention.Records.{Covers, sorted_event_records-Covers}
use stonr.Store.Status.{write_stats_cache}

any_iff :
    {A : Type 0} (p : A → Bool) (xs : List A) → any p xs ≡ true → (a : A) × In a xs × (p a ≡ true)
any_iff p [] h = absurd (cc)
any_iff p (x ∷ xs) h = elim (Bool-cases (p x)) [
  | inl t ↦ (x, inl refl, t)
  | inr f ↦ let (a, m, t) = any_iff p xs (ground arith) in (a, inr m, t)
]

any-of_In :
    {A : Type 0} (p : A → Bool) (a : A) (xs : List A) → In a xs → p a ≡ true → any p xs ≡ true
any-of_In p a [] m h = absurd m
any-of_In p a (x ∷ xs) (inl e) h = let h' : p x ≡ true = subst (λ y. p y ≡ true) e h in rw h'
any-of_In p a (x ∷ xs) (inr m) h = ground (arith, any-of_In p a xs m h)

-- Two tests are one if each passes where the other does.
Bool-ext : (a b : Bool) → (a ≡ true → b ≡ true) → (b ≡ true → a ≡ true) → a ≡ b
Bool-ext true b f g = sym (f refl)
Bool-ext false true f g = g refl
Bool-ext false false f g = refl

module _ ⦃x : External⦄ where
  -- Whether a record puts the id in the index file.
  indexes : IndexKey → String → StoredEventRecord → Bool
  indexes key id r = has_key r.event key && r.event.id == id

  rebuild_record-SameFiles :
      (event : Event) (disk after : Disk)
      → rebuild_record event disk ≡ ok after
      → SameFiles after (index_event event disk)
  unfolding rebuild_record append_log
  rebuild_record-SameFiles event disk after h =
      let indexed = index_event event disk in
      let (linked, links, done) = >>=-eq-ok (write_mirror_links event indexed) _ h in
      let same = SameFiles-write_mirror_links event indexed linked links in
      let deleted = SameFiles-delete_if (nat_eq event.kind 5) event linked in
      subst (λ a. SameFiles a indexed) (ok-injective done)
        (record { events = deleted.events ∙ same.events; index = deleted.index ∙ same.index })

  rebuild_records-index :
      (records : List StoredEventRecord) (disk after : Disk)
      → rebuild_records records disk ≡ ok after
      → (after.events ≡ disk.events)
        × ((key : IndexKey) (id : String)
            → has_text (after.index key) id
              ≡ (has_text (disk.index key) id || any (indexes key id) records))
  unfolding rebuild_records indexes
  rebuild_records-index [] disk after h =
      let e = ok-injective h in
      (sym (λ i. (e i).events), λ key id. sym (λ i. has_text ((e i).index key) id) ∙ ground arith)
  rebuild_records-index (r ∷ records) disk after h =
      let (middle, first, rest) = >>=-eq-ok (rebuild_record r.event disk) _ h in
      let same = rebuild_record-SameFiles r.event disk middle first in
      let (events, index) = rebuild_records-index records middle after rest in
      (
        events ∙ same.events ∙ events-index_event r.event disk,
        λ key id.
            let before : has_text (middle.index key) id ≡ _ =
              ap (λ f. has_text (f key) id) same.index ∙ has_text-index_event r.event disk key id in
            ground (arith, index key id, before),
      )

  -- The index entries that the records give are those that the stored events ask for.
  any-indexes :
      (records : List StoredEventRecord) (disk : Disk) (key : IndexKey) (id : String)
      → IsFiled disk
      → Covers records disk
      → any (indexes key id) records ≡ is_some_and (stored disk id) (λ event. has_key event key)
  unfolding indexes
  any-indexes records disk key id filed covers =
      Bool-ext _ _
        (λ h.
          let (r, m, t) = any_iff (indexes key id) records h in
          let (s, _) = covers.sound r m in
          let same : r.event.id ≡ id = (eq_iff r.event.id id).0 (ground arith) in
          let s' : stored disk id ≡ some r.event =
            subst (λ i. stored disk i ≡ some r.event) same s in
          ground (arith, s'))
        (λ h. elim (Option-cases (stored disk id)) [
          | inl missing ↦ absurd (ground arith)
          | inr (event, s) ↦
              let (r, m, at_event, _) = covers.complete id event s in
              any-of_In (indexes key id) r records m
                (ground (arith, at_event, filed.named id event s, eq_iff r.event.id id))
        ])

  rebuild_records-total :
      (records : List StoredEventRecord) (disk : Disk)
      → ((r : StoredEventRecord) → In r records → IsSliced r.event.id)
      → (after : Disk) × (rebuild_records records disk ≡ ok after)
  unfolding rebuild_records rebuild_record
  rebuild_records-total [] disk h = (disk, refl)
  rebuild_records-total (r ∷ records) disk h =
      let linked = write_mirror_links-total r.event (index_event r.event disk) (h r (inl refl)) in
      >>=-total (λ d. d) (rebuild_record r.event disk) (rebuild_records records)
        (>>=-total (λ d. d) (write_mirror_links r.event (index_event r.event disk)) _ linked
          (λ d. (_, refl)))
        (λ d. rebuild_records-total records d (λ s m. h s (inr m)))

  -- From records that cover the stored events the rebuild returns, with a consistent disk and the
  -- events as they were.
  pub rebuild_from_records-IsConsistent :
      (store : Store) (now : ℕ) (records : List StoredEventRecord) (disk : Disk)
      → IsFiled disk
      → Covers records disk
      → (after : Disk) × (rebuild_metadata_from_records store now records disk ≡ ok after)
        × IsConsistent after
        × (after.events ≡ disk.events)
  unfolding rebuild_metadata_from_records clear_metadata write_stats_cache stored has_text
  rebuild_from_records-IsConsistent store now records disk filed covers =
      let (rebuilt, run) =
        rebuild_records-total records (clear_metadata disk)
          (λ r m. filed.sliced r.event.id r.event (covers.sound r m).0) in
      let (events, index) = rebuild_records-index records (clear_metadata disk) rebuilt run in
      (
        write_stats_cache store now (length records) (total_size records) rebuilt,
        rw run,
        record {
          filed = IsFiled-of_events events filed;
          indexed = λ key id.
              rw (events, stored) (index key id ∙ any-indexes records disk key id filed covers);
        },
        events,
      )

  -- A reindex of a store whose files are named by their events returns, and leaves index files
  -- that agree with the events whatever they held before; the events stay.
  pub rebuild_metadata-IsConsistent :
      (store : Store) (now : ℕ) (disk : Disk)
      → IsFiled disk
      → (after : Disk) × (rebuild_metadata store now disk ≡ ok after)
        × IsConsistent after
        × (after.events ≡ disk.events)
  unfolding rebuild_metadata
  rebuild_metadata-IsConsistent store now disk filed =
      rebuild_from_records-IsConsistent store now (sorted_event_records disk) disk filed
        (sorted_event_records-Covers disk filed).0
