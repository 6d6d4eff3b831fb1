-- ===== src/Store/Retention/Enforce.antt =====
-- `enforce_retention_locked` of stonr/src/storage.rs, with limits and without.
use mathlib.Core.Path.{subst}
use stonr.Base.{
  ℕ, ◌<◌, ◌^◌, ◌-◌, String, true, false, some, List, [], ◌∷◌, ◌++◌, not, keep, length, In, All, ok,
  ◌≡◌, ◌⊎◌, refl, sym, ◌∙◌, arith, inl, inr, Bool-cases, In-keep, In-of_keep, In-append,
  In-append_left, In-append_right, ok-pair, ap,
}
use stonr.Event.{Event}
use stonr.External.{External}
use stonr.Store.{Store, Disk, StoredEventRecord}
use stonr.Store.Consistent.{stored, IsConsistent}
use stonr.Store.Frame.{IsConsistent-of_SameFiles}
use stonr.Store.Retention.{
  prune, Pruned, settle, remove_files, enforce_retention, enforce_retention_from_records,
  sorted_event_records, report_disabled, total_size,
}
use stonr.Store.Retention.Prune.{
  Split, bytes_of, is_protected, prune-Split, prune-totals, prune-limits, prune-prefix,
  prune-needed, total_size-exact,
}
use stonr.Store.Retention.Rebuild.{rebuild_from_records-IsConsistent}
use stonr.Store.Retention.Records.{Covers, HasDistinctPaths, sorted_event_records-Covers}
use stonr.Store.Retention.Removal.{IsFiled-remove_files, Covers-remove_files}
use stonr.Store.Visibility.{event_is_retention_protected}
use stonr.Store.Status.{
  has_no_limits, retention_limits_exceeded, write_retention_status, write_stats_cache,
}

removed-unprotected :
    (store : Store) (events bytes : ℕ) (records : List StoredEventRecord) (r : StoredEventRecord)
    → In r (prune store events bytes records).removed
    → is_protected store r ≡ false
removed-unprotected store events bytes records r m =
    let (oldest, newest, whole, gone, stay) = prune-prefix store events bytes records in
    let m' = subst (λ l. In r l) gone m in
    ground (arith, In-of_keep r (λ q. not (is_protected store q)) oldest m')

Covers-of_events :
    {records : List StoredEventRecord} {a b : Disk}
    → a.events ≡ b.events
    → Covers records b
    → Covers records a
unfolding stored
Covers-of_events h c = record {
  sound = λ r m. let (s, named) = c.sound r m in (rw (h, stored) s, named);
  complete = λ id event s. c.complete id event (rw (h, stored) at s);
}

limits-at :
    (store : Store) (kept : List StoredEventRecord) {events bytes n m : ℕ}
    → events ≡ n
    → bytes ≡ m
    → (retention_limits_exceeded store events bytes ≡ false)
      ⊎ All (λ r. is_protected store r ≡ true) kept
    → (retention_limits_exceeded store n m ≡ false) ⊎ All (λ r. is_protected store r ≡ true) kept
limits-at store kept e b (inl within) = inl (rw (← e, ← b) within)
limits-at store kept e b (inr all) = inr all

stored-of_record :
    {records : List StoredEventRecord} {disk : Disk} (r : StoredEventRecord) {id : String}
    {event : Event}
    → Covers records disk
    → In r records
    → r.event ≡ event
    → r.path ≡ id
    → stored disk id ≡ some event
stored-of_record {disk = disk} r {event = event} c m at_event at_path =
    let (s, named) = c.sound r m in
    subst (λ i. stored disk i ≡ some event) (sym named ∙ at_path) (s ∙ ap (λ e. some e) at_event)

module _ ⦃x : External⦄ where
  settle-IsConsistent :
      (store : Store) (now : ℕ) (records kept removed : List StoredEventRecord) (events bytes : ℕ)
      (disk : Disk)
      → Split records kept removed
      → HasDistinctPaths records
      → Covers records disk
      → IsConsistent disk
      → let pruned : Pruned = record {
        kept = kept;
        removed = removed;
        total_events = events;
        total_bytes = bytes;
      } in
        (after : Disk) × (settle store now pruned disk ≡ ok after)
        × IsConsistent after
        × (after.events ≡ (remove_files removed disk).events)
  unfolding settle write_stats_cache write_retention_status remove_files
  settle-IsConsistent store now records kept [] events bytes disk s apart covers c = (
    write_stats_cache store now events bytes disk,
    refl,
    IsConsistent-of_SameFiles (record { events = refl; index = refl }) c,
    refl,
  )
  settle-IsConsistent store now records kept (r ∷ removed) events bytes disk s apart covers c =
      rebuild_from_records-IsConsistent store now kept (remove_files (r ∷ removed) disk)
        (IsFiled-remove_files (r ∷ removed) disk c.filed) (Covers-remove_files disk s apart covers)

  -- What is kept of the records of a disk, and what is removed.
  abbrev pruned_of : Store → Disk → Pruned
  pruned_of store disk =
      let records = sorted_event_records disk in
      prune store (length records) (total_size records) records

  -- With some limit the run over a consistent disk returns, and the kept records are those of the
  -- events that stay.
  enforce_retention-run :
      (store : Store) (now : ℕ) (disk : Disk)
      → has_no_limits store ≡ false
      → IsConsistent disk
      → (after : Disk) × (enforce_retention store now disk
          ≡ ok (after, length (pruned_of store disk).removed))
        × IsConsistent after
        × Covers (pruned_of store disk).kept after
  unfolding enforce_retention enforce_retention_from_records write_retention_status
  enforce_retention-run store now disk limited c =
      let records = sorted_event_records disk in
      let (covers, apart) = sorted_event_records-Covers disk c.filed in
      let pruned = pruned_of store disk in
      let split = prune-Split store (length records) (total_size records) records in
      let (settled, run, sound, same) =
        settle-IsConsistent store now records pruned.kept pruned.removed pruned.total_events
          pruned.total_bytes disk split apart covers c in
      (
        write_retention_status store now pruned.total_events pruned.total_bytes (some now)
            (some (length pruned.removed)) settled,
        rw (limited, run) refl,
        IsConsistent-of_SameFiles (record { events = refl; index = refl }) sound,
        Covers-of_events same (Covers-remove_files disk split apart covers),
      )

  -- With some limit configured, over a consistent store whose files' sizes sum up to a `u64`,
  -- `enforce_retention` returns; it reports how many of the events it removed; the store is
  -- consistent after it, with the kept records those of its events; the removed ones are the
  -- unprotected records of an oldest part, and the kept ones all others; and what is kept is within
  -- both limits or all protected. None is removed needlessly: each was removed while the records
  -- without those removed before it exceeded a limit.
  pub enforce_retention-effect :
      (store : Store) (now : ℕ) (disk : Disk)
      → has_no_limits store ≡ false
      → IsConsistent disk
      → bytes_of (sorted_event_records disk) < 2 ^ 64
      → (after : Disk) × (kept removed oldest newest : List StoredEventRecord) × (enforce_retention
            store now disk
          ≡ ok (after, length removed))
        × IsConsistent after
        × Covers kept after
        × (sorted_event_records disk ≡ oldest ++ newest)
        × (removed ≡ keep (λ r. not (is_protected store r)) oldest)
        × (kept ≡ keep (is_protected store) oldest ++ newest)
        × ((retention_limits_exceeded store (length kept) (bytes_of kept) ≡ false)
            ⊎ All (λ r. is_protected store r ≡ true) kept)
        × ((before later : List StoredEventRecord) (r : StoredEventRecord)
            → removed ≡ before ++ r ∷ later
            → retention_limits_exceeded store
                (length (sorted_event_records disk) - length before)
                (bytes_of (sorted_event_records disk) - bytes_of before)
              ≡ true)
  enforce_retention-effect store now disk limited c fits =
      let records = sorted_event_records disk in
      let pruned = pruned_of store disk in
      let (after, run, sound, covers) = enforce_retention-run store now disk limited c in
      let (oldest, newest, whole, gone, stay) =
        prune-prefix store (length records) (total_size records) records in
      let (events, bytes) =
        prune-totals store (length records) (total_size records) records 0 0 (omega arith)
          (omega (arith, total_size-exact records fits)) in
      (
        after,
        pruned.kept,
        pruned.removed,
        oldest,
        newest,
        run,
        sound,
        covers,
        whole,
        gone,
        stay,
        limits-at store pruned.kept (omega (arith, events)) (omega (arith, bytes))
            (prune-limits store (length records) (total_size records) records),
        λ before later r m.
            subst
              (λ b.
                retention_limits_exceeded store (length records - length before)
                  (b - bytes_of before)
                ≡ true)
              (total_size-exact records fits)
              (prune-needed store (length records) (total_size records) records before later r m),
      )

  event-kept :
      (store : Store) (records oldest newest : List StoredEventRecord) (r : StoredEventRecord)
      → records ≡ oldest ++ newest
      → In r records
      → is_protected store r ≡ true
      → In r (keep (is_protected store) oldest ++ newest)
  event-kept store records oldest newest r whole m safe =
      elim (In-append r oldest newest (subst (λ l. In r l) whole m)) [
        | inl old ↦ In-append_left r _ newest (In-keep r (is_protected store) oldest old safe)
        | inr new ↦ In-append_right r (keep (is_protected store) oldest) newest new
      ]

  kept-event :
      (store : Store) (records oldest newest : List StoredEventRecord) (r : StoredEventRecord)
      → records ≡ oldest ++ newest
      → In r (keep (is_protected store) oldest ++ newest)
      → In r records
  kept-event store records oldest newest r whole m =
      subst (λ l. In r l) (sym whole)
        (elim (In-append r (keep (is_protected store) oldest) newest m) [
          | inl old ↦
              In-append_left r oldest newest (In-of_keep r (is_protected store) oldest old).0
          | inr new ↦ In-append_right r oldest newest new
        ])

  -- Where `enforce_retention` over a consistent store returns, with limits or without, the store is
  -- consistent after it; it has no event that it did not have before, and every pinned one.
  pub enforce_retention-protects :
      (store : Store) (now : ℕ) (disk after : Disk) (n : ℕ)
      → IsConsistent disk
      → enforce_retention store now disk ≡ ok (after, n)
      → IsConsistent after
        × ((id : String) (event : Event)
            → (stored after id ≡ some event → stored disk id ≡ some event)
              × (stored disk id ≡ some event
                  → event_is_retention_protected store event ≡ true
                  → stored after id ≡ some event))
  unfolding enforce_retention report_disabled write_retention_status stored
  enforce_retention-protects store now disk after n c h = elim (Bool-cases (has_no_limits store)) [
    | inl unlimited ↦
        let (same, _) = ok-pair (rw unlimited at h) in
        let events : after.events ≡ disk.events = sym (λ i. (same i).events) in
        (
          IsConsistent-of_SameFiles (record { events = events; index = sym (λ i. (same i).index) })
              c,
          λ id event. (λ s. rw (← events, stored) s, λ s safe. rw (events, stored) s),
        )
    | inr limited ↦
        let records = sorted_event_records disk in
        let (after', run, sound, covers) = enforce_retention-run store now disk limited c in
        let (oldest, newest, whole, gone, stay) =
          prune-prefix store (length records) (total_size records) records in
        let kept = (pruned_of store disk).kept in
        let (same, _) = ok-pair (sym run ∙ h) in
        let before = (sorted_event_records-Covers disk c.filed).0 in
        let now_covers : Covers kept after = subst (λ d. Covers kept d) same covers in
        (
          subst (λ d. IsConsistent d) same sound,
          λ id event. (
            λ s.
                let (r, m, at_event, at_path) = now_covers.complete id event s in
                let m' =
                  kept-event store (sorted_event_records disk) oldest newest r whole
                    (subst (λ l. In r l) stay m) in
                stored-of_record r before m' at_event at_path,
            λ s safe.
                let (r, m, at_event, at_path) = before.complete id event s in
                let m' =
                  event-kept store (sorted_event_records disk) oldest newest r whole m
                    (ap (event_is_retention_protected store) at_event ∙ safe) in
                stored-of_record r now_covers (subst (λ l. In r l) (sym stay) m') at_event at_path,
          ),
        )
  ]
