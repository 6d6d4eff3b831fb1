-- ===== src/Store/System.antt =====
-- The store as a state machine: what can happen to a root directory between two of its uses, in any
-- order, each step with the mutation lock. The background pass of retention walks the directory
-- before it has the lock; it is a step only where nobody changed the directory in between.
use mathlib.Core.Option
use mathlib.Core.Path.{subst}
use stonr.Base.{
  ok-injective, ℕ, String, Bool, true, some, ok, ◌==◌, ◌&&◌, ◌≡◌, refl, ◌∙◌, sym, arith, inl, inr,
  Bool-cases, Option-cases,
}
use stonr.Crypto.{verify_event}
use stonr.Event.{Event}
use stonr.External.{External}
use stonr.Query.{has_text}
use stonr.Store.{Store, Disk, empty}
use stonr.Store.Consistent.{stored, IsConsistent, IsFiled}
use stonr.Store.Frame.{SameFiles, IsConsistent-of_SameFiles}
use stonr.Store.Ingest.{init, ingest_with_policy}
use stonr.Store.IngestResult.{ingest_with_policy-effect}
use stonr.Store.Read.{lookup}
use stonr.Store.Retention.{rebuild_metadata, enforce_retention}
use stonr.Store.Retention.Background.{RetentionPassOutcome, enforce_retention_background}
use stonr.Store.Retention.Background.Unchanged.{enforce_retention_background-Protects}
use stonr.Store.Retention.Enforce.{enforce_retention-protects}
use stonr.Store.Retention.Rebuild.{rebuild_metadata-IsConsistent}
use stonr.Store.Status.{write_retention_status}

module _ ⦃x : External⦄ (store : Store) where
  pub data Step : Disk → Disk → Type 0 where
    starts : {disk : Disk} (now : ℕ) → Step disk (init store now disk)
    ingests :
        {disk after : Disk} {b : Bool} (now : ℕ) (event : Event) (deletes expires : Bool)
        → ingest_with_policy store now event deletes expires disk ≡ ok (after, b)
        → Step disk after
    reindexes :
        {disk after : Disk} (now : ℕ) → rebuild_metadata store now disk ≡ ok after → Step disk after
    enforces :
        {disk after : Disk} {n : ℕ} (now : ℕ)
        → enforce_retention store now disk ≡ ok (after, n)
        → Step disk after
    passes :
        {disk after : Disk} {outcome : RetentionPassOutcome} (now : ℕ) (free : Bool)
        → enforce_retention_background store now disk free disk ≡ ok (after, outcome)
        → Step disk after

  -- The root directories that the steps lead to from an empty one.
  pub data Reach : Disk → Type 0 where
    fresh : Reach empty
    next : {before after : Disk} → Reach before → Step before after → Reach after

module _ ⦃x : External⦄ where
  -- Every stored event is one that `verify_event` accepts.
  abbrev pub AllVerified : Disk → Type 0
  AllVerified disk =
      (id : String) (event : Event) → stored disk id ≡ some event → verify_event event ≡ ok tt

  empty-IsConsistent : IsConsistent empty
  unfolding stored lookup Option.bind has_text
  empty-IsConsistent = record {
    filed = record {
      named = λ id event s. absurd (cc);
      sliced = λ id event s. absurd (cc);
      distinct = tt;
    };
    indexed = λ key id. refl;
  }

  init-SameFiles : (store : Store) (now : ℕ) (disk : Disk) → SameFiles (init store now disk) disk
  unfolding init write_retention_status
  init-SameFiles store now disk = elim (Option-cases disk.status) [
    | inl missing ↦ rw missing (record { events = refl; index = refl })
    | inr (status, there) ↦ rw there (record { events = refl; index = refl })
  ]

  reindexed :
      (store : Store) (now : ℕ) (disk after : Disk)
      → IsFiled disk
      → rebuild_metadata store now disk ≡ ok after
      → IsConsistent after × (after.events ≡ disk.events)
  reindexed store now disk after filed run =
      let (made, done, sound, events) = rebuild_metadata-IsConsistent store now disk filed in
      let same = ok-injective (sym done ∙ run) in
      (subst (λ d. IsConsistent d) same sound, sym (λ i. (same i).events) ∙ events)

  Step-IsConsistent :
      {store : Store} {disk after : Disk}
      → Step store disk after
      → IsConsistent disk
      → IsConsistent after
  Step-IsConsistent {store} {disk} (starts now) c =
      IsConsistent-of_SameFiles (init-SameFiles store now disk) c
  Step-IsConsistent {store} {disk} {after} (ingests {b} now event deletes expires run) c =
      (ingest_with_policy-effect store now event deletes expires disk after b c run).0
  Step-IsConsistent {store} {disk} {after} (reindexes now run) c =
      (reindexed store now disk after c.filed run).0
  Step-IsConsistent {store} {disk} {after} (enforces {n} now run) c =
      (enforce_retention-protects store now disk after n c run).0
  Step-IsConsistent {store} {disk} {after} (passes {outcome} now free run) c =
      (enforce_retention_background-Protects store now free disk after outcome c run).0

  -- Whatever sequence a store has been through of starts, ingestions, reindexes, retention runs
  -- that hold the lock, and background passes over a directory that nobody changed since their
  -- walk, its index files agree with its events.
  pub Reach-IsConsistent : (store : Store) (disk : Disk) → Reach store disk → IsConsistent disk
  Reach-IsConsistent store disk fresh = empty-IsConsistent
  Reach-IsConsistent store disk (next {before} r s) =
      Step-IsConsistent s (Reach-IsConsistent store before r)

  AllVerified-of_events : (a b : Disk) → a.events ≡ b.events → AllVerified b → AllVerified a
  unfolding stored
  AllVerified-of_events a b h all id event s = all id event (rw (h, stored) at s)

  Step-AllVerified :
      {store : Store} {disk after : Disk}
      → store.verify_sig ≡ true
      → Step store disk after
      → IsConsistent disk
      → AllVerified disk
      → AllVerified after
  Step-AllVerified {store} {disk} on (starts now) c all =
      AllVerified-of_events _ _ (init-SameFiles store now disk).events all
  Step-AllVerified {store} {disk} {after} on (reindexes now run) c all =
      AllVerified-of_events _ _ (reindexed store now disk after c.filed run).1 all
  Step-AllVerified {store} {disk} {after} on (enforces {n} now run) c all = λ id event s.
      all id event (((enforce_retention-protects store now disk after n c run).1 id event).0 s)
  Step-AllVerified {store} {disk} {after} on (passes {outcome} now free run) c all = λ id event s.
      let (_, protects, _) =
        enforce_retention_background-Protects store now free disk after outcome c run in
      all id event ((protects id event).0 s)
  Step-AllVerified {store} {disk} {after} on (ingests {b} now event deletes expires run) c all =
      λ id held s.
        let (_, effect, signed) =
          ingest_with_policy-effect store now event deletes expires disk after b c run in
        elim (Bool-cases (b && event.id == id)) [
          | inl stored_now ↦
              let same : event ≡ held = ground (arith, effect id) in
              subst (λ e. verify_event e ≡ ok tt) same ((signed (ground arith)).1 on)
          | inr before ↦ all id held (ground (arith, effect id))
        ]

  -- In a store that verifies signatures, every stored event is one that `verify_event` accepts,
  -- whatever sequence the store has been through of starts, ingestions, reindexes, retention runs
  -- that hold the lock, and background passes over a directory that nobody changed since their walk.
  pub Reach-AllVerified :
      (store : Store) (disk : Disk) → store.verify_sig ≡ true → Reach store disk → AllVerified disk
  unfolding stored lookup Option.bind
  Reach-AllVerified store disk on fresh = λ id event s. absurd (cc)
  Reach-AllVerified store disk on (next {before} r s) =
      Step-AllVerified on s (Reach-IsConsistent store before r)
        (Reach-AllVerified store before on r)
