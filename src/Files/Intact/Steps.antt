-- ===== src/Files/Intact/Steps.antt =====
-- stonr/src/files.rs: the operations keep a blob store intact.
use stonr.Base.{
  ℕ, String, ◌≡◌, refl, Bool, true, some, List, [], ◌∷◌, ◌==◌, ◌&&◌, ◌||◌, inl, inr, arith, eq_iff,
  Bool-cases, Option-cases, subst, ok, ok-pair, not,
}
use stonr.Base.Dict.{Dict, find, find-put, put-IsMap}
use stonr.Event.{Event}
use stonr.Query.{has_text}
use stonr.Files.{FileCrates, FileSettings, BlobMeta, PruneSummary, FileDisk, insert_text}
use stonr.Files.References.{
  add_known_reference, add_reference, add_references, add_event_references, add_all_references,
  referenced_hashes,
}
use stonr.Files.Removal.{
  unclaimed, disown, delete_known, delete_for_owner, is_prunable, prune_one, prune_walk, prune,
}
use stonr.Files.Intact.{IsIntact, write_meta-IsIntact, remove_blob-IsIntact}

pub has_text-insert_text :
    (text other : String) (texts : List String)
    → has_text (insert_text text texts) other ≡ (text == other || has_text texts other)
unfolding insert_text has_text
has_text-insert_text text other texts = elim (Bool-cases (has_text texts text)) [
  | inl known ↦ rw known (elim (Bool-cases (text == other)) [
    | inl same ↦ rw same (subst (λ t. has_text texts t ≡ true) ((eq_iff text other).0 same) known)
    | inr different ↦ rw different refl
  ])
  | inr fresh ↦ rw fresh refl
]

module _ ⦃c : FileCrates⦄ where
  add_known_reference-IsIntact :
      (hash event_id : String) (meta : BlobMeta) (disk : FileDisk)
      → IsIntact disk
      → find hash disk.metas ≡ some meta
      → IsIntact (add_known_reference (some meta) hash event_id disk)
  unfolding add_known_reference
  add_known_reference-IsIntact hash event_id meta disk good known = record {
    named = put-IsMap meta.sha256 _ disk.metas good.named;
    described = λ other found h. ground (
      arith,
      find-put other meta.sha256 (record meta { refs = insert_text event_id meta.refs }) disk.metas,
      good.described other found,
      eq_iff meta.sha256 other,
    );
    present = λ other. ground (
      arith,
      find-put other meta.sha256 (record meta { refs = insert_text event_id meta.refs }) disk.metas,
      good.described hash meta,
      good.present other,
      eq_iff meta.sha256 other,
    );
    addressed = good.addressed;
    referred = λ other id. ground (
      arith,
      find-put other meta.sha256 (record meta { refs = insert_text event_id meta.refs }) disk.metas,
      good.described hash meta,
      good.referred other id,
      eq_iff hash other,
      has_text-insert_text event_id id meta.refs,
    );
  }

  pub add_reference-IsIntact :
      (hash event_id : String) (disk : FileDisk)
      → IsIntact disk
      → IsIntact (add_reference hash event_id disk)
  unfolding add_reference
  add_reference-IsIntact hash event_id disk good = elim (Option-cases (find hash disk.metas)) [
    | inl unknown ↦ rw unknown good
    | inr (meta, known) ↦ rw known (add_known_reference-IsIntact hash event_id meta disk good known)
  ]

  add_references-IsIntact :
      (hashes : List String) (event_id : String) (disk : FileDisk)
      → IsIntact disk
      → IsIntact (add_references hashes event_id disk)
  unfolding add_references
  add_references-IsIntact [] event_id disk good = good
  add_references-IsIntact (hash ∷ hashes) event_id disk good =
      add_references-IsIntact hashes event_id (add_reference hash event_id disk)
        (add_reference-IsIntact hash event_id disk good)

  pub add_event_references-IsIntact :
      (event : Event) (disk : FileDisk) → IsIntact disk → IsIntact (add_event_references event disk)
  unfolding add_event_references
  add_event_references-IsIntact event disk good =
      add_references-IsIntact (referenced_hashes event) event.id disk good

  pub add_all_references-IsIntact :
      (events : List Event) (disk : FileDisk)
      → IsIntact disk
      → IsIntact (add_all_references events disk)
  unfolding add_all_references
  add_all_references-IsIntact [] disk good = good
  add_all_references-IsIntact (event ∷ events) disk good =
      add_all_references-IsIntact events (add_event_references event disk)
        (add_event_references-IsIntact event disk good)

  delete_known-IsIntact :
      (hash owner : String) (settings : FileSettings) (meta : BlobMeta) (disk after : FileDisk)
      (removed : Bool)
      → IsIntact disk
      → find hash disk.metas ≡ some meta
      → delete_known (some meta) hash owner settings disk ≡ ok (after, removed)
      → IsIntact after
  unfolding delete_known
  delete_known-IsIntact hash owner settings meta disk after removed good known h =
      elim (Bool-cases (has_text meta.owners owner)) [
        | inr stranger ↦ absurd (cc (rw stranger at h))
        | inl owns ↦ elim (Bool-cases (unclaimed settings (disown meta owner))) [
          | inl free ↦
              subst IsIntact (ok-pair (rw (owns, free) at h)).0
                (remove_blob-IsIntact hash disk good)
          | inr kept ↦ subst IsIntact (ok-pair (rw (owns, kept) at h)).0 (
              write_meta-IsIntact hash meta (disown meta owner) disk good known
                (unfold disown in good.described hash meta known) (unfold disown in refl))
        ]
      ]

  pub delete_for_owner-IsIntact :
      (hash owner : String) (settings : FileSettings) (disk after : FileDisk) (removed : Bool)
      → IsIntact disk
      → delete_for_owner hash owner settings disk ≡ ok (after, removed)
      → IsIntact after
  unfolding delete_for_owner delete_known
  delete_for_owner-IsIntact hash owner settings disk after removed good h =
      elim (Option-cases (find hash disk.metas)) [
        | inl unknown ↦ subst IsIntact (ok-pair (rw unknown at h)).0 good
        | inr (meta, known) ↦
            delete_known-IsIntact hash owner settings meta disk after removed good known
              (rw known at h)
      ]

  pub prune_one-IsIntact :
      (settings : FileSettings) (now : ℕ) (dry_run : Bool) (meta : BlobMeta) (disk : FileDisk)
      → IsIntact disk
      → IsIntact (prune_one settings now dry_run meta disk)
  unfolding prune_one
  prune_one-IsIntact settings now dry_run meta disk good =
      elim (Bool-cases (is_prunable settings now meta && not dry_run)) [
        | inl doomed ↦ rw doomed (remove_blob-IsIntact meta.sha256 disk good)
        | inr kept ↦ rw kept good
      ]

  prune_walk-IsIntact :
      (settings : FileSettings) (now : ℕ) (dry_run : Bool) (metas : Dict BlobMeta)
      (summary : PruneSummary) (disk : FileDisk)
      → IsIntact disk
      → IsIntact (prune_walk settings now dry_run metas summary disk).0
  unfolding prune_walk
  prune_walk-IsIntact settings now dry_run [] summary disk good = good
  prune_walk-IsIntact settings now dry_run ((name, meta) ∷ metas) summary disk good =
      prune_walk-IsIntact settings now dry_run metas _ _
        (prune_one-IsIntact settings now dry_run meta disk good)

  pub prune-IsIntact :
      (settings : FileSettings) (now : ℕ) (dry_run : Bool) (disk : FileDisk)
      → IsIntact disk
      → IsIntact (prune settings now dry_run disk).0
  unfolding prune
  prune-IsIntact settings now dry_run disk good =
      prune_walk-IsIntact settings now dry_run disk.metas _ disk good
