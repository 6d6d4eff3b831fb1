-- ===== src/Files/Quota/Fewer.antt =====
-- stonr/src/files.rs: operations that leave no owner with more.
pub mod Removals
use stonr.Base.{
  ℕ, ◌≤◌, String, ◌≡◌, refl, Bool, true, some, List, [], ◌∷◌, ◌==◌, ◌&&◌, not, inl, inr, arith,
  eq_iff, Bool-cases, Option-cases, sym, ◌∙◌, subst, ap, ok, ok-pair, In-of_keep,
}
use stonr.Base.Dict.{Dict, find, IsMap, find-put, find-erase}
use stonr.Event.{Event}
use stonr.Query.{has_text}
use stonr.Store.Consistent.{has_text_iff}
use stonr.Files.{
  Bytes, FileCrates, FileSettings, BlobMeta, FileDisk, PruneSummary, insert_text, remove_text,
}
use stonr.Files.Blobs.{write_meta, remove_blob}
use stonr.Files.References.{
  add_reference, add_known_reference, add_references, add_event_references, add_all_references,
  rebuild_references, referenced_hashes,
}
use stonr.Files.Removal.{
  disown, unclaimed, delete_known, delete_for_owner, is_prunable, prune_one, prune_walk, prune,
}
use stonr.Files.Intact.{IsIntact}
use stonr.Files.Intact.Steps.{
  prune_one-IsIntact, add_reference-IsIntact, add_event_references-IsIntact,
}
use stonr.Files.Intact.Rebuild.{
  without_refs, find-without_refs, without_refs-IsIntact, without_refs-blobs,
}
use stonr.Files.Quota.{IsSized, IsWithin, share, held-le}

-- Every document and blob was there before, with the size that it has and every owner.
pub record Fewer (after before : FileDisk) : Type 0 where
  pub claims :
      (hash : String) (meta : BlobMeta)
      → find hash after.metas ≡ some meta
      → (old : BlobMeta) × (find hash before.metas ≡ some old)
        × (meta.size ≡ old.size)
        × ((owner : String) → has_text meta.owners owner ≡ true → has_text old.owners owner ≡ true)
  pub blobs :
      (hash : String) (content : Bytes)
      → after.blobs hash ≡ some content
      → before.blobs hash ≡ some content

pub Fewer-refl : (disk : FileDisk) → Fewer disk disk
Fewer-refl disk = record {
  claims = λ hash meta h. (meta, h, refl, λ owner o. o);
  blobs = λ hash content h. h;
}

pub Fewer-trans : (a b c : FileDisk) → Fewer a b → Fewer b c → Fewer a c
Fewer-trans a b c f g = record {
  claims = λ hash meta h.
      let (mid, known, size, owns) = f.claims hash meta h in
      let (old, known', size', owns') = g.claims hash mid known in
      (old, known', size ∙ size', λ owner o. owns' owner (owns owner o));
  blobs = λ hash content h. g.blobs hash content (f.blobs hash content h);
}

pub Fewer-IsSized : {after before : FileDisk} → Fewer after before → IsSized before → IsSized after
Fewer-IsSized f sized hash meta content known there =
    let (old, known', size, _) = f.claims hash meta known in
    size ∙ sized hash old content known' (f.blobs hash content there)

share_le :
    (owner : String) (meta old : BlobMeta)
    → meta.size ≡ old.size
    → (has_text meta.owners owner ≡ true → has_text old.owners owner ≡ true)
    → share owner meta ≤ share owner old
unfolding share
share_le owner meta old size owns = elim (Bool-cases (has_text meta.owners owner)) [
  | inl o ↦ ground (arith, owns o)
  | inr stranger ↦ ground arith
]

pub Fewer-IsWithin :
    (limit : ℕ) {after before : FileDisk}
    → Fewer after before
    → IsMap after.metas
    → IsMap before.metas
    → IsWithin limit before
    → IsWithin limit after
Fewer-IsWithin limit {after} {before} f d e within owner =
    let le = held-le owner after.metas before.metas d e (λ hash meta known.
      let (old, known', size, owns) = f.claims hash meta known in
      (old, known', share_le owner meta old size (owns owner))) in
    let w = within owner in omega arith

-- A document in place of one of the same size and at least its owners.
pub write_meta-Fewer :
    (hash : String) (old meta : BlobMeta) (disk : FileDisk)
    → find hash disk.metas ≡ some old
    → meta.sha256 ≡ hash
    → meta.size ≡ old.size
    → ((owner : String) → has_text meta.owners owner ≡ true → has_text old.owners owner ≡ true)
    → Fewer (write_meta meta disk) disk
unfolding write_meta
write_meta-Fewer hash old meta disk known same size owns = record {
  claims = λ other found h. elim (Bool-cases (meta.sha256 == other)) [
    | inl is_it ↦
        let is_meta : meta ≡ found = ground (arith, find-put other meta.sha256 meta disk.metas) in
        subst
          (λ m.
            (o : BlobMeta) × (find other disk.metas ≡ some o)
            × (m.size ≡ o.size)
            × ((w : String) → has_text m.owners w ≡ true → has_text o.owners w ≡ true))
          is_meta (old, (ground (arith, eq_iff meta.sha256 other)), size, owns)
    | inr different ↦
        (found, (ground (arith, find-put other meta.sha256 meta disk.metas)), refl, λ owner o. o)
  ];
  blobs = λ other content h. h;
}

module _ ⦃c : FileCrates⦄ where
  add_reference-Fewer :
      (hash event_id : String) (disk : FileDisk)
      → IsIntact disk
      → Fewer (add_reference hash event_id disk) disk
  unfolding add_reference add_known_reference
  add_reference-Fewer hash event_id disk good = elim (Option-cases (find hash disk.metas)) [
    | inl unknown ↦ rw unknown (Fewer-refl disk)
    | inr (meta, known) ↦ rw known (
        let written =
          write_meta-Fewer hash meta (record meta { refs = insert_text event_id meta.refs }) disk
            known (good.described hash meta known) refl (λ owner o. o) in
        record { claims = written.claims; blobs = written.blobs })
  ]

  add_references-Fewer :
      (hashes : List String) (event_id : String) (disk : FileDisk)
      → IsIntact disk
      → Fewer (add_references hashes event_id disk) disk
  unfolding add_references
  add_references-Fewer [] event_id disk good = Fewer-refl disk
  add_references-Fewer (hash ∷ hashes) event_id disk good =
      let next = add_reference hash event_id disk in
      Fewer-trans _ next disk
        (add_references-Fewer hashes event_id next (add_reference-IsIntact hash event_id disk good))
        (add_reference-Fewer hash event_id disk good)

  pub add_event_references-Fewer :
      (event : Event) (disk : FileDisk)
      → IsIntact disk
      → Fewer (add_event_references event disk) disk
  unfolding add_event_references
  add_event_references-Fewer event disk good =
      add_references-Fewer (referenced_hashes event) event.id disk good

  add_all_references-Fewer :
      (events : List Event) (disk : FileDisk)
      → IsIntact disk
      → Fewer (add_all_references events disk) disk
  unfolding add_all_references
  add_all_references-Fewer [] disk good = Fewer-refl disk
  add_all_references-Fewer (event ∷ events) disk good =
      let next = add_event_references event disk in
      Fewer-trans _ next disk
        (add_all_references-Fewer events next (add_event_references-IsIntact event disk good))
        (add_event_references-Fewer event disk good)

  without_refs-Fewer : (disk : FileDisk) → IsIntact disk → Fewer (without_refs disk) disk
  without_refs-Fewer disk good = record {
    claims = λ hash meta h. elim (Option-cases (find hash disk.metas)) [
      | inl unknown ↦ absurd (ground (arith, find-without_refs hash disk good))
      | inr (old, known) ↦
          let is_meta : record old { refs = [] } ≡ meta =
            ground (arith, find-without_refs hash disk good) in
          (
            old,
            known,
            sym (ap (λ (m : BlobMeta). m.size) is_meta),
            λ owner o. subst (λ (m : BlobMeta). has_text m.owners owner ≡ true) (sym is_meta) o,
          )
    ];
    blobs = λ hash content h. sym (ap (λ files. files hash) (without_refs-blobs disk)) ∙ h;
  }

  pub rebuild_references-Fewer :
      (events : List Event) (disk : FileDisk)
      → IsIntact disk
      → Fewer (rebuild_references events disk) disk
  unfolding rebuild_references without_refs
  rebuild_references-Fewer events disk good =
      Fewer-trans _ (without_refs disk) disk
        (add_all_references-Fewer events (without_refs disk) (without_refs-IsIntact disk good))
        (without_refs-Fewer disk good)
