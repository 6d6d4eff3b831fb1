-- ===== src/Files/Quota/Fewer/Removals.antt =====
-- stonr/src/files.rs: deletions and prunes leave no owner with more.
use stonr.Base.{
  ℕ, String, ◌≡◌, refl, Bool, true, List, [], ◌∷◌, ◌&&◌, not, inl, inr, arith, Bool-cases,
  Option-cases, subst, ok, ok-pair, In-of_keep,
}
use stonr.Base.Dict.{Dict, find, find-erase}
use stonr.Query.{has_text}
use stonr.Store.Consistent.{has_text_iff}
use stonr.Files.{FileCrates, FileSettings, BlobMeta, FileDisk, PruneSummary, remove_text}
use stonr.Files.Blobs.{remove_blob}
use stonr.Files.Removal.{
  disown, unclaimed, delete_known, delete_for_owner, is_prunable, prune_one, prune_walk, prune,
}
use stonr.Files.Intact.{IsIntact}
use stonr.Files.Intact.Steps.{prune_one-IsIntact}
use stonr.Files.Quota.Fewer.{Fewer, Fewer-refl, Fewer-trans, write_meta-Fewer}

has_text-remove_text :
    (texts : List String) (text other : String)
    → has_text (remove_text text texts) other ≡ true
    → has_text texts other ≡ true
unfolding remove_text
has_text-remove_text texts text other h =
    (has_text_iff texts other).1 (In-of_keep other _ texts ((has_text_iff _ other).0 h)).0

module _ ⦃c : FileCrates⦄ where
  remove_blob-Fewer :
      (hash : String) (disk : FileDisk) → IsIntact disk → Fewer (remove_blob hash disk) disk
  unfolding remove_blob
  remove_blob-Fewer hash disk good = record {
    claims = λ other found h.
        (found, ground (arith, find-erase other hash disk.metas good.named), refl, λ owner o. o);
    blobs = λ other content h. ground arith;
  }

  pub delete_for_owner-Fewer :
      (hash owner : String) (settings : FileSettings) (disk after : FileDisk) (removed : Bool)
      → IsIntact disk
      → delete_for_owner hash owner settings disk ≡ ok (after, removed)
      → Fewer after disk
  unfolding delete_for_owner delete_known disown
  delete_for_owner-Fewer hash owner settings disk after removed good h =
      elim (Option-cases (find hash disk.metas)) [
        | inl unknown ↦ subst (λ d. Fewer d disk) (ok-pair (rw unknown at h)).0 (Fewer-refl disk)
        | inr (meta, known) ↦ elim (Bool-cases (has_text meta.owners owner)) [
          | inr stranger ↦ absurd (cc (rw (known, stranger) at h))
          | inl owns ↦ elim (Bool-cases (unclaimed settings (disown meta owner))) [
            | inl free ↦
                subst (λ d. Fewer d disk) (ok-pair (rw (known, owns, free) at h)).0
                  (remove_blob-Fewer hash disk good)
            | inr kept ↦
                subst (λ d. Fewer d disk) (ok-pair (rw (known, owns, kept) at h)).0
                  (write_meta-Fewer hash meta (disown meta owner) disk known
                    (good.described hash meta known) refl
                    (λ other o. has_text-remove_text meta.owners owner other o))
          ]
        ]
      ]

  prune_one-Fewer :
      (settings : FileSettings) (now : ℕ) (dry_run : Bool) (meta : BlobMeta) (disk : FileDisk)
      → IsIntact disk
      → Fewer (prune_one settings now dry_run meta disk) disk
  unfolding prune_one
  prune_one-Fewer settings now dry_run meta disk good =
      elim (Bool-cases (is_prunable settings now meta && not dry_run)) [
        | inl doomed ↦ rw doomed (remove_blob-Fewer meta.sha256 disk good)
        | inr kept ↦ rw kept (Fewer-refl disk)
      ]

  prune_walk-Fewer :
      (settings : FileSettings) (now : ℕ) (dry_run : Bool) (metas : Dict BlobMeta)
      (summary : PruneSummary) (disk : FileDisk)
      → IsIntact disk
      → Fewer (prune_walk settings now dry_run metas summary disk).0 disk
  unfolding prune_walk
  prune_walk-Fewer settings now dry_run [] summary disk good = Fewer-refl disk
  prune_walk-Fewer settings now dry_run ((name, meta) ∷ metas) summary disk good =
      let next = prune_one settings now dry_run meta disk in
      Fewer-trans _ next disk
        (prune_walk-Fewer settings now dry_run metas _ next
          (prune_one-IsIntact settings now dry_run meta disk good))
        (prune_one-Fewer settings now dry_run meta disk good)

  pub prune-Fewer :
      (settings : FileSettings) (now : ℕ) (dry_run : Bool) (disk : FileDisk)
      → IsIntact disk
      → Fewer (prune settings now dry_run disk).0 disk
  unfolding prune
  prune-Fewer settings now dry_run disk good =
      prune_walk-Fewer settings now dry_run disk.metas _ disk good
