-- ===== src/Files/Removal/Exact.antt =====
-- stonr/src/files.rs: what a prune removes, keeps and reports.
use stonr.Base.{
  ℕ, ◌+◌, String, ◌≡◌, refl, Bool, true, false, Option, none, [], ◌∷◌, ◌==◌, ◌&&◌, inl, inr,
  if◌then◌else◌, is_some_and, arith, eq_iff, Bool-cases, ◌∙◌, length,
}
use stonr.Base.Dict.{Dict, find, IsMap, find_of_Lacks, find-erase}
use stonr.Files.{FileCrates, FileSettings, BlobMeta, PruneSummary, FileDisk}
use stonr.Files.Blobs.{remove_blob}
use stonr.Files.Removal.{is_prunable, prune_one, count_one, prune_walk, prune}
use stonr.Files.Intact.{IsIntact}
use stonr.Files.Intact.Steps.{prune_one-IsIntact}
use stonr.Files.Intact.Rebuild.{AllDescribed, described_all}

-- How many documents are to go.
pub prunable_count : FileSettings → ℕ → Dict BlobMeta → ℕ
prunable_count settings now [] = 0
prunable_count settings now ((name, meta) ∷ metas) =
    (if is_prunable settings now meta then 1 else 0) + prunable_count settings now metas

prune_walk-summary :
    (settings : FileSettings) (now : ℕ) (dry_run : Bool) (metas : Dict BlobMeta)
    (summary : PruneSummary) (disk : FileDisk)
    → let after = (prune_walk settings now dry_run metas summary disk).1 in
      (after.removed ≡ summary.removed + prunable_count settings now metas)
      × (after.removed + after.kept ≡ summary.removed + summary.kept + length metas)
unfolding prune_walk prunable_count count_one
prune_walk-summary settings now dry_run [] summary disk = (omega arith, omega arith)
prune_walk-summary settings now dry_run ((name, meta) ∷ metas) summary disk =
    let next = count_one (is_prunable settings now meta) summary in
    let (removed, total) =
      prune_walk-summary settings now dry_run metas next
        (prune_one settings now dry_run meta disk) in
    elim (Bool-cases (is_prunable settings now meta)) [
      | inl doomed ↦ ground arith
      | inr kept ↦ ground arith
    ]

prune_walk-dry :
    (settings : FileSettings) (now : ℕ) (metas : Dict BlobMeta) (summary : PruneSummary)
    (disk : FileDisk)
    → (prune_walk settings now true metas summary disk).0 ≡ disk
unfolding prune_walk
prune_walk-dry settings now [] summary disk = refl
prune_walk-dry settings now ((name, meta) ∷ metas) summary disk =
    prune_walk-dry settings now metas _ _ ∙ unfold prune_one in ground arith

-- What is left of a document that may be there.
pub unless_prunable : FileSettings → ℕ → Option BlobMeta → Option BlobMeta
unless_prunable settings now existing =
    if is_some_and existing (is_prunable settings now) then none else existing

module _ ⦃c : FileCrates⦄ where
  find-prune_one :
      (settings : FileSettings) (now : ℕ) (meta : BlobMeta) (disk : FileDisk) (hash : String)
      → IsIntact disk
      → find hash (prune_one settings now false meta disk).metas ≡ (
          if is_prunable settings now meta && meta.sha256 == hash
          then none
          else find hash disk.metas)
  unfolding prune_one remove_blob
  find-prune_one settings now meta disk hash good =
      ground (arith, find-erase hash meta.sha256 disk.metas good.named)

  find-prune_walk :
      (settings : FileSettings) (now : ℕ) (metas : Dict BlobMeta) (summary : PruneSummary)
      (disk : FileDisk) (hash : String)
      → IsMap metas
      → AllDescribed metas
      → IsIntact disk
      → find hash (prune_walk settings now false metas summary disk).0.metas ≡ (
          if is_some_and (find hash metas) (is_prunable settings now)
          then none
          else find hash disk.metas)
  unfolding prune_walk find
  find-prune_walk settings now [] summary disk hash d a good = refl
  find-prune_walk settings now ((name, meta) ∷ metas) summary disk hash (lacks, d) (same, a) good =
      let rest =
        find-prune_walk settings now metas (count_one (is_prunable settings now meta) summary)
          (prune_one settings now false meta disk) hash d a
          (prune_one-IsIntact settings now false meta disk good) in
      let one = find-prune_one settings now meta disk hash good in
      elim (Bool-cases (name == hash)) [
        | inl is_it ↦ ground (arith, rest, one, find_of_Lacks name metas lacks, eq_iff name hash)
        | inr other ↦ ground (arith, rest, one)
      ]

  -- A prune of an intact store removes exactly the documents that are expired, unclaimed or
  -- denied; a dry run changes nothing, and reports the same numbers: those removed are the
  -- removable ones, and with those kept they are all.
  pub prune-exact :
      (settings : FileSettings) (now : ℕ) (disk : FileDisk)
      → IsIntact disk
      → ((hash : String)
          → find hash (prune settings now false disk).0.metas
            ≡ unless_prunable settings now (find hash disk.metas))
        × ((prune settings now true disk).0 ≡ disk)
        × ((dry_run : Bool)
            → let summary = (prune settings now dry_run disk).1 in
              (summary.removed ≡ prunable_count settings now disk.metas)
              × (summary.removed + summary.kept ≡ length disk.metas))
  unfolding prune unless_prunable
  prune-exact settings now disk good = (
    λ hash.
        find-prune_walk settings now disk.metas _ disk hash good.named
          (described_all disk.metas good.named good.described) good,
    prune_walk-dry settings now disk.metas _ disk,
    λ dry_run.
        let (removed, total) =
          prune_walk-summary settings now dry_run disk.metas (record { removed = 0; kept = 0 })
            disk in
        (removed ∙ omega arith, total ∙ omega arith),
  )
