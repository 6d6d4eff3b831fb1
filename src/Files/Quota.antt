-- ===== src/Files/Quota.antt =====
-- stonr/src/files.rs: what the owners of blobs hold, as a plain sum, and under changes of the store.
pub mod Fewer
pub mod Upload
use stonr.Base.{
  ℕ, ◌+◌, ◌≤◌, min, String, ◌≡◌, refl, Bool, true, false, Option, none, some, List, [], ◌∷◌, ◌==◌,
  inl, inr, if◌then◌else◌, arith, eq_iff, Bool-cases, Option-cases, sym, ◌∙◌, subst, saturating_add,
  u64_max, length,
}
use stonr.Base.Dict.{Dict, find, put, erase, IsMap, Lacks, find_of_Lacks, find-erase, erase-IsMap}
use stonr.Query.{has_text}
use stonr.Files.{Bytes, BlobMeta, FileDisk}
use stonr.Files.Blobs.{usage, owner_usage, all_meta, values}

-- What a blob counts for an owner.
unfoldable pub share : String → BlobMeta → ℕ
unfolding has_text
share owner meta = if has_text meta.owners owner then meta.size else 0

unfoldable pub held : String → Dict BlobMeta → ℕ
unfolding share
held owner [] = 0
held owner ((name, meta) ∷ metas) = share owner meta + held owner metas

usage-held :
    (owner : String) (metas : Dict BlobMeta) (total : ℕ)
    → total ≤ u64_max
    → usage owner (values metas) total ≡ min (total + held owner metas) u64_max
unfolding usage held values
usage-held owner [] total h = ground arith
usage-held owner ((name, meta) ∷ metas) total h = elim (Bool-cases (has_text meta.owners owner)) [
  | inl owns ↦ ground (arith, usage-held owner metas (saturating_add total meta.size))
  | inr not_owner ↦ ground (arith, usage-held owner metas total)
]

pub owner_usage-held :
    (disk : FileDisk) (owner : String)
    → owner_usage disk owner ≡ min (held owner disk.metas) u64_max
unfolding owner_usage
owner_usage-held disk owner = ground (arith, usage-held owner disk.metas 0)

pub held-put_new :
    (owner key : String) (meta : BlobMeta) (metas : Dict BlobMeta)
    → find key metas ≡ none
    → held owner (put key meta metas) ≡ held owner metas + share owner meta
unfolding held put find
held-put_new owner key meta [] h = omega arith
held-put_new owner key meta ((name, other) ∷ metas) h =
    ground (arith, held-put_new owner key meta metas)

pub held-put :
    (owner key : String) (old meta : BlobMeta) (metas : Dict BlobMeta)
    → find key metas ≡ some old
    → held owner (put key meta metas) + share owner old ≡ held owner metas + share owner meta
unfolding held put find
held-put owner key old meta [] h = cc
held-put owner key old meta ((name, other) ∷ metas) h = elim (Bool-cases (name == key)) [
  | inl same ↦ ground arith
  | inr different ↦ ground (arith, held-put owner key old meta metas)
]

pub held-erase :
    (owner key : String) (old : BlobMeta) (metas : Dict BlobMeta)
    → find key metas ≡ some old
    → held owner (erase key metas) + share owner old ≡ held owner metas
unfolding held erase find
held-erase owner key old [] h = cc
held-erase owner key old ((name, other) ∷ metas) h = elim (Bool-cases (name == key)) [
  | inl same ↦ ground arith
  | inr different ↦ ground (arith, held-erase owner key old metas)
]

-- The sum over documents of which each stands in the other map, and counts no less there.
pub held-le :
    (owner : String) (metas others : Dict BlobMeta)
    → IsMap metas
    → IsMap others
    → ((hash : String) (meta : BlobMeta)
        → find hash metas ≡ some meta
        → (old : BlobMeta) × (find hash others ≡ some old) × (share owner meta ≤ share owner old))
    → held owner metas ≤ held owner others
unfolding held find
held-le owner [] others d e covers = omega arith
held-le owner ((name, meta) ∷ metas) others (lacks, d) e covers =
    let (old, known, le) = covers name meta (ground (arith, eq_iff name name)) in
    let rest =
      held-le owner metas (erase name others) d (erase-IsMap name others e) (λ hash found h.
        elim (Bool-cases (name == hash)) [
          | inl same ↦ absurd (ground (arith, eq_iff name hash, find_of_Lacks name metas lacks))
          | inr different ↦
              let (o, k, l) = covers hash found (rw different h) in
              (o, rw (find-erase hash name others e, different) k, l)
        ]) in
    let erased = held-erase owner name old others known in omega arith

-- The size in every document is that of its blob.
abbrev pub IsSized : FileDisk → Type 0
IsSized disk =
    (hash : String) (meta : BlobMeta) (content : Bytes)
    → find hash disk.metas ≡ some meta
    → disk.blobs hash ≡ some content
    → meta.size ≡ length content

abbrev pub IsWithin : ℕ → FileDisk → Type 0
IsWithin limit disk = (owner : String) → min (held owner disk.metas) u64_max ≤ limit
