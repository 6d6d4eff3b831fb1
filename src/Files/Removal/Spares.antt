-- ===== src/Files/Removal/Spares.antt =====
-- stonr/src/files.rs: what a deletion for one owner leaves to the others.
use stonr.Base.{
  String, ◌≡◌, ◌≢◌, refl, Bool, true, false, not, some, List, [], ◌∷◌, ◌==◌, inl, inr, arith,
  eq_iff, Bool-cases, Option-cases, sym, subst, ok, ok-pair, In-keep,
}
use stonr.Base.Dict.{find, find-put, find-erase}
use stonr.Query.{has_text}
use stonr.Store.Consistent.{has_text_iff}
use stonr.Files.{FileCrates, FileSettings, BlobMeta, FileDisk, remove_text}
use stonr.Files.Blobs.{write_meta, remove_blob}
use stonr.Files.Removal.{is_empty, unclaimed, disown, delete_known, delete_for_owner}
use stonr.Files.Intact.{IsIntact}

other_stays :
    (texts : List String) (text other : String)
    → other ≢ text
    → has_text texts other ≡ true
    → has_text (remove_text text texts) other ≡ true
unfolding remove_text
other_stays texts text other ne h = (has_text_iff _ other).1 (
    In-keep other (λ t. not (t == text)) texts ((has_text_iff texts other).0 h)
      (ground (arith, eq_iff other text)))

has_text-is_empty :
    (texts : List String) (text : String) → has_text texts text ≡ true → is_empty texts ≡ false
unfolding is_empty has_text
has_text-is_empty [] text h = cc
has_text-is_empty (t ∷ texts) text h = refl

-- What an owner of a blob is sure of: the document still lists it, and the blob has its content.
abbrev pub Keeps : FileDisk → FileDisk → String → String → Type 0
Keeps after before hash owner =
    (meta : BlobMeta) × (find hash after.metas ≡ some meta)
    × (has_text meta.owners owner ≡ true)
    × (after.blobs hash ≡ before.blobs hash)

module _ ⦃c : FileCrates⦄ where
  disowned-Keeps :
      (hash owner other_hash other : String) (old meta : BlobMeta) (disk : FileDisk)
      → IsIntact disk
      → find hash disk.metas ≡ some old
      → find other_hash disk.metas ≡ some meta
      → other ≢ owner
      → has_text meta.owners other ≡ true
      → Keeps (write_meta (disown old owner) disk) disk other_hash other
  unfolding write_meta disown
  disowned-Keeps hash owner other_hash other old meta disk good known there ne owns =
      let new = find-put other_hash old.sha256 (disown old owner) disk.metas in
      elim (Bool-cases (old.sha256 == other_hash)) [
        | inl same ↦
            let is_old : old ≡ meta =
              ground (arith, good.described hash old known, eq_iff old.sha256 other_hash) in
            (
              disown old owner,
              ground (arith, new),
              other_stays old.owners owner other ne
                  (subst (λ (m : BlobMeta). has_text m.owners other ≡ true) (sym is_old) owns),
              refl,
            )
        | inr different ↦ (meta, ground (arith, new), owns, refl)
      ]

  removed-Keeps :
      (hash owner other_hash other : String) (settings : FileSettings) (old meta : BlobMeta)
      (disk : FileDisk)
      → IsIntact disk
      → find hash disk.metas ≡ some old
      → unclaimed settings (disown old owner) ≡ true
      → find other_hash disk.metas ≡ some meta
      → other ≢ owner
      → has_text meta.owners other ≡ true
      → Keeps (remove_blob hash disk) disk other_hash other
  unfolding remove_blob unclaimed disown
  removed-Keeps hash owner other_hash other settings old meta disk good known free there ne owns =
      elim (Bool-cases (hash == other_hash)) [
        | inl same ↦
            let is_old : old ≡ meta = ground (arith, eq_iff hash other_hash) in
            let left =
              other_stays old.owners owner other ne
                (subst (λ (m : BlobMeta). has_text m.owners other ≡ true) (sym is_old) owns) in
            absurd (ground (arith, has_text-is_empty (remove_text owner old.owners) other left))
        | inr different ↦ (
          meta,
          ground (arith, find-erase other_hash hash disk.metas good.named),
          owns,
          ground arith,
        )
      ]

  -- Where a deletion for one owner over an intact store returns, every other owner of any blob
  -- still has it: the document lists that owner and the content is there.
  pub delete_for_owner-Keeps :
      (hash owner other_hash other : String) (settings : FileSettings) (meta : BlobMeta)
      (disk after : FileDisk) (removed : Bool)
      → IsIntact disk
      → delete_for_owner hash owner settings disk ≡ ok (after, removed)
      → find other_hash disk.metas ≡ some meta
      → other ≢ owner
      → has_text meta.owners other ≡ true
      → Keeps after disk other_hash other
  unfolding delete_for_owner delete_known
  delete_for_owner-Keeps hash owner other_hash other settings meta disk after removed good h there
        ne owns =
      elim (Option-cases (find hash disk.metas)) [
        | inl unknown ↦
            subst (λ d. Keeps d disk other_hash other) (ok-pair (rw unknown at h)).0
              (meta, there, owns, refl)
        | inr (old, known) ↦ elim (Bool-cases (has_text old.owners owner)) [
          | inr stranger ↦ absurd (cc (rw (known, stranger) at h))
          | inl mine ↦ elim (Bool-cases (unclaimed settings (disown old owner))) [
            | inl free ↦
                subst (λ d. Keeps d disk other_hash other) (ok-pair (rw (known, mine, free) at h)).0
                  (removed-Keeps hash owner other_hash other settings old meta disk good known free
                    there ne owns)
            | inr kept ↦
                subst (λ d. Keeps d disk other_hash other) (ok-pair (rw (known, mine, kept) at h)).0
                  (disowned-Keeps hash owner other_hash other old meta disk good known there ne
                    owns)
          ]
        ]
      ]
