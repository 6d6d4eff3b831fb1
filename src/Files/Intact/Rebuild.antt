-- ===== src/Files/Intact/Rebuild.antt =====
-- stonr/src/files.rs: a rebuild of the references keeps the store intact.
use mathlib.Core.Option
use stonr.Base.{
  String, ◌≡◌, refl, false, some, List, [], ◌∷◌, ◌==◌, inl, inr, or_else, arith, eq_iff, Bool-cases,
  Option-cases, ap, ◌∙◌,
}
use stonr.Base.Dict.{Dict, find, IsMap, find_of_Lacks, find-put, put-IsMap}
use stonr.Event.{Event}
use stonr.Query.{has_text}
use stonr.Files.{FileCrates, BlobMeta, FileDisk}
use stonr.Files.Blobs.{write_meta}
use stonr.Files.References.{clear_refs, rebuild_references}
use stonr.Files.Intact.{IsIntact}
use stonr.Files.Intact.Steps.{add_all_references-IsIntact}

abbrev pub cleared : BlobMeta → BlobMeta
cleared meta = record meta { refs = [] }

-- Documents that stand under their hashes.
abbrev pub AllDescribed : Dict BlobMeta → Type 0
AllDescribed [] = Unit
AllDescribed ((name, meta) ∷ metas) = (meta.sha256 ≡ name) × AllDescribed metas

find-clear_refs :
    (hash : String) (metas : Dict BlobMeta) (disk : FileDisk)
    → IsMap metas
    → AllDescribed metas
    → find hash (clear_refs metas disk).metas
      ≡ or_else (Option.map cleared (find hash metas)) (find hash disk.metas)
unfolding clear_refs find
find-clear_refs hash [] disk d a = refl
find-clear_refs hash ((name, meta) ∷ metas) disk (lacks, d) (same, a) =
    find-clear_refs hash metas (write_meta (cleared meta) disk) d a
    ∙ elim (Bool-cases (name == hash)) [
      | inl is_it ↦ ground (
        arith,
        find-put hash meta.sha256 (cleared meta) disk.metas,
        find_of_Lacks name metas lacks,
        eq_iff name hash,
      )
      | inr other ↦ ground (arith, find-put hash meta.sha256 (cleared meta) disk.metas)
    ]

clear_refs-frame :
    (metas : Dict BlobMeta) (disk : FileDisk)
    → ((clear_refs metas disk).blobs ≡ disk.blobs) × ((clear_refs metas disk).refs ≡ disk.refs)
unfolding clear_refs
clear_refs-frame [] disk = (refl, refl)
clear_refs-frame ((name, meta) ∷ metas) disk =
    clear_refs-frame metas (write_meta (cleared meta) disk)

clear_refs-IsMap :
    (metas : Dict BlobMeta) (disk : FileDisk)
    → IsMap disk.metas
    → IsMap (clear_refs metas disk).metas
unfolding clear_refs
clear_refs-IsMap [] disk d = d
clear_refs-IsMap ((name, meta) ∷ metas) disk d =
    clear_refs-IsMap metas (write_meta (cleared meta) disk)
      (put-IsMap meta.sha256 (cleared meta) disk.metas d)

pub described_all :
    (metas : Dict BlobMeta)
    → IsMap metas
    → ((hash : String) (meta : BlobMeta) → find hash metas ≡ some meta → meta.sha256 ≡ hash)
    → AllDescribed metas
unfolding find
described_all [] d h = tt
described_all ((name, meta) ∷ metas) (lacks, d) h = (
  h name meta (ground (arith, eq_iff name name)),
  described_all metas d (λ hash found e.
      ground (arith, h hash found, eq_iff name hash, find_of_Lacks name metas lacks)),
)

module _ ⦃c : FileCrates⦄ where
  -- The store as the walk leaves it, before the events are gone through.
  unfoldable pub without_refs : FileDisk → FileDisk
  unfolding clear_refs
  without_refs disk = clear_refs disk.metas (record disk { refs = λ _. λ _. false })

  pub find-without_refs :
      (hash : String) (disk : FileDisk)
      → IsIntact disk
      → find hash (without_refs disk).metas ≡ Option.map cleared (find hash disk.metas)
  unfolding without_refs
  find-without_refs hash disk good =
      find-clear_refs hash disk.metas _ good.named
        (described_all disk.metas good.named good.described)
      ∙ (elim (Option-cases (find hash disk.metas)) [
        | inl unknown ↦ rw unknown refl
        | inr (meta, known) ↦ rw known refl
      ])

  pub without_refs-blobs : (disk : FileDisk) → (without_refs disk).blobs ≡ disk.blobs
  unfolding without_refs
  without_refs-blobs disk = (clear_refs-frame disk.metas _).0

  pub without_refs-refs :
      (disk : FileDisk) (hash event_id : String) → (without_refs disk).refs hash event_id ≡ false
  unfolding without_refs
  without_refs-refs disk hash event_id =
      ap (λ refs. refs hash event_id) (clear_refs-frame disk.metas _).1

  pub without_refs-IsIntact : (disk : FileDisk) → IsIntact disk → IsIntact (without_refs disk)
  unfolding without_refs has_text
  without_refs-IsIntact disk good =
      let (blobs, refs) = clear_refs-frame disk.metas (record disk { refs = λ _. λ _. false }) in
      record {
        named = clear_refs-IsMap disk.metas _ good.named;
        described = λ hash meta h. elim (Option-cases (find hash disk.metas)) [
          | inl unknown ↦ ground (arith, find-without_refs hash disk good)
          | inr (old, known) ↦
              ground (arith, find-without_refs hash disk good, good.described hash old)
        ];
        present =
            λ hash. ground (arith, find-without_refs hash disk good, good.present hash, blobs);
        addressed = λ hash content h. good.addressed hash content (rw blobs at h);
        referred = λ hash event_id. ground (arith, find-without_refs hash disk good, refs);
      }

  pub rebuild_references-IsIntact :
      (events : List Event) (disk : FileDisk)
      → IsIntact disk
      → IsIntact (rebuild_references events disk)
  unfolding rebuild_references without_refs
  rebuild_references-IsIntact events disk good =
      add_all_references-IsIntact events (without_refs disk) (without_refs-IsIntact disk good)
