-- ===== src/Files/Intact.antt =====
-- stonr/src/files.rs: what an intact blob store is, and that the writes of the operations keep it.
pub mod Steps
pub mod Rebuild
pub mod Upload
use stonr.Base.{
  ℕ, String, ◌≡◌, refl, Bool, true, false, Option, none, some, List, [], ◌∷◌, ◌==◌, ◌&&◌, ◌||◌, inl,
  inr, if◌then◌else◌, is_some, is_some_and, or_else, length, arith, eq_iff, Bool-cases,
  Option-cases, sym, ◌∙◌, subst,
}
use stonr.Base.Dict.{Dict, find, put, erase, IsMap, find-put, find-erase, put-IsMap, erase-IsMap}
use stonr.Query.{has_text}
use stonr.Files.{Bytes, FileCrates, BlobMeta, UploadCandidate, FileDisk, insert_text}
use stonr.Files.Blobs.{no_files, write_meta, remove_blob, place_blob, uploaded_meta, hash_file}
use stonr.Files.References.{write_ref, add_reference}

module _ ⦃c : FileCrates⦄ where
  -- Documents stand under the hash that they hold, exactly the described blobs are there, each with
  -- the content that it is named for, and the reference files are those of the documents.
  pub record IsIntact (disk : FileDisk) : Type 0 where
    pub named : IsMap disk.metas
    pub described :
        (hash : String) (meta : BlobMeta) → find hash disk.metas ≡ some meta → meta.sha256 ≡ hash
    pub present : (hash : String) → is_some (disk.blobs hash) ≡ is_some (find hash disk.metas)
    pub addressed :
        (hash : String) (content : Bytes)
        → disk.blobs hash ≡ some content
        → c.sha256_bytes content ≡ hash
    pub referred :
        (hash event_id : String)
        → disk.refs hash event_id
          ≡ is_some_and (find hash disk.metas) (λ meta. has_text meta.refs event_id)

  pub no_files-IsIntact : IsIntact no_files
  unfolding find
  no_files-IsIntact = record {
    named = tt;
    described = λ hash meta h. absurd (cc h);
    present = λ hash. refl;
    addressed = λ hash content h. absurd (cc h);
    referred = λ hash event_id. refl;
  }

  -- A document with the hash and the references of the one that it takes the place of.
  pub write_meta-IsIntact :
      (hash : String) (old meta : BlobMeta) (disk : FileDisk)
      → IsIntact disk
      → find hash disk.metas ≡ some old
      → meta.sha256 ≡ hash
      → meta.refs ≡ old.refs
      → IsIntact (write_meta meta disk)
  unfolding write_meta
  write_meta-IsIntact hash old meta disk good known same refs = record {
    named = put-IsMap meta.sha256 meta disk.metas good.named;
    described = λ other found h. ground (
      arith,
      find-put other meta.sha256 meta disk.metas,
      good.described other found,
      eq_iff meta.sha256 other,
    );
    present = λ other. ground (
      arith,
      find-put other meta.sha256 meta disk.metas,
      good.present other,
      eq_iff meta.sha256 other,
    );
    addressed = good.addressed;
    referred = λ other event_id. ground (
      arith,
      find-put other meta.sha256 meta disk.metas,
      good.referred other event_id,
      eq_iff meta.sha256 other,
    );
  }

  pub remove_blob-IsIntact :
      (hash : String) (disk : FileDisk) → IsIntact disk → IsIntact (remove_blob hash disk)
  unfolding remove_blob
  remove_blob-IsIntact hash disk good = record {
    named = erase-IsMap hash disk.metas good.named;
    described = λ other found h.
        ground (arith, find-erase other hash disk.metas good.named, good.described other found);
    present =
        λ other. ground (arith, find-erase other hash disk.metas good.named, good.present other);
    addressed = λ other content h. ground (arith, good.addressed other content);
    referred = λ other event_id.
        ground (arith, find-erase other hash disk.metas good.named, good.referred other event_id);
  }
