-- ===== src/Files/Intact/Upload.antt =====
-- stonr/src/files.rs: an upload keeps the store intact.
use stonr.Base.{
  ℕ, String, ◌≡◌, refl, Option, some, ◌==◌, inl, inr, if◌then◌else◌, is_some_and, or_else, length,
  arith, eq_iff, Option-cases, subst, ok, >>=-eq-ok, ok-pair,
}
use stonr.Base.Dict.{find, put, find-put, put-IsMap}
use stonr.Query.{has_text}
use stonr.Files.{FileCrates, FileSettings, BlobMeta, BlobInfo, UploadCandidate, FileDisk}
use stonr.Files.Blobs.{
  write_meta, place_blob, uploaded_meta, existing_or_new, merge_upload, hash_file, check_upload,
  store_upload,
}
use stonr.Files.Intact.{IsIntact}

module _ ⦃c : FileCrates⦄ where
  -- What an accepted upload leaves.
  unfoldable pub after_upload : UploadCandidate → ℕ → FileDisk → FileDisk
  unfolding uploaded_meta write_meta place_blob hash_file
  after_upload candidate now disk =
      write_meta (uploaded_meta candidate now disk)
        (place_blob (hash_file candidate.temp_file).0 candidate.temp_file disk)

  pub after_upload-metas :
      (candidate : UploadCandidate) (now : ℕ) (disk : FileDisk)
      → (after_upload candidate now disk).metas
        ≡ put
            (uploaded_meta candidate now disk).sha256
            (uploaded_meta candidate now disk)
            disk.metas
  unfolding after_upload
  after_upload-metas candidate now disk = refl

  pub after_upload-blobs :
      (candidate : UploadCandidate) (now : ℕ) (disk : FileDisk) (hash : String)
      → (after_upload candidate now disk).blobs hash ≡ (
          if c.sha256_bytes candidate.temp_file == hash
          then or_else (disk.blobs hash) (some candidate.temp_file)
          else disk.blobs hash)
  unfolding after_upload
  after_upload-blobs candidate now disk hash = refl

  pub store_upload-eq :
      (candidate : UploadCandidate) (settings : FileSettings) (base_url : String) (now : ℕ)
      (disk after : FileDisk) (info : BlobInfo)
      → store_upload candidate settings base_url now disk ≡ ok (after, info)
      → (check_upload candidate settings disk ≡ ok tt) × (after_upload candidate now disk ≡ after)
  unfolding store_upload after_upload
  store_upload-eq candidate settings base_url now disk after info h =
      let (done, checked, e) = >>=-eq-ok (check_upload candidate settings disk) _ h in
      (checked, (ok-pair e).0)

  -- The document of an upload, by what was stored under its hash.
  pub uploaded_meta-sha256 :
      (candidate : UploadCandidate) (now : ℕ) (disk : FileDisk)
      → IsIntact disk
      → (uploaded_meta candidate now disk).sha256 ≡ c.sha256_bytes candidate.temp_file
  unfolding uploaded_meta
  uploaded_meta-sha256 candidate now disk good =
      let hash = c.sha256_bytes candidate.temp_file in
      elim (Option-cases (find hash disk.metas)) [
        | inl fresh ↦ rw fresh refl
        | inr (meta, known) ↦ rw known (good.described hash meta known)
      ]

  pub uploaded_meta_by :
      (candidate : UploadCandidate) (now : ℕ) (disk : FileDisk) (existing : Option BlobMeta)
      → find (c.sha256_bytes candidate.temp_file) disk.metas ≡ existing
      → uploaded_meta candidate now disk
        ≡ merge_upload candidate (length candidate.temp_file) (
            existing_or_new existing candidate
              (c.sha256_bytes candidate.temp_file)
              (length candidate.temp_file)
              now)
  unfolding uploaded_meta
  uploaded_meta_by candidate now disk existing e = rw e refl

  uploaded_meta-refs :
      (candidate : UploadCandidate) (now : ℕ) (disk : FileDisk) (event_id : String)
      → has_text (uploaded_meta candidate now disk).refs event_id
        ≡ is_some_and
            (find (c.sha256_bytes candidate.temp_file) disk.metas)
            (λ meta. has_text meta.refs event_id)
  unfolding uploaded_meta has_text
  uploaded_meta-refs candidate now disk event_id =
      elim (Option-cases (find (c.sha256_bytes candidate.temp_file) disk.metas)) [
        | inl fresh ↦ rw fresh refl
        | inr (meta, known) ↦ rw known refl
      ]

  after_upload-IsIntact :
      (candidate : UploadCandidate) (now : ℕ) (disk : FileDisk)
      → IsIntact disk
      → IsIntact (after_upload candidate now disk)
  unfolding after_upload
  after_upload-IsIntact candidate now disk good =
      let meta = uploaded_meta candidate now disk in
      let hash = c.sha256_bytes candidate.temp_file in
      let same = uploaded_meta-sha256 candidate now disk good in
      record {
        named = put-IsMap meta.sha256 meta disk.metas good.named;
        described = λ other found h. ground (
          arith,
          find-put other meta.sha256 meta disk.metas,
          good.described other found,
          eq_iff meta.sha256 other,
        );
        present = λ other. ground (
          arith,
          find-put other meta.sha256 meta disk.metas,
          good.present other,
          same,
          eq_iff hash other,
        );
        addressed =
            λ other content h. ground (arith, good.addressed other content, eq_iff hash other);
        referred = λ other event_id. ground (
          arith,
          find-put other meta.sha256 meta disk.metas,
          good.referred other event_id,
          uploaded_meta-refs candidate now disk event_id,
          same,
          eq_iff hash other,
        );
      }

  pub store_upload-IsIntact :
      (candidate : UploadCandidate) (settings : FileSettings) (base_url : String) (now : ℕ)
      (disk after : FileDisk) (info : BlobInfo)
      → IsIntact disk
      → store_upload candidate settings base_url now disk ≡ ok (after, info)
      → IsIntact after
  store_upload-IsIntact candidate settings base_url now disk after info good h =
      subst IsIntact (store_upload-eq candidate settings base_url now disk after info h).1
        (after_upload-IsIntact candidate now disk good)
