-- ===== src/Files/Quota/Upload.antt =====
-- stonr/src/files.rs: an upload within the quota, and what it leaves an owner with.
use stonr.Base.{
  ℕ, ◌+◌, ◌≤◌, min, String, ◌≡◌, refl, Bool, false, Option, none, some, List, [], ◌==◌, ◌||◌, inl,
  inr, if◌then◌else◌, is_some_and, arith, eq_iff, Bool-cases, Option-cases, ◌∙◌, subst, ap, length,
  ok, u64_max,
}
use stonr.Base.Dict.{Dict, find, put, find-put}
use stonr.Query.{has_text}
use stonr.Files.{Bytes, FileCrates, FileSettings, BlobMeta, BlobInfo, UploadCandidate, FileDisk}
use stonr.Files.Blobs.{
  additional, quota_exceeded, uploaded_meta, existing_or_new, merge_upload, with_owner,
  check_upload, store_upload,
}
use stonr.Files.Intact.{IsIntact}
use stonr.Files.Intact.Steps.{has_text-insert_text}
use stonr.Files.Intact.Upload.{
  after_upload, store_upload-eq, uploaded_meta-sha256, uploaded_meta_by, after_upload-metas,
  after_upload-blobs,
}
use stonr.Files.Quota.{IsSized, IsWithin, share, held, owner_usage-held, held-put, held-put_new}

abbrev is_owner : Option String → String → Bool
is_owner uploader owner = is_some_and uploader (λ o. o == owner)

-- What an upload may add for an owner: nothing for anyone but its own.
added : Option String → String → Option BlobMeta → ℕ → ℕ
unfolding additional
added uploader owner existing size =
    if is_owner uploader owner then additional existing owner size else 0

has_text-with_owner :
    (uploader : Option String) (owners : List String) (owner : String)
    → has_text (with_owner uploader owners) owner
      ≡ (is_owner uploader owner || has_text owners owner)
unfolding with_owner
has_text-with_owner none owners owner = refl
has_text-with_owner (some uploader) owners owner = has_text-insert_text uploader owner owners

share-existing :
    (candidate : UploadCandidate) (owner : String) (meta : BlobMeta) (size : ℕ)
    → meta.size ≡ size
    → share owner (merge_upload candidate size meta)
      ≤ share owner meta + added candidate.owner owner (some meta) size
unfolding share added merge_upload
share-existing candidate owner meta size same =
    ground (arith, has_text-with_owner candidate.owner meta.owners owner)

share-fresh :
    (candidate : UploadCandidate) (owner hash : String) (size now : ℕ)
    → share owner (merge_upload candidate size (existing_or_new none candidate hash size now))
      ≤ added candidate.owner owner none size
unfolding share added merge_upload has_text existing_or_new
share-fresh candidate owner hash size now =
    ground (arith, has_text-with_owner candidate.owner [] owner)

-- The sum after a document is put, by what it counts for more than the one before it.
held-put_le :
    (owner hash : String) (meta : BlobMeta) (metas : Dict BlobMeta) (existing : Option BlobMeta)
    (extra : ℕ)
    → meta.sha256 ≡ hash
    → find hash metas ≡ existing
    → share owner meta ≤ (elim existing [ none ↦ 0 | some old ↦ share owner old ]) + extra
    → held owner (put meta.sha256 meta metas) ≤ held owner metas + extra
held-put_le owner hash meta metas none extra same fresh le =
    let sum = held-put_new owner meta.sha256 meta metas (rw same fresh) in omega arith
held-put_le owner hash meta metas (some old) extra same known le =
    let sum = held-put owner meta.sha256 old meta metas (rw same known) in omega arith

module _ ⦃c : FileCrates⦄ where
  -- What is stored under the upload's hash has its size, if no two contents of different lengths
  -- have one hash.
  stored_size :
      ((a b : Bytes) → c.sha256_bytes a ≡ c.sha256_bytes b → length a ≡ length b)
      → (temp_file : Bytes) (meta : BlobMeta) (disk : FileDisk) → IsIntact disk
      → IsSized disk
      → find (c.sha256_bytes temp_file) disk.metas ≡ some meta
      → meta.size ≡ length temp_file
  stored_size no_collision temp_file meta disk good sized known =
      let hash = c.sha256_bytes temp_file in
      elim (Option-cases (disk.blobs hash)) [
        | inl missing ↦ absurd (ground (arith, good.present hash))
        | inr (content, there) ↦
            sized hash meta content known there
            ∙ no_collision content temp_file (good.addressed hash content there)
      ]

  held-after_upload :
      ((a b : Bytes) → c.sha256_bytes a ≡ c.sha256_bytes b → length a ≡ length b)
      → (candidate : UploadCandidate) (now : ℕ) (disk : FileDisk) (owner : String) → IsIntact disk
      → IsSized disk
      → held owner (after_upload candidate now disk).metas
        ≤ held owner disk.metas
          + added candidate.owner owner
              (find (c.sha256_bytes candidate.temp_file) disk.metas)
              (length candidate.temp_file)
  unfolding existing_or_new
  held-after_upload no_collision candidate now disk owner good sized =
      let hash = c.sha256_bytes candidate.temp_file in
      let size = length candidate.temp_file in
      let meta = uploaded_meta candidate now disk in
      let same = uploaded_meta-sha256 candidate now disk good in
      rw (after_upload-metas candidate now disk) (elim (Option-cases (find hash disk.metas)) [
        | inl fresh ↦ rw fresh (
            held-put_le owner hash meta disk.metas none _ same fresh (
              rw (uploaded_meta_by candidate now disk none fresh)
                (let le = share-fresh candidate owner hash size now in omega arith)))
        | inr (old, known) ↦ rw known (
            held-put_le owner hash meta disk.metas (some old) _ same known (
              rw (uploaded_meta_by candidate now disk (some old) known) (
                share-existing candidate owner old size
                  (stored_size no_collision candidate.temp_file old disk good sized known))))
      ])

  uploaded_meta-size :
      (candidate : UploadCandidate) (now : ℕ) (disk : FileDisk)
      → (uploaded_meta candidate now disk).size ≡ length candidate.temp_file
  unfolding uploaded_meta
  uploaded_meta-size candidate now disk = refl

  after_upload-IsSized :
      ((a b : Bytes) → c.sha256_bytes a ≡ c.sha256_bytes b → length a ≡ length b)
      → (candidate : UploadCandidate) (now : ℕ) (disk : FileDisk) → IsIntact disk
      → IsSized disk
      → IsSized (after_upload candidate now disk)
  after_upload-IsSized no_collision candidate now disk good sized hash found content known there =
      let meta = uploaded_meta candidate now disk in
      let new_metas =
        ap (find hash) (after_upload-metas candidate now disk)
        ∙ find-put hash meta.sha256 meta disk.metas in
      let new_blobs = after_upload-blobs candidate now disk hash in
      let same = uploaded_meta-sha256 candidate now disk good in
      let size = uploaded_meta-size candidate now disk in
      elim (Bool-cases (c.sha256_bytes candidate.temp_file == hash)) [
        | inr other ↦ ground (arith, sized hash found content)
        | inl is_it ↦ elim (Option-cases (disk.blobs hash)) [
          | inl fresh ↦ ground arith
          | inr (stored, e) ↦ ground (
            arith,
            good.addressed hash stored e,
            eq_iff (c.sha256_bytes candidate.temp_file) hash,
            no_collision stored candidate.temp_file,
          )
        ]
      ]

  -- The quota that was checked, for any owner.
  within_after :
      (candidate : UploadCandidate) (limit : ℕ) (disk : FileDisk) (owner : String)
      → IsWithin limit disk
      → quota_exceeded disk
          (some limit)
          candidate.owner
          (find (c.sha256_bytes candidate.temp_file) disk.metas)
          (length candidate.temp_file)
        ≡ false
      → min
          (held owner disk.metas
            + added candidate.owner owner
                (find (c.sha256_bytes candidate.temp_file) disk.metas)
                (length candidate.temp_file))
          u64_max
        ≤ limit
  unfolding added quota_exceeded
  within_after candidate limit disk owner within h =
      let w = within owner in
      elim (Option-cases candidate.owner) [
        | inl nobody ↦ ground arith
        | inr (uploader, e) ↦ ground (
          arith,
          owner_usage-held disk uploader,
          eq_iff uploader owner,
          subst
              (λ o.
                quota_exceeded disk (some limit) o
                  (find (c.sha256_bytes candidate.temp_file) disk.metas)
                  (length candidate.temp_file)
                ≡ false)
              e h,
        )
      ]

  pub store_upload-IsSized :
      ((a b : Bytes) → c.sha256_bytes a ≡ c.sha256_bytes b → length a ≡ length b)
      → (candidate : UploadCandidate) (settings : FileSettings) (base_url : String) (now : ℕ)
        (disk after : FileDisk) (info : BlobInfo)
      → IsIntact disk
      → IsSized disk
      → store_upload candidate settings base_url now disk ≡ ok (after, info)
      → IsSized after
  store_upload-IsSized no_collision candidate settings base_url now disk after info good sized h =
      subst IsSized (store_upload-eq candidate settings base_url now disk after info h).1
        (after_upload-IsSized no_collision candidate now disk good sized)

  check_upload-quota :
      (candidate : UploadCandidate) (settings : FileSettings) (disk : FileDisk)
      → check_upload candidate settings disk ≡ ok tt
      → quota_exceeded disk settings.max_blob_bytes_per_pubkey candidate.owner
          (find (c.sha256_bytes candidate.temp_file) disk.metas)
          (length candidate.temp_file)
        ≡ false
  unfolding check_upload
  check_upload-quota candidate settings disk h = ground arith

  pub store_upload-IsWithin :
      ((a b : Bytes) → c.sha256_bytes a ≡ c.sha256_bytes b → length a ≡ length b)
      → (candidate : UploadCandidate) (settings : FileSettings) (base_url : String) (now limit : ℕ)
        (disk after : FileDisk) (info : BlobInfo)
      → settings.max_blob_bytes_per_pubkey ≡ some limit
      → IsIntact disk
      → IsSized disk
      → IsWithin limit disk
      → store_upload candidate settings base_url now disk ≡ ok (after, info)
      → IsWithin limit after
  store_upload-IsWithin no_collision candidate settings base_url now limit disk after info limited
        good sized within h owner =
      let (checked, e) = store_upload-eq candidate settings base_url now disk after info h in
      let quota = check_upload-quota candidate settings disk checked in
      let most = within_after candidate limit disk owner within (rw limited at quota) in
      let le = held-after_upload no_collision candidate now disk owner good sized in
      rw⁻¹ e (omega arith)
