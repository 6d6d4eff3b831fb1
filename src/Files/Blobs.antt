-- ===== src/Files/Blobs.antt =====
-- stonr/src/files.rs: the operations of `FileStore`.
use stonr.Base.{
  ℕ, String, Bool, false, Option, none, some, List, [], ◌∷◌, ◌==◌, not, map, length, ltb,
  if◌then◌else◌, or_else, saturating_add, Result, ok, fail_if, ◌>>◌,
}
use stonr.Base.Dict.{Dict, find, put, erase}
use stonr.Query.{has_text}
use stonr.Files.{
  FileSettings, file_hash_allowed, file_mime_allowed, Bytes, FileCrates, BlobMeta, BlobInfo,
  UploadCandidate, FileDisk, insert_text, blob_info_from_meta,
}

-- A directory without a blob.
abbrev pub no_files : FileDisk
no_files = record { metas = []; blobs = λ _. none; refs = λ _. λ _. false }

unfoldable pub load_meta : FileDisk → String → Option BlobMeta
unfolding find
load_meta disk hash = find hash disk.metas

unfoldable pub values : Dict BlobMeta → List BlobMeta
values metas = map (λ entry. entry.1) metas

unfoldable pub all_meta : FileDisk → List BlobMeta
unfolding values
all_meta disk = values disk.metas

unfoldable pub write_meta : BlobMeta → FileDisk → FileDisk
unfolding put
write_meta meta disk = record disk { metas = put meta.sha256 meta disk.metas }

-- The blob, its document and the directory of its references.
unfoldable pub remove_blob : String → FileDisk → FileDisk
unfolding erase
remove_blob hash disk = record {
  metas = erase hash disk.metas;
  blobs = λ other. if hash == other then none else disk.blobs other;
  refs = λ other event_id. if hash == other then false else disk.refs other event_id;
}

unfoldable pub usage : String → List BlobMeta → ℕ → ℕ
unfolding has_text
usage owner [] total = total
usage owner (meta ∷ metas) total =
    usage owner metas (if has_text meta.owners owner then saturating_add total meta.size else total)

unfoldable pub owner_usage : FileDisk → String → ℕ
unfolding usage all_meta
owner_usage disk owner = usage owner (all_meta disk) 0

-- What an upload adds to its owner's usage.
unfoldable pub additional : Option BlobMeta → String → ℕ → ℕ
unfolding has_text
additional none owner size = size
additional (some meta) owner size = if has_text meta.owners owner then 0 else meta.size

unfoldable pub quota_exceeded : FileDisk → Option ℕ → Option String → Option BlobMeta → ℕ → Bool
unfolding owner_usage additional
quota_exceeded disk none owner existing size = false
quota_exceeded disk (some limit) none existing size = false
quota_exceeded disk (some limit) (some owner) existing size =
    ltb limit (saturating_add (owner_usage disk owner) (additional existing owner size))

-- The document that an upload starts from.
unfoldable pub existing_or_new : Option BlobMeta → UploadCandidate → String → ℕ → ℕ → BlobMeta
existing_or_new (some meta) candidate hash size now = meta
existing_or_new none candidate hash size now = record {
  sha256 = hash;
  size = size;
  mime = candidate.mime;
  uploaded_at = now;
  original_name = candidate.filename;
  owners = [];
  refs = [];
  expires_at = candidate.expires_at;
}

unfoldable pub with_owner : Option String → List String → List String
unfolding insert_text
with_owner none owners = owners
with_owner (some owner) owners = insert_text owner owners

-- What the upload changes in it.
unfoldable pub merge_upload : UploadCandidate → ℕ → BlobMeta → BlobMeta
unfolding with_owner
merge_upload candidate size meta = record meta {
  size = size;
  mime = candidate.mime;
  expires_at = or_else meta.expires_at candidate.expires_at;
  original_name = or_else meta.original_name candidate.filename;
  owners = with_owner candidate.owner meta.owners;
}

-- The temporary file becomes the blob, unless the blob is there.
unfoldable pub place_blob : String → Bytes → FileDisk → FileDisk
place_blob hash content disk = record disk {
  blobs = λ other.
      if hash == other then or_else (disk.blobs other) (some content) else disk.blobs other;
}

module _ ⦃c : FileCrates⦄ where
  unfoldable pub hash_file : Bytes → String × ℕ
  hash_file content = (c.sha256_bytes content, length content)

  -- The tests of an upload, in their order.
  unfoldable pub check_upload : UploadCandidate → FileSettings → FileDisk → Result (Unit {0})
  unfolding hash_file load_meta quota_exceeded file_mime_allowed file_hash_allowed
  check_upload candidate settings disk =
      let (hash, size) = hash_file candidate.temp_file in
      do
        fail_if (not (file_mime_allowed settings candidate.mime)) "blocked: MIME type not allowed"
        fail_if (ltb settings.file_max_bytes size) "blocked: file exceeds max size"
        fail_if (not (file_hash_allowed settings hash)) "blocked: file hash denylisted"
        fail_if
            (quota_exceeded disk settings.max_blob_bytes_per_pubkey candidate.owner
              (load_meta disk hash) size)
            "blocked: blob quota exceeded"

  -- The document that an upload leaves.
  unfoldable pub uploaded_meta : UploadCandidate → ℕ → FileDisk → BlobMeta
  unfolding hash_file load_meta existing_or_new merge_upload
  uploaded_meta candidate now disk =
      let (hash, size) = hash_file candidate.temp_file in
      merge_upload candidate size (existing_or_new (load_meta disk hash) candidate hash size now)

  -- `store_upload`
  unfoldable pub store_upload :
      UploadCandidate → FileSettings → String → ℕ → FileDisk → Result (FileDisk × BlobInfo)
  unfolding check_upload uploaded_meta write_meta place_blob blob_info_from_meta
  store_upload candidate settings base_url now disk = do
    check_upload candidate settings disk
    let meta = uploaded_meta candidate now disk
    let placed = place_blob (hash_file candidate.temp_file).0 candidate.temp_file disk
    ok (write_meta meta placed, blob_info_from_meta meta base_url)
