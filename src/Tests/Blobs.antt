-- ===== src/Tests/Blobs.antt =====
-- The theorems on the blob store at a store with one blob and two owners.
use mathlib.Core.Option
use text.Mathlib.TextLemmas.{nil≢cons, cons≢nil, tail-eq_of_cons-eq}
use Prim.Native.String.{[], ◌∷◌}
use stonr.Base.{
  ◌+◌, ◌≤◌, String, ◌≡◌, refl, ap, Bool, true, false, Option, none, some, [], ◌∷◌, ◌==◌, ◌&&◌, suc,
  is_some, length, Result, ok,
}
use stonr.Base.Dict.{find}
use stonr.Files.{
  FileCrates, Bytes, FileSettings, FileDisk, UploadCandidate, BlobMeta, BlobInfo, referenced,
}
use stonr.Event.{Event}
use stonr.Query.{has_text}
use stonr.Files.Blobs.{no_files, store_upload, owner_usage}
use stonr.Files.Intact.{IsIntact}
use stonr.Files.Intact.Rebuild.{cleared}
use stonr.Files.References.{rebuild_references}
use stonr.Files.References.Exact.{names, rebuild_references-exact}
use stonr.Files.Removal.{prune, delete_for_owner}
use stonr.Files.Removal.Exact.{unless_prunable, prunable_count, prune-exact}
use stonr.Files.Removal.Spares.{Keeps, delete_for_owner-Keeps}
use stonr.Files.System.{FileReach, fresh, after, uploaded, FileReach-IsIntact, owner_usage-le}
use stonr.Tests.Sample.{note}

-- A hash that tells contents apart by their length.
abbrev unary : Bytes → String
unary [] = []
unary (b ∷ content) = "x" ∷ unary content

unary-length : (a b : Bytes) → unary a ≡ unary b → length a ≡ length b
unary-length [] [] h = refl
unary-length [] (y ∷ b) h = absurd (nil≢cons h)
unary-length (x ∷ a) [] h = absurd (cons≢nil h)
unary-length (x ∷ a) (y ∷ b) h = ap suc (unary-length a b (tail-eq_of_cons-eq h))

instance abbrev crates : FileCrates
crates = record { sha256_bytes = unary }

abbrev pub settings : FileSettings
settings = record {
  enable_file_metadata = true;
  support_nip94 = true;
  file_max_bytes = 8;
  file_allowed_mime = some ("image/*" ∷ []);
  file_blocked_mime = none;
  file_hash_denylist = none;
  file_keep_mode = referenced;
  max_blob_bytes_per_pubkey = some 4;
}

abbrev picture : UploadCandidate
picture = record {
  temp_file = 7 ∷ 8 ∷ 9 ∷ [];
  filename = none;
  mime = "image/png";
  owner = some "alice";
  expires_at = none;
}

abbrev disk_of : Result (FileDisk × BlobInfo) → FileDisk
disk_of (ok (disk, info)) = disk
disk_of _ = no_files

abbrev info_of : Result (FileDisk × BlobInfo) → BlobInfo
info_of (ok (disk, info)) = info
info_of _ = record {
  sha256 = "";
  size = 0;
  mime = "";
  url = "";
  owners = 0;
  refs = 0;
  expires_at = none;
}

abbrev with_picture : FileDisk
with_picture = disk_of (store_upload picture settings "http://h/" 5 no_files)

abbrev with_owners : FileDisk
with_owners =
    disk_of
      (store_upload (record picture { owner = some "bob" }) settings "http://h/" 6 with_picture)

picture-stored :
    store_upload picture settings "http://h/" 5 no_files
    ≡ ok (with_picture, info_of (store_upload picture settings "http://h/" 5 no_files))
unfolding store_upload
picture-stored = refl

owner-added :
    store_upload (record picture { owner = some "bob" }) settings "http://h/" 6 with_picture
    ≡ ok (
      with_owners,
      info_of (
          store_upload (record picture { owner = some "bob" }) settings "http://h/" 6 with_picture),
    )
unfolding store_upload
owner-added = refl

FileReach-with_owners : FileReach settings with_owners
FileReach-with_owners =
    after (after fresh (uploaded picture "http://h/" 5 picture-stored))
      (uploaded (record picture { owner = some "bob" }) "http://h/" 6 owner-added)

FileReach-IsIntact_example : IsIntact with_owners
FileReach-IsIntact_example = FileReach-IsIntact settings with_owners FileReach-with_owners

owner_usage-le_example : owner_usage with_owners "bob" ≤ 4
owner_usage-le_example =
    owner_usage-le settings unary-length 4 with_owners "bob" refl FileReach-with_owners

abbrev album : Event
album = record note { tags = ("imeta" ∷ "x xxx" ∷ []) ∷ [] }

rebuild_references-exact_example :
    ((rebuild_references (album ∷ []) with_owners).refs "xxx" "aabb01"
      ≡ (is_some (find "xxx" with_owners.metas) && names (album ∷ []) "xxx" "aabb01"))
    × (Option.map cleared (find "xxx" (rebuild_references (album ∷ []) with_owners).metas)
        ≡ Option.map cleared (find "xxx" with_owners.metas))
rebuild_references-exact_example =
    rebuild_references-exact (album ∷ []) with_owners "xxx" "aabb01"
      (FileReach-IsIntact settings with_owners FileReach-with_owners)

prune-exact_example :
    ((hash : String)
      → find hash (prune settings 9 false with_owners).0.metas
        ≡ unless_prunable settings 9 (find hash with_owners.metas))
    × ((prune settings 9 true with_owners).0 ≡ with_owners)
    × ((dry_run : Bool)
        → let summary = (prune settings 9 dry_run with_owners).1 in
          (summary.removed ≡ prunable_count settings 9 with_owners.metas)
          × (summary.removed + summary.kept ≡ length with_owners.metas))
prune-exact_example =
    prune-exact settings 9 with_owners
      (FileReach-IsIntact settings with_owners FileReach-with_owners)

abbrev after_delete : Result (FileDisk × Bool) → FileDisk
after_delete (ok (disk, removed)) = disk
after_delete _ = no_files

abbrev meta_of : Option BlobMeta → BlobMeta
meta_of (some meta) = meta
meta_of none = record {
  sha256 = "";
  size = 0;
  mime = "";
  uploaded_at = 0;
  original_name = none;
  owners = [];
  refs = [];
  expires_at = none;
}

claim-deleted :
    delete_for_owner "xxx" "alice" settings with_owners
    ≡ ok (after_delete (delete_for_owner "xxx" "alice" settings with_owners), true)
unfolding store_upload delete_for_owner
claim-deleted = refl

picture-found : find "xxx" with_owners.metas ≡ some (meta_of (find "xxx" with_owners.metas))
unfolding store_upload find
picture-found = refl

bob-owns : has_text (meta_of (find "xxx" with_owners.metas)).owners "bob" ≡ true
unfolding store_upload find
bob-owns = refl

delete_for_owner-Keeps_example :
    Keeps
      (after_delete (delete_for_owner "xxx" "alice" settings with_owners))
      with_owners
      "xxx"
      "bob"
delete_for_owner-Keeps_example =
    delete_for_owner-Keeps "xxx" "alice" "xxx" "bob" settings
      (meta_of (find "xxx" with_owners.metas)) with_owners
      (after_delete (delete_for_owner "xxx" "alice" settings with_owners)) true
      (FileReach-IsIntact settings with_owners FileReach-with_owners) claim-deleted picture-found
      (λ same. let e : true ≡ false = ap (λ (t : String). t == "bob") same in cc) bob-owns
