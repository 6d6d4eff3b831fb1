-- ===== src/Files/Removal.antt =====
-- stonr/src/files.rs: `delete_for_owner` and `prune`.
pub mod Exact
pub mod Spares
use stonr.Base.{
  ℕ, ◌+◌, String, Bool, true, false, Option, none, some, List, [], ◌∷◌, ◌&&◌, ◌||◌, not, leb,
  if◌then◌else◌, is_some_and, Result, ok, err,
}
use stonr.Base.Dict.{Dict}
use stonr.Query.{has_text}
use stonr.Files.{
  FileKeepMode, referenced, all, FileSettings, file_hash_allowed, file_mime_allowed, BlobMeta,
  PruneSummary, FileDisk, remove_text,
}
use stonr.Files.Blobs.{load_meta, write_meta, remove_blob}

-- `matches!(mode, FileKeepMode::Referenced)`
unfoldable pub keeps_referenced : FileKeepMode → Bool
keeps_referenced referenced = true
keeps_referenced all = false

unfoldable pub is_empty : List String → Bool
is_empty [] = true
is_empty (a ∷ l) = false

unfoldable pub unclaimed : FileSettings → BlobMeta → Bool
unfolding keeps_referenced is_empty
unclaimed settings meta =
    is_empty meta.owners && (is_empty meta.refs && keeps_referenced settings.file_keep_mode)

unfoldable pub disown : BlobMeta → String → BlobMeta
unfolding remove_text
disown meta owner = record meta { owners = remove_text owner meta.owners }

unfoldable pub delete_known :
    Option BlobMeta → String → String → FileSettings → FileDisk → Result (FileDisk × Bool)
unfolding has_text disown unclaimed remove_blob write_meta
delete_known none hash owner settings disk = ok (disk, false)
delete_known (some meta) hash owner settings disk =
    if not (has_text meta.owners owner)
    then err "blocked: uploader does not own file"
    else if unclaimed settings (disown meta owner)
    then ok (remove_blob hash disk, true)
    else ok (write_meta (disown meta owner) disk, true)

unfoldable pub delete_for_owner :
    String → String → FileSettings → FileDisk → Result (FileDisk × Bool)
unfolding delete_known load_meta
delete_for_owner hash owner settings disk =
    delete_known (load_meta disk hash) hash owner settings disk

-- Whether a blob is expired, unclaimed or denied.
unfoldable pub is_prunable : FileSettings → ℕ → BlobMeta → Bool
unfolding unclaimed file_hash_allowed file_mime_allowed
is_prunable settings now meta =
    is_some_and meta.expires_at (λ ts. leb ts now)
    || unclaimed settings meta
    || (not (file_hash_allowed settings meta.sha256) || not (file_mime_allowed settings meta.mime))

-- One document of the walk.
unfoldable pub prune_one : FileSettings → ℕ → Bool → BlobMeta → FileDisk → FileDisk
unfolding is_prunable remove_blob
prune_one settings now dry_run meta disk =
    if is_prunable settings now meta && not dry_run then remove_blob meta.sha256 disk else disk

unfoldable pub count_one : Bool → PruneSummary → PruneSummary
count_one true summary = record summary { removed = summary.removed + 1 }
count_one false summary = record summary { kept = summary.kept + 1 }

unfoldable pub prune_walk :
    FileSettings → ℕ → Bool → Dict BlobMeta → PruneSummary → FileDisk → FileDisk × PruneSummary
unfolding prune_one count_one
prune_walk settings now dry_run [] summary disk = (disk, summary)
prune_walk settings now dry_run ((name, meta) ∷ metas) summary disk =
    prune_walk settings now dry_run metas (count_one (is_prunable settings now meta) summary)
      (prune_one settings now dry_run meta disk)

unfoldable pub prune : FileSettings → ℕ → Bool → FileDisk → FileDisk × PruneSummary
unfolding prune_walk
prune settings now dry_run disk =
    prune_walk settings now dry_run disk.metas (record { removed = 0; kept = 0 }) disk
