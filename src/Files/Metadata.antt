-- ===== src/Files/Metadata.antt =====
-- stonr/src/files.rs: the listing of blobs, and the metadata events that describe them.
use mathlib.Core.Option
use stonr.Base.{
  String, Bool, Option, none, some, List, [], ◌∷◌, ◌==◌, ◌||◌, not, map, nat_eq, if◌then◌else◌,
  is_some_and, Result, ok, err, fail_if, ◌>>◌,
}
use stonr.Base.Sort.{sort_by}
use stonr.Base.Text.{parse_u64, str_contains, to_decimal}
use stonr.Base.TextOrder.{str_leb}
use stonr.Event.{Event, Tag, tag_value}
use stonr.Files.{
  FileSettings, file_metadata_enabled, file_hash_allowed, BlobMeta, BlobInfo, FileDisk,
  blob_info_from_meta,
}
use stonr.Files.Blobs.{load_meta, all_meta}
use stonr.Files.References.{metadata_hash}

-- The order of `list`, by descending hash.
later_hash_first : BlobInfo → BlobInfo → Bool
later_hash_first left right = str_leb right.sha256 left.sha256

unfoldable pub list : FileDisk → String → List BlobInfo
unfolding all_meta sort_by later_hash_first
list disk base_url =
    sort_by later_hash_first (map (λ meta. blob_info_from_meta meta base_url) (all_meta disk))

unfoldable pub nip94_tags : BlobInfo → List Tag
unfolding to_decimal
nip94_tags info =
    ("url" ∷ info.url ∷ [])
    ∷ ("m" ∷ info.mime ∷ [])
    ∷ ("x" ∷ info.sha256 ∷ [])
    ∷ ("ox" ∷ info.sha256 ∷ [])
    ∷ ("size" ∷ to_decimal info.size ∷ [])
    ∷ []

-- The tags of a metadata event against the document of the blob that they name.
unfoldable pub check_tags : Event → BlobMeta → Result (Unit {0})
unfolding tag_value
check_tags event meta = do
  fail_if
      (is_some_and (Option.bind (tag_value event "size") parse_u64)
        (λ size. not (nat_eq size meta.size)))
      "invalid: kind 1063 size tag does not match local blob"
  fail_if (is_some_and (tag_value event "m") (λ mime. not (mime == meta.mime)))
      "invalid: kind 1063 mime tag does not match local blob"

check_known : Option BlobMeta → Event → String → String → Result (Unit {0})
unfolding check_tags str_contains
check_known (some meta) event url hash = check_tags event meta
check_known none event url hash =
    fail_if (str_contains url "/files/" || str_contains url hash)
      "invalid: metadata references unknown local blob"

check_named : Option String → Event → String → FileSettings → FileDisk → Result (Unit {0})
unfolding check_known load_meta file_hash_allowed
check_named none event url settings disk = err "invalid: kind 1063 missing x or ox tag"
check_named (some hash) event url settings disk = do
  fail_if (not (file_hash_allowed settings hash)) "blocked: file hash denylisted"
  check_known (load_meta disk hash) event url hash

check_url : Option String → Event → FileSettings → FileDisk → Result (Unit {0})
unfolding check_named metadata_hash
check_url none event settings disk = err "invalid: kind 1063 missing url tag"
check_url (some url) event settings disk = check_named (metadata_hash event) event url settings disk

unfoldable pub validate_metadata_event : Event → FileSettings → FileDisk → Result (Unit {0})
unfolding check_url tag_value
validate_metadata_event event settings disk =
    if not (nat_eq event.kind 1063)
    then ok tt
    else if not (file_metadata_enabled settings)
    then err "blocked: file metadata disabled"
    else check_url (tag_value event "url") event settings disk
