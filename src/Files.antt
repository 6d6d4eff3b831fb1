-- ===== src/Files.antt =====
-- stonr/src/files.rs: the blob store's data, and the rules of stonr/src/config.rs on what it takes.
-- `FileSettings` has the fields of `Settings` that this code reads.
pub mod Blobs
pub mod Intact
pub mod References
pub mod Removal
pub mod Metadata
pub mod Quota
pub mod System
use stonr.Base.{
  ℕ, String, Bool, true, false, Option, none, some, List, [], ◌∷◌, ◌≡◌, refl, ◌==◌, ◌&&◌, ◌||◌, not,
  any, length, if◌then◌else◌, is_some_and, unwrap_or, keep,
}
use stonr.Base.Text.{eq_ignore_ascii_case, trim_end_slashes}
use stonr.Base.TextParts.{
  trim, to_ascii_lowercase, strip_suffix, starts_with, ends_with, is_empty_text,
}
use stonr.Base.Dict.{Dict}
use Prim.Native.String.{◌++◌ as str_append}
use stonr.Query.{has_text}

pub data FileKeepMode : Type 0 where
  referenced all : FileKeepMode

pub record FileSettings : Type 0 where
  pub enable_file_metadata : Bool
  pub support_nip94 : Bool
  pub file_max_bytes : ℕ
  pub file_allowed_mime : Option (List String)
  pub file_blocked_mime : Option (List String)
  pub file_hash_denylist : Option (List String)
  pub file_keep_mode : FileKeepMode
  pub max_blob_bytes_per_pubkey : Option ℕ

abbrev pub file_metadata_enabled : FileSettings → Bool
file_metadata_enabled settings = settings.enable_file_metadata && settings.support_nip94

unfoldable pub file_hash_allowed : FileSettings → String → Bool
unfolding eq_ignore_ascii_case
file_hash_allowed settings hash = not (
    is_some_and settings.file_hash_denylist
      (λ values. any (λ value. eq_ignore_ascii_case value hash) values))

-- What is in front of `/*` stands for every subtype.
pattern_matches : String → Option String → String → Bool
unfolding starts_with
pattern_matches pattern none mime = pattern == mime
pattern_matches pattern (some prefix) mime = starts_with mime (str_append prefix "/")

unfoldable pub mime_pattern_matches : String → String → Bool
unfolding pattern_matches strip_suffix to_ascii_lowercase trim
mime_pattern_matches pattern mime =
    let lower = to_ascii_lowercase (trim pattern) in
    not (is_empty_text lower) && pattern_matches lower (strip_suffix lower "/*") mime

unfoldable pub file_mime_allowed : FileSettings → String → Bool
unfolding mime_pattern_matches to_ascii_lowercase trim
file_mime_allowed settings mime =
    let lower = to_ascii_lowercase (trim mime) in
    if is_some_and settings.file_blocked_mime
      (λ patterns. any (λ pattern. mime_pattern_matches pattern lower) patterns)
    then false
    else elim settings.file_allowed_mime [
      | none ↦ true
      | some patterns ↦ any (λ pattern. mime_pattern_matches pattern lower) patterns
    ]

-- The content of a file.
abbrev pub Bytes : Type 0
Bytes = List ℕ

-- The crates `sha2` and `hex`.
pub record FileCrates : Type 0 where
  pub sha256_bytes : Bytes → String

-- The sets of owners and of referring events are lists that hold nothing twice.
pub record BlobMeta : Type 0 where
  pub sha256 : String
  pub size : ℕ
  pub mime : String
  pub uploaded_at : ℕ
  pub original_name : Option String
  pub owners : List String
  pub refs : List String
  pub expires_at : Option ℕ

pub record BlobInfo : Type 0 where
  pub sha256 : String
  pub size : ℕ
  pub mime : String
  pub url : String
  pub owners : ℕ
  pub refs : ℕ
  pub expires_at : Option ℕ

-- The temporary file is given by its content.
pub record UploadCandidate : Type 0 where
  pub temp_file : Bytes
  pub filename : Option String
  pub mime : String
  pub owner : Option String
  pub expires_at : Option ℕ

pub record PruneSummary : Type 0 where
  pub removed : ℕ
  pub kept : ℕ

-- The directory `files/`: the documents of `files/meta` in the order of the walk and by the hash
-- that names them, `files/blobs` by hash, and whether `files/refs/<hash>/<event id>.ref` is there.
pub record FileDisk : Type 0 where
  pub metas : Dict BlobMeta
  pub blobs : String → Option Bytes
  pub refs : String → String → Bool

-- `HashSet::insert` and `HashSet::remove`
unfoldable pub insert_text : String → List String → List String
unfolding has_text
insert_text text texts = if has_text texts text then texts else text ∷ texts

unfoldable pub remove_text : String → List String → List String
unfolding keep
remove_text text texts = keep (λ other. not (other == text)) texts

blob_url : String → String → String
unfolding ends_with
blob_url base sha256 =
    if ends_with base "/files"
    then str_append base (str_append "/" sha256)
    else str_append base (str_append "/files/" sha256)

unfoldable pub blob_info_from_meta : BlobMeta → String → BlobInfo
unfolding blob_url trim_end_slashes
blob_info_from_meta meta base_url = record {
  sha256 = meta.sha256;
  size = meta.size;
  mime = meta.mime;
  url = blob_url (trim_end_slashes base_url) meta.sha256;
  owners = length meta.owners;
  refs = length meta.refs;
  expires_at = meta.expires_at;
}

mime_tests :
    (mime_pattern_matches "image/*" "image/png" ≡ true)
    × (mime_pattern_matches "image/*" "images/png" ≡ false)
    × (mime_pattern_matches " Text/Plain" "text/plain" ≡ true)
    × (mime_pattern_matches "" "" ≡ false)
    × (mime_pattern_matches "*/*" "image/png" ≡ false)
unfolding mime_pattern_matches
mime_tests = (refl, refl, refl, refl, refl)
