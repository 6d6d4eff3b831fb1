-- ===== src/Files/References.antt =====
-- stonr/src/files.rs: the references from events to blobs.
pub mod Exact
use stonr.Base.{
  String, true, false, Option, none, some, List, [], ◌∷◌, ◌++◌, ◌==◌, ◌&&◌, nat_eq, if◌then◌else◌,
  or_else,
}
use stonr.Base.Sort.{sort_by}
use stonr.Base.Text.{strip_prefix}
use stonr.Base.TextOrder.{str_leb, dedup}
use stonr.Base.Dict.{Dict}
use stonr.Event.{Event, Tag, tag_value}
use stonr.Files.{BlobMeta, FileDisk, insert_text}
use stonr.Files.Blobs.{load_meta, write_meta}

-- `files/refs/<hash>/<event id>.ref`
unfoldable pub write_ref : String → String → FileDisk → FileDisk
write_ref hash event_id disk = record disk {
  refs = λ other_hash other_id.
      if hash == other_hash && event_id == other_id then true else disk.refs other_hash other_id;
}

unfoldable pub add_known_reference : Option BlobMeta → String → String → FileDisk → FileDisk
unfolding write_ref write_meta insert_text
add_known_reference none hash event_id disk = disk
add_known_reference (some meta) hash event_id disk =
    write_ref hash event_id
      (write_meta (record meta { refs = insert_text event_id meta.refs }) disk)

unfoldable pub add_reference : String → String → FileDisk → FileDisk
unfolding add_known_reference load_meta
add_reference hash event_id disk = add_known_reference (load_meta disk hash) hash event_id disk

add_hash : Option String → List String → List String
add_hash none l = l
add_hash (some text) l = text ∷ l

-- The hashes that the fields of an `imeta` tag name.
field_hashes : List String → List String
unfolding strip_prefix add_hash
field_hashes [] = []
field_hashes (field ∷ fields) =
    add_hash (strip_prefix field "x ") (add_hash (strip_prefix field "ox ") (field_hashes fields))

tag_hashes : Tag → List String
unfolding field_hashes
tag_hashes [] = []
tag_hashes (name ∷ fields) = if name == "imeta" then field_hashes fields else []

tags_hashes : List Tag → List String
unfolding tag_hashes
tags_hashes [] = []
tags_hashes (tag ∷ tags) = tag_hashes tag ++ tags_hashes tags

-- The hash of a metadata event: its tag `x`, or `ox`.
unfoldable pub metadata_hash : Event → Option String
unfolding tag_value
metadata_hash event = or_else (tag_value event "x") (tag_value event "ox")

kind_hashes : Event → List String
unfolding metadata_hash add_hash
kind_hashes event = if nat_eq event.kind 1063 then add_hash (metadata_hash event) [] else []

-- Every hash that the event names.
unfoldable pub named_hashes : Event → List String
unfolding kind_hashes tags_hashes
named_hashes event = kind_hashes event ++ tags_hashes event.tags

unfoldable pub referenced_hashes : Event → List String
unfolding named_hashes sort_by dedup
referenced_hashes event = dedup (sort_by str_leb (named_hashes event))

unfoldable pub add_references : List String → String → FileDisk → FileDisk
unfolding add_reference
add_references [] event_id disk = disk
add_references (hash ∷ hashes) event_id disk =
    add_references hashes event_id (add_reference hash event_id disk)

unfoldable pub add_event_references : Event → FileDisk → FileDisk
unfolding add_references referenced_hashes
add_event_references event disk = add_references (referenced_hashes event) event.id disk

-- The walk over the documents that empties their references.
unfoldable pub clear_refs : Dict BlobMeta → FileDisk → FileDisk
unfolding write_meta
clear_refs [] disk = disk
clear_refs ((name, meta) ∷ metas) disk =
    clear_refs metas (write_meta (record meta { refs = [] }) disk)

unfoldable pub add_all_references : List Event → FileDisk → FileDisk
unfolding add_event_references
add_all_references [] disk = disk
add_all_references (event ∷ events) disk =
    add_all_references events (add_event_references event disk)

unfoldable pub rebuild_references : List Event → FileDisk → FileDisk
unfolding clear_refs add_all_references
rebuild_references events disk =
    add_all_references events (clear_refs disk.metas (record disk { refs = λ _. λ _. false }))
