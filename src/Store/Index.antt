-- ===== src/Store/Index.antt =====
-- stonr/src/storage.rs: the index files, the latest pointers and the mirror links of an event.
use Prim.Native.String.{◌++◌ as str_append}
use text.Mathlib.Text.{get?}
use stonr.Base.{
  ℕ, String, Bool, false, Option, none, some, List, [], ◌∷◌, ◌++◌, ◌==◌, ◌&&◌, nat_eq,
  if◌then◌else◌, Result, ok, panic, ◌>>=◌,
}
use stonr.Base.Text.{to_decimal}
use stonr.Event.{Event, Tag}
use stonr.External.{External}
use stonr.Store.{Disk, IndexKey, by_author, by_kind, by_tag, MirrorKey, of_author, of_kind}

-- Whether two paths are one file.
unfoldable pub same_index : IndexKey → IndexKey → Bool
same_index (by_author a) (by_author b) = a == b
same_index (by_kind a) (by_kind b) = nat_eq a b
same_index (by_tag t a) (by_tag u b) = t == u && a == b
same_index _ _ = false

unfoldable pub same_mirror : MirrorKey → MirrorKey → Bool
same_mirror (of_author p t i) (of_author q u j) = p == q && (nat_eq t u && i == j)
same_mirror (of_kind k t i) (of_kind l u j) = nat_eq k l && (nat_eq t u && i == j)
same_mirror _ _ = false

-- Write one file of a directory.
abbrev pub write {ℓ} : {A : Type ℓ} → String → A → (String → Option A) → String → Option A
write name content files other = if name == other then some content else files other

-- `append_index`: one more line in the file, which is created where it is missing.
unfoldable pub append_index : IndexKey → String → (IndexKey → List String) → IndexKey → List String
unfolding same_index
append_index key id index other =
    if same_index key other then index other ++ (id ∷ []) else index other

unfoldable pub or_panic {ℓ} : {A : Type ℓ} → Option A → Result A
or_panic none = panic
or_panic (some a) = ok a

-- `&id[0..2]` and `&id[2..4]`: a panic where the text is shorter or a character is cut.
unfoldable pub slice_or_panic : String → ℕ → ℕ → Result String
unfolding or_panic
slice_or_panic text from to = or_panic (get? text from to)

-- `event_path`: the two directories and the name. The id is then the file's key.
unfoldable pub event_path : String → Result (String × String × String)
unfolding slice_or_panic
event_path id = do
  sub1 ← slice_or_panic id 0 2
  sub2 ← slice_or_panic id 2 4
  ok (sub1, sub2, str_append id ".json")

latest_name : String → ℕ → String → String
latest_name pubkey kind value =
    str_append pubkey (str_append "." (str_append (to_decimal kind) (str_append "." value)))

-- The target of a mirror link.
link_target : String → String → String → String
link_target sub1 sub2 name =
    str_append "../../../events/"
      (str_append sub1 (str_append "/" (str_append sub2 (str_append "/" name))))

-- `if !link.exists() { symlink(target, link) }`
add_link : MirrorKey → String → (MirrorKey → Option String) → MirrorKey → Option String
add_link key target links other = elim (links key) [
  | some _ ↦ links other
  | none ↦ if same_mirror key other then some target else links other
]

-- `write_mirror_links`
unfoldable pub write_mirror_links : Event → Disk → Result Disk
unfolding event_path add_link link_target same_mirror
write_mirror_links event disk = do
  (sub1, sub2, name) ← event_path event.id
  let target = link_target sub1 sub2 name
  let authors = add_link (of_author event.pubkey event.created_at event.id) target disk.mirror
  ok (record disk {
    mirror = add_link (of_kind event.kind event.created_at event.id) target authors;
  })

module _ ⦃x : External⦄ where
  -- `append_tag_index`, whose file is named by the hash of the tag's value.
  unfoldable pub append_tag_index : String → String → String → Disk → Disk
  unfolding append_index
  append_tag_index tag value id disk = record disk {
    index = append_index (by_tag tag (x.sha1_hex value)) id disk.index;
  }

  -- The body of the loop over an event's tags: a `d` tag also moves the latest pointer.
  unfoldable pub index_tag : Event → Tag → Disk → Disk
  unfolding append_tag_index latest_name
  index_tag event [] disk = disk
  index_tag event (tag ∷ []) disk = disk
  index_tag event (tag ∷ value ∷ _) disk =
      let indexed = append_tag_index tag value event.id disk in
      if tag == "d"
      then record indexed {
        latest = write (latest_name event.pubkey event.kind value) event.id indexed.latest;
      }
      else indexed

  unfoldable pub index_tags : Event → List Tag → Disk → Disk
  unfolding index_tag
  index_tags event [] disk = disk
  index_tags event (fields ∷ tags) disk = index_tags event tags (index_tag event fields disk)

  -- `index_event`
  unfoldable pub index_event : Event → Disk → Disk
  unfolding index_tags append_index
  index_event event disk =
      let authors = append_index (by_author event.pubkey) event.id disk.index in
      let kinds = append_index (by_kind event.kind) event.id authors in
      index_tags event event.tags (record disk { index = kinds })
