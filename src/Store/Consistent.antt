-- ===== src/Store/Consistent.antt =====
-- When the index files of a store agree with its events, and what the events directory holds.
use mathlib.Core.Option
use stonr.Base.{
  none, All, All-append_one, ◌≢◌, ◌∙◌, inl, inr, Bool-cases, String, Bool, true, false, Option,
  some, List, [], ◌∷◌, ◌++◌, ◌==◌, ◌&&◌, ◌||◌, any, nat_eq, is_some_and, In, ok, ◌≡◌, refl, eq_iff,
  arith, ◌↔◌,
}
use stonr.Event.{Event, Tag}
use stonr.External.{External}
use stonr.Query.{has_text}
use stonr.Store.{Disk, EventFile, IndexKey, by_author, by_kind, by_tag}
use stonr.Store.Index.{event_path, same_index}
use stonr.Store.Read.{lookup}

-- The event that the file of an id holds.
unfoldable pub stored : Disk → String → Option Event
stored disk id = Option.bind (lookup id disk.events) (λ file. file.body)

-- No two files have one name.
abbrev pub HasDistinctNames : List (String × EventFile) → Type 0
HasDistinctNames [] = Unit
HasDistinctNames (file ∷ files) = All (λ other. file.0 ≢ other.0) files × HasDistinctNames files

-- What `events/` holds, whatever the other files do.
pub record IsFiled (disk : Disk) : Type 0 where
  -- a file is named by its event's id
  pub named : (id : String) (event : Event) → stored disk id ≡ some event → event.id ≡ id
  -- the id of a stored event has the slices that its path is made of
  pub sliced :
      (id : String) (event : Event)
      → stored disk id ≡ some event
      → (path : String × String × String) × (event_path id ≡ ok path)
  pub distinct : HasDistinctNames disk.events

module _ ⦃x : External⦄ where
  -- Whether a tag has the name, and a value with the hash.
  unfoldable pub tag_under : String → String → Tag → Bool
  tag_under name hash [] = false
  tag_under name hash (t ∷ []) = false
  tag_under name hash (t ∷ value ∷ _) = t == name && x.sha1_hex value == hash

  -- The index files that an event belongs in.
  unfoldable pub has_key : Event → IndexKey → Bool
  unfolding tag_under
  has_key event (by_author pubkey) = event.pubkey == pubkey
  has_key event (by_kind kind) = nat_eq event.kind kind
  has_key event (by_tag name hash) = any (tag_under name hash) event.tags

  -- The index files agree with the events.
  pub record IsConsistent (disk : Disk) : Type 0 where
    pub filed : IsFiled disk
    pub open filed use *
    -- an index file has exactly the ids of the stored events that belong in it
    pub indexed :
        (key : IndexKey) (id : String)
        → has_text (disk.index key) id ≡ is_some_and (stored disk id) (λ event. has_key event key)

pub lookup-append :
    (id name : String) (file : EventFile) (files : List (String × EventFile))
    → lookup id (files ++ (name, file) ∷ [])
      ≡ Option.or_else (lookup id files) (lookup id ((name, file) ∷ []))
unfolding lookup Option.or_else
lookup-append id name file [] = ground arith
lookup-append id name file ((other, f) ∷ files) = ground (arith, lookup-append id name file files)

pub has_text-append_one :
    (ids : List String) (id other : String)
    → has_text (ids ++ id ∷ []) other ≡ (has_text ids other || id == other)
unfolding has_text
has_text-append_one [] id other = ground arith
has_text-append_one (i ∷ ids) id other = ground (arith, has_text-append_one ids id other)

pub has_text-append :
    (ids more : List String) (id : String)
    → has_text (ids ++ more) id ≡ (has_text ids id || has_text more id)
unfolding has_text
has_text-append [] more id = refl
has_text-append (i ∷ ids) more id = ground (arith, has_text-append ids more id)

pub has_text_iff : (ids : List String) (id : String) → (has_text ids id ≡ true) ↔ In id ids
unfolding has_text
has_text_iff [] id = (λ h. cc, λ h. absurd h)
has_text_iff (i ∷ ids) id = (
  λ h. ground (arith, eq_iff i id, (has_text_iff ids id).0),
  λ h. ground (arith, eq_iff i id, (has_text_iff ids id).1),
)

pub same_index_iff : (a b : IndexKey) → (same_index a b ≡ true) ↔ (a ≡ b)
unfolding same_index
same_index_iff (by_author a) (by_author b) =
    (λ h. ground (arith, eq_iff a b), λ h. ground (arith, eq_iff a b))
same_index_iff (by_kind a) (by_kind b) = (λ h. ground arith, λ h. ground arith)
same_index_iff (by_tag t a) (by_tag u b) =
    (λ h. ground (arith, eq_iff t u, eq_iff a b), λ h. ground (arith, eq_iff t u, eq_iff a b))
same_index_iff _ _ = (λ h. cc, λ h. cc)

pub lookup-none :
    (id : String) (files : List (String × EventFile))
    → lookup id files ≡ none
    → All (λ other. other.0 ≢ id) files
unfolding lookup
lookup-none id [] h = tt
lookup-none id ((name, file) ∷ files) h =
    ((λ e. ground (arith, eq_iff name id)), lookup-none id files (ground arith))

other-name :
    (name id : String) (file : EventFile) (files : List (String × EventFile))
    → All (λ other. name ≢ other.0) files
    → In (id, file) files
    → name ≢ id
other-name name id file [] a m = absurd m
other-name name id file ((n, f) ∷ files) (h, a) (inl e) = λ same. h (same ∙ (λ i. (e i).0))
other-name name id file (g ∷ files) (h, a) (inr m) = other-name name id file files a m

-- With distinct names a file is found under its name.
pub In-lookup :
    (id : String) (file : EventFile) (files : List (String × EventFile))
    → HasDistinctNames files
    → In (id, file) files
    → lookup id files ≡ some file
unfolding lookup
In-lookup id file [] d m = absurd m
In-lookup id file ((name, f) ∷ files) (a, d) (inl e) = ground (arith, eq_iff name id, e)
In-lookup id file ((name, f) ∷ files) (a, d) (inr m) =
    ground (arith, eq_iff name id, other-name name id file files a m, In-lookup id file files d m)

-- What is found under a name is a file of that name.
pub lookup-In :
    (id : String) (file : EventFile) (files : List (String × EventFile))
    → lookup id files ≡ some file
    → In (id, file) files
unfolding lookup
lookup-In id file [] h = absurd (cc)
lookup-In id file ((name, f) ∷ files) h = elim (Bool-cases (name == id)) [
  | inl same ↦ inl (ground (arith, eq_iff name id))
  | inr other ↦ inr (lookup-In id file files (ground arith))
]

append-distinct :
    (name : String) (file : EventFile) (files : List (String × EventFile))
    → HasDistinctNames files
    → All (λ other. other.0 ≢ name) files
    → HasDistinctNames (files ++ (name, file) ∷ [])
append-distinct name file [] d a = (tt, tt)
append-distinct name file (f ∷ files) (h, d) (n, a) = (
  All-append_one (λ other. f.0 ≢ other.0) files (name, file) h n,
  append-distinct name file files d a,
)

-- A file with a new name keeps the names distinct.
pub new-distinct :
    (name : String) (file : EventFile) (files : List (String × EventFile))
    → HasDistinctNames files
    → lookup name files ≡ none
    → HasDistinctNames (files ++ (name, file) ∷ [])
new-distinct name file files d h = append-distinct name file files d (lookup-none name files h)
