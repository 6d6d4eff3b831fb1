-- ===== src/Store/Retention/Records.antt =====
-- `sorted_event_records` of stonr/src/storage.rs, and the event files that the records stand for.
use mathlib.Core.Option
use mathlib.Core.Path.{subst}
use stonr.Base.{
  String, Option, none, some, List, [], ◌∷◌, In, All, AllPairs, ◌≡◌, ◌≢◌, refl, sym, ◌∙◌, arith,
  inl, inr, ◌⊎◌, Option-cases,
}
use stonr.Base.Sort.{AllPairs-sort_by, In-sort_by, In-of_sort_by}
use stonr.Event.{Event}
use stonr.Store.{Disk, EventFile, StoredEventRecord}
use stonr.Store.Consistent.{stored, IsFiled, HasDistinctNames, In-lookup, lookup-In}
use stonr.Store.Read.{lookup}
use stonr.Store.Retention.{add_record, load_event_records, oldest_first, sorted_event_records}

-- No two records have one path.
abbrev pub HasDistinctPaths : List StoredEventRecord → Type 0
HasDistinctPaths = AllPairs (λ a b. a.path ≢ b.path)

-- The record is that of a file.
abbrev pub IsRecordOf : StoredEventRecord → List (String × EventFile) → Type 0
IsRecordOf r files = (file : EventFile) × In (r.path, file) files × (file.body ≡ some r.event)

add_record_sound :
    (r : StoredEventRecord) (path : String) (file : EventFile) (o : Option Event)
    (records : List StoredEventRecord)
    → In r (add_record path file o records)
    → ((r.path ≡ path) × (o ≡ some r.event)) ⊎ In r records
unfolding add_record
add_record_sound r path file none records m = inr m
add_record_sound r path file (some event) records (inl e) =
    inl ((λ i. (e i).path), (λ i. some ((sym e i).event)))
add_record_sound r path file (some event) records (inr m) = inr m

pub load_event_records_sound :
    (r : StoredEventRecord) (files : List (String × EventFile))
    → In r (load_event_records files)
    → IsRecordOf r files
unfolding load_event_records
load_event_records_sound r [] m = absurd m
load_event_records_sound r ((path, file) ∷ files) m =
    elim (add_record_sound r path file file.body (load_event_records files) m) [
      | inl (at_path, body) ↦ (file, inl (λ i. (at_path i, file)), body)
      | inr later ↦
          let (f, listed, body) = load_event_records_sound r files later in (f, inr listed, body)
    ]

add_record-keeps :
    (r : StoredEventRecord) (path : String) (file : EventFile) (o : Option Event)
    (records : List StoredEventRecord)
    → In r records
    → In r (add_record path file o records)
unfolding add_record
add_record-keeps r path file none records m = m
add_record-keeps r path file (some event) records m = inr m

add_record-new :
    (path : String) (file : EventFile) (o : Option Event) (event : Event)
    (records : List StoredEventRecord)
    → o ≡ some event
    → (r : StoredEventRecord) × In r (add_record path file o records)
      × (r.event ≡ event)
      × (r.path ≡ path)
unfolding add_record
add_record-new path file none event records h = absurd (cc)
add_record-new path file (some e) event records h = (_, inl refl, (λ i. unwrap e (h i)), refl)
  where
    unwrap : Event → Option Event → Event
    unwrap d none = d
    unwrap d (some a) = a

pub load_event_records_complete :
    (path : String) (file : EventFile) (event : Event) (files : List (String × EventFile))
    → In (path, file) files
    → file.body ≡ some event
    → (r : StoredEventRecord) × In r (load_event_records files)
      × (r.event ≡ event)
      × (r.path ≡ path)
unfolding load_event_records
load_event_records_complete path file event [] m h = absurd m
load_event_records_complete path file event ((name, f) ∷ files) (inl e) h =
    let (r, m, at_event, at_path) =
      add_record-new name f f.body event (load_event_records files)
        (subst (λ g. g.body ≡ some event) (λ i. (e i).1) h) in
    (r, m, at_event, at_path ∙ sym (λ i. (e i).0))
load_event_records_complete path file event ((name, f) ∷ files) (inr m) h =
    let (r, listed, at_event, at_path) = load_event_records_complete path file event files m h in
    (r, add_record-keeps r name f f.body (load_event_records files) listed, at_event, at_path)

add_record-All :
    (P : StoredEventRecord → Type 0) (path : String) (file : EventFile) (o : Option Event)
    (records : List StoredEventRecord)
    → ((r : StoredEventRecord) → r.path ≡ path → P r)
    → All P records
    → All P (add_record path file o records)
unfolding add_record
add_record-All P path file none records h a = a
add_record-All P path file (some event) records h a = (h _ refl, a)

add_record-distinct :
    (path : String) (file : EventFile) (o : Option Event) (records : List StoredEventRecord)
    → All (λ r. path ≢ r.path) records
    → HasDistinctPaths records
    → HasDistinctPaths (add_record path file o records)
unfolding add_record
add_record-distinct path file none records a d = d
add_record-distinct path file (some event) records a d = (a, d)

load_event_records-avoids :
    (path : String) (files : List (String × EventFile))
    → All (λ other. path ≢ other.0) files
    → All (λ r. path ≢ r.path) (load_event_records files)
unfolding load_event_records
load_event_records-avoids path [] a = tt
load_event_records-avoids path ((name, f) ∷ files) (h, a) =
    add_record-All (λ r. path ≢ r.path) name f f.body (load_event_records files)
      (λ r at same. h (same ∙ at)) (load_event_records-avoids path files a)

load_event_records-distinct :
    (files : List (String × EventFile))
    → HasDistinctNames files
    → HasDistinctPaths (load_event_records files)
unfolding load_event_records
load_event_records-distinct [] d = tt
load_event_records-distinct ((name, f) ∷ files) (a, d) =
    add_record-distinct name f f.body (load_event_records files)
      (load_event_records-avoids name files a) (load_event_records-distinct files d)

-- The records are those of the stored events, each under its event's id.
pub record Covers (records : List StoredEventRecord) (disk : Disk) : Type 0 where
  pub sound :
      (r : StoredEventRecord)
      → In r records
      → (stored disk r.event.id ≡ some r.event) × (r.path ≡ r.event.id)
  pub complete :
      (id : String) (event : Event)
      → stored disk id ≡ some event
      → (r : StoredEventRecord) × In r records × (r.event ≡ event) × (r.path ≡ id)

stored_under :
    (disk : Disk) (r : StoredEventRecord)
    → IsFiled disk
    → IsRecordOf r disk.events
    → stored disk r.path ≡ some r.event
unfolding stored Option.bind
stored_under disk r filed (file, listed, body) =
    rw (In-lookup r.path file disk.events filed.distinct listed, Option.bind) body

stored-file :
    (disk : Disk) (id : String) (event : Event)
    → stored disk id ≡ some event
    → (file : EventFile) × In (id, file) disk.events × (file.body ≡ some event)
unfolding stored Option.bind
stored-file disk id event s = elim (Option-cases (lookup id disk.events)) [
  | inl missing ↦ absurd (cc (s, missing))
  | inr (file, there) ↦ (file, lookup-In id file disk.events there, ground arith)
]

-- The records of a disk, oldest first, are those of its stored events, with distinct paths.
pub sorted_event_records-Covers :
    (disk : Disk)
    → IsFiled disk
    → Covers (sorted_event_records disk) disk × HasDistinctPaths (sorted_event_records disk)
unfolding sorted_event_records
sorted_event_records-Covers disk filed = (
  record {
    sound = λ r m.
        let listed =
          load_event_records_sound r disk.events
            (In-of_sort_by oldest_first r (load_event_records disk.events) m) in
        let s = stored_under disk r filed listed in
        let own = filed.named r.path r.event s in
        (subst (λ i. stored disk i ≡ some r.event) (sym own) s, sym own);
    complete = λ id event s.
        let (file, listed, body) = stored-file disk id event s in
        let (r, m, at_event, at_path) =
          load_event_records_complete id file event disk.events listed body in
        (r, In-sort_by oldest_first r (load_event_records disk.events) m, at_event, at_path);
  },
  AllPairs-sort_by oldest_first (λ a b. a.path ≢ b.path) (load_event_records disk.events)
      (λ a b different same. different (sym same))
      (load_event_records-distinct disk.events filed.distinct),
)
