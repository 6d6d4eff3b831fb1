-- ===== src/Store/Retention/Removal.antt =====
-- `fs::remove_file` in `enforce_retention_from_records` of stonr/src/storage.rs, and the events left.
use mathlib.Core.Option
use mathlib.Core.Path.{subst}
use stonr.Base.{
  String, Bool, true, false, none, some, List, [], ◌∷◌, ◌==◌, not, keep, any, In, All, ◌≡◌, ◌≢◌,
  refl, sym, ◌∙◌, arith, inl, inr, Bool-cases, eq_iff, if◌then◌else◌,
}
use stonr.Store.{Disk, EventFile, StoredEventRecord}
use stonr.Store.Consistent.{stored, IsFiled, HasDistinctNames}
use stonr.Store.Read.{lookup}
use stonr.Store.Retention.{remove_file, remove_files}
use stonr.Store.Retention.Prune.{Split, Split-covers, Split-kept, Split-apart}
use stonr.Store.Retention.Records.{Covers, HasDistinctPaths}

lookup-remove_file :
    (path id : String) (files : List (String × EventFile))
    → lookup id (remove_file path files) ≡ (if path == id then none else lookup id files)
unfolding lookup remove_file keep
lookup-remove_file path id [] = ground arith
lookup-remove_file path id ((name, file) ∷ files) =
    ground
      (arith, lookup-remove_file path id files, eq_iff path id, eq_iff name id, eq_iff name path)

All-keep :
    (P : String × EventFile → Type 0) (p : String × EventFile → Bool)
    (files : List (String × EventFile))
    → All P files
    → All P (keep p files)
unfolding keep
All-keep P p [] a = tt
All-keep P p (file ∷ files) (h, a) = elim (Bool-cases (p file)) [
  | inl t ↦ rw t (h, All-keep P p files a)
  | inr f ↦ rw f (All-keep P p files a)
]

distinct-keep :
    (p : String × EventFile → Bool) (files : List (String × EventFile))
    → HasDistinctNames files
    → HasDistinctNames (keep p files)
unfolding keep
distinct-keep p [] d = tt
distinct-keep p (file ∷ files) (a, d) = elim (Bool-cases (p file)) [
  | inl t ↦ rw t (All-keep (λ other. file.0 ≢ other.0) p files a, distinct-keep p files d)
  | inr f ↦ rw f (distinct-keep p files d)
]

-- The event of a removed file is stored no more, and any other as before.
pub stored-remove_files :
    (records : List StoredEventRecord) (disk : Disk) (id : String)
    → stored (remove_files records disk) id
      ≡ (if any (λ r. r.path == id) records then none else stored disk id)
unfolding stored remove_files Option.bind
stored-remove_files [] disk id = refl
stored-remove_files (r ∷ records) disk id = ground (
  arith,
  stored-remove_files records (record disk { events = remove_file r.path disk.events }) id,
  lookup-remove_file r.path id disk.events,
)

distinct-remove_files :
    (records : List StoredEventRecord) (disk : Disk)
    → HasDistinctNames disk.events
    → HasDistinctNames (remove_files records disk).events
unfolding remove_files remove_file
distinct-remove_files [] disk d = d
distinct-remove_files (r ∷ records) disk d =
    distinct-remove_files records _ (distinct-keep (λ file. not (file.0 == r.path)) disk.events d)

pub IsFiled-remove_files :
    (records : List StoredEventRecord) (disk : Disk)
    → IsFiled disk
    → IsFiled (remove_files records disk)
IsFiled-remove_files records disk f = record {
  named = λ id event s. f.named id event (ground (arith, stored-remove_files records disk id));
  sliced = λ id event s. f.sliced id event (ground (arith, stored-remove_files records disk id));
  distinct = distinct-remove_files records disk f.distinct;
}

has-path :
    (id : String) (records : List StoredEventRecord) (r : StoredEventRecord)
    → In r records
    → r.path ≡ id
    → any (λ q. q.path == id) records ≡ true
has-path id [] r m e = absurd m
has-path id (q ∷ records) r (inl same) e =
    let e' : q.path ≡ id = subst (λ s. s.path ≡ id) same e in ground (arith, eq_iff q.path id)
has-path id (q ∷ records) r (inr m) e = ground (arith, has-path id records r m e)

has-no-path :
    (id : String) (records : List StoredEventRecord)
    → ((r : StoredEventRecord) → In r records → r.path ≢ id)
    → any (λ q. q.path == id) records ≡ false
has-no-path id [] h = refl
has-no-path id (q ∷ records) h =
    let other = h q (inl refl) in
    ground (arith, eq_iff q.path id, has-no-path id records (λ r m. h r (inr m)))

-- Once the removed records' files are gone, the records that are kept are those of the events.
pub Covers-remove_files :
    {records kept removed : List StoredEventRecord} (disk : Disk)
    → Split records kept removed
    → HasDistinctPaths records
    → Covers records disk
    → Covers kept (remove_files removed disk)
Covers-remove_files {records} {kept} {removed} disk s apart c = record {
  sound = λ r m.
      let (held, named) = c.sound r (Split-kept s r m) in
      let stays =
        has-no-path r.event.id removed
          (λ d gone same. Split-apart s apart r d m gone (named ∙ sym same)) in
      (ground (arith, stored-remove_files removed disk r.event.id, held, stays), named);
  complete = λ id event held.
      let before : stored disk id ≡ some event =
        ground (arith, stored-remove_files removed disk id) in
      let (r, m, at_event, at_path) = c.complete id event before in
      elim (Split-covers s r m) [
        | inl k ↦ (r, k, at_event, at_path)
        | inr d ↦
            let gone = has-path id removed r d at_path in
            absurd (ground (arith, stored-remove_files removed disk id))
      ];
}
