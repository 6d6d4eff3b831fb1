-- ===== src/Files/References/Exact.antt =====
-- stonr/src/files.rs: which references a rebuild leaves.
use mathlib.Core.Option
use stonr.Base.{
  String, ◌≡◌, refl, Bool, List, [], ◌∷◌, ◌==◌, ◌&&◌, ◌||◌, inl, inr, is_some, arith, eq_iff,
  Option-cases, ◌∙◌, any,
}
use stonr.Base.Dict.{find, find-put}
use stonr.Event.{Event}
use stonr.Query.{has_text}
use stonr.Query.Sorted.{has_text-sorted}
use stonr.Files.{FileCrates, FileDisk, insert_text}
use stonr.Files.References.{
  named_hashes, referenced_hashes, add_known_reference, add_reference, add_references,
  add_event_references, add_all_references, rebuild_references,
}
use stonr.Files.Intact.{IsIntact}
use stonr.Files.Intact.Steps.{add_reference-IsIntact, add_event_references-IsIntact}
use stonr.Files.Intact.Rebuild.{
  cleared, without_refs, find-without_refs, without_refs-refs, without_refs-IsIntact,
}

-- The sorted list without repetitions has exactly the hashes that the event names.
pub has_text-referenced_hashes :
    (event : Event) (hash : String)
    → has_text (referenced_hashes event) hash ≡ has_text (named_hashes event) hash
unfolding referenced_hashes
has_text-referenced_hashes event hash = has_text-sorted (named_hashes event) hash

-- What an operation on references leaves of the documents: all but their references.
abbrev SameBlobs : FileDisk → FileDisk → Type 0
SameBlobs after before =
    (hash : String)
    → Option.map cleared (find hash after.metas) ≡ Option.map cleared (find hash before.metas)

known-SameBlobs :
    (after before : FileDisk) (hash : String)
    → SameBlobs after before
    → is_some (find hash after.metas) ≡ is_some (find hash before.metas)
known-SameBlobs after before hash same = ground (arith, same hash)

-- Whether some event of the id names the hash.
pub names : List Event → String → String → Bool
names events hash id = any (λ event. has_text (named_hashes event) hash && event.id == id) events

module _ ⦃c : FileCrates⦄ where
  add_reference-SameBlobs :
      (hash event_id : String) (disk : FileDisk)
      → IsIntact disk
      → SameBlobs (add_reference hash event_id disk) disk
  unfolding add_reference add_known_reference
  add_reference-SameBlobs hash event_id disk good other =
      elim (Option-cases (find hash disk.metas)) [
        | inl unknown ↦ rw unknown refl
        | inr (meta, known) ↦ rw known (
            ground (
              arith,
              find-put other meta.sha256 (record meta { refs = insert_text event_id meta.refs })
                  disk.metas,
              good.described hash meta known,
              eq_iff meta.sha256 other,
            ))
      ]

  add_reference-refs :
      (hash event_id other id : String) (disk : FileDisk)
      → (add_reference hash event_id disk).refs other id ≡ (
          disk.refs other id
          || (is_some (find other disk.metas) && (hash == other && event_id == id)))
  unfolding add_reference add_known_reference
  add_reference-refs hash event_id other id disk = elim (Option-cases (find hash disk.metas)) [
    | inl unknown ↦ rw unknown (ground (arith, eq_iff hash other))
    | inr (meta, known) ↦ rw known (ground (arith, eq_iff hash other))
  ]

  add_references-exact :
      (hashes : List String) (event_id other id : String) (disk : FileDisk)
      → IsIntact disk
      → SameBlobs (add_references hashes event_id disk) disk
        × ((add_references hashes event_id disk).refs other id ≡ (
            disk.refs other id
            || (is_some (find other disk.metas) && (has_text hashes other && event_id == id))))
  unfolding add_references has_text
  add_references-exact [] event_id other id disk good = ((λ hash. refl), ground arith)
  add_references-exact (hash ∷ hashes) event_id other id disk good =
      let next = add_reference hash event_id disk in
      let (same, refs) =
        add_references-exact hashes event_id other id next
          (add_reference-IsIntact hash event_id disk good) in
      let one = add_reference-SameBlobs hash event_id disk good in
      (
        (λ h. same h ∙ one h),
        (ground (
          arith,
          refs,
          add_reference-refs hash event_id other id disk,
          known-SameBlobs next disk other one,
        )),
      )

  add_event_references-exact :
      (event : Event) (other id : String) (disk : FileDisk)
      → IsIntact disk
      → SameBlobs (add_event_references event disk) disk
        × ((add_event_references event disk).refs other id ≡ (
            disk.refs other id
            || (is_some (find other disk.metas)
                && (has_text (named_hashes event) other && event.id == id))))
  unfolding add_event_references
  add_event_references-exact event other id disk good =
      let (same, refs) =
        add_references-exact (referenced_hashes event) event.id other id disk good in
      (same, ground (arith, refs, has_text-referenced_hashes event other))

  add_all_references-exact :
      (events : List Event) (other id : String) (disk : FileDisk)
      → IsIntact disk
      → SameBlobs (add_all_references events disk) disk
        × ((add_all_references events disk).refs other id
            ≡ (disk.refs other id || (is_some (find other disk.metas) && names events other id)))
  unfolding add_all_references names
  add_all_references-exact [] other id disk good = ((λ hash. refl), ground arith)
  add_all_references-exact (event ∷ events) other id disk good =
      let next = add_event_references event disk in
      let (one, refs) = add_event_references-exact event other id disk good in
      let (same, all) =
        add_all_references-exact events other id next
          (add_event_references-IsIntact event disk good) in
      ((λ h. same h ∙ one h), (ground (arith, refs, all, known-SameBlobs next disk other one)))

  -- After a rebuild over an intact store, a reference file is there exactly for a stored blob and
  -- an event of the list that names it; and every document is as it was but for its references.
  pub rebuild_references-exact :
      (events : List Event) (disk : FileDisk) (hash event_id : String)
      → IsIntact disk
      → ((rebuild_references events disk).refs hash event_id
          ≡ (is_some (find hash disk.metas) && names events hash event_id))
        × (Option.map cleared (find hash (rebuild_references events disk).metas)
            ≡ Option.map cleared (find hash disk.metas))
  unfolding rebuild_references without_refs
  rebuild_references-exact events disk hash event_id good =
      let (same, refs) =
        add_all_references-exact events hash event_id (without_refs disk)
          (without_refs-IsIntact disk good) in
      let emptied = find-without_refs hash disk good in
      (
        ground (arith, refs, without_refs-refs disk hash event_id, emptied),
        same hash ∙ ground (arith, emptied),
      )
