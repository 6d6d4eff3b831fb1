-- ===== src/Files/System.antt =====
-- stonr/src/files.rs: the operations that change the blob store, in any order.
use stonr.Base.{ℕ, ◌≤◌, String, ◌≡◌, Bool, some, List, length, ok, arith}
use stonr.Base.Dict.{find}
use stonr.Event.{Event}
use stonr.Files.{Bytes, FileCrates, FileSettings, BlobInfo, UploadCandidate, FileDisk}
use stonr.Files.Blobs.{no_files, owner_usage, store_upload}
use stonr.Files.References.{add_event_references, rebuild_references}
use stonr.Files.Removal.{delete_for_owner, prune}
use stonr.Files.Intact.{IsIntact, no_files-IsIntact}
use stonr.Files.Intact.Steps.{
  add_event_references-IsIntact, delete_for_owner-IsIntact, prune-IsIntact,
}
use stonr.Files.Intact.Upload.{store_upload-IsIntact}
use stonr.Files.Intact.Rebuild.{rebuild_references-IsIntact}
use stonr.Files.Quota.{IsSized, IsWithin, held, owner_usage-held}
use stonr.Files.Quota.Fewer.{
  add_event_references-Fewer, rebuild_references-Fewer, Fewer-IsSized, Fewer-IsWithin,
}
use stonr.Files.Quota.Fewer.Removals.{delete_for_owner-Fewer, prune-Fewer}
use stonr.Files.Quota.Upload.{store_upload-IsSized, store_upload-IsWithin}

module _ ⦃c : FileCrates⦄ (settings : FileSettings) where
  -- One operation that ends without an error; one that ends with an error changes nothing.
  pub data FileStep : FileDisk → FileDisk → Type 0 where
    uploaded :
        (candidate : UploadCandidate) (base_url : String) (now : ℕ) {disk after : FileDisk}
        {info : BlobInfo}
        → store_upload candidate settings base_url now disk ≡ ok (after, info)
        → FileStep disk after
    referenced : (event : Event) (disk : FileDisk) → FileStep disk (add_event_references event disk)
    rebuilt :
        (events : List Event) (disk : FileDisk) → FileStep disk (rebuild_references events disk)
    deleted :
        (hash owner : String) {disk after : FileDisk} {removed : Bool}
        → delete_for_owner hash owner settings disk ≡ ok (after, removed)
        → FileStep disk after
    pruned :
        (now : ℕ) (dry_run : Bool) (disk : FileDisk)
        → FileStep disk (prune settings now dry_run disk).0

  -- The stores that some sequence of operations leads to.
  pub data FileReach : FileDisk → Type 0 where
    fresh : FileReach no_files
    after : {disk next : FileDisk} → FileReach disk → FileStep disk next → FileReach next

  FileStep-IsIntact : {disk next : FileDisk} → FileStep disk next → IsIntact disk → IsIntact next
  FileStep-IsIntact (uploaded candidate base_url now h) good =
      store_upload-IsIntact candidate settings base_url now _ _ _ good h
  FileStep-IsIntact (referenced event disk) good = add_event_references-IsIntact event disk good
  FileStep-IsIntact (rebuilt events disk) good = rebuild_references-IsIntact events disk good
  FileStep-IsIntact (deleted hash owner h) good =
      delete_for_owner-IsIntact hash owner settings _ _ _ good h
  FileStep-IsIntact (pruned now dry_run disk) good = prune-IsIntact settings now dry_run disk good

  -- Whatever sequence of uploads, references, rebuilds, deletions and prunes a blob store has been
  -- through: every document stands under its hash, exactly the described blobs are there, each
  -- with content of the hash that names it, and a reference file is there exactly where the blob's
  -- document lists the event.
  pub FileReach-IsIntact : (disk : FileDisk) → FileReach disk → IsIntact disk
  FileReach-IsIntact disk fresh = no_files-IsIntact
  FileReach-IsIntact disk (after reach step) = FileStep-IsIntact step (FileReach-IsIntact _ reach)

  FileStep-IsSized :
      ((a b : Bytes) → c.sha256_bytes a ≡ c.sha256_bytes b → length a ≡ length b)
      → {disk next : FileDisk} → FileStep disk next
      → IsIntact disk
      → IsSized disk
      → IsSized next
  FileStep-IsSized no_collision (uploaded candidate base_url now h) good sized =
      store_upload-IsSized no_collision candidate settings base_url now _ _ _ good sized h
  FileStep-IsSized no_collision (referenced event disk) good sized =
      Fewer-IsSized (add_event_references-Fewer event disk good) sized
  FileStep-IsSized no_collision (rebuilt events disk) good sized =
      Fewer-IsSized (rebuild_references-Fewer events disk good) sized
  FileStep-IsSized no_collision (deleted hash owner h) good sized =
      Fewer-IsSized (delete_for_owner-Fewer hash owner settings _ _ _ good h) sized
  FileStep-IsSized no_collision (pruned now dry_run disk) good sized =
      Fewer-IsSized (prune-Fewer settings now dry_run disk good) sized

  FileStep-IsWithin :
      ((a b : Bytes) → c.sha256_bytes a ≡ c.sha256_bytes b → length a ≡ length b)
      → (limit : ℕ) {disk next : FileDisk} → settings.max_blob_bytes_per_pubkey ≡ some limit
      → FileStep disk next
      → IsIntact disk
      → IsIntact next
      → IsSized disk
      → IsWithin limit disk
      → IsWithin limit next
  FileStep-IsWithin no_collision limit limited (uploaded candidate base_url now h) good good' sized
        within =
      store_upload-IsWithin no_collision candidate settings base_url now limit _ _ _ limited good
        sized within h
  FileStep-IsWithin no_collision limit limited (referenced event disk) good good' sized within =
      Fewer-IsWithin limit (add_event_references-Fewer event disk good) good'.named good.named
        within
  FileStep-IsWithin no_collision limit limited (rebuilt events disk) good good' sized within =
      Fewer-IsWithin limit (rebuild_references-Fewer events disk good) good'.named good.named within
  FileStep-IsWithin no_collision limit limited (deleted hash owner h) good good' sized within =
      Fewer-IsWithin limit (delete_for_owner-Fewer hash owner settings _ _ _ good h) good'.named
        good.named within
  FileStep-IsWithin no_collision limit limited (pruned now dry_run disk) good good' sized within =
      Fewer-IsWithin limit (prune-Fewer settings now dry_run disk good) good'.named good.named
        within

  FileReach-IsSized :
      ((a b : Bytes) → c.sha256_bytes a ≡ c.sha256_bytes b → length a ≡ length b)
      → (disk : FileDisk) → FileReach disk
      → IsSized disk
  unfolding find
  FileReach-IsSized no_collision disk fresh = λ hash meta content h there. absurd (cc h)
  FileReach-IsSized no_collision disk (after reach step) =
      FileStep-IsSized no_collision step (FileReach-IsIntact _ reach)
        (FileReach-IsSized no_collision _ reach)

  FileReach-IsWithin :
      ((a b : Bytes) → c.sha256_bytes a ≡ c.sha256_bytes b → length a ≡ length b)
      → (limit : ℕ) (disk : FileDisk) → settings.max_blob_bytes_per_pubkey ≡ some limit
      → FileReach disk
      → IsWithin limit disk
  unfolding held
  FileReach-IsWithin no_collision limit disk limited fresh = λ owner. omega arith
  FileReach-IsWithin no_collision limit disk limited (after reach step) =
      FileStep-IsWithin no_collision limit limited step (FileReach-IsIntact _ reach)
        (FileReach-IsIntact disk (after reach step)) (FileReach-IsSized no_collision _ reach)
        (FileReach-IsWithin no_collision limit _ limited reach)

  -- With a quota configured, and a hash that no two contents of different lengths share: whatever
  -- sequence of uploads, references, rebuilds, deletions and prunes the store has been through,
  -- what `owner_usage` finds for any owner is at most the quota.
  pub owner_usage-le :
      ((a b : Bytes) → c.sha256_bytes a ≡ c.sha256_bytes b → length a ≡ length b)
      → (limit : ℕ) (disk : FileDisk) (owner : String)
      → settings.max_blob_bytes_per_pubkey ≡ some limit
      → FileReach disk
      → owner_usage disk owner ≤ limit
  owner_usage-le no_collision limit disk owner limited reach =
      rw owner_usage-held (FileReach-IsWithin no_collision limit disk limited reach owner)
