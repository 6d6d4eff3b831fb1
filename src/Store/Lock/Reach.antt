-- ===== src/Store/Lock/Reach.antt =====
-- stonr/src/storage.rs: the states of the mutation lock that the threads' calls lead to.
use mathlib.Core.Option
use stonr.Base.{ℕ, ◌≤◌, ◌^◌, ◌-◌, ◌≡◌, ◌≢◌, Bool, true, false, Option, none, some, arith}
use stonr.Base.Text.{to_decimal}
use stonr.Base.Text.Decimals.{parse_u64-to_decimal, to_decimal-numeral}
use stonr.Base.TextParts.Trim.{trim-numeral}
use stonr.Config.Parse.{parse_u32}
use stonr.Store.Lock.{
  mutation_lock_stale_after, LockPath, directory, owner_text, read_lock_owner_pid, Phase, idle,
  found, listed, asking, breaking, created, holding, Locks, no_lock, LockCall, create_dir,
  read_metadata, read_owner, ask_owner, remove_stale, write_owner, drop_lock, lock_call,
  exit_process,
}

-- The process id in the file of a lock is read back as it was written.
pub read_lock_owner_pid-write :
    (pid : ℕ)
    → pid ≤ 2 ^ 32 - 1
    → read_lock_owner_pid (directory (some (owner_text pid))) ≡ some pid
unfolding read_lock_owner_pid parse_u32 Option.bind
read_lock_owner_pid-write pid small =
    rw (trim-numeral (to_decimal pid) (to_decimal-numeral pid))
      (rw (parse_u64-to_decimal pid (omega arith)) (ground arith))

-- The path and the phase of a thread that has made the directory, or has the lock.
unfoldable pub Owns : ℕ → LockPath → Phase → Type 0
Owns pid path idle = Unit {0}
Owns pid path found = Unit {0}
Owns pid path listed = Unit {0}
Owns pid path (asking owner) = Unit {0}
Owns pid path breaking = ⊥
Owns pid path created = path ≡ directory none
Owns pid path holding = path ≡ directory (some (owner_text pid))

unfoldable pub is_inside : Phase → Bool
is_inside created = true
is_inside holding = true
is_inside idle = false
is_inside found = false
is_inside listed = false
is_inside (asking owner) = false
is_inside breaking = false

unfoldable pub NotStale : Option ℕ → Type 0
NotStale none = Unit {0}
NotStale (some age) = age ≤ mutation_lock_stale_after

-- The process id that a thread has read from the lock and is about to ask the system about.
unfoldable pub asked : Phase → Option ℕ
asked (asking owner) = owner
asked idle = none
asked found = none
asked listed = none
asked breaking = none
asked created = none
asked holding = none

-- A thread that read no process id finds that its metadata of the lock are not older than the time
-- limit.
unfoldable pub InTime : {phase : Phase} → LockCall phase → Type 0
unfolding NotStale
InTime (ask_owner {owner} elapsed) = owner ≡ none → NotStale elapsed
InTime create_dir = Unit {0}
InTime (read_metadata is_dir) = Unit {0}
InTime read_owner = Unit {0}
InTime (remove_stale done) = Unit {0}
InTime (write_owner written removed) = Unit {0}
InTime (drop_lock done) = Unit {0}

module _ (pid_of : ℕ → ℕ) where
  -- The states that some order of calls leads to, while no process ends that the lock
  -- names, or whose id some thread has just read there.
  pub data LockReach : Locks → Type 0 where
    unlocked : LockReach no_lock
    calls :
        (thread : ℕ) {phase : Phase} (call : LockCall phase) {locks : Locks}
        → LockReach locks
        → locks.is_running (pid_of thread) ≡ true
        → locks.phase thread ≡ phase
        → InTime call
        → LockReach (lock_call pid_of call thread locks)
    ends :
        (pid : ℕ) {locks : Locks}
        → LockReach locks
        → read_lock_owner_pid locks.path ≢ some pid
        → ((thread : ℕ) → asked (locks.phase thread) ≢ some pid)
        → LockReach (exit_process pid_of pid locks)

  pub record IsExclusive (locks : Locks) : Type 0 where
    pub named : (pid : ℕ) → read_lock_owner_pid locks.path ≡ some pid → locks.is_running pid ≡ true
    pub asked_of :
        (thread pid : ℕ) → asked (locks.phase thread) ≡ some pid → locks.is_running pid ≡ true
    pub owned : (thread : ℕ) → Owns (pid_of thread) locks.path (locks.phase thread)
    pub alone :
        (a b : ℕ) → is_inside (locks.phase a) ≡ true → is_inside (locks.phase b) ≡ true → a ≡ b
