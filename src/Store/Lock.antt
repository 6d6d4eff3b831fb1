-- ===== src/Store/Lock.antt =====
-- stonr/src/storage.rs: the mutation lock, a directory `runtime/store.lock` with the process id of
-- its owner in a file, that the threads of every process take in turn.
-- Threads are numbered; `pid_of` gives each its process. An operation of the file system that the
-- code calls is one step, and a removal takes the directory away or fails and leaves it.
pub mod Reach
pub mod Frame
pub mod Steps
pub mod Exclusion
use mathlib.Core.Option
use Prim.Native.String.{◌++◌ as str_append}
use stonr.Base.{
  ℕ, zero, suc, ◌*◌, ◌^◌, String, Bool, true, false, not, Option, none, some, ltb, nat_eq,
  if◌then◌else◌, Result, ok, err, ◌>>=◌,
}
use stonr.Base.Text.{to_decimal}
use stonr.Base.TextParts.{trim}
use stonr.Config.Parse.{parse_u32}

-- `MUTATION_LOCK_STALE_AFTER`, in nanoseconds.
abbrev pub mutation_lock_stale_after : ℕ
mutation_lock_stale_after = 120 * 10 ^ 9

-- What stands at the lock's path; of a directory, the text of `owner.pid`, if the file is there.
pub data LockPath : Type 0 where
  absent : LockPath
  plain_file : LockPath
  directory : Option String → LockPath

abbrev pub owner_text : ℕ → String
owner_text pid = str_append (to_decimal pid) "\n"

-- `write_lock_owner_pid`; without a directory it fails.
unfoldable pub write_lock_owner_pid : ℕ → LockPath → Option LockPath
write_lock_owner_pid pid (directory owner) = some (directory (some (owner_text pid)))
write_lock_owner_pid pid absent = none
write_lock_owner_pid pid plain_file = none

unfoldable pub read_lock_owner_pid : LockPath → Option ℕ
unfolding parse_u32 trim
read_lock_owner_pid (directory (some text)) = parse_u32 (trim text)
read_lock_owner_pid (directory none) = none
read_lock_owner_pid absent = none
read_lock_owner_pid plain_file = none

older_than : ℕ → Option ℕ → Bool
older_than stale_after none = false
older_than stale_after (some age) = ltb stale_after age

-- The end of `lock_dir_should_break` for a directory, by the process id that was read from it. The
-- time since it was modified, if it can be told, is that of the metadata that were read before.
-- `is_running` is `lock_owner_pid_is_running`: what the system answers to the signal 0.
unfoldable pub break_owned : (ℕ → Bool) → ℕ → Option ℕ → Option ℕ → Bool
unfolding older_than
break_owned is_running stale_after elapsed none = older_than stale_after elapsed
break_owned is_running stale_after elapsed (some pid) = not (is_running pid)

-- `fs::remove_dir_all`
unfoldable pub remove_dir_all : LockPath → LockPath
remove_dir_all (directory owner) = absent
remove_dir_all absent = absent
remove_dir_all plain_file = plain_file

-- Where a thread is in `acquire_mutation_lock_once`: about to make the directory, or without
-- interest in the lock; told that it exists; told that it is a directory; with the process id that
-- it read there, if there was one; about to break it; with a directory that names no owner yet;
-- with a `MutationLock`.
pub data Phase : Type 0 where
  idle : Phase
  found : Phase
  listed : Phase
  asking : Option ℕ → Phase
  breaking : Phase
  created : Phase
  holding : Phase

pub record Locks : Type 0 where
  pub path : LockPath
  pub phase : ℕ → Phase
  pub is_running : ℕ → Bool

-- The lock before any thread has asked for it.
abbrev pub no_lock : Locks
no_lock = record { path = absent; phase = λ thread. idle; is_running = λ pid. true }

-- The call that a thread makes in a phase, of `acquire_mutation_lock_once` or of the lock's `drop`.
-- Of the calls that may fail, the argument says whether this one works.
pub data LockCall : Phase → Type 0 where
  create_dir : LockCall idle
  -- `fs::metadata`, and whether it works and is that of a directory
  read_metadata : Bool → LockCall found
  -- `read_lock_owner_pid`
  read_owner : LockCall listed
  -- `lock_owner_pid_is_running`, or the comparison with the time since the directory was modified
  ask_owner : {owner : Option ℕ} → Option ℕ → LockCall (asking owner)
  remove_stale : Bool → LockCall breaking
  write_owner : (written removed : Bool) → LockCall created
  drop_lock : Bool → LockCall holding

unfoldable pub go_on : ℕ → LockPath → Phase → Locks → Locks
go_on thread path phase locks = record {
  path = path;
  phase = λ other. if nat_eq thread other then phase else locks.phase other;
  is_running = locks.is_running;
}

abbrev pub remove_if : Bool → LockPath → LockPath
remove_if done path = if done then remove_dir_all path else path

-- `fs::create_dir` works only where nothing stands.
after_create : ℕ → LockPath → Locks → Locks
unfolding go_on
after_create thread absent locks = go_on thread (directory none) created locks
after_create thread plain_file locks = go_on thread plain_file found locks
after_create thread (directory owner) locks = go_on thread (directory owner) found locks

after_write : ℕ → Bool → Option LockPath → Locks → Locks
unfolding go_on remove_dir_all
after_write thread removed none locks = go_on thread (remove_if removed locks.path) idle locks
after_write thread removed (some path) locks = go_on thread path holding locks

module _ (pid_of : ℕ → ℕ) where
  unfoldable pub lock_call : {phase : Phase} → LockCall phase → ℕ → Locks → Locks
  unfolding after_create after_write go_on remove_dir_all break_owned read_lock_owner_pid
      write_lock_owner_pid
  lock_call create_dir thread locks = after_create thread locks.path locks
  lock_call (read_metadata is_dir) thread locks =
      go_on thread locks.path (if is_dir then listed else idle) locks
  lock_call read_owner thread locks =
      go_on thread locks.path (asking (read_lock_owner_pid locks.path)) locks
  lock_call (ask_owner {owner} elapsed) thread locks =
      let breaks = break_owned locks.is_running mutation_lock_stale_after elapsed owner in
      go_on thread locks.path (if breaks then breaking else idle) locks
  lock_call (remove_stale done) thread locks = go_on thread (remove_if done locks.path) idle locks
  lock_call (write_owner written removed) thread locks =
      let owned = write_lock_owner_pid (pid_of thread) locks.path in
      after_write thread removed (if written then owned else none) locks
  lock_call (drop_lock done) thread locks = go_on thread (remove_if done locks.path) idle locks

  -- A process that ends takes its threads with it and leaves the directory.
  unfoldable pub exit_process : ℕ → Locks → Locks
  exit_process pid locks = record {
    path = locks.path;
    phase = locks.phase;
    is_running = λ other. if nat_eq pid other then false else locks.is_running other;
  }

-- `mutation_lock`, on the outcomes of its attempts.
unfoldable pub take_within : ℕ → (ℕ → Result Bool) → Result (Unit {0})
take_within zero attempt = err "timed out waiting for storage lock"
take_within (suc tries) attempt = do
  acquired ← attempt 0
  let rest = take_within tries (λ n. attempt (suc n))
  if acquired then ok tt else rest

unfoldable pub mutation_lock : (ℕ → Result Bool) → Result (Unit {0})
unfolding take_within
mutation_lock attempt = take_within 400 attempt
