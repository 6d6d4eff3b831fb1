-- ===== src/Tests/Locks.antt =====
-- The mutation lock in small runs of two and three threads.
use mathlib.Core.Option
use stonr.Base.{
  ℕ, zero, suc, ◌≤◌, ◌^◌, ◌-◌, ◌≡◌, ◌≢◌, refl, Bool, true, false, some, Result, ok, err, arith,
}
use stonr.Base.Text.{to_decimal}
use stonr.Store.Lock.{
  directory, owner_text, Locks, no_lock, create_dir, read_metadata, read_owner, ask_owner,
  remove_stale, write_owner, drop_lock, holding, read_lock_owner_pid, lock_call, exit_process,
  mutation_lock,
}
use stonr.Store.Lock.Reach.{
  LockReach, unlocked, calls, ends, InTime, asked, read_lock_owner_pid-write,
}
use stonr.Store.Lock.Exclusion.{mutation_lock-exclusive}

-- Threads 0, 1 and 2 belong to the processes 70, 71 and 71.
abbrev pid_of : ℕ → ℕ
pid_of zero = 70
pid_of (suc thread) = 71

pid_of-le : (thread : ℕ) → pid_of thread ≤ 2 ^ 32 - 1
pid_of-le zero = omega arith
pid_of-le (suc thread) = omega arith

abbrev taken : Locks
taken = lock_call pid_of (write_owner true true) 0 (lock_call pid_of create_dir 0 no_lock)

names-70 : read_lock_owner_pid (directory (some (owner_text 70))) ≢ some 72
names-70 h = absurd (ground (arith, read_lock_owner_pid-write 70 (omega arith)))

-- The calls of a thread that finds the lock, as far as reading this process id there.
abbrev reads : ℕ → Locks → Locks
reads thread locks =
    lock_call pid_of read_owner thread
      (lock_call pid_of (read_metadata true) thread (lock_call pid_of create_dir thread locks))

abbrev asks : ℕ → Locks → Locks
asks thread locks = lock_call pid_of (ask_owner {owner = some 70} (some 5)) thread locks

abbrev takes : ℕ → Locks → Locks
takes thread locks =
    lock_call pid_of (write_owner true true) thread (lock_call pid_of create_dir thread locks)

-- Thread 1 asks while thread 0 has the lock, another process ends, and 1 is told to wait.
abbrev refused : Locks
refused = asks 1 (exit_process pid_of 72 (reads 1 taken))

taken-reached : LockReach pid_of taken
unfolding lock_call InTime
taken-reached =
    calls 0 (write_owner true true) (calls 0 create_dir unlocked refl refl tt) refl refl tt

unasked-72 : (thread : ℕ) → asked ((reads 1 taken).phase thread) ≢ some 72
unfolding lock_call asked
unasked-72 zero h = absurd (ground arith)
unasked-72 (suc zero) h = names-70 h
unasked-72 (suc (suc thread)) h = absurd (ground arith)

refused-reached : LockReach pid_of refused
unfolding lock_call exit_process InTime read_lock_owner_pid Option.bind to_decimal
refused-reached =
    calls 1 (ask_owner {owner = some 70} (some 5))
      (ends 72
        (calls 1 read_owner
          (calls 1 (read_metadata true) (calls 1 create_dir taken-reached refl refl tt) refl refl
            tt)
          refl refl tt)
        names-70 unasked-72)
      refl refl (λ none_read. omega arith)

mutation_lock-exclusive_example :
    (read_lock_owner_pid refused.path ≡ some 70)
    × ((b : ℕ) → refused.phase b ≡ holding → ◌≡◌ {A = ℕ} 0 b)
unfolding lock_call exit_process
mutation_lock-exclusive_example =
    mutation_lock-exclusive pid_of pid_of-le refused refused-reached 0 refl

-- Process 70 ends with the lock. Threads 1 and 2 both see that; 1 breaks the lock and takes it.
abbrev broken : Locks
broken = takes 1 (
    lock_call pid_of (remove_stale true) 1
      (asks 2 (reads 2 (asks 1 (reads 1 (exit_process pid_of 70 taken))))))

-- Then 2 breaks the lock of 1 and takes it too: both have it.
broken-shared :
    (let last = takes 2 (lock_call pid_of (remove_stale true) 2 broken) in
      (last.phase 1 ≡ holding) × (last.phase 2 ≡ holding))
unfolding lock_call exit_process
broken-shared = (refl, refl)

-- Thread 1 reads the process id 70. Thread 0 drops the lock, its process ends, and 2 takes the lock.
abbrev overtaken : Locks
overtaken = takes 2 (exit_process pid_of 70 (lock_call pid_of (drop_lock true) 0 (reads 1 taken)))

-- Then 1 asks about process 70, breaks the lock of 2 and takes it: both have it.
overtaken-shared :
    (let last = takes 1 (lock_call pid_of (remove_stale true) 1 (asks 1 overtaken)) in
      (last.phase 1 ≡ holding) × (last.phase 2 ≡ holding))
unfolding lock_call exit_process
overtaken-shared = (refl, refl)

-- The attempts before the fourth are refused.
fourth : ℕ → Result Bool
fourth (suc (suc (suc attempt))) = ok true
fourth attempt = ok false

mutation_lock-waits :
    (mutation_lock fourth ≡ ok tt)
    × (mutation_lock (λ attempt. ok false) ≡ err "timed out waiting for storage lock")
unfolding mutation_lock fourth
mutation_lock-waits = (refl, refl)
