-- ===== src/Store/Lock/Exclusion.antt =====
-- stonr/src/storage.rs: who holds the mutation lock, whatever the order of the threads' calls.
use stonr.Base.{ℕ, ◌≤◌, ◌^◌, ◌-◌, ◌≡◌, ap, subst, ◌∙◌, some, arith}
use stonr.Store.Lock.{read_lock_owner_pid, holding, Locks}
use stonr.Store.Lock.Reach.{
  read_lock_owner_pid-write, Owns, is_inside, asked, LockReach, unlocked, calls, ends, IsExclusive,
}
use stonr.Store.Lock.Steps.{exit_process-IsExclusive, lock_call-IsExclusive}

module _ (pid_of : ℕ → ℕ) (small : (thread : ℕ) → pid_of thread ≤ 2 ^ 32 - 1) where
  LockReach-IsExclusive : (locks : Locks) → LockReach pid_of locks → IsExclusive pid_of locks
  unfolding Owns is_inside asked read_lock_owner_pid
  LockReach-IsExclusive locks unlocked = record {
    named = λ pid h. absurd (ground arith);
    asked_of = λ thread pid h. absurd (ground arith);
    owned = λ thread. tt;
    alone = λ a b in_a in_b. absurd (ground arith);
  }
  LockReach-IsExclusive locks (calls thread call reach runs at timely) =
      lock_call-IsExclusive pid_of call thread _ (small thread) runs at
        (LockReach-IsExclusive _ reach) timely
  LockReach-IsExclusive locks (ends pid reach differ unasked) =
      exit_process-IsExclusive pid_of pid _ (LockReach-IsExclusive _ reach) differ unasked

  -- From a lock that nobody has, with process ids that fit a `u32`: at most one thread has the lock,
  -- whatever the order of the threads' calls, whichever of them fail and whichever processes end,
  -- and where one has it the lock names its process; while no process ends that the lock names, or
  -- whose id some thread has just read from the lock and not asked the system about yet, and while
  -- no thread that read no process id finds its metadata of the lock older than the time limit.
  pub mutation_lock-exclusive :
      (locks : Locks)
      → LockReach pid_of locks
      → (a : ℕ) → locks.phase a ≡ holding
      → (read_lock_owner_pid locks.path ≡ some (pid_of a))
        × ((b : ℕ) → locks.phase b ≡ holding → a ≡ b)
  unfolding Owns is_inside
  mutation_lock-exclusive locks reach a has = (
    ap read_lock_owner_pid (subst (Owns (pid_of a) locks.path) has (good.owned a))
        ∙ read_lock_owner_pid-write (pid_of a) (small a),
    λ b has_b. good.alone a b (ap is_inside has) (ap is_inside has_b),
  )
    where
      good : IsExclusive pid_of locks
      good = LockReach-IsExclusive locks reach
