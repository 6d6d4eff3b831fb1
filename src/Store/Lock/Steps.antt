-- ===== src/Store/Lock/Steps.antt =====
-- stonr/src/storage.rs: every call of a thread keeps the mutation lock in order.
use stonr.Base.{
  ℕ, ◌≤◌, ◌^◌, ◌-◌, ◌≡◌, ◌≢◌, refl, sym, ap, subst, inl, inr, ◌∙◌, Bool, true, false, Option, none,
  some, arith, nat_eq, nat_eq_iff, if◌then◌else◌, Bool-cases,
}
use stonr.Store.Lock.{
  mutation_lock_stale_after, LockPath, absent, plain_file, directory, read_lock_owner_pid,
  write_lock_owner_pid, older_than, break_owned, remove_dir_all, Phase, idle, found, listed, asking,
  created, holding, Locks, LockCall, create_dir, read_metadata, read_owner, ask_owner, remove_stale,
  write_owner, drop_lock, go_on, remove_if, after_create, after_write, lock_call, exit_process,
}
use stonr.Store.Lock.Reach.{
  read_lock_owner_pid-write, Owns, is_inside, asked, NotStale, InTime, IsExclusive,
}
use stonr.Store.Lock.Frame.{
  Owns-path, absent-outside, go_on-IsExclusive, leave-IsExclusive, stay-IsExclusive,
}

break_owned-NotStale :
    (is_running : ℕ → Bool) (elapsed owner : Option ℕ)
    → ((pid : ℕ) → owner ≡ some pid → is_running pid ≡ true)
    → (owner ≡ none → NotStale elapsed)
    → break_owned is_running mutation_lock_stale_after elapsed owner ≡ false
unfolding break_owned older_than NotStale
break_owned-NotStale is_running none none running timely = refl
break_owned-NotStale is_running (some age) none running timely = ground (arith, timely refl)
break_owned-NotStale is_running elapsed (some pid) running timely = ground (arith, running pid refl)

module _ (pid_of : ℕ → ℕ) where
  create-IsExclusive :
      (thread : ℕ) (path : LockPath) (locks : Locks)
      → IsExclusive pid_of locks
      → locks.path ≡ path
      → IsExclusive pid_of (after_create thread path locks)
  unfolding after_create Owns is_inside asked read_lock_owner_pid
  create-IsExclusive thread absent locks good e =
      go_on-IsExclusive pid_of thread (directory none) created locks good refl
        (λ pid h. absurd (ground arith)) (λ pid h. absurd (ground arith))
        (λ other _.
          Owns-path pid_of (pid_of other) locks.path (directory none) (locks.phase other)
            (good.owned other) (outside other))
        (λ _ other inside. absurd (ground (arith, outside other)))
    where
      outside : (other : ℕ) → is_inside (locks.phase other) ≡ false
      outside other = absent-outside pid_of (pid_of other) locks.path _ (good.owned other) e
  create-IsExclusive thread plain_file locks good e =
      subst (λ p. IsExclusive pid_of (go_on thread p found locks)) e
        (stay-IsExclusive pid_of thread found locks good tt refl (λ pid h. absurd (ground arith)))
  create-IsExclusive thread (directory owner) locks good e =
      subst (λ p. IsExclusive pid_of (go_on thread p found locks)) e
        (stay-IsExclusive pid_of thread found locks good tt refl (λ pid h. absurd (ground arith)))

  remove_if-named :
      (done : Bool) (path : LockPath) (pid : ℕ)
      → read_lock_owner_pid (remove_if done path) ≡ some pid
      → read_lock_owner_pid path ≡ some pid
  unfolding remove_dir_all read_lock_owner_pid
  remove_if-named false path pid h = h
  remove_if-named true absent pid h = h
  remove_if-named true plain_file pid h = h
  remove_if-named true (directory owner) pid h = absurd (ground arith)

  -- The thread that is inside gives the lock up, or fails to.
  give_up-IsExclusive :
      (thread : ℕ) (done : Bool) (locks : Locks)
      → IsExclusive pid_of locks
      → is_inside (locks.phase thread) ≡ true
      → IsExclusive pid_of (go_on thread (remove_if done locks.path) idle locks)
  unfolding Owns asked
  give_up-IsExclusive thread done locks good inside =
      leave-IsExclusive pid_of thread (remove_if done locks.path) idle locks good inside tt
        (λ pid h. good.named pid (remove_if-named done locks.path pid h)) refl

  pub exit_process-IsExclusive :
      (pid : ℕ) (locks : Locks)
      → IsExclusive pid_of locks
      → read_lock_owner_pid locks.path ≢ some pid
      → ((thread : ℕ) → asked (locks.phase thread) ≢ some pid)
      → IsExclusive pid_of (exit_process pid_of pid locks)
  unfolding exit_process
  exit_process-IsExclusive pid locks good differ unasked = record {
    named = λ other h. elim (Bool-cases (nat_eq pid other)) [
      | inl e ↦ absurd (differ (h ∙ ap some (sym ((nat_eq_iff pid other).0 e))))
      | inr e ↦ rw e (good.named other h)
    ];
    asked_of = λ thread other h. elim (Bool-cases (nat_eq pid other)) [
      | inl e ↦ absurd (unasked thread (h ∙ ap some (sym ((nat_eq_iff pid other).0 e))))
      | inr e ↦ rw e (good.asked_of thread other h)
    ];
    owned = good.owned;
    alone = good.alone;
  }

  write-IsExclusive :
      (thread : ℕ) (written removed : Bool) (path : LockPath) (locks : Locks)
      → IsExclusive pid_of locks
      → is_inside (locks.phase thread) ≡ true
      → pid_of thread ≤ 2 ^ 32 - 1
      → locks.is_running (pid_of thread) ≡ true
      → path ≡ directory none
      → IsExclusive pid_of (
          after_write thread removed
            (if written then write_lock_owner_pid (pid_of thread) path else none)
            locks)
  unfolding after_write write_lock_owner_pid Owns asked
  write-IsExclusive thread false removed path locks good inside small runs e =
      give_up-IsExclusive thread removed locks good inside
  write-IsExclusive thread true removed (directory owner) locks good inside small runs e =
      leave-IsExclusive pid_of thread _ holding locks good inside refl
        (λ pid h. ground (arith, read_lock_owner_pid-write (pid_of thread) small)) refl
  write-IsExclusive thread true removed absent locks good inside small runs e =
      give_up-IsExclusive thread removed locks good inside
  write-IsExclusive thread true removed plain_file locks good inside small runs e =
      give_up-IsExclusive thread removed locks good inside

  pub lock_call-IsExclusive :
      {phase : Phase} (call : LockCall phase) (thread : ℕ) (locks : Locks)
      → pid_of thread ≤ 2 ^ 32 - 1
      → locks.is_running (pid_of thread) ≡ true
      → locks.phase thread ≡ phase
      → IsExclusive pid_of locks
      → InTime call
      → IsExclusive pid_of (lock_call pid_of call thread locks)
  unfolding lock_call Owns is_inside asked InTime
  lock_call-IsExclusive create_dir thread locks small runs at good timely =
      create-IsExclusive thread locks.path locks good refl
  lock_call-IsExclusive (read_metadata true) thread locks small runs at good timely =
      stay-IsExclusive pid_of thread listed locks good tt refl (λ pid h. absurd (ground arith))
  lock_call-IsExclusive (read_metadata false) thread locks small runs at good timely =
      stay-IsExclusive pid_of thread idle locks good tt refl (λ pid h. absurd (ground arith))
  lock_call-IsExclusive read_owner thread locks small runs at good timely =
      stay-IsExclusive pid_of thread (asking (read_lock_owner_pid locks.path)) locks good tt refl
        good.named
  lock_call-IsExclusive (ask_owner {owner} elapsed) thread locks small runs at good timely =
      rw
        (break_owned-NotStale locks.is_running elapsed owner
          (λ pid h. good.asked_of thread pid (ap asked at ∙ h)) timely)
        (stay-IsExclusive pid_of thread idle locks good tt refl (λ pid h. absurd (ground arith)))
  lock_call-IsExclusive (remove_stale done) thread locks small runs at good timely =
      absurd (subst (Owns (pid_of thread) locks.path) at (good.owned thread))
  lock_call-IsExclusive (write_owner written removed) thread locks small runs at good timely =
      write-IsExclusive thread written removed locks.path locks good (ap is_inside at) small runs
        (subst (Owns (pid_of thread) locks.path) at (good.owned thread))
  lock_call-IsExclusive (drop_lock done) thread locks small runs at good timely =
      give_up-IsExclusive thread done locks good (ap is_inside at)
