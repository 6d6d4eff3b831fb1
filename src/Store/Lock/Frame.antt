-- ===== src/Store/Lock/Frame.antt =====
-- stonr/src/storage.rs: one thread goes on, and the mutation lock is still in order.
use stonr.Base.{
  ℕ, ◌≡◌, ◌≢◌, refl, sym, subst, ◌⊎◌, inl, inr, ◌∙◌, true, false, none, some, arith, nat_eq,
  nat_eq_iff, Bool-cases,
}
use stonr.Store.Lock.{
  LockPath, absent, read_lock_owner_pid, Phase, idle, found, listed, asking, breaking, created,
  holding, Locks, go_on,
}
use stonr.Store.Lock.Reach.{Owns, is_inside, asked, IsExclusive}

module _ (pid_of : ℕ → ℕ) where
  pub Owns-path :
      (pid : ℕ) (path next : LockPath) (phase : Phase)
      → Owns pid path phase
      → is_inside phase ≡ false
      → Owns pid next phase
  unfolding Owns is_inside
  Owns-path pid path next idle h outside = tt
  Owns-path pid path next found h outside = tt
  Owns-path pid path next listed h outside = tt
  Owns-path pid path next (asking owner) h outside = tt
  Owns-path pid path next breaking h outside = h
  Owns-path pid path next created h outside = ground arith
  Owns-path pid path next holding h outside = ground arith

  pub absent-outside :
      (pid : ℕ) (path : LockPath) (phase : Phase)
      → Owns pid path phase
      → path ≡ absent
      → is_inside phase ≡ false
  unfolding Owns is_inside
  absent-outside pid path idle h none_there = refl
  absent-outside pid path found h none_there = refl
  absent-outside pid path listed h none_there = refl
  absent-outside pid path (asking owner) h none_there = refl
  absent-outside pid path breaking h none_there = refl
  absent-outside pid path created h none_there = ground arith
  absent-outside pid path holding h none_there = ground arith

  go_on-inside :
      (thread : ℕ) (path : LockPath) (phase : Phase) (locks : Locks) (other : ℕ)
      → is_inside ((go_on thread path phase locks).phase other) ≡ true
      → ((thread ≡ other) × (is_inside phase ≡ true)) ⊎ (is_inside (locks.phase other) ≡ true)
  unfolding go_on
  go_on-inside thread path phase locks other h = ground arith

  -- A thread goes on, and the path changes only where no other thread is inside.
  pub go_on-IsExclusive :
      (thread : ℕ) (path : LockPath) (phase : Phase) (locks : Locks)
      → IsExclusive pid_of locks
      → Owns (pid_of thread) path phase
      → ((pid : ℕ) → read_lock_owner_pid path ≡ some pid → locks.is_running pid ≡ true)
      → ((pid : ℕ) → asked phase ≡ some pid → locks.is_running pid ≡ true)
      → ((other : ℕ) → thread ≢ other → Owns (pid_of other) path (locks.phase other))
      → (is_inside phase ≡ true
          → (other : ℕ) → is_inside (locks.phase other) ≡ true
          → thread ≡ other)
      → IsExclusive pid_of (go_on thread path phase locks)
  unfolding go_on
  go_on-IsExclusive thread path phase locks good mine named asks others first = record {
    named = named;
    asked_of = λ other pid. elim (Bool-cases (nat_eq thread other)) [
      | inl e ↦ rw e (asks pid)
      | inr e ↦ rw e (good.asked_of other pid)
    ];
    owned = λ other. elim (Bool-cases (nat_eq thread other)) [
      | inl e ↦ rw e (subst (λ t. Owns (pid_of t) path phase) ((nat_eq_iff thread other).0 e) mine)
      | inr e ↦ rw e (others other (λ same. ground arith))
    ];
    alone = λ a b in_a in_b. elim (go_on-inside thread path phase locks a in_a) [
      | inl (at_a, new) ↦ elim (go_on-inside thread path phase locks b in_b) [
        | inl (at_b, _) ↦ sym at_a ∙ at_b
        | inr old_b ↦ sym at_a ∙ first new b old_b
      ]
      | inr old_a ↦ elim (go_on-inside thread path phase locks b in_b) [
        | inl (at_b, new) ↦ sym (first new a old_a) ∙ at_b
        | inr old_b ↦ good.alone a b old_a old_b
      ]
    ];
  }

  -- The thread that is inside goes on; every other is outside.
  pub leave-IsExclusive :
      (thread : ℕ) (path : LockPath) (phase : Phase) (locks : Locks)
      → IsExclusive pid_of locks
      → is_inside (locks.phase thread) ≡ true
      → Owns (pid_of thread) path phase
      → ((pid : ℕ) → read_lock_owner_pid path ≡ some pid → locks.is_running pid ≡ true)
      → asked phase ≡ none
      → IsExclusive pid_of (go_on thread path phase locks)
  leave-IsExclusive thread path phase locks good inside mine named none_asked =
      go_on-IsExclusive thread path phase locks good mine named (λ pid h. absurd (cc))
        (λ other differ.
          Owns-path (pid_of other) locks.path path (locks.phase other) (good.owned other)
            (elim (Bool-cases (is_inside (locks.phase other))) [
              | inl e ↦ absurd (differ (good.alone thread other inside e))
              | inr e ↦ e
            ]))
        (λ _ other in_other. good.alone thread other inside in_other)

  -- A thread that waits leaves the path as it is.
  pub stay-IsExclusive :
      (thread : ℕ) (phase : Phase) (locks : Locks)
      → IsExclusive pid_of locks
      → Owns (pid_of thread) locks.path phase
      → is_inside phase ≡ false
      → ((pid : ℕ) → asked phase ≡ some pid → locks.is_running pid ≡ true)
      → IsExclusive pid_of (go_on thread locks.path phase locks)
  stay-IsExclusive thread phase locks good mine outside asks =
      go_on-IsExclusive thread locks.path phase locks good mine good.named asks
        (λ other _. good.owned other) (λ inside. absurd (ground arith))
