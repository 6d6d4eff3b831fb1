-- ===== src/Store/Retention/Prune.antt =====
-- What the loop of `enforce_retention_from_records` keeps and removes, and the totals at its end.
use stonr.Base.{
  ℕ, ◌+◌, ◌-◌, ◌^◌, ◌<◌, Bool, true, false, List, [], ◌∷◌, ◌++◌, ◌&&◌, not, keep, length, In, All,
  ◌≡◌, ◌≢◌, ◌⊎◌, refl, sym, ap, arith, inl, inr, Bool-cases,
}
use mathlib.Core.Path.{subst}
use stonr.Store.{Store, StoredEventRecord}
use stonr.Store.Retention.{prune, total_size}
use stonr.Store.Retention.Records.{HasDistinctPaths}
use stonr.Store.Status.{retention_limits_exceeded}
use stonr.Store.Visibility.{event_is_retention_protected}

-- The sum of the sizes, as a number without bound.
abbrev pub bytes_of : List StoredEventRecord → ℕ
bytes_of [] = 0
bytes_of (r ∷ records) = r.size_bytes + bytes_of records

abbrev pub is_protected : Store → StoredEventRecord → Bool
is_protected store r = event_is_retention_protected store r.event

-- A list shared out over two, in order.
pub data Split
    : List StoredEventRecord → List StoredEventRecord → List StoredEventRecord → Type 0 where
  done : Split [] [] []
  keeps :
      {r : StoredEventRecord} {rs ks ds : List StoredEventRecord}
      → Split rs ks ds
      → Split (r ∷ rs) (r ∷ ks) ds
  removes :
      {r : StoredEventRecord} {rs ks ds : List StoredEventRecord}
      → Split rs ks ds
      → Split (r ∷ rs) ks (r ∷ ds)

pub Split-covers :
    {rs ks ds : List StoredEventRecord}
    → Split rs ks ds
    → (r : StoredEventRecord) → In r rs
    → In r ks ⊎ In r ds
Split-covers done r m = absurd m
Split-covers (keeps s) r (inl e) = inl (inl e)
Split-covers (keeps s) r (inr m) = elim (Split-covers s r m) [ inl k ↦ inl (inr k) | inr d ↦ inr d ]
Split-covers (removes s) r (inl e) = inr (inl e)
Split-covers (removes s) r (inr m) = elim (Split-covers s r m) [
  | inl k ↦ inl k
  | inr d ↦ inr (inr d)
]

pub Split-kept :
    {rs ks ds : List StoredEventRecord}
    → Split rs ks ds
    → (r : StoredEventRecord) → In r ks
    → In r rs
Split-kept done r m = m
Split-kept (keeps s) r (inl e) = inl e
Split-kept (keeps s) r (inr m) = inr (Split-kept s r m)
Split-kept (removes s) r m = inr (Split-kept s r m)

pub Split-removed :
    {rs ks ds : List StoredEventRecord}
    → Split rs ks ds
    → (r : StoredEventRecord) → In r ds
    → In r rs
Split-removed done r m = m
Split-removed (removes s) r (inl e) = inl e
Split-removed (removes s) r (inr m) = inr (Split-removed s r m)
Split-removed (keeps s) r m = inr (Split-removed s r m)

All-In :
    (P : StoredEventRecord → Type 0) (rs : List StoredEventRecord)
    → All P rs
    → (r : StoredEventRecord) → In r rs
    → P r
All-In P [] a r m = absurd m
All-In P (q ∷ rs) (h, a) r (inl e) = subst P (sym e) h
All-In P (q ∷ rs) (h, a) r (inr m) = All-In P rs a r m

-- What is kept and what is removed have no path in common.
pub Split-apart :
    {rs ks ds : List StoredEventRecord}
    → Split rs ks ds
    → HasDistinctPaths rs
    → (k d : StoredEventRecord) → In k ks
    → In d ds
    → k.path ≢ d.path
Split-apart done h k d m n = absurd m
Split-apart (keeps {r} {rs} s) (a, h) k d (inl e) n =
    subst (λ q. q.path ≢ d.path) (sym e)
      (All-In (λ q. r.path ≢ q.path) rs a d (Split-removed s d n))
Split-apart (keeps s) (a, h) k d (inr m) n = Split-apart s h k d m n
Split-apart (removes {r} {rs} s) (a, h) k d m (inl e) =
    subst (λ q. k.path ≢ q.path) (sym e)
      (λ same. All-In (λ q. r.path ≢ q.path) rs a k (Split-kept s k m) (sym same))
Split-apart (removes s) (a, h) k d m (inr n) = Split-apart s h k d m n

pub prune-Split :
    (store : Store) (events bytes : ℕ) (records : List StoredEventRecord)
    → let pruned = prune store events bytes records in Split records pruned.kept pruned.removed
unfolding prune
prune-Split store events bytes [] = done
prune-Split store events bytes (r ∷ records) =
    elim (Bool-cases (retention_limits_exceeded store events bytes && not (is_protected store r))) [
      | inl goes ↦ rw goes (removes (prune-Split store (events - 1) (bytes - r.size_bytes) records))
      | inr stays ↦ rw stays (keeps (prune-Split store events bytes records))
    ]

-- Totals that hold for the records hold for those kept.
pub prune-totals :
    (store : Store) (events bytes : ℕ) (records : List StoredEventRecord) (more more_bytes : ℕ)
    → events ≡ length records + more
    → bytes ≡ bytes_of records + more_bytes
    → let pruned = prune store events bytes records in
      (pruned.total_events ≡ length pruned.kept + more)
      × (pruned.total_bytes ≡ bytes_of pruned.kept + more_bytes)
unfolding prune
prune-totals store events bytes [] more more_bytes e b = (e, b)
prune-totals store events bytes (r ∷ records) more more_bytes e b =
    elim (Bool-cases (retention_limits_exceeded store events bytes && not (is_protected store r))) [
      | inl goes ↦ rw goes (
          prune-totals store (events - 1) (bytes - r.size_bytes) records more more_bytes
            (omega (arith, e)) (omega (arith, b)))
      | inr stays ↦
          let (e', b') =
            prune-totals store events bytes records (more + 1) (more_bytes + r.size_bytes)
              (omega (arith, e)) (omega (arith, b)) in
          rw stays (omega (arith, e'), omega (arith, b'))
    ]

-- Where the limits are met, everything is kept.
prune-within :
    (store : Store) (events bytes : ℕ) (records : List StoredEventRecord)
    → retention_limits_exceeded store events bytes ≡ false
    → prune store events bytes records
      ≡ record { kept = records; removed = []; total_events = events; total_bytes = bytes }
unfolding prune
prune-within store events bytes [] h = refl
prune-within store events bytes (r ∷ records) h =
    let later = prune-within store events bytes records h in ground (arith, later, h)

-- Either the totals at the end are within the limits, or all that is kept is protected.
pub prune-limits :
    (store : Store) (events bytes : ℕ) (records : List StoredEventRecord)
    → let pruned = prune store events bytes records in
      (retention_limits_exceeded store pruned.total_events pruned.total_bytes ≡ false)
      ⊎ All (λ r. is_protected store r ≡ true) pruned.kept
unfolding prune
prune-limits store events bytes [] = inr tt
prune-limits store events bytes (r ∷ records) =
    elim (Bool-cases (retention_limits_exceeded store events bytes && not (is_protected store r))) [
      | inl goes ↦ rw goes (prune-limits store (events - 1) (bytes - r.size_bytes) records)
      | inr stays ↦ rw stays (elim (Bool-cases (retention_limits_exceeded store events bytes)) [
        | inl over ↦ elim (prune-limits store events bytes records) [
          | inl within ↦ inl within
          | inr all ↦ inr (ground arith, all)
        ]
        | inr within ↦ inl (rw (prune-within store events bytes records within) within)
      ])
    ]

cons-parts :
    {q g : StoredEventRecord} {records gone : List StoredEventRecord}
    → ◌≡◌ {A = List StoredEventRecord} (q ∷ records) (g ∷ gone)
    → (q ≡ g) × (records ≡ gone)
cons-parts h = (cc, cc)

-- A removed record goes only while the limits are exceeded without those that went before it.
pub prune-needed :
    (store : Store) (events bytes : ℕ) (records gone rest : List StoredEventRecord)
    (r : StoredEventRecord)
    → (prune store events bytes records).removed ≡ gone ++ r ∷ rest
    → retention_limits_exceeded store (events - length gone) (bytes - bytes_of gone) ≡ true
unfolding prune
prune-needed store events bytes [] [] rest r h = absurd (cc)
prune-needed store events bytes [] (g ∷ gone) rest r h = absurd (cc)
prune-needed store events bytes (q ∷ records) [] rest r h =
    elim (Bool-cases (retention_limits_exceeded store events bytes && not (is_protected store q))) [
      | inr stays ↦ prune-needed store events bytes records [] rest r (rw stays at h)
      | inl goes ↦ ground (arith, goes)
    ]
prune-needed store events bytes (q ∷ records) (g ∷ gone) rest r h =
    elim (Bool-cases (retention_limits_exceeded store events bytes && not (is_protected store q))) [
      | inr stays ↦ prune-needed store events bytes records (g ∷ gone) rest r (rw stays at h)
      | inl goes ↦
          let (same, tail) = cons-parts (rw goes at h) in
          let sizes : q.size_bytes ≡ g.size_bytes =
            ap (λ (n : StoredEventRecord). n.size_bytes) same in
          let one_less : events - length (g ∷ gone) ≡ events - 1 - length gone = omega arith in
          let less : bytes - bytes_of (g ∷ gone) ≡ bytes - q.size_bytes - bytes_of gone =
            omega (arith, sizes) in
          subst (λ n. retention_limits_exceeded store n (bytes - bytes_of (g ∷ gone)) ≡ true)
            (sym one_less)
            (subst (λ b. retention_limits_exceeded store (events - 1 - length gone) b ≡ true)
              (sym less)
              (prune-needed store (events - 1) (bytes - q.size_bytes) records gone rest r tail))
    ]

-- The loop removes the unprotected records of an oldest part, and keeps all the others.
pub prune-prefix :
    (store : Store) (events bytes : ℕ) (records : List StoredEventRecord)
    → let pruned = prune store events bytes records in
      (oldest newest : List StoredEventRecord) × (records ≡ oldest ++ newest)
      × (pruned.removed ≡ keep (λ r. not (is_protected store r)) oldest)
      × (pruned.kept ≡ keep (is_protected store) oldest ++ newest)
unfolding prune keep
prune-prefix store events bytes [] = ([], [], refl, refl, refl)
prune-prefix store events bytes (r ∷ records) =
    elim (Bool-cases (retention_limits_exceeded store events bytes)) [
      | inr within ↦
          let all = prune-within store events bytes records within in
          ([], r ∷ records, refl, ground (arith, all), ground (arith, all))
      | inl over ↦ elim (Bool-cases (is_protected store r)) [
        | inl safe ↦
            let (old, new, whole, gone, stay) = prune-prefix store events bytes records in
            (r ∷ old, new, ground (arith, whole), ground (arith, gone), ground (arith, stay))
        | inr free ↦
            let (old, new, whole, gone, stay) =
              prune-prefix store (events - 1) (bytes - r.size_bytes) records in
            (r ∷ old, new, ground (arith, whole), ground (arith, gone), ground (arith, stay))
      ]
    ]

-- The totals that the loop starts from are exact where the sum of the sizes is a `u64`.
pub total_size-exact :
    (records : List StoredEventRecord)
    → bytes_of records < 2 ^ 64
    → total_size records ≡ bytes_of records
unfolding total_size
total_size-exact [] h = refl
total_size-exact (r ∷ records) h = omega (arith, total_size-exact records (omega (arith, h)))
