-- ===== src/Store/Read/Shape.antt =====
-- The answer of a query on any disk: its order, its addresses, its length, and when it panics.
use mathlib.Core.Path.{subst}
use stonr.Base.{
  ℕ, ◌≤◌, Bool, true, Option, none, some, List, [], ◌∷◌, All, zero, suc, Result, ok, err, panic,
  ◌>>=◌, >>=-eq-ok, ok-injective, ◌≡◌, refl, arith, length, length-take-le, take, keep,
}
use stonr.Base.Sort.{IsSorted, sort_by, sort_by-IsSorted}
use stonr.Event.{Event, event_address}
use stonr.External.{External}
use stonr.Query.{Query}
use stonr.Store.{Store, Disk}
use stonr.Store.Read.{
  passes, newest_first, first_of_address, truncate, filter_sort_and_limit, query_candidates,
  id_sets, query_with_policy,
}
use stonr.Store.Read.Answers.{
  newest_first_total, newest_first_trans, HasDistinctAddresses, first_of_address-distinct,
  first_of_address-IsSorted,
}

All-take : (P : Event → Type 0) (n : ℕ) (events : List Event) → All P events → All P (take n events)
unfolding take
All-take P zero events h = tt
All-take P (suc n) [] h = tt
All-take P (suc n) (e ∷ events) (p, h) = (p, All-take P n events h)

take-IsSorted :
    (n : ℕ) (events : List Event)
    → IsSorted newest_first events
    → IsSorted newest_first (take n events)
unfolding take
take-IsSorted zero events s = tt
take-IsSorted (suc n) [] s = tt
take-IsSorted (suc n) (e ∷ events) (a, s) =
    (All-take (λ f. newest_first e f ≡ true) n events a, take-IsSorted n events s)

take-distinct :
    (n : ℕ) (events : List Event)
    → HasDistinctAddresses events
    → HasDistinctAddresses (take n events)
unfolding take
take-distinct zero events s = tt
take-distinct (suc n) [] s = tt
take-distinct (suc n) (e ∷ events) (free, s) = (
  (λ address at. All-take (λ f. event_address f ≡ some address → ⊥) n events (free address at)),
  take-distinct n events s,
)

-- In order, one event to an address, and no longer than the limit.
abbrev pub HasShape : Option ℕ → List Event → Type 0
HasShape limit events =
    IsSorted newest_first events
    × HasDistinctAddresses events
    × ((n : ℕ) → limit ≡ some n → length events ≤ n)

truncate-HasShape :
    (limit : Option ℕ) (events : List Event)
    → IsSorted newest_first events
    → HasDistinctAddresses events
    → HasShape limit (truncate limit events)
truncate-HasShape none events s d = (s, d, λ n e. absurd (cc))
truncate-HasShape (some limit) events s d = (
  take-IsSorted limit events s,
  take-distinct limit events d,
  λ n e. ground (arith, length-take-le limit events),
)

bind-ok :
    (r : Result (List Event)) (f g : List Event → List Event)
    → (r >>= λ events. ok (g (f events)))
      ≡ ((r >>= λ events. ok (f events)) >>= λ events. ok (g events))
bind-ok (ok events) f g = refl
bind-ok (err e) f g = refl
bind-ok panic f g = refl

module _ ⦃x : External⦄ where
  -- Whatever is on the disk, the answer of a query is in order of time and then of id, newest
  -- first, holds at most one event of each address, and no more events than the limit.
  pub query_with_policy-HasShape :
      (store : Store) (disk : Disk) (now : ℕ) (q : Query) (deletes expires : Bool)
      {events : List Event}
      → query_with_policy store disk now q deletes expires ≡ ok events
      → HasShape q.limit events
  unfolding query_with_policy filter_sort_and_limit
  query_with_policy-HasShape store disk now q deletes expires h =
      let (candidates, search, same) = >>=-eq-ok (query_candidates disk q) _ h in
      let filtered = keep (passes store disk now deletes expires q) candidates in
      let sorted = sort_by-IsSorted newest_first newest_first_total newest_first_trans filtered in
      subst (HasShape q.limit) (ok-injective same) (
        truncate-HasShape q.limit (first_of_address [] (sort_by newest_first filtered))
          (first_of_address-IsSorted [] _ sorted) (first_of_address-distinct [] _))

  -- A limit takes the front of the answer that the query has without it.
  pub query_with_policy-limit :
      (store : Store) (disk : Disk) (now : ℕ) (q : Query) (deletes expires : Bool)
      → query_with_policy store disk now q deletes expires ≡ (
          query_with_policy store disk now (record q { limit = none }) deletes expires >>= λ events.
          ok (truncate q.limit events))
  unfolding query_with_policy filter_sort_and_limit query_candidates id_sets passes
  query_with_policy-limit store disk now q deletes expires =
      bind-ok (query_candidates disk q)
        (λ events.
          first_of_address []
            (sort_by newest_first (keep (passes store disk now deletes expires q) events)))
        (truncate q.limit)
