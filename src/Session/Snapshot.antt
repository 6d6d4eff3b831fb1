-- ===== src/Session/Snapshot.antt =====
-- `snapshot_events` of stonr/src/ws.rs: ids, order and origin of its events.
use mathlib.Core.Path.{subst}
use stonr.Base.{
  ℕ, String, true, false, List, [], ◌∷◌, ◌++◌, ◌==◌, any, In, In-append, In-append_left,
  In-append_right, All, AllPairs, ok, >>=-eq-ok, ok-injective, ◌≡◌, ◌≢◌, ◌⊎◌, refl, sym, ap, ◌∙◌,
  arith, eq_iff, inl, inr, Bool-cases, All-append_one,
}
use stonr.Base.Sort.{IsSorted, sort_by-IsSorted, AllPairs-sort_by, In-sort_by, In-of_sort_by}
use stonr.Event.{Event}
use stonr.External.{External}
use stonr.Query.{Query}
use stonr.Store.{Disk}
use stonr.Store.Read.{query_with_policy}
use stonr.Session.{Service, push_unseen, later_first, collect, snapshot_events}

-- No two events have one id.
abbrev pub HasDistinctIds : List Event → Type 0
HasDistinctIds = AllPairs (λ a b. a.id ≢ b.id)

unseen :
    (id : String) (events : List Event)
    → any (λ seen. seen.id == id) events ≡ false
    → All (λ e. e.id ≢ id) events
unseen id [] h = tt
unseen id (e ∷ events) h =
    ((λ same. ground (arith, eq_iff e.id id)), unseen id events (ground arith))

append-distinct_ids :
    (events : List Event) (event : Event)
    → HasDistinctIds events
    → All (λ e. e.id ≢ event.id) events
    → HasDistinctIds (events ++ event ∷ [])
append-distinct_ids [] event d a = (tt, tt)
append-distinct_ids (e ∷ events) event (h, d) (n, a) = (
  All-append_one (λ other. e.id ≢ other.id) events event h n,
  append-distinct_ids events event d a,
)

push_unseen-distinct :
    (more events : List Event) → HasDistinctIds events → HasDistinctIds (push_unseen events more)
unfolding push_unseen
push_unseen-distinct [] events d = d
push_unseen-distinct (event ∷ more) events d =
    elim (Bool-cases (any (λ seen. seen.id == event.id) events)) [
      | inl old ↦ rw old (push_unseen-distinct more events d)
      | inr fresh ↦ rw fresh (
          push_unseen-distinct more (events ++ event ∷ [])
            (append-distinct_ids events event d (unseen event.id events fresh)))
    ]

In-push_unseen :
    (e : Event) (more events : List Event)
    → In e (push_unseen events more)
    → In e events ⊎ In e more
unfolding push_unseen
In-push_unseen e [] events m = inl m
In-push_unseen e (event ∷ more) events m =
    elim (Bool-cases (any (λ seen. seen.id == event.id) events)) [
      | inl old ↦ elim (In-push_unseen e more events (rw old at m)) [
        | inl l ↦ inl l
        | inr r ↦ inr (inr r)
      ]
      | inr fresh ↦ elim (In-push_unseen e more (events ++ event ∷ []) (rw fresh at m)) [
        | inl l ↦ elim (In-append e events (event ∷ []) l) [
          | inl before ↦ inl before
          | inr one ↦ elim one [ inl same ↦ inr (inl same) | inr m' ↦ absurd m' ]
        ]
        | inr r ↦ inr (inr r)
      ]
    ]

-- Some event of the list has the id.
abbrev pub HasId : String → List Event → Type 0
HasId id events = (e : Event) × In e events × (e.id ≡ id)

seen-HasId :
    (id : String) (events : List Event)
    → any (λ seen. seen.id == id) events ≡ true
    → HasId id events
seen-HasId id [] h = absurd (cc)
seen-HasId id (e ∷ events) h = elim (Bool-cases (e.id == id)) [
  | inl here ↦ (e, inl refl, (eq_iff e.id id).0 here)
  | inr other ↦ let (found, m, same) = seen-HasId id events (ground arith) in (found, inr m, same)
]

push_unseen-keeps :
    (e : Event) (more events : List Event) → In e events → In e (push_unseen events more)
unfolding push_unseen
push_unseen-keeps e [] events m = m
push_unseen-keeps e (event ∷ more) events m =
    elim (Bool-cases (any (λ seen. seen.id == event.id) events)) [
      | inl old ↦ rw old (push_unseen-keeps e more events m)
      | inr fresh ↦
          rw fresh (
            push_unseen-keeps e more (events ++ event ∷ [])
              (In-append_left e events (event ∷ []) m))
    ]

-- Every event that is pushed is there, or another with its id.
push_unseen-HasId :
    (e : Event) (more events : List Event) → In e more → HasId e.id (push_unseen events more)
unfolding push_unseen
push_unseen-HasId e [] events m = absurd m
push_unseen-HasId e (event ∷ more) events (inr m) =
    elim (Bool-cases (any (λ seen. seen.id == event.id) events)) [
      | inl old ↦ rw old (push_unseen-HasId e more events m)
      | inr fresh ↦ rw fresh (push_unseen-HasId e more (events ++ event ∷ []) m)
    ]
push_unseen-HasId e (event ∷ more) events (inl is_it) =
    elim (Bool-cases (any (λ seen. seen.id == event.id) events)) [
      | inl old ↦
          let (found, m, same) = seen-HasId event.id events old in
          rw old (
            found,
            push_unseen-keeps found more events m,
            same ∙ ap (λ (a : Event). a.id) (sym is_it),
          )
      | inr fresh ↦ rw fresh (
        event,
        push_unseen-keeps event more (events ++ event ∷ [])
            (In-append_right event events (event ∷ []) (inl refl)),
        ap (λ (a : Event). a.id) (sym is_it),
      )
    ]

module _ ⦃x : External⦄ where
  -- The event is in the answer of the store to one of the filters.
  abbrev pub Answers : Service → Disk → ℕ → List Query → Event → Type 0
  Answers service disk now filters e =
      (q : Query) × In q filters
      × (answer : List Event) × (query_with_policy service.store disk now q
            service.access.support_nip09 service.access.support_nip40
          ≡ ok answer)
      × In e answer

  collect-distinct :
      (service : Service) (disk : Disk) (now : ℕ) (filters : List Query) (events : List Event)
      {all : List Event}
      → HasDistinctIds events
      → collect service disk now events filters ≡ ok all
      → HasDistinctIds all
        × ((e : Event) → In e all → In e events ⊎ Answers service disk now filters e)
  unfolding collect
  collect-distinct service disk now [] events d h =
      let same = ok-injective h in
      (subst HasDistinctIds same d, λ e m. inl (subst (λ l. In e l) (sym same) m))
  collect-distinct service disk now (filter ∷ filters) events d h =
      let (answer, run, rest) =
        >>=-eq-ok
          (query_with_policy service.store disk now filter service.access.support_nip09
            service.access.support_nip40)
          _ h in
      let (distinct, origin) =
        collect-distinct service disk now filters (push_unseen events answer)
          (push_unseen-distinct answer events d) rest in
      (
        distinct,
        λ e m. elim (origin e m) [
          | inl here ↦ elim (In-push_unseen e answer events here) [
            | inl before ↦ inl before
            | inr new ↦ inr (filter, inl refl, answer, run, new)
          ]
          | inr (q, listed, found, asked, among) ↦ inr (q, inr listed, found, asked, among)
        ],
      )

  collect-keeps :
      (service : Service) (disk : Disk) (now : ℕ) (filters : List Query) (events : List Event)
      {all : List Event} (e : Event)
      → collect service disk now events filters ≡ ok all
      → In e events
      → In e all
  unfolding collect
  collect-keeps service disk now [] events e h m = subst (λ l. In e l) (ok-injective h) m
  collect-keeps service disk now (filter ∷ filters) events e h m =
      let (answer, _, rest) =
        >>=-eq-ok
          (query_with_policy service.store disk now filter service.access.support_nip09
            service.access.support_nip40)
          _ h in
      collect-keeps service disk now filters (push_unseen events answer) e rest
        (push_unseen-keeps e answer events m)

  collect-HasId :
      (service : Service) (disk : Disk) (now : ℕ) (filters : List Query) (events : List Event)
      {all : List Event} (e : Event)
      → collect service disk now events filters ≡ ok all
      → Answers service disk now filters e
      → HasId e.id all
  unfolding collect
  collect-HasId service disk now [] events e h (q, listed, found, asked, among) = absurd listed
  collect-HasId service disk now (filter ∷ filters) events e h (q, listed, found, asked, among) =
      let (answer, run, rest) =
        >>=-eq-ok
          (query_with_policy service.store disk now filter service.access.support_nip09
            service.access.support_nip40)
          _ h in
      elim listed [
        | inr later ↦
            collect-HasId service disk now filters (push_unseen events answer) e rest
              (q, later, found, asked, among)
        | inl first ↦
            let same : found ≡ answer = ok-injective (
              sym asked
              ∙ ap
                  (λ f.
                    query_with_policy service.store disk now f service.access.support_nip09
                      service.access.support_nip40)
                  first
              ∙ run) in
            let (held, m, is_it) =
              push_unseen-HasId e answer events (subst (λ l. In e l) same among) in
            (
              held,
              collect-keeps service disk now filters (push_unseen events answer) held rest m,
              is_it,
            )
      ]

  later_first_total : (a b : Event) → later_first a b ≡ false → later_first b a ≡ true
  unfolding later_first
  later_first_total a b h = ground arith

  later_first_trans :
      (a b c : Event) → later_first a b ≡ true → later_first b c ≡ true → later_first a c ≡ true
  unfolding later_first
  later_first_trans a b c h k = ground arith

  -- The snapshot for a list of filters holds every event that the store's answer to one of the
  -- filters holds, or another with its id, and no other events; no id twice, however many filters
  -- an event matches; and later events first.
  pub snapshot_events-distinct :
      (service : Service) (disk : Disk) (now : ℕ) (filters : List Query) {events : List Event}
      → snapshot_events service disk now filters ≡ ok events
      → HasDistinctIds events
        × IsSorted later_first events
        × ((e : Event) → In e events → Answers service disk now filters e)
        × ((e : Event) → Answers service disk now filters e → HasId e.id events)
  unfolding snapshot_events
  snapshot_events-distinct service disk now filters h =
      let (all, run, sorted) = >>=-eq-ok (collect service disk now [] filters) _ h in
      let (distinct, origin) = collect-distinct service disk now filters [] tt run in
      let same = ok-injective sorted in
      (
        subst HasDistinctIds same
            (AllPairs-sort_by later_first (λ a b. a.id ≢ b.id) all (λ a b n e. n (sym e)) distinct),
        subst (IsSorted later_first) same
            (sort_by-IsSorted later_first later_first_total later_first_trans all),
        λ e m.
            let m' = In-of_sort_by later_first e all (subst (λ l. In e l) (sym same) m) in
            elim (origin e m') [ inl none_yet ↦ absurd none_yet | inr answers ↦ answers ],
        λ e answers.
            let (held, m, is_it) = collect-HasId service disk now filters [] e run answers in
            (held, subst (λ l. In held l) same (In-sort_by later_first held all m), is_it),
      )
