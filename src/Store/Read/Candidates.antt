-- ===== src/Store/Read/Candidates.antt =====
-- `query_candidates` of stonr/src/storage.rs, and the events that a filter selects.
use mathlib.Core.Option
use mathlib.Core.Path.{subst}
use stonr.Base.{
  String, Bool, true, Option, none, some, List, [], ◌∷◌, ◌++◌, map, In, All, Result, ok, ◌≡◌, ◌∙◌,
  sym, refl, arith, Bool-cases, Option-cases, inl, inr,
}
use stonr.Event.{Event}
use stonr.External.{External}
use stonr.Query.{Query, has_text}
use stonr.Store.{Disk, EventFile, IndexKey, by_author, by_kind}
use stonr.Store.Consistent.{stored, IsConsistent, has_text-append, has_text_iff, In-lookup}
use stonr.Store.Read.{
  load_ids, tag_keys, id_sets, optional, to_set, intersect_all, candidates_of, query_candidates,
  load_all_events,
}
use stonr.Store.Read.Loading.{
  IsSliced, load_events_exact, load_all_events_exact, In-load_all_events,
}
use stonr.Store.Read.Matching.{selects, HashesApart, in_all-id_sets}
use stonr.Store.Read.Sets.{in_all, has_text-to_set, has_text-intersect_all}

-- Every id that the filter names can be made a path.
abbrev pub HasSlicedIds : Option (List String) → Type 0
HasSlicedIds none = Unit
HasSlicedIds (some ids) = All IsSliced ids

-- Every id of a set can be made a path.
abbrev AreSliced : List String → Type 0
AreSliced set = (id : String) → has_text set id ≡ true → IsSliced id

All-AreSliced :
    (a b : List (List String)) → All AreSliced a → All AreSliced b → All AreSliced (a ++ b)
All-AreSliced [] b h k = k
All-AreSliced (s ∷ a) b (h, hs) k = (h, All-AreSliced a b hs k)

In-IsSliced : (ids : List String) (id : String) → All IsSliced ids → In id ids → IsSliced id
In-IsSliced [] id h m = absurd m
In-IsSliced (i ∷ ids) id (h, hs) (inl e) = rw e h
In-IsSliced (i ∷ ids) id (h, hs) (inr m) = In-IsSliced ids id hs m

All-of_AreSliced : (ids : List String) → AreSliced ids → All IsSliced ids
unfolding has_text
All-of_AreSliced ids h = go ids (λ id m. h id ((has_text_iff ids id).1 m))
  where
    go : (l : List String) → ((id : String) → In id l → IsSliced id) → All IsSliced l
    go [] k = tt
    go (i ∷ l) k = (k i (inl refl), go l (λ id m. k id (inr m)))

module _ ⦃x : External⦄ (disk : Disk) (c : IsConsistent disk) where
  load_ids-AreSliced : (keys : List IndexKey) → AreSliced (load_ids disk keys)
  unfolding load_ids has_text
  load_ids-AreSliced [] id h = absurd (cc)
  load_ids-AreSliced (key ∷ keys) id h = elim (Bool-cases (has_text (disk.index key) id)) [
    | inl here ↦ elim (Option-cases (stored disk id)) [
      | inl missing ↦ absurd (ground (arith, c.indexed key id))
      | inr (event, s) ↦ c.sliced id event s
    ]
    | inr later ↦
        load_ids-AreSliced keys id
          (ground (arith, has_text-append (disk.index key) (load_ids disk keys) id))
  ]

  optional-AreSliced :
      {A : Type 0} (o : Option A) (sets : A → List String)
      → ((a : A) → AreSliced (sets a))
      → All AreSliced (optional o sets)
  optional-AreSliced none sets h = tt
  optional-AreSliced (some a) sets h = (h a, tt)

  tags-AreSliced :
      (wanted : List (String × List String))
      → All AreSliced (map (λ w. load_ids disk (tag_keys w.0 w.1)) wanted)
  tags-AreSliced [] = tt
  tags-AreSliced (w ∷ wanted) = (load_ids-AreSliced (tag_keys w.0 w.1), tags-AreSliced wanted)

  ids-AreSliced :
      (o : Option (List String)) → HasSlicedIds o → All AreSliced (optional o (λ ids. ids))
  ids-AreSliced none h = tt
  ids-AreSliced (some ids) h = (λ id m. In-IsSliced ids id h ((has_text_iff ids id).0 m), tt)

  id_sets-AreSliced : (q : Query) → HasSlicedIds q.ids → All AreSliced (id_sets disk q)
  unfolding id_sets
  id_sets-AreSliced q h = All-AreSliced _ _ (ids-AreSliced q.ids h) (
      All-AreSliced _ _ (optional-AreSliced q.authors _ (λ a. load_ids-AreSliced (map by_author a)))
        (All-AreSliced _ _ (optional-AreSliced q.kinds _ (λ k. load_ids-AreSliced (map by_kind k)))
          (All-AreSliced _ _
            (optional-AreSliced q.d _ (λ d. load_ids-AreSliced (tag_keys "d" (d ∷ []))))
            (All-AreSliced _ _
              (optional-AreSliced q.t _ (λ t. load_ids-AreSliced (tag_keys "t" (t ∷ []))))
              (tags-AreSliced q.tags)))))

  -- The result of the candidate search: exactly the stored events that pass a test.
  abbrev pub Gives : Result (List Event) → (Event → Bool) → Type 0
  Gives result test =
      (events : List Event) × (result ≡ ok events)
      × ((event : Event)
          → In event events
          → (stored disk event.id ≡ some event) × (test event ≡ true))
      × ((event : Event) → stored disk event.id ≡ some event → test event ≡ true → In event events)

  -- A file that holds an event is the file of that event's id.
  listed-stored :
      (id : String) (file : EventFile) (event : Event)
      → In (id, file) disk.events
      → file.body ≡ some event
      → stored disk id ≡ some event
  unfolding stored Option.bind
  listed-stored id file event m b = rw (In-lookup id file disk.events c.distinct m, Option.bind) b

  stored_own :
      (id : String) (event : Event)
      → stored disk id ≡ some event
      → stored disk event.id ≡ some event
  stored_own id event s = subst (λ i. stored disk i ≡ some event) (sym (c.named id event s)) s

  set-in_all :
      (ids : List String) (sets : List (List String)) (id : String)
      → has_text (to_set (intersect_all ids sets)) id ≡ in_all (ids ∷ sets) id
  set-in_all ids sets id = has_text-to_set _ id ∙ has_text-intersect_all ids sets id

  first_true :
      (ids : List String) (sets : List (List String)) (id : String)
      → in_all (ids ∷ sets) id ≡ true
      → has_text ids id ≡ true
  unfolding in_all
  first_true ids sets id h = ground arith

  walk-Gives :
      (test : Event → Bool)
      → ((id : String) (event : Event) → stored disk id ≡ some event → true ≡ test event)
      → Gives (ok (load_all_events disk.events)) test
  unfolding stored
  walk-Gives test exact = (
    load_all_events disk.events,
    refl,
    λ event m.
        let (id, file, listed, b) = load_all_events_exact disk.events event m in
        let s = listed-stored id file event listed b in
        (stored_own id event s, sym (exact id event s)),
    λ event s t. In-load_all_events event.id event disk.events s,
  )

  candidates_of-exact :
      (sets : List (List String)) (test : Event → Bool)
      → All AreSliced sets
      → ((id : String) (event : Event) → stored disk id ≡ some event → in_all sets id ≡ test event)
      → Gives (candidates_of disk sets) test
  unfolding candidates_of in_all
  candidates_of-exact [] test sliced exact = walk-Gives test exact
  candidates_of-exact (ids ∷ sets) test (sliced, _) exact =
      let set = to_set (intersect_all ids sets) in
      let paths =
        All-of_AreSliced set
          (λ id h. sliced id (first_true ids sets id (sym (set-in_all ids sets id) ∙ h))) in
      let (events, loads, sound, complete) = load_events_exact disk set paths in
      (
        events,
        loads,
        λ event m.
            let (id, listed, s) = sound event m in
            (stored_own id event s, sym (exact id event s) ∙ sym (set-in_all ids sets id) ∙ listed),
        λ event s t.
            complete event event.id (set-in_all ids sets event.id ∙ exact event.id event s ∙ t) s,
      )

  -- Without an id that cannot be made a path, the search returns exactly the stored events that
  -- the filter selects.
  pub query_candidates-exact :
      (q : Query)
      → HashesApart disk q
      → HasSlicedIds q.ids
      → Gives (query_candidates disk q) (selects q)
  unfolding query_candidates
  query_candidates-exact q apart h =
      candidates_of-exact (id_sets disk q) (selects q) (id_sets-AreSliced q h)
        (λ id event s. in_all-id_sets disk id event c s q apart)
