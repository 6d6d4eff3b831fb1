-- ===== src/Store/Read/Complete.antt =====
-- The `retain` of `filter_sort_and_limit` in stonr/src/storage.rs, and the events that it drops.
use stonr.Base.{
  String, true, some, List, [], ◌∷◌, ◌==◌, In, All, ◌≡◌, refl, sym, eq_iff, arith, Bool-cases, inl,
  inr, ◌⊎◌,
}
use stonr.Base.Sort.{IsSorted}
use stonr.Event.{Event, event_address}
use stonr.Query.{has_text}
use stonr.Store.Read.{newest_first, first_of_address}
use stonr.Store.Read.Answers.{StandsFor, head, plain, old, fresh}

pub All-In :
    (P : Event → Type 0) (e : Event) (events : List Event) → All P events → In e events → P e
All-In P e [] h m = absurd m
All-In P e (f ∷ events) (p, h) (inl same) = rw same p
All-In P e (f ∷ events) (p, h) (inr m) = All-In P e events h m

-- An event of the result stands for `e`.
abbrev pub HasStandIn : Event → List Event → Type 0
HasStandIn e events = (f : Event) × In f events × StandsFor f e

-- The address of `e` was seen before.
abbrev WasSeen : List String → Event → Type 0
WasSeen seen e =
    (address : String) × (event_address e ≡ some address) × (has_text seen address ≡ true)

later : (e g : Event) (events : List Event) → HasStandIn e events → HasStandIn e (g ∷ events)
later e g events (f, m, s) = (f, inr m, s)

complete_from :
    (e : Event) (seen : List String) (events : List Event)
    → IsSorted newest_first events
    → In e events
    → HasStandIn e (first_of_address seen events) ⊎ WasSeen seen e
unfolding first_of_address has_text
complete_from e seen [] s m = absurd m
complete_from e seen (g ∷ events) (a, s) (inl here) = elim (head seen g events) [
  | plain _ eq ↦ inl (rw eq (g, inl refl, inl (sym here)))
  | old address at_g known eq ↦ inr (address, rw here at_g, known)
  | fresh address at_g new eq ↦ inl (rw eq (g, inl refl, inl (sym here)))
]
complete_from e seen (g ∷ events) (a, s) (inr m) = elim (head seen g events) [
  | plain _ eq ↦ elim (complete_from e seen events s m) [
    | inl kept ↦ inl (rw eq (later e g _ kept))
    | inr known ↦ inr known
  ]
  | old _ _ _ eq ↦ elim (complete_from e seen events s m) [
    | inl kept ↦ inl (rw eq kept)
    | inr known ↦ inr known
  ]
  | fresh address at_g new eq ↦ elim (complete_from e (address ∷ seen) events s m) [
    | inl kept ↦ inl (rw eq (later e g _ kept))
    | inr (other, at_e, known) ↦ elim (Bool-cases (address == other)) [
      | inl same ↦
          let at_e' : event_address e ≡ some address = rw ((eq_iff address other).0 same) at_e in
          inl (
            rw eq (
              g,
              inl refl,
              inr (address, at_g, at_e', All-In (λ f. newest_first g f ≡ true) e events a m),
            ))
      | inr different ↦ inr (other, at_e, ground arith)
    ]
  ]
]

pub first_of_address-complete :
    (e : Event) (events : List Event)
    → IsSorted newest_first events
    → In e events
    → HasStandIn e (first_of_address [] events)
unfolding has_text
first_of_address-complete e events s m = elim (complete_from e [] events s m) [
  | inl kept ↦ kept
  | inr (_, _, seen) ↦ absurd (cc)
]
