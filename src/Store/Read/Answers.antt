-- ===== src/Store/Read/Answers.antt =====
-- What `filter_sort_and_limit` makes of the candidates: order, one event to an address, the limit.
use stonr.Base.{
  String, true, false, none, some, List, [], ◌∷◌, In, All, ◌≡◌, eq_iff, arith, Bool-cases,
  Option-cases, inl, inr, ◌⊎◌,
}
use stonr.Base.Sort.{IsSorted}
use stonr.Base.TextOrder.{str_leb_total, str_leb_trans}
use stonr.Event.{Event, event_address}
use stonr.Query.{has_text}
use stonr.Store.Read.{newest_first, first_of_address}

pub newest_first_total : (a b : Event) → newest_first a b ≡ false → newest_first b a ≡ true
unfolding newest_first
newest_first_total a b h = ground (arith, str_leb_total b.id a.id)

pub newest_first_trans :
    (a b c : Event) → newest_first a b ≡ true → newest_first b c ≡ true → newest_first a c ≡ true
unfolding newest_first
newest_first_trans a b c h k = ground (arith, str_leb_trans c.id b.id a.id)

-- The event stands for the other: it is the other, or it has the same address and is not older.
abbrev pub StandsFor : Event → Event → Type 0
StandsFor f e =
    (f ≡ e)
    ⊎ ((address : String) × (event_address f ≡ some address)
        × (event_address e ≡ some address)
        × (newest_first f e ≡ true))

-- No event has the address.
abbrev pub IsFree : String → List Event → Type 0
IsFree address events = All (λ e. event_address e ≡ some address → ⊥) events

-- No two events have one address.
abbrev pub HasDistinctAddresses : List Event → Type 0
HasDistinctAddresses [] = Unit
HasDistinctAddresses (e ∷ events) =
    ((address : String) → event_address e ≡ some address → IsFree address events)
    × HasDistinctAddresses events

-- The three ways in which the first event is treated.
pub data Head (seen : List String) (e : Event) (events : List Event) : Type 0 where
  plain :
      event_address e ≡ none
      → first_of_address seen (e ∷ events) ≡ e ∷ first_of_address seen events
      → Head seen e events
  old :
      (address : String)
      → event_address e ≡ some address
      → has_text seen address ≡ true
      → first_of_address seen (e ∷ events) ≡ first_of_address seen events
      → Head seen e events
  fresh :
      (address : String)
      → event_address e ≡ some address
      → has_text seen address ≡ false
      → first_of_address seen (e ∷ events) ≡ e ∷ first_of_address (address ∷ seen) events
      → Head seen e events

pub head : (seen : List String) (e : Event) (events : List Event) → Head seen e events
unfolding first_of_address
head seen e events = elim (Option-cases (event_address e)) [
  | inl h ↦ plain h (ground arith)
  | inr (address, h) ↦ elim (Bool-cases (has_text seen address)) [
    | inl k ↦ old address h k (ground arith)
    | inr k ↦ fresh address h k (ground arith)
  ]
]

pub All-first_of_address :
    (P : Event → Type 0) (seen : List String) (events : List Event)
    → All P events
    → All P (first_of_address seen events)
unfolding first_of_address
All-first_of_address P seen [] h = tt
All-first_of_address P seen (e ∷ events) (p, h) = elim (head seen e events) [
  | plain _ eq ↦ rw eq (p, All-first_of_address P seen events h)
  | old _ _ _ eq ↦ rw eq (All-first_of_address P seen events h)
  | fresh address _ _ eq ↦ rw eq (p, All-first_of_address P (address ∷ seen) events h)
]

pub In-first_of_address :
    (e : Event) (seen : List String) (events : List Event)
    → In e (first_of_address seen events)
    → In e events
unfolding first_of_address
In-first_of_address e seen [] m = m
In-first_of_address e seen (f ∷ events) m = elim (head seen f events) [
  | plain _ eq ↦ elim (let m' : In e (f ∷ first_of_address seen events) = rw eq at m in m') [
    | inl here ↦ inl here
    | inr later ↦ inr (In-first_of_address e seen events later)
  ]
  | old _ _ _ eq ↦ inr (In-first_of_address e seen events (rw eq at m))
  | fresh address _ _ eq ↦
      elim (let m' : In e (f ∷ first_of_address (address ∷ seen) events) = rw eq at m in m') [
        | inl here ↦ inl here
        | inr later ↦ inr (In-first_of_address e (address ∷ seen) events later)
      ]
]

-- An address that was seen does not come again.
seen-IsFree :
    (address : String) (seen : List String) (events : List Event)
    → has_text seen address ≡ true
    → IsFree address (first_of_address seen events)
unfolding first_of_address has_text
seen-IsFree address seen [] h = tt
seen-IsFree address seen (e ∷ events) h = elim (head seen e events) [
  | plain none_e eq ↦ rw eq ((λ a. cc), seen-IsFree address seen events h)
  | old _ _ _ eq ↦ rw eq (seen-IsFree address seen events h)
  | fresh other at_e new eq ↦ rw eq (
    (λ a. ground (arith, eq_iff address other)),
    seen-IsFree address (other ∷ seen) events (ground arith),
  )
]

pub first_of_address-distinct :
    (seen : List String) (events : List Event) → HasDistinctAddresses (first_of_address seen events)
unfolding first_of_address has_text
first_of_address-distinct seen [] = tt
first_of_address-distinct seen (e ∷ events) = elim (head seen e events) [
  | plain none_e eq ↦ rw eq ((λ address a. absurd (cc)), first_of_address-distinct seen events)
  | old _ _ _ eq ↦ rw eq (first_of_address-distinct seen events)
  | fresh other at_e new eq ↦ rw eq (
    (λ address a. seen-IsFree address (other ∷ seen) events (ground (arith, eq_iff other address))),
    first_of_address-distinct (other ∷ seen) events,
  )
]

pub first_of_address-IsSorted :
    (seen : List String) (events : List Event)
    → IsSorted newest_first events
    → IsSorted newest_first (first_of_address seen events)
unfolding first_of_address
first_of_address-IsSorted seen [] s = tt
first_of_address-IsSorted seen (e ∷ events) (a, s) = elim (head seen e events) [
  | plain _ eq ↦ rw eq (
    All-first_of_address (λ f. newest_first e f ≡ true) seen events a,
    first_of_address-IsSorted seen events s,
  )
  | old _ _ _ eq ↦ rw eq (first_of_address-IsSorted seen events s)
  | fresh other _ _ eq ↦ rw eq (
    All-first_of_address (λ f. newest_first e f ≡ true) (other ∷ seen) events a,
    first_of_address-IsSorted (other ∷ seen) events s,
  )
]
