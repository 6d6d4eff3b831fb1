-- ===== src/Store/Read/Loading.antt =====
-- The events that a list of ids is loaded to.
use mathlib.Core.Option
use stonr.Base.{
  String, true, Option, none, some, List, [], ◌∷◌, In, All, ok, ◌≡◌, refl, arith, inl, inr, ◌⊎◌,
  Bool-cases, ◌==◌,
}
use stonr.Event.{Event}
use stonr.Query.{has_text}
use stonr.Store.{Disk, EventFile}
use stonr.Store.Consistent.{stored, has_text_iff}
use stonr.Store.Index.{event_path}
use stonr.Store.Read.{lookup, add_event, load_event, load_events, load_all_events}

-- An id that the path of a file can be made of.
abbrev pub IsSliced : String → Type 0
IsSliced id = (path : String × String × String) × (event_path id ≡ ok path)

found : Disk → List String → List Event
found disk [] = []
found disk (id ∷ ids) = add_event (stored disk id) (found disk ids)

load_events-found :
    (disk : Disk) (ids : List String)
    → All IsSliced ids
    → load_events disk ids ≡ ok (found disk ids)
unfolding load_events found load_event stored
load_events-found disk [] h = refl
load_events-found disk (id ∷ ids) ((path, sliced), h) = rw (sliced, load_events-found disk ids h)

pub In-add_event :
    (event : Event) (o : Option Event) (events : List Event)
    → In event (add_event o events)
    → (o ≡ some event) ⊎ In event events
unfolding add_event
In-add_event event none events h = inr h
In-add_event event (some e) events (inl same) = inl (rw same)
In-add_event event (some e) events (inr h) = inr h

In-of_add_event :
    (event : Event) (o : Option Event) (events : List Event)
    → (o ≡ some event) ⊎ In event events
    → In event (add_event o events)
unfolding add_event
In-of_add_event event none events (inl same) = cc
In-of_add_event event none events (inr h) = h
In-of_add_event event (some e) events (inl same) = inl (cc)
In-of_add_event event (some e) events (inr h) = inr h

In-found :
    (disk : Disk) (event : Event) (ids : List String)
    → In event (found disk ids)
    → (id : String) × In id ids × (stored disk id ≡ some event)
unfolding found
In-found disk event [] h = absurd h
In-found disk event (id ∷ ids) h = elim (In-add_event event (stored disk id) (found disk ids) h) [
  | inl here ↦ (id, inl refl, here)
  | inr later ↦ let (i, m, s) = In-found disk event ids later in (i, inr m, s)
]

In-of_found :
    (disk : Disk) (event : Event) (id : String) (ids : List String)
    → In id ids
    → stored disk id ≡ some event
    → In event (found disk ids)
unfolding found
In-of_found disk event id [] m s = absurd m
In-of_found disk event id (i ∷ ids) (inl e) s = In-of_add_event event _ _ (inl (rw (← e) s))
In-of_found disk event id (i ∷ ids) (inr m) s =
    In-of_add_event event _ _ (inr (In-of_found disk event id ids m s))

-- Where every id can be a path, the events of the ids that are stored are loaded, and no other.
pub load_events_exact :
    (disk : Disk) (ids : List String)
    → All IsSliced ids
    → (events : List Event) × (load_events disk ids ≡ ok events)
      × ((event : Event)
          → In event events
          → (id : String) × (has_text ids id ≡ true) × (stored disk id ≡ some event))
      × ((event : Event) (id : String)
          → has_text ids id ≡ true
          → stored disk id ≡ some event
          → In event events)
load_events_exact disk ids h = (
  found disk ids,
  load_events-found disk ids h,
  λ event m.
      let (id, listed, s) = In-found disk event ids m in (id, (has_text_iff ids id).1 listed, s),
  λ event id listed s. In-of_found disk event id ids ((has_text_iff ids id).0 listed) s,
)

-- The walk over all files gives the stored events, where no two files have one name.
pub load_all_events_exact :
    (files : List (String × EventFile)) (event : Event)
    → In event (load_all_events files)
    → (id : String) × (file : EventFile) × In (id, file) files × (file.body ≡ some event)
unfolding load_all_events
load_all_events_exact [] event h = absurd h
load_all_events_exact ((name, file) ∷ files) event h =
    elim (In-add_event event file.body (load_all_events files) h) [
      | inl here ↦ (name, file, inl refl, here)
      | inr later ↦ let (i, f, m, b) = load_all_events_exact files event later in (i, f, inr m, b)
    ]

pub In-load_all_events :
    (id : String) (event : Event) (files : List (String × EventFile))
    → Option.bind (lookup id files) (λ file. file.body) ≡ some event
    → In event (load_all_events files)
unfolding load_all_events lookup Option.bind
In-load_all_events id event [] h = absurd (cc)
In-load_all_events id event ((name, file) ∷ files) h =
    In-of_add_event event file.body (load_all_events files) (elim (Bool-cases (name == id)) [
      | inl here ↦ inl (ground arith)
      | inr other ↦ inr (In-load_all_events id event files (ground arith))
    ])
