-- ===== src/Base/Dict.antt =====
-- Named things in the order in which they were added: the files of a directory that is walked, and
-- maps from texts.
use stonr.Base.Tests.{if◌then◌else◌, Bool-cases}
use stonr.Base.Lists.{All, In}
use Prim.Native.String.{String}
use mathlib.Core.Path.{◌≡◌, refl, subst}
use mathlib.Core.Logic.{◌≢◌, inl, inr}
use mathlib.Core.Option.{Option, none, some}
use mathlib.Core.List.{List, [], ◌∷◌}
use native.Mathlib.Omega.{arith}
use text.Mathlib.Text.{◌==◌}
use text.Mathlib.TextEquality.{eq_iff}

abbrev pub Dict {ℓ} : Type ℓ → Type ℓ
Dict V = List (String × V)

module _ {ℓ} {V : Type ℓ} where
  unfoldable pub find : String → Dict V → Option V
  find key [] = none
  find key ((name, value) ∷ dict) = if name == key then some value else find key dict

  -- A new name comes last; a known one keeps its place.
  unfoldable pub put : String → V → Dict V → Dict V
  put key value [] = (key, value) ∷ []
  put key value (entry ∷ dict) =
      let rest = put key value dict in if entry.0 == key then (key, value) ∷ dict else entry ∷ rest

  unfoldable pub erase : String → Dict V → Dict V
  erase key [] = []
  erase key (entry ∷ dict) =
      let rest = erase key dict in if entry.0 == key then dict else entry ∷ rest

  abbrev pub Lacks : String → Dict V → Type 0
  Lacks key dict = All (λ entry. entry.0 ≢ key) dict

  -- No name stands twice.
  abbrev pub IsMap : Dict V → Type 0
  IsMap [] = Unit
  IsMap (entry ∷ dict) = Lacks entry.0 dict × IsMap dict

  pub find-put_self :
      (key : String) (value : V) (dict : Dict V) → find key (put key value dict) ≡ some value
  unfolding find put
  find-put_self key value [] = ground (arith, eq_iff key key)
  find-put_self key value (entry ∷ dict) =
      ground (arith, eq_iff key key, find-put_self key value dict)

  pub find-put_ne :
      (other key : String) (value : V) (dict : Dict V)
      → key ≢ other
      → find other (put key value dict) ≡ find other dict
  unfolding find put
  find-put_ne other key value [] ne = ground (arith, eq_iff key other)
  find-put_ne other key value (entry ∷ dict) ne =
      ground (arith, eq_iff key other, eq_iff entry.0 key, find-put_ne other key value dict ne)

  pub find-erase_ne :
      (other key : String) (dict : Dict V)
      → key ≢ other
      → find other (erase key dict) ≡ find other dict
  unfolding find erase
  find-erase_ne other key [] ne = refl
  find-erase_ne other key (entry ∷ dict) ne =
      ground (arith, eq_iff entry.0 key, eq_iff entry.0 other, find-erase_ne other key dict ne)

  pub find_of_Lacks : (key : String) (dict : Dict V) → Lacks key dict → find key dict ≡ none
  unfolding find
  find_of_Lacks key [] h = refl
  find_of_Lacks key (entry ∷ dict) (ne, h) =
      ground (arith, eq_iff entry.0 key, find_of_Lacks key dict h)

  pub Lacks-of_find : (key : String) (dict : Dict V) → find key dict ≡ none → Lacks key dict
  unfolding find
  Lacks-of_find key [] h = tt
  Lacks-of_find key ((name, value) ∷ dict) h =
      ((λ e. ground (arith, eq_iff name key)), Lacks-of_find key dict (ground arith))

  pub find-erase_self :
      (key : String) (dict : Dict V) → IsMap dict → find key (erase key dict) ≡ none
  unfolding find erase
  find-erase_self key [] d = refl
  find-erase_self key (entry ∷ dict) (h, d) = elim (Bool-cases (entry.0 == key)) [
    | inl same ↦
        rw same (find_of_Lacks key dict (subst (λ k. Lacks k dict) ((eq_iff entry.0 key).0 same) h))
    | inr other ↦ ground (arith, find-erase_self key dict d)
  ]

  Lacks-put :
      (other key : String) (value : V) (dict : Dict V)
      → key ≢ other
      → Lacks other dict
      → Lacks other (put key value dict)
  unfolding put
  Lacks-put other key value [] ne h = (ne, tt)
  Lacks-put other key value (entry ∷ dict) ne (n, h) = elim (Bool-cases (entry.0 == key)) [
    | inl same ↦ rw same (ne, h)
    | inr different ↦ rw different (n, Lacks-put other key value dict ne h)
  ]

  Lacks-erase :
      (other key : String) (dict : Dict V) → Lacks other dict → Lacks other (erase key dict)
  unfolding erase
  Lacks-erase other key [] h = tt
  Lacks-erase other key (entry ∷ dict) (n, h) = elim (Bool-cases (entry.0 == key)) [
    | inl same ↦ rw same h
    | inr different ↦ rw different (n, Lacks-erase other key dict h)
  ]

  pub put-IsMap :
      (key : String) (value : V) (dict : Dict V) → IsMap dict → IsMap (put key value dict)
  unfolding put
  put-IsMap key value [] d = (tt, tt)
  put-IsMap key value (entry ∷ dict) (h, d) = elim (Bool-cases (entry.0 == key)) [
    | inl same ↦ rw same (subst (λ k. Lacks k dict) ((eq_iff entry.0 key).0 same) h, d)
    | inr different ↦ rw different (
      Lacks-put entry.0 key value dict (λ e. ground (arith, eq_iff entry.0 key)) h,
      put-IsMap key value dict d,
    )
  ]

  pub erase-IsMap : (key : String) (dict : Dict V) → IsMap dict → IsMap (erase key dict)
  unfolding erase
  erase-IsMap key [] d = tt
  erase-IsMap key (entry ∷ dict) (h, d) = elim (Bool-cases (entry.0 == key)) [
    | inl same ↦ rw same d
    | inr different ↦ rw different (Lacks-erase entry.0 key dict h, erase-IsMap key dict d)
  ]

  pub find-put :
      (other key : String) (value : V) (dict : Dict V)
      → find other (put key value dict) ≡ (if key == other then some value else find other dict)
  find-put other key value dict = elim (Bool-cases (key == other)) [
    | inl same ↦ rw same (
        subst (λ k. find k (put key value dict) ≡ some value) ((eq_iff key other).0 same)
          (find-put_self key value dict))
    | inr different ↦ ground (arith, eq_iff key other, find-put_ne other key value dict)
  ]

  pub find-erase :
      (other key : String) (dict : Dict V)
      → IsMap dict
      → find other (erase key dict) ≡ (if key == other then none else find other dict)
  find-erase other key dict d = elim (Bool-cases (key == other)) [
    | inl same ↦ rw same (
        subst (λ k. find k (erase key dict) ≡ none) ((eq_iff key other).0 same)
          (find-erase_self key dict d))
    | inr different ↦ ground (arith, eq_iff key other, find-erase_ne other key dict)
  ]

-- What is found under a key is an entry of the map.
pub find-In :
    {V : Type 0} (key : String) (value : V) (dict : Dict V)
    → find key dict ≡ some value
    → In (key, value) dict
unfolding find
find-In key value [] h = absurd (cc h)
find-In key value ((name, other) ∷ dict) h = elim (Bool-cases (name == key)) [
  | inl same ↦ inl (ground (arith, eq_iff name key))
  | inr different ↦ inr (find-In key value dict (ground arith))
]
