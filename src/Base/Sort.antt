-- ===== src/Base/Sort.antt =====
-- A stable sort by a test "not after", which is what `sort_by` computes, and its two laws.
use mathlib.Core.Path.{◌≡◌}
use mathlib.Core.Logic.{◌⊎◌, inl, inr}
use mathlib.Core.Bool.{Bool, true, false}
use mathlib.Core.List.{List, [], ◌∷◌}
use stonr.Base.Tests.{if◌then◌else◌, Bool-cases}
use stonr.Base.Lists.{In, All, AllPairs}

module _ {A : Type 0} (le : A → A → Bool) where
  unfoldable pub insert_by : A → List A → List A
  insert_by x [] = x ∷ []
  insert_by x (y ∷ ys) = let later = y ∷ insert_by x ys in if le x y then x ∷ y ∷ ys else later

  -- An element stays in front of those that are equal to it and came later.
  unfoldable pub sort_by : List A → List A
  unfolding insert_by
  sort_by [] = []
  sort_by (x ∷ xs) = insert_by x (sort_by xs)

  abbrev pub IsSorted : List A → Type 0
  IsSorted [] = Unit
  IsSorted (x ∷ xs) = All (λ y. le x y ≡ true) xs × IsSorted xs

  In-insert_by : (a x : A) (ys : List A) → (a ≡ x) ⊎ In a ys → In a (insert_by x ys)
  unfolding insert_by
  In-insert_by a x [] (inl e) = inl e
  In-insert_by a x [] (inr m) = absurd m
  In-insert_by a x (y ∷ ys) h = elim (Bool-cases (le x y)) [
    | inl t ↦ rw t h
    | inr f ↦ rw f (elim h [
      | inl e ↦ inr (In-insert_by a x ys (inl e))
      | inr m ↦ elim m [ inl e ↦ inl e | inr m' ↦ inr (In-insert_by a x ys (inr m')) ]
    ])
  ]

  In-of_insert_by : (a x : A) (ys : List A) → In a (insert_by x ys) → (a ≡ x) ⊎ In a ys
  unfolding insert_by
  In-of_insert_by a x [] h = h
  In-of_insert_by a x (y ∷ ys) h = elim (Bool-cases (le x y)) [
    | inl t ↦ rw t at h
    | inr f ↦ elim (let h' : In a (y ∷ insert_by x ys) = rw f at h in h') [
      | inl e ↦ inr (inl e)
      | inr m ↦ elim (In-of_insert_by a x ys m) [ inl e ↦ inl e | inr m' ↦ inr (inr m') ]
    ]
  ]

  -- Sorting loses no element and makes none.
  pub In-sort_by : (a : A) (xs : List A) → In a xs → In a (sort_by xs)
  unfolding sort_by
  In-sort_by a [] h = h
  In-sort_by a (x ∷ xs) (inl e) = In-insert_by a x (sort_by xs) (inl e)
  In-sort_by a (x ∷ xs) (inr m) = In-insert_by a x (sort_by xs) (inr (In-sort_by a xs m))

  pub In-of_sort_by : (a : A) (xs : List A) → In a (sort_by xs) → In a xs
  unfolding sort_by
  In-of_sort_by a [] h = h
  In-of_sort_by a (x ∷ xs) h = elim (In-of_insert_by a x (sort_by xs) h) [
    | inl e ↦ inl e
    | inr m ↦ inr (In-of_sort_by a xs m)
  ]

  All-insert_by_any :
      (P : A → Type 0) (x : A) (ys : List A) → P x → All P ys → All P (insert_by x ys)
  unfolding insert_by
  All-insert_by_any P x [] p a = (p, tt)
  All-insert_by_any P x (y ∷ ys) p (q, a) = elim (Bool-cases (le x y)) [
    | inl t ↦ rw t (p, (q, a))
    | inr f ↦ rw f (q, All-insert_by_any P x ys p a)
  ]

  -- What holds of all elements, or of every two of them, holds after the sort.
  pub All-sort_by : (P : A → Type 0) (xs : List A) → All P xs → All P (sort_by xs)
  unfolding sort_by
  All-sort_by P [] a = tt
  All-sort_by P (x ∷ xs) (p, a) = All-insert_by_any P x (sort_by xs) p (All-sort_by P xs a)

  AllPairs-insert_by :
      (R : A → A → Type 0) (x : A) (ys : List A)
      → ((a b : A) → R a b → R b a)
      → All (R x) ys
      → AllPairs R ys
      → AllPairs R (insert_by x ys)
  unfolding insert_by
  AllPairs-insert_by R x [] flip a p = (tt, tt)
  AllPairs-insert_by R x (y ∷ ys) flip (r, a) (b, p) = elim (Bool-cases (le x y)) [
    | inl t ↦ rw t ((r, a), (b, p))
    | inr f ↦ rw f (All-insert_by_any (R y) x ys (flip x y r) b, AllPairs-insert_by R x ys flip a p)
  ]

  pub AllPairs-sort_by :
      (R : A → A → Type 0) (xs : List A)
      → ((a b : A) → R a b → R b a)
      → AllPairs R xs
      → AllPairs R (sort_by xs)
  unfolding sort_by
  AllPairs-sort_by R [] flip p = tt
  AllPairs-sort_by R (x ∷ xs) flip (a, p) =
      AllPairs-insert_by R x (sort_by xs) flip (All-sort_by (R x) xs a)
        (AllPairs-sort_by R xs flip p)

  module _ (total : (x y : A) → le x y ≡ false → le y x ≡ true)
      (trans : (x y z : A) → le x y ≡ true → le y z ≡ true → le x z ≡ true) where
    All-le :
        (x y : A) (zs : List A)
        → le x y ≡ true
        → All (λ z. le y z ≡ true) zs
        → All (λ z. le x z ≡ true) zs
    All-le x y [] h a = tt
    All-le x y (z ∷ zs) h (b, a) = (trans x y z h b, All-le x y zs h a)

    All-insert_by :
        (z x : A) (ys : List A)
        → le z x ≡ true
        → All (λ y. le z y ≡ true) ys
        → All (λ y. le z y ≡ true) (insert_by x ys)
    unfolding insert_by
    All-insert_by z x [] h a = (h, tt)
    All-insert_by z x (y ∷ ys) h (b, a) = elim (Bool-cases (le x y)) [
      | inl t ↦ rw t (h, (b, a))
      | inr f ↦ rw f (b, All-insert_by z x ys h a)
    ]

    insert_by-IsSorted : (x : A) (ys : List A) → IsSorted ys → IsSorted (insert_by x ys)
    unfolding insert_by
    insert_by-IsSorted x [] s = (tt, tt)
    insert_by-IsSorted x (y ∷ ys) (a, s) = elim (Bool-cases (le x y)) [
      | inl t ↦ rw t ((t, All-le x y ys t a), (a, s))
      | inr f ↦ rw f (All-insert_by y x ys (total x y f) a, insert_by-IsSorted x ys s)
    ]

    -- For a total and transitive test the result is in order.
    pub sort_by-IsSorted : (xs : List A) → IsSorted (sort_by xs)
    unfolding sort_by
    sort_by-IsSorted [] = tt
    sort_by-IsSorted (x ∷ xs) = insert_by-IsSorted x (sort_by xs) (sort_by-IsSorted xs)
