-- ===== src/Query/Sorted.antt =====
-- `values.sort(); values.dedup();`, as stonr/src/files.rs, config.rs and autoconfig.rs call it.
use stonr.Base.{
  String, ◌≡◌, ◌≢◌, refl, Bool, true, false, List, [], ◌∷◌, ◌==◌, inl, inr, arith, eq_iff,
  Bool-cases, sym, ap, ◌∙◌, All, AllPairs,
}
use stonr.Base.Sort.{sort_by, In-sort_by, In-of_sort_by, IsSorted, sort_by-IsSorted}
use stonr.Base.TextOrder.{str_leb, str_leb_total, str_leb_trans, str_leb_antisymm, dedup}
use stonr.Query.{has_text}
use stonr.Store.Consistent.{has_text_iff}

Bool-ext : (a b : Bool) → (a ≡ true → b ≡ true) → (b ≡ true → a ≡ true) → a ≡ b
Bool-ext true true f g = refl
Bool-ext true false f g = sym (f refl)
Bool-ext false true f g = g refl
Bool-ext false false f g = refl

has_text-dedup :
    (texts : List String) (text : String) → has_text (dedup texts) text ≡ has_text texts text
unfolding dedup has_text
has_text-dedup [] text = refl
has_text-dedup (a ∷ []) text = refl
has_text-dedup (a ∷ b ∷ texts) text = ground (arith, eq_iff a b, has_text-dedup (b ∷ texts) text)

has_text-sort_by :
    (texts : List String) (text : String)
    → has_text (sort_by str_leb texts) text ≡ has_text texts text
has_text-sort_by texts text =
    Bool-ext _ _
      (λ h.
        (has_text_iff texts text).1 (In-of_sort_by str_leb text texts ((has_text_iff _ text).0 h)))
      (λ h. (has_text_iff _ text).1 (In-sort_by str_leb text texts ((has_text_iff texts text).0 h)))

-- The sorted list without repetitions has the same elements.
pub has_text-sorted :
    (texts : List String) (text : String)
    → has_text (dedup (sort_by str_leb texts)) text ≡ has_text texts text
has_text-sorted texts text =
    has_text-dedup (sort_by str_leb texts) text ∙ has_text-sort_by texts text

-- Each text comes before every later one, and is another.
abbrev pub IsAscending : List String → Type 0
IsAscending texts = AllPairs (λ a b. (str_leb a b ≡ true) × (a ≢ b)) texts

pub All-dedup : (P : String → Type 0) (texts : List String) → All P texts → All P (dedup texts)
unfolding dedup
All-dedup P [] h = tt
All-dedup P (a ∷ []) h = h
All-dedup P (a ∷ b ∷ texts) (p, h) = elim (Bool-cases (a == b)) [
  | inl same ↦ rw same (All-dedup P (b ∷ texts) h)
  | inr other ↦ rw other (p, All-dedup P (b ∷ texts) h)
]

All-after :
    (a b : String) (texts : List String)
    → str_leb a b ≡ true
    → a ≢ b
    → All (λ c. str_leb b c ≡ true) texts
    → All (λ c. (str_leb a c ≡ true) × (a ≢ c)) texts
All-after a b [] le ne h = tt
All-after a b (c ∷ texts) le ne (le', h) = (
  (str_leb_trans a b c le le', λ same. ne (str_leb_antisymm a b le (ap (str_leb b) same ∙ le'))),
  All-after a b texts le ne h,
)

dedup-IsAscending : (texts : List String) → IsSorted str_leb texts → IsAscending (dedup texts)
unfolding dedup
dedup-IsAscending [] s = tt
dedup-IsAscending (a ∷ []) s = (tt, tt)
dedup-IsAscending (a ∷ b ∷ texts) ((le, h), s) = elim (Bool-cases (a == b)) [
  | inl same ↦ rw same (dedup-IsAscending (b ∷ texts) s)
  | inr other ↦
      let ne : a ≢ b = λ e. ground (arith, eq_iff a b) in
      rw other (
        All-dedup _ (b ∷ texts) ((le, ne), All-after a b texts le ne s.0),
        dedup-IsAscending (b ∷ texts) s,
      )
]

pub sorted-IsAscending : (texts : List String) → IsAscending (dedup (sort_by str_leb texts))
sorted-IsAscending texts =
    dedup-IsAscending _ (sort_by-IsSorted str_leb str_leb_total str_leb_trans texts)
