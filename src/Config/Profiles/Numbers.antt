-- ===== src/Config/Profiles/Numbers.antt =====
-- stonr/src/autoconfig.rs: lists of numbers that are joined with commas, and read back.
use mathlib.Core.Option
use Prim.Native.String.{[], ◌∷◌}
use stonr.Base.{
  ℕ, ◌≤◌, ◌^◌, ◌-◌, String, ◌≡◌, refl, sym, subst, true, false, Option, none, some, List, [], ◌∷◌,
  ◌||◌, nat_eq, leb, map, arith, ap, ◌∙◌, All, Bool-cases, inl, inr, if◌then◌else◌,
}
use stonr.Base.Sort.{insert_by, sort_by, All-sort_by}
use stonr.Base.Text.{to_decimal, parse_u64}
use stonr.Base.Text.Decimals.{is_digit, digits, numeral, parse_u64-to_decimal, to_decimal-numeral}
use stonr.Base.TextParts.{trim, split}
use stonr.Base.TextParts.Trim.{trim-numeral_id}
use stonr.Config.Lists.{join, has_char, IsItem, split-join}
use stonr.Config.Parse.{parse_u32, add_number, numbers_of, csv_u32}
use stonr.Config.Profiles.{dedup_sorted, dedup_numbers, join_numbers}
use stonr.Query.{has_number}

-- A number that a `u32` can be.
abbrev pub IsU32 : ℕ → Type 0
IsU32 n = n ≤ 2 ^ 32 - 1

has_char-digits : (s : String) → digits s ≡ true → has_char b',' s ≡ false
unfolding has_char digits is_digit
has_char-digits [] h = refl
has_char-digits (c ∷ s) h = ground (arith, has_char-digits s)

numeral-IsItem : (s : String) → numeral s ≡ true → IsItem s
unfolding numeral is_digit has_char
numeral-IsItem [] h = absurd (ground arith)
numeral-IsItem (c ∷ s) h =
    (ground (arith, has_char-digits s), trim-numeral_id (c ∷ s) (ground arith), refl)

map-IsItem : (values : List ℕ) → All IsItem (map to_decimal values)
map-IsItem [] = tt
map-IsItem (n ∷ values) = (numeral-IsItem (to_decimal n) (to_decimal-numeral n), map-IsItem values)

parse_u32-to_decimal : (n : ℕ) → IsU32 n → parse_u32 (trim (to_decimal n)) ≡ some n
unfolding parse_u32 Option.bind
parse_u32-to_decimal n small =
    rw (trim-numeral_id (to_decimal n) (to_decimal-numeral n))
      (rw (parse_u64-to_decimal n (omega arith)) (ground arith))

numbers_of-nil : numbers_of [] ≡ []
unfolding numbers_of
numbers_of-nil = refl

numbers_of-cons :
    (part : String) (parts : List String)
    → numbers_of (part ∷ parts) ≡ add_number (parse_u32 (trim part)) (numbers_of parts)
unfolding numbers_of
numbers_of-cons part parts = refl

numbers_of-map : (values : List ℕ) → All IsU32 values → numbers_of (map to_decimal values) ≡ values
unfolding add_number
numbers_of-map [] h = numbers_of-nil
numbers_of-map (n ∷ values) (small, h) =
    numbers_of-cons (to_decimal n) (map to_decimal values)
    ∙ ap (λ o. add_number o (numbers_of (map to_decimal values))) (parse_u32-to_decimal n small)
    ∙ ap (λ l. n ∷ l) (numbers_of-map values h)

-- Numbers that are joined with commas are read back as they are.
pub csv_u32-join_numbers :
    (values : List ℕ) → All IsU32 values → csv_u32 (join_numbers values) ≡ values
unfolding csv_u32 join_numbers join Option.bind
csv_u32-join_numbers [] h = refl
csv_u32-join_numbers (n ∷ values) h =
    ap numbers_of (split-join (to_decimal n) (map to_decimal values) (map-IsItem (n ∷ values)))
    ∙ numbers_of-map (n ∷ values) h

bounded-IsU32 :
    (o : Option ℕ) (n : ℕ)
    → Option.bind o (λ m. if leb m (2 ^ 32 - 1) then some m else none) ≡ some n
    → IsU32 n
unfolding Option.bind
bounded-IsU32 none n h = absurd (cc)
bounded-IsU32 (some m) n h = ground arith

parse_u32-IsU32 : (text : String) (n : ℕ) → parse_u32 text ≡ some n → IsU32 n
unfolding parse_u32
parse_u32-IsU32 text n h = bounded-IsU32 (parse_u64 text) n h

add_number-IsU32 :
    (o : Option ℕ) (values : List ℕ)
    → ((n : ℕ) → o ≡ some n → IsU32 n)
    → All IsU32 values
    → All IsU32 (add_number o values)
unfolding add_number
add_number-IsU32 none values h all = all
add_number-IsU32 (some n) values h all = (h n refl, all)

numbers_of-IsU32 : (parts : List String) → All IsU32 (numbers_of parts)
numbers_of-IsU32 [] = subst (All IsU32) (sym numbers_of-nil) tt
numbers_of-IsU32 (part ∷ parts) = subst (All IsU32) (sym (numbers_of-cons part parts)) (
    add_number-IsU32 (parse_u32 (trim part)) (numbers_of parts) (parse_u32-IsU32 (trim part))
      (numbers_of-IsU32 parts))

pub csv_u32-IsU32 : (s : String) → All IsU32 (csv_u32 s)
unfolding csv_u32
csv_u32-IsU32 s = numbers_of-IsU32 (split b',' s)

has_number-insert_by :
    (a : ℕ) (values : List ℕ) (n : ℕ)
    → has_number (insert_by leb a values) n ≡ (nat_eq a n || has_number values n)
unfolding insert_by has_number
has_number-insert_by a [] n = refl
has_number-insert_by a (b ∷ values) n = ground (arith, has_number-insert_by a values n)

has_number-sort_by :
    (values : List ℕ) (n : ℕ) → has_number (sort_by leb values) n ≡ has_number values n
unfolding sort_by has_number
has_number-sort_by [] n = refl
has_number-sort_by (a ∷ values) n =
    has_number-insert_by a (sort_by leb values) n
    ∙ ap (λ b. nat_eq a n || b) (has_number-sort_by values n)

has_number-dedup_sorted :
    (values : List ℕ) (n : ℕ) → has_number (dedup_sorted values) n ≡ has_number values n
unfolding dedup_sorted has_number
has_number-dedup_sorted [] n = refl
has_number-dedup_sorted (a ∷ []) n = refl
has_number-dedup_sorted (a ∷ b ∷ values) n = ground (arith, has_number-dedup_sorted (b ∷ values) n)

pub has_number-dedup_numbers :
    (values : List ℕ) (n : ℕ) → has_number (dedup_numbers values) n ≡ has_number values n
unfolding dedup_numbers
has_number-dedup_numbers values n =
    has_number-dedup_sorted (sort_by leb values) n ∙ has_number-sort_by values n

All-dedup_sorted : (P : ℕ → Type 0) (values : List ℕ) → All P values → All P (dedup_sorted values)
unfolding dedup_sorted
All-dedup_sorted P [] h = tt
All-dedup_sorted P (a ∷ []) h = h
All-dedup_sorted P (a ∷ b ∷ values) (p, h) = elim (Bool-cases (nat_eq a b)) [
  | inl same ↦ rw same (All-dedup_sorted P (b ∷ values) h)
  | inr other ↦ rw other (p, All-dedup_sorted P (b ∷ values) h)
]

pub All-dedup_numbers :
    (P : ℕ → Type 0) (values : List ℕ) → All P values → All P (dedup_numbers values)
unfolding dedup_numbers
All-dedup_numbers P values h = All-dedup_sorted P (sort_by leb values) (All-sort_by leb P values h)
