-- ===== src/Config/Items.antt =====
-- stonr/src/config.rs: what `csv_strings` gives can stand in a list again.
use Prim.Native.Char.{Char, code}
use Prim.Native.String.{[], ◌∷◌}
use stonr.Base.{
  ℕ, String, ◌≡◌, refl, false, not, List, [], ◌∷◌, ◌&&◌, inl, inr, nat_eq, map, keep, arith, ap,
  ◌∙◌, Bool-cases, All,
}
use stonr.Base.Text.{is_whitespace, is_blank}
use stonr.Base.TextParts.{split, extend, trim, trim_start, trim_end, is_empty_text}
use stonr.Config.Lists.{has_char, IsItem}
use stonr.Config.Parse.{csv_strings}

-- No part of a text that is split at a character has the character.
extend-Lacks :
    (sep : ℕ) (c : Char) (parts : List String)
    → nat_eq (code c) sep ≡ false
    → All (λ p. has_char sep p ≡ false) parts
    → All (λ p. has_char sep p ≡ false) (extend c parts)
unfolding extend has_char
extend-Lacks sep c [] other h = (ground arith, tt)
extend-Lacks sep c (p ∷ parts) other (lacks, h) = (ground arith, h)

split-Lacks : (sep : ℕ) (s : String) → All (λ p. has_char sep p ≡ false) (split sep s)
unfolding split has_char
split-Lacks sep [] = (refl, tt)
split-Lacks sep (c ∷ s) = elim (Bool-cases (nat_eq (code c) sep)) [
  | inl cut ↦ rw cut (refl, split-Lacks sep s)
  | inr other ↦ rw other (extend-Lacks sep c (split sep s) other (split-Lacks sep s))
]

has_char-trim_start :
    (sep : ℕ) (s : String) → has_char sep s ≡ false → has_char sep (trim_start s) ≡ false
unfolding has_char trim_start
has_char-trim_start sep [] h = refl
has_char-trim_start sep (c ∷ s) h = elim (Bool-cases (is_whitespace (code c))) [
  | inl space ↦ rw space (has_char-trim_start sep s (ground arith))
  | inr other ↦ rw other h
]

has_char-trim_end :
    (sep : ℕ) (s : String) → has_char sep s ≡ false → has_char sep (trim_end s) ≡ false
unfolding has_char trim_end
has_char-trim_end sep [] h = refl
has_char-trim_end sep (c ∷ s) h = elim (Bool-cases (is_blank (c ∷ s))) [
  | inl blank ↦ rw blank refl
  | inr other ↦ rw other (ground (arith, has_char-trim_end sep s))
]

is_blank-trim_end : (s : String) → is_blank (trim_end s) ≡ is_blank s
unfolding trim_end is_blank
is_blank-trim_end [] = refl
is_blank-trim_end (c ∷ s) = elim (Bool-cases (is_whitespace (code c) && is_blank s)) [
  | inl blank ↦ rw blank refl
  | inr other ↦ rw other (ap (λ b. is_whitespace (code c) && b) (is_blank-trim_end s) ∙ other)
]

-- A character stays in front of the trimmed rest, where the two are not blank.
cons-trim_end :
    (c : Char) (s : String)
    → is_blank (c ∷ s) ≡ false
    → trim_end (trim_end s) ≡ trim_end s
    → trim_end (c ∷ trim_end s) ≡ c ∷ trim_end s
unfolding trim_end is_blank
cons-trim_end c s filled same = rw (is_blank-trim_end s, filled) (ap (λ (t : String). c ∷ t) same)

trim_end-trim_end : (s : String) → trim_end (trim_end s) ≡ trim_end s
unfolding trim_end
trim_end-trim_end [] = refl
trim_end-trim_end (c ∷ s) = elim (Bool-cases (is_blank (c ∷ s))) [
  | inl blank ↦ rw blank refl
  | inr other ↦ rw other (cons-trim_end c s other (trim_end-trim_end s))
]

-- A text that begins with no blank, or is empty.
Starts : String → Type 0
Starts [] = Unit
Starts (c ∷ s) = is_whitespace (code c) ≡ false

trim_start-Starts : (s : String) → Starts (trim_start s)
unfolding trim_start Starts
trim_start-Starts [] = tt
trim_start-Starts (c ∷ s) = elim (Bool-cases (is_whitespace (code c))) [
  | inl space ↦ rw space (trim_start-Starts s)
  | inr other ↦ rw other other
]

trim_end-Starts : (s : String) → Starts s → Starts (trim_end s)
unfolding trim_end is_blank Starts
trim_end-Starts [] h = tt
trim_end-Starts (c ∷ s) h = rw h h

trim_start_id : (s : String) → Starts s → trim_start s ≡ s
unfolding trim_start Starts
trim_start_id [] h = refl
trim_start_id (c ∷ s) h = rw h refl

trim-trim : (s : String) → trim (trim s) ≡ trim s
unfolding trim
trim-trim s =
    ap trim_end (trim_start_id _ (trim_end-Starts _ (trim_start-Starts s)))
    ∙ trim_end-trim_end (trim_start s)

has_char-trim : (sep : ℕ) (s : String) → has_char sep s ≡ false → has_char sep (trim s) ≡ false
unfolding trim
has_char-trim sep s h = has_char-trim_end sep (trim_start s) (has_char-trim_start sep s h)

trimmed-IsItem :
    (parts : List String)
    → All (λ p. has_char b',' p ≡ false) parts
    → All IsItem (keep (λ t. not (is_empty_text t)) (map trim parts))
unfolding keep
trimmed-IsItem [] h = tt
trimmed-IsItem (p ∷ parts) (plain, h) = elim (Bool-cases (is_empty_text (trim p))) [
  | inl empty ↦ rw empty (trimmed-IsItem parts h)
  | inr filled ↦
      rw filled ((has_char-trim b',' p plain, trim-trim p, filled), trimmed-IsItem parts h)
]

pub csv_strings-IsItem : (s : String) → All IsItem (csv_strings s)
unfolding csv_strings
csv_strings-IsItem s = trimmed-IsItem (split b',' s) (split-Lacks b',' s)
