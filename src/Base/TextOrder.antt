-- ===== src/Base/TextOrder.antt =====
-- The order of texts, `a <= b`.
use Prim.Native.Char.{Char, code}
use Prim.Native.String.{String, [], ◌∷◌, compare}
use Prim.Native.String.compare as cmp
use mathlib.Core.Path.{◌≡◌, refl, ap, ◌∙◌}
use mathlib.Core.Bool.{Bool, true, false, ◌&&◌, ◌||◌}
use mathlib.Core.List.{List, [], ◌∷◌}
use native.Mathlib.Omega.{arith}
use text.Mathlib.Text.{is_le, ◌==◌}
use text.Mathlib.TextEquality.{Char-path}
use stonr.Base.Tests.{ltb, nat_eq, if◌then◌else◌}

abbrev pub str_leb : String → String → Bool
str_leb a b = is_le (compare a b)

-- The clauses of the order.
nil-str_leb : (t : String) → str_leb [] t ≡ true
nil-str_leb [] = refl
nil-str_leb (d ∷ t) = ap is_le (cmp.nil-cons d t)

cons-str_leb-nil : (c : Char) (s : String) → str_leb (c ∷ s) [] ≡ false
cons-str_leb-nil c s = ap is_le (cmp.cons-nil c s)

cons-str_leb-cons :
    (c d : Char) (s t : String)
    → str_leb (c ∷ s) (d ∷ t) ≡ (ltb (code c) (code d) || nat_eq (code c) (code d) && str_leb s t)
cons-str_leb-cons c d s t = ap is_le (cmp.cons-cons c d s t) ∙ ground arith

pub str_leb_total : (a b : String) → str_leb a b ≡ false → str_leb b a ≡ true
str_leb_total [] b h = ground (arith, nil-str_leb b)
str_leb_total (c ∷ s) [] h = nil-str_leb (c ∷ s)
str_leb_total (c ∷ s) (d ∷ t) h =
    ground (arith, cons-str_leb-cons c d s t, cons-str_leb-cons d c t s, str_leb_total s t)

pub str_leb_trans : (a b c : String) → str_leb a b ≡ true → str_leb b c ≡ true → str_leb a c ≡ true
str_leb_trans [] b c h k = nil-str_leb c
str_leb_trans (x ∷ a) [] c h k = ground (arith, cons-str_leb-nil x a)
str_leb_trans (x ∷ a) (y ∷ b) [] h k = ground (arith, cons-str_leb-nil y b)
str_leb_trans (x ∷ a) (y ∷ b) (z ∷ c) h k = ground (
  arith,
  cons-str_leb-cons x y a b,
  cons-str_leb-cons y z b c,
  cons-str_leb-cons x z a c,
  str_leb_trans a b c,
)

pub str_leb_antisymm : (a b : String) → str_leb a b ≡ true → str_leb b a ≡ true → a ≡ b
str_leb_antisymm [] [] h k = refl
str_leb_antisymm [] (d ∷ t) h k = ground (arith, cons-str_leb-nil d t)
str_leb_antisymm (c ∷ s) [] h k = ground (arith, cons-str_leb-nil c s)
str_leb_antisymm (c ∷ s) (d ∷ t) h k = ground (
  arith,
  cons-str_leb-cons c d s t,
  cons-str_leb-cons d c t s,
  str_leb_antisymm s t,
  Char-path c d,
)

pub str_leb_refl : (a : String) → str_leb a a ≡ true
str_leb_refl [] = refl
str_leb_refl (c ∷ s) = ground (arith, cons-str_leb-cons c c s s, str_leb_refl s)

-- `Vec::dedup`
unfoldable pub dedup : List String → List String
dedup [] = []
dedup (a ∷ []) = a ∷ []
dedup (a ∷ b ∷ l) = let rest = dedup (b ∷ l) in if a == b then rest else a ∷ rest
