-- ===== src/Base/Text/Positions.antt =====
-- Byte positions in a text: no character begins past the text's end.
use Prim.Native.Nat.{ℕ, zero, ◌-◌, ◌≤◌, ◌<◌, Ordering, compare as compare_ℕ}
use Prim.Native.Char.{Char, len_utf8}
use Prim.Native.String.len
use Prim.Native.String.slice
use Prim.Native.String.{String, [], ◌∷◌, len, slice, fits}
use mathlib.Core.Path.{◌≡◌, subst, sym}
use mathlib.Core.Bool.{false}
use native.Mathlib.Omega.{arith}
use text.Mathlib.Text.{is_char_boundary}

len-fits-le :
    (o : Ordering) (c : Char) (r s : String) → len r ≤ len s → len (fits o c r) ≤ len (c ∷ s)
len-fits-le Ordering.lt c r s h = omega (arith, len.cons c r, len.cons c s)
len-fits-le Ordering.eq c r s h = omega (arith, len.cons c r, len.cons c s)
len-fits-le Ordering.gt c r s h = omega (arith, len.nil)

len-slice-le : (s : String) (n : ℕ) → len (slice s zero n) ≤ len s
len-slice-le [] n = subst (λ t. len t ≤ len []) (sym (slice.nil zero n)) (omega arith)
len-slice-le (c ∷ s) n =
    subst (λ t. len t ≤ len (c ∷ s)) (sym (slice.cons-zero c s n))
      (len-fits-le (compare_ℕ (len_utf8 c) n) c (slice s zero (n - len_utf8 c)) s
        (len-slice-le s (n - len_utf8 c)))

pub is_char_boundary-past : (s : String) (n : ℕ) → len s < n → is_char_boundary s n ≡ false
is_char_boundary-past s n h = ground (arith, len-slice-le s n)
