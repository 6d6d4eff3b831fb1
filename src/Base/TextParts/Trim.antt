-- ===== src/Base/TextParts/Trim.antt =====
-- `str::trim` on a number's digits and a line feed.
use Prim.Native.String.{String, [], ◌∷◌, ◌++◌}
use mathlib.Core.Path.{◌≡◌, refl, ◌∙◌, ap}
use mathlib.Core.Bool.{true}
use native.Mathlib.Omega.{arith}
use text.Mathlib.TextLemmas.{cons-append}
use stonr.Base.Text.{is_whitespace, is_blank}
use stonr.Base.Text.Decimals.{is_digit, digits, numeral, numeral-digits}
use stonr.Base.TextParts.{trim_start, trim_end, trim}

trim_start-numeral : (s t : String) → numeral s ≡ true → trim_start (s ++ t) ≡ s ++ t
unfolding trim_start numeral is_digit is_whitespace
trim_start-numeral [] t h = ground arith
trim_start-numeral (c ∷ s) t h = rw (cons-append c s t) (ground arith)

trim_start-numeral_id : (s : String) → numeral s ≡ true → trim_start s ≡ s
unfolding trim_start numeral is_digit is_whitespace
trim_start-numeral_id [] h = refl
trim_start-numeral_id (c ∷ s) h = ground arith

trim_end-digits : (s : String) → digits s ≡ true → trim_end (s ++ "\n") ≡ s
unfolding trim_end digits is_digit is_whitespace is_blank
trim_end-digits [] h = refl
trim_end-digits (c ∷ s) h = rw (cons-append c s "\n") (ground (arith, trim_end-digits s))

pub trim-numeral : (s : String) → numeral s ≡ true → trim (s ++ "\n") ≡ s
unfolding trim
trim-numeral s h =
    ap trim_end (trim_start-numeral s "\n" h) ∙ trim_end-digits s (numeral-digits s h)

trim_end-digits_id : (s : String) → digits s ≡ true → trim_end s ≡ s
unfolding trim_end digits is_digit is_whitespace is_blank
trim_end-digits_id [] h = refl
trim_end-digits_id (c ∷ s) h = ground (arith, trim_end-digits_id s)

pub trim-numeral_id : (s : String) → numeral s ≡ true → trim s ≡ s
unfolding trim
trim-numeral_id s h =
    ap trim_end (trim_start-numeral_id s h) ∙ trim_end-digits_id s (numeral-digits s h)
