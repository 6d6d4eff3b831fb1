-- ===== src/Base/Text/Decimals.antt =====
-- Printing a number and reading it back: `to_string`, `str::parse` and `str::trim` of the
-- language's standard library.
use Prim.Native.Nat.{ℕ, zero, suc, ◌+◌, ◌-◌, ◌*◌, ◌/◌, ◌%◌, ◌≤◌, ◌<◌}
use Prim.Native.Char.{Char, code}
use Prim.Native.String.{String, [], ◌∷◌, ◌++◌}
use mathlib.Core.Path.{◌≡◌, refl, ◌∙◌, ap}
use mathlib.Core.Bool.{Bool, true, false, ◌&&◌}
use text.Mathlib.TextLemmas.{nil-append, cons-append}
use mathlib.Core.Option.{some}
use native.Mathlib.Decide.{dec_lt}
use native.Mathlib.Omega.{arith}
use stonr.Base.Tests.{leb, u64_max}
use stonr.Base.Text.{parse_digits, digit, decimal, to_decimal, parse_u64}

unfoldable pub is_digit : Char → Bool
is_digit c = leb 48 (code c) && leb (code c) 57

unfoldable pub digits : String → Bool
unfolding is_digit
digits [] = true
digits (c ∷ s) = is_digit c && digits s

-- A text of digits that is not empty.
unfoldable pub numeral : String → Bool
unfolding is_digit digits
numeral [] = false
numeral (c ∷ s) = is_digit c && digits s

digit-numeral : (d : ℕ) → numeral (digit d) ≡ true
unfolding numeral digit digits is_digit
digit-numeral zero = refl
digit-numeral (suc zero) = refl
digit-numeral (suc (suc zero)) = refl
digit-numeral (suc (suc (suc zero))) = refl
digit-numeral (suc (suc (suc (suc zero)))) = refl
digit-numeral (suc (suc (suc (suc (suc zero))))) = refl
digit-numeral (suc (suc (suc (suc (suc (suc zero)))))) = refl
digit-numeral (suc (suc (suc (suc (suc (suc (suc zero))))))) = refl
digit-numeral (suc (suc (suc (suc (suc (suc (suc (suc zero)))))))) = refl
digit-numeral (suc (suc (suc (suc (suc (suc (suc (suc (suc _))))))))) = refl

parse_digits-digit :
    (n d : ℕ) → d < 10 → n * 10 + d ≤ u64_max → parse_digits n (digit d) ≡ some (n * 10 + d)
unfolding parse_digits digit
parse_digits-digit n zero small fits = ground arith
parse_digits-digit n (suc zero) small fits = ground arith
parse_digits-digit n (suc (suc zero)) small fits = ground arith
parse_digits-digit n (suc (suc (suc zero))) small fits = ground arith
parse_digits-digit n (suc (suc (suc (suc zero)))) small fits = ground arith
parse_digits-digit n (suc (suc (suc (suc (suc zero))))) small fits = ground arith
parse_digits-digit n (suc (suc (suc (suc (suc (suc zero)))))) small fits = ground arith
parse_digits-digit n (suc (suc (suc (suc (suc (suc (suc zero))))))) small fits = ground arith
parse_digits-digit n (suc (suc (suc (suc (suc (suc (suc (suc zero)))))))) small fits = ground arith
parse_digits-digit n (suc (suc (suc (suc (suc (suc (suc (suc (suc zero))))))))) small fits =
    ground arith
parse_digits-digit n (suc (suc (suc (suc (suc (suc (suc (suc (suc (suc d)))))))))) small fits =
    absurd (omega arith)

parse_digits-append :
    (n m : ℕ) (s t : String)
    → parse_digits n s ≡ some m
    → parse_digits n (s ++ t) ≡ parse_digits m t
unfolding parse_digits
parse_digits-append n m [] t h = ap (parse_digits n) (nil-append t) ∙ cc
parse_digits-append n m (c ∷ s) t h =
    ap (parse_digits n) (cons-append c s t)
    ∙ ground (arith, parse_digits-append (n * 10 + (code c - 48)) m s t)

digits-append : (s t : String) → digits s ≡ true → digits t ≡ true → digits (s ++ t) ≡ true
unfolding digits
digits-append [] t h k = ap digits (nil-append t) ∙ k
digits-append (c ∷ s) t h k = ap digits (cons-append c s t) ∙ ground (arith, digits-append s t)

numeral-append : (s t : String) → numeral s ≡ true → digits t ≡ true → numeral (s ++ t) ≡ true
unfolding numeral
numeral-append [] t h k = ground arith
numeral-append (c ∷ s) t h k = ap numeral (cons-append c s t) ∙ ground (arith, digits-append s t)

pub numeral-digits : (s : String) → numeral s ≡ true → digits s ≡ true
unfolding numeral digits
numeral-digits [] h = refl
numeral-digits (c ∷ s) h = h

decimal-numeral : (fuel n : ℕ) → numeral (decimal fuel n) ≡ true
unfolding decimal
decimal-numeral zero n = digit-numeral (n % 10)
decimal-numeral (suc fuel) n = ground (
  arith,
  digit-numeral n,
  numeral-append (decimal fuel (n / 10)) (digit (n % 10)) (decimal-numeral fuel (n / 10))
      (numeral-digits (digit (n % 10)) (digit-numeral (n % 10))),
)

parse_digits-decimal :
    (fuel n : ℕ) → n ≤ fuel → n ≤ u64_max → parse_digits 0 (decimal fuel n) ≡ some n
unfolding decimal
parse_digits-decimal zero n enough fits = ground (arith, parse_digits-digit 0 (n % 10))
parse_digits-decimal (suc fuel) n enough fits = elim (dec_lt n 10) [
  | yes one ↦ ground (arith, parse_digits-digit 0 n)
  | no more ↦ ground (
    arith,
    parse_digits-append 0 (n / 10) (decimal fuel (n / 10)) (digit (n % 10))
        (parse_digits-decimal fuel (n / 10) (omega arith) (omega arith)),
    parse_digits-digit (n / 10) (n % 10) (omega arith) (omega arith),
  )
]

parse_u64-numeral : (s : String) → numeral s ≡ true → parse_u64 s ≡ parse_digits 0 s
unfolding parse_u64 numeral is_digit
parse_u64-numeral [] h = ground arith
parse_u64-numeral (c ∷ []) h = refl
parse_u64-numeral (c ∷ d ∷ s) h = ground arith

-- A number that is printed is read back as it is.
pub parse_u64-to_decimal : (n : ℕ) → n ≤ u64_max → parse_u64 (to_decimal n) ≡ some n
unfolding to_decimal
parse_u64-to_decimal n fits =
    parse_u64-numeral (decimal n n) (decimal-numeral n n)
    ∙ parse_digits-decimal n n (omega arith) fits

pub to_decimal-numeral : (n : ℕ) → numeral (to_decimal n) ≡ true
unfolding to_decimal
to_decimal-numeral n = decimal-numeral n n
