-- ===== src/Base/Text.antt =====
-- The text operations of the language's standard library that the relay uses.
pub mod Decimals
pub mod Positions
use Prim.Native.Nat.{ℕ, zero, suc, ◌+◌, ◌-◌, ◌*◌, ◌/◌, ◌%◌}
use Prim.Native.Char.{code}
use Prim.Native.String.{String, [], ◌∷◌, ◌++◌}
use mathlib.Core.Bool.{Bool, true, false, ◌&&◌, ◌||◌}
use mathlib.Core.Path.{◌≡◌, refl, ap, ◌∙◌}
use native.Mathlib.Omega.{arith}
use text.Mathlib.TextLemmas.{nil-append, cons-append}
use mathlib.Core.Option.{Option, none, some}
use text.Mathlib.Text.{find?}
use stonr.Base.Tests.{leb, ltb, nat_eq, if◌then◌else◌, is_some, u64_max}

-- `str::contains`
unfoldable pub str_contains : String → String → Bool
str_contains text needle = is_some (find? text needle)

-- `char::is_whitespace`
unfoldable pub is_whitespace : ℕ → Bool
is_whitespace c =
    (leb 9 c && leb c 13)
    || nat_eq c 32
    || nat_eq c 0x85
    || nat_eq c 0xa0
    || nat_eq c 0x1680
    || (leb 0x2000 c && leb c 0x200a)
    || nat_eq c 0x2028
    || nat_eq c 0x2029
    || nat_eq c 0x202f
    || nat_eq c 0x205f
    || nat_eq c 0x3000

-- `value.trim().is_empty()`
unfoldable pub is_blank : String → Bool
unfolding is_whitespace
is_blank [] = true
is_blank (c ∷ s) = is_whitespace (code c) && is_blank s

-- `str::strip_prefix`
unfoldable pub strip_prefix : String → String → Option String
strip_prefix s [] = some s
strip_prefix [] (p ∷ prefix) = none
strip_prefix (c ∷ s) (p ∷ prefix) =
    let rest = strip_prefix s prefix in if nat_eq (code c) (code p) then rest else none

pub strip_prefix-append : (prefix s : String) → strip_prefix (prefix ++ s) prefix ≡ some s
unfolding strip_prefix
strip_prefix-append [] s = ap (λ t. strip_prefix t []) (nil-append s)
strip_prefix-append (p ∷ prefix) s =
    ap (λ t. strip_prefix t (p ∷ prefix)) (cons-append p prefix s)
    ∙ ground (arith, strip_prefix-append prefix s)

add_unless_slash : ℕ → String → String → String
add_unless_slash c whole [] = if nat_eq c b'/' then "" else whole
add_unless_slash c whole (d ∷ s) = whole

-- `str::trim_end_matches('/')`
unfoldable pub trim_end_slashes : String → String
unfolding add_unless_slash
trim_end_slashes [] = []
trim_end_slashes (c ∷ s) =
    let rest = trim_end_slashes s in add_unless_slash (code c) (c ∷ rest) rest

-- `u8::to_ascii_lowercase` on a character's code.
ascii_lower : ℕ → ℕ
ascii_lower c = if leb b'A' c && leb c b'Z' then c + 32 else c

-- `str::eq_ignore_ascii_case`
unfoldable pub eq_ignore_ascii_case : String → String → Bool
unfolding ascii_lower
eq_ignore_ascii_case [] [] = true
eq_ignore_ascii_case (c ∷ s) (d ∷ t) =
    nat_eq (ascii_lower (code c)) (ascii_lower (code d)) && eq_ignore_ascii_case s t
eq_ignore_ascii_case _ _ = false

pub eq_ignore_ascii_case_refl : (s : String) → eq_ignore_ascii_case s s ≡ true
unfolding eq_ignore_ascii_case
eq_ignore_ascii_case_refl [] = refl
eq_ignore_ascii_case_refl (c ∷ s) = ground (arith, eq_ignore_ascii_case_refl s)

-- The digits of `str::parse::<u64>`: the value so far, and no value past `u64::MAX`.
parse_digits : ℕ → String → Option ℕ
parse_digits n [] = some n
parse_digits n (c ∷ s) =
    let d = code c - 48 in
    let rest = parse_digits (n * 10 + d) s in
    if leb 48 (code c) && leb (code c) 57 && leb (n * 10 + d) u64_max then rest else none

-- `str::parse::<u64>`: digits after at most one plus sign; an empty text is an error.
unfoldable pub parse_u64 : String → Option ℕ
unfolding parse_digits
parse_u64 [] = none
parse_u64 (c ∷ []) = parse_digits 0 (c ∷ [])
parse_u64 (c ∷ d ∷ s) = parse_digits 0 (if nat_eq (code c) b'+' then d ∷ s else c ∷ d ∷ s)

digit : ℕ → String
digit zero = "0"
digit (suc zero) = "1"
digit (suc (suc zero)) = "2"
digit (suc (suc (suc zero))) = "3"
digit (suc (suc (suc (suc zero)))) = "4"
digit (suc (suc (suc (suc (suc zero))))) = "5"
digit (suc (suc (suc (suc (suc (suc zero)))))) = "6"
digit (suc (suc (suc (suc (suc (suc (suc zero))))))) = "7"
digit (suc (suc (suc (suc (suc (suc (suc (suc zero)))))))) = "8"
digit _ = "9"

decimal : ℕ → ℕ → String
decimal zero n = digit (n % 10)
decimal (suc fuel) n =
    let more = decimal fuel (n / 10) ++ digit (n % 10) in if ltb n 10 then digit n else more

-- `to_string` of a number. A number has fewer digits than its value, so this fuel is enough.
unfoldable pub to_decimal : ℕ → String
unfolding decimal digit
to_decimal n = decimal n n

parse_u64_tests :
    (parse_u64 "+42" ≡ some 42)
    × (parse_u64 "" ≡ none)
    × (parse_u64 "+" ≡ none)
    × (parse_u64 "4x" ≡ none)
    × (parse_u64 "18446744073709551615" ≡ some u64_max)
    × (parse_u64 "18446744073709551616" ≡ none)
unfolding parse_u64
parse_u64_tests = (refl, refl, refl, refl, refl, refl)

to_decimal_tests : (to_decimal 0 ≡ "0") × (to_decimal 30023 ≡ "30023")
unfolding to_decimal
to_decimal_tests = (refl, refl)

trim_tests :
    (trim_end_slashes "ws://a//" ≡ "ws://a")
    × (trim_end_slashes "//" ≡ "")
    × (eq_ignore_ascii_case "Post" "pOST" ≡ true)
    × (eq_ignore_ascii_case "get" "gets" ≡ false)
unfolding trim_end_slashes eq_ignore_ascii_case
trim_tests = (refl, refl, refl, refl)
