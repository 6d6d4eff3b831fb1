-- ===== src/Base/Results.antt =====
-- What a fallible function gives: a value, an error with its message, or a panic.
use Prim.Native.String.{String}
use mathlib.Core.Path.{◌≡◌, refl}
use mathlib.Core.Bool.{Bool, true, false, not}
use mathlib.Core.Logic.{◌↔◌}
use mathlib.Core.Option.{Option, none, some}

pub data Result {ℓ} (A : Type ℓ) : Type ℓ where
  ok : A → Result A
  err : String → Result A
  panic : Result A

-- `?` on a result, and `?;` on one without a value.
module _ {ℓ κ} {A : Type ℓ} {B : Type κ} where
  infixl 5 ◌>>=◌
  abbrev pub ◌>>=◌ : Result A → (A → Result B) → Result B
  panic >>= next = panic
  err message >>= next = err message
  ok value >>= next = next value

  -- Where a bind succeeds, both of its parts do.
  pub >>=-eq-ok :
      (first : Result A) (next : A → Result B) {last : B}
      → (first >>= next) ≡ ok last
      → (value : A) × (first ≡ ok value) × (next value ≡ ok last)
  >>=-eq-ok panic next e = cc
  >>=-eq-ok (err message) next e = cc
  >>=-eq-ok (ok value) next e = (value, refl, e)

infixl 5 ◌>>◌
abbrev pub ◌>>◌ {κ} : {B : Type κ} → Result (Unit {0}) → Result B → Result B
check >> rest = check >>= λ done. rest

-- `if test { return Err(anyhow!(message)) }`
abbrev pub fail_if : Bool → String → Result (Unit {0})
fail_if test message = elim test [ true ↦ err message | false ↦ ok tt ]

pub fail_if-eq-ok : (b : Bool) (m : String) → fail_if b m ≡ ok tt → b ≡ false
fail_if-eq-ok true m h = cc
fail_if-eq-ok false m h = refl

pub ok-injective {ℓ} : {A : Type ℓ} {a b : A} → ok a ≡ ok b → a ≡ b
ok-injective h = cc

-- A successful pair, taken apart.
pub ok-pair {ℓ} :
    {A B : Type ℓ} {a c : A} {b d : B}
    → ◌≡◌ {A = Result (A × B)} (ok (a, b)) (ok (c, d))
    → (a ≡ c) × (b ≡ d)
ok-pair h = let e = ok-injective h in (λ i. (e i).0, λ i. (e i).1)

-- A bind returns where its first part returns and the rest returns on every value, with results of
-- one form.
pub >>=-total {ℓ κ μ} :
    {A : Type ℓ} {B : Type κ} {C : Type μ} (g : C → B) (m : Result A) (f : A → Result B)
    → (a : A) × (m ≡ ok a)
    → ((a : A) → (c : C) × (f a ≡ ok (g c)))
    → (c : C) × ((m >>= f) ≡ ok (g c))
>>=-total g m f (a, h) k = let (c, r) = k a in (c, rw h r)

-- `option.ok_or_else(|| anyhow!(message))`
unfoldable pub ok_or {ℓ} : {A : Type ℓ} → Option A → String → Result A
ok_or none message = err message
ok_or (some a) message = ok a

pub ok_or_iff {ℓ} :
    {A : Type ℓ} (o : Option A) (message : String) (value : A)
    → (ok_or o message ≡ ok value) ↔ (o ≡ some value)
unfolding ok_or
ok_or_iff none message value = (λ h. cc, λ h. cc)
ok_or_iff (some a) message value = (λ h. cc, λ h. cc)

-- A test that must hold, of which its negation is an error.
pub test_passed : (b : Bool) (message : String) → fail_if (not b) message ≡ ok tt → b ≡ true
test_passed true message h = refl
test_passed false message h = cc
