-- ===== src/Base/Exceptions.antt =====
-- Code that throws: the exceptions of the application, and the result type with its bind.
use mathlib.Core.Bool.{Bool, true, false}
use mathlib.Core.Path.{◌≡◌, refl}
use mathlib.Core.Logic.{◌⊎◌, inl, inr}

-- What a `BadRequestException` says.
pub data Reason : Type 0 where
  invalid_decimal too_many_places exceeds_schema : Reason
  empty_input not_positive cost_too_small : Reason
  insufficient_usd insufficient_btc : Reason
  negative_change exceeds_bounds : Reason
  cannot_be_cancelled : Reason

-- `record_not_found` is Prisma's P2025, `check_violation` a CHECK constraint that a write breaks.
-- `out_of_fuel` is no exception of the code: it is the end of the fuel of a loop.
pub data Error : Type 0 where
  bad_request : Reason → Error
  order_not_found wallet_not_found record_not_found out_of_fuel : Error
  check_violation numeric_overflow : Error

pub data Result {ℓ} (Value : Type ℓ) : Type ℓ where
  err : Error → Result Value
  ok : Value → Result Value

-- What follows a call that returned; an exception passes through.
infixl 5 ◌>>=◌ ◌>>◌
abbrev pub ◌>>=◌ {ℓ κ} :
    {Value : Type ℓ} {Next : Type κ} (call : Result Value) (next : Value → Result Next)
    → Result Next
call >>= next = elim call [ err error ↦ err error | ok value ↦ next value ]

abbrev pub ◌>>◌ {κ} : {Next : Type κ} (check : Result (Unit {0})) (next : Result Next) → Result Next
check >> next = check >>= λ done. next

-- `if (test) throw error`
abbrev pub throw_if : (test : Bool) → Error → Result (Unit {0})
throw_if test error = elim test [ false ↦ ok tt | true ↦ err error ]

pub Result-cases {ℓ} :
    {Value : Type ℓ} (r : Result Value)
    → ((e : Error) × (r ≡ err e)) ⊎ ((value : Value) × (r ≡ ok value))
Result-cases (err e) = inl (e, refl)
Result-cases (ok value) = inr (value, refl)
