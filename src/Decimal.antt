-- ===== src/Decimal.antt =====
-- backend/src/common/decimal.utils.ts: amounts with eight decimal places. A stored amount is a number
-- of units of 0.00000001; a value in memory may also be negative or, for input, have other places.
pub mod Laws
pub mod Input
use exchange_matching.Base.{
  ℕ, suc, ◌+◌, ◌-◌, ◌*◌, ◌/◌, ◌^◌, ℤ, pos, neg, abs, ◌+ℤ◌, ◌-ℤ◌, ◌*ℤ◌, trunc_div, leb_ℤ, Bool, true,
  false, leb, ltb, if◌then◌else◌, Result, ok, err, ◌>>=◌, ◌>>◌, throw_if, bad_request,
  invalid_decimal, too_many_places, exceeds_schema, cost_too_small,
}

-- `Prisma.Decimal`: `finite n p` is n / 10 ^ p, where p is what `decimalPlaces()` returns or more.
pub data DecimalValue : Type 0 where
  finite : ℤ → ℕ → DecimalValue
  infinite nan : DecimalValue

abbrev pub decimal_scale : ℕ
decimal_scale = 8

-- 10 ^ decimal_scale, the units in one whole.
abbrev pub scale_units : ℕ
scale_units = 100000000

-- DECIMAL_MAX in units: 28 nines.
abbrev pub decimal_max : ℕ
decimal_max = 9999999999999999999999999999

-- The absolute value in units of a decimal with at most eight places.
abbrev pub magnitude_units : ℤ → ℕ → ℕ
magnitude_units n p = abs n * 10 ^ (decimal_scale - p)

unfoldable pub assert_decimal_fits_schema : DecimalValue → Result (Unit {0})
assert_decimal_fits_schema (finite n p) = do
  throw_if (ltb decimal_scale p) (bad_request too_many_places)
  throw_if (ltb decimal_max (magnitude_units n p)) (bad_request exceeds_schema)
assert_decimal_fits_schema infinite = err (bad_request invalid_decimal)
assert_decimal_fits_schema nan = err (bad_request invalid_decimal)

-- `toDecimalPlaces(8, ROUND_DOWN)`, as a number of units.
abbrev pub to_decimal_places : ℤ → ℕ → ℤ
to_decimal_places n p =
    if leb p decimal_scale
    then n *ℤ pos (10 ^ (decimal_scale - p))
    else trunc_div n (10 ^ (p - decimal_scale))

unfoldable pub to_scaled_decimal : DecimalValue → Result ℤ
unfolding assert_decimal_fits_schema
to_scaled_decimal (finite n p) = do
  let scaled = to_decimal_places n p
  assert_decimal_fits_schema (finite scaled decimal_scale)
  ok scaled
to_scaled_decimal infinite = err (bad_request invalid_decimal)
to_scaled_decimal nan = err (bad_request invalid_decimal)

-- The product of two amounts has sixteen places, and is exact: the working precision is 56 digits.
unfoldable pub multiply_scaled : ℤ → ℤ → Result ℤ
unfolding to_scaled_decimal
multiply_scaled left right =
    to_scaled_decimal (finite (left *ℤ right) (decimal_scale + decimal_scale))

unfoldable pub subtract_scaled : ℤ → ℤ → Result ℤ
unfolding to_scaled_decimal
subtract_scaled left right = to_scaled_decimal (finite (left -ℤ right) decimal_scale)

unfoldable pub add_scaled : ℤ → ℤ → Result ℤ
unfolding to_scaled_decimal
add_scaled left right = to_scaled_decimal (finite (left +ℤ right) decimal_scale)

unfoldable pub assert_positive_order_cost : ℤ → ℤ → Result ℤ
assert_positive_order_cost amount price = do
  cost ← multiply_scaled amount price
  throw_if (leb_ℤ cost (pos 0)) (bad_request cost_too_small)
  ok cost
