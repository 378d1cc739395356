-- ===== src/Frontend.antt =====
-- frontend/src/utils/decimal.ts and frontend/src/features/orders/schemas/orderFormSchema.ts: the checks
-- of the order form, before it is sent. The text functions and `new Decimal` are parameters, the latter
-- the same as the backend's; the pattern of the form is a test of texts.
pub mod Agreement
pub mod Typing
pub mod Stable
pub mod Session
pub mod SignedIn
pub mod Tables
pub mod Refresh
use exchange_matching.Base.{
  ℕ, ◌+◌, ◌-◌, ◌*◌, ◌^◌, ℤ, pos, abs, ◌*ℤ◌, leb_ℤ, ltb_ℤ, leb, Bool, true, false, ◌&&◌, ◌==◌, not,
  Option, none, some, if◌then◌else◌,
}
use exchange_matching.Decimal.{
  DecimalValue, finite, infinite, nan, decimal_max, decimal_scale, to_decimal_places,
  magnitude_units,
}

-- `toFixed(8, ROUND_DOWN)`, read back by `new Decimal`: a product is exact at 56 digits.
unfoldable pub multiply_values : DecimalValue → DecimalValue → DecimalValue
multiply_values (finite n p) (finite m q) =
    finite (to_decimal_places (n *ℤ m) (p + q)) decimal_scale
multiply_values nan v = nan
multiply_values infinite nan = nan
multiply_values infinite infinite = infinite
multiply_values infinite (finite m q) = if abs m == 0 then nan else infinite
multiply_values (finite n p) nan = nan
multiply_values (finite n p) infinite = if abs n == 0 then nan else infinite

-- The test of `decimalFitsSchema` on a value.
unfoldable pub value_fits_schema : DecimalValue → Bool
value_fits_schema (finite n p) = leb p decimal_scale && leb (magnitude_units n p) decimal_max
value_fits_schema infinite = false
value_fits_schema nan = false

-- `.gt(0)` and `.lte(0)`, which NaN does not satisfy. The sign of an infinite value is left out: no such
-- value passes the test for the schema.
abbrev pub is_positive : DecimalValue → Bool
is_positive (finite n p) = ltb_ℤ (pos 0) n
is_positive infinite = true
is_positive nan = false

abbrev pub is_at_most_zero : DecimalValue → Bool
is_at_most_zero (finite n p) = leb_ℤ n (pos 0)
is_at_most_zero infinite = false
is_at_most_zero nan = false

module _ {Text : Type 0} (trim : Text → Text) (is_empty matches_pattern : Text → Bool)
    (new_decimal : Text → Option DecimalValue) where
  -- `parseDecimal`
  abbrev pub parse_decimal : Text → DecimalValue
  parse_decimal value =
      if is_empty value
      then finite (pos 0) 0
      else elim (new_decimal value) [ none ↦ finite (pos 0) 0 | some v ↦ v ]

  -- `decimalFitsSchema`
  abbrev pub decimal_fits_schema : Text → Bool
  decimal_fits_schema value = elim (new_decimal value) [
    | none ↦ false
    | some v ↦ value_fits_schema v
  ]

  -- `decimalString`, on the trimmed text.
  unfoldable pub is_decimal_string : Text → Bool
  is_decimal_string value =
      not (is_empty value)
      && (matches_pattern value && (decimal_fits_schema value && is_positive (parse_decimal value)))

  -- The `superRefine`: whether it raises no issue.
  unfoldable pub has_valid_cost : (amount price : Text) → Bool
  unfolding multiply_values value_fits_schema
  has_valid_cost amount price =
      if not (
        matches_pattern amount
        && (matches_pattern price && (decimal_fits_schema amount && decimal_fits_schema price)))
      then true
      else (if is_at_most_zero (multiply_values (parse_decimal amount) (parse_decimal price))
          then false
          else value_fits_schema (multiply_values (parse_decimal amount) (parse_decimal price)))

  -- `orderFormSchema`: whether a form is accepted; its values are the trimmed texts.
  unfoldable pub accepts_order_form : (amount price : Text) → Bool
  unfolding is_decimal_string has_valid_cost
  accepts_order_form amount price =
      is_decimal_string (trim amount)
      && (is_decimal_string (trim price) && has_valid_cost (trim amount) (trim price))
