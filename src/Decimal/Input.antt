-- ===== src/Decimal/Input.antt =====
-- backend/src/common/decimal-input.ts: the text of an amount or a price becomes a positive value that
-- fits a column. `trim`, the test for the empty text and `new Decimal` are not the program's: they are
-- parameters, and where `new Decimal` throws it gives `none`.
use exchange_matching.Base.{
  ℕ, ◌-◌, ◌*◌, ◌^◌, ◌≤◌, ◌<◌, ◌≡◌, ℤ, pos, negsuc, Option, none, some, Bool, Result, ok, err, ◌>>◌,
  throw_if, bad_request, empty_input, invalid_decimal, not_positive, leb_ℤ, pow_positive, arith,
}
use native.Mathlib.Nat.{mul-pos}
use exchange_matching.Decimal.{
  DecimalValue, finite, infinite, nan, decimal_max, decimal_scale, to_decimal_places,
  assert_decimal_fits_schema,
}

-- The checks of a parsed value, which is returned in units.
unfoldable pub check_positive_decimal : DecimalValue → Result ℤ
check_positive_decimal (finite n p) = do
  throw_if (leb_ℤ n (pos 0)) (bad_request not_positive)
  assert_decimal_fits_schema (finite n p)
  ok (to_decimal_places n p)
check_positive_decimal infinite = err (bad_request invalid_decimal)
check_positive_decimal nan = err (bad_request invalid_decimal)

module _ {Text : Type 0} (trim : Text → Text) (is_empty : Text → Bool)
    (new_decimal : Text → Option DecimalValue) where
  -- `parsePositiveDecimalInput`
  unfoldable pub parse_positive_decimal_input : Text → Result ℤ
  unfolding check_positive_decimal
  parse_positive_decimal_input value = do
    throw_if (is_empty (trim value)) (bad_request empty_input)
    elim (new_decimal (trim value)) [
      | none ↦ err (bad_request invalid_decimal)
      | some parsed ↦ check_positive_decimal parsed
    ]

-- A value that passed the checks is a positive number of units that fits a column.
pub record IsPositiveInput (z : ℤ) : Type 0 where
  pub units : ℕ
  pub same : z ≡ pos units
  pub positive : 0 < units
  pub fits : units ≤ decimal_max

pub check_positive_decimal-IsPositiveInput :
    (v : DecimalValue) (z : ℤ) → check_positive_decimal v ≡ ok z → IsPositiveInput z
unfolding check_positive_decimal assert_decimal_fits_schema
check_positive_decimal-IsPositiveInput (finite (pos n) p) z h = record {
  units = n * 10 ^ (decimal_scale - p);
  same = ground arith;
  positive = mul-pos (ground arith) (pow_positive 10 (decimal_scale - p) (ground arith));
  fits = ground arith;
}
check_positive_decimal-IsPositiveInput (finite (negsuc n) p) z h = cc
check_positive_decimal-IsPositiveInput infinite z h = cc
check_positive_decimal-IsPositiveInput nan z h = cc

parsed-IsPositiveInput :
    (parsed : Option DecimalValue) (z : ℤ)
    → elim parsed [ none ↦ err (bad_request invalid_decimal) | some v ↦ check_positive_decimal v ]
      ≡ ok z
    → IsPositiveInput z
parsed-IsPositiveInput none z h = cc
parsed-IsPositiveInput (some v) z h = check_positive_decimal-IsPositiveInput v z h

module _ {Text : Type 0} (trim : Text → Text) (is_empty : Text → Bool)
    (new_decimal : Text → Option DecimalValue) where
  -- If `parse_positive_decimal_input` returns a value, for any `trim`, test for the empty
  -- text and parser of decimals, the value is a positive number of units that fits a column.
  pub parse-IsPositiveInput :
      (value : Text) (z : ℤ)
      → parse_positive_decimal_input trim is_empty new_decimal value ≡ ok z
      → IsPositiveInput z
  unfolding parse_positive_decimal_input
  parse-IsPositiveInput value z h =
      parsed-IsPositiveInput (new_decimal (trim value)) z (ground arith)
