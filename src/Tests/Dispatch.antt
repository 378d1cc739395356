-- ===== src/Tests/Dispatch.antt =====
-- The parsing of inputs at a concrete text.
use exchange_matching.Base.{ℕ, ◌≡◌, refl, some, false, Option, ok, pos}
use exchange_matching.Decimal.{DecimalValue, finite, assert_decimal_fits_schema}
use exchange_matching.Decimal.Input.{
  IsPositiveInput, parse_positive_decimal_input, parse-IsPositiveInput,
}

-- A text is its digits, with two decimal places.
abbrev cents : ℕ → Option DecimalValue
cents n = some (finite (pos n) 2)

parse_run : parse_positive_decimal_input (λ (n : ℕ). n) (λ n. false) cents 150 ≡ ok (pos 150000000)
unfolding parse_positive_decimal_input assert_decimal_fits_schema
parse_run = refl

parse-IsPositiveInput_example : IsPositiveInput (pos 150000000)
parse-IsPositiveInput_example =
    parse-IsPositiveInput (λ (n : ℕ). n) (λ n. false) cents 150 (pos 150000000) parse_run
