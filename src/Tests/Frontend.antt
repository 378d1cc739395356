-- ===== src/Tests/Frontend.antt =====
-- A form that is accepted at concrete texts: a text is its digits, with two decimal places.
use exchange_matching.Base.{ℕ, ◌≡◌, refl, pos, Option, some, true, false}
use exchange_matching.Decimal.{DecimalValue, finite}
use exchange_matching.Frontend.{
  accepts_order_form, is_decimal_string, has_valid_cost, multiply_values, value_fits_schema,
}
use exchange_matching.Frontend.Agreement.{IsAcceptedInput, accepts_order_form-IsAcceptedInput}

abbrev hundredths : ℕ → Option DecimalValue
hundredths n = some (finite (pos n) 2)

accepted_run :
    accepts_order_form (λ (n : ℕ). n) (λ n. false) (λ n. true) hundredths 150 10000 ≡ true
unfolding accepts_order_form is_decimal_string has_valid_cost multiply_values value_fits_schema
accepted_run = refl

-- 1.50 BTC at 100.00 USD.
accepts_order_form-IsAcceptedInput_example :
    IsAcceptedInput (λ (n : ℕ). n) (λ n. false) (λ n. true) hundredths 150 10000
accepts_order_form-IsAcceptedInput_example =
    accepts_order_form-IsAcceptedInput (λ (n : ℕ). n) (λ n. false) (λ n. true) hundredths
      (λ n. refl) 150 10000 accepted_run
