-- ===== src/Tests/Api.antt =====
-- Requests to the backend, and the queries of a table, at a concrete market.
use exchange_matching.Base.{ℕ, ◌≡◌, refl, arith, [], ◌∷◌, Option, some, pos, ok, true, false}
use exchange_matching.Text.{Text, includes, is_empty_text}
use exchange_matching.Decimal.{DecimalValue, finite, assert_decimal_fits_schema}
use exchange_matching.Decimal.Input.{parse_positive_decimal_input}
use exchange_matching.Database.{buy}
use exchange_matching.Pagination.{digits, to_positive_integer, is_valid_query}
use exchange_matching.Users.Guard.{space}
use exchange_matching.Frontend.{
  accepts_order_form, is_decimal_string, has_valid_cost, multiply_values, value_fits_schema,
}
use exchange_matching.Frontend.Tables.{
  TableState, new_table, set_page, set_search, query_of, TableLife, here, next, page_chosen,
  search_typed, query_of-is_valid_query,
}
use exchange_matching.Api.{parse_input}
use exchange_matching.Api.Submission.{IsSubmitted, post_order-IsSubmitted}
use exchange_matching.Tests.Market.{market, market-Valid, buyer, buyer_row}

-- The text of a token is that of user 1, a text of a decimal is one, and nothing is trimmed.
abbrev verify : Text → Option ℕ
verify t = some 1

abbrev trim : Text → Text
trim t = t

abbrev one : Text → Option DecimalValue
one t = some (finite (pos 1) 0)

abbrev token : Text
token = 97 ∷ []

abbrev digit : Text
digit = 49 ∷ []

abbrev header : Text
header = 66 ∷ 101 ∷ 97 ∷ 114 ∷ 101 ∷ 114 ∷ 32 ∷ 97 ∷ []

parsed : parse_input verify trim one digit ≡ ok (pos 100000000)
unfolding parse_positive_decimal_input assert_decimal_fits_schema
parsed = refl

plain : includes space token ≡ false
unfolding includes
plain = refl

accepted_form : accepts_order_form trim is_empty_text (λ t. true) one digit digit ≡ true
unfolding accepts_order_form is_decimal_string has_valid_cost multiply_values value_fits_schema
accepted_form = refl

-- One BTC at one USD.
post_order-IsSubmitted_example :
    IsSubmitted trim (λ t. true) one verify token buy digit digit 100000000 100000000 1 buyer market
post_order-IsSubmitted_example =
    post_order-IsSubmitted trim (λ t. true) one verify (λ t. refl) token buy digit digit 100000000
      100000000 1 buyer market market-Valid buyer_row refl plain refl accepted_form parsed parsed
      (omega arith)

-- A search, and then the second of three pages.
abbrev second_page : TableState
second_page = set_page 2 (set_search digit new_table)

second_page-TableLife : TableLife trim new_table second_page
second_page-TableLife =
    next (next here (search_typed digit))
      (page_chosen 3 2 (omega arith) (omega arith) (omega arith))

query_of-is_valid_query_example :
    is_valid_query (to_positive_integer (digits 2) 1) (to_positive_integer (digits 10) 25) ≡ true
unfolding query_of
query_of-is_valid_query_example = query_of-is_valid_query trim second_page-TableLife
