-- ===== src/Tests/Queries.antt =====
-- The lists and figures of the API at the concrete market.
use exchange_matching.Base.{ℕ, arith, none, false, true, []}
use exchange_matching.Database.{sell}
use exchange_matching.Queries.Texts.{Texts}
use exchange_matching.Queries.Orders.{get_active_orders}
use exchange_matching.Queries.Market.{get_order_book}
use exchange_matching.Queries.Listing.{
  IsActiveListing, all_pages, get_active_orders-IsActiveListing,
}
use exchange_matching.Queries.Book.{IsBook, get_order_book-IsBook}
use exchange_matching.Tests.Market.{market}

-- Texts are numbers, and a row is created at its number.
abbrev plain : Texts
plain = record {
  Text = ℕ;
  trim = λ t. t;
  is_empty = λ t. false;
  starts_with = λ p t. true;
  id_text = λ id. id;
  to_fixed = λ units. units;
  to_iso_string = λ time. time;
  created_at = λ id. id;
  updated_at = λ id. id;
}

get_active_orders-IsActiveListing_example :
    IsActiveListing plain 1 none market.orders
      (all_pages (λ page. get_active_orders plain 1 page 10 none market.orders))
get_active_orders-IsActiveListing_example =
    get_active_orders-IsActiveListing plain 1 10 none market.orders [] (omega arith)

get_order_book-IsBook_example :
    IsBook plain sell none market.orders
      (all_pages (λ page. get_order_book plain sell page 10 none market.orders))
get_order_book-IsBook_example = get_order_book-IsBook plain sell 10 none market.orders (omega arith)
