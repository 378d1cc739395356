-- ===== src/Queries/Orders.antt =====
-- backend/src/orders/orders.repository.ts, `findActiveOrders`, backend/src/orders/order.mapper.ts, and
-- backend/src/orders/orders.service.ts, `getActiveOrders`.
use exchange_matching.Base.{ℕ, Bool, ◌==◌, ◌&&◌, List, map, Option}
use exchange_matching.Table.{where_rows, sort_rows, length}
use exchange_matching.Database.{Order, Side, Status}
use exchange_matching.Orders.{is_active_status}
use exchange_matching.Pagination.{PaginatedResponse, build_paginated_response, rows_of_page}
use exchange_matching.Queries.Texts.{Texts, build_id_prefix_filter, has_prefix, is_newer}

module _ (x : Texts) where
  pub record OrderSummary : Type 0 where
    pub id : x.Text
    pub side : Side
    pub status : Status
    pub price : x.Text
    pub original_amount : x.Text
    pub remaining_amount : x.Text
    pub created_at : x.Text
    pub updated_at : x.Text

  -- `toOrderSummary`
  abbrev pub to_order_summary : Order → OrderSummary
  to_order_summary o = record {
    id = x.id_text o.id;
    side = o.side;
    status = o.status;
    price = x.to_fixed o.price;
    original_amount = x.to_fixed o.original_amount;
    remaining_amount = x.to_fixed o.remaining_amount;
    created_at = x.to_iso_string (x.created_at o.id);
    updated_at = x.to_iso_string (x.updated_at o.id);
  }

  -- The `where` and the `orderBy` of `findActiveOrders`.
  unfoldable pub is_active_of : (user_id : ℕ) → (id : Option x.Text) → Order → Bool
  is_active_of user_id id o =
      o.user_id == user_id
      && (is_active_status o.status && has_prefix x (build_id_prefix_filter x id) o.id)

  abbrev pub is_newer_order : Order → Order → Bool
  is_newer_order a b = is_newer x a.id a.sequence b.id b.sequence

  -- `findActiveOrders`: the rows of the page, and the count of all.
  unfoldable pub find_active_orders :
      (user_id page page_size : ℕ) → (id : Option x.Text) → List Order → List Order × ℕ
  unfolding is_active_of where_rows sort_rows length rows_of_page
  find_active_orders user_id page page_size id orders =
      let rows = where_rows (is_active_of user_id id) orders in
      (rows_of_page page page_size (sort_rows is_newer_order rows), length rows)

  -- `getActiveOrders`
  unfoldable pub get_active_orders :
      (user_id page page_size : ℕ)
      → (id : Option x.Text) → List Order
      → PaginatedResponse OrderSummary
  unfolding find_active_orders build_paginated_response
  get_active_orders user_id page page_size id orders =
      let found = find_active_orders user_id page page_size id orders in
      build_paginated_response (map to_order_summary found.0) page page_size found.1
