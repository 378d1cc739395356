-- ===== src/Queries/Trades.antt =====
-- backend/src/trades/trades.repository.ts, backend/src/trades/trade.mapper.ts and
-- backend/src/trades/trades.service.ts: the trades of a user. A trade is joined to its orders.
use exchange_matching.Base.{
  ℕ, Bool, false, ◌==◌, ◌&&◌, ◌||◌, List, map, Option, none, some, if◌then◌else◌,
}
use exchange_matching.Table.{find, where_rows, sort_rows, length}
use exchange_matching.Database.{Order, Trade, Side, buy, sell, Asset, order_key}
use exchange_matching.Pagination.{PaginatedResponse, build_paginated_response, rows_of_page}
use exchange_matching.Queries.Texts.{Texts, build_id_prefix_filter, has_prefix}
use exchange_matching.Queries.Market.{is_newer_trade}

-- Whether the order with the id is the user's.
unfoldable pub is_order_of : (user_id order_id : ℕ) → List Order → Bool
is_order_of user_id order_id orders = elim (find order_key order_id orders) [
  | none ↦ false
  | some o ↦ o.user_id == user_id
]

pub data Role : Type 0 where
  maker taker : Role

module _ (x : Texts) where
  pub record UserTradeHistoryItem : Type 0 where
    pub id : x.Text
    pub price : x.Text
    pub amount : x.Text
    pub side : Side
    pub role : Role
    pub fee_amount : x.Text
    pub fee_asset : Asset
    pub created_at : x.Text

  -- The `where` of `findUserHistory`.
  unfoldable pub is_trade_of : (user_id : ℕ) → (id : Option x.Text) → List Order → Trade → Bool
  unfolding is_order_of
  is_trade_of user_id id orders t =
      has_prefix x (build_id_prefix_filter x id) t.id
      && (is_order_of user_id t.buy_order_id orders || is_order_of user_id t.sell_order_id orders)

  -- `findUserHistory`
  unfoldable pub find_user_history :
      (user_id page page_size : ℕ) → (id : Option x.Text) → List Order → List Trade → List Trade × ℕ
  unfolding is_trade_of where_rows sort_rows length rows_of_page
  find_user_history user_id page page_size id orders trades =
      let rows = where_rows (is_trade_of user_id id orders) trades in
      (rows_of_page page page_size (sort_rows (is_newer_trade x) rows), length rows)

  abbrev pub role_fee : Role → Trade → ℕ × Asset
  role_fee taker t = (t.taker_fee_amount, t.taker_fee_asset)
  role_fee maker t = (t.maker_fee_amount, t.maker_fee_asset)

  -- `toUserTradeHistoryItem`
  abbrev pub to_user_trade_history_item : Side → Role → Trade → UserTradeHistoryItem
  to_user_trade_history_item side role t = record {
    id = x.id_text t.id;
    price = x.to_fixed t.price;
    amount = x.to_fixed t.amount;
    side = side;
    role = role;
    fee_amount = x.to_fixed (role_fee role t).0;
    fee_asset = (role_fee role t).1;
    created_at = x.to_iso_string (x.created_at t.id);
  }

  -- The body of the `map` of `getUserHistory`.
  unfoldable pub history_item : (user_id : ℕ) → List Order → Trade → UserTradeHistoryItem
  unfolding is_order_of
  history_item user_id orders t =
      to_user_trade_history_item (if is_order_of user_id t.buy_order_id orders then buy else sell)
        (if is_order_of user_id t.taker_order_id orders then taker else maker) t

  -- `getUserHistory`
  unfoldable pub get_user_history :
      (user_id page page_size : ℕ)
      → (id : Option x.Text) → List Order
      → List Trade
      → PaginatedResponse UserTradeHistoryItem
  unfolding find_user_history build_paginated_response history_item
  get_user_history user_id page page_size id orders trades =
      let found = find_user_history user_id page page_size id orders trades in
      build_paginated_response (map (history_item user_id orders) found.0) page page_size found.1
