-- ===== src/Queries/Market.antt =====
-- backend/src/market/market.repository.ts, backend/src/market/market.mapper.ts and
-- backend/src/market/market.service.ts, behind the parsing of the price.
use exchange_matching.Base.{
  ℕ, suc, ◌+◌, ◌*◌, ◌/◌, Bool, true, false, ◌==◌, ◌&&◌, ltb, leb, List, [], ◌∷◌, map, Option, none,
  some, if◌then◌else◌,
}
use exchange_matching.Decimal.{scale_units}
use exchange_matching.Table.{where_rows, sort_rows, length, sum_by}
use exchange_matching.Database.{Order, Trade, Side, buy, sell}
use exchange_matching.OrderBook.{is_resting, find_first}
use exchange_matching.Pagination.{PaginatedResponse, build_paginated_response, rows_of_page}
use exchange_matching.Queries.Texts.{Texts, build_id_prefix_filter, has_prefix, is_newer}

abbrev pub is_side : Side → Side → Bool
is_side buy buy = true
is_side sell sell = true
is_side _ _ = false

-- The price order of a side: bids from the highest, asks from the lowest.
abbrev pub is_better_price : Side → (price than : ℕ) → Bool
is_better_price buy price than = ltb than price
is_better_price sell price than = ltb price than

-- An order that rests on a side of the book.
abbrev pub rests_on : Side → Order → Bool
rests_on side o = is_side o.side side && is_resting o.status

-- `bestBid` and `bestAsk` of `findStats`: the price of the first resting order of the side.
abbrev pub is_ahead : Side → Order → Order → Bool
is_ahead side a b =
    if is_better_price side a.price b.price
    then true
    else (a.price == b.price && ltb a.sequence b.sequence)

abbrev pub price_of : Option Order → Option ℕ
price_of none = none
price_of (some o) = some o.price

unfoldable pub best_price : Side → List Order → Option ℕ
unfolding find_first
best_price side orders = price_of (find_first (rests_on side) (is_ahead side) orders)

-- A group of `groupBy({ by: ['price'] })`, with its sum and its count.
pub record Level : Type 0 where
  pub price : ℕ
  pub amount : ℕ
  pub order_count : ℕ

abbrev pub with_order : Order → Level → Level
with_order o l = record l {
  amount = l.amount + o.remaining_amount;
  order_count = suc l.order_count;
}

abbrev pub level_of : Order → Level
level_of o = record { price = o.price; amount = o.remaining_amount; order_count = 1 }

-- The groups are in the price order of the side.
unfoldable pub add_to_levels : Side → Order → List Level → List Level
add_to_levels side o [] = level_of o ∷ []
add_to_levels side o (l ∷ ls) =
    if l.price == o.price
    then with_order o l ∷ ls
    else (if is_better_price side o.price l.price
        then level_of o ∷ l ∷ ls
        else l ∷ add_to_levels side o ls)

unfoldable pub group_by_price : Side → List Order → List Level
unfolding add_to_levels
group_by_price side [] = []
group_by_price side (o ∷ os) = add_to_levels side o (group_by_price side os)

-- The `where` of `findOrderBookLevels`.
abbrev pub has_price : Option ℕ → ℕ → Bool
has_price none price = true
has_price (some p) price = price == p

unfoldable pub is_in_book : Side → (price : Option ℕ) → Order → Bool
is_in_book side price o = rests_on side o && has_price price o.price

-- `findOrderBookLevels`: the levels of the page, and the count of all.
unfoldable pub find_order_book_levels :
    Side → (page page_size : ℕ) → (price : Option ℕ) → List Order → List Level × ℕ
unfolding is_in_book where_rows group_by_price length rows_of_page
find_order_book_levels side page page_size price orders =
    let levels = group_by_price side (where_rows (is_in_book side price) orders) in
    (rows_of_page page page_size levels, length levels)

-- The row of `findStats` over the trades of the last day; the sum of no rows is 0, and no row has a
-- highest price.
abbrev highest : List Trade → Option ℕ
highest [] = none
highest (t ∷ ts) = elim (highest ts) [
  | none ↦ some t.price
  | some p ↦ some (if ltb p t.price then t.price else p)
]

abbrev lowest : List Trade → Option ℕ
lowest [] = none
lowest (t ∷ ts) = elim (lowest ts) [
  | none ↦ some t.price
  | some p ↦ some (if ltb t.price p then t.price else p)
]

module _ (x : Texts) where
  pub record MarketStats : Type 0 where
    pub last_price : Option ℕ
    pub btc_volume : ℕ
    pub usd_volume : ℕ
    pub high : Option ℕ
    pub low : Option ℕ
    pub best_bid : Option ℕ
    pub best_ask : Option ℕ

  -- `WHERE "created_at" >= NOW() - INTERVAL '24 hours'`, in milliseconds.
  abbrev pub is_of_last_day : (now : ℕ) → Trade → Bool
  is_of_last_day now t = leb now (x.created_at t.id + 24 * 60 * 60 * 1000)

  abbrev pub is_newer_trade : Trade → Trade → Bool
  is_newer_trade a b = is_newer x a.id a.id b.id b.id

  abbrev first_price : List Trade → Option ℕ
  first_price [] = none
  first_price (t ∷ ts) = some t.price

  -- `findStats`; `TRUNC("amount" * "price", 8)` is a quotient of units.
  unfoldable pub find_stats : (now : ℕ) → List Order → List Trade → MarketStats
  unfolding best_price where_rows sort_rows sum_by
  find_stats now orders trades =
      let recent = where_rows (is_of_last_day now) trades in
      record {
        last_price = first_price (sort_rows is_newer_trade trades);
        btc_volume = sum_by (λ t. t.amount) recent;
        usd_volume = sum_by (λ t. t.amount * t.price / scale_units) recent;
        high = highest recent;
        low = lowest recent;
        best_bid = best_price buy orders;
        best_ask = best_price sell orders;
      }

  pub record MarketStatsSummary : Type 0 where
    pub last_price : Option x.Text
    pub btc_volume : x.Text
    pub usd_volume : x.Text
    pub high : Option x.Text
    pub low : Option x.Text
    pub best_bid : Option x.Text
    pub best_ask : Option x.Text

  -- `toNullableDecimalString`
  abbrev pub to_nullable_decimal_string : Option ℕ → Option x.Text
  to_nullable_decimal_string none = none
  to_nullable_decimal_string (some units) = some (x.to_fixed units)

  -- `toMarketStatsSummary`
  abbrev pub to_market_stats_summary : MarketStats → MarketStatsSummary
  to_market_stats_summary s = record {
    last_price = to_nullable_decimal_string s.last_price;
    btc_volume = x.to_fixed s.btc_volume;
    usd_volume = x.to_fixed s.usd_volume;
    high = to_nullable_decimal_string s.high;
    low = to_nullable_decimal_string s.low;
    best_bid = to_nullable_decimal_string s.best_bid;
    best_ask = to_nullable_decimal_string s.best_ask;
  }

  -- `getStats`
  unfoldable pub get_stats : (now : ℕ) → List Order → List Trade → MarketStatsSummary
  unfolding find_stats
  get_stats now orders trades = to_market_stats_summary (find_stats now orders trades)

  pub record OrderBookLevel : Type 0 where
    pub price : x.Text
    pub amount : x.Text
    pub order_count : ℕ
    pub side : Side

  -- `toOrderBookLevel`
  abbrev pub to_order_book_level : Side → Level → OrderBookLevel
  to_order_book_level side l = record {
    price = x.to_fixed l.price;
    amount = x.to_fixed l.amount;
    order_count = l.order_count;
    side = side;
  }

  -- `getOrderBook`, from the parsed price.
  unfoldable pub get_order_book :
      Side
      → (page page_size : ℕ) → (price : Option ℕ) → List Order
      → PaginatedResponse OrderBookLevel
  unfolding find_order_book_levels build_paginated_response
  get_order_book side page page_size price orders =
      let found = find_order_book_levels side page page_size price orders in
      build_paginated_response (map (to_order_book_level side) found.0) page page_size found.1

  pub record MarketMatchSummary : Type 0 where
    pub id : x.Text
    pub price : x.Text
    pub amount : x.Text
    pub taker_side : Side
    pub created_at : x.Text

  -- `toMarketMatchSummary`
  abbrev pub to_market_match_summary : Trade → MarketMatchSummary
  to_market_match_summary t = record {
    id = x.id_text t.id;
    price = x.to_fixed t.price;
    amount = x.to_fixed t.amount;
    taker_side = t.taker_side;
    created_at = x.to_iso_string (x.created_at t.id);
  }

  abbrev pub is_match : (id : Option x.Text) → Trade → Bool
  is_match id t = has_prefix x (build_id_prefix_filter x id) t.id

  -- `findMatches`
  unfoldable pub find_matches :
      (page page_size : ℕ) → (id : Option x.Text) → List Trade → List Trade × ℕ
  unfolding where_rows sort_rows length rows_of_page
  find_matches page page_size id trades =
      let rows = where_rows (is_match id) trades in
      (rows_of_page page page_size (sort_rows is_newer_trade rows), length rows)

  -- `getMatches`
  unfoldable pub get_matches :
      (page page_size : ℕ)
      → (id : Option x.Text) → List Trade
      → PaginatedResponse MarketMatchSummary
  unfolding find_matches build_paginated_response
  get_matches page page_size id trades =
      let found = find_matches page page_size id trades in
      build_paginated_response (map to_market_match_summary found.0) page page_size found.1
