-- ===== src/Seed/Scenario.antt =====
-- backend/prisma/seed.ts, `createSeedOrdersAndTrades`: orders that rest in the book, orders that wait
-- for the matching, and a trade of the past.
use exchange_matching.Base.{ℕ, ◌+◌, List, [], ◌∷◌, ◌++◌}
use exchange_matching.Database.{
  Db, Order, Trade, Side, buy, sell, Status, queued, opened, partially_filled, filled, btc, usd,
}
use exchange_matching.Seed.Accounts.{
  decimal, seed_seller_1, seed_seller_2, seed_buyer_1, seed_queue_buyer, seed_queue_seller,
  seed_history_seller, seed_history_buyer,
}

-- The `data` of an `order.create`, for the row with the given number.
abbrev order_data :
    (id user_id : ℕ) → Side → Status → (price original_amount remaining_amount : ℕ) → Order
order_data id user_id side status price original_amount remaining_amount = record {
  id = id;
  sequence = id;
  user_id = user_id;
  side = side;
  status = status;
  price = price;
  original_amount = original_amount;
  remaining_amount = remaining_amount;
}

-- The seven orders, the first of which has the number `n`.
unfoldable pub seed_orders : (n : ℕ) → List Order
seed_orders n =
    order_data n seed_seller_1 sell opened (decimal 9000 0) (decimal 0 40000000)
      (decimal 0 40000000)
    ∷ order_data (n + 1) seed_seller_2 sell opened (decimal 9500 0) (decimal 0 30000000)
        (decimal 0 30000000)
    ∷ order_data (n + 2) seed_buyer_1 buy opened (decimal 8800 0) (decimal 0 50000000)
        (decimal 0 50000000)
    ∷ order_data (n + 3) seed_queue_buyer buy queued (decimal 10000 0) (decimal 1 0) (decimal 1 0)
    ∷ order_data (n + 4) seed_queue_seller sell queued (decimal 8700 0) (decimal 0 60000000)
        (decimal 0 60000000)
    ∷ order_data (n + 5) seed_history_seller sell partially_filled (decimal 10100 0) (decimal 1 0)
        (decimal 0 25000000)
    ∷ order_data (n + 6) seed_history_buyer buy filled (decimal 10200 0) (decimal 0 75000000)
        (decimal 0 0)
    ∷ []

-- The trade between the last two of them.
abbrev seed_trade : (id n : ℕ) → Trade
seed_trade id n = record {
  id = id;
  maker_order_id = n + 5;
  taker_order_id = n + 6;
  buy_order_id = n + 6;
  sell_order_id = n + 5;
  taker_side = buy;
  maker_fee_rate = decimal 0 500000;
  maker_fee_amount = decimal 37 87500000;
  maker_fee_asset = usd;
  taker_fee_rate = decimal 0 300000;
  taker_fee_amount = decimal 0 225000;
  taker_fee_asset = btc;
  price = decimal 10100 0;
  amount = decimal 0 75000000;
}

unfoldable pub create_seed_orders_and_trades : Db → Db
unfolding seed_orders
create_seed_orders_and_trades d = record d {
  orders = d.orders ++ seed_orders d.next_order;
  trades = d.trades ++ seed_trade d.next_trade d.next_order ∷ [];
  next_order = d.next_order + 7;
  next_trade = d.next_trade + 1;
}
