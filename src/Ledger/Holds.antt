-- ===== src/Ledger/Holds.antt =====
-- What the orders of each side hold of the two reserved balances.
use exchange_matching.Base.{ℕ, ◌≡◌, ◌≢◌, true, false, arith}
use exchange_matching.Decimal.Laws.{cost}
use exchange_matching.Database.{Order, buy, sell}
use exchange_matching.Orders.{is_active_status}
use exchange_matching.Ledger.{hold_usd, hold_btc}

-- The order with another remaining amount, as the matching loop keeps its taker.
abbrev pub with_remaining : Order → ℕ → Order
with_remaining o r = record o { remaining_amount = r }

module _ (o : Order) where
  pub hold_usd-other : (v : ℕ) → o.user_id ≢ v → hold_usd v o ≡ 0
  unfolding hold_usd
  hold_usd-other v h = ground arith

  pub hold_btc-other : (v : ℕ) → o.user_id ≢ v → hold_btc v o ≡ 0
  unfolding hold_btc
  hold_btc-other v h = ground arith

  pub hold_usd-sell : (v : ℕ) → o.side ≡ sell → hold_usd v o ≡ 0
  unfolding hold_usd
  hold_usd-sell v h = ground arith

  pub hold_btc-buy : (v : ℕ) → o.side ≡ buy → hold_btc v o ≡ 0
  unfolding hold_btc
  hold_btc-buy v h = ground arith

  pub hold_usd-inactive : (v : ℕ) → is_active_status o.status ≡ false → hold_usd v o ≡ 0
  unfolding hold_usd
  hold_usd-inactive v h = ground arith

  pub hold_btc-inactive : (v : ℕ) → is_active_status o.status ≡ false → hold_btc v o ≡ 0
  unfolding hold_btc
  hold_btc-inactive v h = ground arith

  pub hold_usd-buy :
      o.side ≡ buy
      → is_active_status o.status ≡ true
      → hold_usd o.user_id o ≡ cost o.remaining_amount o.price
  unfolding hold_usd
  hold_usd-buy s a = ground arith

  pub hold_btc-sell :
      o.side ≡ sell → is_active_status o.status ≡ true → hold_btc o.user_id o ≡ o.remaining_amount
  unfolding hold_btc
  hold_btc-sell s a = ground arith
