-- ===== src/Settlement.antt =====
-- backend/src/matching/trade-settlement.service.ts: what a trade does to the wallets of the two
-- users. The argument `remaining` is the taker's `remainingAmount`, which the matching loop overrides.
mod Amounts
pub mod Debit
pub mod Trades
pub mod Fees
unfoldable pub use Amounts.*
use exchange_matching.Base.{ℕ, ℤ, pos, ltb_ℤ, [], ◌∷◌, if◌then◌else◌}
use exchange_matching.Decimal.{multiply_scaled, subtract_scaled, assert_positive_order_cost}
use exchange_matching.Database.{Order, Wallet, buy, sell, Side, Action, Void, ◌>>=◌, ◌>>◌, lift}
use exchange_matching.Wallets.{
  BalanceUpdate, available_btc, reserved_btc, available_usd, reserved_usd, increment, decrement,
  update_balances,
}

-- `applyBuyTakerBalances`
unfoldable pub apply_buy_taker_balances :
    (taker : Order) (remaining : ℤ) (taker_wallet maker_wallet : Wallet) (amount price : ℤ)
    → Action Void
apply_buy_taker_balances taker remaining taker_wallet maker_wallet amount price = do
  reserved_cost ← lift (buy_reservation_debit remaining (pos taker.price) amount)
  executed_cost ← lift (multiply_scaled amount price)
  price_improvement ← lift (subtract_scaled reserved_cost executed_cost)
  taker_fee ← lift (multiply_scaled amount (pos taker_fee_rate))
  maker_fee ← lift (multiply_scaled executed_cost (pos maker_fee_rate))
  received_btc ← lift (subtract_scaled amount taker_fee)
  received_usd ← lift (subtract_scaled executed_cost maker_fee)
  update_balances taker_wallet.user_id (
      (reserved_usd, decrement reserved_cost)
      ∷ (available_usd, increment price_improvement)
      ∷ (available_btc, increment received_btc)
      ∷ [])
  update_balances maker_wallet.user_id
      ((reserved_btc, decrement amount) ∷ (available_usd, increment received_usd) ∷ [])

-- The update of the maker in `applySellTakerBalances`: a refund of nothing is left out.
abbrev maker_update : (reserved_cost refund received_btc : ℤ) → BalanceUpdate
maker_update reserved_cost refund received_btc =
    if ltb_ℤ (pos 0) refund
    then (reserved_usd, decrement reserved_cost)
      ∷ (available_usd, increment refund)
      ∷ (available_btc, increment received_btc)
      ∷ []
    else (reserved_usd, decrement reserved_cost) ∷ (available_btc, increment received_btc) ∷ []

-- `applySellTakerBalances`
unfoldable pub apply_sell_taker_balances :
    (maker : Order) (taker_wallet maker_wallet : Wallet) (amount price : ℤ) → Action Void
apply_sell_taker_balances maker taker_wallet maker_wallet amount price = do
  executed_cost ← lift (multiply_scaled amount price)
  taker_fee ← lift (multiply_scaled executed_cost (pos taker_fee_rate))
  maker_fee ← lift (multiply_scaled amount (pos maker_fee_rate))
  received_usd ← lift (subtract_scaled executed_cost taker_fee)
  received_btc ← lift (subtract_scaled amount maker_fee)
  reserved_cost ← lift (buy_reservation_debit (pos maker.remaining_amount) (pos maker.price) amount)
  rounding_refund ← lift (subtract_scaled reserved_cost executed_cost)
  update_balances taker_wallet.user_id
      ((reserved_btc, decrement amount) ∷ (available_usd, increment received_usd) ∷ [])
  update_balances maker_wallet.user_id (maker_update reserved_cost rounding_refund received_btc)

-- `applyTradeBalances`
unfoldable pub apply_trade_balances :
    (taker : Order) (remaining : ℤ) (maker : Order) (taker_wallet maker_wallet : Wallet)
    (amount price : ℤ)
    → Action Void
unfolding apply_buy_taker_balances apply_sell_taker_balances
apply_trade_balances taker remaining maker taker_wallet maker_wallet amount price = do
  lift (assert_positive_order_cost amount price)
  elim taker.side [
    | buy ↦ apply_buy_taker_balances taker remaining taker_wallet maker_wallet amount price
    | sell ↦ apply_sell_taker_balances maker taker_wallet maker_wallet amount price
  ]
