-- ===== src/Settlement/Trades.antt =====
-- The settlement of one trade: the exact wallets that it leaves, for both sides of the taker.
use native.Mathlib.Nat.{mul-le-mul_left}
use exchange_matching.Base.{ℕ, ◌+◌, ◌-◌, ◌≤◌, ◌≡◌, ◌≢◌, pos, some, ok, arith, ◌∙◌, refl}
use exchange_matching.Table.{find, find-replace_ne}
use exchange_matching.Decimal.{decimal_max, scale_units}
use exchange_matching.Decimal.Laws.{cost, multiply_scaled-pos, subtract_scaled-le}
use exchange_matching.Database.{Db, Wallet, Order, wallet_key}
use exchange_matching.Wallets.Effects.{
  IsInRange, bought, sold, with_wallet, update-bought, update-bought_no_refund, update-sold,
}
use exchange_matching.Settlement.Amounts.{maker_fee_rate, taker_fee_rate}
use exchange_matching.Settlement.Debit.{
  debit, cost-le-debit, debit-le-cost, buy_reservation_debit-eq,
}
use exchange_matching.Settlement.{apply_buy_taker_balances, apply_sell_taker_balances}

-- What is left of an amount after a fee at a rate.
abbrev pub net : ℕ → ℕ → ℕ
net a rate = a - cost a rate

pub fee-le : (a rate : ℕ) → rate ≤ scale_units → cost a rate ≤ a
fee-le a rate h = omega (arith, mul-le-mul_left a h)

-- The two wallets can take the trade: reservations cover the debits, credits stay in range.
pub record CanSettle (buyer seller : Wallet) (debit executed amount received_btc received_usd : ℕ)
    : Type 0 where
  pub buyer_range : IsInRange buyer
  pub seller_range : IsInRange seller
  pub covers : executed ≤ debit
  pub buyer_reserve : debit ≤ buyer.reserved_usd
  pub buyer_refund : buyer.available_usd + (debit - executed) ≤ decimal_max
  pub buyer_credit : buyer.available_btc + received_btc ≤ decimal_max
  pub seller_reserve : amount ≤ seller.reserved_btc
  pub seller_credit : seller.available_usd + received_usd ≤ decimal_max

module _ (tw mw : Wallet) (d : Db) (taker_found : find wallet_key tw.user_id d.wallets ≡ some tw)
    (maker_found : find wallet_key mw.user_id d.wallets ≡ some mw)
    (differ : mw.user_id ≢ tw.user_id) where
  maker_still_found :
      (w : Wallet)
      → w.user_id ≡ tw.user_id
      → find wallet_key mw.user_id (with_wallet tw.user_id w d).wallets ≡ some mw
  maker_still_found w e =
      find-replace_ne wallet_key mw.user_id tw.user_id w d.wallets differ e ∙ maker_found

  pub apply_buy_taker_balances-eq :
      (taker : Order) (r q x : ℕ)
      → q ≤ r
      → r ≤ decimal_max
      → x ≤ taker.price
      → cost r taker.price ≤ decimal_max
      → CanSettle tw mw
          (debit r taker.price q)
          (cost q x)
          q
          (net q taker_fee_rate)
          (net (cost q x) maker_fee_rate)
      → apply_buy_taker_balances taker (pos r) tw mw (pos q) (pos x) d
        ≡ ok (
          tt,
          with_wallet mw.user_id (sold mw q (net (cost q x) maker_fee_rate)) (
              with_wallet tw.user_id
                (bought tw
                  (debit r taker.price q)
                  (debit r taker.price q - cost q x)
                  (net q taker_fee_rate))
                d),
        )
  unfolding apply_buy_taker_balances
  apply_buy_taker_balances-eq taker r q x hq hr hx hc can = ground (
    arith,
    buy_reservation_debit-eq r taker.price q,
    multiply_scaled-pos q x,
    cost-le-debit r taker.price q x hq hx,
    debit-le-cost r taker.price q,
    subtract_scaled-le (debit r taker.price q) (cost q x),
    fee-le q taker_fee_rate,
    fee-le (cost q x) maker_fee_rate,
    multiply_scaled-pos q taker_fee_rate,
    multiply_scaled-pos (cost q x) maker_fee_rate,
    subtract_scaled-le q (cost q taker_fee_rate),
    subtract_scaled-le (cost q x) (cost (cost q x) maker_fee_rate),
    update-bought tw.user_id tw d taker_found can.buyer_range (debit r taker.price q)
        (debit r taker.price q - cost q x) (net q taker_fee_rate) can.buyer_reserve can.buyer_refund
        can.buyer_credit,
    update-sold mw.user_id mw
        (with_wallet tw.user_id
          (bought tw (debit r taker.price q) (debit r taker.price q - cost q x)
            (net q taker_fee_rate))
          d)
        (maker_still_found
          (bought tw (debit r taker.price q) (debit r taker.price q - cost q x)
            (net q taker_fee_rate))
          refl)
        can.seller_range q (net (cost q x) maker_fee_rate) can.seller_reserve can.seller_credit,
  )

  pub apply_sell_taker_balances-eq :
      (maker : Order) (q x : ℕ)
      → q ≤ maker.remaining_amount
      → maker.remaining_amount ≤ decimal_max
      → x ≤ maker.price
      → cost maker.remaining_amount maker.price ≤ decimal_max
      → CanSettle mw tw
          (debit maker.remaining_amount maker.price q)
          (cost q x)
          q
          (net q maker_fee_rate)
          (net (cost q x) taker_fee_rate)
      → apply_sell_taker_balances maker tw mw (pos q) (pos x) d
        ≡ ok (
          tt,
          with_wallet mw.user_id
              (bought mw
                (debit maker.remaining_amount maker.price q)
                (debit maker.remaining_amount maker.price q - cost q x)
                (net q maker_fee_rate))
              (with_wallet tw.user_id (sold tw q (net (cost q x) taker_fee_rate)) d),
        )
  unfolding apply_sell_taker_balances
  apply_sell_taker_balances-eq maker q x hq hr hx hc can =
      let r = maker.remaining_amount in
      let p = maker.price in
      let d' = with_wallet tw.user_id (sold tw q (net (cost q x) taker_fee_rate)) d in
      let still = maker_still_found (sold tw q (net (cost q x) taker_fee_rate)) refl in
      ground (
        arith,
        buy_reservation_debit-eq r p q,
        multiply_scaled-pos q x,
        cost-le-debit r p q x hq hx,
        debit-le-cost r p q,
        subtract_scaled-le (debit r p q) (cost q x),
        fee-le q maker_fee_rate,
        fee-le (cost q x) taker_fee_rate,
        multiply_scaled-pos q maker_fee_rate,
        multiply_scaled-pos (cost q x) taker_fee_rate,
        subtract_scaled-le q (cost q maker_fee_rate),
        subtract_scaled-le (cost q x) (cost (cost q x) taker_fee_rate),
        update-sold tw.user_id tw d taker_found can.seller_range q (net (cost q x) taker_fee_rate)
            can.seller_reserve can.seller_credit,
        update-bought mw.user_id mw d' still can.buyer_range (debit r p q) (debit r p q - cost q x)
            (net q maker_fee_rate) can.buyer_reserve can.buyer_refund can.buyer_credit,
        update-bought_no_refund mw.user_id mw d' still can.buyer_range (debit r p q)
            (net q maker_fee_rate) can.buyer_reserve can.buyer_credit,
      )
