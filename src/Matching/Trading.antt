-- ===== src/Matching/Trading.antt =====
-- The body of the matching loop, for a maker that trades: the whole of it, and the invariant behind it.
use exchange_matching.Base.{
  ℕ, suc, ◌+◌, ◌-◌, ◌≤◌, ◌<◌, ◌≡◌, inl, inr, pos, ok, true, arith, List, [], ◌∷◌, ◌++◌,
}
use exchange_matching.Decimal.{decimal_max}
use exchange_matching.Decimal.Laws.{cost, subtract_scaled-le, add_scaled-pos}
use exchange_matching.Database.{Db, Order, Wallet, order_check}
use exchange_matching.Database.Laws.{update_remaining-eq}
use exchange_matching.Wallets.Effects.{with_wallet}
use exchange_matching.OrderBook.{Waits}
use exchange_matching.Settlement.Fees.{build_fee_details-eq}
use exchange_matching.Ledger.{ValidBut}
use exchange_matching.Ledger.Holds.{with_remaining}
use exchange_matching.Matching.Loop.{Progress, trade_with, add_user, maker_status}
use exchange_matching.Matching.Meeting.{Meeting, buy-CanSettle, sell-CanSettle}
use exchange_matching.Matching.Money.{
  order_check-maker_after, cost-pos, buy-ValidBut, sell-ValidBut,
}
use exchange_matching.Matching.Step.{
  Side-cases, traded, taker_wallet_after, maker_wallet_after, trade_row, apply_trade_balances-eq,
  create_trade-eq, r-le-max, maker-le-max,
}

-- The variables of the loop with `r` left and `k` matched.
abbrev pub progress : (r k : ℕ) (affected trade_ids : List ℕ) → Progress
progress r k us ts = record { remaining = pos r; matched = pos k; affected = us; trade_ids = ts }

order_check-price : (o : Order) → order_check o ≡ true → 0 < o.price
unfolding order_check
order_check-price o h = ground arith

module _ (taker maker : Order) (r q : ℕ) (tw mw : Wallet) (d : Db)
    (m : Meeting taker maker r q tw mw d) where
  pub traded_cost-le-max : cost q maker.price ≤ decimal_max
  traded_cost-le-max = elim (Side-cases taker.side) [
    | inl s ↦
        let can = buy-CanSettle taker maker r q tw mw d m s in
        omega (arith, can.covers, can.buyer_reserve, can.buyer_range.reserved_usd_le)
    | inr s ↦
        let can = sell-CanSettle taker maker r q tw mw d m s in
        omega (arith, can.covers, can.buyer_reserve, can.buyer_range.reserved_usd_le)
  ]

  pub traded-ValidBut :
      ValidBut taker (with_remaining taker (r - q)) (traded taker maker r q tw mw d)
  traded-ValidBut = elim (Side-cases taker.side) [
    | inl s ↦ ground (arith, s, buy-ValidBut taker maker r q tw mw d m s)
    | inr s ↦ ground (arith, s, sell-ValidBut taker maker r q tw mw d m s)
  ]

-- The trade goes through, whatever was committed while it waited for the wallets: `d` is the database
-- at the end of that wait.
pub trade_with-eq :
    (waits : Waits) (locked : List ℕ) (taker maker : Order) (r q k : ℕ) (us ts : List ℕ)
    (tw mw : Wallet) (d₀ : Db)
    → let d = waits.for_wallets locked maker.user_id d₀ in
      Meeting taker maker r q tw mw d
      → k + q ≤ decimal_max
      → trade_with waits locked taker maker (pos q) (progress r k us ts) d₀
        ≡ ok (
          progress (r - q) (k + q) (add_user maker.user_id us) (ts ++ d.next_trade ∷ []),
          traded taker maker r q tw mw d,
        )
unfolding trade_with
trade_with-eq waits locked taker maker r q k us ts tw mw d₀ m h =
    let d = waits.for_wallets locked maker.user_id d₀ in
    let checked = m.valid.sound.rows_checked maker.id maker m.maker_row in
    let q-le = maker-le-max taker maker r q tw mw d m in
    let d₁ =
      with_wallet maker.user_id (maker_wallet_after taker maker q mw)
        (with_wallet taker.user_id (taker_wallet_after taker maker r q tw) d) in
    let d₂ = record d₁ {
      trades = d.trades ++ trade_row taker maker q d.next_trade ∷ [];
      next_trade = suc d.next_trade;
    } in
    ground (
      arith,
      m.taker_wallet,
      m.maker_wallet,
      apply_trade_balances-eq taker maker r q tw mw d m,
      build_fee_details-eq taker.side q maker.price (omega (arith, m.within_maker))
          (traded_cost-le-max taker maker r q tw mw d m),
      subtract_scaled-le maker.remaining_amount q m.within_maker q-le,
      create_trade-eq taker maker q d₁ (cost-pos q maker.price m.positive)
          (omega (arith, m.within_maker)) (order_check-price maker checked)
          (m.valid.sound.rows_fit maker.id maker m.maker_row).1
          (traded_cost-le-max taker maker r q tw mw d m),
      update_remaining-eq maker.id maker d₂ m.maker_row (maker.remaining_amount - q)
          (maker_status (pos (maker.remaining_amount - q))) (omega arith)
          (order_check-maker_after maker q checked (cost-pos q maker.price m.positive)
            m.within_maker),
      subtract_scaled-le r q m.within_taker (r-le-max taker maker r q tw mw d m),
      add_scaled-pos k q h,
    )
