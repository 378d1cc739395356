-- ===== src/Matching/Conservation.antt =====
-- No trade makes or loses money: what leaves the wallets is what the trade's row says as fees.
use exchange_matching.Base.{ℕ, ◌+◌, ◌≡◌, sym, inl, inr, arith}
use exchange_matching.Table.{sum_by-replace_two, sum_by-append_one, find-key}
use exchange_matching.Decimal.Laws.{cost}
use exchange_matching.Database.{Db, Order, Wallet, wallet_key}
use exchange_matching.Settlement.{maker_fee_rate, taker_fee_rate}
use exchange_matching.Settlement.Trades.{fee-le}
use exchange_matching.Ledger.{usd_of, btc_of, usd_fees, btc_fees, usd_total, btc_total}
use exchange_matching.Matching.Meeting.{Meeting, buy-CanSettle, sell-CanSettle}
use exchange_matching.Matching.Step.{
  Side-cases, traded, taker_wallet_after, maker_wallet_after, trade_row,
}

module _ (taker maker : Order) (r q : ℕ) (tw mw : Wallet) (d : Db)
    (m : Meeting taker maker r q tw mw d) where
  w : Wallet
  w = taker_wallet_after taker maker r q tw

  w' : Wallet
  w' = maker_wallet_after taker maker q mw

  usd_pair-eq :
      usd_of w + usd_of w' + usd_fees (trade_row taker maker q d.next_trade) ≡ usd_of tw + usd_of mw
  unfolding w w'
  usd_pair-eq = elim (Side-cases taker.side) [
    | inl s ↦
        let can = buy-CanSettle taker maker r q tw mw d m s in
        ground (arith, s, can.covers, can.buyer_reserve, fee-le (cost q maker.price) maker_fee_rate)
    | inr s ↦
        let can = sell-CanSettle taker maker r q tw mw d m s in
        ground (arith, s, can.covers, can.buyer_reserve, fee-le (cost q maker.price) taker_fee_rate)
  ]

  btc_pair-eq :
      btc_of w + btc_of w' + btc_fees (trade_row taker maker q d.next_trade) ≡ btc_of tw + btc_of mw
  unfolding w w'
  btc_pair-eq = elim (Side-cases taker.side) [
    | inl s ↦
        let can = buy-CanSettle taker maker r q tw mw d m s in
        ground (arith, s, can.seller_reserve, fee-le q taker_fee_rate)
    | inr s ↦
        let can = sell-CanSettle taker maker r q tw mw d m s in
        ground (arith, s, can.seller_reserve, fee-le q maker_fee_rate)
  ]

  owner : w.user_id ≡ taker.user_id
  unfolding w
  owner = elim (Side-cases taker.side) [
    | inl s ↦ ground (arith, s, find-key wallet_key taker.user_id d.wallets tw m.taker_wallet)
    | inr s ↦ ground (arith, s, find-key wallet_key taker.user_id d.wallets tw m.taker_wallet)
  ]

  pub traded-usd_total : usd_total (traded taker maker r q tw mw d) ≡ usd_total d
  unfolding usd_total w w'
  traded-usd_total = omega (
    arith,
    usd_pair-eq,
    sum_by-append_one usd_fees d.trades (trade_row taker maker q d.next_trade),
    sum_by-replace_two wallet_key usd_of taker.user_id maker.user_id w w' d.wallets tw mw
        (λ e. m.strangers (sym e)) m.taker_wallet m.maker_wallet owner,
  )

  pub traded-btc_total : btc_total (traded taker maker r q tw mw d) ≡ btc_total d
  unfolding btc_total w w'
  traded-btc_total = omega (
    arith,
    btc_pair-eq,
    sum_by-append_one btc_fees d.trades (trade_row taker maker q d.next_trade),
    sum_by-replace_two wallet_key btc_of taker.user_id maker.user_id w w' d.wallets tw mw
        (λ e. m.strangers (sym e)) m.taker_wallet m.maker_wallet owner,
  )
