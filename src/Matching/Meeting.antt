-- ===== src/Matching/Meeting.antt =====
-- A taker meets a maker: the facts under which a trade is settled, and that the wallets can take it.
use native.Mathlib.Nat.{le_refl}
use exchange_matching.Base.{ℕ, ◌+◌, ◌≤◌, ◌<◌, ◌≡◌, ◌≢◌, sym, some, true, arith}
use exchange_matching.Table.{find, sum_by-find-le, sum_by-two-le}
use exchange_matching.Decimal.{decimal_max}
use exchange_matching.Decimal.Laws.{cost}
use exchange_matching.Database.{Db, Order, Wallet, buy, sell, order_key, wallet_key}
use exchange_matching.Orders.{is_active_status}
use exchange_matching.OrderBook.{opposes, crosses}
use exchange_matching.Settlement.{maker_fee_rate, taker_fee_rate}
use exchange_matching.Settlement.Debit.{debit, cost-le-debit}
use exchange_matching.Settlement.Trades.{net, CanSettle}
use exchange_matching.Ledger.{usd_of, btc_of, hold_usd, hold_btc, ValidBut}
use exchange_matching.Ledger.Holds.{
  with_remaining, hold_usd-sell, hold_btc-buy, hold_usd-buy, hold_btc-sell,
}
use exchange_matching.Ledger.Moves.{Sound-IsInRange}

-- `r` is what is left of the taker, `q` the amount of the trade.
pub record Meeting (taker maker : Order) (r q : ℕ) (tw mw : Wallet) (d : Db) : Type 0 where
  pub valid : ValidBut taker (with_remaining taker r) d
  pub taker_row : find order_key taker.id d.orders ≡ some taker
  pub maker_row : find order_key maker.id d.orders ≡ some maker
  pub taker_wallet : find wallet_key taker.user_id d.wallets ≡ some tw
  pub maker_wallet : find wallet_key maker.user_id d.wallets ≡ some mw
  pub taker_active : is_active_status taker.status ≡ true
  pub maker_active : is_active_status maker.status ≡ true
  pub opposed : opposes taker.side maker.side ≡ true
  pub crossing : crosses taker.side taker.price maker.price ≡ true
  pub strangers : maker.user_id ≢ taker.user_id
  pub remaining_le : r ≤ taker.original_amount
  pub within_taker : q ≤ r
  pub within_maker : q ≤ maker.remaining_amount
  pub positive : 0 < cost q maker.price

module _ (taker maker : Order) (r q : ℕ) (tw mw : Wallet) (d : Db)
    (m : Meeting taker maker r q tw mw d) where
  pub maker_sells : taker.side ≡ buy → maker.side ≡ sell
  maker_sells s = ground (arith, m.opposed)

  pub maker_buys : taker.side ≡ sell → maker.side ≡ buy
  maker_buys s = ground (arith, m.opposed)

  pub price_within_buy : taker.side ≡ buy → maker.price ≤ taker.price
  price_within_buy s = ground (arith, m.crossing)

  -- The reserved balance of the taker covers what is left of it.
  pub taker_usd : taker.side ≡ buy → cost r taker.price ≤ tw.reserved_usd
  taker_usd s = omega (
    arith,
    m.valid.usd_backed taker.user_id tw m.taker_wallet,
    sum_by-find-le order_key (hold_usd taker.user_id) taker.id d.orders taker m.taker_row,
    hold_usd-buy (with_remaining taker r) s m.taker_active,
  )

  pub taker_btc : taker.side ≡ sell → r ≤ tw.reserved_btc
  taker_btc s = omega (
    arith,
    m.valid.btc_backed taker.user_id tw m.taker_wallet,
    sum_by-find-le order_key (hold_btc taker.user_id) taker.id d.orders taker m.taker_row,
    hold_btc-sell (with_remaining taker r) s m.taker_active,
  )

  -- So does the reserved balance of the maker.
  pub maker_btc : taker.side ≡ buy → maker.remaining_amount ≤ mw.reserved_btc
  maker_btc s = omega (
    arith,
    m.valid.btc_backed maker.user_id mw m.maker_wallet,
    sum_by-find-le order_key (hold_btc maker.user_id) maker.id d.orders maker m.maker_row,
    hold_btc-sell maker (maker_sells s) m.maker_active,
    hold_btc-buy taker maker.user_id s,
  )

  pub maker_usd : taker.side ≡ sell → cost maker.remaining_amount maker.price ≤ mw.reserved_usd
  maker_usd s = omega (
    arith,
    m.valid.usd_backed maker.user_id mw m.maker_wallet,
    sum_by-find-le order_key (hold_usd maker.user_id) maker.id d.orders maker m.maker_row,
    hold_usd-buy maker (maker_buys s) m.maker_active,
    hold_usd-sell taker maker.user_id s,
  )

  -- The two wallets together hold no more than fits a column.
  pub usd_pair : usd_of tw + usd_of mw ≤ decimal_max
  usd_pair = omega (
    arith,
    m.valid.sound.usd_fits,
    sum_by-two-le wallet_key usd_of taker.user_id maker.user_id d.wallets tw mw
        (λ e. m.strangers (sym e)) m.taker_wallet m.maker_wallet,
  )

  pub btc_pair : btc_of tw + btc_of mw ≤ decimal_max
  btc_pair = omega (
    arith,
    m.valid.sound.btc_fits,
    sum_by-two-le wallet_key btc_of taker.user_id maker.user_id d.wallets tw mw
        (λ e. m.strangers (sym e)) m.taker_wallet m.maker_wallet,
  )

  pub buy-CanSettle :
      taker.side ≡ buy
      → CanSettle tw mw
          (debit r taker.price q)
          (cost q maker.price)
          q
          (net q taker_fee_rate)
          (net (cost q maker.price) maker_fee_rate)
  buy-CanSettle s =
      let covers = cost-le-debit r taker.price q maker.price m.within_taker (price_within_buy s) in
      let reserve = taker_usd s in
      let stock = maker_btc s in
      record {
        buyer_range =
            Sound-IsInRange d.wallets d.orders d.next_order taker.user_id tw m.valid.sound
              m.taker_wallet;
        seller_range =
            Sound-IsInRange d.wallets d.orders d.next_order maker.user_id mw m.valid.sound
              m.maker_wallet;
        covers = covers;
        buyer_reserve = omega arith;
        buyer_refund = omega (arith, usd_pair);
        buyer_credit = omega (arith, btc_pair, m.within_maker);
        seller_reserve = omega (arith, m.within_maker);
        seller_credit = omega (arith, usd_pair);
      }

  pub sell-CanSettle :
      taker.side ≡ sell
      → CanSettle mw tw
          (debit maker.remaining_amount maker.price q)
          (cost q maker.price)
          q
          (net q maker_fee_rate)
          (net (cost q maker.price) taker_fee_rate)
  sell-CanSettle s =
      let covers =
        cost-le-debit maker.remaining_amount maker.price q maker.price m.within_maker
          (le_refl maker.price) in
      let reserve = maker_usd s in
      let stock = taker_btc s in
      record {
        buyer_range =
            Sound-IsInRange d.wallets d.orders d.next_order maker.user_id mw m.valid.sound
              m.maker_wallet;
        seller_range =
            Sound-IsInRange d.wallets d.orders d.next_order taker.user_id tw m.valid.sound
              m.taker_wallet;
        covers = covers;
        buyer_reserve = omega arith;
        buyer_refund = omega (arith, usd_pair);
        buyer_credit = omega (arith, btc_pair, m.within_taker);
        seller_reserve = omega (arith, m.within_taker);
        seller_credit = omega (arith, usd_pair);
      }
