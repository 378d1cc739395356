-- ===== src/Matching/Step.antt =====
-- One trade of the matching loop: it always goes through, and this is the database that it leaves.
use native.Mathlib.Nat.{le_refl}
use exchange_matching.Base.{
  ℕ, suc, ◌-◌, ◌≤◌, ◌<◌, ◌≡◌, refl, sym, ap, ◌∙◌, ◌⊎◌, inl, inr, pos, ok, true, arith, [], ◌∷◌,
  ◌++◌,
}
use exchange_matching.Table.{find, find-key}
use exchange_matching.Decimal.{decimal_max}
use exchange_matching.Decimal.Laws.{cost, assert_positive_order_cost-pos}
use exchange_matching.Database.{
  Db, Order, Wallet, Side, buy, sell, wallet_key, order_check, Trade, to_column, insert_trade,
  trade_check,
}
use exchange_matching.Wallets.Effects.{bought, sold, with_wallet}
use exchange_matching.Settlement.{maker_fee_rate, taker_fee_rate, fee_details, apply_trade_balances}
use exchange_matching.Settlement.Fees.{fee_asset, opposite, maker_fee, taker_fee}
use exchange_matching.Settlement.Debit.{debit}
use exchange_matching.Settlement.Trades.{
  net, fee-le, apply_buy_taker_balances-eq, apply_sell_taker_balances-eq,
}
use exchange_matching.Matching.Loop.{create_trade}
use exchange_matching.Matching.Meeting.{
  Meeting, taker_usd, maker_usd, price_within_buy, buy-CanSettle, sell-CanSettle,
}
use exchange_matching.Matching.Money.{maker_after, settled}

pub Side-cases : (s : Side) → (s ≡ buy) ⊎ (s ≡ sell)
Side-cases buy = inl refl
Side-cases sell = inr refl

pub order_check-remaining :
    (o : Order) → order_check o ≡ true → o.remaining_amount ≤ o.original_amount
unfolding order_check
order_check-remaining o h = ground arith

-- The wallet of the taker, and that of the maker, after a trade of `q` with `r` left before it.
abbrev pub taker_wallet_after : (taker maker : Order) (r q : ℕ) → Wallet → Wallet
taker_wallet_after taker maker r q w = elim taker.side [
  | buy ↦
      bought w (debit r taker.price q) (debit r taker.price q - cost q maker.price)
        (net q taker_fee_rate)
  | sell ↦ sold w q (net (cost q maker.price) taker_fee_rate)
]

abbrev pub maker_wallet_after : (taker maker : Order) (q : ℕ) → Wallet → Wallet
maker_wallet_after taker maker q w = elim taker.side [
  | buy ↦ sold w q (net (cost q maker.price) maker_fee_rate)
  | sell ↦
      bought w (debit maker.remaining_amount maker.price q)
        (debit maker.remaining_amount maker.price q - cost q maker.price) (net q maker_fee_rate)
]

module _ (taker maker : Order) (r q : ℕ) (tw mw : Wallet) (d : Db)
    (m : Meeting taker maker r q tw mw d) where
  pub r-le-max : r ≤ decimal_max
  r-le-max = omega (arith, m.remaining_le, (m.valid.sound.rows_fit taker.id taker m.taker_row).0)

  -- The constraints of the table bound what is left of the maker.
  pub maker-le-max : maker.remaining_amount ≤ decimal_max
  maker-le-max = omega (
    arith,
    order_check-remaining maker (m.valid.sound.rows_checked maker.id maker m.maker_row),
    (m.valid.sound.rows_fit maker.id maker m.maker_row).0,
  )

  pub apply_trade_balances-eq :
      apply_trade_balances taker (pos r) maker tw mw (pos q) (pos maker.price) d
      ≡ ok (
        tt,
        with_wallet maker.user_id
            (maker_wallet_after taker maker q mw)
            (with_wallet taker.user_id (taker_wallet_after taker maker r q tw) d),
      )
  unfolding apply_trade_balances
  apply_trade_balances-eq =
      let owner = find-key wallet_key taker.user_id d.wallets tw m.taker_wallet in
      let owner' = find-key wallet_key maker.user_id d.wallets mw m.maker_wallet in
      elim (Side-cases taker.side) [
        | inl s ↦
            let can = buy-CanSettle taker maker r q tw mw d m s in
            let bound = taker_usd taker maker r q tw mw d m s in
            ground (
              arith,
              s,
              owner,
              owner',
              can.covers,
              can.buyer_reserve,
              can.buyer_range.reserved_usd_le,
              assert_positive_order_cost-pos q maker.price m.positive,
              apply_buy_taker_balances-eq tw mw d
                  (ap (λ (k : ℕ). find wallet_key k d.wallets) owner ∙ m.taker_wallet)
                  (ap (λ (k : ℕ). find wallet_key k d.wallets) owner' ∙ m.maker_wallet)
                  (λ e. m.strangers (sym owner' ∙ e ∙ owner)) taker r q maker.price m.within_taker
                  r-le-max (price_within_buy taker maker r q tw mw d m s)
                  (omega (arith, can.buyer_range.reserved_usd_le)) can,
            )
        | inr s ↦
            let can = sell-CanSettle taker maker r q tw mw d m s in
            let bound = maker_usd taker maker r q tw mw d m s in
            ground (
              arith,
              s,
              owner,
              owner',
              can.covers,
              can.buyer_reserve,
              can.buyer_range.reserved_usd_le,
              assert_positive_order_cost-pos q maker.price m.positive,
              apply_sell_taker_balances-eq tw mw d
                  (ap (λ (k : ℕ). find wallet_key k d.wallets) owner ∙ m.taker_wallet)
                  (ap (λ (k : ℕ). find wallet_key k d.wallets) owner' ∙ m.maker_wallet)
                  (λ e. m.strangers (sym owner' ∙ e ∙ owner)) maker q maker.price m.within_maker
                  maker-le-max (le_refl maker.price)
                  (omega (arith, can.buyer_range.reserved_usd_le)) can,
            )
      ]

-- The row of the trade, by its number.
abbrev pub trade_row : (taker maker : Order) (q id : ℕ) → Trade
trade_row taker maker q id = record {
  id = id;
  maker_order_id = maker.id;
  taker_order_id = taker.id;
  buy_order_id = elim taker.side [ buy ↦ taker.id | sell ↦ maker.id ];
  sell_order_id = elim taker.side [ buy ↦ maker.id | sell ↦ taker.id ];
  taker_side = taker.side;
  maker_fee_rate = maker_fee_rate;
  maker_fee_amount = maker_fee taker.side q maker.price;
  maker_fee_asset = fee_asset (opposite taker.side);
  taker_fee_rate = taker_fee_rate;
  taker_fee_amount = taker_fee taker.side q maker.price;
  taker_fee_asset = fee_asset taker.side;
  price = maker.price;
  amount = q;
}

-- The database after the trade.
abbrev pub traded : (taker maker : Order) (r q : ℕ) (tw mw : Wallet) → Db → Db
traded taker maker r q tw mw d =
    record (settled d taker.user_id maker.user_id (taker_wallet_after taker maker r q tw)
      (maker_wallet_after taker maker q mw) (maker_after maker q)) {
        trades = d.trades ++ trade_row taker maker q d.next_trade ∷ [];
        next_trade = suc d.next_trade;
      }

pub create_trade-eq :
    (taker maker : Order) (q : ℕ) (d : Db)
    → 0 < q
    → q ≤ decimal_max
    → 0 < maker.price
    → maker.price ≤ decimal_max
    → cost q maker.price ≤ decimal_max
    → create_trade taker maker
        (fee_details
          (pos (maker_fee taker.side q maker.price))
          (fee_asset (opposite taker.side))
          (pos (taker_fee taker.side q maker.price))
          (fee_asset taker.side))
        (pos q)
        (pos maker.price)
        d
      ≡ ok (
        trade_row taker maker q d.next_trade,
        record d {
          trades = d.trades ++ trade_row taker maker q d.next_trade ∷ [];
          next_trade = suc d.next_trade;
        },
      )
unfolding create_trade to_column insert_trade trade_check
create_trade-eq taker maker q d p h x k c = elim (Side-cases taker.side) [
  | inl s ↦ ground (arith, s, fee-le q taker_fee_rate, fee-le (cost q maker.price) maker_fee_rate)
  | inr s ↦ ground (arith, s, fee-le q maker_fee_rate, fee-le (cost q maker.price) taker_fee_rate)
]
