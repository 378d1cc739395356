-- ===== src/Matching/Money.antt =====
-- The money after a trade is settled: what the two users hold in reserve is again what their orders
-- need, and nothing was made.
use exchange_matching.Base.{ℕ, zero, suc, ◌+◌, ◌-◌, ◌≤◌, ◌<◌, ◌≡◌, ◌≢◌, refl, sym, pos, true, arith}
use exchange_matching.Table.{replace, sum_by, sum_by-replace, find-key}
use exchange_matching.Decimal.Laws.{cost}
use exchange_matching.Database.{Db, Order, Wallet, buy, sell, order_key, wallet_key, order_check}
use exchange_matching.Wallets.Effects.{bought, sold}
use exchange_matching.Settlement.{maker_fee_rate, taker_fee_rate}
use exchange_matching.Settlement.Debit.{debit, cost_mono}
use exchange_matching.Settlement.Trades.{net}
use exchange_matching.Ledger.{usd_of, btc_of, hold_usd, hold_btc, ValidBut, Sound, Covers}
use exchange_matching.Ledger.Holds.{
  with_remaining, hold_usd-other, hold_btc-other, hold_usd-sell, hold_btc-buy, hold_usd-buy,
  hold_btc-sell,
}
use exchange_matching.Ledger.Moves.{Covers-replace_two, Sound-replace_two, Sound-replace_order}
use exchange_matching.Matching.Loop.{maker_status}
use exchange_matching.Matching.Meeting.{
  Meeting, maker_sells, maker_buys, buy-CanSettle, sell-CanSettle,
}

-- The row of the maker after a trade of `q`.
abbrev pub maker_after : Order → ℕ → Order
maker_after o q = record o {
  status = maker_status (pos (o.remaining_amount - q));
  remaining_amount = o.remaining_amount - q;
}

module _ (o : Order) (q : ℕ) where
  pub hold_usd-maker_after :
      o.side ≡ buy → hold_usd o.user_id (maker_after o q) ≡ cost (o.remaining_amount - q) o.price
  unfolding hold_usd
  hold_usd-maker_after s = ground arith

  pub hold_btc-maker_after :
      o.side ≡ sell → hold_btc o.user_id (maker_after o q) ≡ o.remaining_amount - q
  unfolding hold_btc
  hold_btc-maker_after s = ground arith

  -- The row meets the constraints of the table.
  pub order_check-maker_after :
      order_check o ≡ true → 0 < q → q ≤ o.remaining_amount → order_check (maker_after o q) ≡ true
  unfolding order_check
  order_check-maker_after c p h = ground arith

pub cost-pos : (q p : ℕ) → 0 < cost q p → 0 < q
cost-pos zero p h = absurd (omega arith)
cost-pos (suc q) p h = omega arith

-- The database after both writes of a trade: wallets and the maker's row.
abbrev pub settled : Db → (taker maker : ℕ) → (w w' : Wallet) → Order → Db
settled d tu mu w w' o = record d {
  wallets = replace wallet_key mu w' (replace wallet_key tu w d.wallets);
  orders = replace order_key o.id o d.orders;
}

module _ (taker maker : Order) (r q : ℕ) (tw mw : Wallet) (d : Db)
    (m : Meeting taker maker r q tw mw d) where
  -- One reserved balance: each user's column follows the order of the user.
  settled-Covers :
      (column : Wallet → ℕ) (hold : ℕ → Order → ℕ) (w w' : Wallet)
      → ((o : Order) (v : ℕ) → o.user_id ≢ v → hold v o ≡ 0)
      → Covers column
          (λ u. hold u taker)
          (λ u. sum_by (hold u) d.orders + hold u (with_remaining taker r))
          d.wallets
      → w.user_id ≡ taker.user_id
      → w'.user_id ≡ maker.user_id
      → column w + hold taker.user_id (with_remaining taker r)
        ≡ column tw + hold taker.user_id (with_remaining taker (r - q))
      → column w' + hold maker.user_id maker ≡ column mw + hold maker.user_id (maker_after maker q)
      → Covers column
          (λ u. hold u taker)
          (λ u.
            sum_by (hold u) (replace order_key maker.id (maker_after maker q) d.orders)
            + hold u (with_remaining taker (r - q)))
          (replace wallet_key maker.user_id w' (replace wallet_key taker.user_id w d.wallets))
  settled-Covers column hold w w' other c e e' t t' =
      Covers-replace_two column (λ u. hold u taker) _ _ d.wallets taker.user_id maker.user_id tw w
        mw w' c m.strangers m.taker_wallet m.maker_wallet e e'
        (λ k nt nm. omega (
          arith,
          row k,
          other maker k (λ p. nm (sym p)),
          other (maker_after maker q) k (λ p. nm (sym p)),
          other (with_remaining taker r) k (λ p. nt (sym p)),
          other (with_remaining taker (r - q)) k (λ p. nt (sym p)),
        ))
        (omega (
          arith,
          t,
          row taker.user_id,
          other maker taker.user_id m.strangers,
          other (maker_after maker q) taker.user_id m.strangers,
        ))
        (omega (
          arith,
          t',
          row maker.user_id,
          other (with_remaining taker r) maker.user_id (λ p. m.strangers (sym p)),
          other (with_remaining taker (r - q)) maker.user_id (λ p. m.strangers (sym p)),
        ))
    where
      row :
          (k : ℕ)
          → sum_by (hold k) (replace order_key maker.id (maker_after maker q) d.orders)
              + hold k maker
            ≡ sum_by (hold k) d.orders + hold k (maker_after maker q)
      row k =
          sum_by-replace order_key (hold k) maker.id (maker_after maker q) d.orders maker
            m.maker_row

  settled-Sound :
      (w w' : Wallet)
      → w.user_id ≡ taker.user_id
      → w'.user_id ≡ maker.user_id
      → usd_of w + usd_of w' ≤ usd_of tw + usd_of mw
      → btc_of w + btc_of w' ≤ btc_of tw + btc_of mw
      → let d' = settled d taker.user_id maker.user_id w w' (maker_after maker q) in
        Sound d'.wallets d'.orders d'.next_order
  settled-Sound w w' e e' usd btc =
      Sound-replace_order _ d.orders d.next_order maker.id maker (maker_after maker q)
        (Sound-replace_two d.wallets d.orders d.next_order taker.user_id maker.user_id tw w mw w'
          m.valid.sound m.strangers m.taker_wallet m.maker_wallet e e' usd btc)
        m.maker_row refl refl
        (order_check-maker_after maker q (m.valid.sound.rows_checked maker.id maker m.maker_row)
          (cost-pos q maker.price m.positive) m.within_maker)
        refl refl

  -- A BUY taker: the taker's wallet has bought, the maker's has sold.
  pub buy-ValidBut :
      taker.side ≡ buy
      → ValidBut taker (with_remaining taker (r - q)) (
          settled d taker.user_id maker.user_id
            (bought tw
              (debit r taker.price q)
              (debit r taker.price q - cost q maker.price)
              (net q taker_fee_rate))
            (sold mw q (net (cost q maker.price) maker_fee_rate))
            (maker_after maker q))
  buy-ValidBut s =
      let can = buy-CanSettle taker maker r q tw mw d m s in
      let w =
        bought tw (debit r taker.price q) (debit r taker.price q - cost q maker.price)
          (net q taker_fee_rate) in
      let w' = sold mw q (net (cost q maker.price) maker_fee_rate) in
      let owner = find-key wallet_key taker.user_id d.wallets tw m.taker_wallet in
      let owner' = find-key wallet_key maker.user_id d.wallets mw m.maker_wallet in
      let sells = maker_sells taker maker r q tw mw d m s in
      let fewer = cost_mono (r - q) r taker.price taker.price (omega arith) (omega arith) in
      record {
        sound =
            settled-Sound w w' owner owner' (omega (arith, can.covers, can.buyer_reserve))
              (omega (arith, can.seller_reserve));
        usd_backed =
            settled-Covers (λ x. x.reserved_usd) hold_usd w w' hold_usd-other m.valid.usd_backed
              owner owner'
              (omega (
                arith,
                can.buyer_reserve,
                fewer,
                hold_usd-buy (with_remaining taker r) s m.taker_active,
                hold_usd-buy (with_remaining taker (r - q)) s m.taker_active,
              ))
              (omega (
                arith,
                hold_usd-sell maker maker.user_id sells,
                hold_usd-sell (maker_after maker q) maker.user_id sells,
              ));
        btc_backed =
            settled-Covers (λ x. x.reserved_btc) hold_btc w w' hold_btc-other m.valid.btc_backed
              owner owner'
              (omega (
                arith,
                hold_btc-buy (with_remaining taker r) taker.user_id s,
                hold_btc-buy (with_remaining taker (r - q)) taker.user_id s,
              ))
              (omega (
                arith,
                can.seller_reserve,
                m.within_maker,
                hold_btc-sell maker sells m.maker_active,
                hold_btc-maker_after maker q sells,
              ));
      }

  -- A SELL taker: the taker's wallet has sold, the maker's has bought.
  pub sell-ValidBut :
      taker.side ≡ sell
      → ValidBut taker (with_remaining taker (r - q)) (
          settled d taker.user_id maker.user_id
            (sold tw q (net (cost q maker.price) taker_fee_rate))
            (bought mw
              (debit maker.remaining_amount maker.price q)
              (debit maker.remaining_amount maker.price q - cost q maker.price)
              (net q maker_fee_rate))
            (maker_after maker q))
  sell-ValidBut s =
      let can = sell-CanSettle taker maker r q tw mw d m s in
      let w' =
        bought mw (debit maker.remaining_amount maker.price q)
          (debit maker.remaining_amount maker.price q - cost q maker.price)
          (net q maker_fee_rate) in
      let w = sold tw q (net (cost q maker.price) taker_fee_rate) in
      let owner = find-key wallet_key taker.user_id d.wallets tw m.taker_wallet in
      let owner' = find-key wallet_key maker.user_id d.wallets mw m.maker_wallet in
      let buys = maker_buys taker maker r q tw mw d m s in
      let fewer =
        cost_mono (maker.remaining_amount - q) maker.remaining_amount maker.price maker.price
          (omega arith) (omega arith) in
      record {
        sound =
            settled-Sound w w' owner owner' (omega (arith, can.covers, can.buyer_reserve))
              (omega (arith, can.seller_reserve));
        usd_backed =
            settled-Covers (λ x. x.reserved_usd) hold_usd w w' hold_usd-other m.valid.usd_backed
              owner owner'
              (omega (
                arith,
                hold_usd-sell (with_remaining taker r) taker.user_id s,
                hold_usd-sell (with_remaining taker (r - q)) taker.user_id s,
              ))
              (omega (
                arith,
                can.buyer_reserve,
                fewer,
                hold_usd-buy maker buys m.maker_active,
                hold_usd-maker_after maker q buys,
              ));
        btc_backed =
            settled-Covers (λ x. x.reserved_btc) hold_btc w w' hold_btc-other m.valid.btc_backed
              owner owner'
              (omega (
                arith,
                can.seller_reserve,
                m.within_taker,
                hold_btc-sell (with_remaining taker r) s m.taker_active,
                hold_btc-sell (with_remaining taker (r - q)) s m.taker_active,
              ))
              (omega (
                arith,
                hold_btc-buy maker maker.user_id buys,
                hold_btc-buy (maker_after maker q) maker.user_id buys,
              ));
      }
