-- ===== src/Orders/Place.antt =====
-- backend/src/orders/orders.service.ts, the transaction of `createOrder`: it sets aside what the order
-- holds, and puts it into the queue.
use exchange_matching.Base.{
  ℕ, suc, ◌+◌, ◌≤◌, ◌<◌, ◌≡◌, refl, sym, ap, ◌∙◌, ok, err, pos, true, arith, [], ◌∷◌, ◌++◌, some,
  inl, inr, bad_request, leb, insufficient_usd, insufficient_btc, if◌then◌else◌, Error,
}
use exchange_matching.Table.{
  find, replace, sum_by, sum_by-replace, sum_by-append_one, sum_by-find-le, find-key,
  find-replace_self,
}
use exchange_matching.Decimal.{decimal_max}
use exchange_matching.Decimal.Laws.{cost}
use exchange_matching.Database.{
  Db, Order, Wallet, Side, buy, sell, queued, wallet_key, order_check, to_column, insert_order,
  append_events, append_order, account_changed, order_created,
}
use exchange_matching.Wallets.{find_by_user_id, reserve_funds}
use exchange_matching.Wallets.Effects.{IsInRange, with_wallet}
use exchange_matching.Wallets.Reservations.{held, available, reserve_in, reserve_funds-eq}
use exchange_matching.Orders.{place_order}
use exchange_matching.Ledger.{
  Valid, ValidBut, Sound, hold_usd, hold_btc, usd_total, btc_total, usd_of, btc_of,
}
use exchange_matching.Ledger.Holds.{
  hold_usd-other, hold_btc-other, hold_usd-sell, hold_btc-buy, hold_usd-buy, hold_btc-sell,
}
use exchange_matching.Ledger.Moves.{
  Covers-replace, Sound-IsInRange, Sound-replace, Valid→ValidBut, ValidBut→Valid,
}
use exchange_matching.Matching.Step.{Side-cases}
use exchange_matching.Ledger.Append.{Sound-append}

-- The row of the new order.
abbrev pub new_order : (user_id : ℕ) → Side → (amount price : ℕ) → Db → Order
new_order u s a p d = record {
  id = d.next_order;
  sequence = d.next_order;
  user_id = u;
  side = s;
  status = queued;
  price = p;
  original_amount = a;
  remaining_amount = a;
}

-- The database with the order, paid for out of the wallet `w`.
abbrev pub placed : (user_id : ℕ) → Side → (amount price : ℕ) → Wallet → Db → Db
placed u s a p w d = record d {
  wallets = replace wallet_key u (reserve_in s (held s a p) w) d.wallets;
  orders = d.orders ++ new_order u s a p d ∷ [];
  matching_outbox = d.matching_outbox ++ record { id = d.next_order; order_id = d.next_order } ∷ [];
  events = d.events ++ account_changed order_created d.next_order [] u ∷ [];
  next_order = suc d.next_order;
}

abbrev pub shortage : Side → Error
shortage buy = bad_request insufficient_usd
shortage sell = bad_request insufficient_btc

module _ (u : ℕ) (s : Side) (a p : ℕ) (w : Wallet) (d : Db)
    (sound : Sound d.wallets d.orders d.next_order) (wallet : find wallet_key u d.wallets ≡ some w)
    (amount_positive : 0 < a) (amount_fits : a ≤ decimal_max) (price_positive : 0 < p)
    (price_fits : p ≤ decimal_max) (cost_fits : cost a p ≤ decimal_max) where
  in_range : IsInRange w
  in_range = Sound-IsInRange d.wallets d.orders d.next_order u w sound wallet

  owner_id : w.user_id ≡ u
  owner_id = find-key wallet_key u d.wallets w wallet

  usd_fit : usd_of w ≤ decimal_max
  usd_fit = omega (arith, sound.usd_fits, sum_by-find-le wallet_key usd_of u d.wallets w wallet)

  btc_fit : btc_of w ≤ decimal_max
  btc_fit = omega (arith, sound.btc_fits, sum_by-find-le wallet_key btc_of u d.wallets w wallet)

  new_checked : order_check (new_order u s a p d) ≡ true
  unfolding order_check
  new_checked = ground arith

  keyed : find wallet_key w.user_id d.wallets ≡ some w
  keyed = ap (λ k. find wallet_key k d.wallets) owner_id ∙ wallet

  -- In a sound database the reserved balance has room for all that is available.
  reserve_funds-Sound : reserve_funds w s (pos a) (pos p) d ≡ (
      if leb (held s a p) (available s w)
      then ok (tt, with_wallet u (reserve_in s (held s a p) w) d)
      else err (shortage s))
  reserve_funds-Sound = elim (Side-cases s) [
    | inl e ↦ ground (
      arith,
      e,
      owner_id,
      usd_fit,
      reserve_funds-eq w d keyed in_range buy a p amount_fits cost_fits,
    )
    | inr e ↦ ground (
      arith,
      e,
      owner_id,
      btc_fit,
      reserve_funds-eq w d keyed in_range sell a p amount_fits cost_fits,
    )
  ]

  pub place_order-eq : place_order u s (pos a) (pos p) d ≡ (
      if leb (held s a p) (available s w)
      then ok (new_order u s a p d, placed u s a p w d)
      else err (shortage s))
  unfolding place_order find_by_user_id insert_order to_column append_events append_order
  place_order-eq = ground (arith, wallet, new_checked, reserve_funds-Sound)

  module _ (enough : held s a p ≤ available s w) where
    placed_owner : (reserve_in s (held s a p) w).user_id ≡ u
    placed_owner = elim (Side-cases s) [
      | inl e ↦ ground (arith, e, owner_id)
      | inr e ↦ ground (arith, e, owner_id)
    ]

    placed_usd : usd_of (reserve_in s (held s a p) w) ≡ usd_of w
    placed_usd = elim (Side-cases s) [ inl e ↦ ground (arith, e) | inr e ↦ ground (arith, e) ]

    placed_btc : btc_of (reserve_in s (held s a p) w) ≡ btc_of w
    placed_btc = elim (Side-cases s) [ inl e ↦ ground (arith, e) | inr e ↦ ground (arith, e) ]

    placed_usd_reserved :
        (reserve_in s (held s a p) w).reserved_usd
        ≡ w.reserved_usd + hold_usd u (new_order u s a p d)
    placed_usd_reserved = elim (Side-cases s) [
      | inl e ↦ ground (arith, e, hold_usd-buy (new_order u s a p d) e refl)
      | inr e ↦ ground (arith, e, hold_usd-sell (new_order u s a p d) u e)
    ]

    placed_btc_reserved :
        (reserve_in s (held s a p) w).reserved_btc
        ≡ w.reserved_btc + hold_btc u (new_order u s a p d)
    placed_btc_reserved = elim (Side-cases s) [
      | inl e ↦ ground (arith, e, hold_btc-buy (new_order u s a p d) u e)
      | inr e ↦ ground (arith, e, hold_btc-sell (new_order u s a p d) e refl)
    ]

    pub placed-ValidBut : (t t' : Order) → ValidBut t t' d → ValidBut t t' (placed u s a p w d)
    placed-ValidBut t t' v =
        let o = new_order u s a p d in
        let w' = reserve_in s (held s a p) w in
        record {
          sound =
              Sound-append (replace wallet_key u w' d.wallets) d.orders d.next_order o w'
                (Sound-replace d.wallets d.orders d.next_order u w w' sound wallet placed_owner
                  (omega (arith, placed_usd)) (omega (arith, placed_btc)))
                refl new_checked amount_fits price_fits
                (find-replace_self wallet_key u w' d.wallets w wallet placed_owner);
          usd_backed =
              Covers-replace (λ x. x.reserved_usd) (λ k. hold_usd k t)
                (λ k. sum_by (hold_usd k) d.orders + hold_usd k t')
                (λ k. sum_by (hold_usd k) (d.orders ++ o ∷ []) + hold_usd k t') d.wallets u w w'
                v.usd_backed wallet placed_owner
                (λ k n. omega (
                  arith,
                  sum_by-append_one (hold_usd k) d.orders o,
                  hold_usd-other o k (λ e. n (sym e)),
                ))
                (omega (arith, sum_by-append_one (hold_usd u) d.orders o, placed_usd_reserved));
          btc_backed =
              Covers-replace (λ x. x.reserved_btc) (λ k. hold_btc k t)
                (λ k. sum_by (hold_btc k) d.orders + hold_btc k t')
                (λ k. sum_by (hold_btc k) (d.orders ++ o ∷ []) + hold_btc k t') d.wallets u w w'
                v.btc_backed wallet placed_owner
                (λ k n. omega (
                  arith,
                  sum_by-append_one (hold_btc k) d.orders o,
                  hold_btc-other o k (λ e. n (sym e)),
                ))
                (omega (arith, sum_by-append_one (hold_btc u) d.orders o, placed_btc_reserved));
        }

    pub placed-Valid : Valid d → Valid (placed u s a p w d)
    placed-Valid v =
        let o = new_order u s a p d in
        ValidBut→Valid o (placed u s a p w d) (placed-ValidBut o o (Valid→ValidBut o d v))

    pub placed_totals :
        (usd_total (placed u s a p w d) ≡ usd_total d)
        × (btc_total (placed u s a p w d) ≡ btc_total d)
    unfolding usd_total btc_total
    placed_totals = (
      omega (
        arith,
        placed_usd,
        sum_by-replace wallet_key usd_of u (reserve_in s (held s a p) w) d.wallets w wallet,
      ),
      omega (
        arith,
        placed_btc,
        sum_by-replace wallet_key btc_of u (reserve_in s (held s a p) w) d.wallets w wallet,
      ),
    )
