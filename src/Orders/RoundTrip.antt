-- ===== src/Orders/RoundTrip.antt =====
-- backend/src/orders/orders.service.ts: `createOrder` and then `cancelOrder` of the order.
use exchange_matching.Base.{
  ℕ, ◌≤◌, ◌<◌, ◌≡◌, refl, sym, ap, ◌∙◌, ok, pos, arith, [], ◌∷◌, ◌++◌, some, Result,
}
use exchange_matching.Table.{
  find, replace, find-key, find-replace_self, replace-replace_back, replace-append_new,
}
use exchange_matching.Decimal.{decimal_max}
use exchange_matching.Database.{
  Db, Order, Wallet, Side, buy, sell, cancelled, wallet_key, order_key,
}
use exchange_matching.Wallets.Reservations.{held, available, reserve_in, release_in}
use exchange_matching.Orders.{create_order, cancel_order}
use exchange_matching.Ledger.{Valid}
use exchange_matching.Orders.Release.{with_status}
use exchange_matching.Orders.Place.{new_order, placed}
use exchange_matching.Orders.Create.{Created, create_order-answer, placed-Created, answer-ok}
use exchange_matching.Orders.Cancel.{cancel_order-Withdrawn}

-- The order is cancelled, and each wallet is as it was before the order.
pub record Undone (o : Order) (d : Db) (result : Result (Order × Db)) : Type 0 where
  pub after : Db
  pub returns : result ≡ ok (with_status o cancelled, after)
  pub wallets_back : after.wallets ≡ d.wallets
  pub order_stays : after.orders ≡ d.orders ++ with_status o cancelled ∷ []
  pub valid : Valid after

release_in-reserve_in :
    (s : Side) (x : ℕ) (w : Wallet) → x ≤ available s w → release_in s x (reserve_in s x w) ≡ w
release_in-reserve_in buy x w h = ground arith
release_in-reserve_in sell x w h = ground arith

reserve_in-user_id : (s : Side) (x : ℕ) (w : Wallet) → (reserve_in s x w).user_id ≡ w.user_id
reserve_in-user_id buy x w = refl
reserve_in-user_id sell x w = refl

module _ (u : ℕ) (s : Side) (a p : ℕ) (w : Wallet) (d : Db) (v : Valid d)
    (wallet : find wallet_key u d.wallets ≡ some w) where
  row_key : (reserve_in s (held s a p) w).user_id ≡ u
  row_key = reserve_in-user_id s (held s a p) w ∙ find-key wallet_key u d.wallets w wallet

  reserved_row : find wallet_key u (placed u s a p w d).wallets ≡ some (reserve_in s (held s a p) w)
  reserved_row =
      find-replace_self wallet_key u (reserve_in s (held s a p) w) d.wallets w wallet row_key

  placed-Undone :
      held s a p ≤ available s w
      → Created (new_order u s a p d) d (placed u s a p w d)
      → Undone (new_order u s a p d) d (cancel_order u d.next_order (placed u s a p w d))
  placed-Undone enough made =
      let gone =
        cancel_order-Withdrawn (new_order u s a p d) (placed u s a p w d) made.valid made.order_row
          refl in
      let owner : gone.owner ≡ reserve_in s (held s a p) w =
        ground (arith, gone.owner_row, reserved_row) in
      let restored : release_in s (held s a p) gone.owner ≡ w =
        ap (release_in s (held s a p)) owner ∙ release_in-reserve_in s (held s a p) w enough in
      record {
        after = gone.after;
        returns = gone.returns;
        wallets_back =
            gone.wallets_eq
            ∙ ap (λ x. replace wallet_key u x (placed u s a p w d).wallets) restored
            ∙ replace-replace_back wallet_key u (reserve_in s (held s a p) w) d.wallets w wallet
                row_key;
        order_stays =
            gone.orders_eq
            ∙ replace-append_new order_key d.next_order
                (with_status (new_order u s a p d) cancelled) (new_order u s a p d) d.orders
                (v.sound.fresh d.next_order (omega arith)) refl;
        valid = gone.valid;
      }

module _ (u : ℕ) (s : Side) (a p : ℕ) (w : Wallet) (d : Db) (v : Valid d)
    (wallet : find wallet_key u d.wallets ≡ some w) (amount_positive : 0 < a)
    (amount_fits : a ≤ decimal_max) (price_positive : 0 < p) (price_fits : p ≤ decimal_max) where
  -- In a valid database with a wallet for the user, for an amount and a price that are
  -- positive and fit a column: if `create_order` returns an order, then `cancel_order` on
  -- the database with it returns the order as cancelled, all wallets are as they were before
  -- the order, the orders are those of before with the cancelled one at the end, and the
  -- database is valid.
  pub create_order-cancel_order :
      (o : Order) (d' : Db)
      → create_order u s (ok (pos a)) (ok (pos p)) d ≡ ok (o, d')
      → Undone o d (cancel_order u o.id d')
  create_order-cancel_order o d' e =
      let known = answer-ok u s a p w d o d' (
        sym (
          create_order-answer u s a p w d v.sound wallet amount_positive amount_fits price_positive
            price_fits)
        ∙ e) in
      let made =
        placed-Created u s a p w d v wallet amount_positive amount_fits price_positive price_fits
          known.0 known.1 in
      rw⁻¹ (known.2, known.3) (placed-Undone u s a p w d v wallet known.1 made)
