-- ===== src/Orders/Create.antt =====
-- backend/src/orders/orders.service.ts, `createOrder`, on each of its branches behind the parsing.
use exchange_matching.Base.{
  ℕ, ◌≤◌, ◌<◌, ◌≡◌, ok, err, pos, arith, some, bad_request, exceeds_schema, cost_too_small, Result,
  leb, ltb, ◌==◌, if◌then◌else◌, ◌∙◌, sym,
}
use exchange_matching.Table.{find}
use exchange_matching.Decimal.{
  decimal_max, assert_positive_order_cost, to_scaled_decimal, multiply_scaled,
  assert_decimal_fits_schema,
}
use exchange_matching.Decimal.Laws.{cost}
use exchange_matching.Database.{Db, Order, Wallet, Side, order_key, wallet_key}
use exchange_matching.Wallets.Reservations.{held, available}
use exchange_matching.Orders.{create_order}
use exchange_matching.Ledger.{Valid, Sound, usd_total, btc_total}
use exchange_matching.Ledger.Append.{find-append_new}
use exchange_matching.Orders.Place.{
  new_order, placed, shortage, place_order-eq, placed-Valid, placed_totals,
}

-- What a user with the wallet `w` gets for an order of `a` units at `p`.
abbrev pub answer : (user_id : ℕ) → Side → (amount price : ℕ) → Wallet → Db → Result (Order × Db)
answer u s a p w d =
    if ltb decimal_max (cost a p)
    then err (bad_request exceeds_schema)
    else (if cost a p == 0
        then err (bad_request cost_too_small)
        else (if leb (held s a p) (available s w)
            then ok (new_order u s a p d, placed u s a p w d)
            else err (shortage s)))

assert_positive_order_cost-over :
    (a p : ℕ)
    → decimal_max < cost a p
    → assert_positive_order_cost (pos a) (pos p) ≡ err (bad_request exceeds_schema)
unfolding assert_positive_order_cost multiply_scaled to_scaled_decimal assert_decimal_fits_schema
assert_positive_order_cost-over a p h = ground arith

assert_positive_order_cost-le :
    (a p : ℕ)
    → cost a p ≤ decimal_max
    → assert_positive_order_cost (pos a) (pos p)
      ≡ (if cost a p == 0 then err (bad_request cost_too_small) else ok (pos (cost a p)))
unfolding assert_positive_order_cost multiply_scaled to_scaled_decimal assert_decimal_fits_schema
assert_positive_order_cost-le a p h = ground arith

module _ (u : ℕ) (s : Side) (a p : ℕ) (w : Wallet) (d : Db)
    (sound : Sound d.wallets d.orders d.next_order) (wallet : find wallet_key u d.wallets ≡ some w)
    (amount_positive : 0 < a) (amount_fits : a ≤ decimal_max) (price_positive : 0 < p)
    (price_fits : p ≤ decimal_max) where
  -- In a sound database with a wallet for the user, for an amount and a price that are
  -- positive and fit a column, `create_order` is `answer`: it refuses a cost that does not
  -- fit or is zero, then a balance that does not cover the order, and else returns the
  -- queued order and the database with it.
  pub create_order-answer : create_order u s (ok (pos a)) (ok (pos p)) d ≡ answer u s a p w d
  unfolding create_order
  create_order-answer = ground (
    arith,
    assert_positive_order_cost-over a p,
    assert_positive_order_cost-le a p,
    place_order-eq u s a p w d sound wallet amount_positive amount_fits price_positive price_fits,
  )

-- An order was created: it stands in a valid database, and no money came or went.
pub record Created (o : Order) (d d' : Db) : Type 0 where
  pub valid : Valid d'
  pub order_row : find order_key o.id d'.orders ≡ some o
  pub usd_kept : usd_total d' ≡ usd_total d
  pub btc_kept : btc_total d' ≡ btc_total d

pub answer-ok :
    (u : ℕ) (s : Side) (a p : ℕ) (w : Wallet) (d : Db) (o : Order) (d' : Db)
    → answer u s a p w d ≡ ok (o, d')
    → (cost a p ≤ decimal_max)
      × (held s a p ≤ available s w)
      × (new_order u s a p d ≡ o)
      × (placed u s a p w d ≡ d')
answer-ok u s a p w d o d' h = ground arith

module _ (u : ℕ) (s : Side) (a p : ℕ) (w : Wallet) (d : Db) (v : Valid d)
    (wallet : find wallet_key u d.wallets ≡ some w) (amount_positive : 0 < a)
    (amount_fits : a ≤ decimal_max) (price_positive : 0 < p) (price_fits : p ≤ decimal_max) where
  pub placed-Created :
      cost a p ≤ decimal_max
      → held s a p ≤ available s w
      → Created (new_order u s a p d) d (placed u s a p w d)
  placed-Created fits enough =
      let totals =
        placed_totals u s a p w d v.sound wallet amount_positive amount_fits price_positive
          price_fits fits enough in
      record {
        valid =
            placed-Valid u s a p w d v.sound wallet amount_positive amount_fits price_positive
              price_fits fits enough v;
        order_row =
            find-append_new (new_order u s a p d) d.orders
              (v.sound.fresh d.next_order (omega arith));
        usd_kept = totals.0;
        btc_kept = totals.1;
      }

  -- In a valid database with a wallet for the user, for an amount and a price that are
  -- positive and fit a column: if `create_order` returns an order and a database, the
  -- database is valid and has the order under its id, and the totals of USD and BTC are as
  -- before.
  pub create_order-Created :
      (o : Order) (d' : Db)
      → create_order u s (ok (pos a)) (ok (pos p)) d ≡ ok (o, d')
      → Created o d d'
  create_order-Created o d' e =
      let known = answer-ok u s a p w d o d' (
        sym (
          create_order-answer u s a p w d v.sound wallet amount_positive amount_fits price_positive
            price_fits)
        ∙ e) in
      rw⁻¹ (known.2, known.3) (placed-Created known.0 known.1)
