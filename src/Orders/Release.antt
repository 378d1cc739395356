-- ===== src/Orders/Release.antt =====
-- An active order leaves the exchange: its row becomes inactive, and what it held is released. This is
-- what `cancelOrder` and `rejectOrderAfterFailedProcessing` do.
use exchange_matching.Base.{
  ℕ, ◌+◌, ◌≤◌, ◌≡◌, refl, sym, ok, true, false, arith, List, some, inl, inr,
}
use exchange_matching.Table.{find, replace, sum_by, sum_by-replace, sum_by-find-le, find-key}
use exchange_matching.Decimal.{decimal_max}
use exchange_matching.Decimal.Laws.{cost}
use exchange_matching.Database.{
  Db, Order, Event, Wallet, Status, buy, sell, order_key, wallet_key, order_check,
}
use exchange_matching.Database.Laws.{with_order}
use exchange_matching.Wallets.{release_funds}
use exchange_matching.Wallets.Effects.{IsInRange, with_wallet}
use exchange_matching.Wallets.Reservations.{held, reserved, release_in, release_funds-eq}
use exchange_matching.Orders.{is_active_status}
use exchange_matching.Ledger.{
  Valid, ValidBut, hold_usd, hold_btc, usd_total, btc_total, usd_of, btc_of,
}
use exchange_matching.Ledger.Holds.{
  hold_usd-other, hold_btc-other, hold_usd-sell, hold_btc-buy, hold_usd-buy, hold_btc-sell,
  hold_usd-inactive, hold_btc-inactive,
}
use exchange_matching.Ledger.Moves.{
  Covers-replace, Sound-IsInRange, Sound-replace, Sound-replace_order, Valid→ValidBut,
  ValidBut→Valid,
}
use exchange_matching.Matching.Step.{Side-cases}

abbrev pub with_status : Order → Status → Order
with_status o s = record o { status = s }

abbrev pub held_by : Order → ℕ
held_by o = held o.side o.remaining_amount o.price

-- The database without the order.
abbrev pub released : Order → Status → Wallet → List Event → Db → Db
released o s w es d = record d {
  wallets = replace wallet_key o.user_id (release_in o.side (held_by o) w) d.wallets;
  orders = replace order_key o.id (with_status o s) d.orders;
  events = es;
}

-- What holds of a release that is covered by what is reserved, whoever else has money in flight.
module _ (o : Order) (s : Status) (w : Wallet) (es : List Event) (d : Db)
    (row : find order_key o.id d.orders ≡ some o)
    (wallet : find wallet_key o.user_id d.wallets ≡ some w)
    (active : is_active_status o.status ≡ true) (covered : held_by o ≤ reserved o.side w) where
  usd_held : o.side ≡ buy → cost o.remaining_amount o.price ≤ w.reserved_usd
  usd_held e = ground (arith, e, covered)

  btc_held : o.side ≡ sell → o.remaining_amount ≤ w.reserved_btc
  btc_held e = ground (arith, e, covered)

  usd_after : (release_in o.side (held_by o) w).reserved_usd + hold_usd o.user_id o ≡ w.reserved_usd
  usd_after = elim (Side-cases o.side) [
    | inl e ↦ ground (arith, e, usd_held e, hold_usd-buy o e active)
    | inr e ↦ ground (arith, e, hold_usd-sell o o.user_id e)
  ]

  btc_after : (release_in o.side (held_by o) w).reserved_btc + hold_btc o.user_id o ≡ w.reserved_btc
  btc_after = elim (Side-cases o.side) [
    | inl e ↦ ground (arith, e, hold_btc-buy o o.user_id e)
    | inr e ↦ ground (arith, e, btc_held e, hold_btc-sell o e active)
  ]

  same_usd : usd_of (release_in o.side (held_by o) w) ≡ usd_of w
  same_usd = elim (Side-cases o.side) [
    | inl e ↦ ground (arith, e, usd_held e)
    | inr e ↦ ground (arith, e)
  ]

  same_btc : btc_of (release_in o.side (held_by o) w) ≡ btc_of w
  same_btc = elim (Side-cases o.side) [
    | inl e ↦ ground (arith, e)
    | inr e ↦ ground (arith, e, btc_held e)
  ]

  pub same_owner : (release_in o.side (held_by o) w).user_id ≡ o.user_id
  same_owner = elim (Side-cases o.side) [
    | inl e ↦ ground (arith, e, find-key wallet_key o.user_id d.wallets w wallet)
    | inr e ↦ ground (arith, e, find-key wallet_key o.user_id d.wallets w wallet)
  ]

  usd_without :
      is_active_status s ≡ false
      → (u : ℕ)
      → sum_by (hold_usd u) (replace order_key o.id (with_status o s) d.orders) + hold_usd u o
        ≡ sum_by (hold_usd u) d.orders
  usd_without inactive u = omega (
    arith,
    sum_by-replace order_key (hold_usd u) o.id (with_status o s) d.orders o row,
    hold_usd-inactive (with_status o s) u inactive,
  )

  btc_without :
      is_active_status s ≡ false
      → (u : ℕ)
      → sum_by (hold_btc u) (replace order_key o.id (with_status o s) d.orders) + hold_btc u o
        ≡ sum_by (hold_btc u) d.orders
  btc_without inactive u = omega (
    arith,
    sum_by-replace order_key (hold_btc u) o.id (with_status o s) d.orders o row,
    hold_btc-inactive (with_status o s) u inactive,
  )

  pub released-ValidBut :
      (t t' : Order)
      → ValidBut t t' d
      → is_active_status s ≡ false
      → order_check (with_status o s) ≡ true
      → ValidBut t t' (released o s w es d)
  released-ValidBut t t' v inactive checked = record {
    sound =
        Sound-replace_order
          (replace wallet_key o.user_id (release_in o.side (held_by o) w) d.wallets) d.orders
          d.next_order o.id o (with_status o s)
          (Sound-replace d.wallets d.orders d.next_order o.user_id w
            (release_in o.side (held_by o) w) v.sound wallet same_owner (omega (arith, same_usd))
            (omega (arith, same_btc)))
          row refl refl checked refl refl;
    usd_backed =
        Covers-replace (λ x. x.reserved_usd) (λ u. hold_usd u t)
          (λ u. sum_by (hold_usd u) d.orders + hold_usd u t')
          (λ u.
            sum_by (hold_usd u) (replace order_key o.id (with_status o s) d.orders) + hold_usd u t')
          d.wallets o.user_id w (release_in o.side (held_by o) w) v.usd_backed wallet same_owner
          (λ u n. omega (arith, usd_without inactive u, hold_usd-other o u (λ e. n (sym e))))
          (omega (arith, usd_without inactive o.user_id, usd_after));
    btc_backed =
        Covers-replace (λ x. x.reserved_btc) (λ u. hold_btc u t)
          (λ u. sum_by (hold_btc u) d.orders + hold_btc u t')
          (λ u.
            sum_by (hold_btc u) (replace order_key o.id (with_status o s) d.orders) + hold_btc u t')
          d.wallets o.user_id w (release_in o.side (held_by o) w) v.btc_backed wallet same_owner
          (λ u n. omega (arith, btc_without inactive u, hold_btc-other o u (λ e. n (sym e))))
          (omega (arith, btc_without inactive o.user_id, btc_after));
  }

  pub usd_total-released : usd_total (released o s w es d) ≡ usd_total d
  unfolding usd_total
  usd_total-released = omega (
    arith,
    same_usd,
    sum_by-replace wallet_key usd_of o.user_id (release_in o.side (held_by o) w) d.wallets w wallet,
  )

  pub btc_total-released : btc_total (released o s w es d) ≡ btc_total d
  unfolding btc_total
  btc_total-released = omega (
    arith,
    same_btc,
    sum_by-replace wallet_key btc_of o.user_id (release_in o.side (held_by o) w) d.wallets w wallet,
  )

-- In a valid database the reserved balance covers what the order holds, and the release goes through.
module _ (o : Order) (s : Status) (w : Wallet) (es : List Event) (d : Db) (v : Valid d)
    (row : find order_key o.id d.orders ≡ some o)
    (wallet : find wallet_key o.user_id d.wallets ≡ some w)
    (active : is_active_status o.status ≡ true) where
  range : IsInRange w
  range = Sound-IsInRange d.wallets d.orders d.next_order o.user_id w v.sound wallet

  usd_fits_w : usd_of w ≤ decimal_max
  usd_fits_w =
      omega (arith, v.sound.usd_fits, sum_by-find-le wallet_key usd_of o.user_id d.wallets w wallet)

  btc_fits_w : btc_of w ≤ decimal_max
  btc_fits_w =
      omega (arith, v.sound.btc_fits, sum_by-find-le wallet_key btc_of o.user_id d.wallets w wallet)

  pub Valid-covered : held_by o ≤ reserved o.side w
  Valid-covered = elim (Side-cases o.side) [
    | inl e ↦ ground (
      arith,
      e,
      v.usd_reserved o.user_id w wallet,
      sum_by-find-le order_key (hold_usd o.user_id) o.id d.orders o row,
      hold_usd-buy o e active,
    )
    | inr e ↦ ground (
      arith,
      e,
      v.btc_reserved o.user_id w wallet,
      sum_by-find-le order_key (hold_btc o.user_id) o.id d.orders o row,
      hold_btc-sell o e active,
    )
  ]

  -- The release goes through, also after the row has been written.
  pub release_funds-released :
      release_funds o (with_order o.id (with_status o s) d)
      ≡ ok (
        tt,
        with_wallet o.user_id
            (release_in o.side (held_by o) w)
            (with_order o.id (with_status o s) d),
      )
  release_funds-released = elim (Side-cases o.side) [
    | inl e ↦
        let enough : cost o.remaining_amount o.price ≤ w.reserved_usd =
          ground (arith, e, Valid-covered) in
        ground (
          arith,
          e,
          release_funds-eq o w (with_order o.id (with_status o s) d) wallet range buy e enough
              (omega (arith, usd_fits_w, enough)),
        )
    | inr e ↦
        let enough : o.remaining_amount ≤ w.reserved_btc = ground (arith, e, Valid-covered) in
        ground (
          arith,
          e,
          release_funds-eq o w (with_order o.id (with_status o s) d) wallet range sell e enough
              (omega (arith, btc_fits_w, enough)),
        )
  ]

  pub released-Valid :
      is_active_status s ≡ false
      → order_check (with_status o s) ≡ true
      → Valid (released o s w es d)
  released-Valid inactive checked = ValidBut→Valid o (released o s w es d) (
      released-ValidBut o s w es d row wallet active Valid-covered o o (Valid→ValidBut o d v)
        inactive checked)
