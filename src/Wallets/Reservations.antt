-- ===== src/Wallets/Reservations.antt =====
-- backend/src/wallets/wallets.service.ts: `reserveFunds` and `releaseFunds` against what they are
-- meant to do to the wallet of the order's user.
use exchange_matching.Base.{
  ℕ, ◌+◌, ◌-◌, ◌≤◌, ◌≡◌, pos, some, ok, err, arith, bad_request, insufficient_usd, insufficient_btc,
  leb, ◌&&◌, if◌then◌else◌, Result,
}
use exchange_matching.Table.{find}
use exchange_matching.Decimal.{decimal_max, assert_decimal_fits_schema}
use exchange_matching.Decimal.Laws.{
  cost, subtract_scaled-le, multiply_scaled-pos, multiply_scaled_eq,
}
use exchange_matching.Database.{Db, Wallet, Order, Side, buy, sell, to_column, wallet_key, Void}
use exchange_matching.Wallets.Balance.{
  constraint, balance_constraints, meets_all, apply_update, reserve_update, release_update,
}
use exchange_matching.Wallets.Effects.{IsInRange, with_wallet}
use exchange_matching.Wallets.{reserve_funds, release_funds}

-- What an order of `a` units at price `p` sets aside: its rounded cost in USD, or its amount in BTC.
abbrev pub held : Side → (a p : ℕ) → ℕ
held buy a p = cost a p
held sell a p = a

abbrev pub available : Side → Wallet → ℕ
available buy w = w.available_usd
available sell w = w.available_btc

abbrev pub reserved : Side → Wallet → ℕ
reserved buy w = w.reserved_usd
reserved sell w = w.reserved_btc

-- The wallet with `x` moved from the available to the reserved balance.
abbrev pub reserve_in : Side → ℕ → Wallet → Wallet
reserve_in buy x w = record w {
  available_usd = w.available_usd - x;
  reserved_usd = w.reserved_usd + x;
}
reserve_in sell x w = record w {
  available_btc = w.available_btc - x;
  reserved_btc = w.reserved_btc + x;
}

-- The wallet with `x` moved from the reserved to the available balance.
abbrev pub release_in : Side → ℕ → Wallet → Wallet
release_in buy x w = record w {
  available_usd = w.available_usd + x;
  reserved_usd = w.reserved_usd - x;
}
release_in sell x w = record w {
  available_btc = w.available_btc + x;
  reserved_btc = w.reserved_btc - x;
}

abbrev pub insufficient_for : Side → Result (Void × Db)
insufficient_for buy = err (bad_request insufficient_usd)
insufficient_for sell = err (bad_request insufficient_btc)

module _ (w : Wallet) (d : Db) (found : find wallet_key w.user_id d.wallets ≡ some w)
    (range : IsInRange w) where
  -- For a wallet in range that is found under its user, an amount and a cost that fit a
  -- column: `reserve_funds` moves what the order holds from the available to the reserved
  -- balance if the first covers it and the second has room for it, and else it is refused as
  -- insufficient.
  pub reserve_funds-eq :
      (s : Side) (a p : ℕ)
      → a ≤ decimal_max
      → cost a p ≤ decimal_max
      → reserve_funds w s (pos a) (pos p) d ≡ (
          if leb (held s a p) (available s w) && leb (reserved s w + held s a p) decimal_max
          then ok (tt, with_wallet w.user_id (reserve_in s (held s a p) w) d)
          else insufficient_for s)
  unfolding reserve_funds balance_constraints meets_all apply_update to_column constraint
      assert_decimal_fits_schema reserve_update
  reserve_funds-eq buy a p ha hc = ground (
    arith,
    found,
    multiply_scaled-pos a p,
    range.available_usd_le,
    subtract_scaled-le decimal_max (cost a p),
  )
  reserve_funds-eq sell a p ha hc =
      ground (arith, found, range.available_btc_le, subtract_scaled-le decimal_max a)

module _ (o : Order) (w : Wallet) (d : Db) (found : find wallet_key o.user_id d.wallets ≡ some w)
    (range : IsInRange w) where
  -- For a wallet in range that is found under the user of the order, if the reserved balance
  -- covers what the order holds and the available balance has room for it, `release_funds`
  -- moves it from the reserved to the available balance.
  pub release_funds-eq :
      (s : Side)
      → o.side ≡ s
      → held s o.remaining_amount o.price ≤ reserved s w
      → available s w + held s o.remaining_amount o.price ≤ decimal_max
      → release_funds o d
        ≡ ok (tt, with_wallet o.user_id (release_in s (held s o.remaining_amount o.price) w) d)
  unfolding release_funds balance_constraints meets_all apply_update to_column constraint
      assert_decimal_fits_schema release_update
  release_funds-eq buy e hr ha = ground (
    arith,
    found,
    multiply_scaled-pos o.remaining_amount o.price,
    range.reserved_usd_le,
    subtract_scaled-le decimal_max (cost o.remaining_amount o.price),
  )
  release_funds-eq sell e hr ha =
      ground
        (arith, found, range.reserved_btc_le, subtract_scaled-le decimal_max o.remaining_amount)

  -- A release that went through was covered, and had room.
  pub release_funds-ok :
      (s : Side)
      → o.side ≡ s
      → (r : Void × Db) → release_funds o d ≡ ok r
      → (held s o.remaining_amount o.price ≤ reserved s w)
        × (available s w + held s o.remaining_amount o.price ≤ decimal_max)
  unfolding release_funds balance_constraints meets_all apply_update to_column constraint
      assert_decimal_fits_schema release_update
  release_funds-ok buy e r h = ground (
    arith,
    found,
    multiply_scaled_eq o.remaining_amount o.price,
    range.reserved_usd_le,
    subtract_scaled-le decimal_max (cost o.remaining_amount o.price),
  )
  release_funds-ok sell e r h =
      ground
        (arith, found, range.reserved_btc_le, subtract_scaled-le decimal_max o.remaining_amount)
