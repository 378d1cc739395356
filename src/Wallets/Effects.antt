-- ===== src/Wallets/Effects.antt =====
-- backend/src/wallets/wallets.repository.ts: what each balance update of a settlement leaves in the
-- table of wallets, when the row can take it.
use exchange_matching.Base.{ℕ, ◌+◌, ◌-◌, ◌≤◌, ◌≡◌, pos, [], ◌∷◌, some, ok, arith}
use exchange_matching.Table.{find, replace}
use exchange_matching.Decimal.{decimal_max, assert_decimal_fits_schema}
use exchange_matching.Decimal.Laws.{subtract_scaled-le}
use exchange_matching.Database.{Db, Wallet, to_column, wallet_key}
use exchange_matching.Wallets.Balance.{
  available_btc, reserved_btc, available_usd, reserved_usd, increment, decrement, constraint,
  balance_constraints, meets_all, apply_update,
}
use exchange_matching.Wallets.{update_balances}

-- No column leaves the range of DECIMAL(28,8).
pub record IsInRange (w : Wallet) : Type 0 where
  pub available_btc_le : w.available_btc ≤ decimal_max
  pub reserved_btc_le : w.reserved_btc ≤ decimal_max
  pub available_usd_le : w.available_usd ≤ decimal_max
  pub reserved_usd_le : w.reserved_usd ≤ decimal_max

-- The wallet of a buyer after a trade: USD reserved, USD refunded, BTC received.
abbrev pub bought : Wallet → (debit refund received : ℕ) → Wallet
bought w r i b = record w {
  available_btc = w.available_btc + b;
  available_usd = w.available_usd + i;
  reserved_usd = w.reserved_usd - r;
}

-- The wallet of a seller after a trade: BTC reserved, USD received.
abbrev pub sold : Wallet → (debit received : ℕ) → Wallet
sold w q x = record w { reserved_btc = w.reserved_btc - q; available_usd = w.available_usd + x }

-- The database with one wallet written.
abbrev pub with_wallet : ℕ → Wallet → Db → Db
with_wallet u w d = record d { wallets = replace wallet_key u w d.wallets }

module _ (u : ℕ) (w : Wallet) (d : Db) (found : find wallet_key u d.wallets ≡ some w)
    (range : IsInRange w) where
  pub update-bought :
      (r i b : ℕ)
      → r ≤ w.reserved_usd
      → w.available_usd + i ≤ decimal_max
      → w.available_btc + b ≤ decimal_max
      → update_balances u
          ((reserved_usd, decrement (pos r))
            ∷ (available_usd, increment (pos i))
            ∷ (available_btc, increment (pos b))
            ∷ [])
          d
        ≡ ok (tt, with_wallet u (bought w r i b) d)
  unfolding update_balances balance_constraints meets_all apply_update to_column constraint
      assert_decimal_fits_schema
  update-bought r i b hr hi hb = ground (
    arith,
    found,
    range.reserved_usd_le,
    subtract_scaled-le decimal_max i,
    subtract_scaled-le decimal_max b,
  )

  -- The update that leaves the refund out when it is zero.
  pub update-bought_no_refund :
      (r b : ℕ)
      → r ≤ w.reserved_usd
      → w.available_btc + b ≤ decimal_max
      → update_balances u
          ((reserved_usd, decrement (pos r)) ∷ (available_btc, increment (pos b)) ∷ [])
          d
        ≡ ok (tt, with_wallet u (bought w r 0 b) d)
  unfolding update_balances balance_constraints meets_all apply_update to_column constraint
      assert_decimal_fits_schema
  update-bought_no_refund r b hr hb =
      ground (arith, found, range.reserved_usd_le, subtract_scaled-le decimal_max b)

  pub update-sold :
      (q x : ℕ)
      → q ≤ w.reserved_btc
      → w.available_usd + x ≤ decimal_max
      → update_balances u
          ((reserved_btc, decrement (pos q)) ∷ (available_usd, increment (pos x)) ∷ [])
          d
        ≡ ok (tt, with_wallet u (sold w q x) d)
  unfolding update_balances balance_constraints meets_all apply_update to_column constraint
      assert_decimal_fits_schema
  update-sold q x hq hx =
      ground (arith, found, range.reserved_btc_le, subtract_scaled-le decimal_max x)
