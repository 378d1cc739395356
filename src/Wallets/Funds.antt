-- ===== src/Wallets/Funds.antt =====
-- backend/src/wallets/wallet-funds.service.ts: the older service for reservations, whose writes have no
-- bound on the balance that grows; against the wallets service.
use exchange_matching.Base.{
  ℕ, ◌+◌, ◌==◌, ◌≤◌, ◌≡◌, ℤ, pos, [], ◌∷◌, some, arith, bad_request, insufficient_usd,
  insufficient_btc, if◌then◌else◌, record_not_found,
}
use exchange_matching.Table.{find}
use exchange_matching.Decimal.{decimal_max, multiply_scaled}
use exchange_matching.Decimal.Laws.{cost, multiply_scaled-pos}
use exchange_matching.Database.{
  Db, Wallet, Order, Side, buy, sell, usd, btc, Action, Void, ◌>>=◌, pure, throw, lift, or_throw,
  to_column, wallet_key,
}
use exchange_matching.Wallets.Balance.{
  BalanceUpdate, available_usd, available_btc, at_least, meets_all, apply_update, reserve_update,
  release_update,
}
use exchange_matching.Wallets.Effects.{IsInRange}
use exchange_matching.Wallets.Reservations.{
  held, available, reserved, reserve_funds-eq, release_funds-eq,
}
use exchange_matching.Wallets.{
  find_by_user_id, store_wallet, update_many, reserve_funds, release_funds,
}

-- `WalletFundsService.reserveFunds`
unfoldable pub reserve_wallet_funds : Wallet → Side → (amount price : ℤ) → Action Void
unfolding update_many reserve_update
reserve_wallet_funds wallet buy amount price = do
  required_usd ← lift (multiply_scaled amount price)
  count ←
      update_many wallet.user_id ((available_usd, at_least required_usd) ∷ [])
        (reserve_update usd required_usd)
  if count == 0 then throw (bad_request insufficient_usd) else pure tt
reserve_wallet_funds wallet sell amount price = do
  count ←
      update_many wallet.user_id ((available_btc, at_least amount) ∷ []) (reserve_update btc amount)
  if count == 0 then throw (bad_request insufficient_btc) else pure tt

-- `wallet.update({ where: { userId }, data })`
unfoldable pub update_wallet : ℕ → BalanceUpdate → Action Void
unfolding find_by_user_id store_wallet apply_update
update_wallet user_id update = do
  found ← find_by_user_id user_id
  w ← or_throw found record_not_found
  w' ← lift (apply_update update w)
  store_wallet user_id w'

-- `WalletFundsService.releaseFunds`
unfoldable pub release_wallet_funds : Order → Action Void
unfolding update_wallet release_update
release_wallet_funds order = elim order.side [
  | buy ↦ lift (multiply_scaled (pos order.remaining_amount) (pos order.price)) >>= λ released_usd.
      update_wallet order.user_id (release_update usd released_usd)
  | sell ↦ update_wallet order.user_id (release_update btc (pos order.remaining_amount))
]

module _ (w : Wallet) (d : Db) (found : find wallet_key w.user_id d.wallets ≡ some w)
    (range : IsInRange w) where
  -- For a wallet in range that is found under its user, an amount and a cost that fit a
  -- column, and a reserved balance with room for what the order holds,
  -- `reserve_wallet_funds` and `reserve_funds` give the same result, the refusal included.
  pub reserve_wallet_funds-reserve_funds :
      (s : Side) (a p : ℕ)
      → a ≤ decimal_max
      → cost a p ≤ decimal_max
      → reserved s w + held s a p ≤ decimal_max
      → reserve_wallet_funds w s (pos a) (pos p) d ≡ reserve_funds w s (pos a) (pos p) d
  unfolding reserve_wallet_funds meets_all apply_update to_column
  reserve_wallet_funds-reserve_funds buy a p ha hc room = ground (
    arith,
    found,
    range.available_usd_le,
    multiply_scaled-pos a p,
    reserve_funds-eq w d found range buy a p ha hc,
  )
  reserve_wallet_funds-reserve_funds sell a p ha hc room =
      ground (arith, found, range.available_btc_le, reserve_funds-eq w d found range sell a p ha hc)

module _ (o : Order) (w : Wallet) (d : Db) (found : find wallet_key o.user_id d.wallets ≡ some w)
    (range : IsInRange w) where
  -- For a wallet in range that is found under the user of the order, a reserved balance that
  -- covers what the order holds and an available balance with room for it,
  -- `release_wallet_funds` and `release_funds` give the same result.
  pub release_wallet_funds-release_funds :
      (s : Side)
      → o.side ≡ s
      → held s o.remaining_amount o.price ≤ reserved s w
      → available s w + held s o.remaining_amount o.price ≤ decimal_max
      → release_wallet_funds o d ≡ release_funds o d
  unfolding release_wallet_funds apply_update to_column
  release_wallet_funds-release_funds buy e hr ha = ground (
    arith,
    found,
    range.reserved_usd_le,
    e,
    multiply_scaled-pos o.remaining_amount o.price,
    release_funds-eq o w d found range buy e hr ha,
  )
  release_wallet_funds-release_funds sell e hr ha =
      ground
        (arith, found, range.reserved_btc_le, e, release_funds-eq o w d found range sell e hr ha)
