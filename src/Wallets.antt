-- ===== src/Wallets.antt =====
-- backend/src/wallets: the balance updates of wallets.repository.ts, each with its bounds in the
-- predicate of the write, and the reservations of wallets.service.ts.
mod Balance
pub mod Reservations
pub mod Funds
pub mod Effects
unfoldable pub use Balance.*
use exchange_matching.Base.{
  ℕ, ◌+◌, ◌==◌, ℤ, pos, negsuc, List, [], ◌∷◌, Option, none, some, Bool, true, false, ◌&&◌,
  if◌then◌else◌, Result, ok, err, bad_request, insufficient_usd, insufficient_btc, exceeds_bounds,
  record_not_found, Reason,
}
use exchange_matching.Table.{find, replace}
use exchange_matching.Decimal.{multiply_scaled}
use exchange_matching.Database.{
  Db, Wallet, Order, Side, buy, sell, Asset, btc, usd, Action, Void, ◌>>=◌, ◌>>◌, pure, throw, lift,
  gets, modify, or_throw, throw_unless, wallet_key,
}

-- `wallet.findUnique({ where: { userId } })`
unfoldable pub find_by_user_id : ℕ → Action (Option Wallet)
find_by_user_id user_id = gets (λ d. find wallet_key user_id d.wallets)

-- The row that `where: { userId, ...constraints }` selects.
unfoldable pub select_wallet : ℕ → List (BalanceField × Bound) → List Wallet → Option Wallet
unfolding meets_all
select_wallet user_id constraints ws = elim (find wallet_key user_id ws) [
  | none ↦ none
  | some w ↦ if meets_all constraints w then some w else none
]

unfoldable pub store_wallet : ℕ → Wallet → Action Void
store_wallet user_id w = modify (λ d. record d { wallets = replace wallet_key user_id w d.wallets })

-- `wallet.updateMany`, which returns the count of the rows that it changed.
unfoldable pub update_many : ℕ → List (BalanceField × Bound) → BalanceUpdate → Action ℕ
unfolding select_wallet store_wallet
update_many user_id constraints update = do
  selected ← gets (λ d. select_wallet user_id constraints d.wallets)
  elim selected [
    | none ↦ pure 0
    | some w ↦ lift (apply_update update w) >>= λ w'. store_wallet user_id w' >> pure 1
  ]

-- `WalletsRepository.updateBalances`: that no row meets the bounds becomes a bad request.
unfoldable pub update_balances : ℕ → BalanceUpdate → Action Void
unfolding select_wallet store_wallet
update_balances user_id update = do
  constraints ← lift (balance_constraints update)
  selected ← gets (λ d. select_wallet user_id constraints d.wallets)
  w ← or_throw selected (bad_request exceeds_bounds)
  w' ← lift (apply_update update w)
  store_wallet user_id w'

-- `WalletsRepository.reserveFunds`
unfoldable pub reserve_amount : ℕ → Asset → ℤ → Action ℕ
unfolding reserve_update update_many
reserve_amount user_id asset amount = do
  let update = reserve_update asset amount
  constraints ← lift (balance_constraints update)
  update_many user_id constraints update

-- `WalletsRepository.releaseFunds`
unfoldable pub release_amount : ℕ → Asset → ℤ → Action Void
unfolding release_update update_balances
release_amount user_id asset amount = update_balances user_id (release_update asset amount)

abbrev pub asset_of : Side → Asset
asset_of buy = usd
asset_of sell = btc

-- What an order of this side sets aside.
abbrev pub required_amount : Side → (amount price : ℤ) → Result ℤ
required_amount buy amount price = multiply_scaled amount price
required_amount sell amount price = ok amount

abbrev insufficient : Asset → Reason
insufficient usd = insufficient_usd
insufficient btc = insufficient_btc

-- `WalletsService.reserveFunds`
unfoldable pub reserve_funds : Wallet → Side → (amount price : ℤ) → Action Void
unfolding reserve_amount
reserve_funds wallet side amount price = do
  required ← lift (required_amount side amount price)
  count ← reserve_amount wallet.user_id (asset_of side) required
  if count == 0 then throw (bad_request (insufficient (asset_of side))) else pure tt

-- `WalletsService.releaseFunds`
unfoldable pub release_funds : Order → Action Void
unfolding release_amount
release_funds order = do
  released ← lift (required_amount order.side (pos order.remaining_amount) (pos order.price))
  release_amount order.user_id (asset_of order.side) released
