-- ===== src/Orders.antt =====
-- backend/src/orders/orders.service.ts: the creation of an order, which reserves its funds, and its
-- cancellation, which releases them. Each is one transaction behind the checks of the input.
pub mod Release
pub mod Withdraw
pub mod Cancel
pub mod Place
pub mod Create
pub mod RoundTrip
use exchange_matching.Base.{
  ℕ, ℤ, pos, List, [], ◌∷◌, Option, none, some, Bool, true, false, ◌==◌, order_not_found,
  wallet_not_found, bad_request, cannot_be_cancelled, if◌then◌else◌, Result, ok, err,
}
use exchange_matching.Decimal.{assert_positive_order_cost}
use exchange_matching.Database.{
  Order, Side, Status, queued, opened, partially_filled, filled, cancelled, rejected,
  market_changed, account_changed, order_created, order_cancelled, Action, Void, ◌>>=◌, ◌>>◌, pure,
  throw, lift, or_throw, throw_unless, load_order, update_status, insert_order, append_events,
  append_order,
}
use exchange_matching.Wallets.{find_by_user_id, reserve_funds, release_funds}

-- `isActiveStatus`: the orders that hold a reservation.
abbrev pub is_active_status : Status → Bool
is_active_status queued = true
is_active_status opened = true
is_active_status partially_filled = true
is_active_status _ = false

-- The transaction of `createOrder`, for an amount and a price that the input has passed.
unfoldable pub place_order : (user_id : ℕ) → Side → (amount price : ℤ) → Action Order
place_order user_id side amount price = do
  found ← find_by_user_id user_id
  wallet ← or_throw found wallet_not_found
  reserve_funds wallet side amount price
  order ← insert_order user_id side amount price
  append_order order.id
  append_events (account_changed order_created order.id [] user_id ∷ [])
  pure order

-- `createOrder`, from the parsed inputs.
unfoldable pub create_order : (user_id : ℕ) → Side → (amount price : Result ℤ) → Action Order
unfolding place_order
create_order user_id side amount_input price_input = do
  amount ← lift amount_input
  price ← lift price_input
  lift (assert_positive_order_cost amount price)
  place_order user_id side amount price

-- `lockAndLoadOrder` with a user: another user's order is not found.
unfoldable pub load_order_of : (user_id order_id : ℕ) → Action (Option Order)
unfolding load_order
load_order_of user_id order_id = do
  found ← load_order order_id
  elim found [
    | none ↦ pure none
    | some order ↦ if order.user_id == user_id then pure (some order) else pure none
  ]

-- The transaction of `cancelOrder`.
unfoldable pub cancel_order : (user_id order_id : ℕ) → Action Order
unfolding load_order_of
cancel_order user_id order_id = do
  found ← load_order_of user_id order_id
  order ← or_throw found order_not_found
  throw_unless (is_active_status order.status) (bad_request cannot_be_cancelled)
  wallet_found ← find_by_user_id user_id
  or_throw wallet_found wallet_not_found
  cancelled_order ← update_status order_id cancelled
  release_funds order
  append_events (
      market_changed order_cancelled order_id []
      ∷ account_changed order_cancelled order_id [] user_id
      ∷ [])
  pure cancelled_order
