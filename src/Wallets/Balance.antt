-- ===== src/Wallets/Balance.antt =====
-- The types of wallets.repository.ts, `balanceConstraints`, and what an update does to a row.
use exchange_matching.Base.{
  ℕ, ℤ, pos, ◌+ℤ◌, ◌-ℤ◌, ltb_ℤ, leb_ℤ, List, [], ◌∷◌, Bool, true, ◌&&◌, Result, ok, bad_request,
  negative_change, ◌>>=◌, ◌>>◌, throw_if,
}
use exchange_matching.Decimal.{
  decimal_max, decimal_scale, finite, assert_decimal_fits_schema, subtract_scaled,
}
use exchange_matching.Database.{Wallet, Asset, btc, usd, to_column}

pub data BalanceField : Type 0 where
  available_btc reserved_btc available_usd reserved_usd : BalanceField

pub data Change : Type 0 where
  increment decrement : ℤ → Change

-- The entries in the order of `Object.keys`.
abbrev pub BalanceUpdate : Type 0
BalanceUpdate = List (BalanceField × Change)

-- `{ lte: x }` and `{ gte: x }`
pub data Bound : Type 0 where
  at_most at_least : ℤ → Bound

abbrev pub balance : BalanceField → Wallet → ℕ
balance available_btc w = w.available_btc
balance reserved_btc w = w.reserved_btc
balance available_usd w = w.available_usd
balance reserved_usd w = w.reserved_usd

abbrev pub set_balance : BalanceField → ℕ → Wallet → Wallet
set_balance available_btc n w = record w { available_btc = n }
set_balance reserved_btc n w = record w { reserved_btc = n }
set_balance available_usd n w = record w { available_usd = n }
set_balance reserved_usd n w = record w { reserved_usd = n }

abbrev delta : Change → ℤ
delta (increment d) = d
delta (decrement d) = d

abbrev bound_of : Change → Result Bound
bound_of (increment d) = subtract_scaled (pos decimal_max) d >>= λ room. ok (at_most room)
bound_of (decrement d) = ok (at_least d)

-- One round of the loop in `balanceConstraints`.
unfoldable pub constraint : BalanceField → Change → Result (BalanceField × Bound)
constraint field change = do
  assert_decimal_fits_schema (finite (delta change) decimal_scale)
  throw_if (ltb_ℤ (delta change) (pos 0)) (bad_request negative_change)
  bound ← bound_of change
  ok (field, bound)

unfoldable pub balance_constraints : BalanceUpdate → Result (List (BalanceField × Bound))
unfolding constraint
balance_constraints [] = ok []
balance_constraints ((field, change) ∷ rest) = do
  first ← constraint field change
  others ← balance_constraints rest
  ok (first ∷ others)

abbrev pub meets : Bound → ℕ → Bool
meets (at_most b) n = leb_ℤ (pos n) b
meets (at_least b) n = leb_ℤ b (pos n)

unfoldable pub meets_all : List (BalanceField × Bound) → Wallet → Bool
meets_all [] w = true
meets_all ((field, bound) ∷ rest) w = meets bound (balance field w) && meets_all rest w

abbrev pub shifted : ℕ → Change → ℤ
shifted n (increment d) = pos n +ℤ d
shifted n (decrement d) = pos n -ℤ d

-- The write of the columns that an update names, each of them once.
unfoldable pub apply_update : BalanceUpdate → Wallet → Result Wallet
apply_update [] w = ok w
apply_update ((field, change) ∷ rest) w = do
  column ← to_column (shifted (balance field w) change)
  apply_update rest (set_balance field column w)

-- The updates of `reserveFunds` and `releaseFunds`.
unfoldable pub reserve_update : Asset → ℤ → BalanceUpdate
reserve_update usd amount =
    (available_usd, decrement amount) ∷ (reserved_usd, increment amount) ∷ []
reserve_update btc amount =
    (available_btc, decrement amount) ∷ (reserved_btc, increment amount) ∷ []

unfoldable pub release_update : Asset → ℤ → BalanceUpdate
release_update usd amount =
    (available_usd, increment amount) ∷ (reserved_usd, decrement amount) ∷ []
release_update btc amount =
    (available_btc, increment amount) ∷ (reserved_btc, decrement amount) ∷ []
