-- ===== src/Matching/Loop.antt =====
-- backend/src/matching/matching.service.ts: the loop over the makers.
use exchange_matching.Base.{
  ℕ, ℤ, pos, ltb_ℤ, leb_ℤ, ◌==◌, ◌&&◌, List, [], ◌∷◌, ◌++◌, Bool, true, false, ok, wallet_not_found,
  if◌then◌else◌,
}
use exchange_matching.Table.{find}
use exchange_matching.Decimal.{add_scaled, multiply_scaled, subtract_scaled}
use exchange_matching.Database.{
  Order, Trade, buy, sell, Status, partially_filled, filled, Wallet, Action, ◌>>=◌, ◌>>◌, pure,
  lift, gets, modify, or_throw, update_remaining, insert_trade, to_column, wallet_key,
}
use exchange_matching.OrderBook.{Waits}
use exchange_matching.Settlement.{FeeDetails, build_fee_details, apply_trade_balances}

-- The variables of the loop. `affected` is a `Set`, in the order of insertion.
pub record Progress : Type 0 where
  pub remaining : ℤ
  pub matched : ℤ
  pub affected : List ℕ
  pub trade_ids : List ℕ

-- `eq(0)`
abbrev pub is_zero : ℤ → Bool
is_zero z = leb_ℤ z (pos 0) && leb_ℤ (pos 0) z

unfoldable pub contains : ℕ → List ℕ → Bool
contains a [] = false
contains a (x ∷ xs) = if x == a then true else contains a xs

-- `Set.add`
unfoldable pub add_user : ℕ → List ℕ → List ℕ
unfolding contains
add_user a xs = if contains a xs then xs else xs ++ a ∷ []

-- `lockAndLoadWallets` for the two users, after the wait for the locks.
unfoldable pub lock_and_load_wallets :
    Waits → (locked : List ℕ) → (taker maker : ℕ) → Action (Wallet × Wallet)
lock_and_load_wallets waits locked taker maker = do
  modify (waits.for_wallets locked maker)
  taker_row ← gets (λ d. find wallet_key taker d.wallets)
  maker_row ← gets (λ d. find wallet_key maker d.wallets)
  taker_wallet ← or_throw taker_row wallet_not_found
  maker_wallet ← or_throw maker_row wallet_not_found
  pure (taker_wallet, maker_wallet)

-- The row that `trade.create` writes, and the checks of its columns.
unfoldable pub create_trade : (taker maker : Order) → FeeDetails → (amount price : ℤ) → Action Trade
create_trade taker maker fees amount price = do
  maker_fee ← lift (to_column fees.maker_amount)
  taker_fee ← lift (to_column fees.taker_amount)
  price_column ← lift (to_column price)
  amount_column ← lift (to_column amount)
  insert_trade (λ id. record {
    id = id;
    maker_order_id = maker.id;
    taker_order_id = taker.id;
    buy_order_id = elim taker.side [ buy ↦ taker.id | sell ↦ maker.id ];
    sell_order_id = elim taker.side [ buy ↦ maker.id | sell ↦ taker.id ];
    taker_side = taker.side;
    maker_fee_rate = fees.maker_rate;
    maker_fee_amount = maker_fee;
    maker_fee_asset = fees.maker_asset;
    taker_fee_rate = fees.taker_rate;
    taker_fee_amount = taker_fee;
    taker_fee_asset = fees.taker_asset;
    price = price_column;
    amount = amount_column;
  })

abbrev pub maker_status : ℤ → Status
maker_status remaining = if is_zero remaining then filled else partially_filled

module _ (waits : Waits) (locked : List ℕ) (taker : Order) where
  -- The body of the loop for a maker that trades `amount`.
  unfoldable pub trade_with : (maker : Order) (amount : ℤ) → Progress → Action Progress
  unfolding lock_and_load_wallets create_trade
  trade_with maker amount p = do
    wallets ← lock_and_load_wallets waits locked taker.user_id maker.user_id
    apply_trade_balances taker p.remaining maker wallets.0 wallets.1 amount (pos maker.price)
    fees ← lift (build_fee_details taker.side amount (pos maker.price))
    next_maker_remaining ← lift (subtract_scaled (pos maker.remaining_amount) amount)
    trade ← create_trade taker maker fees amount (pos maker.price)
    update_remaining maker.id next_maker_remaining (maker_status next_maker_remaining)
    remaining ← lift (subtract_scaled p.remaining amount)
    matched ← lift (add_scaled p.matched amount)
    pure (record {
      remaining = remaining;
      matched = matched;
      affected = add_user maker.user_id p.affected;
      trade_ids = p.trade_ids ++ trade.id ∷ [];
    })

  -- One round: a maker with nothing left, and a fragment that costs nothing, are passed over.
  unfoldable pub match_maker : Order → Progress → Action Progress
  unfolding trade_with
  match_maker maker p = do
    if leb_ℤ (pos maker.remaining_amount) (pos 0) then pure p else do
      let amount : ℤ =
          if ltb_ℤ p.remaining (pos maker.remaining_amount)
          then p.remaining
          else pos maker.remaining_amount
      cost ← lift (multiply_scaled amount (pos maker.price))
      if is_zero cost then pure p else trade_with maker amount p

  -- `for (const maker of makers)`, which ends when nothing of the taker is left.
  unfoldable pub match_makers : List Order → Progress → Action Progress
  unfolding match_maker
  match_makers [] p d = ok (p, d)
  match_makers (maker ∷ rest) p d = elim (leb_ℤ p.remaining (pos 0)) [
    | true ↦ ok (p, d)
    | false ↦ (match_maker maker p >>= λ p'. match_makers rest p') d
  ]
