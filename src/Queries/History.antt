-- ===== src/Queries/History.antt =====
-- backend/src/trades/trades.service.ts, `getUserHistory`, and backend/src/matching/matching.service.ts:
-- a trade in the histories of its two users, with the fee that each has paid.
use exchange_matching.Base.{
  ℕ, ◌≡◌, ◌≢◌, ◌≤◌, ◌<◌, refl, sym, ◌∙◌, arith, ok, pos, true, false, ◌==◌, List, some, inl, inr,
}
use exchange_matching.Table.{find}
use exchange_matching.Decimal.{decimal_max}
use exchange_matching.Decimal.Laws.{cost}
use exchange_matching.Database.{Db, Order, Trade, Side, Asset, order_key}
use exchange_matching.Settlement.{fee_details}
use exchange_matching.Settlement.Fees.{taker_fee, maker_fee, fee_asset, opposite}
use exchange_matching.Matching.{create_trade}
use exchange_matching.Matching.Step.{trade_row, create_trade-eq, Side-cases}
use exchange_matching.Queries.Texts.{Texts}
use exchange_matching.Queries.Trades.{
  UserTradeHistoryItem, Role, maker, taker, is_order_of, history_item,
}

-- What an item says of the user's part in the trade.
pub record IsPart (x : Texts) (item : UserTradeHistoryItem x) (side : Side) (role : Role) (fee : ℕ)
    (asset : Asset) : Type 0 where
  pub side_eq : item.side ≡ side
  pub role_eq : item.role ≡ role
  pub fee_eq : item.fee_amount ≡ x.to_fixed fee
  pub asset_eq : item.fee_asset ≡ asset

is_order_of-row :
    (user id : ℕ) (orders : List Order) (o : Order)
    → find order_key id orders ≡ some o
    → is_order_of user id orders ≡ (o.user_id == user)
unfolding is_order_of
is_order_of-row user id orders o row = ground (arith, row)

module _ (x : Texts) (t m : Order) (q : ℕ) (orders : List Order) (t' m' : Order)
    (taker_row : find order_key t.id orders ≡ some t')
    (maker_row : find order_key m.id orders ≡ some m') (taker_user : t'.user_id ≡ t.user_id)
    (maker_user : m'.user_id ≡ m.user_id) (strangers : t.user_id ≢ m.user_id) where
  own : (user : ℕ) (o : Order) → o.user_id ≡ user → (o.user_id == user) ≡ true
  own user o e = ground (arith, e)

  not_own : (user : ℕ) (o : Order) → o.user_id ≢ user → (o.user_id == user) ≡ false
  not_own user o n = ground (arith, n)

  taker_is : is_order_of t.user_id t.id orders ≡ true
  taker_is = is_order_of-row t.user_id t.id orders t' taker_row ∙ own t.user_id t' taker_user

  taker_is_not : is_order_of t.user_id m.id orders ≡ false
  taker_is_not =
      is_order_of-row t.user_id m.id orders m' maker_row
      ∙ not_own t.user_id m' (λ e. strangers (sym e ∙ maker_user))

  maker_is : is_order_of m.user_id m.id orders ≡ true
  maker_is = is_order_of-row m.user_id m.id orders m' maker_row ∙ own m.user_id m' maker_user

  maker_is_not : is_order_of m.user_id t.id orders ≡ false
  maker_is_not =
      is_order_of-row m.user_id t.id orders t' taker_row
      ∙ not_own m.user_id t' (λ e. strangers (sym taker_user ∙ e))

  history_item-taker :
      (id : ℕ)
      → IsPart x
          (history_item x t.user_id orders (trade_row t m q id))
          t.side
          taker
          (taker_fee t.side q m.price)
          (fee_asset t.side)
  unfolding history_item
  history_item-taker id = elim (Side-cases t.side) [
    | inl s ↦
        rw (s, taker_is) (record { side_eq = refl; role_eq = refl; fee_eq = refl; asset_eq = refl })
    | inr s ↦
        rw (s, taker_is, taker_is_not)
          (record { side_eq = refl; role_eq = refl; fee_eq = refl; asset_eq = refl })
  ]

  history_item-maker :
      (id : ℕ)
      → IsPart x
          (history_item x m.user_id orders (trade_row t m q id))
          (opposite t.side)
          maker
          (maker_fee t.side q m.price)
          (fee_asset (opposite t.side))
  unfolding history_item
  history_item-maker id = elim (Side-cases t.side) [
    | inl s ↦
        rw (s, maker_is_not)
          (record { side_eq = refl; role_eq = refl; fee_eq = refl; asset_eq = refl })
    | inr s ↦
        rw (s, maker_is, maker_is_not)
          (record { side_eq = refl; role_eq = refl; fee_eq = refl; asset_eq = refl })
  ]

  -- For orders of two users that the table holds under their ids, a fill and a price that
  -- are positive and fit a column with a cost that fits one: if `create_trade` with the fees
  -- of the trade returns a trade, `history_item` shows the taker the side of the taker
  -- order, the role of taker and the fee of the taker in its asset, and the maker the
  -- opposite side, the role of maker and the fee of the maker in its asset.
  pub history_item-create_trade :
      (d d' : Db) (trade : Trade)
      → 0 < q
      → q ≤ decimal_max
      → 0 < m.price
      → m.price ≤ decimal_max
      → cost q m.price ≤ decimal_max
      → create_trade t m
          (fee_details
            (pos (maker_fee t.side q m.price))
            (fee_asset (opposite t.side))
            (pos (taker_fee t.side q m.price))
            (fee_asset t.side))
          (pos q)
          (pos m.price)
          d
        ≡ ok (trade, d')
      → IsPart x
          (history_item x t.user_id orders trade)
          t.side
          taker
          (taker_fee t.side q m.price)
          (fee_asset t.side)
        × IsPart x
            (history_item x m.user_id orders trade)
            (opposite t.side)
            maker
            (maker_fee t.side q m.price)
            (fee_asset (opposite t.side))
  history_item-create_trade d d' trade a b c e f h =
      let row : trade_row t m q d.next_trade ≡ trade =
        ground (arith, create_trade-eq t m q d a b c e f, h) in
      rw⁻¹ row (history_item-taker d.next_trade, history_item-maker d.next_trade)
