-- ===== src/OrderBook/Candidates.antt =====
-- backend/src/matching/matching-order-book.service.ts: the query for the next candidate, the check of a
-- reloaded maker, and one round of the loop.
use exchange_matching.Base.{
  ℕ, ℤ, pos, ltb_ℤ, ◌==◌, ltb, leb, not, ◌&&◌, ◌||◌, List, [], ◌∷◌, ◌++◌, Option, none, some, Bool,
  true, false, Result, ok, ◌>>=◌, if◌then◌else◌,
}
use exchange_matching.Decimal.{multiply_scaled, subtract_scaled}
use exchange_matching.Database.{Order, Side, buy, sell, Status, opened, partially_filled}

pub record MakerCursor : Type 0 where
  pub price : ℕ
  pub sequence : ℕ

abbrev pub cursor_at : Order → MakerCursor
cursor_at o = record { price = o.price; sequence = o.sequence }

-- OPEN or PARTIALLY_FILLED: the orders that rest in the book.
abbrev pub is_resting : Status → Bool
is_resting opened = true
is_resting partially_filled = true
is_resting _ = false

abbrev pub opposes : (taker maker : Side) → Bool
opposes buy sell = true
opposes sell buy = true
opposes _ _ = false

-- A maker's price that the taker accepts.
abbrev pub crosses : (taker_side : Side) → (taker_price maker_price : ℕ) → Bool
crosses buy limit price = leb price limit
crosses sell limit price = leb limit price

-- `price: buying ? { gt: cursor.price } : { lt: cursor.price }`, for prices of the book.
abbrev pub worse_price : (taker_side : Side) → (price than : ℕ) → Bool
worse_price buy price than = ltb than price
worse_price sell price than = ltb price than

-- Behind the cursor: at a worse price, or later at the same price.
abbrev pub is_behind : Side → (price sequence : ℕ) → MakerCursor → Bool
is_behind side price sequence c =
    worse_price side price c.price || (price == c.price && ltb c.sequence sequence)

abbrev pub is_past : Side → Option MakerCursor → Order → Bool
is_past side none o = true
is_past side (some c) o = is_behind side o.price o.sequence c

-- The `where` of `findNextCandidate`.
unfoldable pub is_candidate : (taker : Order) → Option MakerCursor → Order → Bool
is_candidate taker cursor o =
    opposes taker.side o.side
    && (not (o.user_id == taker.user_id)
        && (is_resting o.status
            && (crosses taker.side taker.price o.price && is_past taker.side cursor o)))

-- `findFirst` under an order: of the rows that match, the one with no other before it.
unfoldable pub find_first : (Order → Bool) → (Order → Order → Bool) → List Order → Option Order
find_first test before [] = none
find_first test before (o ∷ os) =
    let rest = find_first test before os in
    if test o
    then elim rest [ none ↦ some o | some best ↦ some (if before best o then best else o) ]
    else rest

-- The `orderBy`: the best price for the taker, then the lowest sequence number.
abbrev pub precedes : Side → Order → Order → Bool
precedes side a b = is_behind side b.price b.sequence (cursor_at a)

unfoldable pub find_next_candidate : Order → Option MakerCursor → List Order → Option Order
unfolding is_candidate find_first
find_next_candidate taker cursor os =
    find_first (is_candidate taker cursor) (precedes taker.side) os

unfoldable pub is_eligible_maker : (taker maker : Order) → Bool
is_eligible_maker taker maker =
    if maker.user_id == taker.user_id
    then false
    else if not (is_resting maker.status)
    then false
    else if leb maker.remaining_amount 0
    then false
    else opposes taker.side maker.side && crosses taker.side taker.price maker.price

-- The amount that a maker covers: dust covers nothing.
unfoldable pub cover : (remaining : ℤ) → Order → Result ℤ
cover remaining maker = do
  let amount : ℤ =
      if ltb_ℤ remaining (pos maker.remaining_amount) then remaining else pos maker.remaining_amount
  cost ← multiply_scaled amount (pos maker.price)
  if ltb_ℤ (pos 0) cost then subtract_scaled remaining amount else ok remaining

-- One round of the loop behind the lock: what the reloaded row does to the search.
unfoldable pub consider :
    (taker : Order) → Option Order → (remaining : ℤ) → List Order → Result (ℤ × List Order)
unfolding is_eligible_maker cover
consider taker none remaining makers = ok (remaining, makers)
consider taker (some maker) remaining makers =
    if is_eligible_maker taker maker
    then (cover remaining maker >>= λ left. ok (left, makers ++ maker ∷ []))
    else ok (remaining, makers)
