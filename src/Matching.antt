-- ===== src/Matching.antt =====
-- backend/src/matching/matching.service.ts: a taker meets the makers of the book, trade by trade, in one
-- transaction; and the rejection of an order whose processing has failed for good.
mod Loop
pub mod Meeting
pub mod Money
pub mod Step
pub mod Trading
pub mod Conservation
pub mod Rounds
pub mod Run
pub mod Finish
pub mod Process
pub mod Reject
pub mod Settled
pub mod Departed
unfoldable pub use Loop.*
use exchange_matching.Base.{
  ℕ, ℤ, pos, List, [], ◌∷◌, map, Option, none, some, Bool, true, false, order_not_found,
  if◌then◌else◌,
}
use exchange_matching.Database.{
  Order, Event, EventReason, Status, queued, opened, partially_filled, filled, rejected,
  market_changed, account_changed, order_opened, trade_executed, order_rejected, cancelled, Action,
  Void, ◌>>=◌, ◌>>◌, pure, or_throw, load_order, update_status, update_remaining, append_events,
}
use exchange_matching.Wallets.{release_funds}
use exchange_matching.OrderBook.{Waits, Search, find_and_lock_eligible_makers}

abbrev pub is_queued : Status → Bool
is_queued queued = true
is_queued _ = false

-- `takerStatus`
abbrev pub taker_status : (matched remaining : ℤ) → Status
taker_status matched remaining =
    if is_zero matched then opened else if is_zero remaining then filled else partially_filled

abbrev pub reason_of : (matched : ℤ) → EventReason
reason_of matched = if is_zero matched then order_opened else trade_executed

-- A taker with no maker goes into the book.
unfoldable pub open_order : Order → Action Bool
open_order taker = do
  update_status taker.id opened
  append_events (
      market_changed order_opened taker.id []
      ∷ account_changed order_opened taker.id [] taker.user_id
      ∷ [])
  pure true

-- What is stored of the taker after the loop, and the events.
unfoldable pub finish_order : Order → Progress → Action Bool
finish_order taker p = do
  update_remaining taker.id p.remaining (taker_status p.matched p.remaining)
  append_events (
      market_changed (reason_of p.matched) taker.id p.trade_ids
      ∷ map (account_changed (reason_of p.matched) taker.id p.trade_ids) p.affected)
  pure true

abbrev pub start : Order → Progress
start taker = record {
  remaining = pos taker.remaining_amount;
  matched = pos 0;
  affected = taker.user_id ∷ [];
  trade_ids = [];
}

unfoldable pub settle_makers : Waits → Order → Search → Action Bool
unfolding open_order finish_order
settle_makers waits taker s = elim s.makers [
  | [] ↦ open_order taker
  | maker ∷ rest ↦
      match_makers waits s.locked taker (maker ∷ rest) (start taker) >>= finish_order taker
]

-- The transaction of `processOrder`; it returns whether events were stored. `fuel` bounds the search
-- for makers.
unfoldable pub process_order : Waits → (fuel : ℕ) → (order_id : ℕ) → Action Bool
unfolding settle_makers
process_order waits fuel order_id = do
  found ← load_order order_id
  taker ← or_throw found order_not_found
  if is_queued taker.status
      then (find_and_lock_eligible_makers waits taker fuel >>= settle_makers waits taker)
      else pure false

-- The transaction of `rejectOrderAfterFailedProcessing`.
unfoldable pub reject_order : (order_id : ℕ) → Action Bool
reject_order order_id = do
  found ← load_order order_id
  elim found [
    | none ↦ pure false
    | some order ↦
        if is_queued order.status
        then (update_status order.id rejected
            >> release_funds order
            >> append_events (account_changed order_rejected order.id [] order.user_id ∷ [])
            >> pure true)
        else pure false
  ]
