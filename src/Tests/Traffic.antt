-- ===== src/Tests/Traffic.antt =====
-- The theorems on traffic, at a market whose seller cancels or whose buyer places another order.
use exchange_matching.Base.{false, ◌≡◌, refl, ◌<◌, arith, [], ◌∷◌, pos, none, some, ok}
use exchange_matching.Table.{sum_by}
use exchange_matching.Decimal.{finite}
use exchange_matching.Database.{Db, Order, buy}
use exchange_matching.Orders.{create_order, cancel_order}
use exchange_matching.Orders.Place.{new_order, placed}
use exchange_matching.Orders.Create.{create_order-answer}
use exchange_matching.Orders.RoundTrip.{Undone, create_order-cancel_order}
use exchange_matching.Ledger.Waiting.{Isolated, ahead}
use exchange_matching.OrderBook.{is_candidate}
use exchange_matching.Matching.{process_order}
use exchange_matching.Traffic.Attempts.{IsSettled, run_attempt-IsSettled}
use exchange_matching.Outbox.Queue.{lost}
use exchange_matching.Matching.Process.{Processed}
use exchange_matching.Traffic.{create, cancel, reject, Schedule, waits_of, serve}
use exchange_matching.Traffic.Isolation.{waits_of-Isolated, process_order_among_requests}
use exchange_matching.Traffic.Running.{served, matched, here, next, run_job, run_attempt}
use exchange_matching.Traffic.Exchange.{Kept, Reach-Kept}
use exchange_matching.Tests.Market.{market, incoming, market-Valid, incoming_row, buyer, buyer_row}

-- The seller cancels while the matcher waits for the seller's order, and the buyer places another
-- order while it waits for the wallets.
abbrev busy : Schedule
busy = record {
  for_order = λ locked id. cancel 2 0 ∷ [];
  for_wallets = λ locked user. create 1 buy (finite (pos 1) 0) (finite (pos 100) 0) ∷ reject 7 ∷ [];
}

waits_of-Isolated_example : Isolated (waits_of busy)
waits_of-Isolated_example = waits_of-Isolated busy

one_ahead : ahead incoming none market.orders < 5
unfolding ahead sum_by is_candidate
one_ahead = omega arith

process_order_among_requests_example :
    Processed incoming market (process_order (waits_of busy) 5 1 market)
process_order_among_requests_example =
    process_order_among_requests busy incoming 5 market market-Valid incoming_row refl one_ahead

-- The seller's order is cancelled.
abbrev emptied : Db
emptied = serve (cancel 2 0) market

-- The buyer's order is matched then.
abbrev matched_late : Db
matched_late = run_job busy 0 (some 3) 1 emptied

Reach-Kept_example : Kept market matched_late
Reach-Kept_example =
    Reach-Kept market market-Valid
      (next (next here (served (cancel 2 0) refl)) (matched busy 0 (some 3) 1 refl))

-- The connection is lost at the last attempt, and the buyer cancels before the rejection.
run_attempt-IsSettled_example :
    IsSettled lost 1 (run_attempt busy lost false (cancel 1 1 ∷ []) 2 (some 3) 1 market)
run_attempt-IsSettled_example =
    run_attempt-IsSettled busy lost false (cancel 1 1 ∷ []) 2 (some 3) market market incoming
      market-Valid here incoming_row

abbrev order_at_100 : Order
order_at_100 = new_order 1 buy 100000000 10000000000 market

abbrev with_new_order : Db
with_new_order = placed 1 buy 100000000 10000000000 buyer market

placed_run :
    create_order 1 buy (ok (pos 100000000)) (ok (pos 10000000000)) market
    ≡ ok (order_at_100, with_new_order)
placed_run =
    create_order-answer 1 buy 100000000 10000000000 buyer market market-Valid.sound buyer_row
      (omega arith) (omega arith) (omega arith) (omega arith)

create_order-cancel_order_example : Undone order_at_100 market (cancel_order 1 2 with_new_order)
create_order-cancel_order_example =
    create_order-cancel_order 1 buy 100000000 10000000000 buyer market market-Valid buyer_row
      (omega arith) (omega arith) (omega arith) (omega arith) order_at_100 with_new_order placed_run
