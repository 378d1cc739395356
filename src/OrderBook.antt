-- ===== src/OrderBook.antt =====
-- backend/src/matching/matching-order-book.service.ts: the makers that a taker meets, in price-time
-- order, and their locks.
mod Candidates
pub mod Rules
pub mod Priority
pub mod Query
pub mod Ahead
pub mod Round
pub mod Found
pub mod Complete
pub mod Seen
pub mod Chosen
unfoldable pub use Candidates.*
use exchange_matching.Base.{
  ℕ, zero, suc, ℤ, pos, ltb_ℤ, List, [], ◌∷◌, ◌++◌, Option, none, some, Bool, true, false, ok, err,
  out_of_fuel, if◌then◌else◌,
}
use exchange_matching.Table.{find}
use exchange_matching.Database.{Db, Order, Action, order_key}

-- What other transactions commit while this one waits for a lock. `for_order locked id` is the wait for
-- the row of the order `id`, `for_wallets locked user` the wait for the wallets of a trade with that
-- user as the maker; `locked` are the orders that this transaction has locked so far.
pub record Waits : Type 0 where
  pub for_order : (locked : List ℕ) (id : ℕ) → Db → Db
  pub for_wallets : (locked : List ℕ) (user_id : ℕ) → Db → Db

-- What the loop of `findAndLockEligibleMakers` carries; `locked` are the ids of the locked rows.
pub record Search : Type 0 where
  pub cursor : Option MakerCursor
  pub remaining : ℤ
  pub makers : List Order
  pub locked : List ℕ

module _ (waits : Waits) (taker : Order) where
  -- `while (remaining.gt(0))` and the query: no candidate ends the loop.
  unfoldable pub next_candidate : Search → Db → Option Order
  next_candidate s d =
      if ltb_ℤ (pos 0) s.remaining then find_next_candidate taker s.cursor d.orders else none

  -- The loop, from the candidate that the order book has next.
  unfoldable pub search_makers : (fuel : ℕ) → Search → Action Search
  unfolding consider next_candidate
  search_makers zero s d = err out_of_fuel
  search_makers (suc fuel) s d = elim (next_candidate s d) [
    | none ↦ ok (s, d)
    | some candidate ↦
        let d' = waits.for_order s.locked candidate.id d in
        elim (consider taker (find order_key candidate.id d'.orders) s.remaining s.makers) [
          | err e ↦ err e
          | ok found ↦
              search_makers fuel
                (record {
                  cursor = some (cursor_at candidate);
                  remaining = found.0;
                  makers = found.1;
                  locked = candidate.id ∷ s.locked;
                })
                d'
        ]
  ]

  -- `findAndLockEligibleMakers`
  unfoldable pub find_and_lock_eligible_makers : (fuel : ℕ) → Action Search
  unfolding search_makers
  find_and_lock_eligible_makers fuel = search_makers fuel (record {
    cursor = none;
    remaining = pos taker.remaining_amount;
    makers = [];
    locked = taker.id ∷ [];
  })
