-- ===== src/Matching/Reject.antt =====
-- backend/src/matching/matching.service.ts, `rejectOrderAfterFailedProcessing`, on each of its branches.
use exchange_matching.Base.{
  ℕ, ◌≡◌, refl, ok, true, false, arith, [], ◌∷◌, ◌++◌, none, some, Option, Bool,
}
use exchange_matching.Table.{find}
use exchange_matching.Database.{
  Db, Order, queued, rejected, order_key, order_check, load_order, append_events, account_changed,
  order_rejected,
}
use exchange_matching.Database.Laws.{update_status-eq}
use exchange_matching.Ledger.{Valid}
use exchange_matching.Orders.Release.{with_status, release_funds-released}
use exchange_matching.Orders.{is_active_status}
use exchange_matching.Orders.Withdraw.{Withdrawn, released-Withdrawn}
use exchange_matching.Matching.{is_queued, reject_order}

order_check-rejected :
    (o : Order)
    → o.status ≡ queued
    → order_check o ≡ true
    → order_check (with_status o rejected) ≡ true
unfolding order_check
order_check-rejected o q c = ground (arith, q)

queued-active : (o : Order) → o.status ≡ queued → is_active_status o.status ≡ true
queued-active o q = ground (arith, q)

-- In a valid database, for an order whose row it holds and that is queued, `reject_order`
-- returns true and a valid database, in which the row is rejected, the wallet has available
-- what the order held reserved, and the totals of USD and BTC are as before.
pub reject_order-Withdrawn :
    (o : Order) (d : Db)
    → Valid d
    → find order_key o.id d.orders ≡ some o
    → o.status ≡ queued
    → Withdrawn o rejected true d (reject_order o.id d)
unfolding reject_order load_order append_events
reject_order-Withdrawn o d v row q =
    let wallet = v.sound.owned o.id o row in
    let checked = order_check-rejected o q (v.sound.rows_checked o.id o row) in
    let active = queued-active o q in
    let events = d.events ++ account_changed order_rejected o.id [] o.user_id ∷ [] in
    released-Withdrawn o rejected true events d v row active refl checked (reject_order o.id d)
      wallet.0 wallet.1
      (ground (
        arith,
        row,
        q,
        wallet.1,
        update_status-eq o.id o d row rejected checked,
        release_funds-released o rejected wallet.0 events d v row wallet.1 active,
      ))

-- There is nothing to reject: no such order, or one that has left the queue.
abbrev pub left_queue : Option Order → Bool
left_queue none = true
left_queue (some o) = elim (is_queued o.status) [ true ↦ false | false ↦ true ]

-- If there is no order under the id, or it is not queued, `reject_order` returns false and
-- changes nothing.
pub reject_order-left_queue :
    (id : ℕ) (d : Db)
    → left_queue (find order_key id d.orders) ≡ true
    → reject_order id d ≡ ok (false, d)
unfolding reject_order load_order
reject_order-left_queue id d h = elim (find order_key id d.orders) [
  | none ↦ ground arith
  | some o ↦ ground arith
]

-- In a valid database, for an order whose row it holds and that is queued: after
-- `reject_order` has returned a database, `reject_order` on that database returns false and
-- changes nothing.
pub reject_order_twice :
    (o : Order) (d d' : Db) (b : Bool)
    → Valid d
    → find order_key o.id d.orders ≡ some o
    → o.status ≡ queued
    → reject_order o.id d ≡ ok (b, d')
    → reject_order o.id d' ≡ ok (false, d')
reject_order_twice o d d' b v row q e =
    let once = reject_order-Withdrawn o d v row q in
    ground (arith, once.returns, once.order_row, reject_order-left_queue o.id d')
