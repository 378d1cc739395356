-- ===== src/Orders/Cancel.antt =====
-- backend/src/orders/orders.service.ts, `cancelOrder`, on each of its branches.
use exchange_matching.Base.{
  ℕ, ◌≡◌, refl, ok, err, true, arith, [], ◌∷◌, ◌++◌, none, some, Option, Error, ◌==◌, if◌then◌else◌,
  order_not_found, bad_request, cannot_be_cancelled,
}
use exchange_matching.Table.{find}
use exchange_matching.Database.{
  Db, Order, cancelled, order_key, order_check, load_order, append_events, market_changed,
  account_changed, order_cancelled,
}
use exchange_matching.Database.Laws.{update_status-eq}
use exchange_matching.Wallets.{find_by_user_id}
use exchange_matching.Orders.{is_active_status, load_order_of, cancel_order}
use exchange_matching.Ledger.{Valid}
use exchange_matching.Orders.Release.{with_status, release_funds-released}
use exchange_matching.Orders.Withdraw.{Withdrawn, released-Withdrawn}

order_check-cancelled :
    (o : Order)
    → is_active_status o.status ≡ true
    → order_check o ≡ true
    → order_check (with_status o cancelled) ≡ true
unfolding order_check
order_check-cancelled o a c = ground arith

-- In a valid database, for an order whose row it holds and that is active, `cancel_order` by
-- its user returns the cancelled order and a valid database, in which the row is cancelled,
-- the wallet has available what the order held reserved, and the totals of USD and BTC are as
-- before.
pub cancel_order-Withdrawn :
    (o : Order) (d : Db)
    → Valid d
    → find order_key o.id d.orders ≡ some o
    → is_active_status o.status ≡ true
    → Withdrawn o cancelled (with_status o cancelled) d (cancel_order o.user_id o.id d)
unfolding cancel_order load_order_of load_order find_by_user_id append_events
cancel_order-Withdrawn o d v row active =
    let wallet = v.sound.owned o.id o row in
    let checked = order_check-cancelled o active (v.sound.rows_checked o.id o row) in
    let events =
      d.events
      ++ market_changed order_cancelled o.id []
        ∷ account_changed order_cancelled o.id [] o.user_id
        ∷ [] in
    released-Withdrawn o cancelled (with_status o cancelled) events d v row active refl checked
      (cancel_order o.user_id o.id d) wallet.0 wallet.1
      (ground (
        arith,
        row,
        active,
        wallet.1,
        update_status-eq o.id o d row cancelled checked,
        release_funds-released o cancelled wallet.0 events d v row wallet.1 active,
      ))

-- Why a user may not cancel what was found under the id.
abbrev pub refusal : (user_id : ℕ) → Option Order → Option Error
refusal u none = some order_not_found
refusal u (some o) =
    if o.user_id == u
    then (if is_active_status o.status then none else some (bad_request cannot_be_cancelled))
    else some order_not_found

-- If `refusal` names an error for what is found under the id - no order, an order of another
-- user, an order that is not active - then `cancel_order` fails with that error.
pub cancel_order_refused :
    (u id : ℕ) (d : Db) (e : Error)
    → refusal u (find order_key id d.orders) ≡ some e
    → cancel_order u id d ≡ err e
unfolding cancel_order load_order_of load_order
cancel_order_refused u id d e h = elim (find order_key id d.orders) [
  | none ↦ ground arith
  | some o ↦ ground arith
]

-- In a valid database, for an order whose row it holds and that is active: after
-- `cancel_order` by its user has returned a database, `cancel_order` on that database fails
-- with `cannot_be_cancelled`.
pub cancel_order_twice :
    (o o' : Order) (d d' : Db)
    → Valid d
    → find order_key o.id d.orders ≡ some o
    → is_active_status o.status ≡ true
    → cancel_order o.user_id o.id d ≡ ok (o', d')
    → cancel_order o.user_id o.id d' ≡ err (bad_request cannot_be_cancelled)
cancel_order_twice o o' d d' v row active e =
    let once = cancel_order-Withdrawn o d v row active in
    ground (
      arith,
      once.returns,
      once.order_row,
      cancel_order_refused o.user_id o.id d' (bad_request cannot_be_cancelled),
    )
