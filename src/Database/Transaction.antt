-- ===== src/Database/Transaction.antt =====
-- `prismaService.$transaction`: a transaction reads and writes the database and may throw, and then
-- nothing that it wrote stays. The statements below are the ones that the services issue.
use exchange_matching.Base.{
  ℕ, suc, ℤ, List, [], ◌∷◌, ◌++◌, Option, none, some, Result, ok, err, Error, check_violation,
  record_not_found, Bool, true, false,
}
use exchange_matching.Table.{find, replace}
use exchange_matching.Database.Rows.{Db, Order, Trade, Event, Side, Status, queued, order_key}
use exchange_matching.Database.Constraints.{to_column, order_check, trade_check}

abbrev pub Action : Type 0 → Type 0
Action A = Db → Result (A × Db)

abbrev pub Void : Type 0
Void = Unit

infixl 5 ◌>>=◌ ◌>>◌
abbrev pub ◌>>=◌ : {A B : Type 0} → Action A → (A → Action B) → Action B
◌>>=◌ m f d = elim (m d) [ ok r ↦ f r.0 r.1 | err e ↦ err e ]

abbrev pub ◌>>◌ : {A B : Type 0} → Action A → Action B → Action B
m >> k = m >>= λ _. k

abbrev pub pure : {A : Type 0} → A → Action A
pure a d = ok (a, d)

abbrev pub throw : {A : Type 0} → Error → Action A
throw e d = err e

-- A computation that does not touch the database.
abbrev pub lift : {A : Type 0} → Result A → Action A
lift (ok a) = pure a
lift (err e) = throw e

abbrev pub gets : {A : Type 0} → (Db → A) → Action A
gets f d = ok (f d, d)

abbrev pub modify : (Db → Db) → Action Void
modify f d = ok (tt, f d)

abbrev pub or_throw : {A : Type 0} → Option A → Error → Action A
or_throw none e = throw e
or_throw (some a) e = pure a

abbrev pub throw_unless : Bool → Error → Action Void
throw_unless true e d = ok (tt, d)
throw_unless false e d = err e

-- `order.findUnique`, and the row that `SELECT ... FOR UPDATE` locks.
unfoldable pub load_order : ℕ → Action (Option Order)
load_order id = gets (λ d. find order_key id d.orders)

-- A write of a row of "orders" that exists.
unfoldable pub store_order : ℕ → Order → Action Void
store_order id o = do
  throw_unless (order_check o) check_violation
  modify (λ d. record d { orders = replace order_key id o d.orders })

-- `order.update({ where: { id }, data: { status } })`
unfoldable pub update_status : ℕ → Status → Action Order
unfolding load_order store_order
update_status id status = do
  found ← load_order id
  order ← or_throw found record_not_found
  let order' : Order = record order { status = status }
  store_order id order'
  pure order'

-- `order.update({ where: { id }, data: { remainingAmount, status } })`
unfoldable pub update_remaining : ℕ → ℤ → Status → Action Order
unfolding load_order store_order
update_remaining id remaining status = do
  found ← load_order id
  order ← or_throw found record_not_found
  column ← lift (to_column remaining)
  let order' : Order = record order { remaining_amount = column; status = status }
  store_order id order'
  pure order'

-- `order.create`, with status QUEUED and the next sequence number.
unfoldable pub insert_order : (user_id : ℕ) → Side → (amount price : ℤ) → Action Order
insert_order user_id side amount price = do
  id ← gets (λ d. d.next_order)
  amount_column ← lift (to_column amount)
  price_column ← lift (to_column price)
  let order : Order = record {
    id = id;
    sequence = id;
    user_id = user_id;
    side = side;
    status = queued;
    price = price_column;
    original_amount = amount_column;
    remaining_amount = amount_column;
  }
  throw_unless (order_check order) check_violation
  modify (λ d. record d { orders = d.orders ++ order ∷ []; next_order = suc id })
  pure order

-- `trade.create`: the row gets the next sequence number.
unfoldable pub insert_trade : (ℕ → Trade) → Action Trade
insert_trade make = do
  id ← gets (λ d. d.next_trade)
  let trade = make id
  throw_unless (trade_check trade) check_violation
  modify (λ d. record d { trades = d.trades ++ trade ∷ []; next_trade = suc id })
  pure trade

-- backend/src/realtime/realtime-outbox.service.ts, `appendEvents`: the rows go into the outbox.
unfoldable pub append_events : List Event → Action Void
append_events es = modify (λ d. record d { events = d.events ++ es })

-- backend/src/queue/order-matching-outbox.service.ts, `appendOrder`.
unfoldable pub append_order : ℕ → Action Void
append_order order_id = modify (λ d. record d {
  matching_outbox = d.matching_outbox ++ record { id = order_id; order_id = order_id } ∷ [];
})
