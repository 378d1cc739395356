-- ===== src/Traffic/Attempts.antt =====
-- backend/src/queue/order-matching.processor.ts: an attempt at a matching job, as failures of the database
-- may meet it, takes its order out of the queue or throws.
use exchange_matching.Base.{
  ℕ, ◌≡◌, ◌∙◌, ap, refl, arith, true, false, Bool, List, [], Option, some, none, Result-cases, ok,
  inl, inr, ◌⊎◌,
}
use exchange_matching.Table.{find, find-key}
use exchange_matching.Database.{Db, Order, order_key, load_order}
use exchange_matching.Matching.{process_order, reject_order}
use exchange_matching.Matching.Reject.{reject_order-Withdrawn}
use exchange_matching.Matching.Settled.{has_left}
use exchange_matching.Outbox.Queue.{
  process_job, is_final_attempt, Interruption, uninterrupted, lost, unacknowledged, reject_or_throw,
  settle_attempt,
}
use exchange_matching.Ledger.{Valid}
use exchange_matching.Ledger.Moves.{Valid→ValidBut}
use exchange_matching.Traffic.{Request, serve_all, Schedule, waits_of}
use exchange_matching.Traffic.Isolation.{serve_all-Harmless}
use exchange_matching.Traffic.Running.{fuel_for, failure_of, run_attempt, Reach}
use exchange_matching.Traffic.Exchange.{
  Reach-Kept, serve_all-Kept, left_queue-cases, queued_processing, taker_status-left,
}
use exchange_matching.Traffic.Redelivery.{reject_or_throw-has_left}

abbrev pub is_uninterrupted : Interruption → Bool
is_uninterrupted uninterrupted = true
is_uninterrupted _ = false

abbrev pub is_there : Option Order → Bool
is_there none = false
is_there (some o) = true

-- The attempt does not throw, and its order has left the queue; or it throws, since a failure of the
-- database interrupts it, and the row of the order is there for the next attempt.
abbrev pub IsSettled : Interruption → (order_id : ℕ) → Db × Bool → Type 0
IsSettled i id answer =
    ((answer.1 ≡ false) × (has_left (find order_key id answer.0.orders) ≡ true))
    ⊎ ((answer.1 ≡ true)
        × (is_uninterrupted i ≡ false)
        × (is_there (find order_key id answer.0.orders) ≡ true))

left-is_there : (o : Option Order) → has_left o ≡ true → is_there o ≡ true
left-is_there none h = h
left-is_there (some o) h = refl

-- A rejection of an order that is there.
reject_or_throw-IsSettled :
    (i : Interruption) (is_final fails : Bool) (id : ℕ) (d : Db) (o : Order)
    → is_uninterrupted i ≡ false
    → Valid d
    → find order_key id d.orders ≡ some o
    → IsSettled i id (reject_or_throw is_final fails id d)
reject_or_throw-IsSettled i false fails id d o f v row = inr (refl, f, ground (arith, row))
reject_or_throw-IsSettled i true true id d o f v row = inr (refl, f, ground (arith, row))
reject_or_throw-IsSettled i true false id d o f v row = elim (left_queue-cases o) [
  | inl q ↦
      let key = find-key order_key id d.orders o row in
      let gone =
        reject_order-Withdrawn o d v (ap (λ (k : ℕ). find order_key k d.orders) key ∙ row) q in
      inl (ground (arith, gone.returns, key), ground (arith, gone.returns, gone.order_row, key))
  | inr left ↦
      let out : has_left (find order_key id d.orders) ≡ true = ground (arith, row, left) in
      let after = reject_or_throw-has_left id true false id d out in
      elim (Result-cases (reject_order id d)) [
        | inl (e, throws) ↦ rw throws (inr (refl, f, ground (arith, row)))
        | inr (r, gives) ↦
            let kept : has_left (find order_key id r.1.orders) ≡ true =
              ground (arith, gives, after) in
            rw gives (inl (refl, kept))
      ]
]

-- Requests do not take the row of an order away.
served-row :
    (id : ℕ) (rs : List Request) (d : Db) (o : Order)
    → Valid d
    → find order_key id d.orders ≡ some o
    → (o' : Order) × (find order_key id (serve_all [] rs d).orders ≡ some o')
served-row id rs d o v row =
    let place = (serve_all-Harmless [] rs o o d (Valid→ValidBut o d v)).book.place id o row in
    (place.0, place.1)

row_of_left : (o : Option Order) → has_left o ≡ true → (x : Order) × (o ≡ some x)
row_of_left none h = cc
row_of_left (some x) h = (x, refl)

failed-IsSettled :
    (i : Interruption) (is_final fails : Bool) (rs : List Request) (id : ℕ) (d : Db) (o : Order)
    → is_uninterrupted i ≡ false
    → Valid d
    → find order_key id d.orders ≡ some o
    → IsSettled i id (reject_or_throw is_final fails id (serve_all [] rs d))
failed-IsSettled i is_final fails rs id d o f v row =
    let there = served-row id rs d o v row in
    reject_or_throw-IsSettled i is_final fails id (serve_all [] rs d) there.0 f
      (serve_all-Kept rs d v).valid there.1

settle_attempt-IsSettled :
    (i : Interruption) (is_final fails : Bool) (rs : List Request) (id : ℕ) (d after : Db)
    (b : Bool) (o : Order)
    → Valid d
    → Valid after
    → find order_key id d.orders ≡ some o
    → has_left (find order_key id after.orders) ≡ true
    → IsSettled i id (settle_attempt i is_final fails (serve_all [] rs) id d (ok (b, after)))
settle_attempt-IsSettled uninterrupted is_final fails rs id d after b o v w row left =
    inl (refl, left)
settle_attempt-IsSettled lost is_final fails rs id d after b o v w row left =
    failed-IsSettled lost is_final fails rs id d o refl v row
settle_attempt-IsSettled unacknowledged is_final fails rs id d after b o v w row left =
    let there = row_of_left (find order_key id after.orders) left in
    failed-IsSettled unacknowledged is_final fails rs id after there.0 refl w there.1

-- The processing of an order that is there returns, and the order has left the queue.
processing-leaves_queue :
    (s : Schedule) (id : ℕ) (d : Db) (o : Order)
    → Valid d
    → find order_key id d.orders ≡ some o
    → (b : Bool) × (after : Db) × (Valid after)
      × (process_order (waits_of s) (fuel_for d.orders) id d ≡ ok (b, after))
      × (has_left (find order_key id after.orders) ≡ true)
unfolding process_order load_order
processing-leaves_queue s id d o v row = elim (left_queue-cases o) [
  | inr left ↦ (false, d, v, ground (arith, row, left), ground (arith, row, left))
  | inl q ↦
      let ran = queued_processing s id d v o row q in
      let key = find-key order_key id d.orders o row in
      let out = taker_status-left o ran.1.left ran.1.done in
      (
        true,
        ran.1.after,
        ran.1.valid,
        ground (arith, ran.2, ran.1.returns),
        ground (arith, ran.1.taker_row, key, out),
      )
]

-- In a database that the exchange reaches from a valid one, for an order whose row it holds,
-- for an attempt that is not interrupted, or whose transaction is lost, or whose commit is not
-- acknowledged, whether or not a rejection would fail then and whatever requests are served
-- during its waits and before the processor sees the failure: the attempt does not throw, and
-- the row of the order is there and not queued; or it throws, it was interrupted, and the row
-- of the order is there.
pub run_attempt-IsSettled :
    (s : Schedule) (i : Interruption) (rejection_fails : Bool) (meanwhile : List Request)
    (attempts_made : ℕ) (attempts : Option ℕ) (d₀ d : Db) (o : Order)
    → Valid d₀
    → Reach d₀ d
    → find order_key o.id d.orders ≡ some o
    → IsSettled i o.id (run_attempt s i rejection_fails meanwhile attempts_made attempts o.id d)
unfolding run_attempt process_job failure_of
run_attempt-IsSettled s i fails meanwhile m n d₀ d o v reach row =
    let valid = (Reach-Kept d₀ v reach).valid in
    let (b, after, valid_after, returns, left) = processing-leaves_queue s o.id d o valid row in
    rw returns (
      settle_attempt-IsSettled i (is_final_attempt m n) fails meanwhile o.id d after b o valid
        valid_after row left)
