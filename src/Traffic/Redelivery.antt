-- ===== src/Traffic/Redelivery.antt =====
-- A matching job that is delivered again: backend/src/queue/order-matching.processor.ts and what users
-- do between the deliveries.
use exchange_matching.Base.{
  ℕ, ◌≡◌, refl, false, Bool, Result, ok, err, arith, true, List, [], ◌∷◌, Option, none, some,
  Result-cases, Bool-cases, inl, inr,
}
use exchange_matching.Table.{find}
use exchange_matching.Database.{Db, Order, Action, order_key}
use exchange_matching.Decimal.Input.{check_positive_decimal}
use exchange_matching.Matching.{process_order, reject_order}
use exchange_matching.Matching.Reject.{left_queue}
use exchange_matching.Matching.Settled.{has_left, Keeps}
use exchange_matching.Matching.Departed.{WaitsKeep, process_order-Keeps}
use exchange_matching.Outbox.Queue.{
  process_job, is_final_attempt, Interruption, uninterrupted, lost, unacknowledged, reject_or_throw,
  settle_attempt,
}
use exchange_matching.Ledger.{Valid}
use exchange_matching.Traffic.{
  Request, create, cancel, reject, serve, serve_all, Schedule, waits_of, commit, is_blocked,
}
use exchange_matching.Traffic.Running.{
  fuel_for, failure_of, run_attempt, interrupted, run_job, Step, served, matched, Reach, here, next,
}
use exchange_matching.Traffic.Exchange.{idle_job, run_job-leaves_queue}
use exchange_matching.Traffic.Departures.{
  create_order-Keeps, cancel_order-Keeps, reject_order-Keeps,
}

commit-has_left :
    {A : Type 0} (id : ℕ) (m : Action A)
    → Keeps id m
    → (d : Db) → has_left (find order_key id d.orders) ≡ true
    → has_left (find order_key id (commit (m d) d).orders) ≡ true
unfolding Keeps
commit-has_left id m keeps d left = elim (Result-cases (m d)) [
  | inl (x, fails) ↦ rw fails left
  | inr (r, gives) ↦ rw gives (keeps d r left gives)
]

serve-has_left :
    (id : ℕ) (r : Request) (d : Db)
    → has_left (find order_key id d.orders) ≡ true
    → has_left (find order_key id (serve r d).orders) ≡ true
unfolding serve
serve-has_left id (create u s amount price) =
    commit-has_left id _
      (create_order-Keeps id u s (check_positive_decimal amount) (check_positive_decimal price))
serve-has_left id (cancel u k) = commit-has_left id _ (cancel_order-Keeps id u k)
serve-has_left id (reject k) = commit-has_left id _ (reject_order-Keeps id k)

pub serve_all-has_left :
    (id : ℕ) (locked : List ℕ) (rs : List Request) (d : Db)
    → has_left (find order_key id d.orders) ≡ true
    → has_left (find order_key id (serve_all locked rs d).orders) ≡ true
unfolding serve_all
serve_all-has_left id locked [] d left = left
serve_all-has_left id locked (r ∷ rs) d left = elim (Bool-cases (is_blocked locked r)) [
  | inl waits ↦ rw (waits, serve_all) (serve_all-has_left id locked rs d left)
  | inr free ↦
      rw (free, serve_all)
        (serve_all-has_left id locked rs (serve r d) (serve-has_left id r d left))
]

waits_of-WaitsKeep : (id : ℕ) (s : Schedule) → WaitsKeep id (waits_of s)
waits_of-WaitsKeep id s = record {
  order_wait = λ locked k d left. serve_all-has_left id locked (s.for_order locked k) d left;
  wallets_wait =
      λ locked user d left. serve_all-has_left id locked (s.for_wallets locked user) d left;
}

pub reject_or_throw-has_left :
    (id : ℕ) (is_final fails : Bool) (k : ℕ) (d : Db)
    → has_left (find order_key id d.orders) ≡ true
    → has_left (find order_key id (reject_or_throw is_final fails k d).0.orders) ≡ true
unfolding Keeps
reject_or_throw-has_left id false fails k d left = left
reject_or_throw-has_left id true true k d left = left
reject_or_throw-has_left id true false k d left = elim (Result-cases (reject_order k d)) [
  | inl (x, throws) ↦ rw throws left
  | inr (r, gives) ↦ rw gives (reject_order-Keeps id k d r left gives)
]

settle_attempt-has_left :
    (id : ℕ) (i : Interruption) (is_final fails : Bool) (meanwhile : List Request) (k : ℕ) (d : Db)
    (result : Result (Bool × Db))
    → has_left (find order_key id d.orders) ≡ true
    → has_left (find order_key id (commit result d).orders) ≡ true
    → has_left (
        find order_key id
          (settle_attempt i is_final fails (serve_all [] meanwhile) k d result).0.orders)
      ≡ true
settle_attempt-has_left id uninterrupted is_final fails ms k d (ok r) left after = after
settle_attempt-has_left id uninterrupted is_final fails ms k d (err e) left after =
    reject_or_throw-has_left id is_final fails k _ (serve_all-has_left id [] ms d left)
settle_attempt-has_left id lost is_final fails ms k d result left after =
    reject_or_throw-has_left id is_final fails k _ (serve_all-has_left id [] ms d left)
settle_attempt-has_left id unacknowledged is_final fails ms k d (ok r) left after =
    reject_or_throw-has_left id is_final fails k _ (serve_all-has_left id [] ms r.1 after)
settle_attempt-has_left id unacknowledged is_final fails ms k d (err e) left after =
    reject_or_throw-has_left id is_final fails k _ (serve_all-has_left id [] ms d left)

run_attempt-has_left :
    (id : ℕ) (s : Schedule) (i : Interruption) (fails : Bool) (meanwhile : List Request)
    (attempts_made : ℕ) (attempts : Option ℕ) (k : ℕ) (d : Db)
    → has_left (find order_key id d.orders) ≡ true
    → has_left
        (find order_key id (run_attempt s i fails meanwhile attempts_made attempts k d).0.orders)
      ≡ true
unfolding run_attempt process_job failure_of
run_attempt-has_left id s i fails meanwhile m n k d left =
    settle_attempt-has_left id i (is_final_attempt m n) fails meanwhile k d _ left (
      commit-has_left id (process_order (waits_of s) (fuel_for d.orders) k)
        (process_order-Keeps id (waits_of s) (fuel_for d.orders) k (waits_of-WaitsKeep id s)) d
        left)

Step-has_left :
    {d d' : Db} (id : ℕ)
    → has_left (find order_key id d.orders) ≡ true
    → Step d d'
    → has_left (find order_key id d'.orders) ≡ true
unfolding run_job
Step-has_left {d} id left (served r e) = rw⁻¹ e (serve-has_left id r d left)
Step-has_left {d} id left (matched s m n k e) =
    rw⁻¹ e (run_attempt-has_left id s uninterrupted false [] m n k d left)
Step-has_left {d} id left (interrupted s i fails meanwhile m n k e) =
    rw⁻¹ e (run_attempt-has_left id s i fails meanwhile m n k d left)

Reach-has_left :
    {d d' : Db} (id : ℕ)
    → has_left (find order_key id d.orders) ≡ true
    → Reach d d'
    → has_left (find order_key id d'.orders) ≡ true
Reach-has_left id left here = left
Reach-has_left id left (next reach step) = Step-has_left id (Reach-has_left id left reach) step

has_left-left_queue : (o : Option Order) → has_left o ≡ true → left_queue o ≡ true
has_left-left_queue none h = refl
has_left-left_queue (some o) h = ground (arith, h)

-- In a database that the exchange reaches from a valid one, for an order whose row it holds:
-- once a matching job for the order has run without a failure of the database, another
-- matching job for it changes nothing, whatever the exchange does between the two jobs -
-- requests, and matching jobs for any orders, also interrupted ones - and whatever requests
-- are due to be served during the waits of the two and whatever their attempts.
pub run_job_redelivered :
    (s s' : Schedule) (attempts_made attempts_made' : ℕ) (attempts attempts' : Option ℕ)
    (d₀ d d' : Db) (o : Order)
    → Valid d₀
    → Reach d₀ d
    → find order_key o.id d.orders ≡ some o
    → Reach (run_job s attempts_made attempts o.id d) d'
    → run_job s' attempts_made' attempts' o.id d' ≡ d'
run_job_redelivered s s' m m' n n' d₀ d d' o v reach row between =
    idle_job s' m' n' o.id d' (find order_key o.id d'.orders) refl (
      has_left-left_queue (find order_key o.id d'.orders)
        (Reach-has_left o.id (run_job-leaves_queue s m n d₀ d o v reach row) between))
