-- ===== src/Traffic/Exchange.antt =====
-- The exchange as a whole: from a valid database, users' requests and matching jobs, in any order.
use exchange_matching.Base.{
  ℕ, ◌≡◌, refl, ◌∙◌, ap, sym, ok, err, List, [], none, some, true, false, Bool, arith, Option,
  Option-cases, Bool-cases, ◌⊎◌, inl, inr, Result, Result-cases, Result-cases,
}
use exchange_matching.Table.{find, find-key}
use exchange_matching.Database.{Db, Order, Status, order_key, queued, load_order}
use exchange_matching.Matching.{process_order, reject_order, is_queued, contains}
use exchange_matching.Matching.Reject.{left_queue}
use exchange_matching.Matching.Settled.{has_left}
use exchange_matching.Matching.Process.{Processed}
use exchange_matching.Matching.Finish.{taker_after}
use exchange_matching.Ledger.{Valid, usd_total, btc_total}
use exchange_matching.Ledger.Moves.{Valid→ValidBut, ValidBut→Valid}
use exchange_matching.Outbox.Queue.{
  process_job, Interruption, uninterrupted, lost, unacknowledged, reject_or_throw, settle_attempt,
  is_final_attempt,
}
use exchange_matching.Traffic.Steps.{Harmless}
use exchange_matching.Traffic.Isolation.{
  serve-Harmless, serve_all-Harmless, process_order_among_requests,
}
use exchange_matching.Traffic.{
  Request, create, cancel, reject, serve, serve_all, Schedule, waits_of, commit, is_blocked,
}
use exchange_matching.Traffic.Running.{
  fuel_for, ahead-fuel_for, failure_of, run_attempt, run_job, Step, served, matched, interrupted,
  Reach, here, next,
}

-- A database that is valid, with as much money as there was.
pub record Kept (d d' : Db) : Type 0 where
  pub valid : Valid d'
  pub usd_kept : usd_total d' ≡ usd_total d
  pub btc_kept : btc_total d' ≡ btc_total d

Kept-refl : (d : Db) → Valid d → Kept d d
Kept-refl d v = record { valid = v; usd_kept = refl; btc_kept = refl }

no_order : Order
no_order = record {
  id = 0;
  sequence = 0;
  user_id = 0;
  side = exchange_matching.Database.buy;
  status = queued;
  price = 0;
  original_amount = 0;
  remaining_amount = 0;
}

Harmless-Kept : (d d' : Db) → Valid d → Harmless [] d d' → Kept d d'
Harmless-Kept d d' v h = record {
  valid = ValidBut→Valid no_order d' (h.valid no_order no_order (Valid→ValidBut no_order d v));
  usd_kept = h.usd_kept;
  btc_kept = h.btc_kept;
}

never_blocked : (r : Request) → is_blocked [] r ≡ false
unfolding contains
never_blocked (create u s a p) = refl
never_blocked (cancel u id) = refl
never_blocked (reject id) = refl

module _ (s : Schedule) (id : ℕ) (d : Db) where
  -- The processing of an order that is not there, or has left the queue, changes nothing.
  pub idle_processing :
      (o : Option Order)
      → find order_key id d.orders ≡ o
      → left_queue o ≡ true
      → commit (process_order (waits_of s) (fuel_for d.orders) id d) d ≡ d
  unfolding process_order load_order
  idle_processing none row h = ground (arith, row)
  idle_processing (some o) row h = ground (arith, row, h)

  pub queued_processing :
      Valid d
      → (o : Order) → find order_key id d.orders ≡ some o
      → o.status ≡ queued
      → (result : Result (Bool × Db)) × (Processed o d result)
        × (process_order (waits_of s) (fuel_for d.orders) id d ≡ result)
  queued_processing v o row q =
      let e = find-key order_key id d.orders o row in
      let done =
        process_order_among_requests s o (fuel_for d.orders) d v
          (ap (λ (k : ℕ). find order_key k d.orders) e ∙ row) q (ahead-fuel_for o d.orders) in
      (
        process_order (waits_of s) (fuel_for d.orders) o.id d,
        done,
        ap (λ (k : ℕ). process_order (waits_of s) (fuel_for d.orders) k d) (sym e),
      )

module _ (s : Schedule) (attempts_made : ℕ) (attempts : Option ℕ) (id : ℕ) (d : Db) where
  -- A job for an order that is not there, or has left the queue, changes nothing.
  pub idle_job :
      (o : Option Order)
      → find order_key id d.orders ≡ o
      → left_queue o ≡ true
      → run_job s attempts_made attempts id d ≡ d
  unfolding run_job run_attempt process_job failure_of serve_all process_order reject_order
      load_order
  idle_job none row h = ground (arith, row)
  idle_job (some o) row h = ground (arith, row, h)

  -- A job for a queued order processes it.
  queued_job :
      Valid d
      → (o : Order) → find order_key id d.orders ≡ some o
      → o.status ≡ queued
      → (result : Result (Bool × Db)) × (Processed o d result)
        × (commit result d ≡ run_job s attempts_made attempts id d)
  unfolding run_job run_attempt process_job failure_of
  queued_job v o row q =
      let ran = queued_processing s id d v o row q in
      (ran.0, ran.1, ground (arith, ran.2, ran.1.returns))

is_queued-eq : (t : Status) → is_queued t ≡ true → t ≡ queued
is_queued-eq t h = ground arith

pub left_queue-cases : (o : Order) → (o.status ≡ queued) ⊎ (left_queue (some o) ≡ true)
left_queue-cases o = elim (Bool-cases (is_queued o.status)) [
  | inl q ↦ inl (is_queued-eq o.status q)
  | inr left ↦ inr (ground (arith, left))
]

-- The processing of any order, known or not.
pub processing-Kept :
    (s : Schedule) (id : ℕ) (d : Db)
    → Valid d
    → Kept d (commit (process_order (waits_of s) (fuel_for d.orders) id d) d)
processing-Kept s id d v = elim (Option-cases (find order_key id d.orders)) [
  | inl missing ↦ rw (idle_processing s id d none missing refl) (Kept-refl d v)
  | inr (o, row) ↦ elim (left_queue-cases o) [
    | inr left ↦ rw (idle_processing s id d (some o) row left) (Kept-refl d v)
    | inl q ↦
        let ran = queued_processing s id d v o row q in
        let after : commit (process_order (waits_of s) (fuel_for d.orders) id d) d ≡ ran.1.after =
          ground (arith, ran.1.returns, ran.2) in
        rw after
          (record { valid = ran.1.valid; usd_kept = ran.1.usd_kept; btc_kept = ran.1.btc_kept })
  ]
]

Kept-trans : (d d' d'' : Db) → Kept d d' → Kept d' d'' → Kept d d''
Kept-trans d d' d'' a b = record {
  valid = b.valid;
  usd_kept = b.usd_kept ∙ a.usd_kept;
  btc_kept = b.btc_kept ∙ a.btc_kept;
}

pub serve_all-Kept : (rs : List Request) (d : Db) → Valid d → Kept d (serve_all [] rs d)
serve_all-Kept rs d v =
    Harmless-Kept d (serve_all [] rs d) v
      (serve_all-Harmless [] rs no_order no_order d (Valid→ValidBut no_order d v))

reject_or_throw-Kept :
    (is_final rejection_fails : Bool) (id : ℕ) (d : Db)
    → Valid d
    → Kept d (reject_or_throw is_final rejection_fails id d).0
unfolding serve
reject_or_throw-Kept false fails id d v = Kept-refl d v
reject_or_throw-Kept true true id d v = Kept-refl d v
reject_or_throw-Kept true false id d v =
    let served_kept =
      Harmless-Kept d (serve (reject id) d) v
        (serve-Harmless [] (reject id) d v.sound (never_blocked (reject id))) in
    elim (Result-cases (reject_order id d)) [
      | inl (e, fails) ↦ rw fails (Kept-refl d v)
      | inr (r, gives) ↦
          let same : serve (reject id) d ≡ r.1 = ground (arith, gives) in
          rw (gives, ← same) served_kept
    ]

-- What the processor does with a failure, once the requests have been served.
failed-Kept :
    (is_final rejection_fails : Bool) (meanwhile : List Request) (id : ℕ) (d : Db)
    → Valid d
    → Kept d (reject_or_throw is_final rejection_fails id (serve_all [] meanwhile d)).0
failed-Kept is_final fails meanwhile id d v =
    let first = serve_all-Kept meanwhile d v in
    Kept-trans d (serve_all [] meanwhile d) _ first
      (reject_or_throw-Kept is_final fails id (serve_all [] meanwhile d) first.valid)

settle_attempt-Kept :
    (i : Interruption) (is_final fails : Bool) (meanwhile : List Request) (id : ℕ) (d : Db)
    (result : Result (Bool × Db))
    → Valid d
    → Kept d (commit result d)
    → Kept d (settle_attempt i is_final fails (serve_all [] meanwhile) id d result).0
settle_attempt-Kept uninterrupted is_final fails meanwhile id d (ok r) v kept = kept
settle_attempt-Kept uninterrupted is_final fails meanwhile id d (err e) v kept =
    failed-Kept is_final fails meanwhile id d v
settle_attempt-Kept lost is_final fails meanwhile id d result v kept =
    failed-Kept is_final fails meanwhile id d v
settle_attempt-Kept unacknowledged is_final fails meanwhile id d (ok r) v kept =
    Kept-trans d r.1 _ kept (failed-Kept is_final fails meanwhile id r.1 kept.valid)
settle_attempt-Kept unacknowledged is_final fails meanwhile id d (err e) v kept =
    failed-Kept is_final fails meanwhile id d v

run_attempt-Kept :
    (s : Schedule) (i : Interruption) (fails : Bool) (meanwhile : List Request) (attempts_made : ℕ)
    (attempts : Option ℕ) (id : ℕ) (d : Db)
    → Valid d
    → Kept d (run_attempt s i fails meanwhile attempts_made attempts id d).0
unfolding run_attempt process_job failure_of
run_attempt-Kept s i fails meanwhile m n id d v =
    settle_attempt-Kept i (is_final_attempt m n) fails meanwhile id d _ v (processing-Kept s id d v)

run_job-Kept :
    (s : Schedule) (attempts_made : ℕ) (attempts : Option ℕ) (id : ℕ) (d : Db)
    → Valid d
    → Kept d (run_job s attempts_made attempts id d)
unfolding run_job
run_job-Kept s m n id d v = run_attempt-Kept s uninterrupted false [] m n id d v

Step-Kept : {d d' : Db} → Valid d → Step d d' → Kept d d'
Step-Kept {d} {d'} v (served r e) =
    rw⁻¹ e (Harmless-Kept d (serve r d) v (serve-Harmless [] r d v.sound (never_blocked r)))
Step-Kept {d} {d'} v (matched s m n id e) = rw⁻¹ e (run_job-Kept s m n id d v)
Step-Kept {d} {d'} v (interrupted s i fails meanwhile m n id e) =
    rw⁻¹ e (run_attempt-Kept s i fails meanwhile m n id d v)

-- From a valid database, after any steps of the exchange - requests that create, cancel or
-- reject orders, and attempts at matching jobs during whose waits such requests are served,
-- also attempts whose transaction is lost or whose commit is not acknowledged - the database
-- is valid, and the totals of USD and BTC with fees are as before.
pub Reach-Kept : (d : Db) {d' : Db} → Valid d → Reach d d' → Kept d d'
Reach-Kept d v here = Kept-refl d v
Reach-Kept d v (next reach step) =
    let before = Reach-Kept d v reach in
    let after = Step-Kept before.valid step in
    record {
      valid = after.valid;
      usd_kept = after.usd_kept ∙ before.usd_kept;
      btc_kept = after.btc_kept ∙ before.btc_kept;
    }

pub taker_status-left : (o : Order) (r k : ℕ) → has_left (some (taker_after o r k)) ≡ true
taker_status-left o r k = ground arith

-- In a database that the exchange reaches from a valid one, for an order whose row it holds,
-- after a matching job for the order, whatever requests are served during its waits, the row
-- of the order is there and its status is not queued.
pub run_job-leaves_queue :
    (s : Schedule) (attempts_made : ℕ) (attempts : Option ℕ) (d₀ d : Db) (o : Order)
    → Valid d₀
    → Reach d₀ d
    → find order_key o.id d.orders ≡ some o
    → has_left (find order_key o.id (run_job s attempts_made attempts o.id d).orders) ≡ true
run_job-leaves_queue s m n d₀ d o v reach row = elim (left_queue-cases o) [
  | inr left ↦
      let out : has_left (some o) ≡ true = ground (arith, left) in
      rw (idle_job s m n o.id d (some o) row left, row) out
  | inl q ↦
      let ran = queued_job s m n o.id d (Reach-Kept d₀ v reach).valid o row q in
      let after : run_job s m n o.id d ≡ ran.1.after = ground (arith, ran.1.returns, ran.2) in
      rw (after, ran.1.taker_row) (taker_status-left o ran.1.left ran.1.done)
]
