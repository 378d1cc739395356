-- ===== src/Traffic/Running.antt =====
-- The steps of the exchange: requests of users, and attempts at matching jobs
-- (backend/src/queue/order-matching.processor.ts) during whose waits requests are served.
use exchange_matching.Base.{ℕ, suc, ◌<◌, ◌≡◌, List, [], ◌∷◌, none, false, Bool, arith, Option}
use exchange_matching.Table.{sum_by}
use exchange_matching.Database.{Db, Order}
use exchange_matching.Ledger.Waiting.{ahead}
use exchange_matching.Outbox.Queue.{process_job, Failure, Interruption, uninterrupted}
use exchange_matching.Traffic.{Request, serve, serve_all, Schedule, waits_of}

-- Fuel for the candidates that there can be: one for each order, and one more.
abbrev pub fuel_for : List Order → ℕ
fuel_for [] = 1
fuel_for (o ∷ os) = suc (fuel_for os)

pub ahead-fuel_for : (taker : Order) (os : List Order) → ahead taker none os < fuel_for os
unfolding ahead sum_by
ahead-fuel_for taker [] = omega arith
ahead-fuel_for taker (o ∷ os) = ground (arith, ahead-fuel_for taker os)

-- What fails around an attempt, with the requests that are served before the processor sees it.
unfoldable pub failure_of :
    Interruption → (rejection_fails : Bool) (meanwhile : List Request) → Failure
unfolding serve_all
failure_of interruption rejection_fails meanwhile = record {
  interruption = interruption;
  meanwhile = serve_all [] meanwhile;
  rejection_fails = rejection_fails;
}

-- An attempt at a matching job, with requests served during its waits: what is left, and whether it
-- throws.
unfoldable pub run_attempt :
    Schedule
    → Interruption
    → (rejection_fails : Bool) (meanwhile : List Request)
    → (attempts_made : ℕ) (attempts : Option ℕ) (order_id : ℕ) → Db
    → Db × Bool
unfolding process_job failure_of
run_attempt s i rejection_fails meanwhile attempts_made attempts id d =
    process_job (waits_of s) (fuel_for d.orders) (failure_of i rejection_fails meanwhile)
      attempts_made attempts id d

-- A matching job that no failure of the database interrupts.
unfoldable pub run_job :
    Schedule → (attempts_made : ℕ) (attempts : Option ℕ) (order_id : ℕ) → Db → Db
unfolding run_attempt
run_job s attempts_made attempts id d =
    (run_attempt s uninterrupted false [] attempts_made attempts id d).0

-- One step of the exchange.
pub data Step (d d' : Db) : Type 0 where
  served : (r : Request) → serve r d ≡ d' → Step d d'
  matched :
      (s : Schedule) (attempts_made : ℕ) (attempts : Option ℕ) (order_id : ℕ)
      → run_job s attempts_made attempts order_id d ≡ d'
      → Step d d'
  interrupted :
      (s : Schedule) (i : Interruption) (rejection_fails : Bool) (meanwhile : List Request)
      (attempts_made : ℕ) (attempts : Option ℕ) (order_id : ℕ)
      → (run_attempt s i rejection_fails meanwhile attempts_made attempts order_id d).0 ≡ d'
      → Step d d'

pub data Reach (d : Db) : Db → Type 0 where
  here : Reach d d
  next : {d' d'' : Db} → Reach d d' → Step d' d'' → Reach d d''
