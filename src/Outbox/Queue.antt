-- ===== src/Outbox/Queue.antt =====
-- backend/src/queue/order-matching-outbox-dispatcher.service.ts: the table "order_matching_outbox", its
-- statements, and the dispatch of its rows to the queue; and order-matching.processor.ts.
use exchange_matching.Base.{
  ℕ, suc, ◌+◌, ◌==◌, List, [], ◌∷◌, Option, none, some, Bool, true, false, leb, ◌&&◌, not,
  if◌then◌else◌, ok, err, Result, out_of_fuel,
}
use exchange_matching.Database.{Db}
use exchange_matching.OrderBook.{Waits}
use exchange_matching.Matching.{process_order, reject_order}
use exchange_matching.Outbox.{
  is_due, is_unclaimed, holds, claim_rows, update_rows, where_rows, Delivery, delivered, failed,
  stuck,
}

pub record QueueRow : Type 0 where
  pub id : ℕ
  pub order_id : ℕ
  pub created_at : ℕ
  pub claimed_at : Option ℕ
  pub claim_token : Option ℕ
  pub next_attempt_at : Option ℕ
  pub attempt_count : ℕ

abbrev pub queue_batch_size : ℕ
queue_batch_size = 50

abbrev pub queue_claim_timeout_seconds : ℕ
queue_claim_timeout_seconds = 30

abbrev pub queue_retry_delay_ms : ℕ
queue_retry_delay_ms = 2000

abbrev pub queue_key : QueueRow → ℕ
queue_key r = r.id

unfoldable pub is_queue_claimable : (now : ℕ) → QueueRow → Bool
is_queue_claimable now r =
    is_unclaimed r.claimed_at now queue_claim_timeout_seconds && is_due r.next_attempt_at now

abbrev pub with_queue_claim : (now token : ℕ) → QueueRow → QueueRow
with_queue_claim now token r = record r { claimed_at = some now; claim_token = some token }

-- `claimNextBatch`
unfoldable pub claim_queue_batch :
    (locked : ℕ → Bool) (now token : ℕ) → List QueueRow → List QueueRow × List QueueRow
unfolding claim_rows is_queue_claimable
claim_queue_batch locked now token =
    claim_rows queue_key (λ r. is_queue_claimable now r && not (locked r.id)) (λ r. r.created_at)
      queue_batch_size (with_queue_claim now token)

abbrev pub is_queue_claimed_by : (id token : ℕ) → QueueRow → Bool
is_queue_claimed_by id token r = r.id == id && holds r.claim_token token

-- `removeClaimedRow`
unfoldable pub remove_claimed_row : (id token : ℕ) → List QueueRow → List QueueRow
unfolding where_rows
remove_claimed_row id token = where_rows (λ r. not (is_queue_claimed_by id token r))

-- `releaseClaim`
abbrev pub released_queue_row : (now : ℕ) → QueueRow → QueueRow
released_queue_row now r = record r {
  attempt_count = suc r.attempt_count;
  claimed_at = none;
  claim_token = none;
  next_attempt_at = some (now + queue_retry_delay_ms);
}

unfoldable pub release_queue_claim : (id token now : ℕ) → List QueueRow → List QueueRow
unfolding update_rows
release_queue_claim id token now =
    update_rows (is_queue_claimed_by id token) (released_queue_row now)

abbrev pub enqueued : (reached : Bool) → ℕ → List ℕ → List ℕ
enqueued reached order_id jobs = if reached then order_id ∷ jobs else jobs

-- The `for` of `dispatchLoop`; it gives the rows that are left, the jobs in the queue, the last first,
-- and whether a dispatch failed. `deliver` is how the queue answers for a row.
unfoldable pub dispatch_queue_rows :
    (deliver : ℕ → Delivery) (clock : ℕ → ℕ) (token : ℕ) (batch : List QueueRow)
    → (rows : List QueueRow) (jobs : List ℕ) → List QueueRow × List ℕ × Bool
unfolding remove_claimed_row release_queue_claim
dispatch_queue_rows deliver clock token [] rows jobs = (rows, jobs, false)
dispatch_queue_rows deliver clock token (r ∷ batch) rows jobs = elim (deliver r.id) [
  | delivered ↦
      dispatch_queue_rows deliver clock token batch (remove_claimed_row r.id token rows)
        (r.order_id ∷ jobs)
  | failed reached ↦
      let rest =
        dispatch_queue_rows deliver clock token batch
          (release_queue_claim r.id token (clock r.id) rows) (enqueued reached r.order_id jobs) in
      (rest.0, rest.1, true)
  | stuck reached ↦
      let rest =
        dispatch_queue_rows deliver clock token batch rows (enqueued reached r.order_id jobs) in
      (rest.0, rest.1, true)
]

-- What the dispatcher meets in a round.
pub record QueueRound : Type 0 where
  pub stopping : Bool
  pub locked : ℕ → Bool
  pub now : ℕ
  pub token : ℕ
  pub deliver : ℕ → Delivery
  pub clock : ℕ → ℕ

-- `dispatchLoop`, for as many rounds as are given: the rows that are left, and the jobs in the queue.
unfoldable pub dispatch_queue_loop :
    List QueueRound → (rows : List QueueRow) (jobs : List ℕ) → Result (List QueueRow × List ℕ)
unfolding claim_queue_batch dispatch_queue_rows
dispatch_queue_loop [] rows jobs = err out_of_fuel
dispatch_queue_loop (round ∷ rounds) rows jobs =
    let claimed = claim_queue_batch round.locked round.now round.token rows in
    let sent = dispatch_queue_rows round.deliver round.clock round.token claimed.0 claimed.1 jobs in
    let rest = dispatch_queue_loop rounds sent.0 sent.1 in
    if round.stopping then ok (rows, jobs) else elim claimed.0 [
      | [] ↦ ok (claimed.1, jobs)
      | _ ∷ _ ↦ if sent.2 then ok (sent.0, sent.1) else rest
    ]

-- `isFinalAttempt`
abbrev pub is_final_attempt : (attempts_made : ℕ) (attempts : Option ℕ) → Bool
is_final_attempt attempts_made none = leb 1 (suc attempts_made)
is_final_attempt attempts_made (some attempts) = leb attempts (suc attempts_made)

-- How a failure of the database, a timeout or a crash of its connection meets the processing: not at all,
-- so that nothing of the transaction stays, or behind the commit, which stands unacknowledged.
pub data Interruption : Type 0 where
  uninterrupted : Interruption
  lost : Interruption
  unacknowledged : Interruption

-- What fails around an attempt, and what other transactions commit before the processor sees it.
pub record Failure : Type 0 where
  pub interruption : Interruption
  pub meanwhile : Db → Db
  pub rejection_fails : Bool

-- The `catch` of `process`: what is left in the database, and whether the job throws.
abbrev pub reject_or_throw : (is_final rejection_fails : Bool) (order_id : ℕ) → Db → Db × Bool
reject_or_throw is_final rejection_fails order_id d =
    if is_final
    then (if rejection_fails
        then (d, true)
        else elim (reject_order order_id d) [ ok r ↦ (r.1, false) | err e ↦ (d, true) ])
    else (d, true)

-- What the answer of the processing comes to, for the database `d` that the attempt began with.
abbrev pub settle_attempt :
    Interruption
    → (is_final rejection_fails : Bool) (meanwhile : Db → Db) (order_id : ℕ) (d : Db)
    → Result (Bool × Db)
    → Db × Bool
settle_attempt uninterrupted is_final fails meanwhile id d (ok r) = (r.1, false)
settle_attempt uninterrupted is_final fails meanwhile id d (err e) =
    reject_or_throw is_final fails id (meanwhile d)
settle_attempt lost is_final fails meanwhile id d result =
    reject_or_throw is_final fails id (meanwhile d)
settle_attempt unacknowledged is_final fails meanwhile id d (ok r) =
    reject_or_throw is_final fails id (meanwhile r.1)
settle_attempt unacknowledged is_final fails meanwhile id d (err e) =
    reject_or_throw is_final fails id (meanwhile d)

-- `OrderMatchingProcessor.process`: what is left in the database, and whether the job throws.
unfoldable pub process_job :
    Waits
    → (fuel : ℕ) → Failure
    → (attempts_made : ℕ) (attempts : Option ℕ) (order_id : ℕ) → Db
    → Db × Bool
unfolding process_order reject_order
process_job waits fuel f attempts_made attempts order_id d =
    settle_attempt f.interruption (is_final_attempt attempts_made attempts) f.rejection_fails
      f.meanwhile order_id d (process_order waits fuel order_id d)
