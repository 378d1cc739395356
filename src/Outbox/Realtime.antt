-- ===== src/Outbox/Realtime.antt =====
-- backend/src/realtime/realtime-outbox.repository.ts and realtime-outbox-dispatcher.service.ts: the
-- table "realtime_event_outbox", its statements, and the dispatch of what is due.
use exchange_matching.Base.{
  ℕ, suc, ◌-◌, ◌+◌, ◌*◌, ◌^◌, ◌==◌, List, [], ◌∷◌, Option, none, some, Bool, true, false, ltb, leb,
  ◌&&◌, ◌||◌, not, if◌then◌else◌, min, Result, ok, err, out_of_fuel,
}
use exchange_matching.Database.{Event}
use exchange_matching.Outbox.{
  is_due, is_unclaimed, is_null, holds, is_until, claim_rows, update_rows, where_rows, Delivery,
  delivered, failed, stuck,
}

pub record RealtimeRow : Type 0 where
  pub id : ℕ
  pub payload : Event
  pub created_at : ℕ
  pub published_at : Option ℕ
  pub claimed_at : Option ℕ
  pub claim_token : Option ℕ
  pub next_attempt_at : Option ℕ
  pub attempt_count : ℕ
  pub dead_lettered_at : Option ℕ

abbrev pub realtime_batch_size : ℕ
realtime_batch_size = 50

abbrev pub claim_timeout_seconds : ℕ
claim_timeout_seconds = 30

abbrev pub max_attempts : ℕ
max_attempts = 10

abbrev pub retry_delay_ms : ℕ
retry_delay_ms = 2000

abbrev pub max_retry_delay_ms : ℕ
max_retry_delay_ms = 60000

abbrev pub realtime_key : RealtimeRow → ℕ
realtime_key r = r.id

-- The WHERE of `claimNextBatch`.
unfoldable pub is_claimable : (now : ℕ) → RealtimeRow → Bool
is_claimable now r =
    is_null r.published_at
    && is_null r.dead_lettered_at
    && is_due r.next_attempt_at now
    && is_unclaimed r.claimed_at now claim_timeout_seconds

abbrev pub with_claim : (now token : ℕ) → RealtimeRow → RealtimeRow
with_claim now token r = record r { claimed_at = some now; claim_token = some token }

-- `claimNextBatch`; `locked` are the rows that others have locked.
unfoldable pub claim_next_batch :
    (locked : ℕ → Bool) (now token : ℕ) → List RealtimeRow → List RealtimeRow × List RealtimeRow
unfolding claim_rows is_claimable
claim_next_batch locked now token =
    claim_rows realtime_key (λ r. is_claimable now r && not (locked r.id)) (λ r. r.created_at)
      realtime_batch_size (with_claim now token)

-- `WHERE "id" = id AND "claim_token" = token`
abbrev pub is_claimed_by : (id token : ℕ) → RealtimeRow → Bool
is_claimed_by id token r = r.id == id && holds r.claim_token token

abbrev pub published : (now : ℕ) → RealtimeRow → RealtimeRow
published now r = record r {
  published_at = some now;
  claimed_at = none;
  claim_token = none;
  next_attempt_at = none;
}

unfoldable pub mark_as_published : (id token now : ℕ) → List RealtimeRow → List RealtimeRow
unfolding update_rows
mark_as_published id token now = update_rows (is_claimed_by id token) (published now)

-- `LEAST(delay * POWER(2.0, attempt_count), max)`
unfoldable pub retry_delay : (attempt_count : ℕ) → ℕ
retry_delay n = min (retry_delay_ms * 2 ^ n) max_retry_delay_ms

unfoldable pub released_row : (now : ℕ) → RealtimeRow → RealtimeRow
unfolding retry_delay
released_row now r = record r {
  attempt_count = suc r.attempt_count;
  claimed_at = none;
  claim_token = none;
  next_attempt_at =
      if leb max_attempts (suc r.attempt_count)
      then none
      else some (now + retry_delay r.attempt_count);
  dead_lettered_at = if leb max_attempts (suc r.attempt_count) then some now else none;
}

unfoldable pub release_claim : (id token now : ℕ) → List RealtimeRow → List RealtimeRow
unfolding update_rows released_row
release_claim id token now = update_rows (is_claimed_by id token) (released_row now)

unfoldable pub prune_expired_events :
    (published_cutoff dead_letter_cutoff : ℕ) → List RealtimeRow → List RealtimeRow
unfolding where_rows
prune_expired_events published_cutoff dead_letter_cutoff = where_rows (λ r.
    not
      (is_until r.published_at published_cutoff || is_until r.dead_lettered_at dead_letter_cutoff))

-- One pass of the `for` of `dispatchLoop`: the row is marked, released, or neither.
unfoldable pub settle_delivery : Delivery → (id token now : ℕ) → List RealtimeRow → List RealtimeRow
unfolding mark_as_published release_claim
settle_delivery delivered id token now rows = mark_as_published id token now rows
settle_delivery (failed reached) id token now rows = release_claim id token now rows
settle_delivery (stuck reached) id token now rows = rows

abbrev pub has_failed : Delivery → Bool
has_failed delivered = false
has_failed (failed reached) = true
has_failed (stuck reached) = true

-- The `for` over a claimed batch, with whether a dispatch failed. `deliver` is how the publisher
-- answers for a row, `clock` the time at which its statement runs.
unfoldable pub dispatch_rows :
    (deliver : ℕ → Delivery) (clock : ℕ → ℕ) (token : ℕ) (batch : List RealtimeRow)
    → List RealtimeRow
    → List RealtimeRow × Bool
unfolding settle_delivery
dispatch_rows deliver clock token [] rows = (rows, false)
dispatch_rows deliver clock token (r ∷ batch) rows =
    let rest =
      dispatch_rows deliver clock token batch
        (settle_delivery (deliver r.id) r.id token (clock r.id) rows) in
    (rest.0, has_failed (deliver r.id) || rest.1)

-- What the dispatcher meets in a round.
pub record Round : Type 0 where
  pub stopping : Bool
  pub locked : ℕ → Bool
  pub now : ℕ
  pub token : ℕ
  pub deliver : ℕ → Delivery
  pub clock : ℕ → ℕ

-- `dispatchLoop`, for as many rounds as are given.
unfoldable pub dispatch_loop : List Round → List RealtimeRow → Result (List RealtimeRow)
unfolding claim_next_batch dispatch_rows
dispatch_loop [] rows = err out_of_fuel
dispatch_loop (round ∷ rounds) rows =
    let claimed = claim_next_batch round.locked round.now round.token rows in
    let sent = dispatch_rows round.deliver round.clock round.token claimed.0 claimed.1 in
    let rest = dispatch_loop rounds sent.0 in
    if round.stopping
    then ok rows
    else elim claimed.0 [ [] ↦ ok claimed.1 | _ ∷ _ ↦ if sent.1 then ok sent.0 else rest ]

abbrev pub day_ms : ℕ
day_ms = 24 * 60 * 60 * 1000

abbrev pub published_retention_days : ℕ
published_retention_days = 7

abbrev pub dead_letter_retention_days : ℕ
dead_letter_retention_days = 30

abbrev pub maintenance_interval_ms : ℕ
maintenance_interval_ms = 60 * 60 * 1000

-- The dispatcher's `pruneExpiredEvents`, when it is not stopping and no pruning runs, at a time later
-- than the two retentions.
unfoldable pub prune_events : (now : ℕ) → List RealtimeRow → List RealtimeRow
unfolding prune_expired_events
prune_events now =
    prune_expired_events (now - published_retention_days * day_ms)
      (now - dead_letter_retention_days * day_ms)

-- Whether the last maintenance was less than the interval ago.
abbrev pub is_recent : (last : Option ℕ) (now : ℕ) → Bool
is_recent none now = false
is_recent (some t) now = ltb now (t + maintenance_interval_ms)

-- `runMaintenanceIfDue`: it gives the time of the last maintenance and the rows. `busy` is that the
-- dispatcher is stopping or that a pruning runs, `fails` that the pruning throws.
unfoldable pub run_maintenance_if_due :
    (busy fails : Bool) (last : Option ℕ) (now : ℕ) → List RealtimeRow → Option ℕ × List RealtimeRow
unfolding prune_events
run_maintenance_if_due true fails last now rows = (last, rows)
run_maintenance_if_due false fails last now rows =
    if is_recent last now
    then (last, rows)
    else if fails
    then (none, rows)
    else (some now, prune_events now rows)
