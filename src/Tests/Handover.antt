-- ===== src/Tests/Handover.antt =====
-- The dispatch to the queue, the clients of Redis and the rounds of the events, at concrete runs.
use exchange_matching.Base.{ℕ, ◌≡◌, ◌<◌, refl, arith, List, [], ◌∷◌, none, true, false, ok}
use exchange_matching.Table.{length}
use exchange_matching.Database.{market_changed, order_opened}
use exchange_matching.Outbox.{Every, delivered, failed}
use exchange_matching.Outbox.Queue.{QueueRow, QueueRound, dispatch_queue_loop}
use exchange_matching.Outbox.Arrival.{HandedOver, queue_rounds, dispatch_queue_loop-HandedOver}
use exchange_matching.Outbox.Realtime.{RealtimeRow, Round}
use exchange_matching.Outbox.Client.{Service, new_service, get_client, drop_client, here, next}
use exchange_matching.Outbox.Polling.{
  QueueDispatcher, new_queue_dispatcher, queue_on_module_init, queue_dispatch_pending,
  queue_on_shutdown, started, asked, IsSingleLoop, IsEnding, QueueLife-IsEnding,
}

abbrev due : ℕ → QueueRow
due n = record {
  id = n;
  order_id = n;
  created_at = n;
  claimed_at = none;
  claim_token = none;
  next_attempt_at = none;
  attempt_count = 0;
}

abbrev healthy : QueueRound
healthy = record {
  stopping = false;
  locked = λ id. false;
  now = 100;
  token = 7;
  deliver = λ id. delivered;
  clock = λ id. 101;
}

-- The queue takes the job, and the statement that removes the row fails.
abbrev unremoved : QueueRound
unremoved = record healthy { deliver = λ id. failed true }

abbrev two_rows : List QueueRow
two_rows = due 4 ∷ due 5 ∷ []

abbrev three_rounds : List QueueRound
three_rounds = healthy ∷ unremoved ∷ healthy ∷ []

few_rows : length two_rows < queue_rounds three_rounds
unfolding length
few_rows = omega arith

dispatch_queue_loop-HandedOver_example :
    (after : List QueueRow × List ℕ) × (dispatch_queue_loop three_rounds two_rows [] ≡ ok after)
    × HandedOver (λ id. id) two_rows [] after
dispatch_queue_loop-HandedOver_example =
    dispatch_queue_loop-HandedOver (λ id. id) three_rounds two_rows [] (refl, (refl, tt)) few_rows

-- An event that has failed nine times, and a new one.
abbrev tried : (id attempts : ℕ) → RealtimeRow
tried id attempts = record {
  id = id;
  payload = market_changed order_opened id [];
  created_at = id;
  published_at = none;
  claimed_at = none;
  claim_token = none;
  next_attempt_at = none;
  attempt_count = attempts;
  dead_lettered_at = none;
}

abbrev two_events : List RealtimeRow
two_events = tried 1 9 ∷ tried 2 0 ∷ []

-- The publisher is down: the tenth attempt is the last one of the first event.
abbrev failing : Round
failing = record {
  stopping = false;
  locked = λ id. false;
  now = 100;
  token = 7;
  deliver = λ id. failed false;
  clock = λ id. 101;
}

abbrev failing_rounds : List Round
failing_rounds = failing ∷ failing ∷ failing ∷ []

-- A call opens a client and fails; another call begins.
abbrev one_call : Service
one_call = (get_client new_service).1

abbrev after_failure : Service
after_failure = (get_client (drop_client 0 one_call)).1

-- Started, and asked for a dispatch after the shutdown.
abbrev running : QueueDispatcher
running = queue_on_module_init true new_queue_dispatcher

abbrev stopping : QueueDispatcher
stopping = queue_dispatch_pending (queue_on_shutdown running)

QueueLife-IsEnding_example :
    IsSingleLoop running × IsSingleLoop stopping × IsEnding running stopping
QueueLife-IsEnding_example =
    QueueLife-IsEnding
      (exchange_matching.Outbox.Polling.next exchange_matching.Outbox.Polling.here (started true))
      (exchange_matching.Outbox.Polling.next exchange_matching.Outbox.Polling.here asked)
