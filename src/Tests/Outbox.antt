-- ===== src/Tests/Outbox.antt =====
-- The dispatcher of events at concrete rows, and a life of it.
use exchange_matching.Base.{ℕ, ◌≡◌, refl, ◌<◌, ◌≤◌, arith, List, [], ◌∷◌, none, false, true, ok}
use exchange_matching.Table.{sum_by}
use exchange_matching.Database.{market_changed, order_opened}
use exchange_matching.Outbox.{delivered, failed}
use exchange_matching.Outbox.Realtime.{RealtimeRow, Round, dispatch_loop}
use exchange_matching.Outbox.Progress.{unpublished}
use exchange_matching.Outbox.Draining.{
  IsHealthy, Drained, rounds_given, dispatch_loop-returns, dispatch_loop-Drained,
}
use exchange_matching.Outbox.Lifecycle.{
  Dispatcher, new_dispatcher, on_module_init, on_timer, dispatch_pending, dispatch_ends,
  on_application_shutdown, started, asked, fired, dispatch_ended, Life, here, next, IsSingle,
  IsWindingDown, Life-IsWindingDown,
}

abbrev row : ℕ → RealtimeRow
row n = record {
  id = n;
  payload = market_changed order_opened n [];
  created_at = n;
  published_at = none;
  claimed_at = none;
  claim_token = none;
  next_attempt_at = none;
  attempt_count = 0;
  dead_lettered_at = none;
}

abbrev healthy : Round
healthy = record {
  stopping = false;
  locked = λ id. false;
  now = 100;
  token = 7;
  deliver = λ id. delivered;
  clock = λ id. 101;
}

-- The second delivery fails.
abbrev failing : Round
failing = record healthy { deliver = λ id. failed false }

healthy-IsHealthy : IsHealthy 100 healthy
healthy-IsHealthy = record {
  at_time = omega arith;
  goes_on = refl;
  unlocked = λ id. refl;
  delivers = λ id. refl;
}

few : unpublished (row 1 ∷ row 2 ∷ []) < rounds_given (healthy ∷ failing ∷ healthy ∷ [])
unfolding unpublished sum_by
few = omega arith

dispatch_loop-returns_example :
    (rows : List RealtimeRow) × (dispatch_loop
        (healthy ∷ failing ∷ healthy ∷ [])
        (row 1 ∷ row 2 ∷ [])
      ≡ ok rows)
dispatch_loop-returns_example =
    dispatch_loop-returns (healthy ∷ failing ∷ healthy ∷ []) (row 1 ∷ row 2 ∷ []) few

few_healthy : unpublished (row 1 ∷ row 2 ∷ []) < rounds_given (healthy ∷ healthy ∷ healthy ∷ [])
unfolding unpublished sum_by
few_healthy = omega arith

dispatch_loop-Drained_example :
    (rows : List RealtimeRow) × (dispatch_loop
        (healthy ∷ healthy ∷ healthy ∷ [])
        (row 1 ∷ row 2 ∷ [])
      ≡ ok rows)
    × Drained 100 rows
dispatch_loop-Drained_example =
    dispatch_loop-Drained 100 (healthy ∷ healthy ∷ healthy ∷ []) (row 1 ∷ row 2 ∷ [])
      (healthy-IsHealthy, (healthy-IsHealthy, (healthy-IsHealthy, tt))) few_healthy

-- Started, asked for a dispatch while one is in flight, ended, and fired again.
abbrev busy : Dispatcher
busy = on_timer 5000 (dispatch_ends (dispatch_pending (on_module_init true 10 new_dispatcher)))

some_loop : 1 ≤ (dispatch_pending (on_module_init true 10 new_dispatcher)).loops
unfolding dispatch_pending on_module_init
some_loop = omega arith

timer_runs : (dispatch_ends (dispatch_pending (on_module_init true 10 new_dispatcher))).timer ≡ true
unfolding dispatch_pending on_module_init
timer_runs = refl

busy-Life : Life new_dispatcher busy
busy-Life =
    next (next (next (next here (started true 10)) asked) (dispatch_ended some_loop))
      (fired 5000 timer_runs)

-- Asked for a dispatch after the shutdown.
Life-IsWindingDown_example :
    IsSingle busy
    × IsSingle (dispatch_pending (on_application_shutdown busy))
    × IsWindingDown busy (dispatch_pending (on_application_shutdown busy))
Life-IsWindingDown_example = Life-IsWindingDown busy-Life (next here asked)
