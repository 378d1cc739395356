-- ===== src/Outbox/Lifecycle.antt =====
-- backend/src/realtime/realtime-outbox-dispatcher.service.ts and
-- backend/src/queue/order-matching-outbox-dispatcher.service.ts: what their fields say of the timer and
-- of the loops in flight, from the start of the module to its shutdown. Both have the same handlers for
-- the dispatch; only the first has maintenance.
use exchange_matching.Base.{
  ℕ, suc, ◌-◌, ◌≤◌, ◌≡◌, refl, arith, Bool, true, false, Option, none, some, not, ◌&&◌, ◌||◌,
  if◌then◌else◌,
}
use exchange_matching.Outbox.Realtime.{is_recent}

-- The fields of a dispatcher. `dispatching` and `pruning` say that `dispatchPromise` and
-- `maintenancePromise` are not null; `loops` and `prunes` count the calls of `dispatchLoop` and of the
-- repository's `pruneExpiredEvents` that have not ended.
pub record Dispatcher : Type 0 where
  pub stopping : Bool
  pub timer : Bool
  pub dispatching : Bool
  pub pruning : Bool
  pub last_maintenance : Option ℕ
  pub loops : ℕ
  pub prunes : ℕ

abbrev pub new_dispatcher : Dispatcher
new_dispatcher = record {
  stopping = false;
  timer = false;
  dispatching = false;
  pruning = false;
  last_maintenance = none;
  loops = 0;
  prunes = 0;
}

-- `dispatchPending`, up to its first wait. A caller that finds a dispatch waits for that one.
unfoldable pub dispatch_pending : Dispatcher → Dispatcher
dispatch_pending s =
    if s.stopping
    then s
    else (if s.dispatching then s else record s { dispatching = true; loops = suc s.loops })

-- `dispatchInBackground`
unfoldable pub dispatch_in_background : Dispatcher → Dispatcher
unfolding dispatch_pending
dispatch_in_background s = if s.dispatching || s.stopping then s else dispatch_pending s

-- `pruneExpiredEvents`, up to its first wait.
unfoldable pub start_pruning : Dispatcher → Dispatcher
start_pruning s =
    if s.stopping
    then s
    else (if s.pruning then s else record s { pruning = true; prunes = suc s.prunes })

-- `runMaintenanceIfDue`, up to its first wait.
unfoldable pub start_maintenance : (now : ℕ) → Dispatcher → Dispatcher
unfolding start_pruning
start_maintenance now s =
    if s.stopping || s.pruning
    then s
    else (if is_recent s.last_maintenance now
        then s
        else start_pruning (record s { last_maintenance = some now }))

-- `onModuleInit`; `should_run` is `shouldRunRealtime`.
unfoldable pub on_module_init : (should_run : Bool) (now : ℕ) → Dispatcher → Dispatcher
unfolding dispatch_in_background start_maintenance
on_module_init should_run now s =
    if s.stopping || not should_run
    then s
    else record (start_maintenance now (dispatch_in_background s)) { timer = true }

-- What the timer calls.
unfoldable pub on_timer : (now : ℕ) → Dispatcher → Dispatcher
unfolding dispatch_in_background start_maintenance
on_timer now s = start_maintenance now (dispatch_in_background s)

-- `onApplicationShutdown`, up to its first wait.
abbrev pub on_application_shutdown : Dispatcher → Dispatcher
on_application_shutdown s = record s { stopping = true; timer = false }

-- The `finally` of `dispatchPending`.
abbrev pub dispatch_ends : Dispatcher → Dispatcher
dispatch_ends s = record s { dispatching = false; loops = s.loops - 1 }

-- The `finally` of `pruneExpiredEvents`, and the `catch` of `runMaintenanceIfDue` if it failed.
abbrev pub pruning_ends : (has_failed : Bool) → Dispatcher → Dispatcher
pruning_ends has_failed s = record s {
  pruning = false;
  prunes = s.prunes - 1;
  last_maintenance = if has_failed then none else s.last_maintenance;
}

-- What happens to a dispatcher, in any order: the framework starts and stops it, a service asks for a
-- dispatch, its timer fires, a loop or a pruning in flight ends.
pub data Happening (s : Dispatcher) : Dispatcher → Type 0 where
  started : (should_run : Bool) (now : ℕ) → Happening s (on_module_init should_run now s)
  asked : Happening s (dispatch_pending s)
  fired : (now : ℕ) → s.timer ≡ true → Happening s (on_timer now s)
  dispatch_ended : 1 ≤ s.loops → Happening s (dispatch_ends s)
  pruning_ended : (has_failed : Bool) → 1 ≤ s.prunes → Happening s (pruning_ends has_failed s)
  stopped : Happening s (on_application_shutdown s)

pub data Life (s : Dispatcher) : Dispatcher → Type 0 where
  here : Life s s
  next : {s' s'' : Dispatcher} → Life s s' → Happening s' s'' → Life s s''

abbrev count : Bool → ℕ
count b = if b then 1 else 0

-- The promises tell what is in flight: one loop and one pruning at most.
pub record IsSingle (s : Dispatcher) : Type 0 where
  pub one_loop : s.loops ≡ count s.dispatching
  pub one_pruning : s.prunes ≡ count s.pruning
  pub timer_off : (s.stopping && s.timer) ≡ false

Happening-IsSingle : {s s' : Dispatcher} → IsSingle s → Happening s s' → IsSingle s'
unfolding dispatch_pending dispatch_in_background start_pruning start_maintenance on_module_init
    on_timer
Happening-IsSingle {s} h (started should_run now) = record {
  one_loop = ground (arith, h.one_loop);
  one_pruning = ground (arith, h.one_pruning);
  timer_off = ground (arith, h.timer_off);
}
Happening-IsSingle {s} h asked = record {
  one_loop = ground (arith, h.one_loop);
  one_pruning = ground (arith, h.one_pruning);
  timer_off = ground (arith, h.timer_off);
}
Happening-IsSingle {s} h (fired now on) = record {
  one_loop = ground (arith, h.one_loop);
  one_pruning = ground (arith, h.one_pruning);
  timer_off = ground (arith, h.timer_off);
}
Happening-IsSingle {s} h (dispatch_ended some_loop) = record {
  one_loop = ground (arith, h.one_loop, some_loop);
  one_pruning = h.one_pruning;
  timer_off = h.timer_off;
}
Happening-IsSingle {s} h (pruning_ended has_failed some_pruning) = record {
  one_loop = h.one_loop;
  one_pruning = ground (arith, h.one_pruning, some_pruning);
  timer_off = h.timer_off;
}
Happening-IsSingle {s} h stopped = record {
  one_loop = h.one_loop;
  one_pruning = h.one_pruning;
  timer_off = refl;
}

Life-IsSingle : {s s' : Dispatcher} → IsSingle s → Life s s' → IsSingle s'
Life-IsSingle h here = h
Life-IsSingle h (next life event) = Happening-IsSingle (Life-IsSingle h life) event

-- Nothing is started between the two, and the timer is off.
pub record IsWindingDown (s s' : Dispatcher) : Type 0 where
  pub still_stopping : s'.stopping ≡ true
  pub no_timer : s'.timer ≡ false
  pub no_new_loop : s'.loops ≤ s.loops
  pub no_new_pruning : s'.prunes ≤ s.prunes

Happening-IsWindingDown :
    {s s' s'' : Dispatcher} → IsWindingDown s s' → Happening s' s'' → IsWindingDown s s''
unfolding dispatch_pending dispatch_in_background start_pruning start_maintenance on_module_init
    on_timer
Happening-IsWindingDown {s} {s'} h (started should_run now) = record {
  still_stopping = ground (arith, h.still_stopping);
  no_timer = ground (arith, h.still_stopping, h.no_timer);
  no_new_loop = ground (arith, h.still_stopping, h.no_new_loop);
  no_new_pruning = ground (arith, h.still_stopping, h.no_new_pruning);
}
Happening-IsWindingDown {s} {s'} h asked = record {
  still_stopping = ground (arith, h.still_stopping);
  no_timer = ground (arith, h.still_stopping, h.no_timer);
  no_new_loop = ground (arith, h.still_stopping, h.no_new_loop);
  no_new_pruning = ground (arith, h.still_stopping, h.no_new_pruning);
}
Happening-IsWindingDown {s} {s'} h (fired now on) = cc (h.no_timer, on)
Happening-IsWindingDown {s} {s'} h (dispatch_ended some_loop) = record {
  still_stopping = h.still_stopping;
  no_timer = h.no_timer;
  no_new_loop = omega (arith, h.no_new_loop);
  no_new_pruning = h.no_new_pruning;
}
Happening-IsWindingDown {s} {s'} h (pruning_ended has_failed some_pruning) = record {
  still_stopping = h.still_stopping;
  no_timer = h.no_timer;
  no_new_loop = h.no_new_loop;
  no_new_pruning = omega (arith, h.no_new_pruning);
}
Happening-IsWindingDown {s} {s'} h stopped = record {
  still_stopping = refl;
  no_timer = refl;
  no_new_loop = h.no_new_loop;
  no_new_pruning = h.no_new_pruning;
}

stopped-IsWindingDown :
    (s : Dispatcher) {s' : Dispatcher} → Life (on_application_shutdown s) s' → IsWindingDown s s'
stopped-IsWindingDown s here = record {
  still_stopping = refl;
  no_timer = refl;
  no_new_loop = omega arith;
  no_new_pruning = omega arith;
}
stopped-IsWindingDown s (next life event) =
    Happening-IsWindingDown (stopped-IsWindingDown s life) event

-- For a dispatcher after any events in its life - starts, requests, ticks of its timer, ends
-- of a loop or a pruning in flight, shutdowns - and for what becomes of it after a shutdown
-- and any more events: both have one loop in flight if `dispatching` is set and else none, one
-- pruning in flight if `pruning` is set and else none, and no timer if they are stopping; the
-- second is stopping, its timer is off, and it has no more loops and no more prunings in
-- flight than the first.
pub Life-IsWindingDown :
    {s s' : Dispatcher}
    → Life new_dispatcher s
    → Life (on_application_shutdown s) s'
    → IsSingle s × IsSingle s' × IsWindingDown s s'
Life-IsWindingDown {s} before after =
    let new : IsSingle new_dispatcher = record {
      one_loop = refl;
      one_pruning = refl;
      timer_off = refl;
    } in
    let single = Life-IsSingle new before in
    (single, Life-IsSingle (Happening-IsSingle single stopped) after, stopped-IsWindingDown s after)
