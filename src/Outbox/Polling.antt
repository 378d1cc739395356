-- ===== src/Outbox/Polling.antt =====
-- backend/src/queue/order-matching-outbox-dispatcher.service.ts: what its fields say of the timer and of
-- the loop in flight, from the start of the module to its shutdown.
use exchange_matching.Base.{
  ℕ, suc, ◌-◌, ◌≤◌, ◌≡◌, refl, arith, Bool, true, false, not, ◌&&◌, ◌||◌, if◌then◌else◌,
}

-- The fields. `dispatching` says that `dispatchPromise` is not null; `loops` counts the calls of
-- `dispatchLoop` that have not ended.
pub record QueueDispatcher : Type 0 where
  pub stopping : Bool
  pub timer : Bool
  pub dispatching : Bool
  pub loops : ℕ

abbrev pub new_queue_dispatcher : QueueDispatcher
new_queue_dispatcher = record { stopping = false; timer = false; dispatching = false; loops = 0 }

-- `dispatchPending`, up to its first wait. A caller that finds a dispatch waits for that one.
unfoldable pub queue_dispatch_pending : QueueDispatcher → QueueDispatcher
queue_dispatch_pending s =
    if s.stopping
    then s
    else (if s.dispatching then s else record s { dispatching = true; loops = suc s.loops })

-- `dispatchInBackground`
unfoldable pub queue_dispatch_in_background : QueueDispatcher → QueueDispatcher
unfolding queue_dispatch_pending
queue_dispatch_in_background s = if s.dispatching || s.stopping then s else queue_dispatch_pending s

-- `onModuleInit`; `should_run` is `shouldRunDispatcher`.
unfoldable pub queue_on_module_init : (should_run : Bool) → QueueDispatcher → QueueDispatcher
unfolding queue_dispatch_in_background
queue_on_module_init should_run s =
    if s.stopping || not should_run
    then s
    else record (queue_dispatch_in_background s) { timer = true }

-- `onApplicationShutdown`, up to its first wait; `onModuleDestroy` calls it too.
abbrev pub queue_on_shutdown : QueueDispatcher → QueueDispatcher
queue_on_shutdown s = record s { stopping = true; timer = false }

-- The `finally` of `dispatchPending`.
abbrev pub queue_dispatch_ends : QueueDispatcher → QueueDispatcher
queue_dispatch_ends s = record s { dispatching = false; loops = s.loops - 1 }

-- What happens to a dispatcher, in any order.
pub data QueueHappening (s : QueueDispatcher) : QueueDispatcher → Type 0 where
  started : (should_run : Bool) → QueueHappening s (queue_on_module_init should_run s)
  asked : QueueHappening s (queue_dispatch_pending s)
  fired : s.timer ≡ true → QueueHappening s (queue_dispatch_in_background s)
  dispatch_ended : 1 ≤ s.loops → QueueHappening s (queue_dispatch_ends s)
  stopped : QueueHappening s (queue_on_shutdown s)

pub data QueueLife (s : QueueDispatcher) : QueueDispatcher → Type 0 where
  here : QueueLife s s
  next : {s' s'' : QueueDispatcher} → QueueLife s s' → QueueHappening s' s'' → QueueLife s s''

abbrev pub loops_of : (dispatching : Bool) → ℕ
loops_of dispatching = if dispatching then 1 else 0

-- The promise tells what is in flight, one loop at most, and a dispatcher that stops has no timer.
pub record IsSingleLoop (s : QueueDispatcher) : Type 0 where
  pub one_loop : s.loops ≡ loops_of s.dispatching
  pub timer_off : (s.stopping && s.timer) ≡ false

QueueHappening-IsSingleLoop :
    {s s' : QueueDispatcher} → IsSingleLoop s → QueueHappening s s' → IsSingleLoop s'
unfolding queue_dispatch_pending queue_dispatch_in_background queue_on_module_init
QueueHappening-IsSingleLoop {s} h (started should_run) = record {
  one_loop = ground (arith, h.one_loop);
  timer_off = ground (arith, h.timer_off);
}
QueueHappening-IsSingleLoop {s} h asked = record {
  one_loop = ground (arith, h.one_loop);
  timer_off = ground (arith, h.timer_off);
}
QueueHappening-IsSingleLoop {s} h (fired on) = record {
  one_loop = ground (arith, h.one_loop);
  timer_off = ground (arith, h.timer_off);
}
QueueHappening-IsSingleLoop {s} h (dispatch_ended some_loop) = record {
  one_loop = ground (arith, h.one_loop, some_loop);
  timer_off = h.timer_off;
}
QueueHappening-IsSingleLoop {s} h stopped = record { one_loop = h.one_loop; timer_off = refl }

life-IsSingleLoop : {s s' : QueueDispatcher} → IsSingleLoop s → QueueLife s s' → IsSingleLoop s'
life-IsSingleLoop h here = h
life-IsSingleLoop h (next life event) = QueueHappening-IsSingleLoop (life-IsSingleLoop h life) event

-- Nothing was started between the two, and the timer is off.
pub record IsEnding (s s' : QueueDispatcher) : Type 0 where
  pub still_stopping : s'.stopping ≡ true
  pub no_timer : s'.timer ≡ false
  pub no_new_loop : s'.loops ≤ s.loops

QueueHappening-IsEnding :
    {s s' s'' : QueueDispatcher} → IsEnding s s' → QueueHappening s' s'' → IsEnding s s''
unfolding queue_dispatch_pending queue_dispatch_in_background queue_on_module_init
QueueHappening-IsEnding {s} {s'} h (started should_run) = record {
  still_stopping = ground (arith, h.still_stopping);
  no_timer = ground (arith, h.still_stopping, h.no_timer);
  no_new_loop = ground (arith, h.still_stopping, h.no_new_loop);
}
QueueHappening-IsEnding {s} {s'} h asked = record {
  still_stopping = ground (arith, h.still_stopping);
  no_timer = ground (arith, h.still_stopping, h.no_timer);
  no_new_loop = ground (arith, h.still_stopping, h.no_new_loop);
}
QueueHappening-IsEnding {s} {s'} h (fired on) = cc (h.no_timer, on)
QueueHappening-IsEnding {s} {s'} h (dispatch_ended some_loop) = record {
  still_stopping = h.still_stopping;
  no_timer = h.no_timer;
  no_new_loop = omega (arith, h.no_new_loop);
}
QueueHappening-IsEnding {s} {s'} h stopped = record {
  still_stopping = refl;
  no_timer = refl;
  no_new_loop = h.no_new_loop;
}

life-IsEnding :
    (s : QueueDispatcher) {s' : QueueDispatcher}
    → QueueLife (queue_on_shutdown s) s'
    → IsEnding s s'
life-IsEnding s here = record { still_stopping = refl; no_timer = refl; no_new_loop = omega arith }
life-IsEnding s (next life event) = QueueHappening-IsEnding (life-IsEnding s life) event

-- For a dispatcher of the matching outbox after any events in its life - starts, requests,
-- ticks of its timer, ends of a loop in flight, shutdowns - and for what becomes of it after a
-- shutdown and any more events: both have one loop in flight if `dispatching` is set and else
-- none, and no timer if they are stopping; the second is stopping, its timer is off, and it
-- has no more loops in flight than the first.
pub QueueLife-IsEnding :
    {s s' : QueueDispatcher}
    → QueueLife new_queue_dispatcher s
    → QueueLife (queue_on_shutdown s) s'
    → IsSingleLoop s × IsSingleLoop s' × IsEnding s s'
QueueLife-IsEnding {s} before after =
    let single = life-IsSingleLoop (record { one_loop = refl; timer_off = refl }) before in
    (
      single,
      life-IsSingleLoop (QueueHappening-IsSingleLoop single stopped) after,
      life-IsEnding s after,
    )
