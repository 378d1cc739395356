-- ===== src/Outbox/Tracking.antt =====
-- backend/src/realtime/realtime-outbox-dispatcher.service.ts, `dispatchLoop`: the account of the attempts
-- stays right through all rounds.
use exchange_matching.Base.{List}
use exchange_matching.Outbox.{Every}
use exchange_matching.Outbox.Realtime.{RealtimeRow}
use exchange_matching.Outbox.Retries.{IsTracked}
use exchange_matching.Outbox.Claims.{Unique}

-- What the table of events must satisfy.
pub record InOrder (rows : List RealtimeRow) : Type 0 where
  pub unique : Unique rows
  pub tracked : Every IsTracked rows
