-- ===== src/Outbox/Client.antt =====
-- backend/src/queue/order-matching.queue.ts and backend/src/realtime/realtime.publisher.ts: the client
-- of Redis that each service holds, which it opens when it needs one and drops when a call fails. Clients
-- that were dropped close later, or stay open. The clients are numbered as they are opened.
use exchange_matching.Base.{
  ℕ, suc, ◌==◌, ◌<◌, ◌≡◌, ◌≢◌, Bool, true, false, not, List, [], ◌∷◌, Option, none, some,
  if◌then◌else◌,
}
use exchange_matching.Outbox.{where_rows}

-- A service: the client that it holds, the clients that are open, and the number of the next.
pub record Service : Type 0 where
  pub held : Option ℕ
  pub open_clients : List ℕ
  pub next_client : ℕ

abbrev pub new_service : Service
new_service = record { held = none; open_clients = []; next_client = 0 }

-- `getQueue` and `getPublisher`: the client, and the service with it.
unfoldable pub get_client : Service → ℕ × Service
get_client s = elim s.held [
  | some client ↦ (client, s)
  | none ↦ (
    s.next_client,
    record {
      held = some s.next_client;
      open_clients = s.next_client ∷ s.open_clients;
      next_client = suc s.next_client;
    },
  )
]

-- A client that closes or disconnects. `closeQueue` awaits both, and other calls run meanwhile; if both
-- fail, the client stays open.
unfoldable pub close_client : (client : ℕ) → Service → Service
unfolding where_rows
close_client client s = record s {
  open_clients = where_rows (λ c. not (c == client)) s.open_clients;
}

abbrev pub is_held : Option ℕ → (client : ℕ) → Bool
is_held none client = false
is_held (some c) client = c == client

-- The `catch` of `enqueueProcessOrder` and of `publishEvent` up to the close, for the client that the call
-- began with. Other calls may have failed, or opened a client, since.
unfoldable pub drop_client : (client : ℕ) → Service → Service
drop_client client s = if is_held s.held client then record s { held = none } else s

-- `onApplicationShutdown` of both, up to the close.
unfoldable pub release_client : Service → Service
release_client s = record s { held = none }

-- A call during which no other begins: whether it throws, and the service after it. `fails` is how the
-- client answers, `closes` whether the dropped client closes or disconnects.
unfoldable pub enqueue_process_order : (fails closes : Bool) → Service → Bool × Service
unfolding get_client drop_client close_client
enqueue_process_order fails closes s =
    let got = get_client s in
    let dropped = drop_client got.0 got.1 in
    if fails then (true, if closes then close_client got.0 dropped else dropped) else (false, got.1)

-- `disconnect` of a publisher does not wait and does not fail.
unfoldable pub publish_event : (should_run fails : Bool) → Service → Bool × Service
unfolding get_client drop_client close_client
publish_event should_run fails s =
    let got = get_client s in
    if not should_run
    then (false, s)
    else if fails
    then (true, close_client got.0 (drop_client got.0 got.1))
    else (false, got.1)

-- What happens to a service: a call begins, the call that began with a client fails, the shutdown, and
-- the close of a client that was dropped or released, whenever that is done.
pub data ClientEvent (s : Service) : Service → Type 0 where
  call_began : ClientEvent s (get_client s).1
  call_failed : (client : ℕ) → ClientEvent s (drop_client client s)
  shut_down : ClientEvent s (release_client s)
  closed : (client : ℕ) → is_held s.held client ≡ false → ClientEvent s (close_client client s)

pub data ClientLife (s : Service) : Service → Type 0 where
  here : ClientLife s s
  next : {s' s'' : Service} → ClientLife s s' → ClientEvent s' s'' → ClientLife s s''

abbrev pub is_open : ℕ → List ℕ → Bool
is_open client [] = false
is_open client (c ∷ cs) = if c == client then true else is_open client cs

-- A client that is held is open, and an old one.
abbrev pub IsReady : Option ℕ → List ℕ → ℕ → Type 0
IsReady none open_clients n = Unit {0}
IsReady (some c) open_clients n = (is_open c open_clients ≡ true) × (c < n)

abbrev pub IsManaged : Service → Type 0
IsManaged s = IsReady s.held s.open_clients s.next_client

-- A client that was opened and is not held.
pub record IsRetired (client : ℕ) (s : Service) : Type 0 where
  pub was_opened : client < s.next_client
  pub not_held : is_held s.held client ≡ false

-- The client that a call gets now is open, and it is not the failed one.
pub record IsFresh (failed_client : ℕ) (got : ℕ × Service) : Type 0 where
  pub differs : got.0 ≢ failed_client
  pub usable : is_open got.0 got.1.open_clients ≡ true
