-- ===== src/Lib.antt =====
-- The matching core of the exchange: a user places a limit order for BTC in USD, which reserves what
-- it may cost; a worker matches it, order by order, against the book; what is left rests in the book
-- or is cancelled; and each change is announced through an outbox.
--
-- Files and the code that they are about, under backend/src unless another folder is named:
--   Base       Boolean tests, signed integers, results of code that throws.
--   Decimal    common/decimal.utils.ts; Decimal/Input is common/decimal-input.ts.
--   Text       strings as lists of code units.
--   Table      tables with a unique key: `find`, `replace`, sums over a column.
--   Database   backend/prisma/schema.prisma, the CHECK constraints of backend/prisma/migrations, and
--              the statements that the services issue.
--   Wallets    wallets/wallets.repository.ts (Wallets, Wallets/Balance) and wallets/wallets.service.ts;
--              Wallets/Funds is wallets/wallet-funds.service.ts.
--   Settlement matching/trade-settlement.service.ts.
--   OrderBook  matching/matching-order-book.service.ts.
--   Matching   matching/matching.service.ts: `process_order` is `processOrder`, `match_makers` its
--              loop, `reject_order` is `rejectOrderAfterFailedProcessing`.
--   Orders     orders/orders.service.ts and orders/orders.repository.ts: `create_order`,
--              `cancel_order`.
--   Outbox     realtime/realtime-outbox.repository.ts and realtime-outbox-dispatcher.service.ts
--              (Outbox/Realtime; Outbox/Lifecycle for its timer and shutdown);
--              queue/order-matching-outbox-dispatcher.service.ts and
--              queue/order-matching.processor.ts (Outbox/Queue; Outbox/Polling for the timer and
--              shutdown); Outbox/Client is queue/order-matching.queue.ts and
--              realtime/realtime.publisher.ts.
--   Seed       backend/prisma/seed.ts: the reset, the users, the orders, the trade and the jobs.
--   Config     config/env.validation.ts.
--   Traffic    users' requests in transactions of their own while a matching job waits for locks, and
--              the exchange as steps of requests and jobs.
--   Pagination common/dto/pagination-query.dto.ts and common/pagination.ts.
--   Queries    the lists and figures of the API: orders, market, trades (repositories, services and
--              mappers) and common/id-filter.ts.
--   Users      users/users.service.ts, users/users.repository.ts, wallets/wallet.constants.ts;
--              Users/Session is auth/auth.service.ts and wallets/wallet.mapper.ts; Users/Guard is
--              auth/jwt-auth.guard.ts.
--   Api        orders/orders.controller.ts and orders/dto/create-order.dto.ts: requests behind the guard.
--   Gateway    realtime/realtime.gateway.ts.
--   Frontend   frontend/src/utils/decimal.ts and
--              frontend/src/features/orders/schemas/orderFormSchema.ts: the order form; Frontend/Session
--              is frontend/src/services/session-storage.ts, frontend/src/services/http.ts and
--              frontend/src/features/auth/context/AuthProvider.tsx; Frontend/Tables is
--              frontend/src/hooks/usePaginatedTableState.ts with its controls; Frontend/Refresh is
--              frontend/src/app/query-keys.ts and the invalidation of queries.
--   Ledger     the specification: what the money and the rows must satisfy between transactions.
--   Tests      a concrete market, and the theorems at it.
--
-- A stored amount is a natural number of units of 0.00000001, which the CHECK constraints justify; a
-- value in memory is an integer. The products of decimal.js are exact, since its precision of 56
-- digits holds the product of two values of 28 digits. Columns of DECIMAL(28,8) overflow beyond 28
-- nines. The ids of rows are numbers: a new row takes the next of its sequence.
--
-- A transaction is a function from the database to a result with the database after it; an error
-- leaves nothing. Other transactions commit only while this one waits for a lock: `Waits` gives what
-- the database is after each wait, and `Isolated` states what the locks promise of it - the invariant
-- holds on, locked rows stay, the totals stay, and no order enters the book. The search for makers
-- runs on fuel; more fuel than there are candidates in the book at its start is enough, since each
-- round goes past one of them for good. The dispatch loop runs for a given list of rounds;
-- more of them than rows that are not published are enough. `Traffic` gives waits that are isolated:
-- those in which users create and cancel orders and failed jobs reject theirs.
--
-- A failure of the database, a timeout or a crash is modelled around the attempts at matching jobs: the
-- transaction is lost, or it commits and the processor sees an error. Elsewhere a transaction commits or
-- throws by its own code. First logins add wallets with money; they are modelled in `Users`, and are no
-- steps of `Traffic`, whose totals stay the same. No row is added to an outbox while a dispatch runs.
--
-- Not modelled: texts of errors, logging, the dispatch after a commit, the HTTP of the framework, what
-- BullMQ and Redis do with a call, the file of the environment in the seed, scripts, and the rest of
-- the user interface. The parsers of decimals, integers, URLs and JSON, the publisher, the queue of the
-- seed, the signature and the verification of a token, the cache of queries, the texts of ids and
-- numbers and the times of rows, which only the lists read, are parameters.
pub mod Base
pub mod Decimal
pub mod Table
pub mod Text
pub mod Database
pub mod Wallets
pub mod Settlement
pub mod OrderBook
pub mod Matching
pub mod Orders
pub mod Ledger
pub mod Seed
pub mod Traffic
pub mod Outbox
pub mod Pagination
pub mod Queries
pub mod Users
pub mod Config
pub mod Api
pub mod Frontend
pub mod Gateway
pub mod Tests
