-- ===== src/Seed.antt =====
-- backend/prisma/seed.ts: the database for demonstrations. The texts of ids are numbers: a user's is its
-- place among the users, and the rows of orders and trades have the next numbers of their sequences.
pub mod Accounts
pub mod Scenario
pub mod Start
pub mod Jobs
use exchange_matching.Base.{[]}
use exchange_matching.Database.{Db}
use exchange_matching.Seed.Accounts.{create_seed_users}
use exchange_matching.Seed.Scenario.{create_seed_orders_and_trades}

-- `resetDatabase`: the rows of wallets, orders, trades and the outbox of the matching refer to those of
-- users, at last, and go with them. The sequences are not reset.
unfoldable pub reset_database : Db → Db
reset_database d = record d { wallets = []; orders = []; trades = []; matching_outbox = [] }

-- `main`, up to the jobs for the queue.
unfoldable pub seed : Db → Db
unfolding reset_database create_seed_users create_seed_orders_and_trades
seed d = create_seed_orders_and_trades (create_seed_users (reset_database d))
