-- ===== src/Tests/Seed.antt =====
-- The seeded database, and the redelivery of a job.
use exchange_matching.Base.{
  false, ℕ, ◌≡◌, refl, arith, [], ◌∷◌, none, some, true, ◌==◌, if◌then◌else◌,
}
use exchange_matching.Table.{find}
use exchange_matching.Database.{Db, Order, buy, queued, order_key}
use exchange_matching.Traffic.{cancel, reject, Schedule, serve}
use exchange_matching.Traffic.Running.{served, here, next, run_job}
use exchange_matching.Traffic.Redelivery.{run_job_redelivered}
use exchange_matching.Seed.{seed, reset_database}
use exchange_matching.Seed.Accounts.{seed_seller_1, seed_queue_buyer, create_seed_users}
use exchange_matching.Seed.Scenario.{seed_orders, create_seed_orders_and_trades}
use exchange_matching.Seed.Jobs.{
  JobState, absent, waiting, other, JobQueue, IsJobQueue, seed_with_jobs, seed_with_jobs-queued,
}
use exchange_matching.Seed.Start.{IsSeeded, Reach-IsSeeded}
use exchange_matching.Tests.Market.{market, market-Valid, incoming, incoming_row}

-- The first seller cancels the order that rests in the book.
abbrev first_cancelled : Db
first_cancelled = serve (cancel seed_seller_1 2) (seed market)

Reach-IsSeeded_example : IsSeeded first_cancelled
Reach-IsSeeded_example =
    Reach-IsSeeded market first_cancelled (next here (served (cancel seed_seller_1 2) refl))

-- The seller cancels while the job waits for the seller's order, or nothing happens.
abbrev busy : Schedule
busy = record {
  for_order = λ locked id. cancel 2 0 ∷ [];
  for_wallets = λ locked user. reject 7 ∷ [];
}

abbrev idle : Schedule
idle = record { for_order = λ locked id. []; for_wallets = λ locked user. [] }

-- Between the two jobs, a user cancels the order that the first one has served.
abbrev between_jobs : Db
between_jobs = serve (cancel incoming.user_id 1) (run_job busy 0 (some 3) 1 market)

run_job_redelivered_example : run_job idle 1 (some 3) 1 between_jobs ≡ between_jobs
run_job_redelivered_example =
    run_job_redelivered busy idle 0 1 (some 3) (some 3) market market between_jobs incoming
      market-Valid here incoming_row (next here (served (cancel incoming.user_id 1) refl))

-- A queue that is the state of each job.
abbrev states : JobQueue (ℕ → JobState)
states = record {
  state_of = λ id q. q id;
  remove = λ id q k. if k == id then absent else q k;
  add = λ id q k. if k == id then (elim (q k) [ absent ↦ waiting | s ↦ s ]) else q k;
}

states-IsJobQueue : IsJobQueue states
states-IsJobQueue = record {
  removed = λ id q. ground arith;
  added = λ id q e. ground (arith, e);
  keeps_removed = λ k id q n. ground (arith, n);
  keeps_added = λ k id q n. ground (arith, n);
}

-- Every job has failed before.
abbrev all_failed : ℕ → JobState
all_failed id = other

-- The order that was queued first, for 1 BTC at 10000 USD.
abbrev first_queued : Order
first_queued = record {
  id = 5;
  sequence = 5;
  user_id = seed_queue_buyer;
  side = buy;
  status = queued;
  price = 1000000000000;
  original_amount = 100000000;
  remaining_amount = 100000000;
}

first_queued_row : find order_key 5 (seed market).orders ≡ some first_queued
unfolding find seed reset_database create_seed_users create_seed_orders_and_trades seed_orders
first_queued_row = refl

seed_with_jobs-queued_example :
    (states.state_of 5 (seed_with_jobs states true none (market, all_failed)).1 ≡ waiting)
    × (seed_with_jobs states false (some 1) (market, all_failed) ≡ (seed market, all_failed))
seed_with_jobs-queued_example =
    seed_with_jobs-queued states states-IsJobQueue market all_failed (some 1) 5 first_queued
      first_queued_row refl
