-- ===== src/Seed/Jobs.antt =====
-- backend/prisma/seed.ts, `enqueueQueuedOrders`: the jobs for the orders that the seed leaves queued. The
-- queue is a parameter.
use exchange_matching.Base.{
  ℕ, zero, suc, ◌+◌, ◌≡◌, ◌≢◌, refl, sym, ◌∙◌, arith, Bool, true, false, List, [], ◌∷◌, Option,
  none, some, if◌then◌else◌,
}
use exchange_matching.Table.{find, find-key}
use exchange_matching.Database.{Db, Order, order_key, queued}
use exchange_matching.Outbox.{Every}
use exchange_matching.Seed.Scenario.{seed_orders, create_seed_orders_and_trades}
use exchange_matching.Seed.Start.{find-Every}
use exchange_matching.Seed.{seed, reset_database}
use exchange_matching.Seed.Accounts.{create_seed_users}

-- What the queue knows of the job with an id: that it waits for its first attempt, or another state.
pub data JobState : Type 0 where
  absent waiting other : JobState

-- `getJob`, `remove` and `add` of a queue.
pub record JobQueue (Jobs : Type 0) : Type 0 where
  pub state_of : (job_id : ℕ) → Jobs → JobState
  pub remove : (job_id : ℕ) → Jobs → Jobs
  pub add : (job_id : ℕ) → Jobs → Jobs

-- A removed job is gone, a job with a new id waits, and the other jobs are left alone.
pub record IsJobQueue {Jobs : Type 0} (queue : JobQueue Jobs) : Type 0 where
  pub removed : (id : ℕ) (q : Jobs) → queue.state_of id (queue.remove id q) ≡ absent
  pub added :
      (id : ℕ) (q : Jobs)
      → queue.state_of id q ≡ absent
      → queue.state_of id (queue.add id q) ≡ waiting
  pub keeps_removed :
      (k id : ℕ) (q : Jobs) → k ≢ id → queue.state_of k (queue.remove id q) ≡ queue.state_of k q
  pub keeps_added :
      (k id : ℕ) (q : Jobs) → k ≢ id → queue.state_of k (queue.add id q) ≡ queue.state_of k q

abbrev is_there : JobState → Bool
is_there absent = false
is_there waiting = true
is_there other = true

module _ {Jobs : Type 0} (queue : JobQueue Jobs) where
  -- Calls one after the other, up to the one that throws, if any does.
  unfoldable pub run_calls : (throws_at : Option ℕ) → List (Jobs → Jobs) → Jobs → Jobs
  run_calls throws_at [] q = q
  run_calls none (call ∷ calls) q = run_calls none calls (call q)
  run_calls (some zero) (call ∷ calls) q = q
  run_calls (some (suc n)) (call ∷ calls) q = run_calls (some n) calls (call q)

  abbrev remove_existing : (existing : JobState) (id : ℕ) → Jobs → Jobs
  remove_existing existing id q = if is_there existing then queue.remove id q else q

  -- `enqueueQueuedOrders`, for the ids of the two orders. `redis_is_available` is the answer of
  -- `isTcpServiceAvailable`; an exception is caught.
  unfoldable pub enqueue_queued_orders :
      (redis_is_available : Bool) (throws_at : Option ℕ) (buy_id sell_id : ℕ) → Jobs → Jobs
  unfolding run_calls
  enqueue_queued_orders redis_is_available throws_at buy_id sell_id q =
      if redis_is_available
      then run_calls throws_at
          (remove_existing (queue.state_of buy_id q) buy_id
            ∷ remove_existing (queue.state_of sell_id q) sell_id
            ∷ queue.add buy_id
            ∷ queue.add sell_id
            ∷ [])
          q
      else q

  -- `main`
  unfoldable pub seed_with_jobs :
      (redis_is_available : Bool) (throws_at : Option ℕ) → Db × Jobs → Db × Jobs
  unfolding enqueue_queued_orders seed
  seed_with_jobs redis_is_available throws_at (d, q) = (
    seed d,
    enqueue_queued_orders redis_is_available throws_at (d.next_order + 3) (d.next_order + 4) q,
  )

  HasJob : Jobs → Order → Type 0
  HasJob q o = o.status ≡ queued → queue.state_of o.id q ≡ waiting

  seed_orders-HasJob :
      (n : ℕ) (q : Jobs)
      → queue.state_of (n + 3) q ≡ waiting
      → queue.state_of (n + 4) q ≡ waiting
      → Every (HasJob q) (seed_orders n)
  unfolding HasJob seed_orders
  seed_orders-HasJob n q b s =
      (λ e. cc, (λ e. cc, (λ e. cc, (λ e. b, (λ e. s, (λ e. cc, (λ e. cc, tt)))))))

  module _ (law : IsJobQueue queue) where
    removed_existing :
        (id : ℕ) (q : Jobs) (existing : JobState)
        → queue.state_of id q ≡ existing
        → queue.state_of id (remove_existing existing id q) ≡ absent
    removed_existing id q absent e = e
    removed_existing id q waiting e = law.removed id q
    removed_existing id q other e = law.removed id q

    kept_existing :
        (k id : ℕ) (q : Jobs) (existing : JobState)
        → k ≢ id
        → queue.state_of k (remove_existing existing id q) ≡ queue.state_of k q
    kept_existing k id q absent n = refl
    kept_existing k id q waiting n = law.keeps_removed k id q n
    kept_existing k id q other n = law.keeps_removed k id q n

    both_waiting :
        (b s : ℕ) (q : Jobs)
        → b ≢ s
        → (queue.state_of b (enqueue_queued_orders true none b s q) ≡ waiting)
          × (queue.state_of s (enqueue_queued_orders true none b s q) ≡ waiting)
    unfolding enqueue_queued_orders run_calls
    both_waiting b s q n =
        let n' : s ≢ b = λ e. n (sym e) in
        let q₁ = remove_existing (queue.state_of b q) b q in
        let q₂ = remove_existing (queue.state_of s q) s q₁ in
        let q₃ = queue.add b q₂ in
        let no_buy =
          kept_existing b s q₁ (queue.state_of s q) n
          ∙ removed_existing b q (queue.state_of b q) refl in
        let no_sell =
          removed_existing s q₁ (queue.state_of s q)
            (kept_existing s b q (queue.state_of b q) n') in
        (
          law.keeps_added b s q₃ n ∙ law.added b q₂ no_buy,
          law.added s q₃ (law.keeps_added s b q₂ n' ∙ no_sell),
        )

    -- For a queue in which a removed job is gone, a job with a new id waits and other jobs
    -- are left alone, from any database and any jobs: if Redis is available and no call
    -- throws, then after `seed_with_jobs` each order of the database whose status is
    -- queued has a job under its id that waits for its first attempt; if Redis is not
    -- available, the database is the seeded one and the jobs are as before.
    pub seed_with_jobs-queued :
        (d : Db) (q : Jobs) (throws_at : Option ℕ) (id : ℕ) (o : Order)
        → find order_key id (seed d).orders ≡ some o
        → o.status ≡ queued
        → (queue.state_of id (seed_with_jobs true none (d, q)).1 ≡ waiting)
          × (seed_with_jobs false throws_at (d, q) ≡ (seed d, q))
    unfolding HasJob seed_with_jobs seed reset_database create_seed_users
        create_seed_orders_and_trades
    seed_with_jobs-queued d q throws_at id o row is_queued =
        let n = d.next_order in
        let both = both_waiting (n + 3) (n + 4) q (omega arith) in
        let after = enqueue_queued_orders true none (n + 3) (n + 4) q in
        let e = find-key order_key id (seed_orders n) o row in
        let has_job =
          find-Every order_key (HasJob after) id (seed_orders n) o
            (seed_orders-HasJob n after both.0 both.1) row is_queued in
        (rw⁻¹ e has_job, refl)
