-- ===== src/Outbox/Arrival.antt =====
-- backend/src/queue/order-matching-outbox-dispatcher.service.ts, `dispatchLoop`: the loop ends, since each
-- round that goes on removes a row, and each order is in the queue or still in the outbox then.
use exchange_matching.Base.{
  ℕ, suc, ◌<◌, ◌≡◌, refl, arith, List, [], ◌∷◌, map, true, false, Bool, Bool-cases, inl, inr, ◌⊎◌,
  ◌==◌, ◌&&◌, ==→eq, ok, sym, ap, ◌∙◌, ==_refl, not,
}
use exchange_matching.Table.{length}
use exchange_matching.Outbox.{Every, where_rows, update_rows, order_by, limit, has_key, claim_rows}
use exchange_matching.Outbox.Retries.{update_rows-Every, where_rows-Every}
use exchange_matching.Outbox.Claims.{has_key-order_by, has_key-limit, has_key-where}
use exchange_matching.Outbox.Handover.{
  Belongs, is_kept, order_by-Every, limit-Every, map-Every, has_key-update,
  dispatch_queue_rows-kept,
}
use exchange_matching.Outbox.Removal.{
  has_claim, length-update, dispatch_queue_rows-lt, dispatch_queue_rows-Belongs,
}
use exchange_matching.Outbox.Queue.{
  QueueRow, QueueRound, queue_key, queue_batch_size, claim_queue_batch, is_queue_claimable,
  with_queue_claim, dispatch_queue_rows, dispatch_queue_loop,
}

module _ (now token : ℕ) where
  has_claim-update :
      (id : ℕ) (chosen rows : List QueueRow)
      → has_key queue_key id chosen ≡ true
      → has_key queue_key id rows ≡ true
      → has_claim id token
          (update_rows (λ r. has_key queue_key r.id chosen) (with_queue_claim now token) rows)
        ≡ true
  unfolding has_claim update_rows has_key
  has_claim-update id chosen [] c h = cc
  has_claim-update id chosen (r ∷ rows) c h = elim (Bool-cases (r.id == id)) [
    | inl same ↦
        ground (
          arith,
          same,
          ap (λ k. has_key queue_key k chosen) (==→eq r.id id same) ∙ c,
          ==_refl token,
        )
    | inr differs ↦
        ground (arith, differs, has_claim-update id chosen rows c (ground (arith, h, differs)))
  ]

module _ (locked : ℕ → Bool) (now token : ℕ) (rows : List QueueRow) where
  wanted : QueueRow → Bool
  wanted r = is_queue_claimable now r && not (locked r.id)

  chosen_rows : List QueueRow
  chosen_rows = limit queue_batch_size (order_by (λ r. r.created_at) (where_rows wanted rows))

  claim_queue_batch-length : length (claim_queue_batch locked now token rows).1 ≡ length rows
  unfolding claim_queue_batch claim_rows chosen_rows wanted
  claim_queue_batch-length =
      length-update (λ r. has_key queue_key r.id chosen_rows) (with_queue_claim now token) rows

  claim_queue_batch-has_key :
      (k : ℕ)
      → has_key queue_key k (claim_queue_batch locked now token rows).1 ≡ has_key queue_key k rows
  unfolding claim_queue_batch claim_rows chosen_rows wanted
  claim_queue_batch-has_key k =
      has_key-update k (λ r. has_key queue_key r.id chosen_rows) (with_queue_claim now token) rows
        (λ r. refl)

  first_chosen :
      (chosen : List QueueRow) (r : QueueRow) (batch : List QueueRow)
      → map (with_queue_claim now token) chosen ≡ r ∷ batch
      → has_key queue_key r.id chosen ≡ true
  unfolding has_key
  first_chosen [] r batch e = cc
  first_chosen (x ∷ chosen) r batch e =
      let same : x.id ≡ r.id = ground (arith, e) in ground (arith, same, ==_refl r.id)

  claim_queue_batch-has_claim :
      (r : QueueRow) (batch : List QueueRow)
      → (claim_queue_batch locked now token rows).0 ≡ r ∷ batch
      → has_claim r.id token (claim_queue_batch locked now token rows).1 ≡ true
  unfolding claim_queue_batch claim_rows wanted chosen_rows
  claim_queue_batch-has_claim r batch e =
      let c = first_chosen chosen_rows r batch e in
      let sorted = order_by (λ (x : QueueRow). x.created_at) (where_rows wanted rows) in
      has_claim-update now token r.id chosen_rows rows c (
        has_key-where queue_key wanted r.id rows (
          sym (has_key-order_by queue_key (λ x. x.created_at) r.id (where_rows wanted rows))
          ∙ has_key-limit queue_key queue_batch_size r.id sorted c))

  module _ (order_of : ℕ → ℕ) (h : Every (Belongs order_of) rows) where
    claim_queue_batch-Belongs :
        Every (Belongs order_of) (claim_queue_batch locked now token rows).0
        × Every (Belongs order_of) (claim_queue_batch locked now token rows).1
    unfolding claim_queue_batch claim_rows wanted chosen_rows
    claim_queue_batch-Belongs =
        let P = Belongs order_of in
        let picked = where_rows wanted rows in
        (
          map-Every P (with_queue_claim now token) (λ x b. b) chosen_rows
              (limit-Every P queue_batch_size (order_by (λ x. x.created_at) picked)
                (order_by-Every P (λ x. x.created_at) picked (where_rows-Every P wanted rows h))),
          update_rows-Every P (λ r. has_key queue_key r.id chosen_rows) (with_queue_claim now token)
              (λ x b c. b) rows h,
        )

-- What a round claims, and what it sends.
claimed_in : QueueRound → List QueueRow → List QueueRow × List QueueRow
claimed_in round rows = claim_queue_batch round.locked round.now round.token rows

sent_in : QueueRound → List QueueRow → List ℕ → List QueueRow × List ℕ × Bool
unfolding claimed_in
sent_in round rows jobs =
    let claimed = claimed_in round rows in
    dispatch_queue_rows round.deliver round.clock round.token claimed.0 claimed.1 jobs

abbrev pub queue_rounds : List QueueRound → ℕ
queue_rounds [] = 0
queue_rounds (r ∷ rs) = suc (queue_rounds rs)

-- What was kept before a dispatch is kept after it.
pub record HandedOver (order_of : ℕ → ℕ) (rows : List QueueRow) (jobs : List ℕ)
    (after : List QueueRow × List ℕ) : Type 0 where
  pub none_lost :
      (id : ℕ) → is_kept order_of id rows jobs ≡ true → is_kept order_of id after.0 after.1 ≡ true

List-cases :
    (xs : List QueueRow) → (xs ≡ []) ⊎ ((x : QueueRow) × (rest : List QueueRow) × (xs ≡ x ∷ rest))
List-cases [] = inl refl
List-cases (x ∷ xs) = inr (x, xs, refl)

sent_in-lt :
    (round : QueueRound) (rows : List QueueRow) (jobs : List ℕ) (r : QueueRow)
    (batch : List QueueRow)
    → (claimed_in round rows).0 ≡ r ∷ batch
    → (sent_in round rows jobs).2 ≡ false
    → length (sent_in round rows jobs).0 < length rows
unfolding claimed_in sent_in
sent_in-lt round rows jobs r batch e fine = ground (
  arith,
  claim_queue_batch-length round.locked round.now round.token rows,
  claim_queue_batch-has_claim round.locked round.now round.token rows r batch e,
  dispatch_queue_rows-lt round.deliver round.clock round.token r batch
      (claim_queue_batch round.locked round.now round.token rows).1 jobs,
)

module _ (order_of : ℕ → ℕ) where
  sent_in-HandedOver :
      (round : QueueRound) (rows : List QueueRow) (jobs : List ℕ)
      → Every (Belongs order_of) rows
      → HandedOver order_of rows jobs ((sent_in round rows jobs).0, (sent_in round rows jobs).1)
  unfolding claimed_in sent_in
  sent_in-HandedOver round rows jobs b = record {
    none_lost = λ id h.
        let claimed = claimed_in round rows in
        let kept = claim_queue_batch-has_key round.locked round.now round.token rows id in
        dispatch_queue_rows-kept order_of id round.deliver round.clock round.token claimed.0
          claimed.1 jobs
          (claim_queue_batch-Belongs round.locked round.now round.token rows order_of b).0
          (ground (arith, kept, h));
  }

  sent_in-Belongs :
      (round : QueueRound) (rows : List QueueRow) (jobs : List ℕ)
      → Every (Belongs order_of) rows
      → Every (Belongs order_of) (sent_in round rows jobs).0
  unfolding claimed_in sent_in
  sent_in-Belongs round rows jobs b =
      dispatch_queue_rows-Belongs round.deliver round.clock round.token order_of _ _ jobs
        (claim_queue_batch-Belongs round.locked round.now round.token rows order_of b).1

  -- For rows whose ids tell their orders, and more rounds than rows, `dispatch_queue_loop`
  -- returns, whatever the queue answers, the locks are and whenever the dispatcher stops.
  -- For each id that had a row, or whose order had a job in the queue, it leaves a row with
  -- the id or a job for the order.
  pub dispatch_queue_loop-HandedOver :
      (rounds : List QueueRound) (rows : List QueueRow) (jobs : List ℕ)
      → Every (Belongs order_of) rows
      → length rows < queue_rounds rounds
      → (after : List QueueRow × List ℕ) × (dispatch_queue_loop rounds rows jobs ≡ ok after)
        × HandedOver order_of rows jobs after
  unfolding dispatch_queue_loop claimed_in sent_in
  dispatch_queue_loop-HandedOver [] rows jobs b h = ground arith
  dispatch_queue_loop-HandedOver (round ∷ rounds) rows jobs b h = elim (Bool-cases round.stopping) [
    | inl stops ↦ ((rows, jobs), ground (arith, stops), record { none_lost = λ id k. k })
    | inr goes_on ↦ elim (List-cases (claimed_in round rows).0) [
      | inl none_due ↦ (
        ((claimed_in round rows).1, jobs),
        ground (arith, goes_on, none_due),
        record {
          none_lost = λ id k.
              ground
                (arith, claim_queue_batch-has_key round.locked round.now round.token rows id, k);
        },
      )
      | inr (r, batch, e) ↦
          let sent = sent_in-HandedOver round rows jobs b in
          elim (Bool-cases (sent_in round rows jobs).2) [
            | inl has_failure ↦ (
              ((sent_in round rows jobs).0, (sent_in round rows jobs).1),
              ground (arith, goes_on, e, has_failure),
              sent,
            )
            | inr fine ↦
                let rest =
                  dispatch_queue_loop-HandedOver rounds (sent_in round rows jobs).0
                    (sent_in round rows jobs).1 (sent_in-Belongs round rows jobs b)
                    (omega (arith, h, sent_in-lt round rows jobs r batch e fine)) in
                (
                  rest.0,
                  ground (arith, goes_on, e, fine, rest.1),
                  record { none_lost = λ id k. rest.2.none_lost id (sent.none_lost id k) },
                )
          ]
    ]
  ]
