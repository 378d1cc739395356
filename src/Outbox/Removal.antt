-- ===== src/Outbox/Removal.antt =====
-- backend/src/queue/order-matching-outbox-dispatcher.service.ts: what a batch removes of the outbox.
use exchange_matching.Base.{
  ℕ, ◌<◌, ◌≤◌, ◌≡◌, refl, arith, List, [], ◌∷◌, true, false, Bool, inl, inr, if◌then◌else◌, not,
}
use exchange_matching.Table.{length}
use exchange_matching.Outbox.{Every, where_rows, update_rows, Delivery}
use exchange_matching.Outbox.Retries.{update_rows-Every, where_rows-Every}
use exchange_matching.Outbox.Handover.{Belongs, Delivery-cases}
use exchange_matching.Outbox.Queue.{
  QueueRow, released_queue_row, enqueued, remove_claimed_row, release_queue_claim,
  is_queue_claimed_by, dispatch_queue_rows,
}

-- A row is claimed with the token.
unfoldable pub has_claim : (id token : ℕ) → List QueueRow → Bool
has_claim id token [] = false
has_claim id token (r ∷ rows) =
    if is_queue_claimed_by id token r then true else has_claim id token rows

pub length-update :
    (p : QueueRow → Bool) (f : QueueRow → QueueRow) (rows : List QueueRow)
    → length (update_rows p f rows) ≡ length rows
unfolding length update_rows
length-update p f [] = refl
length-update p f (r ∷ rows) = ground (arith, length-update p f rows)

remove_claimed_row-le :
    (id token : ℕ) (rows : List QueueRow) → length (remove_claimed_row id token rows) ≤ length rows
unfolding length remove_claimed_row where_rows
remove_claimed_row-le id token [] = omega arith
remove_claimed_row-le id token (r ∷ rows) = ground (arith, remove_claimed_row-le id token rows)

remove_claimed_row-lt :
    (id token : ℕ) (rows : List QueueRow)
    → has_claim id token rows ≡ true
    → length (remove_claimed_row id token rows) < length rows
unfolding length remove_claimed_row where_rows has_claim
remove_claimed_row-lt id token [] h = cc
remove_claimed_row-lt id token (r ∷ rows) h =
    ground (arith, remove_claimed_row-le id token rows, remove_claimed_row-lt id token rows)

release_queue_claim-length :
    (id token now : ℕ) (rows : List QueueRow)
    → length (release_queue_claim id token now rows) ≡ length rows
unfolding release_queue_claim
release_queue_claim-length id token now rows =
    length-update (is_queue_claimed_by id token) (released_queue_row now) rows

module _ (deliver : ℕ → Delivery) (clock : ℕ → ℕ) (token : ℕ) where
  dispatch_queue_rows-le :
      (batch rows : List QueueRow) (jobs : List ℕ)
      → length (dispatch_queue_rows deliver clock token batch rows jobs).0 ≤ length rows
  unfolding dispatch_queue_rows
  dispatch_queue_rows-le [] rows jobs = omega arith
  dispatch_queue_rows-le (r ∷ batch) rows jobs = elim (Delivery-cases (deliver r.id)) [
    | inl e ↦ ground (
      arith,
      e,
      remove_claimed_row-le r.id token rows,
      dispatch_queue_rows-le batch (remove_claimed_row r.id token rows) (r.order_id ∷ jobs),
    )
    | inr (inl (reached, e)) ↦ ground (
      arith,
      e,
      release_queue_claim-length r.id token (clock r.id) rows,
      dispatch_queue_rows-le batch (release_queue_claim r.id token (clock r.id) rows)
          (enqueued reached r.order_id jobs),
    )
    | inr (inr (reached, e)) ↦
        ground (arith, e, dispatch_queue_rows-le batch rows (enqueued reached r.order_id jobs))
  ]

  -- A batch that goes on from a claimed row, and meets no failure, removes one.
  pub dispatch_queue_rows-lt :
      (r : QueueRow) (batch rows : List QueueRow) (jobs : List ℕ)
      → has_claim r.id token rows ≡ true
      → (dispatch_queue_rows deliver clock token (r ∷ batch) rows jobs).2 ≡ false
      → length (dispatch_queue_rows deliver clock token (r ∷ batch) rows jobs).0 < length rows
  unfolding dispatch_queue_rows
  dispatch_queue_rows-lt r batch rows jobs c fine = elim (Delivery-cases (deliver r.id)) [
    | inl e ↦ ground (
      arith,
      e,
      remove_claimed_row-lt r.id token rows c,
      dispatch_queue_rows-le batch (remove_claimed_row r.id token rows) (r.order_id ∷ jobs),
    )
    | inr (inl (reached, e)) ↦ ground (arith, e, fine)
    | inr (inr (reached, e)) ↦ ground (arith, e, fine)
  ]

  module _ (order_of : ℕ → ℕ) where
    pub dispatch_queue_rows-Belongs :
        (batch rows : List QueueRow) (jobs : List ℕ)
        → Every (Belongs order_of) rows
        → Every (Belongs order_of) (dispatch_queue_rows deliver clock token batch rows jobs).0
    unfolding dispatch_queue_rows remove_claimed_row release_queue_claim
    dispatch_queue_rows-Belongs [] rows jobs h = h
    dispatch_queue_rows-Belongs (r ∷ batch) rows jobs h = elim (Delivery-cases (deliver r.id)) [
      | inl e ↦
          rw (e, dispatch_queue_rows)
            (dispatch_queue_rows-Belongs batch _ _ (
              where_rows-Every (Belongs order_of) (λ x. not (is_queue_claimed_by r.id token x)) rows
                h))
      | inr (inl (reached, e)) ↦
          rw (e, dispatch_queue_rows)
            (dispatch_queue_rows-Belongs batch _ _ (
              update_rows-Every (Belongs order_of) (is_queue_claimed_by r.id token)
                (released_queue_row (clock r.id)) (λ x b c. b) rows h))
      | inr (inr (reached, e)) ↦
          rw (e, dispatch_queue_rows) (dispatch_queue_rows-Belongs batch _ _ h)
    ]
