-- ===== src/Outbox/Handover.antt =====
-- backend/src/queue/order-matching-outbox-dispatcher.service.ts, `dispatchLoop`: no order is lost on its
-- way from the outbox to the queue.
use exchange_matching.Base.{
  ℕ, zero, suc, ◌≡◌, refl, arith, List, [], ◌∷◌, map, true, false, Bool, Bool-cases, inl, inr, ◌⊎◌,
  ◌==◌, ◌||◌, ==→eq, sym, ap, ◌∙◌, leb, ==_refl,
}
use exchange_matching.Matching.{contains}
use exchange_matching.Outbox.{
  Every, where_rows, update_rows, order_by, insert_by, limit, has_key, Delivery, delivered, failed,
  stuck,
}
use exchange_matching.Outbox.Queue.{
  QueueRow, enqueued, released_queue_row, queue_key, remove_claimed_row, release_queue_claim,
  is_queue_claimed_by, dispatch_queue_rows,
}

module _ {A : Type 0} (P : A → Type 0) where
  insert_by-Every :
      (f : A → ℕ) (x : A) (xs : List A) → P x → Every P xs → Every P (insert_by f x xs)
  unfolding insert_by
  insert_by-Every f x [] h k = (h, tt)
  insert_by-Every f x (y ∷ ys) h k = elim (Bool-cases (leb (f x) (f y))) [
    | inl first ↦ rw first (h, k)
    | inr later ↦ rw later (k.0, insert_by-Every f x ys h k.1)
  ]

  pub order_by-Every : (f : A → ℕ) (xs : List A) → Every P xs → Every P (order_by f xs)
  unfolding order_by
  order_by-Every f [] h = tt
  order_by-Every f (x ∷ xs) h = insert_by-Every f x (order_by f xs) h.0 (order_by-Every f xs h.1)

  pub limit-Every : (n : ℕ) (xs : List A) → Every P xs → Every P (limit n xs)
  unfolding limit
  limit-Every zero xs h = tt
  limit-Every (suc n) [] h = tt
  limit-Every (suc n) (x ∷ xs) h = (h.0, limit-Every n xs h.1)

  pub map-Every :
      (f : A → A) → ((x : A) → P x → P (f x)) → (xs : List A) → Every P xs → Every P (map f xs)
  map-Every f step [] h = tt
  map-Every f step (x ∷ xs) h = (step x h.0, map-Every f step xs h.1)

pub Delivery-cases :
    (a : Delivery) → (a ≡ delivered) ⊎ ((b : Bool) × (a ≡ failed b)) ⊎ ((b : Bool) × (a ≡ stuck b))
Delivery-cases delivered = inl refl
Delivery-cases (failed b) = inr (inl (b, refl))
Delivery-cases (stuck b) = inr (inr (b, refl))

-- The id of a row tells its order: a row is written once for each.
abbrev pub Belongs : (order_of : ℕ → ℕ) → QueueRow → Type 0
Belongs order_of r = r.order_id ≡ order_of r.id

-- The row is in the outbox, or a job for its order is in the queue.
abbrev pub is_kept : (order_of : ℕ → ℕ) (id : ℕ) → List QueueRow → (jobs : List ℕ) → Bool
is_kept order_of id rows jobs = has_key queue_key id rows || contains (order_of id) jobs

pub has_key-update :
    (k : ℕ) (p : QueueRow → Bool) (f : QueueRow → QueueRow) (rows : List QueueRow)
    → ((r : QueueRow) → (f r).id ≡ r.id)
    → has_key queue_key k (update_rows p f rows) ≡ has_key queue_key k rows
unfolding has_key update_rows
has_key-update k p f [] same = refl
has_key-update k p f (r ∷ rows) same = ground (arith, same r, has_key-update k p f rows same)

has_key-remove :
    (k id token : ℕ) (rows : List QueueRow)
    → (k == id) ≡ false
    → has_key queue_key k (remove_claimed_row id token rows) ≡ has_key queue_key k rows
unfolding has_key remove_claimed_row where_rows
has_key-remove k id token [] n = refl
has_key-remove k id token (r ∷ rows) n = ground (arith, n, has_key-remove k id token rows n)

module _ (order_of : ℕ → ℕ) (id : ℕ) where
  removed-kept :
      (r : QueueRow) (token : ℕ) (rows : List QueueRow) (jobs : List ℕ)
      → Belongs order_of r
      → is_kept order_of id rows jobs ≡ true
      → is_kept order_of id (remove_claimed_row r.id token rows) (r.order_id ∷ jobs) ≡ true
  unfolding contains
  removed-kept r token rows jobs b h = elim (Bool-cases (id == r.id)) [
    | inl same ↦
        let e : r.order_id ≡ order_of id = b ∙ ap order_of (sym (==→eq id r.id same)) in
        ground (arith, e, ==_refl (order_of id))
    | inr differs ↦ ground (arith, h, has_key-remove id r.id token rows differs)
  ]

  released-kept :
      (r : QueueRow) (token now : ℕ) (rows : List QueueRow) (jobs : List ℕ)
      → is_kept order_of id rows jobs ≡ true
      → is_kept order_of id (release_queue_claim r.id token now rows) jobs ≡ true
  unfolding release_queue_claim
  released-kept r token now rows jobs h = ground (
    arith,
    h,
    has_key-update id (is_queue_claimed_by r.id token) (released_queue_row now) rows (λ x. refl),
  )

  more_jobs-kept :
      (order : ℕ) (rows : List QueueRow) (jobs : List ℕ)
      → is_kept order_of id rows jobs ≡ true
      → is_kept order_of id rows (order ∷ jobs) ≡ true
  unfolding contains
  more_jobs-kept order rows jobs h = ground arith

  enqueued-kept :
      (reached : Bool) (order : ℕ) (rows : List QueueRow) (jobs : List ℕ)
      → is_kept order_of id rows jobs ≡ true
      → is_kept order_of id rows (enqueued reached order jobs) ≡ true
  enqueued-kept true order rows jobs h = more_jobs-kept order rows jobs h
  enqueued-kept false order rows jobs h = h

  module _ (deliver : ℕ → Delivery) (clock : ℕ → ℕ) (token : ℕ) where
    pub dispatch_queue_rows-kept :
        (batch rows : List QueueRow) (jobs : List ℕ)
        → Every (Belongs order_of) batch
        → is_kept order_of id rows jobs ≡ true
        → (let sent = dispatch_queue_rows deliver clock token batch rows jobs in
            is_kept order_of id sent.0 sent.1 ≡ true)
    unfolding dispatch_queue_rows
    dispatch_queue_rows-kept [] rows jobs b h = h
    dispatch_queue_rows-kept (r ∷ batch) rows jobs b h = elim (Delivery-cases (deliver r.id)) [
      | inl e ↦ ground (
        arith,
        e,
        dispatch_queue_rows-kept batch (remove_claimed_row r.id token rows) (r.order_id ∷ jobs) b.1
            (removed-kept r token rows jobs b.0 h),
      )
      | inr (inl (reached, e)) ↦
          let rows' = release_queue_claim r.id token (clock r.id) rows in
          ground (
            arith,
            e,
            dispatch_queue_rows-kept batch rows' (enqueued reached r.order_id jobs) b.1 (
                enqueued-kept reached r.order_id rows' jobs
                  (released-kept r token (clock r.id) rows jobs h)),
          )
      | inr (inr (reached, e)) ↦ ground (
        arith,
        e,
        dispatch_queue_rows-kept batch rows (enqueued reached r.order_id jobs) b.1
            (enqueued-kept reached r.order_id rows jobs h),
      )
    ]
