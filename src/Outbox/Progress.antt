-- ===== src/Outbox/Progress.antt =====
-- backend/src/realtime/realtime-outbox-dispatcher.service.ts, `dispatchLoop`: what a round claims is
-- open, and a round without a failure publishes some of it.
use exchange_matching.Base.{
  ℕ, suc, ◌<◌, ◌≤◌, ◌≡◌, refl, arith, List, [], ◌∷◌, true, false, Bool, Bool-cases, inl, inr, ◌&&◌,
  not, if◌then◌else◌, ==_refl, ==→eq, ◌≢◌, sym, ap, ◌∙◌, map, ◌==◌,
}
use exchange_matching.Table.{sum_by}
use exchange_matching.Outbox.{
  Every, update_rows, where_rows, insert_by, order_by, limit, has_key, claim_rows, is_null,
  Delivery, delivered, failed, stuck,
}
use exchange_matching.Outbox.Claims.{has_key-order_by, has_key-limit}
use exchange_matching.Outbox.Realtime.{
  RealtimeRow, realtime_key, is_claimable, with_claim, claim_next_batch, realtime_batch_size,
  mark_as_published, release_claim, released_row, is_claimed_by, settle_delivery, dispatch_rows,
}

-- The rows that are not published.
abbrev pub open_row : RealtimeRow → ℕ
open_row r = if is_null r.published_at then 1 else 0

unfoldable pub unpublished : List RealtimeRow → ℕ
unfolding sum_by
unpublished = sum_by open_row

-- One row of the list is not published, and claimed with the token.
unfoldable pub has_open : (id token : ℕ) → List RealtimeRow → Bool
has_open id token [] = false
has_open id token (r ∷ rows) =
    if is_claimed_by id token r && is_null r.published_at then true else has_open id token rows

mark_as_published-le :
    (id token now : ℕ) (rows : List RealtimeRow)
    → unpublished (mark_as_published id token now rows) ≤ unpublished rows
unfolding unpublished sum_by mark_as_published update_rows
mark_as_published-le id token now [] = omega arith
mark_as_published-le id token now (r ∷ rows) =
    ground (arith, mark_as_published-le id token now rows)

mark_as_published-lt :
    (id token now : ℕ) (rows : List RealtimeRow)
    → has_open id token rows ≡ true
    → unpublished (mark_as_published id token now rows) < unpublished rows
unfolding unpublished sum_by mark_as_published update_rows has_open
mark_as_published-lt id token now [] h = cc
mark_as_published-lt id token now (r ∷ rows) h =
    ground (arith, mark_as_published-le id token now rows, mark_as_published-lt id token now rows)

release_claim-eq :
    (id token now : ℕ) (rows : List RealtimeRow)
    → unpublished (release_claim id token now rows) ≡ unpublished rows
unfolding unpublished sum_by release_claim update_rows released_row
release_claim-eq id token now [] = refl
release_claim-eq id token now (r ∷ rows) = ground (arith, release_claim-eq id token now rows)

settle_delivery-le :
    (a : Delivery) (id token now : ℕ) (rows : List RealtimeRow)
    → unpublished (settle_delivery a id token now rows) ≤ unpublished rows
unfolding settle_delivery
settle_delivery-le delivered id token now rows = mark_as_published-le id token now rows
settle_delivery-le (failed b) id token now rows = omega (arith, release_claim-eq id token now rows)
settle_delivery-le (stuck b) id token now rows = omega arith

module _ (deliver : ℕ → Delivery) (clock : ℕ → ℕ) (token : ℕ) where
  dispatch_rows-le :
      (batch rows : List RealtimeRow)
      → unpublished (dispatch_rows deliver clock token batch rows).0 ≤ unpublished rows
  unfolding dispatch_rows
  dispatch_rows-le [] rows = omega arith
  dispatch_rows-le (r ∷ batch) rows = omega (
    arith,
    settle_delivery-le (deliver r.id) r.id token (clock r.id) rows,
    dispatch_rows-le batch (settle_delivery (deliver r.id) r.id token (clock r.id) rows),
  )

  -- A batch that goes on from an open row, and meets no failure, publishes one.
  pub dispatch_rows-lt :
      (r : RealtimeRow) (batch rows : List RealtimeRow)
      → has_open r.id token rows ≡ true
      → (dispatch_rows deliver clock token (r ∷ batch) rows).1 ≡ false
      → unpublished (dispatch_rows deliver clock token (r ∷ batch) rows).0 < unpublished rows
  unfolding dispatch_rows settle_delivery
  dispatch_rows-lt r batch rows h e = ground (
    arith,
    mark_as_published-lt r.id token (clock r.id) rows h,
    dispatch_rows-le batch (mark_as_published r.id token (clock r.id) rows),
  )

module _ (now token : ℕ) (p : RealtimeRow → Bool)
    (opens : (r : RealtimeRow) → p r ≡ true → is_null r.published_at ≡ true) where
  update_rows-eq :
      (q : RealtimeRow → Bool) (rows : List RealtimeRow)
      → unpublished (update_rows q (with_claim now token) rows) ≡ unpublished rows
  unfolding unpublished sum_by update_rows
  update_rows-eq q [] = refl
  update_rows-eq q (r ∷ rows) = ground (arith, update_rows-eq q rows)

  has_open-update :
      (id : ℕ) (chosen rows : List RealtimeRow)
      → has_key realtime_key id chosen ≡ true
      → has_key realtime_key id (where_rows p rows) ≡ true
      → has_open id token
          (update_rows (λ r. has_key realtime_key r.id chosen) (with_claim now token) rows)
        ≡ true
  unfolding has_open update_rows where_rows has_key
  has_open-update id chosen [] c h = cc
  has_open-update id chosen (r ∷ rows) c h =
      let rest : has_key realtime_key id (where_rows p rows) ≡ true
          → has_open id token
              (update_rows (λ r. has_key realtime_key r.id chosen) (with_claim now token) rows)
            ≡ true =
        λ g. has_open-update id chosen rows c g in
      elim (Bool-cases (r.id == id)) [
        | inl same ↦ elim (Bool-cases (p r)) [
          | inl chosen_row ↦ ground (
            arith,
            same,
            chosen_row,
            opens r chosen_row,
            ap (λ k. has_key realtime_key k chosen) (==→eq r.id id same) ∙ c,
            ==_refl token,
          )
          | inr other ↦ ground (arith, other, rest)
        ]
        | inr differs ↦ ground (arith, differs, rest)
      ]

module _ (locked : ℕ → Bool) (now token : ℕ) (rows : List RealtimeRow) where
  wanted : RealtimeRow → Bool
  wanted r = is_claimable now r && not (locked r.id)

  chosen_rows : List RealtimeRow
  chosen_rows = limit realtime_batch_size (order_by (λ r. r.created_at) (where_rows wanted rows))

  wanted-open : (r : RealtimeRow) → wanted r ≡ true → is_null r.published_at ≡ true
  unfolding wanted is_claimable
  wanted-open r h = ground arith

  pub claim_next_batch-unpublished :
      unpublished (claim_next_batch locked now token rows).1 ≡ unpublished rows
  unfolding claim_next_batch claim_rows wanted
  claim_next_batch-unpublished = update_rows-eq now token wanted wanted-open _ rows

  first_chosen :
      (chosen : List RealtimeRow) (r : RealtimeRow) (batch : List RealtimeRow)
      → map (with_claim now token) chosen ≡ r ∷ batch
      → has_key realtime_key r.id chosen ≡ true
  unfolding has_key
  first_chosen [] r batch e = cc
  first_chosen (x ∷ chosen) r batch e =
      let same : x.id ≡ r.id = ground (arith, e) in ground (arith, same, ==_refl r.id)

  pub claim_next_batch-open :
      (r : RealtimeRow) (batch : List RealtimeRow)
      → (claim_next_batch locked now token rows).0 ≡ r ∷ batch
      → has_open r.id token (claim_next_batch locked now token rows).1 ≡ true
  unfolding claim_next_batch claim_rows wanted chosen_rows
  claim_next_batch-open r batch e =
      let c = first_chosen chosen_rows r batch e in
      has_open-update now token wanted wanted-open r.id chosen_rows rows c (
        sym (has_key-order_by realtime_key (λ x. x.created_at) r.id (where_rows wanted rows))
        ∙ has_key-limit realtime_key realtime_batch_size r.id
            (order_by (λ x. x.created_at) (where_rows wanted rows)) c)

  insert_by-none :
      (x : RealtimeRow) (xs : List RealtimeRow) → insert_by (λ r. r.created_at) x xs ≢ []
  unfolding insert_by
  insert_by-none x [] e = cc
  insert_by-none x (y ∷ xs) e = ground arith

  limit-none : (n : ℕ) (ys : List RealtimeRow) → limit (suc n) ys ≡ [] → ys ≡ []
  unfolding limit
  limit-none n [] e = refl
  limit-none n (y ∷ ys) e = ground arith

  pub none_chosen :
      (xs : List RealtimeRow)
      → limit realtime_batch_size (order_by (λ r. r.created_at) xs) ≡ []
      → xs ≡ []
  unfolding order_by
  none_chosen [] e = refl
  none_chosen (x ∷ xs) e =
      elim (insert_by-none x (order_by (λ r. r.created_at) xs) (limit-none 49 _ e)) [ ]

pub where_rows-none :
    (p : RealtimeRow → Bool) (rows : List RealtimeRow)
    → where_rows p rows ≡ []
    → Every (λ r. p r ≡ false) rows
unfolding where_rows
where_rows-none p [] e = tt
where_rows-none p (r ∷ rows) e = elim (Bool-cases (p r)) [
  | inl h ↦ ground (arith, h, e)
  | inr h ↦ (h, where_rows-none p rows (ground (arith, h, e)))
]
