-- ===== src/Outbox/Draining.antt =====
-- backend/src/realtime/realtime-outbox-dispatcher.service.ts, `dispatchLoop`: each round that goes on
-- publishes a row, so the loop ends, and it ends with nothing left that is due.
use exchange_matching.Base.{
  ℕ, suc, ◌+◌, ◌≤◌, ◌<◌, ◌≡◌, true, refl, Option, none, some, arith, List, [], ◌∷◌, false, Bool,
  Bool-cases, inl, inr, ◌⊎◌, ◌&&◌, not, ok, map,
}
use exchange_matching.Outbox.{
  Every, is_due, is_unclaimed, where_rows, has_key, claim_rows, Delivery, delivered,
}
use exchange_matching.Outbox.Fencing.{update_rows-none}
use exchange_matching.Outbox.Realtime.{
  RealtimeRow, claim_timeout_seconds, realtime_key, is_claimable, with_claim, claim_next_batch,
  settle_delivery, dispatch_rows, dispatch_loop, Round,
}
use exchange_matching.Outbox.Progress.{
  unpublished, dispatch_rows-lt, claim_next_batch-unpublished, claim_next_batch-open, none_chosen,
  where_rows-none,
}

-- What the outbox promises to deliver: an event that is neither published nor given up, that has no later
-- attempt to wait for, and that no dispatcher has claimed in the last 30 seconds.
pub record IsDue (now : ℕ) (r : RealtimeRow) : Type 0 where
  pub is_open : (r.published_at ≡ none) × (r.dead_lettered_at ≡ none)
  pub may_try : (r.next_attempt_at ≡ none) ⊎ ((t : ℕ) × (r.next_attempt_at ≡ some t) × (t ≤ now))
  pub is_free : (r.claimed_at ≡ none) ⊎ ((t : ℕ) × (r.claimed_at ≡ some t) × (t + 30000 < now))

-- Nothing is left that is due.
abbrev pub Drained : (now : ℕ) → List RealtimeRow → Type 0
Drained now rows = Every (λ r. ¬ IsDue now r) rows

Unclaimable : (now : ℕ) → List RealtimeRow → Type 0
Unclaimable now rows = Every (λ r. is_claimable now r ≡ false) rows

may_try-is_due :
    (v : Option ℕ) (t now : ℕ)
    → t ≤ now
    → (v ≡ none) ⊎ ((k : ℕ) × (v ≡ some k) × (k ≤ t))
    → is_due v now ≡ true
may_try-is_due v t now h (inl e) = ground (arith, e)
may_try-is_due v t now h (inr (k, e, le)) = ground (arith, e, le, h)

is_free-is_unclaimed :
    (v : Option ℕ) (t now : ℕ)
    → t ≤ now
    → (v ≡ none) ⊎ ((k : ℕ) × (v ≡ some k) × (k + 30000 < t))
    → is_unclaimed v now claim_timeout_seconds ≡ true
is_free-is_unclaimed v t now h (inl e) = ground (arith, e)
is_free-is_unclaimed v t now h (inr (k, e, lt)) = ground (arith, e, lt, h)

-- What is due at a time is claimable from then on.
IsDue-is_claimable : (t now : ℕ) (r : RealtimeRow) → t ≤ now → IsDue t r → is_claimable now r ≡ true
unfolding is_claimable
IsDue-is_claimable t now r h due = ground (
  arith,
  due.is_open.0,
  due.is_open.1,
  may_try-is_due r.next_attempt_at t now h due.may_try,
  is_free-is_unclaimed r.claimed_at t now h due.is_free,
)

Unclaimable-Drained :
    (t now : ℕ) (rows : List RealtimeRow) → t ≤ now → Unclaimable now rows → Drained t rows
unfolding Unclaimable
Unclaimable-Drained t now [] h none_left = tt
Unclaimable-Drained t now (r ∷ rows) h (out, none_left) = (
  λ due. ground (arith, IsDue-is_claimable t now r h due, out),
  Unclaimable-Drained t now rows h none_left,
)

-- A round, not before the time, in which the dispatcher does not stop, no other has locked a row, and
-- every delivery succeeds.
pub record IsHealthy (now : ℕ) (round : Round) : Type 0 where
  pub at_time : now ≤ round.now
  pub goes_on : round.stopping ≡ false
  pub unlocked : (id : ℕ) → round.locked id ≡ false
  pub delivers : (id : ℕ) → round.deliver id ≡ delivered

Every-and :
    (locked : ℕ → Bool) (now : ℕ) (rows : List RealtimeRow)
    → ((id : ℕ) → locked id ≡ false)
    → Every (λ r. (is_claimable now r && not (locked r.id)) ≡ false) rows
    → Unclaimable now rows
unfolding Unclaimable
Every-and locked now [] free h = tt
Every-and locked now (r ∷ rows) free h =
    (ground (arith, h.0, free r.id), Every-and locked now rows free h.1)

Every-none : (rows : List RealtimeRow) → Every (λ r. has_key realtime_key r.id [] ≡ false) rows
unfolding has_key
Every-none [] = tt
Every-none (r ∷ rows) = (refl, Every-none rows)

no_map : (f : RealtimeRow → RealtimeRow) (xs : List RealtimeRow) → map f xs ≡ [] → xs ≡ []
no_map f [] e = refl
no_map f (x ∷ xs) e = ground arith

-- A claim that takes nothing leaves the rows alone, and nothing of them was due.
claim_next_batch-Unclaimable :
    (locked : ℕ → Bool) (now token : ℕ) (rows : List RealtimeRow)
    → ((id : ℕ) → locked id ≡ false)
    → (claim_next_batch locked now token rows).0 ≡ []
    → Unclaimable now (claim_next_batch locked now token rows).1
unfolding claim_next_batch claim_rows
claim_next_batch-Unclaimable locked now token rows free e =
    let chosen = no_map (with_claim now token) _ e in
    let due =
      none_chosen locked now token rows
        (where_rows (λ r. is_claimable now r && not (locked r.id)) rows) chosen in
    rw
      (
        chosen,
        update_rows-none (λ r. has_key realtime_key r.id []) (with_claim now token) rows
            (Every-none rows),
      )
      (Every-and locked now rows free (where_rows-none _ rows due))

dispatch_rows-healthy :
    (deliver : ℕ → Delivery) (clock : ℕ → ℕ) (token : ℕ) (batch rows : List RealtimeRow)
    → ((id : ℕ) → deliver id ≡ delivered)
    → (dispatch_rows deliver clock token batch rows).1 ≡ false
unfolding dispatch_rows
dispatch_rows-healthy deliver clock token [] rows all = refl
dispatch_rows-healthy deliver clock token (r ∷ batch) rows all = ground (
  arith,
  all r.id,
  dispatch_rows-healthy deliver clock token batch
      (settle_delivery (deliver r.id) r.id token (clock r.id) rows) all,
)

abbrev pub rounds_given : List Round → ℕ
rounds_given [] = 0
rounds_given (r ∷ rs) = suc (rounds_given rs)

pub List-cases :
    (xs : List RealtimeRow)
    → (xs ≡ []) ⊎ ((x : RealtimeRow) × (rest : List RealtimeRow) × (xs ≡ x ∷ rest))
List-cases [] = inl refl
List-cases (x ∷ xs) = inr (x, xs, refl)

-- What a round claims, and what it leaves.
unfoldable pub claimed_in : Round → List RealtimeRow → List RealtimeRow × List RealtimeRow
claimed_in round rows = claim_next_batch round.locked round.now round.token rows

unfoldable pub sent_in : Round → List RealtimeRow → List RealtimeRow × Bool
unfolding claimed_in
sent_in round rows =
    let claimed = claimed_in round rows in
    dispatch_rows round.deliver round.clock round.token claimed.0 claimed.1

pub sent_in-lt :
    (round : Round) (rows : List RealtimeRow) (r : RealtimeRow) (batch : List RealtimeRow)
    → (claimed_in round rows).0 ≡ r ∷ batch
    → (sent_in round rows).1 ≡ false
    → unpublished (sent_in round rows).0 < unpublished rows
unfolding claimed_in sent_in
sent_in-lt round rows r batch e fine = ground (
  arith,
  claim_next_batch-unpublished round.locked round.now round.token rows,
  claim_next_batch-open round.locked round.now round.token rows r batch e,
  dispatch_rows-lt round.deliver round.clock round.token r batch
      (claim_next_batch round.locked round.now round.token rows).1,
)

-- If there are more rounds than rows that are not published, and no row is added between the
-- rounds, `dispatch_loop` returns, whatever the deliveries answer, the locks are and whenever
-- the dispatcher stops.
pub dispatch_loop-returns :
    (rounds : List Round) (rows : List RealtimeRow)
    → unpublished rows < rounds_given rounds
    → (rows' : List RealtimeRow) × (dispatch_loop rounds rows ≡ ok rows')
unfolding dispatch_loop claimed_in sent_in
dispatch_loop-returns [] rows h = ground arith
dispatch_loop-returns (round ∷ rounds) rows h = elim (Bool-cases round.stopping) [
  | inl stops ↦ (rows, ground (arith, stops))
  | inr goes_on ↦ elim (List-cases (claimed_in round rows).0) [
    | inl none_due ↦ ((claimed_in round rows).1, ground (arith, goes_on, none_due))
    | inr (r, batch, e) ↦ elim (Bool-cases (sent_in round rows).1) [
      | inl has_failure ↦ ((sent_in round rows).0, ground (arith, goes_on, e, has_failure))
      | inr fine ↦
          let rest =
            dispatch_loop-returns rounds (sent_in round rows).0
              (omega (arith, h, sent_in-lt round rows r batch e fine)) in
          (rest.0, ground (arith, goes_on, e, fine, rest.1))
    ]
  ]
]

-- For a time and rounds not before it in which the dispatcher does not stop, no row is locked
-- by others and every delivery succeeds, more of them than rows that are not published, and no
-- row is added between them: `dispatch_loop` returns rows none of which is due at that time,
-- that is neither published nor given up, without an attempt to wait for and not claimed in
-- the last 30 seconds.
pub dispatch_loop-Drained :
    (now : ℕ) (rounds : List Round) (rows : List RealtimeRow)
    → Every (IsHealthy now) rounds
    → unpublished rows < rounds_given rounds
    → (rows' : List RealtimeRow) × (dispatch_loop rounds rows ≡ ok rows') × Drained now rows'
unfolding dispatch_loop claimed_in sent_in
dispatch_loop-Drained now [] rows healthy h = ground arith
dispatch_loop-Drained now (round ∷ rounds) rows (well, healthy) h =
    elim (List-cases (claimed_in round rows).0) [
      | inl none_due ↦ (
        (claimed_in round rows).1,
        ground (arith, well.goes_on, none_due),
        Unclaimable-Drained now round.now _ well.at_time (
            claim_next_batch-Unclaimable round.locked round.now round.token rows well.unlocked
              none_due),
      )
      | inr (r, batch, e) ↦
          let fine =
            dispatch_rows-healthy round.deliver round.clock round.token (claimed_in round rows).0
              (claimed_in round rows).1 well.delivers in
          let rest =
            dispatch_loop-Drained now rounds (sent_in round rows).0 healthy
              (omega (arith, h, sent_in-lt round rows r batch e fine)) in
          (rest.0, ground (arith, well.goes_on, e, fine, rest.1), rest.2)
    ]
