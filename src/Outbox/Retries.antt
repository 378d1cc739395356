-- ===== src/Outbox/Retries.antt =====
-- backend/src/realtime/realtime-outbox.repository.ts: the attempts at a row are counted, backed off and
-- bounded, and what was published or given up is never claimed.
use exchange_matching.Base.{
  suc, ◌≤◌, ◌≡◌, refl, arith, List, [], ◌∷◌, true, false, Bool, ltb, ◌&&◌, ◌||◌, pow_positive,
  if◌then◌else◌, ℕ,
}
use exchange_matching.Outbox.{
  Every, update_rows, where_rows, is_null, Delivery, delivered, failed, stuck, holds,
}
use exchange_matching.Outbox.Realtime.{
  RealtimeRow, max_attempts, max_retry_delay_ms, retry_delay_ms, retry_delay, is_claimable,
  with_claim, is_claimed_by, published, mark_as_published, released_row, release_claim,
  dispatch_rows, settle_delivery,
}

-- For every count of attempts, the delay is at least 2000 and at most 60000 milliseconds, and
-- the delay of the next count is no less.
pub retry_delay_bounds :
    (n : ℕ)
    → (retry_delay_ms ≤ retry_delay n)
      × (retry_delay n ≤ max_retry_delay_ms)
      × (retry_delay n ≤ retry_delay (suc n))
unfolding retry_delay
retry_delay_bounds n = ground (arith, pow_positive 2 n (ground arith))

-- A row was tried at most ten times, is given up exactly at the tenth, and is claimed only while it is
-- neither published nor given up.
pub record IsTracked (r : RealtimeRow) : Type 0 where
  pub bounded : r.attempt_count ≤ max_attempts
  pub given_up : is_null r.dead_lettered_at ≡ ltb r.attempt_count max_attempts
  pub claim_is_open :
      (is_null r.claim_token || is_null r.published_at && is_null r.dead_lettered_at) ≡ true

holds-is_null :
    (r : RealtimeRow) (t : ℕ) → holds r.claim_token t ≡ true → is_null r.claim_token ≡ false
holds-is_null r t h = ground arith

published-IsTracked :
    (id token now : ℕ) (r : RealtimeRow)
    → IsTracked r
    → is_claimed_by id token r ≡ true
    → IsTracked (published now r)
published-IsTracked id token now r t c = record {
  bounded = t.bounded;
  given_up = t.given_up;
  claim_is_open = refl;
}

released_row-IsTracked :
    (id token now : ℕ) (r : RealtimeRow)
    → IsTracked r
    → is_claimed_by id token r ≡ true
    → IsTracked (released_row now r)
unfolding released_row
released_row-IsTracked id token now r t c =
    let claimed : is_null r.claim_token ≡ false = ground (arith, holds-is_null r token) in
    record {
      bounded = ground (arith, claimed, t.given_up, t.claim_is_open);
      given_up = ground arith;
      claim_is_open = refl;
    }

pub with_claim-IsTracked :
    (now token : ℕ) (r : RealtimeRow)
    → IsTracked r
    → is_claimable now r ≡ true
    → IsTracked (with_claim now token r)
unfolding is_claimable
with_claim-IsTracked now token r t c = record {
  bounded = t.bounded;
  given_up = t.given_up;
  claim_is_open = ground arith;
}

module _ {A : Type 0} where
  pub one_row :
      (P : A → Type 0) (b : Bool) (x y : A) → P x → (b ≡ true → P y) → P (if b then y else x)
  one_row P true x y h k = k refl
  one_row P false x y h k = h

  pub update_rows-Every :
      (P : A → Type 0) (p : A → Bool) (f : A → A)
      → ((x : A) → P x → p x ≡ true → P (f x))
      → (xs : List A) → Every P xs
      → Every P (update_rows p f xs)
  unfolding update_rows
  update_rows-Every P p f step [] h = tt
  update_rows-Every P p f step (x ∷ xs) h =
      (one_row P (p x) x (f x) h.0 (step x h.0), update_rows-Every P p f step xs h.1)

  kept :
      (P : A → Type 0) (b : Bool) (x : A) (xs : List A)
      → P x
      → Every P xs
      → Every P (if b then x ∷ xs else xs)
  kept P true x xs h k = (h, k)
  kept P false x xs h k = k

  -- What is so of every row is so of every row that stays.
  pub where_rows-Every :
      (P : A → Type 0) (p : A → Bool) (xs : List A) → Every P xs → Every P (where_rows p xs)
  unfolding where_rows
  where_rows-Every P p [] h = tt
  where_rows-Every P p (x ∷ xs) h =
      kept P (p x) x (where_rows p xs) h.0 (where_rows-Every P p xs h.1)

pub mark_as_published-IsTracked :
    (id token now : ℕ) (rows : List RealtimeRow)
    → Every IsTracked rows
    → Every IsTracked (mark_as_published id token now rows)
unfolding mark_as_published
mark_as_published-IsTracked id token now rows h =
    update_rows-Every IsTracked _ _ (published-IsTracked id token now) rows h

pub release_claim-IsTracked :
    (id token now : ℕ) (rows : List RealtimeRow)
    → Every IsTracked rows
    → Every IsTracked (release_claim id token now rows)
unfolding release_claim
release_claim-IsTracked id token now rows h =
    update_rows-Every IsTracked _ _ (released_row-IsTracked id token now) rows h

settle_delivery-IsTracked :
    (a : Delivery) (id token now : ℕ) (rows : List RealtimeRow)
    → Every IsTracked rows
    → Every IsTracked (settle_delivery a id token now rows)
unfolding settle_delivery
settle_delivery-IsTracked delivered id token now rows h =
    mark_as_published-IsTracked id token now rows h
settle_delivery-IsTracked (failed reached) id token now rows h =
    release_claim-IsTracked id token now rows h
settle_delivery-IsTracked (stuck reached) id token now rows h = h

-- For rows that are all tracked - at most ten attempts, given up exactly at the tenth, claimed
-- only while neither published nor given up - the rows are all tracked after `dispatch_rows`,
-- for every batch and however each delivery ends.
pub dispatch_rows-IsTracked :
    (deliver : ℕ → Delivery) (clock : ℕ → ℕ) (token : ℕ) (batch rows : List RealtimeRow)
    → Every IsTracked rows
    → Every IsTracked (dispatch_rows deliver clock token batch rows).0
unfolding dispatch_rows
dispatch_rows-IsTracked deliver clock token [] rows h = h
dispatch_rows-IsTracked deliver clock token (r ∷ batch) rows h =
    dispatch_rows-IsTracked deliver clock token batch _
      (settle_delivery-IsTracked (deliver r.id) r.id token (clock r.id) rows h)
