-- ===== src/Outbox/Claims.antt =====
-- backend/src/realtime/realtime-outbox.repository.ts, `claimNextBatch`: a claim takes only rows that are
-- due and open, so the account of the attempts stays right.
use exchange_matching.Base.{
  zero, suc, ◌≡◌, ◌≢◌, refl, arith, List, [], ◌∷◌, true, false, Bool, ◌&&◌, not, ℕ, ◌∙◌, sym,
}
use exchange_matching.Outbox.{
  Every, update_rows, where_rows, insert_by, order_by, limit, has_key, claim_rows,
}
use exchange_matching.Outbox.Realtime.{
  RealtimeRow, realtime_key, is_claimable, with_claim, claim_next_batch, realtime_batch_size,
}
use exchange_matching.Outbox.Retries.{IsTracked, with_claim-IsTracked, one_row}

-- The primary key: no key stands twice.
abbrev pub Unique : List RealtimeRow → Type 0
Unique [] = Unit {0}
Unique (r ∷ rows) = Every (λ x. x.id ≢ r.id) rows × Unique rows

module _ (p : RealtimeRow → Bool) where
  where_rows-apart :
      (k : ℕ) (rows : List RealtimeRow)
      → Every (λ x. x.id ≢ k) rows
      → has_key realtime_key k (where_rows p rows) ≡ false
  unfolding where_rows has_key
  where_rows-apart k [] h = refl
  where_rows-apart k (x ∷ rows) h = ground (arith, h.0, where_rows-apart k rows h.1)

module _ {A : Type 0} (key : A → ℕ) where
  has_key-insert_by :
      (f : A → ℕ) (k : ℕ) (r : A) (rows : List A)
      → has_key key k (insert_by f r rows) ≡ has_key key k (r ∷ rows)
  unfolding insert_by has_key
  has_key-insert_by f k r [] = refl
  has_key-insert_by f k r (x ∷ rows) = ground (arith, has_key-insert_by f k r rows)

  pub has_key-order_by :
      (f : A → ℕ) (k : ℕ) (rows : List A) → has_key key k (order_by f rows) ≡ has_key key k rows
  unfolding order_by has_key
  has_key-order_by f k [] = refl
  has_key-order_by f k (x ∷ rows) =
      ground (arith, has_key-order_by f k rows, has_key-insert_by f k x (order_by f rows))

  pub has_key-limit :
      (n k : ℕ) (rows : List A) → has_key key k (limit n rows) ≡ true → has_key key k rows ≡ true
  unfolding limit has_key
  has_key-limit zero k rows h = cc
  has_key-limit (suc n) k [] h = h
  has_key-limit (suc n) k (x ∷ rows) h = ground (arith, has_key-limit n k rows)

  pub has_key-where :
      (p : A → Bool) (k : ℕ) (rows : List A)
      → has_key key k (where_rows p rows) ≡ true
      → has_key key k rows ≡ true
  unfolding where_rows has_key
  has_key-where p k [] h = h
  has_key-where p k (x ∷ rows) h = ground (arith, has_key-where p k rows)

-- A row that joins the chosen ones was chosen itself.
joined :
    (p : RealtimeRow → Bool) (r : RealtimeRow) (rows : List RealtimeRow)
    → Every (λ x. x.id ≢ r.id) rows
    → has_key realtime_key r.id (where_rows p (r ∷ rows)) ≡ true
    → p r ≡ true
unfolding where_rows has_key
joined p r rows apart h = ground (arith, where_rows-apart p r.id rows apart)

module _ (p : RealtimeRow → Bool) (P : RealtimeRow → Type 0) (f : RealtimeRow → RealtimeRow)
    (step : (x : RealtimeRow) → P x → p x ≡ true → P (f x)) (in_batch : RealtimeRow → Bool) where
  joined_later :
      (r x : RealtimeRow) (rows : List RealtimeRow)
      → x.id ≢ r.id
      → has_key realtime_key x.id (where_rows p (r ∷ rows)) ≡ true
      → has_key realtime_key x.id (where_rows p rows) ≡ true
  unfolding where_rows has_key
  joined_later r x rows n h = ground arith

  later :
      (r : RealtimeRow) (rows xs : List RealtimeRow)
      → Every (λ x. x.id ≢ r.id) xs
      → Every
          (λ x. in_batch x ≡ true → has_key realtime_key x.id (where_rows p (r ∷ rows)) ≡ true)
          xs
      → Every (λ x. in_batch x ≡ true → has_key realtime_key x.id (where_rows p rows) ≡ true) xs
  later r rows [] n j = tt
  later r rows (x ∷ xs) n j = (λ c. joined_later r x rows n.0 (j.0 c), later r rows xs n.1 j.1)

  update_joined :
      (rows : List RealtimeRow)
      → Every P rows
      → Unique rows
      → Every (λ x. in_batch x ≡ true → has_key realtime_key x.id (where_rows p rows) ≡ true) rows
      → Every P (update_rows in_batch f rows)
  unfolding update_rows
  update_joined [] h u j = tt
  update_joined (r ∷ rows) h u j = (
    one_row P (in_batch r) r (f r) h.0 (λ c. step r h.0 (joined p r rows u.0 (j.0 c))),
    update_joined rows h.1 u.1 (later r rows rows u.0 j.1),
  )

pub Every-all :
    {P : RealtimeRow → Type 0} → ((x : RealtimeRow) → P x) → (xs : List RealtimeRow) → Every P xs
Every-all f [] = tt
Every-all f (x ∷ xs) = (f x, Every-all f xs)

is_claimable-and :
    (now : ℕ) (r : RealtimeRow) (b : Bool)
    → (is_claimable now r && b) ≡ true
    → is_claimable now r ≡ true
is_claimable-and now r b h = ground arith

-- For rows with unique ids that are all tracked - at most ten attempts, given up exactly at
-- the tenth, claimed only while neither published nor given up - the rows are all tracked
-- after `claim_next_batch`, whatever others have locked.
pub claim_next_batch-IsTracked :
    (locked : ℕ → Bool) (now token : ℕ) (rows : List RealtimeRow)
    → Unique rows
    → Every IsTracked rows
    → Every IsTracked (claim_next_batch locked now token rows).1
unfolding claim_next_batch claim_rows
claim_next_batch-IsTracked locked now token rows u h =
    update_joined (λ r. is_claimable now r && not (locked r.id)) IsTracked (with_claim now token)
      (λ r t c. with_claim-IsTracked now token r t (is_claimable-and now r (not (locked r.id)) c)) _
      rows h u
      (Every-all
        (λ x c.
          sym (has_key-order_by realtime_key _ x.id _)
          ∙ has_key-limit realtime_key realtime_batch_size x.id _ c)
        rows)
