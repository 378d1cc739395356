-- ===== src/Outbox/Fencing.antt =====
-- A dispatcher whose claim has been taken over changes nothing: the statements of both outboxes ask for
-- the token of the claim.
use exchange_matching.Base.{
  ℕ, ◌≡◌, ◌≢◌, refl, ap, arith, Option, none, List, [], ◌∷◌, some, true, false, Bool, not,
}
use exchange_matching.Outbox.{Every, update_rows, where_rows, holds}
use exchange_matching.Outbox.Realtime.{RealtimeRow, mark_as_published, release_claim, is_claimed_by}
use exchange_matching.Outbox.Queue.{
  QueueRow, remove_claimed_row, release_queue_claim, is_queue_claimed_by,
}

module _ {A : Type 0} where
  pub update_rows-none :
      (p : A → Bool) (f : A → A) (xs : List A)
      → Every (λ x. p x ≡ false) xs
      → update_rows p f xs ≡ xs
  unfolding update_rows
  update_rows-none p f [] h = refl
  update_rows-none p f (x ∷ xs) h = ground (arith, h.0, update_rows-none p f xs h.1)

  where_rows-all : (p : A → Bool) (xs : List A) → Every (λ x. p x ≡ true) xs → where_rows p xs ≡ xs
  unfolding where_rows
  where_rows-all p [] h = refl
  where_rows-all p (x ∷ xs) h = ground (arith, h.0, where_rows-all p xs h.1)

  Every-map : {P Q : A → Type 0} → ((x : A) → P x → Q x) → (xs : List A) → Every P xs → Every Q xs
  Every-map f [] h = tt
  Every-map f (x ∷ xs) h = (f x h.0, Every-map f xs h.1)

holds-other : (c : Option ℕ) (token : ℕ) → c ≢ some token → holds c token ≡ false
holds-other none token n = refl
holds-other (some m) token n = let ne : m ≢ token = λ e. n (ap some e) in ground arith

is_claimed_by-other :
    (id token : ℕ) (r : RealtimeRow) → r.claim_token ≢ some token → is_claimed_by id token r ≡ false
is_claimed_by-other id token r n = ground (arith, holds-other r.claim_token token n)

is_queue_claimed_by-other :
    (id token : ℕ) (r : QueueRow)
    → r.claim_token ≢ some token
    → is_queue_claimed_by id token r ≡ false
is_queue_claimed_by-other id token r n = ground (arith, holds-other r.claim_token token n)

not-false : {b : Bool} → b ≡ false → not b ≡ true
not-false h = ground arith

-- If no row is claimed with the token, marking a row as published with it changes nothing, and
-- neither does releasing one.
pub realtime_fenced :
    (id token now : ℕ) (rows : List RealtimeRow)
    → Every (λ r. r.claim_token ≢ some token) rows
    → (mark_as_published id token now rows ≡ rows) × (release_claim id token now rows ≡ rows)
unfolding mark_as_published release_claim
realtime_fenced id token now rows h =
    let other = Every-map (is_claimed_by-other id token) rows h in
    (update_rows-none _ _ rows other, update_rows-none _ _ rows other)

-- If no row is claimed with the token, removing a row with it changes nothing, and neither
-- does releasing one.
pub queue_fenced :
    (id token now : ℕ) (rows : List QueueRow)
    → Every (λ r. r.claim_token ≢ some token) rows
    → (remove_claimed_row id token rows ≡ rows) × (release_queue_claim id token now rows ≡ rows)
unfolding remove_claimed_row release_queue_claim
queue_fenced id token now rows h =
    let other = Every-map (is_queue_claimed_by-other id token) rows h in
    (
      where_rows-all _ rows (Every-map (λ r e. not-false e) rows other),
      update_rows-none _ _ rows other,
    )
