-- ===== src/OrderBook/Seen.antt =====
-- The loop of `findAndLockEligibleMakers` in backend/src/matching/matching-order-book.service.ts comes past
-- each order of the book, and takes it if it is eligible.
use exchange_matching.Base.{
  ℕ, zero, suc, ◌-◌, ◌≡◌, ◌⊎◌, inl, inr, refl, sym, ap, ◌∙◌, arith, true, false, pos, ℤ, ok, List,
  [], ◌∷◌, ◌++◌, Option, some, Option-cases, Bool-cases, Bool, Result, ltb, if◌then◌else◌,
}
use exchange_matching.Table.{find}
use exchange_matching.Decimal.Laws.{cost}
use exchange_matching.Database.{Db, Order, Side, buy, sell, order_key}
use exchange_matching.OrderBook.Candidates.{
  MakerCursor, cursor_at, is_behind, is_past, is_resting, is_candidate, is_eligible_maker,
  find_next_candidate, consider,
}
use exchange_matching.OrderBook.Rules.{covered, left_over}
use exchange_matching.OrderBook.Query.{
  find_next_candidate-find, find_next_candidate-is_candidate, find_next_candidate-not_behind,
}
use exchange_matching.OrderBook.Found.{
  Searching, searched, consider-Searching, consider-taken, taken_left,
}
use exchange_matching.OrderBook.Complete.{next_candidate-some}
use exchange_matching.OrderBook.{Waits, Search, next_candidate, search_makers}
use exchange_matching.Ledger.Waiting.{Quiet, Isolated}
use exchange_matching.Matching.Rounds.{amount_of}

abbrev pub Each : (Order → Type 0) → List Order → Type 0
Each P [] = Unit {0}
Each P (o ∷ os) = P o × Each P os

abbrev pub Among : Order → List Order → Type 0
Among y [] = ⊥
Among y (m ∷ ms) = (m ≡ y) ⊎ Among y ms

-- The unique index on the sequence numbers.
pub record IsSequenced (os : List Order) : Type 0 where
  pub unique :
      (i j : ℕ) (x y : Order)
      → find order_key i os ≡ some x
      → find order_key j os ≡ some y
      → x.sequence ≡ y.sequence
      → i ≡ j

Among-append : (y m : Order) (ms : List Order) → Among y ms → Among y (ms ++ m ∷ [])
Among-append y m [] h = absurd h
Among-append y m (x ∷ ms) (inl e) = inl e
Among-append y m (x ∷ ms) (inr h) = inr (Among-append y m ms h)

Among-last : (m : Order) (ms : List Order) → Among m (ms ++ m ∷ [])
Among-last m [] = inl refl
Among-last m (x ∷ ms) = inr (Among-last m ms)

left_over-append :
    (n : ℕ) (m : Order) (ms : List Order)
    → left_over n (ms ++ m ∷ []) ≡ left_over n ms - covered (left_over n ms) m
left_over-append n m [] = refl
left_over-append n m (x ∷ ms) = left_over-append (n - covered n x) m ms

-- No two resting rows have the same number.
unfoldable pub RestSequenced : Db → Type 0
RestSequenced d =
    (i j : ℕ) (x y : Order)
    → find order_key i d.orders ≡ some x
    → find order_key j d.orders ≡ some y
    → is_resting x.status ≡ true
    → is_resting y.status ≡ true
    → x.sequence ≡ y.sequence
    → i ≡ j

-- Every maker that the search has come past is among those that it took.
pub record Seen (taker : Order) (s : Search) (n : ℕ) (d : Db) : Type 0 where
  pub sequenced : RestSequenced d
  pub left_eq : n ≡ left_over taker.remaining_amount s.makers
  pub seen :
      (j : ℕ) (y : Order)
      → find order_key j d.orders ≡ some y
      → is_eligible_maker taker y ≡ true
      → Among y s.makers ⊎ (is_past taker.side s.cursor y ≡ true)

eligible-resting : (taker y : Order) → is_eligible_maker taker y ≡ true → is_resting y.status ≡ true
unfolding is_eligible_maker
eligible-resting taker y h = ground (arith, h)

candidate-resting :
    (taker y : Order) (c : Option MakerCursor)
    → is_candidate taker c y ≡ true
    → is_resting y.status ≡ true
unfolding is_candidate
candidate-resting taker y c h = ground (arith, h)

pub eligible-candidate :
    (taker y : Order) (c : Option MakerCursor)
    → is_eligible_maker taker y ≡ true
    → is_past taker.side c y ≡ true
    → is_candidate taker c y ≡ true
unfolding is_eligible_maker is_candidate
eligible-candidate taker y c h p = ground (arith, h, p)

same_sequence :
    (s : Side) (c y : Order)
    → is_behind s c.price c.sequence (cursor_at y) ≡ false
    → is_behind s y.price y.sequence (cursor_at c) ≡ false
    → c.sequence ≡ y.sequence
same_sequence buy c y h k = ground (arith, h, k)
same_sequence sell c y h k = ground (arith, h, k)

some_eq : (a b : Order) → some a ≡ some b → a ≡ b
some_eq a b e = cc

less_if : (b : Bool) (n q : ℕ) → (if b then n - q else n) ≡ n - (if b then q else 0)
less_if true n q = refl
less_if false n q = omega arith

round_eq :
    (m n : ℕ) (xs ys : List Order)
    → (let r : Result (ℤ × List Order) = ok (pos m, xs) in r ≡ ok (pos n, ys))
    → (m ≡ n) × (xs ≡ ys)
round_eq m n xs ys e = (ground (arith, e), cc)

module _ (taker : Order) (s : Search) (n : ℕ) (d d' : Db) (c : Order) (quiet : Quiet s.locked d d')
    (here : Searching taker s n d) (before : Seen taker s n d)
    (next : find_next_candidate taker s.cursor d.orders ≡ some c) where
  still_sequenced : RestSequenced d'
  unfolding RestSequenced
  still_sequenced i j x y f g rx ry e =
      before.sequenced i j x y (quiet.rests_before i x f rx) (quiet.rests_before j y g ry) rx ry e

  -- A maker of now is one of those taken, or behind the candidate, or the candidate itself.
  came_past :
      (j : ℕ) (y : Order)
      → find order_key j d'.orders ≡ some y
      → is_eligible_maker taker y ≡ true
      → Among y s.makers ⊎ ((is_past taker.side (some (cursor_at c)) y ≡ true) ⊎ (c.id ≡ j))
  unfolding RestSequenced
  came_past j y row may =
      let rests = eligible-resting taker y may in
      let old = quiet.rests_before j y row rests in
      elim (before.seen j y old may) [
        | inl among ↦ inl among
        | inr past ↦
            let is_one = eligible-candidate taker y s.cursor may past in
            let first =
              find_next_candidate-not_behind taker s.cursor d.orders c j y next old is_one in
            inr (elim (Bool-cases (is_past taker.side (some (cursor_at c)) y)) [
              | inl behind ↦ inl behind
              | inr level ↦
                  let c_row =
                    find_next_candidate-find taker s.cursor d.orders c
                      here.running.valid.sound.distinct next in
                  let c_rests =
                    candidate-resting taker c s.cursor
                      (find_next_candidate-is_candidate taker s.cursor d.orders c next) in
                  inr (
                    before.sequenced c.id j c y c_row old c_rests rests
                      (same_sequence taker.side c y first level))
            ])
      ]

  passed-Seen :
      ((y : Order) → find order_key c.id d'.orders ≡ some y → is_eligible_maker taker y ≡ false)
      → Seen taker (searched s c (pos n) s.makers) n d'
  passed-Seen out = record {
    sequenced = still_sequenced;
    left_eq = before.left_eq;
    seen = λ j y row may. elim (came_past j y row may) [
      | inl among ↦ inl among
      | inr (inl behind) ↦ inr behind
      | inr (inr itself) ↦
          let here_row : find order_key c.id d'.orders ≡ some y =
            ap (λ (k : ℕ). find order_key k d'.orders) itself ∙ row in
          let no = out y here_row in ground (arith, may, no)
    ];
  }

  taken-Seen :
      (n' : ℕ) (maker : Order)
      → n' ≡ n - covered n maker
      → find order_key c.id d'.orders ≡ some maker
      → Seen taker (searched s c (pos n') (s.makers ++ maker ∷ [])) n' d'
  taken-Seen n' maker e reloaded = record {
    sequenced = still_sequenced;
    left_eq =
        e
        ∙ ap (λ (k : ℕ). k - covered k maker) before.left_eq
        ∙ sym (left_over-append taker.remaining_amount maker s.makers);
    seen = λ j y row may. elim (came_past j y row may) [
      | inl among ↦ inl (Among-append y maker s.makers among)
      | inr (inl behind) ↦ inr behind
      | inr (inr itself) ↦
          let same : maker ≡ y =
            some_eq maker y
              (sym reloaded ∙ ap (λ (k : ℕ). find order_key k d'.orders) itself ∙ row) in
          inl (rw⁻¹ same (Among-last maker s.makers))
    ];
  }

  retake :
      (n₁ n₂ : ℕ) (ms₁ ms₂ : List Order)
      → n₁ ≡ n₂
      → ms₁ ≡ ms₂
      → Seen taker (searched s c (pos n₁) ms₁) n₁ d'
      → Seen taker (searched s c (pos n₂) ms₂) n₂ d'
  retake n₁ n₂ ms₁ ms₂ e f seen = record {
    sequenced = seen.sequenced;
    left_eq = sym e ∙ seen.left_eq ∙ ap (left_over taker.remaining_amount) f;
    seen = λ j y row may. rw⁻¹ f (seen.seen j y row may);
  }

  -- A round.
  consider-Seen :
      (n' : ℕ) (ms : List Order)
      → consider taker (find order_key c.id d'.orders) s.remaining s.makers ≡ ok (pos n', ms)
      → Seen taker (searched s c (pos n') ms) n' d'
  unfolding consider
  consider-Seen n' ms went = elim (Option-cases (find order_key c.id d'.orders)) [
    | inl gone ↦
        let (e, f) = round_eq n n' s.makers ms (ground (arith, gone, here.budget, went)) in
        retake n n' s.makers ms e f (passed-Seen (λ y row. ground (arith, gone, row)))
    | inr (maker, row) ↦ elim (Bool-cases (is_eligible_maker taker maker)) [
      | inr unfit ↦
          let (e, f) = round_eq n n' s.makers ms (ground (arith, row, unfit, here.budget, went)) in
          retake n n' s.makers ms e f
            (passed-Seen (λ y found. rw⁻¹ (some_eq maker y (sym row ∙ found)) unfit))
      | inl may ↦
          let left = taken_left taker s n d d' c quiet here next maker row may in
          let q = amount_of n maker.remaining_amount in
          let taken = consider-taken taker s n d d' c quiet here next maker row may in
          let (e, f) = round_eq left n' (s.makers ++ maker ∷ []) ms (sym taken ∙ went) in
          retake left n' (s.makers ++ maker ∷ []) ms e f
            (taken-Seen left maker (less_if (ltb 0 (cost q maker.price)) n q) row)
    ]
  ]

module _ (waits : Waits) (iso : Isolated waits) (taker : Order) where
  -- The end of a search.
  pub record Ended (r : Search × Db) : Type 0 where
    pub n : ℕ
    pub budget : r.0.remaining ≡ pos n
    pub seen : Seen taker r.0 n r.1

  pub search_makers-Seen :
      (fuel : ℕ) (s : Search) (n : ℕ) (d : Db) (r : Search × Db)
      → Searching taker s n d
      → Seen taker s n d
      → search_makers waits taker fuel s d ≡ ok r
      → Ended r
  unfolding search_makers
  search_makers-Seen zero s n d r here seen e = cc
  search_makers-Seen (suc fuel) s n d r here seen e =
      elim (Option-cases (next_candidate waits taker s d)) [
        | inl end ↦
            let same : (s, d) ≡ r = ok_eq (s, d) r (ground (arith, e, end)) in
            rw⁻¹ same (record { n = n; budget = here.budget; seen = seen })
        | inr (c, more) ↦
            let next = next_candidate-some waits iso taker s d c more in
            let d' = waits.for_order s.locked c.id d in
            let quiet = iso.order_wait s.locked c.id _ _ d here.running.valid in
            let (n', ms, went, state) = consider-Searching taker s n d d' c quiet here next in
            let seen' = consider-Seen taker s n d d' c quiet here seen next n' ms went in
            search_makers-Seen fuel (searched s c (pos n') ms) n' d' r state seen'
              (ground (arith, e, more, went))
      ]
    where
      ok_eq : (a b : Search × Db) → ok a ≡ ok b → a ≡ b
      ok_eq a b e = cc
