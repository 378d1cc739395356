-- ===== src/OrderBook/Found.antt =====
-- The search for makers, whole: with fuel for the candidates it returns, and the makers that it returns
-- are eligible, locked, and in strict price-time priority, whatever others commit meanwhile.
use exchange_matching.Base.{
  ℕ, ◌≤◌, ◌≡◌, refl, ap, ◌∙◌, pos, ok, true, false, arith, List, [], ◌∷◌, ◌++◌, Option, none, some,
  inl, inr, Bool-cases, Option-cases, ℤ,
}
use exchange_matching.Table.{find, find-key}
use exchange_matching.Database.{Db, Order, Side, buy, sell, order_key}
use exchange_matching.OrderBook.Candidates.{
  MakerCursor, cursor_at, is_behind, is_past, is_eligible_maker, consider, find_next_candidate,
}
use exchange_matching.OrderBook.Priority.{
  InPriority, InPriority-append, NonePast, NonePast-BehindAll, BehindAll-NonePast, NonePast-append,
}
use exchange_matching.OrderBook.Query.{
  find_next_candidate-is_candidate, find_next_candidate-find, is_candidate-is_past,
}
use exchange_matching.OrderBook.Round.{Makers-append, left_after, cover-eq}
use exchange_matching.OrderBook.{Search}
use exchange_matching.Ledger.Waiting.{Quiet}
use exchange_matching.Matching.{contains}
use exchange_matching.Matching.Rounds.{Running, Found}
use exchange_matching.Matching.Run.{Makers}

contains-cons : (j k : ℕ) (xs : List ℕ) → contains j xs ≡ true → contains j (k ∷ xs) ≡ true
unfolding contains
contains-cons j k xs h = ground arith

contains_self : (k : ℕ) (xs : List ℕ) → contains k (k ∷ xs) ≡ true
unfolding contains
contains_self k xs = ground arith

-- What holds of the search when it has come to `s`, with `n` still to cover.
pub record Searching (taker : Order) (s : Search) (n : ℕ) (d : Db) : Type 0 where
  pub running : Running taker s.locked taker.remaining_amount 0 d
  pub budget : s.remaining ≡ pos n
  pub within : n ≤ taker.remaining_amount
  pub makers : Makers taker s.locked d s.makers
  pub ordered : InPriority taker.side s.makers
  pub none_past : NonePast taker.side s.cursor s.makers

-- The makers found so far, behind a wait and with one more row locked.
Makers-wait :
    (taker : Order) (locked : List ℕ) (id : ℕ) (d d' : Db) (ms : List Order)
    → Quiet locked d d'
    → Makers taker locked d ms
    → Makers taker (id ∷ locked) d' ms
Makers-wait taker locked id d d' [] q h = tt
Makers-wait taker locked id d d' (m ∷ ms) q h = (
  record {
    row = q.keeps_rows m.id m h.0.held h.0.row;
    held = contains-cons m.id id locked h.0.held;
    eligible = h.0.eligible;
  },
  h.1,
  Makers-wait taker locked id d d' ms q h.2,
)

Running-wait :
    (taker : Order) (locked : List ℕ) (id r k : ℕ) (d d' : Db)
    → Quiet locked d d'
    → Running taker locked r k d
    → Running taker (id ∷ locked) r k d'
Running-wait taker locked id r k d d' q run = record {
  valid = q.keeps_valid taker _ run.valid;
  taker_row = q.keeps_rows taker.id taker run.taker_locked run.taker_row;
  taker_locked = contains-cons taker.id id locked run.taker_locked;
  taker_queued = run.taker_queued;
  split = run.split;
}

-- The search behind the reload of the candidate's row.
abbrev pub searched : Search → Order → ℤ → List Order → Search
searched s c remaining makers = record {
  cursor = some (cursor_at c);
  remaining = remaining;
  makers = makers;
  locked = c.id ∷ s.locked;
}

is_past-place :
    (side : Side) (cursor : Option MakerCursor) (c x : Order)
    → (x.price ≡ c.price) × (x.sequence ≡ c.sequence)
    → is_past side cursor c ≡ true
    → is_past side cursor x ≡ true
is_past-place side none c x e h = refl
is_past-place buy (some k) c x e h = ground (arith, e, h)
is_past-place sell (some k) c x e h = ground (arith, e, h)

not_behind-place :
    (side : Side) (c x : Order)
    → (x.price ≡ c.price) × (x.sequence ≡ c.sequence)
    → is_behind side x.price x.sequence (cursor_at c) ≡ false
not_behind-place buy c x e = ground (arith, e)
not_behind-place sell c x e = ground (arith, e)

module _ (taker : Order) (s : Search) (n : ℕ) (d d' : Db) (c : Order) (quiet : Quiet s.locked d d')
    (here : Searching taker s n d)
    (next : find_next_candidate taker s.cursor d.orders ≡ some c) where
  past : is_past taker.side s.cursor c ≡ true
  past =
      is_candidate-is_past taker s.cursor d.orders c c
        (find_next_candidate-is_candidate taker s.cursor d.orders c next)

  -- The candidate is gone, or no maker any more.
  passed : Searching taker (searched s c (pos n) s.makers) n d'
  passed = record {
    running = Running-wait taker s.locked c.id _ _ d d' quiet here.running;
    budget = refl;
    within = here.within;
    makers = Makers-wait taker s.locked c.id d d' s.makers quiet here.makers;
    ordered = here.ordered;
    none_past =
        BehindAll-NonePast taker.side c s.makers
          (NonePast-BehindAll taker.side s.cursor c s.makers here.none_past past);
  }

  -- The candidate is a maker: it stands where the candidate stood, behind all makers before it.
  module _ (maker : Order) (reloaded : find order_key c.id d'.orders ≡ some maker)
      (eligible : is_eligible_maker taker maker ≡ true) where
    same_place : (maker.price ≡ c.price) × (maker.sequence ≡ c.sequence)
    same_place =
        quiet.keeps_place c.id c maker
          (find_next_candidate-find taker s.cursor d.orders c here.running.valid.sound.distinct
            next)
          reloaded

    pub running' : Running taker (c.id ∷ s.locked) taker.remaining_amount 0 d'
    running' = Running-wait taker s.locked c.id _ _ d d' quiet here.running

    pub taken_in_book : Found taker maker (c.id ∷ s.locked) d'
    taken_in_book =
        let e = find-key order_key c.id d'.orders maker reloaded in
        record {
          row = ap (λ (k : ℕ). find order_key k d'.orders) e ∙ reloaded;
          held = ap (λ (k : ℕ). contains k (c.id ∷ s.locked)) e ∙ contains_self c.id s.locked;
          eligible = eligible;
        }

    abbrev pub taken_left : ℕ
    taken_left = left_after taker maker (c.id ∷ s.locked) n d' running' taken_in_book here.within

    taken_up :
        Searching taker (searched s c (pos taken_left) (s.makers ++ maker ∷ [])) taken_left d'
    taken_up =
        let behind =
          NonePast-BehindAll taker.side s.cursor maker s.makers here.none_past
            (is_past-place taker.side s.cursor c maker same_place past) in
        record {
          running = running';
          budget = refl;
          within = ground (arith, here.within);
          makers =
              Makers-append taker (c.id ∷ s.locked) d' maker s.makers
                (Makers-wait taker s.locked c.id d d' s.makers quiet here.makers) taken_in_book
                behind;
          ordered = InPriority-append taker.side maker s.makers here.ordered behind;
          none_past =
              NonePast-append taker.side (cursor_at c) maker s.makers
                (BehindAll-NonePast taker.side c s.makers
                  (NonePast-BehindAll taker.side s.cursor c s.makers here.none_past past))
                (not_behind-place taker.side c maker same_place);
        }

    pub consider-taken :
        consider taker (find order_key c.id d'.orders) s.remaining s.makers
        ≡ ok (pos taken_left, s.makers ++ maker ∷ [])
    unfolding consider
    consider-taken = ground (
      arith,
      reloaded,
      eligible,
      here.budget,
      cover-eq taker maker (c.id ∷ s.locked) n d' running' taken_in_book here.within,
    )

  -- A round goes through, and the search goes on from the candidate.
  pub consider-Searching :
      (n' : ℕ) × (ms : List Order) × (consider taker
          (find order_key c.id d'.orders)
          s.remaining
          s.makers
        ≡ ok (pos n', ms))
      × Searching taker (searched s c (pos n') ms) n' d'
  unfolding consider
  consider-Searching = elim (Option-cases (find order_key c.id d'.orders)) [
    | inl gone ↦ (n, s.makers, ground (arith, gone, here.budget), passed)
    | inr (maker, e) ↦ elim (Bool-cases (is_eligible_maker taker maker)) [
      | inl eligible ↦ (
        taken_left maker e eligible,
        s.makers ++ maker ∷ [],
        consider-taken maker e eligible,
        taken_up maker e eligible,
      )
      | inr not ↦ (n, s.makers, ground (arith, e, not, here.budget), passed)
    ]
  ]
