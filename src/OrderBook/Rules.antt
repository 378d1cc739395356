-- ===== src/OrderBook/Rules.antt =====
-- The rules of the book, as the exchange states them and apart from the code of
-- backend/src/matching/matching-order-book.service.ts: who may trade with a taker, and who comes first.
use exchange_matching.Base.{
  ℕ, ◌-◌, ◌≤◌, ◌<◌, ◌≡◌, ◌≢◌, ◌⊎◌, inl, inr, refl, arith, true, false, List, [], ◌∷◌, Option, none,
  some, if◌then◌else◌,
}
use exchange_matching.Database.{Order, Side, buy, sell, Status, opened, partially_filled}
use exchange_matching.Decimal.Laws.{cost}
use exchange_matching.OrderBook.Candidates.{
  MakerCursor, cursor_at, is_resting, opposes, crosses, is_behind, is_past, is_candidate,
  is_eligible_maker,
}

-- A buyer pays at most the own limit, a seller takes at least it.
abbrev pub Accepts : Side → (limit price : ℕ) → Type 0
Accepts buy limit price = price ≤ limit
Accepts sell limit price = limit ≤ price

abbrev pub Rests : Status → Type 0
Rests s = (s ≡ opened) ⊎ (s ≡ partially_filled)

-- An order of another user on the other side that rests in the book at a price the taker accepts.
pub record Faces (taker o : Order) : Type 0 where
  pub opposed : o.side ≢ taker.side
  pub strangers : o.user_id ≢ taker.user_id
  pub rests : Rests o.status
  pub accepted : Accepts taker.side taker.price o.price

-- Behind a place: for a buyer at a higher price, for a seller at a lower one, or later at the same.
abbrev pub Behind : Side → (price sequence : ℕ) → MakerCursor → Type 0
Behind buy p s c = (c.price < p) ⊎ ((p ≡ c.price) × (c.sequence < s))
Behind sell p s c = (p < c.price) ⊎ ((p ≡ c.price) × (c.sequence < s))

abbrev pub Past : Side → Option MakerCursor → Order → Type 0
Past side none o = Unit {0}
Past side (some c) o = Behind side o.price o.sequence c

-- At a better price, or at the same price and not later.
abbrev pub NotBehind : Side → Order → Order → Type 0
NotBehind buy a b = (a.price < b.price) ⊎ ((a.price ≡ b.price) × (a.sequence ≤ b.sequence))
NotBehind sell a b = (b.price < a.price) ⊎ ((a.price ≡ b.price) × (a.sequence ≤ b.sequence))

-- What is left of an amount when makers cover it one after the other: each covers what it has, or the
-- rest, and nothing if that would cost nothing.
abbrev pub covered : (n : ℕ) → Order → ℕ
covered n o =
    let q = if exchange_matching.Base.ltb n o.remaining_amount then n else o.remaining_amount in
    if exchange_matching.Base.ltb 0 (cost q o.price) then q else 0

abbrev pub left_over : ℕ → List Order → ℕ
left_over n [] = n
left_over n (o ∷ os) = left_over (n - covered n o) os

Rests-is_resting : (s : Status) → Rests s → is_resting s ≡ true
Rests-is_resting s (inl e) = ground (arith, e)
Rests-is_resting s (inr e) = ground (arith, e)

pub is_resting-Rests : (s : Status) → is_resting s ≡ true → Rests s
is_resting-Rests opened h = inl refl
is_resting-Rests partially_filled h = inr refl
is_resting-Rests exchange_matching.Database.queued h = ground arith
is_resting-Rests exchange_matching.Database.filled h = ground arith
is_resting-Rests exchange_matching.Database.cancelled h = ground arith
is_resting-Rests exchange_matching.Database.rejected h = ground arith

opposed-opposes : (s t : Side) → t ≢ s → opposes s t ≡ true
opposed-opposes buy buy h = absurd (h refl)
opposed-opposes buy sell h = refl
opposed-opposes sell buy h = refl
opposed-opposes sell sell h = absurd (h refl)

pub opposes-opposed : (s t : Side) → opposes s t ≡ true → t ≢ s
opposes-opposed buy buy h = ground arith
opposes-opposed buy sell h = λ e. cc
opposes-opposed sell buy h = λ e. cc
opposes-opposed sell sell h = ground arith

Accepts-crosses :
    (s : Side) (limit price : ℕ) → Accepts s limit price → crosses s limit price ≡ true
Accepts-crosses buy limit price h = ground (arith, h)
Accepts-crosses sell limit price h = ground (arith, h)

pub crosses-Accepts :
    (s : Side) (limit price : ℕ) → crosses s limit price ≡ true → Accepts s limit price
crosses-Accepts buy limit price h = ground (arith, h)
crosses-Accepts sell limit price h = ground (arith, h)

Behind-is_behind :
    (s : Side) (p q : ℕ) (c : MakerCursor) → Behind s p q c → is_behind s p q c ≡ true
Behind-is_behind buy p q c (inl h) = ground (arith, h)
Behind-is_behind buy p q c (inr h) = ground (arith, h)
Behind-is_behind sell p q c (inl h) = ground (arith, h)
Behind-is_behind sell p q c (inr h) = ground (arith, h)

pub is_behind-Behind :
    (s : Side) (p q : ℕ) (c : MakerCursor) → is_behind s p q c ≡ true → Behind s p q c
is_behind-Behind buy p q c h = ground (arith, h)
is_behind-Behind sell p q c h = ground (arith, h)

pub is_behind-NotBehind :
    (s : Side) (a b : Order)
    → is_behind s a.price a.sequence (cursor_at b) ≡ false
    → NotBehind s a b
is_behind-NotBehind buy a b h = ground (arith, h)
is_behind-NotBehind sell a b h = ground (arith, h)

Past-is_past : (s : Side) (c : Option MakerCursor) (o : Order) → Past s c o → is_past s c o ≡ true
Past-is_past s none o h = refl
Past-is_past s (some c) o h = Behind-is_behind s o.price o.sequence c h

is_past-Past : (s : Side) (c : Option MakerCursor) (o : Order) → is_past s c o ≡ true → Past s c o
is_past-Past s none o h = tt
is_past-Past s (some c) o h = is_behind-Behind s o.price o.sequence c h

pub Faces-is_candidate :
    (taker : Order) (c : Option MakerCursor) (o : Order)
    → Faces taker o
    → Past taker.side c o
    → is_candidate taker c o ≡ true
unfolding is_candidate
Faces-is_candidate taker c o f h = ground (
  arith,
  opposed-opposes taker.side o.side f.opposed,
  f.strangers,
  Rests-is_resting o.status f.rests,
  Accepts-crosses taker.side taker.price o.price f.accepted,
  Past-is_past taker.side c o h,
)

pub is_candidate-Faces :
    (taker : Order) (c : Option MakerCursor) (o : Order)
    → is_candidate taker c o ≡ true
    → Faces taker o × Past taker.side c o
unfolding is_candidate
is_candidate-Faces taker c o h = (
  record {
    opposed = opposes-opposed taker.side o.side (ground (arith, h));
    strangers = ground (arith, h);
    rests = is_resting-Rests o.status (ground (arith, h));
    accepted = crosses-Accepts taker.side taker.price o.price (ground (arith, h));
  },
  is_past-Past taker.side c o (ground (arith, h)),
)

pub Faces-is_eligible_maker :
    (taker o : Order) → Faces taker o → 0 < o.remaining_amount → is_eligible_maker taker o ≡ true
unfolding is_eligible_maker
Faces-is_eligible_maker taker o f h = ground (
  arith,
  h,
  opposed-opposes taker.side o.side f.opposed,
  f.strangers,
  Rests-is_resting o.status f.rests,
  Accepts-crosses taker.side taker.price o.price f.accepted,
)

pub is_eligible_maker-Faces :
    (taker o : Order) → is_eligible_maker taker o ≡ true → Faces taker o × (0 < o.remaining_amount)
unfolding is_eligible_maker
is_eligible_maker-Faces taker o h = (
  record {
    opposed = opposes-opposed taker.side o.side (ground (arith, h));
    strangers = ground (arith, h);
    rests = is_resting-Rests o.status (ground (arith, h));
    accepted = crosses-Accepts taker.side taker.price o.price (ground (arith, h));
  },
  ground (arith, h),
)
