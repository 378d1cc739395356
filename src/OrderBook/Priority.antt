-- ===== src/OrderBook/Priority.antt =====
-- Price-time priority as a strict order on the places of orders in the book.
use exchange_matching.Base.{◌≡◌, true, false, arith, List, [], ◌∷◌, ◌++◌, Option, none, some}
use exchange_matching.Database.{Order, Side, buy, sell}
use exchange_matching.OrderBook.Candidates.{MakerCursor, cursor_at, is_behind, is_past}

pub behind_of_not_behind :
    (s : Side) (m x : Order) (c : MakerCursor)
    → is_behind s m.price m.sequence c ≡ false
    → is_behind s x.price x.sequence c ≡ true
    → is_behind s x.price x.sequence (cursor_at m) ≡ true
behind_of_not_behind buy m x c h k = ground arith
behind_of_not_behind sell m x c h k = ground arith

pub behind_asymm :
    (s : Side) (m x : Order)
    → is_behind s x.price x.sequence (cursor_at m) ≡ true
    → is_behind s m.price m.sequence (cursor_at x) ≡ false
behind_asymm buy m x h = ground arith
behind_asymm sell m x h = ground arith

pub behind_trans :
    (s : Side) (x y : Order) (c : MakerCursor)
    → is_behind s x.price x.sequence c ≡ true
    → is_behind s y.price y.sequence (cursor_at x) ≡ true
    → is_behind s y.price y.sequence c ≡ true
behind_trans buy x y c h k = ground arith
behind_trans sell x y c h k = ground arith

pub behind_irrefl : (s : Side) (x : Order) → is_behind s x.price x.sequence (cursor_at x) ≡ false
behind_irrefl buy x = ground arith
behind_irrefl sell x = ground arith

-- `x` comes behind every order of the list.
abbrev pub BehindAll : Side → Order → List Order → Type 0
BehindAll s x [] = Unit {0}
BehindAll s x (m ∷ ms) = (is_behind s x.price x.sequence (cursor_at m) ≡ true) × BehindAll s x ms

-- Every order of the list comes behind `m`.
abbrev pub AllBehind : Side → Order → List Order → Type 0
AllBehind s m [] = Unit {0}
AllBehind s m (x ∷ xs) = (is_behind s x.price x.sequence (cursor_at m) ≡ true) × AllBehind s m xs

-- Each order is strictly behind those that stand before it.
abbrev pub InPriority : Side → List Order → Type 0
InPriority s [] = Unit {0}
InPriority s (m ∷ ms) = AllBehind s m ms × InPriority s ms

AllBehind-append :
    (s : Side) (m x : Order) (ms : List Order)
    → AllBehind s m ms
    → is_behind s x.price x.sequence (cursor_at m) ≡ true
    → AllBehind s m (ms ++ x ∷ [])
AllBehind-append s m x [] a h = (h, tt)
AllBehind-append s m x (y ∷ ms) a h = (a.0, AllBehind-append s m x ms a.1 h)

pub InPriority-append :
    (s : Side) (x : Order) (ms : List Order)
    → InPriority s ms
    → BehindAll s x ms
    → InPriority s (ms ++ x ∷ [])
InPriority-append s x [] p b = (tt, tt)
InPriority-append s x (m ∷ ms) p b =
    (AllBehind-append s m x ms p.0 b.0, InPriority-append s x ms p.1 b.1)

-- No order of the list is behind the cursor; with no cursor yet the list is empty.
abbrev pub NonePast : Side → Option MakerCursor → List Order → Type 0
NonePast s none [] = Unit {0}
NonePast s none (m ∷ ms) = ⊥
NonePast s (some c) [] = Unit {0}
NonePast s (some c) (m ∷ ms) = (is_behind s m.price m.sequence c ≡ false) × NonePast s (some c) ms

-- What the query returns next is behind all of them.
pub NonePast-BehindAll :
    (s : Side) (cursor : Option MakerCursor) (x : Order) (ms : List Order)
    → NonePast s cursor ms
    → is_past s cursor x ≡ true
    → BehindAll s x ms
NonePast-BehindAll s none x [] n h = tt
NonePast-BehindAll s none x (m ∷ ms) n h = absurd n
NonePast-BehindAll s (some c) x [] n h = tt
NonePast-BehindAll s (some c) x (m ∷ ms) n h =
    (behind_of_not_behind s m x c n.0 h, NonePast-BehindAll s (some c) x ms n.1 h)

-- So none of them is behind a cursor that stands there.
pub BehindAll-NonePast :
    (s : Side) (x : Order) (ms : List Order) → BehindAll s x ms → NonePast s (some (cursor_at x)) ms
BehindAll-NonePast s x [] b = tt
BehindAll-NonePast s x (m ∷ ms) b = (behind_asymm s m x b.0, BehindAll-NonePast s x ms b.1)

pub NonePast-append :
    (s : Side) (c : MakerCursor) (x : Order) (ms : List Order)
    → NonePast s (some c) ms
    → is_behind s x.price x.sequence c ≡ false
    → NonePast s (some c) (ms ++ x ∷ [])
NonePast-append s c x [] n h = (h, tt)
NonePast-append s c x (m ∷ ms) n h = (n.0, NonePast-append s c x ms n.1 h)
