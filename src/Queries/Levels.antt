-- ===== src/Queries/Levels.antt =====
-- backend/src/market/market.repository.ts: the levels of the book are those of its resting orders, and
-- the first of them is the best price of the statistics.
use exchange_matching.Base.{
  ==_refl, ==→eq, ℕ, ◌≡◌, refl, ◌∙◌, arith, true, false, ◌==◌, List, [], ◌∷◌, Option, none, some,
  if◌then◌else◌, Bool-cases, inl, inr, ap,
}
use exchange_matching.Table.{find, sum_by}
use exchange_matching.Database.{Order, Side, buy, sell}
use exchange_matching.Outbox.{Every}
use exchange_matching.Queries.Market.{
  Level, with_order, level_of, add_to_levels, group_by_price, is_better_price,
}

abbrev pub level_key : Level → ℕ
level_key l = l.price

-- What the orders at a price have left, and how many they are.
abbrev pub left_at : ℕ → Order → ℕ
left_at price o = if o.price == price then o.remaining_amount else 0

abbrev pub counted_at : ℕ → Order → ℕ
counted_at price o = if o.price == price then 1 else 0

-- The level of a price, by its definition.
abbrev pub level_at : ℕ → List Order → Option Level
level_at price os =
    if sum_by (counted_at price) os == 0
    then none
    else some (record {
      price = price;
      amount = sum_by (left_at price) os;
      order_count = sum_by (counted_at price) os;
    })

-- The prices go from the best to the worst, each once.
abbrev pub IsRanked : Side → List Level → Type 0
IsRanked side [] = Unit {0}
IsRanked side (l ∷ ls) =
    Every (λ m. is_better_price side l.price m.price ≡ true) ls × IsRanked side ls

add_to_levels-Every :
    (side : Side) (p : ℕ) (o : Order) (ls : List Level)
    → is_better_price side p o.price ≡ true
    → Every (λ m. is_better_price side p m.price ≡ true) ls
    → Every (λ m. is_better_price side p m.price ≡ true) (add_to_levels side o ls)
unfolding add_to_levels
add_to_levels-Every side p o [] h k = (h, tt)
add_to_levels-Every side p o (l ∷ ls) h (k, ks) = elim (Bool-cases (l.price == o.price)) [
  | inl same ↦ rw same (k, ks)
  | inr differs ↦ elim (Bool-cases (is_better_price side o.price l.price)) [
    | inl better ↦ rw (differs, better) (h, (k, ks))
    | inr worse ↦ rw (differs, worse) (k, add_to_levels-Every side p o ls h ks)
  ]
]

worse_price-cases :
    (side : Side) (p q : ℕ)
    → (q == p) ≡ false
    → is_better_price side p q ≡ false
    → is_better_price side q p ≡ true
worse_price-cases buy p q n h = ground arith
worse_price-cases sell p q n h = ground arith

better_trans :
    (side : Side) (p q r : ℕ)
    → is_better_price side p q ≡ true
    → is_better_price side q r ≡ true
    → is_better_price side p r ≡ true
better_trans buy p q r h k = ground arith
better_trans sell p q r h k = ground arith

Every-better :
    (side : Side) (p q : ℕ) (ls : List Level)
    → is_better_price side p q ≡ true
    → Every (λ m. is_better_price side q m.price ≡ true) ls
    → Every (λ m. is_better_price side p m.price ≡ true) ls
Every-better side p q [] h k = tt
Every-better side p q (l ∷ ls) h (k, ks) =
    (better_trans side p q l.price h k, Every-better side p q ls h ks)

add_to_levels-IsRanked :
    (side : Side) (o : Order) (ls : List Level)
    → IsRanked side ls
    → IsRanked side (add_to_levels side o ls)
unfolding add_to_levels
add_to_levels-IsRanked side o [] r = (tt, tt)
add_to_levels-IsRanked side o (l ∷ ls) (k, r) = elim (Bool-cases (l.price == o.price)) [
  | inl same ↦ rw same (k, r)
  | inr differs ↦ elim (Bool-cases (is_better_price side o.price l.price)) [
    | inl better ↦
        rw (differs, better) ((better, Every-better side o.price l.price ls better k), (k, r))
    | inr worse ↦
        rw (differs, worse)
          (
            add_to_levels-Every side l.price o ls
                (worse_price-cases side o.price l.price differs worse) k,
            add_to_levels-IsRanked side o ls r,
          )
  ]
]

pub group_by_price-IsRanked :
    (side : Side) (os : List Order) → IsRanked side (group_by_price side os)
unfolding group_by_price
group_by_price-IsRanked side [] = tt
group_by_price-IsRanked side (o ∷ os) =
    add_to_levels-IsRanked side o (group_by_price side os) (group_by_price-IsRanked side os)

find-worse :
    (side : Side) (p : ℕ) (ls : List Level)
    → Every (λ m. is_better_price side p m.price ≡ true) ls
    → find level_key p ls ≡ none
unfolding find
find-worse side p [] h = refl
find-worse buy p (l ∷ ls) (h, hs) = ground (arith, h, find-worse buy p ls hs)
find-worse sell p (l ∷ ls) (h, hs) = ground (arith, h, find-worse sell p ls hs)

-- The level of an order's price, with the order.
abbrev updated : Order → Option Level → Level
updated o none = level_of o
updated o (some l) = with_order o l

find-add_same :
    (side : Side) (o : Order) (ls : List Level)
    → IsRanked side ls
    → find level_key o.price (add_to_levels side o ls)
      ≡ some (updated o (find level_key o.price ls))
unfolding find add_to_levels
find-add_same side o [] r = ground (arith, ==_refl o.price)
find-add_same side o (l ∷ ls) (k, r) = elim (Bool-cases (l.price == o.price)) [
  | inl same ↦ ground (arith, same)
  | inr differs ↦ elim (Bool-cases (is_better_price side o.price l.price)) [
    | inl better ↦
        rw (differs, better)
          (ground (
            arith,
            differs,
            ==_refl o.price,
            find-worse side o.price ls (Every-better side o.price l.price ls better k),
          ))
    | inr worse ↦ rw (differs, worse) (ground (arith, differs, find-add_same side o ls r))
  ]
]

find-add_other :
    (side : Side) (p : ℕ) (o : Order) (ls : List Level)
    → (o.price == p) ≡ false
    → find level_key p (add_to_levels side o ls) ≡ find level_key p ls
unfolding find add_to_levels
find-add_other side p o [] n = ground (arith, n)
find-add_other side p o (l ∷ ls) n = elim (Bool-cases (l.price == o.price)) [
  | inl same ↦
      let elsewhere : (l.price == p) ≡ false = ground (arith, same, n) in
      ground (arith, same, elsewhere)
  | inr differs ↦ elim (Bool-cases (is_better_price side o.price l.price)) [
    | inl better ↦ ground (arith, differs, better, n)
    | inr worse ↦ ground (arith, differs, worse, find-add_other side p o ls n)
  ]
]

none_left : (p : ℕ) (os : List Order) → sum_by (counted_at p) os ≡ 0 → sum_by (left_at p) os ≡ 0
unfolding sum_by
none_left p [] h = refl
none_left p (o ∷ os) h = ground (arith, none_left p os)

level_at-updated :
    (p : ℕ) (o : Order) (os : List Order)
    → o.price ≡ p
    → some (updated o (level_at p os)) ≡ level_at p (o ∷ os)
unfolding sum_by
level_at-updated p o os e = ground (arith, e, none_left p os)

level_at-other :
    (p : ℕ) (o : Order) (os : List Order)
    → (o.price == p) ≡ false
    → level_at p os ≡ level_at p (o ∷ os)
unfolding sum_by
level_at-other p o os n = ground (arith, n)

find-add_at :
    (side : Side) (p : ℕ) (o : Order) (ls : List Level)
    → o.price ≡ p
    → IsRanked side ls
    → find level_key p (add_to_levels side o ls) ≡ some (updated o (find level_key p ls))
find-add_at side p o ls e r = rw⁻¹ e (find-add_same side o ls r)

no_level : (p : ℕ) → find level_key p [] ≡ level_at p []
unfolding find sum_by
no_level p = refl

pub group_by_price-level_at :
    (side : Side) (p : ℕ) (os : List Order)
    → find level_key p (group_by_price side os) ≡ level_at p os
unfolding group_by_price
group_by_price-level_at side p [] = no_level p
group_by_price-level_at side p (o ∷ os) = elim (Bool-cases (o.price == p)) [
  | inl same ↦
      let e : o.price ≡ p = ==→eq o.price p same in
      find-add_at side p o (group_by_price side os) e (group_by_price-IsRanked side os)
      ∙ ap (λ l. some (updated o l)) (group_by_price-level_at side p os)
      ∙ level_at-updated p o os e
  | inr differs ↦
      find-add_other side p o (group_by_price side os) differs
      ∙ group_by_price-level_at side p os
      ∙ level_at-other p o os differs
]
