-- ===== src/Decimal/Laws.antt =====
-- What the scaled operations compute on amounts that are not negative.
use exchange_matching.Base.{
  ℕ, ◌+◌, ◌-◌, ◌*◌, ◌/◌, ◌≤◌, ◌<◌, ◌≡◌, ℤ, pos, ok, err, bad_request, exceeds_schema, ltb,
  if◌then◌else◌, arith,
}
use exchange_matching.Decimal.{
  decimal_max, scale_units, multiply_scaled, subtract_scaled, add_scaled,
  assert_positive_order_cost,
}

-- The value of an amount at a price, rounded down to whole units.
abbrev pub cost : ℕ → ℕ → ℕ
cost a p = a * p / scale_units

pub multiply_scaled-pos :
    (a p : ℕ) → cost a p ≤ decimal_max → multiply_scaled (pos a) (pos p) ≡ ok (pos (cost a p))
unfolding multiply_scaled
multiply_scaled-pos a p h = ground arith

pub multiply_scaled_eq :
    (a p : ℕ)
    → multiply_scaled (pos a) (pos p) ≡ (
        if ltb decimal_max (cost a p)
        then err (bad_request exceeds_schema)
        else ok (pos (cost a p)))
unfolding multiply_scaled
multiply_scaled_eq a p = ground arith

pub multiply_scaled-eq-ok :
    (a p : ℕ) {z : ℤ}
    → multiply_scaled (pos a) (pos p) ≡ ok z
    → (z ≡ pos (cost a p)) × (cost a p ≤ decimal_max)
unfolding multiply_scaled
multiply_scaled-eq-ok a p h = ground arith

pub subtract_scaled-le :
    (a b : ℕ) → b ≤ a → a ≤ decimal_max → subtract_scaled (pos a) (pos b) ≡ ok (pos (a - b))
unfolding subtract_scaled
subtract_scaled-le a b h k = ground arith

pub add_scaled-pos : (a b : ℕ) → a + b ≤ decimal_max → add_scaled (pos a) (pos b) ≡ ok (pos (a + b))
unfolding add_scaled
add_scaled-pos a b h = ground arith

pub assert_positive_order_cost-pos :
    (a p : ℕ)
    → 0 < cost a p
    → cost a p ≤ decimal_max
    → assert_positive_order_cost (pos a) (pos p) ≡ ok (pos (cost a p))
unfolding assert_positive_order_cost
assert_positive_order_cost-pos a p h k = ground (arith, multiply_scaled-pos a p)
