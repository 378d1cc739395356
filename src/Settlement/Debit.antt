-- ===== src/Settlement/Debit.antt =====
-- The reservation of a BUY order, which is its rounded cost, through a trade.
use native.Mathlib.Nat.{mul-le-mul, mul-le-mul_left}
use exchange_matching.Base.{ℕ, ◌+◌, ◌-◌, ◌*◌, ◌≤◌, ◌≡◌, pos, ok, ap, arith}
use exchange_matching.Decimal.{decimal_max}
use exchange_matching.Decimal.Laws.{cost, multiply_scaled-pos, subtract_scaled-le}
use exchange_matching.Settlement.Amounts.{buy_reservation_debit}

sub-add : (r q : ℕ) → q ≤ r → (r - q) + q ≡ r
sub-add r q h = omega arith

pub cost_mono : (a b p q : ℕ) → a ≤ b → p ≤ q → cost a p ≤ cost b q
cost_mono a b p q h k = omega (arith, mul-le-mul h k)

-- What is left of the order after a trade of `q` keeps its own rounded cost reserved.
abbrev pub debit : (r p q : ℕ) → ℕ
debit r p q = cost r p - cost (r - q) p

-- The debit covers the executed cost at every price up to the limit.
pub cost-le-debit : (r p q x : ℕ) → q ≤ r → x ≤ p → cost q x ≤ debit r p q
cost-le-debit r p q x h k =
    omega (arith, mul-le-mul_left q k, ap (λ (t : ℕ). t * p) (sub-add r q h))

pub debit-le-cost : (r p q : ℕ) → debit r p q ≤ cost r p
debit-le-cost r p q = omega arith

-- For a fill of at most what remains, which fits a column and has a cost that fits one,
-- `buy_reservation_debit` is the rounded cost of what remains less the rounded cost of what is
-- left after the fill.
pub buy_reservation_debit-eq :
    (r p q : ℕ)
    → q ≤ r
    → r ≤ decimal_max
    → cost r p ≤ decimal_max
    → buy_reservation_debit (pos r) (pos p) (pos q) ≡ ok (pos (debit r p q))
unfolding buy_reservation_debit
buy_reservation_debit-eq r p q h k c = ground (
  arith,
  cost_mono (r - q) r p p,
  subtract_scaled-le r q,
  multiply_scaled-pos r p,
  multiply_scaled-pos (r - q) p,
  subtract_scaled-le (cost r p) (cost (r - q) p),
)
