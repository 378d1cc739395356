-- ===== src/Frontend/Agreement.antt =====
-- frontend/src/features/orders/schemas/orderFormSchema.ts and backend/src/common/decimal-input.ts: what
-- the form accepts, the backend accepts.
use exchange_matching.Base.{
  ℕ, zero, suc, if◌then◌else◌, ◌+◌, ◌-◌, ◌*◌, ◌/◌, ◌^◌, ◌≤◌, ◌<◌, ◌≡◌, refl, sym, ap, ◌∙◌, arith,
  pos, negsuc, ok, true, false, Bool, Option, some, leb, pow_positive, Bool-cases, Option-cases,
  inl, inr,
}
use native.Mathlib.Nat.{pow-suc, mul-div_cancel, mul-div-mul_right}
use exchange_matching.Decimal.{
  DecimalValue, finite, infinite, nan, decimal_max, to_decimal_places, assert_decimal_fits_schema,
  assert_positive_order_cost,
}
use exchange_matching.Decimal.Laws.{cost, multiply_scaled-pos}
use exchange_matching.Decimal.Input.{check_positive_decimal, parse_positive_decimal_input}
use exchange_matching.Frontend.{
  multiply_values, value_fits_schema, is_positive, is_at_most_zero, is_decimal_string,
  has_valid_cost, accepts_order_form, parse_decimal,
}

swap_last : (x y z : ℕ) → x * y * z ≡ x * z * y
swap_last x y z = grind arith

swap_inner : (n x m y : ℕ) → n * x * (m * y) ≡ n * m * (x * y)
swap_inner n x m y = grind arith

reassociate : (x y z : ℕ) → x * (y * z) ≡ x * y * z
reassociate x y z = grind arith

pow_add : (a b : ℕ) → 10 ^ (a + b) ≡ 10 ^ a * 10 ^ b
pow_add zero b =
    let same : 0 + b ≡ b = omega arith in
    let one_times : 10 ^ b ≡ 1 * 10 ^ b = omega arith in ap (λ n. 10 ^ n) same ∙ one_times
pow_add (suc a) b =
    let later : suc a + b ≡ suc (a + b) = omega arith in
    ap (λ n. 10 ^ n) later
    ∙ pow-suc 10 (a + b)
    ∙ ap (λ k. k * 10) (pow_add a b)
    ∙ swap_last (10 ^ a) (10 ^ b) 10
    ∙ ap (λ k. k * 10 ^ b) (sym (pow-suc 10 a))

module _ (n m p q : ℕ) (hp : p ≤ 8) (hq : q ≤ 8) where
  scaled_factors : n * 10 ^ (8 - p) * (m * 10 ^ (8 - q)) ≡ n * m * 10 ^ (8 - p + (8 - q))
  scaled_factors =
      swap_inner n (10 ^ (8 - p)) m (10 ^ (8 - q))
      ∙ ap (λ k. n * m * k) (sym (pow_add (8 - p) (8 - q)))

  -- The product of two values, cut off at eight places, is the cost of their units.
  scaled_product :
      to_decimal_places (pos (n * m)) (p + q) ≡ pos (cost (n * 10 ^ (8 - p)) (m * 10 ^ (8 - q)))
  scaled_product = elim (Bool-cases (leb (p + q) 8)) [
    | inl few ↦
        let exponent : 8 - p + (8 - q) ≡ 8 - (p + q) + 8 = ground (arith, few) in
        let power : n * m * 10 ^ (8 - p + (8 - q)) ≡ n * m * 10 ^ (8 - (p + q)) * 100000000 =
          ap (λ k. n * m * k) (ap (λ k. 10 ^ k) exponent ∙ pow_add (8 - (p + q)) 8)
          ∙ reassociate (n * m) (10 ^ (8 - (p + q))) 100000000 in
        rw (few, scaled_factors, power)
          (ap pos (sym (mul-div_cancel (n * m * 10 ^ (8 - (p + q))) (ground arith))))
    | inr many ↦
        let exponent : p + q - 8 + (8 - p + (8 - q)) ≡ 8 = ground (arith, many) in
        let power : 100000000 ≡ 10 ^ (p + q - 8) * 10 ^ (8 - p + (8 - q)) =
          sym (ap (λ k. 10 ^ k) exponent) ∙ pow_add (p + q - 8) (8 - p + (8 - q)) in
        rw (many, scaled_factors)
          (ap pos (
            sym (
              mul-div-mul_right (n * m) (10 ^ (p + q - 8))
                (pow_positive 10 (8 - p + (8 - q)) (ground arith)))
            ∙ ap (λ k. n * m * 10 ^ (8 - p + (8 - q)) / k) (sym power)))
  ]

-- A value that the form accepts: positive, of at most eight places, and within the column.
record IsFormValue (v : DecimalValue) : Type 0 where
  numerator : ℕ
  places : ℕ
  same : v ≡ finite (pos numerator) places
  few_places : places ≤ 8
  some_value : 0 < numerator
  fits : numerator * 10 ^ (8 - places) ≤ decimal_max

form_value : (v : DecimalValue) → value_fits_schema v ≡ true → is_positive v ≡ true → IsFormValue v
unfolding value_fits_schema
form_value (finite (pos n) p) f h = record {
  numerator = n;
  places = p;
  same = refl;
  few_places = ground (arith, f);
  some_value = ground (arith, h);
  fits = ground (arith, f);
}
form_value (finite (negsuc n) p) f h = cc
form_value infinite f h = cc
form_value nan f h = cc

check_positive_decimal-form :
    (v : DecimalValue) (g : IsFormValue v)
    → check_positive_decimal v ≡ ok (pos (g.numerator * 10 ^ (8 - g.places)))
unfolding check_positive_decimal assert_decimal_fits_schema
check_positive_decimal-form v g = rw g.same (ground (arith, g.few_places, g.some_value, g.fits))

-- The cost in the form is the cost of the units, and the backend accepts it.
assert_positive_order_cost-form :
    (v w : DecimalValue) (g : IsFormValue v) (h : IsFormValue w)
    → is_at_most_zero (multiply_values v w) ≡ false
    → value_fits_schema (multiply_values v w) ≡ true
    → assert_positive_order_cost
        (pos (g.numerator * 10 ^ (8 - g.places)))
        (pos (h.numerator * 10 ^ (8 - h.places)))
      ≡ ok (pos (cost (g.numerator * 10 ^ (8 - g.places)) (h.numerator * 10 ^ (8 - h.places))))
unfolding multiply_values value_fits_schema assert_positive_order_cost
assert_positive_order_cost-form v w g h some_cost fits =
    let a = g.numerator * 10 ^ (8 - g.places) in
    let b = h.numerator * 10 ^ (8 - h.places) in
    let product : multiply_values v w ≡ finite (pos (cost a b)) 8 =
      rw (g.same, h.same)
        (ap (λ z. finite z 8)
          (scaled_product g.numerator h.numerator g.places h.places g.few_places h.few_places)) in
    let positive : 0 < cost a b = ground (arith, product, some_cost) in
    let small : cost a b ≤ decimal_max = ground (arith, product, fits) in
    ground (arith, multiply_scaled-pos a b small, positive)

cost_of :
    (v w : DecimalValue)
    → (if is_at_most_zero (multiply_values v w)
        then false
        else value_fits_schema (multiply_values v w))
      ≡ true
    → (is_at_most_zero (multiply_values v w) ≡ false)
      × (value_fits_schema (multiply_values v w) ≡ true)
cost_of v w h = ground arith

module _ {Text : Type 0} (trim : Text → Text) (is_empty matches_pattern : Text → Bool)
    (new_decimal : Text → Option DecimalValue) where
  -- What the form knows of a text that it accepts.
  record IsFormText (text : Text) : Type 0 where
    value : DecimalValue
    parsed : new_decimal text ≡ some value
    some_text : is_empty text ≡ false
    matches : matches_pattern text ≡ true
    schema : value_fits_schema value ≡ true
    positive : is_positive value ≡ true

  form_text :
      (text : Text)
      → is_decimal_string trim is_empty matches_pattern new_decimal text ≡ true
      → IsFormText text
  unfolding is_decimal_string
  form_text text h = elim (Option-cases (new_decimal text)) [
    | inl none_parsed ↦ ground (arith, none_parsed, h)
    | inr (v, e) ↦ record {
      value = v;
      parsed = e;
      some_text = ground (arith, h);
      matches = ground (arith, h);
      schema = ground (arith, e, h);
      positive = ground (arith, e, h);
    }
  ]

  form_cost :
      (amount price : Text) (s : IsFormText amount) (t : IsFormText price)
      → has_valid_cost trim is_empty matches_pattern new_decimal amount price ≡ true
      → (is_at_most_zero (multiply_values s.value t.value) ≡ false)
        × (value_fits_schema (multiply_values s.value t.value) ≡ true)
  unfolding has_valid_cost
  form_cost amount price s t h =
      let first : parse_decimal trim is_empty matches_pattern new_decimal amount ≡ s.value =
        ground (arith, s.parsed, s.some_text) in
      let second : parse_decimal trim is_empty matches_pattern new_decimal price ≡ t.value =
        ground (arith, t.parsed, t.some_text) in
      cost_of s.value t.value (
        rw⁻¹ (first, second)
          (ground (
            arith, s.parsed, s.some_text, s.matches, s.schema, t.parsed, t.some_text, t.matches,
            t.schema, h,
          )))

  -- Both inputs of an order are parsed, and its cost is accepted.
  pub record IsAcceptedInput (amount price : Text) : Type 0 where
    pub amount_units : ℕ
    pub price_units : ℕ
    pub amount_parsed :
        parse_positive_decimal_input trim is_empty new_decimal amount ≡ ok (pos amount_units)
    pub price_parsed :
        parse_positive_decimal_input trim is_empty new_decimal price ≡ ok (pos price_units)
    pub cost_accepted :
        assert_positive_order_cost (pos amount_units) (pos price_units)
        ≡ ok (pos (cost amount_units price_units))

  module _ (trim_twice : (text : Text) → trim (trim text) ≡ trim text) where
    parsed_again :
        (text : Text) (t : IsFormText (trim text))
        → parse_positive_decimal_input trim is_empty new_decimal (trim text)
          ≡ check_positive_decimal t.value
    unfolding parse_positive_decimal_input
    parsed_again text t = ground (arith, trim_twice text, t.parsed, t.some_text)

    -- For any `trim` that does nothing the second time, test for the empty text, pattern
    -- and parser of decimals: if `accepts_order_form` accepts an amount and a price,
    -- `parse_positive_decimal_input` returns both for the texts that the form sends, and
    -- `assert_positive_order_cost` returns their cost.
    pub accepts_order_form-IsAcceptedInput :
        (amount price : Text)
        → accepts_order_form trim is_empty matches_pattern new_decimal amount price ≡ true
        → IsAcceptedInput (trim amount) (trim price)
    unfolding accepts_order_form has_valid_cost
    accepts_order_form-IsAcceptedInput amount price h =
        let s = form_text (trim amount) (ground (arith, h)) in
        let t = form_text (trim price) (ground (arith, h)) in
        let costs = form_cost (trim amount) (trim price) s t (ground (arith, h)) in
        let g = form_value s.value s.schema s.positive in
        let k = form_value t.value t.schema t.positive in
        record {
          amount_units = g.numerator * 10 ^ (8 - g.places);
          price_units = k.numerator * 10 ^ (8 - k.places);
          amount_parsed = parsed_again amount s ∙ check_positive_decimal-form s.value g;
          price_parsed = parsed_again price t ∙ check_positive_decimal-form t.value k;
          cost_accepted = assert_positive_order_cost-form s.value t.value g k costs.0 costs.1;
        }
