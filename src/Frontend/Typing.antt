-- ===== src/Frontend/Typing.antt =====
-- frontend/src/utils/decimal.ts, `sanitizeDecimalInput`: what the fields of the order form let a user
-- type.
use exchange_matching.Base.{
  ℕ, zero, suc, ◌==◌, ◌&&◌, ◌||◌, ◌≡◌, ◌≤◌, refl, leb, Bool, true, false, not, List, [], ◌∷◌, ◌++◌,
  Bool-cases, inl, inr, ◌⊎◌, if◌then◌else◌, arith, ap,
}
use exchange_matching.Table.{where_rows, limit, length}
use exchange_matching.Text.{Text, is_empty_text, includes, split_at, join, split_at-none}
use exchange_matching.Outbox.{Every}
use exchange_matching.Outbox.Handover.{limit-Every}
use exchange_matching.Decimal.{decimal_scale}

-- DECIMAL_SEPARATOR
abbrev pub decimal_separator : ℕ
decimal_separator = 46

abbrev pub is_digit : ℕ → Bool
is_digit c = leb 48 c && leb c 57

-- What DECIMAL_INPUT_PATTERN does not match.
abbrev pub is_decimal_unit : ℕ → Bool
is_decimal_unit c = is_digit c || c == decimal_separator

-- `normalizedIntegerPart`
abbrev pub normalized_integer_part : (integer_part : Text) (has_separator : Bool) → Text
normalized_integer_part integer_part has_separator =
    if is_empty_text integer_part && has_separator then 48 ∷ [] else integer_part

unfoldable pub sanitize_decimal_input : Text → Text
unfolding where_rows includes split_at join limit
sanitize_decimal_input value =
    let normalized = where_rows is_decimal_unit value in
    let has_separator = includes decimal_separator normalized in
    let parts = split_at decimal_separator normalized in
    let integer = normalized_integer_part parts.0 has_separator in
    if is_empty_text normalized
    then []
    else if not has_separator
    then integer
    else integer ++ decimal_separator ∷ limit decimal_scale (join parts.1)

abbrev pub Digits : Text → Type 0
Digits = Every (λ c. is_digit c ≡ true)

-- The texts that a field shows: digits, or digits, a point and at most eight digits.
pub data IsDecimalText (t : Text) : Type 0 where
  whole : Digits t → IsDecimalText t
  fraction :
      (c : ℕ) (before after : Text)
      → Digits (c ∷ before)
      → Digits after
      → length after ≤ decimal_scale
      → t ≡ c ∷ before ++ decimal_separator ∷ after
      → IsDecimalText t

pub includes-Digits : (t : Text) → Digits t → includes decimal_separator t ≡ false
unfolding includes
includes-Digits [] h = refl
includes-Digits (c ∷ t) h = ground (arith, h.0, includes-Digits t h.1)

pub where_rows-Digits : (t : Text) → Digits t → where_rows is_decimal_unit t ≡ t
unfolding where_rows
where_rows-Digits [] h = refl
where_rows-Digits (c ∷ t) h = ground (arith, h.0, where_rows-Digits t h.1)

pub where_rows-append :
    (t u : Text)
    → where_rows is_decimal_unit (t ++ u)
      ≡ where_rows is_decimal_unit t ++ where_rows is_decimal_unit u
unfolding where_rows
where_rows-append [] u = refl
where_rows-append (c ∷ t) u = ground (arith, where_rows-append t u)

append-Digits : (t u : Text) → Digits t → Digits u → Digits (t ++ u)
append-Digits [] u h k = k
append-Digits (c ∷ t) u h k = (h.0, append-Digits t u h.1 k)

join-Digits : (ts : List Text) → Every Digits ts → Digits (join ts)
unfolding join
join-Digits [] h = tt
join-Digits (t ∷ ts) h = append-Digits t (join ts) h.0 (join-Digits ts h.1)

limit-length : (n : ℕ) (t : Text) → length (limit n t) ≤ n
unfolding limit length
limit-length zero t = omega arith
limit-length (suc n) [] = omega arith
limit-length (suc n) (c ∷ t) = omega (arith, limit-length n t)

pub limit-all : (n : ℕ) (t : Text) → length t ≤ n → limit n t ≡ t
unfolding limit length
limit-all zero [] h = refl
limit-all zero (c ∷ t) h = ground (arith, h)
limit-all (suc n) [] h = refl
limit-all (suc n) (c ∷ t) h = ground (arith, limit-all n t, h)

-- What is left of an input, and that its parts are digits.
abbrev Units : Text → Type 0
Units = Every (λ c. is_decimal_unit c ≡ true)

where_rows-Units : (t : Text) → Units (where_rows is_decimal_unit t)
unfolding where_rows
where_rows-Units [] = tt
where_rows-Units (c ∷ t) = elim (Bool-cases (is_decimal_unit c)) [
  | inl kept ↦ rw kept (kept, where_rows-Units t)
  | inr dropped ↦ rw dropped (where_rows-Units t)
]

split_at-Digits :
    (t : Text)
    → Units t
    → Digits (split_at decimal_separator t).0 × Every Digits (split_at decimal_separator t).1
unfolding split_at
split_at-Digits [] h = (tt, tt)
split_at-Digits (c ∷ t) h =
    let rest = split_at-Digits t h.1 in
    elim (Bool-cases (c == decimal_separator)) [
      | inl same ↦ rw same (tt, rest)
      | inr differs ↦
          let digit : is_digit c ≡ true = ground (arith, h.0, differs) in
          rw differs ((digit, rest.0), rest.1)
    ]

is_empty-cases : (t : Text) → (t ≡ []) ⊎ ((c : ℕ) × (rest : Text) × (t ≡ c ∷ rest))
is_empty-cases [] = inl refl
is_empty-cases (c ∷ rest) = inr (c, rest, refl)

empty-includes : (t : Text) → includes decimal_separator t ≡ true → is_empty_text t ≡ false
unfolding includes
empty-includes [] h = cc
empty-includes (c ∷ t) h = refl

module _ (value : Text) where
  unfoldable pub normalized : Text
  normalized = where_rows is_decimal_unit value

  unfoldable pub fraction_of : Text
  fraction_of = limit decimal_scale (join (split_at decimal_separator normalized).1)

  pub sanitize-whole :
      includes decimal_separator normalized ≡ false → sanitize_decimal_input value ≡ normalized
  unfolding normalized sanitize_decimal_input
  sanitize-whole h = elim (is_empty-cases normalized) [
    | inl e ↦ ground (arith, e)
    | inr (c, rest, e) ↦ ground (arith, h, e, split_at-none decimal_separator normalized h)
  ]

  pub sanitize-fraction :
      includes decimal_separator normalized ≡ true
      → sanitize_decimal_input value
        ≡ normalized_integer_part (split_at decimal_separator normalized).0 true
          ++ decimal_separator ∷ fraction_of
  unfolding normalized sanitize_decimal_input fraction_of
  sanitize-fraction h = ground (arith, h, empty-includes normalized h)

  fraction_of-Digits : Digits fraction_of
  unfolding fraction_of normalized
  fraction_of-Digits =
      limit-Every (λ c. is_digit c ≡ true) decimal_scale _
        (join-Digits (split_at decimal_separator normalized).1
          (split_at-Digits normalized (where_rows-Units value)).1)

  with_integer :
      (integer : Text)
      → Digits integer
      → IsDecimalText (normalized_integer_part integer true ++ decimal_separator ∷ fraction_of)
  unfolding fraction_of
  with_integer [] h =
      fraction 48 [] fraction_of (refl, tt) fraction_of-Digits (limit-length decimal_scale _) refl
  with_integer (c ∷ rest) h =
      fraction c rest fraction_of h fraction_of-Digits (limit-length decimal_scale _) refl

  pub sanitize-IsDecimalText : IsDecimalText (sanitize_decimal_input value)
  unfolding normalized
  sanitize-IsDecimalText =
      let parts = split_at-Digits normalized (where_rows-Units value) in
      elim (Bool-cases (includes decimal_separator normalized)) [
        | inl h ↦ rw (sanitize-fraction h) (with_integer _ parts.0)
        | inr h ↦
            let only = split_at-none decimal_separator normalized h in
            rw (sanitize-whole h) (whole (rw⁻¹ (ap (λ (p : Text × List Text). p.0) only) parts.0))
      ]
