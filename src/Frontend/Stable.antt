-- ===== src/Frontend/Stable.antt =====
-- frontend/src/utils/decimal.ts, `sanitizeDecimalInput`: what a field shows stays as it is when the user
-- goes on.
use exchange_matching.Base.{ℕ, ◌≡◌, ◌≤◌, refl, ap, ◌∙◌, arith, [], ◌∷◌, ◌++◌}
use exchange_matching.Table.{where_rows, length}
use exchange_matching.Outbox.{Every}
use exchange_matching.Text.{
  Text, includes, split_at, join, split_at-none, split_at-append, includes-append,
}
use exchange_matching.Decimal.{decimal_scale}
use exchange_matching.Frontend.Typing.{
  decimal_separator, sanitize_decimal_input, normalized, fraction_of, Digits, IsDecimalText, whole,
  fraction, includes-Digits, where_rows-Digits, where_rows-append, limit-all, sanitize-whole,
  sanitize-fraction, sanitize-IsDecimalText,
}

append_nil : (t : Text) → t ++ [] ≡ t
append_nil [] = refl
append_nil (c ∷ t) = ground (arith, append_nil t)

sanitize-Digits : (t : Text) → Digits t → sanitize_decimal_input t ≡ t
unfolding normalized
sanitize-Digits t h =
    let same = where_rows-Digits t h in
    sanitize-whole t (ap (includes decimal_separator) same ∙ includes-Digits t h) ∙ same

module _ (c : ℕ) (before after : Text) (front : Digits (c ∷ before)) (back : Digits after) where
  shown : Text
  shown = c ∷ before ++ decimal_separator ∷ after

  normalized-shown : normalized shown ≡ shown
  unfolding normalized shown where_rows
  normalized-shown =
      where_rows-append (c ∷ before) (decimal_separator ∷ after)
      ∙ ground (arith, where_rows-Digits (c ∷ before) front, where_rows-Digits after back)

  split-shown : split_at decimal_separator shown ≡ (c ∷ before, after ∷ [])
  unfolding shown
  split-shown = ground (
    arith,
    split_at-append decimal_separator (c ∷ before) after (includes-Digits (c ∷ before) front),
    split_at-none decimal_separator after (includes-Digits after back),
  )

  sanitize-shown : length after ≤ decimal_scale → sanitize_decimal_input shown ≡ shown
  unfolding fraction_of shown join
  sanitize-shown fits =
      let cut = limit-all decimal_scale after fits in
      let parts = ap (split_at decimal_separator) normalized-shown ∙ split-shown in
      let found = includes-append decimal_separator (c ∷ before) after in
      sanitize-fraction shown (ap (includes decimal_separator) normalized-shown ∙ found)
      ∙ rw (parts, append_nil after, cut) refl

sanitize-eq : (t : Text) → IsDecimalText t → sanitize_decimal_input t ≡ t
unfolding shown
sanitize-eq t (whole h) = sanitize-Digits t h
sanitize-eq t (fraction c before after front back fits e) =
    rw e (sanitize-shown c before after front back fits)

-- The characters 0 to 9.
abbrev pub IsDigits : Text → Type 0
IsDigits = Every (λ c. (48 ≤ c) × (c ≤ 57))

-- Digits, or digits, a point and at most eight digits, where digits stand before the point.
pub data IsDecimal (t : Text) : Type 0 where
  integer : IsDigits t → IsDecimal t
  with_point :
      (c : ℕ) (before after : Text)
      → IsDigits (c ∷ before)
      → IsDigits after
      → length after ≤ 8
      → t ≡ c ∷ before ++ 46 ∷ after
      → IsDecimal t

IsDigits-Digits : (t : Text) → IsDigits t → Digits t
IsDigits-Digits [] h = tt
IsDigits-Digits (c ∷ t) h = (ground (arith, h.0), IsDigits-Digits t h.1)

Digits-IsDigits : (t : Text) → Digits t → IsDigits t
Digits-IsDigits [] h = tt
Digits-IsDigits (c ∷ t) h = ((ground (arith, h.0), ground (arith, h.0)), Digits-IsDigits t h.1)

IsDecimal-IsDecimalText : (t : Text) → IsDecimal t → IsDecimalText t
IsDecimal-IsDecimalText t (integer h) = whole (IsDigits-Digits t h)
IsDecimal-IsDecimalText t (with_point c before after front back fits e) =
    fraction c before after (IsDigits-Digits (c ∷ before) front) (IsDigits-Digits after back) fits e

IsDecimalText-IsDecimal : (t : Text) → IsDecimalText t → IsDecimal t
IsDecimalText-IsDecimal t (whole h) = integer (Digits-IsDigits t h)
IsDecimalText-IsDecimal t (fraction c before after front back fits e) =
    with_point c before after (Digits-IsDigits (c ∷ before) front) (Digits-IsDigits after back) fits
      e

-- For any typed text, and any text that is digits 0 to 9, or such digits, a point and at most
-- eight digits, where digits stand before the point: what `sanitize_decimal_input` gives for
-- the first is such a text, and it gives the second as it is.
pub sanitize-IsDecimal :
    (typed decimal : Text)
    → IsDecimal decimal
    → IsDecimal (sanitize_decimal_input typed) × (sanitize_decimal_input decimal ≡ decimal)
sanitize-IsDecimal typed decimal h = (
  IsDecimalText-IsDecimal (sanitize_decimal_input typed) (sanitize-IsDecimalText typed),
  sanitize-eq decimal (IsDecimal-IsDecimalText decimal h),
)
