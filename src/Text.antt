-- ===== src/Text.antt =====
-- The strings of JavaScript, as lists of code units, and the functions on them that the code calls.
use exchange_matching.Base.{
  ℕ, ◌==◌, ◌&&◌, ◌≡◌, refl, Bool, true, false, List, [], ◌∷◌, ◌++◌, if◌then◌else◌, arith,
}

abbrev pub Text : Type 0
Text = List ℕ

abbrev pub is_empty_text : Text → Bool
is_empty_text [] = true
is_empty_text (c ∷ cs) = false

-- `===`
unfoldable pub eq_text : Text → Text → Bool
eq_text [] [] = true
eq_text [] (d ∷ ds) = false
eq_text (c ∷ cs) [] = false
eq_text (c ∷ cs) (d ∷ ds) = c == d && eq_text cs ds

-- `includes`, of one code unit.
unfoldable pub includes : ℕ → Text → Bool
includes unit [] = false
includes unit (c ∷ cs) = if c == unit then true else includes unit cs

-- `split`, at one code unit: the first part, and the others.
unfoldable pub split_at : ℕ → Text → Text × List Text
split_at unit [] = ([], [])
split_at unit (c ∷ cs) =
    let rest = split_at unit cs in if c == unit then ([], rest.0 ∷ rest.1) else (c ∷ rest.0, rest.1)

-- `join('')`
unfoldable pub join : List Text → Text
join [] = []
join (t ∷ ts) = t ++ join ts

pub eq_text_refl : (t : Text) → eq_text t t ≡ true
unfolding eq_text
eq_text_refl [] = refl
eq_text_refl (c ∷ cs) = ground (arith, eq_text_refl cs)

-- A text without the unit is its only part.
pub split_at-none : (unit : ℕ) (t : Text) → includes unit t ≡ false → split_at unit t ≡ (t, [])
unfolding includes split_at
split_at-none unit [] h = refl
split_at-none unit (c ∷ cs) h = ground (arith, split_at-none unit cs)

-- The first part ends at the first such unit.
pub split_at-append :
    (unit : ℕ) (t u : Text)
    → includes unit t ≡ false
    → split_at unit (t ++ unit ∷ u) ≡ (t, (split_at unit u).0 ∷ (split_at unit u).1)
unfolding includes split_at
split_at-append unit [] u h = ground arith
split_at-append unit (c ∷ cs) u h = ground (arith, split_at-append unit cs u)

pub includes-append : (unit : ℕ) (t u : Text) → includes unit (t ++ unit ∷ u) ≡ true
unfolding includes
includes-append unit [] u = ground arith
includes-append unit (c ∷ cs) u = ground (arith, includes-append unit cs u)
