-- ===== src/Money/Rat.antt =====
-- The part of `math/big.Rat` that internal/money uses, up to its cancelling of common factors:
-- comparison and rounding read only the quotient.
pub mod Order
pub mod Units
use teggo.Prelude.{ℕ, suc, ◌+◌, ◌-◌, ◌*◌, ◌/◌, ◌≤◌, Ordering, compare, Bool, ltb, if◌then◌else◌}
use teggo.Prelude.Int.{ℤ, pos, pos_part, neg_part, sub_ℕ}

-- (plus - minus) / (below + 1)
pub record Rat : Type 0 where
  pub plus : ℕ
  pub minus : ℕ
  pub below : ℕ

abbrev pub den : Rat → ℕ
den r = suc r.below

abbrev pub over : ℕ → ℕ → ℕ → Rat
over p m d = record { plus = p; minus = m; below = d - 1 }

abbrev pub zero_rat : Rat
zero_rat = over 0 0 1

unfoldable pub add : Rat → Rat → Rat
add a b = over (a.plus * den b + b.plus * den a) (a.minus * den b + b.minus * den a) (den a * den b)

unfoldable pub sub : Rat → Rat → Rat
sub a b = over (a.plus * den b + b.minus * den a) (a.minus * den b + b.plus * den a) (den a * den b)

unfoldable pub mul : Rat → Rat → Rat
mul a b =
    over (a.plus * b.plus + a.minus * b.minus) (a.plus * b.minus + a.minus * b.plus) (den a * den b)

-- `Quo(a, NewRat(k, 1))`, for a positive k.
unfoldable pub quo_ℕ : Rat → ℕ → Rat
quo_ℕ a k = over a.plus a.minus (den a * k)

-- The two sides of `a <= b`, over a common denominator.
abbrev pub left_side : Rat → Rat → ℕ
left_side a b = a.plus * den b + b.minus * den a

abbrev pub right_side : Rat → Rat → ℕ
right_side a b = b.plus * den a + a.minus * den b

-- `a.Cmp(b)`: lt, eq and gt are -1, 0 and 1.
unfoldable pub cmp : Rat → Rat → Ordering
cmp a b = compare (left_side a b) (right_side a b)

-- `r.Sign() < 0`
abbrev pub is_negative : Rat → Bool
is_negative r = ltb r.plus r.minus

infix 50 ◌≤ᵣ◌
abbrev pub ◌≤ᵣ◌ : Rat → Rat → Type 0
a ≤ᵣ b = left_side a b ≤ right_side a b

abbrev pub magnitude : Rat → ℕ
magnitude r = if is_negative r then r.minus - r.plus else r.plus - r.minus

-- The number of ten-thousandths nearest to |r|, halves up: the digits that `FloatString(4)` prints.
unfoldable pub round4 : Rat → ℕ
round4 r = (2 * magnitude r * 10_000 + den r) / (2 * den r)

-- The integer that `FloatString(4)` prints, in ten-thousandths.
abbrev pub signed_units : Bool → ℕ → ℤ
signed_units neg u = if neg then sub_ℕ 0 u else pos u

unfoldable pub units : Rat → ℤ
units r = signed_units (is_negative r) (round4 r)

abbrev pub of_units : ℤ → Rat
of_units z = over (pos_part z) (neg_part z) 10_000
