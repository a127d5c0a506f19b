-- ===== src/Money/Amount.antt =====
-- The operations of internal/money/money.go. `none` is the error of a text that is no decimal.
pub mod Exact
pub mod Order
pub mod Sums
pub mod Sign
pub mod Tests
use teggo.Prelude.{ℕ, ◌≡◌, Ordering, Option, none, some, List, [], ◌∷◌, ◌>>=◌}
use teggo.Prelude.Text.{Text, codes}
use teggo.Money.Rat
use teggo.Money.Rat.{Rat, zero_rat}
use teggo.Money.Decimal.{parse, format}

-- `LineTotal`
unfoldable pub line_total : Text → Text → Option Text
line_total quantity unit_price = do
  q ← parse quantity
  p ← parse unit_price
  some (format (Rat.mul q p))

-- `Sub`
unfoldable pub sub : Text → Text → Option Text
sub a b = do ra ← parse a; rb ← parse b; some (format (Rat.sub ra rb))

-- `Cmp`: lt, eq and gt are -1, 0 and 1.
unfoldable pub cmp : Text → Text → Option Ordering
cmp a b = do ra ← parse a; rb ← parse b; some (Rat.cmp ra rb)

-- `RowTotal`
unfoldable pub row_total : Text → Text → Text → Option Text
row_total quantity unit_price discount = do
  q ← parse quantity
  p ← parse unit_price
  d ← parse discount
  some (format (Rat.sub (Rat.mul q p) d))

-- `Percent`
unfoldable pub percent : Text → Text → Option Text
percent amount rate = do
  a ← parse amount
  p ← parse rate
  some (format (Rat.quo_ℕ (Rat.mul a p) 100))

-- The loop of `Sum`.
unfoldable pub add_all : Rat → List Text → Option Rat
add_all acc [] = some acc
add_all acc (v ∷ vs) = do r ← parse v; add_all (Rat.add acc r) vs

-- `Sum`
unfoldable pub sum : List Text → Option Text
sum values = do acc ← add_all zero_rat values; some (format acc)

-- `x, _ := …` on an amount: the empty text after an error.
abbrev pub or_empty : Option Text → Text
or_empty none = []
or_empty (some t) = t

-- `c, _ := Cmp(…)`: 0 after an error.
abbrev pub or_equal : Option Ordering → Ordering
or_equal none = Ordering.eq
or_equal (some o) = o
