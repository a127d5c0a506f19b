-- ===== src/Inventory/Columns.antt =====
-- The money operations on texts of columns, over the integers behind them.
use teggo.Prelude.{◌≡◌, ap, some}
use teggo.Prelude.Text.{Text}
use teggo.Prelude.Int.{ℤ, ◌+ℤ◌, ◌-ℤ◌}
use teggo.Money.Rat
use teggo.Money.Rat.{units, of_units, zero_rat}
use teggo.Money.Rat.Units.{of_units-IsUnits, add-IsUnits, sub-IsUnits, units_exact}
use teggo.Money.Amount
use teggo.Money.Amount.{cmp, or_empty}
use teggo.Money.Amount.Exact.{Denotes, format-Denotes_exact}
use teggo.Inventory.{column, numeric, plus_numeric}

pub column-Denotes : (z : ℤ) → Denotes (column z) z
unfolding column
column-Denotes z = format-Denotes_exact (of_units z) z (of_units-IsUnits z)

pub numeric-Denotes : (t : Text) (z : ℤ) → Denotes t z → numeric t ≡ some z
unfolding numeric
numeric-Denotes t z (r, e, h) = rw (e, numeric) (ap some (units_exact r z h))

pub plus_numeric-Denotes :
    (a : ℤ) (t : Text) (z : ℤ) → Denotes t z → plus_numeric a t ≡ some (a +ℤ z)
unfolding plus_numeric
plus_numeric-Denotes a t z (r, e, h) =
    rw (e, plus_numeric)
      (ap some (
        units_exact (Rat.add (of_units a) r) (a +ℤ z)
          (add-IsUnits (of_units a) r a z (of_units-IsUnits a) h)))

-- The differences that the code takes, with the error ignored.
pub sub-Denotes_or :
    (a b : Text) (x y : ℤ)
    → Denotes a x
    → Denotes b y
    → Denotes (or_empty (Amount.sub a b)) (x -ℤ y)
unfolding Amount.sub
sub-Denotes_or a b x y (ra, ea, ua) (rb, eb, ub) =
    rw (ea, eb) (format-Denotes_exact (Rat.sub ra rb) (x -ℤ y) (sub-IsUnits ra rb x y ua ub))
