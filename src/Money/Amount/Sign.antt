-- ===== src/Money/Amount/Sign.antt =====
-- Amounts of zero or more.
use mathlib.Core.Path.{subst₂}
use mathlib.Core.Option.{some-injective}
use teggo.Prelude.{◌≡◌, refl, sym, ◌∙◌, false, arith, some}
use teggo.Prelude.Text.{Text, codes}
use teggo.Money.Rat.{Rat, is_negative, units, of_units, zero_rat, ◌≤ᵣ◌}
use teggo.Money.Decimal.{parse, format}
use teggo.Money.Decimal.RoundTrip.{parse-format}
use teggo.Money.Amount.Order.{◌≼◌}

parse-zero : parse (codes "0") ≡ some zero_rat
unfolding parse
parse-zero = refl

units_nonneg : (r : Rat) → is_negative r ≡ false → zero_rat ≤ᵣ of_units (units r)
unfolding units
units_nonneg r h = rw h (omega arith)

-- What is not negative is printed as zero or more.
pub zero-le-format : (r : Rat) → is_negative r ≡ false → codes "0" ≼ format r
zero-le-format r h = (zero_rat, of_units (units r), parse-zero, parse-format r, units_nonneg r h)

-- A text of zero or more is read as a rational that is not negative.
pub is_negative_of_ge :
    (t : Text) (r : Rat) → codes "0" ≼ t → parse t ≡ some r → is_negative r ≡ false
is_negative_of_ge t r (z, s, ez, et, h) e =
    let same_zero : z ≡ zero_rat = some-injective _ _ (sym ez ∙ parse-zero) in
    let same : s ≡ r = some-injective _ _ (sym et ∙ e) in
    let le : zero_rat ≤ᵣ r = subst₂ ◌≤ᵣ◌ same_zero same h in ground arith
