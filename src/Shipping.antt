-- ===== src/Shipping.antt =====
-- internal/shipping: quotes from table rates (shipping.go), and the stand-in carrier (mock.go).
pub mod Quotes
pub mod Tests
use teggo.Prelude.{
  ℕ, Bool, true, false, Ordering, Option, none, some, List, [], ◌∷◌, ◌++◌, map, ◌>>=◌, ◌==◌, ◌%◌,
  ◌-◌, ◌&&◌, leb, if◌then◌else◌,
}
use teggo.Prelude.Text.{Text, codes}
use teggo.Money.Amount.{cmp, sum}

-- `RateRow`; `none` is never free. `RateRequest` is used for its subtotal alone.
pub record RateRow : Type 0 where
  pub service : Text
  pub carrier : Text
  pub amount : Text
  pub free_over : Option Text

-- `RateQuote`
pub record RateQuote : Type 0 where
  pub service : Text
  pub carrier : Text
  pub amount : Text
  pub free : Bool

-- `def`
abbrev pub default : Text → Text → Text
default [] d = d
default (b ∷ bs) d = b ∷ bs

abbrev pub is_ge : Option Ordering → Bool
is_ge none = false
is_ge (some Ordering.lt) = false
is_ge (some Ordering.eq) = true
is_ge (some Ordering.gt) = true

-- Whether the fee is waived.
unfoldable pub waived : Text → Option Text → Bool
waived subtotal none = false
waived subtotal (some free_over) = is_ge (cmp subtotal free_over)

abbrev pub quote : RateRow → Text → Text → Bool → RateQuote
quote row carrier amount free = record {
  service = row.service;
  carrier = carrier;
  amount = amount;
  free = free;
}

-- `Local.Rates`, which has no error.
unfoldable pub local_quote : Text → RateRow → RateQuote
local_quote subtotal row =
    if waived subtotal row.free_over
    then quote row (default row.carrier (codes "local")) (codes "0.0000") true
    else quote row (default row.carrier (codes "local")) row.amount false

unfoldable pub local_rates : Text → List RateRow → List RateQuote
local_rates subtotal rows = map (local_quote subtotal) rows

-- `MockCarrier`
pub record MockCarrier : Type 0 where
  pub name : Text
  pub surcharge : Text

abbrev pub carrier_of : MockCarrier → Text
carrier_of m = default m.name (codes "mock_carrier")

unfoldable pub mock_quote : MockCarrier → Text → RateRow → Option RateQuote
mock_quote m subtotal row =
    if waived subtotal row.free_over
    then some (quote row (carrier_of m) (codes "0.0000") true)
    else (sum (row.amount ∷ default m.surcharge (codes "0") ∷ []) >>= λ amount.
        some (quote row (carrier_of m) amount false))

-- `MockCarrier.Rates`
unfoldable pub mock_rates : MockCarrier → Text → List RateRow → Option (List RateQuote)
mock_rates m subtotal [] = some []
mock_rates m subtotal (row ∷ rows) = do
  q ← mock_quote m subtotal row
  qs ← mock_rates m subtotal rows
  some (q ∷ qs)
