-- ===== src/Shipping/Tests.antt =====
-- Two rates quoted by both providers, and instances of the theorems.
use teggo.Prelude.{◌≡◌, refl, true, false, none, some, List, [], ◌∷◌, All, arith}
use teggo.Prelude.Int.{pos}
use teggo.Prelude.Text.{codes}
use teggo.Money.Rat
use teggo.Money.Rat.{over}
use teggo.Money.Decimal.{parse, format}
use teggo.Money.Amount.{cmp, sum, add_all}
use teggo.Money.Amount.Sums.{amount_of, IsExact, Denotes-IsExact}
use teggo.Shipping.{
  RateRow, MockCarrier, quote, waived, local_quote, local_rates, mock_quote, mock_rates,
}
use teggo.Shipping.Quotes.{AreQuotes, ExactRow, local_carrier, local_rates-AreQuotes}

abbrev ground_rate : RateRow
ground_rate = record {
  service = codes "ground";
  carrier = [];
  amount = codes "10";
  free_over = none;
}

abbrev express : RateRow
express = record {
  service = codes "express";
  carrier = codes "dhl";
  amount = codes "20";
  free_over = some (codes "100");
}

abbrev rows : List RateRow
rows = ground_rate ∷ express ∷ []

abbrev mock : MockCarrier
mock = record { name = codes "mock_fedex"; surcharge = codes "5" }

local_run :
    local_rates (codes "100") rows
    ≡ quote ground_rate (codes "local") (codes "10") false
      ∷ quote express (codes "dhl") (codes "0.0000") true
      ∷ []
unfolding local_rates local_quote waived cmp parse Rat.cmp
local_run = refl

mock_run :
    mock_rates mock (codes "50") rows
    ≡ some (
        quote ground_rate (codes "mock_fedex") (codes "15.0000") false
        ∷ quote express (codes "mock_fedex") (codes "25.0000") false
        ∷ [])
unfolding mock_rates mock_quote waived cmp sum add_all parse format Rat.cmp Rat.add Rat.round4
mock_run = refl

five : IsExact (codes "5")
unfolding parse
five = Denotes-IsExact (codes "5") (pos 50_000) (over 5 0 1, refl, omega arith)

ten : IsExact (codes "10")
unfolding parse
ten = Denotes-IsExact (codes "10") (pos 100_000) (over 10 0 1, refl, omega arith)

twenty : IsExact (codes "20")
unfolding parse
twenty = Denotes-IsExact (codes "20") (pos 200_000) (over 20 0 1, refl, omega arith)

hundred : IsExact (codes "100")
unfolding parse
hundred = Denotes-IsExact (codes "100") (pos 1_000_000) (over 100 0 1, refl, omega arith)

rows_exact : All ExactRow rows
rows_exact = ((ten, tt), ((twenty, hundred), tt))

local_rates-AreQuotes_example :
    AreQuotes (amount_of (codes "100")) local_carrier (pos 0) rows (local_rates (codes "100") rows)
local_rates-AreQuotes_example = local_rates-AreQuotes (codes "100") rows hundred rows_exact
