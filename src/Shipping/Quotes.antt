-- ===== src/Shipping/Quotes.antt =====
-- The quotes of both providers, over exact amounts.

use teggo.Prelude.{
  ◌≡◌, ◌↔◌, refl, sym, ◌∙◌, ap, true, false, Option, none, some, List, [], ◌∷◌, All, if◌then◌else◌,
  Bool-cases, inl, inr, arith,
}
use teggo.Prelude.Text.{Text, codes}
use teggo.Prelude.Int.{ℤ, pos, ◌+ℤ◌, ◌≤ℤ◌, +ℤ_zero}
use teggo.Money.Rat.{over}
use teggo.Money.Decimal.{parse}
use teggo.Money.Amount.Exact.{Denotes, compare_ℤ, cmp-Denotes, sum-Denotes}
use teggo.Money.Amount.Sums.{amount_of, amount_of-Denotes, IsExact}
use teggo.Shipping.{
  RateRow, RateQuote, default, is_ge, waived, quote, local_quote, local_rates, MockCarrier,
  carrier_of, mock_quote, mock_rates,
}

ge_compare : (x y : ℤ) → (is_ge (some (compare_ℤ x y)) ≡ true) ↔ (y ≤ℤ x)
ge_compare x y = ground arith

-- The fee is waived exactly where the subtotal reaches the row's threshold.
abbrev pub FreeOver : ℤ → Option Text → Type 0
FreeOver s none = ⊥
FreeOver s (some t) = amount_of t ≤ℤ s

abbrev pub ExactOver : Option Text → Type 0
ExactOver none = Unit
ExactOver (some t) = IsExact t

waived_iff :
    (subtotal : Text) (over : Option Text)
    → IsExact subtotal
    → ExactOver over
    → (waived subtotal over ≡ true) ↔ FreeOver (amount_of subtotal) over
unfolding waived
waived_iff subtotal none h k = (λ e. cc, λ z. absurd z)
waived_iff subtotal (some t) h k =
    rw (cmp-Denotes subtotal t (amount_of subtotal) (amount_of t) h k)
      (ge_compare (amount_of subtotal) (amount_of t))

-- One quote of a row: free where the fee is waived, else the row's amount and the provider's fee.
abbrev pub IsQuote : ℤ → (RateRow → Text) → ℤ → RateRow → RateQuote → Type 0
IsQuote s carrier fee row q =
    (q.service ≡ row.service)
    × (q.carrier ≡ carrier row)
    × ((q.free ≡ true) ↔ FreeOver s row.free_over)
    × (amount_of q.amount ≡ (if q.free then pos 0 else amount_of row.amount +ℤ fee))

abbrev pub AreQuotes : ℤ → (RateRow → Text) → ℤ → List RateRow → List RateQuote → Type 0
AreQuotes s carrier fee [] [] = Unit
AreQuotes s carrier fee [] (q ∷ qs) = ⊥
AreQuotes s carrier fee (row ∷ rows) [] = ⊥
AreQuotes s carrier fee (row ∷ rows) (q ∷ qs) =
    IsQuote s carrier fee row q × AreQuotes s carrier fee rows qs

abbrev pub ExactRow : RateRow → Type 0
ExactRow row = IsExact row.amount × ExactOver row.free_over

free-Denotes : Denotes (codes "0.0000") (pos 0)
unfolding parse
free-Denotes = (over 0 0 10_000, refl, omega arith)

free-amount_of : amount_of (codes "0.0000") ≡ pos 0
free-amount_of = amount_of-Denotes _ _ free-Denotes

abbrev pub local_carrier : RateRow → Text
local_carrier row = default row.carrier (codes "local")

local_quote-IsQuote :
    (subtotal : Text) (row : RateRow)
    → IsExact subtotal
    → ExactRow row
    → IsQuote (amount_of subtotal) local_carrier (pos 0) row (local_quote subtotal row)
unfolding local_quote
local_quote-IsQuote subtotal row h (a, over) =
    let free_iff = waived_iff subtotal row.free_over h over in
    elim (Bool-cases (waived subtotal row.free_over)) [
      | inl e ↦ rw e (refl, refl, rw e at free_iff, free-amount_of)
      | inr e ↦ rw e (refl, refl, rw e at free_iff, sym (+ℤ_zero (amount_of row.amount)))
    ]

mock_quote-IsQuote :
    (m : MockCarrier) (subtotal : Text) (row : RateRow)
    → IsExact subtotal
    → IsExact (default m.surcharge (codes "0"))
    → ExactRow row
    → (q : RateQuote) × (mock_quote m subtotal row ≡ some q)
      × IsQuote
          (amount_of subtotal)
          (λ row. carrier_of m)
          (amount_of (default m.surcharge (codes "0")))
          row
          q
unfolding mock_quote
mock_quote-IsQuote m subtotal row h fee (a, over) =
    let free_iff = waived_iff subtotal row.free_over h over in
    let x = amount_of row.amount in
    let y = amount_of (default m.surcharge (codes "0")) in
    let (t, e, d) =
      sum-Denotes (row.amount ∷ default m.surcharge (codes "0") ∷ []) (x ∷ y ∷ []) (a, (fee, tt)) in
    elim (Bool-cases (waived subtotal row.free_over)) [
      | inl w ↦ (
        quote row (carrier_of m) (codes "0.0000") true,
        rw w refl,
        (refl, refl, rw w at free_iff, free-amount_of),
      )
      | inr w ↦ (
        quote row (carrier_of m) t false,
        rw (w, e) refl,
        (refl, refl, rw w at free_iff, amount_of-Denotes t _ d ∙ ap (λ z. x +ℤ z) (+ℤ_zero y)),
      )
    ]

-- For an exact subtotal and rows of exact amounts and thresholds, the local provider quotes each row
-- in its order: free exactly where the row has a threshold that the subtotal reaches, and at the row's
-- amount elsewhere.
pub local_rates-AreQuotes :
    (subtotal : Text) (rows : List RateRow)
    → IsExact subtotal
    → All ExactRow rows
    → AreQuotes (amount_of subtotal) local_carrier (pos 0) rows (local_rates subtotal rows)
unfolding local_rates
local_rates-AreQuotes subtotal [] h k = tt
local_rates-AreQuotes subtotal (row ∷ rows) h (k, ks) =
    (local_quote-IsQuote subtotal row h k, local_rates-AreQuotes subtotal rows h ks)

-- With an exact surcharge too, the mock carrier returns quotes without an error: each row in its
-- order, free exactly where the row has a threshold that the subtotal reaches, and at the row's amount
-- and the surcharge elsewhere.
mock_rates-AreQuotes :
    (m : MockCarrier) (subtotal : Text) (rows : List RateRow)
    → IsExact subtotal
    → IsExact (default m.surcharge (codes "0"))
    → All ExactRow rows
    → (qs : List RateQuote) × (mock_rates m subtotal rows ≡ some qs)
      × AreQuotes
          (amount_of subtotal)
          (λ row. carrier_of m)
          (amount_of (default m.surcharge (codes "0")))
          rows
          qs
unfolding mock_rates
mock_rates-AreQuotes m subtotal [] h fee k = ([], refl, tt)
mock_rates-AreQuotes m subtotal (row ∷ rows) h fee (k, ks) =
    let (q, e, is) = mock_quote-IsQuote m subtotal row h fee k in
    let (qs, e', are) = mock_rates-AreQuotes m subtotal rows h fee ks in
    (q ∷ qs, rw (e, e') refl, (is, are))
