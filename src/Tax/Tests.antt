-- ===== src/Tax/Tests.antt =====
-- An order taxed by both providers, and instances of the theorems.
use teggo.Prelude.{ℕ, ◌≡◌, ◌⊎◌, refl, Option, none, some, List, [], ◌∷◌, map, String}
use teggo.Prelude.Text.{Text, codes}
use teggo.Money.Rat
use teggo.Money.Decimal.{parse, format}
use teggo.Money.Amount.{sum, add_all}
use teggo.Tax.{
  Table, OrderLine, taxed, tax_of, tax_lines, look_up, class_of, calculate, local_rate,
  calculate_local, mock_rate, calculate_mock, request, request_line, overwrite, compute_order_tax,
}
use teggo.Tax.Total.{IsTaxed, IsUntaxed, local_vat, mock_external, provider_of, rate_by}
use teggo.Tax.Order.{IsExempt, rows_of, compute_order_tax_sound}

abbrev order : List OrderLine
order =
    record { product_id = 1; amount = codes "100.0000" }
    ∷ record { product_id = 2; amount = codes "9.9900" }
    ∷ record { product_id = 3; amount = codes "5" }
    ∷ []

abbrev classes : Option (List (ℕ × String))
classes = some ((1, "standard") ∷ (2, "reduced") ∷ [])

abbrev rates : Option Table
rates = some (("standard", codes "0.1600") ∷ ("reduced", codes "0.0800") ∷ [])

abbrev per_line : List Text
per_line = codes "16.0000" ∷ codes "0.7992" ∷ codes "0.8000" ∷ []

by_table :
    compute_order_tax (provider_of local_vat) "KE" order classes rates
    ≡ taxed per_line (codes "17.5992")
unfolding compute_order_tax calculate_local calculate tax_lines tax_of local_rate look_up class_of
    request overwrite sum add_all parse format Rat.add Rat.mul Rat.round4
by_table = refl

by_mock :
    compute_order_tax (provider_of (mock_external [] (codes "0.2"))) "US" order classes none
    ≡ taxed (codes "20.0000" ∷ codes "1.9980" ∷ codes "1.0000" ∷ []) (codes "22.9980")
unfolding compute_order_tax calculate_mock calculate tax_lines tax_of mock_rate look_up class_of
    request overwrite sum add_all parse format Rat.add Rat.mul Rat.round4
by_mock = refl

no_rates :
    compute_order_tax none "KE" order classes (some [])
    ≡ taxed (codes "0" ∷ codes "0" ∷ codes "0" ∷ []) (codes "0")
unfolding compute_order_tax
no_rates = refl

compute_order_tax_sound_example :
    (IsExempt local_vat "KE" order rates × IsUntaxed order per_line (codes "17.5992"))
    ⊎ IsTaxed
        (rate_by local_vat rates)
        (map (request_line (rows_of classes)) order)
        per_line
        (codes "17.5992")
compute_order_tax_sound_example =
    compute_order_tax_sound local_vat "KE" order classes rates per_line (codes "17.5992") by_table
