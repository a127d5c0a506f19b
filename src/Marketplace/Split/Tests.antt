-- ===== src/Marketplace/Split/Tests.antt =====
-- A split at concrete lines, and instances of the theorems.
use teggo.Prelude.{ℕ, ◌≡◌, refl, Option, none, some, List, [], ◌∷◌, All, ◌==◌, if◌then◌else◌}
use teggo.Prelude.Int.{◌+ℤ◌}
use teggo.Prelude.Text.{Text, codes}
use teggo.Money.Rat
use teggo.Money.Rat.{over}
use teggo.Money.Decimal.{parse, format}
use teggo.Money.Amount
use teggo.Money.Amount.{sum, percent, add_all}
use teggo.Marketplace.Split.{
  Line, VendorOrder, Store, add_item, add_line, group_lines, create_vendor_order, tag_items,
  split_vendor, split_vendors, split_order,
}
use teggo.Marketplace.Split.Balance.{IsBalanced, split_order-IsBalanced}
use teggo.Money.Amount.Sums.{IsExact, amount_of, sum_by}
use teggo.Marketplace.Split.Lines.{gross_of, line_value, split_order-gross}

abbrev line : ℕ → Text → Option ℕ → Line
line i t v = record { id = i; row_total = t; vendor_id = v }

abbrev rows : List Line
rows =
    line 1 (codes "10.0000") (some 7)
    ∷ line 2 (codes "5.5000") none
    ∷ line 3 (codes "0.0500") (some 7)
    ∷ line 4 (codes "2.0000") (some 8)
    ∷ []

abbrev rates : ℕ → Option Text
rates v = if v == 7 then some (codes "12.5") else if v == 8 then some (codes "10") else none

abbrev empty : Store
empty = record { vendor_orders = []; tags = [] }

abbrev vendor_order : ℕ → Text → Text → Text → Text → VendorOrder
vendor_order v gross rate commission net = record {
  organization_id = 1;
  order_id = 30;
  vendor_id = v;
  currency = "EUR";
  gross_total = gross;
  commission_rate = rate;
  commission_total = commission;
  net_total = net;
}

abbrev after : Store
after = record {
  vendor_orders =
      vendor_order 8 (codes "2.0000") (codes "10") (codes "0.2000") (codes "1.8000")
      ∷ vendor_order 7 (codes "10.0500") (codes "12.5") (codes "1.2563") (codes "8.7937")
      ∷ [];
  tags = (4, 8) ∷ (3, 7) ∷ (1, 7) ∷ [];
}

run : split_order rates 1 30 "EUR" rows empty ≡ some after
unfolding split_order split_vendors split_vendor group_lines add_line add_item create_vendor_order
    tag_items sum add_all percent Amount.sub parse format Rat.add Rat.sub Rat.mul Rat.quo_ℕ
    Rat.round4
run = refl

-- A vendor that is not found aborts the whole split.
unknown_vendor : split_order rates 1 30 "EUR" (line 1 (codes "1") (some 9) ∷ []) empty ≡ none
unfolding split_order split_vendors split_vendor group_lines add_line add_item sum add_all parse
unknown_vendor = refl

rows-IsExact : All (λ l. IsExact l.row_total) rows
unfolding amount_of parse Rat.units Rat.round4
rows-IsExact = (
  (over 100000 0 10000, refl, refl),
  (
    (over 55000 0 10000, refl, refl),
    ((over 500 0 10000, refl, refl), ((over 20000 0 10000, refl, refl), tt)),
  ),
)

split_order-IsBalanced_example : All IsBalanced after.vendor_orders
split_order-IsBalanced_example = split_order-IsBalanced rates 1 30 "EUR" rows empty tt run

split_order-gross_example :
    sum_by gross_of after.vendor_orders
    ≡ sum_by gross_of empty.vendor_orders +ℤ sum_by line_value rows
split_order-gross_example = split_order-gross rates 1 30 "EUR" rows empty rows-IsExact run
