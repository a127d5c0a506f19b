-- ===== src/Aging/Tests.antt =====
-- A report on three invoices, and an instance of the theorem.
use teggo.Prelude.{ℕ, ◌≡◌, refl, List, [], ◌∷◌, arith}
use teggo.Prelude.Int.{ℤ, pos, negsuc}
use teggo.Prelude.Text.{Text, codes}
use teggo.Money.Rat
use teggo.Money.Rat.{over}
use teggo.Money.Decimal.{parse, format}
use teggo.Money.Amount.{sum, add_all}
use teggo.Money.Amount.Sums.{amount_of, IsExact, Denotes-IsExact}
use teggo.Aging.{
  Invoice, Bucket, to_30, to_60, to_90, over_90, bucket_for, Buckets, at, add_to, fill, open_total,
  invoice_aging,
}
use teggo.Aging.Fill.{due_in}
use teggo.Aging.Totals.{all_due, invoice_aging_sound}

abbrev invoice : ℕ → Text → ℤ → Invoice
invoice id total days = record { public_id = id; grand_total = total; days_overdue = days }

abbrev invoices : List Invoice
invoices =
    invoice 1 (codes "5") (negsuc 9)
    ∷ invoice 2 (codes "10") (pos 30)
    ∷ invoice 3 (codes "5") (pos 120)
    ∷ []

abbrev report : Buckets
report = record {
  current_total = codes "5.0000";
  to_30_total = codes "10.0000";
  to_60_total = codes "0";
  to_90_total = codes "0";
  over_90_total = codes "5.0000";
}

run : invoice_aging invoices ≡ (report, codes "20.0000")
unfolding invoice_aging fill add_to bucket_for open_total sum add_all parse format Rat.add
    Rat.round4
run = refl

boundaries :
    (bucket_for (pos 30) ≡ to_30)
    × (bucket_for (pos 31) ≡ to_60)
    × (bucket_for (pos 90) ≡ to_90)
    × (bucket_for (pos 91) ≡ over_90)
unfolding bucket_for
boundaries = (refl, refl, refl, refl)

five : IsExact (codes "5")
unfolding parse
five = Denotes-IsExact (codes "5") (pos 50_000) (over 5 0 1, refl, omega arith)

ten : IsExact (codes "10")
unfolding parse
ten = Denotes-IsExact (codes "10") (pos 100_000) (over 10 0 1, refl, omega arith)

invoice_aging_sound_example :
    let (buckets, total) = invoice_aging invoices in
    ((k : Bucket) → amount_of (at buckets k) ≡ due_in k invoices)
    × (amount_of total ≡ all_due invoices)
invoice_aging_sound_example = invoice_aging_sound invoices (five, (ten, (five, tt)))
