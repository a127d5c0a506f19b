-- ===== src/Aging/Totals.antt =====
-- The buckets of the report as sums of the invoices.
use teggo.Prelude.{◌≡◌, refl, sym, ◌∙◌, ap, List, [], ◌∷◌, All, if◌then◌else◌}
use teggo.Prelude.Int.{ℤ, pos, ◌+ℤ◌, int_laws, zero_+ℤ}
use teggo.Prelude.Text.{codes}
use teggo.Money.Amount.Exact.{Denotes, zero-Denotes, sum-Denotes}
use teggo.Money.Amount.Sums.{amount_of, amount_of-Denotes, IsExact, Denotes-IsExact, sum_by}
use teggo.Aging.{
  Invoice, Bucket, current, to_30, to_60, to_90, over_90, bucket_for, Buckets, at, zero_buckets,
  fill, open_total, invoice_aging,
}
use teggo.Aging.Fill.{AllExact, same, due_in, falls_in, bucket_for_lem, fill-Denotes}

abbrev pub all_due : List Invoice → ℤ
all_due = sum_by (λ inv. amount_of inv.grand_total)

-- The five sums, as the report adds them.
abbrev five : (Bucket → ℤ) → ℤ
five f = f current +ℤ (f to_30 +ℤ (f to_60 +ℤ (f to_90 +ℤ (f over_90 +ℤ pos 0))))

one_bucket : (k : Bucket) (z : ℤ) → five (λ k'. if same k k' then z else pos 0) ≡ z
one_bucket current z = omega int_laws
one_bucket to_30 z = omega int_laws
one_bucket to_60 z = omega int_laws
one_bucket to_90 z = omega int_laws
one_bucket over_90 z = omega int_laws

five_ap : (f g : Bucket → ℤ) → ((k : Bucket) → f k ≡ g k) → five f ≡ five g
five_ap f g e = rw (e current, e to_30, e to_60, e to_90, e over_90) refl

in_its_bucket : (days z : ℤ) → five (λ k. if falls_in k days then z else pos 0) ≡ z
in_its_bucket days z =
    five_ap (λ k. if falls_in k days then z else pos 0)
      (λ k. if same (bucket_for days) k then z else pos 0)
      (λ k. ap (λ c. if c then z else pos 0) (sym (bucket_for_lem days k)))
    ∙ one_bucket (bucket_for days) z

five_add :
    (a b c d e a' b' c' d' e' : ℤ)
    → (a +ℤ a') +ℤ ((b +ℤ b') +ℤ ((c +ℤ c') +ℤ ((d +ℤ d') +ℤ ((e +ℤ e') +ℤ pos 0))))
      ≡ (a +ℤ (b +ℤ (c +ℤ (d +ℤ (e +ℤ pos 0))))) +ℤ (a' +ℤ (b' +ℤ (c' +ℤ (d' +ℤ (e' +ℤ pos 0)))))
five_add a b c d e a' b' c' d' e' = omega int_laws

five_due : (invoices : List Invoice) → five (λ k. due_in k invoices) ≡ all_due invoices
five_due [] = omega int_laws
five_due (inv ∷ invoices) =
    five_add _ _ _ _ _ _ _ _ _ _
    ∙ ap (λ z. z +ℤ five (λ k. due_in k invoices))
        (in_its_bucket inv.days_overdue (amount_of inv.grand_total))
    ∙ ap (λ z. amount_of inv.grand_total +ℤ z) (five_due invoices)

zero-AllExact : AllExact zero_buckets
zero-AllExact current = Denotes-IsExact (codes "0") (pos 0) zero-Denotes
zero-AllExact to_30 = Denotes-IsExact (codes "0") (pos 0) zero-Denotes
zero-AllExact to_60 = Denotes-IsExact (codes "0") (pos 0) zero-Denotes
zero-AllExact to_90 = Denotes-IsExact (codes "0") (pos 0) zero-Denotes
zero-AllExact over_90 = Denotes-IsExact (codes "0") (pos 0) zero-Denotes

zero_at : (k : Bucket) → amount_of (at zero_buckets k) ≡ pos 0
zero_at current = amount_of-Denotes (codes "0") (pos 0) zero-Denotes
zero_at to_30 = amount_of-Denotes (codes "0") (pos 0) zero-Denotes
zero_at to_60 = amount_of-Denotes (codes "0") (pos 0) zero-Denotes
zero_at to_90 = amount_of-Denotes (codes "0") (pos 0) zero-Denotes
zero_at over_90 = amount_of-Denotes (codes "0") (pos 0) zero-Denotes

open_total-Denotes :
    (b : Buckets) → AllExact b → Denotes (open_total b) (five (λ k. amount_of (at b k)))
unfolding open_total
open_total-Denotes b h =
    let amounts =
      amount_of b.current_total
      ∷ amount_of b.to_30_total
      ∷ amount_of b.to_60_total
      ∷ amount_of b.to_90_total
      ∷ amount_of b.over_90_total
      ∷ [] in
    let (t, e, d) =
      sum-Denotes
        (b.current_total ∷ b.to_30_total ∷ b.to_60_total ∷ b.to_90_total ∷ b.over_90_total ∷ [])
        amounts (h current, (h to_30, (h to_60, (h to_90, (h over_90, tt))))) in
    rw e d

-- For invoices of exact amounts, each bucket of the report is the sum of the invoices whose days
-- overdue it is for: none or less, from 1 to 30, from 31 to 60, from 61 to 90, above 90; and the open
-- total is the sum of all invoices.
pub invoice_aging_sound :
    (invoices : List Invoice)
    → All (λ inv. IsExact inv.grand_total) invoices
    → let (buckets, total) = invoice_aging invoices in
      ((k : Bucket) → amount_of (at buckets k) ≡ due_in k invoices)
      × (amount_of total ≡ all_due invoices)
unfolding invoice_aging
invoice_aging_sound invoices h =
    let (exact, totals) = fill-Denotes zero_buckets invoices zero-AllExact h in
    let due : (k : Bucket) → amount_of (at (fill zero_buckets invoices) k) ≡ due_in k invoices =
      λ k. totals k ∙ ap (λ z. z +ℤ due_in k invoices) (zero_at k) ∙ zero_+ℤ (due_in k invoices) in
    (
      due,
      amount_of-Denotes _ _ (open_total-Denotes (fill zero_buckets invoices) exact)
          ∙ five_ap _ _ due
          ∙ five_due invoices,
    )
