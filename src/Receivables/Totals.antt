-- ===== src/Receivables/Totals.antt =====
-- The totals of an invoice that internal/modules/otc/invoices.go issues.

use mathlib.Core.Path.{subst}
use teggo.Prelude.{◌≡◌, refl, ap, ℕ, List, [], ◌∷◌, map}
use teggo.Prelude.Text.{Text}
use teggo.Prelude.Int.{ℤ, ◌+ℤ◌, +ℤ_zero}
use teggo.Money.Amount.{sum, or_empty}
use teggo.Money.Amount.Exact.{Denotes, DenoteAll, total, sum-Denotes}
use teggo.Money.Amount.Sums.{sum_by}
use teggo.Inventory.{column}
use teggo.Inventory.Columns.{column-Denotes, numeric-Denotes}
use teggo.Receivables.{
  Invoice, Order, OrderItem, Db, subtotals, taxes, issued, create_invoice_for_order,
}

columns-Denote :
    {A : Type 0} (f : A → ℤ) (xs : List A) → DenoteAll (map (λ x. column (f x)) xs) (map f xs)
columns-Denote f [] = tt
columns-Denote f (x ∷ xs) = (column-Denotes (f x), columns-Denote f xs)

total-map : {A : Type 0} (f : A → ℤ) (xs : List A) → total (map f xs) ≡ sum_by f xs
total-map f [] = refl
total-map f (x ∷ xs) = ap (λ z. f x +ℤ z) (total-map f xs)

summed : (ts : List Text) (zs : List ℤ) → DenoteAll ts zs → Denotes (or_empty (sum ts)) (total zs)
summed ts zs d = let (t, e, k) = sum-Denotes ts zs d in rw e k

sum_columns :
    {A : Type 0} (f : A → ℤ) (xs : List A)
    → Denotes (or_empty (sum (map (λ x. column (f x)) xs))) (sum_by f xs)
sum_columns f xs =
    rw (← total-map f xs) (summed (map (λ x. column (f x)) xs) (map f xs) (columns-Denote f xs))

-- An order with lines is invoiced: the invoice is issued, for the customer of the order, its subtotal
-- is the sum of the row totals, its tax total that of the line taxes, and its grand total the sum of
-- both, to the ten-thousandth; it is the newest row, and no other row or payment changes.
pub create_invoice_for_order_sound :
    (id public_id : ℕ) (order : Order) (it : OrderItem) (items : List OrderItem) (db : Db)
    → let rows = sum_by (λ i. i.row_total) (it ∷ items) in
      let tax = sum_by (λ i. i.tax_amount) (it ∷ items) in
      (inv : Invoice) × (db' : Db) × (create_invoice_for_order id public_id order (it ∷ items) db
        ≡ issued inv db')
      × (inv.id ≡ id)
      × (inv.status ≡ "issued")
      × (inv.customer_id ≡ order.customer_id)
      × (inv.subtotal ≡ rows)
      × (inv.tax_total ≡ tax)
      × (inv.grand_total ≡ rows +ℤ tax)
      × (db'.invoices ≡ inv ∷ db.invoices)
      × (db'.payments ≡ db.payments)
unfolding create_invoice_for_order
create_invoice_for_order_sound id public_id order it items db =
    let lines = it ∷ items in
    let rows = sum_by (λ (i : OrderItem). i.row_total) lines in
    let tax = sum_by (λ (i : OrderItem). i.tax_amount) lines in
    let a : Denotes (subtotals lines) rows = sum_columns (λ i. i.row_total) lines in
    let b : Denotes (taxes lines) tax = sum_columns (λ i. i.tax_amount) lines in
    let c : Denotes (or_empty (sum (subtotals lines ∷ taxes lines ∷ []))) (rows +ℤ tax) =
      subst (Denotes (or_empty (sum (subtotals lines ∷ taxes lines ∷ []))))
        (ap (λ z. rows +ℤ z) (+ℤ_zero tax))
        (summed (subtotals lines ∷ taxes lines ∷ []) (rows ∷ tax ∷ []) (a, (b, tt))) in
    rw (numeric-Denotes _ rows a, numeric-Denotes _ tax b, numeric-Denotes _ (rows +ℤ tax) c)
      (_, _, refl, refl, refl, refl, refl, refl, refl, refl, refl)
