-- ===== src/Receivables/Ready.antt =====
-- The invoice that internal/modules/otc/payments.go finds or issues for an order.
use mathlib.Core.Option.{some-injective}
use mathlib.Core.Path.{subst}
use teggo.Prelude.{
  ◌≡◌, sym, ◌∙◌, ℕ, false, Option, none, some, List, [], ◌∷◌, ◌==◌, String, str_eq, str_eq_iff, All,
  All-append, inl, inr, Bool-cases, Option-cases, arith,
}
use teggo.Prelude.Int.{ℤ, pos, ◌≤ℤ◌, +ℤ_parts}
use teggo.Money.Amount.Sums.{sum_by}
use teggo.Receivables.{
  Invoice, Order, OrderItem, Db, get_by_public_id, Issued, order_empty, not_issued, issued,
  create_invoice_for_order, invoice_for_order, payable, first_open, invoices_for_order,
}
use teggo.Receivables.Settled.{IsNumber, IsSound, IsCovered, IsKeyed}
use teggo.Receivables.Totals.{create_invoice_for_order_sound}

-- An invoice of zero or more.
abbrev pub IsBilled : Invoice → Type 0
IsBilled i = pos 0 ≤ℤ i.grand_total

pub get_by_public_id-IsBilled :
    (pid : ℕ) (is : List Invoice) (inv : Invoice)
    → get_by_public_id pid is ≡ some inv
    → All IsBilled is
    → IsBilled inv
unfolding get_by_public_id
get_by_public_id-IsBilled pid [] inv h _ = absurd (ground arith)
get_by_public_id-IsBilled pid (i ∷ is) inv h (b, bs) = elim (Bool-cases (i.public_id == pid)) [
  | inl own ↦ subst IsBilled (some-injective i inv (rw (get_by_public_id, own) at h)) b
  | inr other ↦ get_by_public_id-IsBilled pid is inv (rw (get_by_public_id, other) at h) bs
]

invoices_for_order-IsBilled :
    (oid : ℕ) (is : List Invoice) → All IsBilled is → All IsBilled (invoices_for_order oid is)
unfolding invoices_for_order
invoices_for_order-IsBilled oid [] _ = tt
invoices_for_order-IsBilled oid (i ∷ is) (b, bs) = elim (Bool-cases (i.order_id == oid)) [
  | inl own ↦ rw own (
      All-append IsBilled (invoices_for_order oid is) (i ∷ [])
        (invoices_for_order-IsBilled oid is bs) (b, tt))
  | inr other ↦ rw other (invoices_for_order-IsBilled oid is bs)
]

abbrev IsBilledIf : Option Invoice → Type 0
IsBilledIf none = Unit
IsBilledIf (some i) = IsBilled i

first_open-IsBilled :
    (o : Option Invoice) (i : Invoice) → IsBilledIf o → IsBilled i → IsBilledIf (first_open o i)
first_open-IsBilled (some o) i h b = h
first_open-IsBilled none i h b = elim (Bool-cases (str_eq i.status "void")) [
  | inl void ↦ rw void tt
  | inr open_one ↦ rw open_one b
]

payable-IsBilled :
    (o : Option Invoice) (is : List Invoice)
    → IsBilledIf o
    → All IsBilled is
    → IsBilledIf (payable o is)
unfolding payable
payable-IsBilled o [] h _ = h
payable-IsBilled o (i ∷ is) h (b, bs) = elim (Bool-cases (str_eq i.status "paid")) [
  | inl paid ↦ rw paid b
  | inr due ↦ rw due (payable-IsBilled (first_open o i) is (first_open-IsBilled o i h b) bs)
]

-- The id of an invoice to come is new, and what is invoiced is zero or more.
pub record IsIssuable (id : ℕ) (items : List OrderItem) (db : Db) : Type 0 where
  pub new_id : All (λ i. (id == i.id) ≡ false) db.invoices
  pub rows : All (λ it. pos 0 ≤ℤ it.row_total) items
  pub taxes : All (λ it. pos 0 ≤ℤ it.tax_amount) items

sum_by_nonneg :
    (f : OrderItem → ℤ) (items : List OrderItem)
    → All (λ it. pos 0 ≤ℤ f it) items
    → pos 0 ≤ℤ sum_by f items
sum_by_nonneg f [] _ = omega arith
sum_by_nonneg f (it ∷ items) (p, ps) =
    omega (arith, sum_by_nonneg f items ps, +ℤ_parts (f it) (sum_by f items))

-- What an invoice that is found or issued is, and the tables with it.
unfoldable pub IsReady : Issued → Type 0
IsReady order_empty = Unit
IsReady not_issued = Unit
IsReady (issued inv db) = IsBilled inv × IsSound db

not_paid : ¬ (◌≡◌ {A = String} "issued" "paid")
not_paid e = cc ((str_eq_iff "issued" "paid").1 e)

added-IsSound :
    (inv : Invoice) (db db' : Db)
    → db'.invoices ≡ inv ∷ db.invoices
    → db'.payments ≡ db.payments
    → inv.status ≡ "issued"
    → All (λ j. (inv.id == j.id) ≡ false) db.invoices
    → IsBilled inv
    → IsSound db
    → IsSound db'
unfolding IsKeyed IsCovered
added-IsSound inv db db' rows pays status apart nonneg sound = record {
  keyed = subst IsKeyed (sym rows) (apart, sound.keyed);
  covered =
      subst (λ ps. All (IsCovered ps) db'.invoices) (sym pays)
        (subst (All (IsCovered db.payments)) (sym rows)
          ((λ paid. absurd (not_paid (sym status ∙ paid))), sound.covered));
  billed = subst (All IsBilled) (sym rows) (nonneg, sound.billed);
  numbers = subst (All (λ p. IsNumber p.amount)) (sym pays) sound.numbers;
}

pub create-IsReady :
    (id public_id : ℕ) (order : Order) (items : List OrderItem) (db : Db)
    → IsIssuable id items db
    → IsSound db
    → IsReady (create_invoice_for_order id public_id order items db)
unfolding IsReady create_invoice_for_order
create-IsReady id public_id order [] db h sound = tt
create-IsReady id public_id order (it ∷ items) db h sound =
    let (inv, db', e, key, status, _, _, _, g, rows_eq, pays_eq) =
      create_invoice_for_order_sound id public_id order it items db in
    let r = sum_by_nonneg (λ (i : OrderItem). i.row_total) (it ∷ items) h.rows in
    let t = sum_by_nonneg (λ (i : OrderItem). i.tax_amount) (it ∷ items) h.taxes in
    let nonneg : IsBilled inv = rw g (
      omega (
        arith,
        r,
        t,
        +ℤ_parts (sum_by (λ (i : OrderItem). i.row_total) (it ∷ items))
            (sum_by (λ (i : OrderItem). i.tax_amount) (it ∷ items)),
      )) in
    let apart : All (λ i. (inv.id == i.id) ≡ false) db.invoices =
      subst (λ x. All (λ (i : Invoice). (x == i.id) ≡ false) db.invoices) (sym key) h.new_id in
    subst IsReady (sym e)
      (nonneg, added-IsSound inv db db' rows_eq pays_eq status apart nonneg sound)

pub invoice_for_order-IsReady :
    (id public_id : ℕ) (order : Order) (items : List OrderItem) (db : Db)
    → IsIssuable id items db
    → IsSound db
    → IsReady (invoice_for_order id public_id order items db)
unfolding IsReady invoice_for_order
invoice_for_order-IsReady id public_id order items db h sound =
    elim (Option-cases (payable none (invoices_for_order order.id db.invoices))) [
      | inl nothing ↦
          rw (nothing, invoice_for_order) (create-IsReady id public_id order items db h sound)
      | inr (inv, found) ↦
          rw (found, invoice_for_order)
            (
              subst IsBilledIf found (
                  payable-IsBilled none (invoices_for_order order.id db.invoices) tt
                    (invoices_for_order-IsBilled order.id db.invoices sound.billed)),
              sound,
            )
    ]
