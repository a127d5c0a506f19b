-- ===== src/Receivables/Tests.antt =====
-- An order of two lines, invoiced and paid by card, and instances of the theorems.
use teggo.Prelude.{◌≡◌, refl, ℕ, true, false, some, [], ◌∷◌, String, str_eq_iff, arith}
use teggo.Prelude.Int.{pos, ◌+ℤ◌}
use teggo.Prelude.Text.{codes, trim_space, to_lower}
use teggo.Money.Decimal.{parse}
use teggo.Money.Amount.{cmp}
use teggo.Money.Amount.Sums.{sum_by}
use teggo.Receivables.{
  number, numeric_or_nan, create_payment, settle_invoice_if_covered, get_invoice, set_status,
  sum_captured, Invoice, Order, OrderItem, Db, issued, create_invoice_for_order, get_by_public_id,
  is_recorded,
}
use teggo.Receivables.Pay.{
  PaymentRequest, Billing, record_payment, credit_gate, Gateway, charged, fail, invoice,
  card_payment, pay_invoice_by_card, pay_my_order,
}
use teggo.Receivables.Settled.{IsSound, IsCovered, IsKeyed}
use teggo.Receivables.Totals.{create_invoice_for_order_sound}
use teggo.Receivables.Ready.{IsIssuable}
use teggo.Receivables.History.{my_order, stay, go, Reaches-IsSound}
use teggo.Receivables.Once.{pay_invoice_by_card_once}

abbrev order : Order
order = record {
  id = 4;
  organization_id = 1;
  customer_id = 7;
  currency = "EUR";
  status = "confirmed";
}

abbrev bolt : OrderItem
bolt = record {
  name = "bolt";
  quantity = pos 20_000;
  unit_price = pos 50_000;
  tax_amount = pos 19_000;
  row_total = pos 100_000;
}

abbrev due : Invoice
due = record {
  id = 1;
  public_id = 11;
  order_id = 4;
  customer_id = 7;
  status = "issued";
  currency = "EUR";
  subtotal = pos 100_000;
  tax_total = pos 19_000;
  grand_total = pos 119_000;
}

abbrev empty_db : Db
empty_db = record { invoices = []; invoice_items = []; payments = []; charges = [] }

abbrev billed_db : Db
billed_db = record empty_db { invoices = due ∷ [] }

abbrev card : Gateway
card = record { provider = "mock"; create_charge = λ r. charged "ch_1" }

abbrev paid : Invoice
paid = record due { status = "paid" }

empty-IsSound : IsSound empty_db
unfolding IsKeyed
empty-IsSound = record { keyed = tt; covered = tt; billed = tt; numbers = tt }

billed-IsSound : IsSound billed_db
unfolding IsKeyed IsCovered
billed-IsSound = record {
  keyed = (tt, tt);
  covered = ((λ e. cc ((str_eq_iff "issued" "paid").1 e)), tt);
  billed = (omega arith, tt);
  numbers = tt;
}

found : get_by_public_id 11 billed_db.invoices ≡ some due
unfolding get_by_public_id
found = refl

unrecorded : is_recorded (some "mock") (some "ch_1") billed_db.payments ≡ false
unfolding is_recorded
unrecorded = refl

pay_invoice_by_card_once_example :
    (after : Db) × (pay_invoice_by_card card "tok" 1 7 11 billed_db ≡ (invoice paid, after))
    × (after.payments ≡ card_payment 1 7 "mock" "ch_1" due ∷ [])
    × ((gw' : Gateway) (token' : String) (payment_id' : ℕ)
        → pay_invoice_by_card gw' token' payment_id' 7 11 after ≡ (fail 409 "already_paid", after))
pay_invoice_by_card_once_example =
    pay_invoice_by_card_once card "tok" "ch_1" 1 7 11 due billed_db billed-IsSound tt found refl
      refl refl unrecorded

create_invoice_for_order_sound_example :
    let rows = sum_by (λ (i : OrderItem). i.row_total) (bolt ∷ []) in
    let tax = sum_by (λ (i : OrderItem). i.tax_amount) (bolt ∷ []) in
    (inv : Invoice) × (db' : Db) × (create_invoice_for_order 1 11 order (bolt ∷ []) empty_db
      ≡ issued inv db')
    × (inv.id ≡ 1)
    × (inv.status ≡ "issued")
    × (inv.customer_id ≡ 7)
    × (inv.subtotal ≡ rows)
    × (inv.tax_total ≡ tax)
    × (inv.grand_total ≡ rows +ℤ tax)
    × (db'.invoices ≡ inv ∷ [])
    × (db'.payments ≡ [])
create_invoice_for_order_sound_example = create_invoice_for_order_sound 1 11 order bolt [] empty_db

issuable : IsIssuable 1 (bolt ∷ []) empty_db
issuable = record { new_id = tt; rows = (omega arith, tt); taxes = (omega arith, tt) }

abbrev bought : Db
bought = (pay_my_order card "tok" 1 1 11 7 (some (order, bolt ∷ [])) empty_db).1

Reaches-IsSound_example : IsSound bought
Reaches-IsSound_example =
    Reaches-IsSound empty_db bought
      (go empty_db bought bought (my_order card "tok" 1 1 11 7 order (bolt ∷ []) empty_db issuable)
        (stay bought))
      empty-IsSound

abbrev not_a_number : PaymentRequest
not_a_number = record {
  payment = record (card_payment 1 7 "mock" "ch_9" due) {
    status = "captured";
    amount = number (pos 0);
  };
  amount = codes "NaN";
  currency_3 = true;
}

abbrev terms : Billing
terms = record { organization_id = 1; payment_terms_days = pos 30; credit_limit = number (pos 0) }

-- The table takes NaN, and an error of Cmp reads as equal: the invoice counts as paid.
nan_pays : (record_payment 1 not_a_number (some terms) billed_db).1.invoices ≡ paid ∷ []
unfolding record_payment numeric_or_nan trim_space to_lower credit_gate create_payment is_recorded
    settle_invoice_if_covered get_invoice set_status sum_captured cmp parse
nan_pays = refl
