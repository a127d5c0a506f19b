-- ===== src/Receivables/Pay.antt =====
-- The handlers of internal/modules/otc/payments.go. Each returns the tables as it leaves them: a charge
-- and the rows written before an error stay.
use teggo.Prelude.{
  ℕ, Bool, true, false, not, ◌&&◌, ◌||◌, Option, none, some, List, [], ◌∷◌, ◌==◌, if◌then◌else◌,
  String, str_eq, Ordering,
}
use teggo.Prelude.Text.{Text}
use teggo.Prelude.Int.{ℤ, pos, ◌+ℤ◌, ltb_ℤ}
use teggo.Inventory.{column}
use teggo.Money.Amount.{cmp, or_equal}
use teggo.Receivables.{
  Numeric, number, column_of, numeric_or_nan, Invoice, Payment, Order, OrderItem, ChargeRequest, Db,
  get_by_public_id, create_payment, settle_invoice_if_covered, Issued, order_empty, not_issued,
  issued, invoice_for_order,
}

-- What `CreateCharge` returns: the reference of the charge, `ErrDeclined`, or another error.
pub data Charged : Type 0 where
  charged : String → Charged
  declined : Charged
  not_processed : Charged

pub record Gateway : Type 0 where
  pub provider : String
  pub create_charge : ChargeRequest → Charged

-- A failure with its status and code, or the invoice that is rendered.
pub data Reply : Type 0 where
  fail : ℕ → String → Reply
  invoice : Invoice → Reply

abbrev pub request_of : String → Invoice → ChargeRequest
request_of token inv = record {
  amount = column inv.grand_total;
  currency = inv.currency;
  token = token;
  reference = inv.public_id;
}

abbrev pub card_payment : ℕ → ℕ → String → String → Invoice → Payment
card_payment id customer_id provider reference inv = record {
  id = id;
  invoice_id = some inv.id;
  order_id = some inv.order_id;
  customer_id = customer_id;
  method = "card";
  gateway = some provider;
  gateway_reference = some reference;
  amount = number inv.grand_total;
  currency = inv.currency;
  status = "captured";
}

-- The tables after `CreatePayment`, where a unique violation is taken for a payment recorded before.
abbrev pub or_recorded : Db → Option Db → Db
or_recorded db none = db
or_recorded db (some db') = db'

-- The invoice read again.
abbrev pub render : Db → Option Invoice → Reply × Db
render db none = (fail 500 "internal", db)
render db (some inv) = (invoice inv, db)

-- From the recorded payment to the response.
abbrev pub settle_and_render : ℕ → Db → Option Db → Reply × Db
settle_and_render public_id db none = (fail 500 "internal", db)
settle_and_render public_id db (some db') = render db' (get_by_public_id public_id db'.invoices)

-- The part that `payInvoiceByCard` and `payMyOrder` share, from the charge on.
unfoldable pub charge_invoice : Gateway → String → ℕ → ℕ → Invoice → Db → Reply × Db
charge_invoice gw token payment_id customer_id inv db =
    let req = request_of token inv in
    let asked = record db { charges = req ∷ db.charges } in
    elim (gw.create_charge req) [
      | declined ↦ (fail 402 "declined", asked)
      | not_processed ↦ (fail 502 "gateway_error", asked)
      | charged reference ↦
          let p = card_payment payment_id customer_id gw.provider reference inv in
          let db' = or_recorded asked (create_payment p asked) in
          settle_and_render inv.public_id db' (settle_invoice_if_covered inv.id db')
    ]

abbrev pub pay_owned : Gateway → String → ℕ → ℕ → Invoice → Db → Reply × Db
pay_owned gw token payment_id customer_id inv db =
    if not (inv.customer_id == customer_id)
    then (fail 404 "not_found", db)
    else if str_eq inv.status "paid"
    then (fail 409 "already_paid", db)
    else if str_eq inv.status "void"
    then (fail 409 "invalid_state", db)
    else charge_invoice gw token payment_id customer_id inv db

-- `payInvoiceByCard`, for the customer of the claims and a public id that parses.
unfoldable pub pay_invoice_by_card : Gateway → String → ℕ → ℕ → ℕ → Db → Reply × Db
pay_invoice_by_card gw token payment_id customer_id public_id db =
    elim (get_by_public_id public_id db.invoices) [
      | none ↦ (fail 404 "not_found", db)
      | some inv ↦ pay_owned gw token payment_id customer_id inv db
    ]

abbrev pub pay_issued : Gateway → String → ℕ → ℕ → Db → Issued → Reply × Db
pay_issued gw token payment_id customer_id db order_empty = (fail 422 "empty_order", db)
pay_issued gw token payment_id customer_id db not_issued = (fail 500 "internal", db)
pay_issued gw token payment_id customer_id db (issued inv db') =
    if str_eq inv.status "paid"
    then (fail 409 "already_paid", db')
    else charge_invoice gw token payment_id customer_id inv db'

-- `payMyOrder`, of the order that the query finds with its items; new_id and new_public_id are for an
-- invoice that is issued.
unfoldable pub pay_my_order :
    Gateway → String → ℕ → ℕ → ℕ → ℕ → Option (Order × List OrderItem) → Db → Reply × Db
pay_my_order gw token payment_id new_id new_public_id customer_id found db = elim found [
  | none ↦ (fail 404 "not_found", db)
  | some (order, items) ↦
      if not (order.customer_id == customer_id)
      then (fail 404 "not_found", db)
      else if str_eq order.status "cancelled"
      then (fail 409 "invalid_state", db)
      else if str_eq order.status "on_hold"
      then (fail 409 "awaiting_approval", db)
      else pay_issued gw token payment_id customer_id db
          (invoice_for_order new_id new_public_id order items db)
]

-- The row of `GetCustomerBilling`.
pub record Billing : Type 0 where
  pub organization_id : ℕ
  pub payment_terms_days : ℤ
  pub credit_limit : Numeric

-- What `recordPayment` decodes. `currency_3` tells whether the currency has three bytes.
pub record PaymentRequest : Type 0 where
  pub payment : Payment
  pub amount : Text
  pub currency_3 : Bool

pub data Recorded : Type 0 where
  not_recorded : ℕ → String → Recorded
  recorded : Payment → Recorded

abbrev pub is_blank : Text → Bool
is_blank [] = true
is_blank (c ∷ s) = false

abbrev pub is_method : String → Bool
is_method m =
    str_eq m "card" || str_eq m "ach" || str_eq m "invoice" || str_eq m "po" || str_eq m "mpesa"

abbrev is_status : String → Bool
is_status s =
    str_eq s "pending"
    || str_eq s "authorized"
    || str_eq s "captured"
    || str_eq s "failed"
    || str_eq s "refunded"

abbrev is_open : ℕ → Invoice → Bool
is_open customer_id i =
    i.customer_id == customer_id && (str_eq i.status "issued" || str_eq i.status "overdue")

-- `SumOpenInvoices`
unfoldable pub sum_open : ℕ → List Invoice → ℤ
sum_open customer_id [] = pos 0
sum_open customer_id (i ∷ is) =
    if is_open customer_id i
    then i.grand_total +ℤ sum_open customer_id is
    else sum_open customer_id is

abbrev is_above : Ordering → Bool
is_above Ordering.gt = true
is_above _ = false

-- The terms and credit gate: a refusal, if any.
unfoldable pub credit_gate : Payment → Billing → Db → Option String
credit_gate p bill db =
    if not (str_eq p.method "invoice")
    then none
    else if not (ltb_ℤ (pos 0) bill.payment_terms_days)
    then some "no_terms"
    else if is_above
        (or_equal (cmp (column (sum_open p.customer_id db.invoices)) (column_of bill.credit_limit)))
    then some "credit_exceeded"
    else none

abbrev pub settle_if_given : Option ℕ → Db → Option Db
settle_if_given none db = some db
settle_if_given (some id) db = settle_invoice_if_covered id db

abbrev pub settled_reply : Payment → Db → Option Db → Recorded × Db
settled_reply p db none = (not_recorded 500 "internal", db)
settled_reply p db (some db') = (recorded p, db')

-- After `CreatePayment`.
abbrev pub settle_recorded : Payment → Db → Option Db → Recorded × Db
settle_recorded p db none = (not_recorded 500 "internal", db)
settle_recorded p db (some db') =
    if str_eq p.status "captured"
    then settled_reply p db' (settle_if_given p.invoice_id db')
    else (recorded p, db')

-- The row written, of an amount that the column takes and a status that the table allows.
abbrev pub store_payment : Payment → Option Numeric → Db → Recorded × Db
store_payment p none db = (not_recorded 500 "internal", db)
store_payment p (some amount) db =
    let row : Payment = record p { amount = amount } in
    if not (is_status p.status)
    then (not_recorded 500 "internal", db)
    else settle_recorded row db (create_payment row db)

abbrev pub gated : Payment → Text → Option String → Db → Recorded × Db
gated p amount (some code) db = (not_recorded 422 code, db)
gated p amount none db = store_payment p (numeric_or_nan amount) db

-- The status "captured" stands for none given.
abbrev pub with_status : Payment → Payment
with_status p = record p { status = if str_eq p.status "" then "captured" else p.status }

-- `recordPayment` by an operator of the org; `billing` is what `GetCustomerBilling` finds.
unfoldable pub record_payment : ℕ → PaymentRequest → Option Billing → Db → Recorded × Db
record_payment org req billing db =
    if req.payment.customer_id == 0 || (is_blank req.amount || not req.currency_3)
    then (not_recorded 400 "bad_request", db)
    else if not (is_method req.payment.method)
    then (not_recorded 400 "bad_request", db)
    else elim billing [
      | none ↦ (not_recorded 400 "bad_request", db)
      | some bill ↦
          let p = with_status req.payment in
          if not (bill.organization_id == org)
          then (not_recorded 400 "bad_request", db)
          else gated p req.amount (credit_gate p bill db) db
    ]

-- `GetPayment` and `SetPaymentStatus`
unfoldable pub get_payment : ℕ → List Payment → Option Payment
get_payment id [] = none
get_payment id (p ∷ ps) = if p.id == id then some p else get_payment id ps

unfoldable pub set_payment_status : ℕ → String → List Payment → List Payment
set_payment_status id status [] = []
set_payment_status id status (p ∷ ps) =
    (if p.id == id then record p { status = status } else p) ∷ set_payment_status id status ps

-- `refundPayment`
unfoldable pub refund_payment : ℕ → Db → Recorded × Db
refund_payment id db = elim (get_payment id db.payments) [
  | none ↦ (not_recorded 404 "not_found", db)
  | some p ↦
      if not (str_eq p.status "captured") && not (str_eq p.status "authorized")
      then (not_recorded 409 "invalid_state", db)
      else (
        recorded (record p { status = "refunded" }),
        record db { payments = set_payment_status id "refunded" db.payments },
      )
]
