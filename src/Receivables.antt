-- ===== src/Receivables.antt =====
-- internal/modules/otc: invoices and their payments (invoices.go, payments.go), over the rows of the two
-- tables. NUMERIC columns are integers, in ten-thousandths. The ids that the database gives to new rows
-- are inputs; the payment gateway is a parameter. A query fails only where this file says so.
pub mod Pay
pub mod Settled
pub mod Totals
pub mod Ready
pub mod Paid
pub mod History
pub mod Once
pub mod Tests
use teggo.Prelude.{
  ℕ, Bool, true, false, ◌&&◌, ◌||◌, Option, none, some, List, [], ◌∷◌, ◌++◌, ◌==◌, if◌then◌else◌,
  String, str_eq, map, Ordering,
}
use teggo.Prelude.Text.{Text, codes, text_eq, to_lower, trim_space}
use teggo.Prelude.Int.{ℤ, pos, ◌+ℤ◌}
use teggo.Inventory.{column, numeric}
use teggo.Money.Amount.{sum, cmp, or_empty, or_equal}

-- A value of a column that a request writes, as NUMERIC takes NaN; the columns of invoices are written
-- from printed amounts.
pub data Numeric : Type 0 where
  number : ℤ → Numeric
  nan : Numeric

-- Addition of numeric, and what a query returns for one.
abbrev pub plus : Numeric → Numeric → Numeric
plus (number a) (number b) = number (a +ℤ b)
plus _ _ = nan

abbrev pub column_of : Numeric → Text
column_of (number z) = column z
column_of nan = codes "NaN"

-- `$n::numeric` of an amount: NaN is spelled in any case, with spaces around.
abbrev pub is_nan : Text → Bool
is_nan t = text_eq (to_lower (trim_space t)) (codes "nan")

abbrev pub numbered : Option ℤ → Option Numeric
numbered none = none
numbered (some z) = some (number z)

unfoldable pub numeric_or_nan : Text → Option Numeric
numeric_or_nan t = if is_nan t then some nan else numbered (numeric t)

-- A row of invoices.
pub record Invoice : Type 0 where
  pub id : ℕ
  pub public_id : ℕ
  pub order_id : ℕ
  pub customer_id : ℕ
  pub status : String
  pub currency : String
  pub subtotal : ℤ
  pub tax_total : ℤ
  pub grand_total : ℤ

-- A row of payments.
pub record Payment : Type 0 where
  pub id : ℕ
  pub invoice_id : Option ℕ
  pub order_id : Option ℕ
  pub customer_id : ℕ
  pub method : String
  pub gateway : Option String
  pub gateway_reference : Option String
  pub amount : Numeric
  pub currency : String
  pub status : String

-- A row of orders, and of its items.
pub record Order : Type 0 where
  pub id : ℕ
  pub organization_id : ℕ
  pub customer_id : ℕ
  pub currency : String
  pub status : String

pub record OrderItem : Type 0 where
  pub name : String
  pub quantity : ℤ
  pub unit_price : ℤ
  pub tax_amount : ℤ
  pub row_total : ℤ

-- A row of invoice_items.
pub record InvoiceItem : Type 0 where
  pub invoice_id : ℕ
  pub item : OrderItem

-- `gateway.ChargeRequest`
pub record ChargeRequest : Type 0 where
  pub amount : Text
  pub currency : String
  pub token : String
  pub reference : ℕ

-- The tables, and the charges that the gateway was asked for.
pub record Db : Type 0 where
  pub invoices : List Invoice
  pub invoice_items : List InvoiceItem
  pub payments : List Payment
  pub charges : List ChargeRequest

-- `GetInvoiceByIDInternal`
unfoldable pub get_invoice : ℕ → List Invoice → Option Invoice
get_invoice id [] = none
get_invoice id (i ∷ is) = if i.id == id then some i else get_invoice id is

-- `GetInvoiceByPublicID`
unfoldable pub get_by_public_id : ℕ → List Invoice → Option Invoice
get_by_public_id pid [] = none
get_by_public_id pid (i ∷ is) = if i.public_id == pid then some i else get_by_public_id pid is

-- `SetInvoiceStatus`
unfoldable pub set_status : ℕ → String → List Invoice → List Invoice
set_status id status [] = []
set_status id status (i ∷ is) =
    (if i.id == id then record i { status = status } else i) ∷ set_status id status is

abbrev pub is_id : Option ℕ → ℕ → Bool
is_id none id = false
is_id (some i) id = i == id

abbrev pub counts_for : ℕ → Payment → Bool
counts_for id p = is_id p.invoice_id id && str_eq p.status "captured"

-- `SumCapturedForInvoice`
unfoldable pub sum_captured : ℕ → List Payment → Numeric
sum_captured id [] = number (pos 0)
sum_captured id (p ∷ ps) =
    let rest = sum_captured id ps in if counts_for id p then plus p.amount rest else rest

abbrev pub is_text : Option String → Option String → Bool
is_text (some a) (some b) = str_eq a b
is_text _ _ = false

-- Whether the unique index on (gateway, gateway_reference) refuses a new row.
unfoldable pub is_recorded : Option String → Option String → List Payment → Bool
is_recorded gateway reference [] = false
is_recorded gateway reference (p ∷ ps) =
    (is_text p.gateway gateway && is_text p.gateway_reference reference)
    || is_recorded gateway reference ps

-- `CreatePayment`: `none` is the unique violation.
unfoldable pub create_payment : Payment → Db → Option Db
create_payment p db =
    if is_recorded p.gateway p.gateway_reference db.payments
    then none
    else some (record db { payments = p ∷ db.payments })

abbrev pub is_covered : Ordering → Bool
is_covered Ordering.lt = false
is_covered _ = true

abbrev pub is_settled : Invoice → Bool
is_settled inv = str_eq inv.status "paid" || str_eq inv.status "void"

-- `settleInvoiceIfCovered`: `none` is the error of a missing row. An error of Cmp reads as equal.
unfoldable pub settle_invoice_if_covered : ℕ → Db → Option Db
settle_invoice_if_covered id db = elim (get_invoice id db.invoices) [
  | none ↦ none
  | some inv ↦
      if is_settled inv
      then some db
      else if is_covered
          (or_equal (cmp (column_of (sum_captured id db.payments)) (column inv.grand_total)))
      then some (record db { invoices = set_status id "paid" db.invoices })
      else some db
]

-- The totals of a new invoice: `none` where a text is no number for its column.
abbrev pub subtotals : List OrderItem → Text
subtotals items = or_empty (sum (map (λ it. column it.row_total) items))

abbrev pub taxes : List OrderItem → Text
taxes items = or_empty (sum (map (λ it. column it.tax_amount) items))

abbrev pub freeze : ℕ → List OrderItem → List InvoiceItem
freeze id items = map (λ it. record { invoice_id = id; item = it }) items

-- `createInvoiceForOrder`: the invoice that is issued, or an error.
pub data Issued : Type 0 where
  order_empty : Issued
  not_issued : Issued
  issued : Invoice → Db → Issued

-- The row of a new invoice, of the three totals as columns.
abbrev pub issue : ℕ → ℕ → Order → List OrderItem → Option ℤ → Option ℤ → Option ℤ → Db → Issued
issue id public_id order items (some subtotal) (some tax_total) (some grand_total) db =
    let inv : Invoice = record {
      id = id;
      public_id = public_id;
      order_id = order.id;
      customer_id = order.customer_id;
      status = "issued";
      currency = order.currency;
      subtotal = subtotal;
      tax_total = tax_total;
      grand_total = grand_total;
    } in
    issued inv (record db {
      invoices = inv ∷ db.invoices;
      invoice_items = freeze id items ++ db.invoice_items;
    })
issue id public_id order items _ _ _ db = not_issued

unfoldable pub create_invoice_for_order : ℕ → ℕ → Order → List OrderItem → Db → Issued
create_invoice_for_order id public_id order [] db = order_empty
create_invoice_for_order id public_id order (it ∷ items) db =
    let subtotal = subtotals (it ∷ items) in
    let tax_total = taxes (it ∷ items) in
    let grand = or_empty (sum (subtotal ∷ tax_total ∷ [])) in
    issue id public_id order (it ∷ items) (numeric subtotal) (numeric tax_total) (numeric grand) db

-- `ListInvoicesForOrder`, in the order of their creation.
unfoldable pub invoices_for_order : ℕ → List Invoice → List Invoice
invoices_for_order order_id [] = []
invoices_for_order order_id (i ∷ is) =
    let rest = invoices_for_order order_id is in
    if i.order_id == order_id then rest ++ (i ∷ []) else rest

abbrev pub first_open : Option Invoice → Invoice → Option Invoice
first_open (some o) i = some o
first_open none i = if str_eq i.status "void" then none else some i

-- The loop of `invoiceForOrder`: a paid invoice, or else the first that is not void.
unfoldable pub payable : Option Invoice → List Invoice → Option Invoice
payable open_one [] = open_one
payable open_one (i ∷ is) =
    if str_eq i.status "paid" then some i else payable (first_open open_one i) is

-- `invoiceForOrder`
unfoldable pub invoice_for_order : ℕ → ℕ → Order → List OrderItem → Db → Issued
invoice_for_order id public_id order items db =
    elim (payable none (invoices_for_order order.id db.invoices)) [
      | some inv ↦ issued inv db
      | none ↦ create_invoice_for_order id public_id order items db
    ]
