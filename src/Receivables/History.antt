-- ===== src/Receivables/History.antt =====
-- Histories of the operations of internal/modules/otc on invoices and payments.
use mathlib.Core.Path.{subst}
use teggo.Prelude.{
  ◌≡◌, refl, sym, ℕ, Bool, true, false, not, ◌||◌, Option, none, some, List, ◌==◌, if◌then◌else◌,
  String, str_eq, ◌⊎◌, inl, inr, Bool-cases, Option-cases, arith,
}
use teggo.Prelude.Text.{Text}
use teggo.Receivables.{
  Numeric, numeric_or_nan, Payment, Order, OrderItem, Db, create_payment, settle_invoice_if_covered,
  Issued, issued, order_empty, not_issued, create_invoice_for_order,
}
use teggo.Receivables.Pay.{
  Gateway, pay_invoice_by_card, pay_my_order, Billing, PaymentRequest, Recorded, credit_gate,
  settle_if_given, settled_reply, settle_recorded, store_payment, gated, with_status,
  record_payment, is_blank, is_method,
}
use teggo.Receivables.Settled.{IsAmount, IsSound, settle-IsSound, create_payment-IsSound}
use teggo.Receivables.Ready.{IsIssuable, IsReady, create-IsReady}
use teggo.Receivables.Paid.{pay_invoice_by_card-IsSound, pay_my_order-IsSound}

settled_reply-IsSound :
    (p : Payment) (o : Option ℕ) (db : Db)
    → IsSound db
    → IsSound (settled_reply p db (settle_if_given o db)).1
settled_reply-IsSound p none db sound = sound
settled_reply-IsSound p (some id) db sound = elim (Option-cases (settle_invoice_if_covered id db)) [
  | inl missing ↦ rw missing sound
  | inr (db', settled) ↦ rw settled (settle-IsSound id db db' settled sound)
]

settle_recorded-IsSound :
    (p : Payment) (db : Db)
    → IsAmount p.amount
    → IsSound db
    → IsSound (settle_recorded p db (create_payment p db)).1
settle_recorded-IsSound p db nonneg sound = elim (Option-cases (create_payment p db)) [
  | inl twice ↦ rw twice sound
  | inr (db', new) ↦
      let after = create_payment-IsSound p db db' new nonneg sound in
      elim (Bool-cases (str_eq p.status "captured")) [
        | inl captured ↦ rw (new, captured) (settled_reply-IsSound p p.invoice_id db' after)
        | inr other ↦ rw (new, other) after
      ]
]

either-IsSound :
    (b : Bool) (x y : Recorded × Db) → IsSound x.1 → IsSound y.1 → IsSound (if b then x else y).1
either-IsSound true x y p q = p
either-IsSound false x y p q = q

store_payment-IsSound :
    (p : Payment) (z : Numeric) (db : Db)
    → IsAmount z
    → IsSound db
    → IsSound (store_payment p (some z) db).1
store_payment-IsSound p z db nonneg sound =
    either-IsSound _ _ _ sound (settle_recorded-IsSound (record p { amount = z }) db nonneg sound)

gated-IsSound :
    (p : Payment) (amount : Text) (o : Option String) (db : Db)
    → ((z : Numeric) → numeric_or_nan amount ≡ some z → IsAmount z)
    → IsSound db
    → IsSound (gated p amount o db).1
gated-IsSound p amount (some code) db nonneg sound = sound
gated-IsSound p amount none db nonneg sound = elim (Option-cases (numeric_or_nan amount)) [
  | inl no_number ↦ rw no_number sound
  | inr (z, number) ↦ rw number (store_payment-IsSound p z db (nonneg z number) sound)
]

record_payment-cases :
    (org : ℕ) (req : PaymentRequest) (billing : Option Billing) (db : Db)
    → ((record_payment org req billing db).1 ≡ db)
      ⊎ ((o : Option String) × ((record_payment org req billing db).1
            ≡ (gated (with_status req.payment) req.amount o db).1))
unfolding record_payment
record_payment-cases org req none db = inl (ground arith)
record_payment-cases org req (some bill) db =
    let p = with_status req.payment in
    elim (Bool-cases
      (req.payment.customer_id == 0 || (is_blank req.amount || not req.currency_3))) [
        | inl malformed ↦ inl (rw (malformed, record_payment) refl)
        | inr formed ↦ elim (Bool-cases (not (is_method req.payment.method))) [
          | inl unknown ↦ inl (rw (formed, unknown, record_payment) refl)
          | inr known ↦ elim (Bool-cases (not (bill.organization_id == org))) [
            | inl foreign ↦ inl (rw (formed, known, foreign, record_payment) refl)
            | inr own ↦ inr (credit_gate p bill db, rw (formed, known, own, record_payment) refl)
          ]
        ]
      ]

record_payment-IsSound :
    (org : ℕ) (req : PaymentRequest) (billing : Option Billing) (db : Db)
    → ((z : Numeric) → numeric_or_nan req.amount ≡ some z → IsAmount z)
    → IsSound db
    → IsSound (record_payment org req billing db).1
record_payment-IsSound org req billing db nonneg sound =
    elim (record_payment-cases org req billing db) [
      | inl same ↦ subst IsSound (sym same) sound
      | inr (o, passed) ↦
          subst IsSound (sym passed)
            (gated-IsSound (with_status req.payment) req.amount o db nonneg sound)
    ]

-- What an issue leaves.
abbrev after_issue : Issued → Db → Db
after_issue order_empty db = db
after_issue not_issued db = db
after_issue (issued inv db') db = db'

after_issue-IsSound : (i : Issued) (db : Db) → IsReady i → IsSound db → IsSound (after_issue i db)
unfolding IsReady
after_issue-IsSound order_empty db _ sound = sound
after_issue-IsSound not_issued db _ sound = sound
after_issue-IsSound (issued inv db') db (_, ready) sound = ready

-- Any of the operations but a refund, with a new id for each invoice and no amount that is negative or NaN.
pub data Step : Db → Db → Type 0 where
  by_card :
      (gw : Gateway) (token : String) (payment_id customer_id public_id : ℕ) (db : Db)
      → Step db (pay_invoice_by_card gw token payment_id customer_id public_id db).1
  my_order :
      (gw : Gateway) (token : String) (payment_id new_id new_public_id customer_id : ℕ)
      → (order : Order) (items : List OrderItem) (db : Db) → IsIssuable new_id items db
      → Step db
          (pay_my_order gw token payment_id new_id new_public_id customer_id
            (some (order, items))
            db).1
  recording :
      (org : ℕ) (req : PaymentRequest) (billing : Option Billing) (db : Db)
      → ((z : Numeric) → numeric_or_nan req.amount ≡ some z → IsAmount z)
      → Step db (record_payment org req billing db).1
  issuing :
      (id public_id : ℕ) (order : Order) (items : List OrderItem) (db : Db)
      → IsIssuable id items db
      → Step db (after_issue (create_invoice_for_order id public_id order items db) db)

pub data Reaches : Db → Db → Type 0 where
  stay : (db : Db) → Reaches db db
  go : (a b c : Db) → Step a b → Reaches b c → Reaches a c

step-IsSound : (a b : Db) → Step a b → IsSound a → IsSound b
step-IsSound a b (by_card gw token payment_id customer_id public_id db) sound =
    pay_invoice_by_card-IsSound gw token payment_id customer_id public_id db sound
step-IsSound a b (my_order gw token payment_id new_id new_public_id customer_id order items db h)
      sound =
    pay_my_order-IsSound gw token payment_id new_id new_public_id customer_id order items db h sound
step-IsSound a b (recording org req billing db nonneg) sound =
    record_payment-IsSound org req billing db nonneg sound
step-IsSound a b (issuing id public_id order items db h) sound =
    after_issue-IsSound (create_invoice_for_order id public_id order items db) db
      (create-IsReady id public_id order items db h sound) sound

-- Whatever invoices are issued, paid by card or with the order, and whatever payments an operator
-- records, in any order, with a gateway that answers as it will, errors included, but without
-- refunds and without amounts that are negative or NaN, which the table takes: from tables where no
-- id stands twice, no total is negative, each payment is of a number and each paid invoice has
-- captured payments of its total, only such tables are reached.
pub Reaches-IsSound : (a b : Db) → Reaches a b → IsSound a → IsSound b
Reaches-IsSound a b (stay db) sound = sound
Reaches-IsSound a c (go _ b _ s rest) sound = Reaches-IsSound b c rest (step-IsSound a b s sound)
