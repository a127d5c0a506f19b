-- ===== src/Receivables/Paid.antt =====
-- The paid invoices over a history of payments.

use teggo.Prelude.{ℕ, some, List, ◌∷◌, ◌==◌, String, str_eq, inl, inr, Bool-cases, Option-cases}
use teggo.Prelude.Int.{pos, ◌≤ℤ◌}
use teggo.Receivables.{
  Invoice, Payment, Order, OrderItem, Db, get_by_public_id, create_payment,
  settle_invoice_if_covered, Issued, order_empty, not_issued, issued, invoice_for_order,
}
use teggo.Receivables.Pay.{
  Gateway, Charged, charged, declined, not_processed, Reply, request_of, card_payment, or_recorded,
  settle_and_render, charge_invoice, pay_owned, pay_invoice_by_card, pay_issued, pay_my_order,
}
use teggo.Receivables.Settled.{IsAmount, IsSound, settle-IsSound, create_payment-IsSound}
use teggo.Receivables.Ready.{
  IsBilled, get_by_public_id-IsBilled, IsIssuable, IsReady, invoice_for_order-IsReady,
}

or_recorded-IsSound :
    (p : Payment) (db : Db)
    → IsAmount p.amount
    → IsSound db
    → IsSound (or_recorded db (create_payment p db))
or_recorded-IsSound p db nonneg sound = elim (Option-cases (create_payment p db)) [
  | inl twice ↦ rw twice sound
  | inr (db', new) ↦ rw new (create_payment-IsSound p db db' new nonneg sound)
]

settle_and_render-IsSound :
    (public_id id : ℕ) (db : Db)
    → IsSound db
    → IsSound (settle_and_render public_id db (settle_invoice_if_covered id db)).1
settle_and_render-IsSound public_id id db sound =
    elim (Option-cases (settle_invoice_if_covered id db)) [
      | inl missing ↦ rw missing sound
      | inr (db', settled) ↦
          let after = settle-IsSound id db db' settled sound in
          elim (Option-cases (get_by_public_id public_id db'.invoices)) [
            | inl gone ↦ rw (settled, gone) after
            | inr (inv, there) ↦ rw (settled, there) after
          ]
    ]

charge_invoice-IsSound :
    (gw : Gateway) (token : String) (payment_id customer_id : ℕ) (inv : Invoice) (db : Db)
    → pos 0 ≤ℤ inv.grand_total
    → IsSound db
    → IsSound (charge_invoice gw token payment_id customer_id inv db).1
unfolding charge_invoice
charge_invoice-IsSound gw token payment_id customer_id inv db nonneg sound =
    outcome (gw.create_charge (request_of token inv))
  where
    asked : Db
    asked = record db { charges = request_of token inv ∷ db.charges }

    asked_sound : IsSound asked
    asked_sound = record {
      keyed = sound.keyed;
      covered = sound.covered;
      billed = sound.billed;
      numbers = sound.numbers;
    }

    outcome :
        (c : Charged)
        → IsSound
            (elim c as (λ _. Reply × Db) [
              | declined ↦ (Reply.fail 402 "declined", asked)
              | not_processed ↦ (Reply.fail 502 "gateway_error", asked)
              | charged reference ↦
                  let p = card_payment payment_id customer_id gw.provider reference inv in
                  let db' = or_recorded asked (create_payment p asked) in
                  settle_and_render inv.public_id db' (settle_invoice_if_covered inv.id db')
            ]).1
    outcome declined = asked_sound
    outcome not_processed = asked_sound
    outcome (charged reference) =
        let p = card_payment payment_id customer_id gw.provider reference inv in
        settle_and_render-IsSound inv.public_id inv.id (or_recorded asked (create_payment p asked))
          (or_recorded-IsSound p asked nonneg asked_sound)

pay_owned-IsSound :
    (gw : Gateway) (token : String) (payment_id customer_id : ℕ) (inv : Invoice) (db : Db)
    → IsBilled inv
    → IsSound db
    → IsSound (pay_owned gw token payment_id customer_id inv db).1
pay_owned-IsSound gw token payment_id customer_id inv db b sound =
    let paid = charge_invoice-IsSound gw token payment_id customer_id inv db b sound in
    elim (Bool-cases (inv.customer_id == customer_id)) [
      | inr other ↦ rw other sound
      | inl own ↦ elim (Bool-cases (str_eq inv.status "paid")) [
        | inl already ↦ rw (own, already) sound
        | inr due ↦ elim (Bool-cases (str_eq inv.status "void")) [
          | inl void ↦ rw (own, due, void) sound
          | inr open_one ↦ rw (own, due, open_one) paid
        ]
      ]
    ]

pub pay_invoice_by_card-IsSound :
    (gw : Gateway) (token : String) (payment_id customer_id public_id : ℕ) (db : Db)
    → IsSound db
    → IsSound (pay_invoice_by_card gw token payment_id customer_id public_id db).1
unfolding pay_invoice_by_card
pay_invoice_by_card-IsSound gw token payment_id customer_id public_id db sound =
    elim (Option-cases (get_by_public_id public_id db.invoices)) [
      | inl missing ↦ rw (missing, pay_invoice_by_card) sound
      | inr (inv, found) ↦
          rw (found, pay_invoice_by_card)
            (pay_owned-IsSound gw token payment_id customer_id inv db
              (get_by_public_id-IsBilled public_id db.invoices inv found sound.billed) sound)
    ]

pay_issued-IsSound :
    (gw : Gateway) (token : String) (payment_id customer_id : ℕ) (db : Db) (i : Issued)
    → IsSound db
    → IsReady i
    → IsSound (pay_issued gw token payment_id customer_id db i).1
unfolding IsReady
pay_issued-IsSound gw token payment_id customer_id db order_empty sound _ = sound
pay_issued-IsSound gw token payment_id customer_id db not_issued sound _ = sound
pay_issued-IsSound gw token payment_id customer_id db (issued inv db') sound (b, ready) =
    elim (Bool-cases (str_eq inv.status "paid")) [
      | inl already ↦ rw already ready
      | inr due ↦ rw due (charge_invoice-IsSound gw token payment_id customer_id inv db' b ready)
    ]

pub pay_my_order-IsSound :
    (gw : Gateway) (token : String) (payment_id new_id new_public_id customer_id : ℕ)
    (order : Order) (items : List OrderItem) (db : Db)
    → IsIssuable new_id items db
    → IsSound db
    → IsSound
        (pay_my_order gw token payment_id new_id new_public_id customer_id
          (some (order, items))
          db).1
unfolding pay_my_order
pay_my_order-IsSound gw token payment_id new_id new_public_id customer_id order items db h sound =
    let paid =
      pay_issued-IsSound gw token payment_id customer_id db
        (invoice_for_order new_id new_public_id order items db) sound
        (invoice_for_order-IsReady new_id new_public_id order items db h sound) in
    elim (Bool-cases (order.customer_id == customer_id)) [
      | inr other ↦ rw other sound
      | inl own ↦ elim (Bool-cases (str_eq order.status "cancelled")) [
        | inl cancelled ↦ rw (own, cancelled) sound
        | inr going ↦ elim (Bool-cases (str_eq order.status "on_hold")) [
          | inl held ↦ rw (own, going, held) sound
          | inr free ↦ rw (own, going, free) paid
        ]
      ]
    ]
