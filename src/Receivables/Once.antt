-- ===== src/Receivables/Once.antt =====
-- A card payment that goes through, and the next attempt, in internal/modules/otc/payments.go.
use mathlib.Core.Option.{some-injective}
use mathlib.Core.Path.{subst}
use teggo.Prelude.{
  ◌≡◌, refl, ◌∙◌, ap, ℕ, true, false, some, List, [], ◌∷◌, ◌==◌, ==_iff, String, str_eq, All, inl,
  inr, Bool-cases, arith,
}
use teggo.Prelude.Int.{ℤ, ◌+ℤ◌, ◌≤ℤ◌, +ℤ_parts}
use teggo.Money.Amount.{cmp, or_equal}
use teggo.Money.Amount.Exact.{compare_ℤ}
use teggo.Inventory.{column}
use teggo.Receivables.{
  Numeric, number, nan, plus, column_of, Invoice, Payment, Db, get_invoice, get_by_public_id,
  set_status, sum_captured, counts_for, create_payment, is_recorded, is_covered, is_settled,
  settle_invoice_if_covered,
}
use teggo.Receivables.Pay.{
  Gateway, charged, fail, invoice, request_of, card_payment, charge_invoice, pay_invoice_by_card,
}
use teggo.Receivables.Settled.{IsAmount, IsSound, IsKeyed, cmp-column}

get_by_public_id-All :
    (P : Invoice → Type 0) (pid : ℕ) (is : List Invoice) (inv : Invoice)
    → get_by_public_id pid is ≡ some inv
    → All P is
    → P inv
unfolding get_by_public_id
get_by_public_id-All P pid [] inv h _ = absurd (ground arith)
get_by_public_id-All P pid (i ∷ is) inv h (b, bs) = elim (Bool-cases (i.public_id == pid)) [
  | inl own ↦ subst P (some-injective i inv (rw (get_by_public_id, own) at h)) b
  | inr other ↦ get_by_public_id-All P pid is inv (rw (get_by_public_id, other) at h) bs
]

-- The row found by its public id is the one of its id.
found_by_id :
    (pid : ℕ) (is : List Invoice) (inv : Invoice)
    → IsKeyed is
    → get_by_public_id pid is ≡ some inv
    → get_invoice inv.id is ≡ some inv
unfolding get_by_public_id get_invoice IsKeyed
found_by_id pid [] inv k h = absurd (ground arith)
found_by_id pid (i ∷ is) inv (d, ds) h = elim (Bool-cases (i.public_id == pid)) [
  | inl own ↦
      let same = some-injective i inv (rw (get_by_public_id, own) at h) in ground (arith, same)
  | inr other ↦
      let h' = rw (get_by_public_id, other) at h in
      let apart = get_by_public_id-All (λ j. (i.id == j.id) ≡ false) pid is inv h' d in
      rw (apart, get_invoice) (found_by_id pid is inv ds h')
]

get_by_public_id-set_status :
    (pid : ℕ) (status : String) (is : List Invoice) (inv : Invoice)
    → get_by_public_id pid is ≡ some inv
    → get_by_public_id pid (set_status inv.id status is) ≡ some (record inv { status = status })
unfolding get_by_public_id set_status
get_by_public_id-set_status pid status [] inv h = absurd (ground arith)
get_by_public_id-set_status pid status (i ∷ is) inv h = elim (Bool-cases (i.public_id == pid)) [
  | inl own ↦
      let same = some-injective i inv (rw (get_by_public_id, own) at h) in ground (arith, same, own)
  | inr other ↦
      let ih = get_by_public_id-set_status pid status is inv (rw (get_by_public_id, other) at h) in
      ground (arith, ih, other)
]

IsAmount-plus : (a b : Numeric) → IsAmount a → IsAmount b → IsAmount (plus a b)
IsAmount-plus (number a) (number b) h k = omega (arith, +ℤ_parts a b)
IsAmount-plus (number a) nan h k = elim k [ ]
IsAmount-plus nan b h k = elim h [ ]

sum_captured-nonneg :
    (id : ℕ) (ps : List Payment) → All (λ p. IsAmount p.amount) ps → IsAmount (sum_captured id ps)
unfolding sum_captured
sum_captured-nonneg id [] _ = omega arith
sum_captured-nonneg id (p ∷ ps) (h, hs) = elim (Bool-cases (counts_for id p)) [
  | inl counted ↦
      rw counted (IsAmount-plus p.amount (sum_captured id ps) h (sum_captured-nonneg id ps hs))
  | inr other ↦ rw other (sum_captured-nonneg id ps hs)
]

covered_by : (a b : ℤ) → b ≤ℤ a → is_covered (compare_ℤ a b) ≡ true
covered_by a b h = ground arith

covered_with :
    (total : ℤ) (n : Numeric)
    → IsAmount n
    → is_covered (or_equal (cmp (column_of (plus (number total) n)) (column total))) ≡ true
covered_with total (number z) h =
    ap is_covered (cmp-column (total +ℤ z) total)
    ∙ covered_by (total +ℤ z) total (omega (arith, +ℤ_parts total z))
covered_with total nan h = elim h [ ]

-- A payment of the total settles the invoice.
settles :
    (p : Payment) (rest : List Payment) (inv : Invoice) (db : Db)
    → get_invoice inv.id db.invoices ≡ some inv
    → is_settled inv ≡ false
    → counts_for inv.id p ≡ true
    → p.amount ≡ number inv.grand_total
    → db.payments ≡ p ∷ rest
    → IsAmount (sum_captured inv.id rest)
    → settle_invoice_if_covered inv.id db
      ≡ some (record db { invoices = set_status inv.id "paid" db.invoices })
unfolding settle_invoice_if_covered sum_captured
settles p rest inv db found due counts amount pays nonneg =
    let sum = sum_captured inv.id db.payments in
    let total : sum ≡ plus (number inv.grand_total) (sum_captured inv.id rest) =
      ap (sum_captured inv.id) pays ∙ rw (counts, sum_captured, amount) refl in
    let test : is_covered (or_equal (cmp (column_of sum) (column inv.grand_total))) ≡ true =
      ap (λ n. is_covered (or_equal (cmp (column_of n) (column inv.grand_total)))) total
      ∙ covered_with inv.grand_total (sum_captured inv.id rest) nonneg in
    rw (found, due, test, settle_invoice_if_covered) refl

get_by_public_id-own :
    (pid : ℕ) (is : List Invoice) (inv : Invoice)
    → get_by_public_id pid is ≡ some inv
    → inv.public_id ≡ pid
unfolding get_by_public_id
get_by_public_id-own pid [] inv h = cc
get_by_public_id-own pid (i ∷ is) inv h = ground (arith, get_by_public_id-own pid is inv)

-- The tables after the charge, its payment and the settlement.
abbrev pub paid_db : String → Payment → Invoice → Db → Db
paid_db token p inv db = record db {
  invoices = set_status inv.id "paid" db.invoices;
  payments = p ∷ db.payments;
  charges = request_of token inv ∷ db.charges;
}

charge-succeeds :
    (gw : Gateway) (token reference : String) (payment_id customer_id : ℕ) (inv : Invoice) (db : Db)
    → IsSound db
    → All (λ p. IsAmount p.amount) db.payments
    → get_by_public_id inv.public_id db.invoices ≡ some inv
    → is_settled inv ≡ false
    → gw.create_charge (request_of token inv) ≡ charged reference
    → is_recorded (some gw.provider) (some reference) db.payments ≡ false
    → let p = card_payment payment_id customer_id gw.provider reference inv in
      charge_invoice gw token payment_id customer_id inv db
      ≡ (invoice (record inv { status = "paid" }), paid_db token p inv db)
unfolding charge_invoice create_payment
charge-succeeds gw token reference payment_id customer_id inv db sound nonneg found due taken new =
    let p = card_payment payment_id customer_id gw.provider reference inv in
    let asked : Db = record db { charges = request_of token inv ∷ db.charges } in
    let stored : Db = record asked { payments = p ∷ db.payments } in
    let c : create_payment p asked ≡ some stored = rw (new, create_payment) refl in
    let s : settle_invoice_if_covered inv.id stored ≡ some (paid_db token p inv db) =
      settles p db.payments inv stored (found_by_id inv.public_id db.invoices inv sound.keyed found)
        due own_count refl refl (sum_captured-nonneg inv.id db.payments nonneg) in
    let g : get_by_public_id inv.public_id (set_status inv.id "paid" db.invoices)
        ≡ some (record inv { status = "paid" }) =
      get_by_public_id-set_status inv.public_id "paid" db.invoices inv found in
    rw (charge_invoice, taken, c, s, g) refl
  where
    own_count :
        counts_for inv.id (card_payment payment_id customer_id gw.provider reference inv) ≡ true
    own_count = ground (arith, ==_iff inv.id inv.id)

refused_paid :
    (gw : Gateway) (token : String) (payment_id customer_id public_id : ℕ) (inv : Invoice) (db : Db)
    → get_by_public_id public_id db.invoices ≡ some inv
    → inv.customer_id ≡ customer_id
    → str_eq inv.status "paid" ≡ true
    → pay_invoice_by_card gw token payment_id customer_id public_id db
      ≡ (fail 409 "already_paid", db)
unfolding pay_invoice_by_card
refused_paid gw token payment_id customer_id public_id inv db found own paid =
    rw (pay_invoice_by_card, found, (==_iff inv.customer_id customer_id).1 own, paid) refl

-- A customer pays an invoice of theirs that is neither paid nor void, the gateway takes the charge under
-- a reference not recorded yet, and the tables are sound, with no payment negative or NaN: the response is
-- the invoice, now paid; a payment of its total is recorded; and any further attempt to pay it by
-- card is refused as already paid, without a charge or any other change.
pub pay_invoice_by_card_once :
    (gw : Gateway) (token reference : String) (payment_id customer_id public_id : ℕ) (inv : Invoice)
    (db : Db)
    → IsSound db
    → All (λ p. IsAmount p.amount) db.payments
    → get_by_public_id public_id db.invoices ≡ some inv
    → inv.customer_id ≡ customer_id
    → is_settled inv ≡ false
    → gw.create_charge (request_of token inv) ≡ charged reference
    → is_recorded (some gw.provider) (some reference) db.payments ≡ false
    → let paid = record inv { status = "paid" } in
      (after : Db) × (pay_invoice_by_card gw token payment_id customer_id public_id db
        ≡ (invoice paid, after))
      × (after.payments
          ≡ card_payment payment_id customer_id gw.provider reference inv ∷ db.payments)
      × ((gw' : Gateway) (token' : String) (payment_id' : ℕ)
          → pay_invoice_by_card gw' token' payment_id' customer_id public_id after
            ≡ (fail 409 "already_paid", after))
unfolding pay_invoice_by_card
pay_invoice_by_card_once gw token reference payment_id customer_id public_id inv db sound nonneg
      found own due taken new =
    let p = card_payment payment_id customer_id gw.provider reference inv in
    let key = get_by_public_id-own public_id db.invoices inv found in
    let found' : get_by_public_id inv.public_id db.invoices ≡ some inv =
      ap (λ x. get_by_public_id x db.invoices) key ∙ found in
    let unpaid : str_eq inv.status "paid" ≡ false = ground arith in
    let unvoid : str_eq inv.status "void" ≡ false = ground arith in
    let charge =
      charge-succeeds gw token reference payment_id customer_id inv db sound nonneg found' due taken
        new in
    (
      paid_db token p inv db,
      rw (pay_invoice_by_card, found, (==_iff inv.customer_id customer_id).1 own, unpaid, unvoid)
          charge,
      refl,
      λ gw' token' payment_id'.
          refused_paid gw' token' payment_id' customer_id public_id (record inv { status = "paid" })
            (paid_db token p inv db)
            (get_by_public_id-set_status public_id "paid" db.invoices inv found) own refl,
    )
