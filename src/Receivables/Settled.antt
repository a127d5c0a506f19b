-- ===== src/Receivables/Settled.antt =====
-- Invoices that are paid, against the payments captured for them.
use mathlib.Core.Option.{some-injective}
use mathlib.Core.Path.{subst}
use teggo.Prelude.{
  ◌≡◌, sym, ◌∙◌, ap, ℕ, true, false, none, some, List, [], ◌∷◌, ◌==◌, ==_iff, String, All, All-imp,
  inl, inr, Bool-cases, Option-cases, arith,
}
use teggo.Prelude.Int.{ℤ, pos, ◌≤ℤ◌, +ℤ_parts}
use teggo.Money.Amount.{cmp, or_equal}
use teggo.Money.Amount.Exact.{cmp-Denotes, compare_ℤ}
use teggo.Inventory.{column}
use teggo.Inventory.Columns.{column-Denotes}
use teggo.Receivables.{
  Numeric, number, nan, plus, column_of, counts_for, Invoice, Payment, Db, get_invoice, set_status,
  sum_captured, create_payment, is_recorded, is_covered, is_settled, settle_invoice_if_covered,
}

-- An amount is a number, and of zero or more.
abbrev pub IsNumber : Numeric → Type 0
IsNumber (number z) = Unit
IsNumber nan = ⊥

abbrev pub IsAmount : Numeric → Type 0
IsAmount (number z) = pos 0 ≤ℤ z
IsAmount nan = ⊥

abbrev pub AtLeast : ℤ → Numeric → Type 0
AtLeast z (number n) = z ≤ℤ n
AtLeast z nan = ⊥

-- An invoice that is paid has captured payments of its total.
unfoldable pub IsCovered : List Payment → Invoice → Type 0
IsCovered ps i = i.status ≡ "paid" → AtLeast i.grand_total (sum_captured i.id ps)

-- No id stands twice: a row is found by its own.
unfoldable pub IsKeyed : List Invoice → Type 0
IsKeyed [] = Unit
IsKeyed (i ∷ is) = All (λ j. (i.id == j.id) ≡ false) is × IsKeyed is

pub record IsSound (db : Db) : Type 0 where
  pub keyed : IsKeyed db.invoices
  pub covered : All (IsCovered db.payments) db.invoices
  pub billed : All (λ i. pos 0 ≤ℤ i.grand_total) db.invoices
  pub numbers : All (λ p. IsNumber p.amount) db.payments

-- The comparison of two columns is that of their numbers.
pub cmp-column : (a b : ℤ) → or_equal (cmp (column a) (column b)) ≡ compare_ℤ a b
cmp-column a b =
    ap or_equal (cmp-Denotes (column a) (column b) a b (column-Denotes a) (column-Denotes b))

pub covered_of : (a b : ℤ) → is_covered (compare_ℤ a b) ≡ true → b ≤ℤ a
covered_of a b h = ground arith

pub get_invoice-Mem :
    (id : ℕ) (is : List Invoice) (inv : Invoice) → get_invoice id is ≡ some inv → inv.id ≡ id
unfolding get_invoice
get_invoice-Mem id [] inv h = cc
get_invoice-Mem id (i ∷ is) inv h = ground (arith, get_invoice-Mem id is inv)

-- A row with the id is the one found, ids being keys.
pub get_invoice-own :
    (is : List Invoice) (id : ℕ) (inv : Invoice)
    → IsKeyed is
    → get_invoice id is ≡ some inv
    → All (λ j. j.id ≡ id → j ≡ inv) is
unfolding get_invoice IsKeyed
get_invoice-own [] id inv _ h = tt
get_invoice-own (i ∷ is) id inv (d, ds) h = elim (Bool-cases (i.id == id)) [
  | inl own ↦
      let same : i ≡ inv = ground arith in
      (
        λ _. same,
        All-imp is (λ j (q : (i.id == j.id) ≡ false) (e : j.id ≡ id). absurd (ground arith)) d,
      )
  | inr other ↦
      (λ e. absurd (ground arith), get_invoice-own is id inv ds (rw (get_invoice, other) at h))
]

set_status-apart :
    (x id : ℕ) (status : String) (is : List Invoice)
    → All (λ j. (x == j.id) ≡ false) is
    → All (λ j. (x == j.id) ≡ false) (set_status id status is)
unfolding set_status
set_status-apart x id status [] h = tt
set_status-apart x id status (i ∷ is) (p, ps) = (ground arith, set_status-apart x id status is ps)

set_status-IsKeyed :
    (id : ℕ) (status : String) (is : List Invoice) → IsKeyed is → IsKeyed (set_status id status is)
unfolding set_status IsKeyed
set_status-IsKeyed id status [] h = tt
set_status-IsKeyed id status (i ∷ is) (d, ds) = (
  elim (Bool-cases (i.id == id)) [
    | inl own ↦ rw own (set_status-apart i.id id status is d)
    | inr other ↦ rw other (set_status-apart i.id id status is d)
  ],
  set_status-IsKeyed id status is ds,
)

set_status-billed :
    (id : ℕ) (status : String) (is : List Invoice)
    → All (λ i. pos 0 ≤ℤ i.grand_total) is
    → All (λ i. pos 0 ≤ℤ i.grand_total) (set_status id status is)
unfolding set_status
set_status-billed id status [] h = tt
set_status-billed id status (i ∷ is) (b, bs) = (ground arith, set_status-billed id status is bs)

set_status-IsCovered :
    (ps : List Payment) (id : ℕ) (inv : Invoice) (is : List Invoice)
    → All (λ j. j.id ≡ id → j ≡ inv) is
    → AtLeast inv.grand_total (sum_captured id ps)
    → All (IsCovered ps) is
    → All (IsCovered ps) (set_status id "paid" is)
unfolding set_status IsCovered
set_status-IsCovered ps id inv [] _ enough _ = tt
set_status-IsCovered ps id inv (i ∷ is) (same, sames) enough (c, cs) = (
  elim (Bool-cases (i.id == id)) [
    | inl own ↦ let key = (==_iff i.id id).0 own in rw own (λ _. rw (key, same key) enough)
    | inr other ↦ rw other c
  ],
  set_status-IsCovered ps id inv is sames enough cs,
)

IsNumber-plus : (a b : Numeric) → IsNumber a → IsNumber b → IsNumber (plus a b)
IsNumber-plus (number a) (number b) h k = tt
IsNumber-plus (number a) nan h k = elim k [ ]
IsNumber-plus nan b h k = elim h [ ]

sum_captured-IsNumber :
    (id : ℕ) (ps : List Payment) → All (λ p. IsNumber p.amount) ps → IsNumber (sum_captured id ps)
unfolding sum_captured
sum_captured-IsNumber id [] _ = tt
sum_captured-IsNumber id (p ∷ ps) (h, hs) = elim (Bool-cases (counts_for id p)) [
  | inl counted ↦
      rw counted (IsNumber-plus p.amount (sum_captured id ps) h (sum_captured-IsNumber id ps hs))
  | inr other ↦ rw other (sum_captured-IsNumber id ps hs)
]

is_covered-AtLeast :
    (n : Numeric) (total : ℤ)
    → IsNumber n
    → is_covered (or_equal (cmp (column_of n) (column total))) ≡ true
    → AtLeast total n
is_covered-AtLeast (number z) total _ h =
    covered_of z total (ap is_covered (sym (cmp-column z total)) ∙ h)
is_covered-AtLeast nan total number_of h = elim number_of [ ]

-- Settling keeps the invariant.
pub settle-IsSound :
    (id : ℕ) (db db' : Db) → settle_invoice_if_covered id db ≡ some db' → IsSound db → IsSound db'
unfolding settle_invoice_if_covered
settle-IsSound id db db' h sound = elim (Option-cases (get_invoice id db.invoices)) [
  | inl missing ↦ absurd (none-some (rw (settle_invoice_if_covered, missing) at h))
  | inr (inv, found) ↦
      let test =
        or_equal (cmp (column_of (sum_captured id db.payments)) (column inv.grand_total)) in
      elim (Bool-cases (is_settled inv)) [
        | inl done ↦ same_sound (rw (settle_invoice_if_covered, found, done) at h)
        | inr open_one ↦ elim (Bool-cases (is_covered test)) [
          | inr short ↦ same_sound (rw (settle_invoice_if_covered, found, open_one, short) at h)
          | inl enough ↦
              let k =
                is_covered-AtLeast (sum_captured id db.payments) inv.grand_total
                  (sum_captured-IsNumber id db.payments sound.numbers) enough in
              let own = get_invoice-own db.invoices id inv sound.keyed found in
              subst IsSound
                (some-injective _ db'
                  (rw (settle_invoice_if_covered, found, open_one, enough) at h))
                (record {
                  keyed = set_status-IsKeyed id "paid" db.invoices sound.keyed;
                  covered = set_status-IsCovered db.payments id inv db.invoices own k sound.covered;
                  billed = set_status-billed id "paid" db.invoices sound.billed;
                  numbers = sound.numbers;
                })
        ]
      ]
]
  where
    none-some : {x : Db} → ¬ (none ≡ some x)
    none-some e = cc

    same_sound : some db ≡ some db' → IsSound db'
    same_sound e = subst IsSound (some-injective db db' e) sound

AtLeast-plus : (total : ℤ) (a n : Numeric) → IsAmount a → AtLeast total n → AtLeast total (plus a n)
AtLeast-plus total (number a) (number n) h k = omega (arith, +ℤ_parts a n)
AtLeast-plus total (number a) nan h k = elim k [ ]
AtLeast-plus total nan n h k = elim h [ ]

IsAmount-IsNumber : (a : Numeric) → IsAmount a → IsNumber a
IsAmount-IsNumber (number z) h = tt
IsAmount-IsNumber nan h = elim h [ ]

more :
    (p : Payment) (ps : List Payment) (i : Invoice)
    → IsAmount p.amount
    → IsCovered ps i
    → IsCovered (p ∷ ps) i
unfolding IsCovered sum_captured
more p ps i amount c paid = elim (Bool-cases (counts_for i.id p)) [
  | inl counted ↦
      rw counted (AtLeast-plus i.grand_total p.amount (sum_captured i.id ps) amount (c paid))
  | inr other ↦ rw other (c paid)
]

-- A payment of zero or more keeps the invariant.
pub create_payment-IsSound :
    (p : Payment) (db db' : Db)
    → create_payment p db ≡ some db'
    → IsAmount p.amount
    → IsSound db
    → IsSound db'
unfolding create_payment
create_payment-IsSound p db db' h amount sound =
    elim (Bool-cases (is_recorded p.gateway p.gateway_reference db.payments)) [
      | inl twice ↦ absurd (ground arith)
      | inr new ↦ subst IsSound (some-injective _ db' (rw (create_payment, new) at h)) (record {
        keyed = sound.keyed;
        covered =
            All-imp db.invoices (λ i (c : IsCovered db.payments i). more p db.payments i amount c)
              sound.covered;
        billed = sound.billed;
        numbers = (IsAmount-IsNumber p.amount amount, sound.numbers);
      })
    ]
