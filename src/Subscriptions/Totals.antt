-- ===== src/Subscriptions/Totals.antt =====
-- The amounts of an order that a run of internal/subscriptions/service.go creates.
use mathlib.Core.Option.{some-injective}
use mathlib.Core.Path.{subst}
use teggo.Prelude.{
  ◌≡◌, refl, sym, ◌∙◌, ap, ℕ, true, false, Option, none, some, List, [], ◌∷◌, length, map, All,
  Option-cases, ◌⊎◌, inl, inr, ◌==◌, ==_iff, suc,
}
use teggo.Prelude.Text.{Text, codes}
use teggo.Prelude.Int.{ℤ, pos, ◌+ℤ◌, ◌-ℤ◌, ◌≤ℤ◌}
use teggo.Money.Amount.{sum, or_empty}
use teggo.Money.Amount.Exact.{Denotes, zero-Denotes}
use teggo.Money.Amount.Sums.{
  amount_of, amount_of-Denotes, IsExact, Denotes-IsExact, sum_by, sum_exact, pair_sum,
}
use teggo.Inventory.{numeric}
use teggo.Inventory.Columns.{numeric-Denotes, sub-Denotes_or}
use teggo.Promotions.{Candidate, evaluate}
use teggo.Promotions.Exact.{evaluate-amount_of}
use teggo.Tax.Order.{compute_order_tax_total, compute_order_tax-IsExact}
use teggo.Subscriptions.{
  Subscription, Order, OrderItem, Db, World, Time, Line, Discount, lines, price_lines,
  set_order_promotion, redeem, run_one, list_active_promotions, rts, tax_line, best_discount,
  record_run,
}
use teggo.Subscriptions.Runs.{subtotal_of, discount_of, items_of, run_one-some, IsOrdered}
use teggo.Subscriptions.Placed.{
  create_order-some, add_order_items-frame, redeem-some, split_run-some,
}
use teggo.Subscriptions.Rows.{added_to, AreOrderItems, exact_number, items-AreOrderItems}

-- No order has the id yet.
abbrev pub IsFresh : ℕ → List Order → Type 0
IsFresh id os = All (λ o. (o.id == id) ≡ false) os

set_order_promotion_other :
    (id : ℕ) (amount : ℤ) (promo : ℕ) (os : List Order)
    → IsFresh id os
    → set_order_promotion id amount promo os ≡ os
unfolding set_order_promotion
set_order_promotion_other id amount promo [] h = refl
set_order_promotion_other id amount promo (o ∷ os) (h, hs) =
    rw (h, set_order_promotion_other id amount promo os hs) refl

zero_exact : IsExact (codes "0")
zero_exact = Denotes-IsExact (codes "0") (pos 0) zero-Denotes

zero_amount : amount_of (codes "0") ≡ pos 0
zero_amount = amount_of-Denotes (codes "0") (pos 0) zero-Denotes

-- Without a promotion the discount is zero, with one it is between zero and the subtotal.
abbrev pub IsDiscount : Option ℕ → ℤ → ℤ → Type 0
IsDiscount promo discount subtotal =
    ((promo ≡ none) × (discount ≡ pos 0))
    ⊎ ((id : ℕ) × (promo ≡ some id) × (pos 0 ≤ℤ discount) × (discount ≤ℤ subtotal))

best_discount-IsDiscount :
    (subtotal : Text) (now : ℕ) (cs : List Candidate)
    → IsExact subtotal
    → let d = best_discount subtotal now cs in
      IsExact d.discount × IsDiscount d.promo_id (amount_of d.discount) (amount_of subtotal)
unfolding best_discount
best_discount-IsDiscount subtotal now [] x = (zero_exact, inl (refl, zero_amount))
best_discount-IsDiscount subtotal now (c ∷ cs) x =
    elim (Option-cases (evaluate subtotal [] now (c ∷ cs)).promotion) [
      | inl e ↦ rw e (zero_exact, inl (refl, zero_amount))
      | inr (b, e) ↦
          let (exact, low, high) = evaluate-amount_of subtotal [] now (c ∷ cs) b x e in
          rw e (exact, inr (b.id, refl, low, high))
    ]

-- The new order, with its items: the items of the subscription at the prices found, totals that are
-- the sums of their rows, the discount of the promotion, and what is to be paid.
pub record IsSound (w : World) (sub : Subscription) (db db' : Db) : Type 0 where
  pub order : Order
  pub items : List OrderItem
  pub adds_order : db'.orders ≡ order ∷ db.orders
  pub adds_items : db'.order_items ≡ added_to items db.order_items
  pub id : order.id ≡ db.next_order
  pub customer : order.customer_id ≡ sub.customer_id
  pub are_items : AreOrderItems w sub db.next_order (items_of sub db) items
  pub subtotal : order.subtotal ≡ sum_by (λ i. i.row_total) items
  pub tax_total : order.tax_total ≡ sum_by (λ i. i.tax_amount) items
  pub discounted : IsDiscount order.promotion_id order.discount_total order.subtotal
  pub grand_total : order.grand_total ≡ order.subtotal -ℤ order.discount_total +ℤ order.tax_total

no_discount :
    (promo : Option ℕ) (discount subtotal : ℤ)
    → promo ≡ none
    → IsDiscount promo discount subtotal
    → discount ≡ pos 0
no_discount promo discount subtotal absent (inl (_, zero)) = zero
no_discount promo discount subtotal absent (inr (id, present, _, _)) = cc

-- The order after its promotion is redeemed.
redeemed_order :
    (sub : Subscription) (d : Discount) (o : Order) (rest : List Order) (subtotal : ℤ) (db db' : Db)
    → redeem sub o.id d db ≡ some db'
    → db.orders ≡ o ∷ rest
    → IsFresh o.id rest
    → o.discount_total ≡ pos 0
    → o.promotion_id ≡ none
    → IsExact d.discount
    → IsDiscount d.promo_id (amount_of d.discount) subtotal
    → (o' : Order) × (db'.orders ≡ o' ∷ rest)
      × (record o' { discount_total = o.discount_total; promotion_id = o.promotion_id } ≡ o)
      × (o'.discount_total ≡ amount_of d.discount)
      × IsDiscount o'.promotion_id o'.discount_total subtotal
unfolding set_order_promotion
redeemed_order sub d o rest subtotal db db' h e fresh zero bare x k =
    let (_, _, _, cases) = redeem-some sub o.id d db db' h in
    elim cases [
      | inl (absent, same) ↦
          let none_off = no_discount d.promo_id (amount_of d.discount) subtotal absent k in
          (o, ap (λ y. y.orders) same ∙ e, refl, zero ∙ sym none_off, inl (bare, zero))
      | inr (promo, amount, some_promo, number, orders) ↦
          let exact = exact_number d.discount amount x number in
          let own : o.id == o.id ≡ true = (==_iff o.id o.id).1 refl in
          (
            record o { discount_total = amount; promotion_id = some promo },
            orders
                ∙ ap (set_order_promotion o.id amount promo) e
                ∙ rw (own, set_order_promotion_other o.id amount promo rest fresh) refl,
            refl,
            sym exact,
            subst (λ z. IsDiscount (some promo) z subtotal) exact
                (subst (λ y. IsDiscount y (amount_of d.discount) subtotal) some_promo k),
          )
    ]

length-tax_lines : (ls : List Line) → length (map tax_line ls) ≡ length ls
length-tax_lines [] = refl
length-tax_lines (l ∷ ls) = ap suc (length-tax_lines ls)

paid :
    (s d t : ℤ) (total grand : Text) (discounted : Text) (g : ℤ)
    → Denotes discounted (s -ℤ d)
    → Denotes total t
    → grand ≡ or_empty (sum (discounted ∷ total ∷ []))
    → numeric grand ≡ some g
    → g ≡ s -ℤ d +ℤ t
paid s d t total grand discounted g x y e n = some-injective _ _ (
    sym n
    ∙ ap numeric e
    ∙ numeric-Denotes _ (s -ℤ d +ℤ t) (pair_sum discounted total (s -ℤ d) t x y))

ordered-IsSound :
    (w : World) (sub : Subscription) (today : Time) (ls : List Line) (db db' : Db)
    → price_lines w sub (items_of sub db) ≡ lines ls
    → IsOrdered w sub today ls db db'
    → IsFresh db.next_order db.orders
    → IsSound w sub db db'
unfolding record_run
ordered-IsSound w sub today ls db db' priced o fresh =
    let p = o.placed in
    let (ord, e, id, customer, _, zero, bare, s_is, t_is, g_is) =
      create_order-some sub _ _ _ db p.ordered p.orders in
    let (_, _, os, _, _, _) =
      add_order_items-frame db.next_order ls o.taxes p.ordered p.filled p.fills in
    let (len, sum_taxes) = compute_order_tax_total _ _ _ _ _ o.taxes o.total o.taxes_them in
    let (xs, xt) = compute_order_tax-IsExact _ _ _ _ _ o.taxes o.total o.taxes_them in
    let (items, f, rows, rs, ts, exact) =
      items-AreOrderItems w sub db.next_order (items_of sub db) ls o.taxes p.ordered p.filled priced
        xs (len ∙ length-tax_lines ls) p.fills in
    let (sx, s_sum) = sum_exact (rts ls) exact in
    let (dx, disc) =
      best_discount-IsDiscount (subtotal_of ls) today.instant
        (list_active_promotions sub.organization_id db.promotions) sx in
    let amount = exact_number (subtotal_of ls) ord.subtotal sx s_is in
    let tax = exact_number o.total ord.tax_total xt t_is in
    let redeems =
      subst (λ x. redeem sub x (discount_of sub today ls db) p.filled ≡ some p.redeemed) (sym id)
        p.redeems in
    let (o', newest, same, d_is, k) =
      redeemed_order sub (discount_of sub today ls db) ord db.orders (amount_of (subtotal_of ls))
        p.filled p.redeemed redeems (os ∙ ap (λ y. y.orders) e)
        (subst (λ x. IsFresh x db.orders) (sym id) fresh) zero bare dx disc in
    let (_, items_kept, _, _) = redeem-some sub db.next_order _ p.filled p.redeemed p.redeems in
    let (_, _, divided) = split_run-some w sub db.next_order p.redeemed p.divided p.divides in
    let s_same : o'.subtotal ≡ amount_of (subtotal_of ls) =
      ap (λ y. y.subtotal) same ∙ sym amount in
    let t_same : o'.tax_total ≡ amount_of o.total = ap (λ y. y.tax_total) same ∙ sym tax in
    let pays =
      paid (amount_of (subtotal_of ls)) (amount_of (discount_of sub today ls db).discount)
        (amount_of o.total) o.total _ _ ord.grand_total
        (sub-Denotes_or (subtotal_of ls) (discount_of sub today ls db).discount _ _ sx dx) xt refl
        g_is in
    record {
      order = o';
      items = items;
      adds_order = ap (λ y. y.orders) p.ends ∙ ap (λ y. y.orders) divided ∙ newest;
      adds_items =
          ap (λ y. y.order_items) p.ends
          ∙ ap (λ y. y.order_items) divided
          ∙ items_kept
          ∙ f
          ∙ ap (λ y. added_to items y.order_items) e;
      id = ap (λ y. y.id) same ∙ id;
      customer = ap (λ y. y.customer_id) same ∙ customer;
      are_items = rows;
      subtotal = s_same ∙ s_sum ∙ sym rs;
      tax_total = t_same ∙ sum_taxes ∙ sym ts;
      discounted = subst (IsDiscount o'.promotion_id o'.discount_total) (sym s_same) k;
      grand_total = ap (λ y. y.grand_total) same ∙ pays ∙ rw (s_same, t_same, d_is) refl;
    }

-- A run that creates an order, under an id that no order has: it adds one order, for the customer of
-- the subscription, and for each item of the subscription, in their order, one row, with its product
-- and quantity and the price found for it. The subtotal is the sum of the row totals, the tax total
-- that of the rows' taxes, and the grand total the subtotal less the discount plus the taxes, to the
-- ten-thousandth. The discount is zero without a promotion, and with one it is between zero and the
-- subtotal.
pub run_one-IsSound :
    (w : World) (sub : Subscription) (today : Time) (db db' : Db)
    → run_one w sub today db ≡ some (db', true)
    → IsFresh db.next_order db.orders
    → IsSound w sub db db'
run_one-IsSound w sub today db db' h fresh = elim (run_one-some w sub today db db' true h) [
  | inl (_, (ls, priced, o)) ↦ ordered-IsSound w sub today ls db db' priced o fresh
  | inr (e, _) ↦ cc
]
