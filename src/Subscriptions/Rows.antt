-- ===== src/Subscriptions/Rows.antt =====
-- The items of an order that a run of internal/subscriptions/service.go creates.
use mathlib.Core.Option.{some-injective}
use mathlib.Core.Path.{subst}
use teggo.Prelude.{
  ◌≡◌, refl, sym, ◌∙◌, ap, ℕ, some, List, [], ◌∷◌, length, All, >>=-eq-some, Option-cases, inl, inr,
  arith,
}
use teggo.Prelude.Text.{Text, codes}
use teggo.Prelude.Int.{ℤ, ◌+ℤ◌}
use teggo.Money.Rat
use teggo.Money.Decimal.{parse}
use teggo.Money.Amount.{row_total}
use teggo.Money.Amount.Exact.{format-Denotes}
use teggo.Money.Amount.Sums.{amount_of, IsExact, Denotes-IsExact, sum_by}
use teggo.Inventory.{column, numeric}
use teggo.Inventory.Columns.{column-Denotes, numeric-Denotes}
use teggo.Subscriptions.{
  Subscription, Item, OrderItem, Db, World, Line, Priced, lines, problem, and_line, price_lines,
  add_order_item, add_order_items, rts,
}
use teggo.Subscriptions.Placed.{add_order_item-some}

row_total-IsExact : (q p d : Text) {t : Text} → row_total q p d ≡ some t → IsExact t
unfolding row_total
row_total-IsExact q p d {t} h =
    let (x, _, h₁) = >>=-eq-some (parse q) _ h in
    let (y, _, h₂) = >>=-eq-some (parse p) _ h₁ in
    let (z, _, h₃) = >>=-eq-some (parse d) _ h₂ in
    subst IsExact (some-injective _ _ h₃)
      (Denotes-IsExact _ _ (format-Denotes (Rat.sub (Rat.mul x y) z)))

-- The line that an item is priced to.
pub record IsPriced (w : World) (sub : Subscription) (it : Item) (l : Line) : Type 0 where
  pub product : l.pid ≡ it.product_id
  pub quantity : l.qty ≡ column it.quantity
  pub unit : l.unit ≡ it.unit
  pub price : w.price_of sub it ≡ some l.price
  pub total : row_total (column it.quantity) l.price (codes "0") ≡ some l.rt

abbrev lines_or : Priced → List Line
lines_or (lines ls) = ls
lines_or (problem why) = []

abbrev head_or : Line → List Line → Line
head_or l [] = l
head_or l (x ∷ xs) = x

abbrev tail_of : List Line → List Line
tail_of [] = []
tail_of (x ∷ xs) = xs

and_line-lines :
    (l : Line) (p : Priced) (ls : List Line)
    → and_line l p ≡ lines ls
    → (rest : List Line) × (p ≡ lines rest) × (l ∷ rest ≡ ls)
and_line-lines l (lines rest) ls h = (rest, refl, ap lines_or h)
and_line-lines l (problem why) ls h = cc

price_lines-cons :
    (w : World) (sub : Subscription) (it : Item) (its : List Item) (ls : List Line)
    → price_lines w sub (it ∷ its) ≡ lines ls
    → (l : Line) × (rest : List Line) × IsPriced w sub it l
      × (price_lines w sub its ≡ lines rest)
      × (l ∷ rest ≡ ls)
unfolding price_lines
price_lines-cons w sub it its ls h = elim (Option-cases (w.price_of sub it)) [
  | inl e ↦ cc (rw (e, price_lines) at h)
  | inr (price, e) ↦ elim (Option-cases (row_total (column it.quantity) price (codes "0"))) [
    | inl e' ↦ cc (rw (e, e', price_lines) at h)
    | inr (rt, e') ↦
        let (rest, e'', same) = and_line-lines _ _ ls (rw (e, e', price_lines) at h) in
        (
          _,
          rest,
          record { product = refl; quantity = refl; unit = refl; price = e; total = e' },
          e'',
          same,
        )
  ]
]

-- The rows that a loop of inserts puts before others.
abbrev pub added_to : List OrderItem → List OrderItem → List OrderItem
added_to [] old = old
added_to (i ∷ is) old = added_to is (i ∷ old)

-- The row of an item of the subscription: its product and quantity, at the price found for it.
pub record IsOrderItem (w : World) (sub : Subscription) (order : ℕ) (it : Item) (i : OrderItem)
    : Type 0 where
  pub of_order : i.order_id ≡ order
  pub of_product : i.product_id ≡ it.product_id
  pub same_quantity : i.quantity ≡ it.quantity
  pub price : Text
  pub found : w.price_of sub it ≡ some price
  pub unit_price : numeric price ≡ some i.unit_price
  pub rt : Text
  pub rt_is : row_total (column it.quantity) price (codes "0") ≡ some rt
  pub row_total_is : amount_of rt ≡ i.row_total

abbrev pub AreOrderItems : World → Subscription → ℕ → List Item → List OrderItem → Type 0
AreOrderItems w sub order [] [] = Unit
AreOrderItems w sub order [] (i ∷ is) = ⊥
AreOrderItems w sub order (it ∷ its) [] = ⊥
AreOrderItems w sub order (it ∷ its) (i ∷ is) =
    IsOrderItem w sub order it i × AreOrderItems w sub order its is

pub exact_number : (t : Text) (z : ℤ) → IsExact t → numeric t ≡ some z → amount_of t ≡ z
exact_number t z x h = some-injective _ _ (sym (numeric-Denotes t (amount_of t) x) ∙ h)

item-IsOrderItem :
    (w : World) (sub : Subscription) (order : ℕ) (it : Item) (l : Line) (tax : Text) (db db' : Db)
    → IsPriced w sub it l
    → IsExact tax
    → add_order_item order l tax db ≡ some db'
    → (i : OrderItem) × (db'.order_items ≡ i ∷ db.order_items)
      × IsOrderItem w sub order it i
      × (amount_of l.rt ≡ i.row_total)
      × (amount_of tax ≡ i.tax_amount)
item-IsOrderItem w sub order it l tax db db' p x h =
    let (i, e, _, o, pid, q, price, t, rt) = add_order_item-some order l tax db db' h in
    let q' : column it.quantity ≡ l.qty = sym p.quantity in
    let total = exact_number l.rt i.row_total (row_total-IsExact _ _ _ p.total) rt in
    (
      i,
      ap (λ y. y.order_items) e,
      record {
        of_order = o;
        of_product = pid ∙ p.product;
        same_quantity = some-injective _ _ (
            sym q
            ∙ ap numeric p.quantity
            ∙ numeric-Denotes (column it.quantity) it.quantity (column-Denotes it.quantity));
        price = l.price;
        found = p.price;
        unit_price = price;
        rt = l.rt;
        rt_is = p.total;
        row_total_is = total;
      },
      total,
      exact_number tax i.tax_amount x t,
    )

price_lines-nil :
    (w : World) (sub : Subscription) (l : Line) (ls : List Line)
    → price_lines w sub [] ≡ lines (l ∷ ls)
    → ⊥
unfolding price_lines
price_lines-nil w sub l ls h = cc

both : {a b c d : ℤ} → a ≡ b → c ≡ d → a +ℤ c ≡ b +ℤ d
both {b = b} {c = c} e f = ap (λ x. x +ℤ c) e ∙ ap (λ y. b +ℤ y) f

-- The items of an order, as its lines and taxes are.
pub items-AreOrderItems :
    (w : World) (sub : Subscription) (order : ℕ) (its : List Item) (ls : List Line)
    (taxes : List Text) (db db' : Db)
    → price_lines w sub its ≡ lines ls
    → All IsExact taxes
    → length taxes ≡ length ls
    → add_order_items order ls taxes db ≡ some db'
    → (is : List OrderItem) × (db'.order_items ≡ added_to is db.order_items)
      × AreOrderItems w sub order its is
      × (sum_by (λ i. i.row_total) is ≡ sum_by amount_of (rts ls))
      × (sum_by (λ i. i.tax_amount) is ≡ sum_by amount_of taxes)
      × All IsExact (rts ls)
unfolding add_order_items
items-AreOrderItems w sub order [] [] [] db db' p x n h =
    ([], ap (λ y. y.order_items) (sym (some-injective _ _ h)), tt, refl, refl, tt)
items-AreOrderItems w sub order [] [] (t ∷ ts) db db' p x n h = absurd (omega (arith, n))
items-AreOrderItems w sub order [] (l ∷ ls) taxes db db' p x n h =
    absurd (price_lines-nil w sub l ls p)
items-AreOrderItems w sub order (it ∷ its) [] taxes db db' p x n h =
    let (l, rest, _, _, same) = price_lines-cons w sub it its [] p in cc same
items-AreOrderItems w sub order (it ∷ its) (l ∷ ls) [] db db' p x n h = absurd (omega (arith, n))
items-AreOrderItems w sub order (it ∷ its) (l ∷ ls) (t ∷ ts) db db' p (x, xs) n h =
    let (l', rest, priced, p', same) = price_lines-cons w sub it its (l ∷ ls) p in
    let (db₁, e₁, h₁) = >>=-eq-some (add_order_item order l t db) _ h in
    let mine : IsPriced w sub it l = subst (IsPriced w sub it) (ap (head_or l) same) priced in
    let (i, e, row, r, t') = item-IsOrderItem w sub order it l t db db₁ mine x e₁ in
    let (is, f, rows, rs, ts', exact) =
      items-AreOrderItems w sub order its ls ts db₁ db' (p' ∙ ap (λ y. lines (tail_of y)) same) xs
        (omega (arith, n)) h₁ in
    (
      i ∷ is,
      f ∙ ap (added_to is) e,
      (row, rows),
      both (sym r) rs,
      both (sym t') ts',
      (row_total-IsExact _ _ _ mine.total, exact),
    )
