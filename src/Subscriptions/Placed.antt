-- ===== src/Subscriptions/Placed.antt =====
-- What `runOne` of internal/subscriptions/service.go does with a priced order, step by step.
use mathlib.Core.Option.{some-injective}
use mathlib.Core.Path.{subst}
use teggo.Prelude.{
  ◌≡◌, refl, sym, ◌∙◌, ap, ℕ, suc, ◌+◌, none, some, List, [], ◌∷◌, length, >>=-eq-some,
  Option-cases, inl, inr, ◌⊎◌,
}
use teggo.Prelude.Text.{Text}
use teggo.Money.Amount.{sum, or_empty}
use teggo.Inventory.{numeric}
use teggo.Marketplace.Split
use teggo.Marketplace.Split.{split_order}
use teggo.Prelude.Int.{ℤ, pos}
use teggo.Subscriptions.{
  Subscription, Order, OrderItem, Db, World, Time, Line, Discount, create_order, add_order_item,
  add_order_items, set_order_promotion, redeem, split_run, lines_with_vendor, add_history,
  place_order, record_run,
}

-- The schedule and the runs stay, and there are as many orders.
pub record IsFrame (db db' : Db) : Type 0 where
  pub same_schedule : db'.subscriptions ≡ db.subscriptions
  pub same_runs : db'.runs ≡ db.runs
  pub as_many : length db'.orders ≡ length db.orders
  pub same_next : db'.next_subscription ≡ db.next_subscription

IsFrame-refl : (db : Db) → IsFrame db db
IsFrame-refl db = record {
  same_schedule = refl;
  same_runs = refl;
  as_many = refl;
  same_next = refl;
}

IsFrame-trans : (a b c : Db) → IsFrame a b → IsFrame b c → IsFrame a c
IsFrame-trans a b c p q = record {
  same_schedule = q.same_schedule ∙ p.same_schedule;
  same_runs = q.same_runs ∙ p.same_runs;
  as_many = q.as_many ∙ p.as_many;
  same_next = q.same_next ∙ p.same_next;
}

pub add_order_item-some :
    (order : ℕ) (l : Line) (tax : Text) (db db' : Db)
    → add_order_item order l tax db ≡ some db'
    → (i : OrderItem) × (db'
        ≡ record db { order_items = i ∷ db.order_items; next_item = db.next_item + 1 })
      × (i.id ≡ db.next_item)
      × (i.order_id ≡ order)
      × (i.product_id ≡ l.pid)
      × (numeric l.qty ≡ some i.quantity)
      × (numeric l.price ≡ some i.unit_price)
      × (numeric tax ≡ some i.tax_amount)
      × (numeric l.rt ≡ some i.row_total)
unfolding add_order_item
add_order_item-some order l tax db db' h =
    let (q, eq, h₁) = >>=-eq-some (numeric l.qty) _ h in
    let (p, ep, h₂) = >>=-eq-some (numeric l.price) _ h₁ in
    let (t, et, h₃) = >>=-eq-some (numeric tax) _ h₂ in
    let (r, er, h₄) = >>=-eq-some (numeric l.rt) _ h₃ in
    (_, sym (some-injective _ _ h₄), refl, refl, refl, eq, ep, et, er)

pub add_order_items-frame :
    (order : ℕ) (ls : List Line) (taxes : List Text) (db db' : Db)
    → add_order_items order ls taxes db ≡ some db'
    → (db'.subscriptions ≡ db.subscriptions)
      × (db'.runs ≡ db.runs)
      × (db'.orders ≡ db.orders)
      × (db'.promotions ≡ db.promotions)
      × (db'.split ≡ db.split)
      × (db'.next_subscription ≡ db.next_subscription)
unfolding add_order_items
add_order_items-frame order [] taxes db db' h =
    let e = sym (some-injective _ _ h) in rw e (refl, refl, refl, refl, refl, refl)
add_order_items-frame order (l ∷ ls) [] db db' h = cc
add_order_items-frame order (l ∷ ls) (t ∷ ts) db db' h =
    let (db₁, e₁, h₁) = >>=-eq-some (add_order_item order l t db) _ h in
    let (i, e, _, _, _, _, _, _, _) = add_order_item-some order l t db db₁ e₁ in
    let (a, b, c, d, f, g) = add_order_items-frame order ls ts db₁ db' h₁ in
    (
      a ∙ ap (λ x. x.subscriptions) e,
      b ∙ ap (λ x. x.runs) e,
      c ∙ ap (λ x. x.orders) e,
      d ∙ ap (λ x. x.promotions) e,
      f ∙ ap (λ x. x.split) e,
      g ∙ ap (λ x. x.next_subscription) e,
    )

pub create_order-some :
    (sub : Subscription) (subtotal tax grand : Text) (db db' : Db)
    → create_order sub subtotal tax grand db ≡ some db'
    → (o : Order) × (db' ≡ record db { orders = o ∷ db.orders; next_order = db.next_order + 1 })
      × (o.id ≡ db.next_order)
      × (o.customer_id ≡ sub.customer_id)
      × (o.organization_id ≡ sub.organization_id)
      × (o.discount_total ≡ pos 0)
      × (o.promotion_id ≡ none)
      × (numeric subtotal ≡ some o.subtotal)
      × (numeric tax ≡ some o.tax_total)
      × (numeric grand ≡ some o.grand_total)
unfolding create_order
create_order-some sub subtotal tax grand db db' h =
    let (s, es, h₁) = >>=-eq-some (numeric subtotal) _ h in
    let (t, et, h₂) = >>=-eq-some (numeric tax) _ h₁ in
    let (g, eg, h₃) = >>=-eq-some (numeric grand) _ h₂ in
    (_, sym (some-injective _ _ h₃), refl, refl, refl, refl, refl, es, et, eg)

length-set_order_promotion :
    (id : ℕ) (amount : ℤ) (promo : ℕ) (os : List Order)
    → length (set_order_promotion id amount promo os) ≡ length os
unfolding set_order_promotion
length-set_order_promotion id amount promo [] = refl
length-set_order_promotion id amount promo (o ∷ os) =
    ap suc (length-set_order_promotion id amount promo os)

-- What redeeming does to the orders, and what it leaves.
pub redeem-some :
    (sub : Subscription) (order : ℕ) (d : Discount) (db db' : Db)
    → redeem sub order d db ≡ some db'
    → IsFrame db db'
      × (db'.order_items ≡ db.order_items)
      × (db'.split ≡ db.split)
      × (((d.promo_id ≡ none) × (db' ≡ db))
          ⊎ ((promo : ℕ) × (amount : ℤ) × (d.promo_id ≡ some promo)
              × (numeric d.discount ≡ some amount)
              × (db'.orders ≡ set_order_promotion order amount promo db.orders)))
unfolding redeem
redeem-some sub order d db db' h = elim (Option-cases d.promo_id) [
  | inl e ↦
      let same = some-injective _ _ (sym (rw (e, redeem) at h)) in
      (
        subst (IsFrame db) (sym same) (IsFrame-refl db),
        ap (λ x. x.order_items) same,
        ap (λ x. x.split) same,
        inl (e, same),
      )
  | inr (promo, e) ↦
      let (amount, ea, h₁) = >>=-eq-some (numeric d.discount) _ (rw (e, redeem) at h) in
      let same = sym (some-injective _ _ h₁) in
      (
        subst (IsFrame db) (sym same) (record {
          same_schedule = refl;
          same_runs = refl;
          as_many = length-set_order_promotion order amount promo db.orders;
          same_next = refl;
        }),
        ap (λ x. x.order_items) same,
        ap (λ x. x.split) same,
        inr (promo, amount, e, ea, ap (λ x. x.orders) same),
      )
]

pub split_run-some :
    (w : World) (sub : Subscription) (order : ℕ) (db db' : Db)
    → split_run w sub order db ≡ some db'
    → (split : Split.Store) × (split_order w.rate_of sub.organization_id order sub.currency
          (lines_with_vendor w order db.order_items)
          db.split
        ≡ some split)
      × (db' ≡ record db { split = split })
unfolding split_run
split_run-some w sub order db db' h =
    let (split, e, h₁) =
      >>=-eq-some
        (split_order w.rate_of sub.organization_id order sub.currency
          (lines_with_vendor w order db.order_items) db.split)
        _ h in
    (split, e, sym (some-injective _ _ h₁))

-- The steps of a run that creates an order.
pub record IsPlaced (w : World) (sub : Subscription) (today : Time) (ls : List Line)
    (subtotal : Text) (d : Discount) (discounted : Text) (taxes : List Text) (tax_total : Text)
    (db db' : Db) : Type 0 where
  pub ordered : Db
  pub filled : Db
  pub redeemed : Db
  pub divided : Db
  pub orders :
      create_order sub subtotal tax_total (or_empty (sum (discounted ∷ tax_total ∷ []))) db
      ≡ some ordered
  pub fills : add_order_items db.next_order ls taxes ordered ≡ some filled
  pub redeems : redeem sub db.next_order d filled ≡ some redeemed
  pub divides : split_run w sub db.next_order redeemed ≡ some divided
  pub ends :
      db'
      ≡ record_run sub today
          (some db.next_order)
          "success"
          none
          (add_history sub db.next_order divided)

pub place_order-IsPlaced :
    (w : World) (sub : Subscription) (today : Time) (ls : List Line) (subtotal : Text)
    (d : Discount) (discounted : Text) (taxes : List Text) (tax_total : Text) (db db' : Db)
    → place_order w sub today ls subtotal d discounted taxes tax_total db ≡ some db'
    → IsPlaced w sub today ls subtotal d discounted taxes tax_total db db'
unfolding place_order
place_order-IsPlaced w sub today ls subtotal d discounted taxes tax_total db db' h =
    let (a, e, h₁) =
      >>=-eq-some
        (create_order sub subtotal tax_total (or_empty (sum (discounted ∷ tax_total ∷ []))) db) _
        h in
    let (b, f, h₂) = >>=-eq-some (add_order_items db.next_order ls taxes a) _ h₁ in
    let (c, g, h₃) = >>=-eq-some (redeem sub db.next_order d b) _ h₂ in
    let (x, k, h₄) = >>=-eq-some (split_run w sub db.next_order c) _ h₃ in
    record {
      ordered = a;
      filled = b;
      redeemed = c;
      divided = x;
      orders = e;
      fills = f;
      redeems = g;
      divides = k;
      ends = sym (some-injective _ _ h₄);
    }
