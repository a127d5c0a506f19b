-- ===== src/Subscriptions/Orders.antt =====
-- The order that `runOne` of internal/subscriptions/service.go creates from priced lines.
use teggo.Prelude.{
  ℕ, ◌+◌, Bool, true, false, ◌&&◌, Option, none, some, List, [], ◌∷◌, map, ◌==◌, if◌then◌else◌,
  String, ltb, ◌>>=◌,
}
use teggo.Prelude.Text.{Text, codes}
use teggo.Prelude.Int.{ℤ, pos, ◌+ℤ◌, ltb_ℤ}
use teggo.Money.Amount
use teggo.Money.Amount.{sum, row_total, or_empty}
use teggo.Inventory.{column, numeric}
use teggo.Promotions.{Candidate, evaluate}
use teggo.Tax.{OrderLine, Answer, taxed, failed, panic, compute_order_tax}
use teggo.Tax.Total.{provider_of}
use teggo.Marketplace.Split
use teggo.Marketplace.Split.{split_order}
use teggo.Subscriptions.Dates.{Date, advance_date}
use teggo.Subscriptions.Tables.{Subscription, Order, OrderItem, Promotion, Db, World, Time, Line}

-- `AdvanceSubscription`
unfoldable pub advance_subscription : ℕ → Date → ℕ → List Subscription → List Subscription
advance_subscription id next at [] = []
advance_subscription id next at (s ∷ ss) =
    (if s.id == id then record s { next_run_date = next; last_run_at = some at } else s)
    ∷ advance_subscription id next at ss

-- `CreateSubscriptionRun` and `AdvanceSubscription`, which end both kinds of run.
unfoldable pub record_run : Subscription → Time → Option ℕ → String → Option Text → Db → Db
record_run sub today order status note db = record db {
  runs =
      record {
        subscription_id = sub.id;
        order_id = order;
        run_date = today.date;
        status = status;
        note = note;
      }
      ∷ db.runs;
  subscriptions =
      advance_subscription sub.id (advance_date sub.cadence today.date) today.instant
        db.subscriptions;
}

-- `ListActivePromotions`, ordered by priority from the highest, then by id.
abbrev pub comes_before : Candidate → Candidate → Bool
comes_before c d =
    if ltb_ℤ d.priority c.priority
    then true
    else if ltb_ℤ c.priority d.priority
    then false
    else ltb c.id d.id

unfoldable pub place : Candidate → List Candidate → List Candidate
place c [] = c ∷ []
place c (d ∷ ds) = if comes_before c d then c ∷ d ∷ ds else d ∷ place c ds

unfoldable pub list_active_promotions : ℕ → List Promotion → List Candidate
list_active_promotions org [] = []
list_active_promotions org (p ∷ ps) =
    let rest = list_active_promotions org ps in
    if p.organization_id == org && p.is_active then place p.candidate rest else rest

-- The discount of a run, and the promotion that gives it.
pub record Discount : Type 0 where
  pub discount : Text
  pub promo_id : Option ℕ

abbrev pub discount_by : Option Candidate → Text → Discount
discount_by none discount = record { discount = codes "0"; promo_id = none }
discount_by (some c) discount = record { discount = discount; promo_id = some c.id }

unfoldable pub best_discount : Text → ℕ → List Candidate → Discount
best_discount subtotal now [] = discount_by none []
best_discount subtotal now (c ∷ cs) =
    let res = evaluate subtotal [] now (c ∷ cs) in discount_by res.promotion res.discount

-- `CreateOrder`; a text that is no number is an error.
unfoldable pub create_order : Subscription → Text → Text → Text → Db → Option Db
create_order sub subtotal tax_total grand db = do
  s ← numeric subtotal
  t ← numeric tax_total
  g ← numeric grand
  some (record db {
    orders =
        record {
          id = db.next_order;
          organization_id = sub.organization_id;
          customer_id = sub.customer_id;
          currency = sub.currency;
          subtotal = s;
          tax_total = t;
          shipping_total = pos 0;
          grand_total = g;
          discount_total = pos 0;
          promotion_id = none;
        }
        ∷ db.orders;
    next_order = db.next_order + 1;
  })

-- `AddOrderItem`
unfoldable pub add_order_item : ℕ → Line → Text → Db → Option Db
add_order_item order l tax db = do
  q ← numeric l.qty
  p ← numeric l.price
  t ← numeric tax
  r ← numeric l.rt
  some (record db {
    order_items =
        record {
          id = db.next_item;
          order_id = order;
          product_id = l.pid;
          quantity = q;
          unit = l.unit;
          unit_price = p;
          tax_amount = t;
          row_total = r;
        }
        ∷ db.order_items;
    next_item = db.next_item + 1;
  })

-- The loop over the lines with `perLineTax[i]`; a missing entry is a panic, which is an error here.
unfoldable pub add_order_items : ℕ → List Line → List Text → Db → Option Db
add_order_items order [] taxes db = some db
add_order_items order (l ∷ ls) [] db = none
add_order_items order (l ∷ ls) (t ∷ ts) db = do
  db' ← add_order_item order l t db
  add_order_items order ls ts db'

-- `SetOrderPromotion`
unfoldable pub set_order_promotion : ℕ → ℤ → ℕ → List Order → List Order
set_order_promotion id discount promo [] = []
set_order_promotion id discount promo (o ∷ os) =
    (if o.id == id then record o { discount_total = discount; promotion_id = some promo } else o)
    ∷ set_order_promotion id discount promo os

-- `IncrementPromotionRedeemed`
abbrev pub redeemed_more : Candidate → Candidate
redeemed_more c = record c { times_redeemed = c.times_redeemed +ℤ pos 1 }

unfoldable pub increment_redeemed : ℕ → List Promotion → List Promotion
increment_redeemed id [] = []
increment_redeemed id (p ∷ ps) =
    (if p.candidate.id == id then record p { candidate = redeemed_more p.candidate } else p)
    ∷ increment_redeemed id ps

-- What a promotion adds to the order: `SetOrderPromotion` and `CreatePromotionRedemption`.
unfoldable pub redeem : Subscription → ℕ → Discount → Db → Option Db
redeem sub order d db = elim d.promo_id [
  | none ↦ some db
  | some promo ↦ do
    amount ← numeric d.discount
    some (record db {
      orders = set_order_promotion order amount promo db.orders;
      redemptions =
          record {
            promotion_id = promo;
            order_id = order;
            customer_id = sub.customer_id;
            amount = amount;
          }
          ∷ db.redemptions;
      promotions = increment_redeemed promo db.promotions;
    })
]

-- `ListOrderItemsWithVendor`
unfoldable pub lines_with_vendor : World → ℕ → List OrderItem → List Split.Line
lines_with_vendor w order [] = []
lines_with_vendor w order (i ∷ is) =
    let rest = lines_with_vendor w order is in
    if i.order_id == order
    then record { id = i.id; row_total = column i.row_total; vendor_id = w.vendor_of i.product_id }
      ∷ rest
    else rest

-- `SplitOrder` in the transaction of the run.
unfoldable pub split_run : World → Subscription → ℕ → Db → Option Db
split_run w sub order db = do
  split ←
      split_order w.rate_of sub.organization_id order sub.currency
        (lines_with_vendor w order db.order_items) db.split
  some (record db { split = split })

-- `AddOrderStatusHistory`
abbrev pub add_history : Subscription → ℕ → Db → Db
add_history sub order db = record db {
  histories =
      record { order_id = order; to_status = "pending"; subscription_id = sub.id } ∷ db.histories;
}

abbrev pub tax_line : Line → OrderLine
tax_line l = record { product_id = l.pid; amount = l.rt }

-- The rest of `runOne` once the order is taxed.
unfoldable pub place_order :
    World
    → Subscription
    → Time
    → List Line
    → Text
    → Discount
    → Text
    → List Text
    → Text
    → Db
    → Option Db
place_order w sub today ls subtotal d discounted taxes tax_total db = do
  ordered ← create_order sub subtotal tax_total (or_empty (sum (discounted ∷ tax_total ∷ []))) db
  filled ← add_order_items db.next_order ls taxes ordered
  redeemed ← redeem sub db.next_order d filled
  divided ← split_run w sub db.next_order redeemed
  some (
      record_run sub today (some db.next_order) "success" none
        (add_history sub db.next_order divided))

abbrev pub if_taxed : Answer → (List Text → Text → Option Db) → Option Db
if_taxed (taxed taxes total) next = next taxes total
if_taxed (failed taxes total) next = none
if_taxed panic next = none

abbrev pub rts : List Line → List Text
rts = map (λ l. l.rt)

-- A run with priced lines.
unfoldable pub order_run : World → Subscription → Time → List Line → Db → Option Db
order_run w sub today ls db =
    let subtotal = or_empty (sum (rts ls)) in
    let d =
      best_discount subtotal today.instant
        (list_active_promotions sub.organization_id db.promotions) in
    let discounted = or_empty (Amount.sub subtotal d.discount) in
    let country = w.country_of sub.customer_id in
    if_taxed
      (compute_order_tax (provider_of w.provider) country (map tax_line ls) w.classes
        (w.rates country))
      (λ taxes total. place_order w sub today ls subtotal d discounted taxes total db)
