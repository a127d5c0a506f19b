-- ===== src/Subscriptions.antt =====
-- internal/subscriptions/service.go: due subscriptions become orders. NUMERIC columns are integers, in
-- ten-thousandths. What other tables and packages answer during a run is in the record World.
pub mod Tables
pub mod Orders
pub mod Dates
pub mod Placed
pub mod Runs
pub mod Rows
pub mod Schedule
pub mod Totals
pub mod Handlers
pub mod Kept
pub mod Requests
pub mod History
pub mod Tests
pub mod HistoryTests
pub use Tables.{
  Subscription, Item, Run, Order, OrderItem, Promotion, Redemption, StatusChange, Db, World, Time,
  Line,
}
pub use Orders.{Discount}
unfoldable pub use Orders.{
  advance_subscription, record_run, comes_before, place, list_active_promotions, discount_by,
  best_discount, create_order, add_order_item, add_order_items, set_order_promotion, redeemed_more,
  increment_redeemed, redeem, lines_with_vendor, split_run, add_history, tax_line, place_order,
  if_taxed, rts, order_run,
}
use teggo.Prelude.{
  ℕ, ◌+◌, Bool, true, false, ◌&&◌, ◌||◌, Option, none, some, List, [], ◌∷◌, ◌++◌, map, ◌==◌,
  if◌then◌else◌, String, str_eq, ltb, ◌>>=◌,
}
use teggo.Prelude.Text.{Text, codes}
use teggo.Prelude.Int.{ℤ, pos, ◌+ℤ◌, ltb_ℤ}
use teggo.Money.Amount
use teggo.Money.Amount.{sum, row_total, or_empty}
use teggo.Inventory.{column, numeric}
use teggo.Promotions.{Candidate, evaluate}
use teggo.Tax.{OrderLine, Answer, taxed, failed, panic, Table, compute_order_tax}
use teggo.Tax.Total.{Provider, provider_of}
use teggo.Marketplace.Split
use teggo.Marketplace.Split.{split_order}
use teggo.Subscriptions.Dates.{Date, leb_date, advance_date}

-- `ListSubscriptionItems`
unfoldable pub list_items : ℕ → List Item → List Item
list_items id [] = []
list_items id (it ∷ its) =
    if it.subscription_id == id then it ∷ list_items id its else list_items id its

-- What the pricing loop ends with: its lines, or the problem that it breaks on.
pub data Priced : Type 0 where
  lines : List Line → Priced
  problem : Text → Priced

abbrev pub and_line : Line → Priced → Priced
and_line l (lines ls) = lines (l ∷ ls)
and_line l (problem why) = problem why

unfoldable pub price_lines : World → Subscription → List Item → Priced
price_lines w sub [] = lines []
price_lines w sub (it ∷ its) = elim (w.price_of sub it) [
  | none ↦ problem (codes "no current price for " ++ it.sku)
  | some price ↦ elim (row_total (column it.quantity) price (codes "0")) [
    | none ↦ problem (codes "bad amount for " ++ it.sku)
    | some rt ↦
        and_line
          (record {
            pid = it.product_id;
            qty = column it.quantity;
            unit = it.unit;
            price = price;
            rt = rt;
          })
          (price_lines w sub its)
  ]
]

-- A failed run, which advances all the same.
abbrev pub fail_run : Subscription → Time → Text → Db → Db
fail_run sub today note db = record_run sub today none "failed" (some note) db

-- Whether an order was created, with the tables that are committed.
abbrev pub with_order : Bool → Option Db → Option (Db × Bool)
with_order created none = none
with_order created (some db) = some (db, created)

abbrev pub run_priced : World → Subscription → Time → Priced → Db → Option (Db × Bool)
run_priced w sub today (problem why) db = some (fail_run sub today why db, false)
run_priced w sub today (lines []) db =
    some (fail_run sub today (codes "subscription has no items") db, false)
run_priced w sub today (lines (l ∷ ls)) db = with_order true (order_run w sub today (l ∷ ls) db)

-- `runOne`: `none` is an error, after which the transaction is rolled back.
unfoldable pub run_one : World → Subscription → Time → Db → Option (Db × Bool)
run_one w sub today db =
    if w.is_up sub.id
    then run_priced w sub today (price_lines w sub (list_items sub.id db.items)) db
    else none

-- `ListDueSubscriptions`
abbrev pub is_due : Date → Subscription → Bool
is_due today s = str_eq s.status "active" && leb_date s.next_run_date today

unfoldable pub list_due : Date → List Subscription → List Subscription
list_due today [] = []
list_due today (s ∷ ss) = let rest = list_due today ss in if is_due today s then s ∷ rest else rest

-- The tables after a run, and the number of orders created so far.
abbrev pub after_run : Option (Db × Bool) → Db → ℕ → Db × ℕ
after_run none db created = (db, created)
after_run (some (db', true)) db created = (db', created + 1)
after_run (some (db', false)) db created = (db', created)

-- The loop of `MaterializeDue`.
unfoldable pub materialize : World → Time → List Subscription → ℕ → Db → Db × ℕ
materialize w today [] created db = (db, created)
materialize w today (sub ∷ due) created db =
    let (db', created') = after_run (run_one w sub today db) db created in
    materialize w today due created' db'

-- `MaterializeDue`
unfoldable pub materialize_due : World → Time → Db → Db × ℕ
materialize_due w today db = materialize w today (list_due today.date db.subscriptions) 0 db

-- `RunNow`
unfoldable pub run_now : World → Subscription → Time → Db → Option (Db × Bool)
run_now = run_one
