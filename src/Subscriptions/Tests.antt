-- ===== src/Subscriptions/Tests.antt =====
-- A weekly subscription of two bolts that becomes an order, beside one without a price, and instances
-- of the theorems.
use teggo.Prelude.{
  ◌≡◌, refl, ℕ, Bool, true, Option, none, some, [], ◌∷◌, ◌==◌, if◌then◌else◌, arith, length, ◌+◌,
}
use teggo.Prelude.Text.{Text, codes}
use teggo.Prelude.Int.{pos, ◌+ℤ◌}
use teggo.Money.Rat
use teggo.Money.Amount
use teggo.Money.Decimal
use teggo.Inventory
use teggo.Promotions
use teggo.Prelude.Text
use teggo.Subscriptions
use teggo.Money.Decimal.{parse}
use teggo.Promotions.{Candidate, evaluate}
use teggo.Tax.{compute_order_tax}
use teggo.Tax.Total.{local_vat}
use teggo.Marketplace.Split
use teggo.Subscriptions.Dates.{
  Date, IsDate, add_date, settle, days_in, is_leap, leb_date, advance_date, day_number, gap,
  advance_date-IsDate,
}
use teggo.Subscriptions.{
  Subscription, Item, Run, Order, OrderItem, Promotion, Db, World, Time, price_lines, list_items,
  list_due, materialize, materialize_due, run_one,
}
use teggo.Subscriptions.Schedule.{Rows, AreKeyed, IsSettled, materialize_due-IsSettled}
use teggo.Subscriptions.Totals.{IsSound, run_one-IsSound}

abbrev pub day : ℕ → ℕ → Date
day m d = record { year = 4; month = m; day = d }

-- The month-end days of a leap year.
steps :
    (advance_date "weekly" (day 2 27) ≡ day 3 5)
    × (advance_date "monthly" (day 1 31) ≡ day 3 2)
    × (advance_date "quarterly" (day 11 30) ≡ record { year = 5; month = 3; day = 2 })
    × (advance_date "yearly" (day 12 31) ≡ record { year = 5; month = 1; day = 31 })
unfolding advance_date add_date settle days_in is_leap
steps = (refl, refl, refl, refl)

february-IsDate : IsDate (day 2 27)
unfolding days_in is_leap
february-IsDate = record { month_in = omega arith; day_in = omega arith }

advance_date-IsDate_example :
    IsDate (advance_date "weekly" (day 2 27))
    × (day_number (advance_date "weekly" (day 2 27))
        ≡ day_number (day 2 27) + gap "weekly" (day 2 27))
advance_date-IsDate_example = advance_date-IsDate "weekly" (day 2 27) february-IsDate

abbrev subscription : ℕ → ℕ → Subscription
subscription id customer = record {
  id = id;
  organization_id = 1;
  customer_id = customer;
  customer_user_id = none;
  currency = "EUR";
  cadence = "weekly";
  next_run_date = day 2 26;
  status = "active";
  last_run_at = none;
}

abbrev pub bolts : Subscription
bolts = subscription 5 7

abbrev pub nuts : Subscription
nuts = subscription 6 9

abbrev ten_off : Candidate
ten_off = record {
  id = 2;
  name = "ten off";
  code = none;
  discount_type = "percent";
  discount_value = codes "10";
  min_subtotal = none;
  starts_at = none;
  ends_at = none;
  max_redemptions = none;
  times_redeemed = pos 0;
  priority = pos 1;
}

abbrev item : ℕ → ℕ → Item
item sub product = record {
  subscription_id = sub;
  product_id = product;
  quantity = pos 20_000;
  unit = "each";
  sku = codes "X";
}

abbrev pub world : World
world = record {
  is_up = λ _. true;
  price_of = λ s it. if it.product_id == 8 then some (codes "10") else none;
  provider = local_vat;
  country_of = λ _. "";
  classes = none;
  rates = λ _. none;
  vendor_of = λ _. none;
  rate_of = λ _. none;
}

abbrev pub today : Time
today = record { instant = 900; date = day 2 27 }

abbrev pub tables : Db
tables = record {
  subscriptions = bolts ∷ nuts ∷ [];
  items = item 5 8 ∷ item 6 9 ∷ [];
  runs = [];
  orders = [];
  order_items = [];
  promotions = record { organization_id = 1; is_active = true; candidate = ten_off } ∷ [];
  redemptions = [];
  histories = [];
  split = record { vendor_orders = []; tags = [] };
  next_subscription = 7;
  next_order = 30;
  next_item = 70;
}

abbrev swept : Db
swept = (materialize_due world today tables).0

sweep :
    ((materialize_due world today tables).1 ≡ 1)
    × (swept.orders
        ≡ record {
          id = 30;
          organization_id = 1;
          customer_id = 7;
          currency = "EUR";
          subtotal = pos 200_000;
          tax_total = pos 0;
          shipping_total = pos 0;
          grand_total = pos 180_000;
          discount_total = pos 20_000;
          promotion_id = some 2;
        }
          ∷ [])
    × (swept.runs
        ≡ record {
          subscription_id = 6;
          order_id = none;
          run_date = day 2 27;
          status = "failed";
          note = some (codes "no current price for X");
        }
          ∷ record {
            subscription_id = 5;
            order_id = some 30;
            run_date = day 2 27;
            status = "success";
            note = none;
          }
          ∷ [])
    × ((materialize_due world today swept).1 ≡ 0)
unfolding materialize_due materialize list_due leb_date run_one price_lines list_items
    Amount.row_total parse Inventory.column Decimal.format Rat.round4 Subscriptions.order_run
    compute_order_tax Subscriptions.place_order Subscriptions.create_order Inventory.numeric
    Amount.sum Split.add_item Split.add_line Split.group_lines Split.split_order Split.split_vendors
    Amount.add_all Amount.cmp Amount.percent Amount.sub Decimal.show_ℕ Rat.add Rat.cmp Rat.mul
    Rat.quo_ℕ Rat.sub Rat.units ◌+ℤ◌ Text.to_lower Text.trim_space Promotions.better
    Promotions.capped Promotions.choose Promotions.consider Promotions.discount_for
    Promotions.eligible evaluate Promotions.offer add_date advance_date days_in is_leap settle
    Subscriptions.add_order_item Subscriptions.add_order_items Subscriptions.advance_subscription
    Subscriptions.best_discount Subscriptions.increment_redeemed Subscriptions.lines_with_vendor
    Subscriptions.list_active_promotions Subscriptions.place Subscriptions.record_run
    Subscriptions.redeem Subscriptions.set_order_promotion Subscriptions.split_run
sweep = (refl, refl, refl, refl)

keyed : AreKeyed tables.subscriptions
unfolding AreKeyed
keyed = ((refl, tt), (tt, tt))

materialize_due-IsSettled_example :
    Rows (IsSettled world today tables) tables.subscriptions swept.subscriptions
    × (length swept.orders ≡ length tables.orders + (materialize_due world today tables).1)
materialize_due-IsSettled_example =
    materialize_due-IsSettled world today tables february-IsDate keyed

abbrev tables_or : Option (Db × Bool) → Db
tables_or none = tables
tables_or (some (db, created)) = db

abbrev ordered : Db
ordered = tables_or (run_one world bolts today tables)

runs_first : run_one world bolts today tables ≡ some (ordered, true)
unfolding materialize list_due leb_date run_one price_lines list_items Amount.row_total parse
    Inventory.column Decimal.format Rat.round4 Subscriptions.order_run compute_order_tax
    Subscriptions.place_order Subscriptions.create_order Inventory.numeric Amount.sum Split.add_item
    Split.add_line Split.group_lines Split.split_order Split.split_vendors Amount.add_all Amount.cmp
    Amount.percent Amount.sub Decimal.show_ℕ Rat.add Rat.cmp Rat.mul Rat.quo_ℕ Rat.sub Rat.units
    ◌+ℤ◌ Text.to_lower Text.trim_space Promotions.better Promotions.capped Promotions.choose
    Promotions.consider Promotions.discount_for Promotions.eligible evaluate Promotions.offer
    add_date advance_date days_in is_leap settle Subscriptions.add_order_item
    Subscriptions.add_order_items Subscriptions.advance_subscription Subscriptions.best_discount
    Subscriptions.increment_redeemed Subscriptions.lines_with_vendor
    Subscriptions.list_active_promotions Subscriptions.place Subscriptions.record_run
    Subscriptions.redeem Subscriptions.set_order_promotion Subscriptions.split_run
runs_first = refl

run_one-IsSound_example : IsSound world bolts tables ordered
run_one-IsSound_example = run_one-IsSound world bolts today tables ordered runs_first tt
