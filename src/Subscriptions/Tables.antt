-- ===== src/Subscriptions/Tables.antt =====
-- The tables that internal/subscriptions/service.go reads and writes, and what else it is given.
use teggo.Prelude.{ℕ, Bool, Option, List, String}
use teggo.Prelude.Text.{Text}
use teggo.Prelude.Int.{ℤ}
use teggo.Promotions.{Candidate}
use teggo.Tax.{Table}
use teggo.Tax.Total.{Provider}
use teggo.Marketplace.Split
use teggo.Marketplace.Split.{split_order}
use teggo.Subscriptions.Dates.{Date}

-- The columns of subscriptions that a run reads or writes.
pub record Subscription : Type 0 where
  pub id : ℕ
  pub organization_id : ℕ
  pub customer_id : ℕ
  pub customer_user_id : Option ℕ
  pub currency : String
  pub cadence : String
  pub next_run_date : Date
  pub status : String
  pub last_run_at : Option ℕ

-- A row of `ListSubscriptionItems`.
pub record Item : Type 0 where
  pub subscription_id : ℕ
  pub product_id : ℕ
  pub quantity : ℤ
  pub unit : String
  pub sku : Text

-- A row of subscription_runs.
pub record Run : Type 0 where
  pub subscription_id : ℕ
  pub order_id : Option ℕ
  pub run_date : Date
  pub status : String
  pub note : Option Text

-- A row of orders.
pub record Order : Type 0 where
  pub id : ℕ
  pub organization_id : ℕ
  pub customer_id : ℕ
  pub currency : String
  pub subtotal : ℤ
  pub tax_total : ℤ
  pub shipping_total : ℤ
  pub grand_total : ℤ
  pub discount_total : ℤ
  pub promotion_id : Option ℕ

-- A row of order_items; the vendor is in the store of the split.
pub record OrderItem : Type 0 where
  pub id : ℕ
  pub order_id : ℕ
  pub product_id : ℕ
  pub quantity : ℤ
  pub unit : String
  pub unit_price : ℤ
  pub tax_amount : ℤ
  pub row_total : ℤ

-- A row of promotions.
pub record Promotion : Type 0 where
  pub organization_id : ℕ
  pub is_active : Bool
  pub candidate : Candidate

-- A row of promotion_redemptions.
pub record Redemption : Type 0 where
  pub promotion_id : ℕ
  pub order_id : ℕ
  pub customer_id : ℕ
  pub amount : ℤ

-- A row of order_status_history.
pub record StatusChange : Type 0 where
  pub order_id : ℕ
  pub to_status : String
  pub subscription_id : ℕ

-- The tables, with the next values of the identity columns of subscriptions, orders and order_items.
-- The rows of subscriptions are in the order of their ids.
pub record Db : Type 0 where
  pub subscriptions : List Subscription
  pub items : List Item
  pub runs : List Run
  pub orders : List Order
  pub order_items : List OrderItem
  pub promotions : List Promotion
  pub redemptions : List Redemption
  pub histories : List StatusChange
  pub split : Split.Store
  pub next_subscription : ℕ
  pub next_order : ℕ
  pub next_item : ℕ

-- `is_up` tells whether the database takes all statements of the run of a subscription, its commit
-- included. `price_of` is `ResolvePriceTier`, `country_of` the country of a customer's default
-- shipping address, `vendor_of` and `rate_of` are the vendor of a product and its commission rate.
pub record World : Type 0 where
  pub is_up : ℕ → Bool
  pub price_of : Subscription → Item → Option Text
  pub provider : Provider
  pub country_of : ℕ → String
  pub classes : Option (List (ℕ × String))
  pub rates : String → Option Table
  pub vendor_of : ℕ → Option ℕ
  pub rate_of : ℕ → Option Text

-- `time.Time`: the instant, and the date that it falls on.
pub record Time : Type 0 where
  pub instant : ℕ
  pub date : Date

-- `line`
pub record Line : Type 0 where
  pub pid : ℕ
  pub qty : Text
  pub unit : String
  pub price : Text
  pub rt : Text
