-- ===== src/Marketplace/Split.antt =====
-- internal/modules/marketplace/split.go: an order is fanned out into one order per vendor. The store
-- holds the two tables that it writes; the vendors' table is a function.
pub mod Balance
pub mod Lines
pub mod Tags
pub mod Tests
use teggo.Prelude.{
  ℕ, Bool, true, false, ◌&&◌, ◌||◌, Option, none, some, List, [], ◌∷◌, ◌++◌, ◌==◌, if◌then◌else◌,
  String, ◌>>=◌,
}
use teggo.Prelude.Text.{Text}
use teggo.Money.Amount
use teggo.Money.Amount.{sum, percent}

-- A row of `ListOrderItemsWithVendor`; `none` is an operator-owned line.
pub record Line : Type 0 where
  pub id : ℕ
  pub row_total : Text
  pub vendor_id : Option ℕ

-- `CreateVendorOrderParams`
pub record VendorOrder : Type 0 where
  pub organization_id : ℕ
  pub order_id : ℕ
  pub vendor_id : ℕ
  pub currency : String
  pub gross_total : Text
  pub commission_rate : Text
  pub commission_total : Text
  pub net_total : Text

-- The rows of vendor_orders, and the vendor set on each order item, newest first.
pub record Store : Type 0 where
  pub vendor_orders : List VendorOrder
  pub tags : List (ℕ × ℕ)

-- `bucket`, with its key. The list stands for the map and the first-seen order together.
pub record Bucket : Type 0 where
  pub vendor : ℕ
  pub item_ids : List ℕ
  pub totals : List Text

abbrev pub new_bucket : ℕ → ℕ → Text → Bucket
new_bucket v i t = record { vendor = v; item_ids = i ∷ []; totals = t ∷ [] }

abbrev pub grown : Bucket → ℕ → Text → Bucket
grown b i t = record b { item_ids = b.item_ids ++ (i ∷ []); totals = b.totals ++ (t ∷ []) }

unfoldable pub add_item : ℕ → ℕ → Text → List Bucket → List Bucket
add_item v i t [] = new_bucket v i t ∷ []
add_item v i t (b ∷ bs) = if b.vendor == v then grown b i t ∷ bs else b ∷ add_item v i t bs

unfoldable pub add_line : Option ℕ → ℕ → Text → List Bucket → List Bucket
add_line none i t bs = bs
add_line (some v) i t bs = add_item v i t bs

-- The grouping loop.
unfoldable pub group_lines : List Bucket → List Line → List Bucket
group_lines bs [] = bs
group_lines bs (l ∷ ls) = group_lines (add_line l.vendor_id l.id l.row_total bs) ls

-- Whether the pair is taken, by the UNIQUE (order_id, vendor_id) of vendor_orders.
taken : ℕ → ℕ → List VendorOrder → Bool
taken order vendor [] = false
taken order vendor (o ∷ os) =
    (o.order_id == order && o.vendor_id == vendor) || taken order vendor os

-- `CreateVendorOrder`
unfoldable pub create_vendor_order : VendorOrder → Store → Option Store
unfolding taken
create_vendor_order o s =
    if taken o.order_id o.vendor_id s.vendor_orders
    then none
    else some (record s { vendor_orders = o ∷ s.vendor_orders })

-- `SetOrderItemVendor` for each item.
unfoldable pub tag_items : ℕ → List ℕ → Store → Store
tag_items v [] s = s
tag_items v (i ∷ is) s = tag_items v is (record s { tags = (i, v) ∷ s.tags })

module _ (rate_of : ℕ → Option Text) (org order : ℕ) (currency : String) where
  -- The body of the second loop; `rate_of` is `GetVendor`, the commission rate of a vendor.
  unfoldable pub split_vendor : Bucket → Store → Option Store
  split_vendor b s = do
    gross ← sum b.totals
    rate ← rate_of b.vendor
    commission ← percent gross rate
    net ← Amount.sub gross commission
    s' ←
        create_vendor_order
          (record {
            organization_id = org;
            order_id = order;
            vendor_id = b.vendor;
            currency = currency;
            gross_total = gross;
            commission_rate = rate;
            commission_total = commission;
            net_total = net;
          })
          s
    some (tag_items b.vendor b.item_ids s')

  unfoldable pub split_vendors : List Bucket → Store → Option Store
  split_vendors [] s = some s
  split_vendors (b ∷ bs) s = do s' ← split_vendor b s; split_vendors bs s'

  -- `SplitOrder`, on the rows that the query returns.
  unfoldable pub split_order : List Line → Store → Option Store
  split_order rows s = split_vendors (group_lines [] rows) s
