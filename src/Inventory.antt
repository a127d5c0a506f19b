-- ===== src/Inventory.antt =====
-- internal/inventory: the levels of stock per product and warehouse, and the ledger of movements.
-- NUMERIC(15,4) columns are integers, in ten-thousandths; `column` is the text that a query returns
-- for one. Only the named outcomes are modelled: a failing query aborts the transaction.
pub mod Columns
pub mod Steps
pub mod Reserve
pub mod Ledger
pub mod History
pub mod Tests
use teggo.Prelude.{
  ℕ, Bool, true, false, not, ◌&&◌, Option, none, some, List, [], ◌∷◌, ◌==◌, if◌then◌else◌, String,
  str_eq, ◌||◌, Ordering, contains,
}
use teggo.Prelude.Text.{Text, codes}
use teggo.Prelude.Int.{ℤ, pos}
use teggo.Money.Rat
use teggo.Money.Rat.{units, of_units}
use teggo.Money.Decimal.{parse, format}
use teggo.Money.Amount
use teggo.Money.Amount.{cmp, or_empty, or_equal}

unfoldable pub column : ℤ → Text
column z = format (of_units z)

-- `$n::numeric` stored into a column, for a text other than NaN, which NUMERIC takes as well.
unfoldable pub numeric : Text → Option ℤ
numeric t = elim (parse t) [ none ↦ none | some r ↦ some (units r) ]

-- `col + $n::numeric` stored into the column, for a text other than NaN.
unfoldable pub plus_numeric : ℤ → Text → Option ℤ
plus_numeric z t = elim (parse t) [ none ↦ none | some r ↦ some (units (Rat.add (of_units z) r)) ]

-- A row of inventory_levels.
pub record Level : Type 0 where
  pub product_id : ℕ
  pub warehouse_id : ℕ
  pub on_hand : ℤ
  pub reserved : ℤ
  pub allow_backorder : Bool

-- A row of inventory_movements.
pub record Movement : Type 0 where
  pub product_id : ℕ
  pub warehouse_id : ℕ
  pub kind : String
  pub quantity : ℤ
  pub reference_type : String
  pub reference_id : Option ℕ
  pub created_by : String

pub record Store : Type 0 where
  pub levels : List Level
  pub movements : List Movement

-- A line of an order or of a shipment.
pub record Item : Type 0 where
  pub product_id : ℕ
  pub quantity : ℤ

-- `ErrInsufficientStock`, or any other error.
pub data Outcome (A : Type 0) : Type 0 where
  done : A → Outcome A
  insufficient_stock : Outcome A
  failed : Outcome A

infixl 5 ◌>>=◌
abbrev pub ◌>>=◌ : {A B : Type 0} → Outcome A → (A → Outcome B) → Outcome B
done a >>= f = f a
insufficient_stock >>= f = insufficient_stock
failed >>= f = failed

abbrev pub or_failed : {A : Type 0} → Option A → Outcome A
or_failed none = failed
or_failed (some a) = done a

abbrev pub is_at : ℕ → ℕ → Level → Bool
is_at p w l = l.product_id == p && l.warehouse_id == w

-- `GetInventoryLevel`
unfoldable pub get_level : ℕ → ℕ → List Level → Option Level
get_level p w [] = none
get_level p w (l ∷ ls) = if is_at p w l then some l else get_level p w ls

-- The row of a level put back, by its unique (product_id, warehouse_id).
unfoldable pub put_level : ℕ → ℕ → Level → List Level → List Level
put_level p w new [] = []
put_level p w new (l ∷ ls) = if is_at p w l then new ∷ ls else l ∷ put_level p w new ls

-- `AdjustInventoryLevel` of a level just read: both columns move by a signed delta.
unfoldable pub adjust_level : Level → Text → Text → Store → Outcome Store
adjust_level l on_hand reserved s = do
  on_hand' ← or_failed (plus_numeric l.on_hand on_hand)
  reserved' ← or_failed (plus_numeric l.reserved reserved)
  done (record s {
    levels =
        put_level l.product_id l.warehouse_id
          (record l { on_hand = on_hand'; reserved = reserved' }) s.levels;
  })

-- `AddInventoryMovement`
unfoldable pub add_movement :
    Level → String → Text → String → Option ℕ → String → Store → Outcome Store
add_movement l kind quantity reference_type reference_id by s = do
  q ← or_failed (numeric quantity)
  done (record s {
    movements =
        record {
          product_id = l.product_id;
          warehouse_id = l.warehouse_id;
          kind = kind;
          quantity = q;
          reference_type = reference_type;
          reference_id = reference_id;
          created_by = by;
        }
        ∷ s.movements;
  })

abbrev pub is_gt : Ordering → Bool
is_gt Ordering.gt = true
is_gt _ = false

-- The body of the loop of `ReserveForOrder`.
unfoldable pub reserve_item : ℕ → ℕ → String → Item → Store → Outcome Store
reserve_item warehouse order by it s = elim (get_level it.product_id warehouse s.levels) [
  | none ↦ done s
  | some l ↦
      let available = or_empty (Amount.sub (column l.on_hand) (column l.reserved)) in
      let quantity = column it.quantity in
      if is_gt (or_equal (cmp quantity available)) && not l.allow_backorder
      then insufficient_stock
      else (adjust_level l (codes "0") quantity s
          >>= add_movement l "reservation" quantity "order" (some order) by)
]

unfoldable pub reserve_items : ℕ → ℕ → String → List Item → Store → Outcome Store
reserve_items warehouse order by [] s = done s
reserve_items warehouse order by (it ∷ items) s =
    reserve_item warehouse order by it s >>= reserve_items warehouse order by items

-- `ReserveForOrder`, with the default warehouse and the lines of the order as queried.
unfoldable pub reserve_for_order : Option ℕ → List Item → ℕ → String → Store → Outcome Store
reserve_for_order none items order by s = done s
reserve_for_order (some warehouse) items order by s = reserve_items warehouse order by items s

-- The body of the loop of `FulfilShipment`.
unfoldable pub fulfil_item : ℕ → ℕ → String → Item → Store → Outcome Store
fulfil_item warehouse shipment by it s = elim (get_level it.product_id warehouse s.levels) [
  | none ↦ done s
  | some l ↦
      let neg = or_empty (Amount.sub (codes "0") (column it.quantity)) in
      adjust_level l neg neg s >>= add_movement l "fulfillment" neg "shipment" (some shipment) by
]

unfoldable pub fulfil_items : ℕ → ℕ → String → List Item → Store → Outcome Store
fulfil_items warehouse shipment by [] s = done s
fulfil_items warehouse shipment by (it ∷ items) s =
    fulfil_item warehouse shipment by it s >>= fulfil_items warehouse shipment by items

-- The shipment's warehouse, or else the default one.
abbrev pub or_default : Option ℕ → Option ℕ → Option ℕ
or_default none default = default
or_default (some w) default = some w

-- `FulfilShipment`; `assigned` is none where the shipment is not found or has no warehouse.
unfoldable pub fulfil_shipment :
    Option ℕ → Option ℕ → List Item → ℕ → String → Store → Outcome Store
fulfil_shipment assigned default items shipment by s = elim (or_default assigned default) [
  | none ↦ done s
  | some warehouse ↦ fulfil_items warehouse shipment by items s
]

abbrev pub zero_level : ℕ → ℕ → Level
zero_level p w = record {
  product_id = p;
  warehouse_id = w;
  on_hand = pos 0;
  reserved = pos 0;
  allow_backorder = false;
}

-- `EnsureInventoryLevel`, and the level that then stands there.
unfoldable pub ensure_level : ℕ → ℕ → Store → Level × Store
ensure_level p w s = elim (get_level p w s.levels) [
  | none ↦ (zero_level p w, record s { levels = zero_level p w ∷ s.levels })
  | some l ↦ (l, s)
]

-- The transaction of the `adjust` handler.
unfoldable pub record_adjustment : ℕ → ℕ → String → Text → String → Store → Outcome Store
record_adjustment p w kind quantity by s =
    let (l, s') = ensure_level p w s in
    adjust_level l quantity (codes "0") s' >>= add_movement l kind quantity "manual" none by

pub data Answer : Type 0 where
  created : Store → Answer
  bad_request : Answer
  not_found : Answer
  internal : Answer

abbrev pub answer : Outcome Store → Answer
answer (done s) = created s
answer insufficient_stock = internal
answer failed = internal

abbrev pub is_manual : String → Bool
is_manual kind = str_eq kind "receipt" || str_eq kind "return" || str_eq kind "adjustment"

abbrev pub is_empty : Text → Bool
is_empty [] = true
is_empty _ = false

-- `Handler.adjust` of a decoded request; `products` and `warehouses` are those of the organization.
unfoldable pub adjust : List ℕ → List ℕ → ℕ → ℕ → String → Text → String → Store → Answer
adjust products warehouses p w kind quantity by s =
    if p == 0 || w == 0 || is_empty quantity
    then bad_request
    else if not (is_manual kind)
    then bad_request
    else if not (contains products p)
    then not_found
    else if not (contains warehouses w)
    then bad_request
    else answer (record_adjustment p w kind quantity by s)
