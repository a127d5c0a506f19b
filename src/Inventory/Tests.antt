-- ===== src/Inventory/Tests.antt =====
-- The stock operations at concrete rows, and instances of the theorems.
use teggo.Prelude.{
  ℕ, Bool, true, false, ◌≡◌, refl, Option, none, some, List, [], ◌∷◌, String, All, inl, inr, arith,
}
use teggo.Prelude.Int.{ℤ, pos, negsuc}
use teggo.Prelude.Text.{codes}
use teggo.Money.Rat
use teggo.Money.Rat.{over}
use teggo.Money.Decimal.{parse, format}
use teggo.Money.Amount
use teggo.Money.Amount.{cmp}
use teggo.Money.Amount.Exact.{Denotes}
use teggo.Inventory.{
  Level, Movement, Store, Item, done, insufficient_stock, created, bad_request, column, numeric,
  plus_numeric, get_level, put_level, adjust_level, add_movement, reserve_item, reserve_items,
  reserve_for_order, fulfil_item, fulfil_items, fulfil_shipment, ensure_level, record_adjustment,
  adjust,
}
use teggo.Inventory.Reserve.{
  IsCovered, reserve_for_order-IsCovered, HasReserved, quantity_of, reserve_for_order-HasReserved,
}
use teggo.Inventory.Ledger.{IsLedgered}
use teggo.Inventory.History.{start, step, fulfilled, adjusted, Reaches-IsLedgered}

abbrev level : ℕ → ℤ → ℤ → Bool → Level
level p on_hand reserve backorder = record {
  product_id = p;
  warehouse_id = 1;
  on_hand = on_hand;
  reserved = reserve;
  allow_backorder = backorder;
}

abbrev bolts : Level
bolts = level 5 (pos 100_000) (pos 20_000) false

abbrev nuts : Level
nuts = level 6 (pos 0) (pos 0) true

abbrev stock : Store
stock = record { levels = bolts ∷ nuts ∷ []; movements = [] }

abbrev item : ℕ → ℤ → Item
item p q = record { product_id = p; quantity = q }

abbrev order : List Item
order = item 5 (pos 30_000) ∷ item 6 (pos 10_000) ∷ item 9 (pos 70_000) ∷ item 5 (pos 50_000) ∷ []

abbrev entry : ℕ → String → ℤ → String → Option ℕ → Movement
entry p kind q rt ri = record {
  product_id = p;
  warehouse_id = 1;
  kind = kind;
  quantity = q;
  reference_type = rt;
  reference_id = ri;
  created_by = "ann";
}

abbrev reserved_stock : Store
reserved_stock = record {
  levels = level 5 (pos 100_000) (pos 100_000) false ∷ level 6 (pos 0) (pos 10_000) true ∷ [];
  movements =
      entry 5 "reservation" (pos 50_000) "order" (some 40)
      ∷ entry 6 "reservation" (pos 10_000) "order" (some 40)
      ∷ entry 5 "reservation" (pos 30_000) "order" (some 40)
      ∷ [];
}

-- The third line is of a product without a level, and is skipped.
reserve_run : reserve_for_order (some 1) order 40 "ann" stock ≡ done reserved_stock
unfolding reserve_for_order reserve_items reserve_item get_level put_level adjust_level add_movement
    column numeric plus_numeric Amount.sub cmp parse format Rat.add Rat.sub Rat.cmp Rat.round4
    Rat.units
reserve_run = refl

-- One more than what is available.
reserve_too_much :
    reserve_for_order (some 1) (item 5 (pos 80_001) ∷ []) 40 "ann" stock ≡ insufficient_stock
unfolding reserve_for_order reserve_items reserve_item get_level put_level adjust_level add_movement
    column numeric plus_numeric Amount.sub cmp parse format Rat.add Rat.sub Rat.cmp Rat.round4
    Rat.units
reserve_too_much = refl

stock-IsCovered : All IsCovered stock.levels
stock-IsCovered = (inr (omega arith), (inl refl, tt))

reserve_for_order-IsCovered_example : All IsCovered reserved_stock.levels
reserve_for_order-IsCovered_example =
    reserve_for_order-IsCovered (some 1) order 40 "ann" stock reserved_stock stock-IsCovered
      reserve_run

bolts_found : get_level 5 1 stock.levels ≡ some bolts
unfolding get_level
bolts_found = refl

reserve_for_order-HasReserved_example :
    HasReserved bolts (quantity_of 5 order) (get_level 5 1 reserved_stock.levels)
reserve_for_order-HasReserved_example =
    reserve_for_order-HasReserved 1 40 "ann" order stock reserved_stock 5 bolts reserve_run
      bolts_found

abbrev no_stock : Store
no_stock = record { levels = []; movements = [] }

abbrev received : Store
received = record {
  levels = level 5 (pos 125_000) (pos 0) false ∷ [];
  movements = entry 5 "receipt" (pos 125_000) "manual" none ∷ [];
}

abbrev shipped : Store
shipped = record {
  levels = level 5 (pos 105_000) (negsuc 19_999) false ∷ [];
  movements =
      entry 5 "fulfillment" (negsuc 19_999) "shipment" (some 8)
      ∷ entry 5 "receipt" (pos 125_000) "manual" none
      ∷ [];
}

receive_run :
    adjust (5 ∷ []) (1 ∷ []) 5 1 "receipt" (codes "12.5") "ann" no_stock ≡ created received
unfolding adjust record_adjustment ensure_level get_level put_level adjust_level add_movement column
    numeric plus_numeric parse format Rat.add Rat.round4 Rat.units
receive_run = refl

not_manual : adjust (5 ∷ []) (1 ∷ []) 5 1 "reservation" (codes "12.5") "ann" no_stock ≡ bad_request
unfolding adjust
not_manual = refl

-- Nothing in the code stops a shipment that was not reserved.
ship_run : fulfil_shipment none (some 1) (item 5 (pos 20_000) ∷ []) 8 "ann" received ≡ done shipped
unfolding fulfil_shipment fulfil_items fulfil_item get_level put_level adjust_level add_movement
    column numeric plus_numeric Amount.sub parse format Rat.add Rat.sub Rat.round4 Rat.units
ship_run = refl

quantity-Denotes : Denotes (codes "12.5") (pos 125_000)
unfolding parse
quantity-Denotes = (over 125 0 10, refl, omega arith)

no_stock-IsLedgered : IsLedgered no_stock
unfolding get_level
no_stock-IsLedgered p w = (refl, refl)

Reaches-IsLedgered_example : IsLedgered shipped
Reaches-IsLedgered_example = Reaches-IsLedgered no_stock shipped no_stock-IsLedgered (
    step
      (step start (
        adjusted (5 ∷ []) (1 ∷ []) 5 1 "receipt" (codes "12.5") (pos 125_000) "ann" quantity-Denotes
          receive_run))
      (fulfilled none (some 1) (item 5 (pos 20_000) ∷ []) 8 "ann" ship_run))
