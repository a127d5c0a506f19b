-- ===== src/Returns/Tests.antt =====
-- An order line of ten pieces, of which two were returned, and an instance of the theorem.
use mathlib.Core.Option.{some-injective}
use teggo.Prelude.{
  ℕ, sym, ap, Bool-cases, inl, inr, ◌==◌, ◌≡◌, refl, false, none, some, [], ◌∷◌, List, String,
  arith,
}
use teggo.Prelude.Int.{ℤ, pos, ◌+ℤ◌}
use teggo.Prelude.Text.{codes}
use teggo.Money.Rat
use teggo.Money.Rat.{over, units}
use teggo.Money.Decimal.{parse, format}
use teggo.Money.Amount
use teggo.Money.Amount.{cmp, line_total, sum}
use teggo.Money.Amount.Sums.{Denotes-IsExact}
use teggo.Inventory.{column, numeric, Level}
use teggo.Inventory
use teggo.Returns.{
  OrderItem, Return, ReturnItem, Db, ItemInput, changed, refused, over_return, bad_request,
  conflict, get_order_item, is_standing, sum_returned, ReturnedLine, receive_return,
  set_return_status, credit_total, restock, restock_item, check_item, check_items, return_items_of,
  validate_and_create_return, approve_return, reject_return,
}
use teggo.Inventory.{get_level}
use teggo.Money.Amount.Sums.{sum_by}
use teggo.Returns.Received.{value, brought, HasMore, receive_return_completes}
use teggo.Returns.Capped.{IsCapped, AreDistinct, validate_and_create_return-IsCapped}

abbrev bolt_line : OrderItem
bolt_line = record {
  id = 3;
  order_id = 4;
  product_id = 5;
  quantity = pos 100_000;
  unit_price = pos 25_000;
}

abbrev first_return : Return
first_return = record { id = 1; order_id = 4; customer_id = 7; status = "received" }

abbrev returned_two : ReturnItem
returned_two = record { return_id = 1; order_item_id = 3; product_id = 5; quantity = pos 20_000 }

abbrev rows : List Return → List ReturnItem → Db
rows rs ris = record {
  order_items = bolt_line ∷ [];
  returns = rs;
  return_items = ris;
  credit_notes = [];
  stock = record { levels = []; movements = [] };
}

abbrev before : Db
before = rows (first_return ∷ []) (returned_two ∷ [])

abbrev ask : String → ItemInput
ask q = record { order_item_id = 3; quantity = codes q }

abbrev second_return : Return
second_return = record { id = 2; order_id = 4; customer_id = 7; status = "requested" }

abbrev returned_eight : ReturnItem
returned_eight = record { return_id = 2; order_item_id = 3; product_id = 5; quantity = pos 80_000 }

abbrev asked : Db
asked = rows (second_return ∷ first_return ∷ []) (returned_eight ∷ returned_two ∷ [])

asks :
    (validate_and_create_return 2 4 7 (ask "8" ∷ []) before ≡ changed second_return asked)
    × (validate_and_create_return 2 4 7 (ask "9" ∷ []) before ≡ refused over_return)
    × (validate_and_create_return 2 4 7 (ask "x" ∷ []) before ≡ refused over_return)
    × (validate_and_create_return 2 5 7 (ask "8" ∷ []) before ≡ refused bad_request)
    × (validate_and_create_return 2 4 7 [] before ≡ refused bad_request)
unfolding validate_and_create_return check_items check_item get_order_item sum_returned is_standing
    return_items_of column numeric cmp Amount.sub parse format Rat.cmp Rat.sub Rat.round4 units ◌+ℤ◌
asks = (refl, refl, refl, refl, refl)

-- Each entry of a request is checked alone.
listed_twice :
    validate_and_create_return 2 4 7 (ask "8" ∷ ask "8" ∷ []) before
    ≡ changed second_return (
        rows
          (second_return ∷ first_return ∷ [])
          (returned_eight ∷ returned_eight ∷ returned_two ∷ []))
unfolding validate_and_create_return check_items check_item get_order_item sum_returned is_standing
    return_items_of column numeric cmp Amount.sub parse format Rat.cmp Rat.sub Rat.round4 units ◌+ℤ◌
listed_twice = refl

abbrev approved : Return
approved = record second_return { status = "approved" }

abbrev shelf : ℤ → Level
shelf on_hand = record {
  product_id = 5;
  warehouse_id = 1;
  on_hand = on_hand;
  reserved = pos 0;
  allow_backorder = false;
}

abbrev stocked : Db
stocked = record asked {
  returns = approved ∷ first_return ∷ [];
  stock = record { levels = shelf (pos 10_000) ∷ []; movements = [] };
}

abbrev lines : List ReturnedLine
lines = record { item = returned_eight; unit_price = pos 25_000 } ∷ []

abbrev put_back : Db
put_back = record stocked {
  returns = record second_return { status = "received" } ∷ first_return ∷ [];
  stock = record {
    levels = shelf (pos 90_000) ∷ [];
    movements =
        record {
          product_id = 5;
          warehouse_id = 1;
          kind = "return";
          quantity = pos 80_000;
          reference_type = "return";
          reference_id = some 2;
          created_by = "user:1";
        }
        ∷ [];
  };
  credit_notes =
      record {
        return_id = 2;
        invoice_id = none;
        customer_id = 7;
        amount = pos 200_000;
        currency = "EUR";
      }
      ∷ [];
}

life :
    (approve_return second_return asked
      ≡ changed approved (record asked { returns = approved ∷ first_return ∷ [] }))
    × (reject_return approved stocked ≡ refused conflict)
    × (receive_return second_return lines "EUR" none (some 1) "user:1" asked ≡ refused conflict)
    × (receive_return approved lines "EUR" none (some 1) "user:1" stocked
        ≡ changed (record second_return { status = "received" }) put_back)
unfolding approve_return reject_return receive_return set_return_status credit_total restock
    restock_item numeric parse sum Amount.add_all line_total column format Rat.round4 Rat.mul
    Rat.add units Inventory.get_level Inventory.adjust_level Inventory.plus_numeric
    Inventory.add_movement Inventory.put_level
life = (refl, refl, refl, refl)

before-IsCapped : IsCapped 4 before
unfolding IsCapped get_order_item sum_returned is_standing ◌+ℤ◌
before-IsCapped id oi found = elim (Bool-cases (3 == id)) [
  | inl own ↦
      let e = some-injective bolt_line oi (rw own at found) in
      rw (own, sym (ap (λ x. x.quantity) e)) (omega arith)
  | inr other ↦ absurd (ground (arith, rw other at found))
]

validate_and_create_return-IsCapped_example :
    IsCapped 4 asked
    × (second_return.status ≡ "requested")
    × (asked.order_items ≡ before.order_items)
    × (asked.stock ≡ before.stock)
    × (asked.credit_notes ≡ before.credit_notes)
unfolding AreDistinct parse
validate_and_create_return-IsCapped_example =
    validate_and_create_return-IsCapped 2 4 7 (ask "8" ∷ []) before second_return asked asks.0
      (Denotes-IsExact (codes "8") (pos 80_000) (over 8 0 1, refl, refl), tt) (tt, tt) (refl, tt)
      before-IsCapped

receive_return_completes_example :
    (db' : Db) × (receive_return approved lines "EUR" none (some 1) "user:1" stocked
      ≡ changed (record approved { status = "received" }) db')
    × (db'.credit_notes
        ≡ record {
          return_id = 2;
          invoice_id = none;
          customer_id = 7;
          amount = sum_by value lines;
          currency = "EUR";
        }
          ∷ [])
    × ((p : ℕ) (l : Level)
        → get_level p 1 stocked.stock.levels ≡ some l
        → HasMore l (sum_by (brought p) lines) (get_level p 1 db'.stock.levels))
    × (db'.returns ≡ set_return_status 2 "received" stocked.returns)
    × (db'.order_items ≡ stocked.order_items)
    × (db'.return_items ≡ stocked.return_items)
receive_return_completes_example =
    receive_return_completes approved lines "EUR" none 1 "user:1" stocked refl
