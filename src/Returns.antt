-- ===== src/Returns.antt =====
-- internal/modules/otc/returns.go: returns of the items of an order, over the rows of returns, their
-- items and credit notes, with the stock of Inventory. NUMERIC columns are integers, in
-- ten-thousandths. The ids of new rows are inputs; the queries that find an order and the return of an
-- org, and the default warehouse, are given by what they find.
pub mod Capped
pub mod Received
pub mod Tests
use teggo.Prelude.{
  ℕ, Bool, true, false, not, ◌&&◌, Option, none, some, List, [], ◌∷◌, ◌++◌, ◌==◌, if◌then◌else◌,
  String, str_eq, Ordering,
}
use teggo.Prelude.Text.{Text, codes}
use teggo.Prelude.Int.{ℤ, pos, ◌+ℤ◌}
use teggo.Inventory
use teggo.Inventory.{
  column, numeric, Outcome, done, insufficient_stock, failed, ◌>>=◌, get_level, adjust_level,
  add_movement,
}
use teggo.Money.Amount
use teggo.Money.Amount.{sum, cmp, line_total, or_empty}

-- The columns of order_items that a return reads.
pub record OrderItem : Type 0 where
  pub id : ℕ
  pub order_id : ℕ
  pub product_id : ℕ
  pub quantity : ℤ
  pub unit_price : ℤ

-- A row of returns.
pub record Return : Type 0 where
  pub id : ℕ
  pub order_id : ℕ
  pub customer_id : ℕ
  pub status : String

-- A row of return_items.
pub record ReturnItem : Type 0 where
  pub return_id : ℕ
  pub order_item_id : ℕ
  pub product_id : ℕ
  pub quantity : ℤ

-- A row of credit_notes.
pub record CreditNote : Type 0 where
  pub return_id : ℕ
  pub invoice_id : Option ℕ
  pub customer_id : ℕ
  pub amount : ℤ
  pub currency : String

pub record Db : Type 0 where
  pub order_items : List OrderItem
  pub returns : List Return
  pub return_items : List ReturnItem
  pub credit_notes : List CreditNote
  pub stock : Inventory.Store

-- `returnItemInput`
pub record ItemInput : Type 0 where
  pub order_item_id : ℕ
  pub quantity : Text

pub data Refusal : Type 0 where
  bad_request over_return conflict internal : Refusal

pub data Result : Type 0 where
  refused : Refusal → Result
  changed : Return → Db → Result

-- `GetOrderItem`
unfoldable pub get_order_item : ℕ → ℕ → List OrderItem → Option OrderItem
get_order_item id order_id [] = none
get_order_item id order_id (oi ∷ ois) =
    if oi.id == id && oi.order_id == order_id then some oi else get_order_item id order_id ois

-- Whether the return of an item stands and is not rejected.
unfoldable pub is_standing : ℕ → List Return → Bool
is_standing id [] = false
is_standing id (r ∷ rs) = if r.id == id then not (str_eq r.status "rejected") else is_standing id rs

-- `SumReturnedForOrderItem`
unfoldable pub sum_returned : ℕ → List Return → List ReturnItem → ℤ
sum_returned id rs [] = pos 0
sum_returned id rs (ri ∷ ris) =
    if ri.order_item_id == id && is_standing ri.return_id rs
    then ri.quantity +ℤ sum_returned id rs ris
    else sum_returned id rs ris

-- `c, err := Cmp(…); err != nil || c > 0`
abbrev pub is_over : Option Ordering → Bool
is_over none = true
is_over (some Ordering.gt) = true
is_over (some _) = false

-- What the loop of checks does with one item: `none` where it may be returned.
unfoldable pub check_item : ℕ → Db → ItemInput → Option Refusal
check_item order_id db it = elim (get_order_item it.order_item_id order_id db.order_items) [
  | none ↦ some bad_request
  | some oi ↦
      let returned = column (sum_returned it.order_item_id db.returns db.return_items) in
      let remaining = or_empty (Amount.sub (column oi.quantity) returned) in
      if is_over (cmp it.quantity remaining) then some over_return else none
]

abbrev pub first_refusal : Option Refusal → Option Refusal → Option Refusal
first_refusal none next = next
first_refusal (some r) next = some r

unfoldable pub check_items : ℕ → Db → List ItemInput → Option Refusal
check_items order_id db [] = none
check_items order_id db (it ∷ items) =
    first_refusal (check_item order_id db it) (check_items order_id db items)

-- `AddReturnItem` of an item that is found: `none` is an error.
abbrev pub return_item : ℕ → Option OrderItem → Option ℤ → ItemInput → Option ReturnItem
return_item return_id (some oi) (some quantity) it = some (record {
  return_id = return_id;
  order_item_id = it.order_item_id;
  product_id = oi.product_id;
  quantity = quantity;
})
return_item return_id _ _ it = none

abbrev pub cons_if : Option ReturnItem → Option (List ReturnItem) → Option (List ReturnItem)
cons_if (some ri) (some ris) = some (ri ∷ ris)
cons_if _ _ = none

-- The rows that the transaction adds.
unfoldable pub return_items_of : ℕ → ℕ → List OrderItem → List ItemInput → Option (List ReturnItem)
return_items_of return_id order_id ois [] = some []
return_items_of return_id order_id ois (it ∷ items) =
    cons_if
      (return_item return_id (get_order_item it.order_item_id order_id ois) (numeric it.quantity)
        it)
      (return_items_of return_id order_id ois items)

abbrev pub created_return : Return → Db → Option (List ReturnItem) → Result
created_return r db none = refused internal
created_return r db (some ris) =
    changed r (record db { returns = r ∷ db.returns; return_items = ris ++ db.return_items })

abbrev pub create_checked : ℕ → ℕ → ℕ → List ItemInput → Db → Option Refusal → Result
create_checked id order_id customer_id items db (some why) = refused why
create_checked id order_id customer_id items db none =
    created_return
      (record { id = id; order_id = order_id; customer_id = customer_id; status = "requested" }) db
      (return_items_of id order_id db.order_items items)

-- `validateAndCreateReturn`, with the id of the new row.
unfoldable pub validate_and_create_return : ℕ → ℕ → ℕ → List ItemInput → Db → Result
validate_and_create_return id order_id customer_id [] db = refused bad_request
validate_and_create_return id order_id customer_id (it ∷ items) db =
    create_checked id order_id customer_id (it ∷ items) db (check_items order_id db (it ∷ items))

-- `SetReturnStatus`
unfoldable pub set_return_status : ℕ → String → List Return → List Return
set_return_status id status [] = []
set_return_status id status (r ∷ rs) =
    (if r.id == id then record r { status = status } else r) ∷ set_return_status id status rs

abbrev pub with_status : String → Return → Db → Result
with_status status ret db =
    changed (record ret { status = status })
      (record db { returns = set_return_status ret.id status db.returns })

-- `approveReturn` and `rejectReturn`, of the return loaded.
unfoldable pub approve_return : Return → Db → Result
approve_return ret db =
    if str_eq ret.status "requested" then with_status "approved" ret db else refused conflict

unfoldable pub reject_return : Return → Db → Result
reject_return ret db =
    if str_eq ret.status "requested" then with_status "rejected" ret db else refused conflict

-- A row of `ListReturnItems`: the item with the price of its order line.
pub record ReturnedLine : Type 0 where
  pub item : ReturnItem
  pub unit_price : ℤ

-- The loop over the items for `creditTotal`, errors ignored.
unfoldable pub credit_total : Text → List ReturnedLine → Text
credit_total total [] = total
credit_total total (l ∷ ls) =
    let line = or_empty (line_total (column l.item.quantity) (column l.unit_price)) in
    credit_total (or_empty (sum (total ∷ line ∷ []))) ls

-- One item put back into the default warehouse, if its product is tracked there.
unfoldable pub restock_item :
    ℕ → ℕ → String → ReturnItem → Inventory.Store → Outcome Inventory.Store
restock_item return_id warehouse_id by ri s = elim (get_level ri.product_id warehouse_id s.levels) [
  | none ↦ done s
  | some l ↦
      adjust_level l (column ri.quantity) (codes "0") s
      >>= add_movement l "return" (column ri.quantity) "return" (some return_id) by
]

unfoldable pub restock :
    ℕ → ℕ → String → List ReturnedLine → Inventory.Store → Outcome Inventory.Store
restock return_id warehouse_id by [] s = done s
restock return_id warehouse_id by (l ∷ ls) s =
    restock_item return_id warehouse_id by l.item s >>= restock return_id warehouse_id by ls

abbrev pub restock_if :
    ℕ → Option ℕ → String → List ReturnedLine → Inventory.Store → Outcome Inventory.Store
restock_if return_id none by ls s = done s
restock_if return_id (some warehouse_id) by ls s = restock return_id warehouse_id by ls s

abbrev pub received : Return → Option ℕ → String → Option ℤ → Db → Outcome Inventory.Store → Result
received ret invoice_id currency (some amount) db (done stock) =
    changed (record ret { status = "received" })
      (record db {
        returns = set_return_status ret.id "received" db.returns;
        stock = stock;
        credit_notes =
            record {
              return_id = ret.id;
              invoice_id = invoice_id;
              customer_id = ret.customer_id;
              amount = amount;
              currency = currency;
            }
            ∷ db.credit_notes;
      })
received ret invoice_id currency _ db _ = refused internal

-- `receiveReturn`, of the return loaded, its lines, the order's currency and first invoice.
unfoldable pub receive_return :
    Return → List ReturnedLine → String → Option ℕ → Option ℕ → String → Db → Result
receive_return ret lines currency invoice_id warehouse_id by db =
    if not (str_eq ret.status "approved")
    then refused conflict
    else received ret invoice_id currency (numeric (credit_total (codes "0") lines)) db
        (restock_if ret.id warehouse_id by lines db.stock)
