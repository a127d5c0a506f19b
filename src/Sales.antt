-- ===== src/Sales.antt =====
-- internal/modules/sales/order.go: the status of an order, which the workflow engine moves, with the
-- stock that its confirmation reserves in the same transaction.
pub mod Apart
pub mod Synced
pub mod Moved
pub mod Patched
pub mod Permitted
pub mod Tests
use teggo.Prelude.{
  ℕ, Bool, true, false, not, ◌&&◌, Option, none, some, List, [], ◌∷◌, ◌++◌, ◌==◌, if◌then◌else◌,
  String, str_eq,
}
use teggo.Inventory
use teggo.Inventory.{Item, Outcome, reserve_for_order}
use teggo.Workflow.{
  Value, text, texts, Data, Spec, Actor, State, Instance, Error, no_transition, final_state,
  guard_error, hook_failed, failed, Attempt, aborted, succeeded, Input, Verdict,
  apply_transition_to,
}
use teggo.Workflow
use teggo.Workflow.Guards.{built_in, ensure_instance}

-- The columns of orders that a change of status reads or writes. The total is NUMERIC text.
pub record Order : Type 0 where
  pub id : ℕ
  pub organization_id : ℕ
  pub status : String
  pub grand_total : String

-- A row of order_items.
pub record Line : Type 0 where
  pub order_id : ℕ
  pub item : Item

-- A row of order_status_history.
pub record Change : Type 0 where
  pub order_id : ℕ
  pub from_status : Option String
  pub to_status : String
  pub changed_by : String
  pub note : Option String

-- The tables that the hook reads and writes.
pub record Tables : Type 0 where
  pub orders : List Order
  pub lines : List Line
  pub changes : List Change
  pub stock : Inventory.Store

abbrev pub Db : Type 0
Db = Workflow.Db Tables

-- `GetOrderByID`
unfoldable pub get_order : ℕ → ℕ → List Order → Option Order
get_order o id [] = none
get_order o id (x ∷ xs) = if x.organization_id == o && x.id == id then some x else get_order o id xs

-- `SetOrderStatus`
unfoldable pub set_order_status : ℕ → String → List Order → List Order
set_order_status id status [] = []
set_order_status id status (x ∷ xs) =
    (if x.id == id then record x { status = status } else x) ∷ set_order_status id status xs

-- The lines of an order, which `ReserveForOrder` queries.
unfoldable pub items_of : ℕ → List Line → List Item
items_of id [] = []
items_of id (l ∷ ls) = if l.order_id == id then l.item ∷ items_of id ls else items_of id ls

abbrev pub add_change : ℕ → String → String → String → Option String → Tables → Tables
add_change id from to by note t = record t {
  changes =
      record {
        order_id = id;
        from_status = some from;
        to_status = to;
        changed_by = by;
        note = note;
      }
      ∷ t.changes;
}

abbrev pub with_stock : (Tables → Tables) → Tables → Outcome Inventory.Store → Attempt Tables
with_stock next t (Inventory.done stock) = succeeded (next (record t { stock = stock }))
with_stock next t Inventory.insufficient_stock = aborted (hook_failed "insufficient_stock")
with_stock next t Inventory.failed = aborted (hook_failed "failed")

-- The hook of `patchOrderStatus`; `warehouse` is the default one.
unfoldable pub order_hook :
    Option ℕ → ℕ → String → Option String → State → State → Tables → Attempt Tables
order_hook warehouse id by note from to t =
    let moved = record t { orders = set_order_status id to.code t.orders } in
    if str_eq to.code "confirmed"
    then with_stock (add_change id from.code to.code by note) moved
        (reserve_for_order warehouse (items_of id t.lines) id by t.stock)
    else succeeded (add_change id from.code to.code by note moved)

abbrev pub permissions_entry : Option (List String) → Data
permissions_entry none = []
permissions_entry (some ps) = ("actor_permissions", texts ps) ∷ []

abbrev pub limit_entry : Option String → Data
limit_entry none = []
limit_entry (some limit) = ("spending_limit", text limit) ∷ []

-- The data of the transition: the total, the permissions of the claims and the buyer's limit.
abbrev pub data_of : Order → Option (List String) → Option String → Data
data_of o permissions limit =
    ("grand_total", text o.grand_total) ∷ (permissions_entry permissions ++ limit_entry limit)

pub data Refusal : Type 0 where
  bad_request not_found invalid_transition insufficient_stock internal : Refusal
  blocked : String → Refusal

pub data Response : Type 0 where
  refused : Refusal → Response
  updated : Response

-- The statuses of the errors of the engine.
abbrev pub refusal_of : Error → Refusal
refusal_of no_transition = invalid_transition
refusal_of final_state = invalid_transition
refusal_of (guard_error reason) = blocked reason
refusal_of (hook_failed why) =
    if str_eq why "insufficient_stock" then insufficient_stock else internal
refusal_of failed = internal

-- A request to change the status of an order, decoded, with what its queries and claims say.
pub record Request : Type 0 where
  pub organization_id : ℕ
  pub order_id : ℕ
  pub status : String
  pub note : Option String
  pub by : String
  pub actor : Actor
  pub permissions : Option (List String)
  pub spending_limit : Option String
  pub definition : Option ℕ
  pub new_instance : ℕ
  pub warehouse : Option ℕ

-- The answer, with the tables after it: an instance that was created stays after an error.
abbrev pub answered : {A : Type 0} → Db → Attempt (A × Db × List Spec) → Response × Db
answered db (aborted why) = (refused (refusal_of why), db)
answered db (succeeded (to, db', ran)) = (updated, db')

module _ (amount_lte_limit : Input → Verdict) (actions : String → Bool) where
  unfoldable pub move_order : Request → Order → Instance → Db → Attempt (State × Db × List Spec)
  move_order r o inst db =
      apply_transition_to (built_in amount_lte_limit) actions inst.id r.status r.actor
        (data_of o r.permissions r.spending_limit) (some (order_hook r.warehouse o.id r.by r.note))
        db

  abbrev pub moved_by : Request → Order → Db → Attempt (Instance × Db) → Response × Db
  moved_by r o db (aborted why) = (refused internal, db)
  moved_by r o db (succeeded (inst, db')) = answered db' (move_order r o inst db')

  abbrev pub patched : Request → Db → Option Order → Response × Db
  patched r db none = (refused not_found, db)
  patched r db (some o) =
      if str_eq r.status ""
      then (refused bad_request, db)
      else moved_by r o db (ensure_instance r.new_instance r.definition "order" o.id o.status db)

  -- `patchOrderStatus`
  unfoldable pub patch_order_status : Request → Db → Response × Db
  patch_order_status r db = patched r db (get_order r.organization_id r.order_id db.domain.orders)
