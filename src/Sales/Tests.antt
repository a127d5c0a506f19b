-- ===== src/Sales/Tests.antt =====
-- An order whose workflow instance is made when it is confirmed, and instances of the theorems.
use teggo.Prelude.{ℕ, Bool, false, ◌≡◌, refl, none, some, List, [], ◌∷◌, String}
use teggo.Prelude.Int.{ℤ, pos}
use teggo.Money.Rat
use teggo.Money.Rat.{over}
use teggo.Money.Decimal.{parse, format}
use teggo.Money.Amount
use teggo.Money.Amount.{cmp}
use teggo.Inventory.{
  Level, column, numeric, plus_numeric, get_level, put_level, adjust_level, add_movement,
  reserve_item, reserve_items, reserve_for_order,
}
use teggo.Workflow.{
  text, texts, Spec, Actor, State, Transition, Instance, Entry, Input, Verdict, allowed, get_state,
  get_instance, set_instance_state, get_transition_to_state, run_guards, run_actions,
  apply_transition_to,
}
use teggo.Workflow.Guards.{
  value_of, param_string, holds, has_permission, built_in, get_instance_for_entity,
  get_state_by_code, create_instance, ensure_instance,
}
use teggo.Sales.{
  Order, Tables, Db, Request, refused, updated, blocked, get_order, set_order_status, items_of,
  order_hook, move_order, patch_order_status,
}
use teggo.Sales.Apart.{AreApart}
use teggo.Sales.Synced.{IsSynced}
use teggo.Sales.Permitted.{IsAllowed, patch_order_status-IsAllowed}
use teggo.Sales.Patched.{IsPatched, patch_order_status-IsSynced, patch_order_status-IsPatched}

abbrev state : ℕ → String → State
state id code = record { id = id; definition_id = 1; code = code; is_final = false }

abbrev approval : Spec
approval = record { key = "has_permission"; params = ("permission", text "order.approve") ∷ [] }

abbrev to_confirmed : Transition
to_confirmed = record {
  id = 11;
  definition_id = 1;
  from_state_id = some 1;
  to_state_id = 2;
  guards = approval ∷ [];
  actions = [];
  sort_order = pos 0;
}

abbrev held : String → Order
held status = record { id = 40; organization_id = 9; status = status; grand_total = "120.00" }

abbrev level : ℤ → Level
level reserve = record {
  product_id = 5;
  warehouse_id = 1;
  on_hand = pos 100_000;
  reserved = reserve;
  allow_backorder = false;
}

abbrev db : Db
db = record {
  states = state 1 "on_hold" ∷ state 2 "confirmed" ∷ [];
  transitions = to_confirmed ∷ [];
  instances = [];
  log = [];
  domain = record {
    orders = held "on_hold" ∷ [];
    lines = record { order_id = 40; item = record { product_id = 5; quantity = pos 30_000 } } ∷ [];
    changes = [];
    stock = record { levels = level (pos 20_000) ∷ []; movements = [] };
  };
}

abbrev rep : Actor
rep = record { kind = "rep"; id = some 3 }

abbrev to_confirm : List String → Request
to_confirm permissions = record {
  organization_id = 9;
  order_id = 40;
  status = "confirmed";
  note = none;
  by = "rep:3";
  actor = rep;
  permissions = some permissions;
  spending_limit = none;
  definition = some 1;
  new_instance = 7;
  warehouse = some 1;
}

abbrev instance_at : ℕ → Instance
instance_at st = record {
  id = 7;
  definition_id = 1;
  entity_type = "order";
  entity_id = 40;
  current_state_id = st;
}

abbrev any_amount : Input → Verdict
any_amount i = allowed

abbrev no_actions : String → Bool
no_actions key = false

abbrev logged : Entry
logged = record {
  instance_id = 7;
  transition_id = 11;
  from_state_id = 1;
  to_state_id = 2;
  actor = rep;
  context =
      ("grand_total", text "120.00") ∷ ("actor_permissions", texts ("order.approve" ∷ [])) ∷ [];
}

abbrev confirmed_tables : Tables
confirmed_tables = record {
  orders = held "confirmed" ∷ [];
  lines = db.domain.lines;
  changes =
      record {
        order_id = 40;
        from_status = some "on_hold";
        to_status = "confirmed";
        changed_by = "rep:3";
        note = none;
      }
      ∷ [];
  stock = record {
    levels = level (pos 50_000) ∷ [];
    movements =
        record {
          product_id = 5;
          warehouse_id = 1;
          kind = "reservation";
          quantity = pos 30_000;
          reference_type = "order";
          reference_id = some 40;
          created_by = "rep:3";
        }
        ∷ [];
  };
}

abbrev confirmed_db : Db
confirmed_db = record db {
  instances = instance_at 2 ∷ [];
  log = logged ∷ [];
  domain = confirmed_tables;
}

-- A rep without the permission is stopped by the guard; the instance that was made stays.
not_permitted : patch_order_status any_amount no_actions (to_confirm ("order.read" ∷ [])) db ≡ (
  refused (blocked "requires the order.approve permission"),
  record db { instances = instance_at 1 ∷ [] },
)
unfolding patch_order_status move_order get_order ensure_instance get_instance_for_entity
    get_state_by_code create_instance apply_transition_to get_state get_instance
    get_transition_to_state run_guards built_in has_permission param_string value_of holds
not_permitted = refl

confirm :
    patch_order_status any_amount no_actions (to_confirm ("order.approve" ∷ [])) db
    ≡ (updated, confirmed_db)
unfolding patch_order_status move_order get_order ensure_instance get_instance_for_entity
    get_state_by_code create_instance apply_transition_to get_state get_instance
    get_transition_to_state run_guards built_in has_permission param_string value_of holds
    run_actions set_instance_state order_hook set_order_status items_of reserve_for_order
    reserve_items reserve_item get_level put_level adjust_level add_movement column numeric
    plus_numeric Amount.sub cmp parse format Rat.add Rat.sub Rat.cmp Rat.round4 Rat.units
confirm = refl

db-IsSynced : IsSynced 1 db
unfolding AreApart get_state
db-IsSynced = record {
  status_of = λ _. "on_hold";
  rows = (refl, tt);
  states = tt;
  apart = tt;
  distinct = (refl, (refl, tt));
}

patch_order_status-IsSynced_example :
    IsSynced 1 (patch_order_status any_amount no_actions (to_confirm ("order.approve" ∷ [])) db).1
patch_order_status-IsSynced_example =
    patch_order_status-IsSynced any_amount no_actions 1 (to_confirm ("order.approve" ∷ [])) db refl
      db-IsSynced tt

patch_order_status-IsPatched_example :
    (o : Order) × (get_order 9 40 db.domain.orders ≡ some o)
    × IsPatched (to_confirm ("order.approve" ∷ [])) o db.domain confirmed_tables
patch_order_status-IsPatched_example =
    patch_order_status-IsPatched any_amount no_actions 1 (to_confirm ("order.approve" ∷ [])) db
      confirmed_db refl db-IsSynced tt confirm

patch_order_status-IsAllowed_example : IsAllowed (to_confirm ("order.approve" ∷ [])) db confirmed_db
patch_order_status-IsAllowed_example =
    patch_order_status-IsAllowed any_amount no_actions (to_confirm ("order.approve" ∷ [])) db
      confirmed_db confirm
