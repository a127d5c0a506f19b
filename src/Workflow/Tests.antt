-- ===== src/Workflow/Tests.antt =====
-- An order moved through its workflow, and instances of the theorems.
use teggo.Prelude.{
  ℕ, ◌+◌, Bool, true, false, ◌≡◌, refl, Option, none, some, List, [], ◌∷◌, ◌==◌, if◌then◌else◌,
  String, str_eq, All, Memᴰ,
}
use teggo.Prelude.Int.{pos}
use teggo.Workflow.{
  Data, Spec, Actor, State, Transition, Instance, Entry, Db, Attempt, succeeded, aborted,
  no_transition, final_state, guard_error, Input, Verdict, allowed, vetoed, input, leaves, entry,
  get_state, get_instance, set_instance_state, get_transition_to_state, run_guards, run_actions,
  apply_transition_to,
}
use teggo.Workflow.Applied.{Allows, apply_transition_to_sound}
use teggo.Workflow.Path.{IsTraced, applied, start, step, Reaches-IsTraced, IsIn, Reaches-IsIn}

abbrev state : ℕ → String → Bool → State
state id code is_final = record { id = id; definition_id = 1; code = code; is_final = is_final }

abbrev no_data : Data
no_data = []

abbrev approval : Spec
approval = record { key = "by_rep"; params = no_data }

abbrev arrow : ℕ → Option ℕ → ℕ → List Spec → Transition
arrow id from to guards = record {
  id = id;
  definition_id = 1;
  from_state_id = from;
  to_state_id = to;
  guards = guards;
  actions = [];
  sort_order = pos 0;
}

abbrev order_at : ℕ → Instance
order_at st = record {
  id = 7;
  definition_id = 1;
  entity_type = "order";
  entity_id = 40;
  current_state_id = st;
}

abbrev pending : State
pending = state 1 "pending" false

abbrev confirmed : State
confirmed = state 2 "confirmed" false

abbrev cancelled : State
cancelled = state 3 "cancelled" true

abbrev to_confirmed : Transition
to_confirmed = arrow 11 (some 1) 2 (approval ∷ [])

abbrev to_cancelled : Transition
to_cancelled = arrow 12 none 3 []

abbrev db : ℕ → List Entry → ℕ → Db ℕ
db st log hooks = record {
  states = pending ∷ confirmed ∷ cancelled ∷ [];
  transitions = to_cancelled ∷ to_confirmed ∷ [];
  instances = order_at st ∷ [];
  log = log;
  domain = hooks;
}

abbrev rep : Actor
rep = record { kind = "rep"; id = some 3 }

abbrev buyer : Actor
buyer = record { kind = "buyer"; id = none }

abbrev by_rep : Input → Verdict
by_rep i = if str_eq i.actor.kind "rep" then allowed else vetoed "not a rep"

abbrev guards : String → Option (Input → Verdict)
guards key = if str_eq key "by_rep" then some by_rep else none

abbrev actions : String → Bool
actions key = false

abbrev hook : Option (State → State → ℕ → Attempt ℕ)
hook = some (λ from to n. succeeded (n + 1))

abbrev first_entry : Entry
first_entry = entry (order_at 1) to_confirmed pending confirmed rep no_data

abbrev second_entry : Entry
second_entry = entry (order_at 2) to_cancelled confirmed cancelled buyer no_data

confirm :
    apply_transition_to guards actions 7 "confirmed" rep no_data hook (db 1 [] 0)
    ≡ succeeded (confirmed, db 2 (first_entry ∷ []) 1, [])
unfolding apply_transition_to get_state get_instance set_instance_state get_transition_to_state
    run_guards run_actions
confirm = refl

cancel :
    apply_transition_to guards actions 7 "cancelled" buyer no_data hook (db 2 (first_entry ∷ []) 1)
    ≡ succeeded (cancelled, db 3 (second_entry ∷ first_entry ∷ []) 2, [])
unfolding apply_transition_to get_state get_instance set_instance_state get_transition_to_state
    run_guards run_actions
cancel = refl

blocked :
    apply_transition_to guards actions 7 "confirmed" buyer no_data hook (db 1 [] 0)
    ≡ aborted (guard_error "not a rep")
unfolding apply_transition_to get_state get_instance set_instance_state get_transition_to_state
    run_guards run_actions
blocked = refl

no_way_back :
    apply_transition_to guards actions 7 "pending" rep no_data hook (db 2 [] 0)
    ≡ aborted no_transition
unfolding apply_transition_to get_state get_instance set_instance_state get_transition_to_state
    run_guards run_actions
no_way_back = refl

finished :
    apply_transition_to guards actions 7 "cancelled" rep no_data hook (db 3 [] 0)
    ≡ aborted final_state
unfolding apply_transition_to get_state get_instance set_instance_state get_transition_to_state
    run_guards run_actions
finished = refl

apply_transition_to_sound_example :
    (inst : Instance) × (from : State) × (tr : Transition) × (get_instance 7 (db 1 [] 0).instances
      ≡ some inst)
    × (get_state inst.current_state_id (db 1 [] 0).states ≡ some from)
    × (from.is_final ≡ false)
    × Memᴰ tr (db 1 [] 0).transitions
    × (tr.definition_id == inst.definition_id ≡ true)
    × (leaves inst.current_state_id tr.from_state_id ≡ true)
    × All (Allows guards actions (input inst tr from confirmed rep no_data)) tr.guards
    × (get_state tr.to_state_id (db 1 [] 0).states ≡ some confirmed)
    × (confirmed.code ≡ "confirmed")
    × (first_entry ∷ [] ≡ entry inst tr from confirmed rep no_data ∷ [])
    × (get_instance 7 (db 2 (first_entry ∷ []) 1).instances
        ≡ some (record inst { current_state_id = confirmed.id }))
    × ((other : ℕ)
        → 7 == other ≡ false
        → get_instance other (db 2 (first_entry ∷ []) 1).instances
          ≡ get_instance other (db 1 [] 0).instances)
apply_transition_to_sound_example =
    apply_transition_to_sound guards actions 7 "confirmed" rep no_data hook (db 1 [] 0) confirmed
      (db 2 (first_entry ∷ []) 1) [] confirm

fresh-IsTraced : IsTraced (db 1 [] 0)
fresh-IsTraced i inst e = tt

Reaches-IsTraced_example : IsTraced (db 3 (second_entry ∷ first_entry ∷ []) 2)
Reaches-IsTraced_example =
    Reaches-IsTraced guards actions (db 1 [] 0) (db 3 (second_entry ∷ first_entry ∷ []) 2)
      fresh-IsTraced
      (step (step start (applied 7 "confirmed" rep no_data hook confirmed [] confirm))
        (applied 7 "cancelled" buyer no_data hook cancelled [] cancel))

abbrev two_orders : ℕ → List Entry → ℕ → Db ℕ
two_orders st log hooks = record (db st log hooks) {
  instances = order_at st ∷ record (order_at 3) { id = 8 } ∷ [];
}

confirm_beside :
    apply_transition_to guards actions 7 "confirmed" rep no_data hook (two_orders 1 [] 0)
    ≡ succeeded (confirmed, two_orders 2 (first_entry ∷ []) 1, [])
unfolding apply_transition_to get_state get_instance set_instance_state get_transition_to_state
    run_guards run_actions
confirm_beside = refl

other-IsIn : IsIn guards actions 8 (record (order_at 3) { id = 8 }) cancelled (two_orders 1 [] 0)
unfolding get_state get_instance
other-IsIn = (refl, refl, refl)

Reaches-IsIn_example :
    IsIn guards actions 8
      (record (order_at 3) { id = 8 })
      cancelled
      (two_orders 2 (first_entry ∷ []) 1)
Reaches-IsIn_example =
    Reaches-IsIn guards actions 8 (record (order_at 3) { id = 8 }) cancelled (two_orders 1 [] 0)
      (two_orders 2 (first_entry ∷ []) 1) other-IsIn
      (step start (applied 7 "confirmed" rep no_data hook confirmed [] confirm_beside))
