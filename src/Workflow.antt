-- ===== src/Workflow.antt =====
-- internal/workflow/engine.go: the state machine whose states and transitions are rows.
-- Guards, actions and the hook are what a caller registers: parameters here. The domain that the
-- hook changes in the same transaction is a type of its own, D.
pub mod Path
pub mod Rows
pub mod Applied
pub mod Guards
pub mod Tests
use teggo.Prelude.{
  ℕ, Bool, true, false, not, ◌&&◌, Option, none, some, List, [], ◌∷◌, ◌==◌, if◌then◌else◌, String,
  str_eq,
}
use teggo.Prelude.Int.{ℤ, ltb_ℤ}

-- A value of a `map[string]any`.
pub data Value : Type 0 where
  text : String → Value
  texts : List String → Value

abbrev pub Data : Type 0
Data = List (String × Value)

-- `spec`
pub record Spec : Type 0 where
  pub key : String
  pub params : Data

-- `Actor`
pub record Actor : Type 0 where
  pub kind : String
  pub id : Option ℕ

-- Rows of workflow_states, workflow_transitions, workflow_instances and workflow_transition_log.
pub record State : Type 0 where
  pub id : ℕ
  pub definition_id : ℕ
  pub code : String
  pub is_final : Bool

pub record Transition : Type 0 where
  pub id : ℕ
  pub definition_id : ℕ
  pub from_state_id : Option ℕ
  pub to_state_id : ℕ
  pub guards : List Spec
  pub actions : List Spec
  pub sort_order : ℤ

pub record Instance : Type 0 where
  pub id : ℕ
  pub definition_id : ℕ
  pub entity_type : String
  pub entity_id : ℕ
  pub current_state_id : ℕ

-- The context is the data, where there is any.
pub record Entry : Type 0 where
  pub instance_id : ℕ
  pub transition_id : ℕ
  pub from_state_id : ℕ
  pub to_state_id : ℕ
  pub actor : Actor
  pub context : Data

pub record Db (D : Type 0) : Type 0 where
  pub states : List State
  pub transitions : List Transition
  pub instances : List Instance
  pub log : List Entry
  pub domain : D

-- `ErrNoTransition`, `ErrFinalState`, `GuardError`, the errors of hooks, which callers tell apart, and
-- those of queries and guards.
pub data Error : Type 0 where
  no_transition : Error
  final_state : Error
  guard_error : String → Error
  hook_failed : String → Error
  failed : Error

pub data Attempt (A : Type 0) : Type 0 where
  aborted : Error → Attempt A
  succeeded : A → Attempt A

-- The next step of a transaction, which the first error ends.
infixl 5 ◌>>=◌
abbrev pub ◌>>=◌ : {Row Next : Type 0} → Attempt Row → (Row → Attempt Next) → Attempt Next
aborted why >>= next = aborted why
succeeded row >>= next = next row

-- A query for one row.
abbrev pub or_abort : {Row : Type 0} → Error → Option Row → Attempt Row
or_abort why (some row) = succeeded row
or_abort why none = aborted why

-- `GuardInput`, also what an action is given.
pub record Input : Type 0 where
  pub instance_row : Instance
  pub transition : Transition
  pub from : State
  pub to : State
  pub actor : Actor
  pub params : Data
  pub data_in : Data

-- What `Allow` returns.
pub data Verdict : Type 0 where
  allowed : Verdict
  vetoed : String → Verdict
  broken : Verdict

-- `GetWorkflowState` and `GetWorkflowInstance`
unfoldable pub get_state : ℕ → List State → Option State
get_state id [] = none
get_state id (s ∷ ss) = if s.id == id then some s else get_state id ss

unfoldable pub get_instance : ℕ → List Instance → Option Instance
get_instance id [] = none
get_instance id (i ∷ is) = if i.id == id then some i else get_instance id is

-- `SetWorkflowInstanceState`
unfoldable pub set_instance_state : ℕ → ℕ → List Instance → List Instance
set_instance_state id st [] = []
set_instance_state id st (i ∷ is) =
    (if i.id == id then record i { current_state_id = st } else i) ∷ set_instance_state id st is

abbrev pub has_code : String → Option State → Bool
has_code code none = false
has_code code (some s) = str_eq s.code code

abbrev pub leaves : ℕ → Option ℕ → Bool
leaves current none = true
leaves current (some from) = from == current

abbrev pub admits : ℕ → String → ℕ → List State → Transition → Bool
admits def code current states t =
    t.definition_id == def
    && (has_code code (get_state t.to_state_id states) && leaves current t.from_state_id)

-- Strictly earlier by `ORDER BY (from_state_id IS NULL), sort_order`.
abbrev pub earlier_from : Option ℕ → Option ℕ → Bool → Bool
earlier_from (some _) none by_order = true
earlier_from none (some _) by_order = false
earlier_from none none by_order = by_order
earlier_from (some _) (some _) by_order = by_order

abbrev pub earlier : Transition → Transition → Bool
earlier a b = earlier_from a.from_state_id b.from_state_id (ltb_ℤ a.sort_order b.sort_order)

abbrev pub first_of : Transition → Option Transition → Option Transition
first_of t none = some t
first_of t (some r) = if earlier r t then some r else some t

-- `GetTransitionToState`; of rows that the order does not tell apart, the first.
unfoldable pub get_transition_to_state :
    ℕ → String → ℕ → List State → List Transition → Option Transition
get_transition_to_state def code current states [] = none
get_transition_to_state def code current states (t ∷ ts) =
    let rest = get_transition_to_state def code current states ts in
    if admits def code current states t then first_of t rest else rest

abbrev pub not_final : State → Attempt State
not_final s = if s.is_final then aborted final_state else succeeded s

abbrev pub ruled : {A : Type 0} → Verdict → Attempt A → Attempt A
ruled allowed rest = rest
ruled (vetoed reason) rest = aborted (guard_error reason)
ruled broken rest = aborted failed

abbrev pub run_hook :
    {D : Type 0} → Option (State → State → D → Attempt D) → State → State → D → Attempt D
run_hook none from to d = succeeded d
run_hook (some hook) from to d = hook from to d

abbrev pub entry : Instance → Transition → State → State → Actor → Data → Entry
entry inst tr from to actor data_in = record {
  instance_id = inst.id;
  transition_id = tr.id;
  from_state_id = from.id;
  to_state_id = to.id;
  actor = actor;
  context = data_in;
}

abbrev pub committed :
    {D : Type 0} → Instance → Transition → State → State → Actor → Data → D → Db D → Db D
committed inst tr from to actor data_in d db = record db {
  instances = set_instance_state inst.id to.id db.instances;
  log = entry inst tr from to actor data_in ∷ db.log;
  domain = d;
}

abbrev pub input : Instance → Transition → State → State → Actor → Data → Data → Input
input inst tr from to actor data_in params = record {
  instance_row = inst;
  transition = tr;
  from = from;
  to = to;
  actor = actor;
  params = params;
  data_in = data_in;
}

module _ (guards : String → Option (Input → Verdict)) (actions : String → Bool) where
  -- The loop over the guards. A key that is not registered is an error.
  unfoldable pub run_guards : (Data → Input) → List Spec → Attempt Unit
  run_guards input [] = succeeded tt
  run_guards input (g ∷ gs) = elim (guards g.key) [
    | none ↦ aborted failed
    | some allow ↦ ruled (allow (input g.params)) (run_guards input gs)
  ]

  -- The actions that run after the commit: those registered, in order.
  unfoldable pub run_actions : List Spec → List Spec
  run_actions [] = []
  run_actions (a ∷ as') = if actions a.key then a ∷ run_actions as' else run_actions as'

  -- `ApplyTransitionTo`: the new state, the rows after it, and the actions that were run.
  unfoldable pub apply_transition_to :
      {D : Type 0}
      → ℕ
      → String
      → Actor
      → Data
      → Option (State → State → D → Attempt D)
      → Db D
      → Attempt (State × Db D × List Spec)
  apply_transition_to id code actor data_in hook db = do
    inst ← or_abort failed (get_instance id db.instances)
    from ← or_abort failed (get_state inst.current_state_id db.states)
    open_state ← not_final from
    tr ← or_abort no_transition (
        get_transition_to_state inst.definition_id code inst.current_state_id db.states
          db.transitions)
    to ← or_abort failed (get_state tr.to_state_id db.states)
    passed ← run_guards (input inst tr from to actor data_in) tr.guards
    d ← run_hook hook from to db.domain
    succeeded (to, committed inst tr from to actor data_in d db, run_actions tr.actions)
