-- ===== src/Workflow/Guards.antt =====
-- internal/workflow/guards.go without its floats, and `EnsureInstance` of engine.go.
use Prim.Native.String.{◌++◌ as ◌+++◌}
use teggo.Prelude.{
  ℕ, Bool, true, false, ◌&&◌, Option, none, some, List, [], ◌∷◌, ◌==◌, if◌then◌else◌, String,
  str_eq,
}
use teggo.Workflow.{
  Value, text, texts, Data, State, Instance, Db, Input, Verdict, allowed, vetoed, Attempt, aborted,
  succeeded, failed,
}

-- `m[key]`
unfoldable pub value_of : String → Data → Option Value
value_of key [] = none
value_of key ((k, v) ∷ rest) = if str_eq k key then some v else value_of key rest

-- `paramString`
abbrev pub string_or : String → Option Value → String
string_or default (some (text s)) = if str_eq s "" then default else s
string_or default (some (texts ss)) = default
string_or default none = default

unfoldable pub param_string : Data → String → String → String
param_string m key default = string_or default (value_of key m)

-- `actorPermissions`
abbrev pub actor_permissions : Option Value → List String
actor_permissions (some (texts ss)) = ss
actor_permissions (some (text s)) = []
actor_permissions none = []

unfoldable pub holds : String → List String → Bool
holds required [] = false
holds required (p ∷ ps) = if str_eq p required then true else holds required ps

-- `HasPermission.Allow`
unfoldable pub has_permission : Input → Verdict
has_permission i =
    let required = param_string i.params "permission" "" in
    if str_eq required ""
    then allowed
    else if holds required (actor_permissions (value_of "actor_permissions" i.data_in))
    then allowed
    else vetoed ("requires the " +++ required +++ " permission")

-- The guards that are registered; `amount_lte_limit` compares floats, and is a parameter.
unfoldable pub built_in : (Input → Verdict) → String → Option (Input → Verdict)
built_in amount_lte_limit key =
    if str_eq key "amount_lte_limit"
    then some amount_lte_limit
    else if str_eq key "has_permission"
    then some has_permission
    else none

abbrev pub is_of : ℕ → String → ℕ → Instance → Bool
is_of def kind entity i =
    i.definition_id == def && (str_eq i.entity_type kind && i.entity_id == entity)

-- `GetInstanceForEntity`
unfoldable pub get_instance_for_entity : ℕ → String → ℕ → List Instance → Option Instance
get_instance_for_entity def kind entity [] = none
get_instance_for_entity def kind entity (i ∷ is) =
    if is_of def kind entity i then some i else get_instance_for_entity def kind entity is

-- `GetWorkflowStateByCode`
unfoldable pub get_state_by_code : ℕ → String → List State → Option State
get_state_by_code def code [] = none
get_state_by_code def code (s ∷ ss) =
    if s.definition_id == def && str_eq s.code code then some s else get_state_by_code def code ss

-- `CreateWorkflowInstance`, with the id of the new row.
unfoldable pub create_instance :
    {D : Type 0} → ℕ → ℕ → String → ℕ → Option State → Db D → Attempt (Instance × Db D)
create_instance id def kind entity none db = aborted failed
create_instance id def kind entity (some st) db =
    let new : Instance = record {
      id = id;
      definition_id = def;
      entity_type = kind;
      entity_id = entity;
      current_state_id = st.id;
    } in
    succeeded (new, record db { instances = new ∷ db.instances })

abbrev pub found_or_new :
    {D : Type 0} → ℕ → ℕ → String → ℕ → String → Db D → Option Instance → Attempt (Instance × Db D)
found_or_new id def kind entity code db (some i) = succeeded (i, db)
found_or_new id def kind entity code db none =
    create_instance id def kind entity (get_state_by_code def code db.states) db

-- `EnsureInstance`; the definition is what `GetWorkflowDefByCode` finds.
unfoldable pub ensure_instance :
    {D : Type 0} → ℕ → Option ℕ → String → ℕ → String → Db D → Attempt (Instance × Db D)
ensure_instance id none kind entity code db = aborted failed
ensure_instance id (some def) kind entity code db =
    found_or_new id def kind entity code db (get_instance_for_entity def kind entity db.instances)
