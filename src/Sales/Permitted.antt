-- ===== src/Sales/Permitted.antt =====
-- The permissions that the guards of internal/workflow/guards.go ask for when `patchOrderStatus` moves
-- an order.
use mathlib.Core.Option.{some-injective}
use mathlib.Core.Path.{subst}
use teggo.Prelude.{
  ◌==◌, ◌≡◌, refl, sym, ◌∙◌, ap, ℕ, Bool, true, Option, none, some, List, [], ◌∷◌, All, All-imp,
  Bool-cases, Option-cases, inl, inr, ◌⊎◌, String, str_eq, str_eq_iff, Memᴰ,
}
use teggo.Workflow.{
  Data, Spec, State, Transition, Instance, Entry, entry, Attempt, aborted, succeeded, Input, input,
  Verdict, allowed, get_state, has_code,
}
use teggo.Workflow.Rows.{get_transition_to_state-admits, and_split}
use teggo.Workflow.Applied.{Allows, apply_transition_to-Applied, succeeded-injective}
use teggo.Workflow.Guards.{
  value_of, param_string, actor_permissions, holds, has_permission, built_in,
  get_instance_for_entity, get_state_by_code, found_or_new, create_instance, ensure_instance,
}
use teggo.Sales.Patched.{refused-not-updated}
use teggo.Sales.{
  Order, Db, Request, updated, get_order, data_of, answered, move_order, moved_by,
  patch_order_status,
}

holds-Memᴰ : (p : String) (ps : List String) → holds p ps ≡ true → Memᴰ p ps
unfolding holds
holds-Memᴰ p [] h = cc
holds-Memᴰ p (q ∷ qs) h = elim (Bool-cases (str_eq q p)) [
  | inl own ↦ Memᴰ.head (sym ((str_eq_iff q p).0 own))
  | inr other ↦ Memᴰ.tail (holds-Memᴰ p qs (rw other at h))
]

abbrev pub held_by : Option (List String) → List String
held_by none = []
held_by (some ps) = ps

-- The permissions of the claims are what the guard reads.
actor_permissions-data_of :
    (o : Order) (ps : Option (List String)) (limit : Option String)
    → actor_permissions (value_of "actor_permissions" (data_of o ps limit)) ≡ held_by ps
unfolding value_of
actor_permissions-data_of o none none = refl
actor_permissions-data_of o none (some l) = refl
actor_permissions-data_of o (some ps) none = refl
actor_permissions-data_of o (some ps) (some l) = refl

-- A guard that asks for no permission, or for one of those held.
abbrev pub IsPermitted : Option (List String) → Spec → Type 0
IsPermitted ps g =
    (param_string g.params "permission" "" ≡ "")
    ⊎ Memᴰ (param_string g.params "permission" "") (held_by ps)

has_permission-IsPermitted :
    (i : Input) (g : Spec) (ps : Option (List String))
    → i.params ≡ g.params
    → actor_permissions (value_of "actor_permissions" i.data_in) ≡ held_by ps
    → has_permission i ≡ allowed
    → IsPermitted ps g
unfolding has_permission
has_permission-IsPermitted i g ps same held h =
    let required = param_string g.params "permission" "" in
    let h' = subst (λ params. has_permission (record i { params = params }) ≡ allowed) same h in
    elim (Bool-cases (str_eq required "")) [
      | inl blank ↦ inl ((str_eq_iff required "").0 blank)
      | inr asked ↦
          elim (Bool-cases
            (holds required (actor_permissions (value_of "actor_permissions" i.data_in)))) [
              | inl held_one ↦ inr (subst (Memᴰ required) held (holds-Memᴰ required _ held_one))
              | inr lacks ↦ cc (rw (asked, lacks) at h')
            ]
    ]

-- The rows that EnsureInstance leaves as they are.
create_instance-kept :
    (id def : ℕ) (kind : String) (entity : ℕ) (st : Option State) (db : Db) (inst : Instance)
    (db' : Db)
    → create_instance id def kind entity st db ≡ succeeded (inst, db')
    → (db'.transitions ≡ db.transitions) × (db'.log ≡ db.log) × (db'.states ≡ db.states)
unfolding create_instance
create_instance-kept id def kind entity none db inst db' e = cc
create_instance-kept id def kind entity (some st) db inst db' e =
    let same = ap (λ x. x.1) (sym (succeeded-injective e)) in
    (ap (λ x. x.transitions) same, ap (λ x. x.log) same, ap (λ x. x.states) same)

found_or_new-kept :
    (id def : ℕ) (kind : String) (entity : ℕ) (code : String) (found : Option Instance) (db : Db)
    (inst : Instance) (db' : Db)
    → found_or_new id def kind entity code db found ≡ succeeded (inst, db')
    → (db'.transitions ≡ db.transitions) × (db'.log ≡ db.log) × (db'.states ≡ db.states)
found_or_new-kept id def kind entity code none db inst db' e =
    create_instance-kept id def kind entity (get_state_by_code def code db.states) db inst db' e
found_or_new-kept id def kind entity code (some i) db inst db' e =
    let same = ap (λ x. x.1) (sym (succeeded-injective e)) in
    (ap (λ x. x.transitions) same, ap (λ x. x.log) same, ap (λ x. x.states) same)

ensure_instance-kept :
    (id : ℕ) (def : Option ℕ) (kind : String) (entity : ℕ) (code : String) (db : Db)
    (inst : Instance) (db' : Db)
    → ensure_instance id def kind entity code db ≡ succeeded (inst, db')
    → (db'.transitions ≡ db.transitions) × (db'.log ≡ db.log) × (db'.states ≡ db.states)
unfolding ensure_instance
ensure_instance-kept id none kind entity code db inst db' e = cc
ensure_instance-kept id (some def) kind entity code db inst db' e =
    found_or_new-kept id def kind entity code (get_instance_for_entity def kind entity db.instances)
      db inst db' e

-- The transition that was logged for a request, and what its guards let pass.
pub record IsAllowed (r : Request) (db db' : Db) : Type 0 where
  pub taken : Transition
  pub row : Entry
  pub is_row : Memᴰ taken db.transitions
  pub leads : has_code r.status (get_state taken.to_state_id db.states) ≡ true
  pub logs : db'.log ≡ row ∷ db.log
  pub of_taken : row.transition_id ≡ taken.id
  pub by_actor : row.actor ≡ r.actor
  pub permitted :
      All (λ g. str_eq g.key "has_permission" ≡ true → IsPermitted r.permissions g) taken.guards

module _ (amount_lte_limit : Input → Verdict) (actions : String → Bool) where
  Allows-IsPermitted :
      (of_params : Data → Input) (ps : Option (List String))
      → ((params : Data) → (of_params params).params ≡ params)
      → ((params : Data)
          → actor_permissions (value_of "actor_permissions" (of_params params).data_in)
            ≡ held_by ps)
      → (g : Spec) → Allows (built_in amount_lte_limit) actions of_params g
      → str_eq g.key "has_permission" ≡ true
      → IsPermitted ps g
  unfolding built_in
  Allows-IsPermitted of_params ps same held g (allow, known, allows) key =
      let is_key = (str_eq_iff g.key "has_permission").0 key in
      let found : some has_permission ≡ some allow =
        subst (λ k. built_in amount_lte_limit k ≡ some allow) is_key known in
      let permits =
        subst (λ f. f (of_params g.params) ≡ allowed) (sym (some-injective _ _ found)) allows in
      has_permission-IsPermitted (of_params g.params) g ps (same g.params) (held g.params) permits

  move_order-IsAllowed :
      (r : Request) (o : Order) (inst : Instance) (db : Db) (to : State) (db' : Db)
      (ran : List Spec)
      → move_order amount_lte_limit actions r o inst db ≡ succeeded (to, db', ran)
      → IsAllowed r db db'
  unfolding move_order
  move_order-IsAllowed r o inst db to db' ran e =
      let (i, from, tr, target, d, _, _, _, e₃, _, allows, _, e₅) =
        apply_transition_to-Applied _ actions inst.id r.status r.actor _ _ db e in
      let (row, b) =
        get_transition_to_state-admits i.definition_id r.status i.current_state_id db.states
          db.transitions tr e₃ in
      let (_, b') = and_split (tr.definition_id == i.definition_id) _ b in
      let (leads, _) = and_split (has_code r.status (get_state tr.to_state_id db.states)) _ b' in
      let data_in = data_of o r.permissions r.spending_limit in
      record {
        taken = tr;
        row = entry i tr from target r.actor data_in;
        is_row = row;
        leads = leads;
        logs = ap (λ x. x.1.log) (sym e₅);
        of_taken = refl;
        by_actor = refl;
        permitted =
            All-imp tr.guards
              (Allows-IsPermitted (input i tr from target r.actor data_in) r.permissions (λ _. refl)
                (λ _. actor_permissions-data_of o r.permissions r.spending_limit))
              allows;
      }

  answered-IsAllowed :
      (r : Request) (o : Order) (inst : Instance) (db db' : Db)
      (a : Attempt (State × Db × List Spec))
      → move_order amount_lte_limit actions r o inst db ≡ a
      → answered db a ≡ (updated, db')
      → IsAllowed r db db'
  answered-IsAllowed r o inst db db' (aborted why) e h =
      absurd (refused-not-updated (ap (λ x. x.0) h))
  answered-IsAllowed r o inst db db' (succeeded (to, after, ran)) e h =
      subst (IsAllowed r db) (ap (λ x. x.1) h) (move_order-IsAllowed r o inst db to after ran e)

  moved_by-IsAllowed :
      (r : Request) (o : Order) (db db' : Db) (a : Attempt (Instance × Db))
      → ensure_instance r.new_instance r.definition "order" o.id o.status db ≡ a
      → moved_by amount_lte_limit actions r o db a ≡ (updated, db')
      → IsAllowed r db db'
  moved_by-IsAllowed r o db db' (aborted why) e h = absurd (refused-not-updated (ap (λ x. x.0) h))
  moved_by-IsAllowed r o db db' (succeeded (inst, db₁)) e h =
      let (transitions, log, states) =
        ensure_instance-kept r.new_instance r.definition "order" o.id o.status db inst db₁ e in
      let m = answered-IsAllowed r o inst db₁ db' _ refl h in
      record {
        taken = m.taken;
        row = m.row;
        is_row = subst (Memᴰ m.taken) transitions m.is_row;
        leads =
            subst (λ ss. has_code r.status (get_state m.taken.to_state_id ss) ≡ true) states
              m.leads;
        logs = m.logs ∙ ap (λ l. m.row ∷ l) log;
        of_taken = m.of_taken;
        by_actor = m.by_actor;
        permitted = m.permitted;
      }

  -- A request that is answered as updated took a transition of the workflow to a state with the
  -- status asked for, which is logged in one new row with the actor of the request; and for each
  -- has_permission guard of that transition, the claims of the request hold the permission that the
  -- guard names, unless it names none: an approval is not passed by without its permission.
  pub patch_order_status-IsAllowed :
      (r : Request) (db db' : Db)
      → patch_order_status amount_lte_limit actions r db ≡ (updated, db')
      → IsAllowed r db db'
  unfolding patch_order_status
  patch_order_status-IsAllowed r db db' e =
      elim (Option-cases (get_order r.organization_id r.order_id db.domain.orders)) [
        | inl k ↦ absurd (refused-not-updated (ap (λ x. x.0) (rw k at e)))
        | inr (o, k) ↦ elim (Bool-cases (str_eq r.status "")) [
          | inl blank ↦ absurd (refused-not-updated (ap (λ x. x.0) (rw (k, blank) at e)))
          | inr given ↦ moved_by-IsAllowed r o db db' _ refl (rw (k, given) at e)
        ]
      ]
