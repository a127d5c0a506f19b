-- ===== src/Sales/Moved.antt =====
-- What the transition of `patchOrderStatus`, and the hook in its transaction, leave.
use mathlib.Core.Option.{some-injective}
use mathlib.Core.Path.{subst}
use teggo.Prelude.{
  ◌≡◌, refl, sym, ◌∙◌, ap, ℕ, Bool, true, false, Option, some, List, [], ◌∷◌, All, Bool-cases, inl,
  inr, arith, ◌==◌, if◌then◌else◌, String, str_eq, str_eq_iff,
}
use teggo.Inventory
use teggo.Inventory.{Outcome, reserve_for_order}
use teggo.Workflow.{
  Spec, State, Instance, succeeded, Input, Verdict, get_state, get_instance, set_instance_state,
  has_code,
}
use teggo.Workflow.Rows.{get_state-id, get_transition_to_state-admits, and_split, code_of}
use teggo.Workflow.Applied.{apply_transition_to-Applied, succeeded-injective}
use teggo.Workflow.Guards.{is_of}
use teggo.Sales.{
  Order, Tables, Db, Request, set_order_status, add_change, with_stock, order_hook, items_of,
  move_order,
}
use teggo.Sales.Apart.{is_same, AreApart, IsBeside, AreApart-IsBeside, AreApart-set_instance_state}
use teggo.Sales.Synced.{IsSynced, HasState, is_order}

-- What the hook did: the status, a row of the history, and the stock of a confirmed order.
pub record IsHooked (warehouse : Option ℕ) (id : ℕ) (by : String) (note : Option String)
    (from to : String) (t d : Tables) : Type 0 where
  pub orders : d.orders ≡ set_order_status id to t.orders
  pub lines : d.lines ≡ t.lines
  pub changes : d.changes ≡ (add_change id from to by note t).changes
  pub reserved :
      to ≡ "confirmed"
      → reserve_for_order warehouse (items_of id t.lines) id by t.stock ≡ Inventory.done d.stock
  pub kept : str_eq to "confirmed" ≡ false → d.stock ≡ t.stock

with_stock-IsHooked :
    (warehouse : Option ℕ) (id : ℕ) (by : String) (note : Option String) (from to : String)
    (t d : Tables) (out : Outcome Inventory.Store)
    → out ≡ reserve_for_order warehouse (items_of id t.lines) id by t.stock
    → str_eq to "confirmed" ≡ true
    → with_stock
        (add_change id from to by note)
        (record t { orders = set_order_status id to t.orders })
        out
      ≡ succeeded d
    → IsHooked warehouse id by note from to t d
with_stock-IsHooked warehouse id by remark from to t d (Inventory.done stock) out is e =
    subst (IsHooked warehouse id by remark from to t) (succeeded-injective e) (record {
      orders = refl;
      lines = refl;
      changes = refl;
      reserved = λ _. sym out;
      kept = λ n. cc (n, is);
    })
with_stock-IsHooked warehouse id by remark from to t d Inventory.insufficient_stock out is e = cc
with_stock-IsHooked warehouse id by remark from to t d Inventory.failed out is e = cc

pub order_hook-IsHooked :
    (warehouse : Option ℕ) (id : ℕ) (by : String) (note : Option String) (from to : State)
    (t d : Tables)
    → order_hook warehouse id by note from to t ≡ succeeded d
    → IsHooked warehouse id by note from.code to.code t d
unfolding order_hook
order_hook-IsHooked warehouse id by note from to t d e =
    elim (Bool-cases (str_eq to.code "confirmed")) [
      | inl is ↦
          with_stock-IsHooked warehouse id by note from.code to.code t d _ refl is (rw is at e)
      | inr not_so ↦
          subst (IsHooked warehouse id by note from.code to.code t)
            (succeeded-injective (rw not_so at e))
            (record {
              orders = refl;
              lines = refl;
              changes = refl;
              reserved = λ is. cc (not_so, (str_eq_iff to.code "confirmed").1 is);
              kept = λ _. refl;
            })
    ]

-- The statuses after one order moved.
abbrev pub moved_to : (ℕ → String) → ℕ → String → ℕ → String
moved_to f id code i = if i == id then code else f i

rows-set_order_status :
    (f : ℕ → String) (id : ℕ) (code : String) (os : List Order)
    → All (λ o. o.status ≡ f o.id) os
    → All (λ o. o.status ≡ moved_to f id code o.id) (set_order_status id code os)
unfolding set_order_status
rows-set_order_status f id code [] h = tt
rows-set_order_status f id code (o ∷ os) (h, hs) = elim (Bool-cases (o.id == id)) [
  | inl own ↦ rw own (rw own refl, rows-set_order_status f id code os hs)
  | inr other ↦ rw other (rw other h, rows-set_order_status f id code os hs)
]

-- An instance of another entity of the definition.
other_entity :
    (def id : ℕ) (i j : Instance)
    → is_of def "order" id i ≡ true
    → is_same i j ≡ false
    → is_order def j ≡ true
    → j.entity_id == id ≡ false
other_entity def id i j own n is = ground (
  arith,
  own,
  n,
  is,
  str_eq_iff i.entity_type "order",
  str_eq_iff j.entity_type "order",
  str_eq_iff j.entity_type i.entity_type,
)

entity_of :
    (def id : ℕ) (i j : Instance) → is_of def "order" id i ≡ true → j ≡ i → j.entity_id == id ≡ true
entity_of def id i j own same =
    let (_, at) = and_split (i.definition_id == def) _ own in
    subst (λ x. x.entity_id == id ≡ true) (sym same)
      (and_split (str_eq i.entity_type "order") _ at).1

states-set_instance_state :
    (def id : ℕ) (f : ℕ → String) (to : State) (ss : List State) (i : Instance) (is : List Instance)
    → get_state to.id ss ≡ some to
    → is_of def "order" id i ≡ true
    → All (IsBeside i) is
    → All (λ j. is_order def j ≡ true → HasState ss j.current_state_id (f j.entity_id)) is
    → All
        (λ j.
          is_order def j ≡ true
          → HasState ss j.current_state_id (moved_to f id to.code j.entity_id))
        (set_instance_state i.id to.id is)
unfolding set_instance_state
states-set_instance_state def id f to ss i [] k own b h = tt
states-set_instance_state def id f to ss i (j ∷ js) k own (inl (key, same), bs) (h, hs) =
    let entity : j.entity_id == id ≡ true = entity_of def id i j own same in
    rw key
      (λ is. (to, k, rw entity refl), states-set_instance_state def id f to ss i js k own bs hs)
states-set_instance_state def id f to ss i (j ∷ js) k own (inr (key, n), bs) (h, hs) = rw key (
  λ is. rw (other_entity def id i j own n is) (h is),
  states-set_instance_state def id f to ss i js k own bs hs,
)

module _ (amount_lte_limit : Input → Verdict) (actions : String → Bool) where
  -- A transition that was applied to the instance of an order.
  pub record IsMoved (r : Request) (o : Order) (inst : Instance) (db db' : Db) : Type 0 where
    pub from : State
    pub to : State
    pub code : to.code ≡ r.status
    pub row : get_state to.id db.states ≡ some to
    pub left : (get_state inst.current_state_id db.states ≡ some from) × (from.is_final ≡ false)
    pub hooked : IsHooked r.warehouse o.id r.by r.note from.code to.code db.domain db'.domain
    pub instances : db'.instances ≡ set_instance_state inst.id to.id db.instances
    pub states : db'.states ≡ db.states

  pub move_order-IsMoved :
      (r : Request) (o : Order) (inst : Instance) (db : Db) (to : State) (db' : Db)
      (ran : List Spec)
      → get_instance inst.id db.instances ≡ some inst
      → move_order amount_lte_limit actions r o inst db ≡ succeeded (to, db', ran)
      → IsMoved r o inst db db'
  unfolding move_order
  move_order-IsMoved r o inst db to db' ran found e =
      let (i, from, tr, target, d, e₁, e₂, open_state, e₃, e₄, _, hook, e₅) =
        apply_transition_to-Applied _ actions inst.id r.status r.actor _ _ db e in
      let same : i ≡ inst = some-injective _ _ (sym e₁ ∙ found) in
      let (_, b) =
        get_transition_to_state-admits i.definition_id r.status i.current_state_id db.states
          db.transitions tr e₃ in
      let (_, b') = and_split (tr.definition_id == i.definition_id) _ b in
      let (is_code, _) = and_split (has_code r.status (get_state tr.to_state_id db.states)) _ b' in
      subst (IsMoved r o inst db) (ap (λ x. x.1) e₅) (record {
        from = from;
        to = target;
        code = code_of r.status _ target e₄ is_code;
        row =
            ap (λ k. get_state k db.states) (get_state-id tr.to_state_id db.states target e₄) ∙ e₄;
        left = (ap (λ k. get_state k.current_state_id db.states) (sym same) ∙ e₂, open_state);
        hooked = order_hook-IsHooked r.warehouse o.id r.by r.note from target db.domain d hook;
        instances = ap (λ k. set_instance_state k.id target.id db.instances) same;
        states = refl;
      })

  pub move_order-IsSynced :
      (def : ℕ) (r : Request) (o : Order) (inst : Instance) (db db' : Db) (s : IsSynced def db)
      → get_instance inst.id db.instances ≡ some inst
      → is_of def "order" o.id inst ≡ true
      → (m : IsMoved r o inst db db') → IsSynced def db'
  move_order-IsSynced def r o inst db db' s found own m =
      let moved = moved_to s.status_of o.id m.to.code in
      let beside = AreApart-IsBeside inst.id db.instances inst s.apart found in
      let states =
        states-set_instance_state def o.id s.status_of m.to db.states inst db.instances m.row own
          beside s.states in
      let states' =
        subst
          (λ ss.
            All (λ j. is_order def j ≡ true → HasState ss j.current_state_id (moved j.entity_id))
              (set_instance_state inst.id m.to.id db.instances))
          (sym m.states) states in
      record {
        status_of = moved;
        rows =
            subst (All (λ x. x.status ≡ moved x.id)) (sym m.hooked.orders)
              (rows-set_order_status s.status_of o.id m.to.code db.domain.orders s.rows);
        states =
            subst
              (All (λ j.
                is_order def j ≡ true → HasState db'.states j.current_state_id (moved j.entity_id)))
              (sym m.instances) states';
        apart =
            subst AreApart (sym m.instances)
              (AreApart-set_instance_state inst.id m.to.id db.instances s.apart);
        distinct = subst (λ ss. All (λ x. get_state x.id ss ≡ some x) ss) (sym m.states) s.distinct;
      }
