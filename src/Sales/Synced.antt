-- ===== src/Sales/Synced.antt =====
-- The status of an order and the state of its workflow instance, under `patchOrderStatus` of
-- internal/modules/sales/order.go.
use mathlib.Core.Option.{some-injective}
use mathlib.Core.Path.{subst}
use teggo.Prelude.{
  ◌≡◌, refl, sym, ◌∙◌, ap, ℕ, Bool, true, false, ◌&&◌, some, List, [], ◌∷◌, All, Bool-cases,
  Option-cases, inl, inr, arith, ◌==◌, ==_iff, String, str_eq, str_eq_iff,
}
use teggo.Workflow.{State, Instance, succeeded, get_state, get_instance}
use teggo.Workflow.Rows.{and_split}
use teggo.Workflow.Applied.{succeeded-injective}
use teggo.Workflow.Guards.{
  is_of, get_instance_for_entity, get_state_by_code, create_instance, ensure_instance,
}
use teggo.Sales.{Order, Db, get_order}
use teggo.Sales.Apart.{AreApart, get_instance-for_entity, get_instance_for_entity-none}

-- A state with the code.
abbrev pub HasState : List State → ℕ → String → Type 0
HasState states id code = (st : State) × (get_state id states ≡ some st) × (st.code ≡ code)

abbrev pub is_order : ℕ → Instance → Bool
is_order def i = i.definition_id == def && str_eq i.entity_type "order"

-- Each order has a status, which its rows have, and its instance in the definition is in the state
-- with that code; instances and states are told apart by their keys.
pub record IsSynced (def : ℕ) (db : Db) : Type 0 where
  pub status_of : ℕ → String
  pub rows : All (λ o. o.status ≡ status_of o.id) db.domain.orders
  pub states :
      All
        (λ i. is_order def i ≡ true → HasState db.states i.current_state_id (status_of i.entity_id))
        db.instances
  pub apart : AreApart db.instances
  pub distinct : All (λ s. get_state s.id db.states ≡ some s) db.states

pub get_order-status :
    (f : ℕ → String) (o id : ℕ) (os : List Order) (x : Order)
    → All (λ y. y.status ≡ f y.id) os
    → get_order o id os ≡ some x
    → x.status ≡ f x.id
unfolding get_order
get_order-status f o id [] x h e = absurd (ground arith)
get_order-status f o id (y ∷ ys) x (h, hs) e =
    elim (Bool-cases (y.organization_id == o && y.id == id)) [
      | inl own ↦ subst (λ z. z.status ≡ f z.id) (some-injective _ _ (rw own at e)) h
      | inr other ↦ get_order-status f o id ys x hs (rw other at e)
    ]

get_state_by_code-lem :
    (def : ℕ) (code : String) (P : State → Type 0) (ss : List State) (s : State)
    → All P ss
    → get_state_by_code def code ss ≡ some s
    → P s × (s.code ≡ code)
unfolding get_state_by_code
get_state_by_code-lem def code P [] s h e = absurd (ground arith)
get_state_by_code-lem def code P (x ∷ xs) s (h, hs) e =
    elim (Bool-cases (x.definition_id == def && str_eq x.code code)) [
      | inl own ↦
          let same : x ≡ s = some-injective _ _ (rw own at e) in
          (
            subst P same h,
            ap (λ y. y.code) (sym same)
                ∙ (str_eq_iff x.code code).0 (and_split (x.definition_id == def) _ own).1,
          )
      | inr other ↦ get_state_by_code-lem def code P xs s hs (rw other at e)
    ]

-- The instance of an order, made if it is missing.
pub record IsEnsured (def : ℕ) (o : Order) (inst : Instance) (db db' : Db) : Type 0 where
  pub synced : IsSynced def db'
  pub found : get_instance inst.id db'.instances ≡ some inst
  pub of_order : is_of def "order" o.id inst ≡ true
  pub same_domain : db'.domain ≡ db.domain

abbrev new_row : ℕ → ℕ → ℕ → ℕ → Instance
new_row id def entity st = record {
  id = id;
  definition_id = def;
  entity_type = "order";
  entity_id = entity;
  current_state_id = st;
}

both :
    (P Q : Instance → Type 0) (is : List Instance) → All P is → All Q is → All (λ i. P i × Q i) is
both P Q [] h k = tt
both P Q (i ∷ is) (h, hs) (k, ks) = ((h, k), both P Q is hs ks)

new_row-IsEnsured :
    (new def : ℕ) (o : Order) (st : State) (db : Db) (s : IsSynced def db)
    → All (λ i. (i.id == new) ≡ false) db.instances
    → All (λ i. is_of def "order" o.id i ≡ false) db.instances
    → get_state st.id db.states ≡ some st
    → st.code ≡ s.status_of o.id
    → IsEnsured def o
        (new_row new def o.id st.id)
        db
        (record db { instances = new_row new def o.id st.id ∷ db.instances })
unfolding AreApart get_instance
new_row-IsEnsured new def o st db s fresh none_of k code = record {
  synced = record {
    status_of = s.status_of;
    rows = s.rows;
    states = (λ _. (st, k, code), s.states);
    apart = (
      both (λ j. (j.id == new) ≡ false) (λ j. is_of def "order" o.id j ≡ false) db.instances fresh
          none_of,
      s.apart,
    );
    distinct = s.distinct;
  };
  found = rw ((==_iff new new).1 refl) refl;
  of_order = ground (arith, (str_eq_iff "order" "order").1 refl);
  same_domain = refl;
}

create_instance-IsEnsured :
    (new def : ℕ) (o : Order) (inst : Instance) (db db' : Db) (s : IsSynced def db)
    → o.status ≡ s.status_of o.id
    → All (λ i. (i.id == new) ≡ false) db.instances
    → All (λ i. is_of def "order" o.id i ≡ false) db.instances
    → create_instance new def "order" o.id (get_state_by_code def o.status db.states) db
      ≡ succeeded (inst, db')
    → IsEnsured def o inst db db'
unfolding create_instance
create_instance-IsEnsured new def o inst db db' s status fresh none_of e =
    elim (Option-cases (get_state_by_code def o.status db.states)) [
      | inr (st, k) ↦
          let (row, code) =
            get_state_by_code-lem def o.status (λ x. get_state x.id db.states ≡ some x) db.states st
              s.distinct k in
          let made = new_row-IsEnsured new def o st db s fresh none_of row (code ∙ status) in
          subst (λ x. IsEnsured def o x.0 db x.1) (succeeded-injective (rw k at e)) made
      | inl k ↦ cc (rw k at e)
    ]

pub ensure_instance-IsEnsured :
    (new def : ℕ) (o : Order) (inst : Instance) (db db' : Db) (s : IsSynced def db)
    → o.status ≡ s.status_of o.id
    → All (λ i. (i.id == new) ≡ false) db.instances
    → ensure_instance new (some def) "order" o.id o.status db ≡ succeeded (inst, db')
    → IsEnsured def o inst db db'
unfolding ensure_instance
ensure_instance-IsEnsured new def o inst db db' s status fresh e =
    elim (Option-cases (get_instance_for_entity def "order" o.id db.instances)) [
      | inr (i, k) ↦
          let (found, of_order) =
            get_instance-for_entity def "order" o.id db.instances i s.apart k in
          subst (λ x. IsEnsured def o x.0 db x.1) (succeeded-injective (rw k at e))
            (record { synced = s; found = found; of_order = of_order; same_domain = refl })
      | inl k ↦
          create_instance-IsEnsured new def o inst db db' s status fresh
            (get_instance_for_entity-none def "order" o.id db.instances k) (rw k at e)
    ]
