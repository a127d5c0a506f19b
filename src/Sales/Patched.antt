-- ===== src/Sales/Patched.antt =====
-- `patchOrderStatus` as a whole: the instance that is made if it is missing, then the transition.
use mathlib.Core.Option.{some-injective}
use mathlib.Core.Path.{subst}
use teggo.Prelude.{
  ◌≡◌, refl, sym, ◌∙◌, ap, ℕ, Bool, true, false, some, List, [], ◌∷◌, All, Bool-cases, Option-cases,
  inl, inr, arith, ◌==◌, ==_iff, String, str_eq,
}
use teggo.Inventory
use teggo.Inventory.{reserve_for_order}
use teggo.Workflow.{
  Spec, State, Instance, Attempt, aborted, succeeded, Input, Verdict, get_state, get_instance,
}
use teggo.Workflow.Rows.{and_split}
use teggo.Workflow.Guards.{is_of, ensure_instance}
use teggo.Sales.{
  Order, Tables, Db, Request, refused, updated, get_order, set_order_status, add_change, items_of,
  answered, move_order, moved_by, patch_order_status,
}
use teggo.Sales.Apart.{All-get_instance}
use teggo.Sales.Synced.{IsSynced, IsEnsured, get_order-status, ensure_instance-IsEnsured}
use teggo.Sales.Moved.{IsHooked, IsMoved, move_order-IsMoved, move_order-IsSynced}

get_order-id : (o id : ℕ) (os : List Order) (x : Order) → get_order o id os ≡ some x → x.id ≡ id
unfolding get_order
get_order-id o id [] x e = absurd (ground arith)
get_order-id o id (y ∷ ys) x e = ground (arith, get_order-id o id ys x)

get_order-set_order_status :
    (o id : ℕ) (code : String) (os : List Order) (x : Order)
    → get_order o id os ≡ some x
    → get_order o id (set_order_status id code os) ≡ some (record x { status = code })
unfolding get_order set_order_status
get_order-set_order_status o id code [] x e = absurd (ground arith)
get_order-set_order_status o id code (y ∷ ys) x e =
    ground (arith, get_order-set_order_status o id code ys x)

-- The state of the instance of an order has the order's status.
from_status :
    (def : ℕ) (id : ℕ) (status : String) (inst : Instance) (from : State) (db : Db)
    (s : IsSynced def db)
    → status ≡ s.status_of id
    → get_instance inst.id db.instances ≡ some inst
    → is_of def "order" id inst ≡ true
    → get_state inst.current_state_id db.states ≡ some from
    → from.code ≡ status
from_status def id status inst from db s same found own k =
    let (of_def, at) = and_split (inst.definition_id == def) _ own in
    let (of_kind, of_id) = and_split (str_eq inst.entity_type "order") _ at in
    let (st, k', code) =
      All-get_instance _ inst.id db.instances inst s.states found
        (ground (arith, of_def, of_kind)) in
    ap (λ x. x.code) (some-injective _ _ (sym k ∙ k'))
    ∙ code
    ∙ ap s.status_of ((==_iff inst.entity_id id).0 of_id)
    ∙ sym same

-- The order as it is left, with the row of its history and its stock.
abbrev pub IsPatched : Request → Order → Tables → Tables → Type 0
IsPatched r o t d =
    (get_order r.organization_id r.order_id d.orders ≡ some (record o { status = r.status }))
    × (d.orders ≡ set_order_status r.order_id r.status t.orders)
    × (d.changes ≡ (add_change r.order_id o.status r.status r.by r.note t).changes)
    × (r.status ≡ "confirmed"
        → reserve_for_order r.warehouse (items_of r.order_id t.lines) r.order_id r.by t.stock
          ≡ Inventory.done d.stock)
    × (str_eq r.status "confirmed" ≡ false → d.stock ≡ t.stock)

pub refused-not-updated : {why : _} → refused why ≡ updated → ⊥
refused-not-updated e = cc

module _ (amount_lte_limit : Input → Verdict) (actions : String → Bool) where
  answered-IsSynced :
      (def : ℕ) (r : Request) (o : Order) (inst : Instance) (db : Db)
      (a : Attempt (State × Db × List Spec))
      → IsSynced def db
      → get_instance inst.id db.instances ≡ some inst
      → is_of def "order" o.id inst ≡ true
      → move_order amount_lte_limit actions r o inst db ≡ a
      → IsSynced def (answered db a).1
  answered-IsSynced def r o inst db (aborted why) s found own e = s
  answered-IsSynced def r o inst db (succeeded (to, db', ran)) s found own e =
      move_order-IsSynced amount_lte_limit actions def r o inst db db' s found own
        (move_order-IsMoved amount_lte_limit actions r o inst db to db' ran found e)

  moved_by-IsSynced :
      (def : ℕ) (r : Request) (o : Order) (db : Db) (a : Attempt (Instance × Db))
      (s : IsSynced def db)
      → o.status ≡ s.status_of o.id
      → All (λ i. (i.id == r.new_instance) ≡ false) db.instances
      → ensure_instance r.new_instance (some def) "order" o.id o.status db ≡ a
      → IsSynced def (moved_by amount_lte_limit actions r o db a).1
  moved_by-IsSynced def r o db (aborted why) s status fresh e = s
  moved_by-IsSynced def r o db (succeeded (inst, db₁)) s status fresh e =
      let ensured = ensure_instance-IsEnsured r.new_instance def o inst db db₁ s status fresh e in
      answered-IsSynced def r o inst db₁ _ ensured.synced ensured.found ensured.of_order refl

  -- Where each order has a status that the state of its workflow instance has, and ids tell instances
  -- and states apart, a request to change an order's status, with a new id that is not taken, leaves
  -- it so, whether it is updated or refused and whether the instance was there or is made.
  pub patch_order_status-IsSynced :
      (def : ℕ) (r : Request) (db : Db)
      → r.definition ≡ some def
      → IsSynced def db
      → All (λ i. (i.id == r.new_instance) ≡ false) db.instances
      → IsSynced def (patch_order_status amount_lte_limit actions r db).1
  unfolding patch_order_status move_order
  patch_order_status-IsSynced def r db known s fresh =
      elim (Option-cases (get_order r.organization_id r.order_id db.domain.orders)) [
        | inl k ↦ rw k s
        | inr (o, k) ↦ elim (Bool-cases (str_eq r.status "")) [
          | inl blank ↦ rw (k, blank) s
          | inr given ↦
              let status =
                get_order-status s.status_of r.organization_id r.order_id db.domain.orders o s.rows
                  k in
              rw (k, given, known) (moved_by-IsSynced def r o db _ s status fresh refl)
        ]
      ]

  moved-IsPatched :
      (def : ℕ) (r : Request) (o : Order) (inst : Instance) (db db₁ db' : Db)
      → get_order r.organization_id r.order_id db.domain.orders ≡ some o
      → IsEnsured def o inst db db₁
      → IsMoved amount_lte_limit actions r o inst db₁ db'
      → IsPatched r o db.domain db'.domain
  moved-IsPatched def r o inst db db₁ db' k ensured m =
      let id = get_order-id r.organization_id r.order_id db.domain.orders o k in
      let domain = ensured.same_domain in
      let k₁ = ap (λ t. get_order r.organization_id r.order_id t.orders) domain ∙ k in
      let status =
        get_order-status ensured.synced.status_of r.organization_id r.order_id db₁.domain.orders o
          ensured.synced.rows k₁ in
      let from =
        from_status def o.id o.status inst m.from db₁ ensured.synced status ensured.found
          ensured.of_order m.left.0 in
      let h₁ =
        subst (λ x. IsHooked r.warehouse o.id r.by r.note x m.to.code db₁.domain db'.domain) from
          m.hooked in
      let h₂ =
        subst (λ x. IsHooked r.warehouse o.id r.by r.note o.status x db₁.domain db'.domain) m.code
          h₁ in
      let h₃ =
        subst (λ x. IsHooked r.warehouse x r.by r.note o.status r.status db₁.domain db'.domain) id
          h₂ in
      let h =
        subst (λ t. IsHooked r.warehouse r.order_id r.by r.note o.status r.status t db'.domain)
          domain h₃ in
      (
        ap (get_order r.organization_id r.order_id) h.orders
            ∙ get_order-set_order_status r.organization_id r.order_id r.status db.domain.orders o k,
        h.orders,
        h.changes,
        h.reserved,
        h.kept,
      )

  answered-IsPatched :
      (def : ℕ) (r : Request) (o : Order) (inst : Instance) (db db₁ db' : Db)
      (a : Attempt (State × Db × List Spec))
      → get_order r.organization_id r.order_id db.domain.orders ≡ some o
      → IsEnsured def o inst db db₁
      → move_order amount_lte_limit actions r o inst db₁ ≡ a
      → answered db₁ a ≡ (updated, db')
      → IsPatched r o db.domain db'.domain
  answered-IsPatched def r o inst db db₁ db' (aborted why) k ensured e h =
      absurd (refused-not-updated (ap (λ x. x.0) h))
  answered-IsPatched def r o inst db db₁ db' (succeeded (to, after, ran)) k ensured e h =
      let m =
        move_order-IsMoved amount_lte_limit actions r o inst db₁ to after ran ensured.found e in
      subst (λ x. IsPatched r o db.domain x.domain) (ap (λ x. x.1) h)
        (moved-IsPatched def r o inst db db₁ after k ensured m)

  moved_by-IsPatched :
      (def : ℕ) (r : Request) (o : Order) (db db' : Db) (a : Attempt (Instance × Db))
      (s : IsSynced def db)
      → get_order r.organization_id r.order_id db.domain.orders ≡ some o
      → All (λ i. (i.id == r.new_instance) ≡ false) db.instances
      → ensure_instance r.new_instance (some def) "order" o.id o.status db ≡ a
      → moved_by amount_lte_limit actions r o db a ≡ (updated, db')
      → IsPatched r o db.domain db'.domain
  moved_by-IsPatched def r o db db' (aborted why) s k fresh e h =
      absurd (refused-not-updated (ap (λ x. x.0) h))
  moved_by-IsPatched def r o db db' (succeeded (inst, db₁)) s k fresh e h =
      let status =
        get_order-status s.status_of r.organization_id r.order_id db.domain.orders o s.rows k in
      let ensured = ensure_instance-IsEnsured r.new_instance def o inst db db₁ s status fresh e in
      answered-IsPatched def r o inst db db₁ db' _ k ensured refl h

  -- Where each order has a status that the state of its workflow instance has, and ids tell instances
  -- and states apart, a request with a new id that is not taken, when it is answered as updated, found
  -- the order of the organization and left it with the status asked for; orders change in nothing but
  -- that status; one row of the history goes from the status that the order had to the one asked
  -- for; and a confirmed order has its lines reserved, while any other status leaves the stock as it was.
  pub patch_order_status-IsPatched :
      (def : ℕ) (r : Request) (db db' : Db)
      → r.definition ≡ some def
      → IsSynced def db
      → All (λ i. (i.id == r.new_instance) ≡ false) db.instances
      → patch_order_status amount_lte_limit actions r db ≡ (updated, db')
      → (o : Order) × (get_order r.organization_id r.order_id db.domain.orders ≡ some o)
        × IsPatched r o db.domain db'.domain
  unfolding patch_order_status move_order
  patch_order_status-IsPatched def r db db' known s fresh e =
      elim (Option-cases (get_order r.organization_id r.order_id db.domain.orders)) [
        | inl k ↦ absurd (refused-not-updated (ap (λ x. x.0) (rw k at e)))
        | inr (o, k) ↦ elim (Bool-cases (str_eq r.status "")) [
          | inl blank ↦ absurd (refused-not-updated (ap (λ x. x.0) (rw (k, blank) at e)))
          | inr given ↦
              (o, k, moved_by-IsPatched def r o db db' _ s k fresh refl (rw (k, given, known) at e))
        ]
      ]
