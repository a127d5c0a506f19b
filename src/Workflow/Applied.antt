-- ===== src/Workflow/Applied.antt =====
-- What a successful `ApplyTransitionTo` did.
use teggo.Prelude.{
  ℕ, Bool, true, false, ◌≡◌, refl, sym, ◌∙◌, ap, Option, none, some, List, [], ◌∷◌, ◌==◌, String,
  All, Memᴰ, arith,
}
use mathlib.Core.Path.{subst}
use teggo.Workflow.{
  Data, Spec, Actor, State, Transition, Instance, Db, Error, no_transition, failed, Attempt,
  succeeded, aborted, ◌>>=◌, or_abort, Input, input, entry, has_code, leaves, Verdict, allowed,
  vetoed, broken, get_state, get_instance, set_instance_state, get_transition_to_state, not_final,
  ruled, run_hook, committed, run_guards, run_actions, apply_transition_to,
}
use teggo.Workflow.Rows.{
  get_instance-id, get_instance-set_instance_state, get_instance-set_instance_state_other,
  get_transition_to_state-admits, and_split, code_of,
}

pub >>=-eq-succeeded :
    {Row Next : Type 0} (first : Attempt Row) (next : Row → Attempt Next) {end : Next}
    → (first >>= next) ≡ succeeded end
    → (row : Row) × (first ≡ succeeded row) × (next row ≡ succeeded end)
>>=-eq-succeeded (aborted why) next e = cc
>>=-eq-succeeded (succeeded row) next e = (row, refl, e)

pub succeeded-injective : {A : Type 0} {a b : A} → succeeded a ≡ succeeded b → a ≡ b
succeeded-injective e = cc

or_abort-eq-succeeded :
    {A : Type 0} (e : Error) (o : Option A) {a : A} → or_abort e o ≡ succeeded a → o ≡ some a
or_abort-eq-succeeded e none h = cc
or_abort-eq-succeeded e (some a) h = cc

not_final-eq-succeeded : (s : State) {t : State} → not_final s ≡ succeeded t → s.is_final ≡ false
not_final-eq-succeeded s h = ground arith

module _ (guards : String → Option (Input → Verdict)) (actions : String → Bool) where
  -- A guard is registered and allows the transition.
  abbrev pub Allows : (Data → Input) → Spec → Type 0
  Allows input_of g =
      (allow : Input → Verdict) × (guards g.key ≡ some allow)
      × (allow (input_of g.params) ≡ allowed)

  ruled-eq-succeeded :
      (v : Verdict) (rest : Attempt Unit) {a : Unit {0}}
      → ruled v rest ≡ succeeded a
      → (v ≡ allowed) × (rest ≡ succeeded tt)
  ruled-eq-succeeded allowed rest h = (refl, h)
  ruled-eq-succeeded (vetoed reason) rest h = cc
  ruled-eq-succeeded broken rest h = cc

  looked_up :
      (o : Option (Input → Verdict)) (i : Input) (rest : Attempt Unit) {a : Unit {0}}
      → elim o [ none ↦ aborted failed | some allow ↦ ruled (allow i) rest ] ≡ succeeded a
      → (allow : Input → Verdict) × (o ≡ some allow) × (allow i ≡ allowed) × (rest ≡ succeeded tt)
  looked_up none i rest h = cc
  looked_up (some allow) i rest h =
      let (v, e) = ruled-eq-succeeded (allow i) rest h in (allow, refl, v, e)

  pub run_guards-eq-succeeded :
      (input_of : Data → Input) (gs : List Spec) {a : Unit {0}}
      → run_guards guards actions input_of gs ≡ succeeded a
      → All (Allows input_of) gs
  unfolding run_guards
  run_guards-eq-succeeded input_of [] h = tt
  run_guards-eq-succeeded input_of (g ∷ gs) h =
      let (allow, e, v, rest) =
        looked_up (guards g.key) (input_of g.params) (run_guards guards actions input_of gs) h in
      ((allow, e, v), run_guards-eq-succeeded input_of gs rest)

  -- The steps of a transition that is applied.
  abbrev pub Applied :
      {D : Type 0}
      → ℕ
      → String
      → Actor
      → Data
      → Option (State → State → D → Attempt D)
      → Db D
      → State × Db D × List Spec
      → Type 0
  Applied {D} id code actor data_in hook db r =
      (inst : Instance) × (from : State) × (tr : Transition) × (to : State) × (d : D)
      × (get_instance id db.instances ≡ some inst)
      × (get_state inst.current_state_id db.states ≡ some from)
      × (from.is_final ≡ false)
      × (get_transition_to_state inst.definition_id code inst.current_state_id db.states
            db.transitions
          ≡ some tr)
      × (get_state tr.to_state_id db.states ≡ some to)
      × All (Allows (input inst tr from to actor data_in)) tr.guards
      × (run_hook hook from to db.domain ≡ succeeded d)
      × ((to, committed inst tr from to actor data_in d db, run_actions guards actions tr.actions)
          ≡ r)

  pub apply_transition_to-Applied :
      {D : Type 0} (id : ℕ) (code : String) (actor : Actor) (data_in : Data)
      (hook : Option (State → State → D → Attempt D)) (db : Db D) {r : State × Db D × List Spec}
      → apply_transition_to guards actions id code actor data_in hook db ≡ succeeded r
      → Applied id code actor data_in hook db r
  unfolding apply_transition_to
  apply_transition_to-Applied id code actor data_in hook db h =
      let (inst, e₁, h₁) = >>=-eq-succeeded (or_abort failed (get_instance id db.instances)) _ h in
      let (from, e₂, h₂) =
        >>=-eq-succeeded (or_abort failed (get_state inst.current_state_id db.states)) _ h₁ in
      let (_, e₃, h₃) = >>=-eq-succeeded (not_final from) _ h₂ in
      let (tr, e₄, h₄) =
        >>=-eq-succeeded
          (or_abort no_transition (
            get_transition_to_state inst.definition_id code inst.current_state_id db.states
              db.transitions))
          _ h₃ in
      let (to, e₅, h₅) =
        >>=-eq-succeeded (or_abort failed (get_state tr.to_state_id db.states)) _ h₄ in
      let (_, e₆, h₆) =
        >>=-eq-succeeded (run_guards guards actions (input inst tr from to actor data_in) tr.guards)
          _ h₅ in
      let (d, e₇, h₇) = >>=-eq-succeeded (run_hook hook from to db.domain) _ h₆ in
      (
        inst,
        from,
        tr,
        to,
        d,
        or_abort-eq-succeeded _ _ e₁,
        or_abort-eq-succeeded _ _ e₂,
        not_final-eq-succeeded from e₃,
        or_abort-eq-succeeded _ _ e₄,
        or_abort-eq-succeeded _ _ e₅,
        run_guards-eq-succeeded _ tr.guards e₆,
        e₇,
        succeeded-injective h₇,
      )

module _ (guards : String → Option (Input → Verdict)) (actions : String → Bool) where
  -- A transition that is applied to an instance: its state was not final; the transition taken is a
  -- row of the instance's definition that starts at that state or at any; each of its guards is
  -- registered and allows it; the state returned is the one that the transition leads to, has the
  -- code asked for and is the instance's state afterwards; the log has one new row, with the
  -- instance, the transition, both states and the actor; and the rest of the instance, and every
  -- other instance, is as before.
  pub apply_transition_to_sound :
      {D : Type 0} (id : ℕ) (code : String) (actor : Actor) (data_in : Data)
      (hook : Option (State → State → D → Attempt D)) (db : Db D) (to : State) (db' : Db D)
      (ran : List Spec)
      → apply_transition_to guards actions id code actor data_in hook db ≡ succeeded (to, db', ran)
      → (inst : Instance) × (from : State) × (tr : Transition) × (get_instance id db.instances
          ≡ some inst)
        × (get_state inst.current_state_id db.states ≡ some from)
        × (from.is_final ≡ false)
        × Memᴰ tr db.transitions
        × (tr.definition_id == inst.definition_id ≡ true)
        × (leaves inst.current_state_id tr.from_state_id ≡ true)
        × All (Allows guards actions (input inst tr from to actor data_in)) tr.guards
        × (get_state tr.to_state_id db.states ≡ some to)
        × (to.code ≡ code)
        × (db'.log ≡ entry inst tr from to actor data_in ∷ db.log)
        × (get_instance id db'.instances ≡ some (record inst { current_state_id = to.id }))
        × ((other : ℕ)
            → id == other ≡ false
            → get_instance other db'.instances ≡ get_instance other db.instances)
  apply_transition_to_sound id code actor data_in hook db to db' ran h =
      let (inst, from, tr, to₁, d, e₁, e₂, open_state, e₃, e₄, allows, _, e₅) =
        apply_transition_to-Applied guards actions id code actor data_in hook db h in
      let same_to = ap (λ x. x.0) e₅ in
      let same_db = ap (λ x. x.1) e₅ in
      let own = get_instance-id id db.instances inst e₁ in
      let (row, b) =
        get_transition_to_state-admits inst.definition_id code inst.current_state_id db.states
          db.transitions tr e₃ in
      let (is_def, b') = and_split (tr.definition_id == inst.definition_id) _ b in
      let (is_code, is_from) =
        and_split (has_code code (get_state tr.to_state_id db.states)) _ b' in
      (
        inst,
        from,
        tr,
        e₁,
        e₂,
        open_state,
        row,
        is_def,
        is_from,
        subst (λ t. All (Allows guards actions (input inst tr from t actor data_in)) tr.guards)
            same_to allows,
        e₄ ∙ ap some same_to,
        ap (λ t. t.code) (sym same_to) ∙ code_of code _ to₁ e₄ is_code,
        ap (λ x. x.log) (sym same_db)
            ∙ ap (λ t. entry inst tr from t actor data_in ∷ db.log) same_to,
        ap (λ x. get_instance id x.instances) (sym same_db)
            ∙ ap (λ y. get_instance id (set_instance_state y to₁.id db.instances)) own
            ∙ get_instance-set_instance_state id to₁.id db.instances inst e₁
            ∙ ap (λ t. some (record inst { current_state_id = t.id })) same_to,
        λ other n.
            ap (λ x. get_instance other x.instances) (sym same_db)
            ∙ ap (λ y. get_instance other (set_instance_state y to₁.id db.instances)) own
            ∙ get_instance-set_instance_state_other id other to₁.id db.instances n,
      )
