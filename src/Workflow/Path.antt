-- ===== src/Workflow/Path.antt =====
-- Histories of transitions and the log that they write.
use teggo.Prelude.{
  ℕ, Bool, true, false, ◌≡◌, sym, ◌∙◌, ap, Option, some, List, [], ◌∷◌, ◌==◌, if◌then◌else◌, String,
  Bool-cases, inl, inr, ==_iff,
}
use mathlib.Core.Path.{subst}
use teggo.Workflow.{
  Data, Spec, Actor, State, Transition, Instance, Entry, Db, Attempt, succeeded, Input, Verdict,
  get_state, get_instance, set_instance_state, committed, entry, apply_transition_to,
}
use teggo.Workflow.Applied.{apply_transition_to-Applied}
use teggo.Workflow.Rows.{
  get_instance-id, get_state-id, get_instance-set_instance_state,
  get_instance-set_instance_state_other,
}

-- The entries of an instance, newest first, lead to a state, each from where the one before went.
abbrev pub IsPath : ℕ → ℕ → List Entry → Type 0
IsPath i st [] = Unit
IsPath i st (e ∷ es) =
    if e.instance_id == i
    then (e.to_state_id ≡ st) × IsPath i e.from_state_id es
    else IsPath i st es

-- The log has, of each instance, a path to its current state.
abbrev pub IsTraced : {D : Type 0} → Db D → Type 0
IsTraced db =
    (i : ℕ) (inst : Instance)
    → get_instance i db.instances ≡ some inst
    → IsPath i inst.current_state_id db.log

some_inj : {x y : Instance} → some x ≡ some y → x ≡ y
some_inj e = cc

IsPath-own :
    (i st : ℕ) (e : Entry) (es : List Entry)
    → e.instance_id ≡ i
    → e.to_state_id ≡ st
    → IsPath i e.from_state_id es
    → IsPath i st (e ∷ es)
IsPath-own i st e es own to p = let (_, same) = ==_iff e.instance_id i in rw (same own) (to, p)

IsPath-other :
    (i st : ℕ) (e : Entry) (es : List Entry)
    → e.instance_id == i ≡ false
    → IsPath i st es
    → IsPath i st (e ∷ es)
IsPath-other i st e es n p = rw n p

module _ {D : Type 0} (guards : String → Option (Input → Verdict)) (actions : String → Bool) where
  -- One transition that is applied, and any number of them.
  pub data Step : Db D → Db D → Type 0 where
    applied :
        (id : ℕ) (code : String) (actor : Actor) (data_in : Data)
        (hook : Option (State → State → D → Attempt D)) (to : State) (ran : List Spec)
        {db db' : Db D}
        → apply_transition_to guards actions id code actor data_in hook db
          ≡ succeeded (to, db', ran)
        → Step db db'

  pub data Reaches (db : Db D) : Db D → Type 0 where
    start : Reaches db db
    step : {db' db'' : Db D} → Reaches db db' → Step db' db'' → Reaches db db''

  committed-IsTraced :
      (id : ℕ) (inst : Instance) (from to : State) (tr : Transition) (actor : Actor)
      (data_in : Data) (d : D) (db : Db D)
      → get_instance id db.instances ≡ some inst
      → get_state inst.current_state_id db.states ≡ some from
      → IsTraced db
      → IsTraced (committed inst tr from to actor data_in d db)
  committed-IsTraced id inst from to tr actor data_in d db e₁ e₂ h i inst' e =
      let own = get_instance-id id db.instances inst e₁ in
      let came = get_state-id inst.current_state_id db.states from e₂ in
      let e' = ap (λ y. get_instance i (set_instance_state y to.id db.instances)) (sym own) ∙ e in
      elim (Bool-cases (id == i)) [
        | inl same ↦
            let (eq_of, _) = ==_iff id i in
            let q = eq_of same in
            let moved = some_inj (
              sym (get_instance-set_instance_state id to.id db.instances inst e₁)
              ∙ ap (λ y. get_instance y (set_instance_state id to.id db.instances)) q
              ∙ e') in
            IsPath-own i inst'.current_state_id (entry inst tr from to actor data_in) db.log
              (own ∙ q) (ap (λ x. x.current_state_id) moved)
              (subst (λ x. IsPath i x db.log) (sym came)
                (h i inst (ap (λ y. get_instance y db.instances) (sym q) ∙ e₁)))
        | inr n ↦
            IsPath-other i inst'.current_state_id (entry inst tr from to actor data_in) db.log
              (ap (λ y. y == i) own ∙ n)
              (h i inst'
                (sym (get_instance-set_instance_state_other id i to.id db.instances n) ∙ e'))
      ]

  step-IsTraced : (db db' : Db D) → IsTraced db → Step db db' → IsTraced db'
  step-IsTraced db db' h (applied id code actor data_in hook to ran e) =
      let (inst, from, tr, to₁, d, e₁, e₂, _, _, _, _, _, e₃) =
        apply_transition_to-Applied guards actions id code actor data_in hook db e in
      subst IsTraced (ap (λ x. x.1) e₃)
        (committed-IsTraced id inst from to₁ tr actor data_in d db e₁ e₂ h)

  -- Whatever transitions are applied, to whatever instances, and whatever hooks run with them: where
  -- the log has a path of each instance to its current state, it has one afterwards.
  pub Reaches-IsTraced : (db db' : Db D) → IsTraced db → Reaches db db' → IsTraced db'
  Reaches-IsTraced db db' h start = h
  Reaches-IsTraced db db' h (step {db' = mid} r x) =
      step-IsTraced mid _ (Reaches-IsTraced db mid h r) x

  -- The instance is in a final state.
  abbrev pub IsIn : ℕ → Instance → State → Db D → Type 0
  IsIn i inst final db =
      (get_instance i db.instances ≡ some inst)
      × (get_state inst.current_state_id db.states ≡ some final)
      × (final.is_final ≡ true)

  -- An instance that moves is not one in a final state.
  ends_differ :
      (id i : ℕ) (db : Db D) (inst inst' : Instance) (from final : State)
      → get_instance id db.instances ≡ some inst
      → get_state inst.current_state_id db.states ≡ some from
      → from.is_final ≡ false
      → get_instance i db.instances ≡ some inst'
      → get_state inst'.current_state_id db.states ≡ some final
      → final.is_final ≡ true
      → id == i ≡ false
  ends_differ id i db inst inst' from final e₁ e₂ h₁ k₁ k₂ h₂ = elim (Bool-cases (id == i)) [
    | inl same ↦ let (eq_of, _) = ==_iff id i in let q = eq_of same in cc
    | inr n ↦ n
  ]

  committed-IsIn :
      (id i : ℕ) (inst inst' : Instance) (from to final : State) (tr : Transition) (actor : Actor)
      (data_in : Data) (d : D) (db : Db D)
      → get_instance id db.instances ≡ some inst
      → get_state inst.current_state_id db.states ≡ some from
      → from.is_final ≡ false
      → IsIn i inst' final db
      → IsIn i inst' final (committed inst tr from to actor data_in d db)
  committed-IsIn id i inst inst' from to final tr actor data_in d db e₁ e₂ open_state
        (k₁, k₂, is_final) =
      let own = get_instance-id id db.instances inst e₁ in
      let other = ends_differ id i db inst inst' from final e₁ e₂ open_state k₁ k₂ is_final in
      (
        ap (λ y. get_instance i (set_instance_state y to.id db.instances)) own
            ∙ get_instance-set_instance_state_other id i to.id db.instances other
            ∙ k₁,
        k₂,
        is_final,
      )

  step-IsIn :
      (i : ℕ) (inst : Instance) (final : State) (db db' : Db D)
      → IsIn i inst final db
      → Step db db'
      → IsIn i inst final db'
  step-IsIn i inst final db db' h (applied id code actor data_in hook to ran e) =
      let (inst₁, from, tr, to₁, d, e₁, e₂, open_state, _, _, _, _, e₃) =
        apply_transition_to-Applied guards actions id code actor data_in hook db e in
      subst (IsIn i inst final) (ap (λ x. x.1) e₃)
        (committed-IsIn id i inst₁ inst from to₁ final tr actor data_in d db e₁ e₂ open_state h)

  -- An instance in a final state keeps it, whatever transitions are applied.
  pub Reaches-IsIn :
      (i : ℕ) (inst : Instance) (final : State) (db db' : Db D)
      → IsIn i inst final db
      → Reaches db db'
      → IsIn i inst final db'
  Reaches-IsIn i inst final db db' h start = h
  Reaches-IsIn i inst final db db' h (step {db' = mid} r x) =
      step-IsIn i inst final mid _ (Reaches-IsIn i inst final db mid h r) x
