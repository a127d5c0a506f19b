-- ===== src/Workflow/Rows.antt =====
-- The queries and the update that `ApplyTransitionTo` makes.
use teggo.Prelude.{
  ℕ, Bool, true, false, ◌&&◌, ◌≡◌, refl, ap, Option, none, some, List, [], ◌∷◌, ◌==◌, if◌then◌else◌,
  String, Memᴰ, str_eq_iff, inl, inr, ◌⊎◌, arith,
}
use mathlib.Core.Path.{subst}
use teggo.Workflow.{
  State, Transition, Instance, has_code, get_state, get_instance, set_instance_state, admits,
  earlier, first_of, get_transition_to_state,
}

pub get_instance-id :
    (id : ℕ) (is : List Instance) (i : Instance) → get_instance id is ≡ some i → i.id ≡ id
unfolding get_instance
get_instance-id id [] i e = cc
get_instance-id id (x ∷ is) i e = ground (arith, get_instance-id id is i)

pub get_state-id : (id : ℕ) (ss : List State) (s : State) → get_state id ss ≡ some s → s.id ≡ id
unfolding get_state
get_state-id id [] s e = cc
get_state-id id (x ∷ ss) s e = ground (arith, get_state-id id ss s)

-- An update changes the instance with the id, and no other.
pub get_instance-set_instance_state :
    (id st : ℕ) (is : List Instance) (i : Instance)
    → get_instance id is ≡ some i
    → get_instance id (set_instance_state id st is) ≡ some (record i { current_state_id = st })
unfolding get_instance set_instance_state
get_instance-set_instance_state id st [] i e = cc
get_instance-set_instance_state id st (x ∷ is) i e =
    ground (arith, get_instance-set_instance_state id st is i)

pub get_instance-set_instance_state_other :
    (id id' st : ℕ) (is : List Instance)
    → id == id' ≡ false
    → get_instance id' (set_instance_state id st is) ≡ get_instance id' is
unfolding get_instance set_instance_state
get_instance-set_instance_state_other id id' st [] n = refl
get_instance-set_instance_state_other id id' st (x ∷ is) n =
    ground (arith, get_instance-set_instance_state_other id id' st is)

some_inj : {x y : Transition} → some x ≡ some y → x ≡ y
some_inj e = cc

chosen :
    (b : Bool) (x r t : Transition)
    → (if b then some r else some x) ≡ some t
    → (x ≡ t) ⊎ (some r ≡ some t)
chosen true x r t e = inr e
chosen false x r t e = inl (some_inj e)

taken :
    (b : Bool) (x : Transition) (rest : Option Transition) (t : Transition)
    → (if b then first_of x rest else rest) ≡ some t
    → ((b ≡ true) × (x ≡ t)) ⊎ (rest ≡ some t)
taken false x rest t e = inr e
taken true x none t e = inl (refl, some_inj e)
taken true x (some r) t e = elim (chosen (earlier r x) x r t e) [
  | inl h ↦ inl (refl, h)
  | inr h ↦ inr h
]

pub get_transition_to_state-admits :
    (def : ℕ) (code : String) (current : ℕ) (states : List State) (ts : List Transition)
    (t : Transition)
    → get_transition_to_state def code current states ts ≡ some t
    → Memᴰ t ts × (admits def code current states t ≡ true)
unfolding get_transition_to_state
get_transition_to_state-admits def code current states [] t e = cc
get_transition_to_state-admits def code current states (x ∷ ts) t e =
    elim (taken (admits def code current states x) x _ t e) [
      | inl (b, same) ↦
          subst (λ y. Memᴰ y (x ∷ ts) × (admits def code current states y ≡ true)) same
            (Memᴰ.head refl, b)
      | inr e' ↦
          let (m, b) = get_transition_to_state-admits def code current states ts t e' in
          (Memᴰ.tail m, b)
    ]

pub and_split : (a b : Bool) → a && b ≡ true → (a ≡ true) × (b ≡ true)
and_split true b h = (refl, h)
and_split false b h = cc

pub code_of :
    (code : String) (o : Option State) (s : State)
    → o ≡ some s
    → has_code code o ≡ true
    → s.code ≡ code
code_of code o s e h =
    let (same, _) = str_eq_iff s.code code in same (rw (← ap (has_code code) e) h)
