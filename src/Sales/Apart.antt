-- ===== src/Sales/Apart.antt =====
-- Instances that differ in their ids and entities, as the keys of workflow_instances have it.
use mathlib.Core.Option.{some-injective}
use mathlib.Core.Path.{subst}
use teggo.Prelude.{
  ◌≡◌, sym, ◌∙◌, ap, ℕ, Bool, true, false, none, some, List, [], ◌∷◌, All, All-imp, Bool-cases, inl,
  inr, ◌⊎◌, arith, ◌==◌, ==_iff, String, str_eq_iff,
}
use teggo.Workflow.{Instance, get_instance, set_instance_state}
use teggo.Workflow.Guards.{is_of, get_instance_for_entity}

abbrev pub is_same : Instance → Instance → Bool
is_same i j = is_of i.definition_id i.entity_type i.entity_id j

-- No two instances share an id, or an entity of a definition.
unfoldable pub AreApart : List Instance → Type 0
AreApart [] = Unit
AreApart (i ∷ is) = All (λ j. ((j.id == i.id) ≡ false) × (is_same i j ≡ false)) is × AreApart is

-- An instance beside the one with the id: that one, or another with another entity.
abbrev pub IsBeside : Instance → Instance → Type 0
IsBeside i j =
    (((j.id == i.id) ≡ true) × (j ≡ i)) ⊎ (((j.id == i.id) ≡ false) × (is_same i j ≡ false))

is_same_comm : (i j : Instance) → is_same i j ≡ false → is_same j i ≡ false
is_same_comm i j h =
    ground
      (arith, h, str_eq_iff i.entity_type j.entity_type, str_eq_iff j.entity_type i.entity_type)

pub All-get_instance :
    (P : Instance → Type 0) (id : ℕ) (is : List Instance) (i : Instance)
    → All P is
    → get_instance id is ≡ some i
    → P i
unfolding get_instance
All-get_instance P id [] i h e = absurd (ground arith)
All-get_instance P id (x ∷ xs) i (h, hs) e = elim (Bool-cases (x.id == id)) [
  | inl own ↦ subst P (some-injective _ _ (rw own at e)) h
  | inr other ↦ All-get_instance P id xs i hs (rw other at e)
]

pub AreApart-IsBeside :
    (id : ℕ) (is : List Instance) (i : Instance)
    → AreApart is
    → get_instance id is ≡ some i
    → All (IsBeside i) is
unfolding AreApart get_instance
AreApart-IsBeside id [] i a e = tt
AreApart-IsBeside id (x ∷ xs) i (a, as') e = elim (Bool-cases (x.id == id)) [
  | inl own ↦
      let same : x ≡ i = some-injective _ _ (rw own at e) in
      (
        inl ((==_iff x.id i.id).1 (ap (λ y. y.id) same), same),
        All-imp xs (λ j h. inr h)
            (subst (λ y. All (λ j. ((j.id == y.id) ≡ false) × (is_same y j ≡ false)) xs) same a),
      )
  | inr other ↦
      let e' = rw other at e in
      let (n, d) =
        All-get_instance (λ j. ((j.id == x.id) ≡ false) × (is_same x j ≡ false)) id xs i a e' in
      (inr (ground (arith, n), is_same_comm x i d), AreApart-IsBeside id xs i as' e')
]

-- The state of an instance is not part of its keys.
apart-set_instance_state :
    (i : Instance) (id st : ℕ) (is : List Instance)
    → All (λ j. ((j.id == i.id) ≡ false) × (is_same i j ≡ false)) is
    → All (λ j. ((j.id == i.id) ≡ false) × (is_same i j ≡ false)) (set_instance_state id st is)
unfolding set_instance_state
apart-set_instance_state i id st [] h = tt
apart-set_instance_state i id st (x ∷ xs) (h, hs) = elim (Bool-cases (x.id == id)) [
  | inl own ↦ rw own (h, apart-set_instance_state i id st xs hs)
  | inr other ↦ rw other (h, apart-set_instance_state i id st xs hs)
]

pub AreApart-set_instance_state :
    (id st : ℕ) (is : List Instance) → AreApart is → AreApart (set_instance_state id st is)
unfolding AreApart set_instance_state
AreApart-set_instance_state id st [] a = tt
AreApart-set_instance_state id st (x ∷ xs) (h, a) = elim (Bool-cases (x.id == id)) [
  | inl own ↦ rw own (apart-set_instance_state x id st xs h, AreApart-set_instance_state id st xs a)
  | inr other ↦
      rw other (apart-set_instance_state x id st xs h, AreApart-set_instance_state id st xs a)
]

-- The instance of an entity is the one with its id.
pub get_instance-for_entity :
    (def : ℕ) (kind : String) (entity : ℕ) (is : List Instance) (i : Instance)
    → AreApart is
    → get_instance_for_entity def kind entity is ≡ some i
    → (get_instance i.id is ≡ some i) × (is_of def kind entity i ≡ true)
unfolding AreApart get_instance get_instance_for_entity
get_instance-for_entity def kind entity [] i a e = absurd (ground arith)
get_instance-for_entity def kind entity (x ∷ xs) i (h, a) e =
    elim (Bool-cases (is_of def kind entity x)) [
      | inl own ↦
          let same : x ≡ i = some-injective _ _ (rw own at e) in
          let key : x.id == i.id ≡ true = (==_iff x.id i.id).1 (ap (λ y. y.id) same) in
          (rw key (ap some same), ap (is_of def kind entity) (sym same) ∙ own)
      | inr other ↦
          let (k, b) = get_instance-for_entity def kind entity xs i a (rw other at e) in
          let (n, _) =
            All-get_instance (λ j. ((j.id == x.id) ≡ false) × (is_same x j ≡ false)) i.id xs i h
              k in
          let n' : x.id == i.id ≡ false = ground (arith, n) in (rw n' k, b)
    ]

-- Where no instance is found, none is of the entity.
pub get_instance_for_entity-none :
    (def : ℕ) (kind : String) (entity : ℕ) (is : List Instance)
    → get_instance_for_entity def kind entity is ≡ none
    → All (λ j. is_of def kind entity j ≡ false) is
unfolding get_instance_for_entity
get_instance_for_entity-none def kind entity [] e = tt
get_instance_for_entity-none def kind entity (x ∷ xs) e =
    elim (Bool-cases (is_of def kind entity x)) [
      | inl own ↦ cc (rw own at e)
      | inr other ↦ (other, get_instance_for_entity-none def kind entity xs (rw other at e))
    ]
