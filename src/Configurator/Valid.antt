-- ===== src/Configurator/Valid.antt =====
-- `Configure` and the constraints as propositions.
use teggo.Prelude.{
  ℕ, ◌≡◌, inl, inr, refl, sym, ◌∙◌, ap, true, Option, none, some, List, [], ◌∷◌, contains,
  occurrences, if◌then◌else◌, All, All-imp, Bool-cases,
}
use teggo.Prelude.Text.{Text}
use teggo.Money.Amount.{sum}
use teggo.Configurator.{
  Definition, Problem, all_options, find_option, is_known, unknown_errors, known_ids, group_errors,
  rule_errors, flat_map, parts, sort_ids, result, all_errors, priced, configure,
}
use teggo.Configurator.Once.{sort_ids-occurrences}
use teggo.Configurator.Constraints.{
  IsKnown, GroupHolds, RuleHolds, append-eq-nil, flat_map-eq-nil, flat_map-nil, group_errors-eq-nil,
  group_errors-nil, rule_errors-eq-nil, rule_errors-nil,
}

unknown_errors-eq-nil :
    (def : Definition) (ids : List ℕ)
    → unknown_errors (all_options def.groups) ids ≡ []
    → All (IsKnown def) ids × (known_ids (all_options def.groups) ids ≡ ids)
unfolding unknown_errors known_ids
unknown_errors-eq-nil def [] h = (tt, refl)
unknown_errors-eq-nil def (id ∷ ids) h =
    elim (Bool-cases (is_known (find_option id (all_options def.groups)))) [
      | inl known ↦
          let (rest, same) = unknown_errors-eq-nil def ids (rw known at h) in
          ((known, rest), rw known (ap (λ xs. id ∷ xs) same))
      | inr unknown ↦ cc (rw unknown at h)
    ]

unknown_errors-nil :
    (def : Definition) (ids : List ℕ)
    → All (IsKnown def) ids
    → (unknown_errors (all_options def.groups) ids ≡ [])
      × (known_ids (all_options def.groups) ids ≡ ids)
unfolding unknown_errors known_ids
unknown_errors-nil def [] h = (refl, refl)
unknown_errors-nil def (id ∷ ids) (known, rest) =
    let (none_unknown, same) = unknown_errors-nil def ids rest in
    (rw known none_unknown, rw known (ap (λ xs. id ∷ xs) same))

-- The ids are options of the product, and every group and every rule holds of them.
abbrev pub IsValid : Definition → List ℕ → Type 0
IsValid def ids =
    All (IsKnown def) ids × All (GroupHolds ids) def.groups × All (RuleHolds ids) def.rules

all_errors-eq-nil :
    (def : Definition) (ids : List ℕ)
    → all_errors def ids ≡ []
    → IsValid def ids × (known_ids (all_options def.groups) ids ≡ ids)
unfolding all_errors
all_errors-eq-nil def ids h =
    let options = all_options def.groups in
    let (unknown, rest) = append-eq-nil (unknown_errors options ids) _ h in
    let (known, same) = unknown_errors-eq-nil def ids unknown in
    let (groups, rules) =
      append-eq-nil (flat_map (group_errors (known_ids options ids)) def.groups) _ rest in
    (
      (
        known,
        All-imp def.groups
            (λ g e. group_errors-eq-nil ids g (ap (λ xs. group_errors xs g) (sym same) ∙ e))
            (flat_map-eq-nil (group_errors (known_ids options ids)) def.groups groups),
        All-imp def.rules
            (λ r e.
              rule_errors-eq-nil options ids r (ap (λ xs. rule_errors options xs r) (sym same) ∙ e))
            (flat_map-eq-nil (rule_errors options (known_ids options ids)) def.rules rules),
      ),
      same,
    )

all_errors-nil :
    (def : Definition) (ids : List ℕ)
    → IsValid def ids
    → (all_errors def ids ≡ []) × (known_ids (all_options def.groups) ids ≡ ids)
unfolding all_errors
all_errors-nil def ids (known, groups, rules) =
    let options = all_options def.groups in
    let (unknown, same) = unknown_errors-nil def ids known in
    (
      rw
          (
            same,
            unknown,
            flat_map-nil (group_errors ids) def.groups
                (All-imp def.groups (λ g h. group_errors-nil ids g h) groups),
            flat_map-nil (rule_errors options ids) def.rules
                (All-imp def.rules (λ r h. rule_errors-nil options ids r h) rules),
          )
          refl,
      same,
    )

priced-valid :
    (def : Definition) (ids : List ℕ) (es : List Problem) (o : Option Text)
    → (priced def ids es o).valid ≡ true
    → (es ≡ []) × (o ≡ some (priced def ids es o).unit_price)
priced-valid def ids (e ∷ es) o h = cc
priced-valid def ids [] none h = cc
priced-valid def ids [] (some total) h = (refl, refl)

-- A configuration that is reported valid is one: the ids chosen are options of the product, each
-- group has as many of its options chosen as it requires and at most as many as it allows, and no
-- rule is broken. Its unit price is the sum of the base price and the price deltas of the options
-- with the sorted ids, among which each chosen id stands once and no other does.
pub configure_sound :
    (def : Definition) (ids : List ℕ)
    → (configure def ids).valid ≡ true
    → IsValid def ids
      × (sum (parts def ids) ≡ some (configure def ids).unit_price)
      × ((id : ℕ) → occurrences id (sort_ids ids) ≡ (if contains ids id then 1 else 0))
unfolding configure
configure_sound def ids h =
    let (no_errors, price) = priced-valid def _ _ _ h in
    let (ok, same) = all_errors-eq-nil def ids no_errors in
    (ok, ap (λ xs. sum (parts def xs)) (sym same) ∙ price, λ id. sort_ids-occurrences id ids)

-- A configuration that keeps every constraint, and whose prices are decimals, is reported valid and
-- without errors, at the sum of its prices.
pub configure_complete :
    (def : Definition) (ids : List ℕ) (total : Text)
    → IsValid def ids
    → sum (parts def ids) ≡ some total
    → configure def ids ≡ result def ids [] true total
unfolding configure
configure_complete def ids total h e =
    let (no_errors, same) = all_errors-nil def ids h in rw (same, no_errors, e) refl
