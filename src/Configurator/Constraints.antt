-- ===== src/Configurator/Constraints.antt =====
-- The groups and rules of a product, and the errors that report them broken.
use teggo.Prelude.{
  ℕ, ◌≡◌, ◌⊎◌, inl, inr, refl, sym, Bool, true, false, not, ◌&&◌, List, [], ◌∷◌, ◌++◌, contains,
  if◌then◌else◌, String, str_eq, str_eq_iff, All, arith,
}
use mathlib.Core.Path.{subst}
use teggo.Prelude.Int.{ℤ, pos, ltb_ℤ, ◌≤ℤ◌}
use teggo.Configurator.{
  Choice, Group, Rule, Definition, Problem, all_options, find_option, is_known, count_selected,
  error_if, group_errors, rule_errors, flat_map,
}

abbrev pub IsKnown : Definition → ℕ → Type 0
IsKnown def id = is_known (find_option id (all_options def.groups)) ≡ true

-- As many options of the group are selected as it asks for, and no more than it allows.
abbrev pub GroupHolds : List ℕ → Group → Type 0
GroupHolds ids g =
    (g.min_select ≤ℤ pos (count_selected ids g.options))
    × (g.required ≡ true → pos 1 ≤ℤ pos (count_selected ids g.options))
    × ((g.max_select ≤ℤ pos 0) ⊎ (pos (count_selected ids g.options) ≤ℤ g.max_select))

abbrev pub RuleHolds : List ℕ → Rule → Type 0
RuleHolds ids r =
    (str_eq r.kind "requires" ≡ true
      → contains ids r.option_id ≡ true
      → contains ids r.related_option_id ≡ true)
    × (str_eq r.kind "excludes" ≡ true
        → contains ids r.option_id ≡ true
        → contains ids r.related_option_id ≡ false)

pub append-eq-nil : {A : Type 0} (xs ys : List A) → xs ++ ys ≡ [] → (xs ≡ []) × (ys ≡ [])
append-eq-nil [] ys h = (refl, h)
append-eq-nil (x ∷ xs) ys h = cc

pub flat_map-eq-nil :
    {A : Type 0} (f : A → List Problem) (xs : List A) → flat_map f xs ≡ [] → All (λ x. f x ≡ []) xs
unfolding flat_map
flat_map-eq-nil f [] h = tt
flat_map-eq-nil f (x ∷ xs) h =
    let (e, rest) = append-eq-nil (f x) (flat_map f xs) h in (e, flat_map-eq-nil f xs rest)

pub flat_map-nil :
    {A : Type 0} (f : A → List Problem) (xs : List A) → All (λ x. f x ≡ []) xs → flat_map f xs ≡ []
unfolding flat_map
flat_map-nil f [] h = refl
flat_map-nil f (x ∷ xs) (e, rest) = rw (e, flat_map-nil f xs rest) refl

error_if-eq-nil : (b : Bool) (e : Problem) → error_if b e ≡ [] → b ≡ false
error_if-eq-nil true e h = cc
error_if-eq-nil false e h = refl

enough :
    (required : Bool) (least : ℤ) (c : ℕ)
    → ltb_ℤ (pos c) (if required && ltb_ℤ least (pos 1) then pos 1 else least) ≡ false
    → (least ≤ℤ pos c) × (required ≡ true → pos 1 ≤ℤ pos c)
enough true least c h = ground arith
enough false least c h = ground arith

not_too_few :
    (required : Bool) (least : ℤ) (c : ℕ)
    → least ≤ℤ pos c
    → (required ≡ true → pos 1 ≤ℤ pos c)
    → ltb_ℤ (pos c) (if required && ltb_ℤ least (pos 1) then pos 1 else least) ≡ false
not_too_few true least c h k = let one = k refl in ground arith
not_too_few false least c h k = ground arith

not_too_many :
    (most : ℤ) (c : ℕ)
    → ltb_ℤ (pos 0) most && ltb_ℤ most (pos c) ≡ false
    → (most ≤ℤ pos 0) ⊎ (pos c ≤ℤ most)
not_too_many most c h = ground arith

within_most :
    (most : ℤ) (c : ℕ)
    → (most ≤ℤ pos 0) ⊎ (pos c ≤ℤ most)
    → ltb_ℤ (pos 0) most && ltb_ℤ most (pos c) ≡ false
within_most most c (inl h) = ground arith
within_most most c (inr h) = ground arith

pub group_errors-eq-nil : (ids : List ℕ) (g : Group) → group_errors ids g ≡ [] → GroupHolds ids g
unfolding group_errors
group_errors-eq-nil ids g h =
    let (few, many) = append-eq-nil _ _ h in
    let few' = error_if-eq-nil _ _ few in
    let many' = error_if-eq-nil _ _ many in
    let c = count_selected ids g.options in
    let (least, required) = enough g.required g.min_select c few' in
    (least, required, not_too_many g.max_select c many')

pub group_errors-nil : (ids : List ℕ) (g : Group) → GroupHolds ids g → group_errors ids g ≡ []
unfolding group_errors
group_errors-nil ids g (least, required, most) =
    let c = count_selected ids g.options in
    rw (not_too_few g.required g.min_select c least required, within_most g.max_select c most) refl

one_kind : (kind : String) → str_eq kind "excludes" ≡ true → str_eq kind "requires" ≡ false
one_kind kind e =
    let (same, _) = str_eq_iff kind "excludes" in
    subst (λ k. str_eq k "requires" ≡ false) (sym (same e)) refl

implied : (a b : Bool) (e : Problem) → error_if (a && not b) e ≡ [] → a ≡ true → b ≡ true
implied true true e h k = refl
implied true false e h k = cc
implied false b e h k = cc

apart : (a b : Bool) (e : Problem) → error_if (a && b) e ≡ [] → a ≡ true → b ≡ false
apart true true e h k = cc
apart true false e h k = refl
apart false b e h k = cc

no_gap : (a b : Bool) (e : Problem) → (a ≡ true → b ≡ true) → error_if (a && not b) e ≡ []
no_gap true b e h = rw (h refl) refl
no_gap false b e h = refl

no_clash : (a b : Bool) (e : Problem) → (a ≡ true → b ≡ false) → error_if (a && b) e ≡ []
no_clash true b e h = rw (h refl) refl
no_clash false b e h = refl

kept_rule :
    (q x a b : Bool) (e e' : Problem)
    → (x ≡ true → q ≡ false)
    → (if q then error_if (a && not b) e else if x then error_if (a && b) e' else []) ≡ []
    → (q ≡ true → a ≡ true → b ≡ true) × (x ≡ true → a ≡ true → b ≡ false)
kept_rule true true a b e e' one h = cc (one refl)
kept_rule true false a b e e' one h = (λ _. implied a b e h, λ z _. cc)
kept_rule false true a b e e' one h = (λ z _. cc, λ _. apart a b e' h)
kept_rule false false a b e e' one h = (λ z _. cc, λ z _. cc)

rule_kept :
    (q x a b : Bool) (e e' : Problem)
    → (q ≡ true → a ≡ true → b ≡ true)
    → (x ≡ true → a ≡ true → b ≡ false)
    → (if q then error_if (a && not b) e else if x then error_if (a && b) e' else []) ≡ []
rule_kept true x a b e e' h k = no_gap a b e (h refl)
rule_kept false true a b e e' h k = no_clash a b e' (k refl)
rule_kept false false a b e e' h k = refl

pub rule_errors-eq-nil :
    (options : List Choice) (ids : List ℕ) (r : Rule)
    → rule_errors options ids r ≡ []
    → RuleHolds ids r
unfolding rule_errors
rule_errors-eq-nil options ids r h =
    kept_rule (str_eq r.kind "requires") (str_eq r.kind "excludes") (contains ids r.option_id)
      (contains ids r.related_option_id) _ _ (one_kind r.kind) h

pub rule_errors-nil :
    (options : List Choice) (ids : List ℕ) (r : Rule)
    → RuleHolds ids r
    → rule_errors options ids r ≡ []
unfolding rule_errors
rule_errors-nil options ids r (req, exc) =
    rule_kept (str_eq r.kind "requires") (str_eq r.kind "excludes") (contains ids r.option_id)
      (contains ids r.related_option_id) _ _ req exc
