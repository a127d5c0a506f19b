-- ===== src/PriceRules.antt =====
-- internal/pricing/rules.go: a resolved base price is adjusted by the first matching rule.
pub mod Adjusted
pub mod Priced
pub mod Tests
use teggo.Prelude.{
  ℕ, Bool, true, false, ◌&&◌, Option, none, some, List, [], ◌∷◌, String, ltb, str_eq, ◌==◌,
  if◌then◌else◌, ◌>>=◌,
}
use teggo.Prelude.Int.{ℤ}
use teggo.Prelude.Text.{Text}
use teggo.Money.Rat
use teggo.Money.Rat.{Rat, over, zero_rat, is_negative}
use teggo.Money.Decimal.{parse, format}

-- `Rule`; `none` is a nil pointer.
pub record Rule : Type 0 where
  pub customer_group_id : Option ℕ
  pub attribute_key : Option String
  pub attribute_value : Option String
  pub adjustment_type : String
  pub adjustment_value : Text
  pub priority : ℤ

-- A product's attributes, `map[string]string`; a missing key reads as the empty string.
abbrev pub Attributes : Type 0
Attributes = List (String × String)

unfoldable pub attribute : Attributes → String → String
attribute [] key = ""
attribute ((k, v) ∷ rest) key = if str_eq key k then v else attribute rest key

deref : Option String → String
deref none = ""
deref (some s) = s

group_matches : Option ℕ → Option ℕ → Bool
group_matches none group = true
group_matches (some wanted) none = false
group_matches (some wanted) (some group) = group == wanted

attribute_matches : Option String → Option String → Attributes → Bool
unfolding deref attribute
attribute_matches none value attrs = true
attribute_matches (some key) value attrs = str_eq (attribute attrs key) (deref value)

-- `Matches`
unfoldable pub matches : Rule → Attributes → Option ℕ → Bool
unfolding group_matches attribute_matches
matches r attrs group =
    group_matches r.customer_group_id group
    && attribute_matches r.attribute_key r.attribute_value attrs

clamp : Rat → Rat
clamp r = if is_negative r then zero_rat else r

-- base * (1 + val / 100)
raise : Rat → Rat → Rat
raise base val = Rat.mul base (Rat.add (over 1 0 1) (Rat.quo_ℕ val 100))

-- The switch on the adjustment type.
adjusted : Text → String → Rat → Rat → Option Text
unfolding clamp raise
adjusted base kind base_r val =
    if str_eq kind "percent"
    then some (format (clamp (raise base_r val)))
    else if str_eq kind "amount"
    then some (format (clamp (Rat.add base_r val)))
    else some base

-- The body of the loop in `Apply` after a match.
unfoldable pub adjust : Text → Rat → Rule → Option Text
unfolding adjusted
adjust base base_r r = do val ← parse r.adjustment_value; adjusted base r.adjustment_type base_r val

unfoldable pub first_match : Attributes → Option ℕ → List Rule → Option Rule
first_match attrs group [] = none
first_match attrs group (r ∷ rules) =
    if matches r attrs group then some r else first_match attrs group rules

-- `Apply`; the outer `none` is the error.
unfoldable pub apply : Text → Attributes → Option ℕ → List Rule → Option Text
apply base attrs group rules = elim (parse base) [
  | none ↦ some base
  | some base_r ↦ elim (first_match attrs group rules) [
    | none ↦ some (format base_r)
    | some r ↦ adjust base base_r r
  ]
]
