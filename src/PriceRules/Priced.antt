-- ===== src/PriceRules/Priced.antt =====
-- What `Apply` of internal/pricing/rules.go returns, in terms of the rules and numbers.

use teggo.Prelude.{
  ℕ, ◌≡◌, ◌+◌, ◌*◌, ◌≤◌, ◌<◌, true, false, Option, none, some, List, ◌∷◌, ◌++◌, All, ◌⊎◌, String,
}
use teggo.Prelude.Int.{pos}
use teggo.Prelude.Text.{Text}
use teggo.Money.Rat
use teggo.Money.Rat.{Rat, over, den, is_negative, magnitude}
use teggo.Money.Decimal.{parse, format}
use teggo.Money.Amount.Exact.{Denotes}
use teggo.PriceRules.{Rule, Attributes, attribute}

-- A rule without a group is for every buyer.
abbrev pub OfGroup : Option ℕ → Option ℕ → Type 0
OfGroup none group = Unit
OfGroup (some wanted) group = group ≡ some wanted

-- A rule without an attribute is for every product; one without a value asks for an empty one.
abbrev pub OfAttribute : Option String → Option String → Attributes → Type 0
OfAttribute none value attrs = Unit
OfAttribute (some key) none attrs = attribute attrs key ≡ ""
OfAttribute (some key) (some value) attrs = attribute attrs key ≡ value

abbrev pub IsFor : Attributes → Option ℕ → Rule → Type 0
IsFor attrs group r =
    OfGroup r.customer_group_id group × OfAttribute r.attribute_key r.attribute_value attrs

-- A price nearest to a number in ten-thousandths, halves up, and zero for one below zero.
abbrev pub IsNearest : Rat → Text → Type 0
IsNearest q t =
    (u : ℕ) × Denotes t (pos u)
    × (((is_negative q ≡ true) × (u ≡ 0))
        ⊎ ((is_negative q ≡ false)
            × (2 * (u * den q) ≤ 2 * (magnitude q * 10_000) + den q)
            × (2 * (magnitude q * 10_000) < 2 * (u * den q) + den q)))

-- What the rule that decides makes of the base: `none` is the error.
pub data IsAdjusted (base : Text) (b : Rat) (r : Rule) : Option Text → Type 0 where
  no_number : parse r.adjustment_value ≡ none → IsAdjusted base b r none
  by_percent :
      (v : Rat) (t : Text)
      → r.adjustment_type ≡ "percent"
      → parse r.adjustment_value ≡ some v
      → IsNearest (Rat.mul b (Rat.add (over 1 0 1) (Rat.quo_ℕ v 100))) t
      → IsAdjusted base b r (some t)
  by_amount :
      (v : Rat) (t : Text)
      → r.adjustment_type ≡ "amount"
      → parse r.adjustment_value ≡ some v
      → IsNearest (Rat.add b v) t
      → IsAdjusted base b r (some t)
  of_other_type :
      (v : Rat)
      → ¬ (r.adjustment_type ≡ "percent")
      → ¬ (r.adjustment_type ≡ "amount")
      → parse r.adjustment_value ≡ some v
      → IsAdjusted base b r (some base)

pub data IsPriced (base : Text) (attrs : Attributes) (group : Option ℕ) (rules : List Rule)
    : Option Text → Type 0 where
  untouched : parse base ≡ none → IsPriced base attrs group rules (some base)
  without_rule :
      (b : Rat)
      → parse base ≡ some b
      → All (λ q. ¬ IsFor attrs group q) rules
      → IsPriced base attrs group rules (some (format b))
  by_rule :
      (b : Rat) (before rest : List Rule) (r : Rule) (out : Option Text)
      → parse base ≡ some b
      → rules ≡ before ++ (r ∷ rest)
      → All (λ q. ¬ IsFor attrs group q) before
      → IsFor attrs group r
      → IsAdjusted base b r out
      → IsPriced base attrs group rules out
