-- ===== src/PriceRules/Adjusted.antt =====
-- The sign of what `Apply` of internal/pricing/rules.go returns.
use teggo.Prelude.{
  ℕ, ◌≡◌, false, Option, some, List, arith, Bool-cases, Option-cases, inl, inr, str_eq,
}
use mathlib.Core.Option.{some-injective}
use teggo.Prelude.Text.{Text, codes}
use teggo.Money.Rat
use teggo.Money.Rat.{Rat, is_negative, zero_rat}
use teggo.Money.Decimal.{parse}
use teggo.Money.Amount.Order.{◌≼◌}
use teggo.Money.Amount.Sign.{zero-le-format, is_negative_of_ge}
use teggo.PriceRules.{Rule, Attributes, clamp, raise, adjust, first_match, apply}

clamp_nonneg : (r : Rat) → is_negative (clamp r) ≡ false
unfolding clamp
clamp_nonneg r = ground arith

adjust_nonneg :
    (base : Text) (base_r : Rat) (r : Rule) {t : Text}
    → codes "0" ≼ base
    → adjust base base_r r ≡ some t
    → codes "0" ≼ t
unfolding adjust
adjust_nonneg base base_r r {t} h e = elim (Option-cases (parse r.adjustment_value)) [
  | inl bad ↦ cc (rw bad at e)
  | inr (val, ok) ↦ elim (Bool-cases (str_eq r.adjustment_type "percent")) [
    | inl p ↦
        rw (← some-injective _ _ (rw (ok, p) at e))
          (zero-le-format _ (clamp_nonneg (raise base_r val)))
    | inr np ↦ elim (Bool-cases (str_eq r.adjustment_type "amount")) [
      | inl a ↦
          rw (← some-injective _ _ (rw (ok, np, a) at e))
            (zero-le-format _ (clamp_nonneg (Rat.add base_r val)))
      | inr na ↦ rw (← some-injective _ _ (rw (ok, np, na) at e)) h
    ]
  ]
]

-- A base price of zero or more is never adjusted below zero, whatever rules there are.
apply_nonneg :
    (base : Text) (attrs : Attributes) (group : Option ℕ) (rules : List Rule) {t : Text}
    → codes "0" ≼ base
    → apply base attrs group rules ≡ some t
    → codes "0" ≼ t
unfolding apply
apply_nonneg base attrs group rules {t} h e = elim (Option-cases (parse base)) [
  | inl bad ↦ rw (← some-injective _ _ (rw (bad, apply) at e)) h
  | inr (r, ok) ↦ elim (Option-cases (first_match attrs group rules)) [
    | inl no_rule ↦
        rw (← some-injective _ _ (rw (ok, no_rule, apply) at e))
          (zero-le-format r (is_negative_of_ge base r h ok))
    | inr (q, found) ↦ adjust_nonneg base r q h (rw (ok, found, apply) at e)
  ]
]
