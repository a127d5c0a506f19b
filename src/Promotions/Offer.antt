-- ===== src/Promotions/Offer.antt =====
-- What one candidate offers: the body of the loop of `Evaluate`.
use mathlib.Core.Option.{some-injective}
use teggo.Money.Amount
use teggo.Prelude.{
  sym, ℕ, ◌≡◌, refl, true, Option, none, some, [], ◌∷◌, Ordering, arith, Bool-cases, Option-cases,
  inl, inr, str_eq,
}
use teggo.Prelude.Text.{Text, codes}
use teggo.Money.Rat.{zero_rat}
use teggo.Money.Decimal.{parse}
use teggo.Money.Decimal.RoundTrip.{parse-format}
use teggo.Money.Amount.{cmp, percent, sum, or_equal}
use teggo.Money.Amount.Order.{IsDecimal, ◌≼◌, ≼_refl, cmp-IsDecimal, le_of_cmp}
use teggo.Promotions.{Candidate, eligible, discount_for, capped, offer, or_nothing, is_gt}

zero-IsDecimal : IsDecimal (codes "0")
unfolding parse
zero-IsDecimal = (zero_rat, refl)

percent-IsDecimal : (a p : Text) → IsDecimal (or_nothing (percent a p))
unfolding percent
percent-IsDecimal a p = elim (Option-cases (parse a)) [
  | inl bad ↦ rw bad zero-IsDecimal
  | inr (r, ea) ↦ elim (Option-cases (parse p)) [
    | inl bad ↦ rw (ea, bad) zero-IsDecimal
    | inr (s, eb) ↦ rw (ea, eb) (_, parse-format _)
  ]
]

sum-IsDecimal : (a : Text) → IsDecimal (or_nothing (sum (a ∷ [])))
unfolding sum Amount.add_all
sum-IsDecimal a = elim (Option-cases (parse a)) [
  | inl bad ↦ rw bad zero-IsDecimal
  | inr (r, ea) ↦ rw ea (_, parse-format _)
]

discount_for-IsDecimal : (c : Candidate) (subtotal : Text) → IsDecimal (discount_for c subtotal)
unfolding discount_for
discount_for-IsDecimal c subtotal = elim (Bool-cases (str_eq c.discount_type "percent")) [
  | inl by_rate ↦ rw by_rate (percent-IsDecimal subtotal c.discount_value)
  | inr no_rate ↦ elim (Bool-cases (str_eq c.discount_type "amount")) [
    | inl fixed ↦ rw (no_rate, fixed) (sum-IsDecimal c.discount_value)
    | inr neither ↦ rw (no_rate, neither) zero-IsDecimal
  ]
]

capped-le :
    (disc subtotal : Text) → IsDecimal disc → IsDecimal subtotal → capped disc subtotal ≼ subtotal
unfolding capped
capped-le disc subtotal d s =
    let (o, e) = cmp-IsDecimal disc subtotal d s in
    elim (Bool-cases (is_gt o)) [
      | inl over ↦ rw (e, over) (≼_refl subtotal s)
      | inr within ↦ rw (e, within) (le_of_cmp disc subtotal o e (ground arith))
    ]

pub is_gt_lem : (o : Option Ordering) → is_gt (or_equal o) ≡ true → o ≡ some Ordering.gt
is_gt_lem none h = cc
is_gt_lem (some Ordering.gt) h = refl
is_gt_lem (some Ordering.eq) h = cc
is_gt_lem (some Ordering.lt) h = cc

-- An offer comes from an eligible candidate, lies within the subtotal, and is above zero.
pub offer_sound :
    (subtotal entered : Text) (now : ℕ) (c : Candidate) {disc : Text}
    → IsDecimal subtotal
    → offer subtotal entered now c ≡ some disc
    → (eligible c subtotal entered now ≡ true)
      × (disc ≡ capped (discount_for c subtotal) subtotal)
      × (disc ≼ subtotal)
      × (cmp disc (codes "0") ≡ some Ordering.gt)
unfolding offer
offer_sound subtotal entered now c {disc} s h =
    let whole = capped (discount_for c subtotal) subtotal in
    let fits = capped-le (discount_for c subtotal) subtotal (discount_for-IsDecimal c subtotal) s in
    elim (Bool-cases (eligible c subtotal entered now)) [
      | inr out ↦ cc (rw out at h)
      | inl fit ↦ elim (Bool-cases (is_gt (or_equal (cmp whole (codes "0"))))) [
        | inr nothing ↦ cc (rw (fit, nothing) at h)
        | inl gain ↦
            let same : whole ≡ disc = some-injective _ _ (rw (fit, gain) at h) in
            (fit, sym same, rw (← same) fits, rw (← same) (is_gt_lem _ gain))
      ]
    ]
