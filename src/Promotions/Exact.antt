-- ===== src/Promotions/Exact.antt =====
-- The discounts of internal/promotions/engine.go as whole numbers of ten-thousandths.
use mathlib.Core.Option.{some-injective}
use mathlib.Core.Path.{subst}
use teggo.Prelude.{
  ◌≡◌, sym, ◌∙◌, ap, ℕ, some, List, [], ◌∷◌, Option-cases, Bool-cases, inl, inr, arith, str_eq,
  Ordering,
}
use teggo.Prelude.Text.{Text, codes}
use teggo.Prelude.Int.{ℤ, pos, ◌≤ℤ◌}
use teggo.Money.Rat
use teggo.Money.Decimal.{parse}
use teggo.Money.Amount
use teggo.Money.Amount.{sum, percent, cmp, or_equal}
use teggo.Money.Amount.Exact.{format-Denotes, zero-Denotes, compare_ℤ, cmp-Denotes}
use teggo.Money.Amount.Sums.{amount_of, IsExact, Denotes-IsExact}
use teggo.Money.Amount.Order.{not-le_of_cmp}
use teggo.Promotions.{Candidate, evaluate, discount_for, capped, or_nothing, is_gt}
use teggo.Promotions.Evaluate.{evaluate_sound}

zero-IsExact : IsExact (codes "0")
zero-IsExact = Denotes-IsExact (codes "0") (pos 0) zero-Denotes

percent-IsExact : (a p : Text) → IsExact (or_nothing (percent a p))
unfolding percent
percent-IsExact a p = elim (Option-cases (parse a)) [
  | inl bad ↦ rw bad zero-IsExact
  | inr (r, ea) ↦ elim (Option-cases (parse p)) [
    | inl bad ↦ rw (ea, bad) zero-IsExact
    | inr (s, eb) ↦ rw (ea, eb) (Denotes-IsExact _ _ (format-Denotes (Rat.quo_ℕ (Rat.mul r s) 100)))
  ]
]

sum-IsExact_one : (a : Text) → IsExact (or_nothing (sum (a ∷ [])))
unfolding sum Amount.add_all
sum-IsExact_one a = elim (Option-cases (parse a)) [
  | inl bad ↦ rw bad zero-IsExact
  | inr (r, ea) ↦ rw ea (Denotes-IsExact _ _ (format-Denotes (Rat.add Rat.zero_rat r)))
]

discount_for-IsExact : (c : Candidate) (subtotal : Text) → IsExact (discount_for c subtotal)
unfolding discount_for
discount_for-IsExact c subtotal = elim (Bool-cases (str_eq c.discount_type "percent")) [
  | inl by_rate ↦ rw by_rate (percent-IsExact subtotal c.discount_value)
  | inr no_rate ↦ elim (Bool-cases (str_eq c.discount_type "amount")) [
    | inl fixed ↦ rw (no_rate, fixed) (sum-IsExact_one c.discount_value)
    | inr neither ↦ rw (no_rate, neither) zero-IsExact
  ]
]

capped-IsExact : (d subtotal : Text) → IsExact d → IsExact subtotal → IsExact (capped d subtotal)
unfolding capped
capped-IsExact d subtotal x y = elim (Bool-cases (is_gt (or_equal (cmp d subtotal)))) [
  | inl over ↦ rw over y
  | inr within ↦ rw within x
]

le_of_not_gt : (a b : ℤ) → (compare_ℤ a b ≡ Ordering.gt → ⊥) → a ≤ℤ b
le_of_not_gt a b h = ground (arith, h)

positive : (a : ℤ) → compare_ℤ a (pos 0) ≡ Ordering.gt → pos 0 ≤ℤ a
positive a h = ground (arith, h)

-- On an exact subtotal, the discount of the promotion chosen is exact, not negative and at most the
-- subtotal.
pub evaluate-amount_of :
    (subtotal code : Text) (now : ℕ) (cs : List Candidate) (b : Candidate)
    → IsExact subtotal
    → (evaluate subtotal code now cs).promotion ≡ some b
    → let disc = (evaluate subtotal code now cs).discount in
      IsExact disc × (pos 0 ≤ℤ amount_of disc) × (amount_of disc ≤ℤ amount_of subtotal)
evaluate-amount_of subtotal code now cs b (r, e, u) chosen =
    let (_, _, same, within, gain) = evaluate_sound subtotal code now cs (r, e) b chosen in
    let disc = (evaluate subtotal code now cs).discount in
    let exact : IsExact disc = subst IsExact (sym same) (
      capped-IsExact (discount_for b subtotal) subtotal (discount_for-IsExact b subtotal)
        (r, e, u)) in
    let against = cmp-Denotes disc subtotal (amount_of disc) (amount_of subtotal) exact (r, e, u) in
    let above = cmp-Denotes disc (codes "0") (amount_of disc) (pos 0) exact zero-Denotes in
    (
      exact,
      positive (amount_of disc) (some-injective _ _ (sym above ∙ gain)),
      le_of_not_gt (amount_of disc) (amount_of subtotal)
          (λ gt. not-le_of_cmp disc subtotal (against ∙ ap some gt) within),
    )
