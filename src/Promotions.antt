-- ===== src/Promotions.antt =====
-- internal/promotions/engine.go: which single promotion a cart gets, and for how much.
pub mod Offer
pub mod Choice
pub mod Evaluate
pub mod Exact
pub mod Tests
use teggo.Prelude.{
  ℕ, Bool, true, false, not, ◌&&◌, Option, none, some, List, [], ◌∷◌, String, Ordering, ltb, str_eq,
  if◌then◌else◌, ◌==◌,
}
use teggo.Prelude.Int.{ℤ, ltb_ℤ}
use teggo.Prelude.Text.{Text, codes, text_eq, trim_space, to_lower}
use teggo.Money.Decimal.{parse}
use teggo.Money.Amount.{cmp, percent, sum, or_equal}

-- `Candidate`. Times are instants; the 32-bit counters are only compared.
pub record Candidate : Type 0 where
  pub id : ℕ
  pub name : String
  pub code : Option Text
  pub discount_type : String
  pub discount_value : Text
  pub min_subtotal : Option Text
  pub starts_at : Option ℕ
  pub ends_at : Option ℕ
  pub max_redemptions : Option ℤ
  pub times_redeemed : ℤ
  pub priority : ℤ

-- `Result`
pub record Result : Type 0 where
  pub promotion : Option Candidate
  pub discount : Text
  pub label : String

abbrev pub is_gt : Ordering → Bool
is_gt Ordering.gt = true
is_gt _ = false

-- The coupon code gate.
code_admits : Option Text → Text → Bool
code_admits none entered = true
code_admits (some code) entered =
    not (text_eq entered []) && text_eq entered (to_lower (trim_space code))

-- The schedule window.
has_started : Option ℕ → ℕ → Bool
has_started none now = true
has_started (some at) now = not (ltb now at)

has_not_ended : Option ℕ → ℕ → Bool
has_not_ended none now = true
has_not_ended (some at) now = not (ltb at now)

-- The global redemption cap.
below_cap : Option ℤ → ℤ → Bool
below_cap none redeemed = true
below_cap (some cap) redeemed = ltb_ℤ redeemed cap

-- The minimum subtotal; a threshold that is no decimal refuses.
reaches_minimum : Option Text → Text → Bool
reaches_minimum none subtotal = true
reaches_minimum (some least) subtotal = elim (cmp subtotal least) [
  | none ↦ false
  | some Ordering.lt ↦ false
  | some _ ↦ true
]

-- `eligible`
unfoldable pub eligible : Candidate → Text → Text → ℕ → Bool
unfolding code_admits has_started has_not_ended below_cap reaches_minimum
eligible c subtotal entered now =
    code_admits c.code entered
    && (has_started c.starts_at now
        && (has_not_ended c.ends_at now
            && (below_cap c.max_redemptions c.times_redeemed
                && reaches_minimum c.min_subtotal subtotal)))

abbrev or_nothing : Option Text → Text
or_nothing none = codes "0"
or_nothing (some d) = d

-- `discountFor`
unfoldable pub discount_for : Candidate → Text → Text
discount_for c subtotal =
    if str_eq c.discount_type "percent"
    then or_nothing (percent subtotal c.discount_value)
    else if str_eq c.discount_type "amount"
    then or_nothing (sum (c.discount_value ∷ []))
    else codes "0"

-- "never discount below zero": the discount is cut at the subtotal.
unfoldable pub capped : Text → Text → Text
capped disc subtotal = if is_gt (or_equal (cmp disc subtotal)) then subtotal else disc

-- The body of `Evaluate`'s loop up to the comparison: `none` is `continue`.
unfoldable pub offer : Text → Text → ℕ → Candidate → Option Text
offer subtotal entered now c =
    if eligible c subtotal entered now
    then (let disc = capped (discount_for c subtotal) subtotal in
        if is_gt (or_equal (cmp disc (codes "0"))) then some disc else none)
    else none

abbrev pub Best : Type 0
Best = Option (Candidate × Text)

-- A larger discount wins; of equal ones the higher priority.
unfoldable pub better : Candidate × Text → Candidate × Text → Bool
better (c, disc) (best, best_disc) = elim (or_equal (cmp disc best_disc)) [
  | Ordering.gt ↦ true
  | Ordering.eq ↦ ltb_ℤ best.priority c.priority
  | Ordering.lt ↦ false
]

unfoldable pub consider : Best → Candidate → Option Text → Best
consider best c none = best
consider none c (some disc) = some (c, disc)
consider (some b) c (some disc) = if better (c, disc) b then some (c, disc) else some b

unfoldable pub choose : Text → Text → ℕ → Best → List Candidate → Best
choose subtotal entered now best [] = best
choose subtotal entered now best (c ∷ cs) =
    choose subtotal entered now (consider best c (offer subtotal entered now c)) cs

abbrev no_promotion : Result
no_promotion = record { promotion = none; discount = codes "0"; label = "" }

abbrev outcome : Best → Result
outcome none = no_promotion
outcome (some (c, disc)) = record { promotion = some c; discount = disc; label = c.name }

-- `Evaluate`
unfoldable pub evaluate : Text → Text → ℕ → List Candidate → Result
evaluate subtotal code now candidates = elim (parse subtotal) [
  | none ↦ no_promotion
  | some _ ↦ outcome (choose subtotal (to_lower (trim_space code)) now none candidates)
]
