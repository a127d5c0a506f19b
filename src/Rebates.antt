-- ===== src/Rebates.antt =====
-- internal/rebates/engine.go: incentive periods, the tier that a total reaches, and the rebate.
pub mod Period
pub mod Tiers
pub mod Tests
use teggo.Prelude.{Bool, true, false, Option, none, some, List, [], ◌∷◌, Ordering, if◌then◌else◌}
use teggo.Prelude.Text.{Text}
use teggo.Money.Amount.{cmp, percent, or_equal}

-- `Tier`
pub record Tier : Type 0 where
  pub min_amount : Text
  pub rate_percent : Text

-- `cmp, err := Cmp(total, t.MinAmount); err != nil || cmp < 0` fails.
unfoldable pub reaches : Text → Tier → Bool
reaches total t = elim (cmp total t.min_amount) [
  | none ↦ false
  | some Ordering.lt ↦ false
  | some _ ↦ true
]

abbrev is_gt : Ordering → Bool
is_gt Ordering.gt = true
is_gt _ = false

unfoldable pub higher : Tier → Tier → Bool
higher t best = is_gt (or_equal (cmp t.min_amount best.min_amount))

unfoldable pub keep_best : Option Tier → Tier → Option Tier
keep_best none t = some t
keep_best (some best) t = if higher t best then some t else some best

-- The loop of `Applicable`, with the tier found so far in place of its index.
unfoldable pub best_tier : Text → Option Tier → List Tier → Option Tier
best_tier total best [] = best
best_tier total best (t ∷ tiers) =
    best_tier total (if reaches total t then keep_best best t else best) tiers

-- `Applicable`: the rate and the threshold, `none` for `ok == false`.
unfoldable pub applicable : Text → List Tier → Option (Text × Text)
applicable total tiers = elim (best_tier total none tiers) [
  | none ↦ none
  | some t ↦ some (t.rate_percent, t.min_amount)
]

-- `Rebate`
unfoldable pub rebate : Text → Text → Option Text
rebate total rate_percent = percent total rate_percent
