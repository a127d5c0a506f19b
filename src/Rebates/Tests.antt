-- ===== src/Rebates/Tests.antt =====
-- Runs of the engine and instances of its theorems.
use mathlib.Core.List.{Memᴰ}
use teggo.Prelude.{◌≡◌, refl, none, some, List, [], ◌∷◌, arith}
use teggo.Prelude.Text.{Text, codes}
use teggo.Money.Rat
use teggo.Money.Rat.{over}
use teggo.Money.Decimal.{parse, format}
use teggo.Money.Amount.{cmp, percent}
use teggo.Money.Amount.Order.{◌≼◌}
use teggo.Rebates.{Tier, reaches, higher, keep_best, best_tier, applicable, rebate}
use teggo.Rebates.Period.{Month, period_window}
use teggo.Rebates.Tiers.{applicable_highest}

abbrev tier : Text → Text → Tier
tier least rate = record { min_amount = least; rate_percent = rate }

abbrev ladder : List Tier
ladder =
    tier (codes "5000") (codes "3")
    ∷ tier (codes "1000") (codes "1.5")
    ∷ tier (codes "9000") (codes "4")
    ∷ []

runs :
    (applicable (codes "7200") ladder ≡ some (codes "3", codes "5000"))
    × (applicable (codes "999.9999") ladder ≡ none)
    × (rebate (codes "7200") (codes "3") ≡ some (codes "216.0000"))
unfolding applicable best_tier keep_best higher reaches rebate cmp percent parse format Rat.cmp
    Rat.mul Rat.quo_ℕ Rat.round4
runs = (refl, refl, refl)

abbrev nov : Month
nov = record { year = 2026; month = 11 }

abbrev dec : Month
dec = record { year = 2026; month = 12 }

windows :
    ((period_window "quarterly" nov).key ≡ codes "2026-Q4")
    × ((period_window "monthly" dec).key ≡ codes "2026-12")
    × ((period_window "monthly" dec).stop ≡ record { year = 2027; month = 1 })
    × ((period_window "annual" dec).key ≡ codes "2026")
unfolding period_window
windows = (refl, refl, refl, refl)

applicable_highest_example :
    ((t : Tier) × Memᴰ t ladder × (t.rate_percent ≡ codes "3") × (t.min_amount ≡ codes "5000"))
    × (codes "5000" ≼ codes "7200")
    × (codes "1000" ≼ codes "5000")
unfolding applicable best_tier keep_best higher reaches cmp parse Rat.cmp
applicable_highest_example =
    applicable_highest (codes "7200") ladder (codes "3") (codes "5000")
      (tier (codes "1000") (codes "1.5")) refl (Memᴰ.tail (Memᴰ.head refl))
      (over 1000 0 1, over 7200 0 1, refl, refl, omega arith)
