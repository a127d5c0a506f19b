-- ===== src/Money/Amount/Tests.antt =====
-- Runs of the operations at concrete amounts.
use teggo.Prelude.{◌≡◌, refl, none, some, List, [], ◌∷◌, Ordering, ◌+◌, ◌*◌, ◌≤◌, ◌<◌}
use teggo.Prelude.Text.{Text, codes}
use teggo.Money.Rat.{over, den, units, of_units, signed_units, is_negative, magnitude, round4}
use teggo.Money.Decimal.RoundTrip.{parse-format}
use teggo.Money.Amount.Exact.{Denotes, percent_nearest}
use teggo.Money.Rat
use teggo.Money.Decimal.{parse, format}
use teggo.Money.Amount.{line_total, sub, cmp, row_total, percent, add_all, sum}

products :
    (line_total (codes "2.5") (codes "1.0001") ≡ some (codes "2.5003"))
    × (row_total (codes "3") (codes "9.99") (codes "0.5") ≡ some (codes "29.4700"))
    × (percent (codes "200") (codes "12.5") ≡ some (codes "25.0000"))
    × (percent (codes "-0.01") (codes "0.1") ≡ some (codes "-0.0000"))
    × (line_total (codes "1e2") (codes ".5") ≡ some (codes "50.0000"))
    × (line_total (codes "1x") (codes "1") ≡ none)
unfolding line_total row_total percent parse format Rat.mul Rat.sub Rat.quo_ℕ Rat.round4
products = (refl, refl, refl, refl, refl, refl)

sums :
    (sum (codes "0.1" ∷ codes "0.2" ∷ []) ≡ some (codes "0.3000"))
    × (sub (codes "1") (codes "2.5") ≡ some (codes "-1.5000"))
    × (sum [] ≡ some (codes "0.0000"))
    × (cmp (codes "1.0") (codes "1.0000") ≡ some Ordering.eq)
unfolding sum add_all sub cmp parse format Rat.add Rat.sub Rat.cmp Rat.round4
sums = (refl, refl, refl, refl)

parse-format_example : parse (format (over 1 0 3)) ≡ some (of_units (units (over 1 0 3)))
parse-format_example = parse-format (over 1 0 3)

abbrev prices : List Text
prices = codes "0.1" ∷ codes "-0.25" ∷ []

percent_nearest_example :
    let q = Rat.quo_ℕ (Rat.mul (over 1005 0 100) (over 125 0 10)) 100 in
    (t : Text) × (percent (codes "10.05") (codes "12.5") ≡ some t)
    × Denotes t (signed_units (is_negative q) (round4 q))
    × (2 * (round4 q * den q) ≤ 2 * (magnitude q * 10_000) + den q)
    × (2 * (magnitude q * 10_000) < 2 * (round4 q * den q) + den q)
unfolding parse
percent_nearest_example =
    percent_nearest (codes "10.05") (codes "12.5") (over 1005 0 100) (over 125 0 10) refl refl
