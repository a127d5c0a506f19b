-- ===== src/PriceRules/Tests.antt =====
-- Runs of the rules and instances of their theorems.
use teggo.Prelude.{◌≡◌, refl, none, some, [], ◌∷◌}
use teggo.Prelude.Int.{pos}
use teggo.Prelude.Text.{codes}
use teggo.Money.Rat
use teggo.Money.Rat.{over}
use teggo.Money.Decimal.{parse, format}
use teggo.PriceRules.{Rule, Attributes, matches, adjust, first_match, apply}

abbrev wholesale : Rule
wholesale = record {
  customer_group_id = some 7;
  attribute_key = none;
  attribute_value = none;
  adjustment_type = "percent";
  adjustment_value = codes "-12.5";
  priority = pos 9;
}

abbrev clearance : Rule
clearance = record {
  customer_group_id = none;
  attribute_key = some "season";
  attribute_value = some "winter";
  adjustment_type = "amount";
  adjustment_value = codes "-50";
  priority = pos 1;
}

abbrev coat : Attributes
coat = ("season", "winter") ∷ []

runs :
    (apply (codes "40") coat (some 7) (wholesale ∷ clearance ∷ []) ≡ some (codes "35.0000"))
    × (apply (codes "40") coat none (wholesale ∷ clearance ∷ []) ≡ some (codes "0.0000"))
    × (apply (codes "40") [] none (wholesale ∷ clearance ∷ []) ≡ some (codes "40.0000"))
    × (apply (codes "on request") [] none [] ≡ some (codes "on request"))
unfolding apply first_match matches adjust parse format Rat.mul Rat.add Rat.quo_ℕ Rat.round4
runs = (refl, refl, refl, refl)
