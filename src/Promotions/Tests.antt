-- ===== src/Promotions/Tests.antt =====
-- Runs of the engine and instances of its theorems.
use mathlib.Core.List.{Memᴰ}
use teggo.Prelude.{◌≡◌, refl, true, ◌⊎◌, none, some, List, [], ◌∷◌, Ordering}
use teggo.Prelude.Int.{pos, ◌≤ℤ◌}
use teggo.Prelude.Text.{codes, trim_space, to_lower}
use teggo.Money.Rat
use teggo.Money.Rat.{over}
use teggo.Money.Decimal.{parse, format}
use teggo.Money.Amount.{cmp, percent, sum, add_all}
use teggo.Money.Amount.Order.{IsDecimal, ◌≼◌}
use teggo.Promotions.{
  Candidate, eligible, discount_for, capped, offer, better, consider, choose, evaluate,
}
use teggo.Promotions.Evaluate.{entered_code, evaluate_sound, evaluate_best}

abbrev spring : Candidate
spring = record {
  id = 1;
  name = "Spring";
  code = none;
  discount_type = "percent";
  discount_value = codes "10";
  min_subtotal = some (codes "50");
  starts_at = some 100;
  ends_at = none;
  max_redemptions = none;
  times_redeemed = pos 4;
  priority = pos 1;
}

abbrev coupon : Candidate
coupon = record {
  id = 2;
  name = "Coupon";
  code = some (codes " Save5 ");
  discount_type = "amount";
  discount_value = codes "5.00";
  min_subtotal = none;
  starts_at = none;
  ends_at = some 900;
  max_redemptions = some (pos 10);
  times_redeemed = pos 9;
  priority = pos 2;
}

abbrev both : List Candidate
both = spring ∷ coupon ∷ []

-- At 50 both give 5.0000, and the higher priority decides; at 80 the larger discount does.
runs :
    ((evaluate (codes "50") (codes "SAVE5") 200 both).label ≡ "Coupon")
    × ((evaluate (codes "80") (codes "SAVE5") 200 both).label ≡ "Spring")
    × ((evaluate (codes "80") (codes "SAVE5") 200 both).discount ≡ codes "8.0000")
    × ((evaluate (codes "3") (codes "save5") 200 both).discount ≡ codes "3")
    × ((evaluate (codes "30") (codes "") 200 both).promotion ≡ none)
unfolding evaluate choose consider better offer capped discount_for eligible trim_space to_lower cmp
    percent sum add_all parse format Rat.cmp Rat.add Rat.mul Rat.quo_ℕ Rat.round4
runs = (refl, refl, refl, refl, refl)

eighty-IsDecimal : IsDecimal (codes "80")
unfolding parse
eighty-IsDecimal = (over 80 0 1, refl)

evaluate_sound_example :
    Memᴰ spring both
    × (eligible spring (codes "80") (entered_code (codes "SAVE5")) 200 ≡ true)
    × (codes "8.0000" ≡ capped (discount_for spring (codes "80")) (codes "80"))
    × (codes "8.0000" ≼ codes "80")
    × (cmp (codes "8.0000") (codes "0") ≡ some Ordering.gt)
unfolding evaluate choose consider better offer capped discount_for eligible trim_space to_lower cmp
    percent sum add_all parse format Rat.cmp Rat.add Rat.mul Rat.quo_ℕ Rat.round4
evaluate_sound_example =
    evaluate_sound (codes "80") (codes "SAVE5") 200 both eighty-IsDecimal spring refl

evaluate_best_example :
    (codes "5.0000" ≼ codes "8.0000")
    × ((cmp (codes "5.0000") (codes "8.0000") ≡ some Ordering.lt) ⊎ (pos 2 ≤ℤ pos 1))
unfolding evaluate choose consider better offer capped discount_for eligible trim_space to_lower cmp
    percent sum add_all parse format Rat.cmp Rat.add Rat.mul Rat.quo_ℕ Rat.round4
evaluate_best_example =
    evaluate_best (codes "80") (codes "SAVE5") 200 both eighty-IsDecimal spring refl coupon
      (codes "5.0000") (Memᴰ.tail (Memᴰ.head refl)) refl
