-- ===== src/Configurator/Tests.antt =====
-- A product with a size and extras, configured well and badly, and instances of the theorems.
use teggo.Prelude.{
  ℕ, true, false, ◌≡◌, refl, some, [], ◌∷◌, String, occurrences, contains, if◌then◌else◌,
}
use teggo.Prelude.Int.{pos}
use teggo.Prelude.Text.{Text, codes}
use teggo.Money.Rat
use teggo.Money.Decimal.{parse, format}
use teggo.Money.Amount.{sum, add_all}
use teggo.Configurator.{
  Choice, Group, Definition, unknown_option, too_few, requires, all_options, find_option,
  find_group, unknown_errors, known_ids, count_selected, group_errors, rule_errors, flat_map,
  insert_id, sort_ids, parts, result, all_errors, configure,
}
use teggo.Configurator.Valid.{IsValid, configure_sound, configure_complete}

abbrev choice : ℕ → ℕ → String → Text → Choice
choice id g code delta = record {
  id = id;
  group_id = g;
  code = code;
  name = code;
  price_delta = delta;
}

abbrev size : Group
size = record {
  id = 1;
  code = "size";
  required = true;
  min_select = pos 0;
  max_select = pos 1;
  options = choice 10 1 "small" [] ∷ choice 11 1 "large" (codes "5.5") ∷ [];
}

abbrev extras : Group
extras = record {
  id = 2;
  code = "extras";
  required = false;
  min_select = pos 0;
  max_select = pos 0;
  options = choice 20 2 "lid" (codes "1") ∷ choice 21 2 "seal" (codes "0.25") ∷ [];
}

abbrev tank : Definition
tank = record {
  base_price = codes "100";
  currency = "EUR";
  groups = size ∷ extras ∷ [];
  rules = record { kind = "requires"; option_id = 21; related_option_id = 20 } ∷ [];
}

-- Chosen twice, an option counts once.
good : (configure tank (20 ∷ 11 ∷ 20 ∷ [])).unit_price ≡ codes "106.5000"
unfolding configure all_errors all_options find_option find_group unknown_errors known_ids
    count_selected group_errors rule_errors flat_map insert_id sort_ids sum add_all parse format
    Rat.add Rat.round4
good = refl

bad :
    (configure tank (21 ∷ 99 ∷ [])).errors
    ≡ unknown_option 99 ∷ too_few "size" (pos 1) ∷ requires "seal" "lid" ∷ []
unfolding configure all_errors all_options find_option find_group unknown_errors known_ids
    count_selected group_errors rule_errors flat_map insert_id sort_ids sum add_all parse format
    Rat.add Rat.round4
bad = refl

good_valid : (configure tank (20 ∷ 11 ∷ [])).valid ≡ true
unfolding configure all_errors all_options find_option find_group unknown_errors known_ids
    count_selected group_errors rule_errors flat_map insert_id sort_ids sum add_all parse format
    Rat.add Rat.round4
good_valid = refl

configure_sound_example :
    IsValid tank (20 ∷ 11 ∷ [])
    × (sum (parts tank (20 ∷ 11 ∷ [])) ≡ some (configure tank (20 ∷ 11 ∷ [])).unit_price)
    × ((id : ℕ)
        → occurrences id (sort_ids (20 ∷ 11 ∷ [])) ≡ (if contains (20 ∷ 11 ∷ []) id then 1 else 0))
configure_sound_example = configure_sound tank (20 ∷ 11 ∷ []) good_valid

good_sum : sum (parts tank (20 ∷ 11 ∷ [])) ≡ some (codes "106.5000")
unfolding all_options find_option insert_id sort_ids sum add_all parse format Rat.add Rat.round4
good_sum = refl

good-IsValid : IsValid tank (20 ∷ 11 ∷ [])
good-IsValid = let (ok, _, _) = configure_sound tank (20 ∷ 11 ∷ []) good_valid in ok

configure_complete_example :
    configure tank (20 ∷ 11 ∷ []) ≡ result tank (20 ∷ 11 ∷ []) [] true (codes "106.5000")
configure_complete_example =
    configure_complete tank (20 ∷ 11 ∷ []) (codes "106.5000") good-IsValid good_sum
