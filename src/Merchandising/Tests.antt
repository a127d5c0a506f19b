-- ===== src/Merchandising/Tests.antt =====
-- A page reordered, and an instance of the theorem.
use teggo.Prelude.{ℕ, ◌≤◌, ◌≡◌, refl, List, [], ◌∷◌, occurrences, String, arith}
use teggo.Prelude.Int.{pos}
use teggo.Merchandising.{Rule, mark, mark_all, insert_pin, sort_pins, keep, arranged, reorder}
use teggo.Merchandising.Kept.{reorder_same}

abbrev rule : ℕ → String → ℕ → Rule
rule p action position = record { product_id = p; action = action; position = pos position }

abbrev page : List ℕ
page = 1 ∷ 2 ∷ 3 ∷ 4 ∷ 5 ∷ []

-- Product 9 is not on the page; product 4 is pinned and buried, and counts as pinned.
abbrev rules : List Rule
rules =
    rule 1 "bury" 0
    ∷ rule 5 "pin" 2
    ∷ rule 4 "pin" 1
    ∷ rule 4 "bury" 0
    ∷ rule 3 "boost" 0
    ∷ rule 9 "pin" 0
    ∷ []

moved : reorder page rules ≡ 4 ∷ 5 ∷ 3 ∷ 2 ∷ 1 ∷ []
unfolding reorder mark_all mark arranged sort_pins insert_pin keep
moved = refl

page_distinct : (n : ℕ) → occurrences n page ≤ 1
page_distinct n = ground arith

reorder_same_example : occurrences 4 (reorder page rules) ≡ occurrences 4 page
reorder_same_example = reorder_same page rules page_distinct 4
