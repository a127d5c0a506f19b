-- ===== src/Merchandising.antt =====
-- `Reorder` of internal/merchandising/engine.go: products pinned, boosted and buried on a page.
pub mod Counts
pub mod Marked
pub mod Kept
pub mod Tests
use teggo.Prelude.{
  ℕ, Bool, true, false, not, ◌&&◌, List, [], ◌∷◌, ◌++◌, map, ◌==◌, contains, if◌then◌else◌, String,
  str_eq,
}
use teggo.Prelude.Int.{ℤ, ltb_ℤ}

-- `Rule`
pub record Rule : Type 0 where
  pub product_id : ℕ
  pub action : String
  pub position : ℤ

-- What the loop over the rules gathers. The keys of `pinned` are the products of `pins`.
pub record Marks : Type 0 where
  pub pins : List Rule
  pub boost : List ℕ
  pub bury : List ℕ

abbrev pub product_of : Rule → ℕ
product_of r = r.product_id

abbrev pub pinned : Marks → ℕ → Bool
pinned m id = contains (map product_of m.pins) id

abbrev pub pin : Marks → Rule → Marks
pin m r = if pinned m r.product_id then m else record m { pins = m.pins ++ (r ∷ []) }

-- The body of the loop over the rules.
unfoldable pub mark : List ℕ → Marks → Rule → Marks
mark ids m r =
    if not (contains ids r.product_id)
    then m
    else if str_eq r.action "pin"
    then pin m r
    else if str_eq r.action "boost"
    then record m { boost = r.product_id ∷ m.boost }
    else if str_eq r.action "bury"
    then record m { bury = r.product_id ∷ m.bury }
    else m

unfoldable pub mark_all : List ℕ → Marks → List Rule → Marks
mark_all ids m [] = m
mark_all ids m (r ∷ rules) = mark_all ids (mark ids m r) rules

-- `sort.SliceStable` by position.
unfoldable pub insert_pin : Rule → List Rule → List Rule
insert_pin r [] = r ∷ []
insert_pin r (p ∷ ps) = if ltb_ℤ p.position r.position then p ∷ insert_pin r ps else r ∷ p ∷ ps

unfoldable pub sort_pins : List Rule → List Rule
sort_pins [] = []
sort_pins (p ∷ ps) = insert_pin p (sort_pins ps)

-- The ids that a test keeps, in their order.
unfoldable pub keep : (ℕ → Bool) → List ℕ → List ℕ
keep test [] = []
keep test (id ∷ ids) = if test id then id ∷ keep test ids else keep test ids

-- The three cases of the last loop.
abbrev pub is_buried : Marks → ℕ → Bool
is_buried m id = not (pinned m id) && contains m.bury id

abbrev pub is_boosted : Marks → ℕ → Bool
is_boosted m id = not (pinned m id) && (not (contains m.bury id) && contains m.boost id)

abbrev pub is_normal : Marks → ℕ → Bool
is_normal m id = not (pinned m id) && (not (contains m.bury id) && not (contains m.boost id))

unfoldable pub arranged : List ℕ → Marks → List ℕ
arranged ids m =
    map product_of (sort_pins m.pins)
    ++ (keep (is_boosted m) ids ++ (keep (is_normal m) ids ++ keep (is_buried m) ids))

abbrev pub unmarked : Marks
unmarked = record { pins = []; boost = []; bury = [] }

abbrev is_nil {ℓ} : {A : Type ℓ} → List A → Bool
is_nil [] = true
is_nil (x ∷ xs) = false

abbrev pub nothing_marked : Marks → Bool
nothing_marked m = is_nil m.pins && (is_nil m.boost && is_nil m.bury)

abbrev pub arranged_or_same : List ℕ → Marks → List ℕ
arranged_or_same ids m = if nothing_marked m then ids else arranged ids m

-- `Reorder`
unfoldable pub reorder : List ℕ → List Rule → List ℕ
reorder ids [] = ids
reorder [] (r ∷ rules) = []
reorder (id ∷ ids) (r ∷ rules) =
    arranged_or_same (id ∷ ids) (mark_all (id ∷ ids) unmarked (r ∷ rules))
