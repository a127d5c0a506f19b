-- ===== src/Inventory/Steps.antt =====
-- Each operation's effect on one level, over the integers behind the columns.

use teggo.Prelude.{
  ℕ, Bool, true, false, not, ◌&&◌, ◌≡◌, refl, sym, ◌∙◌, Option, none, some, List, [], ◌∷◌, ◌==◌,
  if◌then◌else◌, String, arith, Option-cases, inl, inr, ◌⊎◌,
}
use teggo.Prelude.Text.{Text, codes}
use teggo.Prelude.Int.{ℤ, pos, ◌+ℤ◌, ◌-ℤ◌}
use teggo.Money.Amount.Exact.{Denotes, compare_ℤ, cmp-Denotes, zero-Denotes}
use teggo.Inventory.{
  Level, Movement, Store, Item, Outcome, done, insufficient_stock, failed, ◌>>=◌, column, is_gt,
  get_level, put_level, adjust_level, add_movement, reserve_item, fulfil_item, record_adjustment,
  ensure_level,
}
use teggo.Inventory.Columns.{column-Denotes, numeric-Denotes, plus_numeric-Denotes, sub-Denotes_or}

abbrev pub moved_level : Level → ℤ → ℤ → Level
moved_level l a b = record l { on_hand = l.on_hand +ℤ a; reserved = l.reserved +ℤ b }

abbrev pub movement : Level → String → ℤ → String → Option ℕ → String → Movement
movement l kind m reference_type reference_id by = record {
  product_id = l.product_id;
  warehouse_id = l.warehouse_id;
  kind = kind;
  quantity = m;
  reference_type = reference_type;
  reference_id = reference_id;
  created_by = by;
}

-- The level moves by a on hand and by b reserved, and the movement is on record.
abbrev pub moved : Level → ℤ → ℤ → Movement → Store → Store
moved l a b m s = record {
  levels = put_level l.product_id l.warehouse_id (moved_level l a b) s.levels;
  movements = m ∷ s.movements;
}

pub moved_lem :
    (l : Level) (ta tb tm : Text) (a b m : ℤ) (kind rt : String) (ri : Option ℕ) (by : String)
    (s : Store)
    → Denotes ta a
    → Denotes tb b
    → Denotes tm m
    → (adjust_level l ta tb s >>= add_movement l kind tm rt ri by)
      ≡ done (moved l a b (movement l kind m rt ri by) s)
unfolding adjust_level add_movement
moved_lem l ta tb tm a b m kind rt ri by s da db dm = rw (
  plus_numeric-Denotes l.on_hand ta a da,
  plus_numeric-Denotes l.reserved tb b db,
  numeric-Denotes tm m dm,
)

-- The quantity exceeds what is available.
abbrev pub exceeds : ℤ → Level → Bool
exceeds q l = is_gt (compare_ℤ q (l.on_hand -ℤ l.reserved))

abbrev pub reserved_step : Level → ℤ → ℕ → String → Store → Store
reserved_step l q order by = moved l (pos 0) q (movement l "reservation" q "order" (some order) by)

pub reserve_item-none :
    (w order : ℕ) (by : String) (it : Item) (s : Store)
    → get_level it.product_id w s.levels ≡ none
    → reserve_item w order by it s ≡ done s
unfolding reserve_item
reserve_item-none w order by it s e = rw (e, reserve_item)

pub reserve_item-some :
    (w order : ℕ) (by : String) (it : Item) (s : Store) (l : Level)
    → get_level it.product_id w s.levels ≡ some l
    → reserve_item w order by it s ≡ (
        if exceeds it.quantity l && not l.allow_backorder
        then insufficient_stock
        else done (reserved_step l it.quantity order by s))
unfolding reserve_item
reserve_item-some w order by it s l e =
    let q = it.quantity in
    let free =
      sub-Denotes_or (column l.on_hand) (column l.reserved) l.on_hand l.reserved
        (column-Denotes l.on_hand) (column-Denotes l.reserved) in
    let test = cmp-Denotes (column q) _ q (l.on_hand -ℤ l.reserved) (column-Denotes q) free in
    let step =
      moved_lem l (codes "0") (column q) (column q) (pos 0) q q "reservation" "order" (some order)
        by s zero-Denotes (column-Denotes q) (column-Denotes q) in
    rw (e, reserve_item) (rw (test, step))

abbrev pub fulfilled_step : Level → ℤ → ℕ → String → Store → Store
fulfilled_step l q shipment by =
    let neg = pos 0 -ℤ q in
    moved l neg neg (movement l "fulfillment" neg "shipment" (some shipment) by)

pub fulfil_item-none :
    (w shipment : ℕ) (by : String) (it : Item) (s : Store)
    → get_level it.product_id w s.levels ≡ none
    → fulfil_item w shipment by it s ≡ done s
unfolding fulfil_item
fulfil_item-none w shipment by it s e = rw (e, fulfil_item)

pub fulfil_item-some :
    (w shipment : ℕ) (by : String) (it : Item) (s : Store) (l : Level)
    → get_level it.product_id w s.levels ≡ some l
    → fulfil_item w shipment by it s ≡ done (fulfilled_step l it.quantity shipment by s)
unfolding fulfil_item
fulfil_item-some w shipment by it s l e =
    let neg =
      sub-Denotes_or (codes "0") (column it.quantity) (pos 0) it.quantity zero-Denotes
        (column-Denotes it.quantity) in
    rw (e, fulfil_item)
      (moved_lem l _ _ _ _ _ _ "fulfillment" "shipment" (some shipment) by s neg neg neg)

pub record_adjustment_some :
    (p w : ℕ) (kind : String) (t : Text) (by : String) (s : Store) (z : ℤ)
    → Denotes t z
    → let (l, s') = ensure_level p w s in
      record_adjustment p w kind t by s
      ≡ done (moved l z (pos 0) (movement l kind z "manual" none by) s')
unfolding record_adjustment
record_adjustment_some p w kind t by s z d =
    let (l, s') = ensure_level p w s in
    moved_lem l t (codes "0") t z (pos 0) z kind "manual" none by s' d zero-Denotes d

pub done-injective : {A : Type 0} {a b : A} → done a ≡ done b → a ≡ b
done-injective e = cc

-- A chain that succeeds has a first step that does.
pub >>=-eq-done :
    {A B : Type 0} (m : Outcome A) (f : A → Outcome B) {b : B}
    → (m >>= f) ≡ done b
    → (a : A) × (m ≡ done a) × (f a ≡ done b)
>>=-eq-done (done a) f h = (a, refl, h)
>>=-eq-done insufficient_stock f h = cc
>>=-eq-done failed f h = cc

test_passed :
    (b : Bool) (s s' : Store)
    → (if b then insufficient_stock else done s) ≡ done s'
    → (b ≡ false) × (s' ≡ s)
test_passed true s s' h = cc
test_passed false s s' h = (refl, sym (done-injective h))

-- A line that is reserved is of an untracked product, or within what its level allows.
pub reserve_item_cases :
    (w order : ℕ) (by : String) (it : Item) (s s' : Store)
    → reserve_item w order by it s ≡ done s'
    → ((get_level it.product_id w s.levels ≡ none) × (s' ≡ s))
      ⊎ ((l : Level) × (get_level it.product_id w s.levels ≡ some l)
          × (exceeds it.quantity l && not l.allow_backorder ≡ false)
          × (s' ≡ reserved_step l it.quantity order by s))
reserve_item_cases w order by it s s' e = elim (Option-cases (get_level it.product_id w s.levels)) [
  | inl n ↦ inl (n, done-injective (sym e ∙ reserve_item-none w order by it s n))
  | inr (l, k) ↦
      let (ok, e') = test_passed _ _ s' (sym (reserve_item-some w order by it s l k) ∙ e) in
      inr (l, k, ok, e')
]

pub fulfil_item_cases :
    (w shipment : ℕ) (by : String) (it : Item) (s s' : Store)
    → fulfil_item w shipment by it s ≡ done s'
    → ((get_level it.product_id w s.levels ≡ none) × (s' ≡ s))
      ⊎ ((l : Level) × (get_level it.product_id w s.levels ≡ some l)
          × (s' ≡ fulfilled_step l it.quantity shipment by s))
fulfil_item_cases w shipment by it s s' e =
    elim (Option-cases (get_level it.product_id w s.levels)) [
      | inl n ↦ inl (n, done-injective (sym e ∙ fulfil_item-none w shipment by it s n))
      | inr (l, k) ↦ inr (l, k, done-injective (sym e ∙ fulfil_item-some w shipment by it s l k))
    ]

-- Reading a level after one is put back.
pub get_level-is_at :
    (p w : ℕ) (ls : List Level) (l : Level)
    → get_level p w ls ≡ some l
    → (l.product_id ≡ p) × (l.warehouse_id ≡ w)
unfolding get_level
get_level-is_at p w [] l e = cc
get_level-is_at p w (x ∷ ls) l e = ground (arith, get_level-is_at p w ls l)

pub get_level-put_level :
    (p w p' w' : ℕ) (new l : Level) (ls : List Level)
    → get_level p w ls ≡ some l
    → new.product_id ≡ p
    → new.warehouse_id ≡ w
    → get_level p' w' (put_level p w new ls)
      ≡ (if p == p' && w == w' then some new else get_level p' w' ls)
unfolding get_level put_level
get_level-put_level p w p' w' new l [] e ep ew = cc
get_level-put_level p w p' w' new l (x ∷ ls) e ep ew =
    ground (arith, get_level-put_level p w p' w' new l ls)

pub get_level-own :
    (p w : ℕ) (ls : List Level) (l : Level)
    → get_level p w ls ≡ some l
    → get_level l.product_id l.warehouse_id ls ≡ some l
get_level-own p w ls l k = let (ep, ew) = get_level-is_at p w ls l k in cc

put_level-own :
    (p w p' w' : ℕ) (l new : Level) (ls : List Level)
    → l.product_id ≡ p
    → l.warehouse_id ≡ w
    → get_level p' w' (put_level l.product_id l.warehouse_id new ls)
      ≡ get_level p' w' (put_level p w new ls)
put_level-own p w p' w' l new ls ep ew = cc

pub get_level-moved :
    (p₀ w₀ p w : ℕ) (l₀ : Level) (a b : ℤ) (ls : List Level)
    → get_level p₀ w₀ ls ≡ some l₀
    → get_level p w (put_level l₀.product_id l₀.warehouse_id (moved_level l₀ a b) ls)
      ≡ (if p₀ == p && w₀ == w then some (moved_level l₀ a b) else get_level p w ls)
get_level-moved p₀ w₀ p w l₀ a b ls k =
    let (ep, ew) = get_level-is_at p₀ w₀ ls l₀ k in
    put_level-own p₀ w₀ p w l₀ (moved_level l₀ a b) ls ep ew
    ∙ get_level-put_level p₀ w₀ p w (moved_level l₀ a b) l₀ ls k ep ew
