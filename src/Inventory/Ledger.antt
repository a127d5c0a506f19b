-- ===== src/Inventory/Ledger.antt =====
-- The levels against the movements that internal/inventory writes.
use teggo.Prelude.{
  ℕ, Bool, true, false, ◌&&◌, ◌≡◌, inl, inr, refl, sym, ◌∙◌, ap, Option, none, some, List, [], ◌∷◌,
  ◌==◌, if◌then◌else◌, String, str_eq, arith,
}
use mathlib.Core.Path.{subst}
use teggo.Prelude.Int.{ℤ, pos, ◌+ℤ◌, ◌-ℤ◌, zero_+ℤ, +ℤ_comm}
use teggo.Inventory.{
  Level, Movement, Store, Item, done, get_level, reserve_item, reserve_items, reserve_for_order,
  fulfil_item, fulfil_items, fulfil_shipment, or_default,
}
use teggo.Inventory.Steps.{
  moved, moved_level, reserve_item_cases, fulfil_item_cases, get_level-own, movement,
  get_level-moved, >>=-eq-done, done-injective,
}

-- What a movement of its kind adds to what is on hand, and to what is reserved.
abbrev pub on_hand_effect : Movement → ℤ
on_hand_effect m = if str_eq m.kind "reservation" then pos 0 else m.quantity

abbrev pub reserved_effect : Movement → ℤ
reserved_effect m =
    if str_eq m.kind "reservation"
    then m.quantity
    else if str_eq m.kind "fulfillment"
    then m.quantity
    else pos 0

-- The sum of an effect over the movements of a product in a warehouse.
abbrev pub total : (Movement → ℤ) → ℕ → ℕ → List Movement → ℤ
total f p w [] = pos 0
total f p w (m ∷ ms) =
    (if m.product_id == p && m.warehouse_id == w then f m else pos 0) +ℤ total f p w ms

abbrev pub column_at : (Level → ℤ) → Option Level → ℤ
column_at f none = pos 0
column_at f (some l) = f l

abbrev pub on_hand_of : Level → ℤ
on_hand_of l = l.on_hand

abbrev pub reserved_of : Level → ℤ
reserved_of l = l.reserved

-- Both columns of every level are the sums of the effects of its movements; where there is no
-- level, the sums are zero.
abbrev pub IsLedgered : Store → Type 0
IsLedgered s =
    (p w : ℕ)
    → (column_at on_hand_of (get_level p w s.levels) ≡ total on_hand_effect p w s.movements)
      × (column_at reserved_of (get_level p w s.levels) ≡ total reserved_effect p w s.movements)

column_moved :
    (f : Level → ℤ) (a t : ℤ) (d : Bool) (l l' : Level) (o : Option Level)
    → f l' ≡ f l +ℤ a
    → (d ≡ true → o ≡ some l)
    → column_at f o ≡ t
    → column_at f (if d then some l' else o) ≡ (if d then a else pos 0) +ℤ t
column_moved f a t true l l' o e k h =
    e ∙ ap (λ x. x +ℤ a) (sym (ap (column_at f) (k refl)) ∙ h) ∙ +ℤ_comm t a
column_moved f a t false l l' o e k h = h ∙ sym (zero_+ℤ t)

pub same_place : (a b p w : ℕ) → a == p && b == w ≡ true → (a ≡ p) × (b ≡ w)
same_place a b p w e = ground arith

found :
    (l : Level) (p w : ℕ) (ls : List Level)
    → get_level l.product_id l.warehouse_id ls ≡ some l
    → l.product_id == p && l.warehouse_id == w ≡ true
    → get_level p w ls ≡ some l
found l p w ls k e = let (ep, ew) = same_place _ _ p w e in cc

-- A level that moves with a movement of the same effects stays accounted for.
pub moved-IsLedgered :
    (p₀ w₀ : ℕ) (l : Level) (a b : ℤ) (m : Movement) (s : Store)
    → get_level p₀ w₀ s.levels ≡ some l
    → m.product_id ≡ l.product_id
    → m.warehouse_id ≡ l.warehouse_id
    → on_hand_effect m ≡ a
    → reserved_effect m ≡ b
    → IsLedgered s
    → IsLedgered (moved l a b m s)
moved-IsLedgered p₀ w₀ l a b m s k ep ew ea eb h p w =
    let own = get_level-own p₀ w₀ s.levels l k in
    let e = get_level-moved l.product_id l.warehouse_id p w l a b s.levels own in
    let (h₁, h₂) = h p w in
    rw (ep, ew, ea, eb, e)
      (
        column_moved on_hand_of a _ _ l (moved_level l a b) _ refl (found l p w s.levels own) h₁,
        column_moved reserved_of b _ _ l (moved_level l a b) _ refl (found l p w s.levels own) h₂,
      )

reserve_item-IsLedgered :
    (w order : ℕ) (by : String) (it : Item) (s s' : Store)
    → IsLedgered s
    → reserve_item w order by it s ≡ done s'
    → IsLedgered s'
reserve_item-IsLedgered w order by it s s' h e = elim (reserve_item_cases w order by it s s' e) [
  | inl (_, e') ↦ subst IsLedgered (sym e') h
  | inr (l, k, _, e') ↦ subst IsLedgered (sym e') (
      moved-IsLedgered it.product_id w l (pos 0) it.quantity
        (movement l "reservation" it.quantity "order" (some order) by) s k refl refl refl refl h)
]

fulfil_item-IsLedgered :
    (w shipment : ℕ) (by : String) (it : Item) (s s' : Store)
    → IsLedgered s
    → fulfil_item w shipment by it s ≡ done s'
    → IsLedgered s'
fulfil_item-IsLedgered w shipment by it s s' h e =
    elim (fulfil_item_cases w shipment by it s s' e) [
      | inl (_, e') ↦ subst IsLedgered (sym e') h
      | inr (l, k, e') ↦ subst IsLedgered (sym e') (
          moved-IsLedgered it.product_id w l (pos 0 -ℤ it.quantity) (pos 0 -ℤ it.quantity)
            (movement l "fulfillment" (pos 0 -ℤ it.quantity) "shipment" (some shipment) by) s k refl
            refl refl refl h)
    ]

reserve_items-IsLedgered :
    (w order : ℕ) (by : String) (items : List Item) (s s' : Store)
    → IsLedgered s
    → reserve_items w order by items s ≡ done s'
    → IsLedgered s'
unfolding reserve_items
reserve_items-IsLedgered w order by [] s s' h e = subst IsLedgered (done-injective e) h
reserve_items-IsLedgered w order by (it ∷ items) s s' h e =
    let (t, e₁, e₂) =
      >>=-eq-done (reserve_item w order by it s) (reserve_items w order by items) e in
    reserve_items-IsLedgered w order by items t s' (reserve_item-IsLedgered w order by it s t h e₁)
      e₂

fulfil_items-IsLedgered :
    (w shipment : ℕ) (by : String) (items : List Item) (s s' : Store)
    → IsLedgered s
    → fulfil_items w shipment by items s ≡ done s'
    → IsLedgered s'
unfolding fulfil_items
fulfil_items-IsLedgered w shipment by [] s s' h e = subst IsLedgered (done-injective e) h
fulfil_items-IsLedgered w shipment by (it ∷ items) s s' h e =
    let (t, e₁, e₂) =
      >>=-eq-done (fulfil_item w shipment by it s) (fulfil_items w shipment by items) e in
    fulfil_items-IsLedgered w shipment by items t s'
      (fulfil_item-IsLedgered w shipment by it s t h e₁) e₂

pub reserve_for_order-IsLedgered :
    (default : Option ℕ) (items : List Item) (order : ℕ) (by : String) (s s' : Store)
    → IsLedgered s
    → reserve_for_order default items order by s ≡ done s'
    → IsLedgered s'
unfolding reserve_for_order
reserve_for_order-IsLedgered none items order by s s' h e = subst IsLedgered (done-injective e) h
reserve_for_order-IsLedgered (some w) items order by s s' h e =
    reserve_items-IsLedgered w order by items s s' h e

fulfil_from :
    (warehouse : Option ℕ) (items : List Item) (shipment : ℕ) (by : String) (s s' : Store)
    → IsLedgered s
    → elim warehouse [ none ↦ done s | some w ↦ fulfil_items w shipment by items s ] ≡ done s'
    → IsLedgered s'
fulfil_from none items shipment by s s' h e = subst IsLedgered (done-injective e) h
fulfil_from (some w) items shipment by s s' h e =
    fulfil_items-IsLedgered w shipment by items s s' h e

pub fulfil_shipment-IsLedgered :
    (assigned default : Option ℕ) (items : List Item) (shipment : ℕ) (by : String) (s s' : Store)
    → IsLedgered s
    → fulfil_shipment assigned default items shipment by s ≡ done s'
    → IsLedgered s'
unfolding fulfil_shipment
fulfil_shipment-IsLedgered assigned default items shipment by s s' h e =
    fulfil_from (or_default assigned default) items shipment by s s' h e
