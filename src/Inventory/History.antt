-- ===== src/Inventory/History.antt =====
-- Histories of the stock: orders reserved, shipments fulfilled and adjustments by hand.
use teggo.Prelude.{
  ℕ, Bool, true, false, ◌&&◌, ◌||◌, not, arith, ◌≡◌, ◌⊎◌, inl, inr, refl, sym, ◌∙◌, ap, Option,
  none, some, List, ◌∷◌, ◌==◌, if◌then◌else◌, String, str_eq, str_eq_iff, contains, Option-cases,
}
use mathlib.Core.Path.{subst}
use teggo.Prelude.Text.{Text}
use teggo.Prelude.Int.{ℤ, pos}
use teggo.Money.Amount.Exact.{Denotes}
use teggo.Inventory.{
  Level, Movement, Store, Item, Outcome, done, insufficient_stock, failed, created, bad_request,
  not_found, answer, get_level, reserve_for_order, fulfil_shipment, ensure_level, record_adjustment,
  adjust, is_manual, zero_level, is_empty,
}
use teggo.Inventory.Steps.{movement, record_adjustment_some, done-injective}
use teggo.Inventory.Ledger.{
  IsLedgered, on_hand_effect, reserved_effect, column_at, on_hand_of, reserved_of, moved-IsLedgered,
  same_place, reserve_for_order-IsLedgered, fulfil_shipment-IsLedgered,
}

-- One transaction that commits. The quantity of an adjustment has four decimal places at most.
pub data Step : Store → Store → Type 0 where
  reserved :
      (default : Option ℕ) (items : List Item) (order : ℕ) (by : String) {s s' : Store}
      → reserve_for_order default items order by s ≡ done s'
      → Step s s'
  fulfilled :
      (assigned default : Option ℕ) (items : List Item) (shipment : ℕ) (by : String) {s s' : Store}
      → fulfil_shipment assigned default items shipment by s ≡ done s'
      → Step s s'
  adjusted :
      (products warehouses : List ℕ) (p w : ℕ) (kind : String) (quantity : Text) (z : ℤ)
      (by : String) {s s' : Store}
      → Denotes quantity z
      → adjust products warehouses p w kind quantity by s ≡ created s'
      → Step s s'

pub data Reaches (s : Store) : Store → Type 0 where
  start : Reaches s s
  step : {t u : Store} → Reaches s t → Step t u → Reaches s u

or_split : (a b : Bool) → a || b ≡ true → (a ≡ true) ⊎ (b ≡ true)
or_split true b h = inl refl
or_split false b h = inr h

other :
    (k c : String)
    → str_eq k c ≡ true
    → (str_eq c "reservation" ≡ false) × (str_eq c "fulfillment" ≡ false)
    → (str_eq k "reservation" ≡ false) × (str_eq k "fulfillment" ≡ false)
other k c e h =
    let (same, _) = str_eq_iff k c in
    subst (λ x. (str_eq x "reservation" ≡ false) × (str_eq x "fulfillment" ≡ false)) (sym (same e))
      h

manual_kind :
    (k : String)
    → is_manual k ≡ true
    → (str_eq k "reservation" ≡ false) × (str_eq k "fulfillment" ≡ false)
manual_kind k h =
    elim (or_split (str_eq k "receipt" || str_eq k "return") (str_eq k "adjustment") h) [
      | inl h' ↦ elim (or_split (str_eq k "receipt") (str_eq k "return") h') [
        | inl e ↦ other k "receipt" e (refl, refl)
        | inr e ↦ other k "return" e (refl, refl)
      ]
      | inr e ↦ other k "adjustment" e (refl, refl)
    ]

-- The kinds that `adjust` takes move what is on hand and reserve nothing.
manual_effects :
    (m : Movement)
    → is_manual m.kind ≡ true
    → (on_hand_effect m ≡ m.quantity) × (reserved_effect m ≡ pos 0)
manual_effects m h = let (e₁, e₂) = manual_kind m.kind h in rw (e₁, e₂) (refl, refl)

answered : (o : Outcome Store) (s : Store) → answer o ≡ created s → o ≡ done s
answered (done t) s e = cc
answered insufficient_stock s e = cc
answered failed s e = cc

guards :
    (a b c d : Bool) (o : Outcome Store) (s : Store)
    → (if a
        then bad_request
        else if not b
        then bad_request
        else if not c
        then not_found
        else if not d
        then bad_request
        else answer o)
      ≡ created s
    → (b ≡ true) × (o ≡ done s)
guards true b c d o s e = cc
guards false false c d o s e = cc
guards false true false d o s e = cc
guards false true true false o s e = cc
guards false true true true o s e = (refl, answered o s e)

-- An adjustment that is answered is of one of the three kinds, and was recorded.
adjust_created :
    (products warehouses : List ℕ) (p w : ℕ) (kind : String) (quantity : Text) (by : String)
    (s s' : Store)
    → adjust products warehouses p w kind quantity by s ≡ created s'
    → (is_manual kind ≡ true) × (record_adjustment p w kind quantity by s ≡ done s')
unfolding adjust
adjust_created products warehouses p w kind quantity by s s' e =
    guards (p == 0 || w == 0 || is_empty quantity) (is_manual kind) (contains products p)
      (contains warehouses w) (record_adjustment p w kind quantity by s) s' e

missing :
    (p w p' w' : ℕ) (ls : List Level)
    → get_level p w ls ≡ none
    → p == p' && w == w' ≡ true
    → get_level p' w' ls ≡ none
missing p w p' w' ls n e = let (ep, ew) = same_place _ _ p' w' e in cc

ensured_column :
    (f : Level → ℤ) (t : ℤ) (d : Bool) (z : Level) (o : Option Level)
    → f z ≡ pos 0
    → (d ≡ true → o ≡ none)
    → column_at f o ≡ t
    → column_at f (if d then some z else o) ≡ t
ensured_column f t true z o e n h = e ∙ sym (ap (column_at f) (n refl)) ∙ h
ensured_column f t false z o e n h = h

-- The row that `EnsureInventoryLevel` makes holds nothing, so nothing is unaccounted for.
fresh-IsLedgered :
    (p w : ℕ) (s : Store)
    → get_level p w s.levels ≡ none
    → IsLedgered s
    → IsLedgered (record s { levels = zero_level p w ∷ s.levels })
unfolding get_level
fresh-IsLedgered p w s n h p' w' =
    let (h₁, h₂) = h p' w' in
    (
      ensured_column on_hand_of _ (p == p' && w == w') (zero_level p w) _ refl
          (missing p w p' w' s.levels n) h₁,
      ensured_column reserved_of _ (p == p' && w == w') (zero_level p w) _ refl
          (missing p w p' w' s.levels n) h₂,
    )

fresh_level :
    (p w : ℕ) (ls : List Level) → get_level p w (zero_level p w ∷ ls) ≡ some (zero_level p w)
unfolding get_level
fresh_level p w ls = ground arith

ensure_level-IsLedgered :
    (p w : ℕ) (s : Store)
    → IsLedgered s
    → let (l, s') = ensure_level p w s in IsLedgered s' × (get_level p w s'.levels ≡ some l)
unfolding ensure_level
ensure_level-IsLedgered p w s h = elim (Option-cases (get_level p w s.levels)) [
  | inl n ↦ rw (n, ensure_level) (fresh-IsLedgered p w s n h, fresh_level p w s.levels)
  | inr (l, k) ↦ rw (k, ensure_level) (h, k)
]

record_adjustment-IsLedgered :
    (p w : ℕ) (kind : String) (t : Text) (z : ℤ) (by : String) (s s' : Store)
    → Denotes t z
    → is_manual kind ≡ true
    → IsLedgered s
    → record_adjustment p w kind t by s ≡ done s'
    → IsLedgered s'
record_adjustment-IsLedgered p w kind t z by s s' d k h e =
    let (l, s₁) = ensure_level p w s in
    let (h₁, found) = ensure_level-IsLedgered p w s h in
    let m = movement l kind z "manual" none by in
    let (on_hand, reserve) = manual_effects m k in
    subst IsLedgered (done-injective (sym (record_adjustment_some p w kind t by s z d) ∙ e))
      (moved-IsLedgered p w l z (pos 0) m s₁ found refl refl on_hand reserve h₁)

step-IsLedgered : (s s' : Store) → IsLedgered s → Step s s' → IsLedgered s'
step-IsLedgered s s' h (reserved default items order by e) =
    reserve_for_order-IsLedgered default items order by s s' h e
step-IsLedgered s s' h (fulfilled assigned default items shipment by e) =
    fulfil_shipment-IsLedgered assigned default items shipment by s s' h e
step-IsLedgered s s' h (adjusted products warehouses p w kind t z by d e) =
    let (k, e') = adjust_created products warehouses p w kind t by s s' e in
    record_adjustment-IsLedgered p w kind t z by s s' d k h e'

-- Whatever orders are reserved, shipments fulfilled and adjustments of four decimal places made,
-- in any order: from a store where the sums of the movements' effects are the levels' columns, only
-- such stores are reached.
pub Reaches-IsLedgered : (s s' : Store) → IsLedgered s → Reaches s s' → IsLedgered s'
Reaches-IsLedgered s s' h start = h
Reaches-IsLedgered s s' h (step {t} r x) = step-IsLedgered t s' (Reaches-IsLedgered s t h r) x
