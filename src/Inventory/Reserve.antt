-- ===== src/Inventory/Reserve.antt =====
-- `ReserveForOrder` over the levels: what it may reserve, and what it adds.
use teggo.Prelude.{
  ℕ, Bool, true, false, not, ◌&&◌, ◌≡◌, ◌⊎◌, inl, inr, refl, sym, ◌∙◌, ap, Option, none, some, List,
  [], ◌∷◌, ◌==◌, if◌then◌else◌, String, arith, All, Bool-cases, ==_iff,
}
use mathlib.Core.Path.{subst}
use teggo.Prelude.Int.{ℤ, pos, ◌+ℤ◌, ◌-ℤ◌, ◌≤ℤ◌, int_laws, +ℤ_zero, +ℤ_assoc}
use teggo.Money.Amount.Exact.{compare_ℤ}
use teggo.Inventory.{
  Level, Store, Item, done, is_gt, get_level, put_level, is_at, reserve_item, reserve_items,
  reserve_for_order,
}
use teggo.Inventory.Steps.{
  exceeds, reserved_step, moved_level, reserve_item_cases, >>=-eq-done, done-injective,
  get_level-moved,
}

-- No more is reserved than is on hand, unless the level may be overdrawn.
abbrev pub IsCovered : Level → Type 0
IsCovered l = (l.allow_backorder ≡ true) ⊎ (l.reserved ≤ℤ l.on_hand)

pub All-put_level :
    (P : Level → Type 0) (p w : ℕ) (new : Level) (ls : List Level)
    → All P ls
    → P new
    → All P (put_level p w new ls)
unfolding put_level
All-put_level P p w new [] h k = tt
All-put_level P p w new (l ∷ ls) (hl, hs) k = elim (Bool-cases (is_at p w l)) [
  | inl e ↦ rw (e, put_level) (k, hs)
  | inr e ↦ rw (e, put_level) (hl, All-put_level P p w new ls hs k)
]

not_gt : (x y : ℤ) → is_gt (compare_ℤ x y) ≡ false → x ≤ℤ y
not_gt x y h = ground arith

fits : (on_hand reserved q : ℤ) → q ≤ℤ on_hand -ℤ reserved → reserved +ℤ q ≤ℤ on_hand +ℤ pos 0
fits on_hand reserved q h = omega int_laws

within : (b c : Bool) → c ≡ false → b && not c ≡ false → b ≡ false
within b c e h = grind arith

-- A quantity within what is available leaves the level covered.
covered :
    (l : Level) (q : ℤ)
    → exceeds q l && not l.allow_backorder ≡ false
    → IsCovered (moved_level l (pos 0) q)
covered l q h = elim (Bool-cases l.allow_backorder) [
  | inl e ↦ inl e
  | inr e ↦ inr (fits l.on_hand l.reserved q (not_gt q (l.on_hand -ℤ l.reserved) (within _ _ e h)))
]

reserve_item-IsCovered :
    (w order : ℕ) (by : String) (it : Item) (s s' : Store)
    → All IsCovered s.levels
    → reserve_item w order by it s ≡ done s'
    → All IsCovered s'.levels
reserve_item-IsCovered w order by it s s' h e = elim (reserve_item_cases w order by it s s' e) [
  | inl (_, e') ↦ subst (λ t. All IsCovered t.levels) (sym e') h
  | inr (l, _, ok, e') ↦
      subst (λ t. All IsCovered t.levels) (sym e')
        (All-put_level IsCovered l.product_id l.warehouse_id _ s.levels h
          (covered l it.quantity ok))
]

reserve_items-IsCovered :
    (w order : ℕ) (by : String) (items : List Item) (s s' : Store)
    → All IsCovered s.levels
    → reserve_items w order by items s ≡ done s'
    → All IsCovered s'.levels
unfolding reserve_items
reserve_items-IsCovered w order by [] s s' h e =
    subst (λ t. All IsCovered t.levels) (done-injective e) h
reserve_items-IsCovered w order by (it ∷ items) s s' h e =
    let (t, e₁, e₂) =
      >>=-eq-done (reserve_item w order by it s) (reserve_items w order by items) e in
    reserve_items-IsCovered w order by items t s' (reserve_item-IsCovered w order by it s t h e₁) e₂

-- Where no level reserves more than is on hand, except those that allow backorders, that is so
-- again after an order is reserved: stock is not oversold.
pub reserve_for_order-IsCovered :
    (default : Option ℕ) (items : List Item) (order : ℕ) (by : String) (s s' : Store)
    → All IsCovered s.levels
    → reserve_for_order default items order by s ≡ done s'
    → All IsCovered s'.levels
unfolding reserve_for_order
reserve_for_order-IsCovered none items order by s s' h e =
    subst (λ t. All IsCovered t.levels) (done-injective e) h
reserve_for_order-IsCovered (some w) items order by s s' h e =
    reserve_items-IsCovered w order by items s s' h e

-- The quantity of a product over the lines of an order.
abbrev pub quantity_of : ℕ → List Item → ℤ
quantity_of p [] = pos 0
quantity_of p (it ∷ items) =
    (if it.product_id == p then it.quantity else pos 0) +ℤ quantity_of p items

-- What a level is after b more are reserved.
abbrev pub HasReserved : Level → ℤ → Option Level → Type 0
HasReserved l b o =
    (l' : Level) × (o ≡ some l')
    × (l'.reserved ≡ l.reserved +ℤ b)
    × (l'.on_hand ≡ l.on_hand)
    × (l'.allow_backorder ≡ l.allow_backorder)

unmoved : (l : Level) (o : Option Level) → o ≡ some l → HasReserved l (pos 0) o
unmoved l o e = (l, e, sym (+ℤ_zero l.reserved), refl, refl)

pub choice :
    (d : Bool) (w : ℕ) (x y : Level) (o : Option Level)
    → o ≡ some y
    → (if d && w == w then some x else o) ≡ (if d && true then some x else some y)
choice d w x y o k = let (_, same) = ==_iff w w in rw (k, same refl) refl

some_inj : {x y : Level} → some x ≡ some y → x ≡ y
some_inj e = cc

chosen-HasReserved :
    (d : Bool) (l l₀ : Level) (q : ℤ) (o : Option Level)
    → o ≡ (if d && true then some (moved_level l₀ (pos 0) q) else some l)
    → (d ≡ true → l₀ ≡ l)
    → HasReserved l (if d then q else pos 0) o
chosen-HasReserved true l l₀ q o e same =
    subst (λ x. HasReserved x q o) (same refl)
      (moved_level l₀ (pos 0) q, e, refl, +ℤ_zero l₀.on_hand, refl)
chosen-HasReserved false l l₀ q o e same = unmoved l o e

-- A line of a product without a level changes no level.
untracked :
    (d : Bool) (l : Level) (q : ℤ) (o o' : Option Level)
    → o ≡ none
    → (d ≡ true → o ≡ some l)
    → o' ≡ some l
    → HasReserved l (if d then q else pos 0) o'
untracked true l q o o' n f e = cc (f refl)
untracked false l q o o' n f e = unmoved l o' e

-- Reserving q of a level found adds q to it, and leaves other levels as they are.
reserved_step-HasReserved :
    (w order : ℕ) (by : String) (it : Item) (s : Store) (p : ℕ) (l l₀ : Level)
    → get_level it.product_id w s.levels ≡ some l₀
    → get_level p w s.levels ≡ some l
    → HasReserved l
        (if it.product_id == p then it.quantity else pos 0)
        (get_level p w (reserved_step l₀ it.quantity order by s).levels)
reserved_step-HasReserved w order by it s p l l₀ k₀ k =
    let (same_id, _) = ==_iff it.product_id p in
    chosen-HasReserved (it.product_id == p) l l₀ it.quantity _
      (get_level-moved it.product_id w p w l₀ (pos 0) it.quantity s.levels k₀
        ∙ choice (it.product_id == p) w _ l _ k)
      (λ e. some_inj (sym k₀ ∙ ap (λ x. get_level x w s.levels) (same_id e) ∙ k))

reserve_item-HasReserved :
    (w order : ℕ) (by : String) (it : Item) (s s' : Store) (p : ℕ) (l : Level)
    → reserve_item w order by it s ≡ done s'
    → get_level p w s.levels ≡ some l
    → HasReserved l (if it.product_id == p then it.quantity else pos 0) (get_level p w s'.levels)
reserve_item-HasReserved w order by it s s' p l e k =
    elim (reserve_item_cases w order by it s s' e) [
      | inl (n, e') ↦
          let (same_id, _) = ==_iff it.product_id p in
          untracked (it.product_id == p) l it.quantity _ _ n
            (λ d. ap (λ x. get_level x w s.levels) (same_id d) ∙ k)
            (ap (λ t. get_level p w t.levels) e' ∙ k)
      | inr (l₀, k₀, _, e') ↦
          subst
            (λ t.
              HasReserved l (if it.product_id == p then it.quantity else pos 0)
                (get_level p w t.levels))
            (sym e') (reserved_step-HasReserved w order by it s p l l₀ k₀ k)
    ]

HasReserved-trans :
    (l : Level) (a b : ℤ) (o o' : Option Level)
    → HasReserved l a o
    → ((l' : Level) → o ≡ some l' → HasReserved l' b o')
    → HasReserved l (a +ℤ b) o'
HasReserved-trans l a b o o' (l₁, k₁, r₁, h₁, d₁) f =
    let (l₂, k₂, r₂, h₂, d₂) = f l₁ k₁ in
    (l₂, k₂, r₂ ∙ ap (λ x. x +ℤ b) r₁ ∙ +ℤ_assoc l.reserved a b, h₂ ∙ h₁, d₂ ∙ d₁)

reserve_items-HasReserved :
    (w order : ℕ) (by : String) (items : List Item) (s s' : Store) (p : ℕ) (l : Level)
    → reserve_items w order by items s ≡ done s'
    → get_level p w s.levels ≡ some l
    → HasReserved l (quantity_of p items) (get_level p w s'.levels)
unfolding reserve_items
reserve_items-HasReserved w order by [] s s' p l e k =
    unmoved l _ (ap (λ t. get_level p w t.levels) (sym (done-injective e)) ∙ k)
reserve_items-HasReserved w order by (it ∷ items) s s' p l e k =
    let (t, e₁, e₂) =
      >>=-eq-done (reserve_item w order by it s) (reserve_items w order by items) e in
    HasReserved-trans l _ _ _ _ (reserve_item-HasReserved w order by it s t p l e₁ k)
      (λ l' k'. reserve_items-HasReserved w order by items t s' p l' e₂ k')

-- An order that is reserved adds, to what the tracked level of a product has reserved in the
-- warehouse, the quantity of that product over the lines of the order. What is on hand and whether
-- backorders are allowed stay as they are.
pub reserve_for_order-HasReserved :
    (w order : ℕ) (by : String) (items : List Item) (s s' : Store) (p : ℕ) (l : Level)
    → reserve_for_order (some w) items order by s ≡ done s'
    → get_level p w s.levels ≡ some l
    → HasReserved l (quantity_of p items) (get_level p w s'.levels)
unfolding reserve_for_order
reserve_for_order-HasReserved w order by items s s' p l e k =
    reserve_items-HasReserved w order by items s s' p l e k
