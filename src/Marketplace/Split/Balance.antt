-- ===== src/Marketplace/Split/Balance.antt =====
-- The totals of one vendor order.
use mathlib.Core.Option.{some-injective}
use teggo.Prelude.{
  ℕ, ◌≡◌, refl, sym, ◌∙◌, Option, some, List, [], ◌∷◌, All, Bool-cases, Option-cases, inl, inr,
  String, >>=-eq-some,
}
use teggo.Prelude.Text.{Text}
use teggo.Prelude.Int.{ℤ, ◌+ℤ◌, ◌-ℤ◌, int_laws}
use teggo.Money.Rat
use teggo.Money.Rat.{Rat, units}
use teggo.Money.Decimal.{parse}
use teggo.Money.Amount
use teggo.Money.Amount.{sum, percent}
use teggo.Money.Amount.Exact.{Denotes, format-Denotes, sub-Denotes}
use teggo.Marketplace.Split.{
  Line, VendorOrder, Store, Bucket, taken, create_vendor_order, tag_items, split_vendor,
  split_vendors, split_order, group_lines,
}

-- The three amounts are whole ten-thousandths, and commission and net add up to the gross.
abbrev pub IsBalanced : VendorOrder → Type 0
IsBalanced o =
    (g : ℤ) × (c : ℤ) × (n : ℤ) × Denotes o.gross_total g
    × Denotes o.commission_total c
    × Denotes o.net_total n
    × (n +ℤ c ≡ g)

pub tag_items-vendor_orders :
    (v : ℕ) (is : List ℕ) (s : Store) → (tag_items v is s).vendor_orders ≡ s.vendor_orders
unfolding tag_items
tag_items-vendor_orders v [] s = refl
tag_items-vendor_orders v (i ∷ is) s =
    tag_items-vendor_orders v is (record s { tags = (i, v) ∷ s.tags })

pub sum-Denotes-some : (ts : List Text) {t : Text} → sum ts ≡ some t → (z : ℤ) × Denotes t z
unfolding sum
sum-Denotes-some ts {t} e = elim (Option-cases (Amount.add_all Rat.zero_rat ts)) [
  | inl bad ↦ cc (rw bad at e)
  | inr (r, ok) ↦ (units r, rw (← some-injective _ _ (rw ok at e)) (format-Denotes r))
]

percent-Denotes-some : (a p : Text) {t : Text} → percent a p ≡ some t → (z : ℤ) × Denotes t z
unfolding percent
percent-Denotes-some a p {t} e = elim (Option-cases (parse a)) [
  | inl bad ↦ cc (rw bad at e)
  | inr (r, ok) ↦ elim (Option-cases (parse p)) [
    | inl bad ↦ cc (rw (ok, bad) at e)
    | inr (s, ok') ↦
        let q = Rat.quo_ℕ (Rat.mul r s) 100 in
        (units q, rw (← some-injective _ _ (rw (ok, ok') at e)) (format-Denotes q))
  ]
]

create_vendor_order-some :
    (o : VendorOrder) (s : Store) {t : Store}
    → create_vendor_order o s ≡ some t
    → t ≡ record s { vendor_orders = o ∷ s.vendor_orders }
unfolding create_vendor_order
create_vendor_order-some o s e = elim (Bool-cases (taken o.order_id o.vendor_id s.vendor_orders)) [
  | inl clash ↦ cc (rw clash at e)
  | inr free ↦ sym (some-injective _ _ (rw free at e))
]

abbrev orders_of : Store → List VendorOrder
orders_of s = s.vendor_orders

module _ (rate_of : ℕ → Option Text) (org order : ℕ) (currency : String) where
  -- What one pass of the loop adds: an order whose amounts are computed one from the other.
  pub record IsSplit (b : Bucket) (s t : Store) : Type 0 where
    pub made : VendorOrder
    pub of_vendor : made.vendor_id ≡ b.vendor
    pub gross_eq : sum b.totals ≡ some made.gross_total
    pub commission_eq : percent made.gross_total made.commission_rate ≡ some made.commission_total
    pub net_eq : Amount.sub made.gross_total made.commission_total ≡ some made.net_total
    pub result :
        t ≡ tag_items b.vendor b.item_ids (record s { vendor_orders = made ∷ s.vendor_orders })

  pub split_vendor-IsSplit :
      (b : Bucket) (s : Store) {t : Store}
      → split_vendor rate_of org order currency b s ≡ some t
      → IsSplit b s t
  unfolding split_vendor
  split_vendor-IsSplit b s e =
      let (gross, e₁, k₁) = >>=-eq-some (sum b.totals) _ e in
      let (rate, e₂, k₂) = >>=-eq-some (rate_of b.vendor) _ k₁ in
      let (commission, e₃, k₃) = >>=-eq-some (percent gross rate) _ k₂ in
      let (net, e₄, k₄) = >>=-eq-some (Amount.sub gross commission) _ k₃ in
      let (s', e₅, k₅) = >>=-eq-some _ _ k₄ in
      record {
        made = record {
          organization_id = org;
          order_id = order;
          vendor_id = b.vendor;
          currency = currency;
          gross_total = gross;
          commission_rate = rate;
          commission_total = commission;
          net_total = net;
        };
        of_vendor = refl;
        gross_eq = e₁;
        commission_eq = e₃;
        net_eq = e₄;
        result = rw (← create_vendor_order-some _ s e₅) (sym (some-injective _ _ k₅));
      }

  IsSplit-IsBalanced : (b : Bucket) (s t : Store) (h : IsSplit b s t) → IsBalanced h.made
  IsSplit-IsBalanced b s t h =
      let (g, dg) = sum-Denotes-some b.totals h.gross_eq in
      let (c, dc) =
        percent-Denotes-some h.made.gross_total h.made.commission_rate h.commission_eq in
      let (net, e, dn) = sub-Denotes h.made.gross_total h.made.commission_total g c dg dc in
      let same : net ≡ h.made.net_total = some-injective _ _ (sym e ∙ h.net_eq) in
      (g, c, g -ℤ c, dg, dc, rw same at dn, omega int_laws)

  split_vendors-IsBalanced :
      (bs : List Bucket) (s : Store) {t : Store}
      → All IsBalanced s.vendor_orders
      → split_vendors rate_of org order currency bs s ≡ some t
      → All IsBalanced t.vendor_orders
  unfolding split_vendors
  split_vendors-IsBalanced [] s h e = rw (← some-injective _ _ e) h
  split_vendors-IsBalanced (b ∷ bs) s {t} h e =
      let (s', e₁, k) = >>=-eq-some (split_vendor rate_of org order currency b s) _ e in
      let step = split_vendor-IsSplit b s e₁ in
      let made = IsSplit-IsBalanced b s s' step in
      split_vendors-IsBalanced bs s' (rw (step.result, tag_items-vendor_orders) (made, h)) k

  -- If every vendor order in the store balances, so does every one after the split of an order that
  -- succeeds: its net total plus its commission is its gross total, to the ten-thousandth.
  pub split_order-IsBalanced :
      (rows : List Line) (s : Store) {t : Store}
      → All IsBalanced s.vendor_orders
      → split_order rate_of org order currency rows s ≡ some t
      → All IsBalanced t.vendor_orders
  unfolding split_order
  split_order-IsBalanced rows s h e = split_vendors-IsBalanced (group_lines [] rows) s h e
