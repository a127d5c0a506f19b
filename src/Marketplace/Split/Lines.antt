-- ===== src/Marketplace/Split/Lines.antt =====
-- The gross totals of a split against the lines' row totals.
use mathlib.Core.Option.{some-injective}
use teggo.Prelude.{
  ℕ, ◌≡◌, Option, none, some, List, [], ◌∷◌, All, All-append, Bool-cases, inl, inr, String,
  >>=-eq-some, ◌==◌,
}
use teggo.Prelude.Text.{Text}
use teggo.Prelude.Int.{ℤ, pos, ◌+ℤ◌, int_laws}
use teggo.Money.Amount.Sums.{amount_of, IsExact, sum_by, sum_by-snoc, sum-amount_of}
use teggo.Marketplace.Split.{
  Line, VendorOrder, Store, Bucket, add_item, add_line, group_lines, split_vendor, split_vendors,
  split_order,
}
use teggo.Marketplace.Split.Balance.{split_vendor-IsSplit, tag_items-vendor_orders}

abbrev bucket_value : Bucket → ℤ
bucket_value b = sum_by amount_of b.totals

-- What a line brings to the vendors.
abbrev pub vendor_value : Option ℕ → Text → ℤ
vendor_value none t = pos 0
vendor_value (some v) t = amount_of t

abbrev pub line_value : Line → ℤ
line_value l = vendor_value l.vendor_id l.row_total

add_item-value :
    (v i : ℕ) (t : Text) (bs : List Bucket)
    → sum_by bucket_value (add_item v i t bs) ≡ sum_by bucket_value bs +ℤ amount_of t
unfolding add_item
add_item-value v i t [] = omega int_laws
add_item-value v i t (b ∷ bs) = elim (Bool-cases (b.vendor == v)) [
  | inl own ↦ rw (own, sum_by-snoc amount_of b.totals t) (omega int_laws)
  | inr other ↦ rw (other, add_item-value v i t bs) (omega int_laws)
]

add_line-value :
    (v : Option ℕ) (i : ℕ) (t : Text) (bs : List Bucket)
    → sum_by bucket_value (add_line v i t bs) ≡ sum_by bucket_value bs +ℤ vendor_value v t
unfolding add_line
add_line-value none i t bs = omega int_laws
add_line-value (some v) i t bs = add_item-value v i t bs

group_lines-value :
    (ls : List Line) (bs : List Bucket)
    → sum_by bucket_value (group_lines bs ls) ≡ sum_by bucket_value bs +ℤ sum_by line_value ls
unfolding group_lines
group_lines-value [] bs = omega int_laws
group_lines-value (l ∷ ls) bs =
    rw
      (
        group_lines-value ls (add_line l.vendor_id l.id l.row_total bs),
        add_line-value l.vendor_id l.id l.row_total bs,
      )
      (omega int_laws)

abbrev AllExact : List Bucket → Type 0
AllExact = All λ b. All IsExact b.totals

add_item-AllExact :
    (v i : ℕ) (t : Text) (bs : List Bucket) → IsExact t → AllExact bs → AllExact (add_item v i t bs)
unfolding add_item
add_item-AllExact v i t [] h hs = ((h, tt), tt)
add_item-AllExact v i t (b ∷ bs) h (hb, hs) = elim (Bool-cases (b.vendor == v)) [
  | inl own ↦ rw own (All-append IsExact b.totals (t ∷ []) hb (h, tt), hs)
  | inr other ↦ rw other (hb, add_item-AllExact v i t bs h hs)
]

add_line-AllExact :
    (v : Option ℕ) (i : ℕ) (t : Text) (bs : List Bucket)
    → IsExact t
    → AllExact bs
    → AllExact (add_line v i t bs)
unfolding add_line
add_line-AllExact none i t bs h hs = hs
add_line-AllExact (some v) i t bs h hs = add_item-AllExact v i t bs h hs

group_lines-AllExact :
    (ls : List Line) (bs : List Bucket)
    → All (λ l. IsExact l.row_total) ls
    → AllExact bs
    → AllExact (group_lines bs ls)
unfolding group_lines
group_lines-AllExact [] bs h hs = hs
group_lines-AllExact (l ∷ ls) bs (h, t) hs =
    group_lines-AllExact ls (add_line l.vendor_id l.id l.row_total bs) t
      (add_line-AllExact l.vendor_id l.id l.row_total bs h hs)

abbrev pub gross_of : VendorOrder → ℤ
gross_of o = amount_of o.gross_total

module _ (rate_of : ℕ → Option Text) (org order : ℕ) (currency : String) where
  split_vendors-gross :
      (bs : List Bucket) (s : Store) {t : Store}
      → AllExact bs
      → split_vendors rate_of org order currency bs s ≡ some t
      → sum_by gross_of t.vendor_orders ≡ sum_by gross_of s.vendor_orders +ℤ sum_by bucket_value bs
  unfolding split_vendors
  split_vendors-gross [] s h e = rw (← some-injective _ _ e) (omega int_laws)
  split_vendors-gross (b ∷ bs) s {t} (hb, hs) e =
      let (s', e₁, k) = >>=-eq-some (split_vendor rate_of org order currency b s) _ e in
      let step = split_vendor-IsSplit rate_of org order currency b s e₁ in
      let grew : sum_by gross_of s'.vendor_orders
          ≡ gross_of step.made +ℤ sum_by gross_of s.vendor_orders =
        rw (step.result, tag_items-vendor_orders) in
      rw (split_vendors-gross bs s' hs k, grew, sum-amount_of b.totals hb step.gross_eq)
        (omega int_laws)

  -- If the row totals are exact amounts, a split that succeeds adds to the gross totals of the vendor
  -- orders just the row totals of the lines that have a vendor.
  pub split_order-gross :
      (rows : List Line) (s : Store) {t : Store}
      → All (λ l. IsExact l.row_total) rows
      → split_order rate_of org order currency rows s ≡ some t
      → sum_by gross_of t.vendor_orders ≡ sum_by gross_of s.vendor_orders +ℤ sum_by line_value rows
  unfolding split_order
  split_order-gross rows s h e =
      rw (split_vendors-gross (group_lines [] rows) s (group_lines-AllExact rows [] h tt) e)
        (rw (group_lines-value rows []) (omega int_laws))
