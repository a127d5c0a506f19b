-- ===== src/Marketplace/Split/Tags.antt =====
-- The tags that `SplitOrder` sets on items.
use mathlib.Core.Option.{some-injective}
use teggo.Prelude.{
  ℕ, ◌+◌, ◌≡◌, false, Bool, ◌&&◌, Option, none, some, List, [], ◌∷◌, arith, String, >>=-eq-some,
  if◌then◌else◌, ◌==◌, occurrences, occurrences-append,
}
use teggo.Prelude.Text.{Text}
use teggo.Marketplace.Split.{
  Line, Store, Bucket, add_item, add_line, group_lines, tag_items, split_vendor, split_vendors,
  split_order,
}
use teggo.Marketplace.Split.Balance.{split_vendor-IsSplit}

module _ (i v : ℕ) where
  -- How often the item is tagged with the vendor.
  abbrev pub count_tags : List (ℕ × ℕ) → ℕ
  count_tags [] = 0
  count_tags ((j, w) ∷ tags) = (if i == j && v == w then 1 else 0) + count_tags tags

  abbrev is_vendor : Option ℕ → Bool
  is_vendor none = false
  is_vendor (some w) = v == w

  -- How many of the lines are the item with the vendor.
  abbrev pub count_lines : List Line → ℕ
  count_lines [] = 0
  count_lines (l ∷ ls) = (if i == l.id && is_vendor l.vendor_id then 1 else 0) + count_lines ls

  abbrev bucket_tags : List Bucket → ℕ
  bucket_tags [] = 0
  bucket_tags (b ∷ bs) = (if v == b.vendor then occurrences i b.item_ids else 0) + bucket_tags bs

  tag_items-count :
      (w : ℕ) (is : List ℕ) (s : Store)
      → count_tags (tag_items w is s).tags
        ≡ (if v == w then occurrences i is else 0) + count_tags s.tags
  unfolding tag_items
  tag_items-count w [] s = ground arith
  tag_items-count w (j ∷ is) s =
      ground (arith, tag_items-count w is (record s { tags = (j, w) ∷ s.tags }))

  add_item-count :
      (w j : ℕ) (t : Text) (bs : List Bucket)
      → bucket_tags (add_item w j t bs) ≡ bucket_tags bs + (if i == j && v == w then 1 else 0)
  unfolding add_item
  add_item-count w j t [] = ground arith
  add_item-count w j t (b ∷ bs) =
      ground (arith, add_item-count w j t bs, occurrences-append i b.item_ids (j ∷ []))

  add_line-count :
      (w : Option ℕ) (j : ℕ) (t : Text) (bs : List Bucket)
      → bucket_tags (add_line w j t bs) ≡ bucket_tags bs + (if i == j && is_vendor w then 1 else 0)
  unfolding add_line
  add_line-count none j t bs = ground arith
  add_line-count (some w) j t bs = add_item-count w j t bs

  group_lines-count :
      (ls : List Line) (bs : List Bucket)
      → bucket_tags (group_lines bs ls) ≡ bucket_tags bs + count_lines ls
  unfolding group_lines
  group_lines-count [] bs = omega arith
  group_lines-count (l ∷ ls) bs = omega (
    arith,
    group_lines-count ls (add_line l.vendor_id l.id l.row_total bs),
    add_line-count l.vendor_id l.id l.row_total bs,
  )

  module _ (rate_of : ℕ → Option Text) (org order : ℕ) (currency : String) where
    split_vendors-count :
        (bs : List Bucket) (s : Store) {t : Store}
        → split_vendors rate_of org order currency bs s ≡ some t
        → count_tags t.tags ≡ count_tags s.tags + bucket_tags bs
    unfolding split_vendors
    split_vendors-count [] s e = rw (← some-injective _ _ e) (omega arith)
    split_vendors-count (b ∷ bs) s {t} e =
        let (s', e₁, k) = >>=-eq-some (split_vendor rate_of org order currency b s) _ e in
        let step = split_vendor-IsSplit rate_of org order currency b s e₁ in
        let grown =
          tag_items-count b.vendor b.item_ids
            (record s { vendor_orders = step.made ∷ s.vendor_orders }) in
        let tagged : count_tags s'.tags
            ≡ (if v == b.vendor then occurrences i b.item_ids else 0) + count_tags s.tags =
          rw step.result grown in
        omega (arith, split_vendors-count bs s' k, tagged)

    -- A split that succeeds tags an item with a vendor exactly as often as the item stands among the
    -- lines with that vendor.
    split_order-tags :
        (rows : List Line) (s : Store) {t : Store}
        → split_order rate_of org order currency rows s ≡ some t
        → count_tags t.tags ≡ count_tags s.tags + count_lines rows
    unfolding split_order
    split_order-tags rows s e =
        omega (arith, split_vendors-count (group_lines [] rows) s e, group_lines-count rows [])
