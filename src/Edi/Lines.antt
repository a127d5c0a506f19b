-- ===== src/Edi/Lines.antt =====
-- The line that a PO1 segment of an 850 orders, under `productID` of internal/edi/edi.go.

use teggo.Prelude.{
  ◌≡◌, refl, ◌∙◌, ap, ◌||◌, Option, none, some, List, [], ◌∷◌, if◌then◌else◌, inl, inr, Bool-cases,
}
use teggo.Prelude.Text.{Text, codes, text_eq}
use teggo.Edi.{pick, product_id, drop, Segment, at, is_empty, PoLine, line_of}

-- The pairs of a qualifier and a value in the elements of a PO1 segment, but those without a value.
unfoldable pub filled_pairs : List Text → List (Text × Text)
filled_pairs (qual ∷ val ∷ rest) =
    let pairs = filled_pairs rest in if is_empty val then pairs else (qual, val) ∷ pairs
filled_pairs es = []

-- The first vendor's part number.
unfoldable pub vendor_part : List (Text × Text) → Option Text
vendor_part [] = none
vendor_part ((qual, val) ∷ pairs) =
    let rest = vendor_part pairs in
    if text_eq qual (codes "VP") || text_eq qual (codes "VN") then some val else rest

abbrev pub first_part : List (Text × Text) → Text
first_part [] = []
first_part ((qual, val) ∷ pairs) = val

abbrev pub part_or : Text → Option Text → Text
part_or default none = default
part_or default (some val) = val

-- The vendor's part number from the seventh element on, or else the first of any kind.
abbrev pub sku_of : Segment → Text
sku_of s = let pairs = filled_pairs (drop 6 s) in part_or (first_part pairs) (vendor_part pairs)

-- The line of a PO1 segment.
abbrev pub ordered_line : Segment → PoLine
ordered_line s = record {
  line_no = at s 1;
  sku = sku_of s;
  uom = at s 3;
  quantity = at s 2;
  unit_price = at s 4;
}

abbrev or_first : Text → List (Text × Text) → Text
or_first fallback pairs = if is_empty fallback then first_part pairs else fallback

pick_lem :
    (fallback : Text) (es : List Text)
    → pick fallback es
      ≡ part_or (or_first fallback (filled_pairs es)) (vendor_part (filled_pairs es))
unfolding pick filled_pairs vendor_part
pick_lem fallback (qual ∷ val ∷ rest) = elim (Bool-cases (is_empty val)) [
  | inl blank ↦ rw blank (pick_lem fallback rest)
  | inr given ↦ elim (Bool-cases (text_eq qual (codes "VP") || text_eq qual (codes "VN"))) [
    | inl vendor ↦ rw (given, vendor) refl
    | inr other ↦ elim (Bool-cases (is_empty fallback)) [
      | inl first_one ↦ rw (given, other, first_one) (pick_lem val rest ∙ rw given refl)
      | inr later ↦ rw (given, other, later) (pick_lem fallback rest ∙ rw later refl)
    ]
  ]
]
pick_lem [] [] = refl
pick_lem (c ∷ f) [] = refl
pick_lem [] (e ∷ []) = refl
pick_lem (c ∷ f) (e ∷ []) = refl

product_id_lem : (s : Segment) → product_id s ≡ sku_of s
unfolding product_id
product_id_lem s = pick_lem [] (drop 6 s)

pub line_of_lem : (s : Segment) → line_of s ≡ ordered_line s
line_of_lem s =
    ap
      (λ sku. record {
        line_no = at s 1;
        sku = sku;
        uom = at s 3;
        quantity = at s 2;
        unit_price = at s 4;
      })
      (product_id_lem s)
