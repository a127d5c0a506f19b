-- ===== src/Edi.antt =====
-- internal/edi/edi.go: the documents of X12, as texts of bytes. A segment is the list of its elements,
-- the name first.
pub mod Writer
pub mod Segments
pub mod Fields
pub mod Documents
pub mod Written
pub mod Parts
pub mod RoundTrip
pub mod Lines
pub mod Orders
pub mod Tests
use teggo.Prelude.{
  ℕ, zero, suc, ◌+◌, Bool, true, false, not, ◌&&◌, ◌||◌, Option, none, some, List, [], ◌∷◌, ◌++◌,
  ◌==◌, if◌then◌else◌,
}
use teggo.Prelude.Text.{Text, codes, text_eq, trim_space}

abbrev pub elem_sep : ℕ
elem_sep = b'*'

abbrev pub seg_term : ℕ
seg_term = b'~'

abbrev pub Segment : Type 0
Segment = List Text

-- The first part of a split text grows at its front.
abbrev pub cons_first : ℕ → List Text → List Text
cons_first c [] = (c ∷ []) ∷ []
cons_first c (part ∷ parts) = (c ∷ part) ∷ parts

-- `strings.Split(s, sep)` for a separator of one byte.
unfoldable pub split : ℕ → Text → List Text
split sep [] = [] ∷ []
split sep (c ∷ s) = if c == sep then [] ∷ split sep s else cons_first c (split sep s)

abbrev pub is_empty : Text → Bool
is_empty [] = true
is_empty (c ∷ s) = false

-- The loop of `segments` over the parts.
unfoldable pub segments_of : List Text → List Segment
segments_of [] = []
segments_of (part ∷ parts) =
    let trimmed = trim_space part in
    if is_empty trimmed then segments_of parts else split elem_sep trimmed ∷ segments_of parts

unfoldable pub segments : Text → List Segment
segments raw = segments_of (split seg_term raw)

abbrev pub nth : Segment → ℕ → Option Text
nth [] i = none
nth (e ∷ es) zero = some e
nth (e ∷ es) (suc i) = nth es i

abbrev pub trimmed_or_empty : Option Text → Text
trimmed_or_empty none = []
trimmed_or_empty (some e) = trim_space e

-- `at`
unfoldable pub at : Segment → ℕ → Text
at s i = trimmed_or_empty (nth s i)

-- `def`
unfoldable pub def : Text → Text → Text
def v d = if is_empty v then d else v

pub record PoLine : Type 0 where
  pub line_no : Text
  pub sku : Text
  pub uom : Text
  pub quantity : Text
  pub unit_price : Text

pub record PurchaseOrder : Type 0 where
  pub po_number : Text
  pub date : Text
  pub currency : Text
  pub lines : List PoLine

abbrev pub drop : ℕ → Segment → Segment
drop zero s = s
drop (suc n) [] = []
drop (suc n) (e ∷ es) = drop n es

-- The loop of `productID` over the pairs of a qualifier and a value.
unfoldable pub pick : Text → Segment → Text
pick fallback (qual ∷ val ∷ rest) =
    let next = pick (if is_empty fallback then val else fallback) rest in
    let skip = pick fallback rest in
    if is_empty val
    then skip
    else if text_eq qual (codes "VP") || text_eq qual (codes "VN")
    then val
    else next
pick fallback s = fallback

unfoldable pub product_id : Segment → Text
product_id s = pick [] (drop 6 s)

-- The variables of `Parse850`.
pub record Reading : Type 0 where
  pub po : PurchaseOrder
  pub is_po : Bool

abbrev pub line_of : Segment → PoLine
line_of s = record {
  line_no = at s 1;
  sku = product_id s;
  uom = at s 3;
  quantity = at s 2;
  unit_price = at s 4;
}

abbrev pub is_named : Segment → Text → Bool
is_named [] name = false
is_named (e ∷ es) name = text_eq e name

abbrev pub second_is : Segment → Text → Bool
second_is (e ∷ x ∷ es) t = text_eq x t
second_is s t = false

-- The `switch` on the name of a segment.
unfoldable pub read_segment : Segment → Reading → Reading
read_segment s r =
    if is_named s (codes "ST")
    then (if second_is s (codes "850") then record r { is_po = true } else r)
    else if is_named s (codes "BEG")
    then record r { po = record po { po_number = at s 3; date = at s 5 } }
    else if is_named s (codes "CUR")
    then record r { po = record po { currency = at s 2 } }
    else if is_named s (codes "PO1")
    then record r { po = record po { lines = po.lines ++ (line_of s ∷ []) } }
    else r
  where
    open r use {po}

unfoldable pub read_segments : List Segment → Reading → Reading
read_segments [] r = r
read_segments (s ∷ ss) r = read_segments ss (read_segment s r)

-- The errors of `Parse850`.
pub data Fault : Type 0 where
  not_an_850 : Fault
  missing_po_number : Fault
  no_lines : Fault
  incomplete_line : ℕ → Fault

pub data Parsed : Type 0 where
  rejected : Fault → Parsed
  accepted : PurchaseOrder → Parsed

abbrev pub is_incomplete : PoLine → Bool
is_incomplete l = is_empty l.sku || is_empty l.quantity

-- The first line without a SKU or a quantity, counted from i + 1.
unfoldable pub first_incomplete : ℕ → List PoLine → Option ℕ
first_incomplete i [] = none
first_incomplete i (l ∷ ls) = if is_incomplete l then some (i + 1) else first_incomplete (i + 1) ls

abbrev pub checked_lines : PurchaseOrder → Option ℕ → Parsed
checked_lines po (some n) = rejected (incomplete_line n)
checked_lines po none = accepted (record po { currency = def po.currency (codes "USD") })

abbrev pub has_none : List PoLine → Bool
has_none [] = true
has_none (l ∷ ls) = false

abbrev pub nothing_read : Reading
nothing_read = record {
  po = record { po_number = []; date = []; currency = []; lines = [] };
  is_po = false;
}

-- `Parse850`
unfoldable pub parse_850 : Text → Parsed
parse_850 raw =
    let r = read_segments (segments raw) nothing_read in
    if not r.is_po
    then rejected not_an_850
    else if is_empty r.po.po_number
    then rejected missing_po_number
    else if has_none r.po.lines
    then rejected no_lines
    else checked_lines r.po (first_incomplete 0 r.po.lines)
