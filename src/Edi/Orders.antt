-- ===== src/Edi/Orders.antt =====
-- What `Parse850` of internal/edi/edi.go accepts, and why it rejects.
use mathlib.Core.List.{append-nil, append_assoc}
use mathlib.Core.Path.{subst}
use teggo.Prelude.{
  ◌≡◌, refl, sym, ◌∙◌, ap, ℕ, ◌+◌, Bool, true, false, not, ◌&&◌, ◌||◌, Option, none, some, List, [],
  ◌∷◌, ◌++◌, All, length, if◌then◌else◌, inl, inr, Bool-cases, arith,
}
use teggo.Prelude.Text.{Text, codes, text_eq, text_eq_iff}
use teggo.Edi.{
  Segment, segments, at, def, is_empty, PoLine, PurchaseOrder, Reading, line_of, is_named,
  second_is, read_segment, read_segments, not_an_850, missing_po_number, no_lines, incomplete_line,
  Parsed, rejected, accepted, is_incomplete, first_incomplete, checked_lines, has_none,
  nothing_read, parse_850,
}
use teggo.Edi.Lines.{ordered_line, line_of_lem}

-- Whether some ST segment announces an 850.
unfoldable pub announces : List Segment → Bool
announces [] = false
announces (s ∷ ss) = (is_named s (codes "ST") && second_is s (codes "850")) || announces ss

-- An element of the last segment of a name.
unfoldable pub last_of : Text → ℕ → Text → List Segment → Text
last_of name i last [] = last
last_of name i last (s ∷ ss) = last_of name i (if is_named s name then at s i else last) ss

-- The number and the date in the last BEG segment, and the currency in the last CUR segment.
abbrev pub number_of : Text → List Segment → Text
number_of = last_of (codes "BEG") 3

abbrev pub date_of : Text → List Segment → Text
date_of = last_of (codes "BEG") 5

abbrev pub currency_of : Text → List Segment → Text
currency_of = last_of (codes "CUR") 2

-- The lines of the PO1 segments.
unfoldable pub lines_of : List Segment → List PoLine
lines_of [] = []
lines_of (s ∷ ss) =
    let rest = lines_of ss in if is_named s (codes "PO1") then ordered_line s ∷ rest else rest

other_name :
    (s : Segment) (a b : Text) → is_named s a ≡ true → text_eq a b ≡ false → is_named s b ≡ false
other_name [] a b h k = refl
other_name (e ∷ es) a b h k = ap (λ x. text_eq x b) ((text_eq_iff e a).0 h) ∙ k

-- One segment, in the words above.
read_segment_lem :
    (s : Segment) (r : Reading)
    → let r' = read_segment s r in
      (r'.is_po ≡ (r.is_po || (is_named s (codes "ST") && second_is s (codes "850"))))
      × (r'.po.po_number ≡ (if is_named s (codes "BEG") then at s 3 else r.po.po_number))
      × (r'.po.lines ≡ r.po.lines ++ (if is_named s (codes "PO1") then line_of s ∷ [] else []))
      × (r'.po.date ≡ (if is_named s (codes "BEG") then at s 5 else r.po.date))
      × (r'.po.currency ≡ (if is_named s (codes "CUR") then at s 2 else r.po.currency))
unfolding read_segment
read_segment_lem s r = ground (
  arith,
  λ (h : is_named s (codes "ST") ≡ true). other_name s (codes "ST") (codes "BEG") h refl,
  λ (h : is_named s (codes "ST") ≡ true). other_name s (codes "ST") (codes "PO1") h refl,
  λ (h : is_named s (codes "BEG") ≡ true). other_name s (codes "BEG") (codes "PO1") h refl,
  λ (h : is_named s (codes "ST") ≡ true). other_name s (codes "ST") (codes "CUR") h refl,
  λ (h : is_named s (codes "BEG") ≡ true). other_name s (codes "BEG") (codes "CUR") h refl,
  λ (h : is_named s (codes "CUR") ≡ true). other_name s (codes "CUR") (codes "PO1") h refl,
  append-nil r.po.lines,
)

or_assoc : (a b c : Bool) → (a || b || c) ≡ (a || (b || c))
or_assoc true b c = refl
or_assoc false b c = refl

append-if :
    (c : Bool) (l : PoLine) (xs ys : List PoLine)
    → (xs ++ (if c then l ∷ [] else [])) ++ ys ≡ xs ++ (if c then l ∷ ys else ys)
append-if true l xs ys = append_assoc xs (l ∷ []) ys
append-if false l xs ys = ap (λ zs. zs ++ ys) (append-nil xs)

-- The loop of `Parse850`.
read_segments_lem :
    (ss : List Segment) (r : Reading)
    → let r' = read_segments ss r in
      (r'.is_po ≡ (r.is_po || announces ss))
      × (r'.po.po_number ≡ number_of r.po.po_number ss)
      × (r'.po.lines ≡ r.po.lines ++ lines_of ss)
      × (r'.po.date ≡ date_of r.po.date ss)
      × (r'.po.currency ≡ currency_of r.po.currency ss)
unfolding read_segments announces last_of lines_of
read_segments_lem [] r = (ground arith, refl, sym (append-nil r.po.lines), refl, refl)
read_segments_lem (s ∷ ss) r =
    let (a, b, c, d, e) = read_segment_lem s r in
    let (a', b', c', d', e') = read_segments_lem ss (read_segment s r) in
    (
      a' ∙ ap (λ x. x || announces ss) a ∙ or_assoc r.is_po _ (announces ss),
      b' ∙ ap (λ x. number_of x ss) b,
      c'
          ∙ ap (λ x. x ++ lines_of ss) c
          ∙ append-if (is_named s (codes "PO1")) (line_of s) _ _
          ∙ ap
              (λ l.
                r.po.lines ++ (if is_named s (codes "PO1") then l ∷ lines_of ss else lines_of ss))
              (line_of_lem s),
      d' ∙ ap (λ x. date_of x ss) d,
      e' ∙ ap (λ x. currency_of x ss) e,
    )

-- A line that stands n-th and is the first without a SKU or a quantity.
pub record IsFirstIncomplete (ls : List PoLine) (n : ℕ) : Type 0 where
  pub before : List PoLine
  pub line : PoLine
  pub after : List PoLine
  pub parts : ls ≡ before ++ (line ∷ after)
  pub place : n ≡ length before + 1
  pub complete_before : All (λ l. is_incomplete l ≡ false) before
  pub incomplete : is_incomplete line ≡ true

first_incomplete-none :
    (i : ℕ) (ls : List PoLine)
    → first_incomplete i ls ≡ none
    → All (λ l. is_incomplete l ≡ false) ls
unfolding first_incomplete
first_incomplete-none i [] h = tt
first_incomplete-none i (l ∷ ls) h = elim (Bool-cases (is_incomplete l)) [
  | inl bad ↦ absurd (ground arith)
  | inr fine ↦ (fine, first_incomplete-none (i + 1) ls (rw (first_incomplete, fine) at h))
]

first_incomplete-some :
    (i : ℕ) (ls : List PoLine) (n : ℕ)
    → first_incomplete i ls ≡ some n
    → (m : ℕ) × (n ≡ i + m) × IsFirstIncomplete ls m
unfolding first_incomplete
first_incomplete-some i [] n h = absurd (ground arith)
first_incomplete-some i (l ∷ ls) n h = elim (Bool-cases (is_incomplete l)) [
  | inl bad ↦ (
    1,
    ground arith,
    record {
      before = [];
      line = l;
      after = ls;
      parts = refl;
      place = omega arith;
      complete_before = tt;
      incomplete = bad;
    },
  )
  | inr fine ↦
      let (m, e, k) = first_incomplete-some (i + 1) ls n (rw (first_incomplete, fine) at h) in
      let p = k.place in
      (
        m + 1,
        omega arith,
        record {
          before = l ∷ k.before;
          line = k.line;
          after = k.after;
          parts = ap (◌∷◌ l) k.parts;
          place = omega arith;
          complete_before = (fine, k.complete_before);
          incomplete = k.incomplete;
        },
      )
]

-- What each outcome says of the segments of the document.
unfoldable pub Describes : List Segment → Parsed → Type 0
Describes ss (accepted po) =
    (announces ss ≡ true)
    × (po.po_number ≡ number_of [] ss)
    × (is_empty po.po_number ≡ false)
    × (po.lines ≡ lines_of ss)
    × (has_none po.lines ≡ false)
    × All (λ l. is_incomplete l ≡ false) po.lines
    × (po.date ≡ date_of [] ss)
    × (po.currency ≡ def (currency_of [] ss) (codes "USD"))
Describes ss (rejected not_an_850) = announces ss ≡ false
Describes ss (rejected missing_po_number) =
    (announces ss ≡ true) × (is_empty (number_of [] ss) ≡ true)
Describes ss (rejected no_lines) = (announces ss ≡ true) × (has_none (lines_of ss) ≡ true)
Describes ss (rejected (incomplete_line n)) =
    (announces ss ≡ true) × IsFirstIncomplete (lines_of ss) n

checked_lines-Describes :
    (ss : List Segment) (po : PurchaseOrder) (o : Option ℕ)
    → first_incomplete 0 po.lines ≡ o
    → announces ss ≡ true
    → po.po_number ≡ number_of [] ss
    → is_empty po.po_number ≡ false
    → po.lines ≡ lines_of ss
    → has_none po.lines ≡ false
    → po.date ≡ date_of [] ss
    → po.currency ≡ currency_of [] ss
    → Describes ss (checked_lines po o)
unfolding Describes
checked_lines-Describes ss po none h a b c d e f g =
    (a, b, c, d, e, first_incomplete-none 0 po.lines h, f, ap (λ x. def x (codes "USD")) g)
checked_lines-Describes ss po (some n) h a b c d e f g =
    let (m, p, k) = first_incomplete-some 0 po.lines n h in
    let same : m ≡ n = omega arith in
    (a, subst (λ ls. IsFirstIncomplete ls n) d (subst (IsFirstIncomplete po.lines) same k))

-- The tests of `Parse850` on what its loop has read.
decided : Reading → Parsed
decided r =
    if not r.is_po
    then rejected not_an_850
    else if is_empty r.po.po_number
    then rejected missing_po_number
    else if has_none r.po.lines
    then rejected no_lines
    else checked_lines r.po (first_incomplete 0 r.po.lines)

decided-Describes :
    (ss : List Segment) (r : Reading)
    → r.is_po ≡ announces ss
    → r.po.po_number ≡ number_of [] ss
    → r.po.lines ≡ lines_of ss
    → r.po.date ≡ date_of [] ss
    → r.po.currency ≡ currency_of [] ss
    → Describes ss (decided r)
unfolding decided Describes
decided-Describes ss r a b c d e = elim (Bool-cases r.is_po) [
  | inr none_announced ↦ rw (none_announced, decided) (sym a ∙ none_announced)
  | inl announced ↦ elim (Bool-cases (is_empty r.po.po_number)) [
    | inl unnumbered ↦
        rw (announced, unnumbered, decided) (sym a ∙ announced, ap is_empty (sym b) ∙ unnumbered)
    | inr numbered ↦ elim (Bool-cases (has_none r.po.lines)) [
      | inl lineless ↦
          rw (announced, numbered, lineless, decided)
            (sym a ∙ announced, ap has_none (sym c) ∙ lineless)
      | inr lined ↦
          rw (announced, numbered, lined, decided)
            (checked_lines-Describes ss r.po (first_incomplete 0 r.po.lines) refl
              (sym a ∙ announced) b numbered c lined d e)
    ]
  ]
]

-- Every document is accepted or rejected for what it is: an order is returned only from a document
-- with an ST segment for an 850, with the number, which is not empty, and the date of the last BEG
-- segment, with the currency of the last CUR segment or else USD, and with the lines of the PO1
-- segments in their order, each with the first value that VP or VN qualifies as its SKU, or without
-- one the first of any qualifier, of which there are some and each has a SKU and a quantity; and each
-- error names what is missing, in the order of the checks, the line number being that of the first
-- incomplete line.
pub parse_850-Describes : (raw : Text) → Describes (segments raw) (parse_850 raw)
unfolding parse_850 decided
parse_850-Describes raw =
    let (a, b, c, d, e) = read_segments_lem (segments raw) nothing_read in
    decided-Describes (segments raw) (read_segments (segments raw) nothing_read) a b c d e
