-- ===== src/Edi/Parts.antt =====
-- The segments of the documents of internal/edi/edi.go can be written.
use teggo.Prelude.{◌≡◌, refl, ℕ, ◌+◌, true, List, [], ◌∷◌, ◌++◌, All}
use teggo.Prelude.Text.{Text, codes}
use teggo.Prelude.Text.Trim.{starts_plain, ends_plain, is_plain}
use teggo.Edi.{Segment}
use teggo.Edi.Segments.{IsClean, IsWritable, AreWritable, last_of}
use teggo.Edi.Fields.{IsField, clean, literal, is_clean, show_ℕ-IsField, pad_l-IsField, def-IsField}
use teggo.Edi.Writer.{Envelope, pad_l, AckLine, InvoiceLine, ShipLine}
use teggo.Edi.Documents.{
  Document, acknowledgement, invoice, ship_notice, ack_part, invoice_part, ship_part, trailer,
  ending,
}

pub record IsEnvelope (env : Envelope) : Type 0 where
  pub sender_id : IsField env.sender_id
  pub receiver_id : IsField env.receiver_id
  pub control_number : IsField env.control_number
  pub date : IsField env.date
  pub time : IsField env.time

pub record IsAck (l : AckLine) : Type 0 where
  pub line_no : IsField l.line_no
  pub sku : IsField l.sku
  pub quantity : IsField l.quantity
  pub uom : IsField l.uom
  pub unit_price : IsField l.unit_price
  pub status : IsField l.status

pub record IsBilled (l : InvoiceLine) : Type 0 where
  pub line_no : IsField l.line_no
  pub sku : IsField l.sku
  pub quantity : IsField l.quantity
  pub uom : IsField l.uom
  pub unit_price : IsField l.unit_price

pub record IsShipped (l : ShipLine) : Type 0 where
  pub sku : IsField l.sku
  pub quantity : IsField l.quantity
  pub uom : IsField l.uom

-- Each value of a document can be written.
unfoldable pub HasFields : Document → Type 0
HasFields (acknowledgement po lines) = IsField po × All IsAck lines
HasFields (invoice number po total lines) =
    IsField number × IsField po × IsField total × All IsBilled lines
HasFields (ship_notice ref po lines) = IsField ref × IsField po × All IsShipped lines

last_of-ends :
    (name : Text) (elems : List Text)
    → ends_plain name ≡ true
    → All IsField elems
    → ends_plain (last_of name elems) ≡ true
unfolding last_of
last_of-ends name [] h _ = h
last_of-ends name (e ∷ es) h (f, fs) = last_of-ends e es f.ends fs

fields-IsClean : (elems : List Text) → All IsField elems → All IsClean elems
fields-IsClean [] _ = tt
fields-IsClean (e ∷ es) (f, fs) = (f.is_clean_text, fields-IsClean es fs)

pub writable :
    (name : Text) (elems : List Text)
    → is_clean name ≡ true
    → starts_plain name ≡ true
    → ends_plain name ≡ true
    → All IsField elems
    → IsWritable name elems
writable name elems a b c fs = record {
  starts = b;
  clean = clean name a;
  all_clean = fields-IsClean elems fs;
  ends = last_of-ends name elems c fs;
}

pub AreWritable-append :
    (ss ts : List Segment) → AreWritable ss → AreWritable ts → AreWritable (ss ++ ts)
unfolding AreWritable
AreWritable-append [] ts _ q = q
AreWritable-append ([] ∷ ss) ts p q = absurd p
AreWritable-append ((name ∷ elems) ∷ ss) ts (p, ps) q = (p, AreWritable-append ss ts ps q)

-- The fixed texts that stand in the segments.
pub empty_field : IsField []
unfolding ends_plain
empty_field = literal [] refl refl

ea : IsField (codes "EA")
unfolding ends_plain is_plain
ea = literal (codes "EA") refl refl

vp : IsField (codes "VP")
unfolding ends_plain is_plain
vp = literal (codes "VP") refl refl

pub ack_part-AreWritable : (ls : List AckLine) → All IsAck ls → AreWritable (ack_part ls)
unfolding AreWritable ack_part starts_plain ends_plain is_plain
ack_part-AreWritable [] _ = tt
ack_part-AreWritable (l ∷ ls) (h, hs) =
    let uom = def-IsField l.uom (codes "EA") h.uom ea in
    let status = def-IsField l.status (codes "IA") h.status (literal (codes "IA") refl refl) in
    (
      writable (codes "PO1") _ refl refl refl
          (h.line_no, (h.quantity, (uom, (h.unit_price, (empty_field, (vp, (h.sku, tt))))))),
      (
        writable (codes "ACK") _ refl refl refl (status, (h.quantity, (uom, tt))),
        ack_part-AreWritable ls hs,
      ),
    )

pub invoice_part-AreWritable :
    (ls : List InvoiceLine) → All IsBilled ls → AreWritable (invoice_part ls)
unfolding AreWritable invoice_part starts_plain ends_plain is_plain
invoice_part-AreWritable [] _ = tt
invoice_part-AreWritable (l ∷ ls) (h, hs) =
    let uom = def-IsField l.uom (codes "EA") h.uom ea in
    (
      writable (codes "IT1") _ refl refl refl
          (h.line_no, (h.quantity, (uom, (h.unit_price, (empty_field, (vp, (h.sku, tt))))))),
      invoice_part-AreWritable ls hs,
    )

pub ship_part-AreWritable :
    (i : ℕ) (ls : List ShipLine) → All IsShipped ls → AreWritable (ship_part i ls)
unfolding AreWritable ship_part starts_plain ends_plain is_plain
ship_part-AreWritable i [] _ = tt
ship_part-AreWritable i (l ∷ ls) (h, hs) =
    let uom = def-IsField l.uom (codes "EA") h.uom ea in
    (
      writable (codes "HL") _ refl refl refl (
        show_ℕ-IsField (3 + i),
        (literal (codes "2") refl refl, (literal (codes "I") refl refl, tt)),
      ),
      (
        writable (codes "LIN") _ refl refl refl (empty_field, (vp, (h.sku, tt))),
        (
          writable (codes "SN1") _ refl refl refl (empty_field, (h.quantity, (uom, tt))),
          ship_part-AreWritable (i + 1) ls hs,
        ),
      ),
    )

pub start-IsWritable :
    (env : Envelope) (txn_set : Text)
    → IsEnvelope env
    → IsField txn_set
    → IsWritable (codes "ST") (txn_set ∷ pad_l env.control_number 4 ∷ [])
unfolding starts_plain ends_plain is_plain
start-IsWritable env txn_set h t =
    writable (codes "ST") _ refl refl refl
      (t, (pad_l-IsField env.control_number 4 h.control_number, tt))

pub trailer-AreWritable : (n : ℕ) → AreWritable (trailer n ∷ [])
unfolding AreWritable starts_plain ends_plain is_plain
trailer-AreWritable n = (writable (codes "CTT") _ refl refl refl (show_ℕ-IsField n, tt), tt)

pub ending-AreWritable : (env : Envelope) (n : ℕ) → IsEnvelope env → AreWritable (ending env n)
unfolding AreWritable starts_plain ends_plain is_plain
ending-AreWritable env n h =
    let one = literal (codes "1") refl refl in
    (
      writable (codes "SE") _ refl refl refl
          (show_ℕ-IsField (n + 1), (pad_l-IsField env.control_number 4 h.control_number, tt)),
      (
        writable (codes "GE") _ refl refl refl (one, (h.control_number, tt)),
        (
          writable (codes "IEA") _ refl refl refl
              (one, (pad_l-IsField env.control_number 9 h.control_number, tt)),
          tt,
        ),
      ),
    )
