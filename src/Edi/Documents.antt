-- ===== src/Edi/Documents.antt =====
-- The three documents that internal/edi/edi.go writes, as lists of segments, and the writer.

use teggo.Prelude.{ℕ, ◌+◌, Option, List, [], ◌∷◌, ◌++◌, length}
use teggo.Prelude.Text.{Text, codes}
use teggo.Money.Decimal.{show_ℕ}
use teggo.Edi.{Segment, def}
use teggo.Edi.Writer.{
  Envelope, pad_l, isa, gs, AckLine, encode_855, InvoiceLine, encode_810, ShipLine, encode_856,
}

pub data Document : Type 0 where
  acknowledgement : Text → List AckLine → Document
  invoice : Text → Text → Text → List InvoiceLine → Document
  ship_notice : Text → Text → List ShipLine → Document

abbrev pub encode : Envelope → Document → Option Text
encode env (acknowledgement po lines) = encode_855 env po lines
encode env (invoice number po total lines) = encode_810 env number po total lines
encode env (ship_notice ref po lines) = encode_856 env ref po lines

unfoldable pub ack_part : List AckLine → List Segment
ack_part [] = []
ack_part (l ∷ ls) =
    (codes "PO1"
      ∷ l.line_no
      ∷ l.quantity
      ∷ def l.uom (codes "EA")
      ∷ l.unit_price
      ∷ []
      ∷ codes "VP"
      ∷ l.sku
      ∷ [])
    ∷ (codes "ACK" ∷ def l.status (codes "IA") ∷ l.quantity ∷ def l.uom (codes "EA") ∷ [])
    ∷ ack_part ls

unfoldable pub invoice_part : List InvoiceLine → List Segment
invoice_part [] = []
invoice_part (l ∷ ls) =
    (codes "IT1"
      ∷ l.line_no
      ∷ l.quantity
      ∷ def l.uom (codes "EA")
      ∷ l.unit_price
      ∷ []
      ∷ codes "VP"
      ∷ l.sku
      ∷ [])
    ∷ invoice_part ls

unfoldable pub ship_part : ℕ → List ShipLine → List Segment
ship_part i [] = []
ship_part i (l ∷ ls) =
    (codes "HL" ∷ show_ℕ (3 + i) ∷ codes "2" ∷ codes "I" ∷ [])
    ∷ (codes "LIN" ∷ [] ∷ codes "VP" ∷ l.sku ∷ [])
    ∷ (codes "SN1" ∷ [] ∷ l.quantity ∷ def l.uom (codes "EA") ∷ [])
    ∷ ship_part (i + 1) ls

abbrev pub start : Text → Envelope → Segment
start txn_set env = codes "ST" ∷ txn_set ∷ pad_l env.control_number 4 ∷ []

abbrev pub trailer : ℕ → Segment
trailer n = codes "CTT" ∷ show_ℕ n ∷ []

-- The segments between the group header and the SE segment.
unfoldable pub transaction : Envelope → Document → List Segment
transaction env (acknowledgement po lines) =
    start (codes "855") env
    ∷ (codes "BAK" ∷ codes "00" ∷ codes "AC" ∷ po ∷ [] ∷ env.date ∷ [])
    ∷ (ack_part lines ++ (trailer (length lines) ∷ []))
transaction env (invoice number po total lines) =
    start (codes "810") env
    ∷ (codes "BIG" ∷ env.date ∷ number ∷ [] ∷ po ∷ [])
    ∷ (invoice_part lines ++ ((codes "TDS" ∷ total ∷ []) ∷ trailer (length lines) ∷ []))
transaction env (ship_notice ref po lines) =
    start (codes "856") env
    ∷ (codes "BSN" ∷ codes "00" ∷ ref ∷ env.date ∷ env.time ∷ [])
    ∷ (codes "HL" ∷ codes "1" ∷ [] ∷ codes "S" ∷ [])
    ∷ (codes "HL" ∷ codes "2" ∷ codes "1" ∷ codes "O" ∷ [])
    ∷ (codes "PRF" ∷ po ∷ [])
    ∷ ship_part 0 lines

abbrev pub group_code : Document → Text
group_code (acknowledgement po lines) = codes "PR"
group_code (invoice number po total lines) = codes "IN"
group_code (ship_notice ref po lines) = codes "SH"

-- The SE segment counts the segments from ST to itself.
abbrev pub ending : Envelope → ℕ → List Segment
ending env n =
    (codes "SE" ∷ show_ℕ (n + 1) ∷ pad_l env.control_number 4 ∷ [])
    ∷ (codes "GE" ∷ codes "1" ∷ env.control_number ∷ [])
    ∷ (codes "IEA" ∷ codes "1" ∷ pad_l env.control_number 9 ∷ [])
    ∷ []

unfoldable pub interchange : Envelope → Text → Document → List Segment
interchange env short_date d =
    (codes "ISA" ∷ isa env short_date)
    ∷ (codes "GS" ∷ gs env (group_code d))
    ∷ (transaction env d ++ ending env (length (transaction env d)))
