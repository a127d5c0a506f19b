-- ===== src/Edi/Writer.antt =====
-- The documents that internal/edi/edi.go writes. `none` is the panic of a slice `env.Date[2:]` out of
-- range.
use teggo.Prelude.{ℕ, zero, suc, ◌+◌, ◌-◌, Option, none, some, List, [], ◌∷◌, ◌++◌, length, ◌>>=◌}
use teggo.Prelude.Text.{Text, codes}
use teggo.Money.Decimal.{show_ℕ}
use teggo.Edi.{elem_sep, seg_term, def}

-- `writer`
pub record Writer : Type 0 where
  pub sb : Text
  pub seg_count : ℕ

abbrev pub new_writer : Writer
new_writer = record { sb = []; seg_count = 0 }

-- The loop of `raw`.
unfoldable pub write_elems : List Text → Text → Text
write_elems [] sb = sb
write_elems (e ∷ es) sb = write_elems es ((sb ++ (elem_sep ∷ [])) ++ e)

-- `raw`
unfoldable pub raw : Text → List Text → Writer → Writer
raw name elems w = record w { sb = write_elems elems (w.sb ++ name) ++ (seg_term ∷ []) }

-- `seg`
unfoldable pub seg : Text → List Text → Writer → Writer
seg name elems w = raw name elems (record w { seg_count = w.seg_count + 1 })

-- `padR`, by the rounds of its loop.
unfoldable pub spaces_after : ℕ → Text → Text
spaces_after zero s = s
spaces_after (suc n) s = spaces_after n (s ++ (b' ' ∷ []))

unfoldable pub pad_r : Text → ℕ → Text
pad_r s n = spaces_after (n - length s) s

-- `padL`, by the rounds of its loop.
unfoldable pub zeros_before : ℕ → Text → Text
zeros_before zero s = s
zeros_before (suc n) s = zeros_before n (b'0' ∷ s)

unfoldable pub pad_l : Text → ℕ → Text
pad_l s n = zeros_before (n - length s) s

pub record Envelope : Type 0 where
  pub sender_id : Text
  pub receiver_id : Text
  pub control_number : Text
  pub date : Text
  pub time : Text

-- `date[2:]`
abbrev pub from_second : Text → Option Text
from_second (a ∷ b ∷ rest) = some rest
from_second s = none

abbrev pub isa : Envelope → Text → List Text
isa env short_date =
    codes "00"
    ∷ pad_r [] 10
    ∷ codes "00"
    ∷ pad_r [] 10
    ∷ codes "ZZ"
    ∷ pad_r env.sender_id 15
    ∷ codes "ZZ"
    ∷ pad_r env.receiver_id 15
    ∷ short_date
    ∷ env.time
    ∷ codes "U"
    ∷ codes "00401"
    ∷ pad_l env.control_number 9
    ∷ codes "0"
    ∷ codes "P"
    ∷ codes ">"
    ∷ []

abbrev pub gs : Envelope → Text → List Text
gs env functional_id =
    functional_id
    ∷ env.sender_id
    ∷ env.receiver_id
    ∷ env.date
    ∷ env.time
    ∷ env.control_number
    ∷ codes "X"
    ∷ codes "004010"
    ∷ []

-- `envelope`
unfoldable pub envelope : Envelope → Text → Text → Writer → Option Writer
envelope env txn_set functional_id w = do
  short_date ← from_second env.date
  some (
      seg (codes "ST") (txn_set ∷ pad_l env.control_number 4 ∷ [])
        (raw (codes "GS") (gs env functional_id) (raw (codes "ISA") (isa env short_date) w)))

-- `close`
unfoldable pub close : Envelope → Writer → Text
close env w =
    let count = show_ℕ (w.seg_count + 1) in
    let se = raw (codes "SE") (count ∷ pad_l env.control_number 4 ∷ []) w in
    let ge = raw (codes "GE") (codes "1" ∷ env.control_number ∷ []) se in
    (raw (codes "IEA") (codes "1" ∷ pad_l env.control_number 9 ∷ []) ge).sb

pub record AckLine : Type 0 where
  pub line_no : Text
  pub sku : Text
  pub quantity : Text
  pub uom : Text
  pub unit_price : Text
  pub status : Text

abbrev pub ack_segs : AckLine → Writer → Writer
ack_segs l w =
    seg (codes "ACK") (def l.status (codes "IA") ∷ l.quantity ∷ def l.uom (codes "EA") ∷ []) (
      seg (codes "PO1")
        (l.line_no
          ∷ l.quantity
          ∷ def l.uom (codes "EA")
          ∷ l.unit_price
          ∷ []
          ∷ codes "VP"
          ∷ l.sku
          ∷ [])
        w)

unfoldable pub ack_lines : List AckLine → Writer → Writer
ack_lines [] w = w
ack_lines (l ∷ ls) w = ack_lines ls (ack_segs l w)

-- `Encode855`
unfoldable pub encode_855 : Envelope → Text → List AckLine → Option Text
encode_855 env po_number lines = do
  w ← envelope env (codes "855") (codes "PR") new_writer
  some (
      close env (
        seg (codes "CTT") (show_ℕ (length lines) ∷ []) (
          ack_lines lines
            (seg (codes "BAK") (codes "00" ∷ codes "AC" ∷ po_number ∷ [] ∷ env.date ∷ []) w))))

pub record InvoiceLine : Type 0 where
  pub line_no : Text
  pub sku : Text
  pub quantity : Text
  pub uom : Text
  pub unit_price : Text
  pub amount : Text

unfoldable pub invoice_lines : List InvoiceLine → Writer → Writer
invoice_lines [] w = w
invoice_lines (l ∷ ls) w = invoice_lines ls (
    seg (codes "IT1")
      (l.line_no
        ∷ l.quantity
        ∷ def l.uom (codes "EA")
        ∷ l.unit_price
        ∷ []
        ∷ codes "VP"
        ∷ l.sku
        ∷ [])
      w)

-- `Encode810`
unfoldable pub encode_810 : Envelope → Text → Text → Text → List InvoiceLine → Option Text
encode_810 env invoice_number po_number total lines = do
  w ← envelope env (codes "810") (codes "IN") new_writer
  some (
      close env (
        seg (codes "CTT") (show_ℕ (length lines) ∷ []) (
          seg (codes "TDS") (total ∷ []) (
            invoice_lines lines
              (seg (codes "BIG") (env.date ∷ invoice_number ∷ [] ∷ po_number ∷ []) w)))))

pub record ShipLine : Type 0 where
  pub sku : Text
  pub quantity : Text
  pub uom : Text

-- The loop of `Encode856`, at the index i.
unfoldable pub ship_lines : ℕ → List ShipLine → Writer → Writer
ship_lines i [] w = w
ship_lines i (l ∷ ls) w = ship_lines (i + 1) ls (
    seg (codes "SN1") ([] ∷ l.quantity ∷ def l.uom (codes "EA") ∷ []) (
      seg (codes "LIN") ([] ∷ codes "VP" ∷ l.sku ∷ [])
        (seg (codes "HL") (show_ℕ (3 + i) ∷ codes "2" ∷ codes "I" ∷ []) w)))

-- `Encode856`
unfoldable pub encode_856 : Envelope → Text → Text → List ShipLine → Option Text
encode_856 env shipment_ref po_number lines = do
  w ← envelope env (codes "856") (codes "SH") new_writer
  some (
      close env (
        ship_lines 0 lines (
          seg (codes "PRF") (po_number ∷ []) (
            seg (codes "HL") (codes "2" ∷ codes "1" ∷ codes "O" ∷ []) (
              seg (codes "HL") (codes "1" ∷ [] ∷ codes "S" ∷ [])
                (seg (codes "BSN") (codes "00" ∷ shipment_ref ∷ env.date ∷ env.time ∷ []) w))))))
