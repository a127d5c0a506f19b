-- ===== src/Edi/Tests.antt =====
-- The documents of internal/edi/edi_test.go, and instances of the theorems.
use teggo.Prelude.{◌≡◌, refl, some, [], ◌∷◌, arith}
use teggo.Prelude.Text.{Text, codes, trim_space}
use teggo.Prelude.Text.Trim.{ends_plain, is_plain}
use teggo.Edi.{
  accepted, rejected, no_lines, parse_850, segments, segments_of, split, at, def, read_segments,
  read_segment, first_incomplete, product_id, pick,
}
use teggo.Edi.Fields.{literal}
use teggo.Edi.Writer.{Envelope, from_second}
use teggo.Edi.Documents.{Document, acknowledgement, encode, interchange}
use teggo.Edi.Parts.{IsEnvelope, HasFields}
use teggo.Edi.RoundTrip.{segments-encode}
use teggo.Edi.Orders.{Describes, parse_850-Describes}

abbrev po_850 : Text
po_850 =
    codes
      "ST*850*0001~BEG*00*SA*PO-7788**20240101~CUR*BY*USD~PO1*1*10*EA*25.0000**VP*WIDGET-1~SE*5*0001~"

parsed :
    parse_850 po_850
    ≡ accepted (record {
      po_number = codes "PO-7788";
      date = codes "20240101";
      currency = codes "USD";
      lines =
          record {
            line_no = codes "1";
            sku = codes "WIDGET-1";
            uom = codes "EA";
            quantity = codes "10";
            unit_price = codes "25.0000";
          }
          ∷ [];
    })
unfolding parse_850 segments segments_of split trim_space read_segments read_segment at product_id
    pick first_incomplete def
parsed = refl

lineless : parse_850 (codes "ST*850*1~BEG*00*SA*PO-1**20240101~SE*2*1~") ≡ rejected no_lines
unfolding parse_850 segments segments_of split trim_space read_segments read_segment at
lineless = refl

-- Without a vendor part, the first part is taken, be it the buyer's or not.
first_of_any :
    product_id (
      codes "PO1"
      ∷ []
      ∷ []
      ∷ []
      ∷ []
      ∷ []
      ∷ codes "UP"
      ∷ codes "0123"
      ∷ codes "BP"
      ∷ codes "B-7"
      ∷ [])
    ≡ codes "0123"
unfolding product_id pick
first_of_any = refl

parse_850-Describes_example : Describes (segments po_850) (parse_850 po_850)
parse_850-Describes_example = parse_850-Describes po_850

abbrev env : Envelope
env = record {
  sender_id = codes "TEGGO";
  receiver_id = codes "ACME";
  control_number = codes "100";
  date = codes "20240101";
  time = codes "1200";
}

abbrev ack : Document
ack = acknowledgement (codes "PO-7788") (
    record {
      line_no = codes "1";
      sku = codes "WIDGET-1";
      quantity = codes "10";
      uom = [];
      unit_price = codes "25.00";
      status = [];
    }
    ∷ [])

env-IsEnvelope : IsEnvelope env
unfolding ends_plain is_plain
env-IsEnvelope = record {
  sender_id = literal _ refl refl;
  receiver_id = literal _ refl refl;
  control_number = literal _ refl refl;
  date = literal _ refl refl;
  time = literal _ refl refl;
}

ack_fields : HasFields ack
unfolding HasFields ends_plain is_plain
ack_fields = (
  literal _ refl refl,
  (
    record {
      line_no = literal _ refl refl;
      sku = literal _ refl refl;
      quantity = literal _ refl refl;
      uom = literal _ refl refl;
      unit_price = literal _ refl refl;
      status = literal _ refl refl;
    },
    tt,
  ),
)

segments-encode_example :
    (t : Text) × (short_date : Text) × (from_second env.date ≡ some short_date)
    × (encode env ack ≡ some t)
    × (segments t ≡ interchange env short_date ack)
segments-encode_example = segments-encode env ack (omega arith) env-IsEnvelope ack_fields
