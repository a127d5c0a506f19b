-- ===== src/Edi/RoundTrip.antt =====
-- The documents of internal/edi/edi.go, written and read back.
use teggo.Prelude.{◌≡◌, refl, ◌≤◌, some, [], ◌∷◌, length, arith}
use teggo.Prelude.Text.{Text, codes}
use teggo.Prelude.Text.Trim.{starts_plain, ends_plain, is_plain}
use teggo.Edi.{segments}
use teggo.Edi.Segments.{IsClean, IsWritable, AreWritable, last_of, text_of, segments-text_of}
use teggo.Edi.Fields.{IsField, clean, literal, pad_l-IsField, pad_r-IsClean}
use teggo.Edi.Writer.{Envelope, from_second, isa, gs}
use teggo.Edi.Documents.{
  Document, acknowledgement, invoice, ship_notice, encode, ack_part, invoice_part, transaction,
  trailer, group_code, interchange,
}
use teggo.Edi.Parts.{
  IsEnvelope, HasFields, writable, AreWritable-append, empty_field, ack_part-AreWritable,
  invoice_part-AreWritable, ship_part-AreWritable, start-IsWritable, trailer-AreWritable,
  ending-AreWritable,
}
use teggo.Edi.Written.{encode-text}

short_date-IsClean :
    (date : Text)
    → 2 ≤ length date
    → IsClean date
    → (s : Text) × (from_second date ≡ some s) × IsClean s
short_date-IsClean [] h c = absurd (omega arith)
short_date-IsClean (a ∷ []) h c = absurd (omega arith)
short_date-IsClean (a ∷ b ∷ rest) h c =
    (rest, refl, record { no_elem_sep = c.no_elem_sep.1.1; no_seg_term = c.no_seg_term.1.1 })

isa-IsWritable :
    (env : Envelope) (short_date : Text)
    → IsEnvelope env
    → IsClean short_date
    → IsWritable (codes "ISA") (isa env short_date)
unfolding starts_plain ends_plain is_plain last_of
isa-IsWritable env short_date h s =
    let blank = pad_r-IsClean [] 10 (clean [] refl) in
    let zz = clean (codes "ZZ") refl in
    let oo = clean (codes "00") refl in
    record {
      starts = refl;
      clean = clean (codes "ISA") refl;
      all_clean = (
        oo,
        (
          blank,
          (
            oo,
            (
              blank,
              (
                zz,
                (
                  pad_r-IsClean env.sender_id 15 h.sender_id.is_clean_text,
                  (
                    zz,
                    (
                      pad_r-IsClean env.receiver_id 15 h.receiver_id.is_clean_text,
                      (
                        s,
                        (
                          h.time.is_clean_text,
                          (
                            clean (codes "U") refl,
                            (
                              clean (codes "00401") refl,
                              (
                                (pad_l-IsField env.control_number 9 h.control_number).is_clean_text,
                                (
                                  clean (codes "0") refl,
                                  (clean (codes "P") refl, (clean (codes ">") refl, tt)),
                                ),
                              ),
                            ),
                          ),
                        ),
                      ),
                    ),
                  ),
                ),
              ),
            ),
          ),
        ),
      );
      ends = refl;
    }

gs-IsWritable :
    (env : Envelope) (functional_id : Text)
    → IsEnvelope env
    → IsField functional_id
    → IsWritable (codes "GS") (gs env functional_id)
unfolding starts_plain ends_plain is_plain
gs-IsWritable env functional_id h f = writable (codes "GS") _ refl refl refl (
  f,
  (
    h.sender_id,
    (
      h.receiver_id,
      (
        h.date,
        (
          h.time,
          (
            h.control_number,
            (literal (codes "X") refl refl, (literal (codes "004010") refl refl, tt)),
          ),
        ),
      ),
    ),
  ),
)

transaction-AreWritable :
    (env : Envelope) (d : Document) → IsEnvelope env → HasFields d → AreWritable (transaction env d)
unfolding AreWritable HasFields transaction starts_plain ends_plain is_plain
transaction-AreWritable env (acknowledgement po lines) h (p, ls) = (
  start-IsWritable env (codes "855") h (literal (codes "855") refl refl),
  (
    writable (codes "BAK") _ refl refl refl (
      literal (codes "00") refl refl,
      (literal (codes "AC") refl refl, (p, (empty_field, (h.date, tt)))),
    ),
    AreWritable-append (ack_part lines) (trailer (length lines) ∷ [])
        (ack_part-AreWritable lines ls) (trailer-AreWritable (length lines)),
  ),
)
transaction-AreWritable env (invoice number po total lines) h (n, p, t, ls) = (
  start-IsWritable env (codes "810") h (literal (codes "810") refl refl),
  (
    writable (codes "BIG") _ refl refl refl (h.date, (n, (empty_field, (p, tt)))),
    AreWritable-append (invoice_part lines) _ (invoice_part-AreWritable lines ls)
        (writable (codes "TDS") _ refl refl refl (t, tt), trailer-AreWritable (length lines)),
  ),
)
transaction-AreWritable env (ship_notice ref po lines) h (r, p, ls) =
    let one = literal (codes "1") refl refl in
    (
      start-IsWritable env (codes "856") h (literal (codes "856") refl refl),
      (
        writable (codes "BSN") _ refl refl refl
            (literal (codes "00") refl refl, (r, (h.date, (h.time, tt)))),
        (
          writable (codes "HL") _ refl refl refl
              (one, (empty_field, (literal (codes "S") refl refl, tt))),
          (
            writable (codes "HL") _ refl refl refl
                (literal (codes "2") refl refl, (one, (literal (codes "O") refl refl, tt))),
            (writable (codes "PRF") _ refl refl refl (p, tt), ship_part-AreWritable 0 lines ls),
          ),
        ),
      ),
    )

group_code-IsField : (d : Document) → IsField (group_code d)
unfolding ends_plain is_plain
group_code-IsField (acknowledgement po lines) = literal (codes "PR") refl refl
group_code-IsField (invoice number po total lines) = literal (codes "IN") refl refl
group_code-IsField (ship_notice ref po lines) = literal (codes "SH") refl refl

-- A date of at least two bytes and values without separators and without space at their ends: each
-- of the three documents is written without a panic, and its text is read back as the segments of
-- the document: the interchange and group headers, the transaction with a pair, one or three
-- segments for each line, in their order, and the trailers, of which SE holds the number of the
-- segments from ST to SE.
pub segments-encode :
    (env : Envelope) (d : Document)
    → 2 ≤ length env.date
    → IsEnvelope env
    → HasFields d
    → (t : Text) × (short_date : Text) × (from_second env.date ≡ some short_date)
      × (encode env d ≡ some t)
      × (segments t ≡ interchange env short_date d)
unfolding interchange AreWritable
segments-encode env d long h fields =
    let (short_date, e, s) = short_date-IsClean env.date long h.date.is_clean_text in
    (
      text_of (interchange env short_date d),
      short_date,
      e,
      encode-text env d short_date e,
      segments-text_of (interchange env short_date d) (
        isa-IsWritable env short_date h s,
        (
          gs-IsWritable env (group_code d) h (group_code-IsField d),
          AreWritable-append (transaction env d) _ (transaction-AreWritable env d h fields)
              (ending-AreWritable env (length (transaction env d)) h),
        ),
      ),
    )
