-- ===== src/Edi/Written.antt =====
-- The writer of internal/edi/edi.go writes just the segments of its documents.
use mathlib.Core.List.{append-nil, append_assoc}
use mathlib.Core.Path.{subst}
use teggo.Prelude.{
  ◌≡◌, refl, sym, ◌∙◌, ap, ℕ, ◌+◌, some, List, [], ◌∷◌, ◌++◌, length, length-append, arith,
}
use teggo.Prelude.Text.{Text, codes}
use teggo.Edi.{Segment, elem_sep, seg_term}
use teggo.Edi.Writer.{
  Writer, new_writer, write_elems, raw, seg, Envelope, pad_l, from_second, isa, gs, envelope, close,
  AckLine, ack_lines, encode_855, InvoiceLine, invoice_lines, encode_810, ShipLine, ship_lines,
  encode_856,
}
use teggo.Edi.Segments.{after_name, body, text_of}
use teggo.Edi.Documents.{
  Document, acknowledgement, invoice, ship_notice, encode, ack_part, invoice_part, ship_part,
  transaction, start, ending, interchange,
}

text_of-append : (ss ts : List Segment) → text_of (ss ++ ts) ≡ text_of ss ++ text_of ts
unfolding text_of
text_of-append [] ts = refl
text_of-append ([] ∷ ss) ts = ap (◌∷◌ seg_term) (text_of-append ss ts)
text_of-append ((name ∷ elems) ∷ ss) ts =
    rw (text_of-append ss ts)
      (sym (append_assoc (body name elems) (seg_term ∷ text_of ss) (text_of ts)))

write_elems-eq : (es : List Text) (sb : Text) → write_elems es sb ≡ sb ++ after_name es
unfolding write_elems after_name
write_elems-eq [] sb = sym (append-nil sb)
write_elems-eq (e ∷ es) sb =
    write_elems-eq es _
    ∙ append_assoc (sb ++ (elem_sep ∷ [])) e (after_name es)
    ∙ append_assoc sb (elem_sep ∷ []) (e ++ after_name es)

raw-text :
    (name : Text) (es : List Text) (w : Writer) (ss : List Segment)
    → w.sb ≡ text_of ss
    → (raw name es w).sb ≡ text_of (ss ++ ((name ∷ es) ∷ []))
unfolding raw text_of
raw-text name es w ss h =
    ap (λ t. t ++ (seg_term ∷ [])) (write_elems-eq es (w.sb ++ name))
    ∙ (simp append_assoc)
    ∙ ap (λ t. t ++ (name ++ (after_name es ++ (seg_term ∷ [])))) h
    ∙ (simp (text_of-append ss ((name ∷ es) ∷ []), append_assoc))

-- The writer has written the segments of `before` and then those of `inner`, which it has counted.
record Holds (before inner : List Segment) (w : Writer) : Type 0 where
  written : w.sb ≡ text_of (before ++ inner)
  counted : w.seg_count ≡ length inner

-- What an operation of the writer appends.
Writes : (Writer → Writer) → List Segment → Type 0
Writes f out =
    (before inner : List Segment) (w : Writer)
    → Holds before inner w
    → Holds before (inner ++ out) (f w)

seg-Writes : (name : Text) (es : List Text) → Writes (seg name es) ((name ∷ es) ∷ [])
unfolding Writes seg raw
seg-Writes name es before inner w h = record {
  written =
      raw-text name es w (before ++ inner) h.written
      ∙ ap text_of (append_assoc before inner ((name ∷ es) ∷ []));
  counted = let c = h.counted in let l = length-append inner ((name ∷ es) ∷ []) in omega arith;
}

next-Writes :
    (f g : Writer → Writer) (a b : List Segment)
    → Writes f a
    → Writes g b
    → Writes (λ w. g (f w)) (a ++ b)
unfolding Writes
next-Writes f g a b h k before inner w held =
    subst (λ ss. Holds before ss (g (f w))) (append_assoc inner a b)
      (k before (inner ++ a) (f w) (h before inner w held))

nothing-Writes : Writes (λ w. w) []
unfolding Writes
nothing-Writes before inner w held = subst (λ ss. Holds before ss w) (sym (append-nil inner)) held

ack_lines-Writes : (ls : List AckLine) → Writes (ack_lines ls) (ack_part ls)
unfolding ack_lines ack_part
ack_lines-Writes [] = nothing-Writes
ack_lines-Writes (l ∷ ls) =
    next-Writes _ (ack_lines ls) (_ ∷ _ ∷ []) (ack_part ls)
      (next-Writes _ _ (_ ∷ []) (_ ∷ []) (seg-Writes _ _) (seg-Writes _ _)) (ack_lines-Writes ls)

invoice_lines-Writes : (ls : List InvoiceLine) → Writes (invoice_lines ls) (invoice_part ls)
unfolding invoice_lines invoice_part
invoice_lines-Writes [] = nothing-Writes
invoice_lines-Writes (l ∷ ls) =
    next-Writes _ (invoice_lines ls) (_ ∷ []) (invoice_part ls) (seg-Writes _ _)
      (invoice_lines-Writes ls)

ship_lines-Writes : (i : ℕ) (ls : List ShipLine) → Writes (ship_lines i ls) (ship_part i ls)
unfolding ship_lines ship_part
ship_lines-Writes i [] = nothing-Writes
ship_lines-Writes i (l ∷ ls) =
    next-Writes _ (ship_lines (i + 1) ls) (_ ∷ _ ∷ _ ∷ []) (ship_part (i + 1) ls)
      (next-Writes _ _ (_ ∷ _ ∷ []) (_ ∷ [])
        (next-Writes _ _ (_ ∷ []) (_ ∷ []) (seg-Writes _ _) (seg-Writes _ _)) (seg-Writes _ _))
      (ship_lines-Writes (i + 1) ls)

header-Holds :
    (env : Envelope) (short_date txn_set functional_id : Text)
    → Holds
        ((codes "ISA" ∷ isa env short_date) ∷ (codes "GS" ∷ gs env functional_id) ∷ [])
        (start txn_set env ∷ [])
        (seg (codes "ST") (txn_set ∷ pad_l env.control_number 4 ∷ []) (
          raw
            (codes "GS")
            (gs env functional_id)
            (raw (codes "ISA") (isa env short_date) new_writer)))
unfolding text_of raw Writes
header-Holds env short_date txn_set functional_id =
    let w =
      raw (codes "GS") (gs env functional_id) (raw (codes "ISA") (isa env short_date) new_writer) in
    seg-Writes (codes "ST") (txn_set ∷ pad_l env.control_number 4 ∷ [])
      ((codes "ISA" ∷ isa env short_date) ∷ (codes "GS" ∷ gs env functional_id) ∷ []) [] w
      (record {
        written =
            raw-text (codes "GS") (gs env functional_id)
              (raw (codes "ISA") (isa env short_date) new_writer)
              ((codes "ISA" ∷ isa env short_date) ∷ [])
              (raw-text (codes "ISA") (isa env short_date) new_writer [] refl);
        counted = refl;
      })

closed :
    (before inner : List Segment) (w : Writer) (se ge iea : List Text)
    → w.sb ≡ text_of (before ++ inner)
    → (raw (codes "IEA") iea (raw (codes "GE") ge (raw (codes "SE") se w))).sb
      ≡ text_of
          (before ++ (inner ++ ((codes "SE" ∷ se) ∷ (codes "GE" ∷ ge) ∷ (codes "IEA" ∷ iea) ∷ [])))
closed before inner w se ge iea h =
    let one = raw-text (codes "SE") se w (before ++ inner) h in
    let two = raw-text (codes "GE") ge _ _ one in
    raw-text (codes "IEA") iea _ _ two ∙ ap text_of (simp append_assoc)

close-text :
    (env : Envelope) (before inner : List Segment) (w : Writer)
    → Holds before inner w
    → close env w ≡ text_of (before ++ (inner ++ ending env (length inner)))
unfolding close
close-text env before inner w h =
    closed before inner w _ _ _ h.written
    ∙ ap (λ n. text_of (before ++ (inner ++ ending env n))) h.counted

-- A document of which f writes what follows the ST segment.
finished :
    (env : Envelope) (short_date txn_set functional_id : Text) (f : Writer → Writer)
    (out : List Segment)
    → Writes f out
    → close env (
        f (
          seg (codes "ST") (txn_set ∷ pad_l env.control_number 4 ∷ []) (
            raw
              (codes "GS")
              (gs env functional_id)
              (raw (codes "ISA") (isa env short_date) new_writer))))
      ≡ text_of (
          (codes "ISA" ∷ isa env short_date)
          ∷ (codes "GS" ∷ gs env functional_id)
          ∷ ((start txn_set env ∷ out) ++ ending env (length (start txn_set env ∷ out))))
unfolding Writes
finished env short_date txn_set functional_id f out h =
    close-text env _ (start txn_set env ∷ out) _
      (h _ (start txn_set env ∷ []) _ (header-Holds env short_date txn_set functional_id))

pub encode-text :
    (env : Envelope) (d : Document) (short_date : Text)
    → from_second env.date ≡ some short_date
    → encode env d ≡ some (text_of (interchange env short_date d))
unfolding encode_855 encode_810 encode_856 envelope interchange transaction
encode-text env (acknowledgement po lines) short_date e =
    rw (e, encode_855, envelope)
      (ap some (
        finished env short_date (codes "855") (codes "PR") _ _ (
          next-Writes (seg (codes "BAK") _) _ (_ ∷ []) _ (seg-Writes _ _) (
            next-Writes (ack_lines lines) (seg (codes "CTT") _) (ack_part lines) (_ ∷ [])
              (ack_lines-Writes lines) (seg-Writes _ _)))))
encode-text env (invoice number po total lines) short_date e =
    rw (e, encode_810, envelope)
      (ap some (
        finished env short_date (codes "810") (codes "IN") _ _ (
          next-Writes (seg (codes "BIG") _) _ (_ ∷ []) _ (seg-Writes _ _) (
            next-Writes (invoice_lines lines) _ (invoice_part lines) _ (invoice_lines-Writes lines)
              (next-Writes (seg (codes "TDS") _) (seg (codes "CTT") _) (_ ∷ []) (_ ∷ [])
                (seg-Writes _ _) (seg-Writes _ _))))))
encode-text env (ship_notice ref po lines) short_date e =
    rw (e, encode_856, envelope)
      (ap some (
        finished env short_date (codes "856") (codes "SH") _ _ (
          next-Writes (seg (codes "BSN") _) _ (_ ∷ []) _ (seg-Writes _ _) (
            next-Writes (seg (codes "HL") _) _ (_ ∷ []) _ (seg-Writes _ _) (
              next-Writes (seg (codes "HL") _) _ (_ ∷ []) _ (seg-Writes _ _) (
                next-Writes (seg (codes "PRF") _) (ship_lines 0 lines) (_ ∷ []) (ship_part 0 lines)
                  (seg-Writes _ _) (ship_lines-Writes 0 lines)))))))
