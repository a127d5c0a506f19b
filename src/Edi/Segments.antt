-- ===== src/Edi/Segments.antt =====
-- The text of a list of segments, read back.
use mathlib.Core.List.{append-nil}
use teggo.Prelude.{
  ◌≡◌, refl, ◌∙◌, ap, ℕ, true, false, List, [], ◌∷◌, ◌++◌, ◌==◌, ==_iff, All, All-append, arith,
}
use teggo.Prelude.Text.{Text, trim_space}
use teggo.Prelude.Text.Trim.{
  is_plain, starts_plain, ends_plain, starts-append, ends-append, ends-cons, trim_space_plain,
}
use teggo.Edi.{Segment, elem_sep, seg_term, split, cons_first, is_empty, segments_of, segments}

-- A text without the separator.
abbrev pub Lacks : ℕ → Text → Type 0
Lacks sep = All (λ c. (c == sep) ≡ false)

split_part :
    (sep : ℕ) (s rest : Text) → Lacks sep s → split sep (s ++ (sep ∷ rest)) ≡ s ∷ split sep rest
unfolding split
split_part sep [] rest h = ground (arith, ==_iff sep sep)
split_part sep (c ∷ s) rest (h, hs) = rw h (ap (cons_first c) (split_part sep s rest hs))

split_last : (sep : ℕ) (s : Text) → Lacks sep s → split sep s ≡ s ∷ []
unfolding split
split_last sep [] h = refl
split_last sep (c ∷ s) (h, hs) = rw h (ap (cons_first c) (split_last sep s hs))

unfoldable pub after_name : List Text → Text
after_name [] = []
after_name (e ∷ es) = elem_sep ∷ (e ++ after_name es)

-- The text of a segment, without its terminator.
abbrev pub body : Text → List Text → Text
body name elems = name ++ after_name elems

-- The text of a document.
unfoldable pub text_of : List Segment → Text
text_of [] = []
text_of ([] ∷ ss) = seg_term ∷ text_of ss
text_of ((name ∷ elems) ∷ ss) = body name elems ++ (seg_term ∷ text_of ss)

-- An element that a document can hold: without the separators.
pub record IsClean (e : Text) : Type 0 where
  pub no_elem_sep : Lacks elem_sep e
  pub no_seg_term : Lacks seg_term e

unfoldable pub last_of : Text → List Text → Text
last_of name [] = name
last_of name (e ∷ es) = last_of e es

-- A segment that starts and ends without space, of elements without separators.
pub record IsWritable (name : Text) (elems : List Text) : Type 0 where
  pub starts : starts_plain name ≡ true
  pub clean : IsClean name
  pub all_clean : All IsClean elems
  pub ends : ends_plain (last_of name elems) ≡ true

unfoldable pub AreWritable : List Segment → Type 0
AreWritable [] = Unit
AreWritable ([] ∷ ss) = ⊥
AreWritable ((name ∷ elems) ∷ ss) = IsWritable name elems × AreWritable ss

split-body :
    (name : Text) (elems : List Text)
    → IsClean name
    → All IsClean elems
    → split elem_sep (body name elems) ≡ name ∷ elems
unfolding after_name
split-body name [] c cs = rw append-nil (split_last elem_sep name c.no_elem_sep)
split-body name (e ∷ es) c (d, ds) =
    split_part elem_sep name (e ++ after_name es) c.no_elem_sep
    ∙ ap (◌∷◌ name) (split-body e es d ds)

body-Lacks :
    (name : Text) (elems : List Text)
    → IsClean name
    → All IsClean elems
    → Lacks seg_term (body name elems)
unfolding after_name
body-Lacks name [] c cs = All-append _ name [] c.no_seg_term tt
body-Lacks name (e ∷ es) c (d, ds) =
    All-append _ name (elem_sep ∷ (e ++ after_name es)) c.no_seg_term (refl, body-Lacks e es d ds)

body_ends :
    (name : Text) (elems : List Text)
    → ends_plain (last_of name elems) ≡ true
    → ends_plain (body name elems) ≡ true
unfolding after_name last_of is_plain
body_ends name [] h = rw append-nil h
body_ends name (e ∷ es) h =
    ends-append name elem_sep (e ++ after_name es)
      (ends-cons elem_sep (e ++ after_name es) refl (body_ends e es h))

trimmed_body :
    (name : Text) (elems : List Text)
    → IsWritable name elems
    → trim_space (body name elems) ≡ body name elems
trimmed_body name elems w =
    trim_space_plain (body name elems) (starts-append name (after_name elems) w.starts)
      (body_ends name elems w.ends)

body_filled :
    (name : Text) (elems : List Text)
    → starts_plain name ≡ true
    → is_empty (body name elems) ≡ false
unfolding starts_plain
body_filled [] elems h = cc
body_filled (c ∷ name) elems h = refl

read_one :
    (name : Text) (elems : List Text) (parts : List Text) (ss : List Segment)
    → IsWritable name elems
    → segments_of parts ≡ ss
    → segments_of (body name elems ∷ parts) ≡ (name ∷ elems) ∷ ss
unfolding segments_of
read_one name elems parts ss w rest =
    rw (trimmed_body name elems w, body_filled name elems w.starts)
      (ap (◌∷◌ (split elem_sep (body name elems))) rest
        ∙ ap (λ (s : Segment). s ∷ ss) (split-body name elems w.clean w.all_clean))

-- Segments that can be written are read back from their text, in their order.
pub segments-text_of : (ss : List Segment) → AreWritable ss → segments (text_of ss) ≡ ss
unfolding segments segments_of split text_of AreWritable trim_space
segments-text_of [] h = refl
segments-text_of ([] ∷ ss) h = absurd h
segments-text_of ((name ∷ elems) ∷ ss) (w, ws) =
    ap segments_of (
      split_part seg_term (body name elems) (text_of ss)
        (body-Lacks name elems w.clean w.all_clean))
    ∙ read_one name elems (split seg_term (text_of ss)) ss w (segments-text_of ss ws)
