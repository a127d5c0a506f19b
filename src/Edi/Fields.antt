-- ===== src/Edi/Fields.antt =====
-- What may be written into a document of internal/edi/edi.go.
use teggo.Prelude.{
  ◌≡◌, refl, ℕ, zero, suc, ◌-◌, Bool, true, not, ◌&&◌, [], ◌∷◌, ◌++◌, ◌==◌, All-append, All-imp,
  length, arith, Bool-cases, inl, inr,
}
use teggo.Prelude.Text.{Text}
use teggo.Prelude.Text.Trim.{digit-is_plain, ends_plain, ends-cons, ends_of_plain}
use teggo.Money.Decimal.{show_ℕ}
use teggo.Money.Decimal.Digits.{IsDigit, show_ℕ-IsDigit}
use teggo.Edi.{elem_sep, seg_term, def, is_empty}
use teggo.Edi.Segments.{Lacks, IsClean}
use teggo.Edi.Writer.{spaces_after, pad_r, zeros_before, pad_l}

abbrev pub is_clean : Text → Bool
is_clean [] = true
is_clean (c ∷ e) = not (c == elem_sep) && (not (c == seg_term) && is_clean e)

is_clean-Lacks : (e : Text) → is_clean e ≡ true → Lacks elem_sep e × Lacks seg_term e
is_clean-Lacks [] h = (tt, tt)
is_clean-Lacks (c ∷ e) h =
    let (p, q) = is_clean-Lacks e (ground arith) in ((ground arith, p), (ground arith, q))

pub clean : (e : Text) → is_clean e ≡ true → IsClean e
clean e h = let (p, q) = is_clean-Lacks e h in record { no_elem_sep = p; no_seg_term = q }

-- A value of a document: without separators, and without space at its end.
pub record IsField (e : Text) : Type 0 where
  pub is_clean_text : IsClean e
  pub ends : ends_plain e ≡ true

pub show_ℕ-IsField : (n : ℕ) → IsField (show_ℕ n)
show_ℕ-IsField n = record {
  is_clean_text = record {
    no_elem_sep = All-imp (show_ℕ n) (λ c (p : IsDigit c). ground arith) (show_ℕ-IsDigit n);
    no_seg_term = All-imp (show_ℕ n) (λ c (p : IsDigit c). ground arith) (show_ℕ-IsDigit n);
  };
  ends =
      ends_of_plain (show_ℕ n)
        (All-imp (show_ℕ n) (λ c (p : IsDigit c). digit-is_plain c p.0 p.1) (show_ℕ-IsDigit n));
}

pub zeros_before-IsField : (n : ℕ) (s : Text) → IsField s → IsField (zeros_before n s)
unfolding zeros_before
zeros_before-IsField zero s h = h
zeros_before-IsField (suc n) s h = zeros_before-IsField n (b'0' ∷ s) (record {
  is_clean_text = record {
    no_elem_sep = (refl, h.is_clean_text.no_elem_sep);
    no_seg_term = (refl, h.is_clean_text.no_seg_term);
  };
  ends = ends-cons b'0' s (digit-is_plain b'0' (omega arith) (omega arith)) h.ends;
})

pub spaces_after-IsClean : (n : ℕ) (s : Text) → IsClean s → IsClean (spaces_after n s)
unfolding spaces_after
spaces_after-IsClean zero s h = h
spaces_after-IsClean (suc n) s h = spaces_after-IsClean n (s ++ (b' ' ∷ [])) (record {
  no_elem_sep = All-append _ s (b' ' ∷ []) h.no_elem_sep (refl, tt);
  no_seg_term = All-append _ s (b' ' ∷ []) h.no_seg_term (refl, tt);
})

pub pad_l-IsField : (s : Text) (n : ℕ) → IsField s → IsField (pad_l s n)
unfolding pad_l
pad_l-IsField s n h = zeros_before-IsField (n - length s) s h

pub pad_r-IsClean : (s : Text) (n : ℕ) → IsClean s → IsClean (pad_r s n)
unfolding pad_r
pad_r-IsClean s n h = spaces_after-IsClean (n - length s) s h

pub def-IsField : (v d : Text) → IsField v → IsField d → IsField (def v d)
unfolding def
def-IsField v d h k = elim (Bool-cases (is_empty v)) [
  | inl empty ↦ rw empty k
  | inr filled ↦ rw filled h
]

-- A text of the program.
pub literal : (e : Text) → is_clean e ≡ true → ends_plain e ≡ true → IsField e
literal e h k = record { is_clean_text = clean e h; ends = k }
