-- ===== src/Money/Decimal/RoundTrip.antt =====
-- `FloatString(4)` followed by `SetString`.
use mathlib.Core.List.{append_assoc}
use teggo.Prelude.{
  ℕ, zero, suc, ◌+◌, ◌*◌, ◌/◌, ◌%◌, ◌<◌, ◌≡◌, refl, ◌∙◌, Bool, true, false, some, [], ◌∷◌, ◌++◌, ap,
  arith, ltb, Bool-cases, inl, inr,
}
use teggo.Prelude.Text.{Text}
use teggo.Money.Rat.{Rat, is_negative, round4, signed_units, units, of_units}
use teggo.Money.Decimal.{
  scan, sign, signed, fraction, parse, show_digits, show_ℕ, four_digits, print, format,
}

scan-digit :
    (acc n d : ℕ) (s : Text) → d < 10 → scan acc n ((d + 48) ∷ s) ≡ scan (acc * 10 + d) (n + 1) s
unfolding scan
scan-digit acc n d s h = ground arith

scan_congr : {a b n m : ℕ} (s : Text) → a ≡ b → n ≡ m → scan a n s ≡ scan b m s
scan_congr s p q = cc

sign-digit : (d : ℕ) (s : Text) → sign ((d + 48) ∷ s) ≡ (false, (d + 48) ∷ s)
unfolding sign
sign-digit d s = ground arith

scan-show_digits :
    (f n k : ℕ) (rest : Text)
    → n < f
    → (j : ℕ) × (scan 0 k (show_digits f n ++ rest) ≡ scan n (suc j) rest)
unfolding show_digits
scan-show_digits zero n k rest h = elim h [ ]
scan-show_digits (suc f) n k rest h = elim (Bool-cases (ltb n 10)) [
  | inl small ↦ (
    k,
    rw small (scan-digit 0 k n rest (ground arith) ∙ scan_congr rest (omega arith) (omega arith)),
  )
  | inr big ↦
      let (j, ih) = scan-show_digits f (n / 10) k (((n % 10) + 48) ∷ rest) (ground arith) in
      (
        suc j,
        rw (big, append_assoc)
            (ih
              ∙ scan-digit (n / 10) (suc j) (n % 10) rest (omega arith)
              ∙ scan_congr rest (omega arith) (omega arith)),
      )
]

sign-show_digits :
    (f n : ℕ) (rest : Text)
    → n < f
    → sign (show_digits f n ++ rest) ≡ (false, show_digits f n ++ rest)
unfolding show_digits
sign-show_digits zero n rest h = elim h [ ]
sign-show_digits (suc f) n rest h = elim (Bool-cases (ltb n 10)) [
  | inl small ↦ rw small (sign-digit n rest)
  | inr big ↦ rw (big, append_assoc) (sign-show_digits f (n / 10) _ (ground arith))
]

scan-nil : (v n : ℕ) → scan v n [] ≡ (v, n, [])
unfolding scan
scan-nil v n = refl

scan-four_digits : (u : ℕ) → scan (u / 10_000) 0 (four_digits u) ≡ (u, 4, [])
unfolding four_digits
scan-four_digits u =
    scan-digit (u / 10_000) 0 (u / 1000 % 10) _ (omega arith)
    ∙ scan-digit _ 1 (u / 100 % 10) _ (omega arith)
    ∙ scan-digit _ 2 (u / 10 % 10) _ (omega arith)
    ∙ scan-digit _ 3 (u % 10) [] (omega arith)
    ∙ scan_congr [] (omega arith) refl
    ∙ scan-nil u 4

fraction-four_digits :
    (neg : Bool) (u j : ℕ)
    → fraction neg (u / 10_000) (suc j) (b'.' ∷ four_digits u) ≡ some (signed neg u 10_000)
unfolding fraction
fraction-four_digits neg u j = rw (scan-four_digits u) (ground arith)

-- The digits after a sign.
parse-body :
    (neg : Bool) (u : ℕ) (s : Text)
    → sign s ≡ (neg, show_ℕ (u / 10_000) ++ (b'.' ∷ four_digits u))
    → parse s ≡ some (signed neg u 10_000)
unfolding parse show_ℕ
parse-body neg u s e =
    let (j, got) =
      scan-show_digits (suc (u / 10_000)) (u / 10_000) 0 (b'.' ∷ four_digits u) (omega arith) in
    rw (e, got) (fraction-four_digits neg u j)

show_ℕ-head : (n : ℕ) (s : Text) → sign (show_ℕ n ++ s) ≡ (false, show_ℕ n ++ s)
unfolding show_ℕ
show_ℕ-head n s = sign-show_digits (suc n) n s (omega arith)

sign_minus : (s : Text) → sign (b'-' ∷ s) ≡ (true, s)
unfolding sign
sign_minus s = refl

signed-eq-of_units : (neg : Bool) (u : ℕ) → signed neg u 10_000 ≡ of_units (signed_units neg u)
unfolding signed
signed-eq-of_units neg u = ground arith

parse-print : (neg : Bool) (u : ℕ) → parse (print neg u) ≡ some (signed neg u 10_000)
unfolding print
parse-print true u = parse-body true u _ (sign_minus _)
parse-print false u = parse-body false u _ (show_ℕ-head (u / 10_000) _)

-- Whatever amount is printed reads back as its rounding to whole ten-thousandths.
pub parse-format : (r : Rat) → parse (format r) ≡ some (of_units (units r))
unfolding format units
parse-format r =
    rw (parse-print (is_negative r) (round4 r))
      (ap some (signed-eq-of_units (is_negative r) (round4 r)))
