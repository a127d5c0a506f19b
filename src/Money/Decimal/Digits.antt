-- ===== src/Money/Decimal/Digits.antt =====
-- The bytes of a printed number.
use teggo.Prelude.{ℕ, zero, suc, ◌/◌, ◌≤◌, All, All-append, Bool-cases, inl, inr, ltb, arith}
use teggo.Money.Decimal.{show_digits, show_ℕ}

abbrev pub IsDigit : ℕ → Type 0
IsDigit c = (48 ≤ c) × (c ≤ 57)

show_digits-IsDigit : (f n : ℕ) → All IsDigit (show_digits f n)
unfolding show_digits
show_digits-IsDigit zero n = tt
show_digits-IsDigit (suc f) n = elim (Bool-cases (ltb n 10)) [
  | inl small ↦ rw small ((omega arith, ground arith), tt)
  | inr big ↦ rw big (
      All-append IsDigit (show_digits f (n / 10)) _ (show_digits-IsDigit f (n / 10))
        ((omega arith, omega arith), tt))
]

-- A number is printed in digits.
pub show_ℕ-IsDigit : (n : ℕ) → All IsDigit (show_ℕ n)
unfolding show_ℕ
show_ℕ-IsDigit n = show_digits-IsDigit (suc n) n
