-- ===== src/Money/Rat/Units.antt =====
-- Rationals that are a whole number of ten-thousandths, and rounding to such.
use native.Mathlib.Nat.{add-mul-div_left, div-mul-le_self, lt-div-mul-add, div-eq_of_lt}
use teggo.Prelude.{ℕ, suc, ◌*◌, ◌+◌, ◌-◌, ◌≤◌, ◌<◌, ◌≡◌, ap, inl, inr, Bool-cases, arith}
use teggo.Prelude.Int.{ℤ, pos, negsuc, pos_part, neg_part, ◌+ℤ◌, ◌-ℤ◌, +ℤ_parts, -ℤ_parts}
use teggo.Money.Rat.{Rat, den, add, sub, magnitude, is_negative, round4, units, of_units, zero_rat}

-- r is z ten-thousandths.
abbrev pub IsUnits : Rat → ℤ → Type 0
IsUnits r z = r.plus * 10_000 + neg_part z * den r ≡ pos_part z * den r + r.minus * 10_000

pub of_units-IsUnits : (z : ℤ) → IsUnits (of_units z) z
of_units-IsUnits z = omega arith

pub zero_rat-IsUnits : IsUnits zero_rat (pos 0)
zero_rat-IsUnits = omega arith

pub den_product : (c d : ℕ) → suc (suc c * suc d - 1) ≡ suc c * suc d
den_product c d = omega arith

pub times : (t : ℕ) {m n : ℕ} → m ≡ n → m * t ≡ n * t
times t e = ap (λ (s : ℕ). s * t) e

-- Over the common denominator, scaled equations add up.
cross_add :
    (ap am da bp bm db xp xn yp yn sp sn : ℕ)
    → ap * 10_000 + xn * da ≡ xp * da + am * 10_000
    → bp * 10_000 + yn * db ≡ yp * db + bm * 10_000
    → sp + xn + yn ≡ sn + xp + yp
    → (ap * db + bp * da) * 10_000 + sn * (da * db) ≡ sp * (da * db) + (am * db + bm * da) * 10_000
cross_add ap am da bp bm db xp xn yp yn sp sn h k e =
    omega (arith, times db h, times da k, times (da * db) e)

module _ (a b : Rat) (x y : ℤ) (h : IsUnits a x) (k : IsUnits b y) where
  pub add-IsUnits : IsUnits (add a b) (x +ℤ y)
  unfolding add
  add-IsUnits = rw (den_product a.below b.below) (
      cross_add a.plus a.minus (den a) b.plus b.minus (den b) (pos_part x) (neg_part x) (pos_part y)
        (neg_part y) (pos_part (x +ℤ y)) (neg_part (x +ℤ y)) h k (omega (arith, +ℤ_parts x y)))

  pub sub-IsUnits : IsUnits (sub a b) (x -ℤ y)
  unfolding sub
  sub-IsUnits = rw (den_product a.below b.below) (
      cross_add a.plus a.minus (den a) b.minus b.plus (den b) (pos_part x) (neg_part x) (neg_part y)
        (pos_part y) (pos_part (x -ℤ y)) (neg_part (x -ℤ y)) h (omega arith)
        (omega (arith, -ℤ_parts x y)))

-- The rounded figure is nearest: off by at most half a ten-thousandth.
pub round4_nearest :
    (r : Rat)
    → (2 * (round4 r * den r) ≤ 2 * (magnitude r * 10_000) + den r)
      × (2 * (magnitude r * 10_000) < 2 * (round4 r * den r) + den r)
unfolding round4
round4_nearest r =
    let top = 2 * magnitude r * 10_000 + den r in
    let low = div-mul-le_self top (2 * den r) in
    let high = lt-div-mul-add {a = top} {b = 2 * den r} (omega arith) in (omega arith, omega arith)

round4_exact : (r : Rat) (u : ℕ) → magnitude r * 10_000 ≡ u * den r → round4 r ≡ u
unfolding round4
round4_exact r u h =
    let shape : 2 * magnitude r * 10_000 + den r ≡ den r + 2 * den r * u = omega arith in
    rw
      (
        shape,
        add-mul-div_left (den r) u {y = 2 * den r} (omega arith),
        div-eq_of_lt {n = den r} {m = 2 * den r} (omega arith),
      )
      (omega arith)

-- A whole number of ten-thousandths is not changed by rounding.
pub units_exact : (r : Rat) (z : ℤ) → IsUnits r z → units r ≡ z
unfolding units
units_exact r (pos n) h = elim (Bool-cases (is_negative r)) [
  | inl neg ↦ absurd (ground arith)
  | inr nonneg ↦
      let size : magnitude r * 10_000 ≡ n * den r = ground arith in
      rw (nonneg, round4_exact r n size)
]
units_exact r (negsuc n) h = elim (Bool-cases (is_negative r)) [
  | inl neg ↦
      let size : magnitude r * 10_000 ≡ suc n * den r = ground arith in
      rw (neg, round4_exact r (suc n) size) (ground arith)
  | inr nonneg ↦ absurd (ground arith)
]

pub units-of_units : (z : ℤ) → units (of_units z) ≡ z
units-of_units z = units_exact (of_units z) z (of_units-IsUnits z)
