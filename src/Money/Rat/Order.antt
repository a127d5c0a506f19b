-- ===== src/Money/Rat/Order.antt =====
-- The order of rationals by cross products.
use native.Mathlib.Nat.{le_of_mul-le-mul_right, mul-le-mul_right}
use teggo.Prelude.{◌≡◌, ◌⊎◌, ◌≢◌, Ordering, arith}
use teggo.Money.Rat.{Rat, den, cmp, ◌≤ᵣ◌}

pub ≤ᵣ_refl : (a : Rat) → a ≤ᵣ a
≤ᵣ_refl a = omega arith

pub ≤ᵣ_total : (a b : Rat) → (a ≤ᵣ b) ⊎ (b ≤ᵣ a)
≤ᵣ_total a b = omega arith

pub ≤ᵣ_trans : (a b c : Rat) → a ≤ᵣ b → b ≤ᵣ c → a ≤ᵣ c
≤ᵣ_trans a b c h k =
    le_of_mul-le-mul_right {k = den b}
      (omega (arith, mul-le-mul_right (den c) h, mul-le-mul_right (den a) k)) (omega arith)

pub cmp-gt : (a b : Rat) → cmp a b ≡ Ordering.gt → b ≤ᵣ a
unfolding cmp
cmp-gt a b h = ground arith

pub cmp-ne-gt : (a b : Rat) → cmp a b ≢ Ordering.gt → a ≤ᵣ b
unfolding cmp
cmp-ne-gt a b h = ground arith

pub cmp-ne-lt : (a b : Rat) → cmp a b ≢ Ordering.lt → b ≤ᵣ a
unfolding cmp
cmp-ne-lt a b h = ground arith

pub cmp-lt : (a b : Rat) → cmp a b ≡ Ordering.lt → a ≤ᵣ b
unfolding cmp
cmp-lt a b h = ground arith

pub not-le_of_cmp-gt : (a b : Rat) → cmp a b ≡ Ordering.gt → ¬ (a ≤ᵣ b)
unfolding cmp
not-le_of_cmp-gt a b h = ground arith

pub cmp_self : (a : Rat) → cmp a a ≡ Ordering.eq
unfolding cmp
cmp_self a = ground arith

pub not-ge_of_cmp-lt : (a b : Rat) → cmp a b ≡ Ordering.lt → ¬ (b ≤ᵣ a)
unfolding cmp
not-ge_of_cmp-lt a b h = ground arith
