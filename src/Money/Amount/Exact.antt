-- ===== src/Money/Amount/Exact.antt =====
-- Amounts that are whole numbers of ten-thousandths, as NUMERIC(15,4) columns hold.
use native.Mathlib.Nat.{mul-lt-mul_of_pos_left}
use teggo.Prelude.{
  ℕ, suc, ◌+◌, ◌*◌, ◌-◌, ◌≤◌, ◌<◌, ◌≡◌, refl, sym, ap, Ordering, compare, some, List, [], ◌∷◌,
  arith,
}
use teggo.Prelude.Text.{Text, codes}
use teggo.Prelude.Int.{ℤ, pos, pos_part, neg_part, ◌+ℤ◌, ◌-ℤ◌, +ℤ_zero, zero_+ℤ, +ℤ_assoc}
use teggo.Money.Rat
use teggo.Money.Rat.{
  Rat, den, zero_rat, units, of_units, signed_units, is_negative, magnitude, round4,
}
use teggo.Money.Rat.Units.{
  IsUnits, of_units-IsUnits, zero_rat-IsUnits, add-IsUnits, sub-IsUnits, units_exact, times,
  den_product, round4_nearest,
}
use teggo.Money.Decimal.{parse, format}
use teggo.Money.Decimal.RoundTrip.{parse-format}
use teggo.Money.Amount.{sub, cmp, percent, add_all, sum}

-- The text t is read as z ten-thousandths.
abbrev pub Denotes : Text → ℤ → Type 0
Denotes t z = (r : Rat) × (parse t ≡ some r) × IsUnits r z

pub format-Denotes : (r : Rat) → Denotes (format r) (units r)
format-Denotes r = (of_units (units r), parse-format r, of_units-IsUnits (units r))

pub format-Denotes_exact : (r : Rat) (z : ℤ) → IsUnits r z → Denotes (format r) z
format-Denotes_exact r z h = rw (units_exact r z h) at (format-Denotes r)

pub zero-Denotes : Denotes (codes "0") (pos 0)
unfolding parse
zero-Denotes = (zero_rat, refl, zero_rat-IsUnits)

-- The difference of two exact amounts is exact.
pub sub-Denotes :
    (a b : Text) (x y : ℤ)
    → Denotes a x
    → Denotes b y
    → (t : Text) × (sub a b ≡ some t) × Denotes t (x -ℤ y)
unfolding sub
sub-Denotes a b x y (ra, ea, ua) (rb, eb, ub) = (
  format (Rat.sub ra rb),
  rw (ea, eb),
  format-Denotes_exact (Rat.sub ra rb) (x -ℤ y) (sub-IsUnits ra rb x y ua ub),
)

-- The texts of a list are read as the numbers of another.
abbrev pub DenoteAll : List Text → List ℤ → Type 0
DenoteAll [] [] = Unit
DenoteAll [] (z ∷ zs) = ⊥
DenoteAll (t ∷ ts) [] = ⊥
DenoteAll (t ∷ ts) (z ∷ zs) = Denotes t z × DenoteAll ts zs

abbrev pub total : List ℤ → ℤ
total [] = pos 0
total (z ∷ zs) = z +ℤ total zs

add_all-IsUnits :
    (acc : Rat) (z : ℤ) (ts : List Text) (zs : List ℤ)
    → IsUnits acc z
    → DenoteAll ts zs
    → (r : Rat) × (add_all acc ts ≡ some r) × IsUnits r (z +ℤ total zs)
unfolding add_all
add_all-IsUnits acc z [] [] h d = (acc, refl, rw (+ℤ_zero z) h)
add_all-IsUnits acc z [] (x ∷ zs) h d = absurd d
add_all-IsUnits acc z (t ∷ ts) [] h d = absurd d
add_all-IsUnits acc z (t ∷ ts) (x ∷ zs) h ((r, e, u), ds) =
    let (r', e', u') =
      add_all-IsUnits (Rat.add acc r) (z +ℤ x) ts zs (add-IsUnits acc r z x h u) ds in
    (r', rw e e', rw (← +ℤ_assoc z x (total zs)) u')

-- The sum of exact amounts is exact.
pub sum-Denotes :
    (ts : List Text) (zs : List ℤ)
    → DenoteAll ts zs
    → (t : Text) × (sum ts ≡ some t) × Denotes t (total zs)
unfolding sum
sum-Denotes ts zs d =
    let (r, e, u) = add_all-IsUnits zero_rat (pos 0) ts zs zero_rat-IsUnits d in
    (format r, rw e, format-Denotes_exact r (total zs) (rw (zero_+ℤ (total zs)) at u))

-- The order of integers as `Cmp` reports it.
abbrev pub compare_ℤ : ℤ → ℤ → Ordering
compare_ℤ x y = compare (pos_part x + neg_part y) (pos_part y + neg_part x)

scaled_lt : (l r u v d : ℕ) → l * 10_000 + suc d * v ≡ r * 10_000 + suc d * u → u < v → l < r
scaled_lt l r u v d h p =
    omega (arith, mul-lt-mul_of_pos_left {m = u} {n = v} {k = suc d} p (omega arith))

scaled_eq : (l r u v d : ℕ) → l * 10_000 + suc d * v ≡ r * 10_000 + suc d * u → u ≡ v → l ≡ r
scaled_eq l r u v d h p = omega (arith, ap (λ (t : ℕ). suc d * t) p)

compare_scaled :
    (l r u v d : ℕ) → l * 10_000 + suc d * v ≡ r * 10_000 + suc d * u → compare l r ≡ compare u v
compare_scaled l r u v d h =
    ground (arith, scaled_lt l r u v d h, scaled_lt r l v u d (sym h), scaled_eq l r u v d h)

cmp-IsUnits : (a b : Rat) (x y : ℤ) → IsUnits a x → IsUnits b y → Rat.cmp a b ≡ compare_ℤ x y
unfolding Rat.cmp
cmp-IsUnits a b x y h k =
    compare_scaled _ _ _ _ (den a * den b - 1)
      (rw (den_product a.below b.below) (omega (arith, times (den b) h, times (den a) k)))

-- Comparing two exact amounts compares their numbers.
pub cmp-Denotes :
    (a b : Text) (x y : ℤ) → Denotes a x → Denotes b y → cmp a b ≡ some (compare_ℤ x y)
unfolding cmp
cmp-Denotes a b x y (ra, ea, ua) (rb, eb, ub) = rw (ea, eb) (ap some (cmp-IsUnits ra rb x y ua ub))

-- The amount and the rate being decimals, `Percent` returns the sign and the whole number of
-- ten-thousandths nearest to amount * rate / 100, off by at most half of one.
pub percent_nearest :
    (a p : Text) (x y : Rat)
    → parse a ≡ some x
    → parse p ≡ some y
    → let q = Rat.quo_ℕ (Rat.mul x y) 100 in
      (t : Text) × (percent a p ≡ some t)
      × Denotes t (signed_units (is_negative q) (round4 q))
      × (2 * (round4 q * den q) ≤ 2 * (magnitude q * 10_000) + den q)
      × (2 * (magnitude q * 10_000) < 2 * (round4 q * den q) + den q)
unfolding percent units
percent_nearest a p x y ea ep =
    let q = Rat.quo_ℕ (Rat.mul x y) 100 in
    (format q, rw (ea, ep), format-Denotes q, (round4_nearest q).0, (round4_nearest q).1)
