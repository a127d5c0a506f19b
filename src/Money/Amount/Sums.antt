-- ===== src/Money/Amount/Sums.antt =====
-- Sums of amounts as sums of the integers that they are read as.
use mathlib.Core.Option.{some-injective}
use mathlib.Core.Path.{subst}
use teggo.Prelude.{◌≡◌, refl, sym, ◌∙◌, ap, Option, none, some, List, [], ◌∷◌, ◌++◌, All}
use teggo.Prelude.Text.{Text}
use teggo.Prelude.Int.{ℤ, pos, ◌+ℤ◌, +ℤ_zero, int_laws}
use teggo.Money.Rat.{Rat, units}
use teggo.Money.Rat.Units.{units_exact}
use teggo.Money.Decimal.{parse}
use teggo.Money.Amount.{sum, or_empty}
use teggo.Money.Amount.Exact.{Denotes, DenoteAll, total, sum-Denotes}

-- The ten-thousandths that a text is read as.
abbrev units_or_zero : Option Rat → ℤ
units_or_zero none = pos 0
units_or_zero (some r) = units r

unfoldable pub amount_of : Text → ℤ
amount_of t = units_or_zero (parse t)

abbrev pub IsExact : Text → Type 0
IsExact t = Denotes t (amount_of t)

pub amount_of-Denotes : (t : Text) (z : ℤ) → Denotes t z → amount_of t ≡ z
unfolding amount_of
amount_of-Denotes t z (r, e, h) = rw e (units_exact r z h)

abbrev pub sum_by {ℓ} : {A : Type ℓ} → (A → ℤ) → List A → ℤ
sum_by f [] = pos 0
sum_by f (x ∷ xs) = f x +ℤ sum_by f xs

pub sum_by-snoc {ℓ} :
    {A : Type ℓ} (f : A → ℤ) (xs : List A) (x : A) → sum_by f (xs ++ (x ∷ [])) ≡ sum_by f xs +ℤ f x
sum_by-snoc f [] x = omega int_laws
sum_by-snoc f (y ∷ xs) x = rw (sum_by-snoc f xs x) (omega int_laws)

amounts-DenoteAll :
    (ts : List Text)
    → All IsExact ts
    → (zs : List ℤ) × DenoteAll ts zs × (total zs ≡ sum_by amount_of ts)
amounts-DenoteAll [] h = ([], tt, refl)
amounts-DenoteAll (t ∷ ts) (d, ds) =
    let (zs, rest, e) = amounts-DenoteAll ts ds in
    (amount_of t ∷ zs, (d, rest), ap (λ z. amount_of t +ℤ z) e)

-- The sum of exact amounts denotes the sum of what they denote.
pub sum-amount_of :
    (ts : List Text) {t : Text}
    → All IsExact ts
    → sum ts ≡ some t
    → amount_of t ≡ sum_by amount_of ts
sum-amount_of ts {t} h e =
    let (zs, d, total_eq) = amounts-DenoteAll ts h in
    let (t', e', dt) = sum-Denotes ts zs d in
    let same : t ≡ t' = some-injective _ _ (sym e ∙ e') in
    rw same (amount_of-Denotes t' (total zs) dt ∙ total_eq)

-- An exact amount is read as what it denotes.
pub Denotes-IsExact : (t : Text) (z : ℤ) → Denotes t z → IsExact t
Denotes-IsExact t z d = subst (Denotes t) (sym (amount_of-Denotes t z d)) d

pub sum-IsExact : (ts : List Text) {t : Text} → All IsExact ts → sum ts ≡ some t → IsExact t
sum-IsExact ts {t} h e =
    let (zs, d, _) = amounts-DenoteAll ts h in
    let (t', e', dt) = sum-Denotes ts zs d in
    let same : t ≡ t' = some-injective _ _ (sym e ∙ e') in
    rw same (Denotes-IsExact t' (total zs) dt)

-- Exact amounts have an exact sum.
pub sum_exact :
    (ts : List Text)
    → All IsExact ts
    → IsExact (or_empty (sum ts)) × (amount_of (or_empty (sum ts)) ≡ sum_by amount_of ts)
sum_exact ts h =
    let (zs, d, total_eq) = amounts-DenoteAll ts h in
    let (t, e, dt) = sum-Denotes ts zs d in
    rw e (Denotes-IsExact t (total zs) dt, amount_of-Denotes t (total zs) dt ∙ total_eq)

pub pair_sum :
    (t u : Text) (x y : ℤ)
    → Denotes t x
    → Denotes u y
    → Denotes (or_empty (sum (t ∷ u ∷ []))) (x +ℤ y)
pair_sum t u x y d e =
    let (s, eq, h) = sum-Denotes (t ∷ u ∷ []) (x ∷ y ∷ []) (d, (e, tt)) in
    rw eq (subst (λ z. Denotes s (x +ℤ z)) (+ℤ_zero y) h)
