-- ===== src/Tax/Order.antt =====
-- `ComputeOrderTax` on every branch.
use mathlib.Core.Path.{subst}
use teggo.Prelude.{
  All, ℕ, suc, ◌≡◌, ◌⊎◌, inl, inr, refl, sym, ◌∙◌, ap, true, Option, none, some, List, [], ◌∷◌, map,
  String, str_eq, length, Bool-cases,
}
use teggo.Prelude.Text.{Text, codes}
use teggo.Money.Amount.Exact.{zero-Denotes}
use teggo.Prelude.Int.{pos, +ℤ_zero}
use teggo.Money.Amount.Sums.{amount_of, sum_by, IsExact, Denotes-IsExact}
use teggo.Tax.{Table, OrderLine, taxed, zeros, request_line, compute_order_tax}
use teggo.Tax.Total.{
  TaxedBy, TaxedBy-IsExact, IsTaxed, IsUntaxed, Provider, local_vat, provider_of, rate_by,
  by_provider-IsTaxed, taxed-injective, zero-amount_of,
}

abbrev pub rows_of : Option (List (ℕ × String)) → List (ℕ × String)
rows_of none = []
rows_of (some rows) = rows

abbrev pub IsExempt : Provider → String → List OrderLine → Option Table → Type 0
IsExempt p country lines rates =
    (str_eq country "" ≡ true) ⊎ ((lines ≡ []) ⊎ ((p ≡ local_vat) × (rates ≡ some [])))

-- For either provider, an order that is taxed has either the tax of each line, at the rate of the
-- class of the line's product, with a total that is the sum of these taxes to the ten-thousandth; or
-- a zero for each line and for the total, and that only if the country is blank, there are no lines,
-- or the local provider has no rates for the country.
pub compute_order_tax_sound :
    (p : Provider) (country : String) (lines : List OrderLine)
    (classes : Option (List (ℕ × String))) (rates : Option Table) (per_line : List Text)
    (total : Text)
    → compute_order_tax (provider_of p) country lines classes rates ≡ taxed per_line total
    → (IsExempt p country lines rates × IsUntaxed lines per_line total)
      ⊎ IsTaxed (rate_by p rates) (map (request_line (rows_of classes)) lines) per_line total
unfolding compute_order_tax
compute_order_tax_sound p country [] classes rates per_line total e =
    inl (inr (inl refl), taxed-injective e)
compute_order_tax_sound p country (l ∷ ls) none rates per_line total e =
    elim (Bool-cases (str_eq country "")) [
      | inl blank ↦ inl (inl blank, taxed-injective (rw blank at e))
      | inr not_blank ↦ cc (rw not_blank at e)
    ]
compute_order_tax_sound p country (l ∷ ls) (some rows) rates per_line total e =
    elim (Bool-cases (str_eq country "")) [
      | inl blank ↦ inl (inl blank, taxed-injective (rw blank at e))
      | inr not_blank ↦
          elim (by_provider-IsTaxed p country (l ∷ ls) rows rates per_line total
            (rw not_blank at e)) [
              | inl (is_local, no_rates, z) ↦ inl (inr (inr (is_local, no_rates)), z)
              | inr h ↦ inr h
            ]
    ]

zeros-sum : (lines : List OrderLine) → sum_by amount_of (zeros lines) ≡ pos 0
zeros-sum [] = refl
zeros-sum (l ∷ ls) = rw (zero-amount_of, zeros-sum ls) (+ℤ_zero (pos 0))

zeros-length : (lines : List OrderLine) → length (zeros lines) ≡ length lines
zeros-length [] = refl
zeros-length (l ∷ ls) = ap suc (zeros-length ls)

taxed-length :
    (rate_of : String → Text) (rows : List (ℕ × String)) (lines : List OrderLine) (ts : List Text)
    → TaxedBy rate_of (map (request_line rows) lines) ts
    → length ts ≡ length lines
taxed-length rate_of rows [] [] h = refl
taxed-length rate_of rows [] (t ∷ ts) h = absurd h
taxed-length rate_of rows (l ∷ ls) [] h = absurd h
taxed-length rate_of rows (l ∷ ls) (t ∷ ts) (_, h) = ap suc (taxed-length rate_of rows ls ts h)

-- For either provider, whatever the country, classes and rates, an order that is taxed has one tax
-- for each line, and its total is their sum to the ten-thousandth.
pub compute_order_tax_total :
    (p : Provider) (country : String) (lines : List OrderLine)
    (classes : Option (List (ℕ × String))) (rates : Option Table) (per_line : List Text)
    (total : Text)
    → compute_order_tax (provider_of p) country lines classes rates ≡ taxed per_line total
    → (length per_line ≡ length lines) × (amount_of total ≡ sum_by amount_of per_line)
compute_order_tax_total p country lines classes rates per_line total e =
    elim (compute_order_tax_sound p country lines classes rates per_line total e) [
      | inl (_, (z, t)) ↦ (
        ap length (sym z) ∙ zeros-length lines,
        ap amount_of (sym t) ∙ zero-amount_of ∙ sym (zeros-sum lines) ∙ ap (sum_by amount_of) z,
      )
      | inr (by, s, _) ↦ (taxed-length (rate_by p rates) (rows_of classes) lines per_line by, s)
    ]

zeros-IsExact : (lines : List OrderLine) → All IsExact (zeros lines)
zeros-IsExact [] = tt
zeros-IsExact (l ∷ ls) = (Denotes-IsExact (codes "0") (pos 0) zero-Denotes, zeros-IsExact ls)

-- The taxes of an order and their total are whole numbers of ten-thousandths.
pub compute_order_tax-IsExact :
    (p : Provider) (country : String) (lines : List OrderLine)
    (classes : Option (List (ℕ × String))) (rates : Option Table) (per_line : List Text)
    (total : Text)
    → compute_order_tax (provider_of p) country lines classes rates ≡ taxed per_line total
    → All IsExact per_line × IsExact total
compute_order_tax-IsExact p country lines classes rates per_line total e =
    elim (compute_order_tax_sound p country lines classes rates per_line total e) [
      | inl (_, (z, t)) ↦ (
        subst (All IsExact) z (zeros-IsExact lines),
        subst IsExact t (Denotes-IsExact (codes "0") (pos 0) zero-Denotes),
      )
      | inr (by, _, exact) ↦ (
        TaxedBy-IsExact (rate_by p rates) (map (request_line (rows_of classes)) lines) per_line by,
        exact,
      )
    ]
