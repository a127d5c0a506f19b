-- ===== src/Tax/Total.antt =====
-- The taxes of an order's lines, and their total.
use mathlib.Core.Path.{subst}
use mathlib.Core.Option.{some-injective}
use teggo.Prelude.{
  ℕ, ◌≡◌, ◌⊎◌, inl, inr, refl, sym, ◌∙◌, ap, Option, none, some, List, [], ◌∷◌, map, >>=-eq-some,
  String, All,
}
use teggo.Prelude.Text.{Text, codes}
use teggo.Prelude.Int.{pos}
use teggo.Money.Rat
use teggo.Money.Decimal.{parse}
use teggo.Money.Amount.{sum}
use teggo.Money.Amount.Exact.{format-Denotes, zero-Denotes}
use teggo.Money.Amount.Sums.{
  amount_of, amount_of-Denotes, IsExact, Denotes-IsExact, sum_by, sum-amount_of, sum-IsExact,
}
use teggo.Tax.{
  Line, LineTax, Request, Result, Table, OrderLine, taxed, tax_of, tax_lines, amounts, calculate,
  local_rate, calculate_local, mock_rate, calculate_mock, zero_if_blank, zeros, request,
  request_line, overwrite, filled, answered, by_provider,
}

tax_of-IsExact : (a r : Text) {t : Text} → tax_of a r ≡ some t → IsExact t
unfolding tax_of
tax_of-IsExact a r {t} e =
    let (x, _, e₁) = >>=-eq-some (parse a) _ e in
    let (y, _, e₂) = >>=-eq-some (parse r) _ e₁ in
    subst IsExact (some-injective _ _ e₂) (Denotes-IsExact _ _ (format-Denotes (Rat.mul x y)))

-- Each line is taxed by itself, at the rate of its class.
abbrev pub TaxedBy : (String → Text) → List Line → List Text → Type 0
TaxedBy rate_of [] [] = Unit
TaxedBy rate_of [] (t ∷ ts) = ⊥
TaxedBy rate_of (l ∷ ls) [] = ⊥
TaxedBy rate_of (l ∷ ls) (t ∷ ts) =
    (tax_of l.amount (rate_of l.tax_class) ≡ some t) × TaxedBy rate_of ls ts

tax_lines-TaxedBy :
    (rate_of : String → Text) (lines : List Line) {ls : List LineTax}
    → tax_lines rate_of lines ≡ some ls
    → TaxedBy rate_of lines (amounts ls)
unfolding tax_lines
tax_lines-TaxedBy rate_of [] {ls} e =
    subst (λ x. TaxedBy rate_of [] (amounts x)) (some-injective _ _ e) tt
tax_lines-TaxedBy rate_of (l ∷ lines) {ls} e =
    let (t, e₁, h₁) = >>=-eq-some (tax_of l.amount (rate_of l.tax_class)) _ e in
    let (rest, e₂, h₂) = >>=-eq-some (tax_lines rate_of lines) _ h₁ in
    subst (λ x. TaxedBy rate_of (l ∷ lines) (amounts x)) (some-injective _ _ h₂)
      (e₁, tax_lines-TaxedBy rate_of lines e₂)

pub TaxedBy-IsExact :
    (rate_of : String → Text) (lines : List Line) (ts : List Text)
    → TaxedBy rate_of lines ts
    → All IsExact ts
TaxedBy-IsExact rate_of [] [] h = tt
TaxedBy-IsExact rate_of [] (t ∷ ts) h = absurd h
TaxedBy-IsExact rate_of (l ∷ lines) [] h = absurd h
TaxedBy-IsExact rate_of (l ∷ lines) (t ∷ ts) (e, h) =
    (tax_of-IsExact l.amount (rate_of l.tax_class) e, TaxedBy-IsExact rate_of lines ts h)

-- As many taxes as lines: each zero is written over.
overwrite-all :
    (rate_of : String → Text) (classes : List (ℕ × String)) (lines : List OrderLine)
    (ls : List LineTax)
    → TaxedBy rate_of (map (request_line classes) lines) (amounts ls)
    → overwrite (zeros lines) ls ≡ some (amounts ls)
unfolding overwrite
overwrite-all rate_of classes [] [] h = refl
overwrite-all rate_of classes [] (t ∷ ts) h = absurd h
overwrite-all rate_of classes (l ∷ lines) [] h = absurd h
overwrite-all rate_of classes (l ∷ lines) (t ∷ ts) (_, h) =
    rw (overwrite-all rate_of classes lines ts h) refl

pub zero-amount_of : amount_of (codes "0") ≡ pos 0
zero-amount_of = amount_of-Denotes _ _ zero-Denotes

zero_if_blank-amount_of : (t : Text) → amount_of (zero_if_blank t) ≡ amount_of t
unfolding amount_of parse Rat.units Rat.round4
zero_if_blank-amount_of [] = refl
zero_if_blank-amount_of (b ∷ bs) = refl

zero_if_blank-IsExact : (t : Text) → IsExact t → IsExact (zero_if_blank t)
zero_if_blank-IsExact [] h = Denotes-IsExact (codes "0") (pos 0) zero-Denotes
zero_if_blank-IsExact (b ∷ bs) h = h

-- What a calculation by rates answers: the taxes of the lines by those rates, and their sum, which is
-- exact.
abbrev pub IsTaxed : (String → Text) → List Line → List Text → Text → Type 0
IsTaxed rate_of lines per_line total =
    TaxedBy rate_of lines per_line × (amount_of total ≡ sum_by amount_of per_line) × IsExact total

calculate-IsTaxed :
    (rate_of : String → Text) (r : Request) (res : Result)
    → calculate rate_of r ≡ some res
    → IsTaxed rate_of r.lines (amounts res.lines) res.tax_total
unfolding calculate
calculate-IsTaxed rate_of r res e =
    let (ls, e₁, h₁) = >>=-eq-some (tax_lines rate_of r.lines) _ e in
    let (t, e₂, h₂) = >>=-eq-some (sum (amounts ls)) _ h₁ in
    let by = tax_lines-TaxedBy rate_of r.lines e₁ in
    subst (λ x. IsTaxed rate_of r.lines (amounts x.lines) x.tax_total) (some-injective _ _ h₂)
      (
        by,
        zero_if_blank-amount_of t
            ∙ sum-amount_of (amounts ls) (TaxedBy-IsExact rate_of r.lines (amounts ls) by) e₂,
        zero_if_blank-IsExact t
            (sum-IsExact (amounts ls) (TaxedBy-IsExact rate_of r.lines (amounts ls) by) e₂),
      )

pub taxed-injective : {p q : List Text} {t u : Text} → taxed p t ≡ taxed q u → (p ≡ q) × (t ≡ u)
taxed-injective e = (cc, cc)

answered-IsTaxed :
    (rate_of : String → Text) (country : String) (classes : List (ℕ × String))
    (lines : List OrderLine) (o : Option Result) (per_line : List Text) (total : Text)
    → o ≡ calculate rate_of (request country classes lines)
    → answered lines o ≡ taxed per_line total
    → IsTaxed rate_of (map (request_line classes) lines) per_line total
unfolding request
answered-IsTaxed rate_of country classes lines none per_line total c e = cc
answered-IsTaxed rate_of country classes lines (some res) per_line total c e =
    let (by, s, exact) = calculate-IsTaxed rate_of (request country classes lines) res (sym c) in
    let all = overwrite-all rate_of classes lines res.lines by in
    let (same_lines, same_total) =
      taxed-injective (ap (λ o. filled o res.tax_total) (sym all) ∙ e) in
    (
      subst (TaxedBy rate_of (map (request_line classes) lines)) same_lines by,
      ap amount_of (sym same_total) ∙ s ∙ ap (sum_by amount_of) same_lines,
      subst IsExact same_total exact,
    )

-- The two providers: `NewService` and `NewServiceWithProvider` of a `MockExternal`.
pub data Provider : Type 0 where
  local_vat : Provider
  mock_external : Table → Text → Provider

abbrev pub provider_of : Provider → Option (Request → Option Result)
provider_of local_vat = none
provider_of (mock_external rates default) = some (calculate_mock rates default)

abbrev pub rate_by : Provider → Option Table → String → Text
rate_by local_vat none = local_rate []
rate_by local_vat (some rates) = local_rate rates
rate_by (mock_external rates default) _ = mock_rate rates default

-- The answer when nothing is taxed.
abbrev pub IsUntaxed : List OrderLine → List Text → Text → Type 0
IsUntaxed lines per_line total = (zeros lines ≡ per_line) × (codes "0" ≡ total)

pub by_provider-IsTaxed :
    (p : Provider) (country : String) (lines : List OrderLine) (rows : List (ℕ × String))
    (rates : Option Table) (per_line : List Text) (total : Text)
    → by_provider (provider_of p) lines (request country rows lines) rates ≡ taxed per_line total
    → ((p ≡ local_vat) × (rates ≡ some []) × IsUntaxed lines per_line total)
      ⊎ IsTaxed (rate_by p rates) (map (request_line rows) lines) per_line total
unfolding calculate_local calculate_mock
by_provider-IsTaxed local_vat country lines rows none per_line total e = cc
by_provider-IsTaxed local_vat country lines rows (some []) per_line total e =
    inl (refl, refl, taxed-injective e)
by_provider-IsTaxed local_vat country lines rows (some (r ∷ rs)) per_line total e =
    inr (answered-IsTaxed (local_rate (r ∷ rs)) country rows lines _ per_line total refl e)
by_provider-IsTaxed (mock_external t d) country lines rows rates per_line total e =
    inr (answered-IsTaxed (mock_rate t d) country rows lines _ per_line total refl e)
