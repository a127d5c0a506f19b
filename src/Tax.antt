-- ===== src/Tax.antt =====
-- internal/tax: VAT per line from a table of rates (tax.go), the stand-in for an external service
-- (mock.go), and the taxing of an order by either (service.go). The two queries are parameters.
pub mod Total
pub mod Order
pub mod Tests
use teggo.Prelude.{
  ℕ, ◌≡◌, Option, none, some, List, [], ◌∷◌, map, ◌>>=◌, ◌==◌, if◌then◌else◌, String, str_eq,
}
use teggo.Prelude.Text.{Text, codes}
use teggo.Money.Rat
use teggo.Money.Decimal.{parse, format}
use teggo.Money.Amount.{sum}

-- `Line`, `LineTax`, `Request` and `Result`
pub record Line : Type 0 where
  pub product_id : ℕ
  pub tax_class : String
  pub amount : Text

pub record LineTax : Type 0 where
  pub product_id : ℕ
  pub tax_class : String
  pub rate : Text
  pub tax_amount : Text

pub record Request : Type 0 where
  pub country : String
  pub lines : List Line

pub record Result : Type 0 where
  pub country : String
  pub lines : List LineTax
  pub tax_total : Text

-- A `map[string]string` filled from rows: of two rows with a key, the later stays.
abbrev pub Table : Type 0
Table = List (String × Text)

abbrev kept : Option Text → String → String → Text → Option Text
kept (some later) key k v = some later
kept none key k v = if str_eq k key then some v else none

unfoldable pub look_up : String → Table → Option Text
look_up key [] = none
look_up key ((k, v) ∷ rows) = kept (look_up key rows) key k v

abbrev pub or_blank : Option Text → Text
or_blank none = []
or_blank (some t) = t

abbrev pub zero_if_blank : Text → Text
zero_if_blank [] = codes "0"
zero_if_blank (b ∷ bs) = b ∷ bs

-- `taxOf`
unfoldable pub tax_of : Text → Text → Option Text
tax_of amount rate = do a ← parse amount; rt ← parse rate; some (format (Rat.mul a rt))

abbrev pub line_tax : Line → Text → Text → LineTax
line_tax ln rate amount = record {
  product_id = ln.product_id;
  tax_class = ln.tax_class;
  rate = rate;
  tax_amount = amount;
}

-- The loop of `Calculate`, with the rate that the provider gives a class.
unfoldable pub tax_lines : (String → Text) → List Line → Option (List LineTax)
tax_lines rate_of [] = some []
tax_lines rate_of (ln ∷ lines) = do
  amount ← tax_of ln.amount (rate_of ln.tax_class)
  rest ← tax_lines rate_of lines
  some (line_tax ln (rate_of ln.tax_class) amount ∷ rest)

abbrev pub amounts : List LineTax → List Text
amounts = map (λ l. l.tax_amount)

unfoldable pub calculate : (String → Text) → Request → Option Result
calculate rate_of r = do
  lines ← tax_lines rate_of r.lines
  total ← sum (amounts lines)
  some (record { country = r.country; lines = lines; tax_total = zero_if_blank total })

-- `LocalVAT.Calculate`
unfoldable pub local_rate : Table → String → Text
local_rate rates cls = zero_if_blank (or_blank (look_up cls rates))

unfoldable pub calculate_local : Table → Request → Option Result
calculate_local rates = calculate (local_rate rates)

-- `MockExternal.Calculate`
abbrev pub or_default : Option Text → Text → Text
or_default none default = default
or_default (some t) default = t

unfoldable pub mock_rate : Table → Text → String → Text
mock_rate rates default cls = zero_if_blank (or_default (look_up cls rates) default)

unfoldable pub calculate_mock : Table → Text → Request → Option Result
calculate_mock rates default = calculate (mock_rate rates default)

-- `OrderLine`
pub record OrderLine : Type 0 where
  pub product_id : ℕ
  pub amount : Text

-- What `ComputeOrderTax` returns, the error apart: `perLine` and `total`; `panic` is an index out of
-- range, which a provider that returns more lines than it was given causes.
pub data Answer : Type 0 where
  taxed : List Text → Text → Answer
  failed : List Text → Text → Answer
  panic : Answer

abbrev pub zeros : List OrderLine → List Text
zeros = map (λ l. codes "0")

-- The class of a product by the rows of the query, the later first; no row or a blank one is standard.
abbrev kept_class : Option String → ℕ → ℕ → String → Option String
kept_class (some later) id i c = some later
kept_class none id i c = if i == id then some c else none

unfoldable pub class_of : ℕ → List (ℕ × String) → Option String
class_of id [] = none
class_of id ((i, c) ∷ rows) = kept_class (class_of id rows) id i c

abbrev pub or_standard : Option String → String
or_standard none = "standard"
or_standard (some c) = if str_eq c "" then "standard" else c

abbrev pub request_line : List (ℕ × String) → OrderLine → Line
request_line classes l = record {
  product_id = l.product_id;
  tax_class = or_standard (class_of l.product_id classes);
  amount = l.amount;
}

unfoldable pub request : String → List (ℕ × String) → List OrderLine → Request
request country classes lines = record {
  country = country;
  lines = map (request_line classes) lines;
}

-- The taxes written over the front of the zeros.
unfoldable pub overwrite : List Text → List LineTax → Option (List Text)
overwrite per_line [] = some per_line
overwrite [] (l ∷ ls) = none
overwrite (t ∷ per_line) (l ∷ ls) = do rest ← overwrite per_line ls; some (l.tax_amount ∷ rest)

abbrev pub filled : Option (List Text) → Text → Answer
filled none total = panic
filled (some per_line) total = taxed per_line total

abbrev pub answered : List OrderLine → Option Result → Answer
answered lines none = failed (zeros lines) (codes "0")
answered lines (some res) = filled (overwrite (zeros lines) res.lines) res.tax_total

abbrev pub by_local : List OrderLine → Request → Option Table → Answer
by_local lines req none = failed (zeros lines) (codes "0")
by_local lines req (some []) = taxed (zeros lines) (codes "0")
by_local lines req (some (row ∷ rows)) = answered lines (calculate_local (row ∷ rows) req)

abbrev pub by_provider :
    Option (Request → Option Result) → List OrderLine → Request → Option Table → Answer
by_provider none lines req rates = by_local lines req rates
by_provider (some calculate_by) lines req rates = answered lines (calculate_by req)

-- `ComputeOrderTax`; `classes` and `rates` are what `GetProductTaxClasses` of the lines' products and
-- `ListTaxRatesByCountry` return, `none` an error.
unfoldable pub compute_order_tax :
    Option (Request → Option Result)
    → String
    → List OrderLine
    → Option (List (ℕ × String))
    → Option Table
    → Answer
compute_order_tax provider country [] classes rates = taxed [] (codes "0")
compute_order_tax provider country (l ∷ ls) classes rates =
    if str_eq country "" then taxed (zeros (l ∷ ls)) (codes "0") else elim classes [
      | none ↦ failed (zeros (l ∷ ls)) (codes "0")
      | some rows ↦ by_provider provider (l ∷ ls) (request country rows (l ∷ ls)) rates
    ]
