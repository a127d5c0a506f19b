-- ===== src/Rebates/Period.antt =====
-- `PeriodWindow` of internal/rebates/engine.go. A time counts by its UTC year and month alone, since
-- all bounds are first days of months; `AddDate` on such a day moves whole months.

use teggo.Prelude.{
  ℕ, zero, suc, ◌+◌, ◌-◌, ◌*◌, ◌/◌, ◌%◌, ◌≤◌, ◌<◌, ◌≡◌, [], ◌∷◌, ◌++◌, String, str_eq, arith,
  length, if◌then◌else◌, Bool-cases, inl, inr,
}
use teggo.Prelude.Text.{Text, codes}
use teggo.Money.Decimal.{show_ℕ}

pub record Month : Type 0 where
  pub year : ℕ
  pub month : ℕ

-- Months counted from the year 0.
abbrev pub index : Month → ℕ
index d = d.year * 12 + d.month

abbrev pub IsMonth : Month → Type 0
IsMonth d = (1 ≤ d.month) × (d.month ≤ 12)

-- `AddDate(0, k, 0)`
abbrev add_months : Month → ℕ → Month
add_months d k = record {
  year = d.year + (d.month - 1 + k) / 12;
  month = (d.month - 1 + k) % 12 + 1;
}

-- `AddDate(k, 0, 0)`
abbrev add_years : Month → ℕ → Month
add_years d k = record d { year = d.year + k }

abbrev month_at : ℕ → ℕ → Month
month_at y m = record { year = y; month = m }

zeros : ℕ → Text
zeros zero = []
zeros (suc n) = b'0' ∷ zeros n

-- Zeros in front, up to a width.
pad : ℕ → Text → Text
unfolding zeros
pad w s = zeros (w - length s) ++ s

-- `start.Format("2006-01")`
month_key : Month → Text
unfolding pad show_ℕ
month_key d = pad 4 (show_ℕ d.year) ++ (b'-' ∷ pad 2 (show_ℕ d.month))

-- `start.Format("2006")`
year_key : Month → Text
unfolding pad show_ℕ
year_key d = pad 4 (show_ℕ d.year)

-- `Sprintf("%d-Q%d", y, q+1)`
quarter_key : ℕ → ℕ → Text
unfolding show_ℕ
quarter_key y q = show_ℕ y ++ (codes "-Q" ++ show_ℕ (q + 1))

pub record Window : Type 0 where
  pub start : Month
  pub stop : Month
  pub key : Text

abbrev monthly : Month → Window
monthly ref = record {
  start = month_at ref.year ref.month;
  stop = add_months (month_at ref.year ref.month) 1;
  key = month_key (month_at ref.year ref.month);
}

abbrev annual : Month → Window
annual ref = record {
  start = month_at ref.year 1;
  stop = add_years (month_at ref.year 1) 1;
  key = year_key (month_at ref.year 1);
}

-- The quarter, from 0 to 3.
abbrev quarter : Month → ℕ
quarter ref = (ref.month - 1) / 3

abbrev quarterly : Month → Window
quarterly ref = record {
  start = month_at ref.year (quarter ref * 3 + 1);
  stop = add_months (month_at ref.year (quarter ref * 3 + 1)) 3;
  key = quarter_key ref.year (quarter ref);
}

-- `PeriodWindow`; every other period counts as quarterly.
unfoldable pub period_window : String → Month → Window
unfolding month_key year_key quarter_key
period_window period ref =
    if str_eq period "monthly"
    then monthly ref
    else if str_eq period "annual"
    then annual ref
    else quarterly ref

-- A statement about each kind of period holds of every period name.
by_kind {ℓ} :
    (P : (Month → Window) → Type ℓ)
    → P monthly
    → P annual
    → P quarterly
    → (period : String) → P (period_window period)
unfolding period_window
by_kind P m a q period = elim (Bool-cases (str_eq period "monthly")) [
  | inl is_m ↦ rw (is_m, period_window) m
  | inr not_m ↦ elim (Bool-cases (str_eq period "annual")) [
    | inl is_a ↦ rw (not_m, is_a, period_window) a
    | inr not_a ↦ rw (not_m, not_a, period_window) q
  ]
]

abbrev Holds : Window → Month → Type 0
Holds w d = (index w.start ≤ index d) × (index d < index w.stop)

abbrev HoldsOwn : (Month → Window) → Type 0
HoldsOwn window = (ref : Month) → IsMonth ref → Holds (window ref) ref

abbrev Parts : (Month → Window) → Type 0
Parts window =
    (ref other : Month)
    → IsMonth ref
    → IsMonth other
    → Holds (window ref) other
    → window other ≡ window ref

-- For a month from 1 to 12, the window of each period holds the time that it is asked for: it starts
-- at or before that time, and ends after it.
period_window_contains :
    (period : String) (ref : Month)
    → IsMonth ref
    → (index (period_window period ref).start ≤ index ref)
      × (index ref < index (period_window period ref).stop)
period_window_contains =
    by_kind HoldsOwn (λ ref h. omega arith) (λ ref h. omega arith) (λ ref h. omega arith)
