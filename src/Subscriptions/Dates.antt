-- ===== src/Subscriptions/Dates.antt =====
-- `AddDate` of Go's package time on the date of a time, and `AdvanceDate` of
-- internal/subscriptions/service.go.
use teggo.Prelude.{
  refl, inl, inr, Bool-cases, ap, ◌∙◌, ℕ, zero, suc, ◌+◌, ◌-◌, ◌*◌, ◌/◌, ◌%◌, ◌≤◌, ◌<◌, ◌≡◌, Bool,
  true, false, ◌||◌, String, str_eq, ltb, leb, ◌==◌, arith, if◌then◌else◌,
}

pub record Date : Type 0 where
  pub year : ℕ
  pub month : ℕ
  pub day : ℕ

unfoldable pub is_leap : ℕ → Bool
is_leap y = if y % 4 == 0 then (if y % 100 == 0 then y % 400 == 0 else true) else false

-- Months are counted from January of the year 0.
unfoldable pub days_in : ℕ → ℕ
days_in i =
    let m = i % 12 in
    if m == 1
    then (if is_leap (i / 12) then 29 else 28)
    else if m == 3 || m == 5 || m == 8 || m == 10
    then 30
    else 31

abbrev pub index : Date → ℕ
index d = d.year * 12 + (d.month - 1)

abbrev pub date_at : ℕ → ℕ → Date
date_at i day = record { year = i / 12; month = i % 12 + 1; day = day }

-- Days past the end of a month count on in the next, as `Date` normalizes them.
unfoldable pub settle : ℕ → ℕ → ℕ → Date
settle zero i day = date_at i day
settle (suc fuel) i day =
    let later = settle fuel (suc i) (day - days_in i) in
    if leb day (days_in i) then date_at i day else later

-- `AddDate(0, months, days)`
unfoldable pub add_date : ℕ → ℕ → Date → Date
add_date months days d = settle (d.day + days) (index d + months) (d.day + days)

-- `AdvanceDate`
unfoldable pub advance_date : String → Date → Date
advance_date cadence from =
    if str_eq cadence "weekly"
    then add_date 0 7 from
    else if str_eq cadence "biweekly"
    then add_date 0 14 from
    else if str_eq cadence "quarterly"
    then add_date 3 0 from
    else add_date 1 0 from

-- A date of the calendar.
pub record IsDate (d : Date) : Type 0 where
  pub month_in : (1 ≤ d.month) × (d.month ≤ 12)
  pub day_in : (1 ≤ d.day) × (d.day ≤ days_in (index d))

-- The days before a month.
unfoldable pub days_before : ℕ → ℕ
days_before zero = 0
days_before (suc i) = days_before i + days_in i

-- Days counted from December 31st of the year -1.
unfoldable pub day_number : Date → ℕ
day_number d = days_before (index d) + d.day

-- `a <= b` on dates.
unfoldable pub leb_date : Date → Date → Bool
leb_date a b =
    if a.year == b.year
    then (if a.month == b.month then leb a.day b.day else ltb a.month b.month)
    else ltb a.year b.year

pub days_in_range : (i : ℕ) → (28 ≤ days_in i) × (days_in i ≤ 31)
unfolding days_in
days_in_range i = ground arith

-- A date on or after the start of a month: valid, with its day number.
pub record Settles (i day : ℕ) (d : Date) : Type 0 where
  pub valid : IsDate d
  pub number : day_number d ≡ days_before i + day

date_at-Settles : (i day : ℕ) → 1 ≤ day → day ≤ days_in i → Settles i day (date_at i day)
unfolding day_number
date_at-Settles i day h k =
    let same : index (date_at i day) ≡ i = omega arith in
    record {
      valid = record { month_in = omega arith; day_in = (h, rw same k) };
      number = rw same refl;
    }

days_before-suc : (i : ℕ) → days_before (suc i) ≡ days_before i + days_in i
unfolding days_before
days_before-suc i = refl

settle-Settles : (fuel i day : ℕ) → 1 ≤ day → day ≤ fuel → Settles i day (settle fuel i day)
unfolding settle
settle-Settles zero i day h k = absurd (omega arith)
settle-Settles (suc fuel) i day h k = elim (Bool-cases (leb day (days_in i))) [
  | inl fits ↦ rw fits (date_at-Settles i day h (ground (arith, fits)))
  | inr over ↦
      let past : days_in i < day = ground (arith, over) in
      let rest =
        settle-Settles fuel (suc i) (day - days_in i) (omega (arith, past))
          (omega (arith, past, days_in_range i)) in
      rw over (record {
        valid = rest.valid;
        number = rest.number ∙ omega (arith, past, days_before-suc i);
      })
]

pub add_date-Settles :
    (months days : ℕ) (d : Date)
    → IsDate d
    → Settles (index d + months) (d.day + days) (add_date months days d)
unfolding add_date
add_date-Settles months days d v = settle-Settles _ _ _ (omega (arith, v.day_in.0)) (omega arith)

-- Before a later month all days of the month have passed.
days_before_later : (i j : ℕ) → i < j → days_before i + days_in i ≤ days_before j
unfolding days_before
days_before_later i zero h = absurd (omega arith)
days_before_later i (suc j) h = elim (Bool-cases (i == j)) [
  | inl same ↦ ground (arith, same)
  | inr other ↦ let ih = days_before_later i j (ground (arith, other)) in omega (arith, ih)
]

-- The order of dates is that of their day numbers.
pub leb_date_lem :
    (a b : Date) → IsDate a → IsDate b → leb_date a b ≡ leb (day_number a) (day_number b)
unfolding leb_date day_number
leb_date_lem a b va vb = grind (
  arith,
  va.month_in,
  va.day_in,
  vb.month_in,
  vb.day_in,
  days_before_later (index a) (index b),
  days_before_later (index b) (index a),
)

-- By how many days a cadence moves a date: a month is as long as the month of the date.
unfoldable pub gap : String → Date → ℕ
gap cadence d =
    let i = index d in
    if str_eq cadence "weekly"
    then 7
    else if str_eq cadence "biweekly"
    then 14
    else if str_eq cadence "quarterly"
    then days_in i + days_in (i + 1) + days_in (i + 2)
    else days_in i

by_months :
    (k total : ℕ) (d : Date)
    → IsDate d
    → days_before (index d + k) ≡ days_before (index d) + total
    → IsDate (add_date k 0 d) × (day_number (add_date k 0 d) ≡ day_number d + total)
unfolding day_number
by_months k total d v e = let s = add_date-Settles k 0 d v in (s.valid, s.number ∙ omega (arith, e))

by_days :
    (n : ℕ) (d : Date)
    → IsDate d
    → IsDate (add_date 0 n d) × (day_number (add_date 0 n d) ≡ day_number d + n)
unfolding day_number
by_days n d v =
    let s = add_date-Settles 0 n d v in
    let here : index d + 0 ≡ index d = omega arith in
    (s.valid, s.number ∙ omega (arith, ap days_before here))

after_month : (i : ℕ) → days_before (i + 1) ≡ days_before i + days_in i
after_month i = let next : i + 1 ≡ suc i = omega arith in ap days_before next ∙ days_before-suc i

after_quarter :
    (i : ℕ) → days_before (i + 3) ≡ days_before i + (days_in i + days_in (i + 1) + days_in (i + 2))
after_quarter i =
    let two : i + 2 ≡ i + 1 + 1 = omega arith in
    let three : i + 3 ≡ i + 2 + 1 = omega arith in
    omega (
      arith,
      after_month i,
      after_month (i + 1),
      after_month (i + 2),
      ap days_before two,
      ap days_before three,
    )

-- The next run date is a date of the calendar, exactly as many days after the given one as the
-- cadence says: 7, 14, the length of the given date's month, or of that and the two months after it.
pub advance_date-IsDate :
    (cadence : String) (from : Date)
    → IsDate from
    → IsDate (advance_date cadence from)
      × (day_number (advance_date cadence from) ≡ day_number from + gap cadence from)
unfolding advance_date gap days_before
advance_date-IsDate cadence from v = elim (Bool-cases (str_eq cadence "weekly")) [
  | inl week ↦ rw week (by_days 7 from v)
  | inr no_week ↦ elim (Bool-cases (str_eq cadence "biweekly")) [
    | inl weeks ↦ rw (no_week, weeks) (by_days 14 from v)
    | inr no_weeks ↦ elim (Bool-cases (str_eq cadence "quarterly")) [
      | inl quarter ↦
          rw (no_week, no_weeks, quarter) (by_months 3 _ from v (after_quarter (index from)))
      | inr month ↦ rw (no_week, no_weeks, month) (by_months 1 _ from v (after_month (index from)))
    ]
  ]
]

gap_range : (cadence : String) (d : Date) → (7 ≤ gap cadence d) × (gap cadence d ≤ 93)
unfolding gap
gap_range cadence d =
    let i = index d in grind (arith, days_in_range i, days_in_range (i + 1), days_in_range (i + 2))

-- So a run moves the schedule past its day.
pub advance_date-later :
    (cadence : String) (from : Date)
    → IsDate from
    → leb_date (advance_date cadence from) from ≡ false
advance_date-later cadence from v =
    let (valid, n) = advance_date-IsDate cadence from v in
    rw (leb_date_lem (advance_date cadence from) from valid v, n)
      (ground (arith, gap_range cadence from))
