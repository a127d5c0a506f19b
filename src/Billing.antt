-- ===== src/Billing.antt =====
-- internal/billing/billing.go: plans and the service that resolves them through a cache and counts
-- usage. JSON and the spelling of a month are the libraries': parameters. A time is a number of
-- nanoseconds, read from the clock where the code calls `time.Now`.
pub mod Gate
pub mod Recent
pub mod Counters
pub mod Quota
pub mod Refusals
pub mod Tests
use teggo.Prelude.{
  ℕ, ◌+◌, ◌^◌, Bool, true, false, ◌&&◌, ◌||◌, Option, none, some, List, [], ◌∷◌, ◌==◌,
  if◌then◌else◌, String, str_eq,
}
use teggo.Prelude.Int.{ℤ, pos, negsuc, ◌+ℤ◌, ltb_ℤ, wrap_64}
use teggo.Prelude.Keyed.{Held, served, assign, delete}

abbrev pub feature_subscriptions : String
feature_subscriptions = "subscriptions"

abbrev pub feature_rebates : String
feature_rebates = "rebates"

abbrev pub feature_fx : String
feature_fx = "fx"

abbrev pub feature_merchandising : String
feature_merchandising = "merchandising"

abbrev pub feature_assistant : String
feature_assistant = "assistant"

abbrev pub metric_orders : String
metric_orders = "orders"

abbrev pub metric_ai_calls : String
metric_ai_calls = "ai_calls"

abbrev pub metric_storage : String
metric_storage = "storage_bytes"

-- `PeriodKeyFor`, with the format "2006-01" of a time in UTC as `month`.
unfoldable pub period_key_for : (ℕ → String) → String → ℕ → String
period_key_for month metric at = if str_eq metric metric_storage then "all" else month at

-- `features` has the keys that are true.
pub record Entitlements : Type 0 where
  pub plan_code : String
  pub plan_name : String
  pub status : String
  pub features : List String
  pub limits : List (String × ℤ)

abbrev pub lists : List String → String → Bool
lists [] feature = false
lists (f ∷ features) feature = str_eq f feature || lists features feature

-- `Allows`; the nil pointer is `none`.
unfoldable pub allows : Option Entitlements → String → Bool
allows none feature = true
allows (some e) feature = lists e.features feature

abbrev pub cap_of : List (String × ℤ) → String → Option ℤ
cap_of [] metric = none
cap_of ((m, cap) ∷ limits) metric = if str_eq m metric then some cap else cap_of limits metric

-- `Limit`
unfoldable pub limit_of : Option Entitlements → String → Option ℤ
limit_of none metric = none
limit_of (some e) metric = cap_of e.limits metric

-- `gen.GetOrgEntitlementsRow`
pub record PlanRow : Type 0 where
  pub code : String
  pub name : String
  pub status : String
  pub features : String
  pub limits : String

-- What `json.Unmarshal` leaves in a list of strings and in a map of numbers.
pub record Json : Type 0 where
  pub strings : String → List String
  pub numbers : String → List (String × ℤ)

unfoldable pub parse_entitlements : Json → PlanRow → Entitlements
parse_entitlements json row = record {
  plan_code = row.code;
  plan_name = row.name;
  status = row.status;
  features = json.strings row.features;
  limits = json.numbers row.limits;
}

pub record Service : Type 0 where
  pub ttl : ℕ
  pub entries : List (ℕ × Held (Option Entitlements))

unfoldable pub new_service : ℕ → Service
new_service ttl = record { ttl = ttl; entries = [] }

-- The clock at the two calls of `time.Now`, and when the query in between read the row.
pub record Moment : Type 0 where
  pub checked : ℕ
  pub asked : ℕ
  pub stored : ℕ

-- `none` is an error of the query, a missing row included.
abbrev pub resolved : Json → Option PlanRow → Option Entitlements
resolved json none = none
resolved json (some row) = some (parse_entitlements json row)

unfoldable pub hold : ℕ → ℕ → Option Entitlements → Service → Service
hold now org ent s = record s {
  entries = assign org (record { value = ent; until = now + s.ttl }) s.entries;
}

-- `EntitlementsFor`: `row` is what the query answers if it is asked.
unfoldable pub entitlements_for :
    Json → Moment → Option PlanRow → ℕ → Service → Option Entitlements × Service
entitlements_for json at row org s = elim (served at.checked org s.entries) [
  | some ent ↦ (ent, s)
  | none ↦ let ent = resolved json row in (ent, hold at.stored org ent s)
]

unfoldable pub invalidate : ℕ → Service → Service
invalidate org s = record s { entries = delete org s.entries }

unfoldable pub invalidate_all : Service → Service
invalidate_all s = record s { entries = [] }

-- A row of usage_counters.
pub record Counter : Type 0 where
  pub org : ℕ
  pub metric : String
  pub period : String
  pub value : ℤ

unfoldable pub counts : Counter → ℕ → String → String → Bool
counts c org metric period = c.org == org && (str_eq c.metric metric && str_eq c.period period)

-- `GetUsageValue`
unfoldable pub usage_value : ℕ → String → String → List Counter → Option ℤ
usage_value org metric period [] = none
usage_value org metric period (c ∷ cs) =
    if counts c org metric period then some c.value else usage_value org metric period cs

-- A bigint of the database.
unfoldable pub fits : ℤ → Bool
fits (pos n) = ltb_ℤ (pos n) (pos (2 ^ 63))
fits (negsuc n) = ltb_ℤ (pos n) (pos (2 ^ 63))

-- `IncrementUsage`: a new row, or the sum in the old one; a sum that is no bigint is an error, which
-- leaves the rows.
unfoldable pub increment_usage : ℕ → String → String → ℤ → List Counter → List Counter
increment_usage org metric period n [] =
    record { org = org; metric = metric; period = period; value = n } ∷ []
increment_usage org metric period n (c ∷ cs) =
    if counts c org metric period
    then (if fits (c.value +ℤ n) then record c { value = c.value +ℤ n } else c) ∷ cs
    else c ∷ increment_usage org metric period n cs

-- An error of the query counts as no usage: `answers` tells whether the query gets through.
abbrev pub current_usage : Bool → Option ℤ → ℤ
current_usage false value = pos 0
current_usage true none = pos 0
current_usage true (some v) = v

-- The `int64` sum wraps.
abbrev pub exceeds : ℤ → ℤ → ℤ → Bool
exceeds limit current n = ltb_ℤ limit (wrap_64 (current +ℤ n))

-- `Over`
unfoldable pub over :
    (ℕ → String) → ℕ → Bool → Option Entitlements → ℕ → String → ℤ → List Counter → Bool
over month now answers ent org metric n cs = elim (limit_of ent metric) [
  | none ↦ false
  | some limit ↦
      exceeds limit
        (current_usage answers (usage_value org metric (period_key_for month metric now) cs)) n
]

abbrev pub is_zero : ℤ → Bool
is_zero (pos n) = n == 0
is_zero (negsuc n) = false

-- `Record`
unfoldable pub record_usage : (ℕ → String) → ℕ → Bool → ℕ → String → ℤ → List Counter → List Counter
record_usage month now answers org metric n cs =
    if org == 0 || is_zero n
    then cs
    else if answers
    then increment_usage org metric (period_key_for month metric now) n cs
    else cs
