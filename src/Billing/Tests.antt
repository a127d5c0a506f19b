-- ===== src/Billing/Tests.antt =====
-- An org on a plan with ten orders a month, and instances of the theorems.
use teggo.Prelude.{
  ◌≡◌, refl, ℕ, true, false, Option, ltb, if◌then◌else◌, none, some, List, [], ◌∷◌, All, String,
  arith,
}
use teggo.Prelude.Int.{pos, ◌+ℤ◌, wrap_64}
use teggo.Prelude.Text.{codes, has_prefix, has_suffix}
use teggo.Prelude.Keyed.{find, served, assign, delete}
use teggo.Billing.{
  Json, Moment, PlanRow, new_service, entitlements_for, parse_entitlements, hold, Counter,
  usage_value, limit_of, period_key_for, over, exceeds, counts, record_usage, allows, fits,
  increment_usage,
}
use teggo.Billing.Gate.{
  rule_for, rule, Request, refused, Setting, World, enforce, meter, amount_metered, gate, status_of,
  serve_metered,
}
use teggo.Billing.Recent.{Call, ask, drop, IsTimely, IsRecent, run, run-IsRecent}
use teggo.Billing.Refusals.{IsFair, gate-IsFair}

abbrev json : Json
json = record { strings = λ s. s ∷ []; numbers = λ s. (s, pos 10) ∷ [] }

abbrev month : ℕ → String
month now = "2026-01"

abbrev starter : PlanRow
starter = record {
  code = "starter";
  name = "Starter";
  status = "active";
  features = "rebates";
  limits = "orders";
}

abbrev moment : ℕ → Moment
moment t = record { checked = t; asked = t; stored = t }

abbrev setting : Setting
setting = record {
  row = some starter;
  moment = moment 5;
  usage_answers = true;
  record_answers = true;
  tested = 5;
  recorded = 6;
}

abbrev place_order : Request
place_order = record {
  method = "POST";
  path = codes "/storefront/orders";
  content_length = pos 200;
  org = some 7;
}

abbrev answer_201 : ℕ → List ℕ × ℕ
answer_201 d = (201 ∷ [], d)

abbrev used : ℕ → List Counter
used n = record { org = 7; metric = "orders"; period = "2026-01"; value = pos n } ∷ []

abbrev world : ℕ → World ℕ
world n = record { service = new_service 30; counters = used n; domain = 0 }

accept_rule : rule_for "POST" (codes "/storefront/quotes/12/accept") ≡ some (rule "" "orders" false)
unfolding rule_for has_prefix has_suffix
accept_rule = refl

read_rule : rule_for "GET" (codes "/admin/orders") ≡ none
unfolding rule_for has_prefix has_suffix
read_rule = refl

tenth_order : (gate json month answer_201 setting place_order (world 9)).1.counters ≡ used 10
unfolding new_service gate rule_for has_prefix has_suffix enforce meter over limit_of
    entitlements_for served find parse_entitlements wrap_64 ◌+ℤ◌ usage_value counts period_key_for
    amount_metered serve_metered status_of record_usage allows fits hold increment_usage assign
    delete
tenth_order = refl

eleventh_order :
    (gate json month answer_201 setting place_order (world 10)).0 ≡ refused "quota_exceeded"
unfolding new_service gate rule_for has_prefix has_suffix enforce meter over limit_of
    entitlements_for served find parse_entitlements wrap_64 ◌+ℤ◌ usage_value counts period_key_for
    amount_metered serve_metered status_of
eleventh_order = refl

-- The sum of the usage and a length wraps below any cap.
overflow : exceeds (pos 10) (pos 1) (pos 9223372036854775807) ≡ false
unfolding wrap_64 ◌+ℤ◌
overflow = refl

gate-IsFair_example :
    IsFair json month answer_201
      (world 10)
      (gate json month answer_201 setting place_order (world 10))
gate-IsFair_example = gate-IsFair json month answer_201 setting place_order (world 10)

abbrev changes : List Call
changes = ask (moment 1) 7 ∷ ask (moment 5) 7 ∷ drop 7 6 ∷ ask (moment 7) 7 ∷ []

abbrev plans : ℕ → ℕ → Option PlanRow
plans t org = if ltb t 6 then some starter else none

timely : IsTimely 0 0 changes
unfolding IsTimely
timely = ground arith

run-IsRecent_example :
    All (IsRecent json plans 30) (run json plans (λ _. 0) (new_service 30) changes)
run-IsRecent_example = run-IsRecent json plans 0 30 changes timely
