-- ===== src/Billing/Gate.antt =====
-- internal/billing/gate.go. The handler behind the gate works on a state D of its own and writes status
-- codes; the clock is read once for the cache, once for the test and once for the record.
use teggo.Prelude.{
  ℕ, Bool, true, false, not, ◌&&◌, ◌||◌, Option, none, some, List, [], ◌∷◌, if◌then◌else◌, ltb,
  String, str_eq,
}
use teggo.Prelude.Int.{ℤ, pos, negsuc}
use teggo.Prelude.Text.{Text, codes, text_eq, has_prefix, has_suffix}
use teggo.Billing.{
  feature_subscriptions, feature_rebates, feature_fx, feature_merchandising, feature_assistant,
  metric_orders, metric_ai_calls, metric_storage, Entitlements, Json, Moment, PlanRow, Service,
  allows, entitlements_for, Counter, over, record_usage,
}

-- `rule`; an empty text stands for no feature and for no metric.
pub record Rule : Type 0 where
  pub feature : String
  pub metric : String
  pub bytes : Bool

abbrev pub rule : String → String → Bool → Rule
rule feature metric bytes = record { feature = feature; metric = metric; bytes = bytes }

abbrev pub starts_one_of : Text → List String → Bool
starts_one_of path [] = false
starts_one_of path (p ∷ ps) = has_prefix path (codes p) || starts_one_of path ps

abbrev pub is_one_of : Text → List String → Bool
is_one_of path [] = false
is_one_of path (p ∷ ps) = text_eq path (codes p) || is_one_of path ps

-- The cases of `ruleFor` that ask for a POST.
abbrev pub post_rule_for : Text → Option Rule
post_rule_for path =
    if is_one_of path ("/admin/assistant" ∷ "/storefront/assistant" ∷ [])
    then some (rule feature_assistant metric_ai_calls false)
    else if is_one_of path ("/admin/orders" ∷ "/storefront/orders" ∷ [])
    then some (rule "" metric_orders false)
    else if has_prefix path (codes "/storefront/quotes/") && has_suffix path (codes "/accept")
    then some (rule "" metric_orders false)
    else if is_one_of path ("/admin/media" ∷ [])
    then some (rule "" metric_storage true)
    else none

-- The cases of `ruleFor` for any method.
abbrev pub any_rule_for : Text → Option Rule
any_rule_for path =
    if starts_one_of path ("/admin/subscriptions" ∷ "/storefront/subscriptions" ∷ [])
    then some (rule feature_subscriptions "" false)
    else if starts_one_of path ("/admin/rebates" ∷ "/storefront/rebates" ∷ [])
    then some (rule feature_rebates "" false)
    else if starts_one_of path ("/admin/fx-rates" ∷ [])
    then some (rule feature_fx "" false)
    else if starts_one_of path
        ("/admin/search-synonyms" ∷ "/admin/search-redirects" ∷ "/admin/merchandising-rules" ∷ [])
    then some (rule feature_merchandising "" false)
    else none

-- The first case that fits, as in a `switch`.
abbrev pub or_else : Option Rule → Option Rule → Option Rule
or_else none next = next
or_else (some r) next = some r

-- `ruleFor`
unfoldable pub rule_for : String → Text → Option Rule
rule_for method path =
    or_else (if str_eq method "POST" then post_rule_for path else none) (any_rule_for path)

-- `content_length` is -1 where the length is not known; `org` is that of the claims, if any.
pub record Request : Type 0 where
  pub method : String
  pub path : Text
  pub content_length : ℤ
  pub org : Option ℕ

-- The codes that a handler writes, in order. `statusWriter` keeps the last.
unfoldable pub status_of : ℕ → List ℕ → ℕ
status_of status [] = status
status_of status (code ∷ codes_) = status_of code codes_

-- The answer of the handler behind the gate, or a refusal with 403 and its code.
pub data Response : Type 0 where
  passed : List ℕ → Response
  refused : String → Response

-- What the database answers to a request: the plan row, and whether the two queries on counters get
-- through; and the clock.
pub record Setting : Type 0 where
  pub row : Option PlanRow
  pub moment : Moment
  pub usage_answers : Bool
  pub record_answers : Bool
  pub tested : ℕ
  pub recorded : ℕ

pub record World (D : Type 0) : Type 0 where
  pub service : Service
  pub counters : List Counter
  pub domain : D

-- `n`
unfoldable pub amount_metered : Rule → ℤ → ℤ
amount_metered ru (pos n) = if ru.bytes then pos n else pos 1
amount_metered ru (negsuc n) = if ru.bytes then pos 0 else pos 1

module _ {D : Type 0} (json : Json) (month : ℕ → String) (next : D → List ℕ × D) where
  abbrev pub serve : World D → Response × World D
  serve w = let (written, d) = next w.domain in (passed written, record w { domain = d })

  -- The handler, and the record of a success.
  unfoldable pub serve_metered : Setting → ℕ → Rule → ℤ → World D → Response × World D
  serve_metered at org ru n w =
      let (written, d) = next w.domain in
      let counters =
        if ltb (status_of 200 written) 300
        then record_usage month at.recorded at.record_answers org ru.metric n w.counters
        else w.counters in
      (passed written, record w { domain = d; counters = counters })

  -- The part of the gate on the metric.
  unfoldable pub meter : Setting → ℕ → Option Entitlements → Rule → ℤ → World D → Response × World D
  meter at org ent ru content_length w =
      if str_eq ru.metric ""
      then serve w
      else let n = amount_metered ru content_length in
        if over month at.tested at.usage_answers ent org ru.metric n w.counters
        then (refused "quota_exceeded", w)
        else serve_metered at org ru n w

  -- The part of the gate on a request with a rule.
  unfoldable pub enforce : Setting → ℕ → Rule → ℤ → World D → Response × World D
  enforce at org ru content_length w =
      let (ent, service) = entitlements_for json at.moment at.row org w.service in
      let w' = record w { service = service } in
      if not (str_eq ru.feature "") && not (allows ent ru.feature)
      then (refused "feature_not_in_plan", w')
      else meter at org ent ru content_length w'

  -- `Gate`
  unfoldable pub gate : Setting → Request → World D → Response × World D
  gate at r w = elim r.org [
    | none ↦ serve w
    | some org ↦ elim (rule_for r.method r.path) [
      | none ↦ serve w
      | some ru ↦ enforce at org ru r.content_length w
    ]
  ]

  -- Requests that come one after the other.
  unfoldable pub gate_all : List (Setting × Request) → World D → World D
  gate_all [] w = w
  gate_all ((at, r) ∷ calls) w = gate_all calls (gate at r w).1
