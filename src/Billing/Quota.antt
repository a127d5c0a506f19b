-- ===== src/Billing/Quota.antt =====
-- What the gate of internal/billing/gate.go does to the counters of usage.
use teggo.Prelude.{◌≡◌, ℕ, ◌+◌, ◌<◌, true, Option, some, List, String}
use teggo.Prelude.Int.{ℤ, pos}
use teggo.Prelude.Keyed.{Held, find}
use teggo.Billing.{
  Entitlements, Json, PlanRow, Service, parse_entitlements, limit_of, period_key_for,
}
use teggo.Billing.Gate.{Request, Setting}

module _ {D : Type 0} (json : Json) (month : ℕ → String) (next : D → List ℕ × D) (o : ℕ)
    (m : String) (l : ℕ) where
  -- The test and the record fall in one period, the test reads the counter, and the length asked for
  -- does not reach the limit of an int64.
  pub record IsUsual (at : Setting) (content_length : ℤ) : Type 0 where
    pub reads : at.usage_answers ≡ true
    pub same_period : period_key_for month m at.tested ≡ period_key_for month m at.recorded
    pub one_more : l + 1 < 9223372036854775808
    pub fits_in : (c : ℕ) → content_length ≡ pos c → l + c < 9223372036854775808

  module _ (row : PlanRow)
      (limit : limit_of (some (parse_entitlements json row)) m ≡ some (pos l)) where
    -- What the cache has for the org is its plan.
    unfoldable pub IsPlanned : Service → Type 0
    IsPlanned s =
        (e : Held (Option Entitlements))
        → find o s.entries ≡ some e
        → e.value ≡ some (parse_entitlements json row)

    -- A request as usual: one for the org finds the org's plan row in the database.
    pub record IsUsualRequest (call : Setting × Request) : Type 0 where
      pub usual : IsUsual call.0 call.1.content_length
      pub planned : call.1.org ≡ some o → call.0.row ≡ some row
