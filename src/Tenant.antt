-- ===== src/Tenant.antt =====
-- internal/tenant/status.go, the cache of the orgs' lifecycle statuses, and the checks of
-- internal/server/middleware/orgstatus.go and permission.go that stand before a handler. The handler
-- works on a state D and answers with an A.
pub mod Access
pub mod Tests
use teggo.Prelude.{
  ℕ, ◌+◌, Bool, true, false, ◌||◌, Option, none, some, List, [], ◌∷◌, if◌then◌else◌, String, str_eq,
}
use teggo.Prelude.Keyed.{Held, served, assign, delete}

pub record StatusCache : Type 0 where
  pub ttl : ℕ
  pub entries : List (ℕ × Held String)

unfoldable pub new_status_cache : ℕ → StatusCache
new_status_cache ttl = record { ttl = ttl; entries = [] }

-- `Status`, at the two readings of the clock; `answer` is the status in the row of the org, where the
-- query finds one. `none` is ("", false).
unfoldable pub status : ℕ → ℕ → Option String → ℕ → StatusCache → Option String × StatusCache
status now stored answer org c = elim (served now org c.entries) [
  | some s ↦ (some s, c)
  | none ↦ elim answer [
    | none ↦ (none, c)
    | some s ↦ (
      some s,
      record c { entries = assign org (record { value = s; until = stored + c.ttl }) c.entries },
    )
  ]
]

unfoldable pub invalidate : ℕ → StatusCache → StatusCache
invalidate org c = record c { entries = delete org c.entries }

-- `Claims`, as far as the checks read them.
pub record Claims : Type 0 where
  pub org : ℕ
  pub audience : String
  pub permissions : List String

-- What a request gets: a refusal with its status and code, or the handler's answer.
pub data Reply (A : Type 0) : Type 0 where
  fail : ℕ → String → Reply A
  answer : A → Reply A

abbrev pub Handler : Type 0 → Type 0 → Type 0
Handler D A = D → Reply A × D

-- What a status that is known refuses.
abbrev pub refusal : Option String → Option String
refusal none = none
refusal (some s) =
    if str_eq s "suspended"
    then some "org_suspended"
    else if str_eq s "pending"
    then some "org_pending"
    else none

-- The loop over the permissions.
abbrev pub granted : List String → String → Bool
granted [] perm = false
granted (p ∷ ps) perm = str_eq p perm || granted ps perm

module _ {D A : Type 0} where
  abbrev pub blocked : Option String → Handler D A → Handler D A
  blocked none next d = next d
  blocked (some code) next d = (fail 403 code, d)

  -- `RequireOrgActive`; `lookup` is the status of an org, with the cache as it leaves it.
  unfoldable pub require_org_active :
      (ℕ → StatusCache → Option String × StatusCache)
      → Option Claims
      → Handler D A
      → StatusCache × D
      → Reply A × (StatusCache × D)
  require_org_active lookup none next (c, d) = let (r, d') = next d in (r, (c, d'))
  require_org_active lookup (some claims) next (c, d) =
      let (s, c') = lookup claims.org c in let (r, d') = blocked (refusal s) next d in (r, (c', d'))

  -- `RequireAudience`
  unfoldable pub require_audience : String → Option Claims → Handler D A → Handler D A
  require_audience aud none next d = (fail 401 "unauthorized", d)
  require_audience aud (some claims) next d =
      if str_eq claims.audience aud then next d else (fail 403 "forbidden", d)

  -- `RequirePermission`
  unfoldable pub require_permission : String → Option Claims → Handler D A → Handler D A
  require_permission perm none next d = (fail 401 "unauthorized", d)
  require_permission perm (some claims) next d =
      if granted claims.permissions perm then next d else (fail 403 "forbidden", d)
