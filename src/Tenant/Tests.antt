-- ===== src/Tenant/Tests.antt =====
-- An operator's request, a suspended org, and an instance of the theorem.
use teggo.Prelude.{◌≡◌, refl, ℕ, some, [], ◌∷◌, String, ◌⊎◌}
use teggo.Prelude.Keyed.{find, served, assign, delete}
use teggo.Tenant.{new_status_cache, status, Claims, fail, answer, Handler, require_org_active}
use teggo.Tenant.Access.{IsAdmitted, guarded, guarded-IsAdmitted}

abbrev operator : Claims
operator = record { org = 3; audience = "admin"; permissions = "orders.read" ∷ [] }

abbrev visit : Handler ℕ ℕ
visit d = (answer d, d)

-- The status is cached until 35, then read again.
served_stale :
    let (first, c) = status 5 5 (some "active") 3 (new_status_cache 30) in
    first ∷ (status 34 34 (some "suspended") 3 c).0 ∷ (status 35 35 (some "suspended") 3 c).0 ∷ []
    ≡ some "active" ∷ some "active" ∷ some "suspended" ∷ []
unfolding status new_status_cache find served assign delete
served_stale = refl

suspended :
    (require_org_active
      (λ org c. status 40 40 (some "suspended") org c)
      (some operator)
      visit
      (new_status_cache 30, 0)).0
    ≡ fail 403 "org_suspended"
unfolding require_org_active status new_status_cache find served
suspended = refl

guarded-IsAdmitted_example :
    (IsAdmitted "admin" "orders.write" (some operator)
      × (guarded "admin" "orders.write" (some operator) visit 1 ≡ visit 1))
    ⊎ ((code : ℕ) × (why : String) × (guarded "admin" "orders.write" (some operator) visit 1
          ≡ (fail code why, 1))
        × ((code ≡ 401) ⊎ (code ≡ 403)))
guarded-IsAdmitted_example = guarded-IsAdmitted "admin" "orders.write" (some operator) visit 1
