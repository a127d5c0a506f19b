-- ===== src/Tenant/Access.antt =====
-- Which requests reach a handler behind the checks of internal/server/middleware.
use teggo.Prelude.{
  ◌≡◌, refl, sym, ℕ, true, Option, none, some, List, [], ◌∷◌, Memᴰ, String, str_eq, str_eq_iff, ◌⊎◌,
  inl, inr, Bool-cases, arith,
}
use teggo.Tenant.{Claims, fail, Handler, require_audience, require_permission, granted}

granted-Memᴰ : (ps : List String) (perm : String) → granted ps perm ≡ true → Memᴰ perm ps
granted-Memᴰ [] perm h = cc
granted-Memᴰ (p ∷ ps) perm h = elim (Bool-cases (str_eq p perm)) [
  | inl here ↦ Memᴰ.head (sym ((str_eq_iff p perm).0 here))
  | inr there ↦ Memᴰ.tail (granted-Memᴰ ps perm (ground arith))
]

-- Whom the two checks let pass.
pub record IsAdmitted (aud perm : String) (claims : Option Claims) : Type 0 where
  pub principal : Claims
  pub known : claims ≡ some principal
  pub audience : principal.audience ≡ aud
  pub permission : Memᴰ perm principal.permissions

module _ {D A : Type 0} where
  -- The routes of an area: its audience, then a permission.
  abbrev pub guarded : String → String → Option Claims → Handler D A → Handler D A
  guarded aud perm claims next = require_audience aud claims (require_permission perm claims next)

  -- Behind the check of an audience and that of a permission, a request either reaches the handler
  -- with claims for that audience that list the permission, or fails with 401 or 403 and changes
  -- nothing.
  pub guarded-IsAdmitted :
      (aud perm : String) (claims : Option Claims) (next : Handler D A) (d : D)
      → (IsAdmitted aud perm claims × (guarded aud perm claims next d ≡ next d))
        ⊎ ((code : ℕ) × (why : String) × (guarded aud perm claims next d ≡ (fail code why, d))
            × ((code ≡ 401) ⊎ (code ≡ 403)))
  unfolding require_audience require_permission
  guarded-IsAdmitted aud perm none next d = inr (401, "unauthorized", refl, inl refl)
  guarded-IsAdmitted aud perm (some claims) next d =
      elim (Bool-cases (str_eq claims.audience aud)) [
        | inr wrong ↦ inr (403, "forbidden", rw wrong refl, inr refl)
        | inl right ↦ elim (Bool-cases (granted claims.permissions perm)) [
          | inl has ↦ inl (
            record {
              principal = claims;
              known = refl;
              audience = (str_eq_iff claims.audience aud).0 right;
              permission = granted-Memᴰ claims.permissions perm has;
            },
            rw (right, has) refl,
          )
          | inr lacks ↦ inr (403, "forbidden", rw (right, lacks) refl, inr refl)
        ]
      ]
