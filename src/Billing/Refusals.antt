-- ===== src/Billing/Refusals.antt =====
-- The requests that internal/billing/gate.go refuses or that fail.
use teggo.Prelude.{
  ◌≡◌, refl, ℕ, ◌≤◌, not, ◌&&◌, Option, List, String, str_eq, inl, inr, Bool-cases, Option-cases,
  arith,
}
use teggo.Prelude.Int.{ℤ}
use teggo.Billing.{Json, Entitlements, allows, entitlements_for}
use teggo.Billing.Gate.{
  Rule, rule_for, Request, Response, passed, refused, Setting, World, status_of, serve_metered,
  meter, enforce, gate,
}

module _ {D : Type 0} (json : Json) (month : ℕ → String) (next : D → List ℕ × D) where
  -- The handler ran, with this answer, or did not run; and whether it succeeded.
  unfoldable pub IsFair : World D → Response × World D → Type 0
  IsFair w (refused why, w') = (w'.counters ≡ w.counters) × (w'.domain ≡ w.domain)
  IsFair w (passed written, w') =
      (written ≡ (next w.domain).0)
      × (w'.domain ≡ (next w.domain).1)
      × (300 ≤ status_of 200 written → w'.counters ≡ w.counters)

  meter-IsFair :
      (at : Setting) (org : ℕ) (ent : Option Entitlements) (ru : Rule) (n : ℤ) (w : World D)
      → IsFair w (meter json month next at org ent ru n w)
  unfolding meter serve_metered IsFair
  meter-IsFair at org ent ru n w = ground arith

  same_world :
      (w v : World D) (r : Response × World D)
      → v.counters ≡ w.counters
      → v.domain ≡ w.domain
      → IsFair v r
      → IsFair w r
  unfolding IsFair
  same_world w v (passed written, w') a b h = grind arith
  same_world w v (refused why, w') a b h = grind arith

  enforce-IsFair :
      (at : Setting) (org : ℕ) (ru : Rule) (n : ℤ) (w : World D)
      → IsFair w (enforce json month next at org ru n w)
  unfolding enforce IsFair
  enforce-IsFair at org ru n w =
      let (ent, s) = entitlements_for json at.moment at.row org w.service in
      let w' : World D = record w { service = s } in
      elim (Bool-cases (not (str_eq ru.feature "") && not (allows ent ru.feature))) [
        | inl missing ↦ rw (enforce, missing) (refl, refl)
        | inr granted ↦
            rw (enforce, granted) (same_world w w' _ refl refl (meter-IsFair at org ent ru n w'))
      ]

  -- A request that the gate refuses does not reach the handler and counts nothing; one that it lets
  -- pass runs the handler once, and counts nothing where the last status written is 300 or more.
  pub gate-IsFair :
      (at : Setting) (r : Request) (w : World D) → IsFair w (gate json month next at r w)
  unfolding gate IsFair
  gate-IsFair at r w = elim (Option-cases r.org) [
    | inl anonymous ↦ rw (gate, anonymous) (ground arith)
    | inr (org, known) ↦ elim (Option-cases (rule_for r.method r.path)) [
      | inl free ↦ rw (gate, known, free) (ground arith)
      | inr (ru, ruled) ↦ rw (gate, known, ruled) (enforce-IsFair at org ru r.content_length w)
    ]
  ]
