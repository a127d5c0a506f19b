-- ===== src/Billing/Recent.antt =====
-- The cache of internal/billing/billing.go against the database that it stands for, over a history of
-- calls that come one after the other. `db t org` is the plan row of the org at the time t.
use teggo.Prelude.{
  ◌≡◌, refl, sym, ◌∙◌, ℕ, ◌+◌, ◌≤◌, Option, some, List, [], ◌∷◌, ◌==◌, if◌then◌else◌, All, inl, inr,
  Option-cases, arith,
}
use mathlib.Core.Path.{subst}
use teggo.Prelude.Keyed.{Held, find, assign-cases, delete-cases, served, served-some}
use teggo.Billing.{
  Entitlements, Json, Moment, PlanRow, Service, new_service, resolved, hold, entitlements_for,
  invalidate, invalidate_all,
}

pub data Call : Type 0 where
  ask : Moment → ℕ → Call
  drop : ℕ → ℕ → Call
  drop_all : ℕ → Call

-- An answer, with the time of the last call that dropped the entry of the org.
pub record Answer : Type 0 where
  pub org : ℕ
  pub at : Moment
  pub dropped : ℕ
  pub ent : Option Entitlements

-- The clock never runs back, and a query reads its row at most `latency` before it is stored.
unfoldable pub IsTimely : ℕ → ℕ → List Call → Type 0
IsTimely latency now [] = Unit
IsTimely latency now (ask m org ∷ calls) =
    (now ≤ m.checked)
    × (m.checked ≤ m.asked)
    × (m.asked ≤ m.stored)
    × (m.stored ≤ m.asked + latency)
    × IsTimely latency m.stored calls
IsTimely latency now (drop org t ∷ calls) = (now ≤ t) × IsTimely latency t calls
IsTimely latency now (drop_all t ∷ calls) = (now ≤ t) × IsTimely latency t calls

abbrev dropped_at : (ℕ → ℕ) → ℕ → ℕ → ℕ → ℕ
dropped_at drops org t o = if o == org then t else drops o

abbrev asked_of : (ℕ → ℕ) → Moment → ℕ → Option Entitlements → Answer
asked_of drops m org ent = record { org = org; at = m; dropped = drops org; ent = ent }

module _ (json : Json) (db : ℕ → ℕ → Option PlanRow) where
  unfoldable pub run : (ℕ → ℕ) → Service → List Call → List Answer
  run drops s [] = []
  run drops s (ask m org ∷ calls) =
      let (ent, s') = entitlements_for json m (db m.asked org) org s in
      asked_of drops m org ent ∷ run drops s' calls
  run drops s (drop org t ∷ calls) = run (dropped_at drops org t) (invalidate org s) calls
  run drops s (drop_all t ∷ calls) = run (λ _. t) (invalidate_all s) calls

  -- What the database said of the org at a time since it was last dropped, and not too long ago.
  pub record IsRecent (age : ℕ) (a : Answer) : Type 0 where
    pub time : ℕ
    pub said : a.ent ≡ resolved json (db time a.org)
    pub since : a.dropped ≤ time
    pub past : time ≤ a.at.asked
    pub recent : a.at.checked ≤ time + age

  module _ (latency ttl : ℕ) where
    record IsBacked (drops : ℕ → ℕ) (now : ℕ) (org : ℕ) (e : Held (Option Entitlements))
        : Type 0 where
      time : ℕ
      said : e.value ≡ resolved json (db time org)
      since : drops org ≤ time
      past : time ≤ now
      bounded : e.until ≤ time + (latency + ttl)

    record Inv (drops : ℕ → ℕ) (now : ℕ) (s : Service) : Type 0 where
      lifetime : s.ttl ≡ ttl
      dropped_before : (o : ℕ) → drops o ≤ now
      backed :
          (o : ℕ) (e : Held (Option Entitlements))
          → find o s.entries ≡ some e
          → IsBacked drops now o e

    aged :
        (drops : ℕ → ℕ) (now after o : ℕ) (e : Held (Option Entitlements))
        → now ≤ after
        → IsBacked drops now o e
        → IsBacked drops after o e
    aged drops now after o e h b =
        let p = b.past in
        record {
          time = b.time;
          said = b.said;
          since = b.since;
          past = omega arith;
          bounded = b.bounded;
        }

    held_now :
        (drops : ℕ → ℕ) (m : Moment) (org : ℕ) (s : Service)
        → s.ttl ≡ ttl
        → drops org ≤ m.asked
        → m.asked ≤ m.stored
        → m.stored ≤ m.asked + latency
        → IsBacked drops m.stored org
            (record { value = resolved json (db m.asked org); until = m.stored + s.ttl })
    held_now drops m org s l a b c = record {
      time = m.asked;
      said = refl;
      since = a;
      past = b;
      bounded = omega arith;
    }

    hold-Inv :
        (drops : ℕ → ℕ) (now : ℕ) (s : Service) (m : Moment) (org : ℕ)
        → now ≤ m.asked
        → m.asked ≤ m.stored
        → m.stored ≤ m.asked + latency
        → Inv drops now s
        → Inv drops m.stored (hold m.stored org (resolved json (db m.asked org)) s)
    unfolding hold
    hold-Inv drops now s m org a b c inv =
        let early = inv.dropped_before in
        record {
          lifetime = inv.lifetime;
          dropped_before = λ o. let d = early o in omega arith;
          backed = λ o e f. elim (assign-cases o org _ e s.entries f) [
            | inl (key, value) ↦
                let d = early org in
                subst (λ k. IsBacked drops m.stored k e) key
                  (subst (IsBacked drops m.stored org) value
                    (held_now drops m org s inv.lifetime (omega arith) b c))
            | inr old ↦ aged drops now m.stored o e (omega arith) (inv.backed o e old)
          ];
        }

    later :
        (drops : ℕ → ℕ) (now after : ℕ) (s : Service)
        → now ≤ after
        → Inv drops now s
        → Inv drops after s
    later drops now after s h inv =
        let early = inv.dropped_before in
        record {
          lifetime = inv.lifetime;
          dropped_before = λ o. let b = early o in omega arith;
          backed = λ o e f. aged drops now after o e h (inv.backed o e f);
        }

    -- One answer, and the invariant after it.
    answered :
        (drops : ℕ → ℕ) (now : ℕ) (s : Service) (m : Moment) (org : ℕ)
        → now ≤ m.checked
        → m.checked ≤ m.asked
        → m.asked ≤ m.stored
        → m.stored ≤ m.asked + latency
        → Inv drops now s
        → let r = entitlements_for json m (db m.asked org) org s in
          IsRecent (latency + ttl) (asked_of drops m org r.0) × Inv drops m.stored r.1
    unfolding entitlements_for
    answered drops now s m org a b c d inv = elim (Option-cases (served m.checked org s.entries)) [
      | inl missed ↦
          let early = inv.dropped_before org in
          let answer = asked_of drops m org (resolved json (db m.asked org)) in
          let recent : IsRecent (latency + ttl) answer = record {
            time = m.asked;
            said = refl;
            since = omega arith;
            past = omega arith;
            recent = omega arith;
          } in
          rw (missed, entitlements_for) (recent, hold-Inv drops now s m org (omega arith) c d inv)
      | inr (ent, hit) ↦
          let (e, found, value, in_time) = served-some m.checked org s.entries ent hit in
          let k = inv.backed org e found in
          let p = k.past in
          let q = k.bounded in
          let recent : IsRecent (latency + ttl) (asked_of drops m org ent) = record {
            time = k.time;
            said = sym value ∙ k.said;
            since = k.since;
            past = omega arith;
            recent = ground arith;
          } in
          rw (hit, entitlements_for) (recent, later drops now m.stored s (omega arith) inv)
    ]

    drop-Inv :
        (drops : ℕ → ℕ) (now t org : ℕ) (s : Service)
        → now ≤ t
        → Inv drops now s
        → Inv (dropped_at drops org t) t (invalidate org s)
    unfolding invalidate
    drop-Inv drops now t org s h inv =
        let early = inv.dropped_before in
        record {
          lifetime = inv.lifetime;
          dropped_before = λ o. let b = early o in ground arith;
          backed = λ o e f.
              let (other, found) = delete-cases o org e s.entries f in
              let k = aged drops now t o e h (inv.backed o e found) in
              let since = k.since in
              record {
                time = k.time;
                said = k.said;
                since = ground arith;
                past = k.past;
                bounded = k.bounded;
              };
        }

    drop_all-Inv :
        (drops : ℕ → ℕ) (now t : ℕ) (s : Service)
        → Inv drops now s
        → Inv (λ _. t) t (invalidate_all s)
    unfolding invalidate_all find
    drop_all-Inv drops now t s inv = record {
      lifetime = inv.lifetime;
      dropped_before = λ o. omega arith;
      backed = λ o e f. absurd (ground arith);
    }

    run-Inv :
        (drops : ℕ → ℕ) (now : ℕ) (s : Service) (calls : List Call)
        → IsTimely latency now calls
        → Inv drops now s
        → All (IsRecent (latency + ttl)) (run drops s calls)
    unfolding run IsTimely
    run-Inv drops now s [] _ inv = tt
    run-Inv drops now s (ask m org ∷ calls) (a, b, c, d, rest) inv =
        let (recent, next) = answered drops now s m org a b c d inv in
        (recent, run-Inv drops m.stored _ calls rest next)
    run-Inv drops now s (drop org t ∷ calls) (a, rest) inv =
        run-Inv (dropped_at drops org t) t (invalidate org s) calls rest
          (drop-Inv drops now t org s a inv)
    run-Inv drops now s (drop_all t ∷ calls) (a, rest) inv =
        run-Inv (λ _. t) t (invalidate_all s) calls rest (drop_all-Inv drops now t s inv)

    -- Whatever is asked and invalidated, one call after the other on a clock that does not run back,
    -- with queries that take at most `latency`: every answer of a new service is what the database
    -- said of the org at some time that is past, not before the org's entry was last invalidated,
    -- and at most the lifetime of an entry and the latency before the question.
    pub run-IsRecent :
        (calls : List Call)
        → IsTimely latency 0 calls
        → All (IsRecent (latency + ttl)) (run (λ _. 0) (new_service ttl) calls)
    unfolding new_service find
    run-IsRecent calls h =
        run-Inv (λ _. 0) 0 (new_service ttl) calls h
          (record {
            lifetime = refl;
            dropped_before = λ o. omega arith;
            backed = λ o e f. absurd (ground arith);
          })
