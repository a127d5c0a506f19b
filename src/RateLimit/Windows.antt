-- ===== src/RateLimit/Windows.antt =====
-- How many requests of one client the limiter of internal/server/middleware/ratelimit.go lets pass.
use teggo.Prelude.{
  ◌≡◌, refl, sym, ◌∙◌, ap, ℕ, ◌+◌, ◌-◌, ◌≤◌, ◌<◌, Bool, true, false, ◌&&◌, Option, none, some, List,
  [], ◌∷◌, ltb, leb, if◌then◌else◌, ◌⊎◌, inl, inr, Bool-cases, Option-cases, arith,
}
use mathlib.Core.Path.{subst}
use teggo.Prelude.Text.{Text, text_eq, text_eq_iff}
use teggo.RateLimit.{Window, RateLimiter, rate_limit, set_window, allow, renewed, swept, sweep}

pub data Call : Type 0 where
  request : Text → ℕ → ℕ → Call
  tick : ℕ → Call

-- The clock never runs back.
unfoldable pub IsTimely : ℕ → List Call → Type 0
IsTimely now [] = Unit
IsTimely now (request key t later ∷ calls) = (now ≤ t) × IsTimely t calls
IsTimely now (tick t ∷ calls) = (now ≤ t) × IsTimely t calls

abbrev is_none : Option Text → Bool
is_none none = true
is_none (some t) = false

-- How many requests of the client pass from the time a to the time b.
unfoldable pub passed : Text → ℕ → ℕ → RateLimiter → List Call → ℕ
passed key a b rl [] = 0
passed key a b rl (request k t later ∷ calls) =
    let (refusal, rl') = allow t later k rl in
    (if text_eq k key && (leb a t && (leb t b && is_none refusal)) then 1 else 0)
    + passed key a b rl' calls
passed key a b rl (tick t ∷ calls) = passed key a b (sweep t rl) calls

abbrev greater : ℕ → ℕ → ℕ
greater a b = if ltb a b then b else a

-- Nothing is counted after b.
passed_after :
    (key : Text) (a b now : ℕ) (rl : RateLimiter) (calls : List Call)
    → b < now
    → IsTimely now calls
    → passed key a b rl calls ≡ 0
unfolding passed IsTimely
passed_after key a b now rl [] h _ = refl
passed_after key a b now rl (request k t later ∷ calls) h (e, es) =
    let rest = passed_after key a b t (allow t later k rl).1 calls (omega arith) es in
    ground (arith, rest)
passed_after key a b now rl (tick t ∷ calls) h (e, es) =
    passed_after key a b t (sweep t rl) calls (omega arith) es

module _ (key : Text) (a b : ℕ) where
  abbrev credit : Option Text → ℕ
  credit none = 1
  credit (some t) = 0

  -- A call of another client leaves the window.
  allow_other :
      (t later : ℕ) (k : Text) (rl : RateLimiter)
      → text_eq k key ≡ false
      → (allow t later k rl).1.hits key ≡ rl.hits key
  unfolding allow set_window
  allow_other t later k rl h = elim (Option-cases (rl.hits k)) [
    | inl new ↦ rw (allow, new) (rw h refl)
    | inr (w, old) ↦ rw (allow, old) (ground arith)
  ]

  allow-limit :
      (t later : ℕ) (k : Text) (rl : RateLimiter)
      → ((allow t later k rl).1.limit ≡ rl.limit) × ((allow t later k rl).1.window ≡ rl.window)
  unfolding allow set_window
  allow-limit t later k rl = elim (Option-cases (rl.hits k)) [
    | inl new ↦ rw (allow, new) (refl, refl)
    | inr (w, old) ↦ rw (allow, old) (ground arith)
  ]

  passed_own :
      (t later : ℕ) (rl : RateLimiter) (calls : List Call)
      → let r = allow t later key rl in
        passed key a b rl (request key t later ∷ calls) ≤ credit r.0 + passed key a b r.1 calls
  unfolding passed
  passed_own t later rl calls = ground arith

  passed_other :
      (t later : ℕ) (k : Text) (rl : RateLimiter) (calls : List Call)
      → text_eq k key ≡ false
      → passed key a b rl (request k t later ∷ calls) ≡ passed key a b (allow t later k rl).1 calls
  unfolding passed
  passed_other t later k rl calls h = ground arith

  allow_live :
      (t later : ℕ) (rl : RateLimiter) (w : Window)
      → rl.hits key ≡ some w
      → ltb w.reset t ≡ false
      → let r = allow t later key rl in
        ((credit r.0 ≡ 0) × (r.1 ≡ rl))
        ⊎ ((w.count < rl.limit)
            × (credit r.0 ≡ 1)
            × (r.1 ≡ set_window key (record w { count = w.count + 1 }) rl))
  unfolding allow
  allow_live t later rl w found live = rw (allow, found, live) (ground arith)

  allow_new :
      (t later : ℕ) (rl : RateLimiter)
      → ((w : Window) → rl.hits key ≡ some w → ltb w.reset t ≡ true)
      → allow t later key rl ≡ renewed key t rl
  unfolding allow
  allow_new t later rl h = elim (Option-cases (rl.hits key)) [
    | inl new ↦ rw (allow, new) refl
    | inr (w, old) ↦ rw (allow, old, h w old) refl
  ]

  set_window_own : (w : Window) (rl : RateLimiter) → (set_window key w rl).hits key ≡ some w
  unfolding set_window
  set_window_own w rl = rw ((text_eq_iff key key).1 refl) refl

  sweep_live :
      (t : ℕ) (rl : RateLimiter) (w : Window)
      → rl.hits key ≡ some w
      → ltb w.reset t ≡ false
      → (sweep t rl).hits key ≡ some w
  unfolding sweep
  sweep_live t rl w found live = rw (found, live) refl

  -- A call with this outcome, and what the calls after it let pass.
  spent :
      (t later : ℕ) (rl : RateLimiter) (calls : List Call) (c n : ℕ) (rl' : RateLimiter)
      → (allow t later key rl).1 ≡ rl'
      → credit (allow t later key rl).0 ≡ c
      → passed key a b rl' calls ≤ n
      → {m : ℕ} → c + n ≤ m
      → passed key a b rl (request key t later ∷ calls) ≤ m
  spent t later rl calls c n rl' same e rest fit =
      let p = passed_own t later rl calls in
      let q = subst (λ x. passed key a b x calls ≤ n) (sym same) rest in omega arith

  -- As long as a window lasts, the requests that pass are those that its count leaves.
  within :
      (now : ℕ) (rl : RateLimiter) (w : Window) (calls : List Call)
      → rl.hits key ≡ some w
      → b ≤ w.reset
      → IsTimely now calls
      → passed key a b rl calls ≤ rl.limit - w.count
  unfolding passed IsTimely sweep set_window
  within now rl w [] found last _ = omega arith
  within now rl w (tick t ∷ calls) found last (e, es) = elim (Bool-cases (ltb w.reset t)) [
    | inl late ↦ let z = passed_after key a b t (sweep t rl) calls (ground arith) es in omega arith
    | inr live ↦ within t (sweep t rl) w calls (sweep_live t rl w found live) last es
  ]
  within now rl w (request k t later ∷ calls) found last (e, es) =
      let r = allow t later k rl in
      elim (Bool-cases (ltb w.reset t)) [
        | inl late ↦ let z = passed_after key a b t r.1 calls (ground arith) es in ground arith
        | inr live ↦ elim (Bool-cases (text_eq k key)) [
          | inl own ↦
              subst (λ x. passed key a b rl (request x t later ∷ calls) ≤ rl.limit - w.count)
                (sym ((text_eq_iff k key).0 own))
                (elim (allow_live t later rl w found live) [
                  | inl (c, same) ↦
                      spent t later rl calls 0 (rl.limit - w.count) rl same c
                        (within t rl w calls found last es) (omega arith)
                  | inr (room, c, same) ↦
                      let w' : Window = record w { count = w.count + 1 } in
                      spent t later rl calls 1 (rl.limit - w'.count) (set_window key w' rl) same c
                        (within t (set_window key w' rl) w' calls (set_window_own w' rl) last es)
                        (omega arith)
                ])
          | inr other ↦
              let rest = within t r.1 w calls (allow_other t later k rl other ∙ found) last es in
              let (l, _) = allow-limit t later k rl in
              let p = passed_other t later k rl calls other in omega arith
        ]
      ]

  abbrev greatest : ℕ → ℕ
  greatest limit = if leb limit 1 then 1 else limit

  -- What the window at hand still lets pass.
  abbrev left : ℕ → ℕ → Option Window → ℕ
  left now limit none = 0
  left now limit (some w) = if ltb w.reset now then 0 else limit - w.count

  left_later : (now t limit : ℕ) (o : Option Window) → now ≤ t → left t limit o ≤ left now limit o
  left_later now t limit none h = omega arith
  left_later now t limit (some w) h = ground arith

  left-swept :
      (now t limit : ℕ) (o : Option Window) → now ≤ t → left t limit (swept t o) ≤ left now limit o
  left-swept now t limit none h = omega arith
  left-swept now t limit (some w) h = ground arith

  -- A request that opens a window.
  opened :
      (t later : ℕ) (rl : RateLimiter) (calls : List Call)
      → ((w : Window) → rl.hits key ≡ some w → ltb w.reset t ≡ true)
      → b ≤ t + rl.window
      → IsTimely t calls
      → passed key a b rl (request key t later ∷ calls) ≤ greatest rl.limit
  unfolding set_window
  opened t later rl calls h last es =
      let w : Window = record { count = 1; reset = t + rl.window } in
      let e = allow_new t later rl h in
      spent t later rl calls 1 (rl.limit - 1) (set_window key w rl) (ap (λ r. r.1) e)
        (ap (λ r. credit r.0) e)
        (within t (set_window key w rl) w calls (set_window_own w rl) last es) (ground arith)

  -- From any state: what the window at hand leaves, and one window more.
  bounded :
      (now : ℕ) (rl : RateLimiter) (calls : List Call)
      → b ≤ now + rl.window
      → IsTimely now calls
      → passed key a b rl calls ≤ left now rl.limit (rl.hits key) + greatest rl.limit
  unfolding passed IsTimely sweep set_window
  bounded now rl [] last _ = omega arith
  bounded now rl (tick t ∷ calls) last (e, es) =
      let rest = bounded t (sweep t rl) calls (omega arith) es in
      let p = left-swept now t rl.limit (rl.hits key) e in omega arith
  bounded now rl (request k t later ∷ calls) last (e, es) =
      let p = left_later now t rl.limit (rl.hits key) e in
      elim (Bool-cases (text_eq k key)) [
        | inr other ↦
            let r = allow t later k rl in
            let (l, d) = allow-limit t later k rl in
            let rest = bounded t r.1 calls (omega arith) es in
            let q : left t r.1.limit (r.1.hits key) ≡ left t rl.limit (rl.hits key) =
              ap (λ x. left t x (r.1.hits key)) l
              ∙ ap (left t rl.limit) (allow_other t later k rl other) in
            let c : greatest r.1.limit ≡ greatest rl.limit = ap greatest l in
            let z = passed_other t later k rl calls other in omega arith
        | inl own ↦
            subst
              (λ x.
                passed key a b rl (request x t later ∷ calls)
                ≤ left now rl.limit (rl.hits key) + greatest rl.limit)
              (sym ((text_eq_iff k key).0 own))
              (elim (Option-cases (rl.hits key)) [
                | inl none_yet ↦
                    let z = opened t later rl calls (λ w f. cc) (omega arith) es in omega arith
                | inr (w, found) ↦ elim (Bool-cases (ltb w.reset t)) [
                  | inl late ↦
                      let z = opened t later rl calls (λ w' f. ground arith) (omega arith) es in
                      omega arith
                  | inr live ↦ elim (allow_live t later rl w found live) [
                    | inl (c, same) ↦
                        spent t later rl calls 0 _ rl same c (bounded t rl calls (omega arith) es)
                          (omega arith)
                    | inr (room, c, same) ↦
                        let w' : Window = record w { count = w.count + 1 } in
                        let now_left : left t rl.limit (rl.hits key) ≡ rl.limit - w.count =
                          ap (left t rl.limit) found ∙ ground arith in
                        let then_left : left t rl.limit ((set_window key w' rl).hits key)
                            ≡ rl.limit - w'.count =
                          ap (left t rl.limit) (set_window_own w' rl) ∙ ground arith in
                        spent t later rl calls 1 _ (set_window key w' rl) same c
                          (bounded t (set_window key w' rl) calls (omega arith) es) (omega arith)
                  ]
                ]
              ])
      ]

left-le : (key : Text) (a b now limit : ℕ) (o : Option Window) → left key a b now limit o ≤ limit
left-le key a b now limit none = omega arith
left-le key a b now limit (some w) = ground arith

-- From the first call at or after a.
from_start :
    (key : Text) (a now : ℕ) (rl : RateLimiter) (calls : List Call)
    → IsTimely now calls
    → passed key a (a + rl.window) rl calls ≤ rl.limit + greatest key a a rl.limit
unfolding passed IsTimely sweep
from_start key a now rl [] _ = omega arith
from_start key a now rl (tick t ∷ calls) (e, es) = from_start key a t (sweep t rl) calls es
from_start key a now rl (request k t later ∷ calls) (e, es) =
    let r = allow t later k rl in
    let b = a + rl.window in
    elim (Bool-cases (leb a t)) [
      | inl counted ↦
          let p =
            bounded key a b a rl (request k t later ∷ calls) (omega arith) (ground arith, es) in
          let q = left-le key a b a rl.limit (rl.hits key) in
          let z : greatest key a b rl.limit ≡ greatest key a a rl.limit = refl in omega arith
      | inr early ↦
          let (l, d) = allow-limit key a b t later k rl in
          let p : passed key a (a + r.1.window) r.1 calls ≤ r.1.limit + greatest key a a r.1.limit =
            from_start key a t r.1 calls es in
          let q : passed key a (a + r.1.window) r.1 calls ≡ passed key a b r.1 calls =
            ap (λ w. passed key a (a + w) r.1 calls) d in
          let z : greatest key a a r.1.limit ≡ greatest key a a rl.limit =
            ap (greatest key a a) l in
          ground arith
    ]

-- Whatever requests of whatever clients come, with sweeps between them, on a clock that does not run
-- back: within any span of the limiter's duration, the requests of one client that pass are at most
-- the limit and, for the window opened in the span, the limit again, or one where it is zero.
pub rate_limit-bounds :
    (key : Text) (limit per a : ℕ) (calls : List Call)
    → IsTimely 0 calls
    → passed key a (a + per) (rate_limit limit per) calls
      ≤ limit + (if leb limit 1 then 1 else limit)
unfolding rate_limit
rate_limit-bounds key limit per a calls h = from_start key a 0 (rate_limit limit per) calls h
