-- ===== src/RateLimit.antt =====
-- internal/server/middleware/ratelimit.go: the limiter of requests by client. The map `hits` is a
-- function of the key; a time is a number of nanoseconds, read from the clock.
pub mod Windows
pub mod Tests
use teggo.Prelude.{
  ℕ, zero, suc, ◌+◌, ◌-◌, ◌/◌, ◌%◌, Bool, true, false, Option, none, some, List, [], ◌∷◌, ◌==◌, ltb,
  leb, if◌then◌else◌,
}
use teggo.Prelude.Text.{Text, codes, text_eq}

-- `window`
pub record Window : Type 0 where
  pub count : ℕ
  pub reset : ℕ

-- `rateLimiter`
pub record RateLimiter : Type 0 where
  pub hits : Text → Option Window
  pub limit : ℕ
  pub window : ℕ

-- `RateLimit`, before any request.
unfoldable pub rate_limit : ℕ → ℕ → RateLimiter
rate_limit limit per = record { hits = λ _. none; limit = limit; window = per }

-- The digits of n before `acc`, with n itself as the fuel.
unfoldable pub digits : ℕ → ℕ → Text → Text
digits zero n acc = acc
digits (suc fuel) n acc =
    let rest = digits fuel (n / 10) ((48 + n % 10) ∷ acc) in if n == 0 then acc else rest

unfoldable pub itoa : ℕ → Text
itoa n = if n == 0 then codes "1" else digits n n []

-- `int(time.Until(reset).Seconds()) + 1`; where the time is past, the code prints a number below 2
-- as "1", as the truncated subtraction does.
unfoldable pub retry_after : ℕ → ℕ → Text
retry_after now reset = itoa ((reset - now) / 1_000_000_000 + 1)

unfoldable pub set_window : Text → Window → RateLimiter → RateLimiter
set_window key w rl = record rl { hits = λ k. if text_eq key k then some w else rl.hits k }

-- A new window, from the first request or from one after the reset.
abbrev pub renewed : Text → ℕ → RateLimiter → Option Text × RateLimiter
renewed key now rl = (none, set_window key (record { count = 1; reset = now + rl.window }) rl)

-- `allow`, at the time `now`: `none` where the request may pass, and else the seconds after which to
-- try again. `later` is the clock when they are computed.
unfoldable pub allow : ℕ → ℕ → Text → RateLimiter → Option Text × RateLimiter
allow now later key rl = elim (rl.hits key) [
  | none ↦ renewed key now rl
  | some w ↦
      if ltb w.reset now
      then renewed key now rl
      else if leb rl.limit w.count
      then (some (retry_after later w.reset), rl)
      else (none, set_window key (record w { count = w.count + 1 }) rl)
]

abbrev pub swept : ℕ → Option Window → Option Window
swept now none = none
swept now (some w) = if ltb w.reset now then none else some w

-- One tick of `sweep`.
unfoldable pub sweep : ℕ → RateLimiter → RateLimiter
sweep now rl = record rl { hits = λ k. swept now (rl.hits k) }
