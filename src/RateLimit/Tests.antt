-- ===== src/RateLimit/Tests.antt =====
-- Two requests a second, and an instance of the theorem.
use teggo.Prelude.{◌≡◌, refl, ℕ, ◌+◌, ◌≤◌, List, [], ◌∷◌, if◌then◌else◌, leb, arith}
use teggo.Prelude.Text.{Text, codes}
use teggo.RateLimit.{rate_limit, allow, sweep, set_window, itoa, retry_after, digits}
use teggo.RateLimit.Windows.{Call, request, tick, IsTimely, passed, rate_limit-bounds}

abbrev client : Text
client = codes "10.0.0.1"

-- Nanoseconds.
abbrev second : ℕ
second = 1_000_000_000

abbrev burst : List Call
burst =
    request client 5 5
    ∷ request client 6 6
    ∷ request client 7 7
    ∷ tick 8
    ∷ request client (6 + second) 1
    ∷ []

three_pass : passed client 5 (5 + second) (rate_limit 2 second) (burst) ≡ 2
unfolding passed rate_limit allow sweep set_window
three_pass = refl

spelled : itoa 4096 ≡ codes "4096"
unfolding itoa digits
spelled = refl

wait : retry_after 5 (5 + second) ≡ codes "2"
unfolding retry_after itoa digits
wait = refl

timely : IsTimely 0 burst
unfolding IsTimely
timely = ground arith

rate_limit-bounds_example :
    passed client 5 (5 + second) (rate_limit 2 second) burst ≤ 2 + (if leb 2 1 then 1 else 2)
rate_limit-bounds_example = rate_limit-bounds client 2 second 5 burst timely
