-- ===== src/Money/Decimal.antt =====
-- `Rat.SetString` and `Rat.FloatString(4)`: the decimal spellings of amounts. Read are an optional
-- sign, digits with an optional point, and an optional exponent; base prefixes, underscores and
-- fractions `a/b`, which no amount of the program uses, are refused.
pub mod RoundTrip
pub mod Digits
use mathlib.Core.List.{append_assoc}
use teggo.Prelude.{
  ℕ, zero, suc, ◌+◌, ◌-◌, ◌*◌, ◌/◌, ◌%◌, ◌^◌, ◌≤◌, ◌<◌, ◌≡◌, refl, ◌∙◌, ap, Bool, true, false, ◌&&◌,
  ◌||◌, Option, none, some, List, [], ◌∷◌, ◌++◌, arith, ltb, leb, ◌==◌, if◌then◌else◌, ◌>>=◌,
  Bool-cases, inl, inr,
}
use teggo.Prelude.Text.{Text}
use teggo.Money.Rat.{Rat, over, zero_rat, is_negative, round4, units, of_units}

is_digit : ℕ → Bool
is_digit c = leb b'0' c && leb c b'9'

-- Reads digits: the value so far, how many digits, and what is left.
scan : ℕ → ℕ → Text → ℕ × ℕ × Text
unfolding is_digit
scan acc n [] = (acc, n, [])
scan acc n (c ∷ s) =
    let more = scan (acc * 10 + (c - 48)) (n + 1) s in if is_digit c then more else (acc, n, c ∷ s)

-- `scanSign`
sign : Text → Bool × Text
sign [] = (false, [])
sign (c ∷ s) = if c == b'-' then (true, s) else if c == b'+' then (false, s) else (false, c ∷ s)

signed : Bool → ℕ → ℕ → Rat
signed neg v d = if neg then over 0 v d else over v 0 d

abbrev max_exponent : ℕ
max_exponent = 1_000_000

-- v * 10^up / 10^down with the sign; an exponent beyond a million is refused unless v is zero.
scaled : Bool → ℕ → ℕ → ℕ → Option Rat
unfolding signed
scaled neg v up down =
    if leb down up
    then (if leb (up - down) max_exponent
        then some (signed neg (v * 10 ^ (up - down)) 1)
        else if v == 0
        then some zero_rat
        else none)
    else (if leb (down - up) max_exponent
        then some (signed neg v (10 ^ (down - up)))
        else if v == 0
        then some zero_rat
        else none)

-- After the mantissa: nothing, or an exponent of at least one digit.
exponent : Bool → ℕ → ℕ → Text → Option Rat
unfolding scaled sign scan
exponent neg v k [] = scaled neg v 0 k
exponent neg v k (c ∷ s) =
    if c == b'e' || c == b'E'
    then (let (minus, s') = sign s in
        let (e, n, rest) = scan 0 0 s' in
        elim rest [
          | [] ↦ if n == 0 then none else if minus then scaled neg v 0 (k + e) else scaled neg v e k
          | _ ↦ none
        ])
    else none

-- After the integer digits, of which there were n.
fraction : Bool → ℕ → ℕ → Text → Option Rat
unfolding exponent scan
fraction neg v n [] = if n == 0 then none else exponent neg v 0 []
fraction neg v n (c ∷ s) =
    if c == b'.'
    then (let (v', k, rest) = scan v 0 s in if n + k == 0 then none else exponent neg v' k rest)
    else if n == 0
    then none
    else exponent neg v 0 (c ∷ s)

-- `new(big.Rat).SetString(s)`
unfoldable pub parse : Text → Option Rat
unfolding fraction sign scan
parse s = let (neg, s') = sign s in let (v, n, rest) = scan 0 0 s' in fraction neg v n rest

-- The decimal digits of n, for fuel above n.
show_digits : ℕ → ℕ → Text
show_digits zero n = []
show_digits (suc f) n =
    let front = show_digits f (n / 10) in
    if ltb n 10 then (n + 48) ∷ [] else front ++ ((n % 10 + 48) ∷ [])

-- `utoa(10)`
unfoldable pub show_ℕ : ℕ → Text
unfolding show_digits
show_ℕ n = show_digits (suc n) n

-- The four digits behind the point.
four_digits : ℕ → Text
four_digits u = (u / 1000 % 10 + 48) ∷ (u / 100 % 10 + 48) ∷ (u / 10 % 10 + 48) ∷ (u % 10 + 48) ∷ []

-- A sign and u ten-thousandths.
print : Bool → ℕ → Text
unfolding show_ℕ four_digits
print neg u =
    let body = show_ℕ (u / 10_000) ++ (b'.' ∷ four_digits u) in if neg then b'-' ∷ body else body

-- `r.FloatString(4)`
unfoldable pub format : Rat → Text
unfolding print
format r = print (is_negative r) (round4 r)
