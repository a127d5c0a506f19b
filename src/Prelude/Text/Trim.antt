-- ===== src/Prelude/Text/Trim.antt =====
-- Texts that `strings.TrimSpace` leaves as they are.
use mathlib.Core.List.{reverse-append, reverse-reverse}
use Prim.Native.Nat.{ℕ, ◌≤◌}
use mathlib.Core.Path.{◌≡◌, refl, ◌∙◌, ap}
use mathlib.Core.Bool.{Bool, true, false, not}
use mathlib.Core.List.{[], ◌∷◌, ◌++◌, reverse}
use native.Mathlib.Omega.{arith}
use teggo.Prelude.Lists.{All}
use teggo.Prelude.Text.{Text, is_space, trim_left, trim_space}

unfoldable pub is_plain : ℕ → Bool
unfolding is_space
is_plain c = not (is_space c)

pub digit-is_plain : (c : ℕ) → 48 ≤ c → c ≤ 57 → is_plain c ≡ true
unfolding is_plain is_space
digit-is_plain c h k = ground arith

unfoldable pub starts_plain : Text → Bool
starts_plain [] = false
starts_plain (c ∷ s) = is_plain c

unfoldable pub ends_plain : Text → Bool
ends_plain [] = true
ends_plain (c ∷ []) = is_plain c
ends_plain (c ∷ d ∷ s) = ends_plain (d ∷ s)

pub starts-append : (s t : Text) → starts_plain s ≡ true → starts_plain (s ++ t) ≡ true
unfolding starts_plain
starts-append [] t h = cc
starts-append (c ∷ s) t h = h

-- The end of a text that goes on is the end of what goes on.
pub ends-append :
    (s : Text) (c : ℕ) (t : Text) → ends_plain (c ∷ t) ≡ true → ends_plain (s ++ (c ∷ t)) ≡ true
unfolding ends_plain
ends-append [] c t h = h
ends-append (d ∷ []) c t h = h
ends-append (d ∷ e ∷ s) c t h = ends-append (e ∷ s) c t h

pub ends-cons :
    (c : ℕ) (t : Text) → is_plain c ≡ true → ends_plain t ≡ true → ends_plain (c ∷ t) ≡ true
unfolding ends_plain
ends-cons c [] p h = p
ends-cons c (d ∷ t) p h = h

starts-reverse :
    (c : ℕ) (s : Text) → ends_plain (c ∷ s) ≡ true → starts_plain (reverse (c ∷ s)) ≡ true
unfolding starts_plain ends_plain
starts-reverse c [] h = h
starts-reverse c (d ∷ s) h =
    ap starts_plain (reverse-append (c ∷ []) (d ∷ s))
    ∙ starts-append (reverse (d ∷ s)) (c ∷ []) (starts-reverse d s h)

trim_left_plain : (s : Text) → starts_plain s ≡ true → trim_left s ≡ s
unfolding starts_plain is_plain trim_left
trim_left_plain [] h = refl
trim_left_plain (c ∷ s) h = ground arith

-- A text without space at its two ends is left by `TrimSpace`.
pub trim_space_plain : (s : Text) → starts_plain s ≡ true → ends_plain s ≡ true → trim_space s ≡ s
unfolding trim_space
trim_space_plain [] h k = refl
trim_space_plain (c ∷ s) h k =
    ap (λ t. reverse (trim_left (reverse t))) (trim_left_plain (c ∷ s) h)
    ∙ ap reverse (trim_left_plain (reverse (c ∷ s)) (starts-reverse c s k))
    ∙ reverse-reverse (c ∷ s)

pub ends_of_plain : (s : Text) → All (λ c. is_plain c ≡ true) s → ends_plain s ≡ true
unfolding ends_plain
ends_of_plain [] h = refl
ends_of_plain (c ∷ []) (p, _) = p
ends_of_plain (c ∷ d ∷ s) (_, ps) = ends_of_plain (d ∷ s) ps
