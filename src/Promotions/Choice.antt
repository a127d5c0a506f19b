-- ===== src/Promotions/Choice.antt =====
-- The comparison of offers in the loop of `Evaluate` as an order.
use teggo.Prelude.{◌≡◌, true, false, Option, none, some, Ordering, arith, Bool-cases, inl, inr}
use teggo.Prelude.Int.{◌≤ℤ◌}
use teggo.Prelude.Text.{Text}
use teggo.Money.Amount.{cmp}
use teggo.Money.Amount.Order.{
  IsDecimal, ◌≼◌, ≼_refl, ≼_trans, cmp-IsDecimal, le_of_cmp, ge_of_cmp, ge_of_cmp-gt, not-le_of_cmp,
  not-ge_of_cmp,
}
use teggo.Promotions.{Candidate, better, consider, Best}

-- b with discount d is at least as good as c with discount e.
abbrev pub Beats : Candidate → Text → Candidate → Text → Type 0
Beats b d c e = (e ≼ d) × (d ≼ e → c.priority ≤ℤ b.priority)

Beats-refl : (b : Candidate) (d : Text) → IsDecimal d → Beats b d b d
Beats-refl b d h = (≼_refl d h, λ _. omega arith)

Beats-trans : (a b c : Candidate) (d e f : Text) → Beats a d b e → Beats b e c f → Beats a d c f
Beats-trans a b c d e f (h, p) (k, q) = (
  ≼_trans f e d k h,
  λ w.
      let first : b.priority ≤ℤ a.priority = p (≼_trans d f e w k) in
      let second : c.priority ≤ℤ b.priority = q (≼_trans e d f h w) in omega arith,
)

abbrev Prefers : Candidate → Text → Candidate → Text → Type 0
Prefers c d b e =
    (better (c, d) (b, e) ≡ true → Beats c d b e) × (better (c, d) (b, e) ≡ false → Beats b e c d)

better-order : (c b : Candidate) (d e : Text) (o : Ordering) → cmp d e ≡ some o → Prefers c d b e
unfolding better
better-order c b d e Ordering.gt h =
    rw (h, better) (λ _. (ge_of_cmp-gt d e h, λ w. absurd (not-le_of_cmp d e h w)), λ k. cc)
better-order c b d e Ordering.eq h =
    let le : d ≼ e = le_of_cmp d e Ordering.eq h (λ k. cc) in
    let ge : e ≼ d = ge_of_cmp d e Ordering.eq h (λ k. cc) in
    rw (h, better) (λ k. (ge, λ _. ground arith), λ k. (le, λ _. ground arith))
better-order c b d e Ordering.lt h =
    let le : d ≼ e = le_of_cmp d e Ordering.lt h (λ k. cc) in
    rw (h, better) (λ k. cc, λ _. (le, λ w. absurd (not-ge_of_cmp d e h w)))

-- Whichever of the two `better` prefers beats the other.
better_lem : (c b : Candidate) (d e : Text) → IsDecimal d → IsDecimal e → Prefers c d b e
better_lem c b d e hd he = let (o, h) = cmp-IsDecimal d e hd he in better-order c b d e o h

-- The best so far is at least as good as a candidate's offer, if it makes one.
abbrev pub Covers : Best → Candidate → Option Text → Type 0
Covers best c none = Unit
Covers none c (some e) = ⊥
Covers (some (b, d)) c (some e) = Beats b d c e

abbrev pub HasDecimal : Best → Type 0
HasDecimal none = Unit
HasDecimal (some (b, d)) = IsDecimal d

abbrev pub OfferDecimal : Option Text → Type 0
OfferDecimal none = Unit
OfferDecimal (some d) = IsDecimal d

pub consider-HasDecimal :
    (best : Best) (c : Candidate) (o : Option Text)
    → HasDecimal best
    → OfferDecimal o
    → HasDecimal (consider best c o)
unfolding consider
consider-HasDecimal best c none h k = h
consider-HasDecimal none c (some e) h k = k
consider-HasDecimal (some (b, d)) c (some e) h k = elim (Bool-cases (better (c, e) (b, d))) [
  | inl wins ↦ rw wins k
  | inr loses ↦ rw loses h
]

-- The step covers the candidate that it looks at,
pub consider-Covers_self :
    (best : Best) (c : Candidate) (o : Option Text)
    → HasDecimal best
    → OfferDecimal o
    → Covers (consider best c o) c o
unfolding consider
consider-Covers_self best c none h k = tt
consider-Covers_self none c (some e) h k = Beats-refl c e k
consider-Covers_self (some (b, d)) c (some e) h k = elim (Bool-cases (better (c, e) (b, d))) [
  | inl wins ↦ rw wins (Beats-refl c e k)
  | inr loses ↦ rw loses ((better_lem c b e d k h).1 loses)
]

-- and still covers those before.
pub consider-Covers :
    (best : Best) (c : Candidate) (o : Option Text) (c' : Candidate) (o' : Option Text)
    → HasDecimal best
    → OfferDecimal o
    → Covers best c' o'
    → Covers (consider best c o) c' o'
unfolding consider
consider-Covers best c o c' none h k v = tt
consider-Covers best c none c' (some e') h k v = v
consider-Covers none c (some e) c' (some e') h k v = absurd v
consider-Covers (some (b, d)) c (some e) c' (some e') h k v =
    elim (Bool-cases (better (c, e) (b, d))) [
      | inl wins ↦ rw wins (Beats-trans c b c' e d e' ((better_lem c b e d k h).0 wins) v)
      | inr loses ↦ rw loses v
    ]
