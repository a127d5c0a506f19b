-- ===== src/Money/Amount/Order.antt =====
-- The order of decimal texts, and what `Cmp` says of it.
use mathlib.Core.Option.{some-injective}
use teggo.Prelude.{◌≡◌, ◌≢◌, sym, ◌∙◌, inl, inr, Ordering, some, Option-cases}
use teggo.Prelude.Text.{Text}
use teggo.Money.Rat
use teggo.Money.Rat.{Rat, ◌≤ᵣ◌}
use teggo.Money.Rat.Order.{
  ≤ᵣ_refl, ≤ᵣ_trans, cmp-gt, cmp-ne-gt, cmp-ne-lt, not-le_of_cmp-gt, not-ge_of_cmp-lt,
}
use teggo.Money.Decimal.{parse}
use teggo.Money.Amount.{cmp}

-- `SetString` accepts the text.
abbrev pub IsDecimal : Text → Type 0
IsDecimal t = (r : Rat) × (parse t ≡ some r)

infix 50 ◌≼◌
abbrev pub ◌≼◌ : Text → Text → Type 0
a ≼ b = (r : Rat) × (s : Rat) × (parse a ≡ some r) × (parse b ≡ some s) × (r ≤ᵣ s)

pub ≼_refl : (a : Text) → IsDecimal a → a ≼ a
≼_refl a (r, e) = (r, r, e, e, ≤ᵣ_refl r)

pub ≼_trans : (a b c : Text) → a ≼ b → b ≼ c → a ≼ c
≼_trans a b c (r, s, ea, eb, h) (s', t, eb', ec, k) =
    let same : s ≡ s' = some-injective _ _ (sym eb ∙ eb') in
    (r, t, ea, ec, ≤ᵣ_trans r s t h (rw same k))

pub cmp-some :
    (a b : Text) (o : Ordering)
    → cmp a b ≡ some o
    → (r : Rat) × (s : Rat) × (parse a ≡ some r) × (parse b ≡ some s) × (Rat.cmp r s ≡ o)
unfolding cmp
cmp-some a b o e = elim (Option-cases (parse a)) [
  | inl bad ↦ cc (rw bad at e)
  | inr (r, ea) ↦ elim (Option-cases (parse b)) [
    | inl bad ↦ cc (rw (ea, bad) at e)
    | inr (s, eb) ↦ (r, s, ea, eb, some-injective _ _ (rw (ea, eb) at e))
  ]
]

pub cmp-IsDecimal : (a b : Text) → IsDecimal a → IsDecimal b → (o : Ordering) × (cmp a b ≡ some o)
unfolding cmp
cmp-IsDecimal a b (r, ea) (s, eb) = (Rat.cmp r s, rw (ea, eb))

pub ge_of_cmp-gt : (a b : Text) → cmp a b ≡ some Ordering.gt → b ≼ a
ge_of_cmp-gt a b e =
    let (r, s, ea, eb, h) = cmp-some a b Ordering.gt e in (s, r, eb, ea, cmp-gt r s h)

pub le_of_cmp : (a b : Text) (o : Ordering) → cmp a b ≡ some o → o ≢ Ordering.gt → a ≼ b
le_of_cmp a b o e ne =
    let (r, s, ea, eb, h) = cmp-some a b o e in (r, s, ea, eb, cmp-ne-gt r s (λ k. ne (sym h ∙ k)))

pub ge_of_cmp : (a b : Text) (o : Ordering) → cmp a b ≡ some o → o ≢ Ordering.lt → b ≼ a
ge_of_cmp a b o e ne =
    let (r, s, ea, eb, h) = cmp-some a b o e in (s, r, eb, ea, cmp-ne-lt r s (λ k. ne (sym h ∙ k)))

pub not-le_of_cmp : (a b : Text) → cmp a b ≡ some Ordering.gt → ¬ (a ≼ b)
not-le_of_cmp a b e (r, s, ea, eb, h) =
    let (r', s', ea', eb', k) = cmp-some a b Ordering.gt e in
    not-le_of_cmp-gt r' s' k
      (rw (some-injective _ _ (sym ea' ∙ ea), some-injective _ _ (sym eb' ∙ eb)) h)

pub not-ge_of_cmp : (a b : Text) → cmp a b ≡ some Ordering.lt → ¬ (b ≼ a)
not-ge_of_cmp a b e (s, r, eb, ea, h) =
    let (r', s', ea', eb', k) = cmp-some a b Ordering.lt e in
    not-ge_of_cmp-lt r' s' k
      (rw (some-injective _ _ (sym ea' ∙ ea), some-injective _ _ (sym eb' ∙ eb)) h)
