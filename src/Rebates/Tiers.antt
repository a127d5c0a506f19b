-- ===== src/Rebates/Tiers.antt =====
-- `Applicable` and the order of thresholds.
use mathlib.Core.Option.{some-injective}
use teggo.Prelude.{
  ◌≡◌, refl, ap, true, false, Option, none, some, List, [], ◌∷◌, Ordering, Bool-cases, inl, inr,
  Memᴰ, All, All-Memᴰ, All-members, if◌then◌else◌,
}
use teggo.Prelude.Text.{Text}
use teggo.Money.Amount.{cmp}
use teggo.Money.Amount.Order.{
  ◌≼◌, ≼_refl, ≼_trans, cmp-IsDecimal, le_of_cmp, ge_of_cmp, not-ge_of_cmp,
}
use teggo.Rebates.{Tier, reaches, higher, keep_best, best_tier, applicable}

-- The test of the loop is the order of the amounts.
reaches-le : (total : Text) (t : Tier) → reaches total t ≡ true → t.min_amount ≼ total
unfolding reaches
reaches-le total t h = by_order (cmp total t.min_amount) refl
  where
    by_order : (o : Option Ordering) → cmp total t.min_amount ≡ o → t.min_amount ≼ total
    by_order none e = cc (rw (e, reaches) at h)
    by_order (some Ordering.lt) e = cc (rw (e, reaches) at h)
    by_order (some Ordering.eq) e = ge_of_cmp total t.min_amount Ordering.eq e (λ k. cc)
    by_order (some Ordering.gt) e = ge_of_cmp total t.min_amount Ordering.gt e (λ k. cc)

le-reaches : (total : Text) (t : Tier) → t.min_amount ≼ total → reaches total t ≡ true
unfolding reaches
le-reaches total t (r, s, er, es, h) =
    let (o, e) = cmp-IsDecimal total t.min_amount (s, es) (r, er) in by_order o e
  where
    by_order : (o : Ordering) → cmp total t.min_amount ≡ some o → reaches total t ≡ true
    by_order Ordering.lt e = absurd (not-ge_of_cmp total t.min_amount e (r, s, er, es, h))
    by_order Ordering.eq e = rw (e, reaches)
    by_order Ordering.gt e = rw (e, reaches)

module _ (total : Text) where
  -- What is known of a tier once the loop is past it.
  abbrev Covers : Option Tier → Tier → Type 0
  Covers none t = reaches total t ≡ false
  Covers (some b) t = reaches total t ≡ true → t.min_amount ≼ b.min_amount

  abbrev IsReached : List Tier → Option Tier → Type 0
  IsReached all none = Unit
  IsReached all (some b) = Memᴰ b all × (reaches total b ≡ true)

  abbrev next : Option Tier → Tier → Option Tier
  next best t = if reaches total t then keep_best best t else best

  higher_lem :
      (t b : Tier)
      → reaches total t ≡ true
      → reaches total b ≡ true
      → (higher t b ≡ true → b.min_amount ≼ t.min_amount)
        × (higher t b ≡ false → t.min_amount ≼ b.min_amount)
  unfolding higher
  higher_lem t b ht hb =
      let (rt, _, et, _, _) = reaches-le total t ht in
      let (rb, _, eb, _, _) = reaches-le total b hb in
      let (o, e) = cmp-IsDecimal t.min_amount b.min_amount (rt, et) (rb, eb) in
      (
        λ g. ge_of_cmp t.min_amount b.min_amount o e (λ k. cc (rw (e, k) at g)),
        λ g. le_of_cmp t.min_amount b.min_amount o e (λ k. cc (rw (e, k) at g)),
      )

  self_le : (t : Tier) → reaches total t ≡ true → t.min_amount ≼ t.min_amount
  self_le t h = let (r, _, e, _, _) = reaches-le total t h in ≼_refl t.min_amount (r, e)

  next-Covers :
      (all : List Tier) (best : Option Tier) (t : Tier)
      → IsReached all best
      → Covers (next best t) t × ((u : Tier) → Covers best u → Covers (next best t) u)
  unfolding keep_best
  next-Covers all none t h = elim (Bool-cases (reaches total t)) [
    | inr short ↦ rw short (short, λ u v. v)
    | inl there ↦ rw there (λ _. self_le t there, λ u v k. cc)
  ]
  next-Covers all (some b) t (m, h) = elim (Bool-cases (reaches total t)) [
    | inr short ↦ rw short (λ k. cc, λ u v. v)
    | inl there ↦
        let (up, down) = higher_lem t b there h in
        elim (Bool-cases (higher t b)) [
          | inl wins ↦
              rw (there, wins)
                (
                  λ _. self_le t there,
                  λ u v k. ≼_trans u.min_amount b.min_amount t.min_amount (v k) (up wins),
                )
          | inr loses ↦ rw (there, loses) (λ _. down loses, λ u v. v)
        ]
  ]

  next-IsReached :
      (all : List Tier) (best : Option Tier) (t : Tier)
      → Memᴰ t all
      → IsReached all best
      → IsReached all (next best t)
  unfolding keep_best
  next-IsReached all none t m h = elim (Bool-cases (reaches total t)) [
    | inr short ↦ rw short tt
    | inl there ↦ rw there (m, there)
  ]
  next-IsReached all (some b) t m h = elim (Bool-cases (reaches total t)) [
    | inr short ↦ rw short h
    | inl there ↦ elim (Bool-cases (higher t b)) [
      | inl wins ↦ rw (there, wins) (m, there)
      | inr loses ↦ rw (there, loses) h
    ]
  ]

  best_tier_lem :
      (all : List Tier) (best : Option Tier) (tiers : List Tier)
      → All (λ t. Memᴰ t all) tiers
      → IsReached all best
      → let found = best_tier total best tiers in
        IsReached all found
        × All (Covers found) tiers
        × ((u : Tier) → Covers best u → Covers found u)
  unfolding best_tier
  best_tier_lem all best [] ms h = (h, tt, λ u v. v)
  best_tier_lem all best (t ∷ tiers) (m, ms) h =
      let (own, old) = next-Covers all best t h in
      let (found, rest, kept) =
        best_tier_lem all (next best t) tiers ms (next-IsReached all best t m h) in
      (found, (kept t own, rest), λ u v. kept u (old u v))

  abbrev paid : Option Tier → Option (Text × Text)
  paid f = elim f [ none ↦ none | some t ↦ some (t.rate_percent, t.min_amount) ]

  module _ (tiers : List Tier) where
    found_lem :
        IsReached tiers (best_tier total none tiers)
        × All (Covers (best_tier total none tiers)) tiers
    found_lem =
        let (found, rest, _) = best_tier_lem tiers none tiers (All-members tiers) tt in
        (found, rest)

    -- The rate and threshold returned are those of one of the tiers, the total reaches it, and no
    -- tier that the total reaches has a higher threshold.
    pub applicable_highest :
        (rate least : Text) (u : Tier)
        → applicable total tiers ≡ some (rate, least)
        → Memᴰ u tiers
        → u.min_amount ≼ total
        → ((t : Tier) × Memᴰ t tiers × (t.rate_percent ≡ rate) × (t.min_amount ≡ least))
          × (least ≼ total)
          × (u.min_amount ≼ least)
    unfolding applicable
    applicable_highest rate least u e m le =
        by_found (best_tier total none tiers) found_lem.0 found_lem.1 e
      where
        by_found :
            (f : Option Tier)
            → IsReached tiers f
            → All (Covers f) tiers
            → paid f ≡ some (rate, least)
            → ((t : Tier) × Memᴰ t tiers × (t.rate_percent ≡ rate) × (t.min_amount ≡ least))
              × (least ≼ total)
              × (u.min_amount ≼ least)
        by_found none h c k = cc
        by_found (some b) (mb, h) c k =
            let pair = some-injective _ _ k in
            let same : b.min_amount ≡ least = ap (λ (p : Text × Text). p.1) pair in
            let most = All-Memᴰ (Covers (some b)) tiers c m (le-reaches total u le) in
            (
              (b, mb, ap (λ (p : Text × Text). p.0) pair, same),
              rw (← same) (reaches-le total b h),
              rw (← same) most,
            )

    -- If `ok` is false, the total reaches no tier.
    applicable-none :
        (u : Tier) → applicable total tiers ≡ none → Memᴰ u tiers → ¬ (u.min_amount ≼ total)
    unfolding applicable
    applicable-none u e m le = by_found (best_tier total none tiers) found_lem.1 e
      where
        by_found : (f : Option Tier) → All (Covers f) tiers → paid f ≡ none → ⊥
        by_found none c k =
            let short : reaches total u ≡ false = All-Memᴰ (Covers none) tiers c m in
            let there = le-reaches total u le in cc
        by_found (some b) c k = cc
