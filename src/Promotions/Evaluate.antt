-- ===== src/Promotions/Evaluate.antt =====
-- What `Evaluate` returns, by induction on the candidates.
use teggo.Prelude.{
  ℕ, ◌≡◌, refl, sym, ap, ◌∙◌, true, ◌⊎◌, inl, inr, Option, none, some, List, [], ◌∷◌, Ordering,
  Memᴰ, All, All-Memᴰ, All-members, Bool-cases,
}
use teggo.Prelude.Int.{◌≤ℤ◌}
use teggo.Prelude.Text.{Text, codes, trim_space, to_lower}
use teggo.Money.Amount.{cmp}
use teggo.Money.Amount.Order.{IsDecimal, ◌≼◌, cmp-IsDecimal, ge_of_cmp}
use teggo.Promotions.{
  Candidate, Best, Result, eligible, discount_for, capped, outcome, offer, better, consider, choose,
  evaluate,
}
use teggo.Promotions.Offer.{offer_sound}
use teggo.Promotions.Choice.{
  Beats, Covers, HasDecimal, OfferDecimal, consider-HasDecimal, consider-Covers_self,
  consider-Covers,
}

-- The entered code as it is compared.
abbrev pub entered_code : Text → Text
entered_code code = to_lower (trim_space code)

module _ (subtotal entered : Text) (now : ℕ) (s : IsDecimal subtotal) where
  abbrev made : Candidate → Option Text
  made = offer subtotal entered now

  offer-OfferDecimal : (c : Candidate) → OfferDecimal (made c)
  offer-OfferDecimal c = decimal (made c) refl
    where
      decimal : (o : Option Text) → made c ≡ o → OfferDecimal o
      decimal none e = tt
      decimal (some d) e =
          let (r, _, h, _, _) = (offer_sound subtotal entered now c s e).2 in (r, h)

  choose-Covers_before :
      (best : Best) (cs : List Candidate) (c : Candidate) (o : Option Text)
      → HasDecimal best
      → Covers best c o
      → Covers (choose subtotal entered now best cs) c o
  unfolding choose
  choose-Covers_before best [] c o h v = v
  choose-Covers_before best (x ∷ cs) c o h v =
      choose-Covers_before (consider best x (made x)) cs c o
        (consider-HasDecimal best x (made x) h (offer-OfferDecimal x))
        (consider-Covers best x (made x) c o h (offer-OfferDecimal x) v)

  choose-Covers :
      (best : Best) (cs : List Candidate)
      → HasDecimal best
      → All (λ c. Covers (choose subtotal entered now best cs) c (made c)) cs
  unfolding choose
  choose-Covers best [] h = tt
  choose-Covers best (c ∷ cs) h =
      let next = consider-HasDecimal best c (made c) h (offer-OfferDecimal c) in
      let covered = consider-Covers_self best c (made c) h (offer-OfferDecimal c) in
      (
        choose-Covers_before (consider best c (made c)) cs c (made c) next covered,
        choose-Covers (consider best c (made c)) cs next,
      )

  -- The best so far is one of the candidates, with the discount that it offers.
  abbrev IsOffered : List Candidate → Best → Type 0
  IsOffered all none = Unit
  IsOffered all (some (b, d)) = Memᴰ b all × (made b ≡ some d)

  consider-IsOffered :
      (all : List Candidate) (best : Best) (c : Candidate) (o : Option Text)
      → made c ≡ o
      → Memᴰ c all
      → IsOffered all best
      → IsOffered all (consider best c o)
  unfolding consider
  consider-IsOffered all best c none e m h = h
  consider-IsOffered all none c (some d) e m h = (m, e)
  consider-IsOffered all (some b) c (some d) e m h = elim (Bool-cases (better (c, d) b)) [
    | inl wins ↦ rw wins (m, e)
    | inr loses ↦ rw loses h
  ]

  choose-IsOffered :
      (all : List Candidate) (best : Best) (cs : List Candidate)
      → All (λ c. Memᴰ c all) cs
      → IsOffered all best
      → IsOffered all (choose subtotal entered now best cs)
  unfolding choose
  choose-IsOffered all best [] m h = h
  choose-IsOffered all best (c ∷ cs) (m, ms) h =
      choose-IsOffered all (consider best c (made c)) cs ms
        (consider-IsOffered all best c (made c) refl m h)

abbrev promotion : Result → Option Candidate
promotion r = r.promotion

-- The run of the loop that `Evaluate` makes.
abbrev run : Text → Text → ℕ → List Candidate → Best
run subtotal code now cs = choose subtotal (entered_code code) now none cs

evaluate-run :
    (subtotal code : Text) (now : ℕ) (cs : List Candidate)
    → IsDecimal subtotal
    → evaluate subtotal code now cs ≡ outcome (run subtotal code now cs)
unfolding evaluate
evaluate-run subtotal code now cs (r, e) = rw (e, evaluate)

outcome-none : (best : Best) → (outcome best).promotion ≡ none → best ≡ none
outcome-none none e = refl
outcome-none (some (c, d)) e = cc

Covers-none : (c : Candidate) (o : Option Text) → Covers none c o → o ≡ none
Covers-none c none v = refl
Covers-none c (some e) v = absurd v

Beats-cases :
    (b c : Candidate) (d e : Text)
    → Beats b d c e
    → (e ≼ d) × ((cmp e d ≡ some Ordering.lt) ⊎ (c.priority ≤ℤ b.priority))
Beats-cases b c d e (h, p) =
    let (re, rd, pe, pd, _) = h in
    let (o, k) = cmp-IsDecimal e d (re, pe) (rd, pd) in (h, by_order o k)
  where
    by_order :
        (o : Ordering)
        → cmp e d ≡ some o
        → (cmp e d ≡ some Ordering.lt) ⊎ (c.priority ≤ℤ b.priority)
    by_order Ordering.lt k = inl k
    by_order Ordering.eq k = inr (p (ge_of_cmp e d Ordering.eq k (λ w. cc)))
    by_order Ordering.gt k = inr (p (ge_of_cmp e d Ordering.gt k (λ w. cc)))

outcome-some :
    (best : Best) (b : Candidate)
    → (outcome best).promotion ≡ some b
    → best ≡ some (b, (outcome best).discount)
outcome-some none b e = cc
outcome-some (some (c, d)) b e = cc

module _ (subtotal code : Text) (now : ℕ) (cs : List Candidate) (s : IsDecimal subtotal) where
  module _ (b : Candidate) (chosen : (evaluate subtotal code now cs).promotion ≡ some b) where
    abbrev disc : Text
    disc = (evaluate subtotal code now cs).discount

    run_chosen : run subtotal code now cs ≡ some (b, disc)
    run_chosen =
        let e = evaluate-run subtotal code now cs s in
        outcome-some (run subtotal code now cs) b (sym (ap promotion e) ∙ chosen)
        ∙ ap (λ (r : Result). some (b, r.discount)) (sym e)

    -- For a decimal subtotal, the chosen promotion is an eligible candidate, and its discount is the one
    -- computed for it, cut at the subtotal; it is above zero
    -- and at most the subtotal.
    pub evaluate_sound :
        Memᴰ b cs
        × (eligible b subtotal (entered_code code) now ≡ true)
        × (disc ≡ capped (discount_for b subtotal) subtotal)
        × (disc ≼ subtotal)
        × (cmp disc (codes "0") ≡ some Ordering.gt)
    evaluate_sound =
        let entered = entered_code code in
        let source = choose-IsOffered subtotal entered now s cs none cs (All-members cs) tt in
        let (m, o) = rw run_chosen at source in
        let (fit, same, within, gain) = offer_sound subtotal entered now b s o in
        (m, fit, same, within, gain)

    -- For a decimal subtotal, no candidate offers more than the discount given, and one that offers no
    -- less has no higher priority than the promotion chosen.
    pub evaluate_best :
        (c : Candidate) (e : Text)
        → Memᴰ c cs
        → offer subtotal (entered_code code) now c ≡ some e
        → (e ≼ disc) × ((cmp e disc ≡ some Ordering.lt) ⊎ (c.priority ≤ℤ b.priority))
    evaluate_best c e m o =
        let entered = entered_code code in
        let covered =
          All-Memᴰ (λ x. Covers (run subtotal code now cs) x (offer subtotal entered now x)) cs
            (choose-Covers subtotal entered now s none cs tt) m in
        Beats-cases b c disc e (rw (run_chosen, o) at covered)

  -- If nothing is chosen for a decimal subtotal, no candidate had an offer.
  evaluate-none :
      (evaluate subtotal code now cs).promotion ≡ none
      → (c : Candidate) → Memᴰ c cs
      → offer subtotal (entered_code code) now c ≡ none
  evaluate-none e c m =
      let entered = entered_code code in
      let covered =
        All-Memᴰ (λ x. Covers (run subtotal code now cs) x (offer subtotal entered now x)) cs
          (choose-Covers subtotal entered now s none cs tt) m in
      let nothing =
        outcome-none (run subtotal code now cs)
          (sym (ap promotion (evaluate-run subtotal code now cs s)) ∙ e) in
      Covers-none c (offer subtotal entered now c) (rw nothing at covered)
