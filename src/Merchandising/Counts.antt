-- ===== src/Merchandising/Counts.antt =====
-- How often an id stands in the sorted pins and in the ids that a test keeps.
use teggo.Prelude.{
  ℕ, ◌+◌, ◌≡◌, refl, ◌∙◌, ap, Bool, true, false, List, [], ◌∷◌, map, ◌==◌, occurrences,
  if◌then◌else◌, Bool-cases, ==_iff, inl, inr, arith,
}
use teggo.Prelude.Int.{ltb_ℤ}
use teggo.Merchandising.{Rule, product_of, insert_pin, sort_pins, keep}

insert_pin-occurrences :
    (n : ℕ) (r : Rule) (ps : List Rule)
    → occurrences n (map product_of (insert_pin r ps)) ≡ occurrences n (map product_of (r ∷ ps))
unfolding insert_pin
insert_pin-occurrences n r [] = refl
insert_pin-occurrences n r (p ∷ ps) = elim (Bool-cases (ltb_ℤ p.position r.position)) [
  | inl e ↦ rw (e, insert_pin-occurrences n r ps) (omega arith)
  | inr e ↦ rw e refl
]

pub sort_pins-occurrences :
    (n : ℕ) (ps : List Rule)
    → occurrences n (map product_of (sort_pins ps)) ≡ occurrences n (map product_of ps)
unfolding sort_pins
sort_pins-occurrences n [] = refl
sort_pins-occurrences n (p ∷ ps) =
    insert_pin-occurrences n p (sort_pins ps)
    ∙ ap (λ k. (if n == p.product_id then 1 else 0) + k) (sort_pins-occurrences n ps)

pushed :
    (n id : ℕ) (b : Bool) (ks : List ℕ)
    → occurrences n (if b then id ∷ ks else ks)
      ≡ (if b then (if n == id then 1 else 0) + occurrences n ks else occurrences n ks)
pushed n id true ks = refl
pushed n id false ks = refl

one_kept :
    (tn ti d : Bool) (k k' : ℕ)
    → (d ≡ true → tn ≡ ti)
    → k' ≡ (if tn then k else 0)
    → (if ti then (if d then 1 else 0) + k' else k') ≡ (if tn then (if d then 1 else 0) + k else 0)
one_kept true true d k k' same e = rw e refl
one_kept true false true k k' same e = cc (same refl)
one_kept true false false k k' same e = omega (arith, e)
one_kept false true true k k' same e = cc (same refl)
one_kept false true false k k' same e = omega (arith, e)
one_kept false false d k k' same e = e

pub keep-occurrences :
    (test : ℕ → Bool) (n : ℕ) (ids : List ℕ)
    → occurrences n (keep test ids) ≡ (if test n then occurrences n ids else 0)
unfolding keep
keep-occurrences test n [] = ground arith
keep-occurrences test n (id ∷ ids) =
    let (same, _) = ==_iff n id in
    pushed n id (test id) (keep test ids)
    ∙ one_kept (test n) (test id) (n == id) (occurrences n ids) _ (λ e. ap test (same e))
        (keep-occurrences test n ids)
