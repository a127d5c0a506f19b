-- ===== src/Configurator/Once.antt =====
-- The sorting of the keys of `selected` in `Configure`.
use teggo.Prelude.{
  ℕ, suc, ◌≤◌, ◌<◌, ◌≡◌, refl, ◌∙◌, ◌⊎◌, inl, inr, Bool, true, false, ◌||◌, List, [], ◌∷◌, ◌==◌,
  ltb, contains, occurrences, if◌then◌else◌, arith,
}
use teggo.Configurator.{insert_id, sort_ids}

-- Strictly ascending, from a bound on.
abbrev Ascending : ℕ → List ℕ → Type 0
Ascending b [] = Unit
Ascending b (x ∷ xs) = (b ≤ x) × Ascending (suc x) xs

trichotomy :
    (n x : ℕ)
    → ((ltb n x ≡ true) × (n < x))
      ⊎ (((ltb n x ≡ false) × (n == x ≡ true) × (n ≡ x))
          ⊎ ((ltb n x ≡ false) × (n == x ≡ false) × (x < n)))
trichotomy n x = ground arith

insert_id-Ascending :
    (b n : ℕ) (xs : List ℕ) → b ≤ n → Ascending b xs → Ascending b (insert_id n xs)
unfolding insert_id
insert_id-Ascending b n [] h k = (h, tt)
insert_id-Ascending b n (x ∷ xs) h (k, ks) = elim (trichotomy n x) [
  | inl (e, l) ↦ rw e (h, (l, ks))
  | inr (inl (e, e', _)) ↦ rw (e, e') (k, ks)
  | inr (inr (e, e', l)) ↦ rw (e, e') (k, insert_id-Ascending (suc x) n xs l ks)
]

absent : (b k : ℕ) (xs : List ℕ) → Ascending b xs → k < b → occurrences k xs ≡ 0
absent b k [] h l = refl
absent b k (x ∷ xs) (h, hs) l = let rest = absent (suc x) k xs hs (omega arith) in ground arith

insert_id-occurrences :
    (b k n : ℕ) (xs : List ℕ)
    → Ascending b xs
    → occurrences k (insert_id n xs) ≡ (if k == n then 1 else occurrences k xs)
unfolding insert_id
insert_id-occurrences b k n [] h = ground arith
insert_id-occurrences b k n (x ∷ xs) (h, hs) =
    let rest = insert_id-occurrences (suc x) k n xs hs in
    let gone = absent (suc x) k xs hs in
    elim (trichotomy n x) [
      | inl (e, l) ↦ rw e (ground arith)
      | inr (inl (e, e', same)) ↦ rw (e, e') (ground arith)
      | inr (inr (e, e', l)) ↦ rw (e, e', rest) (ground arith)
    ]

sort_ids-Ascending : (ids : List ℕ) → Ascending 0 (sort_ids ids)
unfolding sort_ids
sort_ids-Ascending [] = tt
sort_ids-Ascending (id ∷ ids) =
    insert_id-Ascending 0 id (sort_ids ids) (omega arith) (sort_ids-Ascending ids)

in_either :
    (a b : Bool) → ◌≡◌ {A = ℕ} (if a then 1 else if b then 1 else 0) (if a || b then 1 else 0)
in_either true b = refl
in_either false b = refl

-- Each id of the list stands in the sorted one exactly once, and no other does.
pub sort_ids-occurrences :
    (k : ℕ) (ids : List ℕ) → occurrences k (sort_ids ids) ≡ (if contains ids k then 1 else 0)
unfolding sort_ids
sort_ids-occurrences k [] = refl
sort_ids-occurrences k (id ∷ ids) =
    let rest = sort_ids-occurrences k ids in
    insert_id-occurrences 0 k id (sort_ids ids) (sort_ids-Ascending ids)
    ∙ rw rest (in_either (k == id) (contains ids k))
