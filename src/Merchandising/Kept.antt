-- ===== src/Merchandising/Kept.antt =====
-- The products of a reordered page.
use teggo.Prelude.{
  ℕ, ◌+◌, ◌≤◌, ◌≡◌, refl, ◌∙◌, Bool, true, false, not, ◌&&◌, List, [], ◌∷◌, ◌++◌, map, contains,
  occurrences, occurrences-append, if◌then◌else◌, arith,
}
use teggo.Merchandising.{
  Rule, Marks, product_of, pinned, mark_all, sort_pins, keep, is_buried, is_boosted, is_normal,
  arranged, unmarked, nothing_marked, reorder,
}
use teggo.Merchandising.Counts.{sort_pins-occurrences, keep-occurrences}
use teggo.Merchandising.Marked.{IsMarked, mark_all-IsMarked}

contains-occurrences : (n : ℕ) (ids : List ℕ) → contains ids n ≡ true → 1 ≤ occurrences n ids
contains-occurrences n [] c = cc
contains-occurrences n (id ∷ ids) c = ground (arith, contains-occurrences n ids)

-- The four parts of the new order count each product as often as the page did.
parts_count :
    (p b o : Bool) (k j : ℕ)
    → j ≡ (if p then 1 else 0)
    → (p ≡ true → k ≡ 1)
    → j
        + ((if not p && (not b && o) then k else 0)
            + ((if not p && (not b && not o) then k else 0) + (if not p && b then k else 0)))
      ≡ k
parts_count true b o k j e one = omega (arith, e, one refl)
parts_count false true o k j e one = omega (arith, e)
parts_count false false true k j e one = omega (arith, e)
parts_count false false false k j e one = omega (arith, e)

exactly_one : (k : ℕ) → 1 ≤ k → k ≤ 1 → k ≡ 1
exactly_one k h l = omega arith

either_way :
    (b : Bool) (xs ys : List ℕ) (n : ℕ)
    → occurrences n ys ≡ occurrences n xs
    → occurrences n (if b then xs else ys) ≡ occurrences n xs
either_way true xs ys n e = refl
either_way false xs ys n e = e

arranged-occurrences :
    (ids : List ℕ) (m : Marks)
    → ((n : ℕ) → occurrences n ids ≤ 1)
    → IsMarked ids m
    → (n : ℕ) → occurrences n (arranged ids m) ≡ occurrences n ids
unfolding arranged
arranged-occurrences ids m distinct h n =
    let (count, on_page) = h n in
    let pins = map product_of (sort_pins m.pins) in
    let normal = keep (is_normal m) ids in
    let buried = keep (is_buried m) ids in
    let boosted = keep (is_boosted m) ids in
    rw
      (
        occurrences-append n pins (boosted ++ (normal ++ buried)),
        occurrences-append n boosted (normal ++ buried),
        occurrences-append n normal buried,
        keep-occurrences (is_boosted m) n ids,
        keep-occurrences (is_normal m) n ids,
        keep-occurrences (is_buried m) n ids,
      )
      (parts_count (pinned m n) (contains m.bury n) (contains m.boost n) (occurrences n ids) _
        (sort_pins-occurrences n m.pins ∙ count)
        (λ e. exactly_one _ (contains-occurrences n ids (on_page e)) (distinct n)))

unmarked-IsMarked : (ids : List ℕ) → IsMarked ids unmarked
unmarked-IsMarked ids n = (refl, λ e. cc)

-- For a page that lists no product twice, whatever the rules: the reordered page lists each product
-- as often as the page did, so no product is lost, added or repeated.
pub reorder_same :
    (ids : List ℕ) (rules : List Rule)
    → ((n : ℕ) → occurrences n ids ≤ 1)
    → (n : ℕ) → occurrences n (reorder ids rules) ≡ occurrences n ids
unfolding reorder
reorder_same ids [] distinct n = refl
reorder_same [] (r ∷ rules) distinct n = refl
reorder_same (id ∷ ids) (r ∷ rules) distinct n =
    let m = mark_all (id ∷ ids) unmarked (r ∷ rules) in
    either_way (nothing_marked m) (id ∷ ids) (arranged (id ∷ ids) m) n (
      arranged-occurrences (id ∷ ids) m distinct
        (mark_all-IsMarked (id ∷ ids) (r ∷ rules) unmarked (unmarked-IsMarked (id ∷ ids))) n)
