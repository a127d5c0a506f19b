-- ===== src/Merchandising/Marked.antt =====
-- What holds of the products that the loop over the rules has pinned.
use teggo.Prelude.{
  ℕ, ◌+◌, ◌≡◌, refl, ◌∙◌, ap, Bool, true, false, ◌||◌, List, [], ◌∷◌, ◌++◌, map, ◌==◌, contains,
  occurrences, occurrences-append, if◌then◌else◌, str_eq, Bool-cases, ==_iff, inl, inr, arith,
}
use teggo.Merchandising.{Rule, Marks, product_of, pinned, pin, mark, mark_all}

-- Each pinned product is pinned once, and stands on the page.
abbrev pub IsMarked : List ℕ → Marks → Type 0
IsMarked ids m =
    (n : ℕ)
    → (occurrences n (map product_of m.pins) ≡ (if pinned m n then 1 else 0))
      × (pinned m n ≡ true → contains ids n ≡ true)

map-snoc :
    (ps : List Rule) (r : Rule)
    → map product_of (ps ++ (r ∷ [])) ≡ map product_of ps ++ (r.product_id ∷ [])
map-snoc [] r = refl
map-snoc (p ∷ ps) r = ap (λ xs. p.product_id ∷ xs) (map-snoc ps r)

or_assoc : (a b c : Bool) → (a || (b || c)) ≡ ((a || b) || c)
or_assoc true b c = refl
or_assoc false b c = refl

contains-snoc : (xs : List ℕ) (a n : ℕ) → contains (xs ++ (a ∷ [])) n ≡ (contains xs n || (n == a))
contains-snoc [] a n = ground arith
contains-snoc (x ∷ xs) a n = rw (contains-snoc xs a n) (or_assoc (n == x) (contains xs n) (n == a))

either :
    (a b : Bool) {c : Bool}
    → (a ≡ true → c ≡ true)
    → (b ≡ true → c ≡ true)
    → (a || b) ≡ true
    → c ≡ true
either true b f g e = f refl
either false b f g e = g e

snoc_count :
    (c d : Bool) (k : ℕ)
    → (d ≡ true → c ≡ false)
    → k ≡ (if c then 1 else 0)
    → k + ((if d then 1 else 0) + 0) ≡ (if c || d then 1 else 0)
snoc_count true true k h e = cc (h refl)
snoc_count true false k h e = omega (arith, e)
snoc_count false true k h e = omega (arith, e)
snoc_count false false k h e = omega (arith, e)

-- A product that is not pinned and stands on the page is pinned.
snoc-IsMarked :
    (ids : List ℕ) (m : Marks) (r : Rule)
    → contains ids r.product_id ≡ true
    → pinned m r.product_id ≡ false
    → IsMarked ids m
    → IsMarked ids (record m { pins = m.pins ++ (r ∷ []) })
snoc-IsMarked ids m r c new h n =
    let (k, on_page) = h n in
    let (same, _) = ==_iff n r.product_id in
    let xs = map product_of m.pins in
    rw
      (
        map-snoc m.pins r,
        occurrences-append n xs (r.product_id ∷ []),
        contains-snoc xs r.product_id n,
      )
      (
        snoc_count (pinned m n) (n == r.product_id) _ (λ e. ap (pinned m) (same e) ∙ new) k,
        either (pinned m n) (n == r.product_id) on_page (λ e. ap (contains ids) (same e) ∙ c),
      )

pin-IsMarked :
    (ids : List ℕ) (m : Marks) (r : Rule)
    → contains ids r.product_id ≡ true
    → IsMarked ids m
    → IsMarked ids (pin m r)
pin-IsMarked ids m r c h = elim (Bool-cases (pinned m r.product_id)) [
  | inl old ↦ rw old h
  | inr new ↦ rw new (snoc-IsMarked ids m r c new h)
]

by_action :
    (a b c : Bool) (ids : List ℕ) (m : Marks) (r : Rule)
    → contains ids r.product_id ≡ true
    → IsMarked ids m
    → IsMarked ids (
        if a
        then pin m r
        else if b
        then record m { boost = r.product_id ∷ m.boost }
        else if c
        then record m { bury = r.product_id ∷ m.bury }
        else m)
by_action true b c ids m r e h = pin-IsMarked ids m r e h
by_action false true c ids m r e h = h
by_action false false true ids m r e h = h
by_action false false false ids m r e h = h

mark-IsMarked : (ids : List ℕ) (m : Marks) (r : Rule) → IsMarked ids m → IsMarked ids (mark ids m r)
unfolding mark
mark-IsMarked ids m r h = elim (Bool-cases (contains ids r.product_id)) [
  | inr absent ↦ rw absent h
  | inl c ↦ rw c (
      by_action (str_eq r.action "pin") (str_eq r.action "boost") (str_eq r.action "bury") ids m r c
        h)
]

pub mark_all-IsMarked :
    (ids : List ℕ) (rules : List Rule) (m : Marks)
    → IsMarked ids m
    → IsMarked ids (mark_all ids m rules)
unfolding mark_all
mark_all-IsMarked ids [] m h = h
mark_all-IsMarked ids (r ∷ rules) m h =
    mark_all-IsMarked ids rules (mark ids m r) (mark-IsMarked ids m r h)
