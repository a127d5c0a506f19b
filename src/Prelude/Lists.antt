-- ===== src/Prelude/Lists.antt =====
-- Lists measured by native numbers, membership tests, and predicates on all elements.
use Prim.Native.Nat.{ℕ, suc, ◌+◌}
use mathlib.Core.Path.{◌≡◌, refl, sym, subst}
use mathlib.Core.Bool.{Bool, false, ◌||◌}
use mathlib.Core.List.{List, [], ◌∷◌, ◌++◌, Memᴰ}
use native.Mathlib.Omega.{arith}
use teggo.Prelude.Tests.{◌==◌, if◌then◌else◌}

module _ {ℓ} {A : Type ℓ} where
  abbrev pub length : List A → ℕ
  length [] = 0
  length (x ∷ xs) = suc (length xs)

  pub length-append : (xs ys : List A) → length (xs ++ ys) ≡ length xs + length ys
  length-append [] ys = omega arith
  length-append (x ∷ xs) ys = omega (arith, length-append xs ys)

  abbrev pub All {κ} : (A → Type κ) → List A → Type κ
  All P [] = Unit
  All P (x ∷ xs) = P x × All P xs

  pub All-append {κ} : (P : A → Type κ) (xs ys : List A) → All P xs → All P ys → All P (xs ++ ys)
  All-append P [] ys _ q = q
  All-append P (x ∷ xs) ys (p, ps) q = (p, All-append P xs ys ps q)

-- Go's set of ids, `map[int64]bool`, as the list of the keys put in.
abbrev pub contains : List ℕ → ℕ → Bool
contains [] a = false
contains (x ∷ xs) a = a == x || contains xs a

-- How often a number stands in a list.
abbrev pub occurrences : ℕ → List ℕ → ℕ
occurrences n [] = 0
occurrences n (m ∷ ms) = (if n == m then 1 else 0) + occurrences n ms

pub occurrences-append :
    (n : ℕ) (front back : List ℕ)
    → occurrences n (front ++ back) ≡ occurrences n front + occurrences n back
occurrences-append n [] back = omega arith
occurrences-append n (m ∷ ms) back = omega (arith, occurrences-append n ms back)

-- A property of all elements holds of each member.
pub All-Memᴰ {ℓ κ} :
    {A : Type ℓ} (P : A → Type κ) {a : A} (xs : List A) → All P xs → Memᴰ a xs → P a
All-Memᴰ P [] h m = elim m [ ]
All-Memᴰ P (x ∷ xs) (p, ps) (Memᴰ.head e) = subst P (sym e) p
All-Memᴰ P (x ∷ xs) (p, ps) (Memᴰ.tail m) = All-Memᴰ P xs ps m

pub All-imp {ℓ κ μ} :
    {A : Type ℓ} {P : A → Type κ} {Q : A → Type μ} (xs : List A)
    → ((a : A) → P a → Q a)
    → All P xs
    → All Q xs
All-imp [] f h = tt
All-imp (x ∷ xs) f (p, ps) = (f x p, All-imp xs f ps)

-- Every element of a list is a member of it.
pub All-members {ℓ} : {A : Type ℓ} (xs : List A) → All (λ a. Memᴰ a xs) xs
All-members [] = tt
All-members (x ∷ xs) = (Memᴰ.head refl, All-imp xs (λ a m. Memᴰ.tail m) (All-members xs))
