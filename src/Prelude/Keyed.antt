-- ===== src/Prelude/Keyed.antt =====
-- Go's map with integer keys, as the list of its entries, and the maps whose entries expire. A time is
-- a number of nanoseconds.
use Prim.Native.Nat.{ℕ}
use mathlib.Core.Path.{◌≡◌, refl, sym, ◌∙◌}
use mathlib.Core.Logic.{◌⊎◌, inl, inr}
use mathlib.Core.Bool.{true, false}
use mathlib.Core.Option.{Option, none, some}
use mathlib.Core.List.{List, [], ◌∷◌}
use native.Mathlib.Omega.{arith}
use teggo.Prelude.Tests.{ltb, ◌==◌, if◌then◌else◌, Bool-cases, ==_iff}

module _ {ℓ} {V : Type ℓ} where
  -- `m[key]`
  unfoldable pub find : ℕ → List (ℕ × V) → Option V
  find key [] = none
  find key ((k, v) ∷ m) = if k == key then some v else find key m

  -- `delete(m, key)`
  unfoldable pub delete : ℕ → List (ℕ × V) → List (ℕ × V)
  delete key [] = []
  delete key ((k, v) ∷ m) = if k == key then delete key m else (k, v) ∷ delete key m

  -- `m[key] = v`
  unfoldable pub assign : ℕ → V → List (ℕ × V) → List (ℕ × V)
  assign key v m = (key, v) ∷ delete key m

  pub find-delete :
      (key k : ℕ) (m : List (ℕ × V))
      → find key (delete k m) ≡ (if k == key then none else find key m)
  unfolding find delete
  find-delete key k [] = ground arith
  find-delete key k ((k', v) ∷ m) = ground (arith, find-delete key k m)

  pub find-assign :
      (key k : ℕ) (v : V) (m : List (ℕ × V))
      → find key (assign k v m) ≡ (if k == key then some v else find key m)
  unfolding find assign
  find-assign key k v m = ground (arith, find-delete key k m)

module _ {ℓ} {V : Type ℓ} where
  injective : (x y : V) → some x ≡ some y → x ≡ y
  injective x y e = cc

  none-some : (x : V) → ¬ (none ≡ some x)
  none-some x e = cc

  -- What is found after an assignment was assigned, or found before.
  pub assign-cases :
      (key k : ℕ) (v w : V) (m : List (ℕ × V))
      → find key (assign k v m) ≡ some w
      → ((k ≡ key) × (v ≡ w)) ⊎ (find key m ≡ some w)
  assign-cases key k v w m h =
      let e = sym (find-assign key k v m) ∙ h in
      elim (Bool-cases (k == key)) [
        | inl own ↦ inl ((==_iff k key).0 own, injective v w (rw own at e))
        | inr other ↦ inr (rw other at e)
      ]

  -- What is found after a deletion is another key's entry, found before.
  pub delete-cases :
      (key k : ℕ) (w : V) (m : List (ℕ × V))
      → find key (delete k m) ≡ some w
      → ((k == key) ≡ false) × (find key m ≡ some w)
  delete-cases key k w m h =
      let e = sym (find-delete key k m) ∙ h in
      elim (Bool-cases (k == key)) [
        | inl own ↦ absurd (none-some w (rw own at e))
        | inr other ↦ (other, rw other at e)
      ]

-- An entry with the time until which it may be served.
pub record Held {ℓ} (V : Type ℓ) : Type ℓ where
  pub value : V
  pub until : ℕ

module _ {ℓ} {V : Type ℓ} where
  -- `ok && now.Before(e.until)`
  abbrev unexpired : ℕ → Option (Held V) → Option V
  unexpired now none = none
  unexpired now (some e) = if ltb now e.until then some e.value else none

  -- `if e, ok := m[key]; ok && now.Before(e.until)`: the value to serve, if any.
  unfoldable pub served : ℕ → ℕ → List (ℕ × Held V) → Option V
  served now key m = unexpired now (find key m)

  unexpired-some :
      (now : ℕ) (o : Option (Held V)) (v : V)
      → unexpired now o ≡ some v
      → (e : Held V) × (o ≡ some e) × (e.value ≡ v) × (ltb now e.until ≡ true)
  unexpired-some now none v h = absurd (ground arith)
  unexpired-some now (some e) v h = elim (Bool-cases (ltb now e.until)) [
    | inl in_time ↦ (e, refl, ground arith, in_time)
    | inr late ↦ absurd (ground arith)
  ]

  pub served-some :
      (now key : ℕ) (m : List (ℕ × Held V)) (v : V)
      → served now key m ≡ some v
      → (e : Held V) × (find key m ≡ some e) × (e.value ≡ v) × (ltb now e.until ≡ true)
  unfolding served
  served-some now key m v h = unexpired-some now (find key m) v h
