-- ===== src/Aging/Fill.antt =====
-- The loop that fills the buckets.
use teggo.Prelude.{
  ◌&&◌, not, arith, ◌≡◌, refl, sym, ◌∙◌, ap, Bool, true, false, List, [], ◌∷◌, All, if◌then◌else◌,
}
use mathlib.Core.Path.{subst}
use teggo.Prelude.Int.{ℤ, pos, ◌+ℤ◌, ltb_ℤ, +ℤ_assoc, +ℤ_zero}
use teggo.Prelude.Text.{Text}
use teggo.Money.Amount.{sum, or_empty}
use teggo.Money.Amount.Exact.{Denotes, sum-Denotes}
use teggo.Money.Amount.Sums.{amount_of, amount_of-Denotes, IsExact, Denotes-IsExact, sum_by}
use teggo.Aging.{
  Invoice, Bucket, current, to_30, to_60, to_90, over_90, bucket_for, Buckets, at, put, add_to,
  fill,
}

abbrev pub AllExact : Buckets → Type 0
AllExact b = (k : Bucket) → IsExact (at b k)

abbrev pub same : Bucket → Bucket → Bool
same current current = true
same to_30 to_30 = true
same to_60 to_60 = true
same to_90 to_90 = true
same over_90 over_90 = true
same _ _ = false

-- The days overdue that a bucket is for.
abbrev pub falls_in : Bucket → ℤ → Bool
falls_in current days = not (ltb_ℤ (pos 0) days)
falls_in to_30 days = ltb_ℤ (pos 0) days && ltb_ℤ days (pos 31)
falls_in to_60 days = ltb_ℤ (pos 30) days && ltb_ℤ days (pos 61)
falls_in to_90 days = ltb_ℤ (pos 60) days && ltb_ℤ days (pos 91)
falls_in over_90 days = ltb_ℤ (pos 90) days

-- What the invoices come to whose days overdue a bucket is for.
abbrev pub due_in : Bucket → List Invoice → ℤ
due_in k = sum_by (λ inv. if falls_in k inv.days_overdue then amount_of inv.grand_total else pos 0)

pub bucket_for_lem : (days : ℤ) (k : Bucket) → same (bucket_for days) k ≡ falls_in k days
unfolding bucket_for
bucket_for_lem days current = ground arith
bucket_for_lem days to_30 = ground arith
bucket_for_lem days to_60 = ground arith
bucket_for_lem days to_90 = ground arith
bucket_for_lem days over_90 = ground arith

sum_two :
    (a b : Text)
    → IsExact a
    → IsExact b
    → Denotes (or_empty (sum (a ∷ b ∷ []))) (amount_of a +ℤ amount_of b)
sum_two a b h k =
    let (t, e, d) = sum-Denotes (a ∷ b ∷ []) (amount_of a ∷ amount_of b ∷ []) (h, (k, tt)) in
    rw e (subst (Denotes t) (ap (λ z. amount_of a +ℤ z) (+ℤ_zero (amount_of b))) d)

at-put :
    (b : Buckets) (k k' : Bucket) (t : Text)
    → at (put b k t) k' ≡ (if same k k' then t else at b k')
at-put b current current t = refl
at-put b current to_30 t = refl
at-put b current to_60 t = refl
at-put b current to_90 t = refl
at-put b current over_90 t = refl
at-put b to_30 current t = refl
at-put b to_30 to_30 t = refl
at-put b to_30 to_60 t = refl
at-put b to_30 to_90 t = refl
at-put b to_30 over_90 t = refl
at-put b to_60 current t = refl
at-put b to_60 to_30 t = refl
at-put b to_60 to_60 t = refl
at-put b to_60 to_90 t = refl
at-put b to_60 over_90 t = refl
at-put b to_90 current t = refl
at-put b to_90 to_30 t = refl
at-put b to_90 to_60 t = refl
at-put b to_90 to_90 t = refl
at-put b to_90 over_90 t = refl
at-put b over_90 current t = refl
at-put b over_90 to_30 t = refl
at-put b over_90 to_60 t = refl
at-put b over_90 to_90 t = refl
at-put b over_90 over_90 t = refl

own_total : (b : Buckets) (k k' : Bucket) → same k k' ≡ true → at b k ≡ at b k'
own_total b current current e = refl
own_total b to_30 to_30 e = refl
own_total b to_60 to_60 e = refl
own_total b to_90 to_90 e = refl
own_total b over_90 over_90 e = refl
own_total b k k' e = cc

one :
    (d : Bool) (b : Buckets) (k k' : Bucket) (t new : Text)
    → (d ≡ true → at b k ≡ at b k')
    → IsExact (at b k')
    → Denotes new (amount_of (at b k) +ℤ amount_of t)
    → Denotes
        (if d then new else at b k')
        (amount_of (at b k') +ℤ (if d then amount_of t else pos 0))
one true b k k' t new own old sum_ =
    subst (λ x. Denotes new (amount_of x +ℤ amount_of t)) (own refl) sum_
one false b k k' t new own old sum_ =
    subst (Denotes (at b k')) (sym (+ℤ_zero (amount_of (at b k')))) old

moved_in : (x y z w : ℤ) → x ≡ y +ℤ z → x +ℤ w ≡ y +ℤ (z +ℤ w)
moved_in x y z w e = ap (λ v. v +ℤ w) e ∙ +ℤ_assoc y z w

added :
    (b : Buckets) (k k' : Bucket) (t : Text)
    → AllExact b
    → IsExact t
    → Denotes
        (at (add_to b k t) k')
        (amount_of (at b k') +ℤ (if same k k' then amount_of t else pos 0))
unfolding add_to
added b k k' t h e =
    rw (at-put b k k' (or_empty (sum (at b k ∷ t ∷ []))))
      (one (same k k') b k k' t _ (own_total b k k') (h k') (sum_two (at b k) t (h k) e))

pub fill-Denotes :
    (b : Buckets) (invoices : List Invoice)
    → AllExact b
    → All (λ inv. IsExact inv.grand_total) invoices
    → AllExact (fill b invoices)
      × ((k : Bucket)
          → amount_of (at (fill b invoices) k) ≡ amount_of (at b k) +ℤ due_in k invoices)
unfolding fill
fill-Denotes b [] h e = (h, λ k. sym (+ℤ_zero (amount_of (at b k))))
fill-Denotes b (inv ∷ invoices) h (e, es) =
    let put_in = bucket_for inv.days_overdue in
    let d = λ (k : Bucket).
      subst
        (λ c.
          Denotes (at (add_to b put_in inv.grand_total) k)
            (amount_of (at b k) +ℤ (if c then amount_of inv.grand_total else pos 0)))
        (bucket_for_lem inv.days_overdue k) (added b put_in k inv.grand_total h e) in
    let (exact, totals) =
      fill-Denotes (add_to b put_in inv.grand_total) invoices (λ k. Denotes-IsExact _ _ (d k)) es in
    (exact, λ k. totals k ∙ moved_in _ _ _ _ (amount_of-Denotes _ _ (d k)))
