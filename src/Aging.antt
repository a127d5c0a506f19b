-- ===== src/Aging.antt =====
-- internal/modules/otc/aging.go: open invoices by how far they are past due. The days overdue of an
-- invoice, 0 where it has no due date, are read from the clock: a field here.
pub mod Fill
pub mod Totals
pub mod Tests
use teggo.Prelude.{
  ℕ, Bool, true, false, Option, none, some, List, [], ◌∷◌, ◌==◌, if◌then◌else◌, leb,
}
use teggo.Prelude.Int.{ℤ, pos, ltb_ℤ}
use teggo.Prelude.Text.{Text, codes}
use teggo.Money.Amount.{sum, or_empty}

pub record Invoice : Type 0 where
  pub public_id : ℕ
  pub grand_total : Text
  pub days_overdue : ℤ

-- The keys of the map `buckets`.
pub data Bucket : Type 0 where
  current : Bucket
  to_30 : Bucket
  to_60 : Bucket
  to_90 : Bucket
  over_90 : Bucket

-- `bucketFor`
unfoldable pub bucket_for : ℤ → Bucket
bucket_for days =
    if ltb_ℤ (pos 0) days
    then if ltb_ℤ (pos 30) days
      then if ltb_ℤ (pos 60) days then if ltb_ℤ (pos 90) days then over_90 else to_90 else to_60
      else to_30
    else current

-- The map `buckets`.
pub record Buckets : Type 0 where
  pub current_total : Text
  pub to_30_total : Text
  pub to_60_total : Text
  pub to_90_total : Text
  pub over_90_total : Text

abbrev pub at : Buckets → Bucket → Text
at b current = b.current_total
at b to_30 = b.to_30_total
at b to_60 = b.to_60_total
at b to_90 = b.to_90_total
at b over_90 = b.over_90_total

abbrev pub put : Buckets → Bucket → Text → Buckets
put b current t = record b { current_total = t }
put b to_30 t = record b { to_30_total = t }
put b to_60 t = record b { to_60_total = t }
put b to_90 t = record b { to_90_total = t }
put b over_90 t = record b { over_90_total = t }

abbrev pub zero_buckets : Buckets
zero_buckets = record {
  current_total = codes "0";
  to_30_total = codes "0";
  to_60_total = codes "0";
  to_90_total = codes "0";
  over_90_total = codes "0";
}

-- `buckets[b], _ = money.Sum(buckets[b], inv.GrandTotal)`
unfoldable pub add_to : Buckets → Bucket → Text → Buckets
add_to b k total = put b k (or_empty (sum (at b k ∷ total ∷ [])))

-- The loop of `invoiceAging`.
unfoldable pub fill : Buckets → List Invoice → Buckets
fill b [] = b
fill b (inv ∷ invoices) = fill (add_to b (bucket_for inv.days_overdue) inv.grand_total) invoices

unfoldable pub open_total : Buckets → Text
open_total b =
    or_empty
      (sum (b.current_total ∷ b.to_30_total ∷ b.to_60_total ∷ b.to_90_total ∷ b.over_90_total ∷ []))

-- `invoiceAging`: the buckets and their total.
unfoldable pub invoice_aging : List Invoice → Buckets × Text
invoice_aging invoices = let buckets = fill zero_buckets invoices in (buckets, open_total buckets)
