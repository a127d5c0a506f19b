-- ===== src/Subscriptions/History.antt =====
-- What every history of subscriptions keeps, by internal/modules/subscription/handler.go and
-- internal/subscriptions/service.go.
use mathlib.Core.Path.{subst}
use teggo.Prelude.{◌≡◌, ℕ, Option, List, String}
use teggo.Prelude.Text.{Text}
use teggo.Subscriptions.Dates.{Date, IsDate}
use teggo.Subscriptions.{Db, World, Time, materialize_due}
use teggo.Subscriptions.Handlers.{
  saved, Owner, LineInput, set_status, update_subscription, my_skip, admin_run_now, Start, create,
}
use teggo.Subscriptions.Kept.{IsScheduled}
use teggo.Subscriptions.Requests.{
  IsStart, set_status-IsScheduled, update-IsScheduled, skip-IsScheduled, run_now-IsScheduled,
  create-IsScheduled, sweep-IsScheduled,
}

-- One request that is saved, or one sweep, on a date of the calendar.
pub data Step (sku_of : ℕ → Option Text) : Db → Db → Type 0 where
  set :
      (who : Owner) (id : ℕ) (status : String) {db db' : Db}
      → set_status who id status db ≡ saved db'
      → Step sku_of db db'
  update :
      (who : Owner) (id : ℕ) (cadence : String) (its : List LineInput) {db db' : Db}
      → update_subscription sku_of who id cadence its db ≡ saved db'
      → Step sku_of db db'
  skip :
      (who id : ℕ) (today : Date) {db db' : Db}
      → IsDate today
      → my_skip who id today db ≡ saved db'
      → Step sku_of db db'
  run :
      (w : World) (o id : ℕ) (now : Time) {db db' : Db}
      → IsDate now.date
      → admin_run_now w o id now db ≡ saved db'
      → Step sku_of db db'
  begin :
      (o who : ℕ) (user : Option ℕ) (website : Option String) (cadence : String) (start : Start)
      (its : List LineInput) (today : Date) {db db' : Db}
      → IsDate today
      → IsStart start
      → create sku_of o who user website cadence start its today db ≡ saved db'
      → Step sku_of db db'
  sweep :
      (w : World) (today : Time) {db db' : Db}
      → IsDate today.date
      → (materialize_due w today db).0 ≡ db'
      → Step sku_of db db'

Step-IsScheduled :
    (sku_of : ℕ → Option Text) (db db' : Db) → Step sku_of db db' → IsScheduled db → IsScheduled db'
Step-IsScheduled sku_of db db' (set who id status h) v =
    set_status-IsScheduled who id status db db' h v
Step-IsScheduled sku_of db db' (update who id cadence its h) v =
    update-IsScheduled sku_of who id cadence its db db' h v
Step-IsScheduled sku_of db db' (skip who id today d h) v =
    skip-IsScheduled who id today db db' d h v
Step-IsScheduled sku_of db db' (run w o id now d h) v = run_now-IsScheduled w o id now db db' d h v
Step-IsScheduled sku_of db db' (begin o who user website cadence start its today d s h) v =
    create-IsScheduled sku_of o who user website cadence start its today db db' d s h v
Step-IsScheduled sku_of db db' (sweep w today d h) v =
    subst IsScheduled h (sweep-IsScheduled w today db d v)

pub data Reaches (sku_of : ℕ → Option Text) : Db → Db → Type 0 where
  stay : {db : Db} → Reaches sku_of db db
  go : {db db' db'' : Db} → Step sku_of db db' → Reaches sku_of db' db'' → Reaches sku_of db db''

-- Whatever subscriptions are created, edited, paused, resumed, cancelled, skipped and run, by hand or
-- by the daily sweep, on dates of the calendar: from tables where all ids are distinct and were given
-- out, and all rows have a date of the calendar and a status and a cadence that are known, only such
-- tables are reached.
pub Reaches-IsScheduled :
    (sku_of : ℕ → Option Text) (db db' : Db)
    → Reaches sku_of db db'
    → IsScheduled db
    → IsScheduled db'
Reaches-IsScheduled sku_of db db' stay v = v
Reaches-IsScheduled sku_of db db'' (go {db' = mid} s r) v =
    Reaches-IsScheduled sku_of mid db'' r (Step-IsScheduled sku_of db mid s v)
