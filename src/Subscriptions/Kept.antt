-- ===== src/Subscriptions/Kept.antt =====
-- What a change of rows keeps of the schedule of subscriptions.

use teggo.Prelude.{
  ◌≡◌, refl, ℕ, ◌<◌, Bool, true, false, some, List, [], ◌∷◌, All, ◌==◌, if◌then◌else◌, String,
}
use teggo.Subscriptions.Dates.{Date, IsDate}
use teggo.Subscriptions.{Subscription, Db, advance_subscription}
use teggo.Subscriptions.Schedule.{Rows, AreKeyed}
use teggo.Subscriptions.Handlers.{
  valid_cadence, valid_status, put_status, put_next_run, put_cadence,
}

-- A row that the columns' checks allow: a date of the calendar, a status and a cadence.
pub record IsWell (s : Subscription) : Type 0 where
  pub date_is : IsDate s.next_run_date
  pub status_is : valid_status s.status ≡ true
  pub cadence_is : valid_cadence s.cadence ≡ true

-- Well-formed rows under distinct ids, all given out before.
pub record IsScheduled (db : Db) : Type 0 where
  pub keyed : AreKeyed db.subscriptions
  pub below : All (λ s. s.id < db.next_subscription) db.subscriptions
  pub well : All IsWell db.subscriptions

-- A row is replaced by a well-formed one with its id.
abbrev pub Keeps : Subscription → Subscription → Type 0
Keeps s s' = (s'.id ≡ s.id) × (IsWell s → IsWell s')

fresh-Rows :
    (id : ℕ) (xs ys : List Subscription)
    → Rows Keeps xs ys
    → All (λ t. (t.id == id) ≡ false) xs
    → All (λ t. (t.id == id) ≡ false) ys
fresh-Rows id [] [] r h = tt
fresh-Rows id [] (y ∷ ys) r h = absurd r
fresh-Rows id (x ∷ xs) [] r h = absurd r
fresh-Rows id (x ∷ xs) (y ∷ ys) ((e, _), r) (h, hs) = (rw e h, fresh-Rows id xs ys r hs)

keyed-Rows : (xs ys : List Subscription) → Rows Keeps xs ys → AreKeyed xs → AreKeyed ys
unfolding AreKeyed
keyed-Rows [] [] r h = tt
keyed-Rows [] (y ∷ ys) r h = absurd r
keyed-Rows (x ∷ xs) [] r h = absurd r
keyed-Rows (x ∷ xs) (y ∷ ys) ((e, k), r) (h, hs) =
    (rw e (fresh-Rows x.id xs ys r h), keyed-Rows xs ys r hs)

below-Rows :
    (n : ℕ) (xs ys : List Subscription)
    → Rows Keeps xs ys
    → All (λ s. s.id < n) xs
    → All (λ s. s.id < n) ys
below-Rows n [] [] r h = tt
below-Rows n [] (y ∷ ys) r h = absurd r
below-Rows n (x ∷ xs) [] r h = absurd r
below-Rows n (x ∷ xs) (y ∷ ys) ((e, _), r) (h, hs) = (rw e h, below-Rows n xs ys r hs)

IsWell-Rows : (xs ys : List Subscription) → Rows Keeps xs ys → All IsWell xs → All IsWell ys
IsWell-Rows [] [] r h = tt
IsWell-Rows [] (y ∷ ys) r h = absurd r
IsWell-Rows (x ∷ xs) [] r h = absurd r
IsWell-Rows (x ∷ xs) (y ∷ ys) ((_, k), r) (h, hs) = (k h, IsWell-Rows xs ys r hs)

-- Such replacements keep the schedule.
pub Rows-IsScheduled :
    (db db' : Db)
    → Rows Keeps db.subscriptions db'.subscriptions
    → db'.next_subscription ≡ db.next_subscription
    → IsScheduled db
    → IsScheduled db'
Rows-IsScheduled db db' r e h = record {
  keyed = keyed-Rows db.subscriptions db'.subscriptions r h.keyed;
  below = rw e (below-Rows db.next_subscription db.subscriptions db'.subscriptions r h.below);
  well = IsWell-Rows db.subscriptions db'.subscriptions r h.well;
}

chosen-Keeps : (own : Bool) (s t : Subscription) → Keeps s t → Keeps s (if own then t else s)
chosen-Keeps true s t k = k
chosen-Keeps false s t k = (refl, λ h. h)

pub put_status-Rows :
    (id : ℕ) (status : String) (ss : List Subscription)
    → valid_status status ≡ true
    → Rows Keeps ss (put_status id status ss)
unfolding put_status
put_status-Rows id status [] v = tt
put_status-Rows id status (s ∷ ss) v = (
  chosen-Keeps (s.id == id) s (record s { status = status })
      (refl, λ h. record { date_is = h.date_is; status_is = v; cadence_is = h.cadence_is }),
  put_status-Rows id status ss v,
)

pub put_next_run-Rows :
    (id : ℕ) (next : Date) (ss : List Subscription)
    → IsDate next
    → Rows Keeps ss (put_next_run id next ss)
unfolding put_next_run
put_next_run-Rows id next [] v = tt
put_next_run-Rows id next (s ∷ ss) v = (
  chosen-Keeps (s.id == id) s (record s { next_run_date = next })
      (refl, λ h. record { date_is = v; status_is = h.status_is; cadence_is = h.cadence_is }),
  put_next_run-Rows id next ss v,
)

pub put_cadence-Rows :
    (id : ℕ) (cadence : String) (ss : List Subscription)
    → valid_cadence cadence ≡ true
    → Rows Keeps ss (put_cadence id cadence ss)
unfolding put_cadence
put_cadence-Rows id cadence [] v = tt
put_cadence-Rows id cadence (s ∷ ss) v = (
  chosen-Keeps (s.id == id) s (record s { cadence = cadence })
      (refl, λ h. record { date_is = h.date_is; status_is = h.status_is; cadence_is = v }),
  put_cadence-Rows id cadence ss v,
)

pub advance-Rows :
    (id : ℕ) (next : Date) (at : ℕ) (ss : List Subscription)
    → IsDate next
    → Rows Keeps ss (advance_subscription id next at ss)
unfolding advance_subscription
advance-Rows id next at [] v = tt
advance-Rows id next at (s ∷ ss) v = (
  chosen-Keeps (s.id == id) s (record s { next_run_date = next; last_run_at = some at })
      (refl, λ h. record { date_is = v; status_is = h.status_is; cadence_is = h.cadence_is }),
  advance-Rows id next at ss v,
)
