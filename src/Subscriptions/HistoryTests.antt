-- ===== src/Subscriptions/HistoryTests.antt =====
-- A subscription that is paused before the daily sweep, and an instance of the theorem.
use teggo.Prelude.{◌≡◌, refl, ℕ, none, [], ◌∷◌, arith}
use teggo.Subscriptions.Dates.{IsDate, days_in, is_leap, add_date, settle, advance_date, leb_date}
use teggo.Subscriptions.{Db, materialize_due}
use teggo.Subscriptions.Schedule.{AreKeyed}
use teggo.Subscriptions.Tests.{day, bolts, nuts, tables, today, world}
use teggo.Subscriptions.Handlers.{
  customer, org, saved, refused, bad_request, not_found, valid_status, valid_cadence, owns,
  get_subscription, put_status, put_next_run, set_status, skip_base, my_skip,
}
use teggo.Subscriptions.Kept.{IsWell, IsScheduled}
use teggo.Subscriptions.History.{stay, go, set, sweep, Reaches-IsScheduled}

abbrev paused : Db
paused = record tables { subscriptions = record bolts { status = "paused" } ∷ nuts ∷ [] }

pauses :
    (set_status (customer 7) 5 "paused" tables ≡ saved paused)
    × (set_status (customer 9) 5 "paused" tables ≡ refused not_found)
    × (set_status (org 1) 5 "closed" tables ≡ refused bad_request)
unfolding set_status get_subscription owns put_status valid_status
pauses = (refl, refl, refl)

skips :
    my_skip 7 5 (day 2 25) tables
    ≡ saved (record tables { subscriptions = record bolts { next_run_date = day 3 4 } ∷ nuts ∷ [] })
unfolding my_skip get_subscription owns put_next_run skip_base leb_date advance_date add_date settle
    days_in is_leap
skips = refl

row-IsWell : (id who : ℕ) → IsWell (record bolts { id = id; customer_id = who })
unfolding valid_status valid_cadence days_in is_leap
row-IsWell id who = record {
  date_is = record { month_in = omega arith; day_in = omega arith };
  status_is = refl;
  cadence_is = refl;
}

tables-IsScheduled : IsScheduled tables
unfolding AreKeyed
tables-IsScheduled = record {
  keyed = ((refl, tt), (tt, tt));
  below = omega arith;
  well = (row-IsWell 5 7, (row-IsWell 6 9, tt));
}

today-IsDate : IsDate today.date
unfolding days_in is_leap
today-IsDate = record { month_in = omega arith; day_in = omega arith }

Reaches-IsScheduled_example : IsScheduled (materialize_due world today paused).0
Reaches-IsScheduled_example =
    Reaches-IsScheduled (λ _. none) tables (materialize_due world today paused).0
      (go (set (customer 7) 5 "paused" pauses.0) (go (sweep world today today-IsDate refl) stay))
      tables-IsScheduled
