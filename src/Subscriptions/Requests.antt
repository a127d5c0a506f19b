-- ===== src/Subscriptions/Requests.antt =====
-- Each request and the sweep keep the schedule well formed, by
-- internal/modules/subscription/handler.go and internal/subscriptions/service.go.
use mathlib.Core.Path.{subst}
use mathlib.Core.Option.{some-injective}
use teggo.Prelude.{
  ◌≡◌, refl, sym, ap, ℕ, ◌+◌, ◌<◌, Bool, true, false, not, ◌||◌, ◌&&◌, Option, none, some, List, [],
  ◌∷◌, ◌++◌, All, All-imp, Bool-cases, inl, inr, arith, ◌==◌, if◌then◌else◌, String, str_eq,
  All-append,
}
use teggo.Prelude.Text.{Text}
use teggo.Subscriptions.Dates.{Date, IsDate, leb_date, advance_date, advance_date-IsDate}
use teggo.Subscriptions.{
  Subscription, Item, Db, World, Time, is_due, run_one, run_now, materialize_due, list_due,
}
use teggo.Subscriptions.Runs.{run_one-IsRun}
use teggo.Subscriptions.Schedule.{
  Rows, AreKeyed, IsSettled, materialize_due-IsSettled, materialize-next, Rows-refl, Rows-map,
}
use teggo.Subscriptions.Handlers.{
  Refusal, Result, refused, saved, valid_cadence, valid_status, Owner, customer, org, owns,
  get_subscription, put_status, put_next_run, LineInput, create_items, with_items, replace_items,
  if_found, set_status, update_subscription, skip_base, my_skip, ran, admin_run_now, with_status,
  with_cadence, edited, skipped, run_active, added, delete_items, bad_request, cancelled,
  not_active, Start, on, unset, malformed, first_run, create_subscription, create, if_website,
  is_empty,
}
use teggo.Subscriptions.Kept.{
  IsWell, IsScheduled, Keeps, Rows-IsScheduled, put_status-Rows, put_next_run-Rows,
  put_cadence-Rows, advance-Rows,
}

saved-injective : {db db' : Db} → saved db ≡ saved db' → db ≡ db'
saved-injective {db} e = ap (saved_or db) e
  where
    saved_or : Db → Result → Db
    saved_or d (saved x) = x
    saved_or d (refused why) = d

if_found-saved :
    (o : Option Subscription) (next : Subscription → Result) (db' : Db)
    → if_found o next ≡ saved db'
    → (s : Subscription) × (o ≡ some s) × (next s ≡ saved db')
if_found-saved none next db' h = absurd (ground arith)
if_found-saved (some s) next db' h = (s, refl, h)

with_items-saved :
    (o : Option (List Item)) (db db' : Db)
    → with_items o db ≡ saved db'
    → (db'.subscriptions ≡ db.subscriptions) × (db'.next_subscription ≡ db.next_subscription)
with_items-saved none db db' h = absurd (ground arith)
with_items-saved (some is) db db' h =
    let e = saved-injective h in
    (ap (λ d. d.subscriptions) (sym e), ap (λ d. d.next_subscription) (sym e))

-- A test that a saved result has passed.
passed :
    (b : Bool) (why : Refusal) (next : Result) (db' : Db)
    → (if b then refused why else next) ≡ saved db'
    → (b ≡ false) × (next ≡ saved db')
passed true why next db' h = absurd (ground arith)
passed false why next db' h = (refl, h)

not-false : (b : Bool) → not b ≡ false → b ≡ true
not-false true h = refl
not-false false h = cc

or_false : (a b : Bool) → a || b ≡ false → (a ≡ false) × (b ≡ false)
or_false true b h = cc
or_false false b h = (refl, h)

pub set_status-IsScheduled :
    (who : Owner) (id : ℕ) (status : String) (db db' : Db)
    → set_status who id status db ≡ saved db'
    → IsScheduled db
    → IsScheduled db'
unfolding set_status
set_status-IsScheduled who id status db db' h v =
    let (ok, h₁) = passed (not (valid_status status)) bad_request _ db' h in
    let (s, _, h₂) =
      if_found-saved (get_subscription who id db.subscriptions) (with_status status db) db' h₁ in
    subst IsScheduled (saved-injective h₂) (
      Rows-IsScheduled db (record db { subscriptions = put_status s.id status db.subscriptions })
        (put_status-Rows s.id status db.subscriptions (not-false (valid_status status) ok)) refl v)

pub update-IsScheduled :
    (sku_of : ℕ → Option Text) (who : Owner) (id : ℕ) (cadence : String) (its : List LineInput)
    (db db' : Db)
    → update_subscription sku_of who id cadence its db ≡ saved db'
    → IsScheduled db
    → IsScheduled db'
unfolding update_subscription replace_items
update-IsScheduled sku_of who id cadence its db db' h v =
    let (ok, h₁) = passed (not (valid_cadence cadence) || is_empty its) bad_request _ db' h in
    let (s, _, h₂) =
      if_found-saved (get_subscription who id db.subscriptions) (edited sku_of cadence its db) db'
        h₁ in
    let (_, h₃) =
      passed (str_eq s.status "cancelled") cancelled
        (replace_items sku_of s.id its (with_cadence s cadence db)) db' h₂ in
    let changed = with_cadence s cadence db in
    let (rows, next) =
      with_items-saved (create_items sku_of s.id its)
        (record changed { items = delete_items s.id changed.items }) db' h₃ in
    Rows-IsScheduled db db'
      (subst (λ x. Rows Keeps db.subscriptions x) (sym rows)
        (put_cadence-Rows s.id cadence db.subscriptions (
          not-false (valid_cadence cadence)
            (or_false (not (valid_cadence cadence)) (is_empty its) ok).0)))
      next v

found-IsWell :
    (who : Owner) (id : ℕ) (ss : List Subscription) (s : Subscription)
    → get_subscription who id ss ≡ some s
    → All IsWell ss
    → IsWell s
unfolding get_subscription
found-IsWell who id [] s h w = absurd (ground arith)
found-IsWell who id (x ∷ xs) s h (w, ws) = elim (Bool-cases (owns who x && x.id == id)) [
  | inl own ↦ subst IsWell (some-injective _ _ (rw own at h)) w
  | inr other ↦ found-IsWell who id xs s (rw other at h) ws
]

skip_base-IsDate : (next today : Date) → IsDate next → IsDate today → IsDate (skip_base next today)
unfolding skip_base
skip_base-IsDate next today v t = elim (Bool-cases (leb_date next today)) [
  | inl past ↦ rw past t
  | inr ahead ↦ rw ahead v
]

ran-saved :
    (o : Option (Db × Bool)) (db' : Db) → ran o ≡ saved db' → (b : Bool) × (o ≡ some (db', b))
ran-saved none db' h = absurd (ground arith)
ran-saved (some (db, b)) db' h = (b, ap (λ d. some (d, b)) (saved-injective h))

pub skip-IsScheduled :
    (who id : ℕ) (today : Date) (db db' : Db)
    → IsDate today
    → my_skip who id today db ≡ saved db'
    → IsScheduled db
    → IsScheduled db'
unfolding my_skip
skip-IsScheduled who id today db db' t h v =
    let (s, found, h₁) =
      if_found-saved (get_subscription (customer who) id db.subscriptions) (skipped today db) db'
        h in
    let base : IsDate (skip_base s.next_run_date today) =
      skip_base-IsDate s.next_run_date today
        (found-IsWell (customer who) id db.subscriptions s found v.well).date_is t in
    subst IsScheduled (saved-injective h₁) (
      Rows-IsScheduled db
        (record db {
          subscriptions =
              put_next_run s.id (advance_date s.cadence (skip_base s.next_run_date today))
                db.subscriptions;
        })
        (put_next_run-Rows s.id _ db.subscriptions
          (advance_date-IsDate s.cadence (skip_base s.next_run_date today) base).0)
        refl v)

pub run_now-IsScheduled :
    (w : World) (o id : ℕ) (now : Time) (db db' : Db)
    → IsDate now.date
    → admin_run_now w o id now db ≡ saved db'
    → IsScheduled db
    → IsScheduled db'
unfolding admin_run_now run_now
run_now-IsScheduled w o id now db db' t h v =
    let (s, _, h₁) =
      if_found-saved (get_subscription (org o) id db.subscriptions) (run_active w now db) db' h in
    let (_, h₂) = passed (not (str_eq s.status "active")) not_active _ db' h₁ in
    let (b, e) = ran-saved (run_one w s now db) db' h₂ in
    let run = run_one-IsRun w s now db db' b e in
    Rows-IsScheduled db db'
      (subst (λ x. Rows Keeps db.subscriptions x) (sym run.schedule)
        (advance-Rows s.id _ now.instant db.subscriptions
          (advance_date-IsDate s.cadence now.date t).0))
      run.same_next_id v

-- A start date that is given is a date: `time.Parse` returns no other.
abbrev pub IsStart : Start → Type 0
IsStart unset = Unit
IsStart (on d) = IsDate d
IsStart malformed = Unit

keyed-append :
    (ss : List Subscription) (s : Subscription)
    → AreKeyed ss
    → All (λ t. t.id < s.id) ss
    → AreKeyed (ss ++ (s ∷ []))
unfolding AreKeyed
keyed-append [] s k h = (tt, tt)
keyed-append (x ∷ xs) s (f, k) (h, hs) = (
  All-append (λ t. (t.id == x.id) ≡ false) xs (s ∷ []) f (ground (arith, h), tt),
  keyed-append xs s k hs,
)

added-IsScheduled :
    (o who : ℕ) (user : Option ℕ) (currency cadence : String) (next : Date) (db : Db)
    → IsDate next
    → valid_cadence cadence ≡ true
    → IsScheduled db
    → IsScheduled (added o who user currency cadence next db)
unfolding valid_status
added-IsScheduled o who user currency cadence next db d c v = record {
  keyed = keyed-append db.subscriptions _ v.keyed v.below;
  below =
      All-append (λ s. s.id < db.next_subscription + 1) db.subscriptions _
        (All-imp db.subscriptions (λ s h. omega (arith, h)) v.below) (omega arith, tt);
  well =
      All-append IsWell db.subscriptions _ v.well
        (record { date_is = d; status_is = refl; cadence_is = c }, tt);
}

if_website-saved :
    (o : Option String) (next : String → Result) (db' : Db)
    → if_website o next ≡ saved db'
    → (currency : String) × (next currency ≡ saved db')
if_website-saved none next db' h = absurd (ground arith)
if_website-saved (some c) next db' h = (c, h)

-- The schedule does not depend on the other tables.
same-IsScheduled :
    (db db' : Db)
    → db'.subscriptions ≡ db.subscriptions
    → db'.next_subscription ≡ db.next_subscription
    → IsScheduled db
    → IsScheduled db'
same-IsScheduled db db' e n v =
    Rows-IsScheduled db db'
      (subst (λ x. Rows Keeps db.subscriptions x) (sym e)
        (Rows-refl Keeps db.subscriptions (λ s. (refl, λ h. h))))
      n v

created-IsScheduled :
    (sku_of : ℕ → Option Text) (o who : ℕ) (user : Option ℕ) (cadence : String)
    (its : List LineInput) (db db' : Db) (next : Option Date) (currency : String)
    → ((d : Date) → next ≡ some d → IsDate d)
    → valid_cadence cadence ≡ true
    → create_subscription sku_of o who user cadence its db next currency ≡ saved db'
    → IsScheduled db
    → IsScheduled db'
unfolding create_subscription
created-IsScheduled sku_of o who user cadence its db db' none currency d c h v =
    absurd (ground arith)
created-IsScheduled sku_of o who user cadence its db db' (some next) currency d c h v =
    let new = added o who user currency cadence next db in
    let (rows, ids) = with_items-saved (create_items sku_of db.next_subscription its) new db' h in
    same-IsScheduled new db' rows ids
      (added-IsScheduled o who user currency cadence next db (d next refl) c v)

first_run-IsDate :
    (start : Start) (cadence : String) (today d : Date)
    → IsStart start
    → IsDate today
    → first_run start cadence today ≡ some d
    → IsDate d
first_run-IsDate unset cadence today d s t h =
    subst IsDate (some-injective _ _ h) (advance_date-IsDate cadence today t).0
first_run-IsDate (on x) cadence today d s t h = subst IsDate (some-injective _ _ h) s
first_run-IsDate malformed cadence today d s t h = absurd (ground arith)

pub create-IsScheduled :
    (sku_of : ℕ → Option Text) (o who : ℕ) (user : Option ℕ) (website : Option String)
    (cadence : String) (start : Start) (its : List LineInput) (today : Date) (db db' : Db)
    → IsDate today
    → IsStart start
    → create sku_of o who user website cadence start its today db ≡ saved db'
    → IsScheduled db
    → IsScheduled db'
unfolding create
create-IsScheduled sku_of o who user website cadence start its today db db' t s h v =
    let (ok, h₁) = passed (not (valid_cadence cadence) || is_empty its) bad_request _ db' h in
    let (currency, h₂) =
      if_website-saved website
        (create_subscription sku_of o who user cadence its db (first_run start cadence today)) db'
        h₁ in
    created-IsScheduled sku_of o who user cadence its db db' (first_run start cadence today)
      currency (λ d e. first_run-IsDate start cadence today d s t e)
      (not-false (valid_cadence cadence)
        (or_false (not (valid_cadence cadence)) (is_empty its) ok).0)
      h₂ v

settled-Keeps :
    (w : World) (today : Time) (db : Db) (s t : Subscription)
    → IsDate today.date
    → IsSettled w today db s t
    → Keeps s t
settled-Keeps w today db s t d (idle, due) = elim (Bool-cases (is_due today.date s)) [
  | inl yes_due ↦ elim (due yes_due) [
    | inl (same, _) ↦ subst (Keeps s) (sym same) (refl, λ h. h)
    | inr (moved, _) ↦ subst (Keeps s) (sym moved) (
      refl,
      λ h. record {
        date_is = (advance_date-IsDate s.cadence today.date d).0;
        status_is = h.status_is;
        cadence_is = h.cadence_is;
      },
    )
  ]
  | inr not_due ↦ subst (Keeps s) (sym (idle not_due)) (refl, λ h. h)
]

pub sweep-IsScheduled :
    (w : World) (today : Time) (db : Db)
    → IsDate today.date
    → IsScheduled db
    → IsScheduled (materialize_due w today db).0
unfolding materialize_due
sweep-IsScheduled w today db d v =
    let (rows, _) = materialize_due-IsSettled w today db d v.keyed in
    Rows-IsScheduled db (materialize_due w today db).0
      (Rows-map db.subscriptions _ (λ s t. settled-Keeps w today db s t d) rows)
      (materialize-next w today (list_due today.date db.subscriptions) 0 db) v
