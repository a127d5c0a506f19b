-- ===== src/Subscriptions/Schedule.antt =====
-- What `MaterializeDue` of internal/subscriptions/service.go does to the schedule.
use mathlib.Core.Path.{subst}
use teggo.Prelude.{
  ◌≡◌, refl, sym, ◌∙◌, ap, ℕ, ◌+◌, Bool, true, false, none, some, List, [], ◌∷◌, length, All, Memᴰ,
  All-members, All-Memᴰ, Option-cases, Bool-cases, ◌⊎◌, inl, inr, arith, ◌==◌, if◌then◌else◌,
}
use teggo.Subscriptions.Dates.{Date, IsDate, advance_date, advance_date-later}
use teggo.Subscriptions.{
  Subscription, Db, World, Time, advance_subscription, run_one, is_due, list_due, after_run,
  materialize, materialize_due,
}
use teggo.Subscriptions.Runs.{run_one-IsRun}

-- The row of a subscription after a run of d.
abbrev pub advanced : Time → Subscription → Subscription → Subscription
advanced today d s = record s {
  next_run_date = advance_date d.cadence today.date;
  last_run_at = some today.instant;
}

-- A relation between the rows of two tables, place by place.
abbrev pub Rows :
    (Subscription → Subscription → Type 0) → List Subscription → List Subscription → Type 0
Rows R [] [] = Unit
Rows R [] (t ∷ ts) = ⊥
Rows R (s ∷ ss) [] = ⊥
Rows R (s ∷ ss) (t ∷ ts) = R s t × Rows R ss ts

-- Each run of the subscription with the id, in the loop from the given tables, is an error.
abbrev pub RunsFail : World → Time → ℕ → List Subscription → ℕ → Db → Type 0
RunsFail w today id [] created db = Unit
RunsFail w today id (d ∷ due) created db =
    ((d.id == id) ≡ true → run_one w d today db ≡ none)
    × (let (db', created') = after_run (run_one w d today db) db created in
        RunsFail w today id due created' db')

-- What the loop over a list makes of a row: it stays, and the runs of its subscription were errors, or
-- one of them was committed.
abbrev Outcome : World → Time → List Subscription → ℕ → Db → Subscription → Subscription → Type 0
Outcome w today due created db s s' =
    ((s' ≡ s) × RunsFail w today s.id due created db)
    ⊎ ((d : Subscription) × Memᴰ d due × ((d.id == s.id) ≡ true) × (s' ≡ advanced today d s))

pub Rows-map :
    {R S : Subscription → Subscription → Type 0} (xs ys : List Subscription)
    → ((s t : Subscription) → R s t → S s t)
    → Rows R xs ys
    → Rows S xs ys
Rows-map [] [] f h = tt
Rows-map [] (y ∷ ys) f h = absurd h
Rows-map (x ∷ xs) [] f h = absurd h
Rows-map (x ∷ xs) (y ∷ ys) f (r, h) = (f x y r, Rows-map xs ys f h)

pub Rows-refl :
    (R : Subscription → Subscription → Type 0) (xs : List Subscription)
    → ((s : Subscription) → R s s)
    → Rows R xs xs
Rows-refl R [] f = tt
Rows-refl R (x ∷ xs) f = (f x, Rows-refl R xs f)

module _ (w : World) (today : Time) (d : Subscription) (due : List Subscription) (created : ℕ)
    (db : Db) where
  -- A run that is committed moves the rows of its subscription.
  committed_row :
      (created' : ℕ) (db' : Db) (own : Bool) (s t : Subscription) (b : Bool)
      → run_one w d today db ≡ some (db', b)
      → after_run (run_one w d today db) db created ≡ (db', created')
      → (s.id == d.id) ≡ own
      → Outcome w today due created' db' (if own then advanced today d s else s) t
      → Outcome w today (d ∷ due) created db s t
  committed_row created' db' true s t b e k own (inl (same, _)) =
      inr (d, Memᴰ.head refl, ground (arith, own), same)
  committed_row created' db' true s t b e k own (inr (d', m, key, same)) =
      inr (d', Memᴰ.tail m, key, same)
  committed_row created' db' false s t b e k own (inl (same, fails)) =
      inl (same, ((λ key. ground (arith, own, key)), rw k fails))
  committed_row created' db' false s t b e k own (inr (d', m, key, same)) =
      inr (d', Memᴰ.tail m, key, same)

  committed-Rows :
      (created' : ℕ) (db' : Db) (b : Bool) (ss ts : List Subscription)
      → run_one w d today db ≡ some (db', b)
      → after_run (run_one w d today db) db created ≡ (db', created')
      → Rows
          (Outcome w today due created' db')
          (advance_subscription d.id (advance_date d.cadence today.date) today.instant ss)
          ts
      → Rows (Outcome w today (d ∷ due) created db) ss ts
  unfolding advance_subscription
  committed-Rows created' db' b [] [] e k h = tt
  committed-Rows created' db' b [] (t ∷ ts) e k h = absurd h
  committed-Rows created' db' b (s ∷ ss) [] e k h = absurd h
  committed-Rows created' db' b (s ∷ ss) (t ∷ ts) e k (o, h) = (
    committed_row created' db' (s.id == d.id) s t b e k refl o,
    committed-Rows created' db' b ss ts e k h,
  )

  -- A run that is an error leaves the tables as they are.
  failed_row :
      (s t : Subscription)
      → run_one w d today db ≡ none
      → Outcome w today due created db s t
      → Outcome w today (d ∷ due) created db s t
  failed_row s t e (inl (same, fails)) = inl (same, ((λ key. e), rw e fails))
  failed_row s t e (inr (d', m, key, same)) = inr (d', Memᴰ.tail m, key, same)

after_run-some :
    (db' : Db) (b : Bool) (db : Db) (created : ℕ)
    → after_run (some (db', b)) db created ≡ (db', if b then created + 1 else created)
after_run-some db' true db created = refl
after_run-some db' false db created = refl

materialize-Rows :
    (w : World) (today : Time) (due : List Subscription) (created : ℕ) (db : Db)
    → Rows
        (Outcome w today due created db)
        db.subscriptions
        (materialize w today due created db).0.subscriptions
unfolding materialize
materialize-Rows w today [] created db = Rows-refl _ db.subscriptions (λ s. inl (refl, tt))
materialize-Rows w today (d ∷ due) created db = elim (Option-cases (run_one w d today db)) [
  | inl e ↦
      rw (e, materialize)
        (Rows-map db.subscriptions _ (λ s t. failed_row w today d due created db s t e)
          (materialize-Rows w today due created db))
  | inr ((db', b), e) ↦
      let more : ℕ = if b then created + 1 else created in
      let k : after_run (run_one w d today db) db created ≡ (db', more) =
        ap (λ o. after_run o db created) e ∙ after_run-some db' b db created in
      let run = run_one-IsRun w d today db db' b e in
      subst
        (λ r.
          Rows (Outcome w today (d ∷ due) created db) db.subscriptions
            (materialize w today due r.1 r.0).0.subscriptions)
        (sym k)
        (committed-Rows w today d due created db more db' b db.subscriptions _ e k (
          subst
            (λ x.
              Rows (Outcome w today due more db') x
                (materialize w today due more db').0.subscriptions)
            run.schedule (materialize-Rows w today due more db')))
]

-- No two subscriptions have the same id.
unfoldable pub AreKeyed : List Subscription → Type 0
AreKeyed [] = Unit
AreKeyed (s ∷ ss) = All (λ t. (t.id == s.id) ≡ false) ss × AreKeyed ss

keyed_member :
    (ss : List Subscription) (s d : Subscription)
    → AreKeyed ss
    → Memᴰ s ss
    → Memᴰ d ss
    → (d.id == s.id) ≡ true
    → d ≡ s
unfolding AreKeyed
keyed_member [] s d k m n key = elim m [ ]
keyed_member (x ∷ xs) s d (h, k) (Memᴰ.head e) (Memᴰ.head f) key = f ∙ sym e
keyed_member (x ∷ xs) s d (h, k) (Memᴰ.head e) (Memᴰ.tail n) key =
    let no = All-Memᴰ (λ t. (t.id == x.id) ≡ false) xs h n in cc (sym no ∙ rw e at key)
keyed_member (x ∷ xs) s d (h, k) (Memᴰ.tail m) (Memᴰ.head f) key =
    let no = All-Memᴰ (λ t. (t.id == x.id) ≡ false) xs h m in
    absurd (ground (arith, no, rw f at key))
keyed_member (x ∷ xs) s d (h, k) (Memᴰ.tail m) (Memᴰ.tail n) key = keyed_member xs s d k m n key

list_due-Memᴰ :
    (today : Date) (ss : List Subscription) (d : Subscription)
    → Memᴰ d (list_due today ss)
    → Memᴰ d ss × (is_due today d ≡ true)
unfolding list_due
list_due-Memᴰ today [] d m = elim m [ ]
list_due-Memᴰ today (s ∷ ss) d m = elim (Bool-cases (is_due today s)) [
  | inl due ↦ from_head due (list_due-Memᴰ today ss d) (rw due at m)
  | inr not_due ↦ let (n, h) = list_due-Memᴰ today ss d (rw not_due at m) in (Memᴰ.tail n, h)
]
  where
    from_head :
        is_due today s ≡ true
        → (Memᴰ d (list_due today ss) → Memᴰ d ss × (is_due today d ≡ true))
        → Memᴰ d (s ∷ list_due today ss)
        → Memᴰ d (s ∷ ss) × (is_due today d ≡ true)
    from_head due ih (Memᴰ.head e) = (Memᴰ.head e, ap (is_due today) e ∙ due)
    from_head due ih (Memᴰ.tail n) = let (k, h) = ih n in (Memᴰ.tail k, h)

-- The row of a subscription before and after the sweep.
abbrev pub IsSettled : World → Time → Db → Subscription → Subscription → Type 0
IsSettled w today db s s' =
    (is_due today.date s ≡ false → s' ≡ s)
    × (is_due today.date s ≡ true
        → ((s' ≡ s) × RunsFail w today s.id (list_due today.date db.subscriptions) 0 db)
          ⊎ ((s' ≡ advanced today s s) × (is_due today.date s' ≡ false)))

advanced_not_due :
    (today : Time) (s : Subscription)
    → IsDate today.date
    → is_due today.date (advanced today s s) ≡ false
advanced_not_due today s v = rw (advance_date-later s.cadence today.date v) (ground arith)

outcome-IsSettled :
    (w : World) (today : Time) (db : Db) (s t : Subscription)
    → IsDate today.date
    → AreKeyed db.subscriptions
    → Memᴰ s db.subscriptions
    → Outcome w today (list_due today.date db.subscriptions) 0 db s t
    → IsSettled w today db s t
outcome-IsSettled w today db s t v keyed m (inl (same, fails)) =
    ((λ _. same), (λ _. inl (same, fails)))
outcome-IsSettled w today db s t v keyed m (inr (d, n, key, moved)) =
    let (n', due) = list_due-Memᴰ today.date db.subscriptions d n in
    let own = keyed_member db.subscriptions s d keyed m n' key in
    let moved_own : t ≡ advanced today s s = moved ∙ ap (λ x. advanced today x s) own in
    let due_own : is_due today.date s ≡ true = ap (is_due today.date) (sym own) ∙ due in
    (
      (λ not_due. cc (sym due_own ∙ not_due)),
      (λ _. inr (moved_own, rw moved_own (advanced_not_due today s v))),
    )

pub Rows-imp_member :
    {R S : Subscription → Subscription → Type 0} (all xs ys : List Subscription)
    → ((s t : Subscription) → Memᴰ s all → R s t → S s t)
    → All (λ x. Memᴰ x all) xs
    → Rows R xs ys
    → Rows S xs ys
Rows-imp_member all [] [] f ms h = tt
Rows-imp_member all [] (y ∷ ys) f ms h = absurd h
Rows-imp_member all (x ∷ xs) [] f ms h = absurd h
Rows-imp_member all (x ∷ xs) (y ∷ ys) f (m, ms) (r, h) =
    (f x y m r, Rows-imp_member all xs ys f ms h)

length-materialize :
    (w : World) (today : Time) (due : List Subscription) (created : ℕ) (db : Db)
    → length (materialize w today due created db).0.orders + created
      ≡ length db.orders + (materialize w today due created db).1
unfolding materialize
length-materialize w today [] created db = refl
length-materialize w today (d ∷ due) created db = elim (Option-cases (run_one w d today db)) [
  | inl e ↦ rw (e, materialize) (length-materialize w today due created db)
  | inr ((db', b), e) ↦
      let run = run_one-IsRun w d today db db' b e in
      let more : ℕ = if b then created + 1 else created in
      rw (e, materialize, after_run-some db' b db created)
        (ground (arith, run.orders_more, length-materialize w today due more db'))
]

-- The daily sweep, on a date of the calendar, with no two subscriptions of one id: a subscription that
-- is not due keeps its row; the row of one that is due either stays, and then each of its runs was an
-- error, or it gets the next date of its cadence from today and the time of the run, and is not due
-- any more on that day. The count returned is that of the orders added.
pub materialize_due-IsSettled :
    (w : World) (today : Time) (db : Db)
    → IsDate today.date
    → AreKeyed db.subscriptions
    → let (db', created) = materialize_due w today db in
      Rows (IsSettled w today db) db.subscriptions db'.subscriptions
      × (length db'.orders ≡ length db.orders + created)
unfolding materialize_due
materialize_due-IsSettled w today db v keyed =
    let due = list_due today.date db.subscriptions in
    (
      Rows-imp_member db.subscriptions db.subscriptions _
          (λ s t. outcome-IsSettled w today db s t v keyed) (All-members db.subscriptions)
          (materialize-Rows w today due 0 db),
      omega (arith, length-materialize w today due 0 db),
    )

pub materialize-next :
    (w : World) (today : Time) (due : List Subscription) (created : ℕ) (db : Db)
    → (materialize w today due created db).0.next_subscription ≡ db.next_subscription
unfolding materialize
materialize-next w today [] created db = refl
materialize-next w today (d ∷ due) created db = elim (Option-cases (run_one w d today db)) [
  | inl e ↦ rw (e, materialize) (materialize-next w today due created db)
  | inr ((db', b), e) ↦
      let run = run_one-IsRun w d today db db' b e in
      rw (e, materialize, after_run-some db' b db created)
        (materialize-next w today due (if b then created + 1 else created) db' ∙ run.same_next_id)
]
