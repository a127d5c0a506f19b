-- ===== src/Subscriptions/Runs.antt =====
-- What the steps of a run change, by internal/subscriptions/service.go.
use mathlib.Core.Option.{some-injective}
use mathlib.Core.Path.{subst}
use teggo.Prelude.{
  map, ◌≡◌, refl, sym, ◌∙◌, ap, suc, ◌+◌, Bool, true, false, Option, none, some, List, [], ◌∷◌,
  length, Bool-cases, inl, inr, ◌⊎◌, arith, if◌then◌else◌,
}
use teggo.Prelude.Text.{Text}
use teggo.Money.Amount
use teggo.Money.Amount.{sum, or_empty}
use teggo.Tax.{Answer, taxed, failed, panic, compute_order_tax}
use teggo.Tax.Total.{provider_of}
use teggo.Subscriptions.Dates.{advance_date}
use teggo.Subscriptions.{
  Subscription, Db, World, Time, Line, Discount, Priced, lines, problem, price_lines, list_items,
  record_run, advance_subscription, order_run, run_priced, run_one, with_order, if_taxed, fail_run,
  rts, tax_line, best_discount, list_active_promotions, Item,
}
use teggo.Subscriptions.Placed.{
  add_order_items-frame, create_order-some, redeem-some, split_run-some, IsPlaced,
  place_order-IsPlaced,
}

-- How a committed run leaves the schedule, and how many rows it adds.
pub record IsRun (sub : Subscription) (today : Time) (created : Bool) (db db' : Db) : Type 0 where
  pub schedule :
      db'.subscriptions
      ≡ advance_subscription sub.id
          (advance_date sub.cadence today.date)
          today.instant
          db.subscriptions
  pub orders_more : length db'.orders ≡ length db.orders + (if created then 1 else 0)
  pub runs_more : length db'.runs ≡ length db.runs + 1
  pub same_next_id : db'.next_subscription ≡ db.next_subscription

placed-IsRun :
    (w : World) (sub : Subscription) (today : Time) (ls : List Line) (subtotal : Text)
    (d : Discount) (discounted : Text) (taxes : List Text) (tax_total : Text) (db db' : Db)
    → IsPlaced w sub today ls subtotal d discounted taxes tax_total db db'
    → IsRun sub today true db db'
unfolding record_run
placed-IsRun w sub today ls subtotal d discounted taxes tax_total db db' p =
    let (o, e, _, _, _, _, _, _, _, _) =
      create_order-some sub subtotal tax_total _ db p.ordered p.orders in
    let (s, r, os, _, _, n) =
      add_order_items-frame db.next_order ls taxes p.ordered p.filled p.fills in
    let (f, _, _, _) = redeem-some sub db.next_order d p.filled p.redeemed p.redeems in
    let (_, _, k) = split_run-some w sub db.next_order p.redeemed p.divided p.divides in
    let schedule : p.divided.subscriptions ≡ db.subscriptions =
      ap (λ x. x.subscriptions) k ∙ f.same_schedule ∙ s ∙ ap (λ x. x.subscriptions) e in
    let runs : p.divided.runs ≡ db.runs =
      ap (λ x. x.runs) k ∙ f.same_runs ∙ r ∙ ap (λ x. x.runs) e in
    let orders : length p.divided.orders ≡ suc (length db.orders) =
      ap (λ x. length x.orders) k ∙ f.as_many ∙ ap length os ∙ ap (λ x. length x.orders) e in
    record {
      schedule =
          ap (λ x. x.subscriptions) p.ends
          ∙ ap
              (λ x.
                advance_subscription sub.id (advance_date sub.cadence today.date) today.instant x)
              schedule;
      orders_more = ap (λ x. length x.orders) p.ends ∙ omega (arith, orders);
      runs_more = ap (λ x. length x.runs) p.ends ∙ omega (arith, ap length runs);
      same_next_id =
          ap (λ x. x.next_subscription) p.ends
          ∙ ap (λ x. x.next_subscription) k
          ∙ f.same_next
          ∙ n
          ∙ ap (λ x. x.next_subscription) e;
    }

failed-IsRun :
    (sub : Subscription) (today : Time) (note : Text) (db : Db)
    → IsRun sub today false db (fail_run sub today note db)
unfolding record_run
failed-IsRun sub today note db = record {
  schedule = refl;
  orders_more = omega arith;
  runs_more = omega arith;
  same_next_id = refl;
}

with_order-some :
    (created : Bool) (o : Option Db) (db' : Db) (b : Bool)
    → with_order created o ≡ some (db', b)
    → (o ≡ some db') × (created ≡ b)
with_order-some created none db' b h = cc
with_order-some created (some x) db' b h =
    let e = some-injective _ _ h in (ap (λ y. some y.0) e, ap (λ y. y.1) e)

if_taxed-some :
    (a : Answer) (next : List Text → Text → Option Db) (db' : Db)
    → if_taxed a next ≡ some db'
    → (taxes : List Text) × (total : Text) × (a ≡ taxed taxes total) × (next taxes total ≡ some db')
if_taxed-some (taxed taxes total) next db' h = (taxes, total, refl, h)
if_taxed-some (failed taxes total) next db' h = cc
if_taxed-some panic next db' h = cc

-- The subtotal of priced lines, and the discount that the promotions of the org give on it.
abbrev pub subtotal_of : List Line → Text
subtotal_of ls = or_empty (sum (rts ls))

abbrev pub discount_of : Subscription → Time → List Line → Db → Discount
discount_of sub today ls db =
    best_discount (subtotal_of ls) today.instant
      (list_active_promotions sub.organization_id db.promotions)

pub record IsOrdered (w : World) (sub : Subscription) (today : Time) (ls : List Line) (db db' : Db)
    : Type 0 where
  pub taxes : List Text
  pub total : Text
  pub taxes_them :
      compute_order_tax
        (provider_of w.provider)
        (w.country_of sub.customer_id)
        (map tax_line ls)
        w.classes
        (w.rates (w.country_of sub.customer_id))
      ≡ taxed taxes total
  pub placed :
      IsPlaced w sub today ls
        (subtotal_of ls)
        (discount_of sub today ls db)
        (or_empty (Amount.sub (subtotal_of ls) (discount_of sub today ls db).discount))
        taxes
        total
        db
        db'

order_run-IsOrdered :
    (w : World) (sub : Subscription) (today : Time) (ls : List Line) (db db' : Db)
    → order_run w sub today ls db ≡ some db'
    → IsOrdered w sub today ls db db'
unfolding order_run
order_run-IsOrdered w sub today ls db db' h =
    let (taxes, total, e, k) = if_taxed-some _ _ db' h in
    record {
      taxes = taxes;
      total = total;
      taxes_them = e;
      placed = place_order-IsPlaced w sub today ls _ _ _ taxes total db db' k;
    }

abbrev pub items_of : Subscription → Db → List Item
items_of sub db = list_items sub.id db.items

-- The two ends of a run that is committed: an order of priced lines, at least one, or a failed run
-- with a note.
pub run_one-some :
    (w : World) (sub : Subscription) (today : Time) (db db' : Db) (b : Bool)
    → run_one w sub today db ≡ some (db', b)
    → ((b ≡ true)
        × ((ls : List Line) × (price_lines w sub (items_of sub db) ≡ lines ls)
            × IsOrdered w sub today ls db db'))
      ⊎ ((b ≡ false) × ((note : Text) × (db' ≡ fail_run sub today note db)))
unfolding run_one
run_one-some w sub today db db' b h = elim (Bool-cases (w.is_up sub.id)) [
  | inl up ↦ priced (price_lines w sub (items_of sub db)) refl (rw up at h)
  | inr down ↦ absurd (none-some (rw down at h))
]
  where
    none-some : ◌≡◌ {A = Option (Db × Bool)} none (some (db', b)) → ⊥
    none-some e = cc

    priced :
        (p : Priced)
        → price_lines w sub (items_of sub db) ≡ p
        → run_priced w sub today p db ≡ some (db', b)
        → ((b ≡ true)
            × ((ls : List Line) × (price_lines w sub (items_of sub db) ≡ lines ls)
                × IsOrdered w sub today ls db db'))
          ⊎ ((b ≡ false) × ((note : Text) × (db' ≡ fail_run sub today note db)))
    priced (problem why) e k =
        let same = some-injective _ _ k in
        inr (ap (λ x. x.1) (sym same), (why, ap (λ x. x.0) (sym same)))
    priced (lines []) e k =
        let same = some-injective _ _ k in
        inr (ap (λ x. x.1) (sym same), (_, ap (λ x. x.0) (sym same)))
    priced (lines (l ∷ ls)) e k =
        let (made, created) = with_order-some true _ db' b k in
        inl (sym created, (l ∷ ls, e, order_run-IsOrdered w sub today (l ∷ ls) db db' made))

pub run_one-IsRun :
    (w : World) (sub : Subscription) (today : Time) (db db' : Db) (b : Bool)
    → run_one w sub today db ≡ some (db', b)
    → IsRun sub today b db db'
run_one-IsRun w sub today db db' b h = elim (run_one-some w sub today db db' b h) [
  | inl (e, (ls, _, o)) ↦
      subst (λ x. IsRun sub today x db db') (sym e)
        (placed-IsRun w sub today ls _ _ _ o.taxes o.total db db' o.placed)
  | inr (e, (note, k)) ↦
      rw e (subst (λ x. IsRun sub today false db x) (sym k) (failed-IsRun sub today note db))
]
