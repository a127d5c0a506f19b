-- ===== src/Returns/Capped.antt =====
-- How much of an order line can be returned, by internal/modules/otc/returns.go.
use mathlib.Core.Option.{some-injective}
use mathlib.Core.Path.{subst}
use teggo.Prelude.{
  ◌≡◌, refl, sym, ◌∙◌, ap, ℕ, Bool, true, false, Option, none, some, List, [], ◌∷◌, ◌++◌, ◌==◌,
  ==_iff, if◌then◌else◌, str_eq, All, All-Memᴰ, Memᴰ, ◌⊎◌, inl, inr, Bool-cases, arith,
}
use teggo.Prelude.Int.{ℤ, pos, ◌+ℤ◌, ◌-ℤ◌, ◌≤ℤ◌, +ℤ_assoc, zero_+ℤ, +ℤ_zero, +ℤ_parts, -ℤ_parts}
use teggo.Money.Amount
use teggo.Money.Amount.{cmp, or_empty}
use teggo.Money.Amount.Exact.{Denotes, cmp-Denotes, compare_ℤ}
use teggo.Money.Amount.Sums.{amount_of, IsExact}
use teggo.Inventory.{column}
use teggo.Inventory.Columns.{column-Denotes, numeric-Denotes, sub-Denotes_or}
use teggo.Returns.{
  OrderItem, Return, ReturnItem, Db, ItemInput, Refusal, Result, changed, refused, get_order_item,
  is_standing, sum_returned, is_over, check_item, check_items, first_refusal, return_item,
  return_items_of, cons_if, created_return, create_checked, validate_and_create_return,
}

-- No line of the order is returned beyond its quantity.
unfoldable pub IsCapped : ℕ → Db → Type 0
IsCapped order_id db =
    (id : ℕ) (oi : OrderItem)
    → get_order_item id order_id db.order_items ≡ some oi
    → sum_returned id db.returns db.return_items ≤ℤ oi.quantity

-- No order line is listed twice.
unfoldable pub AreDistinct : List ItemInput → Type 0
AreDistinct [] = Unit
AreDistinct (it ∷ items) =
    All (λ j. (j.order_item_id == it.order_item_id) ≡ false) items × AreDistinct items

-- What a request asks of one order line.
claimed : ℕ → List ItemInput → ℤ
claimed id [] = pos 0
claimed id (it ∷ items) =
    if it.order_item_id == id then amount_of it.quantity +ℤ claimed id items else claimed id items

claimed_none :
    (id : ℕ) (items : List ItemInput)
    → All (λ j. (j.order_item_id == id) ≡ false) items
    → claimed id items ≡ pos 0
unfolding claimed
claimed_none id [] _ = refl
claimed_none id (it ∷ items) (h, hs) = rw h (claimed_none id items hs)

claimed_once :
    (id : ℕ) (items : List ItemInput)
    → AreDistinct items
    → (claimed id items ≡ pos 0)
      ⊎ ((it : ItemInput) × Memᴰ it items
          × (it.order_item_id ≡ id)
          × (claimed id items ≡ amount_of it.quantity))
unfolding claimed AreDistinct
claimed_once id [] _ = inl refl
claimed_once id (it ∷ items) (d, ds) = elim (Bool-cases (it.order_item_id == id)) [
  | inl own ↦
      let key = (==_iff it.order_item_id id).0 own in
      let rest =
        claimed_none id items
          (subst (λ x. All (λ (j : ItemInput). (j.order_item_id == x) ≡ false) items) key d) in
      inr (
        it,
        Memᴰ.head refl,
        key,
        rw own (ap (λ z. amount_of it.quantity +ℤ z) rest ∙ +ℤ_zero (amount_of it.quantity)),
      )
  | inr other ↦ elim (claimed_once id items ds) [
    | inl zero ↦ inl (rw other zero)
    | inr (j, m, key, e) ↦ inr (j, Memᴰ.tail m, key, rw other e)
  ]
]

not_over : (a b : ℤ) → is_over (some (compare_ℤ a b)) ≡ false → a ≤ℤ b
not_over a b h = ground arith

fits_beside : (q returned ordered : ℤ) → q ≤ℤ ordered -ℤ returned → q +ℤ returned ≤ℤ ordered
fits_beside q returned ordered h = omega (arith, h, +ℤ_parts q returned, -ℤ_parts ordered returned)

some-none : {why : Refusal} → ¬ (some why ≡ none)
some-none e = cc

-- What passes the check fits beside what is returned.
check_item-fits :
    (order_id : ℕ) (db : Db) (it : ItemInput) (oi : OrderItem)
    → get_order_item it.order_item_id order_id db.order_items ≡ some oi
    → IsExact it.quantity
    → check_item order_id db it ≡ none
    → amount_of it.quantity +ℤ sum_returned it.order_item_id db.returns db.return_items
      ≤ℤ oi.quantity
unfolding check_item
check_item-fits order_id db it oi found exact passes =
    let back = sum_returned it.order_item_id db.returns db.return_items in
    let remaining = or_empty (Amount.sub (column oi.quantity) (column back)) in
    let left : Denotes remaining (oi.quantity -ℤ back) =
      sub-Denotes_or (column oi.quantity) (column back) oi.quantity back
        (column-Denotes oi.quantity) (column-Denotes back) in
    let e : cmp it.quantity remaining
        ≡ some (compare_ℤ (amount_of it.quantity) (oi.quantity -ℤ back)) =
      cmp-Denotes it.quantity remaining (amount_of it.quantity) (oi.quantity -ℤ back) exact left in
    let within : is_over (cmp it.quantity remaining) ≡ false =
      elim (Bool-cases (is_over (cmp it.quantity remaining))) [
        | inl over ↦ absurd (some-none (rw (check_item, found, over) at passes))
        | inr fits ↦ fits
      ] in
    fits_beside (amount_of it.quantity) back oi.quantity
      (not_over (amount_of it.quantity) (oi.quantity -ℤ back) (ap is_over (sym e) ∙ within))

first_refusal-none : (o o' : Option Refusal) → first_refusal o o' ≡ none → (o ≡ none) × (o' ≡ none)
first_refusal-none none o' h = (refl, h)
first_refusal-none (some why) o' h = absurd (some-none h)

check_items-none :
    (order_id : ℕ) (db : Db) (items : List ItemInput)
    → check_items order_id db items ≡ none
    → All (λ it. check_item order_id db it ≡ none) items
unfolding check_items
check_items-none order_id db [] h = tt
check_items-none order_id db (it ∷ items) h =
    let (p, q) = first_refusal-none (check_item order_id db it) (check_items order_id db items) h in
    (p, check_items-none order_id db items q)

-- The rows of an older return count as before.
older-sum_returned :
    (id : ℕ) (r : Return) (rs : List Return) (ris : List ReturnItem)
    → All (λ ri. (r.id == ri.return_id) ≡ false) ris
    → sum_returned id (r ∷ rs) ris ≡ sum_returned id rs ris
unfolding sum_returned is_standing
older-sum_returned id r rs [] _ = refl
older-sum_returned id r rs (ri ∷ ris) (h, hs) = rw (h, older-sum_returned id r rs ris hs) refl

-- One row more, of a return that stands.
newer-sum_returned :
    (id : ℕ) (r : Return) (rs : List Return) (ri : ReturnItem) (ris : List ReturnItem)
    → ri.return_id ≡ r.id
    → str_eq r.status "rejected" ≡ false
    → sum_returned id (r ∷ rs) (ri ∷ ris) ≡ (
        if ri.order_item_id == id
        then ri.quantity +ℤ sum_returned id (r ∷ rs) ris
        else sum_returned id (r ∷ rs) ris)
unfolding sum_returned is_standing
newer-sum_returned id r rs ri ris key stands = ground (arith, ==_iff r.id ri.return_id)

cons_if-some :
    (o : Option ReturnItem) (os : Option (List ReturnItem)) (ris : List ReturnItem)
    → cons_if o os ≡ some ris
    → (ri : ReturnItem) × (rest : List ReturnItem) × (o ≡ some ri)
      × (os ≡ some rest)
      × (ri ∷ rest ≡ ris)
cons_if-some none os ris h = absurd (ground arith)
cons_if-some (some ri) none ris h = absurd (ground arith)
cons_if-some (some ri) (some rest) ris h = (ri, rest, refl, refl, some-injective (ri ∷ rest) ris h)

return_item-some :
    (return_id : ℕ) (o : Option OrderItem) (z : ℤ) (it : ItemInput) (ri : ReturnItem)
    → return_item return_id o (some z) it ≡ some ri
    → (ri.return_id ≡ return_id) × (ri.order_item_id ≡ it.order_item_id) × (ri.quantity ≡ z)
return_item-some return_id none z it ri h = absurd (ground arith)
return_item-some return_id (some oi) z it ri h =
    let e = some-injective _ ri h in
    (ap (λ x. x.return_id) (sym e), ap (λ x. x.order_item_id) (sym e), ap (λ x. x.quantity) (sym e))

split_sum :
    (own own' : Bool) (q q' s c b : ℤ)
    → own' ≡ own
    → q ≡ q'
    → s ≡ c +ℤ b
    → (if own' then q +ℤ s else s) ≡ (if own then q' +ℤ c else c) +ℤ b
split_sum true own' q q' s c b h p k = rw (h, p, k) (sym (+ℤ_assoc q' c b))
split_sum false own' q q' s c b h p k = rw (h, k) refl

added_sum :
    (id order_id : ℕ) (r : Return) (rs : List Return) (ois : List OrderItem) (old : List ReturnItem)
    (items : List ItemInput) (ris : List ReturnItem)
    → str_eq r.status "rejected" ≡ false
    → All (λ it. IsExact it.quantity) items
    → return_items_of r.id order_id ois items ≡ some ris
    → sum_returned id (r ∷ rs) (ris ++ old) ≡ claimed id items +ℤ sum_returned id (r ∷ rs) old
unfolding return_items_of claimed
added_sum id order_id r rs ois old [] ris stands _ h =
    subst (λ x. sum_returned id (r ∷ rs) (x ++ old) ≡ pos 0 +ℤ sum_returned id (r ∷ rs) old)
      (some-injective [] ris h) (sym (zero_+ℤ (sum_returned id (r ∷ rs) old)))
added_sum id order_id r rs ois old (it ∷ items) ris stands (x, xs) h =
    let base = sum_returned id (r ∷ rs) old in
    let o = get_order_item it.order_item_id order_id ois in
    let (ri, rest, e, es, parts) = cons_if-some _ _ ris h in
    let number = numeric-Denotes it.quantity (amount_of it.quantity) x in
    let (key, line, amount) =
      return_item-some r.id o (amount_of it.quantity) it ri
        (ap (λ n. return_item r.id o n it) (sym number) ∙ e) in
    let ih = added_sum id order_id r rs ois old items rest stands xs es in
    subst
      (λ l.
        sum_returned id (r ∷ rs) (l ++ old)
        ≡ (if it.order_item_id == id
            then amount_of it.quantity +ℤ claimed id items
            else claimed id items)
          +ℤ base)
      parts
      (newer-sum_returned id r rs ri (rest ++ old) key stands
        ∙ split_sum (it.order_item_id == id) (ri.order_item_id == id) ri.quantity
            (amount_of it.quantity) (sum_returned id (r ∷ rs) (rest ++ old)) (claimed id items) base
            (ap (λ l. l == id) line) amount ih)

-- The rows after a request is taken.
abbrev with_return : Return → List ReturnItem → Db → Db
with_return r ris db = record db { returns = r ∷ db.returns; return_items = ris ++ db.return_items }

added-IsCapped :
    (order_id : ℕ) (r : Return) (items : List ItemInput) (ris : List ReturnItem) (db : Db)
    → str_eq r.status "rejected" ≡ false
    → All (λ it. IsExact it.quantity) items
    → AreDistinct items
    → All (λ ri. (r.id == ri.return_id) ≡ false) db.return_items
    → check_items order_id db items ≡ none
    → return_items_of r.id order_id db.order_items items ≡ some ris
    → IsCapped order_id db
    → IsCapped order_id (with_return r ris db)
unfolding IsCapped
added-IsCapped order_id r items ris db stands exact distinct new passed rows capped id oi found =
    let total =
      added_sum id order_id r db.returns db.order_items db.return_items items ris stands exact rows
      ∙ ap (λ z. claimed id items +ℤ z) (older-sum_returned id r db.returns db.return_items new) in
    elim (claimed_once id items distinct) [
      | inl zero ↦ rw (total, zero, zero_+ℤ) (capped id oi found)
      | inr (it, m, key, e) ↦
          let fits =
            check_item-fits order_id db it oi
              (ap (λ x. get_order_item x order_id db.order_items) key ∙ found)
              (All-Memᴰ (λ it'. IsExact it'.quantity) items exact m)
              (All-Memᴰ (λ it'. check_item order_id db it' ≡ none) items
                (check_items-none order_id db items passed) m) in
          rw (total, e)
            (subst
              (λ x.
                amount_of it.quantity +ℤ sum_returned x db.returns db.return_items ≤ℤ oi.quantity)
              key fits)
    ]

-- What a result holds.
abbrev return_or : Return → Result → Return
return_or r (changed r' db) = r'
return_or r (refused why) = r

abbrev db_or : Db → Result → Db
db_or db (changed r db') = db'
db_or db (refused why) = db

created_return-changed :
    (r0 : Return) (db : Db) (o : Option (List ReturnItem)) (r : Return) (db' : Db)
    → created_return r0 db o ≡ changed r db'
    → (ris : List ReturnItem) × (o ≡ some ris) × (r0 ≡ r) × (with_return r0 ris db ≡ db')
created_return-changed r0 db none r db' h = absurd (ground arith)
created_return-changed r0 db (some ris) r db' h = (ris, refl, ap (return_or r) h, ap (db_or db) h)

create_checked-changed :
    (id order_id customer_id : ℕ) (items : List ItemInput) (db : Db) (o : Option Refusal)
    (r : Return) (db' : Db)
    → create_checked id order_id customer_id items db o ≡ changed r db'
    → (o ≡ none)
      × (created_return
            (record {
              id = id;
              order_id = order_id;
              customer_id = customer_id;
              status = "requested";
            })
            db
            (return_items_of id order_id db.order_items items)
          ≡ changed r db')
create_checked-changed id order_id customer_id items db none r db' h = (refl, h)
create_checked-changed id order_id customer_id items db (some why) r db' h = absurd (ground arith)

-- A return that is created, of a request with exact quantities that lists no order line twice, under
-- an id that no return item has: if no line of the order was returned beyond its quantity before,
-- counting all returns but the rejected, none is afterwards. The return is requested, and the
-- order, the stock and the credit notes stay as they are.
pub validate_and_create_return-IsCapped :
    (id order_id customer_id : ℕ) (items : List ItemInput) (db : Db) (r : Return) (db' : Db)
    → validate_and_create_return id order_id customer_id items db ≡ changed r db'
    → All (λ it. IsExact it.quantity) items
    → AreDistinct items
    → All (λ ri. (id == ri.return_id) ≡ false) db.return_items
    → IsCapped order_id db
    → IsCapped order_id db'
      × (r.status ≡ "requested")
      × (db'.order_items ≡ db.order_items)
      × (db'.stock ≡ db.stock)
      × (db'.credit_notes ≡ db.credit_notes)
unfolding validate_and_create_return
validate_and_create_return-IsCapped id order_id customer_id [] db r db' h _ _ _ _ =
    absurd (ground arith)
validate_and_create_return-IsCapped id order_id customer_id (it ∷ items) db r db' h exact distinct
      new capped =
    let (passed, made) = create_checked-changed id order_id customer_id (it ∷ items) db _ r db' h in
    let requested : Return = record {
      id = id;
      order_id = order_id;
      customer_id = customer_id;
      status = "requested";
    } in
    let (ris, rows, e, e') = created_return-changed requested db _ r db' made in
    let sound =
      added-IsCapped order_id requested (it ∷ items) ris db refl exact distinct new passed rows
        capped in
    (
      subst (IsCapped order_id) e' sound,
      ap (λ x. x.status) (sym e),
      ap (λ x. x.order_items) (sym e'),
      ap (λ x. x.stock) (sym e'),
      ap (λ x. x.credit_notes) (sym e'),
    )
