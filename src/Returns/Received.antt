-- ===== src/Returns/Received.antt =====
-- What receiving a return does to the stock and the credit notes, by internal/modules/otc/returns.go.
use teggo.Prelude.{
  ◌≡◌, refl, sym, ◌∙◌, ap, ℕ, Bool, true, false, ◌&&◌, Option, none, some, List, [], ◌∷◌, ◌==◌,
  ==_iff, if◌then◌else◌, String, str_eq, str_eq_iff, Option-cases, inl, inr,
}
use mathlib.Core.Option.{some-injective}
use mathlib.Core.Path.{subst}
use teggo.Prelude.Text.{Text, codes}
use teggo.Prelude.Int.{ℤ, pos, ◌+ℤ◌, +ℤ_zero, zero_+ℤ, +ℤ_assoc}
use teggo.Money.Rat
use teggo.Money.Rat.{units, of_units}
use teggo.Money.Rat.Units.{units_exact, of_units-IsUnits}
use teggo.Money.Decimal.{parse}
use teggo.Money.Decimal.RoundTrip.{parse-format}
use teggo.Money.Amount.{line_total, sum, or_empty}
use teggo.Money.Amount.Exact.{Denotes, format-Denotes, zero-Denotes}
use teggo.Money.Amount.Sums.{sum_by, pair_sum}
use teggo.Inventory
use teggo.Inventory.{
  Level, Outcome, done, ◌>>=◌, column, numeric, get_level, adjust_level, add_movement,
}
use teggo.Inventory.Columns.{column-Denotes, numeric-Denotes}
use teggo.Inventory.Steps.{moved, movement, moved_level, moved_lem, get_level-moved}
use teggo.Inventory.Reserve.{choice}
use teggo.Returns.{
  Return, Db, ReturnedLine, changed, set_return_status, credit_total, restock_item, restock,
  receive_return,
}

-- The price of what is returned, to the ten-thousandth.
abbrev pub value : ReturnedLine → ℤ
value l = units (Rat.mul (of_units l.item.quantity) (of_units l.unit_price))

parse-column : (z : ℤ) → parse (column z) ≡ some (of_units z)
unfolding column
parse-column z =
    parse-format (of_units z)
    ∙ ap (λ x. some (of_units x)) (units_exact (of_units z) z (of_units-IsUnits z))

line_total_lem :
    (l : ReturnedLine)
    → Denotes (or_empty (line_total (column l.item.quantity) (column l.unit_price))) (value l)
unfolding line_total
line_total_lem l =
    rw (parse-column l.item.quantity, parse-column l.unit_price)
      (format-Denotes (Rat.mul (of_units l.item.quantity) (of_units l.unit_price)))

credit_total-Denotes :
    (ls : List ReturnedLine) (t : Text) (z : ℤ)
    → Denotes t z
    → Denotes (credit_total t ls) (z +ℤ sum_by value ls)
unfolding credit_total
credit_total-Denotes [] t z d = subst (Denotes t) (sym (+ℤ_zero z)) d
credit_total-Denotes (l ∷ ls) t z d =
    let line = or_empty (line_total (column l.item.quantity) (column l.unit_price)) in
    let h =
      credit_total-Denotes ls (or_empty (sum (t ∷ line ∷ []))) (z +ℤ value l)
        (pair_sum t line z (value l) d (line_total_lem l)) in
    subst (Denotes (credit_total t (l ∷ ls))) (+ℤ_assoc z (value l) (sum_by value ls)) h

-- What a return brings of a product.
abbrev pub brought : ℕ → ReturnedLine → ℤ
brought p l = if l.item.product_id == p then l.item.quantity else pos 0

-- What a level is with a more on hand.
abbrev pub HasMore : Level → ℤ → Option Level → Type 0
HasMore l a o =
    (l' : Level) × (o ≡ some l') × (l'.on_hand ≡ l.on_hand +ℤ a) × (l'.reserved ≡ l.reserved)

-- Every level of the warehouse has what the lines bring.
abbrev IsRestocked : ℕ → (ℕ → ℤ) → Inventory.Store → Inventory.Store → Type 0
IsRestocked w f s s' =
    (p : ℕ) (l : Level)
    → get_level p w s.levels ≡ some l
    → HasMore l (f p) (get_level p w s'.levels)

unmoved_back : (l : Level) (o : Option Level) → o ≡ some l → HasMore l (pos 0) o
unmoved_back l o e = (l, e, sym (+ℤ_zero l.on_hand), refl)

chosen-HasMore :
    (d : Bool) (l l₀ : Level) (q : ℤ) (o : Option Level)
    → o ≡ (if d && true then some (moved_level l₀ q (pos 0)) else some l)
    → (d ≡ true → l₀ ≡ l)
    → HasMore l (if d then q else pos 0) o
chosen-HasMore true l l₀ q o e same =
    subst (λ x. HasMore x q o) (same refl) (moved_level l₀ q (pos 0), e, refl, +ℤ_zero l₀.reserved)
chosen-HasMore false l l₀ q o e same = unmoved_back l o e

absent-HasMore :
    (d : Bool) (l : Level) (q : ℤ) (o o' : Option Level)
    → o ≡ none
    → (d ≡ true → o ≡ some l)
    → o' ≡ some l
    → HasMore l (if d then q else pos 0) o'
absent-HasMore true l q o o' n f e = cc (f refl)
absent-HasMore false l q o o' n f e = unmoved_back l o' e

restock_item_done :
    (id w : ℕ) (by : String) (l : ReturnedLine) (s : Inventory.Store)
    → (s' : Inventory.Store) × (restock_item id w by l.item s ≡ done s')
      × IsRestocked w (λ p. brought p l) s s'
unfolding restock_item
restock_item_done id w by l s = elim (Option-cases (get_level l.item.product_id w s.levels)) [
  | inl n ↦ (
    s,
    rw (n, restock_item),
    λ p level k.
        absent-HasMore (l.item.product_id == p) level l.item.quantity _ _ n
          (λ d. ap (λ x. get_level x w s.levels) ((==_iff l.item.product_id p).0 d) ∙ k) k,
  )
  | inr (l₀, k₀) ↦
      let q = l.item.quantity in
      let m = movement l₀ "return" q "return" (some id) by in
      (
        moved l₀ q (pos 0) m s,
        rw (k₀, restock_item)
            (moved_lem l₀ (column q) (codes "0") (column q) q (pos 0) q "return" "return" (some id)
              by s (column-Denotes q) zero-Denotes (column-Denotes q)),
        λ p level k.
            chosen-HasMore (l.item.product_id == p) level l₀ q _
              (get_level-moved l.item.product_id w p w l₀ q (pos 0) s.levels k₀
                ∙ choice (l.item.product_id == p) w _ level _ k)
              (λ d.
                some-injective _ _ (
                  sym k₀
                  ∙ ap (λ x. get_level x w s.levels) ((==_iff l.item.product_id p).0 d)
                  ∙ k)),
      )
]

restock_done :
    (id w : ℕ) (by : String) (ls : List ReturnedLine) (s : Inventory.Store)
    → (s' : Inventory.Store) × (restock id w by ls s ≡ done s')
      × IsRestocked w (λ p. sum_by (brought p) ls) s s'
unfolding restock
restock_done id w by [] s = (s, refl, λ p l k. unmoved_back l _ k)
restock_done id w by (l ∷ ls) s =
    let (s₁, e₁, f₁) = restock_item_done id w by l s in
    let (s₂, e₂, f₂) = restock_done id w by ls s₁ in
    (
      s₂,
      rw e₁ e₂,
      λ p level k.
          let (l₁, k₁, h₁, r₁) = f₁ p level k in
          let (l₂, k₂, h₂, r₂) = f₂ p l₁ k₁ in
          (
            l₂,
            k₂,
            h₂
                ∙ ap (λ x. x +ℤ sum_by (brought p) ls) h₁
                ∙ +ℤ_assoc level.on_hand (brought p l) (sum_by (brought p) ls),
            r₂ ∙ r₁,
          ),
    )

-- An approved return, of whatever lines, is received without an error: its status becomes received,
-- one credit note is added, of the sum of quantity times price over its lines, each to the
-- ten-thousandth, and each tracked level of the default warehouse has on hand what the lines bring
-- of its product more, with as much reserved as before. The order lines and return items stay.
pub receive_return_completes :
    (ret : Return) (lines : List ReturnedLine) (currency : String) (invoice_id : Option ℕ) (w : ℕ)
    (by : String) (db : Db)
    → ret.status ≡ "approved"
    → (db' : Db) × (receive_return ret lines currency invoice_id (some w) by db
        ≡ changed (record ret { status = "received" }) db')
      × (db'.credit_notes
          ≡ record {
            return_id = ret.id;
            invoice_id = invoice_id;
            customer_id = ret.customer_id;
            amount = sum_by value lines;
            currency = currency;
          }
            ∷ db.credit_notes)
      × ((p : ℕ) (l : Level)
          → get_level p w db.stock.levels ≡ some l
          → HasMore l (sum_by (brought p) lines) (get_level p w db'.stock.levels))
      × (db'.returns ≡ set_return_status ret.id "received" db.returns)
      × (db'.order_items ≡ db.order_items)
      × (db'.return_items ≡ db.return_items)
unfolding receive_return
receive_return_completes ret lines currency invoice_id w by db approved =
    let (stock, e, restocked) = restock_done ret.id w by lines db.stock in
    let credit = numeric-Denotes _ _ (
      subst (Denotes (credit_total (codes "0") lines)) (zero_+ℤ (sum_by value lines))
        (credit_total-Denotes lines (codes "0") (pos 0) zero-Denotes)) in
    let open_ : str_eq ret.status "approved" ≡ true =
      (str_eq_iff ret.status "approved").1 approved in
    let db' : Db = record db {
      returns = set_return_status ret.id "received" db.returns;
      stock = stock;
      credit_notes =
          record {
            return_id = ret.id;
            invoice_id = invoice_id;
            customer_id = ret.customer_id;
            amount = sum_by value lines;
            currency = currency;
          }
          ∷ db.credit_notes;
    } in
    (db', rw (open_, credit, e) refl, refl, restocked, refl, refl, refl)
