-- ===== src/Subscriptions/Handlers.antt =====
-- internal/modules/subscription/handler.go: what operators and customers do to subscriptions. The body
-- of a request is decoded; an org or customer is that of its claims.
use teggo.Prelude.{
  ℕ, ◌+◌, Bool, true, false, not, ◌&&◌, ◌||◌, Option, none, some, List, [], ◌∷◌, ◌++◌, ◌==◌,
  if◌then◌else◌, String, str_eq, ◌>>=◌,
}
use teggo.Prelude.Text.{Text, codes}
use teggo.Inventory.{numeric}
use teggo.Subscriptions.Dates.{Date, leb_date, advance_date}
use teggo.Subscriptions.{Subscription, Item, Db, World, Time, run_now}

pub data Refusal : Type 0 where
  bad_request not_found not_active cancelled internal : Refusal

pub data Result : Type 0 where
  refused : Refusal → Result
  saved : Db → Result

-- `validCadence`
unfoldable pub valid_cadence : String → Bool
valid_cadence c =
    str_eq c "weekly" || str_eq c "biweekly" || str_eq c "monthly" || str_eq c "quarterly"

-- The switch of `decodeStatus`.
unfoldable pub valid_status : String → Bool
valid_status s = str_eq s "active" || str_eq s "paused" || str_eq s "cancelled"

-- Whose subscriptions a request may touch: those of an org, or of a customer.
pub data Owner : Type 0 where
  org : ℕ → Owner
  customer : ℕ → Owner

unfoldable pub owns : Owner → Subscription → Bool
owns (org o) s = s.organization_id == o
owns (customer c) s = s.customer_id == c

-- `GetSubscription` and `GetSubscriptionForCustomer`
unfoldable pub get_subscription : Owner → ℕ → List Subscription → Option Subscription
get_subscription who id [] = none
get_subscription who id (s ∷ ss) =
    if owns who s && s.id == id then some s else get_subscription who id ss

-- `SetSubscriptionStatus` and `SetSubscriptionStatusForCustomer`, of a row that is there.
unfoldable pub put_status : ℕ → String → List Subscription → List Subscription
put_status id status [] = []
put_status id status (s ∷ ss) =
    (if s.id == id then record s { status = status } else s) ∷ put_status id status ss

-- `SetSubscriptionNextRun`
unfoldable pub put_next_run : ℕ → Date → List Subscription → List Subscription
put_next_run id next [] = []
put_next_run id next (s ∷ ss) =
    (if s.id == id then record s { next_run_date = next } else s) ∷ put_next_run id next ss

-- `UpdateSubscription` and `UpdateSubscriptionForCustomer`; the name and the PO number are left out.
unfoldable pub put_cadence : ℕ → String → List Subscription → List Subscription
put_cadence id cadence [] = []
put_cadence id cadence (s ∷ ss) =
    (if s.id == id then record s { cadence = cadence } else s) ∷ put_cadence id cadence ss

-- `lineInput`
pub record LineInput : Type 0 where
  pub product_id : ℕ
  pub quantity : Text
  pub unit : String

abbrev or_one : Text → Text
or_one [] = codes "1"
or_one (b ∷ bs) = b ∷ bs

abbrev or_each : String → String
or_each u = if str_eq u "" then "each" else u

-- `CreateSubscriptionItem`; `sku_of` are the products, and one that is missing is an error.
unfoldable pub create_item : (ℕ → Option Text) → ℕ → LineInput → Option Item
create_item sku_of sub it = do
  sku ← sku_of it.product_id
  q ← numeric (or_one it.quantity)
  some (record {
    subscription_id = sub;
    product_id = it.product_id;
    quantity = q;
    unit = or_each it.unit;
    sku = sku;
  })

-- The loop over the lines, which skips those without a product.
unfoldable pub create_items : (ℕ → Option Text) → ℕ → List LineInput → Option (List Item)
create_items sku_of sub [] = some []
create_items sku_of sub (it ∷ its) =
    let rest = create_items sku_of sub its in
    if it.product_id == 0 then rest else do i ← create_item sku_of sub it; is ← rest; some (i ∷ is)

-- `DeleteSubscriptionItems`
unfoldable pub delete_items : ℕ → List Item → List Item
delete_items sub [] = []
delete_items sub (i ∷ is) =
    if i.subscription_id == sub then delete_items sub is else i ∷ delete_items sub is

abbrev pub with_items : Option (List Item) → Db → Result
with_items none db = refused bad_request
with_items (some is) db = saved (record db { items = db.items ++ is })

-- `replaceItems`, and the end of the transaction.
unfoldable pub replace_items : (ℕ → Option Text) → ℕ → List LineInput → Db → Result
replace_items sku_of sub its db =
    with_items (create_items sku_of sub its) (record db { items = delete_items sub db.items })

abbrev pub if_found : Option Subscription → (Subscription → Result) → Result
if_found none next = refused not_found
if_found (some s) next = next s

abbrev pub with_status : String → Db → Subscription → Result
with_status status db s =
    saved (record db { subscriptions = put_status s.id status db.subscriptions })

-- `adminSetStatus` and `mySetStatus`
unfoldable pub set_status : Owner → ℕ → String → Db → Result
set_status who id status db =
    if not (valid_status status)
    then refused bad_request
    else if_found (get_subscription who id db.subscriptions) (with_status status db)

abbrev pub is_empty : List LineInput → Bool
is_empty [] = true
is_empty (it ∷ its) = false

abbrev pub with_cadence : Subscription → String → Db → Db
with_cadence s cadence db = record db { subscriptions = put_cadence s.id cadence db.subscriptions }

abbrev pub edited : (ℕ → Option Text) → String → List LineInput → Db → Subscription → Result
edited sku_of cadence its db s =
    if str_eq s.status "cancelled"
    then refused cancelled
    else replace_items sku_of s.id its (with_cadence s cadence db)

-- `adminUpdate` and `myUpdate`, with the checks of `decodeEdit`.
unfoldable pub update_subscription :
    (ℕ → Option Text) → Owner → ℕ → String → List LineInput → Db → Result
update_subscription sku_of who id cadence its db =
    if not (valid_cadence cadence) || is_empty its
    then refused bad_request
    else if_found (get_subscription who id db.subscriptions) (edited sku_of cadence its db)

-- The date that `mySkip` counts from: the next run, if it is ahead.
unfoldable pub skip_base : Date → Date → Date
skip_base next today = if leb_date next today then today else next

abbrev pub skipped : Date → Db → Subscription → Result
skipped today db s = saved (record db {
  subscriptions =
      put_next_run s.id (advance_date s.cadence (skip_base s.next_run_date today)) db.subscriptions;
})

-- `mySkip`
unfoldable pub my_skip : ℕ → ℕ → Date → Db → Result
my_skip who id today db =
    if_found (get_subscription (customer who) id db.subscriptions) (skipped today db)

abbrev pub ran : Option (Db × Bool) → Result
ran none = refused internal
ran (some (db, created)) = saved db

abbrev pub run_active : World → Time → Db → Subscription → Result
run_active w now db s =
    if not (str_eq s.status "active") then refused not_active else ran (run_now w s now db)

-- `adminRunNow`
unfoldable pub admin_run_now : World → ℕ → ℕ → Time → Db → Result
admin_run_now w o id now db =
    if_found (get_subscription (org o) id db.subscriptions) (run_active w now db)

-- The start date of `create`: none given, one that parses, or one that does not.
pub data Start : Type 0 where
  unset : Start
  on : Date → Start
  malformed : Start

abbrev pub first_run : Start → String → Date → Option Date
first_run unset cadence today = some (advance_date cadence today)
first_run (on d) cadence today = some d
first_run malformed cadence today = none

-- `CreateSubscription`
abbrev pub added : ℕ → ℕ → Option ℕ → String → String → Date → Db → Db
added o who user currency cadence next db = record db {
  subscriptions =
      db.subscriptions
      ++ (record {
        id = db.next_subscription;
        organization_id = o;
        customer_id = who;
        customer_user_id = user;
        currency = currency;
        cadence = cadence;
        next_run_date = next;
        status = "active";
        last_run_at = none;
      }
          ∷ []);
  next_subscription = db.next_subscription + 1;
}

-- The transaction of `create`.
unfoldable pub create_subscription :
    (ℕ → Option Text)
    → ℕ
    → ℕ
    → Option ℕ
    → String
    → List LineInput
    → Db
    → Option Date
    → String
    → Result
create_subscription sku_of o who user cadence its db none currency = refused bad_request
create_subscription sku_of o who user cadence its db (some next) currency =
    with_items (create_items sku_of db.next_subscription its)
      (added o who user currency cadence next db)

abbrev pub if_website : Option String → (String → Result) → Result
if_website none next = refused bad_request
if_website (some currency) next = next currency

-- `create`; `website` is the currency of the org's default website.
unfoldable pub create :
    (ℕ → Option Text)
    → ℕ
    → ℕ
    → Option ℕ
    → Option String
    → String
    → Start
    → List LineInput
    → Date
    → Db
    → Result
create sku_of o who user website cadence start its today db =
    if not (valid_cadence cadence) || is_empty its
    then refused bad_request
    else if_website website
        (create_subscription sku_of o who user cadence its db (first_run start cadence today))
