-- ===== src/Configurator.antt =====
-- internal/cpq/cpq.go: a configuration of a product checked against its option groups and rules, and
-- priced. Each error message is a constructor with the values that the message shows.
pub mod Constraints
pub mod Once
pub mod Valid
pub mod Tests
use teggo.Prelude.{
  ℕ, suc, Bool, true, false, not, ◌&&◌, Option, none, some, List, [], ◌∷◌, ◌++◌, map, ◌==◌, ltb,
  contains, if◌then◌else◌, String, str_eq,
}
use teggo.Prelude.Int.{ℤ, pos, ltb_ℤ}
use teggo.Prelude.Text.{Text, codes}
use teggo.Money.Amount.{sum}

-- `Option`, `Group`, `Rule` and `Definition`
pub record Choice : Type 0 where
  pub id : ℕ
  pub group_id : ℕ
  pub code : String
  pub name : String
  pub price_delta : Text

pub record Group : Type 0 where
  pub id : ℕ
  pub code : String
  pub required : Bool
  pub min_select : ℤ
  pub max_select : ℤ
  pub options : List Choice

pub record Rule : Type 0 where
  pub kind : String
  pub option_id : ℕ
  pub related_option_id : ℕ

pub record Definition : Type 0 where
  pub base_price : Text
  pub currency : String
  pub groups : List Group
  pub rules : List Rule

-- `SelectedOption` and `Result`
pub record SelectedOption : Type 0 where
  pub option_id : ℕ
  pub group_code : String
  pub option_code : String
  pub name : String
  pub price_delta : Text

pub data Problem : Type 0 where
  unknown_option : ℕ → Problem
  too_few : String → ℤ → Problem
  too_many : String → ℤ → Problem
  requires : String → String → Problem
  excludes : String → String → Problem
  price_failed : Problem

pub record Result : Type 0 where
  pub valid : Bool
  pub errors : List Problem
  pub base_price : Text
  pub unit_price : Text
  pub currency : String
  pub selected : List SelectedOption

-- `optByID`: the options of all groups by id, the later first.
abbrev later : {A : Type 0} → Option A → Bool → A → Option A
later (some found) own x = some found
later none own x = if own then some x else none

unfoldable pub all_options : List Group → List Choice
all_options [] = []
all_options (g ∷ gs) = g.options ++ all_options gs

unfoldable pub find_option : ℕ → List Choice → Option Choice
find_option id [] = none
find_option id (o ∷ os) = later (find_option id os) (o.id == id) o

-- `groupByID`
unfoldable pub find_group : ℕ → List Group → Option Group
find_group id [] = none
find_group id (g ∷ gs) = later (find_group id gs) (g.id == id) g

abbrev pub is_known : Option Choice → Bool
is_known none = false
is_known (some o) = true

-- The first loop over the ids: the errors, and the keys of `selected`.
unfoldable pub unknown_errors : List Choice → List ℕ → List Problem
unknown_errors options [] = []
unknown_errors options (id ∷ ids) =
    if is_known (find_option id options)
    then unknown_errors options ids
    else unknown_option id ∷ unknown_errors options ids

unfoldable pub known_ids : List Choice → List ℕ → List ℕ
known_ids options [] = []
known_ids options (id ∷ ids) =
    if is_known (find_option id options) then id ∷ known_ids options ids else known_ids options ids

-- The number of a group's options that are selected.
unfoldable pub count_selected : List ℕ → List Choice → ℕ
count_selected selected [] = 0
count_selected selected (o ∷ os) =
    if contains selected o.id then suc (count_selected selected os) else count_selected selected os

abbrev pub least_of : Group → ℤ
least_of g = if g.required && ltb_ℤ g.min_select (pos 1) then pos 1 else g.min_select

abbrev pub error_if : Bool → Problem → List Problem
error_if true e = e ∷ []
error_if false e = []

unfoldable pub group_errors : List ℕ → Group → List Problem
group_errors selected g =
    let count = pos (count_selected selected g.options) in
    error_if (ltb_ℤ count (least_of g)) (too_few g.code (least_of g))
    ++ error_if (ltb_ℤ (pos 0) g.max_select && ltb_ℤ g.max_select count)
        (too_many g.code g.max_select)

abbrev pub code_or_blank : Option Choice → String
code_or_blank none = ""
code_or_blank (some o) = o.code

unfoldable pub rule_errors : List Choice → List ℕ → Rule → List Problem
rule_errors options selected r =
    let a = code_or_blank (find_option r.option_id options) in
    let b = code_or_blank (find_option r.related_option_id options) in
    if str_eq r.kind "requires"
    then error_if (contains selected r.option_id && not (contains selected r.related_option_id))
        (requires a b)
    else if str_eq r.kind "excludes"
    then error_if (contains selected r.option_id && contains selected r.related_option_id)
        (excludes a b)
    else []

unfoldable pub flat_map : {A : Type 0} → (A → List Problem) → List A → List Problem
flat_map f [] = []
flat_map f (x ∷ xs) = f x ++ flat_map f xs

-- The keys of `selected` in ascending order: each id once.
unfoldable pub insert_id : ℕ → List ℕ → List ℕ
insert_id id [] = id ∷ []
insert_id id (x ∷ xs) =
    if ltb id x then id ∷ x ∷ xs else if id == x then x ∷ xs else x ∷ insert_id id xs

unfoldable pub sort_ids : List ℕ → List ℕ
sort_ids [] = []
sort_ids (id ∷ ids) = insert_id id (sort_ids ids)

-- `nonEmpty`
abbrev pub non_empty : Text → Text
non_empty [] = codes "0"
non_empty (b ∷ bs) = b ∷ bs

-- The zero `Option` stands for a missing key.
abbrev blank_option : Choice
blank_option = record { id = 0; group_id = 0; code = ""; name = ""; price_delta = [] }

abbrev pub option_or_blank : Option Choice → Choice
option_or_blank none = blank_option
option_or_blank (some o) = o

abbrev group_code_of : Option Group → String
group_code_of none = ""
group_code_of (some g) = g.code

abbrev pub delta_of : List Choice → ℕ → Text
delta_of options id = non_empty (option_or_blank (find_option id options)).price_delta

abbrev selected_option : List Group → Choice → SelectedOption
selected_option groups o = record {
  option_id = o.id;
  group_code = group_code_of (find_group o.group_id groups);
  option_code = o.code;
  name = o.name;
  price_delta = non_empty o.price_delta;
}

abbrev pub parts : Definition → List ℕ → List Text
parts def ids = non_empty def.base_price ∷ map (delta_of (all_options def.groups)) (sort_ids ids)

abbrev pub result : Definition → List ℕ → List Problem → Bool → Text → Result
result def ids errors valid unit_price = record {
  valid = valid;
  errors = errors;
  base_price = def.base_price;
  unit_price = unit_price;
  currency = def.currency;
  selected =
      map
        (λ id.
          selected_option def.groups (option_or_blank (find_option id (all_options def.groups))))
        (sort_ids ids);
}

unfoldable pub all_errors : Definition → List ℕ → List Problem
all_errors def ids =
    let options = all_options def.groups in
    let selected = known_ids options ids in
    unknown_errors options ids
    ++ (flat_map (group_errors selected) def.groups
        ++ flat_map (rule_errors options selected) def.rules)

abbrev pub priced : Definition → List ℕ → List Problem → Option Text → Result
priced def ids (e ∷ es) total = result def ids (e ∷ es) false []
priced def ids [] none = result def ids (price_failed ∷ []) false []
priced def ids [] (some total) = result def ids [] true total

-- `Configure`
unfoldable pub configure : Definition → List ℕ → Result
configure def ids =
    let selected = known_ids (all_options def.groups) ids in
    priced def selected (all_errors def ids) (sum (parts def selected))
