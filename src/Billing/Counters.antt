-- ===== src/Billing/Counters.antt =====
-- The counters of usage of internal/billing/billing.go.
use teggo.Prelude.{
  ◌≡◌, refl, ◌∙◌, ap, ℕ, ◌+◌, ◌≤◌, ◌<◌, Bool, true, false, Option, some, List, [], ◌∷◌, ◌==◌,
  ==_iff, ◌||◌, if◌then◌else◌, String, str_eq_iff, ◌⊎◌, inl, inr, Option-cases, arith,
}
use teggo.Prelude.Int.{ℤ, pos, ◌+ℤ◌, zero_+ℤ, pos_+ℤ, wrap_64, wrap_64_small}
use teggo.Billing.{
  Entitlements, limit_of, period_key_for, Counter, counts, usage_value, increment_usage,
  current_usage, exceeds, over, record_usage,
}

counts-keys :
    (c : Counter) (o : ℕ) (m p : String)
    → counts c o m p ≡ true
    → (c.org ≡ o) × (c.metric ≡ m) × (c.period ≡ p)
unfolding counts
counts-keys c o m p h = ground (arith, ==_iff c.org o, str_eq_iff c.metric m, str_eq_iff c.period p)

counts-same :
    (c : Counter) (v : ℤ) (o : ℕ) (m p : String)
    → counts (record c { value = v }) o m p ≡ counts c o m p
unfolding counts
counts-same c v o m p = refl

-- What an increment leaves in a counter was there, or is the sum in the counter incremented.
pub increment-cases :
    (o : ℕ) (m p : String) (o' : ℕ) (m' p' : String) (n v : ℤ) (cs : List Counter)
    → usage_value o m p (increment_usage o' m' p' n cs) ≡ some v
    → (usage_value o m p cs ≡ some v)
      ⊎ ((o' ≡ o) × (m' ≡ m) × (p' ≡ p) × (v ≡ current_usage true (usage_value o' m' p' cs) +ℤ n))
unfolding usage_value increment_usage
increment-cases o m p o' m' p' n v [] h =
    let c : Counter = record { org = o'; metric = m'; period = p'; value = n } in
    ground (arith, counts-keys c o m p, zero_+ℤ n)
increment-cases o m p o' m' p' n v (c ∷ cs) h = ground (
  arith,
  counts-keys c o m p,
  counts-keys c o' m' p',
  counts-same c (c.value +ℤ n) o m p,
  increment-cases o m p o' m' p' n v cs,
)

-- The counters of a metric of an org, in each period, are at most the cap.
unfoldable pub IsWithin : ℕ → String → ℕ → List Counter → Type 0
IsWithin o m l cs =
    (p : String) (v : ℤ) → usage_value o m p cs ≡ some v → (u : ℕ) × (v ≡ pos u) × (u ≤ l)

-- Where the request is on the metric of the org, there is room for k more in the period.
abbrev pub HasRoom : ℕ → String → ℕ → ℕ → String → String → ℕ → List Counter → Type 0
HasRoom o m l org metric p k cs =
    org ≡ o
    → metric ≡ m
    → (u : ℕ) × (current_usage true (usage_value o m p cs) ≡ pos u) × (u + k ≤ l)

increment-IsWithin :
    (o : ℕ) (m : String) (l org : ℕ) (metric p : String) (k : ℕ) (cs : List Counter)
    → HasRoom o m l org metric p k cs
    → IsWithin o m l cs
    → IsWithin o m l (increment_usage org metric p (pos k) cs)
unfolding IsWithin
increment-IsWithin o m l org metric p k cs room h q v found =
    elim (increment-cases o m q org metric p (pos k) v cs found) [
      | inl before ↦ h q v before
      | inr (key, name, _, sum) ↦
          let (u, current, fit) = room key name in (u + k, grind (arith, pos_+ℤ u k), fit)
    ]

pub record-IsWithin :
    (month : ℕ → String) (now : ℕ) (answers : Bool) (o : ℕ) (m : String) (l org : ℕ)
    (metric : String) (k : ℕ) (cs : List Counter)
    → HasRoom o m l org metric (period_key_for month metric now) k cs
    → IsWithin o m l cs
    → IsWithin o m l (record_usage month now answers org metric (pos k) cs)
unfolding record_usage
record-IsWithin month now answers o m l org metric k cs room h =
    let p = period_key_for month metric now in
    let counted = increment-IsWithin o m l org metric p k cs room h in
    either (org == 0 || k == 0) cs _ h (either answers _ cs counted h)
  where
    either :
        (b : Bool) (xs ys : List Counter)
        → IsWithin o m l xs
        → IsWithin o m l ys
        → IsWithin o m l (if b then xs else ys)
    either true xs ys p q = p
    either false xs ys p q = q

current-IsWithin :
    (o : ℕ) (m : String) (l : ℕ) (p : String) (cs : List Counter)
    → IsWithin o m l cs
    → (u : ℕ) × (current_usage true (usage_value o m p cs) ≡ pos u) × (u ≤ l)
unfolding IsWithin
current-IsWithin o m l p cs h = elim (Option-cases (usage_value o m p cs)) [
  | inl nothing ↦ (0, rw nothing refl, omega arith)
  | inr (v, found) ↦ let (u, e, fit) = h p v found in (u, rw found e, fit)
]

not_exceeds :
    (l u k : ℕ)
    → l + k < 9223372036854775808
    → u ≤ l
    → exceeds (pos l) (pos u) (pos k) ≡ false
    → u + k ≤ l
not_exceeds l u k small fit h =
    let e : wrap_64 (pos u +ℤ pos k) ≡ pos (u + k) =
      ap wrap_64 (pos_+ℤ u k) ∙ wrap_64_small (u + k) (ground arith) in
    ground arith

-- A test that lets k more pass leaves room for them.
pub over-room :
    (month : ℕ → String) (now : ℕ) (ent : Option Entitlements) (o : ℕ) (m : String) (l k : ℕ)
    (cs : List Counter)
    → limit_of ent m ≡ some (pos l)
    → l + k < 9223372036854775808
    → IsWithin o m l cs
    → over month now true ent o m (pos k) cs ≡ false
    → (u : ℕ) × (current_usage true (usage_value o m (period_key_for month m now) cs) ≡ pos u)
      × (u + k ≤ l)
unfolding over
over-room month now ent o m l k cs limit small h passes =
    let (u, e, fit) = current-IsWithin o m l (period_key_for month m now) cs h in
    (u, e, not_exceeds l u k small fit (rw (over, limit, e) at passes))
