-- ===== src/Billing/Subscriptions/Writes.antt =====
-- What the calls of `SubscriptionService` (apps/billing/services.py) write to the subscriptions.
use tenora.Base.{
  ℕ, true, false, ◌≡◌, refl, arith, Bool-cases, Option-cases, ◌⊎◌, inl, inr, Option, none, some,
}
use tenora.Base.Table.{lookup, save, exists, exists_other, lookup-save}
use tenora.Exec.{Result, ok, err, continued, rolled_back, pure, ◌>>◌}
use tenora.Billing.Rows.{Plan, Subscription, Status, Store, clashes, same_id, is_canceled, update}
use tenora.Billing.Plans.{record_for_plan_change}
use tenora.Billing.Subscriptions.{
  is_legal, new_subscription, insert_subscription, create_subscription, transition_status,
  change_plan, adopt, apply_upgrade, swap_plan, adopt_new,
}
use tenora.Billing.Lifecycle.{
  is_legal-⟶, Write, Writes, done, one, Writes-trans, continued-Writes, rolled_back-Writes,
}
use tenora.Billing.Lifecycle

transition_status_missing :
    (pk : ℕ) (new : Status) (db : Store)
    → lookup pk db.subscriptions ≡ none
    → (transition_status pk new db).1 ≡ db
unfolding transition_status
transition_status_missing pk new db e = ground arith

transition_status_refused :
    (pk : ℕ) (new : Status) (s : Subscription) (db : Store)
    → lookup pk db.subscriptions ≡ some s
    → is_legal s.status new ≡ false
    → (transition_status pk new db).1 ≡ db
unfolding transition_status
transition_status_refused pk new s db e l = ground arith

pub transition_status-legal :
    (pk : ℕ) (new : Status) (s : Subscription) (db : Store)
    → lookup pk db.subscriptions ≡ some s
    → is_legal s.status new ≡ true
    → transition_status pk new db
      ≡ (ok pk, record db { subscriptions = save pk (record s { status = new }) db.subscriptions })
unfolding transition_status update
transition_status-legal pk new s db e l = ground arith

pub transition_status-Writes :
    (pk : ℕ) (new : Status) (db : Store)
    → Writes db.subscriptions (transition_status pk new db).1.subscriptions
transition_status-Writes pk new db = elim (Option-cases (lookup pk db.subscriptions)) [
  | inl e ↦ rw (transition_status_missing pk new db e) done
  | inr (s, e) ↦ elim (Bool-cases (is_legal s.status new)) [
    | inl l ↦
        rw (transition_status-legal pk new s db e l)
          (one (Lifecycle.move pk s new e (is_legal-⟶ s.status new l)))
    | inr l ↦ rw (transition_status_refused pk new s db e l) done
  ]
]

abbrev IsSilent {ℓ} : {A : Type ℓ} → Store → Result A × Store → Type 0
IsSilent db (ok _, db') = db'.subscriptions ≡ db.subscriptions
IsSilent db (err _, db') = ¬ Unit

pub record_for_plan_change-IsSilent :
    (now pk : ℕ) (s : Subscription) (from_pk : ℕ) (from_plan : Plan) (to_pk : ℕ) (to_plan : Plan)
    (db : Store)
    → IsSilent db (record_for_plan_change now pk s from_pk from_plan to_pk to_plan db)
unfolding record_for_plan_change
record_for_plan_change-IsSilent now pk s from_pk from_plan to_pk to_plan db = ground arith

-- The outcome of a plan change: the plan of the row, or nothing.
abbrev pub Swapped : ℕ → ℕ → Store → Result ℕ × Store → Type 0
Swapped pk new_plan db (err _, db') = db'.subscriptions ≡ db.subscriptions
Swapped pk new_plan db (ok k, db') =
    (s : Subscription) × (lookup pk db.subscriptions ≡ some s)
    × (is_canceled s.status ≡ false)
    × (db'.subscriptions ≡ save pk (record s { plan = new_plan }) db.subscriptions)

after_audit {ℓ} :
    {A : Type ℓ} (pk : ℕ) (s : Subscription) (new_plan : ℕ) (db : Store) (r : Result A × Store)
    → lookup pk db.subscriptions ≡ some s
    → is_canceled s.status ≡ false
    → IsSilent db r
    → Swapped pk new_plan db
        (continued (λ _. update pk (λ s. record s { plan = new_plan }) >> pure pk) r)
unfolding update
after_audit pk s new_plan db (err _, db') e c h = absurd (h tt)
after_audit pk s new_plan db (ok _, db') e c h =
    let row : lookup pk db'.subscriptions ≡ some s = rw h e in ground (arith)

swap_plan-Swapped :
    (now pk : ℕ) (s : Subscription) (from_plan : Plan) (new_plan : ℕ) (to_plan : Plan) (db : Store)
    → lookup pk db.subscriptions ≡ some s
    → is_canceled s.status ≡ false
    → Swapped pk new_plan db (swap_plan now pk s from_plan new_plan to_plan db)
unfolding swap_plan
swap_plan-Swapped now pk s from_plan new_plan to_plan db e c =
    after_audit pk s new_plan db _ e c
      (record_for_plan_change-IsSilent now pk s s.plan from_plan new_plan to_plan db)

rolled_back-Swapped :
    (pk new_plan : ℕ) (db : Store) (r : Result ℕ × Store)
    → Swapped pk new_plan db r
    → Swapped pk new_plan db (rolled_back db r)
rolled_back-Swapped pk new_plan db (ok k, db') h = h
rolled_back-Swapped pk new_plan db (err e, db') h = refl

change_plan_refused :
    (now pk new_plan : ℕ) (db : Store)
    → lookup pk db.subscriptions ≡ none
    → (change_plan now pk new_plan db).1 ≡ db
unfolding change_plan
change_plan_refused now pk new_plan db e = ground arith

-- With the rows of the plans, and without one.
change_plan-of :
    (now pk new_plan : ℕ) (s : Subscription) (from_plan to_plan : Option Plan) (db : Store)
    → lookup pk db.subscriptions ≡ some s
    → lookup s.plan db.plans ≡ from_plan
    → lookup new_plan db.plans ≡ to_plan
    → Swapped pk new_plan db (change_plan now pk new_plan db)
unfolding change_plan
change_plan-of now pk new_plan s (some from_plan) (some to_plan) db e f t =
    ground (arith, swap_plan-Swapped now pk s from_plan new_plan to_plan db)
change_plan-of now pk new_plan s (some from_plan) none db e f t = ground arith
change_plan-of now pk new_plan s none to_plan db e f t = ground arith

pub change_plan-Swapped :
    (now pk new_plan : ℕ) (db : Store) → Swapped pk new_plan db (change_plan now pk new_plan db)
unfolding change_plan
change_plan-Swapped now pk new_plan db = elim (Option-cases (lookup pk db.subscriptions)) [
  | inl e ↦ ground (arith, change_plan_refused now pk new_plan db)
  | inr (s, e) ↦
      change_plan-of now pk new_plan s (lookup s.plan db.plans) (lookup new_plan db.plans) db e refl
        refl
]

Swapped-Writes :
    (pk new_plan : ℕ) (db : Store) (r : Result ℕ × Store)
    → Swapped pk new_plan db r
    → Writes db.subscriptions r.1.subscriptions
Swapped-Writes pk new_plan db (err e, db') h = rw h done
Swapped-Writes pk new_plan db (ok k, db') (s, e, c, h) =
    rw h (one (Lifecycle.replan pk s new_plan e c))

pub change_plan-Writes :
    (now pk new_plan : ℕ) (db : Store)
    → Writes db.subscriptions (change_plan now pk new_plan db).1.subscriptions
change_plan-Writes now pk new_plan db =
    Swapped-Writes pk new_plan db _ (change_plan-Swapped now pk new_plan db)

abbrev Adopted {ℓ} : {A : Type ℓ} → ℕ → Option ℕ → Store → Subscription → Result A × Store → Type 0
Adopted pk external db s (_, db') =
    (db'.subscriptions ≡ db.subscriptions)
    ⊎ ((exists_other pk (λ o. same_id o.external_subscription_id external) db.subscriptions ≡ false)
        × (db'.subscriptions
            ≡ save pk (record s { external_subscription_id = external }) db.subscriptions))

adopt-Adopted :
    (pk : ℕ) (external : Option ℕ) (db : Store) (s : Subscription)
    → lookup pk db.subscriptions ≡ some s
    → Adopted pk external db s (adopt pk external db)
unfolding adopt update
adopt-Adopted pk external db s e = ground arith

adopt_new-Adopted :
    (pk : ℕ) (external : Option ℕ) (db : Store) (s : Subscription)
    → lookup pk db.subscriptions ≡ some s
    → Adopted pk external db s (adopt_new pk external db)
unfolding adopt_new
adopt_new-Adopted pk external db s e = ground (arith, adopt-Adopted pk external db s)

Adopted-Writes {ℓ} :
    {A : Type ℓ} (pk : ℕ) (external : Option ℕ) (db : Store) (s : Subscription)
    (r : Result A × Store)
    → lookup pk db.subscriptions ≡ some s
    → is_canceled s.status ≡ false
    → Adopted pk external db s r
    → Writes db.subscriptions r.1.subscriptions
Adopted-Writes pk external db s r row c (inl h) = rw h done
Adopted-Writes pk external db s r row c (inr h) =
    rw h.1 (one (Lifecycle.adopt pk s external row c h.0))

after_swap :
    (pk new_plan : ℕ) (external : Option ℕ) (db : Store) (r : Result ℕ × Store)
    → Swapped pk new_plan db r
    → Writes db.subscriptions (continued (λ _. adopt_new pk external) r).1.subscriptions
after_swap pk new_plan external db (err e, db') h = rw h done
after_swap pk new_plan external db (ok k, db') (s, e, c, h) =
    let s' : Subscription = record s { plan = new_plan } in
    let row : lookup pk db'.subscriptions ≡ some s' =
      rw h (ground (arith, lookup-save pk pk s' db.subscriptions)) in
    Writes-trans (Swapped-Writes pk new_plan db (ok k, db') (s, e, c, h)) (
      Adopted-Writes pk external db' s' (adopt_new pk external db') row c
        (adopt_new-Adopted pk external db' s' row))

pub apply_upgrade-Writes :
    (now pk new_plan : ℕ) (external : Option ℕ) (db : Store)
    → Writes db.subscriptions (apply_upgrade now pk new_plan external db).1.subscriptions
unfolding apply_upgrade
apply_upgrade-Writes now pk new_plan external db =
    rolled_back-Writes db _
      (after_swap pk new_plan external db _ (change_plan-Swapped now pk new_plan db))

abbrev Inserted : ℕ → Subscription → Store → Result ℕ × Store → Type 0
Inserted fresh s db (err _, db') = db' ≡ db
Inserted fresh s db (ok k, db') =
    (k ≡ fresh)
    × (lookup fresh db.subscriptions ≡ none)
    × (exists (clashes s) db.subscriptions ≡ false)
    × (db' ≡ record db { subscriptions = save fresh s db.subscriptions })

pub create_subscription-Inserted :
    (fresh tenant plan start end : ℕ) (external : Option ℕ) (db : Store)
    → Inserted fresh
        (new_subscription tenant plan start end external)
        db
        (create_subscription fresh tenant plan start end external db)
unfolding create_subscription insert_subscription
create_subscription-Inserted fresh tenant plan start end external db = ground arith

Inserted-Writes :
    (fresh tenant plan start end : ℕ) (external : Option ℕ) (db : Store) (r : Result ℕ × Store)
    → Inserted fresh (new_subscription tenant plan start end external) db r
    → Writes db.subscriptions r.1.subscriptions
Inserted-Writes fresh tenant plan start end external db (err e, db') h = rw h done
Inserted-Writes fresh tenant plan start end external db (ok k, db') (_, e, c, h) =
    rw h (one (Lifecycle.insert fresh tenant plan start end external e c))

pub create_subscription-Writes :
    (fresh tenant plan start end : ℕ) (external : Option ℕ) (db : Store)
    → Writes db.subscriptions
        (create_subscription fresh tenant plan start end external db).1.subscriptions
create_subscription-Writes fresh tenant plan start end external db =
    Inserted-Writes fresh tenant plan start end external db _
      (create_subscription-Inserted fresh tenant plan start end external db)
