-- ===== src/Billing/Requests/Allowed.antt =====
-- For whom an owner's request opens a checkout (`StartCheckoutView` of apps/billing/views.py).
use tenora.Base.{ℕ, refl, Option-cases, false, ◌≡◌, ◌⊎◌, ◌≢◌, arith, Option, none, some, inl, inr}
use tenora.Base.Table.{lookup, first_row}
use tenora.Exec.{Exec, Result, ok, err, continued, if_found, pure}
use tenora.Billing.Rows.{Plan, Subscription, Store, is_canceled}
use tenora.Billing.Gateway.{Gateway}
use tenora.Billing.Plans.{upgrade, classify}
use tenora.Billing.Metering.{is_tenant}
use tenora.Billing.Requests.{Reply, accepted, obstacle, start_checkout, active_plan, open_checkout}

-- The change from the workspace's plan to another is an upgrade.
pub record IsUpgrade (db : Store) (s : Subscription) (plan_pk : ℕ) : Type 0 where
  pub current : Plan
  pub new : Plan
  pub old_row : lookup s.plan db.plans ≡ some current
  pub new_row : active_plan plan_pk db ≡ some new
  pub open_ : is_canceled s.status ≡ false
  pub upgrades : classify s.plan current plan_pk new ≡ ok upgrade

obstacle-none :
    (plan : Plan) (pk : ℕ) (s : Subscription) (db db' : Store)
    → active_plan pk db ≡ some plan
    → obstacle plan pk s db ≡ (ok none, db')
    → IsUpgrade db s pk
unfolding obstacle
obstacle-none plan pk s db db' row h = elim (Option-cases (lookup s.plan db.plans)) [
  | inl missing ↦ absurd (ground arith)
  | inr (current, there) ↦ record {
    current = current;
    new = plan;
    old_row = there;
    new_row = row;
    open_ = ground arith;
    upgrades = ground arith;
  }
]

obstacle-accepted :
    (plan : Plan) (pk : ℕ) (s : Subscription) (k : Option ℕ) (db : Store)
    → (obstacle plan pk s db).0 ≢ ok (some (accepted k))
unfolding obstacle
obstacle-accepted plan pk s k db h = ground arith

-- A checkout is opened only where nothing stands in the way.
opened :
    (k : ℕ) (next : Exec Store Reply) (o : Result (Option Reply) × Store) (db' : Store)
    → continued (λ refusal. if_found refusal next pure) o ≡ (ok (accepted (some k)), db')
    → (o.0 ≡ ok none) ⊎ (o.0 ≡ ok (some (accepted (some k))))
opened k next (ok none, db) db' h = inl refl
opened k next (ok (some r), db) db' h = inr (ground arith)
opened k next (err e, db) db' h = absurd (ground arith)

module _ (gateway : Gateway) (stale_minutes fresh now tenant plan_pk : ℕ) (db db' : Store) (k : ℕ)
    (plan : Plan) (offered : active_plan plan_pk db ≡ some plan) where
  pub start_with :
      (row : Option (ℕ × Subscription))
      → continued
          (λ refusal.
            if_found refusal (open_checkout gateway stale_minutes fresh now tenant plan_pk) pure)
          (if_found row (pure none) (λ r. obstacle plan plan_pk r.1) db)
        ≡ (ok (accepted (some k)), db')
      → (row ≡ none)
        ⊎ ((pk : ℕ) × (s : Subscription) × (row ≡ some (pk, s)) × IsUpgrade db s plan_pk)
  start_with none h = inl refl
  start_with (some (pk, s)) h = elim (opened k _ (obstacle plan plan_pk s db) db' h) [
    | inl clear ↦ inr (
      pk,
      s,
      refl,
      obstacle-none plan plan_pk s db (obstacle plan plan_pk s db).1 offered
          (ground (arith, clear)),
    )
    | inr said ↦ absurd (obstacle-accepted plan plan_pk s (some k) db said)
  ]

-- Where an owner's request opens a checkout, the workspace has no subscription, or one that is
-- not canceled and whose change to the requested plan is an upgrade.
pub start_checkout-Allowed :
    (gateway : Gateway) (stale_minutes fresh now tenant plan_pk k : ℕ) (db db' : Store)
    → start_checkout gateway stale_minutes fresh now tenant plan_pk db
      ≡ (ok (accepted (some k)), db')
    → (first_row (is_tenant tenant) db.subscriptions ≡ none)
      ⊎ ((pk : ℕ) × (s : Subscription) × (first_row (is_tenant tenant) db.subscriptions
            ≡ some (pk, s))
          × IsUpgrade db s plan_pk)
unfolding start_checkout
start_checkout-Allowed gateway stale_minutes fresh now tenant plan_pk k db db' h =
    elim (Option-cases (active_plan plan_pk db)) [
      | inl missing ↦ absurd (ground arith)
      | inr (plan, offered) ↦
          start_with gateway stale_minutes fresh now tenant plan_pk db db' k plan offered
            (first_row (is_tenant tenant) db.subscriptions) (rw offered at h)
    ]
