-- ===== src/Billing/Webhooks/Writes.antt =====
-- What the webhooks (`WebhookProcessingService` of apps/billing/services.py) write to the
-- subscriptions: the handlers make the writes of `SubscriptionService` and no other.
use tenora.Base.{ℕ, false, ◌≡◌, refl, arith, Bool-cases, ◌⊎◌, inl, inr, Option, none, some, leb}
use tenora.Base.Table.{lookup, save, first_row-lookup}
use tenora.Exec.{Exec, ok, pure, gets, require, if_found, ◌>>◌, ◌>>=◌}
use tenora.Billing.Rows.{
  Plan, Subscription, Status, SubscriptionCheckout, WebhookEvent, EventType, Store, is_canceled,
  same_id, update,
}
use tenora.Billing.Subscriptions.{
  period_end_of, create_subscription, transition_status, apply_upgrade, cancel_subscription,
}
use tenora.Billing.Subscriptions.Writes.{
  transition_status-Writes, apply_upgrade-Writes, create_subscription-Writes,
}
use tenora.Billing.Lifecycle.{
  Write, Writes, done, one, Writes-trans, continued-Writes, rolled_back-Writes, recovered_if-Writes,
}
use tenora.Billing.Lifecycle
use tenora.Billing.Webhooks.{
  Outcome, applied, noop, subscription_for, checkout_for, activate_existing, upgrade, converge,
  ensure_active, subscribe, activate_checkout, handle_activated, activate_rest, activate_due,
  trouble, renew, synthesized, charge, handle_charged, handle_cancelled, with_period, charge_live,
  cancel_live, charge_unmatched, handle_payment_trouble, dispatch, existing_for,
}

pub subscription_for-lookup :
    (event : WebhookEvent) (db : Store) (pk : ℕ) (s : Subscription)
    → subscription_for event db ≡ some (pk, s)
    → lookup pk db.subscriptions ≡ some s
unfolding subscription_for
subscription_for-lookup event db pk s h = ground (
  arith,
  first_row-lookup
      (λ (o : Subscription). same_id o.external_subscription_id event.external_subscription_id) pk s
      db.subscriptions,
)

pub update-found :
    (pk : ℕ) (f : Subscription → Subscription) (s : Subscription) (db : Store)
    → lookup pk db.subscriptions ≡ some s
    → update pk f db ≡ (ok tt, record db { subscriptions = save pk (f s) db.subscriptions })
unfolding update
update-found pk f s db e = ground arith

-- A transition, and the outcome after it.
transition-Writes :
    (pk : ℕ) (new : Status) (outcome : Outcome) (db : Store)
    → Writes db.subscriptions ((transition_status pk new >> pure outcome) db).1.subscriptions
transition-Writes pk new outcome db =
    continued-Writes db.subscriptions (λ _. pure outcome) (transition_status pk new db)
      (transition_status-Writes pk new db) (λ _ _. done)

activate_existing-Writes :
    (pk : ℕ) (status : Status) (db : Store)
    → Writes db.subscriptions (activate_existing pk status db).1.subscriptions
unfolding activate_existing
activate_existing-Writes pk Status.active db = done
activate_existing-Writes pk Status.canceled db = done
activate_existing-Writes pk Status.trialing db = transition-Writes pk Status.active applied db
activate_existing-Writes pk Status.past_due db = transition-Writes pk Status.active applied db

activate_rest-Writes :
    (pk : ℕ) (status : Status) (db : Store)
    → Writes db.subscriptions (activate_rest pk status db).1.subscriptions
unfolding activate_rest
activate_rest-Writes pk Status.active db = done
activate_rest-Writes pk Status.canceled db = done
activate_rest-Writes pk Status.trialing db = transition-Writes pk Status.active applied db
activate_rest-Writes pk Status.past_due db = transition-Writes pk Status.active applied db

activate_due-Writes :
    (pk : ℕ) (status : Status) (db : Store)
    → Writes db.subscriptions (activate_due pk status db).1.subscriptions
activate_due-Writes pk Status.active db = done
activate_due-Writes pk Status.canceled db = done
activate_due-Writes pk Status.trialing db = transition-Writes pk Status.active applied db
activate_due-Writes pk Status.past_due db = transition-Writes pk Status.active applied db

trouble-Writes :
    (pk : ℕ) (status : Status) (db : Store)
    → Writes db.subscriptions (trouble pk status db).1.subscriptions
trouble-Writes pk Status.active db = transition-Writes pk Status.past_due applied db
trouble-Writes pk Status.canceled db = done
trouble-Writes pk Status.trialing db = done
trouble-Writes pk Status.past_due db = done

upgrade_cases :
    (now pk : ℕ) (s : Subscription) (checkout : SubscriptionCheckout) (external : Option ℕ)
    (db : Store)
    → ((upgrade now pk s checkout external db).1 ≡ db)
      ⊎ ((upgrade now pk s checkout external db).1
          ≡ (apply_upgrade now pk checkout.plan external db).1)
unfolding upgrade
upgrade_cases now pk s checkout external db = ground arith

upgrade-Writes :
    (now pk : ℕ) (s : Subscription) (checkout : SubscriptionCheckout) (external : Option ℕ)
    (db : Store)
    → Writes db.subscriptions (upgrade now pk s checkout external db).1.subscriptions
upgrade-Writes now pk s checkout external db = elim (upgrade_cases now pk s checkout external db) [
  | inl e ↦ rw e done
  | inr e ↦ rw e (apply_upgrade-Writes now pk checkout.plan external db)
]

-- A query for a row, and what is done with it.
module _ {ℓ κ} {A : Type ℓ} {B : Type κ} where
  required-Writes :
      (o : Option A) (k : A → Exec Store B) (db : Store)
      → ((a : A) → o ≡ some a → Writes db.subscriptions (k a db).1.subscriptions)
      → Writes db.subscriptions ((require o >>= k) db).1.subscriptions
  required-Writes none k db w = done
  required-Writes (some a) k db w = w a refl

converge-Writes :
    (now : ℕ) (event : WebhookEvent) (checkout : SubscriptionCheckout) (db : Store)
    → Writes db.subscriptions (converge now event checkout db).1.subscriptions
unfolding converge
converge-Writes now event checkout db =
    required-Writes (existing_for event checkout.tenant db)
      (λ r. upgrade now r.0 r.1 checkout event.external_subscription_id) db
      (λ r _. upgrade-Writes now r.0 r.1 checkout event.external_subscription_id db)

ensure_active-Writes :
    (pk : ℕ) (db : Store) → Writes db.subscriptions (ensure_active pk db).1.subscriptions
unfolding ensure_active
ensure_active-Writes pk db =
    required-Writes (lookup pk db.subscriptions) (λ s. activate_rest pk s.status) db
      (λ s _. activate_rest-Writes pk s.status db)

subscribe-Writes :
    (now fresh : ℕ) (event : WebhookEvent) (checkout : SubscriptionCheckout) (plan : Plan)
    (db : Store)
    → Writes db.subscriptions (subscribe now fresh event checkout plan db).1.subscriptions
unfolding subscribe
subscribe-Writes now fresh event checkout plan db =
    recovered_if-Writes db.subscriptions _ (converge now event checkout)
      (create_subscription fresh checkout.tenant checkout.plan now (period_end_of plan now)
        event.external_subscription_id db)
      (create_subscription-Writes fresh checkout.tenant checkout.plan now (period_end_of plan now)
        event.external_subscription_id db)
      (converge-Writes now event checkout _)

activate_checkout-Writes :
    (now fresh : ℕ) (event : WebhookEvent) (checkout : SubscriptionCheckout) (db : Store)
    → Writes db.subscriptions (activate_checkout now fresh event checkout db).1.subscriptions
unfolding activate_checkout
activate_checkout-Writes now fresh event checkout db =
    required-Writes (lookup checkout.plan db.plans)
      (λ plan. subscribe now fresh event checkout plan >>= ensure_active) db
      (λ plan _.
        continued-Writes db.subscriptions ensure_active (subscribe now fresh event checkout plan db)
          (subscribe-Writes now fresh event checkout plan db) (λ pk _. ensure_active-Writes pk _))

-- What follows a query for a row that need not be there.
module _ {ℓ κ} {A : Type ℓ} {B : Type κ} where
  found-Writes :
      (o : Option A) (missing : Exec Store B) (k : A → Exec Store B) (db : Store)
      → Writes db.subscriptions (missing db).1.subscriptions
      → ((a : A) → o ≡ some a → Writes db.subscriptions (k a db).1.subscriptions)
      → Writes db.subscriptions (if_found o missing k db).1.subscriptions
  found-Writes none missing k db w v = w
  found-Writes (some a) missing k db w v = v a refl

handle_activated-Writes :
    (now fresh : ℕ) (event : WebhookEvent) (db : Store)
    → Writes db.subscriptions (handle_activated now fresh event db).1.subscriptions
unfolding handle_activated
handle_activated-Writes now fresh event db =
    found-Writes (subscription_for event db)
      (gets (checkout_for event) >>= λ checkout.
        if_found checkout (pure noop) (λ c. activate_checkout now fresh event c.1))
      (λ r. activate_existing r.0 r.1.status) db
      (found-Writes (checkout_for event db) (pure noop) (λ c. activate_checkout now fresh event c.1)
        db done (λ c _. activate_checkout-Writes now fresh event c.1 db))
      (λ r _. activate_existing-Writes r.0 r.1.status db)

-- The period and the status of a subscription that is not canceled.
renew-Writes :
    (pk : ℕ) (s : Subscription) (start end : ℕ) (db : Store)
    → lookup pk db.subscriptions ≡ some s
    → is_canceled s.status ≡ false
    → Writes db.subscriptions (renew pk s start end db).1.subscriptions
unfolding renew
renew-Writes pk s start end db e c =
    continued-Writes db.subscriptions (λ _. activate_due pk s.status)
      (update pk (with_period start end) db)
      (rw (update-found pk (with_period start end) s db e)
        (one (Lifecycle.renew pk s start end e c)))
      (λ _ _. activate_due-Writes pk s.status _)

synthesized-Writes :
    (pk : ℕ) (s : Subscription) (db : Store)
    → lookup pk db.subscriptions ≡ some s
    → is_canceled s.status ≡ false
    → Writes db.subscriptions (synthesized pk s db).1.subscriptions
unfolding synthesized
synthesized-Writes pk s db e c =
    required-Writes (lookup s.plan db.plans)
      (λ plan. renew pk s s.current_period_end (period_end_of plan s.current_period_end)) db
      (λ plan _.
        renew-Writes pk s s.current_period_end (period_end_of plan s.current_period_end) db e c)

charge-Writes :
    (pk : ℕ) (s : Subscription) (start end : Option ℕ) (db : Store)
    → lookup pk db.subscriptions ≡ some s
    → is_canceled s.status ≡ false
    → Writes db.subscriptions (charge pk s start end db).1.subscriptions
unfolding charge
charge-Writes pk s (some start) (some end) db e c =
    elim (Bool-cases (leb end s.current_period_start)) [
      | inl late ↦ rw late done
      | inr current ↦ rw current (renew-Writes pk s start end db e c)
    ]
charge-Writes pk s (some start) none db e c = synthesized-Writes pk s db e c
charge-Writes pk s none end db e c = synthesized-Writes pk s db e c

charge_live-Writes :
    (event : WebhookEvent) (pk : ℕ) (s : Subscription) (db : Store)
    → lookup pk db.subscriptions ≡ some s
    → Writes db.subscriptions (charge_live event (pk, s) db).1.subscriptions
charge_live-Writes event pk s db e = elim (Bool-cases (is_canceled s.status)) [
  | inl over ↦ rw over done
  | inr live ↦ rw live (charge-Writes pk s event.period_start event.period_end db e live)
]

handle_charged-Writes :
    (now : ℕ) (event : WebhookEvent) (db : Store)
    → Writes db.subscriptions (handle_charged now event db).1.subscriptions
unfolding handle_charged
handle_charged-Writes now event db =
    found-Writes (subscription_for event db) (pure (charge_unmatched now event)) (charge_live event)
      db done
      (λ r e. charge_live-Writes event r.0 r.1 db (subscription_for-lookup event db r.0 r.1 e))

cancel_live-Writes :
    (r : ℕ × Subscription) (db : Store) → Writes db.subscriptions (cancel_live r db).1.subscriptions
unfolding cancel_subscription
cancel_live-Writes (pk, s) db = elim (Bool-cases (is_canceled s.status)) [
  | inl over ↦ rw over done
  | inr live ↦ rw live (transition-Writes pk Status.canceled applied db)
]

handle_cancelled-Writes :
    (event : WebhookEvent) (db : Store)
    → Writes db.subscriptions (handle_cancelled event db).1.subscriptions
unfolding handle_cancelled
handle_cancelled-Writes event db =
    found-Writes (subscription_for event db) (pure noop) cancel_live db done
      (λ r _. cancel_live-Writes r db)

handle_payment_trouble-Writes :
    (event : WebhookEvent) (db : Store)
    → Writes db.subscriptions (handle_payment_trouble event db).1.subscriptions
unfolding handle_payment_trouble
handle_payment_trouble-Writes event db =
    found-Writes (subscription_for event db) (pure noop) (λ r. trouble r.0 r.1.status) db done
      (λ r _. trouble-Writes r.0 r.1.status db)

pub dispatch-Writes :
    (type : EventType) (now fresh : ℕ) (event : WebhookEvent) (db : Store)
    → Writes db.subscriptions (dispatch type now fresh event db).1.subscriptions
unfolding dispatch
dispatch-Writes EventType.activated now fresh event db = handle_activated-Writes now fresh event db
dispatch-Writes EventType.charged now fresh event db = handle_charged-Writes now event db
dispatch-Writes EventType.cancelled now fresh event db = handle_cancelled-Writes event db
dispatch-Writes EventType.payment_trouble now fresh event db =
    handle_payment_trouble-Writes event db
dispatch-Writes EventType.unknown now fresh event db = done
