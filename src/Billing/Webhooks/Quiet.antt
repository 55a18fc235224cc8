-- ===== src/Billing/Webhooks/Quiet.antt =====
-- The handlers of the webhooks (apps/billing/services.py) write no event.
use tenora.Base.{
  ℕ, ◌≡◌, refl, ◌∙◌, arith, Bool, Bool-cases, Option-cases, inl, inr, Option, none, some,
}
use tenora.Base.Table.{lookup}
use tenora.Exec.{
  Exec, Result, ok, err, Error, continued, rolled_back, recovered_if, require, if_found, pure, gets,
  when, ◌>>◌, ◌>>=◌,
}
use tenora.Billing.Rows.{
  Plan, Subscription, Status, SubscriptionCheckout, WebhookEvent, EventType, Store, update,
}
use tenora.Billing.Plans.{record_for_plan_change}
use tenora.Billing.Subscriptions.{
  period_end_of, create_subscription, transition_status, swap_plan, change_plan, adopt, adopt_new,
  apply_upgrade, cancel_subscription, insert_subscription,
}
use tenora.Billing.Webhooks.{
  Outcome, applied, noop, subscription_for, checkout_for, activate_existing, activate_rest,
  activate_due, trouble, upgrade, converge, existing_for, ensure_active, subscribe,
  activate_checkout, handle_activated, renew, synthesized, charge, handle_charged, handle_cancelled,
  with_period, charge_live, cancel_live, charge_unmatched, handle_payment_trouble, dispatch,
  advance, apply_event, is_stale, is_illegal, is_applied,
}

-- What a run leaves alone.
abbrev pub Keeps {ℓ} : {A : Type ℓ} → Store → Result A × Store → Type 0
Keeps db (_, db') = db'.events ≡ db.events

module _ {ℓ κ} {A : Type ℓ} {B : Type κ} where
  continued-Keeps :
      (db : Store) (f : A → Exec Store B) (r : Result A × Store)
      → Keeps db r
      → ((a : A) (db' : Store) → Keeps db' (f a db'))
      → Keeps db (continued f r)
  continued-Keeps db f (ok a, db') h k = k a db' ∙ h
  continued-Keeps db f (err e, db') h k = h

  required-Keeps :
      (o : Option A) (k : A → Exec Store B) (db : Store)
      → ((a : A) → Keeps db (k a db))
      → Keeps db ((require o >>= k) db)
  required-Keeps none k db h = refl
  required-Keeps (some a) k db h = h a

  found-Keeps :
      (o : Option A) (missing : Exec Store B) (k : A → Exec Store B) (db : Store)
      → Keeps db (missing db)
      → ((a : A) → Keeps db (k a db))
      → Keeps db (if_found o missing k db)
  found-Keeps none missing k db m h = m
  found-Keeps (some a) missing k db m h = h a

module _ {ℓ} {A : Type ℓ} where
  rolled_back-Keeps : (db : Store) (r : Result A × Store) → Keeps db r → Keeps db (rolled_back db r)
  rolled_back-Keeps db (ok a, db') h = h
  rolled_back-Keeps db (err e, db') h = refl

  recovered_if-Keeps :
      (db : Store) (catches : Error → Bool) (handler : Exec Store A) (r : Result A × Store)
      → Keeps db r
      → Keeps r.1 (handler r.1)
      → Keeps db (recovered_if catches handler r)
  recovered_if-Keeps db catches handler (ok a, db') h k = h
  recovered_if-Keeps db catches handler (err e, db') h k = elim (Bool-cases (catches e)) [
    | inl caught ↦ rw caught (k ∙ h)
    | inr passed ↦ rw passed h
  ]

update-Keeps : (pk : ℕ) (f : Subscription → Subscription) (db : Store) → Keeps db (update pk f db)
unfolding update
update-Keeps pk f db = ground arith

transition-Keeps : (pk : ℕ) (new : Status) (db : Store) → Keeps db (transition_status pk new db)
unfolding transition_status
transition-Keeps pk new db = ground (arith, update-Keeps pk (λ s. record s { status = new }) db)

then-Keeps :
    (pk : ℕ) (new : Status) (o : Outcome) (db : Store)
    → Keeps db ((transition_status pk new >> pure o) db)
then-Keeps pk new o db =
    continued-Keeps db (λ _. pure o) (transition_status pk new db) (transition-Keeps pk new db)
      (λ _ _. refl)

audit-Keeps :
    (now pk : ℕ) (s : Subscription) (from_pk : ℕ) (from_plan : Plan) (to_pk : ℕ) (to_plan : Plan)
    (db : Store)
    → Keeps db (record_for_plan_change now pk s from_pk from_plan to_pk to_plan db)
unfolding record_for_plan_change
audit-Keeps now pk s from_pk from_plan to_pk to_plan db = ground arith

swap-Keeps :
    (now pk : ℕ) (s : Subscription) (from_plan : Plan) (new_plan : ℕ) (to_plan : Plan) (db : Store)
    → Keeps db (swap_plan now pk s from_plan new_plan to_plan db)
unfolding swap_plan
swap-Keeps now pk s from_plan new_plan to_plan db =
    continued-Keeps db (λ _. update pk (λ s. record s { plan = new_plan }) >> pure pk) _
      (audit-Keeps now pk s s.plan from_plan new_plan to_plan db)
      (λ _ db'.
        continued-Keeps db' (λ _. pure pk) _
          (update-Keeps pk (λ s. record s { plan = new_plan }) db') (λ _ _. refl))

change-of :
    (now pk new_plan : ℕ) (s : Subscription) (from_plan to_plan : Option Plan) (db : Store)
    → lookup pk db.subscriptions ≡ some s
    → lookup s.plan db.plans ≡ from_plan
    → lookup new_plan db.plans ≡ to_plan
    → Keeps db (change_plan now pk new_plan db)
unfolding change_plan
change-of now pk new_plan s (some from_plan) (some to_plan) db e f t =
    ground (arith, swap-Keeps now pk s from_plan new_plan to_plan db)
change-of now pk new_plan s (some from_plan) none db e f t = ground arith
change-of now pk new_plan s none to_plan db e f t = ground arith

change-missing :
    (now pk new_plan : ℕ) (db : Store)
    → lookup pk db.subscriptions ≡ none
    → Keeps db (change_plan now pk new_plan db)
unfolding change_plan
change-missing now pk new_plan db e = ground arith

change-Keeps : (now pk new_plan : ℕ) (db : Store) → Keeps db (change_plan now pk new_plan db)
change-Keeps now pk new_plan db = elim (Option-cases (lookup pk db.subscriptions)) [
  | inl e ↦ change-missing now pk new_plan db e
  | inr (s, e) ↦
      change-of now pk new_plan s (lookup s.plan db.plans) (lookup new_plan db.plans) db e refl refl
]

adopt-Keeps : (pk : ℕ) (external : Option ℕ) (db : Store) → Keeps db (adopt_new pk external db)
unfolding adopt_new adopt update
adopt-Keeps pk external db = ground arith

upgrade_to-Keeps :
    (now pk new_plan : ℕ) (external : Option ℕ) (db : Store)
    → Keeps db (apply_upgrade now pk new_plan external db)
unfolding apply_upgrade
upgrade_to-Keeps now pk new_plan external db = rolled_back-Keeps db _ (
    continued-Keeps db (λ _. adopt_new pk external) (change_plan now pk new_plan db)
      (change-Keeps now pk new_plan db) (λ _ db'. adopt-Keeps pk external db'))

create-Keeps :
    (fresh tenant plan start end : ℕ) (external : Option ℕ) (db : Store)
    → Keeps db (create_subscription fresh tenant plan start end external db)
unfolding create_subscription insert_subscription
create-Keeps fresh tenant plan start end external db = ground arith

activate_existing-Keeps : (pk : ℕ) (s : Status) (db : Store) → Keeps db (activate_existing pk s db)
unfolding activate_existing
activate_existing-Keeps pk s db = ground (arith, then-Keeps pk Status.active applied db)

activate_rest-Keeps : (pk : ℕ) (s : Status) (db : Store) → Keeps db (activate_rest pk s db)
unfolding activate_rest
activate_rest-Keeps pk s db = ground (arith, then-Keeps pk Status.active applied db)

activate_due-Keeps : (pk : ℕ) (s : Status) (db : Store) → Keeps db (activate_due pk s db)
activate_due-Keeps pk s db = ground (arith, then-Keeps pk Status.active applied db)

trouble-Keeps : (pk : ℕ) (s : Status) (db : Store) → Keeps db (trouble pk s db)
trouble-Keeps pk s db = ground (arith, then-Keeps pk Status.past_due applied db)

upgrade-Keeps :
    (now pk : ℕ) (s : Subscription) (checkout : SubscriptionCheckout) (external : Option ℕ)
    (db : Store)
    → Keeps db (upgrade now pk s checkout external db)
unfolding upgrade
upgrade-Keeps now pk s checkout external db =
    ground (arith, upgrade_to-Keeps now pk checkout.plan external db)

converge-Keeps :
    (now : ℕ) (event : WebhookEvent) (checkout : SubscriptionCheckout) (db : Store)
    → Keeps db (converge now event checkout db)
unfolding converge
converge-Keeps now event checkout db =
    required-Keeps (existing_for event checkout.tenant db)
      (λ r. upgrade now r.0 r.1 checkout event.external_subscription_id) db
      (λ r. upgrade-Keeps now r.0 r.1 checkout event.external_subscription_id db)

ensure_active-Keeps : (pk : ℕ) (db : Store) → Keeps db (ensure_active pk db)
unfolding ensure_active
ensure_active-Keeps pk db =
    required-Keeps (lookup pk db.subscriptions) (λ s. activate_rest pk s.status) db
      (λ s. activate_rest-Keeps pk s.status db)

subscribe-Keeps :
    (now fresh : ℕ) (event : WebhookEvent) (checkout : SubscriptionCheckout) (plan : Plan)
    (db : Store)
    → Keeps db (subscribe now fresh event checkout plan db)
unfolding subscribe
subscribe-Keeps now fresh event checkout plan db =
    recovered_if-Keeps db _ (converge now event checkout)
      (create_subscription fresh checkout.tenant checkout.plan now (period_end_of plan now)
        event.external_subscription_id db)
      (create-Keeps fresh checkout.tenant checkout.plan now (period_end_of plan now)
        event.external_subscription_id db)
      (converge-Keeps now event checkout _)

activate_checkout-Keeps :
    (now fresh : ℕ) (event : WebhookEvent) (checkout : SubscriptionCheckout) (db : Store)
    → Keeps db (activate_checkout now fresh event checkout db)
unfolding activate_checkout
activate_checkout-Keeps now fresh event checkout db =
    required-Keeps (lookup checkout.plan db.plans)
      (λ plan. subscribe now fresh event checkout plan >>= ensure_active) db
      (λ plan.
        continued-Keeps db ensure_active (subscribe now fresh event checkout plan db)
          (subscribe-Keeps now fresh event checkout plan db) ensure_active-Keeps)

handle_activated-Keeps :
    (now fresh : ℕ) (event : WebhookEvent) (db : Store)
    → Keeps db (handle_activated now fresh event db)
unfolding handle_activated
handle_activated-Keeps now fresh event db =
    found-Keeps (subscription_for event db)
      (gets (checkout_for event) >>= λ checkout.
        if_found checkout (pure noop) (λ c. activate_checkout now fresh event c.1))
      (λ r. activate_existing r.0 r.1.status) db
      (found-Keeps (checkout_for event db) (pure noop) (λ c. activate_checkout now fresh event c.1)
        db refl (λ c. activate_checkout-Keeps now fresh event c.1 db))
      (λ r. activate_existing-Keeps r.0 r.1.status db)

renew-Keeps :
    (pk : ℕ) (s : Subscription) (start end : ℕ) (db : Store) → Keeps db (renew pk s start end db)
unfolding renew
renew-Keeps pk s start end db =
    continued-Keeps db (λ _. activate_due pk s.status) (update pk (with_period start end) db)
      (update-Keeps pk (with_period start end) db) (λ _ db'. activate_due-Keeps pk s.status db')

synthesized-Keeps : (pk : ℕ) (s : Subscription) (db : Store) → Keeps db (synthesized pk s db)
unfolding synthesized
synthesized-Keeps pk s db =
    required-Keeps (lookup s.plan db.plans)
      (λ plan. renew pk s s.current_period_end (period_end_of plan s.current_period_end)) db
      (λ plan. renew-Keeps pk s s.current_period_end (period_end_of plan s.current_period_end) db)

charge-Keeps :
    (pk : ℕ) (s : Subscription) (start end : Option ℕ) (db : Store)
    → Keeps db (charge pk s start end db)
unfolding charge
charge-Keeps pk s (some start) (some end) db = ground (arith, renew-Keeps pk s start end db)
charge-Keeps pk s (some start) none db = synthesized-Keeps pk s db
charge-Keeps pk s none end db = synthesized-Keeps pk s db

charge_live-Keeps :
    (event : WebhookEvent) (pk : ℕ) (s : Subscription) (db : Store)
    → Keeps db (charge_live event (pk, s) db)
charge_live-Keeps event pk s db =
    ground (arith, charge-Keeps pk s event.period_start event.period_end db)

handle_charged-Keeps :
    (now : ℕ) (event : WebhookEvent) (db : Store) → Keeps db (handle_charged now event db)
unfolding handle_charged
handle_charged-Keeps now event db =
    found-Keeps (subscription_for event db) (pure (charge_unmatched now event)) (charge_live event)
      db refl (λ r. charge_live-Keeps event r.0 r.1 db)

cancel_live-Keeps : (pk : ℕ) (s : Subscription) (db : Store) → Keeps db (cancel_live (pk, s) db)
unfolding cancel_subscription
cancel_live-Keeps pk s db = ground (arith, then-Keeps pk Status.canceled applied db)

handle_cancelled-Keeps : (event : WebhookEvent) (db : Store) → Keeps db (handle_cancelled event db)
unfolding handle_cancelled
handle_cancelled-Keeps event db =
    found-Keeps (subscription_for event db) (pure noop) cancel_live db refl
      (λ r. cancel_live-Keeps r.0 r.1 db)

handle_payment_trouble-Keeps :
    (event : WebhookEvent) (db : Store) → Keeps db (handle_payment_trouble event db)
unfolding handle_payment_trouble
handle_payment_trouble-Keeps event db =
    found-Keeps (subscription_for event db) (pure noop) (λ r. trouble r.0 r.1.status) db refl
      (λ r. trouble-Keeps r.0 r.1.status db)

dispatch-Keeps :
    (type : EventType) (now fresh : ℕ) (event : WebhookEvent) (db : Store)
    → Keeps db (dispatch type now fresh event db)
unfolding dispatch
dispatch-Keeps EventType.activated now fresh event db = handle_activated-Keeps now fresh event db
dispatch-Keeps EventType.charged now fresh event db = handle_charged-Keeps now event db
dispatch-Keeps EventType.cancelled now fresh event db = handle_cancelled-Keeps event db
dispatch-Keeps EventType.payment_trouble now fresh event db = handle_payment_trouble-Keeps event db
dispatch-Keeps EventType.unknown now fresh event db = refl

advance-Keeps :
    (sub_before : Option (ℕ × Subscription)) (at : Option ℕ) (db : Store)
    → Keeps db (advance sub_before at db)
unfolding advance update
advance-Keeps sub_before at db = ground arith

marking-Keeps :
    (sub_before : Option (ℕ × Subscription)) (at : Option ℕ) (o : Outcome) (db : Store)
    → Keeps db ((when (is_applied o) (advance sub_before at) >> pure o) db)
marking-Keeps sub_before at o db =
    continued-Keeps db (λ _. pure o) (when (is_applied o) (advance sub_before at) db)
      (ground (arith, advance-Keeps sub_before at db)) (λ _ _. refl)

pub apply_event-Keeps :
    (now fresh : ℕ) (event : WebhookEvent) (sub_before : Option (ℕ × Subscription)) (db : Store)
    → Keeps db (apply_event now fresh event sub_before db)
unfolding apply_event
apply_event-Keeps now fresh event sub_before db = elim (Bool-cases (is_stale event sub_before)) [
  | inl stale ↦ rw stale refl
  | inr current ↦ rw current (
      continued-Keeps db
        (λ o. when (is_applied o) (advance sub_before event.event_created_at) >> pure o) _
        (recovered_if-Keeps db is_illegal (pure noop) (dispatch event.event_type now fresh event db)
          (dispatch-Keeps event.event_type now fresh event db) refl)
        (marking-Keeps sub_before event.event_created_at))
]
