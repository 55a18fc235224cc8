-- ===== src/Billing/Webhooks.antt =====
-- `WebhookService` and `WebhookProcessingService` of apps/billing/services.py.
pub mod Writes
pub mod Once
pub mod Quiet
pub mod Sweep
pub mod Activation
pub mod Arrival
pub mod Cancellation
pub mod Life
pub mod Ordered
use tenora.Base.{
  ℕ, ◌+◌, Bool, true, false, not, ◌&&◌, ◌||◌, Option, none, some, List, [], ◌∷◌, is_some, ltb, leb,
  ◌==◌, if◌then◌else◌,
}
use tenora.Base.Table.{Table, lookup, save, first_row, exists}
use tenora.Exec.{
  Exec, Result, ok, err, Error, integrity, exception, pure, gets, modify, atomic, require,
  except_integrity, except_if, if_found, when, ◌>>=◌, ◌>>◌, illegal_state_transition,
  subscription_already_exists,
}
use tenora.Billing.Rows.{
  Plan, Subscription, Status, SubscriptionCheckout, WebhookEvent, EventType, activated, charged,
  cancelled, payment_trouble, Store, update, same_id, is_canceled, plan_row,
}
use tenora.Billing.Plans.{classify}
use tenora.Billing.Subscriptions.{
  day, period_end_of, create_subscription, transition_status, apply_upgrade, cancel_subscription,
}

abbrev pub is_event : ℕ → WebhookEvent → Bool
is_event external_event_id e = e.external_event_id == external_event_id

insert_event : ℕ → WebhookEvent → Exec {0} Store Unit
insert_event fresh event db =
    if is_some (lookup fresh db.events) || exists (is_event event.external_event_id) db.events
    then (err integrity, db)
    else (ok tt, record db { events = save fresh event db.events })

-- The key of the new row, or of the one that is stored already.
unfoldable pub record_event : ℕ → WebhookEvent → Exec Store ℕ
unfolding insert_event
record_event fresh event = except_integrity (atomic (insert_event fresh event >> pure fresh)) (do
  row ← gets (λ db. first_row (is_event event.external_event_id) db.events)
  row ← require row
  pure row.0)

pub data Outcome : Type 0 where
  applied skipped noop deferred : Outcome

abbrev pub is_applied : Outcome → Bool
is_applied applied = true
is_applied _ = false

abbrev pub is_deferred : Outcome → Bool
is_deferred deferred = true
is_deferred _ = false

abbrev pub is_illegal : Error → Bool
is_illegal (exception illegal_state_transition) = true
is_illegal _ = false

abbrev is_existing : Error → Bool
is_existing (exception subscription_already_exists) = true
is_existing _ = false

abbrev pub is_cancellation : EventType → Bool
is_cancellation cancelled = true
is_cancellation _ = false

-- `_subscription_for`
unfoldable pub subscription_for : WebhookEvent → Store → Option (ℕ × Subscription)
subscription_for event db =
    if is_some event.external_subscription_id
    then first_row (λ s. same_id s.external_subscription_id event.external_subscription_id)
        db.subscriptions
    else none

unfoldable pub checkout_for : WebhookEvent → Store → Option (ℕ × SubscriptionCheckout)
checkout_for event db =
    if is_some event.external_subscription_id
    then first_row (λ c. same_id c.external_subscription_id event.external_subscription_id)
        db.checkouts
    else none

-- Whether an instant lies before another, where both are known.
abbrev pub before : Option ℕ → Option ℕ → Bool
before (some a) (some b) = ltb a b
before _ _ = false

-- `_is_stale`
unfoldable pub is_stale : WebhookEvent → Option (ℕ × Subscription) → Bool
is_stale event none = false
is_stale event (some (_, s)) =
    not (is_cancellation event.event_type) && before event.event_created_at s.last_event_at

-- By the status that the subscription has.
unfoldable pub activate_existing : ℕ → Status → Exec Store Outcome
activate_existing pk Status.active = pure noop
activate_existing pk Status.canceled = pure noop
activate_existing pk _ = transition_status pk Status.active >> pure applied

-- The upgrade that a checkout for another plan was for, unless the policy refuses it.
unfoldable pub upgrade : ℕ → ℕ → Subscription → SubscriptionCheckout → Option ℕ → Exec Store ℕ
upgrade now pk s checkout external = if s.plan == checkout.plan then pure pk else do
  current ← plan_row s.plan
  new ← plan_row checkout.plan
  elim (classify s.plan current checkout.plan new) [
    | err _ ↦ pure pk
    | ok _ ↦ apply_upgrade now pk checkout.plan external
  ]

-- The subscription that exists already: by the provider id, or by the workspace.
abbrev pub existing_for : WebhookEvent → ℕ → Store → Option (ℕ × Subscription)
existing_for event tenant db = elim (subscription_for event db) [
  | some row ↦ some row
  | none ↦ first_row (λ s. s.tenant == tenant) db.subscriptions
]

unfoldable pub converge : ℕ → WebhookEvent → SubscriptionCheckout → Exec Store ℕ
converge now event checkout = do
  row ← gets (existing_for event checkout.tenant)
  (pk, s) ← require row
  upgrade now pk s checkout event.external_subscription_id

-- Activates the subscription unless it is active or canceled.
unfoldable pub activate_rest : ℕ → Status → Exec Store Outcome
activate_rest pk Status.active = pure applied
activate_rest pk Status.canceled = pure applied
activate_rest pk _ = transition_status pk Status.active >> pure applied

unfoldable pub ensure_active : ℕ → Exec Store Outcome
ensure_active pk = do
  row ← gets (λ db. lookup pk db.subscriptions)
  s ← require row
  activate_rest pk s.status

-- The new subscription, or the one that is there.
unfoldable pub subscribe : ℕ → ℕ → WebhookEvent → SubscriptionCheckout → Plan → Exec Store ℕ
subscribe now fresh event checkout plan =
    except_if is_existing
      (create_subscription fresh checkout.tenant checkout.plan now (period_end_of plan now)
        event.external_subscription_id)
      (converge now event checkout)

unfoldable pub activate_checkout : ℕ → ℕ → WebhookEvent → SubscriptionCheckout → Exec Store Outcome
activate_checkout now fresh event checkout = do
  plan ← plan_row checkout.plan
  pk ← subscribe now fresh event checkout plan
  ensure_active pk

unfoldable pub handle_activated : ℕ → ℕ → WebhookEvent → Exec Store Outcome
handle_activated now fresh event = do
  row ← gets (subscription_for event)
  if_found row
      (do
        checkout ← gets (checkout_for event)
        if_found checkout (pure noop) (λ c. activate_checkout now fresh event c.1))
      (λ r. activate_existing r.0 r.1.status)

-- UNMATCHED_CHARGED_RETRY_WINDOW
abbrev pub retry_window : ℕ
retry_window = day

unfoldable pub charge_unmatched : ℕ → WebhookEvent → Outcome
charge_unmatched now event =
    if not (is_some event.external_subscription_id)
    then noop
    else if ltb (event.received_at + retry_window) now
    then noop
    else deferred

abbrev pub with_period : ℕ → ℕ → Subscription → Subscription
with_period start end s = record s { current_period_start = start; current_period_end = end }

abbrev pub activate_due : ℕ → Status → Exec Store Outcome
activate_due pk Status.past_due = transition_status pk Status.active >> pure applied
activate_due pk Status.trialing = transition_status pk Status.active >> pure applied
activate_due pk _ = pure applied

unfoldable pub renew : ℕ → Subscription → ℕ → ℕ → Exec Store Outcome
renew pk s start end = do update pk (with_period start end); activate_due pk s.status

-- The period after the current one.
unfoldable pub synthesized : ℕ → Subscription → Exec Store Outcome
synthesized pk s = do
  plan ← plan_row s.plan
  renew pk s s.current_period_end (period_end_of plan s.current_period_end)

-- The period that the provider reports, or a synthesized one.
unfoldable pub charge : ℕ → Subscription → Option ℕ → Option ℕ → Exec Store Outcome
charge pk s (some start) (some end) =
    if leb end s.current_period_start then pure noop else renew pk s start end
charge pk s _ _ = synthesized pk s

abbrev pub charge_live : WebhookEvent → ℕ × Subscription → Exec Store Outcome
charge_live event (pk, s) =
    if is_canceled s.status then pure noop else charge pk s event.period_start event.period_end

unfoldable pub handle_charged : ℕ → WebhookEvent → Exec Store Outcome
handle_charged now event = do
  row ← gets (subscription_for event)
  if_found row (pure (charge_unmatched now event)) (charge_live event)

abbrev pub cancel_live : ℕ × Subscription → Exec Store Outcome
cancel_live (pk, s) =
    if is_canceled s.status then pure noop else cancel_subscription pk >> pure applied

unfoldable pub handle_cancelled : WebhookEvent → Exec Store Outcome
handle_cancelled event = do
  row ← gets (subscription_for event)
  if_found row (pure noop) cancel_live

abbrev pub trouble : ℕ → Status → Exec Store Outcome
trouble pk Status.active = transition_status pk Status.past_due >> pure applied
trouble pk _ = pure noop

unfoldable pub handle_payment_trouble : WebhookEvent → Exec Store Outcome
handle_payment_trouble event = do
  row ← gets (subscription_for event)
  if_found row (pure noop) (λ r. trouble r.0 r.1.status)

-- The handler of the event's type.
unfoldable pub dispatch : EventType → ℕ → ℕ → WebhookEvent → Exec Store Outcome
dispatch activated now fresh event = handle_activated now fresh event
dispatch charged now fresh event = handle_charged now event
dispatch cancelled now fresh event = handle_cancelled event
dispatch payment_trouble now fresh event = handle_payment_trouble event
dispatch EventType.unknown now fresh event = pure noop

-- Whether the event is newer than the last one that was applied.
abbrev pub advances : ℕ → Option ℕ → Bool
advances at none = true
advances at (some last) = ltb last at

-- Step 4: the mark of the subscription that was there before.
unfoldable pub advance : Option (ℕ × Subscription) → Option ℕ → Exec {0} Store Unit
advance (some (pk, s)) (some at) =
    when (advances at s.last_event_at) (update pk (λ s. record s { last_event_at = some at }))
advance _ _ = pure tt

unfoldable pub apply_event : ℕ → ℕ → WebhookEvent → Option (ℕ × Subscription) → Exec Store Outcome
apply_event now fresh event sub_before = if is_stale event sub_before then pure noop else do
  outcome ← except_if is_illegal (dispatch event.event_type now fresh event) (pure noop)
  when (is_applied outcome) (advance sub_before event.event_created_at)
  pure outcome

unfoldable pub settle : ℕ → WebhookEvent → Outcome → Exec {0} Store Unit
settle pk event outcome =
    when (not (is_deferred outcome))
      (modify (λ db. record db { events = save pk (record event { processed = true }) db.events }))

-- One event, unless it is processed.
unfoldable pub process : ℕ → ℕ → ℕ → WebhookEvent → Exec Store Outcome
process now fresh pk event = if event.processed then pure skipped else do
  sub_before ← gets (subscription_for event)
  outcome ← apply_event now fresh event sub_before
  settle pk event outcome
  pure outcome

-- `fresh` is the key of the subscription, should one be created.
unfoldable pub process_event : ℕ → ℕ → ℕ → Exec Store Outcome
process_event now fresh pk =
    atomic
      do row ← gets (λ db. lookup pk db.events); event ← require row; process now fresh pk event

-- The outcome of one event, or the error that `process_event` raised.
pub record SweptEvent : Type 0 where
  pub event : ℕ
  pub outcome : Result Outcome

pending_from : Table WebhookEvent → List ℕ
pending_from [] = []
pending_from ((pk, e) ∷ rows) =
    let rest = pending_from rows in if e.processed then rest else pk ∷ rest

-- `filter(processed=False)`, the oldest first.
unfoldable pub pending : Store → List ℕ
unfolding pending_from
pending db = pending_from db.events

-- One event of the sweep; an error is kept with it and does not end the sweep.
unfoldable pub sweep_one : ℕ → ℕ → ℕ → Store → SweptEvent × Store
sweep_one now fresh pk db =
    let (outcome, db') = process_event now fresh pk db in
    (record { event = pk; outcome = outcome }, db')

-- The events that were pending when the sweep began, each with the key of a new subscription.
unfoldable pub sweep : ℕ → (ℕ → ℕ) → List ℕ → Store → List SweptEvent × Store
sweep now fresh [] db = ([], db)
sweep now fresh (pk ∷ pks) db =
    let (one, db') = sweep_one now (fresh pk) pk db in
    let (rest, db'') = sweep now fresh pks db' in (one ∷ rest, db'')

unfoldable pub process_pending : ℕ → (ℕ → ℕ) → Store → List SweptEvent × Store
process_pending now fresh db = sweep now fresh (pending db) db
