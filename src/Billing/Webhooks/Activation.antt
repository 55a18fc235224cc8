-- ===== src/Billing/Webhooks/Activation.antt =====
-- A charge before its activation, and an activation that creates the subscription (`process_event` of
-- apps/billing/services.py).
use tenora.Base.{ℕ, true, false, ◌≡◌, ◌+◌, ◌≤◌, arith, none, some}
use tenora.Base.Table.{lookup, save, exists, lookup-save_same, save-save}
use tenora.Exec.{ok}
use tenora.Billing.Rows.{
  Plan, Subscription, Status, SubscriptionCheckout, WebhookEvent, EventType, Store, clashes,
}
use tenora.Billing.Subscriptions.{
  period_end_of, is_legal, new_subscription, create_subscription, insert_subscription,
}
use tenora.Billing.Subscriptions.Writes.{transition_status-legal}
use tenora.Billing.Webhooks.{
  applied, deferred, retry_window, subscription_for, checkout_for, activate_rest, ensure_active,
  subscribe, activate_checkout, handle_activated, charge_unmatched, handle_charged, dispatch,
  is_stale, advance, apply_event, settle, process, process_event,
}

-- The event, and that it is not processed.
pub record IsPending (db : Store) (pk : ℕ) (event : WebhookEvent) (type : EventType) : Type 0 where
  pub row : lookup pk db.events ≡ some event
  pub unprocessed : event.processed ≡ false
  pub typed : event.event_type ≡ type

abbrev pub marked : WebhookEvent → WebhookEvent
marked event = record event { processed = true }

pub early_charge :
    (now fresh pk x : ℕ) (event : WebhookEvent) (db : Store)
    → IsPending db pk event EventType.charged
    → event.external_subscription_id ≡ some x
    → subscription_for event db ≡ none
    → now ≤ event.received_at + retry_window
    → process_event now fresh pk db ≡ (ok deferred, db)
unfolding process_event process apply_event settle is_stale dispatch handle_charged charge_unmatched
early_charge now fresh pk x event db p e none_ young = ground arith

-- The subscription that an activation makes of a checkout.
abbrev pub activated_row : ℕ → WebhookEvent → SubscriptionCheckout → Plan → Subscription
activated_row now event checkout plan = record {
  tenant = checkout.tenant;
  plan = checkout.plan;
  status = Status.active;
  external_subscription_id = event.external_subscription_id;
  last_event_at = none;
  current_period_start = now;
  current_period_end = period_end_of plan now;
}

module _ (now fresh : ℕ) (event : WebhookEvent) (checkout : SubscriptionCheckout) (plan : Plan)
    (db : Store) (plan_row : lookup checkout.plan db.plans ≡ some plan)
    (free : lookup fresh db.subscriptions ≡ none)
    (new : exists
        (clashes (
          new_subscription checkout.tenant checkout.plan now
            (period_end_of plan now)
            event.external_subscription_id))
        db.subscriptions
      ≡ false) where
  trial : Subscription
  trial =
      new_subscription checkout.tenant checkout.plan now (period_end_of plan now)
        event.external_subscription_id

  with_trial : Store
  with_trial = record db { subscriptions = save fresh trial db.subscriptions }

  subscribe_new : subscribe now fresh event checkout plan db ≡ (ok fresh, with_trial)
  unfolding subscribe create_subscription insert_subscription with_trial trial
  subscribe_new = ground arith

  unfoldable pub with_active : Store
  with_active = record db {
    subscriptions = save fresh (activated_row now event checkout plan) db.subscriptions;
  }

  ensure_active_new : ensure_active fresh with_trial ≡ (ok applied, with_active)
  unfolding ensure_active activate_rest is_legal with_trial trial with_active
  ensure_active_new = ground (
    arith,
    transition_status-legal fresh Status.active trial with_trial,
    lookup-save_same fresh trial db.subscriptions,
    save-save fresh (activated_row now event checkout plan) trial db.subscriptions,
  )

  module _ (pk x c : ℕ) (pending : IsPending db pk event EventType.activated)
      (id : event.external_subscription_id ≡ some x) (unmatched : subscription_for event db ≡ none)
      (in_flight : checkout_for event db ≡ some (c, checkout)) where
    dispatch_new : dispatch event.event_type now fresh event db ≡ (ok applied, with_active)
    unfolding dispatch handle_activated activate_checkout
    dispatch_new = ground (arith, subscribe_new, ensure_active_new)

    pub activation :
        process_event now fresh pk db
        ≡ (ok applied, record with_active { events = save pk (marked event) db.events })
    unfolding process_event process apply_event settle is_stale advance with_active
    activation = ground (arith, dispatch_new)
