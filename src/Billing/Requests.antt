-- ===== src/Billing/Requests.antt =====
-- The views of apps/billing/views.py: an owner's checkout and changes of the subscription, and the
-- endpoint of the webhooks. Permissions, and the shape of a request, are checked before.
pub mod Allowed
use tenora.Base.{ℕ, Bool, not, Option, none, some, if◌then◌else◌}
use tenora.Base.Table.{lookup, first_row}
use tenora.Exec.{
  Exec, Exception, Result, ok, err, does_not_exist, exception, pure, gets, lift, if_found, ◌>>=◌,
  illegal_state_transition, plan_not_synced, checkout_plan_mismatch, checkout_signature_invalid,
  subscriber_contact_required, provider_unavailable,
}
use tenora.Billing.Rows.{Plan, Subscription, Status, WebhookEvent, Store, is_canceled, plan_row}
use tenora.Billing.Plans.{PlanChange, no_op, upgrade, classify}
use tenora.Billing.Gateway.{Gateway}
use tenora.Billing.Subscriptions.{transition_status}
use tenora.Billing.Checkouts.{create_checkout, confirm_checkout}
use tenora.Billing.Metering.{is_tenant}
use tenora.Billing.Webhooks.{record_event, process_event, Outcome}

pub data Reason : Type 0 where
  no_subscription no_active_plan subscription_canceled already_on_plan : Reason
  upgrade_requires_checkout no_checkout invalid_webhook : Reason
  refused : Exception → Reason

-- The key of the row in the body, or the reason and the HTTP status of a refusal.
pub data Reply : Type 0 where
  accepted : Option ℕ → Reply
  rejected : Reason → ℕ → Reply

-- `Plan.objects.get(id=…, is_active=True)`
unfoldable pub active_plan : ℕ → Store → Option Plan
active_plan pk db = elim (lookup pk db.plans) [
  | none ↦ none
  | some plan ↦ if plan.is_active then some plan else none
]

-- The errors that an `except` clause of the checkout view turns into a reply.
abbrev pub checkout_reply : Result ℕ × Store → Result Reply × Store
checkout_reply (ok pk, db) = (ok (accepted (some pk)), db)
checkout_reply (err (exception plan_not_synced), db) =
    (ok (rejected (refused plan_not_synced) 400), db)
checkout_reply (err (exception checkout_plan_mismatch), db) =
    (ok (rejected (refused checkout_plan_mismatch) 400), db)
checkout_reply (err (exception subscriber_contact_required), db) =
    (ok (rejected (refused subscriber_contact_required) 409), db)
checkout_reply (err (exception provider_unavailable), db) =
    (ok (rejected (refused provider_unavailable) 503), db)
checkout_reply (err e, db) = (err e, db)

-- Why the workspace's subscription stands in the way of a checkout.
abbrev pub change_refusal : Result PlanChange → Result (Option Reply)
change_refusal (ok no_op) = ok (some (rejected already_on_plan 409))
change_refusal (ok upgrade) = ok none
change_refusal (err (exception e)) = ok (some (rejected (refused e) 409))
change_refusal (err e) = err e

unfoldable pub obstacle : Plan → ℕ → Subscription → Exec Store (Option Reply)
obstacle plan pk s =
    if is_canceled s.status
    then pure (some (rejected subscription_canceled 409))
    else do current ← plan_row s.plan; lift (change_refusal (classify s.plan current pk plan))

abbrev pub open_checkout : Gateway → ℕ → ℕ → ℕ → ℕ → ℕ → Exec Store Reply
open_checkout gateway stale_minutes fresh now tenant plan db =
    checkout_reply (create_checkout gateway stale_minutes fresh now tenant plan db)

-- StartCheckoutView.post
unfoldable pub start_checkout : Gateway → ℕ → ℕ → ℕ → ℕ → ℕ → Exec Store Reply
start_checkout gateway stale_minutes fresh now tenant plan_pk = do
  plan ← gets (active_plan plan_pk)
  if_found plan (pure (rejected no_active_plan 400)) λ plan. do
    row ← gets (λ db. first_row (is_tenant tenant) db.subscriptions)
    refusal ← if_found row (pure none) (λ r. obstacle plan plan_pk r.1)
    if_found refusal (open_checkout gateway stale_minutes fresh now tenant plan_pk) pure

-- SubscriptionUpdateSerializer: one of the two.
pub data Update : Type 0 where
  plan_id : ℕ → Update
  new_status : Status → Update

abbrev pub plan_reply : ℕ → Result PlanChange → Result Reply
plan_reply pk (ok no_op) = ok (accepted (some pk))
plan_reply pk (ok upgrade) = ok (rejected upgrade_requires_checkout 409)
plan_reply pk (err (exception e)) = ok (rejected (refused e) 409)
plan_reply pk (err e) = err e

abbrev pub status_reply : Result ℕ × Store → Result Reply × Store
status_reply (ok pk, db) = (ok (accepted (some pk)), db)
status_reply (err (exception illegal_state_transition), db) =
    (ok (rejected (refused illegal_state_transition) 400), db)
status_reply (err e, db) = (err e, db)

abbrev pub change_to : ℕ → Subscription → ℕ → Plan → Exec Store Reply
change_to pk s plan_pk plan =
    if is_canceled s.status
    then pure (rejected subscription_canceled 400)
    else do current ← plan_row s.plan; lift (plan_reply pk (classify s.plan current plan_pk plan))

unfoldable pub update_to : Update → ℕ × Subscription → Exec Store Reply
update_to (plan_id plan_pk) (pk, s) db =
    if_found (active_plan plan_pk db) (pure (rejected no_active_plan 400)) (change_to pk s plan_pk)
      db
update_to (new_status status) (pk, s) db = status_reply (transition_status pk status db)

-- CurrentSubscriptionView.patch
unfoldable pub update_subscription : ℕ → Update → Exec Store Reply
update_subscription tenant u = do
  row ← gets (λ db. first_row (is_tenant tenant) db.subscriptions)
  if_found row (pure (rejected no_subscription 404)) (update_to u)

abbrev pub confirm_reply : Result {0} Unit × Store → Result Reply × Store
confirm_reply (ok _, db) = (ok (accepted none), db)
confirm_reply (err does_not_exist, db) = (ok (rejected no_checkout 400), db)
confirm_reply (err (exception checkout_signature_invalid), db) =
    (ok (rejected (refused checkout_signature_invalid) 400), db)
confirm_reply (err e, db) = (err e, db)

-- ConfirmCheckoutView.post
unfoldable pub confirm : Gateway → ℕ → ℕ → Option ℕ → ℕ → Exec Store Reply
confirm gateway now tenant subscription_id report db =
    confirm_reply (confirm_checkout gateway now tenant subscription_id report db)

-- Whatever processing raised is swallowed.
abbrev pub swallowed : Result Outcome × Store → Result Reply × Store
swallowed (_, db) = (ok (accepted none), db)

unfoldable pub store_and_process : ℕ → ℕ → ℕ → WebhookEvent → Exec Store Reply
store_and_process now fresh_event fresh event = do
  stored ← record_event fresh_event event
  (λ db. swallowed (process_event now fresh stored db))

-- SubscriptionWebhookView.post, given what the adapter made of the body: `none` where it could not
-- be parsed or carried no delivery id.
unfoldable pub receive_webhook : Bool → Option WebhookEvent → ℕ → ℕ → ℕ → Exec Store Reply
receive_webhook is_verified event now fresh_event fresh =
    if not is_verified
    then pure (rejected invalid_webhook 400)
    else if_found event (pure (rejected invalid_webhook 400))
        (store_and_process now fresh_event fresh)
