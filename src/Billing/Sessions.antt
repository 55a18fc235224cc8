-- ===== src/Billing/Sessions.antt =====
-- Any calls of apps/billing, in any order: the services of apps/billing/services.py and the views of
-- apps/billing/views.py as steps of the store, and what holds of every store that they reach.
use tenora.Base.{ℕ, Bool, true, false, [], ◌∷◌, Option, List, ◌≡◌, arith, some, none}
use tenora.Base.Steps.{Reach, here, next, Reach-trans, Reach-keeps}
use tenora.Exec.{Result, ok, err, continued}
use tenora.Billing.Rows.{Subscription, Status, WebhookEvent, Store}
use tenora.Billing.Gateway.{Gateway}
use tenora.Billing.Subscriptions.{
  create_subscription, transition_status, change_plan, apply_upgrade,
}
use tenora.Billing.Subscriptions.Writes.{
  create_subscription-Writes, transition_status-Writes, change_plan-Writes, apply_upgrade-Writes,
}
use tenora.Billing.Checkouts.{
  sync_plan, create_checkout, confirm_checkout, get_or_create, insert_checkout, reuse_or_open,
  open_checkout,
}
use tenora.Billing.Webhooks.{
  record_event, process_event, sweep, sweep_one, pending, process_pending,
}
use tenora.Billing.Metering.{record_snapshot, store_snapshot, insert_usage}
use tenora.Billing.Reconciliation.{reconcile_subscription, compare_state, record_discrepancy}
use tenora.Billing.Webhooks.Life.{
  IsSound, IsSound-trans, Follows, Writes-IsSound, process_event-IsSound,
}
use tenora.Billing.Lifecycle.{done}
use tenora.Billing.Lifecycle.Rows.{Kept}
use tenora.Billing.Lifecycle.Unique.{IsUnique}
use tenora.Billing.Requests.{receive_webhook, store_and_process, swallowed}

-- One call, whichever way it ends.
pub data Step (db : Store) : Store → Type 0 where
  create :
      (fresh tenant plan start end : ℕ) (external : Option ℕ)
      → Step db (create_subscription fresh tenant plan start end external db).1
  transition : (pk : ℕ) (new : Status) → Step db (transition_status pk new db).1
  change : (now pk plan : ℕ) → Step db (change_plan now pk plan db).1
  upgrade :
      (now pk plan : ℕ) (external : Option ℕ) → Step db (apply_upgrade now pk plan external db).1
  sync : (gateway : Gateway) (pk : ℕ) → Step db (sync_plan gateway pk db).1
  checkout :
      (gateway : Gateway) (stale_minutes fresh now tenant plan : ℕ)
      → Step db (create_checkout gateway stale_minutes fresh now tenant plan db).1
  confirm :
      (gateway : Gateway) (now tenant : ℕ) (subscription_id : Option ℕ) (report : ℕ)
      → Step db (confirm_checkout gateway now tenant subscription_id report db).1
  record_ : (fresh : ℕ) (event : WebhookEvent) → Step db (record_event fresh event db).1
  process : (now fresh pk : ℕ) → Step db (process_event now fresh pk db).1
  meter : (fresh tenant : ℕ) → Step db (record_snapshot fresh tenant db).1
  reconcile :
      (gateway : Gateway) (now pk : ℕ) (s : Subscription)
      → Step db (reconcile_subscription gateway now pk s db).1

-- The calls that do not write to the subscriptions.
sync_plan_quiet :
    (gateway : Gateway) (pk : ℕ) (db : Store)
    → (sync_plan gateway pk db).1.subscriptions ≡ db.subscriptions
unfolding sync_plan
sync_plan_quiet gateway pk db = ground arith

create_checkout_quiet :
    (gateway : Gateway) (stale_minutes fresh now tenant plan : ℕ) (db : Store)
    → (create_checkout gateway stale_minutes fresh now tenant plan db).1.subscriptions
      ≡ db.subscriptions
unfolding create_checkout get_or_create insert_checkout reuse_or_open open_checkout
create_checkout_quiet gateway stale_minutes fresh now tenant plan db = ground arith

confirm_checkout_quiet :
    (gateway : Gateway) (now tenant : ℕ) (subscription_id : Option ℕ) (report : ℕ) (db : Store)
    → (confirm_checkout gateway now tenant subscription_id report db).1.subscriptions
      ≡ db.subscriptions
unfolding confirm_checkout
confirm_checkout_quiet gateway now tenant subscription_id report db = ground arith

record_event_quiet :
    (fresh : ℕ) (event : WebhookEvent) (db : Store)
    → (record_event fresh event db).1.subscriptions ≡ db.subscriptions
unfolding record_event
record_event_quiet fresh event db = ground arith

record_snapshot_quiet :
    (fresh tenant : ℕ) (db : Store)
    → (record_snapshot fresh tenant db).1.subscriptions ≡ db.subscriptions
unfolding record_snapshot store_snapshot insert_usage
record_snapshot_quiet fresh tenant db = ground arith

reconcile_quiet :
    (gateway : Gateway) (now pk : ℕ) (s : Subscription) (db : Store)
    → (reconcile_subscription gateway now pk s db).1.subscriptions ≡ db.subscriptions
unfolding reconcile_subscription compare_state record_discrepancy
reconcile_quiet gateway now pk s db = ground arith

Step-IsSound : {db db' : Store} → Step db db' → IsSound db.subscriptions db'.subscriptions
Step-IsSound {db} (create fresh tenant plan start end external) =
    Writes-IsSound (create_subscription-Writes fresh tenant plan start end external db)
Step-IsSound {db} (transition pk new) = Writes-IsSound (transition_status-Writes pk new db)
Step-IsSound {db} (change now pk plan) = Writes-IsSound (change_plan-Writes now pk plan db)
Step-IsSound {db} (upgrade now pk plan external) =
    Writes-IsSound (apply_upgrade-Writes now pk plan external db)
Step-IsSound {db} (sync gateway pk) = rw (sync_plan_quiet gateway pk db) (Writes-IsSound done)
Step-IsSound {db} (checkout gateway stale_minutes fresh now tenant plan) =
    rw (create_checkout_quiet gateway stale_minutes fresh now tenant plan db) (Writes-IsSound done)
Step-IsSound {db} (confirm gateway now tenant subscription_id report) =
    rw (confirm_checkout_quiet gateway now tenant subscription_id report db) (Writes-IsSound done)
Step-IsSound {db} (record_ fresh event) =
    rw (record_event_quiet fresh event db) (Writes-IsSound done)
Step-IsSound {db} (process now fresh pk) = process_event-IsSound now fresh pk db
Step-IsSound {db} (meter fresh tenant) =
    rw (record_snapshot_quiet fresh tenant db) (Writes-IsSound done)
Step-IsSound {db} (reconcile gateway now pk s) =
    rw (reconcile_quiet gateway now pk s db) (Writes-IsSound done)

Reach-IsSound : (db db' : Store) → Reach Step db db' → IsSound db.subscriptions db'.subscriptions
Reach-IsSound db db' r =
    Reach-keeps Step (λ u. IsSound db.subscriptions u.subscriptions)
      (λ u v w h. IsSound-trans h (Step-IsSound w)) db db' r (Writes-IsSound done)

-- In every store that is reached by any number of calls of the subscription services and of
-- process_event, in any order and whichever way each ends, every subscription that was there is
-- there still; it is of the same workspace, its status has only taken edges of the diagram of
-- legal transitions, it is as it was if it was canceled, and the instant of its last event has
-- not moved back.
pub reached-Follows :
    (db db' : Store) → Reach Step db db' → Kept Follows db.subscriptions db'.subscriptions
reached-Follows db db' r = (Reach-IsSound db db' r).rows

-- If the rows of the subscriptions stand under different keys, and no two are of one workspace or
-- of one provider id, then this still holds in every store that is reached by any number of calls
-- of the subscription services and of process_event, in any order and whichever way each ends.
pub reached-IsUnique :
    (db db' : Store) → Reach Step db db' → IsUnique db.subscriptions → IsUnique db'.subscriptions
reached-IsUnique db db' r = (Reach-IsSound db db' r).unique

sweep-Reach :
    (now : ℕ) (fresh : ℕ → ℕ) (pks : List ℕ) (db : Store) → Reach Step db (sweep now fresh pks db).1
unfolding sweep sweep_one
sweep-Reach now fresh [] db = here
sweep-Reach now fresh (pk ∷ pks) db =
    Reach-trans Step (next here (process now (fresh pk) pk)) (sweep-Reach now fresh pks _)

pub process_pending-Reach :
    (now : ℕ) (fresh : ℕ → ℕ) (db : Store) → Reach Step db (process_pending now fresh db).1
unfolding process_pending
process_pending-Reach now fresh db = sweep-Reach now fresh (pending db) db

pub receive_webhook-Reach :
    (is_verified : Bool) (event : Option WebhookEvent) (now fresh_event fresh : ℕ) (db : Store)
    → Reach Step db (receive_webhook is_verified event now fresh_event fresh db).1
unfolding receive_webhook store_and_process
receive_webhook-Reach true (some event) now fresh_event fresh db =
    stored (record_event fresh_event event db) (next here (record_ fresh_event event))
  where
    stored :
        (r : Result ℕ × Store)
        → Reach Step db r.1
        → Reach Step db (continued (λ pk db. swallowed (process_event now fresh pk db)) r).1
    stored (ok pk, db') r = next r (process now fresh pk)
    stored (err e, db') r = r
receive_webhook-Reach true none now fresh_event fresh db = here
receive_webhook-Reach false event now fresh_event fresh db = here
