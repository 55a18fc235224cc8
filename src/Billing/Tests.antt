-- ===== src/Billing/Tests.antt =====
-- The theorems on apps/billing at the sample store, and runs of its services.
use tenora.Base.{
  ℕ, ◌-◌, ◌<◌, ◌≤◌, true, false, refl, ◌≡◌, ◌⊎◌, ◌++◌, arith, none, some, [], ◌∷◌, map,
}
use tenora.Base.Int.{pos, negsuc, ◌-ℤ◌, ◌*ℤ◌}
use tenora.Base.Table.{lookup, save, exists, exists_other, find_first, first_row}
use tenora.Base.Steps.{Reach, here, next}
use tenora.Exec.{Result, ok}
use tenora.Property.Calculations.{quantize_half_up}
use tenora.Billing.Rows.{Subscription, Status, UsageRecord, WebhookEvent, Store}
use tenora.Billing.Sample.{
  basic, pro, subscription, checkout, cancellation, old_charge, activation, early_charge, store,
  gateway, down,
}
use tenora.Billing.Plans.{
  upgrade, classify, tier_order, tier_of, net_of, remaining_of, calculate, ProrationResult,
}
use tenora.Billing.Plans.Bounds.{IsProrated, calculate-IsProrated}
use tenora.Billing.Subscriptions.{transition_status}
use tenora.Billing.Lifecycle.Rows.{Kept}
use tenora.Billing.Lifecycle.Unique.{IsUnique}
use tenora.Billing.Checkouts.{
  insert_checkout, get_or_create, open_checkout, reuse_or_open, create_checkout,
}
use tenora.Billing.Checkouts.Once.{create_checkout_again}
use tenora.Billing.Webhooks.{
  applied, noop, skipped, deferred, record_event, subscription_for, checkout_for, is_stale,
  apply_event, settle, process, process_event, pending, process_pending,
}
use tenora.Billing.Webhooks.Life.{Follows}
use tenora.Billing.Webhooks.Once.{process_event_once, record_event_again}
use tenora.Billing.Webhooks.Ordered.{Renews, renewed_row, charge_in_order}
use tenora.Billing.Webhooks.Activation.{activated_row, marked}
use tenora.Billing.Webhooks.Arrival.{charged_row, charge_before_activation}
use tenora.Billing.Webhooks.Cancellation.{Cancels, cancellation-Cancels}
use tenora.Billing.Webhooks.Sweep.{AreDone, process_pending-AreDone}
use tenora.Billing.Metering.{
  is_tenant, count_members, insert_usage, store_snapshot, record_snapshot, snapshot_of,
}
use tenora.Billing.Metering.Once.{record_snapshot_again}
use tenora.Billing.Reconciliation.{reconcile_all}
use tenora.Billing.Reconciliation.Drift.{all_drift, provider_ids, reconcile_all_lem}
use tenora.Billing.Requests.{Reply, active_plan, obstacle, start_checkout}
use tenora.Billing.Requests.Allowed.{IsUpgrade, start_checkout-Allowed}
use tenora.Billing.Sessions
use tenora.Billing.Sessions.{Step, reached-Follows, reached-IsUnique}

-- A cancellation, and an attempt to activate the subscription again.
abbrev ended : Store
ended = (transition_status 3 Status.active (process_event 60 9 21 store).1).1

abbrev ending : Reach Step store ended
ending = next (next here (Sessions.process 60 9 21)) (Sessions.transition 3 Status.active)

reached-Follows_example : Kept Follows store.subscriptions ended.subscriptions
reached-Follows_example = reached-Follows store ended ending

reached-IsUnique_example : IsUnique ended.subscriptions
reached-IsUnique_example = reached-IsUnique store ended ending (tt, tt)

abbrev next_charge : WebhookEvent
next_charge = record old_charge {
  event_created_at = some 60;
  period_start = some 2_592_000_000_010;
  period_end = some 5_184_000_000_010;
}

abbrev renewing : Store
renewing = record store { events = (25, next_charge) ∷ store.events }

charge_in_order_example :
    ((60 < 50)
      × (process_event 70 9 25 renewing
          ≡ (ok noop, record renewing { events = save 25 (marked next_charge) renewing.events })))
    ⊎ ((50 ≤ 60)
        × Renews 25 3 next_charge
            (renewed_row subscription 2_592_000_000_010 5_184_000_000_010 (some 60))
            (process_event 70 9 25 renewing))
unfolding lookup subscription_for first_row find_first
charge_in_order_example =
    charge_in_order 70 9 25 3 2_592_000_000_010 5_184_000_000_010 60 50 next_charge subscription
      renewing (record { row = refl; unprocessed = refl; typed = refl }) refl refl refl
      (record { first = refl; last = refl }) (omega arith) refl

abbrev seen : Store
seen = record store { events = save 22 (record old_charge { processed = true }) store.events }

process_event_once_example : process_event 61 9 22 seen ≡ (ok skipped, seen)
unfolding lookup subscription_for first_row find_first process_event process apply_event is_stale
    settle save
process_event_once_example = process_event_once 60 9 61 9 22 noop store seen refl refl

cancellation-Cancels_example : Cancels 3 (process_event 60 9 21 store)
unfolding lookup subscription_for first_row find_first
cancellation-Cancels_example =
    cancellation-Cancels 60 9 21 3 cancellation subscription store
      (record { row = refl; unprocessed = refl; typed = refl }) refl

process_pending-AreDone_example :
    (map (λ r. r.event) (process_pending 60 (λ pk. pk) store).0 ≡ pending store)
    × AreDone (process_pending 60 (λ pk. pk) store).0 (process_pending 60 (λ pk. pk) store).1
process_pending-AreDone_example = process_pending-AreDone 60 (λ pk. pk) store

abbrev delivery : WebhookEvent
delivery = record activation { external_event_id = 903 }

record_event_again_example :
    let db' : Store = (record_event 25 delivery store).1 in
    (lookup 25 db'.events ≡ some delivery) × (record_event 26 delivery db' ≡ (ok 25, db'))
unfolding lookup exists
record_event_again_example = record_event_again 25 26 delivery delivery store refl refl refl

abbrev after_charge : Store
after_charge = (process_event 70 9 23 store).1

abbrev after_activation : Store
after_activation = (process_event 80 9 24 after_charge).1

charge_before_activation_example :
    ((process_event 70 9 23 store).0 ≡ ok deferred)
    × ((process_event 90 9 23 after_activation).0 ≡ ok applied)
    × (lookup 9 (process_event 90 9 23 after_activation).1.subscriptions
        ≡ some (charged_row (activated_row 80 activation checkout basic) 70 900 (some 55)))
unfolding lookup exists checkout_for first_row find_first
charge_before_activation_example =
    charge_before_activation 70 80 90 9 200 23 24 70 900 early_charge activation checkout basic
      store (record { row = refl; unprocessed = refl; typed = refl })
      (record { row = refl; unprocessed = refl; typed = refl }) refl refl
      (record { key = 5; in_flight = refl; offered = refl; free = refl; new = refl }) (omega arith)
      (record { first = refl; last = refl }) (omega arith)

-- Half of a period is left.
abbrev half : ProrationResult
half = record {
  net_amount_cents = pos 1_001;
  calculated_at = 1_500_000;
  period_start = 500_000;
  period_end = 2_500_000;
}

abbrev half_back : ProrationResult
half_back = record half { net_amount_cents = negsuc 1_000 }

calculate-IsProrated_example :
    IsProrated
      (pos 3_001 -ℤ pos 1_000)
      (remaining_of (2_500_000 - 500_000) 2_500_000 1_500_000)
      (2_500_000 - 500_000)
      (pos 1_001)
unfolding calculate net_of quantize_half_up ◌-ℤ◌ ◌*ℤ◌
calculate-IsProrated_example =
    calculate-IsProrated (pos 1_000) (pos 3_001) 500_000 2_500_000 1_500_000 half refl

classify_upgrades : classify 1 basic 2 pro ≡ ok upgrade
unfolding classify tier_order tier_of
classify_upgrades = refl

abbrev opened : Result Reply × Store
opened = start_checkout gateway 60 6 99 7 2 store

start_checkout-Allowed_example :
    (first_row (is_tenant 7) store.subscriptions ≡ none)
    ⊎ ((pk : ℕ) × (s : Subscription) × (first_row (is_tenant 7) store.subscriptions ≡ some (pk, s))
        × IsUpgrade store s 2)
unfolding start_checkout active_plan obstacle lookup first_row find_first classify tier_order
    tier_of create_checkout get_or_create reuse_or_open open_checkout save exists_other
start_checkout-Allowed_example = start_checkout-Allowed gateway 60 6 99 7 2 6 store opened.1 refl

abbrev reopened : Result ℕ × Store
reopened = create_checkout gateway 60 6 99 7 2 store

create_checkout_again_example : create_checkout down 60 7 100 7 2 reopened.1 ≡ (ok 6, reopened.1)
unfolding lookup first_row find_first create_checkout get_or_create insert_checkout reuse_or_open
    open_checkout save exists_other
create_checkout_again_example =
    create_checkout_again gateway down 60 60 6 7 99 100 7 2 6 store reopened.1 (tt, tt) refl

abbrev snapshot : UsageRecord
snapshot = snapshot_of 7 subscription 1

abbrev metered : Store
metered = record store { usage = (40, snapshot) ∷ [] }

record_snapshot_again_example : record_snapshot 41 7 metered ≡ (ok ((40, snapshot), false), metered)
unfolding lookup first_row find_first record_snapshot store_snapshot insert_usage count_members
    exists save
record_snapshot_again_example =
    record_snapshot_again 40 41 7 (40, snapshot) true store metered refl refl

reconcile_all_lem_example :
    ((reconcile_all gateway 99 store).1 ≡ record store {
      discrepancies = store.discrepancies ++ all_drift gateway 99 store.subscriptions;
    })
    × (map (λ r. r.external_subscription_id) (reconcile_all gateway 99 store).0
        ≡ provider_ids store.subscriptions)
reconcile_all_lem_example = reconcile_all_lem gateway 99 store
