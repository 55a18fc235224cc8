-- ===== src/Billing/Webhooks/Arrival.antt =====
-- A charge that arrives before its activation is applied when it is retried (`process_event` of
-- apps/billing/services.py).
use mathlib.Core.Path.{subst}
use tenora.Base.{ℕ, ap, sym, Bool, false, ◌≡◌, refl, ◌+◌, ◌≤◌, ◌<◌, arith, Option, none, some}
use tenora.Base.Table.{
  lookup, save, exists, lookup-save, exists-weaken, first_row-exists, lookup-save_same,
  first_row-save_new,
}
use tenora.Exec.{Result, ok}
use tenora.Billing.Rows.{
  Plan, Subscription, Status, SubscriptionCheckout, WebhookEvent, EventType, Store, clashes,
  same_id, update,
}
use tenora.Billing.Subscriptions.{period_end_of, new_subscription}
use tenora.Billing.Webhooks.{
  Outcome, applied, deferred, retry_window, subscription_for, checkout_for, renew, charge,
  handle_charged, with_period, dispatch, is_stale, advance, apply_event, settle, process,
  process_event,
}
use tenora.Billing.Webhooks.Writes.{subscription_for-lookup, update-found}
use tenora.Billing.Webhooks.Activation.{
  IsPending, marked, early_charge, activated_row, with_active, activation,
}

-- What a charge makes of an active subscription that has seen no event.
abbrev pub charged_row : Subscription → ℕ → ℕ → Option ℕ → Subscription
charged_row s start end at = record s {
  current_period_start = start;
  current_period_end = end;
  last_event_at = at;
}

-- The charge of the period from `start` to `end`.
pub record Charges (event : WebhookEvent) (start end : ℕ) : Type 0 where
  pub first : event.period_start ≡ some start
  pub last : event.period_end ≡ some end

module _ (now fresh pk k start end : ℕ) (event : WebhookEvent) (s : Subscription) (db : Store)
    (pending : IsPending db pk event EventType.charged)
    (match_ : subscription_for event db ≡ some (k, s)) (active : s.status ≡ Status.active)
    (unmarked : s.last_event_at ≡ none) (period : Charges event start end)
    (later : s.current_period_start < end) where
  with_period_ : Store
  with_period_ = record db {
    subscriptions =
        save k (record s { current_period_start = start; current_period_end = end })
          db.subscriptions;
  }

  dispatch_charge : dispatch event.event_type now fresh event db ≡ (ok applied, with_period_)
  unfolding dispatch handle_charged charge renew with_period_
  dispatch_charge = ground (
    arith,
    subscription_for-lookup event db k s match_,
    update-found k (with_period start end) s db,
  )

  charge_applied :
      ((process_event now fresh pk db).0 ≡ ok applied)
      × (lookup k (process_event now fresh pk db).1.subscriptions
          ≡ some (charged_row s start end event.event_created_at))
  unfolding process_event process apply_event settle is_stale advance update with_period_
  charge_applied =
      let s' : Subscription = record s { current_period_start = start; current_period_end = end } in
      ground (
        arith,
        dispatch_charge,
        lookup-save_same k s' db.subscriptions,
        lookup-save_same k (charged_row s start end event.event_created_at)
            (save k s' db.subscriptions),
      )

-- An activation that a checkout waits for: of a plan, and of no subscription that is there.
pub record Awaited (now fresh : ℕ) (event : WebhookEvent) (checkout : SubscriptionCheckout)
    (plan : Plan) (db : Store) : Type 0 where
  pub key : ℕ
  pub in_flight : checkout_for event db ≡ some (key, checkout)
  pub offered : lookup checkout.plan db.plans ≡ some plan
  pub free : lookup fresh db.subscriptions ≡ none
  pub new :
      exists
        (clashes (
          new_subscription checkout.tenant checkout.plan now
            (period_end_of plan now)
            event.external_subscription_id))
        db.subscriptions
      ≡ false

is_for : Option ℕ → Subscription → Bool
is_for external s = same_id s.external_subscription_id external

unmatched_new :
    (now fresh x : ℕ) (event : WebhookEvent) (checkout : SubscriptionCheckout) (plan : Plan)
    (db : Store)
    → event.external_subscription_id ≡ some x
    → Awaited now fresh event checkout plan db
    → exists (is_for (some x)) db.subscriptions ≡ false
unfolding is_for
unmatched_new now fresh x event checkout plan db id w =
    exists-weaken (is_for (some x)) _ db.subscriptions (λ v h. ground arith) w.new

subscription_for-none :
    (x : ℕ) (event : WebhookEvent) (db : Store)
    → event.external_subscription_id ≡ some x
    → exists (is_for (some x)) db.subscriptions ≡ false
    → subscription_for event db ≡ none
unfolding subscription_for is_for
subscription_for-none x event db id h =
    ground (arith, first_row-exists (is_for (some x)) db.subscriptions)

subscription_for_new :
    (x fresh : ℕ) (event : WebhookEvent) (s : Subscription) (db db' : Store)
    → event.external_subscription_id ≡ some x
    → s.external_subscription_id ≡ some x
    → exists (is_for (some x)) db.subscriptions ≡ false
    → lookup fresh db.subscriptions ≡ none
    → db'.subscriptions ≡ save fresh s db.subscriptions
    → subscription_for event db' ≡ some (fresh, s)
unfolding subscription_for is_for
subscription_for_new x fresh event s db db' id own h free e =
    ground (arith, first_row-save_new (is_for (some x)) fresh s db.subscriptions)

still_pending :
    (kc ka : ℕ) (charge_ activation_ : WebhookEvent) (db db' : Store)
    → IsPending db kc charge_ EventType.charged
    → IsPending db ka activation_ EventType.activated
    → db'.events ≡ save ka (marked activation_) db.events
    → IsPending db' kc charge_ EventType.charged
still_pending kc ka charge_ activation_ db db' pc pa e = record {
  row =
      ground (
        arith,
        lookup-save kc ka (marked activation_) db.events,
        pa.row,
        pa.typed,
        pc.row,
        pc.typed,
      );
  unprocessed = pc.unprocessed;
  typed = pc.typed;
}

-- Three runs: the charge, the activation, and the charge again.
module _ (t1 t2 t3 fresh x kc ka start end : ℕ) (charge_ activation_ : WebhookEvent)
    (checkout : SubscriptionCheckout) (plan : Plan) (db : Store) where
  abbrev after_charge : Store
  after_charge = (process_event t1 fresh kc db).1

  abbrev after_activation : Store
  after_activation = (process_event t2 fresh ka after_charge).1

  abbrev retried : Result Outcome × Store
  retried = process_event t3 fresh kc after_activation

  -- A charge with a billing period that is processed before the activation of its checkout is
  -- deferred while it is younger than the retry window; once the activation is processed, for a
  -- checkout of a plan that is there, a key that is free and no subscription of the workspace or
  -- the provider id, processing the charge again applies it: the subscription is active, on the
  -- plan of the checkout, with the period of the charge, provided that the period ends after the
  -- activation.
  pub charge_before_activation :
      IsPending db kc charge_ EventType.charged
      → IsPending db ka activation_ EventType.activated
      → charge_.external_subscription_id ≡ some x
      → activation_.external_subscription_id ≡ some x
      → Awaited t2 fresh activation_ checkout plan db
      → t1 ≤ charge_.received_at + retry_window
      → Charges charge_ start end
      → t2 < end
      → ((process_event t1 fresh kc db).0 ≡ ok deferred)
        × (retried.0 ≡ ok applied)
        × (lookup fresh retried.1.subscriptions
            ≡ some (
                charged_row
                  (activated_row t2 activation_ checkout plan)
                  start
                  end
                  charge_.event_created_at))
  unfolding with_active
  charge_before_activation pc pa idc ida w young period later =
      let unmatched : exists (is_for (some x)) db.subscriptions ≡ false =
        unmatched_new t2 fresh x activation_ checkout plan db ida w in
      let first : process_event t1 fresh kc db ≡ (ok deferred, db) =
        early_charge t1 fresh kc x charge_ db pc idc
          (subscription_for-none x charge_ db idc unmatched) young in
      let second : process_event t2 fresh ka db ≡ (
        ok applied,
        record (with_active t2 fresh activation_ checkout plan db w.offered w.free w.new) {
          events = save ka (marked activation_) db.events;
        },
      ) =
        activation t2 fresh activation_ checkout plan db w.offered w.free w.new ka x w.key pa ida
          (subscription_for-none x activation_ db ida unmatched) w.in_flight in
      let db2 : Store = record db {
        subscriptions = save fresh (activated_row t2 activation_ checkout plan) db.subscriptions;
        events = save ka (marked activation_) db.events;
      } in
      let third : ((process_event t3 fresh kc db2).0 ≡ ok applied)
          × (lookup fresh (process_event t3 fresh kc db2).1.subscriptions
              ≡ some (
                  charged_row (activated_row t2 activation_ checkout plan) start end
                    charge_.event_created_at)) =
        charge_applied t3 fresh kc fresh start end charge_
          (activated_row t2 activation_ checkout plan) db2
          (still_pending kc ka charge_ activation_ db db2 pc pa refl)
          (subscription_for_new x fresh charge_ (activated_row t2 activation_ checkout plan) db db2
            idc ida unmatched w.free refl)
          refl refl period later in
      let charged_ : after_charge ≡ db = ap (λ r. r.1) first in
      let activated_ : after_activation ≡ db2 =
        subst (λ d. (process_event t2 fresh ka d).1 ≡ db2) (sym charged_) (ap (λ r. r.1) second) in
      let last : (retried.0 ≡ ok applied)
          × (lookup fresh retried.1.subscriptions
              ≡ some (
                  charged_row (activated_row t2 activation_ checkout plan) start end
                    charge_.event_created_at)) =
        subst
          (λ d.
            ((process_event t3 fresh kc d).0 ≡ ok applied)
            × (lookup fresh (process_event t3 fresh kc d).1.subscriptions
                ≡ some (
                    charged_row (activated_row t2 activation_ checkout plan) start end
                      charge_.event_created_at)))
          (sym activated_) third in
      (ap (λ r. r.0) first, last.0, last.1)
