-- ===== src/Billing/Webhooks/Cancellation.antt =====
-- A cancellation ends the subscription whenever it arrives (`process_event` of
-- apps/billing/services.py).
use tenora.Base.{
  ℕ, false, ◌≡◌, refl, arith, Bool-cases, inl, inr, Option, none, some, if◌then◌else◌,
}
use tenora.Base.Table.{lookup, save, lookup-save_same}
use tenora.Exec.{Result, ok, err}
use tenora.Billing.Rows.{Subscription, Status, WebhookEvent, EventType, Store, is_canceled, update}
use tenora.Billing.Subscriptions.{is_legal, cancel_subscription}
use tenora.Billing.Subscriptions.Writes.{transition_status-legal}
use tenora.Billing.Webhooks.{
  Outcome, applied, noop, is_deferred, subscription_for, handle_cancelled, dispatch, is_stale,
  advance, advances, apply_event, settle, process, process_event,
}
use tenora.Billing.Webhooks.Writes.{subscription_for-lookup}
use tenora.Billing.Webhooks.Life.{dispatch_canceled}
use tenora.Billing.Webhooks.Activation.{IsPending, marked}

-- A run that ends, with the subscription under a key canceled.
abbrev pub Cancels : ℕ → Result Outcome × Store → Type 0
Cancels k (err _, db') = ¬ Unit
Cancels k (ok o, db') =
    (is_deferred o ≡ false)
    × ((s : Subscription) × (lookup k db'.subscriptions ≡ some s) × (s.status ≡ Status.canceled))

Cancels-of :
    (k : ℕ) (o : Outcome) (s : Subscription) (r : Result Outcome × Store)
    → r.0 ≡ ok o
    → is_deferred o ≡ false
    → lookup k r.1.subscriptions ≡ some s
    → s.status ≡ Status.canceled
    → Cancels k r
Cancels-of k o s (err e, db) h d row c = absurd (ground arith)
Cancels-of k o s (ok o', db) h d row c =
    let same : o' ≡ o = ground arith in (rw same d, (s, row, c))

-- The instant of the last event, once one is applied.
abbrev mark_after : Option ℕ → Option ℕ → Option ℕ
mark_after none last = last
mark_after (some at) last = if advances at last then some at else last

module _ (now fresh pk k : ℕ) (event : WebhookEvent) (s : Subscription) (db : Store)
    (pending : IsPending db pk event EventType.cancelled)
    (match_ : subscription_for event db ≡ some (k, s)) where
  canceled_over : s.status ≡ Status.canceled → Cancels k (process_event now fresh pk db)
  unfolding process_event process apply_event settle is_stale advance
  canceled_over c =
      let row : lookup k db.subscriptions ≡ some s = subscription_for-lookup event db k s match_ in
      let run : process_event now fresh pk db
          ≡ (ok noop, record db { events = save pk (marked event) db.events }) =
        ground (arith, dispatch_canceled event.event_type now fresh event db k s match_ c) in
      rw run (refl, (s, row, c))

  with_cancel : Store
  with_cancel = record db {
    subscriptions = save k (record s { status = Status.canceled }) db.subscriptions;
  }

  dispatch_cancel :
      is_canceled s.status ≡ false
      → dispatch event.event_type now fresh event db ≡ (ok applied, with_cancel)
  unfolding dispatch handle_cancelled cancel_subscription is_legal with_cancel
  dispatch_cancel c = ground (
    arith,
    subscription_for-lookup event db k s match_,
    transition_status-legal k Status.canceled s db,
  )

  canceled_now : is_canceled s.status ≡ false → Cancels k (process_event now fresh pk db)
  unfolding process_event process apply_event settle is_stale advance update with_cancel
  canceled_now c =
      let s' : Subscription = record s { status = Status.canceled } in
      let s'' : Subscription = record s' {
        last_event_at = mark_after event.event_created_at s.last_event_at;
      } in
      let run : ((process_event now fresh pk db).0 ≡ ok applied)
          × (lookup k (process_event now fresh pk db).1.subscriptions ≡ some s'') =
        ground (
          arith,
          dispatch_cancel c,
          lookup-save_same k s' db.subscriptions,
          lookup-save_same k s'' (save k s' db.subscriptions),
        ) in
      Cancels-of k applied s'' _ run.0 refl run.1 refl

  -- A cancellation event that is pending and whose provider id is that of a subscription is
  -- processed without an error, is not deferred and leaves that subscription canceled, whatever
  -- its status was and however old the event is.
  pub cancellation-Cancels : Cancels k (process_event now fresh pk db)
  cancellation-Cancels = elim (Bool-cases (is_canceled s.status)) [
    | inl over ↦ canceled_over (ground arith)
    | inr live ↦ canceled_now live
  ]
