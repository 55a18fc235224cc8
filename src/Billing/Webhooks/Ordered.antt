-- ===== src/Billing/Webhooks/Ordered.antt =====
-- A charge in its turn and a late one (`process_event` of apps/billing/services.py).
use tenora.Base.{
  ℕ, true, false, ltb, ◌≡◌, refl, ◌<◌, ◌≤◌, ◌⊎◌, arith, Bool-cases, inl, inr, Option, some,
}
use tenora.Base.Table.{lookup, save, lookup-save_same}
use tenora.Exec.{Result, ok, pure, ◌>>◌}
use tenora.Billing.Rows.{Subscription, Status, WebhookEvent, EventType, Store, is_canceled, update}
use tenora.Billing.Subscriptions.{is_legal, transition_status}
use tenora.Billing.Subscriptions.Writes.{transition_status-legal}
use tenora.Billing.Webhooks.{
  Outcome, applied, noop, subscription_for, renew, charge, handle_charged, with_period, dispatch,
  activate_due, is_stale, advance, apply_event, settle, process, process_event,
}
use tenora.Billing.Webhooks.Writes.{subscription_for-lookup, update-found}
use tenora.Billing.Webhooks.Activation.{IsPending, marked}
use tenora.Billing.Webhooks.Arrival.{Charges, charged_row}
use tenora.Billing.Webhooks.Once.{process_event_stale}

-- A handler that applied its event, and the row of the subscription after it.
abbrev Applies : ℕ → Subscription → Store → Result Outcome × Store → Type 0
Applies k row db r =
    (r.0 ≡ ok applied) × (lookup k r.1.subscriptions ≡ some row) × (r.1.events ≡ db.events)

abbrev made_active : Subscription → Subscription
made_active s = record s { status = Status.active }

activated :
    (k : ℕ) (s : Subscription) (db : Store)
    → lookup k db.subscriptions ≡ some s
    → is_legal s.status Status.active ≡ true
    → Applies k (made_active s) db ((transition_status k Status.active >> pure applied) db)
activated k s db row legal = ground (
  arith,
  transition_status-legal k Status.active s db,
  lookup-save_same k (made_active s) db.subscriptions,
)

activate_due-Applies :
    (k : ℕ) (status : Status) (s : Subscription) (db : Store)
    → s.status ≡ status
    → is_canceled status ≡ false
    → lookup k db.subscriptions ≡ some s
    → Applies k (made_active s) db (activate_due k status db)
unfolding is_legal
activate_due-Applies k Status.active s db e c row = ground arith
activate_due-Applies k Status.trialing s db e c row = activated k s db row (rw e refl)
activate_due-Applies k Status.past_due s db e c row = activated k s db row (rw e refl)
activate_due-Applies k Status.canceled s db e c row = absurd (ground arith)

-- The subscription with the period of a charge, active, and with the instant of the event.
abbrev pub renewed_row : Subscription → ℕ → ℕ → Option ℕ → Subscription
renewed_row s start end at = made_active (charged_row s start end at)

-- A run that applies an event, with the subscription's row after it and the event marked.
abbrev pub Renews : ℕ → ℕ → WebhookEvent → Subscription → Result Outcome × Store → Type 0
Renews pk k event row r =
    (r.0 ≡ ok applied)
    × (lookup k r.1.subscriptions ≡ some row)
    × (lookup pk r.1.events ≡ some (marked event))

module _ (now fresh pk k start end at last : ℕ) (event : WebhookEvent) (s : Subscription)
    (db : Store) (pending : IsPending db pk event EventType.charged)
    (match_ : subscription_for event db ≡ some (k, s)) (sent : event.event_created_at ≡ some at)
    (seen : s.last_event_at ≡ some last) (period : Charges event start end)
    (later : s.current_period_start < end) (live : is_canceled s.status ≡ false) where
  abbrev moved : Store
  moved = record db { subscriptions = save k (with_period start end s) db.subscriptions }

  dispatch_renews : dispatch event.event_type now fresh event db ≡ activate_due k s.status moved
  unfolding dispatch handle_charged charge renew
  dispatch_renews = ground (
    arith,
    subscription_for-lookup event db k s match_,
    update-found k (with_period start end) s db,
  )

  dispatch-Applies :
      Applies k
        (made_active (with_period start end s))
        db
        (dispatch event.event_type now fresh event db)
  dispatch-Applies = rw dispatch_renews (
      activate_due-Applies k s.status (with_period start end s) moved refl live
        (lookup-save_same k (with_period start end s) db.subscriptions))

  in_turn :
      (r : Result Outcome × Store)
      → dispatch event.event_type now fresh event db ≡ r
      → Applies k (made_active (with_period start end s)) db r
      → last ≤ at
      → Renews pk k event (renewed_row s start end (some at)) (process_event now fresh pk db)
  unfolding process_event process apply_event settle is_stale advance update
  in_turn (r, db2) e h order =
      let row = made_active (with_period start end s) in
      let old_mark = lookup-save_same k (renewed_row s start end (some at)) db2.subscriptions in
      let mark = lookup-save_same pk (marked event) db2.events in
      elim (Bool-cases (ltb last at)) [
        | inl newer ↦ (ground arith, ground arith, ground arith)
        | inr same ↦ (ground arith, ground arith, ground arith)
      ]

  -- For a pending charge whose provider id is that of a subscription that is not canceled, where
  -- the provider's instant of the charge and the instant of the last event applied are known, and
  -- the charge has a period that ends after the start of the current one: a charge from before
  -- the last event changes nothing but its own mark of being processed; and every other is
  -- applied, which leaves the subscription active, with the period of the charge and its instant
  -- as that of the last event, and the charge marked.
  pub charge_in_order :
      ((at < last)
        × (process_event now fresh pk db
            ≡ (ok noop, record db { events = save pk (marked event) db.events })))
      ⊎ ((last ≤ at)
          × Renews pk k event (renewed_row s start end (some at)) (process_event now fresh pk db))
  charge_in_order = elim (Bool-cases (ltb at last)) [
    | inl late ↦ inl (
      ground arith,
      process_event_stale now fresh pk k at last event s db pending.row pending.unprocessed match_
          (rw pending.typed refl) sent seen (ground arith),
    )
    | inr order ↦ inr (
      ground arith,
      in_turn (dispatch event.event_type now fresh event db) refl dispatch-Applies (ground arith),
    )
  ]
