-- ===== src/Billing/Webhooks/Once.antt =====
-- Delivered more than once, or late: `record_event` and `process_event` of apps/billing/services.py.
use tenora.Base.{ℕ, Bool, true, false, ◌≡◌, refl, ◌<◌, arith, Option, none, some, if◌then◌else◌}
use tenora.Base.Table.{
  lookup, save, exists, lookup-save_same, exists-save, first_row, first_row-save_new,
}
use tenora.Exec.{Result, ok, err, continued, rolled_back, pure, gets, require, ◌>>=◌, ◌>>◌}
use tenora.Billing.Rows.{Subscription, WebhookEvent, Store}
use tenora.Billing.Webhooks.{
  Outcome, applied, deferred, skipped, noop, is_deferred, subscription_for, apply_event, settle,
  process, process_event, is_cancellation, is_event, record_event, is_stale,
}

-- An event that is settled is marked, whatever came of it.
abbrev pub IsSettled : ℕ → Result Outcome × Store → Type 0
IsSettled pk (err _, db') = Unit
IsSettled pk (ok o, db') =
    is_deferred o ≡ false
    → (e : WebhookEvent) × (lookup pk db'.events ≡ some e) × (e.processed ≡ true)

settled :
    (pk : ℕ) (event : WebhookEvent) (o : Outcome) (db : Store)
    → IsSettled pk ((settle pk event o >> pure o) db)
unfolding settle
settled pk event deferred db = λ h. absurd (ground arith)
settled pk event applied db = λ _. (_, lookup-save_same pk _ db.events, refl)
settled pk event noop db = λ _. (_, lookup-save_same pk _ db.events, refl)
settled pk event skipped db = λ _. (_, lookup-save_same pk _ db.events, refl)

settled_after :
    (pk : ℕ) (event : WebhookEvent) (r : Result Outcome × Store)
    → IsSettled pk (continued (λ o. settle pk event o >> pure o) r)
settled_after pk event (ok o, db) = settled pk event o db
settled_after pk event (err e, db) = tt

process-IsSettled :
    (now fresh pk : ℕ) (event : WebhookEvent) (db : Store)
    → lookup pk db.events ≡ some event
    → IsSettled pk (process now fresh pk event db)
unfolding process
process-IsSettled now fresh pk event db e = go event.processed refl
  where
    go :
        (b : Bool)
        → event.processed ≡ b
        → IsSettled pk (
            (if b
                then pure skipped
                else (gets (subscription_for event) >>= λ sub_before.
                    apply_event now fresh event sub_before >>= λ outcome.
                    settle pk event outcome >> pure outcome))
              db)
    go true seen = λ _. (event, e, seen)
    go false unseen =
        settled_after pk event (apply_event now fresh event (subscription_for event db) db)

rolled_back-IsSettled :
    (pk : ℕ) (db : Store) (r : Result Outcome × Store)
    → IsSettled pk r
    → IsSettled pk (rolled_back db r)
rolled_back-IsSettled pk db (ok o, db') h = h
rolled_back-IsSettled pk db (err e, db') h = tt

pub process_event-IsSettled :
    (now fresh pk : ℕ) (db : Store) → IsSettled pk (process_event now fresh pk db)
unfolding process_event
process_event-IsSettled now fresh pk db =
    rolled_back-IsSettled pk db _ (go (lookup pk db.events) refl)
  where
    go :
        (row : Option WebhookEvent)
        → lookup pk db.events ≡ row
        → IsSettled pk ((require row >>= process now fresh pk) db)
    go none e = tt
    go (some event) e = process-IsSettled now fresh pk event db e

pub process_event_seen :
    (now fresh pk : ℕ) (event : WebhookEvent) (db : Store)
    → lookup pk db.events ≡ some event
    → event.processed ≡ true
    → process_event now fresh pk db ≡ (ok skipped, db)
unfolding process_event process
process_event_seen now fresh pk event db e h = ground arith

-- Once process_event has returned an outcome other than deferred for an event, processing the
-- event again, at any time, is skipped and changes nothing.
pub process_event_once :
    (now fresh now' fresh' pk : ℕ) (o : Outcome) (db db' : Store)
    → process_event now fresh pk db ≡ (ok o, db')
    → is_deferred o ≡ false
    → process_event now' fresh' pk db' ≡ (ok skipped, db')
process_event_once now fresh now' fresh' pk o db db' h settled_ =
    let done : IsSettled pk (ok o, db') = rw h at (process_event-IsSettled now fresh pk db) in
    let (e, row, seen) = done settled_ in process_event_seen now' fresh' pk e db' row seen

-- A pending event other than a cancellation that the provider generated before the last event
-- applied to its subscription changes nothing but its own mark of being processed.
pub process_event_stale :
    (now fresh pk k at last : ℕ) (event : WebhookEvent) (s : Subscription) (db : Store)
    → lookup pk db.events ≡ some event
    → event.processed ≡ false
    → subscription_for event db ≡ some (k, s)
    → is_cancellation event.event_type ≡ false
    → event.event_created_at ≡ some at
    → s.last_event_at ≡ some last
    → at < last
    → process_event now fresh pk db
      ≡ (ok noop, record db { events = save pk (record event { processed = true }) db.events })
unfolding process_event process apply_event settle is_stale
process_event_stale now fresh pk k at last event s db e p f c a l o = ground arith

record_event_new :
    (fresh : ℕ) (event : WebhookEvent) (db : Store)
    → lookup fresh db.events ≡ none
    → exists (is_event event.external_event_id) db.events ≡ false
    → record_event fresh event db ≡ (ok fresh, record db { events = save fresh event db.events })
unfolding record_event
record_event_new fresh event db free new = ground arith

record_event_known :
    (fresh k : ℕ) (event known : WebhookEvent) (db : Store)
    → exists (is_event event.external_event_id) db.events ≡ true
    → first_row (is_event event.external_event_id) db.events ≡ some (k, known)
    → record_event fresh event db ≡ (ok k, db)
unfolding record_event
record_event_known fresh k event known db there row = ground arith

-- An event that is recorded under a free key, when no event with its delivery id is stored, is
-- found under that key; and recording any event with the same delivery id again answers the same
-- key and stores nothing.
pub record_event_again :
    (fresh fresh' : ℕ) (event event' : WebhookEvent) (db : Store)
    → event'.external_event_id ≡ event.external_event_id
    → lookup fresh db.events ≡ none
    → exists (is_event event.external_event_id) db.events ≡ false
    → let db' : Store = (record_event fresh event db).1 in
      (lookup fresh db'.events ≡ some event) × (record_event fresh' event' db' ≡ (ok fresh, db'))
record_event_again fresh fresh' event event' db same free new =
    let id : ℕ = event.external_event_id in
    let known : is_event id event ≡ true = ground arith in
    let there : exists (is_event event'.external_event_id) (save fresh event db.events) ≡ true =
      rw same (exists-save (is_event id) fresh event db.events known) in
    let found : first_row (is_event event'.external_event_id) (save fresh event db.events)
        ≡ some (fresh, event) =
      rw same (first_row-save_new (is_event id) fresh event db.events new known free) in
    rw (record_event_new fresh event db free new) (
      lookup-save_same fresh event db.events,
      record_event_known fresh' fresh event' event
          (record db { events = save fresh event db.events }) there found,
    )
