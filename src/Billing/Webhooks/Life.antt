-- ===== src/Billing/Webhooks/Life.antt =====
-- What one webhook does to the life of a subscription: `process_event` of
-- `WebhookProcessingService` (apps/billing/services.py).
use tenora.Base.{
  ℕ, true, false, ◌≡◌, refl, ◌==◌, ◌≤◌, ◌∙◌, arith, Bool, Bool-cases, inl, inr, Option, none, some,
  if◌then◌else◌,
}
use tenora.Base.Table.{Table, lookup, save, lookup-save}
use tenora.Exec.{
  Exec, Result, ok, err, continued, rolled_back, recovered_if, when, pure, gets, require, ◌>>=◌,
  ◌>>◌,
}
use tenora.Billing.Rows.{Subscription, Status, WebhookEvent, EventType, Store, is_canceled, update}
use tenora.Billing.Lifecycle.{◌⟶*◌, here, Writes, done, recovered_if-Writes}
use tenora.Billing.Lifecycle.Rows.{Steady, Kept, Writes-Kept, ⟶*-trans}
use tenora.Billing.Lifecycle.Unique.{IsUnique, IsUnique-keep, Writes-IsUnique}
use tenora.Billing.Webhooks.{
  Outcome, applied, noop, is_applied, is_illegal, subscription_for, dispatch, handle_activated,
  activate_existing, handle_charged, handle_cancelled, handle_payment_trouble, is_stale, advance,
  advances, apply_event, settle, process, process_event, skipped, deferred,
}
use tenora.Billing.Webhooks.Writes.{dispatch-Writes, subscription_for-lookup, update-found}

-- An instant is not lost, and not moved back.
abbrev pub Later : Option ℕ → Option ℕ → Type 0
Later none _ = Unit
Later (some a) none = ¬ Unit
Later (some a) (some b) = a ≤ b

pub Later-refl : (a : Option ℕ) → Later a a
Later-refl none = tt
Later-refl (some a) = omega arith

pub Later-trans : (a b c : Option ℕ) → Later a b → Later b c → Later a c
Later-trans none b c p q = tt
Later-trans (some a) none c p q = absurd (p tt)
Later-trans (some a) (some b) none p q = absurd (q tt)
Later-trans (some a) (some b) (some c) p q = omega arith

-- What a row becomes: it takes the edges of the diagram, stays in its workspace, is not written
-- once it is canceled, and the instant of its last event never moves back.
pub record Follows (s s' : Subscription) : Type 0 where
  pub tenant : s'.tenant ≡ s.tenant
  pub status : s.status ⟶* s'.status
  pub frozen : is_canceled s.status ≡ true → s' ≡ s
  pub mark : Later s.last_event_at s'.last_event_at

pub Follows-refl : (s : Subscription) → Follows s s
Follows-refl s = record {
  tenant = refl;
  status = here;
  frozen = λ _. refl;
  mark = Later-refl s.last_event_at;
}

pub Follows-trans : {a b c : Subscription} → Follows a b → Follows b c → Follows a c
Follows-trans {a} {b} {c} p q = record {
  tenant = q.tenant ∙ p.tenant;
  status = ⟶*-trans p.status q.status;
  frozen = λ h. let same : b ≡ a = p.frozen h in q.frozen (rw same h) ∙ same;
  mark = Later-trans a.last_event_at b.last_event_at c.last_event_at p.mark q.mark;
}

Steady-Follows : {s s' : Subscription} → Steady s s' → Follows s s'
Steady-Follows {s} {s'} p = record {
  tenant = p.tenant;
  status = p.status;
  frozen = p.frozen;
  mark =
      let same : s'.last_event_at ≡ s.last_event_at = p.mark in
      rw same (Later-refl s.last_event_at);
}

pub Writes-Follows : {t u : Table Subscription} → Writes t u → Kept Follows t u
Writes-Follows ws pk s e = let (s', row, p) = Writes-Kept ws pk s e in (s', row, Steady-Follows p)

-- An event for a canceled subscription changes nothing.
pub dispatch_canceled :
    (type : EventType) (now fresh : ℕ) (event : WebhookEvent) (db : Store) (pk : ℕ)
    (s : Subscription)
    → subscription_for event db ≡ some (pk, s)
    → s.status ≡ Status.canceled
    → dispatch type now fresh event db ≡ (ok noop, db)
unfolding dispatch handle_activated activate_existing handle_charged handle_cancelled
    handle_payment_trouble
dispatch_canceled type now fresh event db pk s e c = ground arith

-- Step 4, behind writes that a row was not canceled before.
module _ (db : Store) (k : ℕ) (s : Subscription) (row : lookup k db.subscriptions ≡ some s)
    (open_ : is_canceled s.status ≡ false) (db' : Store)
    (ws : Writes db.subscriptions db'.subscriptions) (at : ℕ)
    (newer : advances at s.last_event_at ≡ true) where
  marked : Subscription → Subscription
  marked s = record s { last_event_at = some at }

  marked-Follows : (s1 : Subscription) → Steady s s1 → Follows s (marked s1)
  unfolding marked
  marked-Follows s1 p = record {
    tenant = p.tenant;
    status = p.status;
    frozen = λ h. absurd (ground arith);
    mark = later s.last_event_at newer;
  }
    where
      later : (last : Option ℕ) → advances at last ≡ true → Later last (some at)
      later none h = tt
      later (some a) h = ground arith

  marked_row : (s1 : Subscription) × (lookup k db'.subscriptions ≡ some s1) × Steady s s1
  marked_row = Writes-Kept ws k s row

  marked_table :
      (update k marked db').1.subscriptions ≡ save k (marked marked_row.0) db'.subscriptions
  marked_table = ground (arith, update-found k marked marked_row.0 db' marked_row.1)

  marked-Kept : Kept Follows db.subscriptions (update k marked db').1.subscriptions
  marked-Kept j v e = rw marked_table (elim (Bool-cases (k == j)) [
    | inl hit ↦
        let saved : lookup j (save k (marked marked_row.0) db'.subscriptions)
            ≡ some (marked marked_row.0) =
          ground (arith, lookup-save j k (marked marked_row.0) db'.subscriptions) in
        let key : k ≡ j = ground arith in
        let old : s ≡ v = ground arith in
        (marked marked_row.0, saved, rw (← old) (marked-Follows marked_row.0 marked_row.2))
    | inr miss ↦
        let (v1, row1, p) = Writes-Kept ws j v e in
        let saved : lookup j (save k (marked marked_row.0) db'.subscriptions) ≡ some v1 =
          ground (arith, lookup-save j k (marked marked_row.0) db'.subscriptions) in
        (v1, saved, Steady-Follows p)
  ])

  marked-IsUnique : IsUnique db.subscriptions → IsUnique (update k marked db').1.subscriptions
  unfolding marked
  marked-IsUnique h = rw marked_table (
      IsUnique-keep k marked_row.0 (marked marked_row.0) db'.subscriptions marked_row.1 refl refl
        (Writes-IsUnique ws h))

-- What is kept by a call: the lives of the rows, and that they are unique.
pub record IsSound (t u : Table Subscription) : Type 0 where
  pub rows : Kept Follows t u
  pub unique : IsUnique t → IsUnique u

pub Writes-IsSound : {t u : Table Subscription} → Writes t u → IsSound t u
Writes-IsSound ws = record { rows = Writes-Follows ws; unique = Writes-IsUnique ws }

pub IsSound-trans : {t u v : Table Subscription} → IsSound t u → IsSound u v → IsSound t v
IsSound-trans a b = record {
  rows = λ pk s e.
      let (m, row, p) = a.rows pk s e in
      let (n, row', q) = b.rows pk m row in (n, row', Follows-trans p q);
  unique = λ h. b.unique (a.unique h);
}

-- The row that the event is for, which an event changes only while it is not canceled.
abbrev IsOpen : Store → Bool → Option (ℕ × Subscription) → Type 0
IsOpen db changed none = Unit
IsOpen db changed (some (k, s)) =
    (lookup k db.subscriptions ≡ some s) × (changed ≡ true → is_canceled s.status ≡ false)

advance-IsSound :
    (db db' : Store) (changed : Bool) (sub_before : Option (ℕ × Subscription)) (at : Option ℕ)
    → IsOpen db changed sub_before
    → Writes db.subscriptions db'.subscriptions
    → IsSound db.subscriptions (when changed (advance sub_before at) db').1.subscriptions
unfolding advance marked
advance-IsSound db db' false sub_before at o ws = Writes-IsSound ws
advance-IsSound db db' true none at o ws = Writes-IsSound ws
advance-IsSound db db' true (some (k, s)) none o ws = Writes-IsSound ws
advance-IsSound db db' true (some (k, s)) (some at) (row, o) ws =
    elim (Bool-cases (advances at s.last_event_at)) [
      | inl newer ↦ rw newer (record {
        rows = marked-Kept db k s row (o refl) db' ws at newer;
        unique = marked-IsUnique db k s row (o refl) db' ws at newer;
      })
      | inr older ↦ rw older (Writes-IsSound ws)
    ]

after {ℓ κ} :
    {A : Type ℓ} {B : Type κ} (b : B) (q : Result A × Store) → (continued (λ _. pure b) q).1 ≡ q.1
after b (ok a, db) = refl
after b (err e, db) = refl

mark-IsSound :
    (db : Store) (sub_before : Option (ℕ × Subscription)) (at : Option ℕ)
    (r : Result Outcome × Store)
    → ((a : Outcome) → r.0 ≡ ok a → IsOpen db (is_applied a) sub_before)
    → Writes db.subscriptions r.1.subscriptions
    → IsSound db.subscriptions
        (continued (λ a. when (is_applied a) (advance sub_before at) >> pure a) r).1.subscriptions
mark-IsSound db sub_before at (ok a, db') o ws =
    rw (after a (when (is_applied a) (advance sub_before at) db'))
      (advance-IsSound db db' (is_applied a) sub_before at (o a refl) ws)
mark-IsSound db sub_before at (err e, db') o ws = Writes-IsSound ws

-- An event that is applied is for a subscription that is not canceled, where there is one.
dispatch-IsOpen :
    (now fresh : ℕ) (event : WebhookEvent) (db : Store) (sub_before : Option (ℕ × Subscription))
    → subscription_for event db ≡ sub_before
    → (a : Outcome)
    → (recovered_if is_illegal (pure noop) (dispatch event.event_type now fresh event db)).0 ≡ ok a
    → IsOpen db (is_applied a) sub_before
dispatch-IsOpen now fresh event db none e a h = tt
dispatch-IsOpen now fresh event db (some (k, s)) e a h = (
  subscription_for-lookup event db k s e,
  λ changed. elim (Bool-cases (is_canceled s.status)) [
    | inl over ↦
        let c : s.status ≡ Status.canceled = ground arith in
        absurd (ground (arith, dispatch_canceled event.event_type now fresh event db k s e c))
    | inr open_ ↦ open_
  ],
)

apply_event-IsSound :
    (now fresh : ℕ) (event : WebhookEvent) (db : Store)
    → IsSound db.subscriptions
        (apply_event now fresh event (subscription_for event db) db).1.subscriptions
unfolding apply_event
apply_event-IsSound now fresh event db =
    elim (Bool-cases (is_stale event (subscription_for event db))) [
      | inl stale ↦ rw stale (Writes-IsSound done)
      | inr current ↦ rw current (
          mark-IsSound db (subscription_for event db) event.event_created_at
            (recovered_if is_illegal (pure noop) (dispatch event.event_type now fresh event db))
            (dispatch-IsOpen now fresh event db (subscription_for event db) refl)
            (recovered_if-Writes db.subscriptions is_illegal (pure noop)
              (dispatch event.event_type now fresh event db)
              (dispatch-Writes event.event_type now fresh event db) done))
    ]

settled :
    (db : Store) (pk : ℕ) (event : WebhookEvent) (r : Result Outcome × Store)
    → IsSound db.subscriptions r.1.subscriptions
    → IsSound db.subscriptions
        (continued (λ outcome. settle pk event outcome >> pure outcome) r).1.subscriptions
unfolding settle
settled db pk event (err e, db') h = h
settled db pk event (ok applied, db') h = h
settled db pk event (ok noop, db') h = h
settled db pk event (ok skipped, db') h = h
settled db pk event (ok deferred, db') h = h

rolled_back-IsSound {ℓ} :
    {A : Type ℓ} (db : Store) (r : Result A × Store)
    → IsSound db.subscriptions r.1.subscriptions
    → IsSound db.subscriptions (rolled_back db r).1.subscriptions
rolled_back-IsSound db (ok a, db') h = h
rolled_back-IsSound db (err e, db') h = Writes-IsSound done

if-IsSound {ℓ} :
    {A : Type ℓ} (c : Bool) (m n : Exec Store A) (db : Store)
    → IsSound db.subscriptions (m db).1.subscriptions
    → IsSound db.subscriptions (n db).1.subscriptions
    → IsSound db.subscriptions ((if c then m else n) db).1.subscriptions
if-IsSound true m n db h g = h
if-IsSound false m n db h g = g

turn-IsSound :
    (now fresh pk : ℕ) (db : Store) (row : Option WebhookEvent)
    → IsSound db.subscriptions ((require row >>= process now fresh pk) db).1.subscriptions
unfolding process
turn-IsSound now fresh pk db none = Writes-IsSound done
turn-IsSound now fresh pk db (some event) =
    if-IsSound event.processed (pure skipped)
      (gets (subscription_for event) >>= λ sub_before.
        apply_event now fresh event sub_before >>= λ outcome.
        settle pk event outcome >> pure outcome)
      db (Writes-IsSound done)
      (settled db pk event (apply_event now fresh event (subscription_for event db) db)
        (apply_event-IsSound now fresh event db))

-- Whichever way `process_event` ends: every subscription is there still, its status has only taken
-- edges of the diagram, a canceled one is not changed and the instant of its last event not moved
-- back; and they stay unique.
pub process_event-IsSound :
    (now fresh pk : ℕ) (db : Store)
    → IsSound db.subscriptions (process_event now fresh pk db).1.subscriptions
unfolding process_event
process_event-IsSound now fresh pk db =
    rolled_back-IsSound db _ (turn-IsSound now fresh pk db (lookup pk db.events))
