-- ===== src/Billing/Subscriptions.antt =====
-- `SubscriptionService` of apps/billing/services.py. A call is given the key of the subscription.
pub mod Writes
use tenora.Base.{
  ℕ, ◌+◌, ◌*◌, Bool, true, false, not, ◌&&◌, ◌||◌, Option, none, some, is_some, if◌then◌else◌,
}
use tenora.Base.Table.{Table, lookup, save, exists, exists_other}
use tenora.Exec.{
  Exec, ok, err, integrity, exception, pure, raise, raise_if, gets, modify, atomic, require,
  except_integrity, when, ◌>>=◌, ◌>>◌, illegal_state_transition, subscription_already_exists,
}
use tenora.Billing.Rows.{
  Interval, monthly, annual, Plan, Subscription, Status, Store, update, clashes, same_id,
  is_canceled, plan_row, subscription_row,
}
use tenora.Billing.Plans.{second, record_for_plan_change}

abbrev pub day : ℕ
day = 86_400 * second

-- PERIOD_LENGTH
unfoldable pub period_length : Interval → ℕ
period_length monthly = 30 * day
period_length annual = 365 * day

-- The end of the period that starts at an instant.
unfoldable pub period_end_of : Plan → ℕ → ℕ
unfolding period_length
period_end_of plan start = start + period_length plan.interval

-- An INSERT into the table; the key is a fresh one.
unfoldable pub insert_subscription : ℕ → Subscription → Exec {0} Store Unit
insert_subscription fresh s db =
    if is_some (lookup fresh db.subscriptions) || exists (clashes s) db.subscriptions
    then (err integrity, db)
    else (ok tt, record db { subscriptions = save fresh s db.subscriptions })

abbrev pub new_subscription : ℕ → ℕ → ℕ → ℕ → Option ℕ → Subscription
new_subscription tenant plan start end external = record {
  tenant = tenant;
  plan = plan;
  status = Status.trialing;
  external_subscription_id = external;
  last_event_at = none;
  current_period_start = start;
  current_period_end = end;
}

unfoldable pub create_subscription : ℕ → ℕ → ℕ → ℕ → ℕ → Option ℕ → Exec Store ℕ
create_subscription fresh tenant plan start end external =
    except_integrity
      (atomic
        do insert_subscription fresh (new_subscription tenant plan start end external); pure fresh)
      (raise (exception subscription_already_exists))

-- LEGAL_TRANSITIONS
unfoldable pub is_legal : Status → Status → Bool
is_legal Status.trialing Status.active = true
is_legal Status.trialing Status.canceled = true
is_legal Status.active Status.past_due = true
is_legal Status.active Status.canceled = true
is_legal Status.past_due Status.active = true
is_legal Status.past_due Status.canceled = true
is_legal _ _ = false

unfoldable pub transition_status : ℕ → Status → Exec Store ℕ
transition_status pk new_status = atomic do
  s ← subscription_row pk
  raise_if (not (is_legal s.status new_status)) (exception illegal_state_transition)
  update pk (λ s. record s { status = new_status })
  pure pk

-- The audit entry, and the plan.
unfoldable pub swap_plan : ℕ → ℕ → Subscription → Plan → ℕ → Plan → Exec Store ℕ
swap_plan now pk s from_plan new_plan to_plan = do
  record_for_plan_change now pk s s.plan from_plan new_plan to_plan
  update pk (λ s. record s { plan = new_plan })
  pure pk

unfoldable pub change_plan : ℕ → ℕ → ℕ → Exec Store ℕ
change_plan now pk new_plan = atomic do
  s ← subscription_row pk
  raise_if (is_canceled s.status) (exception illegal_state_transition)
  from_plan ← plan_row s.plan
  to_plan ← plan_row new_plan
  swap_plan now pk s from_plan new_plan to_plan

-- A write of the provider id, which is unique.
unfoldable pub adopt : ℕ → Option ℕ → Exec {0} Store Unit
adopt pk external = do
  s ← subscription_row pk
  taken ←
      gets
        (λ db. exists_other pk (λ o. same_id o.external_subscription_id external) db.subscriptions)
  raise_if taken integrity
  update pk (λ s. record s { external_subscription_id = external })

unfoldable pub adopt_new : ℕ → Option ℕ → Exec Store ℕ
adopt_new pk external = do
  s ← subscription_row pk
  when (is_some external && not (same_id s.external_subscription_id external)) (adopt pk external)
  pure pk

unfoldable pub apply_upgrade : ℕ → ℕ → ℕ → Option ℕ → Exec Store ℕ
apply_upgrade now pk new_plan external =
    atomic do change_plan now pk new_plan; adopt_new pk external

unfoldable pub cancel_subscription : ℕ → Exec Store ℕ
cancel_subscription pk = transition_status pk Status.canceled
