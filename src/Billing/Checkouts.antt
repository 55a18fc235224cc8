-- ===== src/Billing/Checkouts.antt =====
-- `PlanSyncService` and `CheckoutService` of apps/billing/services.py.
pub mod Once
use tenora.Base.{
  ℕ, ◌+◌, ◌*◌, Bool, true, false, not, Option, none, some, is_some, ◌==◌, ltb, if◌then◌else◌,
}
use tenora.Base.Table.{lookup, save, first_row, exists_other}
use tenora.Exec.{
  Exec, ok, err, integrity, exception, pure, raise, raise_if, gets, modify, atomic, require, lift,
  if_found, ◌>>=◌, ◌>>◌, plan_not_synced, checkout_plan_mismatch, checkout_signature_invalid,
}
use tenora.Billing.Rows.{
  Plan, SubscriptionCheckout, CheckoutStatus, created, confirmed, Store, same_id, plan_row,
}
use tenora.Billing.Plans.{second}
use tenora.Billing.Gateway.{Gateway}

-- Whether another plan has the gateway's id, which is unique.
abbrev pub is_plan_taken : ℕ → ℕ → Store → Bool
is_plan_taken pk external db =
    exists_other pk (λ o. same_id o.external_plan_id (some external)) db.plans

unfoldable pub sync_plan : Gateway → ℕ → Exec Store ℕ
sync_plan gateway pk = do
  plan ← plan_row pk
  elim plan.external_plan_id [
    | some external ↦ pure external
    | none ↦ do
      external ← lift (gateway.create_plan plan)
      taken ← gets (is_plan_taken pk external)
      raise_if taken integrity
      modify (λ db. record db {
        plans = save pk (record plan { external_plan_id = some external }) db.plans;
      })
      pure external
  ]

abbrev pub is_confirmed : CheckoutStatus → Bool
is_confirmed created = false
is_confirmed confirmed = true

abbrev pub is_of : ℕ → SubscriptionCheckout → Bool
is_of tenant c = c.tenant == tenant

-- `SUBSCRIPTION_CHECKOUT_STALE_AFTER_MINUTES` is `stale_minutes`.
unfoldable pub is_abandoned : Gateway → ℕ → ℕ → SubscriptionCheckout → ℕ → Bool
is_abandoned gateway stale_minutes now checkout external =
    if is_confirmed checkout.status
    then false
    else if ltb now (checkout.updated_at + stale_minutes * (60 * second))
    then false
    else elim (gateway.checkout_is_abandoned external) [ some true ↦ true | _ ↦ false ]

abbrev pub new_checkout : ℕ → ℕ → ℕ → SubscriptionCheckout
new_checkout tenant plan now = record {
  tenant = tenant;
  plan = plan;
  external_subscription_id = none;
  status = created;
  provider = "";
  session_token = "";
  updated_at = now;
}

-- An INSERT of the checkout of a workspace that has none.
unfoldable pub insert_checkout : ℕ → SubscriptionCheckout → Exec {0} Store Unit
insert_checkout fresh c db =
    if is_some (lookup fresh db.checkouts)
    then (err integrity, db)
    else (ok tt, record db { checkouts = save fresh c db.checkouts })

-- `get_or_create(tenant=tenant, defaults={"plan": plan})`
unfoldable pub get_or_create : ℕ → ℕ → ℕ → ℕ → Exec Store (ℕ × SubscriptionCheckout)
unfolding insert_checkout
get_or_create fresh tenant plan now = do
  row ← gets (λ db. first_row (is_of tenant) db.checkouts)
  elim row [
    | some row ↦ pure row
    | none ↦ do
      insert_checkout fresh (new_checkout tenant plan now)
      pure (fresh, new_checkout tenant plan now)
  ]

-- Whether another checkout has the gateway's id, which is unique.
abbrev pub is_checkout_taken : ℕ → ℕ → Store → Bool
is_checkout_taken pk external db =
    exists_other pk (λ o. same_id o.external_subscription_id (some external)) db.checkouts

-- The gateway's subscription, written to the row of the checkout.
unfoldable pub open_checkout : Gateway → ℕ → ℕ → ℕ → Plan → ℕ → SubscriptionCheckout → Exec Store ℕ
open_checkout gateway now tenant plan_pk plan pk checkout = do
  made ← lift (gateway.create_subscription tenant plan)
  taken ← gets (is_checkout_taken pk made.external_subscription_id)
  raise_if taken integrity
  modify (λ db. record db {
    checkouts =
        save pk
          (record checkout {
            plan = plan_pk;
            external_subscription_id = some made.external_subscription_id;
            provider = made.provider;
            session_token = made.session_token;
            status = created;
            updated_at = now;
          })
          db.checkouts;
  })
  pure pk

-- The checkout of the workspace: open already, or opened, or opened again for another plan.
unfoldable pub reuse_or_open :
    Gateway → ℕ → ℕ → ℕ → ℕ → Plan → ℕ × SubscriptionCheckout → Exec Store ℕ
unfolding open_checkout
reuse_or_open gateway stale_minutes now tenant plan_pk plan (pk, checkout) =
    if_found checkout.external_subscription_id
      (open_checkout gateway now tenant plan_pk plan pk checkout)
      λ external.
        if checkout.plan == plan_pk
        then pure pk
        else if is_abandoned gateway stale_minutes now checkout external
        then open_checkout gateway now tenant plan_pk plan pk checkout
        else raise (exception checkout_plan_mismatch)

-- The key of the checkout's row.
unfoldable pub create_checkout : Gateway → ℕ → ℕ → ℕ → ℕ → ℕ → Exec Store ℕ
unfolding get_or_create
create_checkout gateway stale_minutes fresh now tenant plan_pk = do
  plan ← plan_row plan_pk
  raise_if (not (is_some plan.external_plan_id)) (exception plan_not_synced)
  atomic do
    row ← get_or_create fresh tenant plan_pk now
    reuse_or_open gateway stale_minutes now tenant plan_pk plan row

abbrev confirm_row : ℕ → ℕ → SubscriptionCheckout → Exec {0} Store Unit
confirm_row now pk checkout =
    if is_confirmed checkout.status
    then pure tt
    else modify λ db. record db {
      checkouts = save pk (record checkout { status = confirmed; updated_at = now }) db.checkouts;
    }

unfoldable pub confirm_checkout : Gateway → ℕ → ℕ → Option ℕ → ℕ → Exec {0} Store Unit
confirm_checkout gateway now tenant subscription_id report = do
  row ← gets (λ db. first_row (is_of tenant) db.checkouts)
  (pk, checkout) ← require row
  elim checkout.external_subscription_id [
    | none ↦ raise (exception checkout_signature_invalid)
    | some stored ↦
        if not (elim subscription_id [ none ↦ false | some given ↦ given == stored ])
        then raise (exception checkout_signature_invalid)
        else if not (gateway.confirm_checkout_report stored report)
        then raise (exception checkout_signature_invalid)
        else confirm_row now pk checkout
  ]
