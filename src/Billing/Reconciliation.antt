-- ===== src/Billing/Reconciliation.antt =====
-- `ReconciliationService` of apps/billing/services.py.
pub mod Drift
use tenora.Base.{ℕ, Bool, true, false, Option, none, some, List, [], ◌∷◌, ◌++◌, if◌then◌else◌}
use tenora.Base.Table.{Table}
use tenora.Exec.{
  Exec, Result, ok, err, exception, Error, pure, raise, modify, if_found, ◌>>◌,
  provider_unavailable,
}
use tenora.Billing.Rows.{
  Subscription, Status, ProviderStatus, Category, status_mismatch, local_canceled_provider_active,
  provider_not_found, Store, is_canceled,
}
use tenora.Billing.Gateway.{Gateway}

pub data Verdict : Type 0 where
  matched : Verdict
  discrepancy : Category → Verdict
  skipped unavailable : Verdict
  error : Error → Verdict

pub record ReconciledSubscription : Type 0 where
  pub external_subscription_id : Option ℕ
  pub outcome : Verdict

-- _LOCAL_STATUS
unfoldable pub local_status : Status → ProviderStatus
local_status Status.trialing = ProviderStatus.active
local_status Status.active = ProviderStatus.active
local_status Status.past_due = ProviderStatus.past_due
local_status Status.canceled = ProviderStatus.canceled

unfoldable pub same_status : ProviderStatus → ProviderStatus → Bool
same_status ProviderStatus.active ProviderStatus.active = true
same_status ProviderStatus.past_due ProviderStatus.past_due = true
same_status ProviderStatus.canceled ProviderStatus.canceled = true
same_status ProviderStatus.pending ProviderStatus.pending = true
same_status ProviderStatus.unknown ProviderStatus.unknown = true
same_status _ _ = false

-- `_record`
unfoldable pub record_discrepancy :
    ℕ → ℕ → Subscription → ℕ → Category → Option ProviderStatus → Exec Store ReconciledSubscription
record_discrepancy now pk s external category provider = do
  modify (λ db. record db {
    discrepancies =
        db.discrepancies
        ++ (record {
          tenant = s.tenant;
          subscription = pk;
          external_subscription_id = external;
          category = category;
          local_status = s.status;
          provider_status = provider;
          detected_at = now;
        }
            ∷ []);
  })
  pure (record { external_subscription_id = some external; outcome = discrepancy category })

abbrev pub category_of : Status → Category
category_of s = if is_canceled s then local_canceled_provider_active else status_mismatch

-- By what the provider answered.
unfoldable pub compare_state :
    ℕ → ℕ → Subscription → ℕ → Result (Option ProviderStatus) → Exec Store ReconciledSubscription
compare_state now pk s external (err (exception provider_unavailable)) =
    pure (record { external_subscription_id = some external; outcome = unavailable })
compare_state now pk s external (err e) = raise e
compare_state now pk s external (ok none) =
    record_discrepancy now pk s external provider_not_found none
compare_state now pk s external (ok (some state)) =
    if same_status (local_status s.status) state
    then pure (record { external_subscription_id = some external; outcome = matched })
    else record_discrepancy now pk s external (category_of s.status) (some state)

unfoldable pub reconcile_subscription :
    Gateway → ℕ → ℕ → Subscription → Exec Store ReconciledSubscription
reconcile_subscription gateway now pk s =
    if_found s.external_subscription_id
      (pure (record { external_subscription_id = none; outcome = skipped }))
      (λ external. compare_state now pk s external (gateway.fetch_subscription_state external))

-- An error is kept with the subscription and does not end the sweep.
abbrev pub checked : Subscription → Result ReconciledSubscription → ReconciledSubscription
checked s (ok r) = r
checked s (err e) = record {
  external_subscription_id = s.external_subscription_id;
  outcome = error e;
}

unfoldable pub reconcile_each :
    Gateway → ℕ → Table Subscription → Store → List ReconciledSubscription × Store
reconcile_each gateway now [] db = ([], db)
reconcile_each gateway now ((pk, s) ∷ rows) db = elim s.external_subscription_id [
  | none ↦ reconcile_each gateway now rows db
  | some _ ↦
      let (r, db') = reconcile_subscription gateway now pk s db in
      let (rest, db'') = reconcile_each gateway now rows db' in (checked s r ∷ rest, db'')
]

unfoldable pub reconcile_all : Gateway → ℕ → Store → List ReconciledSubscription × Store
reconcile_all gateway now db = reconcile_each gateway now db.subscriptions db
