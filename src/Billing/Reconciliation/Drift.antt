-- ===== src/Billing/Reconciliation/Drift.antt =====
-- What a reconciliation sweep records (`ReconciliationService` of apps/billing/services.py), against
-- a description of the drift that does not mention the store.
use mathlib.Core.List.{append-nil, append_assoc}
use tenora.Base.{
  ℕ, refl, Bool-cases, Option-cases, ◌≡◌, arith, Option, none, some, inl, inr, List, [], ◌∷◌, ◌++◌,
  if◌then◌else◌, map,
}
use tenora.Base.Table.{Table}
use tenora.Exec.{Result, ok, err}
use tenora.Billing.Rows.{
  Subscription, ProviderStatus, Category, provider_not_found, ReconciliationDiscrepancy, Store,
}
use tenora.Billing.Gateway.{Gateway}
use tenora.Billing.Reconciliation.{
  local_status, same_status, category_of, record_discrepancy, compare_state, reconcile_subscription,
  checked, reconcile_each, reconcile_all,
}

-- The provider ids of the subscriptions that have one, in order.
unfoldable pub provider_ids : Table Subscription → List (Option ℕ)
provider_ids [] = []
provider_ids ((_, s) ∷ rows) = elim s.external_subscription_id [
  | none ↦ provider_ids rows
  | some external ↦ some external ∷ provider_ids rows
]

module _ (gateway : Gateway) (now : ℕ) where
  abbrev row : ℕ → Subscription → ℕ → Category → Option ProviderStatus → ReconciliationDiscrepancy
  row pk s external category provider = record {
    tenant = s.tenant;
    subscription = pk;
    external_subscription_id = external;
    category = category;
    local_status = s.status;
    provider_status = provider;
    detected_at = now;
  }

  -- The drift that an answer of the provider shows; a failure to answer shows none.
  abbrev drift :
      ℕ → Subscription → ℕ → Result (Option ProviderStatus) → List ReconciliationDiscrepancy
  drift pk s external (err _) = []
  drift pk s external (ok none) = row pk s external provider_not_found none ∷ []
  drift pk s external (ok (some state)) =
      if same_status (local_status s.status) state
      then []
      else row pk s external (category_of s.status) (some state) ∷ []

  abbrev drift_of : ℕ → Subscription → Option ℕ → List ReconciliationDiscrepancy
  drift_of pk s none = []
  drift_of pk s (some external) = drift pk s external (gateway.fetch_subscription_state external)

  unfoldable pub all_drift : Table Subscription → List ReconciliationDiscrepancy
  all_drift [] = []
  all_drift ((pk, s) ∷ rows) = drift_of pk s s.external_subscription_id ++ all_drift rows

  abbrev with_drift : Store → List ReconciliationDiscrepancy → Store
  with_drift db new = record db { discrepancies = db.discrepancies ++ new }

  compare_drift :
      (pk external : ℕ) (s : Subscription) (answer : Result (Option ProviderStatus)) (db : Store)
      → (compare_state now pk s external answer db).1 ≡ with_drift db (drift pk s external answer)
  unfolding compare_state record_discrepancy
  compare_drift pk external s (err e) db = ground (arith, append-nil db.discrepancies)
  compare_drift pk external s (ok none) db = refl
  compare_drift pk external s (ok (some state)) db =
      elim (Bool-cases (same_status (local_status s.status) state)) [
        | inl same ↦ ground (arith, same, append-nil db.discrepancies)
        | inr other ↦ ground (arith, other)
      ]

  compare_id :
      (pk external : ℕ) (s : Subscription) (answer : Result (Option ProviderStatus)) (db : Store)
      → s.external_subscription_id ≡ some external
      → (checked s (compare_state now pk s external answer db).0).external_subscription_id
        ≡ some external
  unfolding compare_state record_discrepancy
  compare_id pk external s answer db e = ground arith

  one_drift :
      (pk : ℕ) (s : Subscription) (external : ℕ) (db : Store)
      → s.external_subscription_id ≡ some external
      → ((reconcile_subscription gateway now pk s db).1
          ≡ with_drift db (drift pk s external (gateway.fetch_subscription_state external)))
        × ((checked s (reconcile_subscription gateway now pk s db).0).external_subscription_id
            ≡ some external)
  unfolding reconcile_subscription
  one_drift pk s external db e = (
    ground (arith, e, compare_drift pk external s (gateway.fetch_subscription_state external) db),
    ground (arith, e, compare_id pk external s (gateway.fetch_subscription_state external) db e),
  )

  each_drift :
      (rows : Table Subscription) (db : Store)
      → ((reconcile_each gateway now rows db).1 ≡ with_drift db (all_drift rows))
        × (map (λ r. r.external_subscription_id) (reconcile_each gateway now rows db).0
            ≡ provider_ids rows)
  unfolding reconcile_each all_drift provider_ids
  each_drift [] db = (ground (arith, append-nil db.discrepancies), refl)
  each_drift ((pk, s) ∷ rows) db = elim (Option-cases s.external_subscription_id) [
    | inl unset ↦ rw unset (each_drift rows db)
    | inr (external, set) ↦
        let new : List ReconciliationDiscrepancy =
          drift pk s external (gateway.fetch_subscription_state external) in
        let (run, id) = one_drift pk s external db set in
        let rest : (reconcile_each gateway now rows (with_drift db new)).1
            ≡ with_drift (with_drift db new) (all_drift rows) =
          (each_drift rows (with_drift db new)).0 in
        let ids : map (λ r. r.external_subscription_id)
              (reconcile_each gateway now rows (with_drift db new)).0
            ≡ provider_ids rows =
          (each_drift rows (with_drift db new)).1 in
        (
          ground (arith, set, run, rest, append_assoc db.discrepancies new (all_drift rows)),
          ground (arith, set, run, id, ids),
        )
  ]

-- reconcile_all gives one verdict for each subscription with a provider id, in order; and the
-- store after it is the store before with one row of drift for each of them whose provider
-- disowns the id or reports another status, and none where the provider could not be asked.
pub reconcile_all_lem :
    (gateway : Gateway) (now : ℕ) (db : Store)
    → ((reconcile_all gateway now db).1
        ≡ record db { discrepancies = db.discrepancies ++ all_drift gateway now db.subscriptions })
      × (map (λ r. r.external_subscription_id) (reconcile_all gateway now db).0
          ≡ provider_ids db.subscriptions)
unfolding reconcile_all
reconcile_all_lem gateway now db = each_drift gateway now db.subscriptions db
