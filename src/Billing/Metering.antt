-- ===== src/Billing/Metering.antt =====
-- `UsageMeteringService` of apps/billing/services.py. Its one metric is the number of active members.
pub mod Once
use tenora.Base.{
  ℕ, ◌+◌, Bool, true, false, ◌&&◌, ◌||◌, Option, none, some, List, [], ◌∷◌, ◌++◌, is_some, ◌==◌,
  if◌then◌else◌,
}
use tenora.Base.Table.{Table, lookup, save, exists, first_row}
use tenora.Exec.{
  Exec, Result, ok, err, integrity, exception, Error, pure, raise, gets, require, atomic,
  except_integrity, if_found, ◌>>=◌, ◌>>◌, no_billing_period,
}
use tenora.Property.Rows.{Membership, MembershipStatus}
use tenora.Billing.Rows.{Subscription, UsageRecord, Store}

abbrev pub is_seat : ℕ → Membership → Bool
is_seat tenant m =
    m.tenant == tenant && elim m.status [ MembershipStatus.active ↦ true | _ ↦ false ]

-- `_count`
unfoldable pub count_members : ℕ → Table Membership → ℕ
count_members tenant [] = 0
count_members tenant ((_, m) ∷ rows) =
    (if is_seat tenant m then 1 else 0) + count_members tenant rows

abbrev pub is_tenant : ℕ → Subscription → Bool
is_tenant tenant s = s.tenant == tenant

-- unique_usage_snapshot
abbrev pub same_snapshot : ℕ → ℕ → ℕ → UsageRecord → Bool
same_snapshot tenant start end r =
    r.tenant == tenant && (r.period_start == start && r.period_end == end)

unfoldable pub insert_usage : ℕ → UsageRecord → Exec {0} Store Unit
insert_usage fresh r db =
    if is_some (lookup fresh db.usage)
      || exists (same_snapshot r.tenant r.period_start r.period_end) db.usage
    then (err integrity, db)
    else (ok tt, record db { usage = save fresh r db.usage })

abbrev pub snapshot_of : ℕ → Subscription → ℕ → UsageRecord
snapshot_of tenant s quantity = record {
  tenant = tenant;
  quantity = quantity;
  period_start = s.current_period_start;
  period_end = s.current_period_end;
}

-- The snapshot of the current period, and whether it is new.
unfoldable pub store_snapshot : ℕ → ℕ → Subscription → Exec Store ((ℕ × UsageRecord) × Bool)
store_snapshot fresh tenant s = do
  quantity ← gets (λ db. count_members tenant db.memberships)
  except_integrity
      (do
        atomic (insert_usage fresh (snapshot_of tenant s quantity))
        pure ((fresh, snapshot_of tenant s quantity), true))
      (do
        existing ← gets (λ db.
            first_row (same_snapshot tenant s.current_period_start s.current_period_end) db.usage)
        existing ← require existing
        pure (existing, false))

unfoldable pub record_snapshot : ℕ → ℕ → Exec Store ((ℕ × UsageRecord) × Bool)
record_snapshot fresh tenant = do
  row ← gets (λ db. first_row (is_tenant tenant) db.subscriptions)
  if_found row (raise (exception no_billing_period)) (λ r. store_snapshot fresh tenant r.1)

pub record UsageSnapshotBatchResult : Type 0 where
  pub records : List (ℕ × UsageRecord)
  pub existing : ℕ
  pub skipped : ℕ
  pub total : ℕ

abbrev pub is_no_period : Error → Bool
is_no_period (exception no_billing_period) = true
is_no_period _ = false

abbrev pub tallied :
    Result ((ℕ × UsageRecord) × Bool) → UsageSnapshotBatchResult → Result UsageSnapshotBatchResult
tallied (ok (r, true)) b = ok (record b { records = b.records ++ (r ∷ []); total = b.total + 1 })
tallied (ok (r, false)) b = ok (record b { existing = b.existing + 1; total = b.total + 1 })
tallied (err e) b =
    if is_no_period e then ok (record b { skipped = b.skipped + 1; total = b.total + 1 }) else err e

-- The loop over the workspaces, each with the key of a new row; any other error ends it.
unfoldable pub snapshot_each :
    (ℕ → ℕ) → List ℕ → UsageSnapshotBatchResult → Exec Store UsageSnapshotBatchResult
snapshot_each fresh [] b db = (ok b, db)
snapshot_each fresh (tenant ∷ tenants) b db =
    let (r, db') = record_snapshot (fresh tenant) tenant db in
    elim (tallied r b) [ err e ↦ (err e, db') | ok b' ↦ snapshot_each fresh tenants b' db' ]

-- The workspaces with a subscription, in their order.
unfoldable pub subscribed : Table Subscription → List ℕ → List ℕ
subscribed subscriptions [] = []
subscribed subscriptions (tenant ∷ tenants) =
    let rest = subscribed subscriptions tenants in
    if exists (is_tenant tenant) subscriptions then tenant ∷ rest else rest

abbrev pub no_snapshots : UsageSnapshotBatchResult
no_snapshots = record { records = []; existing = 0; skipped = 0; total = 0 }

-- `tenants` are the workspaces, the oldest first.
unfoldable pub snapshot_all_subscribed : (ℕ → ℕ) → List ℕ → Exec Store UsageSnapshotBatchResult
snapshot_all_subscribed fresh tenants = do
  subscriptions ← gets (λ db. db.subscriptions)
  snapshot_each fresh (subscribed subscriptions tenants) no_snapshots

unfoldable pub usage_for_period : ℕ → ℕ → ℕ → Store → Option (ℕ × UsageRecord)
usage_for_period tenant start end db = first_row (same_snapshot tenant start end) db.usage

unfoldable pub current_usage : ℕ → Store → Option (ℕ × UsageRecord)
unfolding usage_for_period
current_usage tenant db = elim (first_row (is_tenant tenant) db.subscriptions) [
  | none ↦ none
  | some (_, s) ↦ usage_for_period tenant s.current_period_start s.current_period_end db
]
