-- ===== src/Billing/Metering/Once.antt =====
-- A snapshot is taken once for a period (`UsageMeteringService.record_snapshot` of
-- apps/billing/services.py).
use tenora.Base.{
  ℕ, refl, Bool, true, false, Bool-cases, Option-cases, ◌≡◌, arith, none, some, inl, inr,
}
use tenora.Base.Table.{lookup, save, exists, first_row, exists-save, first_row-save_new}
use tenora.Exec.{ok, err, does_not_exist}
use tenora.Billing.Rows.{Subscription, UsageRecord, Store}
use tenora.Billing.Metering.{
  same_snapshot, snapshot_of, insert_usage, store_snapshot, record_snapshot, count_members,
  is_tenant,
}

abbrev fits : ℕ → Subscription → UsageRecord → Bool
fits tenant s = same_snapshot tenant s.current_period_start s.current_period_end

snapshot_known :
    (fresh tenant : ℕ) (s : Subscription) (r : ℕ × UsageRecord) (db : Store)
    → exists (fits tenant s) db.usage ≡ true
    → first_row (fits tenant s) db.usage ≡ some r
    → store_snapshot fresh tenant s db ≡ (ok (r, false), db)
unfolding store_snapshot insert_usage
snapshot_known fresh tenant s r db there row = ground arith

snapshot_unknown :
    (fresh tenant : ℕ) (s : Subscription) (db : Store)
    → exists (fits tenant s) db.usage ≡ true
    → first_row (fits tenant s) db.usage ≡ none
    → (store_snapshot fresh tenant s db).0 ≡ err does_not_exist
unfolding store_snapshot insert_usage
snapshot_unknown fresh tenant s db there row = ground arith

snapshot_new :
    (fresh tenant : ℕ) (s : Subscription) (db : Store)
    → exists (fits tenant s) db.usage ≡ false
    → lookup fresh db.usage ≡ none
    → let r : UsageRecord = snapshot_of tenant s (count_members tenant db.memberships) in
      store_snapshot fresh tenant s db
      ≡ (ok ((fresh, r), true), record db { usage = save fresh r db.usage })
unfolding store_snapshot insert_usage
snapshot_new fresh tenant s db new free = ground arith

store_snapshot_again :
    (fresh fresh' tenant : ℕ) (s : Subscription) (r : ℕ × UsageRecord) (c : Bool) (db db' : Store)
    → lookup fresh db.usage ≡ none
    → store_snapshot fresh tenant s db ≡ (ok (r, c), db')
    → (store_snapshot fresh' tenant s db' ≡ (ok (r, false), db'))
      × (db'.subscriptions ≡ db.subscriptions)
store_snapshot_again fresh fresh' tenant s r c db db' free h =
    elim (Bool-cases (exists (fits tenant s) db.usage)) [
      | inl there ↦ elim (Option-cases (first_row (fits tenant s) db.usage)) [
        | inl missing ↦ absurd (ground (arith, h, snapshot_unknown fresh tenant s db there missing))
        | inr (r', row) ↦
            let run : store_snapshot fresh tenant s db ≡ (ok (r', false), db) =
              snapshot_known fresh tenant s r' db there row in
            let same : r' ≡ r = ground (arith, h, run) in
            let store : db ≡ db' = ground (arith, h, run) in
            rw (← store, ← same) (snapshot_known fresh' tenant s r' db there row, refl)
      ]
      | inr new ↦
          let u : UsageRecord = snapshot_of tenant s (count_members tenant db.memberships) in
          let run : store_snapshot fresh tenant s db
              ≡ (ok ((fresh, u), true), record db { usage = save fresh u db.usage }) =
            snapshot_new fresh tenant s db new free in
          let ours : fits tenant s u ≡ true = ground arith in
          let same : (fresh, u) ≡ r = ground (arith, h, run) in
          let store : record db { usage = save fresh u db.usage } ≡ db' = ground (arith, h, run) in
          rw (← store, ← same)
            (
              snapshot_known fresh' tenant s (fresh, u)
                  (record db { usage = save fresh u db.usage })
                  (exists-save (fits tenant s) fresh u db.usage ours)
                  (first_row-save_new (fits tenant s) fresh u db.usage new ours free),
              refl,
            )
    ]

-- If the key of the new row is free, then once record_snapshot has answered a row for a
-- workspace, calling it again answers the same row, as one that existed, and stores nothing.
pub record_snapshot_again :
    (fresh fresh' tenant : ℕ) (r : ℕ × UsageRecord) (c : Bool) (db db' : Store)
    → lookup fresh db.usage ≡ none
    → record_snapshot fresh tenant db ≡ (ok (r, c), db')
    → record_snapshot fresh' tenant db' ≡ (ok (r, false), db')
unfolding record_snapshot
record_snapshot_again fresh fresh' tenant r c db db' free h =
    elim (Option-cases (first_row (is_tenant tenant) db.subscriptions)) [
      | inl missing ↦ absurd (ground (arith, h, missing))
      | inr ((pk, s), row) ↦
          let run : store_snapshot fresh tenant s db ≡ (ok (r, c), db') = ground (arith, h, row) in
          let again : (store_snapshot fresh' tenant s db' ≡ (ok (r, false), db'))
              × (db'.subscriptions ≡ db.subscriptions) =
            store_snapshot_again fresh fresh' tenant s r c db db' free run in
          let row' : first_row (is_tenant tenant) db'.subscriptions ≡ some (pk, s) =
            rw again.1 row in
          ground (arith, row', again.0)
    ]
