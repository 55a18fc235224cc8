-- ===== src/Property/Cycles/Progress.antt =====
-- `BillingCycleService.progress` of apps/properties/services.py, without the names that it shows
-- beside an issue. The bills of a cycle are in the order of their table.
use tenora.Base.{
  ℕ, Bool, true, false, not, ◌&&◌, ◌+◌, Option, none, some, List, [], ◌∷◌, ◌++◌, ◌==◌, leb,
  if◌then◌else◌, ◌≡◌, refl, arith,
}
use tenora.Base.Int.{ℤ, pos}
use tenora.Base.Table.{Table, select, exists, sum_by}
use tenora.Base.Queries.{count}
use tenora.Property.Rows.{
  Lease, Meter, MeterReading, BillingCycle, Bill, BillStatus, paid, is_draft, is_issued,
  is_cancelled,
}
use tenora.Property.Db.{Db}
use tenora.Property.Prerequisites.{Issue, lease_prerequisites}
use tenora.Property.Cycles.{billable_leases}

pub record CycleIssue : Type 0 where
  pub lease : ℕ
  pub unit : ℕ
  pub issue : Issue

pub record Progress : Type 0 where
  pub expected_bills : ℕ
  pub meters_expected : ℕ
  pub readings_entered : ℕ
  pub bills_generated : ℕ
  pub bills_draft : ℕ
  pub bills_published : ℕ
  pub bills_paid : ℕ
  pub billed_cents : ℤ
  pub collected_cents : ℤ
  pub exceptions : List CycleIssue

-- `cycle.bills.exclude(status=CANCELLED)`
abbrev pub is_live_in : ℕ → Bill → Bool
is_live_in cycle_pk b = b.cycle == cycle_pk && not (is_cancelled b.status)

abbrev is_paid : BillStatus → Bool
is_paid paid = true
is_paid _ = false

-- `bill_keys.get(…)`: of several bills of one unit and resident, the last.
unfoldable pub bill_of : Lease → Table Bill → Option Bill
bill_of l [] = none
bill_of l ((_, b) ∷ bills) = elim (bill_of l bills) [
  | some later ↦ some later
  | none ↦ if b.unit == l.unit && b.resident == l.resident then some b else none
]

-- Whether a bill that is no draft is there already.
unfoldable pub is_billed : Table Bill → Lease → Bool
is_billed bills l = elim (bill_of l bills) [ none ↦ false | some b ↦ not (is_draft b.status) ]

unfoldable pub tagged : ℕ → Lease → List Issue → List CycleIssue
tagged pk l [] = []
tagged pk l (i ∷ issues) = record { lease = pk; unit = l.unit; issue = i } ∷ tagged pk l issues

unfoldable pub exceptions_of :
    (Table Meter → Table Meter) → BillingCycle → Table Bill → Table Lease → Db → List CycleIssue
exceptions_of by_number c bills [] db = []
exceptions_of by_number c bills ((pk, l) ∷ leases) db =
    let rest = exceptions_of by_number c bills leases db in
    if is_billed bills l
    then rest
    else tagged pk l (lease_prerequisites by_number l c.period_start c.period_end db).issues ++ rest

-- The active meters of the units of the leases.
abbrev pub is_expected : BillingCycle → Table Lease → Meter → Bool
is_expected c leases m =
    m.tenant == c.tenant && m.is_active && exists (λ l. l.unit == m.unit) leases

abbrev pub is_reading_of : BillingCycle → ℕ → MeterReading → Bool
is_reading_of c meter r =
    r.tenant == c.tenant
    && r.meter == meter
    && leb c.period_start r.reading_date
    && leb r.reading_date c.period_end

-- How many of some meters are read in the period.
unfoldable pub count_read : BillingCycle → Table MeterReading → Table Meter → ℕ
count_read c readings [] = 0
count_read c readings ((pk, _) ∷ meters) =
    let rest = count_read c readings meters in
    if exists (is_reading_of c pk) readings then 1 + rest else rest

unfoldable pub progress :
    (Table Lease → Table Lease) → (Table Meter → Table Meter) → ℕ → BillingCycle → Db → Progress
progress by_unit by_number cycle_pk c db =
    let leases = billable_leases by_unit c db.leases in
    let bills = select (is_live_in cycle_pk) db.bills in
    let meters = select (is_expected c leases) db.meters in
    record {
      expected_bills = count (λ _. true) leases;
      meters_expected = count (λ _. true) meters;
      readings_entered = count_read c db.readings meters;
      bills_generated = count (λ _. true) bills;
      bills_draft = count (λ b. is_draft b.status) bills;
      bills_published = count (λ b. is_issued b.status) bills;
      bills_paid = count (λ b. is_paid b.status) bills;
      billed_cents = sum_by (λ b. if is_issued b.status then b.total_cents else pos 0) bills;
      collected_cents =
          sum_by (λ b. if is_issued b.status then b.amount_paid_cents else pos 0) bills;
      exceptions = exceptions_of by_number c bills leases db;
    }

counted :
    (cycle_pk : ℕ) (bills : Table Bill)
    → count (λ b. is_draft b.status) (select (is_live_in cycle_pk) bills)
        + count (λ b. is_issued b.status) (select (is_live_in cycle_pk) bills)
      ≡ count (λ _. true) (select (is_live_in cycle_pk) bills)
unfolding count select
counted cycle_pk [] = refl
counted cycle_pk ((pk, b) ∷ bills) = ground (arith, counted cycle_pk bills)

-- Every bill that a report counts is a draft or is issued.
progress-bills :
    (by_unit : Table Lease → Table Lease) (by_number : Table Meter → Table Meter) (cycle_pk : ℕ)
    (c : BillingCycle) (db : Db)
    → (progress by_unit by_number cycle_pk c db).bills_draft
        + (progress by_unit by_number cycle_pk c db).bills_published
      ≡ (progress by_unit by_number cycle_pk c db).bills_generated
unfolding progress
progress-bills by_unit by_number cycle_pk c db = counted cycle_pk db.bills
