-- ===== src/Property/Cycles.antt =====
-- `BillingCycleService` of apps/properties/services.py, but for the report on its progress, which a
-- child module holds.
pub mod Books
pub mod Progress
use tenora.Base.{
  ℕ, suc, String, Bool, true, false, not, ◌&&◌, ◌||◌, ◌+◌, Option, none, some, List, [], ◌∷◌, ◌==◌,
  is_some, leb, if◌then◌else◌,
}
use tenora.Base.Table.{Table, lookup, save, erase, select, exists, exists_other, find_first}
use tenora.Exec.{
  Exec, Result, ok, err, Error, domain, integrity, does_not_exist, Code, pure, raise, lift, gets,
  require, atomic, except_integrity, modify, when, ◌>>=◌, ◌>>◌, cycle_closed, cycle_has_drafts,
  bill_exists,
}
use tenora.Property.Rows.{
  Lease, Meter, BillingCycle, CycleStatus, open_cycle, closed_cycle, Bill, LineItem, is_draft,
  is_cancelled,
}
use tenora.Property.Db.{Db, Clock, Action, conflict_if, audit}
use tenora.Property.Calendar.{month_bounds}
use tenora.Property.Leases.{counts, by_end}
use tenora.Property.Generation.{generate_for_lease}
use tenora.Property.Bills.{publish}

abbrev pub starts_on : ℕ → ℕ → BillingCycle → Bool
starts_on tenant start c = c.tenant == tenant && c.period_start == start

-- unique_billing_cycle_period
unfoldable pub insert_cycle : ℕ → BillingCycle → Exec {0} Db Unit
insert_cycle pk c db =
    if is_some (lookup pk db.cycles) || exists (starts_on c.tenant c.period_start) db.cycles
    then (err integrity, db)
    else (ok tt, record db { cycles = save pk c db.cycles })

-- `objects.for_tenant(tenant).get(period_start=…)`, and that it was not created
abbrev pub existing_cycle : ℕ → ℕ → Exec {0} Db (ℕ × Bool)
existing_cycle tenant start db = (
  elim (find_first (starts_on tenant start) db.cycles) [
    | none ↦ err does_not_exist
    | some (pk, _) ↦ ok (pk, false)
  ],
  db,
)

unfoldable pub create_cycle : ℕ → ℕ → ℕ → ℕ → ℕ → Exec {0} Db (ℕ × Bool)
create_cycle pk actor tenant start end =
    except_integrity
      (atomic do
        insert_cycle pk (record {
          tenant = tenant;
          period_start = start;
          period_end = end;
          status = open_cycle;
          opened_by = actor;
          closed_at = none;
        })
        audit actor tenant Action.billing_cycle_opened pk
        pure (pk, true))
      (existing_cycle tenant start)

-- `open`: the cycle, and whether it is new.
unfoldable pub open_month : ℕ → ℕ → ℕ → ℕ → ℕ → Exec {0} Db (ℕ × Bool)
open_month pk actor tenant year month = do
  bounds ← lift (month_bounds year month)
  existing ← gets (λ db. find_first (starts_on tenant bounds.0) db.cycles)
  elim existing [
    | some found ↦ pure (found.0, false)
    | none ↦ create_cycle pk actor tenant bounds.0 bounds.1
  ]

abbrev pub is_billable : BillingCycle → Lease → Bool
is_billable c l =
    l.tenant == c.tenant
    && (counts l && (leb l.start_date c.period_end && by_end c.period_start l.end_date))

-- `by_unit` is the database's order of the leases by property and unit.
unfoldable pub billable_leases :
    (Table Lease → Table Lease) → BillingCycle → Table Lease → Table Lease
billable_leases by_unit c leases = by_unit (select (is_billable c) leases)

-- The bill of a lease's parties for the period, if it is not cancelled.
abbrev pub is_bill_for : BillingCycle → Lease → Bill → Bool
is_bill_for c l b =
    b.tenant == c.tenant
    && (b.unit == l.unit
        && (b.resident == l.resident
            && (b.period_start == c.period_start && not (is_cancelled b.status))))

-- The lines of a bill go with it.
unfoldable pub without_bill : ℕ → Table LineItem → Table LineItem
without_bill pk lines = select (λ l. not (l.bill == pk)) lines

abbrev pub delete_bill : ℕ → Exec {0} Db Unit
delete_bill pk =
    modify λ db. record db { bills = erase pk db.bills; line_items = without_bill pk db.line_items }

-- What became of a lease: its bill, or why it was skipped.
pub data Turn : Type 0 where
  made : ℕ → Turn
  skipped : Code → Turn

-- `except DomainError` and `except IntegrityError`
unfoldable pub caught : Result ℕ × Db → Result Turn × Db
caught (ok pk, db) = (ok (made pk), db)
caught (err (domain code _), db) = (ok (skipped code), db)
caught (err integrity, db) = (ok (skipped bill_exists), db)
caught (err e, db) = (err e, db)

-- What the database and `uuid4` decide: the orders of rows, the name of the workspace, and the keys
-- of the bill of a lease and of its lines.
pub record Outside : Type 0 where
  pub by_number : Table Meter → Table Meter
  pub by_unit : Table Lease → Table Lease
  pub name : String
  pub bill_key : ℕ → ℕ
  pub line_key : ℕ → ℕ → ℕ

abbrev pub attempt : Outside → ℕ → ℕ → BillingCycle → ℕ → Lease → Exec {0} Db Turn
attempt w actor cycle_pk cycle lease_pk lease db = caught (
    generate_for_lease w.by_number (w.bill_key lease_pk) (w.line_key lease_pk) actor w.name cycle_pk
      cycle lease_pk lease db)

abbrev pub replace : Bool → ℕ → Bill → Exec {0} Db Turn → Exec {0} Db Turn
replace regenerate pk bill next =
    if is_draft bill.status && regenerate
    then delete_bill pk >> next
    else pure (skipped bill_exists)

unfoldable pub generate_turn : Outside → Bool → ℕ → ℕ → BillingCycle → ℕ → Lease → Exec {0} Db Turn
generate_turn w regenerate actor cycle_pk cycle lease_pk lease db =
    elim (find_first (is_bill_for cycle lease) db.bills) [
      | none ↦ attempt w actor cycle_pk cycle lease_pk lease db
      | some (pk, bill) ↦
          replace regenerate pk bill (attempt w actor cycle_pk cycle lease_pk lease) db
    ]

unfoldable pub generate_turns :
    Outside → Bool → ℕ → ℕ → BillingCycle → Table Lease → Exec {0} Db (List Turn)
generate_turns w regenerate actor cycle_pk cycle [] = pure []
generate_turns w regenerate actor cycle_pk cycle ((lease_pk, lease) ∷ leases) = do
  turn ← generate_turn w regenerate actor cycle_pk cycle lease_pk lease
  turns ← generate_turns w regenerate actor cycle_pk cycle leases
  pure (turn ∷ turns)

unfoldable pub has_made : List Turn → Bool
has_made [] = false
has_made (made _ ∷ turns) = true
has_made (skipped _ ∷ turns) = has_made turns

abbrev pub is_closed : BillingCycle → Bool
is_closed c = elim c.status [ closed_cycle ↦ true | open_cycle ↦ false ]

unfoldable pub generate : Outside → Bool → ℕ → ℕ → BillingCycle → Exec {0} Db (List Turn)
generate w regenerate actor cycle_pk cycle = do
  conflict_if (is_closed cycle) cycle_closed
  leases ← gets (λ db. billable_leases w.by_unit cycle db.leases)
  turns ← generate_turns w regenerate actor cycle_pk cycle leases
  when (has_made turns) (audit actor cycle.tenant Action.bills_generated cycle_pk)
  pure turns

abbrev pub is_draft_in : ℕ → Bill → Bool
is_draft_in cycle_pk b = b.cycle == cycle_pk && is_draft b.status

unfoldable pub publish_each : Clock → ℕ → Table Bill → Exec {0} Db (List ℕ)
publish_each clock actor [] = pure []
publish_each clock actor ((pk, _) ∷ bills) = do
  bill ← publish clock actor pk
  published ← publish_each clock actor bills
  pure (bill ∷ published)

unfoldable pub publish_all : Clock → ℕ → ℕ → Exec {0} Db (List ℕ)
publish_all clock actor cycle_pk = do
  drafts ← gets (λ db. select (is_draft_in cycle_pk) db.bills)
  publish_each clock actor drafts

unfoldable pub close : Clock → ℕ → ℕ → Exec {0} Db ℕ
close clock actor pk = atomic do
  cycle ← gets (λ db. lookup pk db.cycles)
  cycle ← require cycle
  if is_closed cycle then pure pk else do
    drafts ← gets (λ db. exists (is_draft_in pk) db.bills)
    conflict_if drafts cycle_has_drafts
    modify (λ db. record db {
      cycles =
          save pk (record cycle { status = closed_cycle; closed_at = some clock.now }) db.cycles;
    })
    audit actor cycle.tenant Action.billing_cycle_closed pk
    pure pk
