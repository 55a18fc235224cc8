-- ===== src/Property/Generation.antt =====
-- The generation of one bill: `BillService.generate_for_lease` of apps/properties/services.py.
pub mod Lines
pub mod Books
pub mod Price
use tenora.Property.Prerequisites.{
  default_settings, get_settings, Issue, Charge, Prerequisites, issues_of, charges_of, read_meter,
  read_meters, is_empty_table, tariff_issues, rent_issues, is_metered, lease_prerequisites,
  first_blocking, refuse_blocked,
}
use tenora.Base.{
  ℕ, suc, String, Bool, true, false, not, ◌&&◌, ◌||◌, ◌+◌, ◌*◌, Option, none, some, List, [], ◌∷◌,
  ◌++◌, ◌==◌, is_some, ltb, if◌then◌else◌,
}
use tenora.Base.Int.{ℤ, pos}
use tenora.Base.Table.{Table, lookup, save, select}
use tenora.Exec.{
  Exec, Result, ok, err, Error, domain, integrity, does_not_exist, Code, pure, raise, lift, gets,
  require, atomic, modify, ◌>>=◌, ◌>>◌, missing_tariff, missing_rent,
}
use tenora.Property.Rows.{
  WorkspaceSettings, Property, RentalUnit, Resident, Lease, Meter, MeterReading, Tariff,
  BillingCycle, Bill, LineItem, LineType, rent, electricity, maintenance, draft,
}
use tenora.Property.Rows
use tenora.Property.Db.{Db}
use tenora.Property.Constraints.{insert_bill, save_bill, insert_line}
use tenora.Property.Calculations.{charge_cents}
use tenora.Property.Readings
use tenora.Property.Usages.{electricity_for_period}
use tenora.Property.Tariffs.{Found, applicable}
use tenora.Property.Bills.{recompute_totals}

-- `Decimal("1")` and `Decimal(cents)` in the places of their columns.
abbrev pub plain_line : ℕ → LineType → ℕ → ℕ → LineItem
plain_line bill type cents order = record {
  bill = bill;
  type = type;
  quantity = some (pos 1000);
  unit_price_cents = some (pos (cents * 10000));
  amount_cents = pos cents;
  usage = none;
  correction = none;
  sort_order = order;
}

abbrev pub charge_line : ℕ → Charge → ℕ → LineItem
charge_line bill c order = record {
  bill = bill;
  type = electricity;
  quantity = some c.usage.units;
  unit_price_cents = some c.tariff.rate_per_unit_cents;
  amount_cents = charge_cents c.usage.units c.tariff.rate_per_unit_cents;
  usage = some (record {
    meter = c.meter_pk;
    meter_number = c.meter.meter_number;
    opening_reading = c.usage.opening_pk;
    closing_reading = c.usage.closing_pk;
    opening_reading_value = c.usage.opening.reading_value;
    closing_reading_value = c.usage.closing.reading_value;
    opening_reading_date = c.usage.opening.reading_date;
    closing_reading_date = c.usage.closing.reading_date;
    multiplier = c.meter.multiplier;
    units_consumed = c.usage.consumption;
    tariff = c.tariff_pk;
  });
  correction = none;
  sort_order = order;
}

abbrev pub plain_lines : ℕ → LineType → ℕ → List (ℕ → LineItem)
plain_lines bill type cents = if ltb 0 cents then plain_line bill type cents ∷ [] else []

abbrev pub charge_lines : ℕ → List Charge → List (ℕ → LineItem)
charge_lines bill [] = []
charge_lines bill (c ∷ cs) = charge_line bill c ∷ charge_lines bill cs

-- The rent, the electricity of each meter, and the maintenance, each but for its `sort_order`.
unfoldable pub lines_of : ℕ → Lease → List Charge → WorkspaceSettings → List (ℕ → LineItem)
lines_of bill lease charges settings =
    plain_lines bill rent lease.monthly_rent_cents
    ++ (charge_lines bill charges
        ++ plain_lines bill maintenance settings.default_maintenance_cents)

-- The lines are inserted one by one, `keys n` being the key of the line with the `sort_order` n.
unfoldable pub insert_lines : (ℕ → ℕ) → ℕ → List (ℕ → LineItem) → Exec {0} Db Unit
insert_lines keys order [] db = (ok tt, db)
insert_lines keys order (line ∷ lines) db =
    (insert_line (keys order) (line order) >> insert_lines keys (order + 1) lines) db

pub record Parties : Type 0 where
  pub property_id : ℕ
  pub property_name : String
  pub unit_identifier : String
  pub resident_name : String
  pub resident_email : String

-- `lease.unit`, `unit.property` and `lease.resident`
unfoldable pub parties_of : Lease → Db → Result Parties
parties_of lease db = elim (lookup lease.unit db.units) [
  | none ↦ err does_not_exist
  | some unit ↦ elim (lookup unit.property_id db.properties) [
    | none ↦ err does_not_exist
    | some property ↦ elim (lookup lease.resident db.residents) [
      | none ↦ err does_not_exist
      | some resident ↦ ok (record {
        property_id = unit.property_id;
        property_name = property.name;
        unit_identifier = unit.identifier;
        resident_name = resident.display_name;
        resident_email = resident.email;
      })
    ]
  ]
]

abbrev pub new_bill : ℕ → ℕ → BillingCycle → ℕ → Lease → Parties → WorkspaceSettings → Bill
new_bill actor cycle_pk cycle lease_pk lease p settings = record {
  tenant = cycle.tenant;
  cycle = cycle_pk;
  property_id = p.property_id;
  unit = lease.unit;
  resident = lease.resident;
  lease = some lease_pk;
  bill_number = none;
  period_start = cycle.period_start;
  period_end = cycle.period_end;
  due_date = cycle.period_end + settings.due_days_after_period_end;
  status = draft;
  currency = settings.currency;
  property_name = p.property_name;
  unit_identifier = p.unit_identifier;
  resident_name = p.resident_name;
  resident_email = p.resident_email;
  subtotal_cents = pos 0;
  adjustments_cents = pos 0;
  total_cents = pos 0;
  amount_paid_cents = pos 0;
  published_at = none;
  cancelled_at = none;
  cancellation_reason = "";
  generated_by = actor;
}

-- The block that writes the bill and its lines.
unfoldable pub write_bill : ℕ → (ℕ → ℕ) → Bill → List (ℕ → LineItem) → Exec {0} Db ℕ
write_bill pk keys bill lines = atomic do
  insert_bill pk bill
  insert_lines keys 0 lines
  bill ← recompute_totals pk bill
  save_bill pk bill
  pure pk

-- `generate_for_lease` once it has the settings.
unfoldable pub generate_with :
    (Table Meter → Table Meter)
    → ℕ
    → (ℕ → ℕ)
    → ℕ
    → ℕ
    → BillingCycle
    → ℕ
    → Lease
    → WorkspaceSettings
    → Exec {0} Db ℕ
generate_with by_number pk keys actor cycle_pk cycle lease_pk lease settings db =
    let read = lease_prerequisites by_number lease cycle.period_start cycle.period_end db in
    (do
      refuse_blocked read.issues
      parties ← lift (parties_of lease db)
      write_bill pk keys (new_bill actor cycle_pk cycle lease_pk lease parties settings)
          (lines_of pk lease read.lines settings))
      db

-- `pk` and `keys` are the keys that `uuid4` gives the bill and its lines.
unfoldable pub generate_for_lease :
    (Table Meter → Table Meter)
    → ℕ
    → (ℕ → ℕ)
    → ℕ
    → String
    → ℕ
    → BillingCycle
    → ℕ
    → Lease
    → Exec {0} Db ℕ
generate_for_lease by_number pk keys actor name cycle_pk cycle lease_pk lease = do
  settings ← get_settings cycle.tenant name
  generate_with by_number pk keys actor cycle_pk cycle lease_pk lease settings
