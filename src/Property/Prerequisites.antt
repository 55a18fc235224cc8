-- ===== src/Property/Prerequisites.antt =====
-- What a bill needs of a lease: `BillService.lease_prerequisites` of apps/properties/services.py, and
-- `WorkspaceSettingsService.get`.
use tenora.Base.{
  ℕ, String, Bool, true, false, not, ◌&&◌, Option, none, some, List, [], ◌∷◌, ◌++◌, ◌==◌,
  if◌then◌else◌,
}
use tenora.Base.Table.{Table, lookup, save, select}
use tenora.Exec.{
  Exec, Result, ok, err, Error, domain, integrity, does_not_exist, exception, Code, missing_tariff,
  missing_rent,
}
use tenora.Property.Rows.{WorkspaceSettings, Lease, Meter, MeterReading, Tariff}
use tenora.Property.Db.{Db}
use tenora.Property.Usages
use tenora.Property.Usages.{electricity_for_period}
use tenora.Property.Tariffs.{Found, applicable}

abbrev pub default_settings : String → WorkspaceSettings
default_settings name = record {
  display_name = name;
  contact_email = "";
  contact_phone = "";
  address = "";
  receipt_footer = "";
  currency = "INR";
  due_days_after_period_end = 10;
  default_maintenance_cents = 0;
}

-- `WorkspaceSettingsService.get`: the row, which is written with its defaults if there is none.
unfoldable pub get_settings : ℕ → String → Exec {0} Db WorkspaceSettings
get_settings tenant name db = elim (lookup tenant db.settings) [
  | some row ↦ (ok row, db)
  | none ↦ (
    ok (default_settings name),
    record db { settings = save tenant (default_settings name) db.settings },
  )
]

pub record Issue : Type 0 where
  pub code : Code
  pub blocking : Bool
  pub meter : Option ℕ

-- One electricity line to be: the meter, its usage and the rate.
pub record Charge : Type 0 where
  pub meter_pk : ℕ
  pub meter : Meter
  pub usage : Usages.Usage
  pub tariff_pk : ℕ
  pub tariff : Tariff

pub record Prerequisites : Type 0 where
  pub lines : List Charge
  pub issues : List Issue

-- `except DomainError`; `electricity_for_period` raises nothing else.
unfoldable pub issues_of : ℕ → Error → List Issue
issues_of meter (domain code _) = record { code = code; blocking = true; meter = some meter } ∷ []
issues_of meter integrity = []
issues_of meter does_not_exist = []
issues_of meter (exception _) = []

abbrev pub charges_of : ℕ → Meter → Usages.Usage → Found → List Charge
charges_of pk meter usage none = []
charges_of pk meter usage (some (tariff_pk, tariff)) =
    record { meter_pk = pk; meter = meter; usage = usage; tariff_pk = tariff_pk; tariff = tariff }
    ∷ []

-- One turn of the loop over the meters, before the turns that follow.
unfoldable pub read_meter : ℕ → Meter → Found → Result Usages.Usage → Prerequisites → Prerequisites
read_meter pk meter tariff (ok usage) rest = record {
  lines = charges_of pk meter usage tariff ++ rest.lines;
  issues = rest.issues;
}
read_meter pk meter tariff (err e) rest = record {
  lines = rest.lines;
  issues = issues_of pk e ++ rest.issues;
}

unfoldable pub read_meters : ℕ → ℕ → Found → Table MeterReading → Table Meter → Prerequisites
read_meters start end tariff readings [] = record { lines = []; issues = [] }
read_meters start end tariff readings ((pk, meter) ∷ meters) =
    read_meter pk meter tariff (electricity_for_period pk meter start end readings)
      (read_meters start end tariff readings meters)

abbrev pub is_empty_table : Table Meter → Bool
is_empty_table [] = true
is_empty_table _ = false

abbrev pub tariff_issues : Bool → Found → List Issue
tariff_issues metered (some _) = []
tariff_issues metered none =
    if metered then record { code = missing_tariff; blocking = true; meter = none } ∷ [] else []

abbrev pub rent_issues : ℕ → List Issue
rent_issues rent_cents =
    if rent_cents == 0
    then record { code = missing_rent; blocking = false; meter = none } ∷ []
    else []

abbrev pub is_metered : Lease → Meter → Bool
is_metered lease meter =
    meter.tenant == lease.tenant && (meter.unit == lease.unit && meter.is_active)

-- `lease_prerequisites`; `by_number` is the database's order of the meters by their numbers.
unfoldable pub lease_prerequisites :
    (Table Meter → Table Meter) → Lease → ℕ → ℕ → Db → Prerequisites
lease_prerequisites by_number lease start end db =
    let meters = by_number (select (is_metered lease) db.meters) in
    let metered = not (is_empty_table meters) in
    let tariff = if metered then applicable lease.tenant end db.tariffs else none in
    let read = read_meters start end tariff db.readings meters in
    record {
      lines = read.lines;
      issues = tariff_issues metered tariff ++ read.issues ++ rent_issues lease.monthly_rent_cents;
    }

-- The code of the first issue that blocks.
unfoldable pub first_blocking : List Issue → Option Code
first_blocking [] = none
first_blocking (i ∷ issues) =
    let rest = first_blocking issues in if i.blocking then some i.code else rest

abbrev pub refuse_blocked : List Issue → Exec {0} Db Unit
refuse_blocked issues db =
    (elim (first_blocking issues) [ none ↦ ok tt | some code ↦ err (domain code 400) ], db)
