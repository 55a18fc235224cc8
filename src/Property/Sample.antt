-- ===== src/Property/Sample.antt =====
-- A workspace with one flat, its meter and its lease, for the tests: a month is generated, published
-- and paid in part.
use tenora.Base.{ℕ, true, none, some, [], ◌∷◌, ◌+◌}
use tenora.Base.Int.{pos}
use tenora.Notifications.{Inbox}
use tenora.Property.Rows.{
  RentalUnit, occupied, Resident, ResidentStatus, Lease, LeaseStatus, Meter, MeterReading, manual,
  Tariff, BillingCycle, open_cycle, upi, Bill, published, draft,
}
use tenora.Property.Db.{Db, Clock}
use tenora.Property.Generation.{generate_for_lease}
use tenora.Property.Bills.{publish}
use tenora.Property.Payments
use tenora.Property.Payments.{record_payment}
use tenora.Property.Corrections
use tenora.Property.Cycles.{Outside}

abbrev pub flat : RentalUnit
flat = record {
  tenant = 1;
  property_id = 1;
  identifier = "A-1";
  floor = "1";
  unit_type = "2BHK";
  status = occupied;
}

abbrev pub tenant_of_flat : Resident
tenant_of_flat = record {
  tenant = 1;
  user = 30;
  display_name = "Asha";
  phone = "";
  reference = "";
  email = "asha@example.org";
  status = ResidentStatus.active;
}

abbrev pub lease : Lease
lease = record {
  tenant = 1;
  unit = 2;
  resident = 3;
  start_date = 738_000;
  end_date = some 738_365;
  monthly_rent_cents = 1_000_000;
  security_deposit_cents = none;
  status = LeaseStatus.active;
}

abbrev pub meter : Meter
meter = record {
  tenant = 1;
  unit = 2;
  meter_number = "M-1";
  unit_of_measure = "kWh";
  multiplier = pos 10_000;
  is_active = true;
  installed_at = none;
}

abbrev pub reading : ℕ → ℕ → MeterReading
reading day value = record {
  tenant = 1;
  meter = 5;
  reading_date = day;
  reading_value = pos value;
  source = manual;
  notes = "";
  proof_content_type = "";
  recorded_by = 1;
}

-- 8.00 for a kilowatt hour, in minor units.
abbrev pub rate : Tariff
rate = record {
  tenant = 1;
  rate_per_unit_cents = pos 8_000_000;
  effective_from = 737_000;
  effective_to = none;
  is_active = true;
  created_by = 1;
}

abbrev pub month : BillingCycle
month = record {
  tenant = 1;
  period_start = 738_080;
  period_end = 738_110;
  status = open_cycle;
  opened_by = 1;
  closed_at = none;
}

abbrev pub inbox : Inbox
inbox = record { rows = []; preferences = []; is_active = λ _. true }

-- 50 kilowatt hours were used in the month.
abbrev pub workspace : Db
workspace = record {
  settings = [];
  properties = (1, record { tenant = 1; name = "Lake View"; code = "LV"; is_active = true }) ∷ [];
  units = (2, flat) ∷ [];
  residents = (3, tenant_of_flat) ∷ [];
  leases = (4, lease) ∷ [];
  meters = (5, meter) ∷ [];
  readings = (6, reading 738_000 100_000) ∷ (7, reading 738_100 150_000) ∷ [];
  reading_corrections = [];
  tariffs = (8, rate) ∷ [];
  memberships = [];
  cycles = (9, month) ∷ [];
  bills = [];
  line_items = [];
  corrections = [];
  payments = [];
  receipts = [];
  next_bill = λ _. 1;
  next_receipt = λ _. 1;
  audit = [];
  inbox = inbox;
}

abbrev pub clock : Clock
clock = record { now = 1_700_000_000; year = 2021; today = 738_120 }

abbrev pub line_keys : ℕ → ℕ
line_keys n = 200 + n

abbrev pub outside : Outside
outside = record {
  by_number = λ t. t;
  by_unit = λ t. t;
  name = "Lake View Homes";
  bill_key = λ _. 100;
  line_key = λ _. line_keys;
}

abbrev pub drafted : Db
drafted =
    (generate_for_lease (λ t. t) 100 line_keys 1 "Lake View Homes" 9 month 4 lease workspace).1

abbrev pub issued : Db
issued = (publish clock 1 100 drafted).1

abbrev pub request : Payments.Request
request = record {
  actor = 1;
  tenant = 1;
  bill = 100;
  amount_cents = pos 400_000;
  payment_date = 738_119;
  method = upi;
  reference = "UPI-1";
  notes = "";
  idempotency_key = "key-1";
}

abbrev pub payment_keys : Payments.Keys
payment_keys = record { payment = 300; receipt = 301 }

abbrev pub correction_keys : Corrections.Keys
correction_keys = record { correction = 400; line = 401 }

abbrev pub paid_in_part : Db
paid_in_part = (record_payment clock payment_keys request issued).1

-- A bill of the month, as it is stored once it is issued.
abbrev pub bill : Bill
bill = record {
  tenant = 1;
  cycle = 9;
  property_id = 1;
  unit = 2;
  resident = 3;
  lease = some 4;
  bill_number = some (record { year = 2021; number = 1 });
  period_start = 738_080;
  period_end = 738_110;
  due_date = 738_120;
  status = published;
  currency = "INR";
  property_name = "Lake View";
  unit_identifier = "A-1";
  resident_name = "Asha";
  resident_email = "asha@example.org";
  subtotal_cents = pos 1_000_000;
  adjustments_cents = pos 0;
  total_cents = pos 1_000_000;
  amount_paid_cents = pos 0;
  published_at = some 1_700_000_000;
  cancelled_at = none;
  cancellation_reason = "";
  generated_by = 1;
}

abbrev pub draft_bill : Bill
draft_bill = record bill { status = draft; bill_number = none; published_at = none }

abbrev pub billed : Db
billed = record workspace { bills = (100, bill) ∷ [] }

abbrev pub unissued : Db
unissued = record workspace { bills = (100, draft_bill) ∷ [] }
