-- ===== src/Property/Rows/Registry.antt =====
-- Workspace settings, properties, units, residents, leases, meters, readings and tariffs of
-- apps/properties/models.py, and the memberships of apps/tenants/models.py that they read.
use tenora.Base.{ℕ, String, Bool, Option}
use tenora.Base.Int.{ℤ}

pub record WorkspaceSettings : Type 0 where
  pub display_name : String
  pub contact_email : String
  pub contact_phone : String
  pub address : String
  pub receipt_footer : String
  pub currency : String
  pub due_days_after_period_end : ℕ
  pub default_maintenance_cents : ℕ

-- The name and code of a property; its address lines are texts that no operation reads.
pub record Property : Type 0 where
  pub tenant : ℕ
  pub name : String
  pub code : String
  pub is_active : Bool

pub data UnitStatus : Type 0 where
  vacant occupied maintenance inactive : UnitStatus

pub record RentalUnit : Type 0 where
  pub tenant : ℕ
  pub property_id : ℕ
  pub identifier : String
  pub floor : String
  pub unit_type : String
  pub status : UnitStatus

pub data ResidentStatus : Type 0 where
  active inactive : ResidentStatus

pub record Resident : Type 0 where
  pub tenant : ℕ
  pub user : ℕ
  pub display_name : String
  pub phone : String
  pub reference : String
  pub email : String
  pub status : ResidentStatus

pub data LeaseStatus : Type 0 where
  draft active ended cancelled : LeaseStatus

pub record Lease : Type 0 where
  pub tenant : ℕ
  pub unit : ℕ
  pub resident : ℕ
  pub start_date : ℕ
  pub end_date : Option ℕ
  pub monthly_rent_cents : ℕ
  pub security_deposit_cents : Option ℕ
  pub status : LeaseStatus

-- `multiplier` has 4 places.
pub record Meter : Type 0 where
  pub tenant : ℕ
  pub unit : ℕ
  pub meter_number : String
  pub unit_of_measure : String
  pub multiplier : ℤ
  pub is_active : Bool
  pub installed_at : Option ℕ

pub data ReadingSource : Type 0 where
  manual import : ReadingSource

-- `reading_value` has 3 places.
pub record MeterReading : Type 0 where
  pub tenant : ℕ
  pub meter : ℕ
  pub reading_date : ℕ
  pub reading_value : ℤ
  pub source : ReadingSource
  pub notes : String
  pub proof_content_type : String
  pub recorded_by : ℕ

pub record MeterReadingCorrection : Type 0 where
  pub tenant : ℕ
  pub reading : ℕ
  pub original_value : ℤ
  pub corrected_value : ℤ
  pub reason : String
  pub actor : ℕ

-- `rate_per_unit_cents` has 4 places. The one utility type is electricity.
pub record Tariff : Type 0 where
  pub tenant : ℕ
  pub rate_per_unit_cents : ℤ
  pub effective_from : ℕ
  pub effective_to : Option ℕ
  pub is_active : Bool
  pub created_by : ℕ

pub data Role : Type 0 where
  owner member : Role

pub data MembershipStatus : Type 0 where
  active left removed : MembershipStatus

pub record Membership : Type 0 where
  pub user : ℕ
  pub tenant : ℕ
  pub role : Role
  pub status : MembershipStatus
  pub ended_at : Option ℕ
