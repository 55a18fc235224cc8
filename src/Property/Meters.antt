-- ===== src/Property/Meters.antt =====
-- `MeterService` and `ResidentService` of apps/properties/services.py.
pub mod Positive
use tenora.Base.{
  ℕ, String, Bool, true, false, not, ◌&&◌, ◌||◌, Option, none, some, ◌==◌, is_some, if◌then◌else◌,
}
use tenora.Base.Int.{ℤ, pos, leb_ℤ, eqb_ℤ}
use tenora.Base.Table.{Table, lookup, save, exists_other}
use tenora.Base.Text.{same_text}
use tenora.Exec.{
  Exec, Result, ok, err, domain, integrity, pure, raise, gets, require, atomic, except_integrity,
  modify, when, ◌>>=◌, ◌>>◌, not_found, duplicate_meter,
}
use tenora.Property.Rows.{Meter, Resident, RentalUnit}
use tenora.Property.Db.{Db, Action, missing_if, audit}
use tenora.Property.Constraints.{same_option}
use tenora.Property.Leases.{or_old}
use tenora.Property.Premises.{differs}

-- unique_meter_number
abbrev pub same_meter : Meter → Meter → Bool
same_meter m o = o.tenant == m.tenant && same_text o.meter_number m.meter_number

-- unique_meter_number and meter_multiplier_positive
unfoldable pub save_meter : ℕ → Meter → Exec {0} Db Unit
save_meter pk m db =
    if exists_other pk (same_meter m) db.meters || leb_ℤ m.multiplier (pos 0)
    then (err integrity, db)
    else (ok tt, record db { meters = save pk m db.meters })

pub record MeterFields : Type 0 where
  pub unit : ℕ
  pub meter_number : String
  pub unit_of_measure : String
  pub multiplier : ℤ
  pub installed_at : Option ℕ

abbrev pub meter_of : ℕ → MeterFields → Meter
meter_of tenant f = record {
  tenant = tenant;
  unit = f.unit;
  meter_number = f.meter_number;
  unit_of_measure = f.unit_of_measure;
  multiplier = f.multiplier;
  is_active = true;
  installed_at = f.installed_at;
}

unfoldable pub create_meter : ℕ → ℕ → ℕ → MeterFields → Exec {0} Db ℕ
unfolding save_meter
create_meter pk actor tenant f = do
  unit ← gets (λ db. lookup f.unit db.units)
  unit ← require unit
  missing_if (not (unit.tenant == tenant)) not_found
  except_integrity
      (atomic do
        taken ← gets (λ db. is_some (lookup pk db.meters))
        when taken (raise integrity)
        save_meter pk (meter_of tenant f)
        audit actor tenant Action.meter_created pk
        pure pk)
      (raise (domain duplicate_meter 400))

pub record MeterChanges : Type 0 where
  pub is_active : Option Bool
  pub multiplier : Option ℤ
  pub unit_of_measure : Option String
  pub installed_at : Option (Option ℕ)

abbrev pub same_flag : Bool → Bool → Bool
same_flag a b = a && b || not a && not b

abbrev pub changes_meter : MeterChanges → Meter → Bool
changes_meter c m =
    differs same_flag c.is_active m.is_active
    || (differs eqb_ℤ c.multiplier m.multiplier
        || (differs same_text c.unit_of_measure m.unit_of_measure
            || differs same_option c.installed_at m.installed_at))

abbrev pub with_meter : MeterChanges → Meter → Meter
with_meter c m = record m {
  is_active = or_old c.is_active m.is_active;
  multiplier = or_old c.multiplier m.multiplier;
  unit_of_measure = or_old c.unit_of_measure m.unit_of_measure;
  installed_at = or_old c.installed_at m.installed_at;
}

unfoldable pub update_meter : ℕ → ℕ → MeterChanges → Exec {0} Db ℕ
unfolding save_meter
update_meter actor pk c = atomic do
  meter ← gets (λ db. lookup pk db.meters)
  meter ← require meter
  if not (changes_meter c meter) then pure pk else do
    save_meter pk (with_meter c meter)
    audit actor meter.tenant Action.meter_updated pk
    pure pk

pub record ResidentChanges : Type 0 where
  pub display_name : Option String
  pub phone : Option String
  pub reference : Option String

unfoldable pub update_resident : ℕ → ℕ → ResidentChanges → Exec {0} Db ℕ
update_resident actor pk c = atomic do
  resident ← gets (λ db. lookup pk db.residents)
  resident ← require resident
  modify (λ db. record db {
    residents =
        save pk
          (record resident {
            display_name = or_old c.display_name resident.display_name;
            phone = or_old c.phone resident.phone;
            reference = or_old c.reference resident.reference;
          })
          db.residents;
  })
  audit actor resident.tenant Action.resident_updated pk
  pure pk
