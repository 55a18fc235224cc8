-- ===== src/Property/Premises.antt =====
-- `WorkspaceSettingsService.update`, `PropertyService` and `UnitService` of
-- apps/properties/services.py.
pub mod Occupancy
pub mod Tenancy
pub mod Keep
use tenora.Base.{
  ℕ, String, Bool, true, false, not, ◌&&◌, ◌||◌, Option, none, some, ◌==◌, is_some, if◌then◌else◌,
}
use tenora.Base.Int.{ℤ, pos, leb_ℤ, eqb_ℤ}
use tenora.Base.Table.{Table, lookup, save, exists, exists_other}
use tenora.Base.Text.{same_text}
use tenora.Exec.{
  Exec, Result, ok, err, domain, integrity, pure, raise, gets, require, atomic, except_integrity,
  modify, when, ◌>>=◌, ◌>>◌, not_found, property_inactive, property_has_active_leases,
  duplicate_unit, invalid_unit_status, unit_has_active_lease, duplicate_meter, currency_locked,
}
use tenora.Property.Rows.{
  WorkspaceSettings, Property, RentalUnit, UnitStatus, vacant, occupied, Resident, Meter, Lease,
  Bill, is_cancelled,
}
use tenora.Property.Rows
use tenora.Property.Db.{Db, Action, refuse_if, missing_if, audit}
use tenora.Property.Constraints.{same_option}
use tenora.Property.Leases.{is_active_lease, or_old}
use tenora.Property.Prerequisites.{get_settings}

-- Whether a field is given and differs from its value.
abbrev pub differs {ℓ} : {A : Type ℓ} → (A → A → Bool) → Option A → A → Bool
differs same none old = false
differs same (some new) old = not (same new old)

pub record SettingsChanges : Type 0 where
  pub display_name : Option String
  pub contact_email : Option String
  pub contact_phone : Option String
  pub address : Option String
  pub receipt_footer : Option String
  pub currency : Option String
  pub due_days_after_period_end : Option ℕ
  pub default_maintenance_cents : Option ℕ

abbrev pub with_settings : SettingsChanges → WorkspaceSettings → WorkspaceSettings
with_settings c s = record {
  display_name = or_old c.display_name s.display_name;
  contact_email = or_old c.contact_email s.contact_email;
  contact_phone = or_old c.contact_phone s.contact_phone;
  address = or_old c.address s.address;
  receipt_footer = or_old c.receipt_footer s.receipt_footer;
  currency = or_old c.currency s.currency;
  due_days_after_period_end = or_old c.due_days_after_period_end s.due_days_after_period_end;
  default_maintenance_cents = or_old c.default_maintenance_cents s.default_maintenance_cents;
}

abbrev pub same_number : ℕ → ℕ → Bool
same_number a b = a == b

unfoldable pub changes_settings : SettingsChanges → WorkspaceSettings → Bool
changes_settings c s =
    differs same_text c.display_name s.display_name
    || (differs same_text c.contact_email s.contact_email
        || (differs same_text c.contact_phone s.contact_phone
            || (differs same_text c.address s.address
                || (differs same_text c.receipt_footer s.receipt_footer
                    || (differs same_text c.currency s.currency
                        || (differs same_number c.due_days_after_period_end
                              s.due_days_after_period_end
                            || differs same_number c.default_maintenance_cents
                                s.default_maintenance_cents))))))

abbrev pub is_bill_of : ℕ → Bill → Bool
is_bill_of tenant b = b.tenant == tenant && not (is_cancelled b.status)

-- `WorkspaceSettingsService.update`
unfoldable pub update_settings : ℕ → ℕ → String → SettingsChanges → Exec {0} Db ℕ
update_settings actor tenant name c = atomic do
  row ← get_settings tenant name
  billed ← gets (λ db. exists (is_bill_of tenant) db.bills)
  refuse_if (differs same_text c.currency row.currency && billed) currency_locked
  if not (changes_settings c row) then pure tenant else do
    modify (λ db. record db { settings = save tenant (with_settings c row) db.settings })
    audit actor tenant Action.workspace_settings_updated tenant
    pure tenant

pub record PropertyFields : Type 0 where
  pub name : Option String
  pub code : Option String
  pub is_active : Option Bool

unfoldable pub create_property : ℕ → ℕ → ℕ → String → String → Bool → Exec {0} Db ℕ
create_property pk actor tenant name code is_active = atomic do
  modify (λ db. record db {
    properties =
        save pk (record { tenant = tenant; name = name; code = code; is_active = is_active })
          db.properties;
  })
  audit actor tenant Action.property_created pk
  pure pk

-- `unit__property=prop`
abbrev pub is_unit_of : ℕ → Option RentalUnit → Bool
is_unit_of pk none = false
is_unit_of pk (some u) = u.property_id == pk

abbrev pub is_let_in : ℕ → ℕ → Table RentalUnit → Lease → Bool
is_let_in tenant pk units l =
    l.tenant == tenant && (is_unit_of pk (lookup l.unit units) && is_active_lease l)

abbrev pub deactivates : PropertyFields → Bool
deactivates c = elim c.is_active [ none ↦ false | some b ↦ not b ]

unfoldable pub update_property : ℕ → ℕ → PropertyFields → Exec {0} Db ℕ
update_property actor pk c = atomic do
  prop ← gets (λ db. lookup pk db.properties)
  prop ← require prop
  is_let ← gets (λ db. exists (is_let_in prop.tenant pk db.units) db.leases)
  refuse_if (deactivates c && is_let) property_has_active_leases
  modify (λ db. record db {
    properties =
        save pk
          (record prop {
            name = or_old c.name prop.name;
            code = or_old c.code prop.code;
            is_active = or_old c.is_active prop.is_active;
          })
          db.properties;
  })
  audit actor prop.tenant Action.property_updated pk
  pure pk

-- unique_unit_per_property
abbrev pub same_unit : RentalUnit → RentalUnit → Bool
same_unit u o = o.property_id == u.property_id && same_text o.identifier u.identifier

unfoldable pub save_unit : ℕ → RentalUnit → Exec {0} Db Unit
save_unit pk u db =
    if exists_other pk (same_unit u) db.units
    then (err integrity, db)
    else (ok tt, record db { units = save pk u db.units })

unfoldable pub create_unit : ℕ → ℕ → ℕ → ℕ → String → String → String → Exec {0} Db ℕ
unfolding save_unit
create_unit pk actor tenant property_pk identifier floor unit_type = do
  prop ← gets (λ db. lookup property_pk db.properties)
  prop ← require prop
  missing_if (not (prop.tenant == tenant)) not_found
  refuse_if (not prop.is_active) property_inactive
  except_integrity
      (atomic do
        taken ← gets (λ db. is_some (lookup pk db.units))
        when taken (raise integrity)
        save_unit pk (record {
          tenant = tenant;
          property_id = property_pk;
          identifier = identifier;
          floor = floor;
          unit_type = unit_type;
          status = vacant;
        })
        audit actor tenant Action.unit_created pk
        pure pk)
      (raise (domain duplicate_unit 400))

pub record UnitChanges : Type 0 where
  pub identifier : Option String
  pub floor : Option String
  pub unit_type : Option String
  pub status : Option UnitStatus

abbrev pub same_status : UnitStatus → UnitStatus → Bool
same_status UnitStatus.vacant UnitStatus.vacant = true
same_status UnitStatus.occupied UnitStatus.occupied = true
same_status UnitStatus.maintenance UnitStatus.maintenance = true
same_status UnitStatus.inactive UnitStatus.inactive = true
same_status _ _ = false

-- Not one of MANUAL_STATUSES.
abbrev pub sets_occupied : Option UnitStatus → Bool
sets_occupied none = false
sets_occupied (some s) = same_status s occupied

abbrev pub is_let : ℕ → ℕ → Lease → Bool
is_let tenant unit l = l.tenant == tenant && (l.unit == unit && is_active_lease l)

abbrev pub with_unit : UnitChanges → RentalUnit → RentalUnit
with_unit c u = record u {
  identifier = or_old c.identifier u.identifier;
  floor = or_old c.floor u.floor;
  unit_type = or_old c.unit_type u.unit_type;
  status = or_old c.status u.status;
}

unfoldable pub update_unit_locked : ℕ → ℕ → UnitChanges → Exec {0} Db ℕ
unfolding save_unit
update_unit_locked actor pk c = atomic do
  unit ← gets (λ db. lookup pk db.units)
  unit ← require unit
  refuse_if (differs same_status c.status unit.status && sets_occupied c.status) invalid_unit_status
  taken ← gets (λ db. exists (is_let unit.tenant pk) db.leases)
  refuse_if (differs same_status c.status unit.status && taken) unit_has_active_lease
  save_unit pk (with_unit c unit)
  audit actor unit.tenant Action.unit_updated pk
  pure pk

unfoldable pub update_unit : ℕ → ℕ → UnitChanges → Exec {0} Db ℕ
unfolding update_unit_locked
update_unit actor pk c =
    except_integrity (update_unit_locked actor pk c) (raise (domain duplicate_unit 400))
