-- ===== src/Property/Leases.antt =====
-- `LeaseService` of apps/properties/services.py.
pub mod Disjoint
pub mod Changed
use tenora.Base.{
  ℕ, Bool, true, false, not, ◌&&◌, ◌||◌, Option, none, some, ◌==◌, is_some, ltb, leb, if◌then◌else◌,
}
use tenora.Base.Table.{Table, lookup, save, exists, exists_other}
use tenora.Exec.{
  Exec, Result, ok, err, domain, integrity, pure, raise, gets, require, atomic, except_integrity,
  modify, when, ◌>>=◌, ◌>>◌, not_found, resident_inactive, lease_dates_invalid, unit_inactive,
  lease_overlap, lease_not_active,
}
use tenora.Property.Rows.{Lease, LeaseStatus, RentalUnit, UnitStatus, Resident, ResidentStatus}
use tenora.Property.Db.{Db, Clock, Action, refuse_if, missing_if, audit}
use tenora.Property.Constraints.{same_option}

abbrev pub is_active_lease : Lease → Bool
is_active_lease l = elim l.status [ LeaseStatus.active ↦ true | _ ↦ false ]

-- Active or ended: neither cancelled nor a draft.
abbrev pub counts : Lease → Bool
counts l = elim l.status [ LeaseStatus.active ↦ true | LeaseStatus.ended ↦ true | _ ↦ false ]

-- `d <= end`, where no end is the far future
abbrev pub by_end : ℕ → Option ℕ → Bool
by_end date none = true
by_end date (some end) = leb date end

-- A lease of the unit that counts and shares a day with the range.
abbrev pub overlaps : ℕ → ℕ → ℕ → Option ℕ → Lease → Bool
overlaps tenant unit start end l =
    l.tenant == tenant
    && (l.unit == unit && (counts l && (by_end l.start_date end && by_end start l.end_date)))

abbrev pub ends_before_start : Lease → Bool
ends_before_start l = not (by_end l.start_date l.end_date)

-- one_active_lease_per_unit and lease_end_after_start
unfoldable pub lease_violates : ℕ → Lease → Table Lease → Bool
lease_violates pk l leases =
    ends_before_start l
    || is_active_lease l && exists_other pk (λ o. o.unit == l.unit && is_active_lease o) leases

unfoldable pub insert_lease : ℕ → Lease → Exec {0} Db Unit
insert_lease pk l db =
    if is_some (lookup pk db.leases)
    then (err integrity, db)
    else if lease_violates pk l db.leases
    then (err integrity, db)
    else (ok tt, record db { leases = save pk l db.leases })

unfoldable pub save_lease : ℕ → Lease → Exec {0} Db Unit
save_lease pk l db =
    if lease_violates pk l db.leases
    then (err integrity, db)
    else (ok tt, record db { leases = save pk l db.leases })

abbrev pub is_inactive_unit : RentalUnit → Bool
is_inactive_unit u = elim u.status [ UnitStatus.inactive ↦ true | _ ↦ false ]

abbrev pub is_occupied : RentalUnit → Bool
is_occupied u = elim u.status [ UnitStatus.occupied ↦ true | _ ↦ false ]

abbrev pub is_active_resident : Resident → Bool
is_active_resident r = elim r.status [
  | ResidentStatus.active ↦ true
  | ResidentStatus.inactive ↦ false
]

pub record Terms : Type 0 where
  pub actor : ℕ
  pub tenant : ℕ
  pub unit : ℕ
  pub resident : ℕ
  pub start_date : ℕ
  pub end_date : Option ℕ
  pub monthly_rent_cents : ℕ
  pub security_deposit_cents : Option ℕ

-- A lease whose end has passed is recorded as ended.
abbrev pub initial_status : ℕ → Option ℕ → LeaseStatus
initial_status today none = LeaseStatus.active
initial_status today (some end) = if ltb end today then LeaseStatus.ended else LeaseStatus.active

abbrev pub lease_of : Terms → LeaseStatus → Lease
lease_of t status = record {
  tenant = t.tenant;
  unit = t.unit;
  resident = t.resident;
  start_date = t.start_date;
  end_date = t.end_date;
  monthly_rent_cents = t.monthly_rent_cents;
  security_deposit_cents = t.security_deposit_cents;
  status = status;
}

abbrev pub set_unit_status : ℕ → RentalUnit → UnitStatus → Exec {0} Db Unit
set_unit_status pk unit status =
    modify λ db. record db { units = save pk (record unit { status = status }) db.units }

-- The `try` block of `create`.
unfoldable pub create_locked : ℕ → Terms → LeaseStatus → Exec {0} Db ℕ
unfolding insert_lease
create_locked pk t status = atomic do
  unit ← gets (λ db. lookup t.unit db.units)
  unit ← require unit
  refuse_if (is_inactive_unit unit) unit_inactive
  overlapping ← gets (λ db. exists (overlaps t.tenant t.unit t.start_date t.end_date) db.leases)
  refuse_if overlapping lease_overlap
  insert_lease pk (lease_of t status)
  when (is_active_lease (lease_of t status)) (set_unit_status t.unit unit UnitStatus.occupied)
  audit t.actor t.tenant Action.lease_created pk
  pure pk

unfoldable pub create : Clock → ℕ → Terms → Exec {0} Db ℕ
create clock pk t = do
  unit ← gets (λ db. lookup t.unit db.units)
  unit ← require unit
  resident ← gets (λ db. lookup t.resident db.residents)
  resident ← require resident
  missing_if (not (unit.tenant == t.tenant) || not (resident.tenant == t.tenant)) not_found
  refuse_if (not (is_active_resident resident)) resident_inactive
  refuse_if (not (by_end t.start_date t.end_date)) lease_dates_invalid
  except_integrity (create_locked pk t (initial_status clock.today t.end_date))
      (raise (domain lease_overlap 400))

abbrev pub is_changeable : Lease → Bool
is_changeable l = elim l.status [ LeaseStatus.active ↦ true | LeaseStatus.draft ↦ true | _ ↦ false ]

-- The fields that a request gives; a deposit can be set to null.
pub record Changes : Type 0 where
  pub monthly_rent_cents : Option ℕ
  pub security_deposit_cents : Option (Option ℕ)

abbrev pub new_rent : Changes → Lease → Bool
new_rent c l = elim c.monthly_rent_cents [ none ↦ false | some r ↦ not (r == l.monthly_rent_cents) ]

abbrev pub new_deposit : Changes → Lease → Bool
new_deposit c l = elim c.security_deposit_cents [
  | none ↦ false
  | some d ↦ not (same_option d l.security_deposit_cents)
]

abbrev pub or_old {ℓ} : {A : Type ℓ} → Option A → A → A
or_old none old = old
or_old (some new) old = new

unfoldable pub update : ℕ → ℕ → Changes → Exec {0} Db ℕ
unfolding save_lease
update actor pk c = atomic do
  lease ← gets (λ db. lookup pk db.leases)
  lease ← require lease
  refuse_if (not (is_changeable lease)) lease_not_active
  if not (new_rent c lease || new_deposit c lease) then pure pk else do
    save_lease pk (record lease {
      monthly_rent_cents = or_old c.monthly_rent_cents lease.monthly_rent_cents;
      security_deposit_cents = or_old c.security_deposit_cents lease.security_deposit_cents;
    })
    audit actor lease.tenant
        (if new_rent c lease then Action.lease_rent_changed else Action.lease_updated) pk
    pure pk

unfoldable pub end_lease : ℕ → ℕ → ℕ → Exec {0} Db ℕ
unfolding save_lease
end_lease actor pk end_date = atomic do
  lease ← gets (λ db. lookup pk db.leases)
  lease ← require lease
  refuse_if (not (is_active_lease lease)) lease_not_active
  refuse_if (ltb end_date lease.start_date) lease_dates_invalid
  save_lease pk (record lease { end_date = some end_date; status = LeaseStatus.ended })
  unit ← gets (λ db. lookup lease.unit db.units)
  unit ← require unit
  when (is_occupied unit) (set_unit_status lease.unit unit UnitStatus.vacant)
  audit actor lease.tenant Action.lease_ended pk
  pure pk
