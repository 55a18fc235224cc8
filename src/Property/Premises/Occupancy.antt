-- ===== src/Property/Premises/Occupancy.antt =====
-- The occupancy of the units: what `LeaseService` and `UnitService` of
-- apps/properties/services.py share, and `UnitService.update`.
use tenora.Base.{
  ℕ, Bool, true, false, ◌&&◌, ◌≡◌, ◌⊎◌, refl, Option, none, some, ◌==◌, arith, Bool-cases,
  Option-cases, inl, inr,
}
use tenora.Base.Table.{Table, lookup, save, exists, lookup-save, lookup-exists}
use tenora.Exec.{Result, ok, err}
use tenora.Property.Rows.{Lease, RentalUnit}
use tenora.Property.Db.{Db}
use tenora.Property.Leases.{is_active_lease, is_occupied}
use tenora.Property.Premises.{
  UnitChanges, with_unit, same_status, differs, is_let, update_unit, update_unit_locked,
}

-- The unit belongs to the workspace and is occupied.
abbrev pub is_let_out : ℕ → Option RentalUnit → Bool
is_let_out tenant none = false
is_let_out tenant (some u) = u.tenant == tenant && is_occupied u

pub record Occupancy (leases : Table Lease) (units : Table RentalUnit) : Type 0 where
  pub one :
      (j k : ℕ) (l m : Lease)
      → lookup j leases ≡ some l
      → lookup k leases ≡ some m
      → is_active_lease l ≡ true
      → is_active_lease m ≡ true
      → l.unit ≡ m.unit
      → j ≡ k
  pub let_out :
      (k : ℕ) (l : Lease)
      → lookup k leases ≡ some l
      → is_active_lease l ≡ true
      → is_let_out l.tenant (lookup l.unit units) ≡ true

abbrev UnitSaved : ℕ → UnitChanges → RentalUnit → Db → Result ℕ × Db → Type 0
UnitSaved pk c u db (err e, db') = db' ≡ db
UnitSaved pk c u db (ok _, db') =
    ((differs same_status c.status u.status ≡ false)
      ⊎ (exists (is_let u.tenant pk) db.leases ≡ false))
    × (db'.units ≡ save pk (with_unit c u) db.units)
    × (db'.leases ≡ db.leases)

locked-UnitSaved :
    (actor pk : ℕ) (c : UnitChanges) (u : RentalUnit) (db : Db)
    → lookup pk db.units ≡ some u
    → UnitSaved pk c u db (update_unit_locked actor pk c db)
unfolding update_unit_locked
locked-UnitSaved actor pk c u db e = ground arith

update_unit-UnitSaved :
    (actor pk : ℕ) (c : UnitChanges) (u : RentalUnit) (db : Db)
    → lookup pk db.units ≡ some u
    → UnitSaved pk c u db (update_unit actor pk c db)
unfolding update_unit
update_unit-UnitSaved actor pk c u db e = ground (arith, locked-UnitSaved actor pk c u db e)

same_occupied :
    (c : UnitChanges) (u : RentalUnit)
    → differs same_status c.status u.status ≡ false
    → is_occupied (with_unit c u) ≡ is_occupied u
same_occupied c u h = ground arith

pub save-let_out :
    (pk tenant unit : ℕ) (u v : RentalUnit) (units : Table RentalUnit)
    → lookup pk units ≡ some u
    → v.tenant ≡ u.tenant
    → ((pk == unit) ≡ true → is_occupied v ≡ is_occupied u)
    → is_let_out tenant (lookup unit units) ≡ true
    → is_let_out tenant (lookup unit (save pk v units)) ≡ true
save-let_out pk tenant unit u v units e t s h = elim (Bool-cases (pk == unit)) [
  | inl same ↦ rw (lookup-save unit pk v units, same) (ground (arith, s same))
  | inr other ↦ rw (lookup-save unit pk v units, other) h
]

UnitSaved-Occupancy :
    (pk : ℕ) (c : UnitChanges) (u : RentalUnit) (db : Db) (o : Result ℕ × Db)
    → Occupancy db.leases db.units
    → lookup pk db.units ≡ some u
    → UnitSaved pk c u db o
    → Occupancy o.1.leases o.1.units
UnitSaved-Occupancy pk c u db (err e, db') h found o = rw o h
UnitSaved-Occupancy pk c u db (ok _, db') h found (kept, eu, el) =
    rw (eu, el)
      (record {
        one = h.one;
        let_out = λ k l e a.
            save-let_out pk l.tenant l.unit u (with_unit c u) db.units found refl
              (λ same. elim kept [
                | inl d ↦ same_occupied c u d
                | inr free ↦ ground (
                  arith,
                  h.let_out k l e a,
                  lookup-exists (is_let u.tenant pk) k l db.leases free e,
                )
              ])
              (h.let_out k l e a);
      })

update_unit_missing :
    (actor pk : ℕ) (c : UnitChanges) (db : Db)
    → lookup pk db.units ≡ none
    → (update_unit actor pk c db).1 ≡ db
unfolding update_unit update_unit_locked
update_unit_missing actor pk c db e = ground arith

-- If each unit has one active lease at most, and the unit of an active lease belongs to its
-- workspace and is occupied, then this still holds after UnitService.update, whichever way the
-- call ends.
pub update_unit-Occupancy :
    (actor pk : ℕ) (c : UnitChanges) (db : Db)
    → Occupancy db.leases db.units
    → Occupancy (update_unit actor pk c db).1.leases (update_unit actor pk c db).1.units
update_unit-Occupancy actor pk c db h = elim (Option-cases (lookup pk db.units)) [
  | inl e ↦ rw (update_unit_missing actor pk c db e) h
  | inr (u, e) ↦ UnitSaved-Occupancy pk c u db _ h e (update_unit-UnitSaved actor pk c u db e)
]
