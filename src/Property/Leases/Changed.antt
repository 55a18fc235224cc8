-- ===== src/Property/Leases/Changed.antt =====
-- `LeaseService.update` and `LeaseService.end` on every branch.
use tenora.Base.{
  ℕ, true, false, ◌≡◌, ◌⊎◌, refl, Option, some, none, ltb, arith, Option-cases, inl, inr,
}
use tenora.Base.Table.{lookup, save}
use tenora.Exec.{Result, ok, err}
use tenora.Property.Db.{Db}
use tenora.Property.Rows.{Lease, LeaseStatus, RentalUnit, UnitStatus}
use tenora.Property.Leases.{
  is_active_lease, by_end, Changes, update, end_lease, is_changeable, or_old, is_occupied,
}
use tenora.Property.Leases.Disjoint.{IsDisjoint, Narrower, narrow-IsDisjoint}

abbrev pub ended_on : ℕ → Lease → Lease
ended_on end_date l = record l { end_date = some end_date; status = LeaseStatus.ended }

-- An error, and nothing is written; or the lease, which was active, is ended on a day not before
-- its start, and its unit is vacant if it was occupied.
abbrev pub Ended : ℕ → ℕ → Lease → RentalUnit → Db → Result ℕ × Db → Type 0
Ended pk end_date l u db (err e, db') = db' ≡ db
Ended pk end_date l u db (ok _, db') =
    (is_active_lease l ≡ true)
    × (ltb end_date l.start_date ≡ false)
    × (db'.leases ≡ save pk (ended_on end_date l) db.leases)
    × (is_occupied u ≡ true
        → db'.units ≡ save l.unit (record u { status = UnitStatus.vacant }) db.units)
    × (is_occupied u ≡ false → db'.units ≡ db.units)

-- For a lease and a unit that are there, LeaseService.end either raises and writes nothing; or
-- the lease was active and does not start after the end that is given, it is stored as ended on
-- that day, and its unit becomes vacant if it was occupied and is left alone otherwise.
pub end_lease-Ended :
    (actor pk end_date : ℕ) (l : Lease) (u : RentalUnit) (db : Db)
    → lookup pk db.leases ≡ some l
    → lookup l.unit db.units ≡ some u
    → Ended pk end_date l u db (end_lease actor pk end_date db)
unfolding end_lease
end_lease-Ended actor pk end_date l u db e f = ground arith

by_end_sooner :
    (day end_date : ℕ) (old : Option ℕ)
    → by_end end_date old ≡ true
    → by_end day old ≡ false
    → by_end day (some end_date) ≡ false
by_end_sooner day end_date none h g = ground arith
by_end_sooner day end_date (some d) h g = ground arith

ended-Narrower :
    (end_date : ℕ) (l : Lease)
    → is_active_lease l ≡ true
    → by_end end_date l.end_date ≡ true
    → Narrower l (ended_on end_date l)
ended-Narrower end_date l active sooner = record {
  tenant = refl;
  unit = refl;
  start = refl;
  end = λ day h. by_end_sooner day end_date l.end_date sooner h;
  counts = λ _. ground arith;
}

Ended-IsDisjoint :
    (pk end_date : ℕ) (l : Lease) (u : RentalUnit) (db : Db) (o : Result ℕ × Db)
    → IsDisjoint db.leases
    → lookup pk db.leases ≡ some l
    → by_end end_date l.end_date ≡ true
    → Ended pk end_date l u db o
    → IsDisjoint o.1.leases
Ended-IsDisjoint pk end_date l u db (err e, db') d found sooner o = rw o d
Ended-IsDisjoint pk end_date l u db (ok _, db') d found sooner (active, _, eq, _, _) = rw eq (
    narrow-IsDisjoint pk l (ended_on end_date l) db.leases d found
      (ended-Narrower end_date l active sooner))

-- If no two leases of a unit that are active or ended share a day, and a lease, whose unit is
-- there, is ended on a day that is not after its recorded end, then this still holds after
-- LeaseService.end, whichever way the call ends.
pub end_lease-IsDisjoint :
    (actor pk end_date : ℕ) (l : Lease) (u : RentalUnit) (db : Db)
    → IsDisjoint db.leases
    → lookup pk db.leases ≡ some l
    → lookup l.unit db.units ≡ some u
    → by_end end_date l.end_date ≡ true
    → IsDisjoint (end_lease actor pk end_date db).1.leases
end_lease-IsDisjoint actor pk end_date l u db d found unit sooner =
    Ended-IsDisjoint pk end_date l u db _ d found sooner
      (end_lease-Ended actor pk end_date l u db found unit)

abbrev with_changes : Changes → Lease → Lease
with_changes c l = record l {
  monthly_rent_cents = or_old c.monthly_rent_cents l.monthly_rent_cents;
  security_deposit_cents = or_old c.security_deposit_cents l.security_deposit_cents;
}

-- Nothing is written; or the rent and the deposit of the lease, and no other field, are changed.
abbrev pub Updated : ℕ → Changes → Lease → Db → Result ℕ × Db → Type 0
Updated pk c l db (err e, db') = db' ≡ db
Updated pk c l db (ok _, db') =
    (is_changeable l ≡ true) × ((db' ≡ db) ⊎ (db'.leases ≡ save pk (with_changes c l) db.leases))

update-Updated :
    (actor pk : ℕ) (c : Changes) (l : Lease) (db : Db)
    → lookup pk db.leases ≡ some l
    → Updated pk c l db (update actor pk c db)
unfolding update
update-Updated actor pk c l db e = ground arith

update_missing :
    (actor pk : ℕ) (c : Changes) (db : Db)
    → lookup pk db.leases ≡ none
    → (update actor pk c db).1 ≡ db
unfolding update
update_missing actor pk c db e = ground arith

Updated-IsDisjoint :
    (pk : ℕ) (c : Changes) (l : Lease) (db : Db) (o : Result ℕ × Db)
    → IsDisjoint db.leases
    → lookup pk db.leases ≡ some l
    → Updated pk c l db o
    → IsDisjoint o.1.leases
Updated-IsDisjoint pk c l db (err e, db') d found o = rw o d
Updated-IsDisjoint pk c l db (ok _, db') d found (_, inl same) = rw same d
Updated-IsDisjoint pk c l db (ok _, db') d found (_, inr eq) = rw eq (
    narrow-IsDisjoint pk l (with_changes c l) db.leases d found
      (record { tenant = refl; unit = refl; start = refl; end = λ day h. h; counts = λ h. h }))

-- If no two leases of a unit that are active or ended share a day, then this still holds after
-- LeaseService.update, whichever way the call ends.
pub update-IsDisjoint :
    (actor pk : ℕ) (c : Changes) (db : Db)
    → IsDisjoint db.leases
    → IsDisjoint (update actor pk c db).1.leases
update-IsDisjoint actor pk c db d = elim (Option-cases (lookup pk db.leases)) [
  | inl e ↦ rw (update_missing actor pk c db e) d
  | inr (l, e) ↦ Updated-IsDisjoint pk c l db _ d e (update-Updated actor pk c l db e)
]
