-- ===== src/Property/Meters/Positive.antt =====
-- The multipliers of the meters (`MeterService` of apps/properties/services.py).
use tenora.Base.{ℕ, false, ◌≡◌, ◌⊎◌, none, some, arith, Option-cases, inl, inr}
use tenora.Base.Int.{pos, leb_ℤ, ◌<ℤ◌}
use tenora.Base.Table.{Table, lookup, save}
use tenora.Base.Rows.{AllRows, AllRows-save}
use tenora.Exec.{Result, ok, err}
use tenora.Property.Db.{Db}
use tenora.Property.Rows.{Meter}
use tenora.Property.Meters.{
  MeterFields, meter_of, create_meter, MeterChanges, with_meter, update_meter,
}

abbrev pub ArePositive : Table Meter → Type 0
ArePositive t = AllRows (λ _ m. pos 0 <ℤ m.multiplier) t

abbrev Stored : ℕ → Meter → Db → Result ℕ × Db → Type 0
Stored pk m db (err e, db') = db' ≡ db
Stored pk m db (ok _, db') =
    (db' ≡ db) ⊎ ((leb_ℤ m.multiplier (pos 0) ≡ false) × (db'.meters ≡ save pk m db.meters))

Stored-ArePositive :
    (pk : ℕ) (m : Meter) (db : Db) (o : Result ℕ × Db)
    → ArePositive db.meters
    → Stored pk m db o
    → ArePositive o.1.meters
Stored-ArePositive pk m db (err e, db') h o = rw o h
Stored-ArePositive pk m db (ok _, db') h (inl same) = rw same h
Stored-ArePositive pk m db (ok _, db') h (inr (p, eq)) =
    rw eq (AllRows-save (λ _ n. pos 0 <ℤ n.multiplier) pk m db.meters h (ground arith))

create_meter-Stored :
    (pk actor tenant : ℕ) (f : MeterFields) (db : Db)
    → Stored pk (meter_of tenant f) db (create_meter pk actor tenant f db)
unfolding create_meter
create_meter-Stored pk actor tenant f db = ground arith

-- If every meter has a positive multiplier, then this still holds after MeterService.create,
-- whichever way the call ends.
pub create_meter-ArePositive :
    (pk actor tenant : ℕ) (f : MeterFields) (db : Db)
    → ArePositive db.meters
    → ArePositive (create_meter pk actor tenant f db).1.meters
create_meter-ArePositive pk actor tenant f db h =
    Stored-ArePositive pk (meter_of tenant f) db _ h (create_meter-Stored pk actor tenant f db)

update_meter-Stored :
    (actor pk : ℕ) (c : MeterChanges) (m : Meter) (db : Db)
    → lookup pk db.meters ≡ some m
    → Stored pk (with_meter c m) db (update_meter actor pk c db)
unfolding update_meter
update_meter-Stored actor pk c m db e = ground arith

update_meter_missing :
    (actor pk : ℕ) (c : MeterChanges) (db : Db)
    → lookup pk db.meters ≡ none
    → (update_meter actor pk c db).1 ≡ db
unfolding update_meter
update_meter_missing actor pk c db e = ground arith

-- If every meter has a positive multiplier, then this still holds after MeterService.update,
-- whichever way the call ends.
pub update_meter-ArePositive :
    (actor pk : ℕ) (c : MeterChanges) (db : Db)
    → ArePositive db.meters
    → ArePositive (update_meter actor pk c db).1.meters
update_meter-ArePositive actor pk c db h = elim (Option-cases (lookup pk db.meters)) [
  | inl e ↦ rw (update_meter_missing actor pk c db e) h
  | inr (m, e) ↦
      Stored-ArePositive pk (with_meter c m) db _ h (update_meter-Stored actor pk c m db e)
]
