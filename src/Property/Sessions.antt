-- ===== src/Property/Sessions.antt =====
-- Any calls of apps/properties/services.py, in any order, as steps of the database, and the
-- invariants that every database they reach has.
use tenora.Base.{ℕ, String, true, false, ◌≡◌, Option, some}
use tenora.Base.Int.{ℤ}
use tenora.Base.Table.{lookup}
use tenora.Base.Steps.{Reach, Reach-keeps}
use tenora.Property.Rows.{Lease, RentalUnit, BillingCycle, LineType}
use tenora.Property.Db.{Db, Clock}
use tenora.Property.Books.{Booked}
use tenora.Property.Bills.{publish, cancel, add_line_item, remove_line_item}
use tenora.Property.Bills.Issue.{publish-Booked, cancel-Booked}
use tenora.Property.Bills.Edit.{add_line_item-Booked, remove_line_item-Booked}
use tenora.Property.Payments.{Request, Keys, record_payment, void_payment}
use tenora.Property.Payments.Record.{record_payment-Booked}
use tenora.Property.Payments.Void.{void_payment-Booked}
use tenora.Property.Corrections
use tenora.Property.Corrections.{adjust_amount, correct_reading}
use tenora.Property.Corrections.Books.{adjust_amount-Booked}
use tenora.Property.Corrections.Reading.{correct_reading-Booked}
use tenora.Property.Cycles.{Outside, generate, publish_all}
use tenora.Property.Cycles.Books.{generate-Booked, publish_all-Booked}
use tenora.Property.Leases.{Terms, Changes, create, update, end_lease, by_end}
use tenora.Property.Leases.Disjoint.{IsDisjoint, create_lease-IsDisjoint}
use tenora.Property.Leases.Changed.{end_lease-IsDisjoint, update-IsDisjoint}
use tenora.Property.Premises.{UnitChanges, update_unit}
use tenora.Property.Premises.Occupancy.{Occupancy, update_unit-Occupancy}
use tenora.Property.Premises.Keep.{create_lease-Occupancy, end_lease-Occupancy}
use tenora.Property.Meters.{MeterFields, create_meter, MeterChanges, update_meter}
use tenora.Property.Meters.Positive.{
  ArePositive, create_meter-ArePositive, update_meter-ArePositive,
}
use tenora.Property.Readings
use tenora.Property.Readings.{Entry, record_reading}
use tenora.Property.Readings.Order.{IsChronological}
use tenora.Property.Readings.Keep.{record_reading-IsChronological, correct-IsChronological}

-- A call that writes bills, their lines or their payments, whichever way it ends.
pub data BillStep (db : Db) : Db → Type 0 where
  add :
      (line_pk actor pk : ℕ) (type : LineType) (amount : ℤ) (quantity price : Option ℤ)
      → BillStep db (add_line_item line_pk actor pk type amount quantity price db).1
  remove : (actor pk line_pk : ℕ) → BillStep db (remove_line_item actor pk line_pk db).1
  issue : (clock : Clock) (actor pk : ℕ) → BillStep db (publish clock actor pk db).1
  withdraw :
      (clock : Clock) (actor pk : ℕ) (reason : String)
      → BillStep db (cancel clock actor pk reason db).1
  pay : (clock : Clock) (keys : Keys) (r : Request) → BillStep db (record_payment clock keys r db).1
  void :
      (clock : Clock) (actor pk : ℕ) (reason : String)
      → BillStep db (void_payment clock actor pk reason db).1
  adjust :
      (keys : Corrections.Keys) (actor pk : ℕ) (delta : ℤ) (reason : String)
      → BillStep db (adjust_amount keys actor pk delta reason db).1
  correct :
      (keys : Corrections.Keys) (actor pk line_pk : ℕ) (closing : ℤ) (reason : String)
      → BillStep db (correct_reading keys actor pk line_pk closing reason db).1
  generate_all :
      (w : Outside) (actor cycle_pk : ℕ) (cycle : BillingCycle)
      → BillStep db (generate w false actor cycle_pk cycle db).1
  issue_all :
      (clock : Clock) (actor cycle_pk : ℕ) → BillStep db (publish_all clock actor cycle_pk db).1

BillStep-Booked : (s t : Db) → BillStep s t → Booked s → Booked t
BillStep-Booked s _ (add line_pk actor pk type amount quantity price) =
    add_line_item-Booked line_pk actor pk type amount quantity price s
BillStep-Booked s _ (remove actor pk line_pk) = remove_line_item-Booked actor pk line_pk s
BillStep-Booked s _ (issue clock actor pk) = publish-Booked clock actor pk s
BillStep-Booked s _ (withdraw clock actor pk reason) = cancel-Booked clock actor pk reason s
BillStep-Booked s _ (pay clock keys r) = record_payment-Booked clock keys r s
BillStep-Booked s _ (void clock actor pk reason) = void_payment-Booked clock actor pk reason s
BillStep-Booked s _ (adjust keys actor pk delta reason) =
    adjust_amount-Booked keys actor pk delta reason s
BillStep-Booked s _ (correct keys actor pk line_pk closing reason) =
    correct_reading-Booked keys actor pk line_pk closing reason s
BillStep-Booked s _ (generate_all w actor cycle_pk cycle) = generate-Booked w actor cycle_pk cycle s
BillStep-Booked s _ (issue_all clock actor cycle_pk) = publish_all-Booked clock actor cycle_pk s

-- If every bill agrees with its lines, its payments and its status, and every payment is
-- positive, then this still holds in every database that is reached by any number of calls, in
-- any order and whichever way each ends, of add_line_item, remove_line_item, publish, cancel,
-- PaymentService.record and void, adjust_amount, correct_reading, publish_all, and generate
-- without the regeneration of drafts.
pub reached-Booked : (s t : Db) → Reach BillStep s t → Booked s → Booked t
reached-Booked s t = Reach-keeps BillStep Booked BillStep-Booked s t

-- A call that writes leases; a lease is ended by its planned last day.
pub data LeaseStep (db : Db) : Db → Type 0 where
  let_out : (clock : Clock) (pk : ℕ) (t : Terms) → LeaseStep db (create clock pk t db).1
  amend : (actor pk : ℕ) (c : Changes) → LeaseStep db (update actor pk c db).1
  end_early :
      (actor pk end_date : ℕ) (l : Lease) (u : RentalUnit)
      → lookup pk db.leases ≡ some l
      → lookup l.unit db.units ≡ some u
      → by_end end_date l.end_date ≡ true
      → LeaseStep db (end_lease actor pk end_date db).1

LeaseStep-IsDisjoint : (s t : Db) → LeaseStep s t → IsDisjoint s.leases → IsDisjoint t.leases
LeaseStep-IsDisjoint s _ (let_out clock pk t) = create_lease-IsDisjoint clock pk t s
LeaseStep-IsDisjoint s _ (amend actor pk c) = update-IsDisjoint actor pk c s
LeaseStep-IsDisjoint s _ (end_early actor pk end_date l u e f b) =
    λ h. end_lease-IsDisjoint actor pk end_date l u s h e f b

-- If no two leases of one workspace that count for one unit share a day, then this still holds in
-- every database that is reached by any number of calls of LeaseService.create and update, and of
-- end with a day that is not after the planned end of the lease, whichever way each ends.
pub reached-IsDisjoint :
    (s t : Db) → Reach LeaseStep s t → IsDisjoint s.leases → IsDisjoint t.leases
reached-IsDisjoint s t = Reach-keeps LeaseStep (λ db. IsDisjoint db.leases) LeaseStep-IsDisjoint s t

-- A call that writes leases or the status of a unit.
pub data UnitStep (db : Db) : Db → Type 0 where
  move_in : (clock : Clock) (pk : ℕ) (t : Terms) → UnitStep db (create clock pk t db).1
  move_out : (actor pk day : ℕ) → UnitStep db (end_lease actor pk day db).1
  change : (actor pk : ℕ) (c : UnitChanges) → UnitStep db (update_unit actor pk c db).1

UnitStep-Occupancy :
    (s t : Db) → UnitStep s t → Occupancy s.leases s.units → Occupancy t.leases t.units
UnitStep-Occupancy s _ (move_in clock pk t) = create_lease-Occupancy clock pk t s
UnitStep-Occupancy s _ (move_out actor pk day) = end_lease-Occupancy actor pk day s
UnitStep-Occupancy s _ (change actor pk c) = update_unit-Occupancy actor pk c s

-- If each unit has one active lease at most, and the unit of an active lease belongs to its
-- workspace and is occupied, then this still holds in every database that is reached by any
-- number of calls of LeaseService.create and end and of UnitService.update, whichever way each
-- ends.
pub reached-Occupancy :
    (s t : Db) → Reach UnitStep s t → Occupancy s.leases s.units → Occupancy t.leases t.units
reached-Occupancy s t =
    Reach-keeps UnitStep (λ db. Occupancy db.leases db.units) UnitStep-Occupancy s t

-- A call that writes meters.
pub data MeterStep (db : Db) : Db → Type 0 where
  install :
      (pk actor tenant : ℕ) (f : MeterFields) → MeterStep db (create_meter pk actor tenant f db).1
  reset : (actor pk : ℕ) (c : MeterChanges) → MeterStep db (update_meter actor pk c db).1

MeterStep-ArePositive : (s t : Db) → MeterStep s t → ArePositive s.meters → ArePositive t.meters
MeterStep-ArePositive s _ (install pk actor tenant f) = create_meter-ArePositive pk actor tenant f s
MeterStep-ArePositive s _ (reset actor pk c) = update_meter-ArePositive actor pk c s

-- If every meter has a positive multiplier, then this still holds in every database that is
-- reached by any number of calls of MeterService.create and update, whichever way each ends.
pub reached-ArePositive :
    (s t : Db) → Reach MeterStep s t → ArePositive s.meters → ArePositive t.meters
reached-ArePositive s t =
    Reach-keeps MeterStep (λ db. ArePositive db.meters) MeterStep-ArePositive s t

-- A call that writes readings.
pub data ReadingStep (db : Db) : Db → Type 0 where
  read : (clock : Clock) (pk : ℕ) (r : Entry) → ReadingStep db (record_reading clock pk r db).1
  reread :
      (key actor pk : ℕ) (value : ℤ) (reason : String)
      → ReadingStep db (Readings.correct key actor pk value reason db).1

ReadingStep-IsChronological :
    (s t : Db) → ReadingStep s t → IsChronological s.readings → IsChronological t.readings
ReadingStep-IsChronological s _ (read clock pk r) = record_reading-IsChronological clock pk r s
ReadingStep-IsChronological s _ (reread key actor pk value reason) =
    correct-IsChronological key actor pk value reason s

-- If the readings of every meter rise with their dates, then this still holds in every database
-- that is reached by any number of calls of MeterReadingService.record and correct, whichever way
-- each ends.
pub reached-IsChronological :
    (s t : Db) → Reach ReadingStep s t → IsChronological s.readings → IsChronological t.readings
reached-IsChronological s t =
    Reach-keeps ReadingStep (λ db. IsChronological db.readings) ReadingStep-IsChronological s t
