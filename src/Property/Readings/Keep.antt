-- ===== src/Property/Readings/Keep.antt =====
-- `MeterReadingService.record` and `correct` of apps/properties/services.py and the order of a
-- meter's readings.
use tenora.Base.{
  ℕ, String, true, false, ◌&&◌, ◌≡◌, ◌≢◌, none, some, [], ◌∷◌, ◌==◌, ltb, arith, Bool-cases,
  Option-cases, inl, inr,
}
use tenora.Base.Int.{ℤ, ◌≤ℤ◌}
use tenora.Base.Table.{Table, lookup, save, exists}
use tenora.Base.Rows.{
  AllRows, AllRows-map, AllRows-both, AllRows-exists, AllRows-lookup-none, AllRows-lookup,
  Pairs-save,
}
use tenora.Exec.{Result, Error, ok, err, Result-cases}
use tenora.Property.Db.{Db, Clock}
use tenora.Property.Rows.{MeterReading}
use tenora.Property.Readings.{
  Found, latest, earliest, without, before, after, is_below, is_above, check_chronology, Entry,
  reading_of, insert_reading, sniffed, record_locked, record_reading, correct,
}
use tenora.Property.Readings.Order.{
  Fits, other_meter, rises, falls, Fits-flip, Fits-apart, IsChronological, AtMost, AtLeast,
  latest-AtMost, earliest-AtLeast,
}

before_own : (meter date : ℕ) (r : MeterReading) → before meter date r ≡ true → r.meter ≡ meter
before_own meter date r h = ground arith

after_own : (meter date : ℕ) (r : MeterReading) → after meter date r ≡ true → r.meter ≡ meter
after_own meter date r h = ground arith

below_all :
    (f : Found) (value : ℤ) (s : MeterReading)
    → is_below value f ≡ false
    → AtMost f s
    → s.reading_value ≤ℤ value
below_all none value s h e = absurd e
below_all (some (k, m)) value s h e = ground arith

above_all :
    (f : Found) (value : ℤ) (s : MeterReading)
    → is_above value f ≡ false
    → AtLeast f s
    → value ≤ℤ s.reading_value
above_all none value s h e = absurd e
above_all (some (k, m)) value s h e = ground arith

-- A reading of another day that passes the two comparisons fits.
fits :
    (k : ℕ) (n : MeterReading) (j : ℕ) (s : MeterReading) (f g : Found)
    → (j == k) ≡ false
    → (s.meter ≡ n.meter → s.reading_date ≢ n.reading_date)
    → is_below n.reading_value f ≡ false
    → is_above n.reading_value g ≡ false
    → (before n.meter n.reading_date s ≡ true → AtMost f s)
    → (after n.meter n.reading_date s ≡ true → AtLeast g s)
    → Fits k n j s
fits k n j s f g apart day low high below above = elim (Bool-cases (n.meter == s.meter)) [
  | inr other ↦ other_meter (ground arith) other
  | inl same ↦ elim (Bool-cases (ltb n.reading_date s.reading_date)) [
    | inl sooner ↦
        rises (ground arith) (ground arith)
          (above_all g n.reading_value s high (above (ground arith)))
    | inr no_sooner ↦
        falls (ground arith) (ground arith)
          (below_all f n.reading_value s low (below (ground arith)))
  ]
]

module _ (k : ℕ) (n : MeterReading) (u : Table MeterReading) (h : IsChronological u)
    (low : is_below n.reading_value (latest (before n.meter n.reading_date) u) ≡ false)
    (high : is_above n.reading_value (earliest (after n.meter n.reading_date) u) ≡ false) where
  checked-Fits :
      AllRows (λ j s. ((j == k) ≡ false) × (s.meter ≡ n.meter → s.reading_date ≢ n.reading_date)) u
      → AllRows (Fits k n) u
  checked-Fits apart =
      let f = latest (before n.meter n.reading_date) u in
      let g = earliest (after n.meter n.reading_date) u in
      AllRows-map _ _ u (λ j s ((a, day), (x, y)). fits k n j s f g a day low high x y)
        (AllRows-both _ _ u apart (
          AllRows-both _ _ u
            (latest-AtMost n.meter (before n.meter n.reading_date)
              (before_own n.meter n.reading_date) u h)
            (earliest-AtLeast n.meter (after n.meter n.reading_date)
              (after_own n.meter n.reading_date) u h)))

-- What a reading that is recorded has passed.
abbrev Recorded : ℕ → MeterReading → Db → Result ℕ × Db → Type 0
Recorded pk n db (err e, db') = db' ≡ db
Recorded pk n db (ok _, db') =
    (is_below n.reading_value (latest (before n.meter n.reading_date) db.readings) ≡ false)
    × (is_above n.reading_value (earliest (after n.meter n.reading_date) db.readings) ≡ false)
    × (lookup pk db.readings ≡ none)
    × (exists (λ o. o.meter == n.meter && o.reading_date == n.reading_date) db.readings ≡ false)
    × (db'.readings ≡ save pk n db.readings)

locked-Recorded :
    (pk : ℕ) (r : Entry) (content_type : String) (db : Db)
    → Recorded pk (reading_of r content_type) db (record_locked pk r content_type db)
unfolding record_locked check_chronology without insert_reading
locked-Recorded pk r content_type db = ground arith

Recorded-IsChronological :
    (pk : ℕ) (n : MeterReading) (db : Db) (o : Result ℕ × Db)
    → IsChronological db.readings
    → Recorded pk n db o
    → IsChronological o.1.readings
Recorded-IsChronological pk n db (err e, db') h same = rw same h
Recorded-IsChronological pk n db (ok x, db') h (low, high, fresh, day, saved) = rw saved (
    Pairs-save Fits Fits-flip Fits-apart pk n db.readings h (
      AllRows-map _ _ db.readings (λ j s f _. f)
        (checked-Fits pk n db.readings h low high (
          AllRows-map _ _ db.readings (λ j s (a, b). (a, λ m d. ground arith))
            (AllRows-both _ _ db.readings (AllRows-lookup-none pk db.readings fresh)
              (AllRows-exists _ db.readings day))))))

unsniffed :
    (clock : Clock) (pk : ℕ) (r : Entry) (db : Db) (e : Error)
    → sniffed r.proof ≡ err e
    → (record_reading clock pk r db).1 ≡ db
unfolding record_reading
unsniffed clock pk r db e h = ground arith

record_reading-Recorded :
    (clock : Clock) (pk : ℕ) (r : Entry) (db : Db) (content_type : String)
    → sniffed r.proof ≡ ok content_type
    → Recorded pk (reading_of r content_type) db (record_reading clock pk r db)
unfolding record_reading
record_reading-Recorded clock pk r db content_type e =
    ground (arith, locked-Recorded pk r content_type db)

-- If the readings of each meter rise with their days and no two are of one day, then this still
-- holds after MeterReadingService.record, whichever way the call ends.
pub record_reading-IsChronological :
    (clock : Clock) (pk : ℕ) (r : Entry) (db : Db)
    → IsChronological db.readings
    → IsChronological (record_reading clock pk r db).1.readings
record_reading-IsChronological clock pk r db h = elim (Result-cases (sniffed r.proof)) [
  | inr (e, t) ↦ rw (unsniffed clock pk r db e t) h
  | inl (content_type, t) ↦
      Recorded-IsChronological pk (reading_of r content_type) db (record_reading clock pk r db) h
        (record_reading-Recorded clock pk r db content_type t)
]

-- A query that leaves a key out speaks of the rows under the other keys.
AllRows-without :
    (P : ℕ → MeterReading → Type 0) (k : ℕ) (t : Table MeterReading)
    → AllRows P (without (some k) t)
    → AllRows (λ j s. (j == k) ≡ false → P j s) t
unfolding without
AllRows-without P k [] h = tt
AllRows-without P k ((j, s) ∷ t) h = elim (Bool-cases (j == k)) [
  | inl same ↦ (λ e. ground arith, AllRows-without P k t (rw same at h))
  | inr other ↦
      let h' : P j s × AllRows P (without (some k) t) = (rw other at h) in
      (λ _. h'.0, AllRows-without P k t h'.1)
]

without-AllRows :
    (P : ℕ → MeterReading → Type 0) (k : ℕ) (t : Table MeterReading)
    → AllRows (λ j s. (j == k) ≡ false → P j s) t
    → AllRows P (without (some k) t)
unfolding without
without-AllRows P k [] h = tt
without-AllRows P k ((j, s) ∷ t) h = elim (Bool-cases (j == k)) [
  | inl same ↦ rw same (without-AllRows P k t h.1)
  | inr other ↦ rw other (h.0 other, without-AllRows P k t h.1)
]

without-IsChronological :
    (k : ℕ) (t : Table MeterReading) → IsChronological t → IsChronological (without (some k) t)
unfolding without
without-IsChronological k [] h = tt
without-IsChronological k ((j, s) ∷ t) h = elim (Bool-cases (j == k)) [
  | inl same ↦ rw same (without-IsChronological k t h.1)
  | inr other ↦ rw other (
    without-AllRows (Fits j s) k t (AllRows-map _ _ t (λ i u f _. f) h.0),
    without-IsChronological k t h.1,
  )
]

-- A row fits those under the other keys.
row-Fits :
    (k : ℕ) (old : MeterReading) (t : Table MeterReading)
    → IsChronological t
    → lookup k t ≡ some old
    → AllRows (λ j s. (j == k) ≡ false → Fits k old j s) t
unfolding lookup
row-Fits k old [] h e = tt
row-Fits k old ((j, s) ∷ t) h e = elim (Bool-cases (j == k)) [
  | inl same ↦
      let key : j ≡ k = ground arith in
      let row : s ≡ old = ground arith in
      (λ other. ground arith, AllRows-map _ _ t (λ i u f _. rw (key, row) at f) h.0)
  | inr other ↦
      let e' : lookup k t ≡ some old = (rw other at e) in
      (
        λ _. Fits-flip j s k old (
            AllRows-lookup (Fits j s) k old t
              (λ i q f. let key : i ≡ k = ground arith in rw key at f) h.0 e'),
        row-Fits k old t h.1 e',
      )
]

-- Another reading of the meter is of another day.
other_day :
    (k : ℕ) (old : MeterReading) (j : ℕ) (s : MeterReading)
    → Fits k old j s
    → s.meter ≡ old.meter
    → s.reading_date ≢ old.reading_date
other_day k old j s (other_meter a b) m d = ground arith
other_day k old j s (rises a b c) m d = omega arith
other_day k old j s (falls a b c) m d = omega arith

abbrev pub with_value : MeterReading → ℤ → MeterReading
with_value r value = record r { reading_value = value }

abbrev Corrected : ℕ → MeterReading → ℤ → Db → Result ℕ × Db → Type 0
Corrected pk r value db (err e, db') = db' ≡ db
Corrected pk r value db (ok _, db') =
    (is_below value (latest (before r.meter r.reading_date) (without (some pk) db.readings))
      ≡ false)
    × (is_above value (earliest (after r.meter r.reading_date) (without (some pk) db.readings))
        ≡ false)
    × (db'.readings ≡ save pk (with_value r value) db.readings)

correct-Corrected :
    (key actor pk : ℕ) (r : MeterReading) (value : ℤ) (reason : String) (db : Db)
    → lookup pk db.readings ≡ some r
    → Corrected pk r value db (correct key actor pk value reason db)
unfolding correct check_chronology
correct-Corrected key actor pk r value reason db e = ground arith

correct_missing :
    (key actor pk : ℕ) (value : ℤ) (reason : String) (db : Db)
    → lookup pk db.readings ≡ none
    → (correct key actor pk value reason db).1 ≡ db
unfolding correct
correct_missing key actor pk value reason db e = ground arith

Corrected-IsChronological :
    (pk : ℕ) (r : MeterReading) (value : ℤ) (db : Db) (o : Result ℕ × Db)
    → IsChronological db.readings
    → lookup pk db.readings ≡ some r
    → Corrected pk r value db o
    → IsChronological o.1.readings
Corrected-IsChronological pk r value db (err e, db') h found same = rw same h
Corrected-IsChronological pk r value db (ok x, db') h found (low, high, saved) =
    let n = with_value r value in
    let rest = without (some pk) db.readings in
    rw saved (
      Pairs-save Fits Fits-flip Fits-apart pk n db.readings h (
        AllRows-without (Fits pk n) pk db.readings (
          checked-Fits pk n rest (without-IsChronological pk db.readings h) low high (
            without-AllRows _ pk db.readings (
              AllRows-map _ _ db.readings (λ j s f other. (other, other_day pk r j s (f other)))
                (row-Fits pk r db.readings h found))))))

-- If the readings of each meter rise with their days and no two are of one day, then this still
-- holds after MeterReadingService.correct, whichever way the call ends.
pub correct-IsChronological :
    (key actor pk : ℕ) (value : ℤ) (reason : String) (db : Db)
    → IsChronological db.readings
    → IsChronological (correct key actor pk value reason db).1.readings
correct-IsChronological key actor pk value reason db h =
    elim (Option-cases (lookup pk db.readings)) [
      | inl e ↦ rw (correct_missing key actor pk value reason db e) h
      | inr (r, e) ↦
          Corrected-IsChronological pk r value db (correct key actor pk value reason db) h e
            (correct-Corrected key actor pk r value reason db e)
    ]
