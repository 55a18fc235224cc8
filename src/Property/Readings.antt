-- ===== src/Property/Readings.antt =====
-- `MeterReadingService` and `sniff_proof` of apps/properties/services.py.
pub mod Order
pub mod Keep
pub mod Usages
use tenora.Base.{
  ℕ, String, Bool, true, false, not, ◌&&◌, ◌||◌, Option, none, some, List, [], ◌∷◌, ◌==◌, is_some,
  ltb, leb, ◌*◌, if◌then◌else◌,
}
use tenora.Base.Int.{ℤ, pos, ltb_ℤ, leb_ℤ, eqb_ℤ}
use tenora.Base.Table.{Table, lookup, save, exists, exists_other}
use tenora.Base.Text.{strip, is_given, same_text}
use tenora.Exec.{
  Exec, Result, ok, err, domain, integrity, pure, raise, gets, require, lift, or_raise, atomic,
  except_integrity, raise_if, modify, ◌>>=◌, ◌>>◌, not_found, meter_inactive, reading_negative,
  reading_in_future, reading_below_previous, reading_above_next, duplicate_reading, reason_required,
  correction_unchanged, missing_reading, missing_opening_reading, negative_consumption,
  proof_too_large, proof_type_unsupported, duplicate_meter,
}
use tenora.Property.Rows.{Meter, MeterReading, ReadingSource, MeterReadingCorrection, RentalUnit}
use tenora.Property.Db.{Db, Clock, Action, refuse_if, missing_if, audit}
use tenora.Property.Calculations.{consumption, billed_units}

-- A reading of a meter, or none: what a query with an order and `.first()` answers.
abbrev pub Found : Type 0
Found = Option (ℕ × MeterReading)

-- The one of two readings that is dated later, or earlier; the dates of a meter differ.
abbrev pub later : ℕ → MeterReading → Found → Found
later pk r none = some (pk, r)
later pk r (some (k, s)) = if ltb r.reading_date s.reading_date then some (k, s) else some (pk, r)

abbrev pub earlier : ℕ → MeterReading → Found → Found
earlier pk r none = some (pk, r)
earlier pk r (some (k, s)) = if ltb s.reading_date r.reading_date then some (k, s) else some (pk, r)

-- `filter(p).order_by("-reading_date").first()`
unfoldable pub latest : (MeterReading → Bool) → Table MeterReading → Found
latest p [] = none
latest p ((pk, r) ∷ t) = let rest = latest p t in if p r then later pk r rest else rest

-- `filter(p).order_by("reading_date").first()`
unfoldable pub earliest : (MeterReading → Bool) → Table MeterReading → Found
earliest p [] = none
earliest p ((pk, r) ∷ t) = let rest = earliest p t in if p r then earlier pk r rest else rest

-- `exclude(pk=exclude_pk)`, where a key is given.
unfoldable pub without : Option ℕ → Table MeterReading → Table MeterReading
without none t = t
without (some k) [] = []
without (some k) ((j, r) ∷ t) =
    let rest = without (some k) t in if j == k then rest else (j, r) ∷ rest

abbrev pub before : ℕ → ℕ → MeterReading → Bool
before meter date r = r.meter == meter && ltb r.reading_date date

abbrev pub after : ℕ → ℕ → MeterReading → Bool
after meter date r = r.meter == meter && ltb date r.reading_date

abbrev pub within : ℕ → ℕ → ℕ → MeterReading → Bool
within meter start end r = r.meter == meter && (leb start r.reading_date && leb r.reading_date end)

abbrev pub within_before : ℕ → ℕ → ℕ → MeterReading → Bool
within_before meter start date r =
    r.meter == meter && (leb start r.reading_date && ltb r.reading_date date)

abbrev pub is_below : ℤ → Found → Bool
is_below value none = false
is_below value (some (_, r)) = ltb_ℤ value r.reading_value

abbrev pub is_above : ℤ → Found → Bool
is_above value none = false
is_above value (some (_, r)) = ltb_ℤ r.reading_value value

-- `_check_chronology`; a reading has the workspace of its meter, so that the meter filters for both.
unfoldable pub check_chronology : ℕ → ℕ → ℤ → Option ℕ → Exec {0} Db Unit
check_chronology meter date value exclude db =
    let readings = without exclude db.readings in
    if is_below value (latest (before meter date) readings)
    then (err (domain reading_below_previous 400), db)
    else if is_above value (earliest (after meter date) readings)
    then (err (domain reading_above_next 400), db)
    else (ok tt, db)

-- The head of an upload, and its size in bytes.
pub record Upload : Type 0 where
  pub size : ℕ
  pub head : List ℕ

abbrev pub starts_with : List ℕ → List ℕ → Bool
starts_with [] bytes = true
starts_with (p ∷ ps) [] = false
starts_with (p ∷ ps) (b ∷ bytes) = p == b && starts_with ps bytes

-- `head[:4] == b"RIFF" and head[8:12] == b"WEBP"`
abbrev pub is_webp : List ℕ → Bool
is_webp (a ∷ b ∷ c ∷ d ∷ _ ∷ _ ∷ _ ∷ _ ∷ e ∷ f ∷ g ∷ h ∷ _) =
    starts_with (b'R' ∷ b'I' ∷ b'F' ∷ b'F' ∷ []) (a ∷ b ∷ c ∷ d ∷ [])
    && starts_with (b'W' ∷ b'E' ∷ b'B' ∷ b'P' ∷ []) (e ∷ f ∷ g ∷ h ∷ [])
is_webp _ = false

abbrev pub proof_max_bytes : ℕ
proof_max_bytes = 5 * 1024 * 1024

-- The content type of a proof, from its leading bytes.
unfoldable pub sniff_proof : Upload → Result String
sniff_proof upload =
    if ltb proof_max_bytes upload.size
    then err (domain proof_too_large 400)
    else if starts_with (0xff ∷ 0xd8 ∷ 0xff ∷ []) upload.head
    then ok "image/jpeg"
    else if starts_with (0x89 ∷ b'P' ∷ b'N' ∷ b'G' ∷ 13 ∷ 10 ∷ 0x1a ∷ 10 ∷ []) upload.head
    then ok "image/png"
    else if starts_with (b'%' ∷ b'P' ∷ b'D' ∷ b'F' ∷ b'-' ∷ []) upload.head
    then ok "application/pdf"
    else if is_webp upload.head
    then ok "image/webp"
    else err (domain proof_type_unsupported 400)

abbrev pub sniffed : Option Upload → Result String
sniffed none = ok ""
sniffed (some upload) = sniff_proof upload

-- unique_reading_per_meter_day and reading_value_non_negative
unfoldable pub insert_reading : ℕ → MeterReading → Exec {0} Db Unit
insert_reading pk r db =
    if is_some (lookup pk db.readings)
    then (err integrity, db)
    else if exists (λ o. o.meter == r.meter && o.reading_date == r.reading_date) db.readings
    then (err integrity, db)
    else if ltb_ℤ r.reading_value (pos 0)
    then (err integrity, db)
    else (ok tt, record db { readings = save pk r db.readings })

pub record Entry : Type 0 where
  pub actor : ℕ
  pub tenant : ℕ
  pub meter : ℕ
  pub reading_date : ℕ
  pub reading_value : ℤ
  pub notes : String
  pub proof : Option Upload
  pub source : ReadingSource

abbrev pub reading_of : Entry → String → MeterReading
reading_of r content_type = record {
  tenant = r.tenant;
  meter = r.meter;
  reading_date = r.reading_date;
  reading_value = r.reading_value;
  source = r.source;
  notes = r.notes;
  proof_content_type = content_type;
  recorded_by = r.actor;
}

-- The `try` block of `record`.
unfoldable pub record_locked : ℕ → Entry → String → Exec {0} Db ℕ
record_locked pk r content_type = atomic do
  check_chronology r.meter r.reading_date r.reading_value none
  atomic (insert_reading pk (reading_of r content_type))
  audit r.actor r.tenant Action.meter_reading_recorded pk
  pure pk

-- `MeterReadingService.record`
unfoldable pub record_reading : Clock → ℕ → Entry → Exec {0} Db ℕ
record_reading clock pk r = do
  meter ← gets (λ db. lookup r.meter db.meters)
  meter ← require meter
  missing_if (not (meter.tenant == r.tenant)) not_found
  refuse_if (not meter.is_active) meter_inactive
  refuse_if (ltb_ℤ r.reading_value (pos 0)) reading_negative
  refuse_if (ltb clock.today r.reading_date) reading_in_future
  content_type ← lift (sniffed r.proof)
  except_integrity (record_locked pk r content_type) (raise (domain duplicate_reading 400))

-- `MeterReadingService.correct`; `key` is the new correction's. The list of affected bills that it
-- also answers is read from the bill lines and writes nothing.
unfoldable pub correct : ℕ → ℕ → ℕ → ℤ → String → Exec {0} Db ℕ
correct key actor pk value reason = do
  refuse_if (not (is_given reason)) reason_required
  refuse_if (ltb_ℤ value (pos 0)) reading_negative
  atomic do
    reading ← gets (λ db. lookup pk db.readings)
    reading ← require reading
    refuse_if (eqb_ℤ value reading.reading_value) correction_unchanged
    check_chronology reading.meter reading.reading_date value (some pk)
    taken ← gets (λ db. is_some (lookup key db.reading_corrections))
    raise_if taken integrity
    modify (λ db. record db {
      reading_corrections =
          save key
            (record {
              tenant = reading.tenant;
              reading = pk;
              original_value = reading.reading_value;
              corrected_value = value;
              reason = strip reason;
              actor = actor;
            })
            db.reading_corrections;
      readings = save pk (record reading { reading_value = value }) db.readings;
    })
    audit actor reading.tenant Action.meter_reading_corrected pk
    pure key
