-- ===== src/Property/Usages.antt =====
-- The usage of a meter in a period: `electricity_for_period` of apps/properties/services.py.
use tenora.Base.{ℕ, none, some}
use tenora.Base.Int.{ℤ}
use tenora.Base.Table.{Table}
use tenora.Exec.{
  Result, ok, err, domain, missing_reading, missing_opening_reading, negative_consumption,
}
use tenora.Property.Rows.{Meter, MeterReading}
use tenora.Property.Calculations.{consumption, billed_units}
use tenora.Property.Readings.{Found, latest, earliest, before, within, within_before}

-- The reading that opens a period: the latest before it, or the first within it that precedes the
-- closing one.
unfoldable pub opening_for : ℕ → ℕ → ℕ → Table MeterReading → Found
opening_for meter start closing_date t = elim (latest (before meter start) t) [
  | some found ↦ some found
  | none ↦ earliest (within_before meter start closing_date) t
]

pub record Usage : Type 0 where
  pub opening_pk : ℕ
  pub opening : MeterReading
  pub closing_pk : ℕ
  pub closing : MeterReading
  pub units : ℤ
  pub consumption : ℤ

-- The usage between two readings that were found.
unfoldable pub usage_between : Meter → ℕ × MeterReading → ℕ × MeterReading → Result Usage
usage_between meter (i, opening) (j, closing) =
    elim (billed_units opening.reading_value closing.reading_value meter.multiplier) [
      | none ↦ err (domain negative_consumption 400)
      | some units ↦ elim (consumption opening.reading_value closing.reading_value) [
        | none ↦ err (domain negative_consumption 400)
        | some raw ↦ ok (record {
          opening_pk = i;
          opening = opening;
          closing_pk = j;
          closing = closing;
          units = units;
          consumption = raw;
        })
      ]
    ]

unfoldable pub usage_closing : ℕ → Meter → ℕ → ℕ × MeterReading → Table MeterReading → Result Usage
usage_closing meter_pk meter start closing t =
    elim (opening_for meter_pk start closing.1.reading_date t) [
      | none ↦ err (domain missing_opening_reading 400)
      | some opening ↦ usage_between meter opening closing
    ]

-- `electricity_for_period`
unfoldable pub electricity_for_period : ℕ → Meter → ℕ → ℕ → Table MeterReading → Result Usage
electricity_for_period meter_pk meter start end t = elim (latest (within meter_pk start end) t) [
  | none ↦ err (domain missing_reading 400)
  | some closing ↦ usage_closing meter_pk meter start closing t
]
