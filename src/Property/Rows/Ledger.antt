-- ===== src/Property/Rows/Ledger.antt =====
-- Billing cycles, bills, their lines and corrections, payments and receipts of
-- apps/properties/models.py.
use tenora.Base.{ℕ, String, Bool, true, false, Option, ◌&&◌, ◌==◌, if◌then◌else◌}
use tenora.Base.Int.{ℤ, pos, ◌-ℤ◌, ltb_ℤ}

pub data CycleStatus : Type 0 where
  open_cycle closed_cycle : CycleStatus

pub record BillingCycle : Type 0 where
  pub tenant : ℕ
  pub period_start : ℕ
  pub period_end : ℕ
  pub status : CycleStatus
  pub opened_by : ℕ
  pub closed_at : Option ℕ

pub data BillStatus : Type 0 where
  draft published partially_paid paid cancelled : BillStatus

-- The year and the number of `BILL-2026-000001` and of `REC-2026-000183`.
pub record DocumentNumber : Type 0 where
  pub year : ℕ
  pub number : ℕ

abbrev pub same_number : DocumentNumber → DocumentNumber → Bool
same_number a b = a.year == b.year && a.number == b.number

pub record Bill : Type 0 where
  pub tenant : ℕ
  pub cycle : ℕ
  pub property_id : ℕ
  pub unit : ℕ
  pub resident : ℕ
  pub lease : Option ℕ
  -- `none` is the blank number of a bill that was never published
  pub bill_number : Option DocumentNumber
  pub period_start : ℕ
  pub period_end : ℕ
  pub due_date : ℕ
  pub status : BillStatus
  pub currency : String
  pub property_name : String
  pub unit_identifier : String
  pub resident_name : String
  pub resident_email : String
  pub subtotal_cents : ℤ
  pub adjustments_cents : ℤ
  pub total_cents : ℤ
  pub amount_paid_cents : ℤ
  pub published_at : Option ℕ
  pub cancelled_at : Option ℕ
  pub cancellation_reason : String
  pub generated_by : ℕ

-- `status in OPEN_BILL_STATUSES`
abbrev pub is_open_status : BillStatus → Bool
is_open_status published = true
is_open_status partially_paid = true
is_open_status _ = false

-- `status in ISSUED_BILL_STATUSES`
abbrev pub is_issued : BillStatus → Bool
is_issued published = true
is_issued partially_paid = true
is_issued paid = true
is_issued _ = false

abbrev pub is_draft : BillStatus → Bool
is_draft draft = true
is_draft _ = false

abbrev pub is_cancelled : BillStatus → Bool
is_cancelled cancelled = true
is_cancelled _ = false

unfoldable pub amount_due_cents : Bill → ℤ
amount_due_cents bill =
    if is_draft bill.status
    then pos 0
    else if is_cancelled bill.status
    then pos 0
    else let due = bill.total_cents -ℤ bill.amount_paid_cents in
      if ltb_ℤ due (pos 0) then pos 0 else due

pub data LineType : Type 0 where
  rent electricity maintenance other_charge discount adjustment late_fee : LineType

-- CHARGE_TYPES; the other two are ADJUSTMENT_TYPES.
abbrev pub is_charge : LineType → Bool
is_charge discount = false
is_charge adjustment = false
is_charge _ = true

-- The calculation that an electricity line keeps.
pub record Usage : Type 0 where
  pub meter : ℕ
  pub meter_number : String
  pub opening_reading : ℕ
  pub closing_reading : ℕ
  pub opening_reading_value : ℤ
  pub closing_reading_value : ℤ
  pub opening_reading_date : ℕ
  pub closing_reading_date : ℕ
  pub multiplier : ℤ
  pub units_consumed : ℤ
  pub tariff : ℕ

-- The description, a text for display, is left out.
pub record LineItem : Type 0 where
  pub bill : ℕ
  pub type : LineType
  pub quantity : Option ℤ
  pub unit_price_cents : Option ℤ
  pub amount_cents : ℤ
  pub usage : Option Usage
  pub correction : Option ℕ
  pub sort_order : ℕ

-- `original_values` and `corrected_values` of either kind of correction.
pub data CorrectionValues : Type 0 where
  amount_values : ℤ → CorrectionValues
  reading_values : ℕ → ℤ → ℤ → ℤ → CorrectionValues

pub record BillCorrection : Type 0 where
  pub tenant : ℕ
  pub bill : ℕ
  pub reason : String
  pub original_values : CorrectionValues
  pub corrected_values : CorrectionValues
  pub amount_delta_cents : ℤ
  pub actor : ℕ

pub data Method : Type 0 where
  cash bank_transfer upi card online other : Method

abbrev pub is_online : Method → Bool
is_online online = true
is_online _ = false

pub data PaymentStatus : Type 0 where
  completed voided : PaymentStatus

abbrev pub is_voided : PaymentStatus → Bool
is_voided voided = true
is_voided completed = false

pub record Payment : Type 0 where
  pub tenant : ℕ
  pub bill : ℕ
  pub resident : ℕ
  pub amount_cents : ℤ
  pub currency : String
  pub payment_date : ℕ
  pub method : Method
  pub status : PaymentStatus
  pub reference : String
  pub notes : String
  pub idempotency_key : String
  pub recorded_by : ℕ
  pub voided_at : Option ℕ
  pub void_reason : String

pub record Receipt : Type 0 where
  pub tenant : ℕ
  pub bill : ℕ
  pub payment : ℕ
  pub receipt_number : DocumentNumber
  pub issued_at : ℕ
  pub amount_cents : ℤ
  pub currency : String
  pub resident_name : String
  pub unit_identifier : String
  pub property_name : String
  pub bill_number : Option DocumentNumber
  pub payment_method : Method
