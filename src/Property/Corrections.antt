-- ===== src/Property/Corrections.antt =====
-- `BillCorrectionService` of apps/properties/services.py.
pub mod Apply
pub mod Books
pub mod Reading
use tenora.Base.{
  ℕ, String, Bool, true, false, not, ◌&&◌, ◌||◌, Option, none, some, List, [], ◌∷◌, ◌==◌, is_some,
  if◌then◌else◌,
}
use tenora.Base.Int.{ℤ, pos, ◌+ℤ◌, ◌-ℤ◌, ltb_ℤ, eqb_ℤ}
use tenora.Base.Table.{Table, lookup}
use tenora.Base.Text.{strip, is_given}
use tenora.Exec.{
  Exec, domain, pure, raise, gets, require, or_raise, atomic, when, ◌>>=◌, ◌>>◌,
  correction_below_paid, reason_required, amount_required, bill_not_published, not_found,
  negative_consumption, correction_unchanged,
}
use tenora.Notifications.{Kind, bill_ref}
use tenora.Property.Rows.{
  Bill, BillCorrection, CorrectionValues, amount_values, reading_values, LineItem, LineType,
  electricity, adjustment, Usage, is_issued,
}
use tenora.Property.Db.{Db, Action, refuse_if, conflict_if, missing_if, audit, notify}
use tenora.Property.Constraints.{save_bill, insert_line, insert_correction}
use tenora.Property.Calculations.{billed_units, charge_cents}
use tenora.Property.Bills.{recompute_totals, settle_status, next_order, line_of, user_of}

-- The keys that `uuid4` gives to the new rows.
pub record Keys : Type 0 where
  pub correction : ℕ
  pub line : ℕ

-- What a correction changes, and what it leaves on record.
pub record Change : Type 0 where
  pub delta : ℤ
  pub original : CorrectionValues
  pub corrected : CorrectionValues
  pub quantity : Option ℤ
  pub unit_price : Option ℤ

-- The ADJUSTMENT line of a correction.
unfoldable pub add_adjustment : Keys → ℕ → Change → Exec {0} Db Unit
unfolding insert_line
add_adjustment keys pk c = do
  order ← gets (λ db. next_order pk db.line_items)
  insert_line keys.line (record {
    bill = pk;
    type = adjustment;
    quantity = c.quantity;
    unit_price_cents = c.unit_price;
    amount_cents = c.delta;
    usage = none;
    correction = some keys.correction;
    sort_order = order;
  })

-- `_apply`
unfoldable pub apply_correction : Keys → ℕ → ℕ → Bill → String → Change → Exec {0} Db ℕ
unfolding add_adjustment insert_correction recompute_totals settle_status save_bill
apply_correction keys actor pk bill reason c = do
  let new_total = bill.total_cents +ℤ c.delta
  refuse_if (ltb_ℤ new_total (pos 0) || ltb_ℤ new_total bill.amount_paid_cents)
      correction_below_paid
  insert_correction keys.correction (record {
    tenant = bill.tenant;
    bill = pk;
    reason = reason;
    original_values = c.original;
    corrected_values = c.corrected;
    amount_delta_cents = c.delta;
    actor = actor;
  })
  when (not (eqb_ℤ c.delta (pos 0))) (add_adjustment keys pk c)
  bill ← recompute_totals pk bill
  save_bill pk (settle_status bill)
  audit actor bill.tenant Action.bill_corrected pk
  user ← user_of bill
  notify user Kind.bill_corrected bill.tenant (bill_ref pk ∷ [])
  pure keys.correction

-- The change of a total by an amount.
abbrev pub amount_change : Bill → ℤ → Change
amount_change bill delta = record {
  delta = delta;
  original = amount_values bill.total_cents;
  corrected = amount_values (bill.total_cents +ℤ delta);
  quantity = none;
  unit_price = none;
}

unfoldable pub adjust_amount : Keys → ℕ → ℕ → ℤ → String → Exec {0} Db ℕ
adjust_amount keys actor pk delta reason = do
  refuse_if (not (is_given reason)) reason_required
  refuse_if (eqb_ℤ delta (pos 0)) amount_required
  atomic do
    bill ← gets (λ db. lookup pk db.bills)
    bill ← require bill
    conflict_if (not (is_issued bill.status)) bill_not_published
    apply_correction keys actor pk bill (strip reason) (amount_change bill delta)

-- What is billed on an electricity line now: closing reading, units and amount.
pub record Effective : Type 0 where
  pub closing : ℤ
  pub units : ℤ
  pub amount : ℤ

abbrev pub effective_of : ℕ → ℕ → BillCorrection → Option Effective
effective_of pk line_pk c = elim c.corrected_values [
  | amount_values _ ↦ none
  | reading_values line closing units amount ↦
      if c.bill == pk && line == line_pk
      then some (record { closing = closing; units = units; amount = amount })
      else none
]

abbrev pub or_later : Option Effective → Option Effective → Option Effective
or_later earlier (some e) = some e
or_later earlier none = earlier

-- The latest reading correction of a line: rows are created in the order of the table.
unfoldable pub last_correction : ℕ → ℕ → Table BillCorrection → Option Effective
last_correction pk line_pk [] = none
last_correction pk line_pk ((_, c) ∷ rows) =
    or_later (effective_of pk line_pk c) (last_correction pk line_pk rows)

-- The electricity line under a key, with the calculation that it keeps.
unfoldable pub electricity_line : ℕ → ℕ → Table LineItem → Option (LineItem × Usage)
unfolding line_of
electricity_line pk line_pk lines = elim (line_of pk line_pk lines) [
  | none ↦ none
  | some line ↦ elim line.type [
    | electricity ↦ elim line.usage [ none ↦ none | some u ↦ some (line, u) ]
    | _ ↦ none
  ]
]

abbrev pub or_zero : Option ℤ → ℤ
or_zero none = pos 0
or_zero (some v) = v

-- What the line bills: by its latest correction, or as it was generated.
unfoldable pub effective : LineItem → Usage → Option Effective → Effective
effective line u (some e) = e
effective line u none = record {
  closing = u.closing_reading_value;
  units = or_zero line.quantity;
  amount = line.amount_cents;
}

-- The change that billing `units` instead of what is in effect makes.
unfoldable pub reading_change : ℕ → LineItem → Effective → ℤ → ℤ → Change
reading_change line_pk line e closing units =
    let amount = charge_cents units (or_zero line.unit_price_cents) in
    record {
      delta = amount -ℤ e.amount;
      original = reading_values line_pk e.closing e.units e.amount;
      corrected = reading_values line_pk closing units amount;
      quantity = some (units -ℤ e.units);
      unit_price = line.unit_price_cents;
    }

-- `correct_reading` behind the search for the line.
unfoldable pub correct_line :
    Keys → ℕ → ℕ → Bill → ℕ → LineItem × Usage → ℤ → String → Exec {0} Db ℕ
unfolding effective
correct_line keys actor pk bill line_pk (line, u) closing reason = do
  previous ← gets (λ db. last_correction pk line_pk db.corrections)
  let e = effective line u previous
  units ←
      or_raise (billed_units u.opening_reading_value closing u.multiplier)
        (domain negative_consumption 400)
  refuse_if (eqb_ℤ closing e.closing) correction_unchanged
  apply_correction keys actor pk bill (strip reason) (reading_change line_pk line e closing units)

unfoldable pub correct_reading : Keys → ℕ → ℕ → ℕ → ℤ → String → Exec {0} Db ℕ
correct_reading keys actor pk line_pk closing reason = do
  refuse_if (not (is_given reason)) reason_required
  atomic do
    bill ← gets (λ db. lookup pk db.bills)
    bill ← require bill
    conflict_if (not (is_issued bill.status)) bill_not_published
    found ← gets (λ db. electricity_line pk line_pk db.line_items)
    found ← or_raise found (domain not_found 404)
    correct_line keys actor pk bill line_pk found closing reason
