-- ===== src/Property/Bills.antt =====
-- `BillService` of apps/properties/services.py, but for the generation of bills.
pub mod Edit
pub mod Issue
use tenora.Base.{
  ℕ, String, Bool, true, false, not, ◌&&◌, ◌||◌, Option, none, some, List, [], ◌∷◌, ◌+◌, ◌==◌,
  is_some, ltb, if◌then◌else◌,
}
use tenora.Base.Int.{ℤ, pos, ◌+ℤ◌, ◌-ℤ◌, ltb_ℤ, leb_ℤ, eqb_ℤ}
use tenora.Base.Table.{Table, lookup, save, erase, exists, sum_by}
use tenora.Base.Text.{strip, is_given}
use tenora.Exec.{
  Exec, Result, ok, err, domain, Code, does_not_exist, pure, raise, gets, require, atomic, when,
  modify, raise_if, ◌>>=◌, ◌>>◌, negative_total, line_type_not_manual, amount_required,
  amount_positive, bill_not_draft, not_found, bill_cancelled, bill_has_payments, reason_required,
}
use tenora.Notifications.{Kind, bill_ref}
use tenora.Property.Rows.{
  Bill, BillStatus, draft, published, partially_paid, paid, cancelled, LineItem, LineType, rent,
  electricity, maintenance, other_charge, discount, adjustment, late_fee, is_charge, is_draft,
  is_cancelled, is_issued, Payment, is_voided, DocumentNumber, Resident,
}
use tenora.Property.Db.{
  Db, Clock, Action, refuse_if, conflict_if, missing_if, audit, notify, next_value, bill_sequence,
}
use tenora.Property.Constraints.{save_bill, insert_line}
use tenora.Property.Calendar.{year_of}

-- The amount that a line adds to the charges of a bill, and to its adjustments.
abbrev pub charge_of : ℕ → LineItem → ℤ
charge_of bill line = if line.bill == bill && is_charge line.type then line.amount_cents else pos 0

abbrev pub adjustment_of : ℕ → LineItem → ℤ
adjustment_of bill line =
    if line.bill == bill && not (is_charge line.type) then line.amount_cents else pos 0

unfoldable pub recompute_totals : ℕ → Bill → Exec {0} Db Bill
recompute_totals pk bill db =
    let charges = sum_by (charge_of pk) db.line_items in
    let adjustments = sum_by (adjustment_of pk) db.line_items in
    let total = charges +ℤ adjustments in
    (do
      refuse_if (ltb_ℤ total (pos 0)) negative_total
      pure (record bill {
        subtotal_cents = charges;
        adjustments_cents = adjustments;
        total_cents = total;
      }))
      db

unfoldable pub settled : BillStatus → ℤ → ℤ → BillStatus
settled draft paid_cents total = draft
settled cancelled paid_cents total = cancelled
settled _ paid_cents total =
    if leb_ℤ paid_cents (pos 0)
    then (if eqb_ℤ total (pos 0) then paid else published)
    else if leb_ℤ total paid_cents
    then paid
    else partially_paid

unfoldable pub settle_status : Bill → Bill
unfolding settled
settle_status bill = record bill {
  status = settled bill.status bill.amount_paid_cents bill.total_cents;
}

-- MANUAL_LINE_TYPES
abbrev pub is_manual : LineType → Bool
is_manual rent = false
is_manual electricity = false
is_manual _ = true

abbrev pub is_adjustment : LineType → Bool
is_adjustment adjustment = true
is_adjustment _ = false

-- A discount is stored as a negative amount: `-abs(amount_cents)`.
unfoldable pub stored_amount : LineType → ℤ → ℤ
stored_amount discount amount = if ltb_ℤ amount (pos 0) then amount else pos 0 -ℤ amount
stored_amount _ amount = amount

-- The next `sort_order` of a bill: one more than the last line's, from 0.
unfoldable pub next_order : ℕ → Table LineItem → ℕ
next_order bill [] = 0
next_order bill ((_, line) ∷ lines) =
    let rest = next_order bill lines in
    if line.bill == bill
    then (if ltb line.sort_order rest then rest else line.sort_order + 1)
    else rest

-- `add_line_item`; `line_pk` is the key that `uuid4` gives the new row.
unfoldable pub add_line_item : ℕ → ℕ → ℕ → LineType → ℤ → Option ℤ → Option ℤ → Exec {0} Db ℕ
unfolding recompute_totals stored_amount save_bill insert_line
add_line_item line_pk actor pk type amount_cents quantity unit_price_cents = do
  refuse_if (not (is_manual type)) line_type_not_manual
  refuse_if (is_adjustment type && eqb_ℤ amount_cents (pos 0)) amount_required
  refuse_if (not (is_adjustment type) && leb_ℤ amount_cents (pos 0)) amount_positive
  atomic do
    bill ← gets (λ db. lookup pk db.bills)
    bill ← require bill
    conflict_if (not (is_draft bill.status)) bill_not_draft
    order ← gets (λ db. next_order pk db.line_items)
    insert_line line_pk (record {
      bill = pk;
      type = type;
      quantity = quantity;
      unit_price_cents = unit_price_cents;
      amount_cents = stored_amount type amount_cents;
      usage = none;
      correction = none;
      sort_order = order;
    })
    bill ← recompute_totals pk bill
    save_bill pk bill
    audit actor bill.tenant Action.bill_line_item_added pk
    pure line_pk

-- The line of a bill under a key.
unfoldable pub line_of : ℕ → ℕ → Table LineItem → Option LineItem
line_of pk line_pk lines = elim (lookup line_pk lines) [
  | none ↦ none
  | some line ↦ if line.bill == pk then some line else none
]

unfoldable pub remove_line_item : ℕ → ℕ → ℕ → Exec {0} Db ℕ
unfolding recompute_totals save_bill line_of
remove_line_item actor pk line_pk = atomic do
  bill ← gets (λ db. lookup pk db.bills)
  bill ← require bill
  conflict_if (not (is_draft bill.status)) bill_not_draft
  line ← gets (λ db. line_of pk line_pk db.line_items)
  missing_if (not (is_some line)) not_found
  modify (λ db. record db { line_items = erase line_pk db.line_items })
  bill ← recompute_totals pk bill
  save_bill pk bill
  audit actor bill.tenant Action.bill_line_item_removed pk
  pure pk

-- `bill.resident.user`
abbrev pub user_of : Bill → Exec {0} Db ℕ
user_of bill = do
  resident ← gets (λ db. lookup bill.resident db.residents)
  resident ← require resident
  pure resident.user

-- The part of `publish` behind the two tests of the status.
unfoldable pub publish_draft : Clock → ℕ → ℕ → Bill → Exec {0} Db ℕ
unfolding next_value settle_status save_bill
publish_draft clock actor pk bill = do
  number ← next_value bill.tenant bill_sequence
  let bill = settle_status (record bill {
    bill_number = some (record { year = year_of bill.period_start; number = number });
    published_at = some clock.now;
    status = published;
  })
  save_bill pk bill
  audit actor bill.tenant Action.bill_published pk
  user ← user_of bill
  notify user Kind.bill_published bill.tenant (bill_ref pk ∷ [])
  pure pk

unfoldable pub publish : Clock → ℕ → ℕ → Exec {0} Db ℕ
unfolding publish_draft
publish clock actor pk = atomic do
  bill ← gets (λ db. lookup pk db.bills)
  bill ← require bill
  if is_issued bill.status then pure pk else do
    conflict_if (is_cancelled bill.status) bill_cancelled
    publish_draft clock actor pk bill

-- `bill.payments.filter(status=COMPLETED).exists()`
abbrev pub has_completed_payment : ℕ → Table Payment → Bool
has_completed_payment pk = exists (λ p. p.bill == pk && not (is_voided p.status))

unfoldable pub cancel : Clock → ℕ → ℕ → String → Exec {0} Db ℕ
unfolding save_bill
cancel clock actor pk reason = do
  refuse_if (not (is_given reason)) reason_required
  atomic do
    bill ← gets (λ db. lookup pk db.bills)
    bill ← require bill
    if is_cancelled bill.status then pure pk else do
      has_payment ← gets (λ db. has_completed_payment pk db.payments)
      conflict_if (ltb_ℤ (pos 0) bill.amount_paid_cents || has_payment) bill_has_payments
      save_bill pk (record bill {
        status = cancelled;
        cancelled_at = some clock.now;
        cancellation_reason = strip reason;
      })
      audit actor bill.tenant Action.bill_cancelled pk
      user ← user_of bill
      when (is_some bill.published_at)
          (notify user Kind.bill_cancelled bill.tenant (bill_ref pk ∷ []))
      pure pk
