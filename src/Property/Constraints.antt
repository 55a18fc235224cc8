-- ===== src/Property/Constraints.antt =====
-- The constraints of the tables (the `Meta.constraints` of apps/properties/models.py and the
-- primary keys), and the writes that raise `IntegrityError` where one is violated.
use tenora.Base.{
  ℕ, String, Bool, true, false, not, ◌&&◌, ◌||◌, Option, none, some, ◌==◌, is_some, if◌then◌else◌,
}
use tenora.Base.Int.{pos, ltb_ℤ, leb_ℤ, eqb_ℤ}
use tenora.Base.Table.{Table, lookup, save, exists, exists_other}
use tenora.Base.Text.{same_text, is_empty}
use tenora.Exec.{Exec, ok, err, integrity}
use tenora.Property.Rows.{
  Bill, LineItem, Payment, Receipt, DocumentNumber, same_number, BillCorrection, is_cancelled,
}
use tenora.Property.Db.{Db}

abbrev pub same_option : Option ℕ → Option ℕ → Bool
same_option (some a) (some b) = a == b
same_option none none = true
same_option _ _ = false

abbrev pub has_number : DocumentNumber → Option DocumentNumber → Bool
has_number n none = false
has_number n (some m) = same_number m n

-- unique_bill_per_unit_resident_period, over the bills that are not cancelled
abbrev pub same_period : Bill → Bill → Bool
same_period b o =
    not (is_cancelled o.status)
    && (o.unit == b.unit && (o.resident == b.resident && o.period_start == b.period_start))

-- unique_bill_number, over the numbers that are not blank
abbrev pub same_bill_number : Bill → Bill → Bool
same_bill_number b o = elim b.bill_number [
  | none ↦ false
  | some n ↦ o.tenant == b.tenant && has_number n o.bill_number
]

-- bill_paid_non_negative and bill_paid_not_above_total
abbrev pub bad_amounts : Bill → Bool
bad_amounts b =
    ltb_ℤ b.amount_paid_cents (pos 0)
    || not (leb_ℤ b.amount_paid_cents b.total_cents) && not (eqb_ℤ b.amount_paid_cents (pos 0))

unfoldable pub bill_violates : ℕ → Bill → Table Bill → Bool
bill_violates pk b bills =
    bad_amounts b
    || not (is_cancelled b.status) && exists_other pk (same_period b) bills
    || exists_other pk (same_bill_number b) bills

unfoldable pub save_bill : ℕ → Bill → Exec {0} Db Unit
save_bill pk b db =
    if bill_violates pk b db.bills
    then (err integrity, db)
    else (ok tt, record db { bills = save pk b db.bills })

unfoldable pub insert_bill : ℕ → Bill → Exec {0} Db Unit
unfolding save_bill
insert_bill pk b db =
    if is_some (lookup pk db.bills) then (err integrity, db) else save_bill pk b db

unfoldable pub insert_line : ℕ → LineItem → Exec {0} Db Unit
insert_line pk line db =
    if is_some (lookup pk db.line_items)
    then (err integrity, db)
    else (ok tt, record db { line_items = save pk line db.line_items })

unfoldable pub insert_correction : ℕ → BillCorrection → Exec {0} Db Unit
insert_correction pk c db =
    if is_some (lookup pk db.corrections)
    then (err integrity, db)
    else (ok tt, record db { corrections = save pk c db.corrections })

-- unique_payment_idempotency_key and unique_payment_reference, of the texts that are not blank
abbrev pub has_key : ℕ → String → Payment → Bool
has_key tenant key p = p.tenant == tenant && same_text p.idempotency_key key

abbrev pub has_reference : ℕ → String → Payment → Bool
has_reference tenant reference p = p.tenant == tenant && same_text p.reference reference

unfoldable pub payment_violates : Payment → Table Payment → Bool
payment_violates p payments =
    leb_ℤ p.amount_cents (pos 0)
    || not (is_empty p.idempotency_key) && exists (has_key p.tenant p.idempotency_key) payments
    || not (is_empty p.reference) && exists (has_reference p.tenant p.reference) payments

unfoldable pub insert_payment : ℕ → Payment → Exec {0} Db Unit
insert_payment pk p db =
    if is_some (lookup pk db.payments) || payment_violates p db.payments
    then (err integrity, db)
    else (ok tt, record db { payments = save pk p db.payments })

-- unique_receipt_number, and the one-to-one key to the payment
unfoldable pub receipt_violates : Receipt → Table Receipt → Bool
receipt_violates r receipts =
    exists (λ o. o.tenant == r.tenant && same_number o.receipt_number r.receipt_number) receipts
    || exists (λ o. o.payment == r.payment) receipts

unfoldable pub insert_receipt : ℕ → Receipt → Exec {0} Db Unit
insert_receipt pk r db =
    if is_some (lookup pk db.receipts) || receipt_violates r db.receipts
    then (err integrity, db)
    else (ok tt, record db { receipts = save pk r db.receipts })
