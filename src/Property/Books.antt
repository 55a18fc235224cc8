-- ===== src/Property/Books.antt =====
-- The invariant of the books: what the bills of apps/properties/models.py promise about their
-- lines and their payments ("every total is derivable from its visible line items"), over the
-- three tables that it speaks of.
pub mod Writes
pub mod Lines
use tenora.Base.{ℕ, Bool, true, false, not, ◌&&◌, ◌≡◌, Option, none, some, ◌==◌, if◌then◌else◌}
use tenora.Base.Int.{ℤ, pos, ◌+ℤ◌, ◌≤ℤ◌, ◌<ℤ◌}
use tenora.Base.Table.{Table, lookup, sum_by}
use tenora.Property.Rows.{Bill, BillStatus, Payment, LineItem, is_voided, is_issued}
use tenora.Property.Db.{Db}
use tenora.Property.Bills.{charge_of, adjustment_of, settled}

-- What a payment adds to the amount paid on a bill.
abbrev pub paid_of : ℕ → Payment → ℤ
paid_of bill p = if p.bill == bill && not (is_voided p.status) then p.amount_cents else pos 0

-- A bill agrees with its lines and its payments, and its status with its amounts.
pub record IsBalanced (payments : Table Payment) (lines : Table LineItem) (pk : ℕ) (b : Bill)
    : Type 0 where
  pub paid : b.amount_paid_cents ≡ sum_by (paid_of pk) payments
  pub charges : b.subtotal_cents ≡ sum_by (charge_of pk) lines
  pub adjustments : b.adjustments_cents ≡ sum_by (adjustment_of pk) lines
  pub total : b.total_cents ≡ b.subtotal_cents +ℤ b.adjustments_cents
  pub not_negative : pos 0 ≤ℤ b.amount_paid_cents
  pub not_overpaid : b.amount_paid_cents ≤ℤ b.total_cents
  pub settles : settled b.status b.amount_paid_cents b.total_cents ≡ b.status
  pub unissued : is_issued b.status ≡ false → b.amount_paid_cents ≡ pos 0

-- No payment and no line counts for a bill that is not there.
pub record IsUnused (payments : Table Payment) (lines : Table LineItem) (pk : ℕ) : Type 0 where
  pub paid : sum_by (paid_of pk) payments ≡ pos 0
  pub charges : sum_by (charge_of pk) lines ≡ pos 0
  pub adjustments : sum_by (adjustment_of pk) lines ≡ pos 0

pub record IsBooked (bills : Table Bill) (payments : Table Payment) (lines : Table LineItem)
    : Type 0 where
  pub balanced : (pk : ℕ) (b : Bill) → lookup pk bills ≡ some b → IsBalanced payments lines pk b
  pub unused : (pk : ℕ) → lookup pk bills ≡ none → IsUnused payments lines pk
  pub positive : (pk : ℕ) (p : Payment) → lookup pk payments ≡ some p → pos 0 <ℤ p.amount_cents

-- The books of a database are in order.
abbrev pub Booked : Db → Type 0
Booked db = IsBooked db.bills db.payments db.line_items
