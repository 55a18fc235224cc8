-- ===== src/Property/Payments.antt =====
-- `PaymentService` and `ReceiptService` of apps/properties/services.py.
pub mod Apply
pub mod Record
pub mod Void
use tenora.Base.{
  ℕ, String, Bool, true, false, not, ◌&&◌, ◌||◌, Option, none, some, List, [], ◌∷◌, ◌==◌, is_some,
  ltb, if◌then◌else◌,
}
use tenora.Base.Int.{ℤ, pos, ◌+ℤ◌, ◌-ℤ◌, ltb_ℤ, leb_ℤ, eqb_ℤ}
use tenora.Base.Table.{Table, lookup, save, find_first}
use tenora.Base.Text.{strip, is_given, is_empty}
use tenora.Exec.{
  Exec, Result, ok, err, domain, pure, raise, gets, require, lift, atomic, except_integrity, modify,
  ◌>>=◌, ◌>>◌, not_found, reason_required, idempotency_key_reused, amount_positive,
  payment_date_in_future, bill_not_payable, overpayment, duplicate_payment_reference,
  online_payment_not_voidable,
}
use tenora.Notifications.{Kind, bill_ref, payment_ref, receipt_ref}
use tenora.Property.Rows.{
  Bill, Payment, Receipt, Method, is_online, completed, voided, is_voided, is_open_status,
  DocumentNumber,
}
use tenora.Property.Db.{
  Db, Clock, Action, refuse_if, conflict_if, missing_if, audit, notify, notify_all, owners,
  next_value, receipt_sequence,
}
use tenora.Property.Constraints.{insert_payment, insert_receipt, save_bill, has_key}
use tenora.Property.Bills.{settle_status, user_of}

-- The keys that `uuid4` gives to the new rows.
pub record Keys : Type 0 where
  pub payment : ℕ
  pub receipt : ℕ

pub record Request : Type 0 where
  pub actor : ℕ
  pub tenant : ℕ
  pub bill : ℕ
  pub amount_cents : ℤ
  pub payment_date : ℕ
  pub method : Method
  pub reference : String
  pub notes : String
  pub idempotency_key : String

-- `ReceiptService.issue`
unfoldable pub issue : Clock → ℕ → ℕ → Payment → Bill → Exec {0} Db ℕ
unfolding next_value insert_receipt
issue clock pk payment_pk payment bill = do
  number ← next_value bill.tenant receipt_sequence
  insert_receipt pk (record {
    tenant = bill.tenant;
    bill = payment.bill;
    payment = payment_pk;
    receipt_number = record { year = clock.year; number = number };
    issued_at = clock.now;
    amount_cents = payment.amount_cents;
    currency = payment.currency;
    resident_name = bill.resident_name;
    unit_identifier = bill.unit_identifier;
    property_name = bill.property_name;
    bill_number = bill.bill_number;
    payment_method = payment.method;
  })
  pure pk

-- A payment found under the key of a request: of the same bill and amount, or the key is reused.
unfoldable pub matching : Request → Option (ℕ × Payment) → Exec {0} Db (Option ℕ)
matching r none db = (ok none, db)
matching r (some (pk, existing)) db =
    if not (existing.bill == r.bill) || not (eqb_ℤ existing.amount_cents r.amount_cents)
    then (err (domain idempotency_key_reused 409), db)
    else (ok (some pk), db)

-- `_existing_for_key`
unfoldable pub existing_for_key : Request → Exec {0} Db (Option ℕ)
unfolding matching
existing_for_key r = do
  found ← gets (λ db. find_first (has_key r.tenant r.idempotency_key) db.payments)
  matching r found

abbrev pub payment_of : Request → Bill → Payment
payment_of r bill = record {
  tenant = r.tenant;
  bill = r.bill;
  resident = bill.resident;
  amount_cents = r.amount_cents;
  currency = bill.currency;
  payment_date = r.payment_date;
  method = r.method;
  status = completed;
  reference = r.reference;
  notes = r.notes;
  idempotency_key = r.idempotency_key;
  recorded_by = r.actor;
  voided_at = none;
  void_reason = "";
}

-- The writes of `record` behind its checks, up to the receipt.
unfoldable pub apply_payment : Clock → Keys → Request → Bill → Exec {0} Db Bill
unfolding insert_payment settle_status save_bill issue
apply_payment clock keys r bill = do
  let payment = payment_of r bill
  atomic (insert_payment keys.payment payment)
  let credited =
      settle_status (record bill { amount_paid_cents = bill.amount_paid_cents +ℤ r.amount_cents })
  save_bill r.bill credited
  issue clock keys.receipt keys.payment payment credited
  pure credited

-- The audit events and the notifications of `record`.
unfoldable pub announce_payment : Keys → Request → Bill → Exec {0} Db Unit
announce_payment keys r bill = do
  audit r.actor r.tenant Action.payment_recorded keys.payment
  audit r.actor r.tenant Action.receipt_issued keys.receipt
  user ← user_of bill
  notify user Kind.payment_recorded r.tenant (bill_ref r.bill ∷ payment_ref keys.payment ∷ [])
  notify user Kind.receipt_issued r.tenant (receipt_ref keys.receipt ∷ bill_ref r.bill ∷ [])
  others ← gets (λ db. owners r.tenant r.actor db.memberships)
  modify λ db. record db {
    inbox =
        notify_all others Kind.payment_recorded r.tenant
          (bill_ref r.bill ∷ payment_ref keys.payment ∷ []) db.inbox;
  }

-- The `try` block of `record`.
unfoldable pub record_locked : Clock → Keys → Request → Exec {0} Db (ℕ × Bool)
unfolding apply_payment announce_payment
record_locked clock keys r = atomic do
  bill ← gets (λ db. lookup r.bill db.bills)
  bill ← require bill
  conflict_if (not (is_open_status bill.status)) bill_not_payable
  refuse_if (ltb_ℤ (bill.total_cents -ℤ bill.amount_paid_cents) r.amount_cents) overpayment
  bill ← apply_payment clock keys r bill
  announce_payment keys r bill
  pure (keys.payment, true)

-- The answer to a request whose key is known, or what follows.
abbrev pub or_existing : Option ℕ → Exec {0} Db (ℕ × Bool) → Exec {0} Db (ℕ × Bool)
or_existing found next db = elim found [ some pk ↦ (ok (pk, false), db) | none ↦ next db ]

abbrev pub existing_if_given : Request → Exec {0} Db (Option ℕ)
existing_if_given r db = if is_empty r.idempotency_key then (ok none, db) else existing_for_key r db

-- `PaymentService.record`: the payment's key, and whether it was created.
unfoldable pub record_payment : Clock → Keys → Request → Exec {0} Db (ℕ × Bool)
record_payment clock keys r = do
  bill ← gets (λ db. lookup r.bill db.bills)
  bill ← require bill
  missing_if (not (bill.tenant == r.tenant)) not_found
  existing ← existing_if_given r
  or_existing existing do
    refuse_if (leb_ℤ r.amount_cents (pos 0)) amount_positive
    refuse_if (ltb clock.today r.payment_date) payment_date_in_future
    except_integrity (record_locked clock keys r) do
      existing ← existing_if_given r
      or_existing existing (raise (domain duplicate_payment_reference 409))

-- The writes of `void` behind its checks.
unfoldable pub reverse_payment : Clock → ℕ → Payment → Bill → String → Exec {0} Db Unit
unfolding settle_status save_bill
reverse_payment clock pk payment bill reason = do
  let voided_payment = record payment {
    status = voided;
    voided_at = some clock.now;
    void_reason = strip reason;
  }
  modify (λ db. record db { payments = save pk voided_payment db.payments })
  save_bill payment.bill (
      settle_status
        (record bill { amount_paid_cents = bill.amount_paid_cents -ℤ payment.amount_cents }))

-- `PaymentService.void`
unfoldable pub void_payment : Clock → ℕ → ℕ → String → Exec {0} Db ℕ
unfolding reverse_payment
void_payment clock actor pk reason = do
  refuse_if (not (is_given reason)) reason_required
  atomic do
    payment ← gets (λ db. lookup pk db.payments)
    payment ← require payment
    bill ← gets (λ db. lookup payment.bill db.bills)
    bill ← require bill
    if is_voided payment.status then pure pk else do
      conflict_if (is_online payment.method) online_payment_not_voidable
      reverse_payment clock pk payment bill reason
      audit actor bill.tenant Action.payment_voided pk
      user ← user_of bill
      notify user Kind.payment_voided bill.tenant (bill_ref payment.bill ∷ [])
      pure pk
