-- ===== src/Property/Payments/Void.antt =====
-- `PaymentService.void` of apps/properties/services.py on every branch, and the books.
use tenora.Base.{ℕ, String, true, false, ◌≡◌, refl, none, some, arith, Option-cases, inl, inr, ◌⊎◌}
use tenora.Base.Int.{pos, ◌-ℤ◌, ◌≤ℤ◌}
use tenora.Base.Table.{lookup, save}
use tenora.Base.Text.{strip}
use tenora.Exec.{Result, ok, err}
use tenora.Property.Rows.{Bill, Payment, voided, is_voided, is_online}
use tenora.Property.Db.{Db, Clock}
use tenora.Property.Bills.{settle_status}
use tenora.Property.Constraints.{bill_violates}
use tenora.Property.Payments.{void_payment}
use tenora.Property.Books.{Booked}
use tenora.Property.Books.Writes.{debit-IsBooked}

-- The bill after a payment on it is voided, and the payment.
abbrev pub debited : Payment → Bill → Bill
debited p b = settle_status (record b { amount_paid_cents = b.amount_paid_cents -ℤ p.amount_cents })

abbrev pub voided_row : Clock → String → Payment → Payment
voided_row clock reason p = record p {
  status = voided;
  voided_at = some clock.now;
  void_reason = strip reason;
}

-- What a call has done to a payment `p` on the bill `b`: an error, or a payment that was voided
-- before, and nothing is written; or the payment is voided and the bill owes its amount again.
abbrev pub Outcome : Clock → ℕ → String → Payment → Bill → Db → Result ℕ × Db → Type 0
Outcome clock pk reason p b db (err e, db') = db' ≡ db
Outcome clock pk reason p b db (ok _, db') =
    (is_voided p.status ≡ true) × (db' ≡ db)
    ⊎ (is_voided p.status ≡ false)
      × (is_online p.method ≡ false)
      × (bill_violates p.bill (debited p b) db.bills ≡ false)
      × (db'.bills ≡ save p.bill (debited p b) db.bills)
      × (db'.payments ≡ save pk (voided_row clock reason p) db.payments)
      × (db'.line_items ≡ db.line_items)

pub void_payment-Outcome :
    (clock : Clock) (actor pk : ℕ) (reason : String) (p : Payment) (b : Bill) (db : Db)
    → lookup pk db.payments ≡ some p
    → lookup p.bill db.bills ≡ some b
    → Outcome clock pk reason p b db (void_payment clock actor pk reason db)
unfolding void_payment
void_payment-Outcome clock actor pk reason p b db e f = ground arith

void_missing :
    (clock : Clock) (actor pk : ℕ) (reason : String) (db : Db)
    → lookup pk db.payments ≡ none
    → (void_payment clock actor pk reason db).1 ≡ db
unfolding void_payment
void_missing clock actor pk reason db e = ground arith

void_missing_bill :
    (clock : Clock) (actor pk : ℕ) (reason : String) (p : Payment) (db : Db)
    → lookup pk db.payments ≡ some p
    → lookup p.bill db.bills ≡ none
    → (void_payment clock actor pk reason db).1 ≡ db
unfolding void_payment
void_missing_bill clock actor pk reason p db e f = ground arith

-- The constraint on the amount paid holds of a bill that is saved.
saved_low :
    (p : Payment) (b : Bill) (db : Db)
    → bill_violates p.bill (debited p b) db.bills ≡ false
    → pos 0 ≤ℤ b.amount_paid_cents -ℤ p.amount_cents
unfolding bill_violates settle_status
saved_low p b db h = ground arith

Outcome-Booked :
    (clock : Clock) (pk : ℕ) (reason : String) (p : Payment) (b : Bill) (db : Db)
    (o : Result ℕ × Db)
    → Booked db
    → lookup pk db.payments ≡ some p
    → lookup p.bill db.bills ≡ some b
    → Outcome clock pk reason p b db o
    → Booked o.1
Outcome-Booked clock pk reason p b db (err e, db') h found there o = rw o h
Outcome-Booked clock pk reason p b db (ok a, db') h found there (inl (_, same)) = rw same h
Outcome-Booked clock pk reason p b db (ok a, db') h found there (inr (live, _, fits, eb, ep, el)) =
    rw (eb, ep, el)
      (debit-IsBooked db.bills db.payments db.line_items pk b p (voided_row clock reason p) h there
        found refl refl live refl (saved_low p b db fits))

-- If the books are in order, they are in order after PaymentService.void, whichever way the call
-- ends.
pub void_payment-Booked :
    (clock : Clock) (actor pk : ℕ) (reason : String) (db : Db)
    → Booked db
    → Booked (void_payment clock actor pk reason db).1
void_payment-Booked clock actor pk reason db h = elim (Option-cases (lookup pk db.payments)) [
  | inl e ↦ rw (void_missing clock actor pk reason db e) h
  | inr (p, e) ↦ elim (Option-cases (lookup p.bill db.bills)) [
    | inl f ↦ rw (void_missing_bill clock actor pk reason p db e f) h
    | inr (b, f) ↦
        Outcome-Booked clock pk reason p b db (void_payment clock actor pk reason db) h e f
          (void_payment-Outcome clock actor pk reason p b db e f)
  ]
]
