-- ===== src/Property/Payments/Record.antt =====
-- `PaymentService.record` of apps/properties/services.py on every branch, and the books.
use tenora.Base.{
  ℕ, Bool, true, false, not, ◌||◌, ◌≡◌, refl, Option, none, some, ◌==◌, arith, Bool-cases, inl, inr,
  Option-cases,
}
use tenora.Base.Int.{eqb_ℤ}
use tenora.Base.Table.{lookup, find_first}
use tenora.Exec.{Result, ok, err}
use tenora.Property.Rows.{Bill, Payment}
use tenora.Property.Db.{Db, Clock}
use tenora.Property.Constraints.{has_key}
use tenora.Property.Payments.{Keys, Request, payment_of, matching, existing_for_key, record_payment}
use tenora.Property.Payments.Apply.{Outcome, record_locked-Outcome}
use tenora.Property.Books.{Booked}
use tenora.Property.Books.Writes.{credit-IsBooked}

-- The search for an earlier request writes nothing, and finds a payment of the same bill and amount.
abbrev Found : Request → Option (ℕ × Payment) → Db → Result (Option ℕ) × Db → Type 0
Found r o db (err e, db') = db' ≡ db
Found r o db (ok none, db') = db' ≡ db
Found r o db (ok (some pk), db') =
    (db' ≡ db)
    × ((p : Payment) × (o ≡ some (pk, p)) × (p.bill ≡ r.bill) × (p.amount_cents ≡ r.amount_cents))

matching-Found : (r : Request) (o : Option (ℕ × Payment)) (db : Db) → Found r o db (matching r o db)
unfolding matching
matching-Found r none db = refl
matching-Found r (some (pk, p)) db =
    elim (Bool-cases (not (p.bill == r.bill) || not (eqb_ℤ p.amount_cents r.amount_cents))) [
      | inl t ↦ rw t (refl {A = Db})
      | inr t ↦ rw t (refl, (p, refl, ground arith, ground arith))
    ]

existing-Found :
    (r : Request) (db : Db)
    → Found r
        (find_first (has_key r.tenant r.idempotency_key) db.payments)
        db
        (existing_for_key r db)
unfolding existing_for_key
existing-Found r db =
    matching-Found r (find_first (has_key r.tenant r.idempotency_key) db.payments) db

-- For a bill that is there, PaymentService.record either raises and writes nothing; or answers an
-- earlier payment with the same request key, bill and amount and writes nothing; or stores a new
-- payment that is positive and no more than what is due on an open bill, and raises the amount
-- paid by it.
pub record_payment-Outcome :
    (clock : Clock) (keys : Keys) (r : Request) (b : Bill) (db : Db)
    → lookup r.bill db.bills ≡ some b
    → Outcome keys r b db (record_payment clock keys r db)
unfolding record_payment
record_payment-Outcome clock keys r b db e =
    ground (arith, existing-Found r db, record_locked-Outcome clock keys r b db e)

record_missing :
    (clock : Clock) (keys : Keys) (r : Request) (db : Db)
    → lookup r.bill db.bills ≡ none
    → (record_payment clock keys r db).1 ≡ db
unfolding record_payment
record_missing clock keys r db e = ground arith

-- From the outcome of a call alone: the books stay in order.
Outcome-Booked :
    (keys : Keys) (r : Request) (b : Bill) (db : Db) (o : Result (ℕ × Bool) × Db)
    → Booked db
    → lookup r.bill db.bills ≡ some b
    → Outcome keys r b db o
    → Booked o.1
Outcome-Booked keys r b db (err e, db') h there o = rw o h
Outcome-Booked keys r b db (ok (pk, false), db') h there o = rw o.0 h
Outcome-Booked keys r b db (ok (pk, true), db') h there
      (_, open_bill, due, (_, fresh, positive, eb, ep, el)) =
    rw (eb, ep, el)
      (credit-IsBooked db.bills db.payments db.line_items r.bill keys.payment b (payment_of r b) h
        there fresh refl refl positive due open_bill)

-- If every bill agrees with its lines and its payments, and every payment is positive, then this
-- still holds after PaymentService.record, whichever way the call ends.
pub record_payment-Booked :
    (clock : Clock) (keys : Keys) (r : Request) (db : Db)
    → Booked db
    → Booked (record_payment clock keys r db).1
record_payment-Booked clock keys r db h = elim (Option-cases (lookup r.bill db.bills)) [
  | inl e ↦ rw (record_missing clock keys r db e) h
  | inr (b, e) ↦
      Outcome-Booked keys r b db (record_payment clock keys r db) h e
        (record_payment-Outcome clock keys r b db e)
]
