-- ===== src/Property/Payments/Apply.antt =====
-- What a payment that goes through writes.
use tenora.Base.{ℕ, Bool, true, false, ◌≡◌, none, some, arith}
use tenora.Base.Int.{pos, ◌+ℤ◌, ◌-ℤ◌, ◌≤ℤ◌, ◌<ℤ◌}
use tenora.Base.Table.{Table, lookup, save, find_first}
use tenora.Base.Text.{is_empty}
use tenora.Exec.{Result, ok, err}
use tenora.Property.Rows.{Bill, Payment, is_open_status}
use tenora.Property.Db.{Db, Clock}
use tenora.Property.Constraints.{payment_violates, has_key}
use tenora.Property.Bills.{settle_status}
use tenora.Property.Payments.{
  Keys, Request, payment_of, apply_payment, announce_payment, record_locked,
}

-- The bill after a payment of an amount.
abbrev pub credited : Request → Bill → Bill
credited r b =
    settle_status (record b { amount_paid_cents = b.amount_paid_cents +ℤ r.amount_cents })

-- What the writes leave in the tables of the books, and that they raise otherwise.
abbrev pub Applied : Keys → Request → Bill → Db → Result Bill × Db → Type 0
Applied keys r b db (err e, db') = Unit
Applied keys r b db (ok c, db') =
    (c ≡ credited r b)
    × (lookup keys.payment db.payments ≡ none)
    × (pos 0 <ℤ r.amount_cents)
    × (db'.bills ≡ save r.bill (credited r b) db.bills)
    × (db'.payments ≡ save keys.payment (payment_of r b) db.payments)
    × (db'.line_items ≡ db.line_items)

payment_violates-amount :
    (p : Payment) (t : Table Payment) → payment_violates p t ≡ false → pos 0 <ℤ p.amount_cents
unfolding payment_violates
payment_violates-amount p t h = ground arith

pub apply_payment-Applied :
    (clock : Clock) (keys : Keys) (r : Request) (b : Bill) (db : Db)
    → Applied keys r b db (apply_payment clock keys r b db)
unfolding apply_payment
apply_payment-Applied clock keys r b db =
    ground (arith, payment_violates-amount (payment_of r b) db.payments)

-- The notices touch none of the tables of the books.
abbrev pub Untouched {ℓ} : {A : Type ℓ} → Db → Result A × Db → Type 0
Untouched db (_, db') =
    (db'.bills ≡ db.bills)
    × (db'.payments ≡ db.payments)
    × (db'.line_items ≡ db.line_items)
    × (db'.receipts ≡ db.receipts)

pub announce_payment-Untouched :
    (keys : Keys) (r : Request) (b : Bill) (db : Db) → Untouched db (announce_payment keys r b db)
unfolding announce_payment
announce_payment-Untouched keys r b db = ground arith

-- What a call that looks up the bill `b` has done: an error, and nothing is written; or a new
-- payment, within what is due on an open bill; or the payment of an earlier request with the key.
abbrev pub Outcome : Keys → Request → Bill → Db → Result (ℕ × Bool) × Db → Type 0
Outcome keys r b db (err e, db') = db' ≡ db
Outcome keys r b db (ok (pk, true), db') =
    (pk ≡ keys.payment)
    × (is_open_status b.status ≡ true)
    × (r.amount_cents ≤ℤ b.total_cents -ℤ b.amount_paid_cents)
    × Applied keys r b db (ok (credited r b), db')
Outcome keys r b db (ok (pk, false), db') =
    (db' ≡ db)
    × (is_empty r.idempotency_key ≡ false)
    × ((p : Payment) × (find_first (has_key r.tenant r.idempotency_key) db.payments ≡ some (pk, p))
        × (p.bill ≡ r.bill)
        × (p.amount_cents ≡ r.amount_cents))

pub record_locked-Outcome :
    (clock : Clock) (keys : Keys) (r : Request) (b : Bill) (db : Db)
    → lookup r.bill db.bills ≡ some b
    → Outcome keys r b db (record_locked clock keys r db)
unfolding record_locked
record_locked-Outcome clock keys r b db e = ground (
  arith,
  apply_payment-Applied clock keys r b db,
  announce_payment-Untouched keys r (credited r b) (apply_payment clock keys r b db).1,
)
