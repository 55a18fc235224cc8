-- ===== src/Property/Bills/Issue.antt =====
-- `BillService.publish` and `cancel` of apps/properties/services.py on every branch, and the books.
use tenora.Base.{
  ℕ, String, true, false, ◌≡◌, ◌≢◌, ◌⊎◌, ◌+◌, refl, ◌∙◌, none, some, arith, Option-cases, inl, inr,
}
use tenora.Base.Int.{pos, ◌≤ℤ◌, int_laws}
use tenora.Base.Table.{lookup, save, lookup-save}
use tenora.Base.Text.{strip}
use tenora.Exec.{Result, ok, err}
use tenora.Property.Rows.{Bill, draft, published, cancelled, is_issued}
use tenora.Property.Db.{Db, Clock}
use tenora.Property.Calendar.{year_of}
use tenora.Property.Bills.{settle_status, settled, publish, cancel, has_completed_payment}
use tenora.Property.Books.{IsBooked, Booked}
use tenora.Property.Books.Writes.{rebook, settled_idem, is_issued-settled}

-- The bill as it is published, with the number that the workspace's sequence gives it.
abbrev pub issued : Clock → Db → Bill → Bill
issued clock db b = settle_status (record b {
  bill_number = some (record { year = year_of b.period_start; number = db.next_bill b.tenant });
  published_at = some clock.now;
  status = published;
})

-- An error, and nothing is written; a bill that is issued already, and nothing is written; or a
-- draft that is published under the next number.
abbrev pub Published : Clock → ℕ → Bill → Db → Result ℕ × Db → Type 0
Published clock pk b db (err e, db') = db' ≡ db
Published clock pk b db (ok _, db') =
    (is_issued b.status ≡ true) × (db' ≡ db)
    ⊎ (b.status ≡ draft)
      × (db'.bills ≡ save pk (issued clock db b) db.bills)
      × (db'.line_items ≡ db.line_items)
      × (db'.payments ≡ db.payments)
      × (db'.next_bill b.tenant ≡ db.next_bill b.tenant + 1)

pub publish-Published :
    (clock : Clock) (actor pk : ℕ) (b : Bill) (db : Db)
    → lookup pk db.bills ≡ some b
    → Published clock pk b db (publish clock actor pk db)
unfolding publish
publish-Published clock actor pk b db e = ground arith

abbrev pub revoked : Clock → String → Bill → Bill
revoked clock reason b = record b {
  status = cancelled;
  cancelled_at = some clock.now;
  cancellation_reason = strip reason;
}

-- Nothing is written, or a bill on which nothing is paid is cancelled.
abbrev pub Cancelled : Clock → String → ℕ → Bill → Db → Result ℕ × Db → Type 0
Cancelled clock reason pk b db (err e, db') = db' ≡ db
Cancelled clock reason pk b db (ok _, db') =
    (b.status ≡ cancelled) × (db' ≡ db)
    ⊎ (b.status ≢ cancelled)
      × (b.amount_paid_cents ≤ℤ pos 0)
      × (has_completed_payment pk db.payments ≡ false)
      × (db'.bills ≡ save pk (revoked clock reason b) db.bills)
      × (db'.line_items ≡ db.line_items)
      × (db'.payments ≡ db.payments)

-- For a bill that is there, BillService.cancel either raises or finds it cancelled, and writes
-- nothing; or nothing is paid on it, no completed payment is on it, and it is stored as cancelled
-- with the reason.
pub cancel-Cancelled :
    (clock : Clock) (actor pk : ℕ) (reason : String) (b : Bill) (db : Db)
    → lookup pk db.bills ≡ some b
    → Cancelled clock reason pk b db (cancel clock actor pk reason db)
unfolding cancel
cancel-Cancelled clock actor pk reason b db e = ground arith

-- A bill that is issued already is left as it is, with all else.
publish_issued :
    (clock : Clock) (actor pk : ℕ) (b : Bill) (db : Db)
    → lookup pk db.bills ≡ some b
    → is_issued b.status ≡ true
    → publish clock actor pk db ≡ (ok pk, db)
unfolding publish
publish_issued clock actor pk b db e h = ground arith

issued-is_issued :
    (clock : Clock) (db : Db) (b : Bill) → is_issued (issued clock db b).status ≡ true
unfolding settle_status
issued-is_issued clock db b = is_issued-settled published b.amount_paid_cents b.total_cents

publish_absent :
    (clock : Clock) (actor pk x : ℕ) (db : Db)
    → lookup pk db.bills ≡ none
    → (publish clock actor pk db).0 ≢ ok x
unfolding publish
publish_absent clock actor pk x db e = ground arith

again :
    (clock later : Clock) (actor pk : ℕ) (b : Bill) (db : Db) (o : Result ℕ × Db) (x : ℕ)
    → lookup pk db.bills ≡ some b
    → Published clock pk b db o
    → o.0 ≡ ok x
    → publish later actor pk o.1 ≡ (ok pk, o.1)
again clock later actor pk b db (err e, db') x there o h = cc
again clock later actor pk b db (ok y, db') x there (inl (was, same)) h =
    rw same (publish_issued later actor pk b db there was)
again clock later actor pk b db (ok y, db') x there (inr (_, eb, _, _, _)) h =
    publish_issued later actor pk (issued clock db b) db'
      (rw eb (ground (arith, lookup-save pk pk (issued clock db b) db.bills)))
      (issued-is_issued clock db b)

-- If publishing a bill goes through, then publishing it once more, by whomever and whenever,
-- answers the same bill and changes nothing.
pub publish_twice :
    (clock later : Clock) (actor other pk x : ℕ) (db : Db)
    → (publish clock actor pk db).0 ≡ ok x
    → publish later other pk (publish clock actor pk db).1 ≡ (ok pk, (publish clock actor pk db).1)
publish_twice clock later actor other pk x db h = elim (Option-cases (lookup pk db.bills)) [
  | inl e ↦ absurd (publish_absent clock actor pk x db e h)
  | inr (b, e) ↦
      again clock later other pk b db (publish clock actor pk db) x e
        (publish-Published clock actor pk b db e) h
]

-- A bill keeps its amounts, and its new status settles.
module _ (db : Db) (pk : ℕ) (b c : Bill) (booked : Booked db) (there : lookup pk db.bills ≡ some b)
    (paid : c.amount_paid_cents ≡ b.amount_paid_cents)
    (charges : c.subtotal_cents ≡ b.subtotal_cents)
    (adjustments : c.adjustments_cents ≡ b.adjustments_cents)
    (total : c.total_cents ≡ b.total_cents)
    (settles : settled c.status c.amount_paid_cents c.total_cents ≡ c.status)
    (unpaid : b.amount_paid_cents ≡ pos 0) where
  restatus-IsBooked : IsBooked (save pk c db.bills) db.payments db.line_items
  restatus-IsBooked =
      let h = booked.balanced pk b there in
      rebook db.bills db.payments db.payments db.line_items db.line_items pk c
        (λ j t. record { paid = refl; charges = refl; adjustments = refl })
        (record {
          paid = paid ∙ h.paid;
          charges = charges ∙ h.charges;
          adjustments = adjustments ∙ h.adjustments;
          total = cc (total, h.total, charges, adjustments);
          not_negative = rw paid h.not_negative;
          not_overpaid = rw (paid, total) h.not_overpaid;
          settles = settles;
          unissued = λ _. paid ∙ unpaid;
        })
        booked.positive booked

Published-Booked :
    (clock : Clock) (pk : ℕ) (b : Bill) (db : Db) (o : Result ℕ × Db)
    → Booked db
    → lookup pk db.bills ≡ some b
    → Published clock pk b db o
    → Booked o.1
unfolding settle_status
Published-Booked clock pk b db (err e, db') h there o = rw o h
Published-Booked clock pk b db (ok x, db') h there (inl (_, same)) = rw same h
Published-Booked clock pk b db (ok x, db') h there (inr (was, eb, el, ep, _)) =
    rw (eb, el, ep)
      (restatus-IsBooked db pk b (issued clock db b) h there refl refl refl refl
        (settled_idem published b.amount_paid_cents b.total_cents)
        ((h.balanced pk b there).unissued (rw was)))

publish_missing :
    (clock : Clock) (actor pk : ℕ) (db : Db)
    → lookup pk db.bills ≡ none
    → (publish clock actor pk db).1 ≡ db
unfolding publish
publish_missing clock actor pk db e = ground arith

-- If the books are in order, they are in order after BillService.publish, whichever way the call
-- ends.
pub publish-Booked :
    (clock : Clock) (actor pk : ℕ) (db : Db) → Booked db → Booked (publish clock actor pk db).1
publish-Booked clock actor pk db h = elim (Option-cases (lookup pk db.bills)) [
  | inl e ↦ rw (publish_missing clock actor pk db e) h
  | inr (b, e) ↦
      Published-Booked clock pk b db (publish clock actor pk db) h e
        (publish-Published clock actor pk b db e)
]

Cancelled-Booked :
    (clock : Clock) (reason : String) (pk : ℕ) (b : Bill) (db : Db) (o : Result ℕ × Db)
    → Booked db
    → lookup pk db.bills ≡ some b
    → Cancelled clock reason pk b db o
    → Booked o.1
unfolding settled
Cancelled-Booked clock reason pk b db (err e, db') h there o = rw o h
Cancelled-Booked clock reason pk b db (ok x, db') h there (inl (_, same)) = rw same h
Cancelled-Booked clock reason pk b db (ok x, db') h there (inr (_, low, _, eb, el, ep)) =
    rw (eb, el, ep)
      (restatus-IsBooked db pk b (revoked clock reason b) h there refl refl refl refl refl
        (omega (int_laws, (h.balanced pk b there).not_negative)))

cancel_missing :
    (clock : Clock) (actor pk : ℕ) (reason : String) (db : Db)
    → lookup pk db.bills ≡ none
    → (cancel clock actor pk reason db).1 ≡ db
unfolding cancel
cancel_missing clock actor pk reason db e = ground arith

-- If the books are in order, they are in order after BillService.cancel, whichever way the call
-- ends.
pub cancel-Booked :
    (clock : Clock) (actor pk : ℕ) (reason : String) (db : Db)
    → Booked db
    → Booked (cancel clock actor pk reason db).1
cancel-Booked clock actor pk reason db h = elim (Option-cases (lookup pk db.bills)) [
  | inl e ↦ rw (cancel_missing clock actor pk reason db e) h
  | inr (b, e) ↦
      Cancelled-Booked clock reason pk b db (cancel clock actor pk reason db) h e
        (cancel-Cancelled clock actor pk reason b db e)
]
