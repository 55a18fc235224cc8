-- ===== src/Property/Generation/Books.antt =====
-- What `BillService.generate_for_lease` of apps/properties/services.py writes, and the books.
use tenora.Base.{ℕ, false, ◌≡◌, refl, ap, sym, ◌∙◌, none, List, ◌==◌, arith}
use tenora.Base.Int.{pos, ◌≤ℤ◌, int_laws}
use tenora.Base.Table.{Table, lookup, save, save-save}
use tenora.Exec.{Result, ok, err}
use tenora.Property.Rows.{Bill, LineItem, draft, Payment}
use tenora.Property.Db.{Db}
use tenora.Property.Constraints.{insert_bill, save_bill}
use tenora.Property.Bills.{recompute_totals, settled}
use tenora.Property.Generation.{write_bill, insert_lines}
use tenora.Property.Generation.Lines.{Inserted, AreCharges, amounts, insert_lines-Inserted}
use tenora.Property.Books.{IsBooked, Booked}
use tenora.Property.Books.Writes.{SameSums, rebook}
use tenora.Property.Books.Lines.{totalled}

-- The call that writes the lines, on the database with the new bill.
abbrev pub inserted : ℕ → (ℕ → ℕ) → Bill → List (ℕ → LineItem) → Db → Result (Unit {0}) × Db
inserted pk keys bill lines db =
    insert_lines keys 0 lines (record db { bills = save pk bill db.bills })

abbrev pub Written : ℕ → (ℕ → ℕ) → Bill → List (ℕ → LineItem) → Db → Result ℕ × Db → Type 0
Written pk keys bill lines db (err e, db') = db' ≡ db
Written pk keys bill lines db (ok x, db') =
    let i = inserted pk keys bill lines db in
    (x ≡ pk)
    × (lookup pk db.bills ≡ none)
    × (i.0 ≡ ok tt)
    × (db'.payments ≡ i.1.payments)
    × (db'.line_items ≡ i.1.line_items)
    × (db'.bills ≡ save pk (totalled pk i.1.line_items bill) i.1.bills)
    × (pos 0 ≤ℤ (totalled pk i.1.line_items bill).total_cents)

pub write_bill-Written :
    (pk : ℕ) (keys : ℕ → ℕ) (bill : Bill) (lines : List (ℕ → LineItem)) (db : Db)
    → Written pk keys bill lines db (write_bill pk keys bill lines db)
unfolding write_bill insert_bill save_bill recompute_totals
write_bill-Written pk keys bill lines db = ground arith

draft_balanced :
    (bills : Table Bill) (payments : Table Payment) (lines after_lines : Table LineItem) (pk : ℕ)
    (b : Bill)
    → IsBooked bills payments lines
    → lookup pk bills ≡ none
    → ((j : ℕ) → (pk == j) ≡ false → SameSums payments payments lines after_lines j)
    → b.status ≡ draft
    → b.amount_paid_cents ≡ pos 0
    → pos 0 ≤ℤ (totalled pk after_lines b).total_cents
    → IsBooked (save pk (totalled pk after_lines b) bills) payments after_lines
unfolding settled
draft_balanced bills payments lines after_lines pk b h fresh same new zero low =
    rebook bills payments payments lines after_lines pk _ same
      (record {
        paid = zero ∙ sym (h.unused pk fresh).paid;
        charges = refl;
        adjustments = refl;
        total = refl;
        not_negative = rw zero (ground arith);
        not_overpaid = rw zero low;
        settles = rw new refl;
        unissued = λ _. zero;
      })
      h.positive h

module _ (pk : ℕ) (keys : ℕ → ℕ) (bill : Bill) (lines : List (ℕ → LineItem)) (db : Db)
    (new : bill.status ≡ draft) (zero : bill.amount_paid_cents ≡ pos 0) (own : AreCharges pk lines)
    (booked : Booked db) where
  -- What the lines of the new bill have done.
  pub lines_done :
      (inserted pk keys bill lines db).0 ≡ ok tt
      → Inserted pk lines
          (record db { bills = save pk bill db.bills })
          (inserted pk keys bill lines db).1
  lines_done e =
      insert_lines-Inserted pk keys 0 lines _ _ tt own
        (ap (λ r. (r, (inserted pk keys bill lines db).1)) e)

  -- The table of the bills after the call.
  pub bills_done :
      (after : Db) (t : Table LineItem)
      → Inserted pk lines
          (record db { bills = save pk bill db.bills })
          (inserted pk keys bill lines db).1
      → after.bills ≡ save pk (totalled pk t bill) (inserted pk keys bill lines db).1.bills
      → after.bills ≡ save pk (totalled pk t bill) db.bills
  bills_done after t i e =
      e ∙ ap (save pk (totalled pk t bill)) (i.bills) ∙ save-save pk _ bill db.bills

  pub Written-Booked : (o : Result ℕ × Db) → Written pk keys bill lines db o → Booked o.1
  Written-Booked (err e, db') w = rw w booked
  Written-Booked (ok x, db') (_, fresh, done, ep, el, eb, low) =
      let i = lines_done done in
      rw (bills_done db' _ i eb, ep ∙ i.payments, el)
        (draft_balanced db.bills db.payments db.line_items _ pk bill booked fresh i.others new zero
          low)

  -- The charges of the new bill are its lines, and nothing else counts for it.
  pub total_done :
      Inserted pk lines
        (record db { bills = save pk bill db.bills })
        (inserted pk keys bill lines db).1
      → lookup pk db.bills ≡ none
      → (totalled pk (inserted pk keys bill lines db).1.line_items bill).total_cents ≡ amounts lines
  total_done i fresh =
      let u = booked.unused pk fresh in
      grind (int_laws, i.charges, i.adjustments, u.charges, u.adjustments)
