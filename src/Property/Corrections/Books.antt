-- ===== src/Property/Corrections/Books.antt =====
-- Corrections (`BillCorrectionService` of apps/properties/services.py) and the books.
use tenora.Base.{
  ℕ, String, true, false, ◌≡◌, ◌⊎◌, refl, none, some, ◌==◌, arith, Bool-cases, Option-cases, inl,
  inr,
}
use tenora.Base.Int.{ℤ, pos, ◌+ℤ◌, eqb_ℤ, int_laws}
use tenora.Base.Table.{lookup, sum_by, sum_by-save_new}
use tenora.Exec.{Result, ok, err}
use tenora.Property.Rows.{Bill, is_issued}
use tenora.Property.Db.{Db}
use tenora.Property.Bills.{charge_of, adjustment_of}
use tenora.Property.Corrections.{Keys, Change, adjust_amount}
use tenora.Property.Corrections.Apply.{
  adjusting, adjusted_lines, Corrected, Adjusted, adjust_amount-Adjusted,
}
use tenora.Property.Books.{Booked}
use tenora.Property.Books.Writes.{SameSums}
use tenora.Property.Books.Lines.{totalled, SameSums-save, adjust-IsBooked}

module _ (keys : Keys) (pk : ℕ) (c : Change) (db : Db)
    (fresh : (eqb_ℤ c.delta (pos 0) ≡ true) ⊎ (lookup keys.line db.line_items ≡ none)) where
  charges_same :
      sum_by (charge_of pk) (adjusted_lines keys pk c db) ≡ sum_by (charge_of pk) db.line_items
  charges_same =
      grind
        (int_laws, sum_by-save_new (charge_of pk) keys.line (adjusting keys pk c db) db.line_items)

  adjustments_grow :
      sum_by (adjustment_of pk) (adjusted_lines keys pk c db)
      ≡ sum_by (adjustment_of pk) db.line_items +ℤ c.delta
  adjustments_grow = grind (
    int_laws,
    sum_by-save_new (adjustment_of pk) keys.line (adjusting keys pk c db) db.line_items,
  )

  others_same :
      (j : ℕ)
      → (pk == j) ≡ false
      → SameSums db.payments db.payments db.line_items (adjusted_lines keys pk c db) j
  others_same j t = elim (Bool-cases (eqb_ℤ c.delta (pos 0))) [
    | inl zero_delta ↦ rw zero_delta (record { paid = refl; charges = refl; adjustments = refl })
    | inr some_delta ↦ rw some_delta (
        SameSums-save db.payments db.line_items pk (adjusting keys pk c db) refl keys.line j
          (ground arith) t)
  ]

  -- The total moves by the amount of the correction.
  pub total_moves :
      (b : Bill)
      → Booked db
      → lookup pk db.bills ≡ some b
      → (totalled pk (adjusted_lines keys pk c db) b).total_cents ≡ b.total_cents +ℤ c.delta
  total_moves b h there =
      let k = h.balanced pk b there in
      rw (charges_same, adjustments_grow, ← k.charges, ← k.adjustments, k.total) (omega int_laws)

pub Corrected-Booked :
    (keys : Keys) (actor pk : ℕ) (b : Bill) (reason : String) (c : Change) (db db' : Db) (x : ℕ)
    → Booked db
    → lookup pk db.bills ≡ some b
    → is_issued b.status ≡ true
    → Corrected keys actor pk b reason c db (ok x, db')
    → Booked db'
Corrected-Booked keys actor pk b reason c db db' x h there issued
      (_, covers, fresh, el, eb, ep, _, _) =
    rw (el, eb, ep)
      (adjust-IsBooked db.bills db.payments db.line_items (adjusted_lines keys pk c db) pk b h there
        (others_same keys pk c db fresh) issued
        (rw (total_moves keys pk c db fresh b h there) covers))

Adjusted-Booked :
    (keys : Keys) (actor pk : ℕ) (delta : ℤ) (reason : String) (b : Bill) (db : Db)
    (o : Result ℕ × Db)
    → Booked db
    → lookup pk db.bills ≡ some b
    → Adjusted keys actor pk delta reason b db o
    → Booked o.1
Adjusted-Booked keys actor pk delta reason b db (err e, db') h there o = rw o h
Adjusted-Booked keys actor pk delta reason b db (ok x, db') h there (issued, _, _, o) =
    Corrected-Booked keys actor pk b _ _ db db' x h there issued o

adjust_missing :
    (keys : Keys) (actor pk : ℕ) (delta : ℤ) (reason : String) (db : Db)
    → lookup pk db.bills ≡ none
    → (adjust_amount keys actor pk delta reason db).1 ≡ db
unfolding adjust_amount
adjust_missing keys actor pk delta reason db e = ground arith

-- If the books are in order, they are in order after BillCorrectionService.adjust_amount,
-- whichever way the call ends.
pub adjust_amount-Booked :
    (keys : Keys) (actor pk : ℕ) (delta : ℤ) (reason : String) (db : Db)
    → Booked db
    → Booked (adjust_amount keys actor pk delta reason db).1
adjust_amount-Booked keys actor pk delta reason db h = elim (Option-cases (lookup pk db.bills)) [
  | inl e ↦ rw (adjust_missing keys actor pk delta reason db e) h
  | inr (b, e) ↦
      Adjusted-Booked keys actor pk delta reason b db _ h e
        (adjust_amount-Adjusted keys actor pk delta reason b db e)
]
