-- ===== src/Property/Books/Lines.antt =====
-- A line added to a bill or taken from it, and the totals computed anew.
use tenora.Base.{ℕ, true, false, ◌≡◌, refl, none, some, ◌==◌, arith}
use tenora.Base.Int.{pos, ◌+ℤ◌, ◌≤ℤ◌, int_laws}
use tenora.Base.Table.{Table, lookup, save, erase, sum_by, sum_by-save_new, sum_by-erase}
use tenora.Property.Rows.{Bill, Payment, LineItem, is_issued}
use tenora.Property.Bills.{charge_of, adjustment_of, settled, settle_status}
use tenora.Property.Books.{IsBooked}
use tenora.Property.Books.Writes.{SameSums, rebook, settled_idem, is_issued-settled}

-- The bill with the totals of its lines.
abbrev pub totalled : ℕ → Table LineItem → Bill → Bill
totalled pk lines b = record b {
  subtotal_cents = sum_by (charge_of pk) lines;
  adjustments_cents = sum_by (adjustment_of pk) lines;
  total_cents = sum_by (charge_of pk) lines +ℤ sum_by (adjustment_of pk) lines;
}

module _ (payments : Table Payment) (lines : Table LineItem) (pk : ℕ) (l : LineItem)
    (own : l.bill ≡ pk) where
  pub SameSums-save :
      (line_pk j : ℕ)
      → lookup line_pk lines ≡ none
      → (pk == j) ≡ false
      → SameSums payments payments lines (save line_pk l lines) j
  SameSums-save line_pk j fresh t = record {
    paid = refl;
    charges = grind (int_laws, sum_by-save_new (charge_of j) line_pk l lines fresh);
    adjustments = grind (int_laws, sum_by-save_new (adjustment_of j) line_pk l lines fresh);
  }

  pub SameSums-erase :
      (line_pk j : ℕ)
      → lookup line_pk lines ≡ some l
      → (pk == j) ≡ false
      → SameSums payments payments lines (erase line_pk lines) j
  SameSums-erase line_pk j found t = record {
    paid = refl;
    charges = grind (int_laws, sum_by-erase (charge_of j) line_pk l lines found);
    adjustments = grind (int_laws, sum_by-erase (adjustment_of j) line_pk l lines found);
  }

module _ (bills : Table Bill) (payments : Table Payment) (lines after_lines : Table LineItem)
    (pk : ℕ) (b : Bill) (booked : IsBooked bills payments lines) (there : lookup pk bills ≡ some b)
    (same : (j : ℕ) → (pk == j) ≡ false → SameSums payments payments lines after_lines j) where
  -- The lines of a draft, which nothing was paid on, change.
  pub relist-IsBooked :
      is_issued b.status ≡ false
      → settled b.status (pos 0) (totalled pk after_lines b).total_cents ≡ b.status
      → pos 0 ≤ℤ (totalled pk after_lines b).total_cents
      → IsBooked (save pk (totalled pk after_lines b) bills) payments after_lines
  relist-IsBooked unissued settles low =
      let h = booked.balanced pk b there in
      let zero_paid = h.unissued unissued in
      rebook bills payments payments lines after_lines pk _ same
        (record {
          paid = h.paid;
          charges = refl;
          adjustments = refl;
          total = refl;
          not_negative = h.not_negative;
          not_overpaid = rw zero_paid low;
          settles = rw zero_paid settles;
          unissued = λ _. zero_paid;
        })
        booked.positive booked

-- An adjustment on an issued bill, by what keeps the total at the amount paid or above.
module _ (bills : Table Bill) (payments : Table Payment) (lines after_lines : Table LineItem)
    (pk : ℕ) (b : Bill) (booked : IsBooked bills payments lines) (there : lookup pk bills ≡ some b)
    (same : (j : ℕ) → (pk == j) ≡ false → SameSums payments payments lines after_lines j)
    (issued : is_issued b.status ≡ true)
    (covers : b.amount_paid_cents ≤ℤ (totalled pk after_lines b).total_cents) where
  pub adjust-IsBooked :
      IsBooked (save pk (settle_status (totalled pk after_lines b)) bills) payments after_lines
  unfolding settle_status
  adjust-IsBooked =
      let h = booked.balanced pk b there in
      let total = (totalled pk after_lines b).total_cents in
      rebook bills payments payments lines after_lines pk _ same
        (record {
          paid = h.paid;
          charges = refl;
          adjustments = refl;
          total = refl;
          not_negative = h.not_negative;
          not_overpaid = covers;
          settles = settled_idem b.status b.amount_paid_cents total;
          unissued = λ e. ground (arith, is_issued-settled b.status b.amount_paid_cents total);
        })
        booked.positive booked
