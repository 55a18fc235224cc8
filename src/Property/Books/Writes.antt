-- ===== src/Property/Books/Writes.antt =====
-- The writes of payments in apps/properties/services.py and the invariant of the books.
use tenora.Base.{
  ℕ, true, false, ◌≡◌, refl, sym, ap, ◌∙◌, none, some, ◌==◌, if◌then◌else◌, arith, inl, inr,
  Bool-cases,
}
use tenora.Base.Int.{ℤ, pos, pos_part, neg_part, ◌+ℤ◌, ◌-ℤ◌, ◌≤ℤ◌, ◌<ℤ◌, int_laws}
use tenora.Base.Table.{Table, lookup, save, sum_by, lookup-save, sum_by-save, sum_by-save_new}
use tenora.Property.Rows.{
  Bill, BillStatus, Payment, voided, LineItem, is_voided, is_issued, is_open_status,
}
use tenora.Property.Bills.{charge_of, adjustment_of, settled, settle_status}
use tenora.Property.Books.{paid_of, IsBalanced, IsUnused, IsBooked}

-- Settling again changes nothing, and an issued bill stays issued.
pub settled_idem : (s : BillStatus) (p t : ℤ) → settled (settled s p t) p t ≡ settled s p t
unfolding settled
settled_idem BillStatus.draft p t = refl
settled_idem _ p t = ground arith

pub is_issued-settled : (s : BillStatus) (p t : ℤ) → is_issued (settled s p t) ≡ is_issued s
unfolding settled
is_issued-settled BillStatus.draft p t = refl
is_issued-settled _ p t = ground arith

module _ (payments : Table Payment) (lines : Table LineItem) (k : ℕ) (b : Bill) where
  -- The amount paid follows the payments.
  pub repay :
      (after : Table Payment) (amount : ℤ)
      → amount ≡ sum_by (paid_of k) after
      → pos 0 ≤ℤ amount
      → amount ≤ℤ b.total_cents
      → is_issued b.status ≡ true
      → IsBalanced payments lines k b
      → IsBalanced after lines k (settle_status (record b { amount_paid_cents = amount }))
  unfolding settle_status
  repay after amount sums low high issued h = record {
    paid = sums;
    charges = h.charges;
    adjustments = h.adjustments;
    total = h.total;
    not_negative = low;
    not_overpaid = high;
    settles = settled_idem b.status amount b.total_cents;
    unissued = λ e. ground (arith, is_issued-settled b.status amount b.total_cents);
  }

module _ (payments : Table Payment) (pay : ℕ) (p : Payment) where
  pub paid-save_new :
      (j : ℕ)
      → lookup pay payments ≡ none
      → sum_by (paid_of j) (save pay p payments) ≡ sum_by (paid_of j) payments +ℤ paid_of j p
  paid-save_new j fresh = sum_by-save_new (paid_of j) pay p payments fresh

  pub paid-save_void :
      (j : ℕ) (v : Payment)
      → lookup pay payments ≡ some p
      → v.bill ≡ p.bill
      → v.status ≡ voided
      → is_voided p.status ≡ false
      → sum_by (paid_of j) (save pay v payments)
        ≡ sum_by (paid_of j) payments -ℤ (if p.bill == j then p.amount_cents else pos 0)
  paid-save_void j v e own vs live = grind (int_laws, sum_by-save (paid_of j) pay v p payments e)

-- What the payments and the lines say of one bill is the same before and after.
pub record SameSums (payments after : Table Payment) (lines after_lines : Table LineItem) (j : ℕ)
    : Type 0 where
  pub paid : sum_by (paid_of j) after ≡ sum_by (paid_of j) payments
  pub charges : sum_by (charge_of j) after_lines ≡ sum_by (charge_of j) lines
  pub adjustments : sum_by (adjustment_of j) after_lines ≡ sum_by (adjustment_of j) lines

module _ (payments after : Table Payment) (lines after_lines : Table LineItem) (j : ℕ)
    (same : SameSums payments after lines after_lines j) where
  rebalance : (o : Bill) → IsBalanced payments lines j o → IsBalanced after after_lines j o
  rebalance o h = record {
    paid = h.paid ∙ sym same.paid;
    charges = h.charges ∙ sym same.charges;
    adjustments = h.adjustments ∙ sym same.adjustments;
    total = h.total;
    not_negative = h.not_negative;
    not_overpaid = h.not_overpaid;
    settles = h.settles;
    unissued = h.unissued;
  }

  still-IsUnused : IsUnused payments lines j → IsUnused after after_lines j
  still-IsUnused h = record {
    paid = same.paid ∙ h.paid;
    charges = same.charges ∙ h.charges;
    adjustments = same.adjustments ∙ h.adjustments;
  }

module _ (bills : Table Bill) (payments after : Table Payment) (lines after_lines : Table LineItem)
    (k : ℕ) (c : Bill)
    (same : (j : ℕ) → (k == j) ≡ false → SameSums payments after lines after_lines j)
    (own : IsBalanced after after_lines k c)
    (gained : (j : ℕ) (q : Payment) → lookup j after ≡ some q → pos 0 <ℤ q.amount_cents) where
  own_row :
      (j : ℕ) (o : Bill)
      → lookup j (save k c bills) ≡ some o
      → (k == j) ≡ true
      → IsBalanced after after_lines j o
  own_row j o e t =
      let key : k ≡ j = ground arith in
      let row : c ≡ o = ground (arith, lookup-save j k c bills) in rw (← key, ← row) own

  other_row : (j : ℕ) → (k == j) ≡ false → lookup j (save k c bills) ≡ lookup j bills
  other_row j t = ground (arith, lookup-save j k c bills)

  missing_row : (j : ℕ) → lookup j (save k c bills) ≡ none → (k == j) ≡ false
  missing_row j e = ground (arith, lookup-save j k c bills)

  -- One bill changes, with what the payments and the lines say of it, and of no other bill.
  pub rebook : IsBooked bills payments lines → IsBooked (save k c bills) after after_lines
  rebook h = record {
    balanced = λ j o e. elim (Bool-cases (k == j)) [
      | inl t ↦ own_row j o e t
      | inr t ↦
          rebalance payments after lines after_lines j (same j t) o
            (h.balanced j o (sym (other_row j t) ∙ e))
    ];
    unused = λ j e.
        let t = missing_row j e in
        still-IsUnused payments after lines after_lines j (same j t)
          (h.unused j (sym (other_row j t) ∙ e));
    positive = gained;
  }

-- A row with a positive amount is written.
positive-save :
    (payments : Table Payment) (pay : ℕ) (v : Payment)
    → ((j : ℕ) (q : Payment) → lookup j payments ≡ some q → pos 0 <ℤ q.amount_cents)
    → pos 0 <ℤ v.amount_cents
    → (j : ℕ) (q : Payment) → lookup j (save pay v payments) ≡ some q
    → pos 0 <ℤ q.amount_cents
positive-save payments pay v h gain j q e = ground (arith, lookup-save j pay v payments, h j q)

-- A new payment on an open bill, of what is due at most.
module _ (bills : Table Bill) (payments : Table Payment) (lines : Table LineItem) (k pay : ℕ)
    (b : Bill) (p : Payment) (booked : IsBooked bills payments lines)
    (there : lookup k bills ≡ some b) (fresh : lookup pay payments ≡ none) (own : p.bill ≡ k)
    (live : is_voided p.status ≡ false) (positive : pos 0 <ℤ p.amount_cents)
    (due : p.amount_cents ≤ℤ b.total_cents -ℤ b.amount_paid_cents)
    (open_bill : is_open_status b.status ≡ true) where
  credit_sum : b.amount_paid_cents +ℤ p.amount_cents ≡ sum_by (paid_of k) (save pay p payments)
  credit_sum =
      let h = booked.balanced k b there in
      grind (int_laws, paid-save_new payments pay p k fresh, h.paid)

  credit_others : (j : ℕ) → (k == j) ≡ false → SameSums payments (save pay p payments) lines lines j
  credit_others j t = record {
    paid = grind (int_laws, paid-save_new payments pay p j fresh);
    charges = refl;
    adjustments = refl;
  }

  pub credit-IsBooked :
      IsBooked
        (save k
          (settle_status (record b { amount_paid_cents = b.amount_paid_cents +ℤ p.amount_cents }))
          bills)
        (save pay p payments)
        lines
  credit-IsBooked =
      let h = booked.balanced k b there in
      rebook bills payments (save pay p payments) lines lines k _ credit_others
        (repay payments lines k b (save pay p payments) (b.amount_paid_cents +ℤ p.amount_cents)
          credit_sum (omega (int_laws, h.not_negative)) (omega (int_laws)) (ground arith) h)
        (positive-save payments pay p booked.positive positive) booked

-- A payment on a bill is voided.
module _ (bills : Table Bill) (payments : Table Payment) (lines : Table LineItem) (pay : ℕ)
    (b : Bill) (p v : Payment) (booked : IsBooked bills payments lines)
    (there : lookup p.bill bills ≡ some b) (found : lookup pay payments ≡ some p)
    (own : v.bill ≡ p.bill) (void : v.status ≡ voided) (live : is_voided p.status ≡ false)
    (same_amount : v.amount_cents ≡ p.amount_cents)
    (low : pos 0 ≤ℤ b.amount_paid_cents -ℤ p.amount_cents) where
  debit_sum : b.amount_paid_cents -ℤ p.amount_cents ≡ sum_by (paid_of p.bill) (save pay v payments)
  debit_sum =
      let h = booked.balanced p.bill b there in
      grind (int_laws, paid-save_void payments pay p p.bill v found own void live, h.paid)

  -- Only an issued bill has been paid.
  debit_issued : is_issued b.status ≡ true
  debit_issued =
      let h = booked.balanced p.bill b there in
      elim (Bool-cases (is_issued b.status)) [
        | inl yes_issued ↦ yes_issued
        | inr not_issued ↦ absurd (
            omega (
              int_laws,
              booked.positive pay p found,
              ap pos_part (h.unissued not_issued),
              ap neg_part (h.unissued not_issued),
            ))
      ]

  debit_fits : b.amount_paid_cents -ℤ p.amount_cents ≤ℤ b.total_cents
  debit_fits =
      let h = booked.balanced p.bill b there in
      omega (int_laws, booked.positive pay p found, h.not_overpaid)

  debit_others :
      (j : ℕ) → (p.bill == j) ≡ false → SameSums payments (save pay v payments) lines lines j
  debit_others j t = record {
    paid = grind (int_laws, paid-save_void payments pay p j v found own void live);
    charges = refl;
    adjustments = refl;
  }

  pub debit-IsBooked :
      IsBooked
        (save p.bill
          (settle_status (record b { amount_paid_cents = b.amount_paid_cents -ℤ p.amount_cents }))
          bills)
        (save pay v payments)
        lines
  debit-IsBooked =
      rebook bills payments (save pay v payments) lines lines p.bill _ debit_others
        (repay payments lines p.bill b (save pay v payments) (b.amount_paid_cents -ℤ p.amount_cents)
          debit_sum low debit_fits debit_issued (booked.balanced p.bill b there))
        (positive-save payments pay v booked.positive
          (rw same_amount (booked.positive pay p found)))
        booked
