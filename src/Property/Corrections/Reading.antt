-- ===== src/Property/Corrections/Reading.antt =====
-- `correct_reading`: what an electricity line bills after a correction of its closing reading.
use tenora.Base.{ℕ, String, true, false, ◌≡◌, none, some, [], ◌∷◌, arith, Option-cases, inl, inr}
use tenora.Base.Int.{ℤ, ◌+ℤ◌, ◌-ℤ◌, eqb_ℤ}
use tenora.Base.Table.{Table, lookup, save, lookup-save}
use tenora.Base.Text.{strip}
use tenora.Exec.{Result, ok, err}
use tenora.Property.Rows.{Bill, BillCorrection, LineItem, Usage, is_issued}
use tenora.Property.Db.{Db}
use tenora.Property.Calculations.{billed_units, charge_cents}
use tenora.Property.Corrections.{
  Keys, Effective, effective_of, last_correction, electricity_line, or_zero, effective,
  reading_change, correct_line, correct_reading,
}
use tenora.Property.Corrections.Apply.{
  adjusted_lines, Corrected, correction_row, apply_correction-Corrected,
}
use tenora.Property.Corrections.Books.{Corrected-Booked, total_moves}
use tenora.Property.Books.{Booked}
use tenora.Property.Books.Lines.{totalled}
use tenora.Property.Bills.{settle_status}

-- What is in effect for a line.
abbrev pub in_effect : ℕ → ℕ → LineItem → Usage → Db → Effective
in_effect pk line_pk line u db = effective line u (last_correction pk line_pk db.corrections)

-- A call on the electricity line `line` whose corrected reading gives `units`: an error, and
-- nothing is written; or the change to those units and their charge.
abbrev pub Reread :
    Keys → ℕ → ℕ → ℕ → ℤ → String → Bill → LineItem → Usage → ℤ → Db → Result ℕ × Db → Type 0
Reread keys actor pk line_pk closing reason b line u units db (err e, db') = db' ≡ db
Reread keys actor pk line_pk closing reason b line u units db (ok x, db') =
    (is_issued b.status ≡ true)
    × (eqb_ℤ closing (in_effect pk line_pk line u db).closing ≡ false)
    × Corrected keys actor pk b (strip reason)
        (reading_change line_pk line (in_effect pk line_pk line u db) closing units) db (ok x, db')

module _ (keys : Keys) (actor pk line_pk : ℕ) (closing : ℤ) (reason : String) (b : Bill)
    (line : LineItem) (u : Usage) (db : Db) (there : lookup pk db.bills ≡ some b)
    (found : electricity_line pk line_pk db.line_items ≡ some (line, u)) where
  -- A closing reading below the opening one is refused.
  pub reread_refused :
      billed_units u.opening_reading_value closing u.multiplier ≡ none
      → (correct_reading keys actor pk line_pk closing reason db).1 ≡ db
  unfolding correct_reading correct_line
  reread_refused e = ground arith

  pub correct_reading-Reread :
      (units : ℤ)
      → billed_units u.opening_reading_value closing u.multiplier ≡ some units
      → Reread keys actor pk line_pk closing reason b line u units db
          (correct_reading keys actor pk line_pk closing reason db)
  unfolding correct_reading correct_line
  correct_reading-Reread units e = ground (
    arith,
    apply_correction-Corrected keys actor pk b (strip reason)
        (reading_change line_pk line (in_effect pk line_pk line u db) closing units) db,
  )

-- A reading correction that is added behind the others is the one in effect.
last_correction-save :
    (pk line_pk key : ℕ) (c : BillCorrection) (e : Effective) (t : Table BillCorrection)
    → lookup key t ≡ none
    → effective_of pk line_pk c ≡ some e
    → last_correction pk line_pk (save key c t) ≡ some e
unfolding last_correction lookup save
last_correction-save pk line_pk key c e [] fresh h = ground arith
last_correction-save pk line_pk key c e ((j, d) ∷ t) fresh h =
    ground (arith, last_correction-save pk line_pk key c e t)

-- What the new row puts into effect.
row_effect :
    (actor pk line_pk : ℕ) (b : Bill) (reason : String) (line : LineItem) (e : Effective)
    (closing units : ℤ)
    → effective_of pk line_pk
        (correction_row actor pk b reason (reading_change line_pk line e closing units))
      ≡ some (record {
        closing = closing;
        units = units;
        amount = charge_cents units (or_zero line.unit_price_cents);
      })
unfolding reading_change
row_effect actor pk line_pk b reason line e closing units = ground arith

-- After a correction the line bills the corrected reading: its units, and the charge for them at
-- the line's own rate; the bill's total has moved by the new charge less what was in effect.
abbrev pub Rebilled : ℕ → ℕ → ℤ → Bill → LineItem → Usage → ℤ → Db → Db → Type 0
Rebilled pk line_pk closing b line u units db db' =
    let charge = charge_cents units (or_zero line.unit_price_cents) in
    (in_effect pk line_pk line u db' ≡ record { closing = closing; units = units; amount = charge })
    × ((c : Bill) × (lookup pk db'.bills ≡ some c)
        × (c.total_cents ≡ b.total_cents +ℤ (charge -ℤ (in_effect pk line_pk line u db).amount)))
    × Booked db'

module _ (keys : Keys) (actor pk line_pk : ℕ) (closing : ℤ) (reason : String) (b : Bill)
    (line : LineItem) (u : Usage) (units : ℤ) (db : Db) (booked : Booked db)
    (there : lookup pk db.bills ≡ some b) where
  rebilled :
      (o : Result ℕ × Db) (x : ℕ)
      → Reread keys actor pk line_pk closing reason b line u units db o
      → o.0 ≡ ok x
      → Rebilled pk line_pk closing b line u units db o.1
  unfolding reading_change effective settle_status
  rebilled (err e, db') x o h = cc
  rebilled (ok y, db') x (issued, _, c) h =
      let change = reading_change line_pk line (in_effect pk line_pk line u db) closing units in
      let lines = adjusted_lines keys pk change db in
      let now : Effective = record {
        closing = closing;
        units = units;
        amount = charge_cents units (or_zero line.unit_price_cents);
      } in
      (
        rw c.7 (
            rw (
              last_correction-save pk line_pk keys.correction
                (correction_row actor pk b (strip reason) change) now db.corrections c.6
                (row_effect actor pk line_pk b (strip reason) line (in_effect pk line_pk line u db)
                  closing units))),
        (
          settle_status (totalled pk lines b),
          rw c.4 (rw lookup-save (ground arith)),
          total_moves keys pk change db c.2 b booked there,
        ),
        Corrected-Booked keys actor pk b (strip reason) change db db' y booked there issued c,
      )

  -- If the books are in order and a reading correction of an electricity line goes through, then
  -- the line is billed at the corrected reading, at the units between its opening reading and the
  -- corrected one and at its own rate, the total of the bill has moved by the new charge less
  -- what was in effect before, and the books are in order.
  pub correct_reading-Rebilled :
      (x : ℕ)
      → electricity_line pk line_pk db.line_items ≡ some (line, u)
      → billed_units u.opening_reading_value closing u.multiplier ≡ some units
      → (correct_reading keys actor pk line_pk closing reason db).0 ≡ ok x
      → Rebilled pk line_pk closing b line u units db
          (correct_reading keys actor pk line_pk closing reason db).1
  correct_reading-Rebilled x found e h =
      rebilled (correct_reading keys actor pk line_pk closing reason db) x
        (correct_reading-Reread keys actor pk line_pk closing reason b line u db there found units
          e)
        h

reading_missing :
    (keys : Keys) (actor pk line_pk : ℕ) (closing : ℤ) (reason : String) (db : Db)
    → lookup pk db.bills ≡ none
    → (correct_reading keys actor pk line_pk closing reason db).1 ≡ db
unfolding correct_reading
reading_missing keys actor pk line_pk closing reason db e = ground arith

line_missing :
    (keys : Keys) (actor pk line_pk : ℕ) (closing : ℤ) (reason : String) (db : Db)
    → electricity_line pk line_pk db.line_items ≡ none
    → (correct_reading keys actor pk line_pk closing reason db).1 ≡ db
unfolding correct_reading
line_missing keys actor pk line_pk closing reason db e = ground arith

module _ (keys : Keys) (actor pk line_pk : ℕ) (closing : ℤ) (reason : String) (db : Db)
    (h : Booked db) where
  Reread-Booked :
      (b : Bill) (line : LineItem) (u : Usage) (units : ℤ) (o : Result ℕ × Db)
      → lookup pk db.bills ≡ some b
      → Reread keys actor pk line_pk closing reason b line u units db o
      → Booked o.1
  Reread-Booked b line u units (err e, db') there same = rw same h
  Reread-Booked b line u units (ok x, db') there (issued, _, c) =
      Corrected-Booked keys actor pk b (strip reason)
        (reading_change line_pk line (in_effect pk line_pk line u db) closing units) db db' x h
        there issued c

  found_line :
      (b : Bill) (line : LineItem) (u : Usage)
      → lookup pk db.bills ≡ some b
      → electricity_line pk line_pk db.line_items ≡ some (line, u)
      → Booked (correct_reading keys actor pk line_pk closing reason db).1
  found_line b line u there found =
      elim (Option-cases (billed_units u.opening_reading_value closing u.multiplier)) [
        | inl e ↦
            rw (reread_refused keys actor pk line_pk closing reason b line u db there found e) h
        | inr (units, e) ↦ Reread-Booked b line u units _ there (
            correct_reading-Reread keys actor pk line_pk closing reason b line u db there found
              units e)
      ]

  -- If the books are in order, they are in order after BillCorrectionService.correct_reading,
  -- whichever way the call ends.
  pub correct_reading-Booked : Booked (correct_reading keys actor pk line_pk closing reason db).1
  correct_reading-Booked = elim (Option-cases (lookup pk db.bills)) [
    | inl e ↦ rw (reading_missing keys actor pk line_pk closing reason db e) h
    | inr (b, there) ↦ elim (Option-cases (electricity_line pk line_pk db.line_items)) [
      | inl e ↦ rw (line_missing keys actor pk line_pk closing reason db e) h
      | inr ((line, u), found) ↦ found_line b line u there found
    ]
  ]
