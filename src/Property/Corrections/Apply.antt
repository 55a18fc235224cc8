-- ===== src/Property/Corrections/Apply.antt =====
-- What a correction that goes through writes.
use tenora.Base.{ℕ, String, true, false, ◌≡◌, ◌⊎◌, none, some, if◌then◌else◌, arith}
use tenora.Base.Int.{ℤ, pos, ◌+ℤ◌, ◌≤ℤ◌, eqb_ℤ}
use tenora.Base.Table.{Table, lookup, save}
use tenora.Base.Text.{strip, is_given}
use tenora.Exec.{Result, ok, err}
use tenora.Property.Rows.{Bill, BillCorrection, LineItem, adjustment, is_issued}
use tenora.Property.Db.{Db}
use tenora.Property.Bills.{settle_status, next_order}
use tenora.Property.Corrections.{Keys, Change, amount_change, apply_correction, adjust_amount}
use tenora.Property.Books.Lines.{totalled}

-- The line that carries a correction.
abbrev pub adjusting : Keys → ℕ → Change → Db → LineItem
adjusting keys pk c db = record {
  bill = pk;
  type = adjustment;
  quantity = c.quantity;
  unit_price_cents = c.unit_price;
  amount_cents = c.delta;
  usage = none;
  correction = some keys.correction;
  sort_order = next_order pk db.line_items;
}

-- The lines after a correction: one more, unless it changes no amount.
abbrev pub adjusted_lines : Keys → ℕ → Change → Db → Table LineItem
adjusted_lines keys pk c db =
    if eqb_ℤ c.delta (pos 0)
    then db.line_items
    else save keys.line (adjusting keys pk c db) db.line_items

abbrev pub correction_row : ℕ → ℕ → Bill → String → Change → BillCorrection
correction_row actor pk b reason c = record {
  tenant = b.tenant;
  bill = pk;
  reason = reason;
  original_values = c.original;
  corrected_values = c.corrected;
  amount_delta_cents = c.delta;
  actor = actor;
}

-- Nothing is said of an error; otherwise the correction keeps the total at the amount paid or
-- above, and the lines, the totals and the status follow it.
abbrev pub Corrected : Keys → ℕ → ℕ → Bill → String → Change → Db → Result ℕ × Db → Type 0
Corrected keys actor pk b reason c db (err e, db') = Unit
Corrected keys actor pk b reason c db (ok _, db') =
    (pos 0 ≤ℤ b.total_cents +ℤ c.delta)
    × (b.amount_paid_cents ≤ℤ b.total_cents +ℤ c.delta)
    × ((eqb_ℤ c.delta (pos 0) ≡ true) ⊎ (lookup keys.line db.line_items ≡ none))
    × (db'.line_items ≡ adjusted_lines keys pk c db)
    × (db'.bills ≡ save pk (settle_status (totalled pk (adjusted_lines keys pk c db) b)) db.bills)
    × (db'.payments ≡ db.payments)
    × (lookup keys.correction db.corrections ≡ none)
    × (db'.corrections ≡ save keys.correction (correction_row actor pk b reason c) db.corrections)

pub apply_correction-Corrected :
    (keys : Keys) (actor pk : ℕ) (b : Bill) (reason : String) (c : Change) (db : Db)
    → Corrected keys actor pk b reason c db (apply_correction keys actor pk b reason c db)
unfolding apply_correction
apply_correction-Corrected keys actor pk b reason c db = ground arith

abbrev pub Adjusted : Keys → ℕ → ℕ → ℤ → String → Bill → Db → Result ℕ × Db → Type 0
Adjusted keys actor pk delta reason b db (err e, db') = db' ≡ db
Adjusted keys actor pk delta reason b db (ok x, db') =
    (is_issued b.status ≡ true)
    × (is_given reason ≡ true)
    × (eqb_ℤ delta (pos 0) ≡ false)
    × Corrected keys actor pk b (strip reason) (amount_change b delta) db (ok x, db')

-- For a bill that is there, adjust_amount either raises and writes nothing; or the bill is
-- issued, a reason and an amount other than zero are given, the new total is neither negative nor
-- below the amount paid, and the correction, its line, the totals and the status are stored.
pub adjust_amount-Adjusted :
    (keys : Keys) (actor pk : ℕ) (delta : ℤ) (reason : String) (b : Bill) (db : Db)
    → lookup pk db.bills ≡ some b
    → Adjusted keys actor pk delta reason b db (adjust_amount keys actor pk delta reason db)
unfolding adjust_amount
adjust_amount-Adjusted keys actor pk delta reason b db e =
    ground
      (arith, apply_correction-Corrected keys actor pk b (strip reason) (amount_change b delta) db)
