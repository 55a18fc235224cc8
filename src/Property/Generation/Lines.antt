-- ===== src/Property/Generation/Lines.antt =====
-- What the lines of a generated bill do to the sums over the lines.
use tenora.Base.{
  ℕ, true, false, ◌≡◌, refl, ap, sym, ◌∙◌, ◌+◌, none, List, [], ◌∷◌, ◌++◌, ◌==◌, Option-cases,
  Bool-cases, ltb, inl, inr,
}
use mathlib.Core.Path.{subst}
use tenora.Base.Int.{ℤ, pos, ◌+ℤ◌, int_laws}
use tenora.Base.Table.{Table, lookup, save, sum_by, sum_by-save_new}
use tenora.Exec.{ok}
use tenora.Property.Rows.{
  LineItem, Lease, LineType, is_charge, WorkspaceSettings, rent, maintenance,
}
use tenora.Property.Db.{Db}
use tenora.Property.Constraints.{insert_line}
use tenora.Property.Bills.{charge_of, adjustment_of}
use tenora.Property.Calculations.{charge_cents}
use tenora.Property.Generation.{plain_lines, charge_lines, lines_of, insert_lines}
use tenora.Property.Prerequisites.{Charge}
use tenora.Property.Books.Writes.{SameSums}
use tenora.Property.Books.Lines.{SameSums-save}

-- A line of a bill that adds to its charges, whatever its place.
pub record IsCharge (pk : ℕ) (line : ℕ → LineItem) : Type 0 where
  pub own : (n : ℕ) → (line n).bill ≡ pk
  pub charges : (n : ℕ) → is_charge (line n).type ≡ true
  pub steady : (n : ℕ) → (line n).amount_cents ≡ (line 0).amount_cents

abbrev pub AreCharges : ℕ → List (ℕ → LineItem) → Type 0
AreCharges pk [] = Unit
AreCharges pk (line ∷ lines) = IsCharge pk line × AreCharges pk lines

unfoldable pub amounts : List (ℕ → LineItem) → ℤ
amounts [] = pos 0
amounts (line ∷ lines) = (line 0).amount_cents +ℤ amounts lines

-- The lines are written, for the bill `pk` alone.
pub record Inserted (pk : ℕ) (lines : List (ℕ → LineItem)) (db after : Db) : Type 0 where
  pub bills : after.bills ≡ db.bills
  pub payments : after.payments ≡ db.payments
  pub charges :
      sum_by (charge_of pk) after.line_items ≡ sum_by (charge_of pk) db.line_items +ℤ amounts lines
  pub adjustments :
      sum_by (adjustment_of pk) after.line_items ≡ sum_by (adjustment_of pk) db.line_items
  pub others :
      (j : ℕ)
      → (pk == j) ≡ false
      → SameSums db.payments db.payments db.line_items after.line_items j

add_assoc : (a b c d : ℤ) → d ≡ a +ℤ b → d +ℤ c ≡ a +ℤ (b +ℤ c)
add_assoc a b c d h = grind int_laws

to_zero : (x : ℤ) → x +ℤ pos 0 ≡ x
to_zero x = grind int_laws

line_charge :
    (pk key : ℕ) (l : LineItem) (lines : Table LineItem)
    → l.bill ≡ pk
    → is_charge l.type ≡ true
    → lookup key lines ≡ none
    → sum_by (charge_of pk) (save key l lines) ≡ sum_by (charge_of pk) lines +ℤ l.amount_cents
line_charge pk key l lines own c fresh =
    grind (int_laws, sum_by-save_new (charge_of pk) key l lines fresh)

line_adjustment :
    (pk key : ℕ) (l : LineItem) (lines : Table LineItem)
    → l.bill ≡ pk
    → is_charge l.type ≡ true
    → lookup key lines ≡ none
    → sum_by (adjustment_of pk) (save key l lines) ≡ sum_by (adjustment_of pk) lines
line_adjustment pk key l lines own c fresh =
    grind (int_laws, sum_by-save_new (adjustment_of pk) key l lines fresh)

abbrev with_line : ℕ → LineItem → Db → Db
with_line key l db = record db { line_items = save key l db.line_items }

insert_more :
    (pk key n : ℕ) (line : ℕ → LineItem) (lines : List (ℕ → LineItem)) (db after : Db)
    → IsCharge pk line
    → lookup key db.line_items ≡ none
    → Inserted pk lines (with_line key (line n) db) after
    → Inserted pk (line ∷ lines) db after
unfolding amounts
insert_more pk key n line lines db after c fresh h = record {
  bills = h.bills;
  payments = h.payments;
  charges =
      h.charges
      ∙ add_assoc _ _ _ _ (
          line_charge pk key (line n) db.line_items (c.own n) (c.charges n) fresh
          ∙ ap (λ x. sum_by (charge_of pk) db.line_items +ℤ x) (c.steady n));
  adjustments =
      h.adjustments ∙ line_adjustment pk key (line n) db.line_items (c.own n) (c.charges n) fresh;
  others = λ j t.
      let s = SameSums-save db.payments db.line_items pk (line n) (c.own n) key j fresh t in
      record {
        paid = refl;
        charges = (h.others j t).charges ∙ s.charges;
        adjustments = (h.others j t).adjustments ∙ s.adjustments;
      };
}

insert_nothing : (pk : ℕ) (db : Db) → Inserted pk [] db db
unfolding amounts
insert_nothing pk db = record {
  bills = refl;
  payments = refl;
  charges = sym (to_zero _);
  adjustments = refl;
  others = λ j t. record { paid = refl; charges = refl; adjustments = refl };
}

pub insert_lines-Inserted :
    (pk : ℕ) (keys : ℕ → ℕ) (n : ℕ) (lines : List (ℕ → LineItem)) (db after : Db) (x : Unit {0})
    → AreCharges pk lines
    → insert_lines keys n lines db ≡ (ok x, after)
    → Inserted pk lines db after
unfolding insert_lines insert_line
insert_lines-Inserted pk keys n [] db after x c e =
    subst (Inserted pk [] db) (ap (λ o. o.1) e) (insert_nothing pk db)
insert_lines-Inserted pk keys n (line ∷ lines) db after x c e =
    elim (Option-cases (lookup (keys n) db.line_items)) [
      | inl fresh ↦ insert_more pk (keys n) n line lines db after c.0 fresh (
          insert_lines-Inserted pk keys (n + 1) lines (with_line (keys n) (line n) db) after x c.1
            (rw fresh at e))
      | inr (l, found) ↦ let refused = rw found at e in cc
    ]

plain-AreCharges :
    (pk cents : ℕ) (type : LineType) (rest : List (ℕ → LineItem))
    → is_charge type ≡ true
    → AreCharges pk rest
    → AreCharges pk (plain_lines pk type cents ++ rest)
plain-AreCharges pk cents type rest c h = elim (Bool-cases (ltb 0 cents)) [
  | inl e ↦ rw e (record { own = λ _. refl; charges = λ _. c; steady = λ _. refl }, h)
  | inr e ↦ rw e h
]

charge-AreCharges :
    (pk : ℕ) (cs : List Charge) (rest : List (ℕ → LineItem))
    → AreCharges pk rest
    → AreCharges pk (charge_lines pk cs ++ rest)
charge-AreCharges pk [] rest h = h
charge-AreCharges pk (c ∷ cs) rest h = (
  record { own = λ _. refl; charges = λ _. refl; steady = λ _. refl },
  charge-AreCharges pk cs rest h,
)

maintenance_last : (pk cents : ℕ) → AreCharges pk (plain_lines pk maintenance cents)
maintenance_last pk cents = elim (Bool-cases (ltb 0 cents)) [
  | inl e ↦ rw e (record { own = λ _. refl; charges = λ _. refl; steady = λ _. refl }, tt)
  | inr e ↦ rw e tt
]

pub lines_of-AreCharges :
    (pk : ℕ) (lease : Lease) (cs : List Charge) (settings : WorkspaceSettings)
    → AreCharges pk (lines_of pk lease cs settings)
unfolding lines_of
lines_of-AreCharges pk lease cs settings =
    plain-AreCharges pk lease.monthly_rent_cents rent _ refl
      (charge-AreCharges pk cs _ (maintenance_last pk settings.default_maintenance_cents))

-- The charges of the meters.
unfoldable pub electricity_cents : List Charge → ℤ
electricity_cents [] = pos 0
electricity_cents (c ∷ cs) =
    charge_cents c.usage.units c.tariff.rate_per_unit_cents +ℤ electricity_cents cs

plain-amounts :
    (pk cents : ℕ) (type : LineType) (rest : List (ℕ → LineItem))
    → amounts (plain_lines pk type cents ++ rest) ≡ pos cents +ℤ amounts rest
unfolding amounts
plain-amounts pk cents type rest = elim (Bool-cases (ltb 0 cents)) [
  | inl e ↦ rw e refl
  | inr e ↦ rw e (grind int_laws)
]

charge-amounts :
    (pk : ℕ) (cs : List Charge) (rest : List (ℕ → LineItem))
    → amounts (charge_lines pk cs ++ rest) ≡ electricity_cents cs +ℤ amounts rest
unfolding amounts electricity_cents
charge-amounts pk [] rest = grind int_laws
charge-amounts pk (c ∷ cs) rest =
    ap (λ x. charge_cents c.usage.units c.tariff.rate_per_unit_cents +ℤ x)
      (charge-amounts pk cs rest)
    ∙ sym (add_assoc _ _ _ _ refl)

maintenance-amounts : (pk cents : ℕ) → amounts (plain_lines pk maintenance cents) ≡ pos cents
unfolding amounts
maintenance-amounts pk cents = elim (Bool-cases (ltb 0 cents)) [
  | inl e ↦ rw e (to_zero (pos cents))
  | inr e ↦ rw e (grind int_laws)
]

pub lines_of-amounts :
    (pk : ℕ) (lease : Lease) (cs : List Charge) (settings : WorkspaceSettings)
    → amounts (lines_of pk lease cs settings)
      ≡ pos lease.monthly_rent_cents
        +ℤ (electricity_cents cs +ℤ pos settings.default_maintenance_cents)
unfolding lines_of
lines_of-amounts pk lease cs settings =
    plain-amounts pk lease.monthly_rent_cents rent _
    ∙ ap (λ x. pos lease.monthly_rent_cents +ℤ x)
        (charge-amounts pk cs _
          ∙ ap (λ x. electricity_cents cs +ℤ x)
              (maintenance-amounts pk settings.default_maintenance_cents))
