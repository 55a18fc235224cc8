-- ===== src/Property/Bills/Edit.antt =====
-- The lines of a draft: `add_line_item` and `remove_line_item` on every branch.
use tenora.Base.{
  ℕ, true, false, ◌≡◌, ◌≢◌, refl, Option, none, some, ◌==◌, arith, Option-cases, inl, inr,
}
use tenora.Base.Int.{ℤ, pos, ◌≤ℤ◌, ◌<ℤ◌, -ℤ_parts}
use tenora.Base.Table.{Table, lookup, save, erase}
use tenora.Exec.{Result, ok, err}
use tenora.Property.Rows.{Bill, draft, LineItem, LineType, discount, is_charge}
use tenora.Property.Db.{Db}
use tenora.Property.Bills.{
  add_line_item, remove_line_item, stored_amount, next_order, is_manual, settled,
}
use tenora.Property.Books.{Booked}
use tenora.Property.Books.Writes.{SameSums}
use tenora.Property.Books.Lines.{totalled, SameSums-save, SameSums-erase, relist-IsBooked}

settled_draft : (p t : ℤ) → settled draft p t ≡ draft
unfolding settled
settled_draft p t = refl

-- The line that a request adds.
abbrev pub new_line : ℕ → LineType → ℤ → Option ℤ → Option ℤ → Db → LineItem
new_line pk type amount quantity price db = record {
  bill = pk;
  type = type;
  quantity = quantity;
  unit_price_cents = price;
  amount_cents = stored_amount type amount;
  usage = none;
  correction = none;
  sort_order = next_order pk db.line_items;
}

-- An error, and nothing is written; or the lines of the draft are `after`, and its totals theirs.
abbrev pub Edited : ℕ → Bill → Table LineItem → Db → Result ℕ × Db → Type 0
Edited pk b after db (err e, db') = db' ≡ db
Edited pk b after db (ok _, db') =
    (b.status ≡ draft)
    × (pos 0 ≤ℤ (totalled pk after b).total_cents)
    × (db'.bills ≡ save pk (totalled pk after b) db.bills)
    × (db'.line_items ≡ after)
    × (db'.payments ≡ db.payments)

module _ (line_pk actor pk : ℕ) (type : LineType) (amount : ℤ) (quantity price : Option ℤ)
    (b : Bill) (db : Db) (there : lookup pk db.bills ≡ some b) where
  pub add_line_item-Edited :
      Edited pk b
        (save line_pk (new_line pk type amount quantity price db) db.line_items)
        db
        (add_line_item line_pk actor pk type amount quantity price db)
  unfolding add_line_item
  add_line_item-Edited = ground arith

  -- A line is added under a new key, with a type that is not computed.
  pub add_line_item_checks :
      (x : ℕ)
      → (add_line_item line_pk actor pk type amount quantity price db).0 ≡ ok x
      → (lookup line_pk db.line_items ≡ none)
        × (is_manual type ≡ true)
        × (amount ≢ pos 0)
        × (is_charge type ≡ true → pos 0 <ℤ stored_amount type amount)
        × (type ≡ discount → stored_amount type amount <ℤ pos 0)
  unfolding add_line_item
  add_line_item_checks x h = ground (arith, -ℤ_parts (pos 0) amount)

module _ (actor pk : ℕ) (b : Bill) (db : Db) (there : lookup pk db.bills ≡ some b) where
  pub remove_line_item-Edited :
      (line_pk : ℕ)
      → Edited pk b (erase line_pk db.line_items) db (remove_line_item actor pk line_pk db)
  unfolding remove_line_item
  remove_line_item-Edited line_pk = ground arith

  remove_absent :
      (line_pk x : ℕ)
      → lookup line_pk db.line_items ≡ none
      → (remove_line_item actor pk line_pk db).0 ≢ ok x
  unfolding remove_line_item
  remove_absent line_pk x e = ground arith

  remove_own :
      (line_pk x : ℕ) (l : LineItem)
      → lookup line_pk db.line_items ≡ some l
      → (remove_line_item actor pk line_pk db).0 ≡ ok x
      → l.bill ≡ pk
  unfolding remove_line_item
  remove_own line_pk x l e h = ground arith

  -- Only a line of the bill itself is removed.
  pub remove_line_item_checks :
      (line_pk x : ℕ)
      → (remove_line_item actor pk line_pk db).0 ≡ ok x
      → (l : LineItem) × (lookup line_pk db.line_items ≡ some l) × (l.bill ≡ pk)
  remove_line_item_checks line_pk x h = elim (Option-cases (lookup line_pk db.line_items)) [
    | inl e ↦ absurd (remove_absent line_pk x e h)
    | inr (l, e) ↦ (l, e, remove_own line_pk x l e h)
  ]

module _ (pk : ℕ) (b : Bill) (after : Table LineItem) (db : Db) (booked : Booked db)
    (there : lookup pk db.bills ≡ some b) where
  Edited-Booked :
      (o : Result ℕ × Db)
      → ((x : ℕ)
          → o.0 ≡ ok x
          → (j : ℕ) → (pk == j) ≡ false
          → SameSums db.payments db.payments db.line_items after j)
      → Edited pk b after db o
      → Booked o.1
  Edited-Booked (err e, db') same o = rw o booked
  Edited-Booked (ok x, db') same (draft_bill, low, eb, el, ep) =
      rw (eb, el, ep)
        (relist-IsBooked db.bills db.payments db.line_items after pk b booked there (same x refl)
          (rw draft_bill) (rw draft_bill (settled_draft _ _)) low)

add_missing :
    (line_pk actor pk : ℕ) (type : LineType) (amount : ℤ) (quantity price : Option ℤ) (db : Db)
    → lookup pk db.bills ≡ none
    → (add_line_item line_pk actor pk type amount quantity price db).1 ≡ db
unfolding add_line_item
add_missing line_pk actor pk type amount quantity price db e = ground arith

-- If the books are in order, they are in order after BillService.add_line_item, whichever way the
-- call ends.
pub add_line_item-Booked :
    (line_pk actor pk : ℕ) (type : LineType) (amount : ℤ) (quantity price : Option ℤ) (db : Db)
    → Booked db
    → Booked (add_line_item line_pk actor pk type amount quantity price db).1
add_line_item-Booked line_pk actor pk type amount quantity price db h =
    elim (Option-cases (lookup pk db.bills)) [
      | inl e ↦ rw (add_missing line_pk actor pk type amount quantity price db e) h
      | inr (b, e) ↦
          let line = new_line pk type amount quantity price db in
          Edited-Booked pk b (save line_pk line db.line_items) db h e _
            (λ x done j t.
              SameSums-save db.payments db.line_items pk line refl line_pk j
                (add_line_item_checks line_pk actor pk type amount quantity price b db e x done).0
                t)
            (add_line_item-Edited line_pk actor pk type amount quantity price b db e)
    ]

remove_missing :
    (actor pk line_pk : ℕ) (db : Db)
    → lookup pk db.bills ≡ none
    → (remove_line_item actor pk line_pk db).1 ≡ db
unfolding remove_line_item
remove_missing actor pk line_pk db e = ground arith

-- If the books are in order, they are in order after BillService.remove_line_item, whichever way
-- the call ends.
pub remove_line_item-Booked :
    (actor pk line_pk : ℕ) (db : Db) → Booked db → Booked (remove_line_item actor pk line_pk db).1
remove_line_item-Booked actor pk line_pk db h = elim (Option-cases (lookup pk db.bills)) [
  | inl e ↦ rw (remove_missing actor pk line_pk db e) h
  | inr (b, e) ↦
      Edited-Booked pk b (erase line_pk db.line_items) db h e _
        (λ x done j t.
          let (l, found, own) = remove_line_item_checks actor pk b db e line_pk x done in
          SameSums-erase db.payments db.line_items pk l own line_pk j found t)
        (remove_line_item-Edited actor pk b db e line_pk)
]
