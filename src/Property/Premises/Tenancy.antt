-- ===== src/Property/Premises/Tenancy.antt =====
-- A lease that is created or ended, and the occupancy of its unit.
use tenora.Base.{
  ℕ, true, false, ◌&&◌, ◌≡◌, ◌⊎◌, sym, ap, ◌∙◌, none, some, ◌==◌, arith, Bool-cases, inl, inr,
}
use tenora.Base.Table.{Table, lookup, save, exists_other, lookup-save, lookup-exists_other}
use tenora.Exec.{Result, ok, err}
use tenora.Property.Rows.{Lease, RentalUnit, occupied}
use tenora.Property.Db.{Db, Clock}
use tenora.Property.Leases.{
  is_active_lease, Terms, initial_status, lease_of, lease_violates, create_locked, create,
}
use tenora.Property.Premises.Occupancy.{Occupancy}

abbrev pub new_lease : Clock → Terms → Lease
new_lease clock t = lease_of t (initial_status clock.today t.end_date)

-- What is written for a new lease of the unit `u`.
abbrev pub Let : Clock → ℕ → Terms → RentalUnit → Db → Result ℕ × Db → Type 0
Let clock pk t u db (err e, db') = db' ≡ db
Let clock pk t u db (ok _, db') =
    (lease_violates pk (new_lease clock t) db.leases ≡ false)
    × (lookup pk db.leases ≡ none)
    × (db'.leases ≡ save pk (new_lease clock t) db.leases)
    × (is_active_lease (new_lease clock t) ≡ true
        → db'.units ≡ save t.unit (record u { status = occupied }) db.units)
    × (is_active_lease (new_lease clock t) ≡ false → db'.units ≡ db.units)

locked-Let :
    (clock : Clock) (pk : ℕ) (t : Terms) (u : RentalUnit) (db : Db)
    → lookup t.unit db.units ≡ some u
    → Let clock pk t u db (create_locked pk t (initial_status clock.today t.end_date) db)
unfolding create_locked
locked-Let clock pk t u db e = ground arith

abbrev pub LetBy : Clock → ℕ → Terms → RentalUnit → Db → Result ℕ × Db → Type 0
LetBy clock pk t u db (err e, db') = db' ≡ db
LetBy clock pk t u db (ok x, db') =
    ((u.tenant == t.tenant) ≡ true) × Let clock pk t u db (ok x, db')

pub create-LetBy :
    (clock : Clock) (pk : ℕ) (t : Terms) (u : RentalUnit) (db : Db)
    → lookup t.unit db.units ≡ some u
    → LetBy clock pk t u db (create clock pk t db)
unfolding create
create-LetBy clock pk t u db e = ground (arith, locked-Let clock pk t u db e)

pub create_missing :
    (clock : Clock) (pk : ℕ) (t : Terms) (db : Db)
    → lookup t.unit db.units ≡ none
    → (create clock pk t db).1 ≡ db
unfolding create
create_missing clock pk t db e = ground arith

-- No lease but the new one is active in its unit.
pub only_active :
    (pk k : ℕ) (n l : Lease) (leases : Table Lease)
    → lease_violates pk n leases ≡ false
    → is_active_lease n ≡ true
    → (k == pk) ≡ false
    → lookup k leases ≡ some l
    → is_active_lease l ≡ true
    → l.unit ≡ n.unit
    → ⊥
unfolding lease_violates
only_active pk k n l leases v a other e b same =
    let free : exists_other pk (λ o. o.unit == n.unit && is_active_lease o) leases ≡ false =
      ground arith in
    ground (
      arith,
      lookup-exists_other (λ o. o.unit == n.unit && is_active_lease o) k pk l leases free other e,
    )

-- A row of the table after a row was written: the new one, or an old one under another key.
pub after_save :
    (k pk : ℕ) (n l : Lease) (leases : Table Lease)
    → lookup k (save pk n leases) ≡ some l
    → ((pk ≡ k) × (n ≡ l)) ⊎ (((k == pk) ≡ false) × (lookup k leases ≡ some l))
after_save k pk n l leases e = elim (Bool-cases (pk == k)) [
  | inl same ↦ inl (ground arith, ground (arith, lookup-save k pk n leases))
  | inr other ↦ inr (ground arith, ground (arith, lookup-save k pk n leases))
]

pub one_then :
    (pk : ℕ) (n : Lease) (leases : Table Lease) (units : Table RentalUnit)
    → Occupancy leases units
    → ((k : ℕ) (l : Lease)
        → (k == pk) ≡ false
        → lookup k leases ≡ some l
        → is_active_lease l ≡ true
        → is_active_lease n ≡ true
        → l.unit ≡ n.unit
        → ⊥)
    → (j k : ℕ) (l m : Lease) → lookup j (save pk n leases) ≡ some l
    → lookup k (save pk n leases) ≡ some m
    → is_active_lease l ≡ true
    → is_active_lease m ≡ true
    → l.unit ≡ m.unit
    → j ≡ k
one_then pk n leases units h only j k l m e f a b same = elim (after_save j pk n l leases e) [
  | inl (p, q) ↦ elim (after_save k pk n m leases f) [
    | inl (r, s) ↦ sym p ∙ r
    | inr (other, old) ↦
        absurd (only k m other old b (rw q a) (sym same ∙ ap (λ x. x.unit) (sym q)))
  ]
  | inr (other, old) ↦ elim (after_save k pk n m leases f) [
    | inl (r, s) ↦ absurd (only j l other old a (rw s b) (same ∙ ap (λ x. x.unit) (sym s)))
    | inr (other', old') ↦ h.one j k l m old old' a b same
  ]
]
