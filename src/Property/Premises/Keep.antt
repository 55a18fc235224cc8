-- ===== src/Property/Premises/Keep.antt =====
-- `LeaseService.create` and `LeaseService.end` of apps/properties/services.py and the occupancy of
-- the units.
use tenora.Base.{
  ℕ, true, false, ◌≡◌, refl, sym, none, some, ◌==◌, arith, Bool-cases, Option-cases, inl, inr,
}
use tenora.Base.Table.{Table, lookup, save, lookup-save}
use tenora.Exec.{Result, ok, err}
use tenora.Property.Rows.{Lease, RentalUnit, occupied, vacant}
use tenora.Property.Db.{Db, Clock}
use tenora.Property.Leases.{is_active_lease, is_occupied, Terms, lease_violates, create, end_lease}
use tenora.Property.Leases.Changed.{Ended, end_lease-Ended, ended_on}
use tenora.Property.Premises.Occupancy.{is_let_out, Occupancy, save-let_out}
use tenora.Property.Premises.Tenancy.{
  new_lease, LetBy, create-LetBy, create_missing, only_active, after_save, one_then,
}

module _ (clock : Clock) (pk : ℕ) (t : Terms) (u : RentalUnit) (db : Db)
    (h : Occupancy db.leases db.units) (found : lookup t.unit db.units ≡ some u)
    (own : (u.tenant == t.tenant) ≡ true)
    (fits : lease_violates pk (new_lease clock t) db.leases ≡ false) where
  one_after :
      (j k : ℕ) (l m : Lease)
      → lookup j (save pk (new_lease clock t) db.leases) ≡ some l
      → lookup k (save pk (new_lease clock t) db.leases) ≡ some m
      → is_active_lease l ≡ true
      → is_active_lease m ≡ true
      → l.unit ≡ m.unit
      → j ≡ k
  one_after = one_then pk (new_lease clock t) db.leases db.units h (λ k l other e b a same.
      only_active pk k (new_lease clock t) l db.leases fits a other e b same)

  let_new :
      is_let_out t.tenant (lookup t.unit (save t.unit (record u { status = occupied }) db.units))
      ≡ true
  let_new = rw (lookup-save t.unit t.unit (record u { status = occupied }) db.units) (ground arith)

  let_after :
      is_active_lease (new_lease clock t) ≡ true
      → Occupancy
          (save pk (new_lease clock t) db.leases)
          (save t.unit (record u { status = occupied }) db.units)
  let_after a = record {
    one = one_after;
    let_out = λ k l e b. elim (after_save k pk (new_lease clock t) l db.leases e) [
      | inl (p, q) ↦ rw (sym q) let_new
      | inr (other, old) ↦
          save-let_out t.unit l.tenant l.unit u (record u { status = occupied }) db.units found refl
            (λ same.
              absurd (
                only_active pk k (new_lease clock t) l db.leases fits a other old b (ground arith)))
            (h.let_out k l old b)
    ];
  }

  idle_after :
      is_active_lease (new_lease clock t) ≡ false
      → Occupancy (save pk (new_lease clock t) db.leases) db.units
  idle_after a = record {
    one = one_after;
    let_out = λ k l e b. elim (after_save k pk (new_lease clock t) l db.leases e) [
      | inl (p, q) ↦ let active = rw (sym q) at b in ground arith
      | inr (other, old) ↦ h.let_out k l old b
    ];
  }

LetBy-Occupancy :
    (clock : Clock) (pk : ℕ) (t : Terms) (u : RentalUnit) (db : Db) (o : Result ℕ × Db)
    → Occupancy db.leases db.units
    → lookup t.unit db.units ≡ some u
    → LetBy clock pk t u db o
    → Occupancy o.1.leases o.1.units
LetBy-Occupancy clock pk t u db (err e, db') h found o = rw o h
LetBy-Occupancy clock pk t u db (ok _, db') h found (own, (fits, fresh, el, on, off)) =
    elim (Bool-cases (is_active_lease (new_lease clock t))) [
      | inl a ↦ rw (el, on a) (let_after clock pk t u db h found own fits a)
      | inr a ↦ rw (el, off a) (idle_after clock pk t u db h found own fits a)
    ]

-- If each unit has one active lease at most, and the unit of an active lease belongs to its
-- workspace and is occupied, then this still holds after LeaseService.create, whichever way the
-- call ends.
pub create_lease-Occupancy :
    (clock : Clock) (pk : ℕ) (t : Terms) (db : Db)
    → Occupancy db.leases db.units
    → Occupancy (create clock pk t db).1.leases (create clock pk t db).1.units
create_lease-Occupancy clock pk t db h = elim (Option-cases (lookup t.unit db.units)) [
  | inl e ↦ rw (create_missing clock pk t db e) h
  | inr (u, e) ↦ LetBy-Occupancy clock pk t u db _ h e (create-LetBy clock pk t u db e)
]

module _ (pk day : ℕ) (l : Lease) (u : RentalUnit) (db : Db) (h : Occupancy db.leases db.units)
    (found : lookup pk db.leases ≡ some l) (there : lookup l.unit db.units ≡ some u)
    (active : is_active_lease l ≡ true) where
  one_ended :
      (j k : ℕ) (m n : Lease)
      → lookup j (save pk (ended_on day l) db.leases) ≡ some m
      → lookup k (save pk (ended_on day l) db.leases) ≡ some n
      → is_active_lease m ≡ true
      → is_active_lease n ≡ true
      → m.unit ≡ n.unit
      → j ≡ k
  one_ended =
      one_then pk (ended_on day l) db.leases db.units h (λ k m other e b a same. ground arith)

  apart :
      (k : ℕ) (m : Lease)
      → (k == pk) ≡ false
      → lookup k db.leases ≡ some m
      → is_active_lease m ≡ true
      → (l.unit == m.unit) ≡ true
      → ⊥
  apart k m other e b same = ground (arith, h.one k pk m l e found b active)

  let_ended :
      (units : Table RentalUnit)
      → ((k : ℕ) (m : Lease)
          → (k == pk) ≡ false
          → lookup k db.leases ≡ some m
          → is_active_lease m ≡ true
          → is_let_out m.tenant (lookup m.unit units) ≡ true)
      → Occupancy (save pk (ended_on day l) db.leases) units
  let_ended units g = record {
    one = one_ended;
    let_out = λ k m e b. elim (after_save k pk (ended_on day l) m db.leases e) [
      | inl (p, q) ↦ let still = rw (sym q) at b in ground arith
      | inr (other, old) ↦ g k m other old b
    ];
  }

  Ended-Occupancy : (o : Result ℕ × Db) → Ended pk day l u db o → Occupancy o.1.leases o.1.units
  Ended-Occupancy (err e, db') o = rw o h
  Ended-Occupancy (ok _, db') (_, _, el, on, off) = elim (Bool-cases (is_occupied u)) [
    | inl a ↦
        rw (el, on a)
          (let_ended (save l.unit (record u { status = vacant }) db.units) (λ k m other e b.
            save-let_out l.unit m.tenant m.unit u (record u { status = vacant }) db.units there refl
              (λ same. absurd (apart k m other e b same)) (h.let_out k m e b)))
    | inr a ↦ rw (el, off a) (let_ended db.units (λ k m other e b. h.let_out k m e b))
  ]

end_missing :
    (actor pk day : ℕ) (db : Db) → lookup pk db.leases ≡ none → (end_lease actor pk day db).1 ≡ db
unfolding end_lease
end_missing actor pk day db e = ground arith

end_missing_unit :
    (actor pk day : ℕ) (l : Lease) (db : Db)
    → lookup pk db.leases ≡ some l
    → lookup l.unit db.units ≡ none
    → (end_lease actor pk day db).1 ≡ db
unfolding end_lease
end_missing_unit actor pk day l db e f = ground arith

end_inactive :
    (actor pk day : ℕ) (l : Lease) (db : Db)
    → lookup pk db.leases ≡ some l
    → is_active_lease l ≡ false
    → (end_lease actor pk day db).1 ≡ db
unfolding end_lease
end_inactive actor pk day l db e f = ground arith

-- If each unit has one active lease at most, and the unit of an active lease belongs to its
-- workspace and is occupied, then this still holds after LeaseService.end, whichever way the call
-- ends.
pub end_lease-Occupancy :
    (actor pk day : ℕ) (db : Db)
    → Occupancy db.leases db.units
    → Occupancy (end_lease actor pk day db).1.leases (end_lease actor pk day db).1.units
end_lease-Occupancy actor pk day db h = elim (Option-cases (lookup pk db.leases)) [
  | inl e ↦ rw (end_missing actor pk day db e) h
  | inr (l, e) ↦ elim (Option-cases (lookup l.unit db.units)) [
    | inl f ↦ rw (end_missing_unit actor pk day l db e f) h
    | inr (u, f) ↦ elim (Bool-cases (is_active_lease l)) [
      | inl a ↦ Ended-Occupancy pk day l u db h e f a _ (end_lease-Ended actor pk day l u db e f)
      | inr a ↦ rw (end_inactive actor pk day l db e a) h
    ]
  ]
]
