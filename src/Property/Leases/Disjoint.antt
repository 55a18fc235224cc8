-- ===== src/Property/Leases/Disjoint.antt =====
-- The days of the leases of a unit, and `LeaseService.create` of apps/properties/services.py.
use tenora.Base.{ℕ, true, false, ◌≡◌, ◌⊎◌, ◌∙◌, sym, some, none, ◌==◌, arith, Bool-cases, inl, inr}
use tenora.Base.Table.{Table, lookup, save, exists}
use tenora.Base.Rows.{
  Pairs, AllRows-map, AllRows-both, AllRows-exists, AllRows-lookup-none, Pairs-save, lookup-IsRow,
  Pairs-IsRow,
}
use tenora.Exec.{Result, ok, err}
use tenora.Property.Db.{Db, Clock}
use tenora.Property.Rows.{Lease}
use tenora.Property.Leases.{
  counts, by_end, overlaps, Terms, initial_status, lease_of, create_locked, create,
}

-- Two leases are of different workspaces or units, or one does not count, or one ends before the
-- other starts.
pub data Apart (j : ℕ) (l : Lease) (k : ℕ) (m : Lease) : Type 0 where
  unrelated :
      (j == k) ≡ false
      → (l.tenant ≡ m.tenant → l.unit ≡ m.unit → counts l ≡ true → counts m ≡ true → ⊥)
      → Apart j l k m
  before : (j == k) ≡ false → by_end m.start_date l.end_date ≡ false → Apart j l k m
  after : (j == k) ≡ false → by_end l.start_date m.end_date ≡ false → Apart j l k m

Apart-flip : (j : ℕ) (l : Lease) (k : ℕ) (m : Lease) → Apart j l k m → Apart k m j l
Apart-flip j l k m (unrelated a f) = unrelated (ground arith) (λ t e x y. f (sym t) (sym e) y x)
Apart-flip j l k m (before a h) = after (ground arith) h
Apart-flip j l k m (after a h) = before (ground arith) h

Apart-other : (j : ℕ) (l : Lease) (k : ℕ) (m : Lease) → Apart j l k m → (j == k) ≡ false
Apart-other j l k m (unrelated a f) = a
Apart-other j l k m (before a h) = a
Apart-other j l k m (after a h) = a

abbrev pub IsDisjoint : Table Lease → Type 0
IsDisjoint t = Pairs Apart t

-- What the query for overlapping leases does not find is apart from the new lease.
unlike_apart :
    (pk : ℕ) (n : Lease) (i : ℕ) (u : Lease)
    → (i == pk) ≡ false
    → overlaps n.tenant n.unit n.start_date n.end_date u ≡ false
    → Apart pk n i u
unlike_apart pk n i u other h = elim (Bool-cases (by_end u.start_date n.end_date)) [
  | inr e ↦ before (ground arith) e
  | inl e ↦ elim (Bool-cases (by_end n.start_date u.end_date)) [
    | inr f ↦ after (ground arith) f
    | inl f ↦ unrelated (ground arith) (λ t x y z. ground arith)
  ]
]

insert-IsDisjoint :
    (pk : ℕ) (n : Lease) (t : Table Lease)
    → IsDisjoint t
    → lookup pk t ≡ none
    → exists (overlaps n.tenant n.unit n.start_date n.end_date) t ≡ false
    → IsDisjoint (save pk n t)
insert-IsDisjoint pk n t d fresh free = Pairs-save Apart Apart-flip Apart-other pk n t d (
    AllRows-map _ _ t (λ i u h _. unlike_apart pk n i u h.0 h.1)
      (AllRows-both _ _ t (AllRows-lookup-none pk t fresh) (AllRows-exists _ t free)))

-- A lease is shortened, or keeps its days, and does not begin to count.
pub record Narrower (l n : Lease) : Type 0 where
  pub tenant : n.tenant ≡ l.tenant
  pub unit : n.unit ≡ l.unit
  pub start : n.start_date ≡ l.start_date
  pub end : (day : ℕ) → by_end day l.end_date ≡ false → by_end day n.end_date ≡ false
  pub counts : counts n ≡ true → counts l ≡ true

narrower_apart :
    (pk : ℕ) (l n : Lease) (i : ℕ) (u : Lease)
    → Narrower l n
    → ((i ≡ pk) × (u ≡ l)) ⊎ Apart pk l i u
    → (i == pk) ≡ false
    → Apart pk n i u
narrower_apart pk l n i u w (inl same) other = ground arith
narrower_apart pk l n i u w (inr (unrelated a f)) other =
    unrelated a (λ t e x y. f (sym (w.tenant) ∙ t) (sym (w.unit) ∙ e) (w.counts x) y)
narrower_apart pk l n i u w (inr (before a h)) other = before a (w.end u.start_date h)
narrower_apart pk l n i u w (inr (after a h)) other = after a (rw (w.start) h)

pub narrow-IsDisjoint :
    (pk : ℕ) (l n : Lease) (t : Table Lease)
    → IsDisjoint t
    → lookup pk t ≡ some l
    → Narrower l n
    → IsDisjoint (save pk n t)
narrow-IsDisjoint pk l n t d found w = Pairs-save Apart Apart-flip Apart-other pk n t d (
    AllRows-map _ _ t (λ i u c. narrower_apart pk l n i u w c)
      (Pairs-IsRow Apart Apart-flip pk l t d (lookup-IsRow pk l t found)))

abbrev Created : Clock → ℕ → Terms → Db → Result ℕ × Db → Type 0
Created clock pk t db (err e, db') = db' ≡ db
Created clock pk t db (ok _, db') =
    (lookup pk db.leases ≡ none)
    × (exists (overlaps t.tenant t.unit t.start_date t.end_date) db.leases ≡ false)
    × (db'.leases ≡ save pk (lease_of t (initial_status clock.today t.end_date)) db.leases)

create_locked-Created :
    (clock : Clock) (pk : ℕ) (t : Terms) (db : Db)
    → Created clock pk t db (create_locked pk t (initial_status clock.today t.end_date) db)
unfolding create_locked
create_locked-Created clock pk t db = ground arith

create-Created :
    (clock : Clock) (pk : ℕ) (t : Terms) (db : Db) → Created clock pk t db (create clock pk t db)
unfolding create
create-Created clock pk t db = ground (arith, create_locked-Created clock pk t db)

Created-IsDisjoint :
    (clock : Clock) (pk : ℕ) (t : Terms) (db : Db) (o : Result ℕ × Db)
    → IsDisjoint db.leases
    → Created clock pk t db o
    → IsDisjoint o.1.leases
Created-IsDisjoint clock pk t db (err e, db') d o = rw o d
Created-IsDisjoint clock pk t db (ok _, db') d (fresh, free, eq) = rw eq (
    insert-IsDisjoint pk (lease_of t (initial_status clock.today t.end_date)) db.leases d fresh
      free)

-- If no two leases of a unit that are active or ended share a day, then this still holds after
-- LeaseService.create, whichever way the call ends.
pub create_lease-IsDisjoint :
    (clock : Clock) (pk : ℕ) (t : Terms) (db : Db)
    → IsDisjoint db.leases
    → IsDisjoint (create clock pk t db).1.leases
create_lease-IsDisjoint clock pk t db d =
    Created-IsDisjoint clock pk t db _ d (create-Created clock pk t db)
