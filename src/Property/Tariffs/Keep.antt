-- ===== src/Property/Tariffs/Keep.antt =====
-- `TariffService.create` of apps/properties/services.py and the ranges of the active rates.
use tenora.Base.{
  ℕ, true, false, ◌≡◌, ◌⊎◌, ◌↔◌, ◌<◌, ◌≤◌, ◌-◌, refl, some, none, ◌==◌, arith, Bool-cases,
  Option-cases, inl, inr,
}
use tenora.Base.Int.{ℤ}
use tenora.Base.Table.{Table, lookup, save}
use tenora.Base.Rows.{
  AllRows, AllRows-map, AllRows-both, AllRows-save, AllRows-lookup-none, Pairs-save, IsRow,
  Pairs-IsRow, AllRows-IsRow, save-IsRow,
}
use tenora.Exec.{Result, ok, err}
use tenora.Property.Db.{Db}
use tenora.Property.Rows.{Tariff}
use tenora.Property.Tariffs.{
  Found, latest, not_ended, is_effective, applicable, is_current, close_latest, starts_after,
  create,
}
use tenora.Property.Tariffs.Disjoint.{
  EndsBefore, Clear, no_rivals, precedes, follows, Clear-flip, Clear-apart, IsRange, IsDisjoint,
  Clear-day, Chosen, NoLater, latest-Chosen, latest-NoLater,
}

-- The rate is no rival of a new one from a day, or ends before that day.
abbrev Behind : ℕ → ℕ → ℕ → Tariff → Type 0
Behind tenant day _ u = is_current tenant u ≡ true → EndsBefore u day

module _ (tenant day pk : ℕ) (s : Tariff) (current : is_current tenant s ≡ true)
    (starts : s.effective_from < day) where
  -- Nothing that starts no later than an ended rate reaches past it.
  Behind-row :
      (i : ℕ) (u : Tariff)
      → EndsBefore s day
      → IsRange pk s
      → ((i ≡ pk) × (u ≡ s)) ⊎ Clear pk s i u
      → NoLater (is_current tenant) (some (pk, s)) i u
      → Behind tenant day i u
  Behind-row i u e r (inl same) n q = rw (same.1) e
  Behind-row i u e r (inr (no_rivals a f)) n q =
      absurd (f (ground arith) (ground arith) (ground arith))
  Behind-row i u e r (inr (precedes a h)) n q = let b = n q in ground arith
  Behind-row i u e r (inr (follows a h)) n q = ground arith

  abbrev shortened : Tariff
  shortened = record s { effective_to = some (day - 1) }

  shorten-Clear :
      (i : ℕ) (u : Tariff) → not_ended day s ≡ true → Clear pk s i u → Clear pk shortened i u
  shorten-Clear i u e (no_rivals a f) = no_rivals a f
  shorten-Clear i u e (precedes a h) = precedes a (ground arith)
  shorten-Clear i u e (follows a h) = follows a h

  shorten-IsRange : IsRange pk shortened
  shorten-IsRange = ground arith

  shorten-EndsBefore : EndsBefore shortened day
  shorten-EndsBefore = ground arith

-- No rate of the tenant reaches a day.
record Ready (tenant day : ℕ) (t : Table Tariff) : Type 0 where
  disjoint : IsDisjoint t
  behind : AllRows (Behind tenant day) t

module _ (tenant day pk : ℕ) (s : Tariff) (current : is_current tenant s ≡ true)
    (starts : s.effective_from < day) where
  ended-Ready :
      (t : Table Tariff)
      → IsDisjoint t
      → IsRow pk s t
      → AllRows (NoLater (is_current tenant) (some (pk, s))) t
      → EndsBefore s day
      → Ready tenant day t
  ended-Ready t d row n e = record {
    disjoint = d;
    behind =
        AllRows-map _ _ t
          (λ i u h.
            Behind-row tenant day pk s current starts i u e
              (AllRows-IsRow pk s IsRange t d.ranges row) h.0 h.1)
          (AllRows-both _ _ t (Pairs-IsRow Clear Clear-flip pk s t d.clear row) n);
  }

  keep_other :
      (i : ℕ) (u : Tariff)
      → not_ended day s ≡ true
      → ((i ≡ pk) × (u ≡ s)) ⊎ Clear pk s i u
      → (i == pk) ≡ false
      → Clear pk (record s { effective_to = some (day - 1) }) i u
  keep_other i u e (inl same) other = ground arith
  keep_other i u e (inr c) other = shorten-Clear tenant day pk s current starts i u e c

  shorten-IsDisjoint :
      (t : Table Tariff)
      → IsDisjoint t
      → IsRow pk s t
      → not_ended day s ≡ true
      → IsDisjoint (save pk (record s { effective_to = some (day - 1) }) t)
  shorten-IsDisjoint t d row e = record {
    ranges = AllRows-save IsRange pk _ t d.ranges (shorten-IsRange tenant day pk s current starts);
    clear = Pairs-save Clear Clear-flip Clear-apart pk _ t d.clear (
        AllRows-map _ _ t (λ i u c. keep_other i u e c)
          (Pairs-IsRow Clear Clear-flip pk s t d.clear row));
  }

close_latest-Ready :
    (tenant day : ℕ) (t : Table Tariff) (f : Found)
    → IsDisjoint t
    → Chosen (is_current tenant) t f
    → AllRows (NoLater (is_current tenant) f) t
    → starts_after day f ≡ true
    → Ready tenant day (close_latest day f t)
unfolding close_latest
close_latest-Ready tenant day t none d c n a = record {
  disjoint = d;
  behind = AllRows-map _ _ t (λ i u h q. ground arith) n;
}
close_latest-Ready tenant day t (some (pk, s)) d c n a = elim (Bool-cases (not_ended day s)) [
  | inl e ↦ rw e (
      ended-Ready tenant day pk (record s { effective_to = some (day - 1) }) c.1 (ground arith) _
        (shorten-IsDisjoint tenant day pk s c.1 (ground arith) t d c.0 e) (save-IsRow pk _ t)
        (AllRows-save _ pk _ t n (λ _. ground arith))
        (shorten-EndsBefore tenant day pk s c.1 (ground arith)))
  | inr e ↦ rw e (ended-Ready tenant day pk s c.1 (ground arith) t d c.0 n e)
]

abbrev new_rate : ℕ → ℕ → ℤ → ℕ → Tariff
new_rate actor tenant rate day = record {
  tenant = tenant;
  rate_per_unit_cents = rate;
  effective_from = day;
  effective_to = none;
  is_active = true;
  created_by = actor;
}

Clear-new :
    (pk actor tenant : ℕ) (rate : ℤ) (day i : ℕ) (u : Tariff)
    → (i == pk) ≡ false
    → Behind tenant day i u
    → Clear pk (new_rate actor tenant rate day) i u
Clear-new pk actor tenant rate day i u other h = elim (Bool-cases (is_current tenant u)) [
  | inl e ↦ follows (ground arith) (h e)
  | inr e ↦ no_rivals (ground arith) (λ x y z. ground arith)
]

save-IsDisjoint :
    (pk actor tenant : ℕ) (rate : ℤ) (day : ℕ) (t : Table Tariff)
    → lookup pk t ≡ none
    → Ready tenant day t
    → IsDisjoint (save pk (new_rate actor tenant rate day) t)
save-IsDisjoint pk actor tenant rate day t fresh r = record {
  ranges = AllRows-save IsRange pk _ t r.disjoint.ranges refl;
  clear = Pairs-save Clear Clear-flip Clear-apart pk _ t r.disjoint.clear (
      AllRows-map _ _ t (λ i u h _. Clear-new pk actor tenant rate day i u h.0 h.1)
        (AllRows-both _ _ t (AllRows-lookup-none pk t fresh) r.behind));
}

-- A refused rate leaves everything as it was; a recorded one starts after the current one, which
-- ends on the day before.
abbrev Outcome : ℕ → ℕ → ℕ → ℤ → ℕ → Db → Result ℕ × Db → Type 0
Outcome pk actor tenant rate day db (err e, db') = db' ≡ db
Outcome pk actor tenant rate day db (ok _, db') =
    let current = latest (is_current tenant) db.tariffs in
    (starts_after day current ≡ true)
    × (lookup pk (close_latest day current db.tariffs) ≡ none)
    × (db'.tariffs ≡ save pk (new_rate actor tenant rate day) (close_latest day current db.tariffs))

create-Outcome :
    (pk actor tenant : ℕ) (rate : ℤ) (day : ℕ) (db : Db)
    → Outcome pk actor tenant rate day db (create pk actor tenant rate day db)
unfolding create
create-Outcome pk actor tenant rate day db = ground arith

Outcome-IsDisjoint :
    (pk actor tenant : ℕ) (rate : ℤ) (day : ℕ) (db : Db) (o : Result ℕ × Db)
    → IsDisjoint db.tariffs
    → Outcome pk actor tenant rate day db o
    → IsDisjoint o.1.tariffs
Outcome-IsDisjoint pk actor tenant rate day db (err e, db') d o = rw o d
Outcome-IsDisjoint pk actor tenant rate day db (ok _, db') d (starts, fresh, eq) = rw eq (
    save-IsDisjoint pk actor tenant rate day _ fresh (
      close_latest-Ready tenant day db.tariffs _ d (latest-Chosen _ db.tariffs)
        (latest-NoLater _ db.tariffs) starts))

-- If no range of a rate ends before it starts and the ranges of a workspace's active rates do not
-- overlap, then this still holds after TariffService.create, whichever way the call ends.
pub create_tariff-IsDisjoint :
    (pk actor tenant : ℕ) (rate : ℤ) (day : ℕ) (db : Db)
    → IsDisjoint db.tariffs
    → IsDisjoint (create pk actor tenant rate day db).1.tariffs
create_tariff-IsDisjoint pk actor tenant rate day db d =
    Outcome-IsDisjoint pk actor tenant rate day db _ d (create-Outcome pk actor tenant rate day db)

same_row :
    (tenant day : ℕ) (t : Table Tariff) (j : ℕ) (r : Tariff) (k : ℕ) (s : Tariff)
    → IsDisjoint t
    → IsRow j r t
    → IsRow k s t
    → is_effective tenant day r ≡ true
    → is_effective tenant day s ≡ true
    → (k ≡ j) × (s ≡ r)
same_row tenant day t j r k s d a b x y =
    elim (AllRows-IsRow k s _ t (Pairs-IsRow Clear Clear-flip j r t d.clear a) b) [
      | inl same ↦ same
      | inr c ↦ absurd (Clear-day j r k s tenant day c x y)
    ]

-- An active rate of a workspace whose first day is not after a day and whose last day, if it has
-- one, is not before it.
pub record IsInForce (tenant day : ℕ) (s : Tariff) : Type 0 where
  pub own : s.tenant ≡ tenant
  pub active : s.is_active ≡ true
  pub first : s.effective_from ≤ day
  pub last : (to : ℕ) → s.effective_to ≡ some to → day ≤ to

in_force : (tenant day : ℕ) (s : Tariff) → is_effective tenant day s ≡ true → IsInForce tenant day s
in_force tenant day s h = record {
  own = ground arith;
  active = ground arith;
  first = ground arith;
  last = λ to e. ground arith;
}

effective :
    (tenant day : ℕ) (s : Tariff) → IsInForce tenant day s → is_effective tenant day s ≡ true
effective tenant day s h = elim (Option-cases s.effective_to) [
  | inl open_ ↦ ground (arith, h.own, h.active, h.first)
  | inr (to, e) ↦ ground (arith, h.own, h.active, h.first, h.last to e)
]

-- Where the ranges of the active rates do not overlap, applicable answers a rate for a workspace
-- and a day exactly when that rate is in the table, active and of the workspace, its first day is
-- not after the day, and its last day, if it has one, is not before it.
pub applicable-IsInForce :
    (tenant day : ℕ) (t : Table Tariff) (k : ℕ) (s : Tariff)
    → IsDisjoint t
    → (applicable tenant day t ≡ some (k, s)) ↔ (IsRow k s t × IsInForce tenant day s)
unfolding applicable
applicable-IsInForce tenant day t k s d = (found, chosen)
  where
    found : latest (is_effective tenant day) t ≡ some (k, s) → IsRow k s t × IsInForce tenant day s
    found e =
        let c : Chosen (is_effective tenant day) t (some (k, s)) =
          rw e at (latest-Chosen (is_effective tenant day) t) in
        (c.0, in_force tenant day s c.1)

    chosen : IsRow k s t × IsInForce tenant day s → latest (is_effective tenant day) t ≡ some (k, s)
    chosen h = elim (Option-cases (latest (is_effective tenant day) t)) [
      | inl none_ ↦
          let no : is_effective tenant day s ≡ false =
            AllRows-IsRow k s (NoLater (is_effective tenant day) none) t
              (rw none_ at (latest-NoLater (is_effective tenant day) t)) h.0 in
          let yes_ = effective tenant day s h.1 in absurd (ground arith)
      | inr ((j, r), e) ↦
          let c : Chosen (is_effective tenant day) t (some (j, r)) =
            rw e at (latest-Chosen (is_effective tenant day) t) in
          let same = same_row tenant day t j r k s d c.0 h.0 c.1 (effective tenant day s h.1) in
          rw (e, same.0, same.1) refl
    ]
