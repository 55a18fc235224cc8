-- ===== src/Property/Tariffs/Disjoint.antt =====
-- The ranges of the active rates of a workspace (`TariffService` of apps/properties/services.py),
-- and the query for the latest rate.
use tenora.Base.{
  ℕ, Bool, true, false, ◌≡◌, ◌≤◌, refl, sym, none, some, [], ◌∷◌, ◌==◌, ltb, if◌then◌else◌, arith,
  Bool-cases, inl, inr,
}
use tenora.Base.Table.{Table}
use tenora.Base.Rows.{AllRows, Pairs, AllRows-map, IsRow, here, there}
use tenora.Property.Rows.{Tariff}
use tenora.Property.Tariffs.{Found, later, latest, not_ended, is_effective}

-- A range ends before a day.
abbrev pub EndsBefore : Tariff → ℕ → Type 0
EndsBefore t day = not_ended day t ≡ false

-- One of two rates ends before the other starts, or they do not compete.
pub data Clear (j : ℕ) (r : Tariff) (k : ℕ) (s : Tariff) : Type 0 where
  no_rivals :
      (j == k) ≡ false
      → (r.tenant ≡ s.tenant → r.is_active ≡ true → s.is_active ≡ true → ⊥)
      → Clear j r k s
  precedes : (j == k) ≡ false → EndsBefore r s.effective_from → Clear j r k s
  follows : (j == k) ≡ false → EndsBefore s r.effective_from → Clear j r k s

pub Clear-flip : (j : ℕ) (r : Tariff) (k : ℕ) (s : Tariff) → Clear j r k s → Clear k s j r
Clear-flip j r k s (no_rivals a f) = no_rivals (ground arith) (λ e x y. f (sym e) y x)
Clear-flip j r k s (precedes a h) = follows (ground arith) h
Clear-flip j r k s (follows a h) = precedes (ground arith) h

pub Clear-apart : (j : ℕ) (r : Tariff) (k : ℕ) (s : Tariff) → Clear j r k s → (j == k) ≡ false
Clear-apart j r k s (no_rivals a f) = a
Clear-apart j r k s (precedes a h) = a
Clear-apart j r k s (follows a h) = a

-- A range has a day: it does not end before it starts.
abbrev pub IsRange : ℕ → Tariff → Type 0
IsRange _ t = not_ended t.effective_from t ≡ true

pub record IsDisjoint (t : Table Tariff) : Type 0 where
  pub ranges : AllRows IsRange t
  pub clear : Pairs Clear t

-- Two rates under different keys are not both effective on a day.
pub Clear-day :
    (j : ℕ) (r : Tariff) (k : ℕ) (s : Tariff) (tenant day : ℕ)
    → Clear j r k s
    → is_effective tenant day r ≡ true
    → is_effective tenant day s ≡ true
    → ⊥
Clear-day j r k s tenant day (no_rivals a f) x y = f (ground arith) (ground arith) (ground arith)
Clear-day j r k s tenant day (precedes a h) x y = ground arith
Clear-day j r k s tenant day (follows a h) x y = ground arith

-- The row that `latest` found is in the table and passes the filter.
abbrev pub Chosen : (Tariff → Bool) → Table Tariff → Found → Type 0
Chosen p t none = Unit
Chosen p t (some (k, s)) = IsRow k s t × (p s ≡ true)

abbrev stepped : (Tariff → Bool) → ℕ → Tariff → Found → Found
stepped p j r f = if p r then later j r f else f

Chosen-step :
    (p : Tariff → Bool) (j : ℕ) (r : Tariff) (t : Table Tariff) (f : Found)
    → Chosen p t f
    → Chosen p ((j, r) ∷ t) (stepped p j r f)
Chosen-step p j r t none h = elim (Bool-cases (p r)) [
  | inl e ↦ rw e (here refl refl, e)
  | inr e ↦ rw e tt
]
Chosen-step p j r t (some (k, s)) h = elim (Bool-cases (p r)) [
  | inl e ↦ elim (Bool-cases (ltb r.effective_from s.effective_from)) [
    | inl l ↦ rw (e, l) (there h.0, h.1)
    | inr l ↦ rw (e, l) (here refl refl, e)
  ]
  | inr e ↦ rw e (there h.0, h.1)
]

pub latest-Chosen : (p : Tariff → Bool) (t : Table Tariff) → Chosen p t (latest p t)
unfolding latest
latest-Chosen p [] = tt
latest-Chosen p ((j, r) ∷ t) = Chosen-step p j r t (latest p t) (latest-Chosen p t)

-- No row that passes the filter starts later than the one found.
abbrev pub NoLater : (Tariff → Bool) → Found → ℕ → Tariff → Type 0
NoLater p none _ r = p r ≡ false
NoLater p (some (_, s)) _ r = p r ≡ true → r.effective_from ≤ s.effective_from

head-NoLater :
    (p : Tariff → Bool) (j : ℕ) (r : Tariff) (f : Found) → NoLater p (stepped p j r f) j r
head-NoLater p j r none = elim (Bool-cases (p r)) [
  | inl e ↦ rw e (λ _. ground arith)
  | inr e ↦ rw e e
]
head-NoLater p j r (some (k, s)) = elim (Bool-cases (p r)) [
  | inl e ↦ elim (Bool-cases (ltb r.effective_from s.effective_from)) [
    | inl l ↦ rw (e, l) (λ _. ground arith)
    | inr l ↦ rw (e, l) (λ _. ground arith)
  ]
  | inr e ↦ rw e (λ q. ground arith)
]

tail-NoLater :
    (p : Tariff → Bool) (j : ℕ) (r : Tariff) (f : Found) (i : ℕ) (u : Tariff)
    → NoLater p f i u
    → NoLater p (stepped p j r f) i u
tail-NoLater p j r none i u h = elim (Bool-cases (p r)) [
  | inl e ↦ rw e (λ q. ground arith)
  | inr e ↦ rw e h
]
tail-NoLater p j r (some (k, s)) i u h = elim (Bool-cases (p r)) [
  | inl e ↦ elim (Bool-cases (ltb r.effective_from s.effective_from)) [
    | inl l ↦ rw (e, l) h
    | inr l ↦ rw (e, l) (λ q. let b = h q in ground arith)
  ]
  | inr e ↦ rw e h
]

pub latest-NoLater : (p : Tariff → Bool) (t : Table Tariff) → AllRows (NoLater p (latest p t)) t
unfolding latest
latest-NoLater p [] = tt
latest-NoLater p ((j, r) ∷ t) = (
  head-NoLater p j r (latest p t),
  AllRows-map _ _ t (tail-NoLater p j r (latest p t)) (latest-NoLater p t),
)
