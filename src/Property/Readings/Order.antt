-- ===== src/Property/Readings/Order.antt =====
-- The order of a meter's readings by day and value, and the queries for the latest and the
-- earliest one in apps/properties/services.py.
use tenora.Base.{
  ℕ, Bool, true, false, ◌≡◌, ◌<◌, ◌≤◌, refl, none, some, [], ◌∷◌, ◌==◌, if◌then◌else◌, arith,
  Bool-cases, inl, inr,
}
use tenora.Base.Int.{◌≤ℤ◌}
use tenora.Base.Table.{Table}
use tenora.Base.Rows.{AllRows, Pairs, AllRows-map}
use tenora.Property.Rows.{MeterReading}
use tenora.Property.Readings.{Found, later, earlier, latest, earliest}

-- Two readings under different keys: of different meters, or of different days, the later one not
-- below the earlier one.
pub data Fits (j : ℕ) (r : MeterReading) (k : ℕ) (s : MeterReading) : Type 0 where
  other_meter : (j == k) ≡ false → (r.meter == s.meter) ≡ false → Fits j r k s
  rises :
      (j == k) ≡ false
      → r.reading_date < s.reading_date
      → r.reading_value ≤ℤ s.reading_value
      → Fits j r k s
  falls :
      (j == k) ≡ false
      → s.reading_date < r.reading_date
      → s.reading_value ≤ℤ r.reading_value
      → Fits j r k s

pub Fits-flip : (j : ℕ) (r : MeterReading) (k : ℕ) (s : MeterReading) → Fits j r k s → Fits k s j r
Fits-flip j r k s (other_meter a b) = other_meter (ground arith) (ground arith)
Fits-flip j r k s (rises a b c) = falls (ground arith) b c
Fits-flip j r k s (falls a b c) = rises (ground arith) b c

pub Fits-apart :
    (j : ℕ) (r : MeterReading) (k : ℕ) (s : MeterReading) → Fits j r k s → (j == k) ≡ false
Fits-apart j r k s (other_meter a b) = a
Fits-apart j r k s (rises a b c) = a
Fits-apart j r k s (falls a b c) = a

abbrev pub IsChronological : Table MeterReading → Type 0
IsChronological = Pairs Fits

-- A later reading of the same meter is not below an earlier one.
pub Fits-le :
    (j : ℕ) (r : MeterReading) (k : ℕ) (s : MeterReading)
    → Fits j r k s
    → r.meter ≡ s.meter
    → r.reading_date ≤ s.reading_date
    → r.reading_value ≤ℤ s.reading_value
Fits-le j r k s (other_meter a b) m d = ground arith
Fits-le j r k s (rises a b c) m d = c
Fits-le j r k s (falls a b c) m d = absurd (omega arith)

-- What a query says of the rows: `found` is one of them that passes, or none does.
abbrev pub Passing : (MeterReading → Bool) → (ℕ → MeterReading → Type 0) → Found → Type 0
Passing p P none = Unit
Passing p P (some (k, s)) = (p s ≡ true) × P k s

module _ (meter : ℕ) (p : MeterReading → Bool)
    (own : (r : MeterReading) → p r ≡ true → r.meter ≡ meter) where
  pub latest-Passing :
      (P : ℕ → MeterReading → Type 0) (t : Table MeterReading)
      → AllRows P t
      → Passing p P (latest p t)
  unfolding latest
  latest-Passing P [] h = tt
  latest-Passing P ((k, r) ∷ t) h = go (p r) refl (latest p t) (latest-Passing P t h.1)
    where
      go :
          (b : Bool)
          → p r ≡ b
          → (f : Found) → Passing p P f
          → Passing p P (if b then later k r f else f)
      go true e none q = (e, h.0)
      go true e (some (i, s)) q = ground arith
      go false e f q = q

  pub earliest-Passing :
      (P : ℕ → MeterReading → Type 0) (t : Table MeterReading)
      → AllRows P t
      → Passing p P (earliest p t)
  unfolding earliest
  earliest-Passing P [] h = tt
  earliest-Passing P ((k, r) ∷ t) h = go (p r) refl (earliest p t) (earliest-Passing P t h.1)
    where
      go :
          (b : Bool)
          → p r ≡ b
          → (f : Found) → Passing p P f
          → Passing p P (if b then earlier k r f else f)
      go true e none q = (e, h.0)
      go true e (some (i, s)) q = ground arith
      go false e f q = q

-- A reading dated no later than the found one, and not above it; or no earlier and not below.
abbrev pub AtMost : Found → MeterReading → Type 0
AtMost none s = ⊥
AtMost (some (_, m)) s = (s.reading_date ≤ m.reading_date) × (s.reading_value ≤ℤ m.reading_value)

abbrev pub AtLeast : Found → MeterReading → Type 0
AtLeast none s = ⊥
AtLeast (some (_, m)) s = (m.reading_date ≤ s.reading_date) × (m.reading_value ≤ℤ s.reading_value)

module _ (meter : ℕ) (p : MeterReading → Bool)
    (own : (r : MeterReading) → p r ≡ true → r.meter ≡ meter) where
  head-AtMost :
      (k : ℕ) (r : MeterReading) (f : Found)
      → Passing p (Fits k r) f
      → p r ≡ true
      → AtMost (later k r f) r
  head-AtMost k r none q e = ground arith
  head-AtMost k r (some (i, s)) q e = ground (arith, own r e, own s q.0, Fits-le k r i s q.1)

  tail-AtMost :
      (k : ℕ) (r s : MeterReading) (f : Found)
      → Passing p (Fits k r) f
      → AtMost f s
      → AtMost (if p r then later k r f else f) s
  tail-AtMost k r s none q e = absurd e
  tail-AtMost k r s (some (i, m)) q e = elim (Bool-cases (p r)) [
    | inl t ↦ rw t (ground (arith, own r t, own m q.0, Fits-le i m k r (Fits-flip k r i m q.1)))
    | inr t ↦ rw t e
  ]

  pub latest-AtMost :
      (t : Table MeterReading)
      → IsChronological t
      → AllRows (λ _ s. p s ≡ true → AtMost (latest p t) s) t
  unfolding latest
  latest-AtMost [] h = tt
  latest-AtMost ((k, r) ∷ t) h =
      let q = latest-Passing meter p own (Fits k r) t h.0 in
      (
        λ e. rw e (head-AtMost k r (latest p t) q e),
        AllRows-map _ _ t (λ i s g e. tail-AtMost k r s (latest p t) q (g e)) (latest-AtMost t h.1),
      )

  head-AtLeast :
      (k : ℕ) (r : MeterReading) (f : Found)
      → Passing p (Fits k r) f
      → p r ≡ true
      → AtLeast (earlier k r f) r
  head-AtLeast k r none q e = ground arith
  head-AtLeast k r (some (i, s)) q e =
      ground (arith, own r e, own s q.0, Fits-le i s k r (Fits-flip k r i s q.1))

  tail-AtLeast :
      (k : ℕ) (r s : MeterReading) (f : Found)
      → Passing p (Fits k r) f
      → AtLeast f s
      → AtLeast (if p r then earlier k r f else f) s
  tail-AtLeast k r s none q e = absurd e
  tail-AtLeast k r s (some (i, m)) q e = elim (Bool-cases (p r)) [
    | inl t ↦ rw t (ground (arith, own r t, own m q.0, Fits-le k r i m q.1))
    | inr t ↦ rw t e
  ]

  pub earliest-AtLeast :
      (t : Table MeterReading)
      → IsChronological t
      → AllRows (λ _ s. p s ≡ true → AtLeast (earliest p t) s) t
  unfolding earliest
  earliest-AtLeast [] h = tt
  earliest-AtLeast ((k, r) ∷ t) h =
      let q = earliest-Passing meter p own (Fits k r) t h.0 in
      (
        λ e. rw e (head-AtLeast k r (earliest p t) q e),
        AllRows-map _ _ t (λ i s g e. tail-AtLeast k r s (earliest p t) q (g e))
            (earliest-AtLeast t h.1),
      )
