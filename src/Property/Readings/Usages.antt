-- ===== src/Property/Readings/Usages.antt =====
-- `electricity_for_period` of apps/properties/services.py over readings in order.
use tenora.Base.{
  ℕ, Bool, true, ◌≡◌, ◌≢◌, ◌≤◌, sym, ◌∙◌, none, some, [], ◌∷◌, ltb, if◌then◌else◌, arith,
  Bool-cases, Option-cases, inl, inr,
}
use tenora.Base.Int.{◌≤ℤ◌}
use tenora.Base.Table.{Table}
use tenora.Base.Rows.{AllRows, AllRows-map, AllRows-both}
use tenora.Exec.{err, domain, negative_consumption}
use tenora.Property.Rows.{Meter, MeterReading}
use tenora.Property.Calculations.{billed_units}
use tenora.Property.Readings.{Found, later, latest, earliest, before, within, within_before}
use tenora.Property.Usages.{opening_for, usage_between, usage_closing, electricity_for_period}
use tenora.Property.Readings.Order.{
  Fits, Fits-le, Fits-flip, IsChronological, latest-Passing, earliest-Passing, Passing,
}

within_own : (m a b : ℕ) (r : MeterReading) → within m a b r ≡ true → r.meter ≡ m
within_own m a b r h = ground arith

-- With an opening reading that is not above the closing one the usage is not refused.
between_accepted :
    (meter : Meter) (i j : ℕ) (o c : MeterReading)
    → o.reading_value ≤ℤ c.reading_value
    → usage_between meter (i, o) (j, c) ≢ err (domain negative_consumption 400)
unfolding usage_between billed_units
between_accepted meter i j o c h = ground arith

-- No reading of the same meter, of the day of the found one or before, is above it.
abbrev Upper : Found → ℕ → MeterReading → Type 0
Upper none j s = Unit
Upper (some (k, c)) j s =
    s.meter ≡ c.meter → s.reading_date ≤ c.reading_date → s.reading_value ≤ℤ c.reading_value

module _ (p : MeterReading → Bool) where
  head-Upper :
      (j : ℕ) (r : MeterReading) (f : Found)
      → Passing p (Fits j r) f
      → Upper (if p r then later j r f else f) j r
  head-Upper j r none q = elim (Bool-cases (p r)) [
    | inl t ↦ rw t (λ _ _. ground arith)
    | inr t ↦ rw t tt
  ]
  head-Upper j r (some (k, c)) q = elim (Bool-cases (p r)) [
    | inl t ↦ rw t (elim (Bool-cases (ltb r.reading_date c.reading_date)) [
      | inl sooner ↦ rw sooner (λ m d. Fits-le j r k c q.1 m d)
      | inr no_sooner ↦ rw no_sooner (λ _ _. ground arith)
    ])
    | inr t ↦ rw t (λ m d. Fits-le j r k c q.1 m d)
  ]

  tail-Upper :
      (j : ℕ) (r : MeterReading) (i : ℕ) (s : MeterReading) (f : Found)
      → Fits j r i s
      → Upper f i s
      → Upper (if p r then later j r f else f) i s
  tail-Upper j r i s none fits up = elim (Bool-cases (p r)) [
    | inl t ↦ rw t (λ m d. Fits-le i s j r (Fits-flip j r i s fits) m d)
    | inr t ↦ rw t tt
  ]
  tail-Upper j r i s (some (k, c)) fits up = elim (Bool-cases (p r)) [
    | inl t ↦ rw t (elim (Bool-cases (ltb r.reading_date c.reading_date)) [
      | inl sooner ↦ rw sooner up
      | inr no_sooner ↦ rw no_sooner (λ m d. Fits-le i s j r (Fits-flip j r i s fits) m d)
    ])
    | inr t ↦ rw t up
  ]

  latest-Upper :
      (meter : ℕ)
      → ((r : MeterReading) → p r ≡ true → r.meter ≡ meter)
      → (t : Table MeterReading) → IsChronological t
      → AllRows (Upper (latest p t)) t
  unfolding latest
  latest-Upper meter own [] h = tt
  latest-Upper meter own ((j, r) ∷ t) h = (
    head-Upper j r (latest p t) (latest-Passing meter p own (Fits j r) t h.0),
    AllRows-map _ _ t (λ i s (fits, up). tail-Upper j r i s (latest p t) fits up)
        (AllRows-both _ _ t h.0 (latest-Upper meter own t h.1)),
  )

abbrev Bounded : MeterReading → Found → Type 0
Bounded c none = Unit
Bounded c (some (_, o)) = o.reading_value ≤ℤ c.reading_value

-- A reading found among those before the closing one is not above it.
found-Bounded :
    (m : ℕ) (p : MeterReading → Bool) (k : ℕ) (c : MeterReading)
    → ((r : MeterReading) → p r ≡ true → (r.meter ≡ m) × (r.reading_date ≤ c.reading_date))
    → c.meter ≡ m
    → (f : Found) → Passing p (Upper (some (k, c))) f
    → Bounded c f
found-Bounded m p k c own same none q = tt
found-Bounded m p k c own same (some (i, o)) (passes, up) =
    let (a, b) = own o passes in up (a ∙ sym same) b

module _ (m start end : ℕ) (meter : Meter) (t : Table MeterReading) (h : IsChronological t) where
  closing-Upper :
      (k : ℕ) (c : MeterReading)
      → latest (within m start end) t ≡ some (k, c)
      → AllRows (Upper (some (k, c))) t
  closing-Upper k c e = rw e at (latest-Upper (within m start end) m (within_own m start end) t h)

  closing_within :
      (k : ℕ) (c : MeterReading)
      → latest (within m start end) t ≡ some (k, c)
      → within m start end c ≡ true
  closing_within k c e =
      let q : Passing (within m start end) (Upper (some (k, c))) (some (k, c)) =
        (rw e at (
          latest-Passing m (within m start end) (within_own m start end) (Upper (some (k, c))) t
            (closing-Upper k c e))) in
      q.0

  before-Bounded :
      (k : ℕ) (c : MeterReading)
      → latest (within m start end) t ≡ some (k, c)
      → Bounded c (latest (before m start) t)
  before-Bounded k c e =
      let w = closing_within k c e in
      found-Bounded m (before m start) k c (λ r passes. (ground arith, ground arith))
        (within_own m start end c w) (latest (before m start) t)
        (latest-Passing m (before m start) (λ r passes. ground arith) (Upper (some (k, c))) t
          (closing-Upper k c e))

  first-Bounded :
      (k : ℕ) (c : MeterReading)
      → latest (within m start end) t ≡ some (k, c)
      → Bounded c (earliest (within_before m start c.reading_date) t)
  first-Bounded k c e =
      let w = closing_within k c e in
      let p = within_before m start c.reading_date in
      found-Bounded m p k c (λ r passes. (ground arith, ground arith)) (within_own m start end c w)
        (earliest p t)
        (earliest-Passing m p (λ r passes. ground arith) (Upper (some (k, c))) t
          (closing-Upper k c e))

  opening-Bounded :
      (k : ℕ) (c : MeterReading)
      → latest (within m start end) t ≡ some (k, c)
      → Bounded c (opening_for m start c.reading_date t)
  unfolding opening_for
  opening-Bounded k c e = elim (Option-cases (latest (before m start) t)) [
    | inl absent ↦ rw (absent, Bounded, opening_for) (first-Bounded k c e)
    | inr (f, found) ↦ rw (found, Bounded, opening_for) (rw found at (before-Bounded k c e))
  ]

  closing_accepted :
      (k : ℕ) (c : MeterReading)
      → Bounded c (opening_for m start c.reading_date t)
      → usage_closing m meter start (k, c) t ≢ err (domain negative_consumption 400)
  unfolding usage_closing
  closing_accepted k c b = elim (Option-cases (opening_for m start c.reading_date t)) [
    | inl absent ↦ rw (absent, usage_closing) (cc)
    | inr ((i, o), found) ↦
        rw (found, usage_closing) (between_accepted meter i k o c (rw found at b))
  ]

  -- Where the readings of each meter rise with their days, electricity_for_period does not raise
  -- NEGATIVE_CONSUMPTION: the opening reading that it selects is never above the closing one.
  pub usage_not_negative :
      electricity_for_period m meter start end t ≢ err (domain negative_consumption 400)
  unfolding electricity_for_period
  usage_not_negative = elim (Option-cases (latest (within m start end) t)) [
    | inl absent ↦ rw (absent, electricity_for_period) (cc)
    | inr ((k, c), found) ↦
        rw (found, electricity_for_period) (closing_accepted k c (opening-Bounded k c found))
  ]
