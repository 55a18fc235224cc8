-- ===== src/Property/Calendar/Periods.antt =====
-- The months of `month_bounds` (apps/properties/services.py) one after another.
use tenora.Base.{
  ℕ, zero, suc, if◌then◌else◌, true, false, ◌==◌, ◌+◌, ◌≤◌, inl, inr, Bool-cases, ◌≡◌, refl, sym,
  arith,
}
use tenora.Exec.{ok}
use tenora.Property.Calendar.{
  is_leap, days_in_month, days_before_year, days_before_month, ordinal, month_bounds,
}

-- The month after a month, of the next year after December.
abbrev next_month : ℕ → ℕ → ℕ × ℕ
next_month y m = if m == 12 then (y + 1, 1) else (y, m + 1)

year_length :
    (y : ℕ)
    → 1 ≤ y
    → days_before_year (y + 1) ≡ days_before_year y + 365 + (if is_leap y then 1 else 0)
unfolding days_before_year is_leap
year_length y h = ground arith

month_step :
    (y m : ℕ) → 1 ≤ m → days_before_month y (m + 1) ≡ days_before_month y m + days_in_month y m
unfolding days_before_month
month_step y zero h = ground arith
month_step y (suc m) h = ground arith

december : (y : ℕ) → days_before_month y 12 + 31 ≡ 365 + (if is_leap y then 1 else 0)
unfolding days_before_month days_in_month
december y = ground arith

january : (y : ℕ) → days_before_month y 1 ≡ 0
unfolding days_before_month
january y = refl

new_year : (y : ℕ) → 1 ≤ y → ordinal (y + 1) 1 1 ≡ ordinal y 12 31 + 1
unfolding ordinal
new_year y h = ground (arith, january (y + 1), december y, year_length y h)

december_days : (y : ℕ) → ordinal y 12 1 ≤ ordinal y 12 31
unfolding ordinal
december_days y = ground arith

month_bounds-december :
    (y start end : ℕ)
    → month_bounds y 12 ≡ ok (start, end)
    → (start ≤ end) × (ordinal (y + 1) 1 1 ≡ end + 1)
unfolding month_bounds days_in_month
month_bounds-december y start end h = ground (arith, new_year y, december_days y)

month_bounds-earlier :
    (y m start end : ℕ)
    → (m == 12) ≡ false
    → month_bounds y m ≡ ok (start, end)
    → (start ≤ end) × (ordinal y (m + 1) 1 ≡ end + 1)
unfolding month_bounds ordinal days_in_month
month_bounds-earlier y m start end e h = ground (arith, month_step y m)

is_twelve : (m : ℕ) → (m == 12) ≡ true → 12 ≡ m
is_twelve m h = ground arith

-- The period of a month that month_bounds accepts does not end before it starts, and the first
-- day of the next month is the day after its end, leap years and December included.
pub month_bounds-consecutive :
    (y m start end : ℕ)
    → month_bounds y m ≡ ok (start, end)
    → (start ≤ end) × (ordinal (next_month y m).0 (next_month y m).1 1 ≡ end + 1)
month_bounds-consecutive y m start end h = elim (Bool-cases (m == 12)) [
  | inl e ↦ rw e (month_bounds-december y start end (rw (sym (is_twelve m e)) at h))
  | inr e ↦ rw e (month_bounds-earlier y m start end e h)
]
