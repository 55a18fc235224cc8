-- ===== src/Property/Calendar.antt =====
-- Dates as ordinals (`date.toordinal`, day 1 being 1 January of year 1), and `month_bounds` of
-- apps/properties/services.py.
pub mod Periods
use tenora.Base.{
  ℕ, zero, suc, ◌+◌, ◌-◌, ◌*◌, ◌/◌, ◌%◌, Bool, true, false, not, ◌&&◌, ◌||◌, leb, ltb, ◌==◌,
  if◌then◌else◌,
}
use tenora.Exec.{Result, ok, err, domain, invalid_period}

unfoldable pub is_leap : ℕ → Bool
is_leap y = y % 4 == 0 && (not (y % 100 == 0) || y % 400 == 0)

-- `calendar.monthrange(year, month)[1]`
unfoldable pub days_in_month : ℕ → ℕ → ℕ
unfolding is_leap
days_in_month y m =
    if m == 2
    then (if is_leap y then 29 else 28)
    else if m == 4 || m == 6 || m == 9 || m == 11
    then 30
    else 31

unfoldable pub days_before_year : ℕ → ℕ
days_before_year y = let p = y - 1 in p * 365 + p / 4 - p / 100 + p / 400

unfoldable pub days_before_month : ℕ → ℕ → ℕ
unfolding days_in_month
days_before_month y zero = 0
days_before_month y (suc m) = if m == 0 then 0 else days_before_month y m + days_in_month y m

-- `date(year, month, day)`
unfoldable pub ordinal : ℕ → ℕ → ℕ → ℕ
unfolding days_before_year days_before_month
ordinal y m d = days_before_year y + days_before_month y m + d

-- `date.year` of an ordinal, by the cycles of 400, 100, 4 and 1 years
unfoldable pub year_of : ℕ → ℕ
year_of n =
    let n0 = n - 1 in
    let n100 = n0 % 146_097 / 36_524 in
    let r100 = n0 % 146_097 % 36_524 in
    let n1 = r100 % 1_461 / 365 in
    let y = n0 / 146_097 * 400 + n100 * 100 + r100 / 1_461 * 4 + n1 in
    if n1 == 4 || n100 == 4 then y else y + 1

unfoldable pub month_bounds : ℕ → ℕ → Result (ℕ × ℕ)
unfolding ordinal days_in_month
month_bounds year month =
    if not (leb 1 month && leb month 12) || not (leb 2000 year && leb year 2100)
    then err (domain invalid_period 400)
    else ok (ordinal year month 1, ordinal year month (days_in_month year month))
