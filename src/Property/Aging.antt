-- ===== src/Property/Aging.antt =====
-- The rule of apps/properties/aging.py: how long a bill is overdue and what is outstanding.
pub mod Totals
pub mod Order
use tenora.Base.{ℕ, suc, Bool, true, false, not, ◌&&◌, ◌-◌, List, [], ◌∷◌, leb, ltb, if◌then◌else◌}
use tenora.Base.Int.{ℤ, pos, ◌+ℤ◌, ◌-ℤ◌, ltb_ℤ}
use tenora.Property.Rows.{Bill, BillStatus, is_open_status}

pub data Bucket : Type 0 where
  current days_1_30 days_31_60 days_61_90 days_90_plus : Bucket

abbrev pub due_of : Bill → ℤ
due_of b = b.total_cents -ℤ b.amount_paid_cents

unfoldable pub is_open : Bill → Bool
is_open b = is_open_status b.status && ltb_ℤ (pos 0) (due_of b)

-- `max((today - bill.due_date).days, 0)`
unfoldable pub overdue_days : Bill → ℕ → ℕ
unfolding is_open
overdue_days b today = if not (is_open b) then 0 else today - b.due_date

unfoldable pub bucket_for_days : ℕ → Bucket
bucket_for_days days =
    if leb days 0
    then current
    else if leb days 30
    then days_1_30
    else if leb days 60
    then days_31_60
    else if leb days 90
    then days_61_90
    else days_90_plus

-- What a person sees: the stored status, or OVERDUE.
pub data DisplayStatus : Type 0 where
  overdue : DisplayStatus
  stored : BillStatus → DisplayStatus

unfoldable pub display_status : Bill → ℕ → DisplayStatus
unfolding is_open overdue_days
display_status b today =
    if is_open b && ltb 0 (overdue_days b today) then overdue else stored b.status

pub record Slot : Type 0 where
  pub amount : ℤ
  pub count : ℕ

-- The dictionaries `totals` and `counts`.
abbrev pub Slots : Type 0
Slots = Bucket → Slot

abbrev pub no_slots : Slots
no_slots _ = record { amount = pos 0; count = 0 }

abbrev pub same_bucket : Bucket → Bucket → Bool
same_bucket current current = true
same_bucket days_1_30 days_1_30 = true
same_bucket days_31_60 days_31_60 = true
same_bucket days_61_90 days_61_90 = true
same_bucket days_90_plus days_90_plus = true
same_bucket _ _ = false

abbrev pub counted : ℤ → Slot → Slot
counted due s = record { amount = s.amount +ℤ due; count = suc s.count }

abbrev pub add_to : Bucket → ℤ → Slots → Slots
add_to b due slots c = if same_bucket b c then counted due (slots c) else slots c

pub record Row : Type 0 where
  pub bill : Bill
  pub days : ℕ
  pub bucket : Bucket
  pub due : ℤ

-- One turn of the loop over the bills.
unfoldable pub taken : ℕ → Bill → Slots → Slots
taken today b slots =
    if is_open b then add_to (bucket_for_days (overdue_days b today)) (due_of b) slots else slots

unfoldable pub fill : ℕ → List Bill → Slots → Slots
fill today [] slots = slots
fill today (b ∷ bills) slots = fill today bills (taken today b slots)

-- The rows in the order of the bills, before they are sorted.
unfoldable pub rows_of : ℕ → List Bill → List Row
rows_of today [] = []
rows_of today (b ∷ bills) =
    let rest = rows_of today bills in
    if not (is_open b)
    then rest
    else record {
      bill = b;
      days = overdue_days b today;
      bucket = bucket_for_days (overdue_days b today);
      due = due_of b;
    }
      ∷ rest

-- `key=lambda r: (-r[1], r[0].due_date)`, not after
abbrev pub goes_first : Row → Row → Bool
goes_first r s =
    if ltb s.days r.days
    then true
    else if ltb r.days s.days
    then false
    else leb r.bill.due_date s.bill.due_date

unfoldable pub place : Row → List Row → List Row
place r [] = r ∷ []
place r (s ∷ rows) = let rest = place r rows in if goes_first r s then r ∷ s ∷ rows else s ∷ rest

-- `rows.sort(key=…)`, which is stable
unfoldable pub sorted : List Row → List Row
unfolding place
sorted [] = []
sorted (r ∷ rows) = place r (sorted rows)

pub record Report : Type 0 where
  pub total_outstanding_cents : ℤ
  pub total_overdue_cents : ℤ
  pub buckets : Slots
  pub rows : List Row

abbrev pub late_total : Slots → ℤ
late_total s =
    (s days_1_30).amount
    +ℤ (s days_31_60).amount
    +ℤ (s days_61_90).amount
    +ℤ (s days_90_plus).amount

unfoldable pub aging_report : List Bill → ℕ → Report
unfolding fill rows_of sorted
aging_report bills today =
    let slots = fill today bills no_slots in
    record {
      total_outstanding_cents = (slots current).amount +ℤ late_total slots;
      total_overdue_cents = late_total slots;
      buckets = slots;
      rows = sorted (rows_of today bills);
    }
