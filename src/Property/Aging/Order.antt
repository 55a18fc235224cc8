-- ===== src/Property/Aging/Order.antt =====
-- The rows of the aging report of apps/properties/aging.py and their order.
use tenora.Base.{
  ℕ, Bool, true, false, ◌&&◌, ◌-◌, ◌≤◌, if◌then◌else◌, leb, map, refl, ap, ◌≡◌, List, [], ◌∷◌,
  arith, Bool-cases, inl, inr,
}
use mathlib.Core.List.{Perm}
use mathlib.Core.List.Perm
use tenora.Base.Int.{ℤ, pos, ◌-ℤ◌, ltb_ℤ}
use tenora.Property.Rows.{Bill, BillStatus, is_open_status}
use tenora.Property.Aging.{
  Row, Bucket, current, days_1_30, days_31_60, days_61_90, days_90_plus, is_open, due_of,
  overdue_days, bucket_for_days, rows_of, goes_first, place, sorted, aging_report,
}

abbrev pub All : (Row → Type 0) → List Row → Type 0
All P [] = Unit
All P (r ∷ rows) = P r × All P rows

-- Every row goes before those after it.
abbrev IsSorted : List Row → Type 0
IsSorted [] = Unit
IsSorted (r ∷ rows) = All (λ s. goes_first r s ≡ true) rows × IsSorted rows

goes_first_trans :
    (r s t : Row) → goes_first r s ≡ true → goes_first s t ≡ true → goes_first r t ≡ true
goes_first_trans r s t h g = ground arith

goes_first_total : (r s : Row) → goes_first r s ≡ false → goes_first s r ≡ true
goes_first_total r s h = ground arith

All-map : (P Q : Row → Type 0) (rows : List Row) → ((r : Row) → P r → Q r) → All P rows → All Q rows
All-map P Q [] f h = tt
All-map P Q (r ∷ rows) f h = (f r h.0, All-map P Q rows f h.1)

All-place : (P : Row → Type 0) (r : Row) (rows : List Row) → P r → All P rows → All P (place r rows)
unfolding place
All-place P r [] p h = (p, tt)
All-place P r (s ∷ rows) p h = elim (Bool-cases (goes_first r s)) [
  | inl e ↦ rw e (p, h)
  | inr e ↦ rw e (h.0, All-place P r rows p h.1)
]

place-IsSorted : (r : Row) (rows : List Row) → IsSorted rows → IsSorted (place r rows)
unfolding place
place-IsSorted r [] h = (tt, tt)
place-IsSorted r (s ∷ rows) h = elim (Bool-cases (goes_first r s)) [
  | inl e ↦ rw e ((e, All-map _ _ rows (λ t g. goes_first_trans r s t e g) h.0), h)
  | inr e ↦ rw e (All-place _ r rows (goes_first_total r s e) h.0, place-IsSorted r rows h.1)
]

sorted-IsSorted : (rows : List Row) → IsSorted (sorted rows)
unfolding sorted
sorted-IsSorted [] = tt
sorted-IsSorted (r ∷ rows) = place-IsSorted r (sorted rows) (sorted-IsSorted rows)

place-Perm : (r : Row) (rows : List Row) → Perm (place r rows) (r ∷ rows)
unfolding place
place-Perm r [] = Perm.refl (r ∷ [])
place-Perm r (s ∷ rows) = elim (Bool-cases (goes_first r s)) [
  | inl e ↦ rw e (Perm.refl (r ∷ s ∷ rows))
  | inr e ↦ rw e (Perm.trans (Perm.cons s (place-Perm r rows)) (Perm.swap r s rows))
]

sorted-Perm : (rows : List Row) → Perm (sorted rows) rows
unfolding sorted
sorted-Perm [] = Perm.refl []
sorted-Perm (r ∷ rows) = Perm.trans (place-Perm r (sorted rows)) (Perm.cons r (sorted-Perm rows))

-- More days overdue first, and of as many days the earlier due date first.
abbrev pub GoesFirst : Row → Row → Type 0
GoesFirst r s = (s.days ≤ r.days) × (r.days ≡ s.days → r.bill.due_date ≤ s.bill.due_date)

abbrev pub IsLongestFirst : List Row → Type 0
IsLongestFirst [] = Unit
IsLongestFirst (r ∷ rows) = All (GoesFirst r) rows × IsLongestFirst rows

goes_first_lem : (r s : Row) → goes_first r s ≡ true → GoesFirst r s
goes_first_lem r s h = (ground arith, λ e. ground arith)

IsSorted-longest : (rows : List Row) → IsSorted rows → IsLongestFirst rows
IsSorted-longest [] h = tt
IsSorted-longest (r ∷ rows) h =
    (All-map _ _ rows (λ s g. goes_first_lem r s g) h.0, IsSorted-longest rows h.1)

-- The days that a bucket is for.
abbrev pub InBucket : Bucket → ℕ → Type 0
InBucket current days = days ≡ 0
InBucket days_1_30 days = (1 ≤ days) × (days ≤ 30)
InBucket days_31_60 days = (31 ≤ days) × (days ≤ 60)
InBucket days_61_90 days = (61 ≤ days) × (days ≤ 90)
InBucket days_90_plus days = 91 ≤ days

-- What a row says of its bill: the days since it was due, if any, their bucket and what is left to
-- pay of it.
pub record Describes (today : ℕ) (r : Row) : Type 0 where
  pub days : r.days ≡ today - r.bill.due_date
  pub bucket : InBucket r.bucket r.days
  pub due : r.due ≡ r.bill.total_cents -ℤ r.bill.amount_paid_cents

abbrev pub bill_of_row : Row → Bill
bill_of_row r = r.bill

-- A bill that is published or paid in part, and not in full.
abbrev pub is_owed : BillStatus → ℤ → Bool
is_owed BillStatus.published left = ltb_ℤ (pos 0) left
is_owed BillStatus.partially_paid left = ltb_ℤ (pos 0) left
is_owed _ left = false

abbrev pub owed : List Bill → List Bill
owed [] = []
owed (b ∷ bills) =
    if is_owed b.status (b.total_cents -ℤ b.amount_paid_cents) then b ∷ owed bills else owed bills

is_open_lem : (b : Bill) → is_open b ≡ is_owed b.status (b.total_cents -ℤ b.amount_paid_cents)
unfolding is_open
is_open_lem b = go b.status
  where
    go :
        (s : BillStatus)
        → (is_open_status s && ltb_ℤ (pos 0) (due_of b))
          ≡ is_owed s (b.total_cents -ℤ b.amount_paid_cents)
    go BillStatus.draft = refl
    go BillStatus.published = refl
    go BillStatus.partially_paid = refl
    go BillStatus.paid = refl
    go BillStatus.cancelled = refl

bucket_lem : (days : ℕ) → InBucket (bucket_for_days days) days
unfolding bucket_for_days
bucket_lem days = elim (Bool-cases (leb days 0)) [
  | inl a ↦ rw a (ground arith)
  | inr a ↦ elim (Bool-cases (leb days 30)) [
    | inl b ↦ rw (a, b) (ground arith, ground arith)
    | inr b ↦ elim (Bool-cases (leb days 60)) [
      | inl c ↦ rw (a, b, c) (ground arith, ground arith)
      | inr c ↦ elim (Bool-cases (leb days 90)) [
        | inl d ↦ rw (a, b, c, d) (ground arith, ground arith)
        | inr d ↦ rw (a, b, c, d) (ground arith)
      ]
    ]
  ]
]

rows_of-owed : (today : ℕ) (bills : List Bill) → map bill_of_row (rows_of today bills) ≡ owed bills
unfolding rows_of
rows_of-owed today [] = refl
rows_of-owed today (b ∷ bills) =
    elim (Bool-cases (is_owed b.status (b.total_cents -ℤ b.amount_paid_cents))) [
      | inl e ↦ rw (is_open_lem b, e) (ap (λ l. b ∷ l) (rows_of-owed today bills))
      | inr e ↦ rw (is_open_lem b, e) (rows_of-owed today bills)
    ]

rows_of-Describes : (today : ℕ) (bills : List Bill) → All (Describes today) (rows_of today bills)
unfolding rows_of overdue_days
rows_of-Describes today [] = tt
rows_of-Describes today (b ∷ bills) = elim (Bool-cases (is_open b)) [
  | inl e ↦ rw e (
    record { days = refl; bucket = bucket_lem (today - b.due_date); due = refl },
    rows_of-Describes today bills,
  )
  | inr e ↦ rw e (rows_of-Describes today bills)
]

All-sorted : (P : Row → Type 0) (rows : List Row) → All P rows → All P (sorted rows)
unfolding sorted
All-sorted P [] h = tt
All-sorted P (r ∷ rows) h = All-place P r (sorted rows) h.0 (All-sorted P rows h.1)

-- The bills of the rows of the aging report are, in another order, the bills that are published
-- or paid in part and not in full; each row has the days since its bill was due, zero where it is
-- not due, the bucket of those days and what is left to pay; and each row goes before those after
-- it: more days overdue first, and of as many days the earlier due date first.
pub aging_report-rows :
    (bills : List Bill) (today : ℕ)
    → Perm (map bill_of_row (aging_report bills today).rows) (owed bills)
      × All (Describes today) (aging_report bills today).rows
      × IsLongestFirst (aging_report bills today).rows
unfolding aging_report
aging_report-rows bills today =
    let rows : List Row = rows_of today bills in
    (
      rw (← rows_of-owed today bills) (Perm.map bill_of_row (sorted-Perm rows)),
      All-sorted (Describes today) rows (rows_of-Describes today bills),
      IsSorted-longest (sorted rows) (sorted-IsSorted rows),
    )
