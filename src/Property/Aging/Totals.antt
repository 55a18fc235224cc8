-- ===== src/Property/Aging/Totals.antt =====
-- The totals of the aging report of apps/properties/aging.py.
use tenora.Base.{
  ℕ, Bool, true, false, not, ◌≡◌, refl, sym, ap, ◌∙◌, List, [], ◌∷◌, arith, Bool-cases, inl, inr,
  if◌then◌else◌,
}
use tenora.Base.Int.{ℤ, pos, ◌+ℤ◌, int_laws}
use tenora.Property.Rows.{Bill}
use tenora.Property.Aging.{
  Bucket, current, days_1_30, days_31_60, days_61_90, days_90_plus, due_of, is_open, overdue_days,
  bucket_for_days, display_status, overdue, stored, Slots, no_slots, taken, add_to, same_bucket,
  fill, late_total, aging_report,
}

-- The amounts due of the bills that a test picks.
unfoldable pub due_where : (Bill → Bool) → List Bill → ℤ
due_where p [] = pos 0
due_where p (b ∷ bills) = (if p b then due_of b else pos 0) +ℤ due_where p bills

abbrev pub total : Slots → ℤ
total s = (s current).amount +ℤ late_total s

abbrev pub is_late : Bucket → Bool
is_late b = not (same_bucket b current)

add_to-total : (b : Bucket) (due : ℤ) (s : Slots) → total (add_to b due s) ≡ total s +ℤ due
add_to-total current due s = grind int_laws
add_to-total days_1_30 due s = grind int_laws
add_to-total days_31_60 due s = grind int_laws
add_to-total days_61_90 due s = grind int_laws
add_to-total days_90_plus due s = grind int_laws

add_to-late_total :
    (b : Bucket) (due : ℤ) (s : Slots)
    → late_total (add_to b due s) ≡ (if is_late b then late_total s +ℤ due else late_total s)
add_to-late_total current due s = refl
add_to-late_total days_1_30 due s = grind int_laws
add_to-late_total days_31_60 due s = grind int_laws
add_to-late_total days_61_90 due s = grind int_laws
add_to-late_total days_90_plus due s = grind int_laws

assoc : (a b c : ℤ) → (a +ℤ b) +ℤ c ≡ a +ℤ (b +ℤ c)
assoc a b c = grind int_laws

from_zero : (x : ℤ) → pos 0 +ℤ x ≡ x
from_zero x = grind int_laws

to_zero : (x : ℤ) → x +ℤ pos 0 ≡ x
to_zero x = grind int_laws

taken-total :
    (today : ℕ) (b : Bill) (s : Slots)
    → total (taken today b s) ≡ total s +ℤ (if is_open b then due_of b else pos 0)
unfolding taken
taken-total today b s = elim (Bool-cases (is_open b)) [
  | inl e ↦ rw e (add_to-total (bucket_for_days (overdue_days b today)) (due_of b) s)
  | inr e ↦ rw e (sym (to_zero (total s)))
]

fill-total :
    (today : ℕ) (bills : List Bill) (s : Slots)
    → total (fill today bills s) ≡ total s +ℤ due_where is_open bills
unfolding fill due_where
fill-total today [] s = sym (to_zero (total s))
fill-total today (b ∷ bills) s =
    fill-total today bills (taken today b s)
    ∙ ap (λ x. x +ℤ due_where is_open bills) (taken-total today b s)
    ∙ assoc _ _ _

-- The bill is shown as overdue on a day.
abbrev pub is_overdue : ℕ → Bill → Bool
is_overdue today b = elim (display_status b today) [ overdue ↦ true | stored _ ↦ false ]

is_overdue-bucket :
    (b : Bill) (today : ℕ)
    → is_open b ≡ true
    → is_overdue today b ≡ is_late (bucket_for_days (overdue_days b today))
unfolding display_status bucket_for_days
is_overdue-bucket b today h = ground arith

closed_not_overdue : (today : ℕ) (b : Bill) → is_open b ≡ false → is_overdue today b ≡ false
unfolding display_status
closed_not_overdue today b e = ground arith

taken-late_total :
    (today : ℕ) (b : Bill) (s : Slots)
    → late_total (taken today b s)
      ≡ late_total s +ℤ (if is_overdue today b then due_of b else pos 0)
unfolding taken
taken-late_total today b s = elim (Bool-cases (is_open b)) [
  | inr e ↦ rw (e, closed_not_overdue today b e) (sym (to_zero (late_total s)))
  | inl e ↦ elim (Bool-cases (is_late (bucket_for_days (overdue_days b today)))) [
    | inl f ↦
        rw (is_overdue-bucket b today e, e, f)
          (add_to-late_total (bucket_for_days (overdue_days b today)) (due_of b) s
            ∙ ap (λ c. if c then late_total s +ℤ due_of b else late_total s) f)
    | inr f ↦
        rw (is_overdue-bucket b today e, e, f)
          (add_to-late_total (bucket_for_days (overdue_days b today)) (due_of b) s
            ∙ ap (λ c. if c then late_total s +ℤ due_of b else late_total s) f
            ∙ sym (to_zero _))
  ]
]

fill-late_total :
    (today : ℕ) (bills : List Bill) (s : Slots)
    → late_total (fill today bills s) ≡ late_total s +ℤ due_where (is_overdue today) bills
unfolding fill due_where
fill-late_total today [] s = sym (to_zero (late_total s))
fill-late_total today (b ∷ bills) s =
    fill-late_total today bills (taken today b s)
    ∙ ap (λ x. x +ℤ due_where (is_overdue today) bills) (taken-late_total today b s)
    ∙ assoc _ _ _

-- The total outstanding of the aging report is the sum of what is due on the open bills, and its
-- total overdue is the sum of what is due on the bills that are displayed as overdue.
pub aging_report-totals :
    (bills : List Bill) (today : ℕ)
    → ((aging_report bills today).total_outstanding_cents ≡ due_where is_open bills)
      × ((aging_report bills today).total_overdue_cents ≡ due_where (is_overdue today) bills)
unfolding aging_report due_where ◌+ℤ◌
aging_report-totals bills today = (
  fill-total today bills no_slots ∙ from_zero _,
  fill-late_total today bills no_slots ∙ from_zero _,
)
