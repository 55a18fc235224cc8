-- ===== src/Property/Examples.antt =====
-- The theorems on single calls at the sample workspace.
use tenora.Base.{map, ◌≡◌, ◌≤◌, ◌*◌, refl, ◌≢◌, some, none, [], ◌∷◌, arith, ◌↔◌}
use mathlib.Core.List.{Perm}
use tenora.Base.Int.{pos, negsuc, ◌+ℤ◌}
use tenora.Base.Table.{Table, lookup, save, exists_other}
use tenora.Base.Rows
use tenora.Exec.{ok, err, domain, negative_consumption}
use tenora.Property.Rows.{Tariff, manual}
use tenora.Property.Sample.{
  workspace, billed, unissued, bill, draft_bill, clock, request, payment_keys, correction_keys,
  month, lease, flat, meter, rate,
}
use tenora.Notifications
use tenora.Notifications.{is_muted, is_sent, notify}
use tenora.Property.Constraints.{save_bill, bill_violates}
use tenora.Property.Db.{next_value}
use tenora.Property.Bills.{cancel, publish, publish_draft, settle_status, settled}
use tenora.Property.Payments.{record_payment}
use tenora.Property.Corrections.{adjust_amount}
use tenora.Property.Cycles.{close}
use tenora.Property.Readings
use tenora.Property.Readings.{Entry, record_reading}
use tenora.Property.Usages.{electricity_for_period}
use tenora.Property.Tariffs
use tenora.Property.Leases
use tenora.Property.Leases.{Terms, Changes, end_lease}
use tenora.Base.Steps.{here, next}
use tenora.Property.Db.{Db}
use tenora.Property.Sessions
use tenora.Property.Sessions.{
  reached-ArePositive, reached-Occupancy, reached-IsDisjoint, reached-IsChronological,
}
use tenora.Property.Rows.{UnitStatus, Bill}
use tenora.Property.Premises.{UnitChanges, update_unit}
use tenora.Property.Premises.Occupancy.{Occupancy}
use tenora.Property.Aging.{aging_report, is_open}
use tenora.Property.Calendar.{
  month_bounds, ordinal, days_in_month, days_before_year, days_before_month,
}
use tenora.Property.Calculations.{billed_units, charge_cents}
use tenora.Property.Payments.Apply.{Outcome}
use tenora.Property.Payments.Record.{record_payment-Outcome}
use tenora.Property.Corrections.Apply.{Adjusted, adjust_amount-Adjusted}
use tenora.Property.Bills.Issue.{Cancelled, cancel-Cancelled, publish_twice}
use tenora.Property.Cycles.Books.{Closed, close-Closed}
use tenora.Property.Readings.Order.{IsChronological, rises}
use tenora.Property.Readings.Usages.{usage_not_negative}
use tenora.Property.Tariffs.Disjoint as RateRanges
use tenora.Property.Tariffs.Disjoint.{precedes}
use tenora.Property.Tariffs.{applicable}
use tenora.Property.Tariffs.Keep.{create_tariff-IsDisjoint, IsInForce, applicable-IsInForce}
use tenora.Property.Leases.Disjoint as LeaseDays
use tenora.Property.Leases.Disjoint.{create_lease-IsDisjoint}
use tenora.Property.Leases.Changed.{Ended, end_lease-Ended}
use tenora.Property.Aging.Totals.{aging_report-totals, due_where, is_overdue}
use tenora.Property.Aging.Order.{
  All, bill_of_row, owed, Describes, IsLongestFirst, aging_report-rows,
}
use tenora.Property.Calendar.Periods.{month_bounds-consecutive}
use tenora.Property.Calculations.Rounding.{
  IsNearest, billed_units-IsNearest, charge_cents-IsNearest,
}

record_payment-Outcome_example :
    Outcome payment_keys request bill billed (record_payment clock payment_keys request billed)
unfolding lookup
record_payment-Outcome_example = record_payment-Outcome clock payment_keys request bill billed refl

adjust_amount-Adjusted_example :
    Adjusted correction_keys 1 100
      (negsuc 4_999)
      "goodwill"
      bill
      billed
      (adjust_amount correction_keys 1 100 (negsuc 4_999) "goodwill" billed)
unfolding lookup
adjust_amount-Adjusted_example =
    adjust_amount-Adjusted correction_keys 1 100 (negsuc 4_999) "goodwill" bill billed refl

cancel-Cancelled_example :
    Cancelled clock "wrong month" 100 bill billed (cancel clock 1 100 "wrong month" billed)
unfolding lookup
cancel-Cancelled_example = cancel-Cancelled clock 1 100 "wrong month" bill billed refl

close-Closed_example : Closed clock 9 month unissued (close clock 1 9 unissued)
unfolding lookup
close-Closed_example = close-Closed clock 1 9 month unissued refl

readings-IsChronological : IsChronological workspace.readings
readings-IsChronological = ((rises refl (ground arith) (ground arith), tt), (tt, tt))

abbrev entry : Entry
entry = record {
  actor = 1;
  tenant = 1;
  meter = 5;
  reading_date = 738_110;
  reading_value = pos 160_000;
  notes = "";
  proof = none;
  source = manual;
}

usage_not_negative_example :
    electricity_for_period 5 meter 738_080 738_110 workspace.readings
    ≢ err (domain negative_consumption 400)
usage_not_negative_example =
    usage_not_negative 5 738_080 738_110 meter workspace.readings readings-IsChronological

tariffs-IsDisjoint : RateRanges.IsDisjoint workspace.tariffs
tariffs-IsDisjoint = record { ranges = (refl, tt); clear = (tt, tt) }

create_tariff-IsDisjoint_example :
    RateRanges.IsDisjoint (Tariffs.create 10 1 1 (pos 9_000_000) 738_111 workspace).1.tariffs
create_tariff-IsDisjoint_example =
    create_tariff-IsDisjoint 10 1 1 (pos 9_000_000) 738_111 workspace tariffs-IsDisjoint

abbrev old_rate : Tariff
old_rate = record rate { effective_to = some 738_110 }

abbrev next_rate : Tariff
next_rate = record rate { effective_from = 738_111 }

abbrev two_rates : Table Tariff
two_rates = (8, old_rate) ∷ (10, next_rate) ∷ []

two_rates-IsDisjoint : RateRanges.IsDisjoint two_rates
two_rates-IsDisjoint = record {
  ranges = (refl, (refl, tt));
  clear = ((precedes refl refl, tt), (tt, tt));
}

-- The last day of the old rate.
applicable-IsInForce_example :
    (applicable 1 738_110 two_rates ≡ some (8, old_rate))
    ↔ (Rows.IsRow 8 old_rate two_rates × IsInForce 1 738_110 old_rate)
applicable-IsInForce_example =
    applicable-IsInForce 1 738_110 two_rates 8 old_rate two_rates-IsDisjoint

leases-IsDisjoint : LeaseDays.IsDisjoint workspace.leases
leases-IsDisjoint = (tt, tt)

abbrev terms : Terms
terms = record {
  actor = 1;
  tenant = 1;
  unit = 2;
  resident = 3;
  start_date = 738_366;
  end_date = none;
  monthly_rent_cents = 1_100_000;
  security_deposit_cents = none;
}

abbrev new_rent : Changes
new_rent = record { monthly_rent_cents = some 1_200_000; security_deposit_cents = none }

end_lease-Ended_example : Ended 4 738_200 lease flat workspace (end_lease 1 4 738_200 workspace)
unfolding lookup
end_lease-Ended_example = end_lease-Ended 1 4 738_200 lease flat workspace refl refl

aging_report-totals_example :
    ((aging_report (bill ∷ draft_bill ∷ []) 738_150).total_outstanding_cents
      ≡ due_where is_open (bill ∷ draft_bill ∷ []))
    × ((aging_report (bill ∷ draft_bill ∷ []) 738_150).total_overdue_cents
        ≡ due_where (is_overdue 738_150) (bill ∷ draft_bill ∷ []))
aging_report-totals_example = aging_report-totals (bill ∷ draft_bill ∷ []) 738_150

abbrev late_bill : Bill
late_bill = record bill { due_date = 738_060 }

aging_report-rows_example :
    Perm
      (map bill_of_row (aging_report (bill ∷ draft_bill ∷ late_bill ∷ []) 738_150).rows)
      (owed (bill ∷ draft_bill ∷ late_bill ∷ []))
    × All (Describes 738_150) (aging_report (bill ∷ draft_bill ∷ late_bill ∷ []) 738_150).rows
    × IsLongestFirst (aging_report (bill ∷ draft_bill ∷ late_bill ∷ []) 738_150).rows
aging_report-rows_example = aging_report-rows (bill ∷ draft_bill ∷ late_bill ∷ []) 738_150

month_bounds-consecutive_example : (737_760 ≤ 737_790) × (ordinal 2021 1 1 ≡ 737_791)
unfolding month_bounds ordinal days_in_month days_before_year days_before_month
month_bounds-consecutive_example = month_bounds-consecutive 2020 12 737_760 737_790 refl

billed_units-IsNearest_example :
    (billed_units (pos 1000) (pos 1001) (pos 5_000) ≡ some (pos 1)) ↔ IsNearest 10_000 5_000 1
billed_units-IsNearest_example = billed_units-IsNearest 1000 1001 5_000 1 (ground arith)

charge_cents-IsNearest_example :
    (charge_cents (pos 50_000) (pos 8_000_050) ≡ pos 40_000)
    ↔ IsNearest 10_000_000 (50_000 * 8_000_050) 40_000
charge_cents-IsNearest_example = charge_cents-IsNearest 50_000 8_000_050 40_000

publish_twice_example :
    publish clock 2 100 (publish clock 1 100 unissued).1
    ≡ (ok 100, (publish clock 1 100 unissued).1)
unfolding publish publish_draft next_value settle_status settled save_bill bill_violates lookup save
    exists_other ◌+ℤ◌ is_muted notify Notifications.preference_for is_sent
publish_twice_example = publish_twice clock clock 1 2 100 100 unissued refl

workspace-Occupancy : Occupancy workspace.leases workspace.units
unfolding lookup
workspace-Occupancy = record {
  one = λ j k l m e f a b same. ground arith;
  let_out = λ k l e a. ground arith;
}

abbrev renamed : UnitChanges
renamed = record {
  identifier = some "A-1b";
  floor = none;
  unit_type = none;
  status = some UnitStatus.vacant;
}

-- The unit is renamed, the tenant moves out, and another moves in.
abbrev relet : Db
relet =
    (Leases.create clock 13 terms (end_lease 1 4 738_200 (update_unit 1 2 renamed workspace).1).1).1

reached-Occupancy_example : Occupancy relet.leases relet.units
reached-Occupancy_example =
    reached-Occupancy workspace relet
      (next (next (next here (Sessions.change 1 2 renamed)) (Sessions.move_out 1 4 738_200))
        (Sessions.move_in clock 13 terms))
      workspace-Occupancy

-- The lease is ended, and another follows with a new rent.
abbrev followed : Db
followed =
    (Leases.update 1 4 new_rent
      (Leases.create clock 13 terms (end_lease 1 4 738_200 workspace).1).1).1

reached-IsDisjoint_example : LeaseDays.IsDisjoint followed.leases
unfolding lookup
reached-IsDisjoint_example =
    reached-IsDisjoint workspace followed
      (next
        (next (next here (Sessions.end_early 1 4 738_200 lease flat refl refl refl))
          (Sessions.let_out clock 13 terms))
        (Sessions.amend 1 4 new_rent))
      leases-IsDisjoint

-- A reading is recorded, and another corrected.
abbrev reread : Db
reread =
    (Readings.correct 12 1 7 (pos 140_000) "misread" (record_reading clock 11 entry workspace).1).1

reached-IsChronological_example : IsChronological reread.readings
reached-IsChronological_example =
    reached-IsChronological workspace reread
      (next (next here (Sessions.read clock 11 entry))
        (Sessions.reread 12 1 7 (pos 140_000) "misread"))
      readings-IsChronological
