-- ===== src/Property/Tests.antt =====
-- Runs of the services on the sample workspace, and the theorems at them.
use tenora.Base.{ℕ, ◌≡◌, refl, Option, none, some, []}
use tenora.Base.Int.{ℤ, pos, negsuc, ◌+ℤ◌, ◌-ℤ◌, ◌*ℤ◌}
use tenora.Base.Table.{lookup, save, select, sum_by, exists, exists_other}
use tenora.Base.Steps.{Reach, here, next}
use tenora.Property.Sessions
use tenora.Property.Sessions.{BillStep, reached-Booked}
use tenora.Property.Db.{Db, next_value}
use tenora.Notifications.{is_muted, notify, preference_for, is_sent}
use tenora.Property.Calendar.{year_of}
use tenora.Base.Text.{strip}
use tenora.Property.Rows.{Bill, BillStatus, Payment, draft, LineItem, electricity, Usage}
use tenora.Property.Sample.{
  workspace, drafted, issued, paid_in_part, clock, request, payment_keys, correction_keys,
  line_keys, month, lease, bill,
}
use tenora.Property.Generation.{
  generate_for_lease, generate_with, parties_of, lines_of, write_bill, insert_lines,
}
use tenora.Property.Prerequisites.{
  get_settings, lease_prerequisites, read_meters, read_meter, first_blocking,
}
use tenora.Property.Bills.{
  recompute_totals, publish_draft, settle_status, settled, line_of, next_order, publish,
}
use tenora.Property.Payments.{void_payment}
use tenora.Property.Corrections.{
  adjust_amount, correct_reading, correct_line, apply_correction, add_adjustment, electricity_line,
  effective, last_correction, reading_change,
}
use tenora.Property.Constraints.{
  insert_bill, save_bill, insert_line, bill_violates, insert_correction,
}
use tenora.Property.Tariffs
use tenora.Property.Tariffs.{applicable}
use tenora.Property.Readings
use tenora.Property.Usages.{electricity_for_period, usage_closing, opening_for, usage_between}
use tenora.Property.Calculations.{billed_units, consumption, charge_cents, quantize_half_up}
use tenora.Property.Books.{Booked}
use tenora.Property.Generation.Price.{Generated, settings_of, generate_for_lease-kept}
use tenora.Property.Bills.Issue.{publish-Booked}
use tenora.Property.Corrections.Reading.{Rebilled, correct_reading-Rebilled}

-- The amounts and the status of a bill.
abbrev figures : Option Bill → Option (ℤ × ℤ × BillStatus)
figures none = none
figures (some b) = some (b.total_cents, b.amount_paid_cents, b.status)

drafted_figures : figures (lookup 100 drafted.bills) ≡ some (pos 1_040_000, pos 0, draft)
unfolding generate_for_lease get_settings generate_with lease_prerequisites read_meters read_meter
    first_blocking parties_of lines_of write_bill insert_lines insert_bill save_bill insert_line
    recompute_totals lookup save select sum_by bill_violates exists_other exists applicable
    Tariffs.latest electricity_for_period Readings.latest usage_closing opening_for
    Readings.earliest usage_between billed_units consumption charge_cents quantize_half_up ◌+ℤ◌ ◌-ℤ◌
    ◌*ℤ◌
drafted_figures = refl

nothing_there : (k : ℕ) (b : Bill) → lookup k [] ≡ some b → ⊥
unfolding lookup
nothing_there k b e = cc

no_payment : (k : ℕ) (p : Payment) → lookup k [] ≡ some p → ⊥
unfolding lookup
no_payment k p e = cc

workspace-Booked : Booked workspace
unfolding sum_by
workspace-Booked = record {
  balanced = λ pk b e. absurd (nothing_there pk b e);
  unused = λ pk e. record { paid = refl; charges = refl; adjustments = refl };
  positive = λ pk p e. absurd (no_payment pk p e);
}

generate_for_lease-kept_example :
    Generated
      (λ t. t)
      100
      month
      lease
      (settings_of 1 "Lake View Homes" workspace)
      workspace
      (generate_for_lease (λ t. t) 100 line_keys 1 "Lake View Homes" 9 month 4 lease workspace)
    × Booked drafted
generate_for_lease-kept_example =
    generate_for_lease-kept (λ t. t) 100 line_keys 1 "Lake View Homes" 9 month 4 lease workspace
      workspace-Booked

drafted-Booked : Booked drafted
drafted-Booked =
    (generate_for_lease-kept (λ t. t) 100 line_keys 1 "Lake View Homes" 9 month 4 lease workspace
      workspace-Booked).1

issued-Booked : Booked issued
issued-Booked = publish-Booked clock 1 100 drafted drafted-Booked

-- Days at the office: a bill is raised, paid in part, corrected, and the payment taken back.
abbrev settled_up : Db
settled_up =
    (void_payment clock 1 300 "entered twice"
      (adjust_amount correction_keys 1 100 (negsuc 4_999) "goodwill" paid_in_part).1).1

abbrev days : Reach BillStep drafted settled_up
days =
    next
      (next
        (next (next here (Sessions.issue clock 1 100)) (Sessions.pay clock payment_keys request))
        (Sessions.adjust correction_keys 1 100 (negsuc 4_999) "goodwill"))
      (Sessions.void clock 1 300 "entered twice")

reached-Booked_example : Booked settled_up
reached-Booked_example = reached-Booked drafted settled_up days drafted-Booked

abbrev issued_bill : Bill
issued_bill = record bill { subtotal_cents = pos 1_040_000; total_cents = pos 1_040_000 }

abbrev usage : Usage
usage = record {
  meter = 5;
  meter_number = "M-1";
  opening_reading = 6;
  closing_reading = 7;
  opening_reading_value = pos 100_000;
  closing_reading_value = pos 150_000;
  opening_reading_date = 738_000;
  closing_reading_date = 738_100;
  multiplier = pos 10_000;
  units_consumed = pos 50_000;
  tariff = 8;
}

abbrev electricity_row : LineItem
electricity_row = record {
  bill = 100;
  type = electricity;
  quantity = some (pos 50_000);
  unit_price_cents = some (pos 8_000_000);
  amount_cents = pos 40_000;
  usage = some usage;
  correction = none;
  sort_order = 1;
}

issued_row : lookup 100 issued.bills ≡ some issued_bill
unfolding generate_for_lease get_settings generate_with lease_prerequisites read_meters read_meter
    first_blocking parties_of lines_of write_bill insert_lines insert_bill save_bill insert_line
    recompute_totals lookup save select sum_by bill_violates exists_other exists applicable
    Tariffs.latest electricity_for_period Readings.latest usage_closing opening_for
    Readings.earliest usage_between billed_units consumption charge_cents quantize_half_up ◌+ℤ◌ ◌-ℤ◌
    ◌*ℤ◌ publish publish_draft next_value settle_status settled is_muted notify preference_for
    is_sent year_of
issued_row = refl

correct_reading-Rebilled_example :
    Rebilled 100 201
      (pos 140_000)
      issued_bill
      electricity_row
      usage
      (pos 40_000)
      issued
      (correct_reading correction_keys 1 100 201 (pos 140_000) "misread" issued).1
unfolding generate_for_lease get_settings generate_with lease_prerequisites read_meters read_meter
    first_blocking parties_of lines_of write_bill insert_lines insert_bill save_bill insert_line
    recompute_totals lookup save select sum_by bill_violates exists_other exists applicable
    Tariffs.latest electricity_for_period Readings.latest usage_closing opening_for
    Readings.earliest usage_between billed_units consumption charge_cents quantize_half_up ◌+ℤ◌ ◌-ℤ◌
    ◌*ℤ◌ publish publish_draft next_value settle_status settled is_muted notify preference_for
    is_sent year_of correct_reading correct_line apply_correction add_adjustment insert_correction
    electricity_line effective last_correction line_of reading_change next_order strip
correct_reading-Rebilled_example =
    correct_reading-Rebilled correction_keys 1 100 201 (pos 140_000) "misread" issued_bill
      electricity_row usage (pos 40_000) issued issued-Booked issued_row 400 refl refl refl
