-- ===== src/Property/Generation/Price.antt =====
-- What `BillService.generate_for_lease` of apps/properties/services.py charges for a lease.
use tenora.Base.{
  ℕ, String, ◌≡◌, refl, ap, sym, ◌∙◌, ◌+◌, none, some, arith, Option-cases, inl, inr, ◌⊎◌,
}
use mathlib.Core.Path.{subst}
use tenora.Base.Int.{ℤ, pos, ◌+ℤ◌}
use tenora.Base.Table.{Table, lookup, save, lookup-save}
use tenora.Exec.{Result, ok, err, Result-cases, continued}
use tenora.Property.Rows.{Bill, Lease, Meter, BillingCycle, WorkspaceSettings, draft}
use tenora.Property.Db.{Db}
use tenora.Property.Generation.{
  generate_with, parties_of, new_bill, write_bill, lines_of, generate_for_lease, Parties,
}
use tenora.Property.Prerequisites.{
  get_settings, default_settings, lease_prerequisites, Prerequisites, first_blocking,
}
use tenora.Property.Generation.Lines.{lines_of-AreCharges, lines_of-amounts, electricity_cents}
use tenora.Property.Books.{Booked}
use tenora.Property.Books.Lines.{totalled}
use tenora.Property.Generation.Books.{
  inserted, Written, write_bill-Written, lines_done, bills_done, Written-Booked, total_done,
}

found : (pk : ℕ) (b : Bill) (t : Table Bill) → lookup pk (save pk b t) ≡ some b
found pk b t = ground (arith, lookup-save pk pk b t)

-- What `generate_for_lease` charges for a lease.
abbrev pub price : Lease → Prerequisites → WorkspaceSettings → ℤ
price lease read settings =
    pos lease.monthly_rent_cents
    +ℤ (electricity_cents read.lines +ℤ pos settings.default_maintenance_cents)

-- The draft of a lease under a key: its price, its cycle and when it is due.
pub record IsDraftOf (pk : ℕ) (lease : Lease) (cycle : BillingCycle) (read : Prerequisites)
    (settings : WorkspaceSettings) (bills : Table Bill) : Type 0 where
  pub bill : Bill
  pub stored : lookup pk bills ≡ some bill
  pub is_draft : bill.status ≡ draft
  pub priced : bill.total_cents ≡ price lease read settings
  pub unpaid : bill.amount_paid_cents ≡ pos 0
  pub due : bill.due_date ≡ cycle.period_end + settings.due_days_after_period_end
  pub period : bill.period_start ≡ cycle.period_start
  pub party : (bill.unit ≡ lease.unit) × (bill.resident ≡ lease.resident)

-- A refusal, or a lease with an issue that blocks, writes no bill and no line.
abbrev pub Generated :
    (Table Meter → Table Meter)
    → ℕ
    → BillingCycle
    → Lease
    → WorkspaceSettings
    → Db
    → Result ℕ × Db
    → Type 0
Generated by_number pk cycle lease settings db (err e, db') =
    (db'.bills ≡ db.bills) × (db'.line_items ≡ db.line_items) × (db'.payments ≡ db.payments)
Generated by_number pk cycle lease settings db (ok x, db') =
    let read = lease_prerequisites by_number lease cycle.period_start cycle.period_end db in
    (x ≡ pk)
    × (first_blocking read.issues ≡ none)
    × (lookup pk db.bills ≡ none)
    × IsDraftOf pk lease cycle read settings db'.bills

Written-Generated :
    (by_number : Table Meter → Table Meter) (pk : ℕ) (keys : ℕ → ℕ) (actor cycle_pk : ℕ)
    (cycle : BillingCycle) (lease_pk : ℕ) (lease : Lease) (settings : WorkspaceSettings)
    (parties : Parties) (db : Db) (o : Result ℕ × Db)
    → Booked db
    → first_blocking
        (lease_prerequisites by_number lease cycle.period_start cycle.period_end db).issues
      ≡ none
    → Written pk keys
        (new_bill actor cycle_pk cycle lease_pk lease parties settings)
        (lines_of pk lease
          (lease_prerequisites by_number lease cycle.period_start cycle.period_end db).lines
          settings)
        db
        o
    → Generated by_number pk cycle lease settings db o
Written-Generated by_number pk keys actor cycle_pk cycle lease_pk lease settings parties db
      (err e, db') booked free w =
    (ap (λ s. s.bills) w, ap (λ s. s.line_items) w, ap (λ s. s.payments) w)
Written-Generated by_number pk keys actor cycle_pk cycle lease_pk lease settings parties db
      (ok x, db') booked free (same, fresh, done, ep, el, eb, low) =
    let read = lease_prerequisites by_number lease cycle.period_start cycle.period_end db in
    let bill = new_bill actor cycle_pk cycle lease_pk lease parties settings in
    let lines = lines_of pk lease read.lines settings in
    let own = lines_of-AreCharges pk lease read.lines settings in
    let i = lines_done pk keys bill lines db refl refl own booked done in
    (
      same,
      free,
      fresh,
      record {
        bill = totalled pk (inserted pk keys bill lines db).1.line_items bill;
        stored =
            ap (lookup pk) (bills_done pk keys bill lines db refl refl own booked db' _ i eb)
            ∙ found pk _ db.bills;
        is_draft = refl;
        priced =
            total_done pk keys bill lines db refl refl own booked i fresh
            ∙ lines_of-amounts pk lease read.lines settings;
        unpaid = refl;
        due = refl;
        period = refl;
        party = (refl, refl);
      },
    )

Written-kept :
    (by_number : Table Meter → Table Meter) (pk : ℕ) (keys : ℕ → ℕ) (actor cycle_pk : ℕ)
    (cycle : BillingCycle) (lease_pk : ℕ) (lease : Lease) (settings : WorkspaceSettings) (db : Db)
    → Booked db
    → Generated by_number pk cycle lease settings db
        (generate_with by_number pk keys actor cycle_pk cycle lease_pk lease settings db)
      × Booked (generate_with by_number pk keys actor cycle_pk cycle lease_pk lease settings db).1
unfolding generate_with
Written-kept by_number pk keys actor cycle_pk cycle lease_pk lease settings db booked =
    let read = lease_prerequisites by_number lease cycle.period_start cycle.period_end db in
    elim (Option-cases (first_blocking read.issues)) [
      | inr (code, blocked) ↦ rw blocked ((refl, refl, refl), booked)
      | inl free ↦ elim (Result-cases (parties_of lease db)) [
        | inr (e, missing) ↦ rw (free, missing) ((refl, refl, refl), booked)
        | inl (parties, there) ↦
            let bill = new_bill actor cycle_pk cycle lease_pk lease parties settings in
            let lines = lines_of pk lease read.lines settings in
            let w = write_bill-Written pk keys bill lines db in
            let o = write_bill pk keys bill lines db in
            rw (free, there)
              (
                Written-Generated by_number pk keys actor cycle_pk cycle lease_pk lease settings
                    parties db o booked free w,
                Written-Booked pk keys bill lines db refl refl
                    (lines_of-AreCharges pk lease read.lines settings) booked o w,
              )
      ]
    ]

-- The settings of a workspace, or those that are written where it has none.
abbrev pub settings_of : ℕ → String → Db → WorkspaceSettings
settings_of tenant name db = elim (lookup tenant db.settings) [
  | none ↦ default_settings name
  | some row ↦ row
]

abbrev Kept :
    (Table Meter → Table Meter)
    → ℕ
    → BillingCycle
    → Lease
    → Db
    → WorkspaceSettings
    → Result ℕ × Db
    → Type 0
Kept by_number pk cycle lease db settings o =
    Generated by_number pk cycle lease settings db o × Booked o.1

settings_read :
    (tenant : ℕ) (name : String) (db : Db)
    → ((row : WorkspaceSettings) × (get_settings tenant name db ≡ (ok row, db))
        × (settings_of tenant name db ≡ row))
      ⊎ ((get_settings tenant name db ≡ (
        ok (default_settings name),
        record db { settings = save tenant (default_settings name) db.settings },
      ))
          × (settings_of tenant name db ≡ default_settings name))
unfolding get_settings
settings_read tenant name db = elim (Option-cases (lookup tenant db.settings)) [
  | inr (row, e) ↦ inl (row, rw (e, get_settings) refl, rw (e, settings_of) refl)
  | inl e ↦ inr (rw (e, get_settings) refl, rw (e, settings_of) refl)
]

-- If the books are in order, then generate_for_lease either raises and writes no bill, line or
-- payment; or stores, where no issue blocks the lease, one draft under the new key whose total is
-- the rent, the charges of the meters and the maintenance of the workspace's settings, with the
-- due date that the settings say; and the books are in order either way.
pub generate_for_lease-kept :
    (by_number : Table Meter → Table Meter) (pk : ℕ) (keys : ℕ → ℕ) (actor : ℕ) (name : String)
    (cycle_pk : ℕ) (cycle : BillingCycle) (lease_pk : ℕ) (lease : Lease) (db : Db)
    → Booked db
    → Generated by_number pk cycle lease
        (settings_of cycle.tenant name db)
        db
        (generate_for_lease by_number pk keys actor name cycle_pk cycle lease_pk lease db)
      × Booked (generate_for_lease by_number pk keys actor name cycle_pk cycle lease_pk lease db).1
unfolding generate_for_lease lease_prerequisites
generate_for_lease-kept by_number pk keys actor name cycle_pk cycle lease_pk lease db booked =
    let with_row = generate_with by_number pk keys actor cycle_pk cycle lease_pk lease in
    elim (settings_read cycle.tenant name db) [
      | inl (row, e, f) ↦
          subst
            (λ st.
              Kept by_number pk cycle lease db st
                (generate_for_lease by_number pk keys actor name cycle_pk cycle lease_pk lease db))
            (sym f)
            (subst (Kept by_number pk cycle lease db row) (sym (ap (continued with_row) e))
              (Written-kept by_number pk keys actor cycle_pk cycle lease_pk lease row db booked))
      | inr (e, f) ↦
          subst
            (λ st.
              Kept by_number pk cycle lease db st
                (generate_for_lease by_number pk keys actor name cycle_pk cycle lease_pk lease db))
            (sym f)
            (subst (Kept by_number pk cycle lease db (default_settings name))
              (sym (ap (continued with_row) e))
              (Written-kept by_number pk keys actor cycle_pk cycle lease_pk lease
                (default_settings name)
                (record db { settings = save cycle.tenant (default_settings name) db.settings })
                booked))
    ]
