-- ===== src/Property/Cycles/Books.antt =====
-- What the calls of `BillingCycleService` keep, and when a cycle is closed.
use tenora.Base.{ℕ, true, false, ◌≡◌, ◌⊎◌, some, [], ◌∷◌, arith, Option-cases, Bool-cases, inl, inr}
use tenora.Base.Table.{Table, lookup, save, exists, find_first}
use tenora.Exec.{
  Result, ok, err, domain, integrity, does_not_exist, exception, Exec, continued, pure, ◌>>=◌, ◌>>◌,
  when,
}
use tenora.Property.Rows.{BillingCycle, closed_cycle, Lease, Bill, is_draft}
use tenora.Property.Db.{Db, Clock, Action, audit}
use tenora.Property.Books.{Booked}
use tenora.Property.Bills.{publish}
use tenora.Property.Bills.Issue.{publish-Booked}
use tenora.Property.Generation.{generate_for_lease}
use tenora.Property.Generation.Price.{generate_for_lease-kept}
use tenora.Property.Cycles.{
  Outside, Turn, caught, generate_turn, generate_turns, generate, publish_each, publish_all, close,
  is_draft_in, is_closed, is_bill_for, replace, has_made, billable_leases,
}

module _ {A B : Type 0} where
  -- A call that keeps the books after one that did.
  continued-Booked :
      (f : A → Exec {0} Db B) (o : Result A × Db)
      → Booked o.1
      → ((a : A) (s : Db) → Booked s → Booked (f a s).1)
      → Booked (continued f o).1
  continued-Booked f (ok a, s) h g = g a s h
  continued-Booked f (err e, s) h g = h

publish_each-Booked :
    (clock : Clock) (actor : ℕ) (bills : Table Bill) (db : Db)
    → Booked db
    → Booked (publish_each clock actor bills db).1
unfolding publish_each
publish_each-Booked clock actor [] db h = h
publish_each-Booked clock actor ((pk, b) ∷ bills) db h =
    continued-Booked (λ x. publish_each clock actor bills >>= λ xs. pure (x ∷ xs))
      (publish clock actor pk db) (publish-Booked clock actor pk db h)
      (λ x s k.
        continued-Booked (λ xs. pure (x ∷ xs)) (publish_each clock actor bills s)
          (publish_each-Booked clock actor bills s k) (λ _ _ m. m))

-- If the books are in order, they are in order after BillingCycleService.publish_all, also where
-- it stops at a draft that cannot be published.
pub publish_all-Booked :
    (clock : Clock) (actor cycle_pk : ℕ) (db : Db)
    → Booked db
    → Booked (publish_all clock actor cycle_pk db).1
unfolding publish_all
publish_all-Booked clock actor cycle_pk db h = publish_each-Booked clock actor _ db h

caught-Booked : (o : Result ℕ × Db) → Booked o.1 → Booked (caught o).1
unfolding caught
caught-Booked (ok pk, db) h = h
caught-Booked (err (domain code _), db) h = h
caught-Booked (err integrity, db) h = h
caught-Booked (err does_not_exist, db) h = h
caught-Booked (err (exception _), db) h = h

replace-Booked :
    (pk : ℕ) (b : Bill) (next : Exec {0} Db Turn) (db : Db)
    → Booked db
    → Booked (replace false pk b next db).1
replace-Booked pk b next db h = elim (Bool-cases (is_draft b.status)) [
  | inl e ↦ rw e h
  | inr e ↦ rw e h
]

generate_turn-Booked :
    (w : Outside) (actor cycle_pk : ℕ) (cycle : BillingCycle) (lease_pk : ℕ) (lease : Lease)
    (db : Db)
    → Booked db
    → Booked (generate_turn w false actor cycle_pk cycle lease_pk lease db).1
unfolding generate_turn
generate_turn-Booked w actor cycle_pk cycle lease_pk lease db h =
    elim (Option-cases (find_first (is_bill_for cycle lease) db.bills)) [
      | inl e ↦
          rw (e, generate_turn)
            (caught-Booked
              (generate_for_lease w.by_number (w.bill_key lease_pk) (w.line_key lease_pk) actor
                w.name cycle_pk cycle lease_pk lease db)
              (generate_for_lease-kept w.by_number (w.bill_key lease_pk) (w.line_key lease_pk) actor
                w.name cycle_pk cycle lease_pk lease db h).1)
      | inr ((pk, b), e) ↦
          rw (e, generate_turn)
            (replace-Booked pk b
              (λ d. caught (
                generate_for_lease w.by_number (w.bill_key lease_pk) (w.line_key lease_pk) actor
                  w.name cycle_pk cycle lease_pk lease d))
              db h)
    ]

generate_turns-Booked :
    (w : Outside) (actor cycle_pk : ℕ) (cycle : BillingCycle) (leases : Table Lease) (db : Db)
    → Booked db
    → Booked (generate_turns w false actor cycle_pk cycle leases db).1
unfolding generate_turns
generate_turns-Booked w actor cycle_pk cycle [] db h = h
generate_turns-Booked w actor cycle_pk cycle ((lease_pk, lease) ∷ leases) db h =
    continued-Booked
      (λ x. generate_turns w false actor cycle_pk cycle leases >>= λ xs. pure (x ∷ xs))
      (generate_turn w false actor cycle_pk cycle lease_pk lease db)
      (generate_turn-Booked w actor cycle_pk cycle lease_pk lease db h)
      (λ x s k.
        continued-Booked (λ xs. pure (x ∷ xs))
          (generate_turns w false actor cycle_pk cycle leases s)
          (generate_turns-Booked w actor cycle_pk cycle leases s k) (λ _ _ m. m))

-- If the books are in order, they are in order after BillingCycleService.generate without the
-- regeneration of drafts, however many of the leases were billed or skipped and whichever way the
-- call ends.
pub generate-Booked :
    (w : Outside) (actor cycle_pk : ℕ) (cycle : BillingCycle) (db : Db)
    → Booked db
    → Booked (generate w false actor cycle_pk cycle db).1
unfolding generate
generate-Booked w actor cycle_pk cycle db h = elim (Bool-cases (is_closed cycle)) [
  | inl e ↦ rw e h
  | inr e ↦
      let leases = billable_leases w.by_unit cycle db.leases in
      rw e (
        continued-Booked
          (λ turns.
            when (has_made turns) (audit actor cycle.tenant Action.bills_generated cycle_pk)
            >> pure turns)
          (generate_turns w false actor cycle_pk cycle leases db)
          (generate_turns-Booked w actor cycle_pk cycle leases db h)
          (λ turns s k. elim (Bool-cases (has_made turns)) [ inl f ↦ rw f k | inr f ↦ rw f k ]))
]

-- Nothing is written; or the cycle, which has no draft, is closed now and nothing else changes.
abbrev pub Closed : Clock → ℕ → BillingCycle → Db → Result ℕ × Db → Type 0
Closed clock pk c db (err e, db') =
    (is_closed c ≡ false) × (exists (is_draft_in pk) db.bills ≡ true) × (db' ≡ db)
Closed clock pk c db (ok _, db') =
    (is_closed c ≡ true) × (db' ≡ db)
    ⊎ (is_closed c ≡ false)
      × (exists (is_draft_in pk) db.bills ≡ false)
      × (db'.cycles
          ≡ save pk (record c { status = closed_cycle; closed_at = some clock.now }) db.cycles)
      × (db'.bills ≡ db.bills)

-- For a cycle that is there, BillingCycleService.close raises, and writes nothing, exactly where
-- the cycle is open and has a draft; a closed cycle is left as it is, and an open one without a
-- draft is stored as closed now, no bill being touched.
pub close-Closed :
    (clock : Clock) (actor pk : ℕ) (c : BillingCycle) (db : Db)
    → lookup pk db.cycles ≡ some c
    → Closed clock pk c db (close clock actor pk db)
unfolding close
close-Closed clock actor pk c db e = ground arith
