-- ===== src/Exec.antt =====
-- A service call: it reads and writes the database and may raise. What was written before a raise
-- stays written, unless a `transaction.atomic()` block around it rolls it back.
use tenora.Base.{ℕ, ◌≡◌, refl, Bool, true, false, Option, none, some, ◌⊎◌, inl, inr, if◌then◌else◌}

-- The stable codes of `DomainError`.
pub data Code : Type 0 where
  not_found property_inactive property_has_active_leases duplicate_unit : Code
  invalid_unit_status unit_has_active_lease unit_inactive resident_inactive : Code
  lease_dates_invalid lease_overlap lease_not_active : Code
  duplicate_meter meter_inactive reading_negative reading_in_future : Code
  proof_too_large proof_type_unsupported : Code
  reading_below_previous reading_above_next duplicate_reading : Code
  reason_required correction_unchanged rate_negative tariff_not_after_current : Code
  missing_reading missing_opening_reading negative_consumption missing_tariff missing_rent : Code
  invalid_period negative_total line_type_not_manual amount_required amount_positive : Code
  bill_not_draft bill_cancelled bill_has_payments bill_not_published correction_below_paid : Code
  cycle_closed cycle_has_drafts bill_exists currency_locked : Code
  idempotency_key_reused payment_date_in_future bill_not_payable overpayment : Code
  duplicate_payment_reference online_payment_not_voidable : Code

-- The other exceptions, by class: `PlanChangeNotAllowed` by its code.
pub data Exception : Type 0 where
  plan_change_not_supported downgrade_not_supported billing_cycle_change_not_supported : Exception
  illegal_state_transition subscription_already_exists degenerate_period : Exception
  plan_not_synced checkout_plan_mismatch checkout_signature_invalid : Exception
  subscriber_contact_required provider_unavailable no_billing_period : Exception
  slug_already_taken user_not_found already_a_member invitation_already_pending : Exception
  invitation_not_found invitation_not_pending workspace_unavailable : Exception
  last_owner_cannot_leave membership_not_removable invalid_ownership_transfer : Exception
  workspace_not_empty workspace_limit_reached member_limit_reached : Exception

pub data Error : Type 0 where
  -- `DomainError(code, status_code=…)`
  domain : Code → ℕ → Error
  -- a constraint of the database is violated
  integrity : Error
  -- `Model.DoesNotExist`
  does_not_exist : Error
  exception : Exception → Error

pub data Result {ℓ} (A : Type ℓ) : Type ℓ where
  ok : A → Result A
  err : Error → Result A

abbrev pub Exec {ℓ} : Type 0 → Type ℓ → Type ℓ
Exec S A = S → Result A × S

abbrev pub is_integrity : Error → Bool
is_integrity integrity = true
is_integrity _ = false

module _ {ℓ} {S : Type 0} {A : Type ℓ} where
  abbrev pub pure : A → Exec S A
  pure a s = (ok a, s)

  abbrev pub raise : Error → Exec S A
  raise e s = (err e, s)

  abbrev pub gets : (S → A) → Exec S A
  gets f s = (ok (f s), s)

  -- `objects.get(pk=…)`: the row, or `DoesNotExist`.
  abbrev pub require : Option A → Exec S A
  require o s = (elim o [ none ↦ err does_not_exist | some a ↦ ok a ], s)

  -- A value, or the error that is raised where it is missing.
  abbrev pub or_raise : Option A → Error → Exec S A
  or_raise o e s = (elim o [ none ↦ err e | some a ↦ ok a ], s)

  abbrev pub lift : Result A → Exec S A
  lift r s = (r, s)

  abbrev pub rolled_back : S → Result A × S → Result A × S
  rolled_back s (r, s') = (r, elim r [ ok _ ↦ s' | err _ ↦ s ])

  -- `with transaction.atomic():`
  abbrev pub atomic : Exec S A → Exec S A
  atomic m s = rolled_back s (m s)

  abbrev pub recovered : Exec S A → Result A × S → Result A × S
  recovered handler (r, s) = elim r [
    | ok a ↦ (ok a, s)
    | err e ↦ if is_integrity e then handler s else (err e, s)
  ]

  abbrev pub recovered_if : (Error → Bool) → Exec S A → Result A × S → Result A × S
  recovered_if catches handler (r, s) = elim r [
    | ok a ↦ (ok a, s)
    | err e ↦ if catches e then handler s else (err e, s)
  ]

  -- `try: … except …: …`, for the errors of a class.
  abbrev pub except_if : (Error → Bool) → Exec S A → Exec S A → Exec S A
  except_if catches m handler s = recovered_if catches handler (m s)

  -- `try: … except IntegrityError: …`
  abbrev pub except_integrity : Exec S A → Exec S A → Exec S A
  except_integrity m handler s = recovered handler (m s)

module _ {ℓ κ} {S : Type 0} {A : Type ℓ} {B : Type κ} where
  infixl 5 ◌>>=◌ ◌>>◌
  abbrev pub continued : (A → Exec S B) → Result A × S → Result B × S
  continued f (r, s) = elim r [ ok a ↦ f a s | err e ↦ (err e, s) ]

  abbrev pub ◌>>=◌ : Exec S A → (A → Exec S B) → Exec S B
  ◌>>=◌ m f s = continued f (m s)

  -- `if row is None: … else: …`
  abbrev pub if_found : Option A → Exec S B → (A → Exec S B) → Exec S B
  if_found none missing k = missing
  if_found (some a) missing k = k a

  abbrev pub ◌>>◌ : Exec S A → Exec S B → Exec S B
  m >> k = m >>= λ _. k

module _ {S : Type 0} where
  abbrev pub modify : (S → S) → Exec {0} S Unit
  modify f s = (ok tt, f s)

  abbrev pub raise_if : Bool → Error → Exec {0} S Unit
  raise_if c e s = (if c then err e else ok tt, s)

  -- `if c: m`
  abbrev pub when : Bool → Exec {0} S Unit → Exec {0} S Unit
  when c m s = if c then m s else (ok tt, s)

-- An outcome is atomic if an error leaves the state as it was.
abbrev pub IsAtomic {ℓ} : {S : Type 0} {A : Type ℓ} → S → Result A × S → Type 0
IsAtomic s (ok _, s') = Unit
IsAtomic s (err _, s') = s' ≡ s

module _ {ℓ} {S : Type 0} {A : Type ℓ} where
  pub rolled_back-IsAtomic : (s : S) (r : Result A × S) → IsAtomic s (rolled_back s r)
  rolled_back-IsAtomic s (ok a, s') = tt
  rolled_back-IsAtomic s (err e, s') = refl

  pub atomic-IsAtomic : (m : Exec S A) (s : S) → IsAtomic s (atomic m s)
  atomic-IsAtomic m s = rolled_back-IsAtomic s (m s)

pub Result-cases {ℓ} :
    {A : Type ℓ} (r : Result A) → ((a : A) × (r ≡ ok a)) ⊎ ((e : Error) × (r ≡ err e))
Result-cases (ok a) = inl (a, refl)
Result-cases (err e) = inr (e, refl)
