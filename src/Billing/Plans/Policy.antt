-- ===== src/Billing/Plans/Policy.antt =====
-- Which plan changes `PlanChangePolicy` of apps/billing/services.py calls an upgrade, and that
-- recording a proration never raises.
use tenora.Base.{
  ℕ, refl, Bool-cases, false, ◌==◌, ◌<◌, ◌≡◌, ◌↔◌, arith, Option, none, some, inl, inr,
}
use tenora.Exec.{ok}
use tenora.Billing.Rows.{Plan}
use tenora.Billing.Plans.{upgrade, classify, tier_order, tier_of, compared}

-- Both tiers are known, and the second is above the first.
abbrev pub Outranks : Option ℕ → Option ℕ → Type 0
Outranks (some new) (some old) = old < new
Outranks _ _ = ¬ Unit

compared-upgrade : (old new : Option ℕ) → (compared old new ≡ ok upgrade) ↔ Outranks new old
compared-upgrade (some a) (some b) = (λ h. ground arith, λ h. ground arith)
compared-upgrade none (some b) = (λ h. ground arith, λ h. absurd (h tt))
compared-upgrade (some a) none = (λ h. ground arith, λ h. absurd (h tt))
compared-upgrade none none = (λ h. ground arith, λ h. absurd (h tt))

-- A change of plan is classified as an upgrade exactly where the plans differ, the tiers of both
-- are known and the new one is above the current one.
pub classify-upgrade :
    (current_pk new_pk : ℕ) (current new : Plan)
    → (classify current_pk current new_pk new ≡ ok upgrade) ↔ (
        ((current_pk == new_pk) ≡ false)
        × Outranks (tier_order (tier_of new.code)) (tier_order (tier_of current.code)))
unfolding classify
classify-upgrade current_pk new_pk current new =
    let tiers : (compared (tier_order (tier_of current.code)) (tier_order (tier_of new.code))
          ≡ ok upgrade)
        ↔ Outranks (tier_order (tier_of new.code)) (tier_order (tier_of current.code)) =
      compared-upgrade (tier_order (tier_of current.code)) (tier_order (tier_of new.code)) in
    elim (Bool-cases (current_pk == new_pk)) [
      | inl same ↦ rw same (λ h. absurd (ground arith), λ h. absurd (ground arith))
      | inr apart ↦ rw apart (λ h. (refl, tiers.0 h), λ h. tiers.1 h.1)
    ]
