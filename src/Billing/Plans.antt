-- ===== src/Billing/Plans.antt =====
-- `PlanChangePolicy` and `ProrationService` of apps/billing/services.py.
pub mod Bounds
pub mod Policy
use Prim.Native.Char.{code as char_code}
use tenora.Base.{
  ℕ, ◌-◌, String, Bool, true, false, not, ◌&&◌, ◌||◌, Option, none, some, List, [], ◌∷◌, ◌++◌, ◌==◌,
  ltb, leb, if◌then◌else◌,
}
use tenora.Base.Int.{ℤ, pos, negsuc, ◌-ℤ◌, ◌*ℤ◌}
use tenora.Base.Text.{same_text}
use tenora.Exec.{
  Exec, Result, ok, err, Error, integrity, exception, pure, raise_if, lift, modify, except_if,
  atomic, ◌>>=◌, ◌>>◌, plan_change_not_supported, downgrade_not_supported,
  billing_cycle_change_not_supported, degenerate_period,
}
use tenora.Property.Calculations.{quantize_half_up}
use tenora.Billing.Rows.{Plan, Subscription, ProrationRecord, Store}

-- The letters whose capitals are among A to Z; 305 and 383 are the dotless i and the long s.
abbrev upper : ℕ → ℕ
upper n =
    if leb 97 n && leb n 122 then n - 32 else if n == 305 then 73 else if n == 383 then 83 else n

-- `str(code).split("_")[0].upper()`
unfoldable pub tier_of : String → List ℕ
tier_of String.[] = []
tier_of (String.◌∷◌ c s) =
    let rest = tier_of s in if char_code c == 95 then [] else upper (char_code c) ∷ rest

abbrev same_codes : List ℕ → List ℕ → Bool
same_codes [] [] = true
same_codes (a ∷ s) (b ∷ t) = a == b && same_codes s t
same_codes _ _ = false

-- TIER_ORDER
unfoldable pub tier_order : List ℕ → Option ℕ
tier_order tier =
    if same_codes tier (tier_of "BASIC")
    then some 1
    else if same_codes tier (tier_of "PRO")
    then some 2
    else none

pub data PlanChange : Type 0 where
  no_op upgrade : PlanChange

abbrev pub compared : Option ℕ → Option ℕ → Result PlanChange
compared (some old) (some new) =
    if ltb old new
    then ok upgrade
    else if ltb new old
    then err (exception downgrade_not_supported)
    else err (exception billing_cycle_change_not_supported)
compared _ _ = err (exception plan_change_not_supported)

unfoldable pub classify : ℕ → Plan → ℕ → Plan → Result PlanChange
classify current_pk current new_pk new =
    if current_pk == new_pk
    then ok no_op
    else compared (tier_order (tier_of current.code)) (tier_order (tier_of new.code))

pub record ProrationResult : Type 0 where
  pub net_amount_cents : ℤ
  pub calculated_at : ℕ
  pub period_start : ℕ
  pub period_end : ℕ

abbrev pub second : ℕ
second = 1_000_000

-- `max(timedelta(0), min(period_end - now, total))`
abbrev pub remaining_of : ℕ → ℕ → ℕ → ℕ
remaining_of total period_end now = if leb (period_end - now) total then period_end - now else total

-- The exact fraction, rounded to the cent once, halves away from zero. The quotient of two
-- `Decimal`s has 28 digits, which no price in a 32-bit column needs more of.
unfoldable pub net_of : ℤ → ℤ → ℕ → ℕ → ℤ
net_of from_price to_price remaining total =
    quantize_half_up total ((to_price -ℤ from_price) *ℤ pos remaining)

unfoldable pub calculate : ℤ → ℤ → ℕ → ℕ → ℕ → Result ProrationResult
unfolding net_of
calculate from_price to_price period_start period_end now =
    let total = period_end - period_start in
    if ltb total second
    then err (exception degenerate_period)
    else ok (record {
      net_amount_cents = net_of from_price to_price (remaining_of total period_end now) total;
      calculated_at = now;
      period_start = period_start;
      period_end = period_end;
    })

-- An `IntegerField` holds 32 bits.
abbrev fits : ℤ → Bool
fits (pos n) = ltb n 2_147_483_648
fits (negsuc n) = ltb n 2_147_483_648

insert_proration : ProrationRecord → Exec {0} Store Unit
insert_proration r = do
  raise_if (not (fits r.amount_cents)) integrity
  modify (λ db. record db { prorations = db.prorations ++ (r ∷ []) })

-- `except Exception`
abbrev pub any_error : Error → Bool
any_error _ = true

abbrev proration_of : ℕ → Subscription → ℕ → Plan → ℕ → ProrationResult → ProrationRecord
proration_of pk s from_pk from_plan to_pk r = record {
  tenant = s.tenant;
  subscription = pk;
  from_plan = from_pk;
  to_plan = to_pk;
  period_start = r.period_start;
  period_end = r.period_end;
  calculated_at = r.calculated_at;
  amount_cents = r.net_amount_cents;
  currency = from_plan.currency;
}

-- It never raises.
unfoldable pub record_for_plan_change :
    ℕ → ℕ → Subscription → ℕ → Plan → ℕ → Plan → Exec Store (Option ProrationRecord)
unfolding insert_proration
record_for_plan_change now pk s from_pk from_plan to_pk to_plan =
    if from_pk == to_pk || not (same_text from_plan.currency to_plan.currency)
    then pure none
    else except_if any_error
        (do
          result ← lift (
              calculate from_plan.price_cents to_plan.price_cents s.current_period_start
                s.current_period_end now)
          atomic (insert_proration (proration_of pk s from_pk from_plan to_pk result))
          pure (some (proration_of pk s from_pk from_plan to_pk result)))
        (pure none)
