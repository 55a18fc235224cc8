-- ===== src/Billing/Rows.antt =====
-- The rows of apps/billing/models.py and the state that apps/billing/services.py works on. Instants
-- and lengths of time are in microseconds. Identifiers that the payment provider hands out are
-- opaque: they are numbers, and `none` where the text is missing or empty, which the code treats
-- alike.
use tenora.Base.{ℕ, String, Bool, true, false, ◌||◌, Option, some, List, ◌==◌}
use tenora.Base.Int.{ℤ}
use tenora.Base.Table.{Table, lookup, save}
use tenora.Exec.{Exec, gets, require, modify, ◌>>=◌}
use tenora.Property.Rows.{Membership}

pub data Interval : Type 0 where
  monthly annual : Interval

pub record Plan : Type 0 where
  pub code : String
  pub price_cents : ℤ
  pub currency : String
  pub interval : Interval
  pub is_active : Bool
  pub max_workspaces : ℕ
  pub max_members_per_workspace : ℕ
  pub external_plan_id : Option ℕ

-- Subscription.Status
pub data Status : Type 0 where
  trialing active past_due canceled : Status

pub record Subscription : Type 0 where
  pub tenant : ℕ
  pub plan : ℕ
  pub status : Status
  pub external_subscription_id : Option ℕ
  pub last_event_at : Option ℕ
  pub current_period_start : ℕ
  pub current_period_end : ℕ

-- SubscriptionCheckout.Status
pub data CheckoutStatus : Type 0 where
  created confirmed : CheckoutStatus

pub record SubscriptionCheckout : Type 0 where
  pub tenant : ℕ
  pub plan : ℕ
  pub external_subscription_id : Option ℕ
  pub status : CheckoutStatus
  pub provider : String
  pub session_token : String
  pub updated_at : ℕ

-- apps/billing/gateway/base.py
pub data EventType : Type 0 where
  activated charged cancelled payment_trouble unknown : EventType

-- The raw payload, which no operation reads, is left out.
pub record WebhookEvent : Type 0 where
  pub external_event_id : ℕ
  pub external_subscription_id : Option ℕ
  pub event_type : EventType
  pub period_start : Option ℕ
  pub period_end : Option ℕ
  pub event_created_at : Option ℕ
  pub received_at : ℕ
  pub processed : Bool

pub record UsageRecord : Type 0 where
  pub tenant : ℕ
  pub quantity : ℕ
  pub period_start : ℕ
  pub period_end : ℕ

pub record ProrationRecord : Type 0 where
  pub tenant : ℕ
  pub subscription : ℕ
  pub from_plan : ℕ
  pub to_plan : ℕ
  pub period_start : ℕ
  pub period_end : ℕ
  pub calculated_at : ℕ
  pub amount_cents : ℤ
  pub currency : String

-- ReconciliationDiscrepancy.Category
pub data Category : Type 0 where
  status_mismatch local_canceled_provider_active provider_not_found : Category

-- ProviderSubscriptionStatus of apps/billing/gateway/base.py
pub data ProviderStatus : Type 0 where
  active past_due canceled pending unknown : ProviderStatus

-- The prose of `detail` is left out; the provider's status is `none` where it has no record.
pub record ReconciliationDiscrepancy : Type 0 where
  pub tenant : ℕ
  pub subscription : ℕ
  pub external_subscription_id : ℕ
  pub category : Category
  pub local_status : Status
  pub provider_status : Option ProviderStatus
  pub detected_at : ℕ

-- The rows of a table are in the order in which they were created or, for events, received.
pub record Store : Type 0 where
  pub plans : Table Plan
  pub subscriptions : Table Subscription
  pub checkouts : Table SubscriptionCheckout
  pub events : Table WebhookEvent
  pub usage : Table UsageRecord
  pub prorations : List ProrationRecord
  pub discrepancies : List ReconciliationDiscrepancy
  pub memberships : Table Membership

abbrev pub is_canceled : Status → Bool
is_canceled Status.canceled = true
is_canceled _ = false

-- `external_subscription_id == x`, which NULL never equals.
abbrev pub same_id : Option ℕ → Option ℕ → Bool
same_id (some a) (some b) = a == b
same_id _ _ = false

-- The OneToOne of the tenant, and the unique provider id.
abbrev pub clashes : Subscription → Subscription → Bool
clashes s o = o.tenant == s.tenant || same_id o.external_subscription_id s.external_subscription_id

-- `subscription.save(update_fields=…)`: new values for some fields of the row.
unfoldable pub update : ℕ → (Subscription → Subscription) → Exec {0} Store Unit
update pk f = do
  row ← gets (λ db. lookup pk db.subscriptions)
  row ← require row
  modify (λ db. record db { subscriptions = save pk (f row) db.subscriptions })

-- The row of a plan.
abbrev pub plan_row : ℕ → Exec Store Plan
plan_row pk = do row ← gets (λ db. lookup pk db.plans); require row

-- The row of a subscription.
abbrev pub subscription_row : ℕ → Exec Store Subscription
subscription_row pk = do row ← gets (λ db. lookup pk db.subscriptions); require row
