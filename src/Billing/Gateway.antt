-- ===== src/Billing/Gateway.antt =====
-- `PaymentGatewayAdapter` of apps/billing/gateway/base.py: the provider behind the adapter is a
-- parameter of the services, with an answer to each call.
use tenora.Base.{ℕ, String, Bool, Option}
use tenora.Exec.{Result}
use tenora.Billing.Rows.{Plan, ProviderStatus}

-- ProviderCheckout
pub record Created : Type 0 where
  pub provider : String
  pub external_subscription_id : ℕ
  pub session_token : String

pub record Gateway : Type 0 where
  pub create_plan : Plan → Result ℕ
  pub create_subscription : ℕ → Plan → Result Created
  -- `none`: the provider could not be reached
  pub checkout_is_abandoned : ℕ → Option Bool
  pub confirm_checkout_report : ℕ → ℕ → Bool
  -- `none`: the provider has no such subscription
  pub fetch_subscription_state : ℕ → Result (Option ProviderStatus)
