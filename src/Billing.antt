-- ===== src/Billing.antt =====
-- apps/billing: the subscription of a workspace, its checkout, the payment provider's webhooks, and
-- the metering, proration and reconciliation beside them.
pub mod Rows
pub mod Plans
pub mod Subscriptions
pub mod Checkouts
pub mod Webhooks
pub mod Lifecycle
pub mod Gateway
pub mod Metering
pub mod Reconciliation
pub mod Requests
pub mod Sessions
pub mod Sample
pub mod Tests
