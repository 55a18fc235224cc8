-- ===== src/Billing/Sample.antt =====
-- A small store of apps/billing: two plans, a workspace with a subscription, one with a checkout in
-- flight, and the webhooks of both.
use tenora.Base.{ℕ, true, false, Option, none, some, [], ◌∷◌}
use tenora.Base.Int.{pos}
use tenora.Exec.{ok, err, exception, provider_unavailable}
use tenora.Property.Rows.{Membership, MembershipStatus, owner}
use tenora.Billing.Rows.{
  Plan, monthly, Subscription, Status, SubscriptionCheckout, created, WebhookEvent, EventType,
  ProviderStatus, Store,
}
use tenora.Billing.Gateway.{Gateway}

abbrev pub basic : Plan
basic = record {
  code = "BASIC_MONTHLY";
  price_cents = pos 1_000;
  currency = "INR";
  interval = monthly;
  is_active = true;
  max_workspaces = 2;
  max_members_per_workspace = 10;
  external_plan_id = some 11;
}

abbrev pub pro : Plan
pro = record basic { code = "PRO_MONTHLY"; price_cents = pos 3_001; external_plan_id = some 12 }

abbrev pub subscription : Subscription
subscription = record {
  tenant = 7;
  plan = 1;
  status = Status.active;
  external_subscription_id = some 100;
  last_event_at = some 50;
  current_period_start = 10;
  current_period_end = 2_592_000_000_010;
}

-- The checkout of another workspace.
abbrev pub checkout : SubscriptionCheckout
checkout = record {
  tenant = 8;
  plan = 1;
  external_subscription_id = some 200;
  status = created;
  provider = "cashfree";
  session_token = "token";
  updated_at = 20;
}

abbrev pub event : EventType → ℕ → Option ℕ → WebhookEvent
event type external at = record {
  external_event_id = external;
  external_subscription_id = some external;
  event_type = type;
  period_start = none;
  period_end = none;
  event_created_at = at;
  received_at = 60;
  processed = false;
}

abbrev pub cancellation : WebhookEvent
cancellation = record (event EventType.cancelled 100 (some 45)) { external_event_id = 901 }

abbrev pub old_charge : WebhookEvent
old_charge = event EventType.charged 100 (some 40)

abbrev pub activation : WebhookEvent
activation = event EventType.activated 200 none

abbrev pub early_charge : WebhookEvent
early_charge = record (event EventType.charged 200 (some 55)) {
  external_event_id = 902;
  period_start = some 70;
  period_end = some 900;
}

abbrev pub seat : Membership
seat = record {
  user = 1;
  tenant = 7;
  role = owner;
  status = MembershipStatus.active;
  ended_at = none;
}

abbrev pub store : Store
store = record {
  plans = (1, basic) ∷ (2, pro) ∷ [];
  subscriptions = (3, subscription) ∷ [];
  checkouts = (5, checkout) ∷ [];
  events = (21, cancellation) ∷ (22, old_charge) ∷ (23, early_charge) ∷ (24, activation) ∷ [];
  usage = [];
  prorations = [];
  discrepancies = [];
  memberships = (30, seat) ∷ [];
}

-- A provider that knows every subscription as past due, and one that is down.
abbrev pub gateway : Gateway
gateway = record {
  create_plan = λ _. ok 13;
  create_subscription = λ tenant _.
      ok (record {
        provider = "cashfree";
        external_subscription_id = 300;
        session_token = "session";
      });
  checkout_is_abandoned = λ _. some true;
  confirm_checkout_report = λ _ _. true;
  fetch_subscription_state = λ _. ok (some ProviderStatus.past_due);
}

abbrev pub down : Gateway
down = record gateway {
  create_subscription = λ _ _. err (exception provider_unavailable);
  checkout_is_abandoned = λ _. none;
  fetch_subscription_state = λ _. err (exception provider_unavailable);
}
