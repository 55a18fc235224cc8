-- ===== src/Workspaces/Limits.antt =====
-- `PlanLimitService` of apps/tenants/limits.py. The code and the name of the plan, for display, and
-- the numbers that an error carries are left out.
use tenora.Base.{
  ℕ, Bool, true, false, not, ◌&&◌, Option, none, some, [], ◌∷◌, ◌+◌, ◌==◌, leb, ltb, is_some,
  if◌then◌else◌,
}
use tenora.Base.Table.{Table, lookup, exists, first_row}
use tenora.Base.Queries.{count}
use tenora.Exec.{
  Exec, raise_if, exception, workspace_limit_reached, member_limit_reached, gets, ◌>>=◌,
}
use tenora.Property.Rows.{Membership}
use tenora.Billing.Rows.{Plan, Subscription, Status}
use tenora.Workspaces.Rows.{Tenant, Directory, is_owner, is_active, is_pending, is_active_owner}

pub record Limits : Type 0 where
  pub max_workspaces : ℕ
  pub max_members_per_workspace : ℕ

-- ENTITLED_STATUSES
unfoldable pub is_entitled : Status → Bool
is_entitled Status.canceled = false
is_entitled _ = true

-- `_limits_from_plan` of a subscription's plan, whose row its foreign key keeps there, or
-- `_default_limits`, which the settings say.
unfoldable pub limits_of : Limits → Option Plan → Limits
limits_of defaults none = defaults
limits_of defaults (some plan) = record {
  max_workspaces = plan.max_workspaces;
  max_members_per_workspace = plan.max_members_per_workspace;
}

unfoldable pub workspace_limits : Limits → ℕ → Directory → Limits
workspace_limits defaults tenant db =
    elim (first_row (λ s. s.tenant == tenant && is_entitled s.status) db.subscriptions) [
      | none ↦ limits_of defaults none
      | some (_, s) ↦ limits_of defaults (lookup s.plan db.plans)
    ]

-- The first of the plans with the most workspaces.
unfoldable pub best_plan : (Subscription → Bool) → Table Plan → Table Subscription → Option Plan
best_plan counts plans [] = none
best_plan counts plans ((_, s) ∷ rows) =
    let rest = best_plan counts plans rows in
    if not (counts s) then rest else elim (lookup s.plan plans) [
      | none ↦ rest
      | some plan ↦ elim rest [
        | none ↦ some plan
        | some other ↦
            if leb other.max_workspaces plan.max_workspaces then some plan else some other
      ]
    ]

-- Whether a user is an active owner of a workspace.
abbrev pub owns : ℕ → ℕ → Membership → Bool
owns user tenant m = m.user == user && is_active_owner tenant m

unfoldable pub account_limits : Limits → ℕ → Directory → Limits
account_limits defaults user db = limits_of defaults (
    best_plan (λ s. exists (owns user s.tenant) db.memberships && is_entitled s.status) db.plans
      db.subscriptions)

abbrev pub is_closed : ℕ → Table Tenant → Bool
is_closed tenant tenants = elim (lookup tenant tenants) [
  | none ↦ true
  | some t ↦ is_some t.closed_at
]

unfoldable pub owned_workspace_count : ℕ → Directory → ℕ
owned_workspace_count user db =
    count (λ m. owns user m.tenant m && not (is_closed m.tenant db.tenants)) db.memberships

-- `filter(role=MEMBER, status=ACTIVE)` of a workspace
abbrev pub is_active_member : ℕ → Membership → Bool
is_active_member tenant m = m.tenant == tenant && not (is_owner m.role) && is_active m.status

unfoldable pub active_member_count : ℕ → Directory → ℕ
active_member_count tenant db = count (is_active_member tenant) db.memberships

unfoldable pub pending_invitation_count : ℕ → ℕ → Directory → ℕ
pending_invitation_count now tenant db =
    count (λ i. i.tenant == tenant && is_pending i.status && ltb now i.expires_at) db.invitations

unfoldable pub assert_can_create_workspace : Limits → ℕ → Exec {0} Directory Unit
assert_can_create_workspace defaults user = do
  limits ← gets (account_limits defaults user)
  used ← gets (owned_workspace_count user)
  raise_if (leb limits.max_workspaces used) (exception workspace_limit_reached)

unfoldable pub assert_can_invite : Limits → ℕ → ℕ → Exec {0} Directory Unit
assert_can_invite defaults now tenant = do
  limits ← gets (workspace_limits defaults tenant)
  used ← gets (λ db. active_member_count tenant db + pending_invitation_count now tenant db)
  raise_if (leb limits.max_members_per_workspace used) (exception member_limit_reached)

unfoldable pub assert_can_activate_member : Limits → ℕ → Exec {0} Directory Unit
assert_can_activate_member defaults tenant = do
  limits ← gets (workspace_limits defaults tenant)
  used ← gets (active_member_count tenant)
  raise_if (leb limits.max_members_per_workspace used) (exception member_limit_reached)

-- The counts of `usage_for_workspace`.
pub record MemberUsage : Type 0 where
  pub active : ℕ
  pub pending_invitations : ℕ
  pub used : ℕ
  pub limit : ℕ

unfoldable pub usage_for_workspace : Limits → ℕ → ℕ → Directory → MemberUsage
usage_for_workspace defaults now tenant db =
    let active = active_member_count tenant db in
    let invited = pending_invitation_count now tenant db in
    record {
      active = active;
      pending_invitations = invited;
      used = active + invited;
      limit = (workspace_limits defaults tenant db).max_members_per_workspace;
    }
