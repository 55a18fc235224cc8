-- ===== src/Workspaces/Tenants.antt =====
-- `TenantService` of apps/tenants/services.py.
use tenora.Base.{ℕ, String, true, not, ◌&&◌, ◌||◌, none, some, is_some, ◌==◌, if◌then◌else◌}
use tenora.Base.Table.{lookup, save, exists}
use tenora.Base.Text.{same_text}
use tenora.Base.Queries.{update_where}
use tenora.Exec.{
  Exec, ok, err, integrity, exception, pure, raise, raise_if, gets, modify, require, atomic,
  except_integrity, ◌>>=◌, ◌>>◌, slug_already_taken, workspace_not_empty,
}
use tenora.Property.Rows.{Membership, Role, owner, MembershipStatus}
use tenora.Workspaces.Rows.{
  Tenant, Invitation, InvitationStatus, Directory, Action, is_active, is_pending, tenant_row, audit,
}
use tenora.Workspaces.Limits.{Limits, assert_can_create_workspace}

-- An INSERT of a workspace; the slug is unique.
unfoldable pub insert_tenant : ℕ → Tenant → Exec {0} Directory Unit
insert_tenant fresh t db =
    if is_some (lookup fresh db.tenants) || exists (λ o. same_text o.slug t.slug) db.tenants
    then (err integrity, db)
    else (ok tt, record db { tenants = save fresh t db.tenants })

-- An INSERT of a membership; a user has one at most in a workspace.
unfoldable pub insert_membership : ℕ → Membership → Exec {0} Directory Unit
insert_membership fresh m db =
    if is_some (lookup fresh db.memberships)
      || exists (λ o. o.user == m.user && o.tenant == m.tenant) db.memberships
    then (err integrity, db)
    else (ok tt, record db { memberships = save fresh m db.memberships })

abbrev pub new_membership : ℕ → ℕ → Role → Membership
new_membership user tenant role = record {
  user = user;
  tenant = tenant;
  role = role;
  status = MembershipStatus.active;
  ended_at = none;
}

abbrev pub new_tenant : String → String → Tenant
new_tenant name slug = record { name = name; slug = slug; is_active = true; closed_at = none }

-- `fresh` is the key of the workspace and `fresh_membership` that of the owner's membership.
unfoldable pub create_tenant : Limits → ℕ → ℕ → ℕ → String → String → Exec Directory (ℕ × ℕ)
create_tenant defaults fresh fresh_membership user name slug =
    except_integrity
      (atomic do
        row ← gets (λ db. lookup user db.users)
        row ← require row
        assert_can_create_workspace defaults user
        insert_tenant fresh (new_tenant name slug)
        insert_membership fresh_membership (new_membership user fresh owner)
        pure (fresh, fresh_membership))
      (raise (exception slug_already_taken))

abbrev pub left : ℕ → Membership → Membership
left now m = record m { status = MembershipStatus.left; ended_at = some now }

abbrev pub withdrawn : ℕ → Invitation → Invitation
withdrawn now i = record i { status = InvitationStatus.cancelled; responded_at = some now }

-- The writes of a workspace that is closed.
unfoldable pub closed : ℕ → ℕ → ℕ → Tenant → Directory → Directory
closed now actor pk tenant db = record db {
  invitations =
      update_where (λ _ i. i.tenant == pk && is_pending i.status) (withdrawn now) db.invitations;
  memberships = update_where (λ _ m. m.tenant == pk && m.user == actor) (left now) db.memberships;
  tenants = save pk (record tenant { closed_at = some now }) db.tenants;
}

unfoldable pub close_workspace : ℕ → ℕ → ℕ → Exec Directory ℕ
close_workspace now actor pk = atomic do
  tenant ← tenant_row pk
  others ← gets (λ db.
      exists (λ m. m.tenant == pk && is_active m.status && not (m.user == actor)) db.memberships)
  raise_if others (exception workspace_not_empty)
  modify (closed now actor pk tenant)
  audit actor pk Action.workspace_closed pk
  pure pk
