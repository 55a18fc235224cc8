-- ===== src/Workspaces/Rows.antt =====
-- The rows of apps/tenants/models.py and the state that apps/tenants/services.py works on. Instants
-- are in microseconds. The name of a user is the one that `_display_name` composes.
use tenora.Base.{
  ℕ, String, Bool, true, false, ◌&&◌, Option, none, some, List, [], ◌∷◌, ◌==◌, if◌then◌else◌,
}
use tenora.Base.Table.{Table, lookup, save, first_row}
use tenora.Exec.{Exec, gets, require, modify, ◌>>=◌}
use tenora.Notifications
use tenora.Notifications.{Inbox, Kind, Ref}
use tenora.Property.Rows.{Membership, Role, owner, member, MembershipStatus, Resident}
use tenora.Billing.Rows.{Plan, Subscription}

pub record Tenant : Type 0 where
  pub name : String
  pub slug : String
  pub is_active : Bool
  pub closed_at : Option ℕ

-- Invitation.Status
pub data InvitationStatus : Type 0 where
  pending accepted declined cancelled expired : InvitationStatus

pub record Invitation : Type 0 where
  pub tenant : ℕ
  pub invited_user : ℕ
  pub invited_by : ℕ
  pub email : String
  pub role : Role
  pub unit : Option ℕ
  pub message : String
  pub status : InvitationStatus
  pub expires_at : ℕ
  pub responded_at : Option ℕ

pub record User : Type 0 where
  pub email : String
  pub display_name : String
  pub phone : String
  pub is_active : Bool

pub data Action : Type 0 where
  workspace_closed membership_left membership_removed : Action
  membership_ownership_transferred : Action
  invitation_created invitation_cancelled invitation_declined invitation_accepted : Action

-- The target is a row of the type that the action names; summary and metadata are left out.
pub record AuditEvent : Type 0 where
  pub actor : ℕ
  pub tenant : ℕ
  pub action : Action
  pub target_id : ℕ

pub record Directory : Type 0 where
  pub tenants : Table Tenant
  pub memberships : Table Membership
  pub invitations : Table Invitation
  pub residents : Table Resident
  pub users : Table User
  pub plans : Table Plan
  pub subscriptions : Table Subscription
  pub audit : List AuditEvent
  pub inbox : Inbox

abbrev pub is_owner : Role → Bool
is_owner owner = true
is_owner member = false

abbrev pub is_active : MembershipStatus → Bool
is_active MembershipStatus.active = true
is_active _ = false

abbrev pub is_pending : InvitationStatus → Bool
is_pending pending = true
is_pending _ = false

-- `filter(role=OWNER, status=ACTIVE)` of a workspace
abbrev pub is_active_owner : ℕ → Membership → Bool
is_active_owner tenant m = m.tenant == tenant && is_owner m.role && is_active m.status

-- `filter(user=…, status=ACTIVE)` of a workspace
abbrev pub is_active_user : ℕ → ℕ → Membership → Bool
is_active_user tenant user m = m.tenant == tenant && m.user == user && is_active m.status

-- `_owners`
unfoldable pub owners : ℕ → Table Membership → List ℕ
owners tenant [] = []
owners tenant ((_, m) ∷ rows) =
    let rest = owners tenant rows in if is_active_owner tenant m then m.user ∷ rest else rest

-- `select_for_update().get(pk=…)` of a workspace
abbrev pub tenant_row : ℕ → Exec Directory Tenant
tenant_row pk = do row ← gets (λ db. lookup pk db.tenants); require row

-- `for_tenant(tenant).get(pk=…)`
unfoldable pub membership_row : ℕ → ℕ → Exec Directory Membership
membership_row tenant pk = do
  row ← gets (λ db. lookup pk db.memberships)
  m ← require row
  require (if m.tenant == tenant then some m else none)

-- `for_tenant(tenant).get(user=…, status=ACTIVE)`
unfoldable pub active_row : ℕ → ℕ → Exec Directory (ℕ × Membership)
active_row tenant user = do
  row ← gets (λ db. first_row (is_active_user tenant user) db.memberships)
  require row

abbrev pub save_membership : ℕ → Membership → Exec {0} Directory Unit
save_membership pk m = modify (λ db. record db { memberships = save pk m db.memberships })

abbrev pub save_invitation : ℕ → Invitation → Exec {0} Directory Unit
save_invitation pk i = modify (λ db. record db { invitations = save pk i db.invitations })

-- `_audit`, by `AuditService.record_critical`
abbrev pub audit : ℕ → ℕ → Action → ℕ → Exec {0} Directory Unit
audit actor tenant action target_id = modify λ db. record db {
  audit =
      record { actor = actor; tenant = tenant; action = action; target_id = target_id } ∷ db.audit;
}

-- `NotificationService.notify` of a user in a workspace
abbrev pub notify : ℕ → Kind → ℕ → List Ref → Exec {0} Directory Unit
notify recipient kind tenant refs =
    modify λ db. record db {
      inbox = Notifications.notify recipient kind (some tenant) refs none db.inbox;
    }

unfoldable pub notify_each : List ℕ → Kind → ℕ → List Ref → Inbox → Inbox
notify_each [] kind tenant refs box = box
notify_each (user ∷ users) kind tenant refs box =
    notify_each users kind tenant refs (Notifications.notify user kind (some tenant) refs none box)

-- One notification to each owner.
unfoldable pub notify_owners : Kind → ℕ → List Ref → Exec {0} Directory Unit
notify_owners kind tenant refs =
    modify λ db. record db {
      inbox = notify_each (owners tenant db.memberships) kind tenant refs db.inbox;
    }
