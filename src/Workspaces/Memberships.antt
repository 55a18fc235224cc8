-- ===== src/Workspaces/Memberships.antt =====
-- `MembershipService` of apps/tenants/services.py.
use tenora.Base.{ℕ, Bool, not, ◌&&◌, ◌||◌, some, [], ◌∷◌, ◌==◌, if◌then◌else◌}
use tenora.Base.Table.{lookup, save, exists, exists_other}
use tenora.Base.Queries.{update_where}
use tenora.Exec.{
  Exec, exception, pure, raise_if, gets, modify, require, atomic, ◌>>=◌, ◌>>◌,
  last_owner_cannot_leave, membership_not_removable, invalid_ownership_transfer,
}
use tenora.Notifications.{Kind, membership_ref}
use tenora.Property.Rows.{Membership, owner, member, MembershipStatus, ResidentStatus}
use tenora.Workspaces.Rows.{
  Directory, Action, is_owner, is_active, is_active_owner, is_active_user, tenant_row,
  membership_row, active_row, save_membership, audit, notify, notify_owners,
}
use tenora.Workspaces.Limits.{Limits, assert_can_create_workspace}

unfoldable pub member_exists : ℕ → ℕ → Directory → Bool
member_exists tenant user db = exists (is_active_user tenant user) db.memberships

-- `_end`: the membership, and the profile of the user in the workspace.
unfoldable pub ended : ℕ → ℕ → Membership → MembershipStatus → Directory → Directory
ended now pk m status db = record db {
  memberships = save pk (record m { status = status; ended_at = some now }) db.memberships;
  residents =
      update_where (λ _ r. r.tenant == m.tenant && r.user == m.user)
        (λ r. record r { status = ResidentStatus.inactive }) db.residents;
}

unfoldable pub is_last_owner : ℕ → ℕ → Membership → Directory → Bool
is_last_owner tenant pk m db =
    is_owner m.role && not (exists_other pk (is_active_owner tenant) db.memberships)

unfoldable pub leave : ℕ → ℕ → ℕ → Exec Directory ℕ
leave now user tenant = atomic do
  row ← tenant_row tenant
  (pk, m) ← active_row tenant user
  last ← gets (is_last_owner tenant pk m)
  raise_if last (exception last_owner_cannot_leave)
  modify (ended now pk m MembershipStatus.left)
  notify_owners Kind.member_left tenant (membership_ref pk ∷ [])
  audit user tenant Action.membership_left pk
  pure pk

unfoldable pub removal : ℕ → ℕ → ℕ → ℕ → Membership → Exec Directory ℕ
removal now actor tenant pk m = if not (is_active m.status) then pure pk else do
  modify (ended now pk m MembershipStatus.removed)
  notify m.user Kind.membership_ended tenant []
  audit actor tenant Action.membership_removed pk
  pure pk

unfoldable pub remove : ℕ → ℕ → ℕ → ℕ → Exec Directory ℕ
remove now actor tenant pk = atomic do
  m ← membership_row tenant pk
  raise_if (is_owner m.role) (exception membership_not_removable)
  removal now actor tenant pk m

-- Whether ownership cannot go to a membership.
unfoldable pub is_no_heir : ℕ → Membership → Bool
is_no_heir actor m = is_owner m.role || not (is_active m.status) || m.user == actor

unfoldable pub transfer_ownership : Limits → ℕ → ℕ → ℕ → Exec Directory ℕ
transfer_ownership defaults actor tenant pk = atomic do
  row ← tenant_row tenant
  m ← membership_row tenant pk
  raise_if (is_no_heir actor m) (exception invalid_ownership_transfer)
  user ← gets (λ db. lookup m.user db.users)
  user ← require user
  assert_can_create_workspace defaults m.user
  (own, current) ← active_row tenant actor
  save_membership pk (record m { role = owner })
  save_membership own (record current { role = member })
  audit actor tenant Action.membership_ownership_transferred pk
  pure pk
