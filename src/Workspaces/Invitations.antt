-- ===== src/Workspaces/Invitations.antt =====
-- `InvitationService` of apps/tenants/services.py. `now` is the instant of the call.
use tenora.Base.{
  ℕ, String, Bool, true, false, not, ◌&&◌, ◌||◌, ◌+◌, ◌*◌, Option, none, some, List, [], ◌∷◌,
  is_some, ◌==◌, leb, if◌then◌else◌,
}
use tenora.Base.Table.{Table, lookup, save, exists, first_row}
use tenora.Base.Text.{same_text}
use tenora.Base.Queries.{update_where}
use tenora.Exec.{
  Exec, ok, err, integrity, exception, pure, raise, raise_if, gets, modify, or_raise, atomic,
  except_integrity, if_found, ◌>>=◌, ◌>>◌, user_not_found, already_a_member,
  invitation_already_pending, invitation_not_found, invitation_not_pending, workspace_unavailable,
}
use tenora.Notifications
use tenora.Notifications.{Kind, invitation_ref, resident_ref}
use tenora.Property.Rows.{Membership, member, MembershipStatus, Resident, ResidentStatus}
use tenora.Billing.Plans.{second}
use tenora.Workspaces.Rows.{
  Tenant, Invitation, InvitationStatus, pending, accepted, declined, cancelled, expired, User,
  Directory, Action, is_pending, owners, tenant_row, save_membership, save_invitation, audit,
  notify, notify_owners,
}
use tenora.Workspaces.Limits.{
  Limits, MemberUsage, assert_can_invite, assert_can_activate_member, usage_for_workspace,
}
use tenora.Workspaces.Tenants.{insert_membership, new_membership}
use tenora.Workspaces.Memberships.{member_exists}

-- InvitationService.EXPIRY, 14 days
abbrev pub expiry : ℕ
expiry = 1_209_600 * second

-- `_expire_stale` of the invitations of a query.
unfoldable pub expire_stale : (ℕ → Invitation → Bool) → ℕ → Table Invitation → Table Invitation
expire_stale query now invitations =
    update_where (λ k i. query k i && is_pending i.status && leb i.expires_at now)
      (λ i. record i { status = expired }) invitations

abbrev pub is_unavailable : Tenant → Bool
is_unavailable t = not t.is_active || is_some t.closed_at

abbrev pub is_pending_for : ℕ → ℕ → Invitation → Bool
is_pending_for tenant user i = i.tenant == tenant && i.invited_user == user && is_pending i.status

-- An INSERT of a pending invitation; a user has one at most in a workspace.
unfoldable pub insert_invitation : ℕ → Invitation → Exec {0} Directory Unit
insert_invitation fresh i db =
    if is_some (lookup fresh db.invitations)
      || exists (is_pending_for i.tenant i.invited_user) db.invitations
    then (err integrity, db)
    else (ok tt, record db { invitations = save fresh i db.invitations })

-- What the owner's request says beside the address.
pub record Invite : Type 0 where
  pub inviter : ℕ
  pub unit : Option ℕ
  pub message : String

abbrev pub new_invitation : ℕ → ℕ → ℕ → User → Invite → Invitation
new_invitation now tenant pk user r = record {
  tenant = tenant;
  invited_user = pk;
  invited_by = r.inviter;
  email = user.email;
  role = member;
  unit = r.unit;
  message = r.message;
  status = pending;
  expires_at = now + expiry;
  responded_at = none;
}

unfoldable pub invite_locked : Limits → ℕ → ℕ → ℕ → ℕ → User → Invite → Exec Directory ℕ
invite_locked defaults now fresh tenant pk user r = do
  locked ← tenant_row tenant
  raise_if (is_unavailable locked) (exception workspace_unavailable)
  there ← gets (member_exists tenant pk)
  raise_if there (exception already_a_member)
  modify (λ db. record db {
    invitations = expire_stale (λ _ i. i.tenant == tenant) now db.invitations;
  })
  waiting ← gets (λ db. exists (is_pending_for tenant pk) db.invitations)
  raise_if waiting (exception invitation_already_pending)
  assert_can_invite defaults now tenant
  insert_invitation fresh (new_invitation now tenant pk user r)
  notify pk Kind.invitation_received tenant (invitation_ref fresh ∷ [])
  audit r.inviter tenant Action.invitation_created fresh
  pure fresh

-- `normalize_email` is the normalisation of addresses that the accounts are stored under.
unfoldable pub create : (String → String) → Limits → ℕ → ℕ → ℕ → String → Invite → Exec Directory ℕ
create normalize_email defaults now fresh tenant email r = do
  row ←
      gets
        (λ db. first_row (λ u. same_text u.email (normalize_email email) && u.is_active) db.users)
  (pk, user) ← or_raise row (exception user_not_found)
  there ← gets (member_exists tenant pk)
  raise_if there (exception already_a_member)
  except_integrity (atomic (invite_locked defaults now fresh tenant pk user r))
      (raise (exception invitation_already_pending))

unfoldable pub cancel : ℕ → ℕ → ℕ → ℕ → Exec Directory ℕ
cancel now actor tenant pk = atomic do
  row ← gets (λ db. lookup pk db.invitations)
  i ← or_raise row (exception invitation_not_found)
  raise_if (not (i.tenant == tenant)) (exception invitation_not_found)
  raise_if (not (is_pending i.status)) (exception invitation_not_pending)
  save_invitation pk (record i { status = cancelled; responded_at = some now })
  notify i.invited_user Kind.invitation_cancelled tenant (invitation_ref pk ∷ [])
  audit actor tenant Action.invitation_cancelled pk
  pure pk

-- The writes of the two listings.
unfoldable pub expire_for_tenant : ℕ → ℕ → Directory → Directory
expire_for_tenant now tenant db = record db {
  invitations = expire_stale (λ _ i. i.tenant == tenant) now db.invitations;
}

unfoldable pub expire_for_user : ℕ → ℕ → Directory → Directory
expire_for_user now user db = record db {
  invitations = expire_stale (λ _ i. i.invited_user == user) now db.invitations;
}

-- The write of `respond` before its transaction.
unfoldable pub expire_one : ℕ → ℕ → ℕ → Directory → Directory
expire_one now user pk db = record db {
  invitations = expire_stale (λ k i. k == pk && i.invited_user == user) now db.invitations;
}

-- A returning resident's row: an owner's stays an owner's, and another is a resident's.
unfoldable pub reactivated : Membership → Membership
reactivated m = record m { status = MembershipStatus.active; ended_at = none }

unfoldable pub admit : ℕ → ℕ → ℕ → Exec Directory ℕ
admit fresh tenant user = do
  row ← gets (λ db. first_row (λ m. m.tenant == tenant && m.user == user) db.memberships)
  if_found row (insert_membership fresh (new_membership user tenant member) >> pure fresh)
      (λ r. save_membership r.0 (reactivated r.1) >> pure r.0)

abbrev pub new_resident : ℕ → ℕ → User → Resident
new_resident tenant pk user = record {
  tenant = tenant;
  user = pk;
  display_name = user.display_name;
  phone = user.phone;
  reference = "";
  email = user.email;
  status = ResidentStatus.active;
}

-- `Resident.objects.get_or_create`, and the profile made active again; `fresh` is a key that is free.
unfoldable pub house : ℕ → ℕ → ℕ → User → Directory → ℕ × Directory
house fresh tenant pk user db =
    elim (first_row (λ r. r.tenant == tenant && r.user == pk) db.residents) [
      | none ↦
          (fresh, record db { residents = save fresh (new_resident tenant pk user) db.residents })
      | some (k, r) ↦ (
        k,
        record db { residents = save k (record r { status = ResidentStatus.active }) db.residents },
      )
    ]

unfoldable pub decline : ℕ → ℕ → ℕ → Invitation → Exec Directory ℕ
decline now user pk i = do
  save_invitation pk (record i { status = declined; responded_at = some now })
  notify_owners Kind.invitation_declined i.tenant (invitation_ref pk ∷ [])
  audit user i.tenant Action.invitation_declined pk
  pure pk

-- The two notifications to each owner; `key` is the dedupe key of the second.
unfoldable pub welcome :
    List ℕ → ℕ → ℕ → ℕ → MemberUsage → String → Notifications.Inbox → Notifications.Inbox
welcome [] tenant pk resident usage key box = box
welcome (owner ∷ owners) tenant pk resident usage key box =
    let told =
      Notifications.notify owner Kind.invitation_accepted (some tenant)
        (invitation_ref pk ∷ resident_ref resident ∷ []) none box in
    welcome owners tenant pk resident usage key (
      if leb usage.limit usage.used
      then Notifications.notify owner Kind.plan_limit (some tenant) [] (some key) told
      else told)

-- The keys of the rows that an acceptance may insert.
pub record Fresh : Type 0 where
  pub membership : ℕ
  pub resident : ℕ

-- `limit_key` is the text `member-limit:…` of a workspace, its limit and its use.
unfoldable pub accept :
    Limits → (ℕ → ℕ → ℕ → String) → ℕ → Fresh → ℕ → User → ℕ → Invitation → Exec Directory ℕ
accept defaults limit_key now fresh user_pk user pk i = do
  assert_can_activate_member defaults i.tenant
  membership ← admit fresh.membership i.tenant user_pk
  resident ← λ db. let (k, db') = house fresh.resident i.tenant user_pk user db in (ok k, db')
  save_invitation pk (record i { status = accepted; responded_at = some now })
  usage ← gets (usage_for_workspace defaults now i.tenant)
  modify (λ db. record db {
    inbox =
        welcome (owners i.tenant db.memberships) i.tenant pk resident usage
          (limit_key i.tenant usage.limit usage.used) db.inbox;
  })
  audit user_pk i.tenant Action.invitation_accepted pk
  pure pk

-- The status that an answer asks for.
abbrev pub is_answered : Bool → InvitationStatus → Bool
is_answered true accepted = true
is_answered false declined = true
is_answered _ _ = false

-- `invited_user=user`
abbrev pub mine : ℕ → Option Invitation → Option Invitation
mine user none = none
mine user (some i) = if i.invited_user == user then some i else none

unfoldable pub answer :
    Limits → (ℕ → ℕ → ℕ → String) → ℕ → Fresh → ℕ → User → ℕ → Bool → Exec Directory ℕ
answer defaults limit_key now fresh user_pk user pk accepts = do
  row ← gets (λ db. mine user_pk (lookup pk db.invitations))
  i ← or_raise row (exception invitation_not_found)
  if is_answered accepts i.status then pure pk else do
    raise_if (is_pending i.status && leb i.expires_at now) (exception invitation_not_pending)
    raise_if (not (is_pending i.status)) (exception invitation_not_pending)
    t ← tenant_row i.tenant
    if not accepts then decline now user_pk pk i else do
      raise_if (is_unavailable t) (exception workspace_unavailable)
      accept defaults limit_key now fresh user_pk user pk i

-- The expiry stays written, whichever way the answer ends.
unfoldable pub respond :
    Limits → (ℕ → ℕ → ℕ → String) → ℕ → Fresh → ℕ → User → ℕ → Bool → Exec Directory ℕ
respond defaults limit_key now fresh user_pk user pk accepts = do
  modify (expire_one now user_pk pk)
  atomic (answer defaults limit_key now fresh user_pk user pk accepts)
