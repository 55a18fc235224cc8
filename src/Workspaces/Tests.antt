-- ===== src/Workspaces/Tests.antt =====
-- A small directory of apps/tenants: a workspace with its owner, an invitation to another user, and
-- what the calls make of it.
use tenora.Base.{ℕ, String, true, false, none, [], ◌∷◌, ◌≡◌, refl, arith}
use tenora.Base.Table.{lookup, exists, first_row, find_first}
use tenora.Base.Keys.{HasKeys}
use tenora.Base.Queries.{update_where, count}
use tenora.Base.Steps.{Reach, here, next}
use tenora.Exec.{ok}
use tenora.Notifications.{Inbox}
use tenora.Property.Rows.{owner, MembershipStatus}
use tenora.Workspaces.Rows.{Tenant, User, Invitation, pending, Directory, is_active_user}
use tenora.Property.Rows.{member}
use tenora.Workspaces.Limits.{
  Limits, workspace_limits, limits_of, assert_can_activate_member, active_member_count,
}
use tenora.Workspaces.Tenants.{insert_membership}
use tenora.Workspaces.Memberships.{transfer_ownership, leave}
use tenora.Workspaces.Invitations.{
  Fresh, Invite, respond, answer, accept, admit, house, expire_one, expire_stale, create,
}
use tenora.Workspaces.Ownership.{IsOwned}
use tenora.Workspaces.Seats.{IsSeated}
use tenora.Workspaces.Sessions.{
  Step, by_other, responds, transfers, leaves, invites, reached-Owned, reached-Seated, consent,
}
use tenora.Workspaces.Admissions.{room}
use tenora.Workspaces.Responses.{respond_again}
use tenora.Workspaces.Joining.{respond-Joined, Joined}

abbrev defaults : Limits
defaults = record { max_workspaces = 2; max_members_per_workspace = 10 }

abbrev limit_key : ℕ → ℕ → ℕ → String
limit_key tenant limit used = "member-limit"

abbrev as_written : String → String
as_written email = email

abbrev lakeside : Tenant
lakeside = record { name = "Lakeside"; slug = "lakeside"; is_active = true; closed_at = none }

abbrev invited : User
invited = record { email = "b@example.org"; display_name = "B"; phone = ""; is_active = true }

abbrev invitation : Invitation
invitation = record {
  tenant = 7;
  invited_user = 2;
  invited_by = 1;
  email = "b@example.org";
  role = member;
  unit = none;
  message = "";
  status = pending;
  expires_at = 500;
  responded_at = none;
}

abbrev inbox : Inbox
inbox = record { rows = []; preferences = []; is_active = λ _. true }

abbrev directory : Directory
directory = record {
  tenants = (7, lakeside) ∷ [];
  memberships =
      (
        1,
        record {
          user = 1;
          tenant = 7;
          role = owner;
          status = MembershipStatus.active;
          ended_at = none;
        },
      )
      ∷ [];
  invitations = (4, invitation) ∷ [];
  residents = [];
  users = (1, record invited { email = "a@example.org" }) ∷ (2, invited) ∷ [];
  plans = [];
  subscriptions = [];
  audit = [];
  inbox = inbox;
}

abbrev fresh : Fresh
fresh = record { membership = 9; resident = 3 }

abbrev joined : Directory
joined = (respond defaults limit_key 100 fresh 2 invited 4 true directory).1

abbrev handed_over : Directory
handed_over = (transfer_ownership defaults 1 7 9 joined).1

abbrev alone : Directory
alone = (leave 300 1 7 handed_over).1

-- The invitation is accepted, the workspace handed over, and the old owner leaves.
abbrev life : Reach (Step defaults as_written limit_key) directory alone
life =
    next (next (next here (responds 100 fresh 2 invited 4 true)) (by_other (transfers 1 7 9)))
      (by_other (leaves 300 1 7))

directory-IsOwned : IsOwned directory.tenants directory.memberships
unfolding lookup exists
directory-IsOwned t row e open_ = ground arith

directory-IsSeated : IsSeated (room defaults directory) directory.memberships
unfolding count workspace_limits limits_of first_row find_first
directory-IsSeated t = ground arith

reached-Owned_example : HasKeys alone.memberships × IsOwned alone.tenants alone.memberships
reached-Owned_example =
    reached-Owned defaults as_written limit_key directory alone life ((tt, tt), directory-IsOwned)

reached-Seated_example :
    HasKeys alone.memberships × IsSeated (room defaults alone) alone.memberships
reached-Seated_example =
    reached-Seated defaults as_written limit_key directory alone life ((tt, tt), directory-IsSeated)

abbrev invite : Invite
invite = record { inviter = 1; unit = none; message = "" }

abbrev asked : Directory
asked = (create as_written defaults 600 5 7 "b@example.org" invite directory).1

consent_example : exists (is_active_user 7 2) asked.memberships ≡ false
unfolding exists
consent_example =
    consent defaults as_written limit_key 7 2 directory asked
      (next here (invites 600 5 7 "b@example.org" invite)) (tt, tt) refl

accepted_once : (respond defaults limit_key 100 fresh 2 invited 4 true directory).0 ≡ ok 4
unfolding respond answer accept admit house insert_membership assert_can_activate_member
    active_member_count expire_one expire_stale update_where lookup exists first_row find_first
    count workspace_limits limits_of
accepted_once = refl

respond_again_example :
    respond defaults limit_key 900 fresh 2 invited 4 true joined ≡ (ok 4, joined)
respond_again_example =
    respond_again defaults defaults limit_key limit_key 100 900 fresh fresh 2 invited invited 4 4
      true directory (tt, tt) accepted_once

respond-Joined_example :
    Joined defaults limit_key 100 fresh 2 invited 4 7
      (respond defaults limit_key 100 fresh 2 invited 4 true directory)
unfolding lookup count workspace_limits limits_of first_row find_first
respond-Joined_example =
    respond-Joined defaults limit_key 100 fresh 2 invited 4 invitation lakeside directory (tt, tt)
      refl refl refl refl refl refl refl refl
