-- ===== src/Workspaces/Calls.antt =====
-- What each call of apps/tenants/services.py that admits nobody writes.
use tenora.Base.{ℕ, String, not, ◌&&◌, ◌==◌, ◌≡◌, refl, inl, inr, arith, Bool-cases, Option-cases}
use tenora.Base.Table.{lookup, exists, exists_other, first_row, first_row-lookup}
use tenora.Base.Keys.{HasKeys, first_row-fits}
use tenora.Property.Rows.{MembershipStatus}
use tenora.Workspaces.Rows.{
  User, Directory, is_owner, is_active, is_active_owner, is_active_user, membership_row, active_row,
  notify_owners,
}
use tenora.Workspaces.Limits.{Limits, assert_can_create_workspace, assert_can_invite}
use tenora.Workspaces.Tenants.{close_workspace, closed}
use tenora.Workspaces.Memberships.{leave, is_last_owner, ended, remove, removal, transfer_ownership}
use tenora.Workspaces.Invitations.{create, invite_locked, insert_invitation, cancel, Invite}
use tenora.Workspaces.Edits.{Shrink, unchanged, close, end}

abbrev pub Shrinks : Directory → Directory → Type 0
Shrinks db db' = Shrink db.tenants db.memberships db'.tenants db'.memberships

-- The rows of the billing that the limits read.
abbrev pub KeepsPlans : Directory → Directory → Type 0
KeepsPlans db db' = (db'.plans ≡ db.plans) × (db'.subscriptions ≡ db.subscriptions)

pub close_workspace-Shrinks :
    (now actor pk : ℕ) (db : Directory) → Shrinks db (close_workspace now actor pk db).1
unfolding close_workspace closed
close_workspace-Shrinks now actor pk db = elim (Option-cases (lookup pk db.tenants)) [
  | inl e ↦ unchanged (ground arith) (ground arith)
  | inr (t, e) ↦
      elim (Bool-cases (
        exists (λ m. m.tenant == pk && is_active m.status && not (m.user == actor))
          db.memberships)) [
            | inl busy ↦ unchanged (ground arith) (ground arith)
            | inr alone ↦ close now actor pk t (ground arith) (ground arith)
          ]
]

pub close_workspace-KeepsPlans :
    (now actor pk : ℕ) (db : Directory) → KeepsPlans db (close_workspace now actor pk db).1
unfolding close_workspace closed
close_workspace-KeepsPlans now actor pk db = (ground arith, ground arith)

pub leave-Shrinks :
    (now user tenant : ℕ) (db : Directory)
    → HasKeys db.memberships
    → Shrinks db (leave now user tenant db).1
unfolding leave active_row is_last_owner ended notify_owners
leave-Shrinks now user tenant db keys = elim (Option-cases (lookup tenant db.tenants)) [
  | inl e ↦ unchanged (ground arith) (ground arith)
  | inr (t, e) ↦ elim (Option-cases (first_row (is_active_user tenant user) db.memberships)) [
    | inl missing ↦ unchanged (ground arith) (ground arith)
    | inr ((pk, m), found) ↦
        let fits = first_row-fits (is_active_user tenant user) pk m db.memberships keys found in
        let at = first_row-lookup (is_active_user tenant user) pk m db.memberships found in
        let name : tenant ≡ m.tenant = ground arith in
        elim (Bool-cases (is_owner m.role)) [
          | inr resident ↦
              end now pk m MembershipStatus.left at refl (inl resident) (ground arith)
                (ground arith)
          | inl owner_ ↦
              elim (Bool-cases (exists_other pk (is_active_owner tenant) db.memberships)) [
                | inr last ↦ unchanged (ground arith) (ground arith)
                | inl other ↦
                    end now pk m MembershipStatus.left at refl (inr (rw name at other))
                      (ground arith) (ground arith)
              ]
        ]
  ]
]

pub leave-KeepsPlans :
    (now user tenant : ℕ) (db : Directory) → KeepsPlans db (leave now user tenant db).1
unfolding leave active_row is_last_owner ended notify_owners
leave-KeepsPlans now user tenant db = (ground arith, ground arith)

pub remove-Shrinks :
    (now actor tenant pk : ℕ) (db : Directory) → Shrinks db (remove now actor tenant pk db).1
unfolding remove removal membership_row ended
remove-Shrinks now actor tenant pk db = elim (Option-cases (lookup pk db.memberships)) [
  | inl e ↦ unchanged (ground arith) (ground arith)
  | inr (m, e) ↦
      elim (Bool-cases ((m.tenant == tenant) && not (is_owner m.role) && is_active m.status)) [
        | inr no_ ↦ unchanged (ground arith) (ground arith)
        | inl live ↦
            end now pk m MembershipStatus.removed e refl (inl (ground arith)) (ground arith)
              (ground arith)
      ]
]

pub remove-KeepsPlans :
    (now actor tenant pk : ℕ) (db : Directory) → KeepsPlans db (remove now actor tenant pk db).1
unfolding remove removal membership_row ended
remove-KeepsPlans now actor tenant pk db = (ground arith, ground arith)

pub transfer_ownership-KeepsPlans :
    (defaults : Limits) (actor tenant pk : ℕ) (db : Directory)
    → KeepsPlans db (transfer_ownership defaults actor tenant pk db).1
unfolding transfer_ownership membership_row active_row assert_can_create_workspace
transfer_ownership-KeepsPlans defaults actor tenant pk db = (ground arith, ground arith)

pub cancel-quiet :
    (now actor tenant pk : ℕ) (db : Directory)
    → Shrinks db (cancel now actor tenant pk db).1 × KeepsPlans db (cancel now actor tenant pk db).1
unfolding cancel
cancel-quiet now actor tenant pk db =
    (unchanged (ground arith) (ground arith), (ground arith, ground arith))

invite_locked-quiet :
    (defaults : Limits) (now fresh tenant pk : ℕ) (user : User) (r : Invite) (db : Directory)
    → Shrinks db (invite_locked defaults now fresh tenant pk user r db).1
      × KeepsPlans db (invite_locked defaults now fresh tenant pk user r db).1
unfolding invite_locked assert_can_invite insert_invitation
invite_locked-quiet defaults now fresh tenant pk user r db =
    (unchanged (ground arith) (ground arith), (ground arith, ground arith))

pub create-quiet :
    (normalize_email : String → String) (defaults : Limits) (now fresh tenant : ℕ) (email : String)
    (r : Invite) (db : Directory)
    → Shrinks db (create normalize_email defaults now fresh tenant email r db).1
      × KeepsPlans db (create normalize_email defaults now fresh tenant email r db).1
unfolding create invite_locked assert_can_invite insert_invitation
create-quiet normalize_email defaults now fresh tenant email r db =
    (unchanged (ground arith) (ground arith), (ground arith, ground arith))
