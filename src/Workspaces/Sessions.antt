-- ===== src/Workspaces/Sessions.antt =====
-- Any calls of apps/tenants/services.py, in any order: the calls as steps of the directory, and what
-- holds of every directory that they reach.
use tenora.Base.{ℕ, String, Bool, false, ◌≡◌, refl, inl, inr}
use tenora.Base.Table.{Table, exists}
use tenora.Base.Keys.{HasKeys, HasKeys-save, HasKeys-update_where}
use tenora.Base.Steps.{Reach, Reach-keeps}
use tenora.Property.Rows.{Membership}
use tenora.Workspaces.Rows.{Tenant, User, Directory, is_active_user}
use tenora.Workspaces.Limits.{Limits, workspace_limits}
use tenora.Workspaces.Tenants.{create_tenant, close_workspace}
use tenora.Workspaces.Memberships.{leave, remove, transfer_ownership}
use tenora.Workspaces.Invitations.{
  Invite, Fresh, create, cancel, respond, expire_for_tenant, expire_for_user,
}
use tenora.Workspaces.Edits.{Shrink, unchanged, close, end, transfer, Grow, found, admit, readmit}
use tenora.Workspaces.Consent.{Shrink-out}
use tenora.Workspaces.Seats.{IsSeated, Shrink-IsSeated, Grow-IsSeated}
use tenora.Workspaces.Ownership.{IsOwned, Shrink-IsOwned, Grow-IsOwned}
use tenora.Workspaces.Calls.{
  Shrinks, KeepsPlans, close_workspace-Shrinks, close_workspace-KeepsPlans, leave-Shrinks,
  leave-KeepsPlans, remove-Shrinks, remove-KeepsPlans, transfer_ownership-KeepsPlans, cancel-quiet,
  create-quiet,
}
use tenora.Workspaces.Admissions.{
  transfer_ownership-Shrinks, Grows, room, create_tenant-Grows, create_tenant-KeepsPlans,
  respond-Grows,
}

module _ (defaults : Limits) (normalize_email : String → String)
    (limit_key : ℕ → ℕ → ℕ → String) where
  -- Any call but an answer to an invitation and the foundation of a workspace, whichever way it
  -- ends.
  pub data OtherStep (db : Directory) : Directory → Type 0 where
    closes : (now actor pk : ℕ) → OtherStep db (close_workspace now actor pk db).1
    leaves : (now user tenant : ℕ) → OtherStep db (leave now user tenant db).1
    removes : (now actor tenant pk : ℕ) → OtherStep db (remove now actor tenant pk db).1
    transfers :
        (actor tenant pk : ℕ) → OtherStep db (transfer_ownership defaults actor tenant pk db).1
    invites :
        (now fresh tenant : ℕ) (email : String) (r : Invite)
        → OtherStep db (create normalize_email defaults now fresh tenant email r db).1
    cancels : (now actor tenant pk : ℕ) → OtherStep db (cancel now actor tenant pk db).1
    lists : (now tenant : ℕ) → OtherStep db (expire_for_tenant now tenant db)
    looks : (now user : ℕ) → OtherStep db (expire_for_user now user db)

  -- Any call.
  pub data Step (db : Directory) : Directory → Type 0 where
    by_other : {db' : Directory} → OtherStep db db' → Step db db'
    founds :
        (fresh fresh_membership user : ℕ) (name slug : String)
        → Step db (create_tenant defaults fresh fresh_membership user name slug db).1
    responds :
        (now : ℕ) (fresh : Fresh) (user_pk : ℕ) (user : User) (pk : ℕ) (accepts : Bool)
        → Step db (respond defaults limit_key now fresh user_pk user pk accepts db).1

  OtherStep-Shrinks :
      {db db' : Directory}
      → OtherStep db db'
      → HasKeys db.memberships
      → Shrinks db db' × KeepsPlans db db'
  unfolding expire_for_tenant expire_for_user
  OtherStep-Shrinks {db} (closes now actor pk) keys =
      (close_workspace-Shrinks now actor pk db, close_workspace-KeepsPlans now actor pk db)
  OtherStep-Shrinks {db} (leaves now user tenant) keys =
      (leave-Shrinks now user tenant db keys, leave-KeepsPlans now user tenant db)
  OtherStep-Shrinks {db} (removes now actor tenant pk) keys =
      (remove-Shrinks now actor tenant pk db, remove-KeepsPlans now actor tenant pk db)
  OtherStep-Shrinks {db} (transfers actor tenant pk) keys = (
    transfer_ownership-Shrinks defaults actor tenant pk db keys,
    transfer_ownership-KeepsPlans defaults actor tenant pk db,
  )
  OtherStep-Shrinks {db} (invites now fresh tenant email r) keys =
      create-quiet normalize_email defaults now fresh tenant email r db
  OtherStep-Shrinks {db} (cancels now actor tenant pk) keys = cancel-quiet now actor tenant pk db
  OtherStep-Shrinks {db} (lists now tenant) keys = (unchanged refl refl, (refl, refl))
  OtherStep-Shrinks {db} (looks now user) keys = (unchanged refl refl, (refl, refl))

  Step-Grows :
      {db db' : Directory}
      → Step db db'
      → HasKeys db.memberships
      → Grows defaults db db' × KeepsPlans db db'
  Step-Grows (by_other w) keys = let (a, b) = OtherStep-Shrinks w keys in (inl a, b)
  Step-Grows {db} (founds fresh fresh_membership user name slug) keys = (
    create_tenant-Grows defaults fresh fresh_membership user name slug db,
    create_tenant-KeepsPlans defaults fresh fresh_membership user name slug db,
  )
  Step-Grows {db} (responds now fresh user_pk user pk accepts) keys =
      respond-Grows defaults limit_key now fresh user_pk user pk accepts db keys

Shrink-HasKeys :
    (ts ts' : Table Tenant) (ms ms' : Table Membership)
    → Shrink ts ms ts' ms'
    → HasKeys ms
    → HasKeys ms'
Shrink-HasKeys ts ts' ms ms' (unchanged a b) h = rw b h
Shrink-HasKeys ts ts' ms ms' (close now actor pk row a b) h = rw b (HasKeys-update_where _ _ ms h)
Shrink-HasKeys ts ts' ms ms' (end now pk m status e inactive _ a b) h =
    rw b (HasKeys-save pk _ ms h)
Shrink-HasKeys ts ts' ms ms' (transfer actor pk own m current e i n f j a b) h =
    rw b (HasKeys-save own _ _ (HasKeys-save pk _ ms h))

Grow-HasKeys :
    (room : ℕ → ℕ) (ts ts' : Table Tenant) (ms ms' : Table Membership)
    → Grow ts ms ts' ms' room
    → HasKeys ms
    → HasKeys ms'
Grow-HasKeys room ts ts' ms ms' (found fresh pk user name slug e a b) h =
    rw b (HasKeys-save pk _ ms h)
Grow-HasKeys room ts ts' ms ms' (admit pk user tenant e free a b) h = rw b (HasKeys-save pk _ ms h)
Grow-HasKeys room ts ts' ms ms' (readmit pk m e free a b) h = rw b (HasKeys-save pk _ ms h)

Grows-HasKeys :
    (defaults : Limits) (db db' : Directory)
    → Grows defaults db db'
    → HasKeys db.memberships
    → HasKeys db'.memberships
Grows-HasKeys defaults db db' (inl w) h =
    Shrink-HasKeys db.tenants db'.tenants db.memberships db'.memberships w h
Grows-HasKeys defaults db db' (inr w) h =
    Grow-HasKeys (room defaults db) db.tenants db'.tenants db.memberships db'.memberships w h

Grows-IsOwned :
    (defaults : Limits) (db db' : Directory)
    → Grows defaults db db'
    → IsOwned db.tenants db.memberships
    → IsOwned db'.tenants db'.memberships
Grows-IsOwned defaults db db' (inl w) h =
    Shrink-IsOwned db.tenants db'.tenants db.memberships db'.memberships w h
Grows-IsOwned defaults db db' (inr w) h =
    Grow-IsOwned (room defaults db) db.tenants db'.tenants db.memberships db'.memberships w h

Grows-IsSeated :
    (defaults : Limits) (db db' : Directory)
    → Grows defaults db db'
    → IsSeated (room defaults db) db.memberships
    → IsSeated (room defaults db) db'.memberships
Grows-IsSeated defaults db db' (inl w) h =
    Shrink-IsSeated (room defaults db) db.tenants db'.tenants db.memberships db'.memberships w h
Grows-IsSeated defaults db db' (inr w) h =
    Grow-IsSeated (room defaults db) db.tenants db'.tenants db.memberships db'.memberships w h

KeepsPlans-room :
    (defaults : Limits) (db db' : Directory) (t : ℕ)
    → KeepsPlans db db'
    → room defaults db' t ≡ room defaults db t
unfolding workspace_limits
KeepsPlans-room defaults db db' t (plans, subscriptions) = rw (plans, subscriptions) refl

abbrev pub Owned : Directory → Type 0
Owned db = HasKeys db.memberships × IsOwned db.tenants db.memberships

abbrev pub Seated : Limits → Directory → Type 0
Seated defaults db = HasKeys db.memberships × IsSeated (room defaults db) db.memberships

module _ (defaults : Limits) (normalize_email : String → String)
    (limit_key : ℕ → ℕ → ℕ → String) where
  -- If the memberships stand under different keys and every workspace that is not closed has an
  -- active owner, then both still hold in every directory that is reached by any number of calls
  -- of the services of apps/tenants, in any order and whichever way each ends.
  pub reached-Owned :
      (db db' : Directory)
      → Reach (Step defaults normalize_email limit_key) db db'
      → Owned db
      → Owned db'
  reached-Owned = Reach-keeps (Step defaults normalize_email limit_key) Owned λ u v w h.
      let (grows, _) = Step-Grows defaults normalize_email limit_key w h.0 in
      (Grows-HasKeys defaults u v grows h.0, Grows-IsOwned defaults u v grows h.1)

  -- If the memberships stand under different keys and no workspace has more active residents than
  -- the seats of its plan, then both still hold in every directory that is reached by any number
  -- of calls of the services of apps/tenants, in any order and whichever way each ends.
  pub reached-Seated :
      (db db' : Directory)
      → Reach (Step defaults normalize_email limit_key) db db'
      → Seated defaults db
      → Seated defaults db'
  reached-Seated =
      Reach-keeps (Step defaults normalize_email limit_key) (Seated defaults) λ u v w h.
        let (grows, plans) = Step-Grows defaults normalize_email limit_key w h.0 in
        let seated = Grows-IsSeated defaults u v grows h.1 in
        (
          Grows-HasKeys defaults u v grows h.0,
          λ t. rw (KeepsPlans-room defaults u v t plans) (seated t),
        )

  OtherStep-out :
      (t user : ℕ) (u v : Directory)
      → OtherStep defaults normalize_email limit_key u v
      → HasKeys u.memberships × (exists (is_active_user t user) u.memberships ≡ false)
      → HasKeys v.memberships × (exists (is_active_user t user) v.memberships ≡ false)
  OtherStep-out t user u v w h =
      let (shrinks, _) = OtherStep-Shrinks defaults normalize_email limit_key w h.0 in
      (
        Shrink-HasKeys u.tenants v.tenants u.memberships v.memberships shrinks h.0,
        Shrink-out t user u.tenants v.tenants u.memberships v.memberships shrinks h.1,
      )

  -- If the memberships stand under different keys, then a user who is not an active member of a
  -- workspace is not one either after any number of calls of the services of apps/tenants, in any
  -- order and whichever way each ends, that neither answer an invitation nor found a workspace:
  -- no invitation, removal, departure, transfer, withdrawal, closure or listing makes a member of
  -- anyone.
  pub consent :
      (t user : ℕ) (db db' : Directory)
      → Reach (OtherStep defaults normalize_email limit_key) db db'
      → HasKeys db.memberships
      → exists (is_active_user t user) db.memberships ≡ false
      → exists (is_active_user t user) db'.memberships ≡ false
  consent t user db db' r keys out =
      (Reach-keeps (OtherStep defaults normalize_email limit_key)
        (λ u. HasKeys u.memberships × (exists (is_active_user t user) u.memberships ≡ false))
        (OtherStep-out t user) db db' r (keys, out)).1
