-- ===== src/Workspaces/Edits.antt =====
-- What the calls of apps/tenants/services.py write to the workspaces and to the memberships.
use tenora.Base.{ℕ, String, true, false, ◌&&◌, some, none, ◌==◌, ltb, ◌≡◌, ◌⊎◌}
use tenora.Base.Table.{Table, lookup, save, exists_other}
use tenora.Base.Queries.{update_where, count}
use tenora.Property.Rows.{Membership, owner, member, MembershipStatus}
use tenora.Workspaces.Rows.{Tenant, is_owner, is_active, is_active_owner, is_active_user}
use tenora.Workspaces.Limits.{is_active_member}
use tenora.Workspaces.Tenants.{new_membership, new_tenant, left}
use tenora.Workspaces.Invitations.{reactivated}

module _ (ts : Table Tenant) (ms : Table Membership) (ts' : Table Tenant)
    (ms' : Table Membership) where
  -- The writes that admit nobody.
  pub data Shrink : Type 0 where
    unchanged : ts' ≡ ts → ms' ≡ ms → Shrink
    close :
        (now actor pk : ℕ) (t : Tenant)
        → ts' ≡ save pk (record t { closed_at = some now }) ts
        → ms' ≡ update_where (λ _ m. m.tenant == pk && m.user == actor) (left now) ms
        → Shrink
    end :
        (now pk : ℕ) (m : Membership) (status : MembershipStatus)
        → lookup pk ms ≡ some m
        → is_active status ≡ false
        → (is_owner m.role ≡ false) ⊎ (exists_other pk (is_active_owner m.tenant) ms ≡ true)
        → ts' ≡ ts
        → ms' ≡ save pk (record m { status = status; ended_at = some now }) ms
        → Shrink
    transfer :
        (actor pk own : ℕ) (m current : Membership)
        → lookup pk ms ≡ some m
        → is_active_member m.tenant m ≡ true
        → (m.user == actor) ≡ false
        → lookup own ms ≡ some current
        → is_active_user m.tenant actor current ≡ true
        → ts' ≡ ts
        → ms' ≡ save own (record current { role = member }) (save pk (record m { role = owner }) ms)
        → Shrink

  -- The writes that admit a user, within the room of a workspace.
  pub data Grow (room : ℕ → ℕ) : Type 0 where
    found :
        (fresh pk user : ℕ) (name slug : String)
        → lookup pk ms ≡ none
        → ts' ≡ save fresh (new_tenant name slug) ts
        → ms' ≡ save pk (new_membership user fresh owner) ms
        → Grow room
    admit :
        (pk user tenant : ℕ)
        → lookup pk ms ≡ none
        → ltb (count (is_active_member tenant) ms) (room tenant) ≡ true
        → ts' ≡ ts
        → ms' ≡ save pk (new_membership user tenant member) ms
        → Grow room
    readmit :
        (pk : ℕ) (m : Membership)
        → lookup pk ms ≡ some m
        → ltb (count (is_active_member m.tenant) ms) (room m.tenant) ≡ true
        → ts' ≡ ts
        → ms' ≡ save pk (reactivated m) ms
        → Grow room
