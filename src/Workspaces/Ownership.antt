-- ===== src/Workspaces/Ownership.antt =====
-- The owners of each workspace, over the writes of apps/tenants/services.py.
use tenora.Base.{ℕ, Bool, true, false, ◌==◌, is_some, ◌≡◌, ◌⊎◌, inl, inr, arith, Bool-cases, some}
use tenora.Base.Table.{
  Table, lookup, save, exists, exists_other, lookup-save, lookup-exists, exists-save,
  lookup-save_same,
}
use tenora.Base.Queries.{exists-update_where, exists-save_kept, exists-save_new, exists-save_other}
use tenora.Property.Rows.{Membership, owner, member}
use tenora.Workspaces.Rows.{Tenant, is_owner, is_active_owner, is_active_user}
use tenora.Workspaces.Limits.{is_active_member}
use tenora.Workspaces.Tenants.{new_membership, new_tenant}
use tenora.Workspaces.Invitations.{reactivated}
use tenora.Workspaces.Edits.{Shrink, unchanged, close, end, transfer, Grow, found, admit, readmit}

-- Each workspace that is not closed has an active owner.
abbrev pub IsOwned : Table Tenant → Table Membership → Type 0
IsOwned ts ms =
    (t : ℕ) (row : Tenant)
    → lookup t ts ≡ some row
    → is_some row.closed_at ≡ false
    → exists (is_active_owner t) ms ≡ true

lookup-found :
    (p : Membership → Bool) (k : ℕ) (v : Membership) (t : Table Membership)
    → lookup k t ≡ some v
    → p v ≡ true
    → exists p t ≡ true
lookup-found p k v t e q = elim (Bool-cases (exists p t)) [
  | inl yes_ ↦ yes_
  | inr no_ ↦ let out = lookup-exists p k v t no_ e in absurd (ground arith)
]

ended_owner :
    (t pk : ℕ) (m m' : Membership) (ms : Table Membership)
    → lookup pk ms ≡ some m
    → (is_owner m.role ≡ false) ⊎ (exists_other pk (is_active_owner m.tenant) ms ≡ true)
    → exists (is_active_owner t) ms ≡ true
    → exists (is_active_owner t) (save pk m' ms) ≡ true
ended_owner t pk m m' ms e (inl member_) h =
    exists-save_kept (is_active_owner t) pk m' m ms e (λ q. absurd (ground arith)) h
ended_owner t pk m m' ms e (inr other) h = elim (Bool-cases (m.tenant == t)) [
  | inl same ↦
      let name : m.tenant ≡ t = ground arith in
      exists-save_other (is_active_owner t) pk m' ms (rw name at other)
  | inr apart ↦ exists-save_kept (is_active_owner t) pk m' m ms e (λ q. absurd (ground arith)) h
]

-- The user of a membership that is not the actor's is an owner after the two writes.
transferred_owner :
    (t actor pk own : ℕ) (m current : Membership) (ms : Table Membership)
    → lookup pk ms ≡ some m
    → is_active_member m.tenant m ≡ true
    → (m.user == actor) ≡ false
    → lookup own ms ≡ some current
    → is_active_user m.tenant actor current ≡ true
    → exists (is_active_owner t) ms ≡ true
    → exists
        (is_active_owner t)
        (save own (record current { role = member }) (save pk (record m { role = owner }) ms))
      ≡ true
transferred_owner t actor pk own m current ms e i n f j h =
    let apart : (own == pk) ≡ false = apart_keys (Bool-cases (own == pk)) in
    by_tenant apart (Bool-cases (m.tenant == t))
  where
    apart_keys : (own == pk ≡ true) ⊎ (own == pk ≡ false) → (own == pk) ≡ false
    apart_keys (inl same) = let row : m ≡ current = ground arith in absurd (ground arith)
    apart_keys (inr other) = other

    by_tenant :
        (own == pk) ≡ false
        → (m.tenant == t ≡ true) ⊎ (m.tenant == t ≡ false)
        → exists
            (is_active_owner t)
            (save own (record current { role = member }) (save pk (record m { role = owner }) ms))
          ≡ true
    by_tenant apart (inl same) =
        lookup-found (is_active_owner t) pk (record m { role = owner }) _
          (ground (
            arith,
            lookup-save pk own (record current { role = member })
                (save pk (record m { role = owner }) ms),
            lookup-save_same pk (record m { role = owner }) ms,
          ))
          (ground arith)
    by_tenant apart (inr other) =
        exists-save_kept (is_active_owner t) own (record current { role = member }) current _
          (ground (arith, lookup-save own pk (record m { role = owner }) ms))
          (λ q. absurd (ground arith))
          (exists-save_kept (is_active_owner t) pk (record m { role = owner }) m ms e
            (λ q. absurd (ground arith)) h)

pub Shrink-IsOwned :
    (ts ts' : Table Tenant) (ms ms' : Table Membership)
    → Shrink ts ms ts' ms'
    → IsOwned ts ms
    → IsOwned ts' ms'
Shrink-IsOwned ts ts' ms ms' (unchanged a b) h t row e open_ = rw b (h t row (ground arith) open_)
Shrink-IsOwned ts ts' ms ms' (close now actor pk closed_ a b) h t row e open_ =
    let at = lookup-save t pk (record closed_ { closed_at = some now }) ts in
    elim (Bool-cases (pk == t)) [
      | inl same ↦ absurd (ground arith)
      | inr other ↦ rw b (
          exists-update_where (is_active_owner t) _ _ ms (λ k v q c. absurd (ground arith))
            (h t row (ground arith) open_))
    ]
Shrink-IsOwned ts ts' ms ms' (end now pk m status e inactive others a b) h t row r open_ =
    rw b (ended_owner t pk m _ ms e others (h t row (ground arith) open_))
Shrink-IsOwned ts ts' ms ms' (transfer actor pk own m current e i n f j a b) h t row r open_ =
    rw b (transferred_owner t actor pk own m current ms e i n f j (h t row (ground arith) open_))

pub Grow-IsOwned :
    (room : ℕ → ℕ) (ts ts' : Table Tenant) (ms ms' : Table Membership)
    → Grow ts ms ts' ms' room
    → IsOwned ts ms
    → IsOwned ts' ms'
unfolding reactivated
Grow-IsOwned room ts ts' ms ms' (found fresh pk user name slug e a b) h t row r open_ =
    let at = lookup-save t fresh (new_tenant name slug) ts in
    elim (Bool-cases (fresh == t)) [
      | inl same ↦
          rw b
            (exists-save (is_active_owner t) pk (new_membership user fresh owner) ms (ground arith))
      | inr other ↦ rw b (
          exists-save_new (is_active_owner t) pk (new_membership user fresh owner) ms e
            (h t row (ground arith) open_))
    ]
Grow-IsOwned room ts ts' ms ms' (admit pk user tenant e free a b) h t row r open_ = rw b (
    exists-save_new (is_active_owner t) pk (new_membership user tenant member) ms e
      (h t row (ground arith) open_))
Grow-IsOwned room ts ts' ms ms' (readmit pk m e free a b) h t row r open_ = rw b (
    exists-save_kept (is_active_owner t) pk (reactivated m) m ms e (λ q. ground arith)
      (h t row (ground arith) open_))
