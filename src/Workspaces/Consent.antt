-- ===== src/Workspaces/Consent.antt =====
-- Who is in a workspace after the writes that admit nobody.
use tenora.Base.{ℕ, false, ◌≡◌, arith}
use tenora.Base.Table.{Table, exists, lookup-exists}
use tenora.Base.Queries.{exists-update_where_back, exists-save_back}
use tenora.Property.Rows.{Membership, owner, member}
use tenora.Workspaces.Rows.{Tenant, is_active_user}
use tenora.Workspaces.Edits.{Shrink, unchanged, close, end, transfer}

-- A user who was not an active member of a workspace is not one after them.
pub Shrink-out :
    (t u : ℕ) (ts ts' : Table Tenant) (ms ms' : Table Membership)
    → Shrink ts ms ts' ms'
    → exists (is_active_user t u) ms ≡ false
    → exists (is_active_user t u) ms' ≡ false
Shrink-out t u ts ts' ms ms' (unchanged a b) h = rw b h
Shrink-out t u ts ts' ms ms' (close now actor pk row a b) h =
    rw b (exists-update_where_back (is_active_user t u) _ _ ms (λ v e. absurd (ground arith)) h)
Shrink-out t u ts ts' ms ms' (end now pk m status e inactive _ a b) h =
    rw b (exists-save_back (is_active_user t u) pk _ ms (ground arith) h)
Shrink-out t u ts ts' ms ms' (transfer actor pk own m current e i n f j a b) h =
    let out : is_active_user t u m ≡ false = lookup-exists (is_active_user t u) pk m ms h e in
    let out' : is_active_user t u current ≡ false =
      lookup-exists (is_active_user t u) own current ms h f in
    rw b (
      exists-save_back (is_active_user t u) own (record current { role = member }) _ out'
        (exists-save_back (is_active_user t u) pk (record m { role = owner }) ms out h))
