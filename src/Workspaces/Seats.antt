-- ===== src/Workspaces/Seats.antt =====
-- The active residents of each workspace, over the writes of apps/tenants/services.py.
use tenora.Base.{
  ℕ, Bool, true, false, ◌&&◌, ◌==◌, ◌+◌, leb, ltb, ◌≡◌, refl, ◌⊎◌, inl, inr, arith, Bool-cases,
  some,
}
use tenora.Base.Table.{Table, lookup, save, lookup-save}
use tenora.Base.Queries.{count, one_if, count-save, count-save_new, count-update_where}
use tenora.Property.Rows.{Membership, owner, member}
use tenora.Workspaces.Rows.{Tenant, is_active_user}
use tenora.Workspaces.Limits.{is_active_member}
use tenora.Workspaces.Tenants.{new_membership, left}
use tenora.Workspaces.Invitations.{reactivated}
use tenora.Workspaces.Edits.{Shrink, unchanged, close, end, transfer, Grow, found, admit, readmit}

abbrev pub IsSeated : (ℕ → ℕ) → Table Membership → Type 0
IsSeated room ms = (t : ℕ) → leb (count (is_active_member t) ms) (room t) ≡ true

-- The two writes of a transfer leave the count as it was, or lower it.
transferred :
    (t actor pk own : ℕ) (m current : Membership) (ms : Table Membership)
    → lookup pk ms ≡ some m
    → is_active_member m.tenant m ≡ true
    → (m.user == actor) ≡ false
    → lookup own ms ≡ some current
    → is_active_user m.tenant actor current ≡ true
    → leb
        (count
          (is_active_member t)
          (save own (record current { role = member }) (save pk (record m { role = owner }) ms)))
        (count (is_active_member t) ms)
      ≡ true
transferred t actor pk own m current ms e i n f j =
    let apart : (pk == own) ≡ false = apart_keys (Bool-cases (pk == own)) in
    let there : lookup own (save pk (record m { role = owner }) ms) ≡ some current =
      ground (arith, lookup-save own pk (record m { role = owner }) ms) in
    let first = count-save (is_active_member t) pk (record m { role = owner }) m ms e in
    let second =
      count-save (is_active_member t) own (record current { role = member }) current _ there in
    ground arith
  where
    apart_keys : (pk == own ≡ true) ⊎ (pk == own ≡ false) → (pk == own) ≡ false
    apart_keys (inl same) = let row : m ≡ current = ground arith in absurd (ground arith)
    apart_keys (inr other) = other

pub Shrink-IsSeated :
    (room : ℕ → ℕ) (ts ts' : Table Tenant) (ms ms' : Table Membership)
    → Shrink ts ms ts' ms'
    → IsSeated room ms
    → IsSeated room ms'
Shrink-IsSeated room ts ts' ms ms' (unchanged a b) h t = rw b (h t)
Shrink-IsSeated room ts ts' ms ms' (close now actor pk row a b) h t =
    let less =
      count-update_where (is_active_member t) (λ _ m. m.tenant == pk && m.user == actor) (left now)
        ms (λ v e. absurd (ground arith)) in
    let seated = h t in rw b (ground arith)
Shrink-IsSeated room ts ts' ms ms' (end now pk m status e inactive _ a b) h t =
    let less =
      count-save (is_active_member t) pk (record m { status = status; ended_at = some now }) m ms
        e in
    let seated = h t in rw b (ground arith)
Shrink-IsSeated room ts ts' ms ms' (transfer actor pk own m current e i n f j a b) h t =
    let less = transferred t actor pk own m current ms e i n f j in
    let seated = h t in rw b (ground arith)

-- One more in the workspace that has room is within the room of every workspace.
grown :
    (room : ℕ → ℕ) (ms : Table Membership) (tenant t c : ℕ) (x : Bool)
    → ltb (count (is_active_member tenant) ms) (room tenant) ≡ true
    → leb (count (is_active_member t) ms) (room t) ≡ true
    → leb c (count (is_active_member t) ms + one_if x) ≡ true
    → (x ≡ true → (tenant == t) ≡ true)
    → leb c (room t) ≡ true
grown room ms tenant t c true free seated more inside =
    let name : tenant ≡ t = ground (arith, inside refl) in
    let free_here : ltb (count (is_active_member t) ms) (room t) ≡ true = rw name at free in
    ground arith
grown room ms tenant t c false free seated more inside = ground arith

pub Grow-IsSeated :
    (room : ℕ → ℕ) (ts ts' : Table Tenant) (ms ms' : Table Membership)
    → Grow ts ms ts' ms' room
    → IsSeated room ms
    → IsSeated room ms'
unfolding reactivated
Grow-IsSeated room ts ts' ms ms' (found fresh pk user name slug e a b) h t =
    let more = count-save_new (is_active_member t) pk (new_membership user fresh owner) ms e in
    let seated = h t in rw b (ground arith)
Grow-IsSeated room ts ts' ms ms' (admit pk user tenant e free a b) h t =
    let more = count-save_new (is_active_member t) pk (new_membership user tenant member) ms e in
    rw b (
      grown room ms tenant t _ (is_active_member t (new_membership user tenant member)) free (h t)
        (ground arith) (λ q. ground arith))
Grow-IsSeated room ts ts' ms ms' (readmit pk m e free a b) h t =
    let more = count-save (is_active_member t) pk (reactivated m) m ms e in
    rw b (
      grown room ms m.tenant t _ (is_active_member t (reactivated m)) free (h t) (ground arith)
        (λ q. ground arith))
