-- ===== src/Workspaces/Joining.antt =====
-- An acceptance of an invitation: `InvitationService.respond` of apps/tenants/services.py.
use tenora.Base.{
  ℕ, String, true, false, ◌&&◌, none, some, ◌==◌, ◌≡◌, ◌∙◌, inl, inr, arith, Option-cases, ltb, leb,
}
use tenora.Base.Table.{lookup, exists, first_row, exists-save, exists-weaken}
use tenora.Base.Keys.{HasKeys, first_row-fits, first_row-missing}
use tenora.Base.Queries.{count, lookup-update_where}
use tenora.Exec.{Result, ok, err, rolled_back}
use tenora.Property.Rows.{member}
use tenora.Workspaces.Rows.{Tenant, User, Invitation, Directory, is_pending, is_active_user}
use tenora.Workspaces.Limits.{
  Limits, workspace_limits, assert_can_activate_member, active_member_count, is_active_member,
}
use tenora.Workspaces.Tenants.{insert_membership, new_membership}
use tenora.Workspaces.Invitations.{
  Fresh, accept, admit, reactivated, house, answer, respond, is_unavailable, expire_stale,
  expire_one,
}
use tenora.Workspaces.Admissions.{room}

module _ (defaults : Limits) (limit_key : ℕ → ℕ → ℕ → String) (now : ℕ) (fresh : Fresh)
    (user_pk : ℕ) (user : User) (pk : ℕ) where
  abbrev pub Joined : ℕ → Result ℕ × Directory → Type 0
  Joined tenant r = (r.0 ≡ ok pk) × (exists (is_active_user tenant user_pk) r.1.memberships ≡ true)

  accept-Joined :
      (i : Invitation) (db : Directory)
      → HasKeys db.memberships
      → ltb (count (is_active_member i.tenant) db.memberships) (room defaults db i.tenant) ≡ true
      → lookup fresh.membership db.memberships ≡ none
      → Joined i.tenant (accept defaults limit_key now fresh user_pk user pk i db)
  unfolding accept admit house insert_membership assert_can_activate_member active_member_count
      reactivated
  accept-Joined i db keys free new =
      elim (Option-cases
        (first_row (λ m. m.tenant == i.tenant && m.user == user_pk) db.memberships)) [
          | inl missing ↦
              let none_ =
                first_row-missing (λ m. m.tenant == i.tenant && m.user == user_pk) db.memberships
                  keys missing in
              let clear =
                exists-weaken (λ o. o.user == user_pk && o.tenant == i.tenant)
                  (λ m. m.tenant == i.tenant && m.user == user_pk) db.memberships
                  (λ m q. ground arith) none_ in
              let here =
                exists-save (is_active_user i.tenant user_pk) fresh.membership
                  (new_membership user_pk i.tenant member) db.memberships (ground arith) in
              (ground arith, ground arith)
          | inr ((k, m), there) ↦
              let fits =
                first_row-fits (λ m. m.tenant == i.tenant && m.user == user_pk) k m db.memberships
                  keys there in
              let here =
                exists-save (is_active_user i.tenant user_pk) k (reactivated m) db.memberships
                  (ground arith) in
              (ground arith, ground arith)
        ]

  answer-open :
      (i : Invitation) (t : Tenant) (db : Directory)
      → lookup pk db.invitations ≡ some i
      → (i.invited_user == user_pk) ≡ true
      → is_pending i.status ≡ true
      → leb i.expires_at now ≡ false
      → lookup i.tenant db.tenants ≡ some t
      → is_unavailable t ≡ false
      → answer defaults limit_key now fresh user_pk user pk true db
        ≡ accept defaults limit_key now fresh user_pk user pk i db
  unfolding answer
  answer-open i t db row user_ waiting early there open_ = ground arith

  rolled_back-Joined :
      (tenant : ℕ) (db : Directory) (r : Result ℕ × Directory)
      → Joined tenant r
      → Joined tenant (rolled_back db r)
  rolled_back-Joined tenant db (ok a, s) h = h
  rolled_back-Joined tenant db (err e, s) h = absurd (ground arith)

  -- The acceptance of an invitation to the user that is pending and not yet expired, in a
  -- workspace that is there, neither suspended nor closed and has a free seat, returns the
  -- invitation and leaves the user an active member of the workspace, provided that the
  -- memberships stand under different keys and the key of a new one is free.
  pub respond-Joined :
      (i : Invitation) (t : Tenant) (db : Directory)
      → HasKeys db.memberships
      → lookup pk db.invitations ≡ some i
      → (i.invited_user == user_pk) ≡ true
      → is_pending i.status ≡ true
      → leb i.expires_at now ≡ false
      → lookup i.tenant db.tenants ≡ some t
      → is_unavailable t ≡ false
      → ltb (count (is_active_member i.tenant) db.memberships) (room defaults db i.tenant) ≡ true
      → lookup fresh.membership db.memberships ≡ none
      → Joined i.tenant (respond defaults limit_key now fresh user_pk user pk true db)
  unfolding respond expire_one expire_stale workspace_limits
  respond-Joined i t db keys row user_ waiting early there open_ free new =
      let u : Directory = expire_one now user_pk pk db in
      let kept : lookup pk u.invitations ≡ some i =
        lookup-update_where pk i
          (λ k i.
            (k == pk && i.invited_user == user_pk) && is_pending i.status && leb i.expires_at now)
          _ db.invitations row
        ∙ ground arith in
      rolled_back-Joined i.tenant u (answer defaults limit_key now fresh user_pk user pk true u) (
        rw (answer-open i t u kept user_ waiting early there open_)
          (accept-Joined i u keys free new))
