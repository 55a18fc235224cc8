-- ===== src/Workspaces/Admissions.antt =====
-- What the calls of apps/tenants/services.py that make a user an owner or admit one write.
use tenora.Base.{
  ℕ, String, Bool, not, ◌&&◌, ◌||◌, ◌==◌, ◌≡◌, refl, ◌⊎◌, inl, inr, arith, Bool-cases, Option-cases,
  is_some, ltb, leb,
}
use tenora.Base.Table.{lookup, exists, first_row, first_row-lookup}
use tenora.Base.Keys.{HasKeys, first_row-fits}
use tenora.Base.Queries.{count}
use tenora.Exec.{Result, ok, err, Result-cases, rolled_back}
use tenora.Workspaces.Rows.{
  User, Invitation, Directory, is_pending, is_active_user, membership_row, active_row,
  notify_owners,
}
use tenora.Workspaces.Limits.{
  Limits, workspace_limits, assert_can_create_workspace, assert_can_activate_member,
  active_member_count, is_active_member,
}
use tenora.Workspaces.Tenants.{create_tenant, insert_tenant, insert_membership}
use tenora.Workspaces.Memberships.{transfer_ownership, is_no_heir}
use tenora.Workspaces.Invitations.{
  Fresh, accept, admit, house, answer, decline, respond, mine, is_answered, is_unavailable,
  expire_one,
}
use tenora.Workspaces.Edits.{Shrink, unchanged, transfer, Grow, found, readmit}
use tenora.Workspaces.Edits
use tenora.Workspaces.Calls.{Shrinks, KeepsPlans}

pub transfer_ownership-Shrinks :
    (defaults : Limits) (actor tenant pk : ℕ) (db : Directory)
    → HasKeys db.memberships
    → Shrinks db (transfer_ownership defaults actor tenant pk db).1
unfolding transfer_ownership membership_row active_row assert_can_create_workspace is_no_heir
transfer_ownership-Shrinks defaults actor tenant pk db keys =
    elim (Option-cases (lookup pk db.memberships)) [
      | inl e ↦ unchanged (ground arith) (ground arith)
      | inr (m, e) ↦ elim (Option-cases (first_row (is_active_user tenant actor) db.memberships)) [
        | inl missing ↦ unchanged (ground arith) (ground arith)
        | inr ((own, current), here) ↦
            let fits =
              first_row-fits (is_active_user tenant actor) own current db.memberships keys here in
            let at =
              first_row-lookup (is_active_user tenant actor) own current db.memberships here in
            elim (Result-cases (transfer_ownership defaults actor tenant pk db).0) [
              | inr (problem, failed) ↦ unchanged (ground arith) (ground arith)
              | inl (done_, went) ↦
                  let name : m.tenant ≡ tenant = ground arith in
                  transfer actor pk own m current e (ground arith) (ground arith) at (ground arith)
                    (ground arith) (ground arith)
            ]
      ]
    ]

-- The seats of the workspaces, which the calls leave alone.
abbrev pub room : Limits → Directory → ℕ → ℕ
room defaults db t = (workspace_limits defaults t db).max_members_per_workspace

abbrev pub Grows : Limits → Directory → Directory → Type 0
Grows defaults db db' =
    Shrinks db db' ⊎ Grow db.tenants db.memberships db'.tenants db'.memberships (room defaults db)

pub create_tenant-Grows :
    (defaults : Limits) (fresh fresh_membership user : ℕ) (name slug : String) (db : Directory)
    → Grows defaults db (create_tenant defaults fresh fresh_membership user name slug db).1
unfolding create_tenant insert_tenant insert_membership assert_can_create_workspace
create_tenant-Grows defaults fresh fresh_membership user name slug db =
    elim (Result-cases (create_tenant defaults fresh fresh_membership user name slug db).0) [
      | inr (problem, failed) ↦ inl (unchanged (ground arith) (ground arith))
      | inl (done_, went) ↦
          inr (
            found fresh fresh_membership user name slug (ground arith) (ground arith)
              (ground arith))
    ]

pub create_tenant-KeepsPlans :
    (defaults : Limits) (fresh fresh_membership user : ℕ) (name slug : String) (db : Directory)
    → KeepsPlans db (create_tenant defaults fresh fresh_membership user name slug db).1
unfolding create_tenant insert_tenant insert_membership assert_can_create_workspace
create_tenant-KeepsPlans defaults fresh fresh_membership user name slug db =
    (ground arith, ground arith)

module _ (defaults : Limits) (limit_key : ℕ → ℕ → ℕ → String) (now : ℕ) (fresh : Fresh)
    (user_pk : ℕ) (user : User) (pk : ℕ) where
  accept-Grows :
      (i : Invitation) (db : Directory)
      → HasKeys db.memberships
      → Grows defaults db (accept defaults limit_key now fresh user_pk user pk i db).1
  unfolding accept admit house insert_membership assert_can_activate_member active_member_count
  accept-Grows i db keys =
      elim (Bool-cases
        (ltb (count (is_active_member i.tenant) db.memberships) (room defaults db i.tenant))) [
          | inr full ↦ inl (unchanged (ground arith) (ground arith))
          | inl free ↦
              elim (Option-cases
                (first_row (λ m. m.tenant == i.tenant && m.user == user_pk) db.memberships)) [
                  | inl missing ↦
                      elim (Bool-cases (
                        is_some (lookup fresh.membership db.memberships)
                        || exists (λ o. o.user == user_pk && o.tenant == i.tenant)
                            db.memberships)) [
                              | inl clash ↦ inl (unchanged (ground arith) (ground arith))
                              | inr none_ ↦ inr (
                                  Edits.admit fresh.membership user_pk i.tenant (ground arith) free
                                    (ground arith) (ground arith))
                            ]
                  | inr ((k, m), there) ↦
                      let fits =
                        first_row-fits (λ m. m.tenant == i.tenant && m.user == user_pk) k m
                          db.memberships keys there in
                      let at =
                        first_row-lookup (λ m. m.tenant == i.tenant && m.user == user_pk) k m
                          db.memberships there in
                      let name : i.tenant ≡ m.tenant = ground arith in
                      inr (readmit k m at (rw name at free) (ground arith) (ground arith))
                ]
        ]

  accept-KeepsPlans :
      (i : Invitation) (db : Directory)
      → KeepsPlans db (accept defaults limit_key now fresh user_pk user pk i db).1
  unfolding accept admit house insert_membership assert_can_activate_member
  accept-KeepsPlans i db = (ground arith, ground arith)

  decline-quiet :
      (i : Invitation) (db : Directory)
      → Shrinks db (decline now user_pk pk i db).1 × KeepsPlans db (decline now user_pk pk i db).1
  unfolding decline notify_owners
  decline-quiet i db = (unchanged refl refl, (refl, refl))

  -- An answer ends as it began, with the writes of a refusal, or with those of an acceptance.
  answer-ends :
      (accepts : Bool) (db : Directory)
      → ((answer defaults limit_key now fresh user_pk user pk accepts db).1 ≡ db)
        ⊎ ((i : Invitation) × ((answer defaults limit_key now fresh user_pk user pk accepts db).1
              ≡ (decline now user_pk pk i db).1))
        ⊎ ((i : Invitation) × ((answer defaults limit_key now fresh user_pk user pk accepts db).1
              ≡ (accept defaults limit_key now fresh user_pk user pk i db).1))
  unfolding answer
  answer-ends accepts db = elim (Option-cases (mine user_pk (lookup pk db.invitations))) [
    | inl missing ↦ inl (ground arith)
    | inr (i, there) ↦
        elim (Bool-cases
          (is_answered accepts i.status || not (is_pending i.status) || leb i.expires_at now)) [
            | inl over ↦ inl (ground arith)
            | inr open_ ↦ elim (Option-cases (lookup i.tenant db.tenants)) [
              | inl gone ↦ inl (ground arith)
              | inr (t, tenant) ↦ elim (Bool-cases accepts) [
                | inr declines ↦ inr (inl (i, ground arith))
                | inl joins ↦ elim (Bool-cases (is_unavailable t)) [
                  | inl shut ↦ inl (ground arith)
                  | inr free ↦ inr (inr (i, ground arith))
                ]
              ]
            ]
          ]
  ]

  answer-Grows :
      (accepts : Bool) (db : Directory)
      → HasKeys db.memberships
      → Grows defaults db (answer defaults limit_key now fresh user_pk user pk accepts db).1
  answer-Grows accepts db keys = elim (answer-ends accepts db) [
    | inl e ↦ rw e (inl (unchanged refl refl))
    | inr (inl (i, e)) ↦ rw e (inl (decline-quiet i db).0)
    | inr (inr (i, e)) ↦ rw e (accept-Grows i db keys)
  ]

  answer-KeepsPlans :
      (accepts : Bool) (db : Directory)
      → KeepsPlans db (answer defaults limit_key now fresh user_pk user pk accepts db).1
  answer-KeepsPlans accepts db = elim (answer-ends accepts db) [
    | inl e ↦ rw e (refl, refl)
    | inr (inl (i, e)) ↦ rw e (decline-quiet i db).1
    | inr (inr (i, e)) ↦ rw e (accept-KeepsPlans i db)
  ]

  rolled_back-ends :
      (P : Directory → Type 0) (db : Directory) (r : Result ℕ × Directory)
      → P db
      → P r.1
      → P (rolled_back db r).1
  rolled_back-ends P db (ok a, s) before after = after
  rolled_back-ends P db (err e, s) before after = before

  pub respond-Grows :
      (accepts : Bool) (db : Directory)
      → HasKeys db.memberships
      → Grows defaults db (respond defaults limit_key now fresh user_pk user pk accepts db).1
        × KeepsPlans db (respond defaults limit_key now fresh user_pk user pk accepts db).1
  unfolding respond expire_one workspace_limits
  respond-Grows accepts db keys =
      rolled_back-ends (λ u. Grows defaults db u × KeepsPlans db u) (expire_one now user_pk pk db)
        (answer defaults limit_key now fresh user_pk user pk accepts (expire_one now user_pk pk db))
        (inl (unchanged refl refl), (refl, refl))
        (
          answer-Grows accepts (expire_one now user_pk pk db) keys,
          answer-KeepsPlans accepts (expire_one now user_pk pk db),
        )
