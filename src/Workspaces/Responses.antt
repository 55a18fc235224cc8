-- ===== src/Workspaces/Responses.antt =====
-- `InvitationService.respond` of apps/tenants/services.py: an invitation can be accepted, and an
-- answer can be repeated.
use tenora.Base.{
  ℕ, String, Bool, true, false, ◌&&◌, none, some, ◌==◌, ◌≡◌, refl, sym, ap, ◌∙◌, ◌⊎◌, inl, inr,
  arith, Bool-cases, Option-cases, leb, Option,
}
use tenora.Base.Table.{Table, lookup, save, lookup-save_same}
use tenora.Base.Keys.{HasKeys, HasKeys-save, HasKeys-update_where, update_where_none}
use tenora.Exec.{Result, ok, err, rolled_back}
use tenora.Workspaces.Rows.{
  User, Invitation, InvitationStatus, Directory, is_pending, notify_owners,
}
use tenora.Workspaces.Limits.{Limits, assert_can_activate_member}
use tenora.Workspaces.Tenants.{insert_membership}
use tenora.Workspaces.Invitations.{
  Fresh, accept, admit, house, answer, decline, respond, mine, is_answered, is_unavailable,
  expire_stale, expire_one,
}

module _ (defaults : Limits) (limit_key : ℕ → ℕ → ℕ → String) (now : ℕ) (fresh : Fresh)
    (user_pk : ℕ) (user : User) (pk : ℕ) where
  -- What an answer leaves in the row of the invitation.
  abbrev IsAnswered : Bool → Directory → Type 0
  IsAnswered accepts db =
      HasKeys db.invitations
      × ((i : Invitation) × (lookup pk db.invitations ≡ some i)
          × (i.invited_user == user_pk ≡ true)
          × (is_answered accepts i.status ≡ true))

  accept-row :
      (i : Invitation) (db : Directory) (k : ℕ)
      → (accept defaults limit_key now fresh user_pk user pk i db).0 ≡ ok k
      → (accept defaults limit_key now fresh user_pk user pk i db).1.invitations
        ≡ save pk
            (record i { status = InvitationStatus.accepted; responded_at = some now })
            db.invitations
  unfolding accept admit house insert_membership assert_can_activate_member
  accept-row i db k h = ground arith

  accept-returns :
      (i : Invitation) (db : Directory) (k : ℕ)
      → (accept defaults limit_key now fresh user_pk user pk i db).0 ≡ ok k
      → k ≡ pk
  unfolding accept admit house insert_membership assert_can_activate_member
  accept-returns i db k h = ground arith

  decline-returns :
      (i : Invitation) (db : Directory) (k : ℕ) → (decline now user_pk pk i db).0 ≡ ok k → k ≡ pk
  unfolding decline notify_owners
  decline-returns i db k h = ground arith

  decline-row :
      (i : Invitation) (db : Directory)
      → (decline now user_pk pk i db).1.invitations
        ≡ save pk
            (record i { status = InvitationStatus.declined; responded_at = some now })
            db.invitations
  unfolding decline notify_owners
  decline-row i db = refl

  answered_row :
      (accepts : Bool) (db : Directory) (i : Invitation) (table : Table Invitation)
      → HasKeys db.invitations
      → (i.invited_user == user_pk) ≡ true
      → is_answered accepts i.status ≡ true
      → table ≡ save pk i db.invitations
      → HasKeys table
        × ((j : Invitation) × (lookup pk table ≡ some j)
            × (j.invited_user == user_pk ≡ true)
            × (is_answered accepts j.status ≡ true))
  answered_row accepts db i table keys user_ done_ e = rw e (
    HasKeys-save pk i db.invitations keys,
    (i, lookup-save_same pk i db.invitations, user_, done_),
  )

  -- An answer that returns was given already, is a refusal or is an acceptance.
  answer-ok :
      (accepts : Bool) (db : Directory) (k : ℕ)
      → (answer defaults limit_key now fresh user_pk user pk accepts db).0 ≡ ok k
      → (i : Invitation) × (mine user_pk (lookup pk db.invitations) ≡ some i)
        × (((is_answered accepts i.status ≡ true)
              × (answer defaults limit_key now fresh user_pk user pk accepts db ≡ (ok pk, db)))
            ⊎ ((accepts ≡ false)
                × (answer defaults limit_key now fresh user_pk user pk accepts db
                    ≡ decline now user_pk pk i db))
            ⊎ ((accepts ≡ true)
                × (answer defaults limit_key now fresh user_pk user pk accepts db
                    ≡ accept defaults limit_key now fresh user_pk user pk i db)))
  unfolding answer
  answer-ok accepts db k h = elim (Option-cases (mine user_pk (lookup pk db.invitations))) [
    | inl missing ↦ absurd (ground arith)
    | inr (i, there) ↦ elim (Bool-cases (is_answered accepts i.status)) [
      | inl over ↦ (i, there, inl (over, ground arith))
      | inr open_ ↦ elim (Option-cases (lookup i.tenant db.tenants)) [
        | inl gone ↦ absurd (ground arith)
        | inr (t, tenant) ↦ elim (Bool-cases accepts) [
          | inr declines ↦ (i, there, inr (inl (declines, ground arith)))
          | inl joins ↦ elim (Bool-cases (is_unavailable t)) [
            | inl shut ↦ absurd (ground arith)
            | inr free ↦ (i, there, inr (inr (joins, ground arith)))
          ]
        ]
      ]
    ]
  ]

  mine_row :
      (o : Option Invitation) (i : Invitation)
      → mine user_pk o ≡ some i
      → (o ≡ some i) × (i.invited_user == user_pk ≡ true)
  mine_row none i h = absurd (ground arith)
  mine_row (some j) i h = (ground arith, ground arith)

  answer-IsAnswered :
      (accepts : Bool) (db : Directory) (k : ℕ)
      → HasKeys db.invitations
      → (answer defaults limit_key now fresh user_pk user pk accepts db).0 ≡ ok k
      → (k ≡ pk)
        × IsAnswered accepts (answer defaults limit_key now fresh user_pk user pk accepts db).1
  answer-IsAnswered accepts db k keys h =
      let (i, there, way) = answer-ok accepts db k h in
      let (row, user_) = mine_row (lookup pk db.invitations) i there in
      elim way [
        | inl (done_, e) ↦ (ground arith, rw e (keys, (i, row, user_, done_)))
        | inr (inl (declines, e)) ↦ (
          decline-returns i db k (ap (λ r. r.0) (sym e) ∙ h),
          rw e (
              answered_row accepts db
                (record i { status = InvitationStatus.declined; responded_at = some now }) _ keys
                user_ (rw declines refl) (decline-row i db)),
        )
        | inr (inr (joins, e)) ↦ (
          accept-returns i db k (ap (λ r. r.0) (sym e) ∙ h),
          rw e (
              answered_row accepts db
                (record i { status = InvitationStatus.accepted; responded_at = some now }) _ keys
                user_ (rw joins refl) (accept-row i db k (ap (λ r. r.0) (sym e) ∙ h))),
        )
      ]

  rolled_back-ok :
      (P : Directory → Type 0) (db : Directory) (r : Result ℕ × Directory) (k : ℕ)
      → (rolled_back db r).0 ≡ ok k
      → (r.0 ≡ ok k → P r.1)
      → P (rolled_back db r).1
  rolled_back-ok P db (ok a, s) k h then_ = then_ h
  rolled_back-ok P db (err e, s) k h then_ = absurd (ground arith)

  rolled_back-result :
      (db : Directory) (r : Result ℕ × Directory) (k : ℕ) → (rolled_back db r).0 ≡ ok k → r.0 ≡ ok k
  rolled_back-result db (ok a, s) k h = h
  rolled_back-result db (err e, s) k h = absurd (ground arith)

  respond-IsAnswered :
      (accepts : Bool) (db : Directory) (k : ℕ)
      → HasKeys db.invitations
      → (respond defaults limit_key now fresh user_pk user pk accepts db).0 ≡ ok k
      → (k ≡ pk)
        × IsAnswered accepts (respond defaults limit_key now fresh user_pk user pk accepts db).1
  unfolding respond expire_stale expire_one
  respond-IsAnswered accepts db k keys h =
      let u : Directory = expire_one now user_pk pk db in
      let keys' : HasKeys u.invitations = HasKeys-update_where _ _ db.invitations keys in
      let r = answer defaults limit_key now fresh user_pk user pk accepts u in
      (
        (answer-IsAnswered accepts u k keys' (rolled_back-result u r k h)).0,
        rolled_back-ok (IsAnswered accepts) u r k h
            (λ went. (answer-IsAnswered accepts u k keys' went).1),
      )

  answer-answered :
      (accepts : Bool) (db : Directory)
      → IsAnswered accepts db
      → answer defaults limit_key now fresh user_pk user pk accepts db ≡ (ok pk, db)
  unfolding answer
  answer-answered accepts db (keys, (i, row, user_, done_)) = ground arith

  is_answered-pending :
      (accepts : Bool) (s : InvitationStatus) → is_answered accepts s ≡ true → is_pending s ≡ false
  is_answered-pending accepts s h = ground arith

  respond-answered :
      (accepts : Bool) (db : Directory)
      → IsAnswered accepts db
      → respond defaults limit_key now fresh user_pk user pk accepts db ≡ (ok pk, db)
  unfolding respond expire_stale expire_one
  respond-answered accepts db (keys, (i, row, user_, done_)) =
      let over = is_answered-pending accepts i.status done_ in
      let table : expire_stale (λ k i. k == pk && i.invited_user == user_pk) now db.invitations
          ≡ db.invitations =
        update_where_none pk i
          (λ k i.
            k == pk && i.invited_user == user_pk && is_pending i.status && leb i.expires_at now)
          _ db.invitations keys row (ground arith) (λ j w ne. ground arith) in
      ap
        (λ t.
          rolled_back (record db { invitations = t })
            (answer defaults limit_key now fresh user_pk user pk accepts
              (record db { invitations = t })))
        table
      ∙ ap (rolled_back db) (answer-answered accepts db (keys, (i, row, user_, done_)))

-- If the invitations stand under different keys, then once an answer to an invitation has
-- returned, the same answer of that user, at any time and under any limits, returns the same
-- invitation and changes nothing.
pub respond_again :
    (defaults defaults' : Limits) (limit_key limit_key' : ℕ → ℕ → ℕ → String) (now now' : ℕ)
    (fresh fresh' : Fresh) (user_pk : ℕ) (user user' : User) (pk k : ℕ) (accepts : Bool)
    (db : Directory)
    → HasKeys db.invitations
    → (respond defaults limit_key now fresh user_pk user pk accepts db).0 ≡ ok k
    → respond defaults' limit_key' now' fresh' user_pk user' pk accepts
        (respond defaults limit_key now fresh user_pk user pk accepts db).1
      ≡ (ok k, (respond defaults limit_key now fresh user_pk user pk accepts db).1)
respond_again defaults defaults' limit_key limit_key' now now' fresh fresh' user_pk user user' pk k
      accepts db keys h =
    let (key, answered) =
      respond-IsAnswered defaults limit_key now fresh user_pk user pk accepts db k keys h in
    rw key (
      respond-answered defaults' limit_key' now' fresh' user_pk user' pk accepts
        (respond defaults limit_key now fresh user_pk user pk accepts db).1 answered)
