-- ===== src/Billing/Checkouts/Once.antt =====
-- A second click (`CheckoutService.create_checkout` of apps/billing/services.py): the checkout that
-- is open is returned, and the provider is not called again.
use tenora.Base.{
  ℕ, refl, true, Bool-cases, Option-cases, ◌==◌, ◌≡◌, arith, Option, none, some, is_some, inl, inr,
}
use tenora.Base.Table.{lookup, save, first_row, first_row-save, first_row-save_new}
use tenora.Exec.{Result, Result-cases, ok, err, rolled_back}
use tenora.Billing.Rows.{Plan, SubscriptionCheckout, created, Store}
use tenora.Base.Keys.{HasKeys, first_row-fits, first_row-missing}
use tenora.Billing.Gateway.{Gateway}
use tenora.Billing.Checkouts.{
  is_of, insert_checkout, get_or_create, open_checkout, new_checkout, create_checkout, is_abandoned,
  reuse_or_open,
}

-- The workspace's checkout is of this plan, and open at the provider.
abbrev pub IsOpen : ℕ → ℕ → ℕ → Store → Type 0
IsOpen tenant plan_pk pk db =
    (c : SubscriptionCheckout) × (plan : Plan) × (external : ℕ) × (first_row (is_of tenant)
        db.checkouts
      ≡ some (pk, c))
    × (c.plan ≡ plan_pk)
    × (c.external_subscription_id ≡ some external)
    × (lookup plan_pk db.plans ≡ some plan)
    × (is_some plan.external_plan_id ≡ true)

reused :
    (gateway : Gateway) (stale_minutes fresh now tenant plan_pk pk : ℕ) (db : Store)
    → IsOpen tenant plan_pk pk db
    → create_checkout gateway stale_minutes fresh now tenant plan_pk db ≡ (ok pk, db)
unfolding create_checkout get_or_create insert_checkout reuse_or_open
reused gateway stale_minutes fresh now tenant plan_pk pk db
      (c, plan, external, row, same, id, there, synced) =
    ground (arith, row, same, id, there, synced)

open_checkout-IsOpen :
    (gateway : Gateway) (now tenant plan_pk pk k : ℕ) (plan : Plan) (c : SubscriptionCheckout)
    (db db' : Store)
    → first_row (is_of tenant) db.checkouts ≡ some (pk, c)
    → is_of tenant c ≡ true
    → lookup plan_pk db.plans ≡ some plan
    → is_some plan.external_plan_id ≡ true
    → open_checkout gateway now tenant plan_pk plan pk c db ≡ (ok k, db')
    → IsOpen tenant plan_pk k db'
unfolding open_checkout
open_checkout-IsOpen gateway now tenant plan_pk pk k plan c db db' row fits there synced h =
    elim (Result-cases (gateway.create_subscription tenant plan)) [
      | inr (e, failed) ↦ absurd (ground (arith, failed))
      | inl (made, done) ↦
          let c' : SubscriptionCheckout = record c {
            plan = plan_pk;
            external_subscription_id = some made.external_subscription_id;
            provider = made.provider;
            session_token = made.session_token;
            status = created;
            updated_at = now;
          } in
          let written : db' ≡ record db { checkouts = save pk c' db.checkouts } =
            ground (arith, h, done) in
          let key : pk ≡ k = ground (arith, h, done) in
          rw (written, ← key)
            (
              c',
              plan,
              made.external_subscription_id,
              first_row-save (is_of tenant) pk c c' db.checkouts row fits,
              refl,
              refl,
              there,
              synced,
            )
    ]

reuse_or_open-IsOpen :
    (gateway : Gateway) (stale_minutes now tenant plan_pk pk k : ℕ) (plan : Plan)
    (c : SubscriptionCheckout) (db db' : Store)
    → first_row (is_of tenant) db.checkouts ≡ some (pk, c)
    → is_of tenant c ≡ true
    → lookup plan_pk db.plans ≡ some plan
    → is_some plan.external_plan_id ≡ true
    → reuse_or_open gateway stale_minutes now tenant plan_pk plan (pk, c) db ≡ (ok k, db')
    → IsOpen tenant plan_pk k db'
unfolding reuse_or_open
reuse_or_open-IsOpen gateway stale_minutes now tenant plan_pk pk k plan c db db' row fits there
      synced h =
    elim (Option-cases c.external_subscription_id) [
      | inl unopened ↦
          open_checkout-IsOpen gateway now tenant plan_pk pk k plan c db db' row fits there synced
            (ground (arith, h, unopened))
      | inr (external, id) ↦ elim (Bool-cases (c.plan == plan_pk)) [
        | inl same ↦
            let key : pk ≡ k = ground (arith, h, id, same) in
            let store : db ≡ db' = ground (arith, h, id, same) in
            let plan_same : c.plan ≡ plan_pk = ground (arith, same) in
            rw (← key, ← store) (c, plan, external, row, plan_same, id, there, synced)
        | inr other ↦ elim (Bool-cases (is_abandoned gateway stale_minutes now c external)) [
          | inl dead ↦
              open_checkout-IsOpen gateway now tenant plan_pk pk k plan c db db' row fits there
                synced (ground (arith, h, id, other, dead))
          | inr alive ↦ absurd (ground (arith, h, id, other, alive))
        ]
      ]
    ]

kept :
    (db db' : Store) (k : ℕ) (r : Result ℕ × Store)
    → rolled_back db r ≡ (ok k, db')
    → r ≡ (ok k, db')
kept db db' k (ok j, d) h = h
kept db db' k (err e, d) h = absurd (ground arith)

module _ (gateway : Gateway) (stale_minutes fresh now tenant plan_pk k : ℕ) (db db' : Store)
    (keys : HasKeys db.checkouts) (plan : Plan) (there : lookup plan_pk db.plans ≡ some plan)
    (synced : is_some plan.external_plan_id ≡ true) where
  created-IsOpen :
      (row : Option (ℕ × SubscriptionCheckout))
      → first_row (is_of tenant) db.checkouts ≡ row
      → create_checkout gateway stale_minutes fresh now tenant plan_pk db ≡ (ok k, db')
      → IsOpen tenant plan_pk k db'
  unfolding create_checkout get_or_create insert_checkout
  created-IsOpen (some (pk, c)) e h =
      reuse_or_open-IsOpen gateway stale_minutes now tenant plan_pk pk k plan c db db' e
        (first_row-fits (is_of tenant) pk c db.checkouts keys e) there synced
        (kept db db' k (reuse_or_open gateway stale_minutes now tenant plan_pk plan (pk, c) db)
          (ground (arith, h, e, there, synced)))
  created-IsOpen none e h = elim (Option-cases (lookup fresh db.checkouts)) [
    | inr (old, taken) ↦ absurd (ground (arith, h, e, there, synced, taken))
    | inl free ↦
        let c : SubscriptionCheckout = new_checkout tenant plan_pk now in
        let db1 : Store = record db { checkouts = save fresh c db.checkouts } in
        let fits : is_of tenant c ≡ true = ground arith in
        reuse_or_open-IsOpen gateway stale_minutes now tenant plan_pk fresh k plan c db1 db'
          (first_row-save_new (is_of tenant) fresh c db.checkouts
            (first_row-missing (is_of tenant) db.checkouts keys e) fits free)
          fits there synced
          (kept db db' k
            (reuse_or_open gateway stale_minutes now tenant plan_pk plan (fresh, c) db1)
            (ground (arith, h, e, there, synced, free)))
  ]

-- If the rows of the checkouts stand under different keys, then once create_checkout has returned
-- a checkout for a workspace and a plan, calling it again for them, at any time and whatever the
-- provider would answer, returns the same checkout and changes nothing.
pub create_checkout_again :
    (gateway gateway' : Gateway)
    (stale_minutes stale_minutes' fresh fresh' now now' tenant plan_pk k : ℕ) (db db' : Store)
    → HasKeys db.checkouts
    → create_checkout gateway stale_minutes fresh now tenant plan_pk db ≡ (ok k, db')
    → create_checkout gateway' stale_minutes' fresh' now' tenant plan_pk db' ≡ (ok k, db')
unfolding create_checkout
create_checkout_again gateway gateway' stale_minutes stale_minutes' fresh fresh' now now' tenant
      plan_pk k db db' keys h =
    elim (Option-cases (lookup plan_pk db.plans)) [
      | inl missing ↦ absurd (ground (arith, h, missing))
      | inr (plan, there) ↦ elim (Bool-cases (is_some plan.external_plan_id)) [
        | inr unsynced ↦ absurd (ground (arith, h, there, unsynced))
        | inl synced ↦ reused gateway' stale_minutes' fresh' now' tenant plan_pk k db' (
            created-IsOpen gateway stale_minutes fresh now tenant plan_pk k db db' keys plan there
              synced (first_row (is_of tenant) db.checkouts) refl h)
      ]
    ]
