-- ===== src/Billing/Lifecycle.antt =====
-- The life of a subscription, as apps/billing/services.py describes it: the diagram of its states,
-- and the writes that its row may see. A canceled subscription is written no more.
pub mod Rows
pub mod Unique
use tenora.Base.{ℕ, true, false, ◌≡◌, refl, arith, Bool, Bool-cases, inl, inr, Option, none, some}
use tenora.Base.Table.{Table, lookup, save, exists, exists_other}
use tenora.Exec.{Exec, Result, ok, err, Error, continued, rolled_back, recovered_if}
use tenora.Billing.Rows.{Subscription, Status, Store, clashes, same_id, is_canceled}
use tenora.Billing.Subscriptions.{is_legal, new_subscription}

infix 40 ◌⟶◌ ◌⟶*◌
pub data ◌⟶◌ : Status → Status → Type 0 where
  start : Status.trialing ⟶ Status.active
  abandon : Status.trialing ⟶ Status.canceled
  miss : Status.active ⟶ Status.past_due
  recover : Status.past_due ⟶ Status.active
  cancel : Status.active ⟶ Status.canceled
  give_up : Status.past_due ⟶ Status.canceled

pub data ◌⟶*◌ (a : Status) : Status → Type 0 where
  here : a ⟶* a
  onward : {b c : Status} → a ⟶* b → b ⟶ c → a ⟶* c

ruleset edges = (start, abandon, miss, recover, cancel, give_up)

-- The table of legal transitions is the diagram.
pub is_legal-⟶ : (a b : Status) → is_legal a b ≡ true → a ⟶ b
unfolding is_legal
is_legal-⟶ a b h = grind (arith, edges)

-- One write to the table of subscriptions.
pub data Write (t : Table Subscription) : Table Subscription → Type 0 where
  insert :
      (pk tenant plan start end : ℕ) (external : Option ℕ)
      → lookup pk t ≡ none
      → exists (clashes (new_subscription tenant plan start end external)) t ≡ false
      → Write t (save pk (new_subscription tenant plan start end external) t)
  move :
      (pk : ℕ) (s : Subscription) (new : Status)
      → lookup pk t ≡ some s
      → s.status ⟶ new
      → Write t (save pk (record s { status = new }) t)
  replan :
      (pk : ℕ) (s : Subscription) (plan : ℕ)
      → lookup pk t ≡ some s
      → is_canceled s.status ≡ false
      → Write t (save pk (record s { plan = plan }) t)
  renew :
      (pk : ℕ) (s : Subscription) (start end : ℕ)
      → lookup pk t ≡ some s
      → is_canceled s.status ≡ false
      → Write t (save pk (record s { current_period_start = start; current_period_end = end }) t)
  adopt :
      (pk : ℕ) (s : Subscription) (external : Option ℕ)
      → lookup pk t ≡ some s
      → is_canceled s.status ≡ false
      → exists_other pk (λ o. same_id o.external_subscription_id external) t ≡ false
      → Write t (save pk (record s { external_subscription_id = external }) t)

pub data Writes (t : Table Subscription) : Table Subscription → Type 0 where
  done : Writes t t
  next : {u v : Table Subscription} → Writes t u → Write u v → Writes t v

pub Writes-trans : {t u v : Table Subscription} → Writes t u → Writes u v → Writes t v
Writes-trans a done = a
Writes-trans a (next b w) = next (Writes-trans a b) w

pub one : {t u : Table Subscription} → Write t u → Writes t u
one w = next done w

-- What a call writes, through the combinators of the services.
module _ {ℓ κ} {A : Type ℓ} {B : Type κ} where
  pub continued-Writes :
      (t : Table Subscription) (f : A → Exec Store B) (r : Result A × Store)
      → Writes t r.1.subscriptions
      → ((a : A) → r.0 ≡ ok a → Writes r.1.subscriptions (f a r.1).1.subscriptions)
      → Writes t (continued f r).1.subscriptions
  continued-Writes t f (ok a, db) w k = Writes-trans w (k a refl)
  continued-Writes t f (err e, db) w k = w

module _ {ℓ} {A : Type ℓ} where
  pub rolled_back-Writes :
      (db : Store) (r : Result A × Store)
      → Writes db.subscriptions r.1.subscriptions
      → Writes db.subscriptions (rolled_back db r).1.subscriptions
  rolled_back-Writes db (ok a, db') w = w
  rolled_back-Writes db (err e, db') w = done

  pub recovered_if-Writes :
      (t : Table Subscription) (catches : Error → Bool) (handler : Exec Store A)
      (r : Result A × Store)
      → Writes t r.1.subscriptions
      → Writes r.1.subscriptions (handler r.1).1.subscriptions
      → Writes t (recovered_if catches handler r).1.subscriptions
  recovered_if-Writes t catches handler (ok a, db) w k = w
  recovered_if-Writes t catches handler (err e, db) w k = elim (Bool-cases (catches e)) [
    | inl caught ↦ rw caught (Writes-trans w k)
    | inr passed ↦ rw passed w
  ]
