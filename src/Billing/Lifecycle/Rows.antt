-- ===== src/Billing/Lifecycle/Rows.antt =====
-- What becomes of a subscription's row (apps/billing/services.py) over any writes: its status takes
-- the edges of the diagram, its workspace stays, and once canceled it is not written again.
use tenora.Base.{ℕ, true, false, ◌≡◌, refl, ◌==◌, arith, Bool-cases, inl, inr, ◌∙◌, none, some}
use tenora.Base.Table.{Table, lookup, save, lookup-save}
use tenora.Billing.Rows.{Subscription, Status, is_canceled}
use tenora.Billing.Lifecycle.{
  ◌⟶◌, ◌⟶*◌, here, onward, Write, insert, move, replan, renew, adopt, Writes, done, next,
}

pub ⟶-live : {a b : Status} → a ⟶ b → is_canceled a ≡ false
⟶-live e = grind (arith, e)

pub ⟶*-trans : {a b c : Status} → a ⟶* b → b ⟶* c → a ⟶* c
⟶*-trans p here = p
⟶*-trans p (onward q e) = onward (⟶*-trans p q) e

pub record Steady (s s' : Subscription) : Type 0 where
  pub tenant : s'.tenant ≡ s.tenant
  pub status : s.status ⟶* s'.status
  pub frozen : is_canceled s.status ≡ true → s' ≡ s
  pub mark : s'.last_event_at ≡ s.last_event_at

pub Steady-trans : {a b c : Subscription} → Steady a b → Steady b c → Steady a c
Steady-trans {a} {b} {c} p q = record {
  tenant = q.tenant ∙ p.tenant;
  status = ⟶*-trans p.status q.status;
  frozen = λ h. let same : b ≡ a = p.frozen h in q.frozen (rw same h) ∙ same;
  mark = q.mark ∙ p.mark;
}

-- Every row is there still, and stands in a relation to what it was.
abbrev pub Kept :
    (Subscription → Subscription → Type 0) → Table Subscription → Table Subscription → Type 0
Kept R t u =
    (pk : ℕ) (s : Subscription)
    → lookup pk t ≡ some s
    → (s' : Subscription) × (lookup pk u ≡ some s') × R s s'

module _ (R : Subscription → Subscription → Type 0) (same : (s : Subscription) → R s s) where
  -- One row is written.
  pub Kept-save :
      (pk : ℕ) (s s' : Subscription) (t : Table Subscription)
      → lookup pk t ≡ some s
      → R s s'
      → Kept R t (save pk s' t)
  Kept-save pk s s' t e r j v h = elim (Bool-cases (pk == j)) [
    | inl hit ↦
        let row : lookup j (save pk s' t) ≡ some s' = ground (arith, lookup-save j pk s' t) in
        let key : pk ≡ j = ground arith in
        let old : s ≡ v = ground (arith) in (s', row, rw (← old) r)
    | inr miss ↦
        let row : lookup j (save pk s' t) ≡ some v = ground (arith, lookup-save j pk s' t) in
        (v, row, same v)
  ]

  -- A row is written under a new key.
  pub Kept-save_new :
      (pk : ℕ) (s : Subscription) (t : Table Subscription)
      → lookup pk t ≡ none
      → Kept R t (save pk s t)
  Kept-save_new pk s t e j v h = elim (Bool-cases (pk == j)) [
    | inl hit ↦ absurd (ground arith)
    | inr miss ↦
        let row : lookup j (save pk s t) ≡ some v = ground (arith, lookup-save j pk s t) in
        (v, row, same v)
  ]

Steady-refl : (s : Subscription) → Steady s s
Steady-refl s = record { tenant = refl; status = here; frozen = λ _. refl; mark = refl }

-- A row that is not canceled may take any new values but a workspace, a status and a mark.
live :
    (s s' : Subscription)
    → is_canceled s.status ≡ false
    → s'.tenant ≡ s.tenant
    → s.status ⟶* s'.status
    → s'.last_event_at ≡ s.last_event_at
    → Steady s s'
live s s' c tenant status mark = record {
  tenant = tenant;
  status = status;
  frozen = λ h. absurd (ground arith);
  mark = mark;
}

pub Write-Kept : {t u : Table Subscription} → Write t u → Kept Steady t u
Write-Kept {t} (insert pk tenant plan start end external e c) =
    Kept-save_new Steady Steady-refl pk _ t e
Write-Kept {t} (move pk s new e edge) =
    Kept-save Steady Steady-refl pk s _ t e
      (live s (record s { status = new }) (⟶-live edge) refl (onward here edge) refl)
Write-Kept {t} (replan pk s plan e c) =
    Kept-save Steady Steady-refl pk s _ t e (live s (record s { plan = plan }) c refl here refl)
Write-Kept {t} (renew pk s start end e c) =
    Kept-save Steady Steady-refl pk s _ t e (
      live s (record s { current_period_start = start; current_period_end = end }) c refl here refl)
Write-Kept {t} (adopt pk s external e c free) =
    Kept-save Steady Steady-refl pk s _ t e
      (live s (record s { external_subscription_id = external }) c refl here refl)

pub Writes-Kept : {t u : Table Subscription} → Writes t u → Kept Steady t u
Writes-Kept done pk s h = (s, h, Steady-refl s)
Writes-Kept (next ws w) pk s h =
    let (m, row, p) = Writes-Kept ws pk s h in
    let (n, row', q) = Write-Kept w pk m row in (n, row', Steady-trans p q)
