-- ===== src/Billing/Lifecycle/Unique.antt =====
-- One subscription for each workspace, and one for each provider id (the constraints of
-- `Subscription` in apps/billing/models.py), over any writes.
use tenora.Base.{ℕ, Bool, [], ◌∷◌, false, ◌≡◌, refl, ◌==◌, inl, inr, arith, Option, none, some}
use tenora.Base.Table.{Table, lookup, save, exists_other}
use tenora.Base.Rows.{
  AllRows, Pairs, Pairs-save, Pairs-IsRow, lookup-IsRow, AllRows-map, AllRows-both, AllRows-exists,
  AllRows-lookup-none,
}
use tenora.Billing.Rows.{Subscription, clashes, same_id}
use tenora.Billing.Subscriptions.{new_subscription}
use tenora.Billing.Lifecycle.{Write, insert, move, replan, renew, adopt, Writes, done, next}

abbrev pub Apart : ℕ → Subscription → ℕ → Subscription → Type 0
Apart j w k v = ((j == k) ≡ false) × (clashes w v ≡ false)

abbrev pub IsUnique : Table Subscription → Type 0
IsUnique t = Pairs Apart t

same_id_sym : (a b : Option ℕ) → same_id a b ≡ false → same_id b a ≡ false
same_id_sym none none h = refl
same_id_sym none (some b) h = refl
same_id_sym (some a) none h = refl
same_id_sym (some a) (some b) h = ground arith

Apart_sym : (j : ℕ) (w : Subscription) (k : ℕ) (v : Subscription) → Apart j w k v → Apart k v j w
Apart_sym j w k v h = (
  ground arith,
  ground (arith, same_id_sym v.external_subscription_id w.external_subscription_id),
)

-- The rows under other keys, seen from one row.
others :
    (k : ℕ) (s : Subscription) (t : Table Subscription)
    → IsUnique t
    → lookup k t ≡ some s
    → AllRows (λ i u. (i == k) ≡ false → Apart k s i u) t
others k s t h e =
    AllRows-map _ _ t (λ i u r ne. elim r [ inl same ↦ absurd (ground arith) | inr apart ↦ apart ])
      (Pairs-IsRow Apart Apart_sym k s t h (lookup-IsRow k s t e))

-- A row that keeps its workspace and its provider id is written.
pub IsUnique-keep :
    (k : ℕ) (s s' : Subscription) (t : Table Subscription)
    → lookup k t ≡ some s
    → s'.tenant ≡ s.tenant
    → s'.external_subscription_id ≡ s.external_subscription_id
    → IsUnique t
    → IsUnique (save k s' t)
IsUnique-keep k s s' t e tenant external h =
    Pairs-save Apart Apart_sym (λ j w k v r. r.0) k s' t h
      (AllRows-map _ _ t (λ i u r ne. rw (tenant, external) (r ne)) (others k s t h e))

AllRows-exists_other :
    (k : ℕ) (p : Subscription → Bool) (t : Table Subscription)
    → exists_other k p t ≡ false
    → AllRows (λ i u. (i == k) ≡ false → p u ≡ false) t
unfolding exists_other
AllRows-exists_other k p [] h = tt
AllRows-exists_other k p ((j, w) ∷ t) h =
    (λ ne. ground arith, AllRows-exists_other k p t (ground arith))

Write-IsUnique : {t u : Table Subscription} → Write t u → IsUnique t → IsUnique u
Write-IsUnique {t} (insert pk tenant plan start end external e c) h =
    let s : Subscription = new_subscription tenant plan start end external in
    Pairs-save Apart Apart_sym (λ j w k v r. r.0) pk s t h
      (AllRows-map _ _ t (λ i u r _. Apart_sym i u pk s (r.0, same_sym s u r.1))
        (AllRows-both _ _ t (AllRows-lookup-none pk t e) (AllRows-exists (clashes s) t c)))
  where
    same_sym : (s u : Subscription) → clashes s u ≡ false → clashes u s ≡ false
    same_sym s u h =
        ground (arith, same_id_sym u.external_subscription_id s.external_subscription_id)
Write-IsUnique {t} (move pk s new e edge) h = IsUnique-keep pk s _ t e refl refl h
Write-IsUnique {t} (replan pk s plan e c) h = IsUnique-keep pk s _ t e refl refl h
Write-IsUnique {t} (renew pk s start end e c) h = IsUnique-keep pk s _ t e refl refl h
Write-IsUnique {t} (adopt pk s external e c free) h =
    let s' : Subscription = record s { external_subscription_id = external } in
    Pairs-save Apart Apart_sym (λ j w k v r. r.0) pk s' t h
      (AllRows-map _ _ t (λ i u r ne. ground (arith, r.0 ne, r.1 ne))
        (AllRows-both _ _ t (others pk s t h e) (AllRows-exists_other pk _ t free)))

pub Writes-IsUnique : {t u : Table Subscription} → Writes t u → IsUnique t → IsUnique u
Writes-IsUnique done h = h
Writes-IsUnique (next ws w) h = Write-IsUnique w (Writes-IsUnique ws h)
